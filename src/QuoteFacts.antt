-- ===== src/QuoteFacts.antt =====
-- storage-service/db.py: the statement `ROLLUP_AND_PRUNE_QUOTES_SQL` deletes old quotes and keeps
-- one fact for each symbol and each hour or day; an older fact takes the new quotes in. A price is
-- only compared, so it is a number of some unit. The collation that orders the providers gives each
-- a rank; the hour or day of a time is a parameter.
pub mod Providers
pub mod Merge
pub mod Tables
use social_sentiment.Schemas.{StockQuote}
use social_sentiment.Prelude.{
  ℕ, List, Bool, String, ◌∷◌, str_eq, length, if◌then◌else◌, Option, filter, ltb, leb, max, min,
  ◌==◌, map, some, ◌&&◌, [], any, ◌+◌, not, none, ◌++◌, ◌||◌,
}

-- What a fact of `market_hourly_facts` or `market_daily_facts` holds of its quotes.
pub record MarketFact : Type 0 where
  pub open_price : ℕ
  pub high_price : ℕ
  pub low_price : ℕ
  pub close_price : ℕ
  pub last_volume : ℕ
  pub observation_count : ℕ
  pub providers : List String
  pub had_regular_session : Bool
  pub first_observed_at : ℕ
  pub last_observed_at : ℕ

-- The first price in the order of time, `(ARRAY_AGG(price ORDER BY timestamp))[1]`. The times of a
-- symbol's quotes differ, by a constraint of the table.
abbrev pub earliest : StockQuote → List StockQuote → StockQuote
earliest q [] = q
earliest q (r ∷ rs) = if ltb r.timestamp q.timestamp then earliest r rs else earliest q rs

-- `(ARRAY_AGG(... ORDER BY timestamp DESC))[1]`
abbrev pub newest : StockQuote → List StockQuote → StockQuote
newest q [] = q
newest q (r ∷ rs) = if leb q.timestamp r.timestamp then newest r rs else newest q rs

abbrev pub highest : ℕ → List StockQuote → ℕ
highest p [] = p
highest p (q ∷ qs) = highest (max p q.price) qs

abbrev pub lowest : ℕ → List StockQuote → ℕ
lowest p [] = p
lowest p (q ∷ qs) = lowest (min p q.price) qs

abbrev pub is_regular : StockQuote → Bool
is_regular q = str_eq q.market_session "regular"

-- The table of facts, by symbol and by hour or day.
abbrev pub FactTable : Type 0
FactTable = String → ℕ → Option MarketFact

abbrev pub in_group : (ℕ → ℕ) → String → ℕ → StockQuote → Bool
in_group bucket_of symbol bucket q = str_eq q.symbol symbol && (bucket_of q.timestamp == bucket)

module _ (rank : String → ℕ) where
  unfoldable pub add_provider : String → List String → List String
  add_provider p [] = p ∷ []
  add_provider p (q ∷ qs) =
      let rest = add_provider p qs in
      if rank p == rank q then q ∷ qs else if ltb (rank p) (rank q) then p ∷ q ∷ qs else q ∷ rest

  -- `SELECT DISTINCT provider ... ORDER BY provider`
  unfoldable pub distinct_providers : List String → List String
  unfolding add_provider
  distinct_providers [] = []
  distinct_providers (p ∷ ps) = add_provider p (distinct_providers ps)

  -- the aggregates of a group of quotes
  unfoldable pub summarize : StockQuote → List StockQuote → MarketFact
  unfolding distinct_providers
  summarize q qs = record {
    open_price = (earliest q qs).price;
    high_price = highest q.price qs;
    low_price = lowest q.price qs;
    close_price = (newest q qs).price;
    last_volume = (newest q qs).volume;
    observation_count = length (q ∷ qs);
    providers = distinct_providers (map (λ (x : StockQuote). x.provider) (q ∷ qs));
    had_regular_session = any is_regular (q ∷ qs);
    first_observed_at = (earliest q qs).timestamp;
    last_observed_at = (newest q qs).timestamp;
  }

  -- `ON CONFLICT ... DO UPDATE SET`
  unfoldable pub merge_fact : MarketFact → MarketFact → MarketFact
  unfolding distinct_providers
  merge_fact old excluded = record {
    open_price =
        if ltb excluded.first_observed_at old.first_observed_at
        then excluded.open_price
        else old.open_price;
    high_price = max old.high_price excluded.high_price;
    low_price = min old.low_price excluded.low_price;
    close_price =
        if leb old.last_observed_at excluded.last_observed_at
        then excluded.close_price
        else old.close_price;
    last_volume =
        if leb old.last_observed_at excluded.last_observed_at
        then excluded.last_volume
        else old.last_volume;
    observation_count = old.observation_count + excluded.observation_count;
    providers = distinct_providers (old.providers ++ excluded.providers);
    had_regular_session = old.had_regular_session || excluded.had_regular_session;
    first_observed_at = min old.first_observed_at excluded.first_observed_at;
    last_observed_at = max old.last_observed_at excluded.last_observed_at;
  }

  -- the insert of one group, which has no row when the group is empty
  abbrev pub upsert_group : Option MarketFact → List StockQuote → Option MarketFact
  upsert_group old [] = old
  upsert_group none (q ∷ qs) = some (summarize q qs)
  upsert_group (some old) (q ∷ qs) = some (merge_fact old (summarize q qs))

  -- the upsert of one statement, over the groups of the quotes that it deletes
  unfoldable pub upsert_facts : (ℕ → ℕ) → List StockQuote → FactTable → FactTable
  unfolding summarize merge_fact
  upsert_facts bucket_of deleted table symbol bucket =
      upsert_group (table symbol bucket) (filter (in_group bucket_of symbol bucket) deleted)

-- The quotes and the two tables of facts.
pub record Quotes : Type 0 where
  pub quotes : List StockQuote
  pub hourly : FactTable
  pub daily : FactTable

-- The whole statement: the hour and the day of a time, and the cutoff.
unfoldable pub rollup_and_prune_quotes : (String → ℕ) → (ℕ → ℕ) → (ℕ → ℕ) → ℕ → Quotes → Quotes
unfolding upsert_facts
rollup_and_prune_quotes rank hour_of day_of cutoff_ts s =
    let deleted = filter (λ q. ltb q.timestamp cutoff_ts) s.quotes in
    record {
      quotes = filter (λ q. not (ltb q.timestamp cutoff_ts)) s.quotes;
      hourly = upsert_facts rank hour_of deleted s.hourly;
      daily = upsert_facts rank day_of deleted s.daily;
    }
