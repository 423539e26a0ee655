-- ===== src/Database.antt =====
-- storage-service/db.py: what the methods of `DB` do to the tables. A statement either commits or is
-- rolled back; when the connection is lost, the program cannot tell which, and sends it again once.
-- `str.upper`, `str.strip` and the JSON encoding of scores are parameters.
pub mod Insertion
pub mod Retries
pub mod Maintain
use Prim.Native.Char.{code}
use social_sentiment.Outcome.{Outcome, ok, raised, cancelled, Error}
use social_sentiment.Schemas.{ScoredPost, StockQuote, Sentiment, Score}
use social_sentiment.Catalog.{CatalogInstrument, CatalogSymbolExposures, CatalogStockExposure}
use social_sentiment.Prelude.{
  String, Option, Dict, List, Bool, ℕ, if◌then◌else◌, some, get_or, str_eq, ◌∷◌, insert, map,
  filter, ◌==◌, is_blank, all, ◌&&◌, any, ◌+◌, lookup, length, not, true, [], none, ◌-◌, false, ltb,
}
use social_sentiment.Prelude.Int.{ℤ, negsuc}

-- A row of `posts`: the values of `_post_values`.
pub record PostValues : Type 0 where
  pub id : String
  pub symbol : String
  pub platform : String
  pub text : String
  pub timestamp : ℕ
  pub sentiment : Sentiment
  pub scores : String
  pub topic_id : ℤ
  pub topic_label : Option String
  pub engagement : ℤ
  pub ingested_at : ℕ
  pub cleaned_at : ℕ
  pub topic_scored_at : ℕ
  pub sentiment_scored_at : ℕ
  pub engagement_observed_at : ℕ
  pub source_schema_version : ℤ
  pub pipeline_git_commit : String
  pub topic_model_version : String
  pub topic_model_hash : String
  pub sentiment_model_version : String
  pub sentiment_model_hash : String

-- `text.replace("\x00", "")`
unfoldable pub without_nul : String → String
without_nul String.[] = ""
without_nul (String.◌∷◌ c s) =
    let rest = without_nul s in if code c == 0 then rest else String.◌∷◌ c rest

-- nothing for a label that is missing or empty
abbrev clean_label : Option String → Option String
clean_label none = none
clean_label (some label) = if is_blank label then none else some (without_nul label)

unfoldable pub post_values : (Dict Score → String) → ScoredPost → PostValues
unfolding without_nul
post_values dumps post = record {
  id = post.clean.id;
  symbol = post.clean.symbol;
  platform = post.clean.platform;
  text = without_nul post.clean.text;
  timestamp = post.clean.timestamp;
  sentiment = post.sentiment;
  scores = dumps post.scores;
  topic_id = get_or post.clean.topic_id (negsuc 1);
  topic_label = clean_label post.clean.topic_label;
  engagement = post.clean.engagement;
  ingested_at = post.clean.ingested_at;
  cleaned_at = post.clean.cleaned_at;
  topic_scored_at = post.clean.topic_scored_at;
  sentiment_scored_at = post.sentiment_scored_at;
  engagement_observed_at = post.clean.engagement_observed_at;
  source_schema_version = post.clean.source_schema_version;
  pipeline_git_commit = post.clean.pipeline_git_commit;
  topic_model_version = post.clean.topic_model_version;
  topic_model_hash = post.clean.topic_model_hash;
  sentiment_model_version = post.sentiment_model_version;
  sentiment_model_hash = post.sentiment_model_hash;
}

abbrev same_platform : String → ScoredPost → Bool
same_platform platform post = str_eq platform post.clean.platform

-- the one platform of the posts, or `mixed`
abbrev pub batch_platform : List ScoredPost → String
batch_platform [] = "mixed"
batch_platform (post ∷ posts) =
    if all (same_platform post.clean.platform) posts then post.clean.platform else "mixed"

-- the unique columns of `posts`
abbrev pub same_post : PostValues → PostValues → Bool
same_post a b = str_eq a.platform b.platform && str_eq a.id b.id && str_eq a.symbol b.symbol

-- `posts`, and the duplicates counted by platform in the hour's quality facts
pub record PostTables : Type 0 where
  pub posts : List PostValues
  pub quality : Dict ℕ

-- `ON CONFLICT ... DO NOTHING RETURNING id`, with the number of rows
abbrev pub insert_post : PostValues → List PostValues → List PostValues × ℕ
insert_post row posts = if any (same_post row) posts then (posts, 0) else (row ∷ posts, 1)

unfoldable pub insert_all : List PostValues → List PostValues → List PostValues × ℕ
insert_all [] posts = (posts, 0)
insert_all (row ∷ rows) posts =
    let (posts₁, n) = insert_post row posts in
    let (posts₂, m) = insert_all rows posts₁ in (posts₂, n + m)

abbrev add_quality : String → ℕ → Dict ℕ → Dict ℕ
add_quality platform count quality =
    insert platform (get_or (lookup platform quality) 0 + count) quality

-- the body of `insert_scored_batch_async` and of `_do_insert_posts_batch`
unfoldable pub insert_batch : (Dict Score → String) → List ScoredPost → PostTables → ℕ × PostTables
unfolding insert_all post_values
insert_batch dumps posts t =
    let (rows, inserted_count) = insert_all (map (post_values dumps) posts) t.posts in
    let duplicate_count = length posts - inserted_count in
    (
      inserted_count,
      record {
        posts = rows;
        quality =
            if duplicate_count == 0
            then t.quality
            else add_quality (batch_platform posts) duplicate_count t.quality;
      },
    )

-- How one attempt of a statement goes: it ends well, the connection is lost before or after the
-- commit, or it fails otherwise.
pub data Attempt : Type 0 where
  commits : Attempt
  lost_before lost_after : Error → Attempt
  fails : Error → Attempt

-- What the caller sees, and the tables.
pub data Sent (A S : Type 0) : Type 0 where
  answered : A → S → Sent A S
  lost : Error → S → Sent A S
  failed : Error → S → Sent A S

module _ {A S : Type 0} where
  unfoldable pub attempt : Attempt → (S → A × S) → S → Sent A S
  attempt commits statement s = let (a, s') = statement s in answered a s'
  attempt (lost_before e) statement s = lost e s
  attempt (lost_after e) statement s = let (a, s') = statement s in lost e s'
  attempt (fails e) statement s = failed e s

  abbrev last_answer : Sent A S → Outcome A × S
  last_answer (answered a s) = (ok a, s)
  last_answer (lost e s) = (raised e, s)
  last_answer (failed e s) = (raised e, s)

  -- `except psycopg.OperationalError`: reconnect, which may fail, and send the statement again
  abbrev pub after_first : Option Error → Attempt → (S → A × S) → Sent A S → Outcome A × S
  after_first reconnect second statement (answered a s) = (ok a, s)
  after_first reconnect second statement (failed e s) = (raised e, s)
  after_first (some e) second statement (lost _ s) = (raised e, s)
  after_first none second statement (lost _ s) = last_answer (attempt second statement s)

  unfoldable pub with_reconnect : Attempt → Option Error → Attempt → (S → A × S) → S → Outcome A × S
  unfolding attempt
  with_reconnect first reconnect second statement s =
      after_first reconnect second statement (attempt first statement s)

unfoldable pub insert_scored_batch :
    (Dict Score → String)
    → Attempt
    → Option Error
    → Attempt
    → List ScoredPost
    → PostTables
    → Outcome ℕ × PostTables
unfolding with_reconnect insert_batch
insert_scored_batch dumps first reconnect second posts t =
    with_reconnect first reconnect second (insert_batch dumps posts) t

abbrev same_quote : StockQuote → StockQuote → Bool
same_quote a b = str_eq a.symbol b.symbol && (a.timestamp == b.timestamp)

-- `ON CONFLICT (symbol, timestamp) DO NOTHING RETURNING id`: whether a row came back
unfoldable pub do_insert_quote : StockQuote → List StockQuote → Bool × List StockQuote
do_insert_quote quote quotes =
    if any (same_quote quote) quotes then (false, quotes) else (true, quote ∷ quotes)

pub insert_quote :
    Attempt → Option Error → Attempt → StockQuote → List StockQuote → Outcome Bool × List StockQuote
unfolding with_reconnect do_insert_quote
insert_quote first reconnect second quote quotes =
    with_reconnect first reconnect second (do_insert_quote quote) quotes

abbrev upsert_instrument : CatalogInstrument → Dict CatalogInstrument → Dict CatalogInstrument
upsert_instrument i rows = insert i.instrument_key i rows

unfoldable pub upsert_instruments :
    List CatalogInstrument → Dict CatalogInstrument → Dict CatalogInstrument
upsert_instruments [] rows = rows
upsert_instruments (i ∷ is) rows = upsert_instruments is (upsert_instrument i rows)

-- The rows are upserted by their key; rows that are not listed stay.
pub sync_global_instrument_catalog :
    Attempt
    → Option Error
    → Attempt
    → List CatalogInstrument
    → Dict CatalogInstrument
    → Outcome ℕ × Dict CatalogInstrument
unfolding with_reconnect upsert_instruments
sync_global_instrument_catalog first reconnect second [] rows = (ok 0, rows)
sync_global_instrument_catalog first reconnect second (i ∷ is) rows =
    with_reconnect first reconnect second (λ t. (length (i ∷ is), upsert_instruments (i ∷ is) t))
      rows

-- A bar of `global_market_bars` and an event, by the columns that the retention reads.
pub record ContextBar : Type 0 where
  pub is_hourly : Bool
  pub ends_at : ℕ

pub record Context : Type 0 where
  pub bars : List ContextBar
  pub events : List ℕ

abbrev is_expired : Bool → ℕ → ContextBar → Bool
is_expired hourly cutoff bar =
    (if hourly then bar.is_hourly else not bar.is_hourly) && ltb bar.ends_at cutoff

unfoldable pub prune_global_context : ℕ → ℕ → ℕ → Context → (ℕ × ℕ × ℕ) × Context
prune_global_context hourly_cutoff daily_cutoff event_cutoff c =
    let hourly = filter (is_expired true hourly_cutoff) c.bars in
    let bars = filter (λ b. not (is_expired true hourly_cutoff b)) c.bars in
    let daily = filter (is_expired false daily_cutoff) bars in
    let events = filter (λ at. ltb at event_cutoff) c.events in
    (
      (length hourly, length daily, length events),
      record {
        bars = filter (λ b. not (is_expired false daily_cutoff b)) bars;
        events = filter (λ at. not (ltb at event_cutoff)) c.events;
      },
    )
