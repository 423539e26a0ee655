-- ===== src/GlobalMarket/Runner.antt =====
-- market-producer/global_market.py: `RoutingMarketDataAdapter` and `GlobalContextMarketRunner`. What
-- the providers and the database answer, the local date and time and the clock are parameters; the
-- bars that the database has taken are a list. The requests of a poll run in turn.
use social_sentiment.GlobalEvents.{◌>>=◌, ◌>>◌, Act, pure}
use social_sentiment.Pacing.{PerSymbolBackoff, is_due, record_outcome}
use social_sentiment.Prelude.{
  String, List, ℕ, Bool, Option, Dict, ◌<>◌, ◌++◌, true, false, ◌∷◌, filter, str_eq, some, any,
  if◌then◌else◌, lookup, [], ◌==◌, insert, leb, get_or, ◌-◌, none, ◌&&◌, not, ◌+◌,
}
use social_sentiment.Outcome.{Outcome, Error, raised, ok, value_error, runtime_error, cancelled}
use social_sentiment.Gdelt.{PollStatus, no_data, success, is_rate_limited, transient_error}
use social_sentiment.GlobalMarket.{parse_session_time}

pub record MarketInstrument : Type 0 where
  pub instrument_key : String
  pub asset_class : String
  pub timezone : String
  pub closes : Option String
  pub weekdays : Option (List ℕ)

pub data Interval : Type 0 where
  hourly daily : Interval

abbrev pub interval_name : Interval → String
interval_name hourly = "1h"
interval_name daily = "1d"

pub record MarketBar : Type 0 where
  pub instrument_key : String
  pub interval : Interval
  pub ends_at : ℕ

-- How a call of a provider ends.
pub data Fetch : Type 0 where
  fetched : List MarketBar → Fetch
  limited : Fetch
  fails : Error → Fetch

pub record MarketAdapter : Type 0 where
  pub provider_name : String
  pub supports_interval : MarketInstrument → Interval → Bool
  pub fetch_bars : MarketInstrument → Interval → Fetch

-- The first adapter that supports the request.
unfoldable pub adapter_for :
    List MarketAdapter → MarketInstrument → Interval → Outcome MarketAdapter
adapter_for [] i interval = raised (
    value_error
      ("No market-data provider for " <> i.instrument_key <> ":" <> interval_name interval))
adapter_for (a ∷ rest) i interval =
    let later = adapter_for rest i interval in
    if a.supports_interval i interval then ok a else later

abbrev fetch_with : MarketInstrument → Interval → Outcome MarketAdapter → Fetch
fetch_with i interval (ok a) = a.fetch_bars i interval
fetch_with i interval (raised e) = fails e
fetch_with i interval cancelled = fails (runtime_error "cancelled")

unfoldable pub fetch_bars : List MarketAdapter → MarketInstrument → Interval → Fetch
unfolding adapter_for
fetch_bars adapters i interval = fetch_with i interval (adapter_for adapters i interval)

-- `_fetch_one`, after the call of the adapter
abbrev pub fetch_one : Fetch → List MarketBar × PollStatus
fetch_one (fetched []) = ([], no_data)
fetch_one (fetched (b ∷ bars)) = (b ∷ bars, success)
fetch_one limited = ([], is_rate_limited)
fetch_one (fails e) = ([], transient_error)

-- The local date, the minute of the day and the day of the week of the moment of a run.
pub record LocalClock : Type 0 where
  pub date : String → ℕ
  pub minute : String → ℕ
  pub isoweekday : String → ℕ

abbrev pub grace : ℕ
grace = 30

abbrev is_day : ℕ → Option ℕ → Bool
is_day day none = false
is_day day (some d) = d == day

unfoldable pub daily_is_due : (String → Option ℕ) → LocalClock → MarketInstrument → Option ℕ → Bool
daily_is_due int_of clock i last_session =
    any (λ d. d == clock.isoweekday i.timezone) (get_or i.weekdays (1 ∷ 2 ∷ 3 ∷ 4 ∷ 5 ∷ []))
    && leb (parse_session_time int_of i.closes 1439 + grace) (clock.minute i.timezone)
    && not (is_day (clock.date i.timezone) last_session)

-- What the runner and the database keep.
pub record MarketState : Type 0 where
  pub backoff : PerSymbolBackoff
  pub last_hourly_poll : ℕ
  pub last_daily_session : Dict ℕ
  pub stored : List MarketBar

abbrev pub request_key : Interval → MarketInstrument → String
request_key interval i = i.instrument_key <> ":" <> interval_name interval

abbrev with_backoff : PerSymbolBackoff → MarketState → MarketState
with_backoff b s = record {
  backoff = b;
  last_hourly_poll = s.last_hourly_poll;
  last_daily_session = s.last_daily_session;
  stored = s.stored;
}

abbrev pub with_stored : List MarketBar → MarketState → MarketState
with_stored bars s = record {
  backoff = s.backoff;
  last_hourly_poll = s.last_hourly_poll;
  last_daily_session = s.last_daily_session;
  stored = s.stored ++ bars;
}

abbrev pub limited_by : PollStatus → Bool
limited_by is_rate_limited = true
limited_by _ = false

module _ (upsert : List MarketBar → Outcome (Unit {0})) (interval : Interval) (now : ℕ) where
  -- `self.db.upsert_global_bars`
  abbrev pub store : List MarketBar → Outcome (Unit {0}) → Act MarketState (Unit {0})
  store bars (ok x) s = (ok tt, with_stored bars s)
  store bars (raised e) s = (raised e, s)
  store bars cancelled s = (cancelled, s)

  -- the rest of the loop's body, for an instrument: whether it is completed
  abbrev pub settle : List MarketBar → PollStatus → Act MarketState Bool
  settle bars is_rate_limited = pure false
  settle [] no_data = pure true
  settle [] status = pure false
  settle (b ∷ bars) status = do store (b ∷ bars) (upsert (b ∷ bars)); pure true

  abbrev pub record_request : MarketInstrument → PollStatus → Act MarketState (Unit {0})
  record_request i status s = (
    ok tt,
    with_backoff (record_outcome s.backoff (request_key interval i) (limited_by status) now) s,
  )

  -- `self.adapter.provider_name_for`, which raises where no adapter serves the request
  abbrev pub name_provider : Outcome MarketAdapter → Act MarketState (Unit {0})
  name_provider (ok a) s = (ok tt, s)
  name_provider (raised e) s = (raised e, s)
  name_provider cancelled s = (cancelled, s)

  -- the body of the loop
  unfoldable pub settle_one :
      Outcome MarketAdapter → MarketInstrument → Fetch → Act MarketState Bool
  settle_one provider i f =
      let (bars, status) = fetch_one f in
      do name_provider provider; record_request i status; settle bars status

  unfoldable pub settle_each :
      (MarketInstrument → Outcome MarketAdapter)
      → (MarketInstrument → Fetch)
      → List MarketInstrument
      → Act MarketState (List String)
  unfolding settle_one
  settle_each provider_of fetch [] = pure []
  settle_each provider_of fetch (i ∷ is) = do
    done ← settle_one (provider_of i) i (fetch i)
    completed ← settle_each provider_of fetch is
    pure (if done then i.instrument_key ∷ completed else completed)

  -- `_poll`: the keys of the instruments that are completed
  unfoldable pub poll :
      (MarketInstrument → Outcome MarketAdapter)
      → (MarketInstrument → Fetch)
      → List MarketInstrument
      → Act MarketState (List String)
  unfolding settle_each
  poll provider_of fetch instruments s =
      settle_each provider_of fetch
        (filter (λ i. is_due s.backoff now (request_key interval i)) instruments) s

-- the loop that notes the day of what is completed
unfoldable pub note_days : LocalClock → List String → List MarketInstrument → Dict ℕ → Dict ℕ
note_days clock completed [] last = last
note_days clock completed (i ∷ is) last = note_days clock completed is (
    if any (λ k. str_eq k i.instrument_key) completed
    then insert i.instrument_key (clock.date i.timezone) last
    else last)

abbrev pub is_equity : MarketInstrument → Bool
is_equity i = str_eq i.asset_class "us_equity"

module _ (adapters : List MarketAdapter) (upsert : List MarketBar → Outcome (Unit {0}))
    (int_of : String → Option ℕ) (clock : LocalClock) (poll_seconds monotonic_now : ℕ) where
  abbrev set_hourly : MarketState → MarketState
  set_hourly s = record {
    backoff = s.backoff;
    last_hourly_poll = monotonic_now;
    last_daily_session = s.last_daily_session;
    stored = s.stored;
  }

  abbrev pub note : List String → List MarketInstrument → MarketState → MarketState
  note completed due s = record {
    backoff = s.backoff;
    last_hourly_poll = s.last_hourly_poll;
    last_daily_session = note_days clock completed due s.last_daily_session;
    stored = s.stored;
  }

  unfoldable pub hourly_part : List MarketInstrument → Act MarketState (Unit {0})
  unfolding poll fetch_bars
  hourly_part instruments s =
      if leb poll_seconds (monotonic_now - s.last_hourly_poll)
      then (do
        completed ←
            poll upsert hourly monotonic_now (λ i. adapter_for adapters i hourly)
              (λ i. fetch_bars adapters i hourly) (filter (λ i. not (is_equity i)) instruments)
        λ t. (ok tt, set_hourly t))
          s
      else (ok tt, s)

  abbrev pub due_daily : List MarketInstrument → MarketState → List MarketInstrument
  due_daily instruments s =
      filter (λ i. daily_is_due int_of clock i (lookup i.instrument_key s.last_daily_session))
        instruments

  unfoldable pub daily_part : List MarketInstrument → Act MarketState (Unit {0})
  unfolding poll fetch_bars daily_is_due note_days
  daily_part instruments s =
      (do
        completed ←
            poll upsert daily monotonic_now (λ i. adapter_for adapters i daily)
              (λ i. fetch_bars adapters i daily) (due_daily instruments s)
        λ t. (ok tt, note completed (due_daily instruments s) t))
        s

  -- `except Exception`: the error is logged
  abbrev pub quiet : Outcome (Unit {0}) → Outcome (Unit {0})
  quiet (ok x) = ok x
  quiet (raised e) = ok tt
  quiet cancelled = cancelled

  unfoldable pub maybe_run : Outcome (List MarketInstrument) → Act MarketState (Unit {0})
  unfolding hourly_part daily_part
  maybe_run (ok instruments) s =
      let (o, s') = (do hourly_part instruments; daily_part instruments) s in (quiet o, s')
  maybe_run (raised e) s = (ok tt, s)
  maybe_run cancelled s = (cancelled, s)
