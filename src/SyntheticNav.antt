-- ===== src/SyntheticNav.antt =====
-- market-producer/synthetic_nav.py: the published values of a fund and its estimates. A date is the
-- number of a day, a time of day its seconds, a price a number of some small unit; the rounding of a
-- price,
-- the exchange calendar and the answers of the database are parameters.
pub mod Published
use Prim.Native.Nat.{◌/◌}
use social_sentiment.Prelude.Int.{ℤ}
use social_sentiment.GlobalEvents.{Act, pure, raise, ◌>>=◌, ◌>>◌}
use social_sentiment.Outcome.{Outcome, ok, zero_division_error}
use social_sentiment.Prelude.{
  ℕ, List, Option, Bool, [], filter, none, if◌then◌else◌, suc, ◌+◌, ◌∷◌, ltb, some, ◌*◌, true, ◌-◌,
  ◌==◌, not, leb, zero, false, ◌&&◌, ◌||◌,
}

-- 18:15
abbrev pub official_nav_earliest_et : ℕ
official_nav_earliest_et = 65700

abbrev pub is_final_close : ℕ → ℕ → ℕ → Bool
is_final_close d today time =
    if ltb d today then true else if d == today then leb official_nav_earliest_et time else false

pub record Calendar : Type 0 where
  pub is_trading_day : ℕ → Bool
  -- `official_close_timestamp`, in seconds of UTC
  pub official_close : ℕ → ℕ

abbrev days_from : ℕ → ℕ → List ℕ
days_from start zero = []
days_from start (suc n) = start ∷ days_from (suc start) n

-- `trading_days(calendar, start, end)`, in order
abbrev pub trading_days : Calendar → ℕ → ℕ → List ℕ
trading_days c start end = filter c.is_trading_day (days_from start (end + 1 - start))

abbrev pub last_of : {A : Type 0} → List A → Option A
last_of [] = none
last_of (x ∷ []) = some x
last_of (x ∷ y ∷ ys) = last_of (y ∷ ys)

unfoldable pub previous_trading_date : Calendar → ℕ → Option ℕ
previous_trading_date c session_date =
    last_of (filter (λ d. ltb d session_date) (trading_days c (session_date - 10) session_date))

pub record StockQuote : Type 0 where
  pub timestamp : ℕ
  pub price : ℕ

pub record Runner : Type 0 where
  pub official_done_for : Option ℕ
  -- the close that the loop compares with
  pub prev_close : Option ℕ
  -- how many quotes were sent to the database
  pub sent : ℕ
  -- the days and closes of the quotes that the database answered, latest first
  pub answered : List (ℕ × ℕ)
  -- the days and prices of the quotes that it inserted, latest first
  pub stored : List (ℕ × ℕ)

-- the state of one call, before its loop
abbrev pub starting : Option ℕ → Runner
starting official_done_for = record {
  official_done_for = official_done_for;
  prev_close = none;
  sent = 0;
  answered = [];
  stored = [];
}

-- `abs(close - prev) / prev * 100 > 8`, without the division
abbrev pub is_implausible : ℕ → ℕ → Bool
is_implausible close prev = ltb (8 * prev) ((close - prev + (prev - close)) * 100)

-- A number of the quote and the quote are given; nothing is an exception of the database.
module _ (calendar : Calendar) (round4 : ℕ → ℕ) (insert_quote : ℕ → StockQuote → Option Bool)
    (today time : ℕ) where
  -- after the insert, which answers whether a row was inserted
  pub after_official : ℕ → ℕ → Option Bool → Runner → Runner
  after_official d close none r = record r { sent = r.sent + 1 }
  after_official d close (some inserted) r = record {
    official_done_for = if d == today then some d else r.official_done_for;
    prev_close = some close;
    sent = r.sent + 1;
    answered = (d, close) ∷ r.answered;
    stored = if inserted then (d, round4 close) ∷ r.stored else r.stored;
  }

  pub store_official : ℕ → ℕ → Act Runner (Unit {0})
  unfolding after_official
  store_official d close r =
      let quote : StockQuote = record {
        timestamp = calendar.official_close d;
        price = round4 close;
      } in
      (ok tt, after_official d close (insert_quote r.sent quote) r)

  -- the checks against the close before
  pub check_move : ℕ → ℕ → Option ℕ → Act Runner (Unit {0})
  unfolding store_official
  check_move d close none = store_official d close
  check_move d close (some prev) =
      if prev == 0
      then raise zero_division_error
      else if is_implausible close prev
      then pure tt
      else if d == today && close == prev
      then pure tt
      else store_official d close

  pub upsert_row : ℕ → ℕ → Act Runner (Unit {0})
  unfolding check_move
  upsert_row d close r =
      if not (calendar.is_trading_day d) || not (is_final_close d today time)
      then (ok tt, r)
      else check_move d close r.prev_close r

  pub upsert_each : List (ℕ × ℕ) → Act Runner (Unit {0})
  unfolding upsert_row
  upsert_each [] = pure tt
  upsert_each ((d, close) ∷ navs) = do upsert_row d close; upsert_each navs

  pub upsert_official_rows : List (ℕ × ℕ) → Option ℕ → Outcome (Unit {0}) × Runner
  unfolding upsert_each
  upsert_official_rows navs official_done_for = upsert_each navs (starting official_done_for)

  abbrev check_baseline : Option ℕ → Option (ℕ × ℕ) → Option (ℕ × ℕ)
  check_baseline expected none = none
  check_baseline none (some b) = none
  check_baseline (some e) (some (b_date, b_nav)) =
      if b_date == e then some (b_date, b_nav) else none

  -- the latest published value before today, if it is the previous trading day's
  unfoldable pub baseline_from : List (ℕ × ℕ) → Option (ℕ × ℕ)
  unfolding previous_trading_date
  baseline_from navs =
      check_baseline (previous_trading_date calendar today)
        (last_of (filter (λ nav. ltb nav.0 today) navs))

  -- The estimate for a moment, from the baseline's value and the move in percent, which `moved_by`
  -- gives: the quote that goes to the database, if any. The seconds of the timestamp are cut off.
  unfoldable pub insert_estimate : (ℕ → ℤ → ℕ) → ℕ → ℤ → ℕ → Option StockQuote
  insert_estimate moved_by b_nav pct now_utc =
      let est_ts = now_utc / 60 * 60 in
      if leb (calendar.official_close today) est_ts
      then none
      else some (record { timestamp = est_ts; price = round4 (moved_by b_nav pct) })
