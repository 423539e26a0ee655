-- ===== src/GlobalMarket.antt =====
-- market-producer/global_market.py: prices, sessions, the choice of a provider and the polling of the
-- global context. The providers, the time zones and `int` of a text are parameters; a date is the
-- number of a day, a time of day its minutes.
pub mod Prices
pub mod Sessions
pub mod Runner
pub mod Polled
pub mod Due
use Prim.Native.Char.{Char, code}
use social_sentiment.Prelude.Int.{ℤ, pos, pos_part, ltb_ℤ}
use social_sentiment.Prelude.{
  ℕ, Bool, String, Option, none, some, if◌then◌else◌, ◌==◌, ltb, get_or, not, ◌&&◌, ◌-◌, ◌*◌, ◌+◌,
}
use social_sentiment.Outcome.{Outcome, ok, raised, value_error}

-- The floats that are numbers, with the operations that the inversion uses.
pub record Floats : Type 1 where
  pub F : Type 0
  -- `a < b`, `a <= b`, `a <= 0` and `1.0 / a`
  pub lt : F → F → Bool
  pub le : F → F → Bool
  pub le_zero : F → Bool
  pub reciprocal : F → F

pub record Ohlc (F : Type 0) : Type 0 where
  pub open_price : F
  pub high_price : F
  pub low_price : F
  pub close_price : F

module _ (floats : Floats) where
  -- `min(a, b)`
  abbrev pub smaller : floats.F → floats.F → floats.F
  smaller a b = if floats.lt b a then b else a

  -- `min(open_price, high_price, low_price, close_price)`
  abbrev pub smallest : Ohlc floats.F → floats.F
  smallest b = smaller (smaller (smaller b.open_price b.high_price) b.low_price) b.close_price

  unfoldable pub normalize_fx_ohlc : Bool → Ohlc floats.F → Outcome (Ohlc floats.F)
  normalize_fx_ohlc provider_is_local_per_usd b =
      if provider_is_local_per_usd
      then ok b
      else if floats.le_zero (smallest b)
      then raised (value_error "FX prices must be positive before inversion")
      else ok (record {
        open_price = floats.reciprocal b.open_price;
        high_price = floats.reciprocal b.low_price;
        low_price = floats.reciprocal b.high_price;
        close_price = floats.reciprocal b.close_price;
      })

-- `value.split(":", maxsplit=1)`, where it has two parts
unfoldable pub split_colon : String → Option (String × String)
split_colon String.[] = none
split_colon (String.◌∷◌ c s) =
    let rest = split_colon s in if code c == 58 then some ("", s) else prepend c rest
  where
    prepend : Char → Option (String × String) → Option (String × String)
    prepend c none = none
    prepend c (some (a, b)) = some (String.◌∷◌ c a, b)

-- `wall_time(hour=..., minute=...)`, where it raises nothing
abbrev pub wall_time : Option ℕ → Option ℕ → Option ℕ
wall_time (some hour) (some minute) =
    if ltb hour 24 && ltb minute 60 then some (hour * 60 + minute) else none
wall_time _ _ = none

abbrev pub session_time : (String → Option ℕ) → ℕ → Option (String × String) → ℕ
session_time int_of fallback none = fallback
session_time int_of fallback (some (hour, minute)) =
    get_or (wall_time (int_of hour) (int_of minute)) fallback

-- The value of the metadata, where it is a text, and the fallback. `int` of a text that is negative
-- gives nothing here, as `wall_time` refuses it.
unfoldable pub parse_session_time : (String → Option ℕ) → Option String → ℕ → ℕ
unfolding split_colon
parse_session_time int_of none fallback = fallback
parse_session_time int_of (some value) fallback = session_time int_of fallback (split_colon value)

-- The session of a day: the local day and minute of its start and of its end.
pub record Session : Type 0 where
  pub start_date : ℕ
  pub open_time : ℕ
  pub end_date : ℕ
  pub close_time : ℕ

unfoldable pub daily_bounds : (String → Option ℕ) → ℕ → Option String → Option String → Session
unfolding parse_session_time
daily_bounds int_of session_date opens closes =
    let open_time = parse_session_time int_of opens 0 in
    let close_time = parse_session_time int_of closes 1439 in
    record {
      start_date = if ltb close_time open_time then session_date - 1 else session_date;
      open_time = open_time;
      end_date = session_date;
      close_time = close_time;
    }
