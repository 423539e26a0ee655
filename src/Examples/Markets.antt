-- ===== src/Examples/Markets.antt =====
-- The theorems on the global market context at concrete inputs.
use social_sentiment.GlobalEvents.{◌>>=◌, pure}
use social_sentiment.GlobalMarket.Runner.{
  daily, MarketBar, MarketAdapter, MarketState, poll, LocalClock, fetch_bars, MarketInstrument,
  maybe_run, daily_is_due, fetched, limited, request_key, adapter_for,
}
use social_sentiment.GlobalMarket.{Floats, Ohlc, normalize_fx_ohlc}
use social_sentiment.Prelude.{
  String, List, Option, some, true, ◌∷◌, false, ℕ, none, [], if◌then◌else◌, ◌≡◌, str_eq, map,
  lookup, filter, refl, arith, ◌++◌, Bool, not, ◌⊎◌, ltb, ◌-◌, inr,
}
use social_sentiment.Pacing.{new_backoff, is_due}
use social_sentiment.Outcome.{Outcome, ok, raised, value_error}
use social_sentiment.GlobalMarket.Prices.{AreFloats, ArePositive, IsBar, normalize_fx_ohlc-IsBar}
use social_sentiment.GlobalMarket.Due.{maybe_run_due}
use social_sentiment.GlobalMarket.Polled.{is_settled, all_bars, poll_exact}

-- Zero and powers of two, whose reciprocals are exact: `some e` is `2 ** (e - 64)`.
abbrev Power : Type 0
Power = Option ℕ

abbrev lt_power : Power → Power → Bool
lt_power none none = false
lt_power none (some b) = true
lt_power (some a) none = false
lt_power (some a) (some b) = ltb a b

abbrev is_zero_power : Power → Bool
is_zero_power none = true
is_zero_power (some a) = false

abbrev invert_power : Power → Power
invert_power none = none
invert_power (some a) = some (128 - a)

abbrev powers : Floats
powers = record {
  F = Power;
  lt = lt_power;
  le = λ a b. not (lt_power b a);
  le_zero = is_zero_power;
  reciprocal = invert_power;
}

powers-AreFloats : AreFloats powers
powers-AreFloats = record { below_zero = below; zero_below = above; reversed = back }
  where
    below : (a b : Power) → lt_power b a ≡ true → is_zero_power a ≡ true → is_zero_power b ≡ true
    below none none h z = refl
    below none (some b) h z = cc h
    below (some a) b h z = cc z

    above : (a b : Power) → is_zero_power b ≡ true → is_zero_power a ≡ false → lt_power b a ≡ true
    above none b z p = cc p
    above (some a) none z p = refl
    above (some a) (some b) z p = cc z

    back :
        (a b : Power)
        → is_zero_power a ≡ false
        → is_zero_power b ≡ false
        → not (lt_power b a) ≡ true
        → not (lt_power (powers.reciprocal a) (powers.reciprocal b)) ≡ true
    back none b p q h = cc p
    back (some a) none p q h = cc
    back (some a) (some b) p q h = ground arith

abbrev euro : Ohlc Power
euro = record {
  open_price = some 64;
  high_price = some 66;
  low_price = some 63;
  close_price = some 65;
}

normalize_fx_ohlc-IsBar_example :
    ((n : Ohlc Power) × (normalize_fx_ohlc powers false euro ≡ ok n)
      × IsBar powers n
      × ((false ≡ true) ⊎ ArePositive powers euro))
    ⊎ ((normalize_fx_ohlc powers false euro
          ≡ raised (value_error "FX prices must be positive before inversion"))
        × (false ≡ false)
        × ¬ (ArePositive powers euro))
normalize_fx_ohlc-IsBar_example =
    normalize_fx_ohlc-IsBar powers powers-AreFloats false euro (refl, refl, refl, refl)

abbrev number_of : String → Option ℕ
number_of text = if str_eq text "18" then some 18 else if str_eq text "00" then some 0 else none

abbrev index_of : String → MarketInstrument
index_of key = record {
  instrument_key = key;
  asset_class = "index";
  timezone = "Asia/Taipei";
  closes = none;
  weekdays = none;
}

abbrev listed : List MarketInstrument
listed = index_of "index:twse" ∷ index_of "index:nikkei" ∷ []

abbrev one_bar : MarketBar
one_bar = record { instrument_key = "index:twse"; interval = daily; ends_at = 9 }

-- it has bars of one index, and limits the requests for others
abbrev provider : MarketAdapter
provider = record {
  provider_name = "yahoo";
  supports_interval = λ i interval. true;
  fetch_bars = λ i interval.
      if str_eq i.instrument_key "index:twse" then fetched (one_bar ∷ []) else limited;
}

abbrev start_state : MarketState
start_state = record {
  backoff = new_backoff 900 14400;
  last_hourly_poll = 0;
  last_daily_session = [];
  stored = [];
}

abbrev stores : List MarketBar → Outcome (Unit {0})
stores bars = ok tt

poll_exact_example :
    (("index:twse" ∷ [])
      ≡ map
          (λ (i : MarketInstrument). i.instrument_key)
          (filter
            (λ i. is_settled (fetch_bars (provider ∷ []) i daily))
            (filter (λ i. is_due start_state.backoff 5000 (request_key daily i)) listed)))
    × ((poll stores daily 5000
          (λ i. adapter_for (provider ∷ []) i daily)
          (λ i. fetch_bars (provider ∷ []) i daily)
          listed
          start_state).1.stored
        ≡ []
          ++ all_bars
              (λ i. fetch_bars (provider ∷ []) i daily)
              (filter (λ i. is_due start_state.backoff 5000 (request_key daily i)) listed))
unfolding poll fetch_bars new_backoff ◌>>=◌ pure
poll_exact_example =
    poll_exact stores daily 5000 (λ i. adapter_for (provider ∷ []) i daily)
      (λ i. fetch_bars (provider ∷ []) i daily) listed start_state ("index:twse" ∷ []) refl

abbrev friday : LocalClock
friday = record { date = λ tz. 20000; minute = λ tz. 1439; isoweekday = λ tz. 5 }

maybe_run_due_example :
    let s' =
      (maybe_run (provider ∷ []) stores number_of friday 900 5000 (ok listed) start_state).1 in
    daily_is_due number_of friday
      (index_of "index:nikkei")
      (lookup "index:nikkei" s'.last_daily_session)
    ≡ daily_is_due number_of friday (index_of "index:nikkei") none
unfolding fetch_bars
maybe_run_due_example =
    maybe_run_due (provider ∷ []) stores number_of friday 900 5000 listed start_state
      (index_of "index:nikkei") friday ((λ e. cc e), ((λ e. inr refl), tt))
