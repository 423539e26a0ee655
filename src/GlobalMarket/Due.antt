-- ===== src/GlobalMarket/Due.antt =====
-- About the instruments whose daily bars are due.
use social_sentiment.GlobalEvents.Actions.{bind-keeps, bind-holds}
use social_sentiment.GlobalEvents.{◌>>=◌, continue}
use social_sentiment.Pacing.{is_due, PerSymbolBackoff}
use social_sentiment.Prelude.{
  String, List, Bool, str_eq, any, Dict, All, filter, map, ℕ, ◌≡◌, ◌∷◌, false, true, Bool-cases,
  Option, lookup, inl, eq_iff, inr, sym, ◌∙◌, [], ap, leb, refl, lookup-insert, ◌-◌, ◌⊎◌,
}
use social_sentiment.GlobalMarket.Runner.{
  note_days, MarketInstrument, LocalClock, MarketAdapter, MarketBar, fetch_bars, daily, hourly_part,
  poll, MarketState, daily_part, maybe_run, hourly, note, daily_is_due, due_daily, adapter_for,
  request_key,
}
use social_sentiment.GlobalMarket.Polled.{is_settled, settle_each-days, poll_exact}
use social_sentiment.Outcome.{Outcome, ok, raised, cancelled}

abbrev pub is_key : String → MarketInstrument → Bool
is_key k i = str_eq i.instrument_key k

abbrev lists : List String → String → Bool
lists completed k = any (λ c. str_eq c k) completed

note_days-other :
    (clock : LocalClock) (completed : List String) (is : List MarketInstrument) (last : Dict ℕ)
    (k : String)
    → lists completed k ≡ false
    → lookup k (note_days clock completed is last) ≡ lookup k last
unfolding note_days
note_days-other clock completed [] last k out = refl
note_days-other clock completed (i ∷ is) last k out =
    elim (Bool-cases (lists completed i.instrument_key)) [
      | inl e ↦
          let differ : str_eq i.instrument_key k ≡ false =
            elim (Bool-cases (str_eq i.instrument_key k)) [
              | inl f ↦
                  let same = (eq_iff i.instrument_key k).0 f in
                  let both : true ≡ false = sym e ∙ ap (lists completed) same ∙ out in cc both
              | inr f ↦ f
            ] in
          rw e (
            note_days-other clock completed is _ k out
            ∙ lookup-insert i.instrument_key k (clock.date i.timezone) last
            ∙ rw differ refl)
      | inr e ↦ rw e (note_days-other clock completed is last k out)
    ]

-- The daily request of no instrument with the key is settled.
abbrev pub NoneSettled : List MarketAdapter → String → List MarketInstrument → Type 0
NoneSettled adapters k is =
    All (λ i. is_key k i ≡ true → is_settled (fetch_bars adapters i daily) ≡ false) is

not_listed :
    (adapters : List MarketAdapter) (k : String) (is : List MarketInstrument)
    → NoneSettled adapters k is
    → lists
        (map
          (λ (i : MarketInstrument). i.instrument_key)
          (filter (λ i. is_settled (fetch_bars adapters i daily)) is))
        k
      ≡ false
not_listed adapters k [] h = refl
not_listed adapters k (i ∷ is) h =
    let rest = not_listed adapters k is h.1 in
    elim (Bool-cases (is_settled (fetch_bars adapters i daily))) [
      | inl e ↦
          let differ : is_key k i ≡ false = elim (Bool-cases (is_key k i)) [
            | inl f ↦ let both : true ≡ false = sym e ∙ h.0 f in cc both
            | inr f ↦ f
          ] in
          rw (e, differ) rest
      | inr e ↦ rw e rest
    ]

-- Each daily request with the key is put off by the backoff, or answered but not settled.
abbrev pub NoneAnswered :
    List MarketAdapter → PerSymbolBackoff → ℕ → String → List MarketInstrument → Type 0
NoneAnswered adapters backoff now k is =
    All
      (λ i.
        is_key k i ≡ true
        → (is_due backoff now (request_key daily i) ≡ false)
          ⊎ (is_settled (fetch_bars adapters i daily) ≡ false))
      is

filter-NoneAnswered :
    (adapters : List MarketAdapter) (backoff : PerSymbolBackoff) (now : ℕ) (k : String)
    (p : MarketInstrument → Bool) (is : List MarketInstrument)
    → NoneAnswered adapters backoff now k is
    → NoneAnswered adapters backoff now k (filter p is)
filter-NoneAnswered adapters backoff now k p [] h = tt
filter-NoneAnswered adapters backoff now k p (i ∷ is) h =
    let rest = filter-NoneAnswered adapters backoff now k p is h.1 in
    elim (Bool-cases (p i)) [ inl e ↦ rw e (h.0, rest) | inr e ↦ rw e rest ]

asked-NoneSettled :
    (adapters : List MarketAdapter) (backoff : PerSymbolBackoff) (now : ℕ) (k : String)
    (is : List MarketInstrument)
    → NoneAnswered adapters backoff now k is
    → NoneSettled adapters k (filter (λ i. is_due backoff now (request_key daily i)) is)
asked-NoneSettled adapters backoff now k [] h = tt
asked-NoneSettled adapters backoff now k (i ∷ is) h =
    let rest = asked-NoneSettled adapters backoff now k is h.1 in
    elim (Bool-cases (is_due backoff now (request_key daily i))) [
      | inl e ↦ rw e ((λ f. answered e (h.0 f)), rest)
      | inr e ↦ rw e rest
    ]
  where
    answered :
        is_due backoff now (request_key daily i) ≡ true
        → (is_due backoff now (request_key daily i) ≡ false)
          ⊎ (is_settled (fetch_bars adapters i daily) ≡ false)
        → is_settled (fetch_bars adapters i daily) ≡ false
    answered e (inl off) = let both : true ≡ false = sym e ∙ off in cc both
    answered e (inr out) = out

module _ (adapters : List MarketAdapter) (upsert : List MarketBar → Outcome (Unit {0}))
    (int_of : String → Option ℕ) (clock : LocalClock) (poll_seconds monotonic_now : ℕ) where
  hourly_part-days :
      (is : List MarketInstrument) (s : MarketState)
      → (hourly_part adapters upsert int_of clock poll_seconds monotonic_now is
          s).1.last_daily_session
        ≡ s.last_daily_session
  unfolding hourly_part poll
  hourly_part-days is s =
      elim (Bool-cases (leb poll_seconds (monotonic_now - s.last_hourly_poll))) [
        | inl e ↦ rw e (
            bind-keeps (λ (t : MarketState). t.last_daily_session) _ _
              (λ t. settle_each-days upsert hourly monotonic_now _ _ _ t) (λ c t. refl) s)
        | inr e ↦ rw e refl
      ]

  daily_part-other :
      (is : List MarketInstrument) (s : MarketState) (k : String)
      → NoneAnswered adapters s.backoff monotonic_now k is
      → lookup k
          (daily_part adapters upsert int_of clock poll_seconds monotonic_now is
            s).1.last_daily_session
        ≡ lookup k s.last_daily_session
  unfolding daily_part ◌>>=◌
  daily_part-other is s k none_answered =
      let due = due_daily adapters upsert int_of clock poll_seconds monotonic_now is s in
      let answer =
        poll upsert daily monotonic_now (λ i. adapter_for adapters i daily)
          (λ i. fetch_bars adapters i daily) due s in
      let days =
        settle_each-days upsert daily monotonic_now (λ i. adapter_for adapters i daily)
          (λ i. fetch_bars adapters i daily)
          (filter (λ i. is_due s.backoff monotonic_now (request_key daily i)) due) s in
      go answer.0 answer.1 due
        (λ completed h.
          let (keys, _) =
            poll_exact upsert daily monotonic_now (λ i. adapter_for adapters i daily)
              (λ i. fetch_bars adapters i daily) due s completed h in
          ap (λ l. lists l k) keys
          ∙ not_listed adapters k _ (
              asked-NoneSettled adapters s.backoff monotonic_now k due
                (filter-NoneAnswered adapters s.backoff monotonic_now k _ is none_answered)))
        (ap (lookup k) days)
    where
      go :
          (o : Outcome (List String)) (t : MarketState) (due : List MarketInstrument)
          → ((completed : List String) → o ≡ ok completed → lists completed k ≡ false)
          → lookup k t.last_daily_session ≡ lookup k s.last_daily_session
          → lookup k
              (continue
                (λ completed u. (
                  ok tt,
                  note adapters upsert int_of clock poll_seconds monotonic_now completed due u,
                ))
                o
                t).1.last_daily_session
            ≡ lookup k s.last_daily_session
      go (ok completed) t due out e =
          note_days-other clock completed due t.last_daily_session k (out completed refl) ∙ e
      go (raised x) t due out e = e
      go cancelled t due out e = e

  -- When each daily request of an instrument's key is put off by the backoff, as the hourly part of
  -- the run leaves it, or is answered by a provider that limits the requests or fails, a run leaves the
  -- day of its last session as it is, whatever else happens in the run; so the instrument is due again
  -- whenever it was due before.
  pub maybe_run_due :
      (is : List MarketInstrument) (s : MarketState) (i : MarketInstrument) (later : LocalClock)
      → NoneAnswered adapters
          (hourly_part adapters upsert int_of clock poll_seconds monotonic_now is s).1.backoff
          monotonic_now
          i.instrument_key
          is
      → let s' = (maybe_run adapters upsert int_of clock poll_seconds monotonic_now (ok is) s).1 in
        daily_is_due int_of later i (lookup i.instrument_key s'.last_daily_session)
        ≡ daily_is_due int_of later i (lookup i.instrument_key s.last_daily_session)
  unfolding maybe_run
  maybe_run_due is s i later none_answered =
      let k = i.instrument_key in
      let before = ap (lookup k) (hourly_part-days is s) in
      ap (daily_is_due int_of later i) (
        bind-holds
          (λ (t : MarketState). lookup k t.last_daily_session ≡ lookup k s.last_daily_session) _ _ s
          before (λ u e. daily_part-other is _ k none_answered ∙ before))
