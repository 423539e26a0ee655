-- ===== src/Pacing/Limiter.antt =====
-- About the tokens of the bucket over time.
use social_sentiment.Pacing.{token, RateLimiter, acquire_round, grants, run_rounds, sleeps, granted}
use social_sentiment.Prelude.{◌≤◌, ℕ, ◌*◌, List, arith, ◌+◌, ◌∷◌, ◌-◌, [], ◌≡◌, subst, sym}

abbrev pub IsFilled : RateLimiter → Type 0
IsFilled l = l.tokens ≤ l.max_rate * l.period

-- The readings of the clock do not go back.
abbrev pub Ascending : ℕ → List ℕ → Type 0
Ascending from [] = Unit
Ascending from (now ∷ rest) = (from ≤ now) × Ascending now rest

abbrev pub last_of : ℕ → List ℕ → ℕ
last_of from [] = from
last_of from (now ∷ rest) = last_of now rest

round_IsFilled : (l : RateLimiter) (now : ℕ) → IsFilled (acquire_round l now).0
unfolding acquire_round
round_IsFilled l now = ground arith

-- one round pays for its token out of the time that has passed
round_pays :
    (l : RateLimiter) (now : ℕ)
    → (acquire_round l now).0.tokens + grants (acquire_round l now).1 * token l
      ≤ l.tokens + (now - l.last) * l.max_rate
unfolding acquire_round
round_pays l now = ground arith

spans : (a b c r : ℕ) → a ≤ b → b ≤ c → (b - a) * r + (c - b) * r ≡ (c - a) * r
spans a b c r p q = grind arith

ascends : (from : ℕ) (times : List ℕ) → Ascending from times → from ≤ last_of from times
ascends from [] h = omega arith
ascends from (now ∷ rest) h = omega (arith, ascends now rest h.1)

round_keeps :
    (l : RateLimiter) (now : ℕ)
    → ((acquire_round l now).0.max_rate ≡ l.max_rate)
      × ((acquire_round l now).0.period ≡ l.period)
      × ((acquire_round l now).0.last ≡ now)
unfolding acquire_round
round_keeps l now = (ground arith, ground arith, ground arith)

-- what the rest earns is counted with the rate, period and reading that the round has kept
paid_on :
    (l' : RateLimiter) (rate period now end tokens n : ℕ)
    → (l'.max_rate ≡ rate) × (l'.period ≡ period) × (l'.last ≡ now)
    → tokens + n * token l' ≤ l'.tokens + (end - l'.last) * l'.max_rate
    → tokens + n * (period * 1000000000) ≤ l'.tokens + (end - now) * rate
paid_on l' rate period now end tokens n (r, p, t) h =
    subst (λ x. tokens + n * (period * 1000000000) ≤ l'.tokens + (end - now) * x) r
      (subst (λ x. tokens + n * (period * 1000000000) ≤ l'.tokens + (end - x) * l'.max_rate) t
        (subst (λ x. tokens + n * (x * 1000000000) ≤ l'.tokens + (end - l'.last) * l'.max_rate) p
          h))

-- Whatever the readings of a clock that does not go back, the tokens handed out are paid for by
-- those in the bucket at the start and by the time that has passed, at `max_rate` a period.
pub run_rounds_paid :
    (l : RateLimiter) (times : List ℕ)
    → Ascending l.last times
    → (run_rounds l times).0.tokens + (run_rounds l times).1 * token l
      ≤ l.tokens + (last_of l.last times - l.last) * l.max_rate
unfolding run_rounds
run_rounds_paid l [] h = omega arith
run_rounds_paid l (now ∷ rest) h =
    let l' : RateLimiter = (acquire_round l now).0 in
    let kept = round_keeps l now in
    let ih = run_rounds_paid l' rest (subst (λ x. Ascending x rest) (sym kept.2) h.1) in
    let ih' =
      paid_on l' l.max_rate l.period now (last_of now rest) (run_rounds l' rest).0.tokens
        (run_rounds l' rest).1 kept
        (subst
          (λ x.
            (run_rounds l' rest).0.tokens + (run_rounds l' rest).1 * token l'
            ≤ l'.tokens + (last_of x rest - l'.last) * l'.max_rate)
          kept.2 ih) in
    omega (
      arith,
      ih',
      round_pays l now,
      spans l.last now (last_of now rest) l.max_rate h.0 (ascends now rest h.1),
    )

missing_is :
    (l : RateLimiter) (now missing : ℕ)
    → (acquire_round l now).1 ≡ sleeps missing
    → (acquire_round l now).0.tokens + missing ≡ token l
unfolding acquire_round
missing_is l now missing e = ground arith

refilled_granted :
    (l : RateLimiter) (later : ℕ)
    → token l ≤ l.max_rate * l.period
    → token l ≤ l.tokens + (later - l.last) * l.max_rate
    → (acquire_round l later).1 ≡ granted
unfolding acquire_round
refilled_granted l later p q = ground arith

-- Where the rate is at least one acquisition, a caller that slept until time has earned what was
-- missing gets its token at the next reading.
pub slept_is_granted :
    (l : RateLimiter) (now later missing : ℕ)
    → 1000000000 ≤ l.max_rate
    → (acquire_round l now).1 ≡ sleeps missing
    → missing ≤ (later - now) * l.max_rate
    → (acquire_round (acquire_round l now).0 later).1 ≡ granted
slept_is_granted l now later missing r e slept =
    let l' : RateLimiter = (acquire_round l now).0 in
    let (rate, period, last) = round_keeps l now in
    let full : token l ≤ l.max_rate * l.period = grind arith in
    refilled_granted l' later (rw (rate, period) full)
      (rw (rate, period, last) (omega (arith, missing_is l now missing e)))
