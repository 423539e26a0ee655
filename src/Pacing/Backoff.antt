-- ===== src/Pacing/Backoff.antt =====
-- About the cooldown of symbols.
use social_sentiment.Pacing.{PerSymbolBackoff, record_outcome, new_backoff, next_penalty, is_due}
use Prim.Native.Nat.{◌^◌}
use native.Mathlib.Nat.{add-zero, zero-add, add-suc, suc-add, pow-suc}
use social_sentiment.Prelude.{
  ℕ, String, ◌<◌, suc, List, ◌≤◌, arith, get_or, Bool, ◌∷◌, lookup, ◌≡◌, true, some, ◌⊎◌,
  lookup-insert, ◌+◌, zero, Option-cases, lookup-erase, length, [], inl, inr, if◌then◌else◌, min,
  ◌*◌, none, false, str_eq, ltb, ◌∙◌, leb, ap, str_eq_refl,
}

-- `n` rate limits in a row, at the given times.
abbrev pub hits : PerSymbolBackoff → String → List ℕ → PerSymbolBackoff
hits b symbol [] = b
hits b symbol (now ∷ rest) = hits (record_outcome b symbol true now) symbol rest

-- Every cooldown in force is between the base interval and the limit.
pub record IsSound (b : PerSymbolBackoff) : Type 0 where
  pub positive : 0 < b.base
  pub ordered : b.base ≤ b.max_backoff
  pub bounded :
      (symbol : String) (p : ℕ)
      → lookup symbol b.penalty ≡ some p
      → (b.base ≤ p) × (p ≤ b.max_backoff)

new_backoff-IsSound :
    (base_interval max_backoff : ℕ) → IsSound (new_backoff base_interval max_backoff)
unfolding new_backoff
new_backoff-IsSound base_interval max_backoff = record {
  positive = omega arith;
  ordered = omega arith;
  bounded = λ s p e. cc;
}

next_penalty_bounds :
    (b : PerSymbolBackoff) (prev : ℕ)
    → 0 < b.base
    → b.base ≤ b.max_backoff
    → (prev ≡ 0) ⊎ (b.base ≤ prev)
    → (b.base ≤ next_penalty b prev) × (next_penalty b prev ≤ b.max_backoff)
next_penalty_bounds b prev p o h = ground arith

prev_cases :
    (b : PerSymbolBackoff) (symbol : String)
    → IsSound b
    → (get_or (lookup symbol b.penalty) 0 ≡ 0) ⊎ (b.base ≤ get_or (lookup symbol b.penalty) 0)
prev_cases b symbol s = elim (Option-cases (lookup symbol b.penalty)) [
  | inl e ↦ inl (rw e)
  | inr (p, e) ↦ inr (rw e (s.bounded symbol p e).0)
]

-- Recording an outcome, of either kind and at any time, keeps every cooldown within its bounds.
pub record_outcome-IsSound :
    (b : PerSymbolBackoff) (symbol : String) (limited : Bool) (now : ℕ)
    → IsSound b
    → IsSound (record_outcome b symbol limited now)
unfolding record_outcome
record_outcome-IsSound b symbol true now s =
    let prev : ℕ = get_or (lookup symbol b.penalty) 0 in
    let next = next_penalty_bounds b prev s.positive s.ordered (prev_cases b symbol s) in
    record {
      positive = s.positive;
      ordered = s.ordered;
      bounded = λ j p e.
          ground
            (arith, lookup-insert symbol j (next_penalty b prev) b.penalty, s.bounded j p, next);
    }
record_outcome-IsSound b symbol false now s = record {
  positive = s.positive;
  ordered = s.ordered;
  bounded = λ j p e. ground (arith, lookup-erase symbol j b.penalty, s.bounded j p);
}

-- After an outcome the symbol is due at once if it was no rate limit, and after its cooldown
-- otherwise; every other symbol is due when it was.
pub due_after_outcome :
    (b : PerSymbolBackoff) (symbol other : String) (limited : Bool) (now at : ℕ)
    → is_due (record_outcome b symbol limited now) at other ≡ (
        if str_eq symbol other
        then (if limited
            then leb (now + next_penalty b (get_or (lookup symbol b.penalty) 0)) at
            else true)
        else is_due b at other)
unfolding record_outcome
due_after_outcome b symbol other true now at =
    rw
      (lookup-insert symbol other (now + next_penalty b (get_or (lookup symbol b.penalty) 0))
        b.next_ok)
      (ground arith)
due_after_outcome b symbol other false now at =
    rw (lookup-erase symbol other b.next_ok) (ground arith)

double_limited :
    (base limit x : ℕ)
    → 0 < base
    → base ≤ x
    → base ≤ limit
    → min limit (if ltb 0 (min limit x) then min limit x * 2 else base) ≡ min limit (x * 2)
double_limited base limit x p q o = ground arith

le-mul-pow : (base n : ℕ) → base ≤ base * 2 ^ n
le-mul-pow base zero = grind arith
le-mul-pow base (suc n) = rw pow-suc (omega (arith, le-mul-pow base n))

pow_step : (base n : ℕ) → base * 2 ^ n * 2 ≡ base * 2 ^ suc n
pow_step base n = rw pow-suc (omega arith)

hits_from :
    (b : PerSymbolBackoff) (symbol : String) (n : ℕ) (times : List ℕ)
    → 0 < b.base
    → b.base ≤ b.max_backoff
    → lookup symbol b.penalty ≡ some (min b.max_backoff (b.base * 2 ^ n))
    → lookup symbol (hits b symbol times).penalty
      ≡ some (min b.max_backoff (b.base * 2 ^ (n + length times)))
unfolding record_outcome
hits_from b symbol n [] p o h = rw add-zero h
hits_from b symbol n (now ∷ times) p o h =
    let b' : PerSymbolBackoff = record_outcome b symbol true now in
    let x : ℕ = b.base * 2 ^ n in
    let doubled : next_penalty b (get_or (lookup symbol b.penalty) 0)
        ≡ min b.max_backoff (b.base * 2 ^ suc n) =
      rw h (
        double_limited b.base b.max_backoff x p (le-mul-pow b.base n) o
        ∙ ap (min b.max_backoff) (pow_step b.base n)) in
    let now_is : lookup symbol b'.penalty ≡ some (min b.max_backoff (b.base * 2 ^ suc n)) =
      lookup-insert symbol symbol (next_penalty b (get_or (lookup symbol b.penalty) 0)) b.penalty
      ∙ rw (str_eq_refl symbol) (ap some doubled) in
    rw (add-suc, ← suc-add) (hits_from b' symbol (suc n) times p o now_is)

-- After `n + 1` rate limits in a row, whenever they came, the cooldown of a symbol that had none is
-- the base interval doubled `n` times, or the limit if that is smaller.
pub cooldown_doubles :
    (b : PerSymbolBackoff) (symbol : String) (now : ℕ) (times : List ℕ)
    → IsSound b
    → lookup symbol b.penalty ≡ none
    → lookup symbol (hits b symbol (now ∷ times)).penalty
      ≡ some (min b.max_backoff (b.base * 2 ^ length times))
unfolding record_outcome
cooldown_doubles b symbol now times s e =
    let b' : PerSymbolBackoff = record_outcome b symbol true now in
    let first : lookup symbol b'.penalty ≡ some (min b.max_backoff (b.base * 2 ^ 0)) =
      lookup-insert symbol symbol (next_penalty b (get_or (lookup symbol b.penalty) 0)) b.penalty
      ∙ rw (str_eq_refl symbol, e) (ground arith) in
    rw zero-add at (hits_from b' symbol 0 times s.positive s.ordered first)
