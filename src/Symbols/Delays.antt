-- ===== src/Symbols/Delays.antt =====
-- About the delays of the refresh loop of the symbol registry.
use social_sentiment.Symbols.{SymbolRegistry, refresh_delays, refresh_loop, new_registry}
use social_sentiment.Prelude.{
  ℕ, ◌≡◌, List, Bool, ◌⊎◌, ◌≤◌, ◌<◌, All, arith, ◌∷◌, inl, inr, min, ◌*◌, [], true, false, refl,
}
use social_sentiment.Outcome.{ok}

-- The regular interval, or a delay between the bounds for retries.
abbrev pub IsDelay : SymbolRegistry → ℕ → Type 0
IsDelay r d = (d ≡ r.refresh_interval) ⊎ ((r.retry_base ≤ d) × (d ≤ r.retry_max))

new_registry-ordered :
    (refresh_interval retry_base retry_max connect_timeout : ℕ) (r : SymbolRegistry)
    → new_registry refresh_interval retry_base retry_max connect_timeout ≡ ok r
    → (0 < r.refresh_interval) × (0 < r.retry_base) × (r.retry_base ≤ r.retry_max)
unfolding new_registry
new_registry-ordered refresh_interval retry_base retry_max connect_timeout r e =
    (ground arith, ground arith, ground arith)

delays-All :
    (r : SymbolRegistry) (retry : ℕ) (results : List Bool)
    → r.retry_base ≤ r.retry_max
    → r.retry_base ≤ retry
    → retry ≤ r.retry_max
    → All (IsDelay r) (refresh_delays r retry results)
unfolding refresh_delays
delays-All r retry [] o low high = tt
delays-All r retry (true ∷ results) o low high =
    (inl refl, delays-All r r.retry_base results o (omega arith) o)
delays-All r retry (false ∷ results) o low high = (
  inr (low, high),
  delays-All r (min (retry * 2) r.retry_max) results o (omega arith) (omega arith),
)

-- A registry that was made has positive delays, and whatever refreshes succeed, each delay of its
-- loop is the regular interval or lies between the bounds for retries.
pub refresh_loop-IsDelay :
    (refresh_interval retry_base retry_max connect_timeout : ℕ) (r : SymbolRegistry) (first : Bool)
    (later : List Bool)
    → new_registry refresh_interval retry_base retry_max connect_timeout ≡ ok r
    → (0 < r.refresh_interval) × (0 < r.retry_base) × All (IsDelay r) (refresh_loop r first later)
unfolding refresh_loop
refresh_loop-IsDelay refresh_interval retry_base retry_max connect_timeout r first later e =
    let (interval, base, ordered) =
      new_registry-ordered refresh_interval retry_base retry_max connect_timeout r e in
    (interval, base, delays-All r r.retry_base (first ∷ later) ordered (omega arith) ordered)
