-- ===== src/Examples/Pace.antt =====
-- The theorems on pacing at concrete inputs.
use social_sentiment.Pacing.{new_limiter, run_rounds}
use social_sentiment.Prelude.{◌∷◌, [], arith, ◌+◌, ◌*◌, ◌≤◌}
use social_sentiment.Pacing.Limiter.{run_rounds_paid}

run_rounds_paid_example :
    (run_rounds (new_limiter 2000000000 10 0) (1 ∷ 2 ∷ [])).0.tokens
      + (run_rounds (new_limiter 2000000000 10 0) (1 ∷ 2 ∷ [])).1 * 10000000000
    ≤ 24000000000
unfolding new_limiter
run_rounds_paid_example =
    run_rounds_paid (new_limiter 2000000000 10 0) (1 ∷ 2 ∷ []) (omega arith, (omega arith, tt))
