-- ===== src/Retention/Cutoffs.antt =====
-- About the cutoff of posts and the rounds of the scheduler.
use Prim.Native.Nat.{◌/◌}
use social_sentiment.GlobalEvents.{pure}
use social_sentiment.GlobalEvents.Actions.{bind_quiet}
use social_sentiment.Retention.{
  post_cutoff, hour, day, Maintenance, rollup_scheduler, maintain_guarded, logged,
}
use social_sentiment.Prelude.{ℕ, ◌≡◌, List, ◌*◌, ◌≤◌, ◌-◌, ◌∷◌, ◌<◌, [], ◌+◌, arith}
use social_sentiment.Outcome.{Outcome, Error, raised, ok, cancelled}

-- The cutoff of posts is a whole hour, no later than the time of retention before now and less than
-- an hour earlier, so no hour of posts is split between the aggregate and the raw posts.
pub post_cutoff-aligned :
    (retention_days now : ℕ)
    → (post_cutoff retention_days now ≡ post_cutoff retention_days now / hour * hour)
      × (post_cutoff retention_days now ≤ now - retention_days * day)
      × (now - retention_days * day < post_cutoff retention_days now + hour)
post_cutoff-aligned retention_days now = (omega arith, omega arith, omega arith)

module _ {S : Type 0} (db : Maintenance S) (retention_days quote_retention_days : ℕ) where
  logged_quiet :
      (o : Outcome (Unit {0})) (e : Error)
      → ¬ (logged db retention_days quote_retention_days o ≡ raised e)
  unfolding logged
  logged_quiet (ok x) e h = cc h
  logged_quiet (raised x) e h = cc h
  logged_quiet cancelled e h = cc h

  -- Whatever the database answers, the scheduler raises nothing.
  pub rollup_scheduler_quiet :
      (times : List ℕ) (s : S) (e : Error)
      → ¬ ((rollup_scheduler db retention_days quote_retention_days times s).0 ≡ raised e)
  unfolding rollup_scheduler maintain_guarded pure
  rollup_scheduler_quiet [] s e = λ h. cc h
  rollup_scheduler_quiet (now ∷ later) s e =
      bind_quiet (maintain_guarded db retention_days quote_retention_days now)
        (λ x. rollup_scheduler db retention_days quote_retention_days later)
        (λ t x. logged_quiet _ x) (λ x. rollup_scheduler_quiet later) s e
