-- ===== src/Retention.antt =====
-- storage-service/main.py: the daily maintenance of the database, over any state of it. Times are
-- microseconds since 1970, so that the hours of UTC are the multiples of an hour.
pub mod Cutoffs
pub mod Partition
pub mod Once
use Prim.Native.Nat.{◌/◌}
use social_sentiment.Outcome.{Outcome, ok, raised, cancelled}
use social_sentiment.GlobalEvents.{Act, pure, ◌>>=◌, ◌>>◌}
use social_sentiment.Prelude.{ℕ, ◌-◌, List, ◌*◌, ◌∷◌, []}

abbrev pub day : ℕ
day = 86400000000

abbrev pub hour : ℕ
hour = 3600000000

-- The three statements of `DB` that a round sends: cutoffs of posts, of quotes, and of the hourly
-- bars, the daily bars and the events of the global context.
pub record Maintenance (S : Type 0) : Type 0 where
  pub rollup_and_prune_posts : ℕ → Act S (ℕ × ℕ)
  pub rollup_and_prune_quotes : ℕ → Act S (ℕ × ℕ × ℕ)
  pub prune_global_context : ℕ → ℕ → ℕ → Act S (ℕ × ℕ × ℕ)

-- `(now - timedelta(days=...)).replace(minute=0, second=0, microsecond=0)`
abbrev pub post_cutoff : ℕ → ℕ → ℕ
post_cutoff retention_days now = (now - retention_days * day) / hour * hour

abbrev pub quote_cutoff : ℕ → ℕ → ℕ
quote_cutoff quote_retention_days now = now - quote_retention_days * day

module _ {S : Type 0} (db : Maintenance S) (retention_days quote_retention_days : ℕ) where
  -- the body of the `try`
  unfoldable pub maintain : ℕ → Act S (Unit {0})
  maintain now = do
    rolled ← db.rollup_and_prune_posts (post_cutoff retention_days now)
    facts ← db.rollup_and_prune_quotes (quote_cutoff quote_retention_days now)
    context ← db.prune_global_context (now - 180 * day) (now - 365 * 5 * day) (now - 365 * day)
    pure tt

  -- `except Exception`: the error is logged
  unfoldable pub logged : Outcome (Unit {0}) → Outcome (Unit {0})
  logged (ok x) = ok x
  logged (raised e) = ok tt
  logged cancelled = cancelled

  unfoldable pub maintain_guarded : ℕ → Act S (Unit {0})
  unfolding maintain logged
  maintain_guarded now s = let (o, s') = maintain now s in (logged o, s')

  -- The rounds of the endless loop, at the times when they start.
  unfoldable pub rollup_scheduler : List ℕ → Act S (Unit {0})
  unfolding maintain_guarded
  rollup_scheduler [] = pure tt
  rollup_scheduler (now ∷ later) = do maintain_guarded now; rollup_scheduler later
