-- ===== src/Database/Maintain.antt =====
-- storage-service/db.py: `DB.rollup_and_prune_posts`, sent again once when the connection is lost, and
-- the answer of `_do_rollup_and_prune_posts`, of which the number of deleted posts is modelled.
use social_sentiment.Database.{
  attempt, with_reconnect, Attempt, fails, lost_before, lost_after, commits,
}
use social_sentiment.Retention.Partition.{kept_twice}
use social_sentiment.PostFacts
use social_sentiment.Prelude.Int.{ℤ}
use social_sentiment.Prelude.{
  ℕ, List, Option, ◌≡◌, filter, ltb, arith, not, [], ◌∷◌, refl, Bool-cases, some, inl, inr, none,
}
use social_sentiment.PostFacts.{
  FactKey, upsert_facts, PostRow, Posts, stage_all, SamplingPolicy, archived_candidates,
}
use social_sentiment.Outcome.{Error, Outcome, ok}

-- What the statement needs to know: the weights, the hours, the hash and the policy.
pub record Rollup : Type 0 where
  pub weight_of : ℤ → ℕ
  pub hour_of : ℕ → ℕ
  pub hash_of : PostRow → ℕ
  pub policy : SamplingPolicy

unfoldable pub do_rollup_and_prune_posts : Rollup → ℕ → Posts → ℕ × Posts
do_rollup_and_prune_posts r cutoff_ts s =
    let (s', deleted) =
      PostFacts.rollup_and_prune_posts r.weight_of r.hour_of r.hash_of r.policy cutoff_ts s in
    (deleted, s')

unfoldable pub rollup_and_prune_posts :
    Rollup → Attempt → Option Error → Attempt → ℕ → Posts → Outcome ℕ × Posts
unfolding with_reconnect do_rollup_and_prune_posts
rollup_and_prune_posts r first reconnect second cutoff_ts s =
    with_reconnect first reconnect second (do_rollup_and_prune_posts r cutoff_ts) s

-- The same posts, the same sums for a key, the same staged rows.
abbrev pub SameAt : FactKey → Posts → Posts → Type 0
SameAt k a b = (a.posts ≡ b.posts) × (a.facts k ≡ b.facts k) × (a.staged ≡ b.staged)

none_left :
    (cutoff : ℕ) (ps : List PostRow)
    → filter
        (λ (p : PostRow). ltb p.timestamp cutoff)
        (filter (λ p. not (ltb p.timestamp cutoff)) ps)
      ≡ []
none_left cutoff [] = refl
none_left cutoff (p ∷ ps) = elim (Bool-cases (ltb p.timestamp cutoff)) [
  | inl e ↦ rw e (none_left cutoff ps)
  | inr e ↦ rw (e, e) (none_left cutoff ps)
]

-- the second run finds nothing to delete
again-SameAt :
    (r : Rollup) (cutoff : ℕ) (s : Posts) (k : FactKey)
    → let done = (do_rollup_and_prune_posts r cutoff s).1 in
      SameAt k (do_rollup_and_prune_posts r cutoff done).1 done
unfolding do_rollup_and_prune_posts PostFacts.rollup_and_prune_posts upsert_facts stage_all
    archived_candidates
again-SameAt r cutoff s k = (
  kept_twice (λ (p : PostRow). p.timestamp) cutoff cutoff s.posts (omega arith),
  rw (none_left cutoff s.posts) refl,
  rw (none_left cutoff s.posts) refl,
)

-- When the retention is answered, whatever connections were lost and whether or not the first
-- statement committed, the posts, the sums and the staged rows are those of one run.
pub rollup_posts_retried :
    (r : Rollup) (first second : Attempt) (reconnect : Option Error) (cutoff : ℕ) (s s' : Posts)
    (n : ℕ) (k : FactKey)
    → rollup_and_prune_posts r first reconnect second cutoff s ≡ (ok n, s')
    → SameAt k s' (do_rollup_and_prune_posts r cutoff s).1
unfolding rollup_and_prune_posts with_reconnect attempt
rollup_posts_retried r commits second reconnect cutoff s s' n k e = (cc, cc, cc)
rollup_posts_retried r (fails x) second reconnect cutoff s s' n k e = (cc, cc, cc)
rollup_posts_retried r (lost_before x) second (some y) cutoff s s' n k e = (cc, cc, cc)
rollup_posts_retried r (lost_after x) second (some y) cutoff s s' n k e = (cc, cc, cc)
rollup_posts_retried r (lost_before x) commits none cutoff s s' n k e = (cc, cc, cc)
rollup_posts_retried r (lost_before x) (lost_before y) none cutoff s s' n k e = (cc, cc, cc)
rollup_posts_retried r (lost_before x) (lost_after y) none cutoff s s' n k e = (cc, cc, cc)
rollup_posts_retried r (lost_before x) (fails y) none cutoff s s' n k e = (cc, cc, cc)
rollup_posts_retried r (lost_after x) commits none cutoff s s' n k e =
    let (posts, facts, staged) = again-SameAt r cutoff s k in
    (cc (e, posts), cc (e, facts), cc (e, staged))
rollup_posts_retried r (lost_after x) (lost_before y) none cutoff s s' n k e = (cc, cc, cc)
rollup_posts_retried r (lost_after x) (lost_after y) none cutoff s s' n k e = (cc, cc, cc)
rollup_posts_retried r (lost_after x) (fails y) none cutoff s s' n k e = (cc, cc, cc)
