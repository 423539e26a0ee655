-- ===== src/PostFacts/Staging.antt =====
-- About the posts that are copied for the archive.
use social_sentiment.PostFacts.{
  PostRow, Posts, rollup_and_prune_posts, SamplingPolicy, Staged, stage_all, archived_candidates,
  is_allowed, is_sampled, is_challenge, same_key,
}
use social_sentiment.Prelude.{
  ℕ, ◌≡◌, List, Bool, true, ◌∷◌, All, any, map, All-append, Bool-cases, filter, false, inl, arith,
  ltb, inr, [],
}
use social_sentiment.Prelude.Int.{ℤ}

module _ (policy : SamplingPolicy) (hash_of : PostRow → ℕ) where
  abbrev pub IsAllowed : Staged → Type 0
  IsAllowed row = is_allowed policy hash_of row.post ≡ true

  -- No two staged rows have the same key.
  abbrev pub Distinct : List Staged → Type 0
  Distinct [] = Unit
  Distinct (row ∷ rows) = (any (same_key row) rows ≡ false) × Distinct rows

  map-All :
      (f : PostRow → Staged) (test : PostRow → Bool) (ps : List PostRow)
      → ((p : PostRow) → test p ≡ true → IsAllowed (f p))
      → All IsAllowed (map f (filter test ps))
  map-All f test [] h = tt
  map-All f test (p ∷ ps) h = elim (Bool-cases (test p)) [
    | inl e ↦ rw e (h p e, map-All f test ps h)
    | inr e ↦ rw e (map-All f test ps h)
  ]

  candidates-All : (ps : List PostRow) → All IsAllowed (archived_candidates policy hash_of ps)
  unfolding archived_candidates
  candidates-All ps =
      All-append IsAllowed _ _ (map-All _ (is_sampled policy hash_of) ps (λ p e. ground arith))
        (map-All _ (is_challenge policy hash_of) ps (λ p e. ground arith))

  stage_all-All :
      (staged rows : List Staged)
      → All IsAllowed staged
      → All IsAllowed rows
      → All IsAllowed (stage_all policy hash_of staged rows)
  unfolding stage_all
  stage_all-All staged [] a b = a
  stage_all-All staged (row ∷ rows) a b = elim (Bool-cases (any (same_key row) staged)) [
    | inl e ↦ rw e (stage_all-All staged rows a b.1)
    | inr e ↦ rw e (stage_all-All (row ∷ staged) rows (b.0, a) b.1)
  ]

  stage_all-Distinct :
      (staged rows : List Staged)
      → Distinct staged
      → Distinct (stage_all policy hash_of staged rows)
  unfolding stage_all
  stage_all-Distinct staged [] d = d
  stage_all-Distinct staged (row ∷ rows) d = elim (Bool-cases (any (same_key row) staged)) [
    | inl e ↦ rw e (stage_all-Distinct staged rows d)
    | inr e ↦ rw e (stage_all-Distinct (row ∷ staged) rows (e, d))
  ]

  -- Where the staged rows are of allowed platforms and no two of them have the same platform, id,
  -- symbol and cohort, this still holds after any run of the retention.
  pub rollup_posts-IsAllowed :
      (weight_of : ℤ → ℕ) (hour_of : ℕ → ℕ) (cutoff_ts : ℕ) (s : Posts)
      → All IsAllowed s.staged
      → Distinct s.staged
      → let s' = (rollup_and_prune_posts weight_of hour_of hash_of policy cutoff_ts s).0 in
        All IsAllowed s'.staged × Distinct s'.staged
  unfolding rollup_and_prune_posts
  rollup_posts-IsAllowed weight_of hour_of cutoff_ts s a d = (
    stage_all-All s.staged _ a (candidates-All (filter (λ p. ltb p.timestamp cutoff_ts) s.posts)),
    stage_all-Distinct s.staged
        (archived_candidates policy hash_of (filter (λ p. ltb p.timestamp cutoff_ts) s.posts)) d,
  )
