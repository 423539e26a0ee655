-- ===== src/PostFacts/Tables.antt =====
-- About the sums that are kept when old posts are rolled up in several runs.
use social_sentiment.Retention.Partition.{Ordered, split_old, kept_twice, filter-append, old}
use social_sentiment.PostFacts.{
  PostRow, SentimentFact, aggregate, merge_fact, upsert_group, upsert_facts, in_group, FactTable,
  FactKey, Posts, rollup_and_prune_posts, SamplingPolicy,
}
use social_sentiment.PostFacts.Sums.{merge_assoc, merge-aggregate}
use social_sentiment.Prelude.{
  ℕ, Option, List, ◌≤◌, ◌≡◌, ◌++◌, ◌+◌, ◌∷◌, filter, ap, ◌∙◌, some, sym, append_nil, length-append,
  length, [], refl, none,
}
use social_sentiment.Prelude.Int.{ℤ}

abbrev pub time_of : PostRow → ℕ
time_of p = p.timestamp

module _ (weight_of : ℤ → ℕ) where
  upsert_group-append :
      (old : Option SentimentFact) (xs ys : List PostRow)
      → upsert_group weight_of (upsert_group weight_of old xs) ys
        ≡ upsert_group weight_of old (xs ++ ys)
  upsert_group-append old [] ys = refl
  upsert_group-append none (x ∷ xs) [] =
      ap (λ l. some (aggregate weight_of x l)) (sym (append_nil xs))
  upsert_group-append (some f) (x ∷ xs) [] =
      ap (λ l. some (merge_fact f (aggregate weight_of x l))) (sym (append_nil xs))
  upsert_group-append none (x ∷ xs) (y ∷ ys) = ap some (merge-aggregate weight_of x xs y ys)
  upsert_group-append (some f) (x ∷ xs) (y ∷ ys) = ap some (
      merge_assoc f (aggregate weight_of x xs) (aggregate weight_of y ys)
      ∙ ap (merge_fact f) (merge-aggregate weight_of x xs y ys))

  upsert_facts-append :
      (hour_of : ℕ → ℕ) (xs ys : List PostRow) (table : FactTable) (k : FactKey)
      → upsert_facts weight_of hour_of ys (upsert_facts weight_of hour_of xs table) k
        ≡ upsert_facts weight_of hour_of (xs ++ ys) table k
  unfolding upsert_facts
  upsert_facts-append hour_of xs ys table k =
      upsert_group-append (table k) (filter (in_group hour_of k) xs)
        (filter (in_group hour_of k) ys)
      ∙ ap (upsert_group weight_of (table k)) (sym (filter-append (in_group hour_of k) xs ys))

-- Where the posts stand in the order of time, rolling up at a cutoff and again at a later one
-- leaves the same posts, the same sums for each key, and has deleted as many posts in all, as
-- rolling up once at the later cutoff.
pub rollup_posts_twice :
    (weight_of : ℤ → ℕ) (hour_of : ℕ → ℕ) (hash_of : PostRow → ℕ) (policy : SamplingPolicy)
    (early late : ℕ) (s : Posts) (k : FactKey)
    → early ≤ late
    → Ordered time_of s.posts
    → let roll = rollup_and_prune_posts weight_of hour_of hash_of policy in
      ((roll late (roll early s).0).0.posts ≡ (roll late s).0.posts)
      × ((roll late (roll early s).0).0.facts k ≡ (roll late s).0.facts k)
      × ((roll early s).1 + (roll late (roll early s).0).1 ≡ (roll late s).1)
unfolding rollup_and_prune_posts
rollup_posts_twice weight_of hour_of hash_of policy early late s k le o =
    let all = split_old time_of early late s.posts le o in
    (
      kept_twice time_of early late s.posts le,
      upsert_facts-append weight_of hour_of (filter (old time_of early) s.posts) _ s.facts k
          ∙ ap (λ d. upsert_facts weight_of hour_of d s.facts k) all,
      sym (length-append (filter (old time_of early) s.posts) _) ∙ ap length all,
    )
