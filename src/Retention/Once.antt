-- ===== src/Retention/Once.antt =====
-- About the scheduler over the tables of storage-service/db.py, in any number of rounds.
use social_sentiment.Retention.Partition.{Ordered, filter-Ordered}
use social_sentiment.PostFacts.{Posts, FactKey, PostRow}
use social_sentiment.Database.Maintain.{Rollup, do_rollup_and_prune_posts}
use social_sentiment.Prelude.{
  ℕ, String, ◌≡◌, ◌-◌, ◌*◌, List, refl, ◌≤◌, ◌∷◌, All, ◌++◌, arith, [], ◌∙◌, ap,
}
use social_sentiment.Retention.{
  Maintenance, maintain, maintain_guarded, rollup_scheduler, logged, post_cutoff, quote_cutoff, day,
}
use social_sentiment.QuoteFacts.{rollup_and_prune_quotes}
use social_sentiment.Database.{prune_global_context}
use social_sentiment.QuoteFacts.{Quotes}
use social_sentiment.GlobalEvents.{◌>>=◌, pure, continue}
use social_sentiment.Database.{Context}
use social_sentiment.Outcome.{ok}
use social_sentiment.PostFacts.Tables.{rollup_posts_twice}
use social_sentiment.QuoteFacts.Tables.{rollup_quotes_twice}
use social_sentiment.PostFacts.{rollup_and_prune_posts}
use social_sentiment.Schemas.{StockQuote}

-- The tables that the maintenance changes.
pub record Tables : Type 0 where
  pub posts : Posts
  pub quotes : Quotes
  pub context : Context

-- The parameters of the two rollups.
pub record Rollups : Type 0 where
  pub of_posts : Rollup
  pub rank : String → ℕ
  pub day_of : ℕ → ℕ

module _ (r : Rollups) where
  abbrev pub roll_posts : ℕ → Posts → Posts
  roll_posts cutoff s = (do_rollup_and_prune_posts r.of_posts cutoff s).1

  abbrev pub roll_quotes : ℕ → Quotes → Quotes
  roll_quotes cutoff s = rollup_and_prune_quotes r.rank r.of_posts.hour_of r.day_of cutoff s

  -- A database that is up: each statement is answered and does to the tables what the SQL says.
  pub record IsUp (db : Maintenance Tables) : Type 0 where
    pub posts_answer : ℕ → Tables → ℕ × ℕ
    pub quotes_answer : ℕ → Tables → ℕ × ℕ × ℕ
    pub rolls_posts :
        (cutoff : ℕ) (s : Tables)
        → db.rollup_and_prune_posts cutoff s ≡ (
          ok (posts_answer cutoff s),
          record { posts = roll_posts cutoff s.posts; quotes = s.quotes; context = s.context },
        )
    pub rolls_quotes :
        (cutoff : ℕ) (s : Tables)
        → db.rollup_and_prune_quotes cutoff s ≡ (
          ok (quotes_answer cutoff s),
          record { posts = s.posts; quotes = roll_quotes cutoff s.quotes; context = s.context },
        )
    pub prunes_context :
        (a b c : ℕ) (s : Tables)
        → db.prune_global_context a b c s ≡ (
          ok (prune_global_context a b c s.context).0,
          record {
            posts = s.posts;
            quotes = s.quotes;
            context = (prune_global_context a b c s.context).1;
          },
        )

-- The tables after a round.
abbrev pub round : Rollups → ℕ → ℕ → ℕ → Tables → Tables
round r retention_days quote_retention_days now s = record {
  posts = roll_posts r (post_cutoff retention_days now) s.posts;
  quotes = roll_quotes r (quote_cutoff quote_retention_days now) s.quotes;
  context =
      (prune_global_context (now - 180 * day) (now - 365 * 5 * day) (now - 365 * day) s.context).1;
}

-- The same posts and quotes, the same sums for a key and the same facts of a symbol's hour and day.
abbrev pub SameAt : FactKey → String → ℕ → Tables → Tables → Type 0
SameAt k symbol bucket a b =
    (a.posts.posts ≡ b.posts.posts)
    × (a.posts.facts k ≡ b.posts.facts k)
    × (a.quotes.quotes ≡ b.quotes.quotes)
    × (a.quotes.hourly symbol bucket ≡ b.quotes.hourly symbol bucket)
    × (a.quotes.daily symbol bucket ≡ b.quotes.daily symbol bucket)

-- The posts and the quotes stand in the order of time.
abbrev pub InOrder : Tables → Type 0
InOrder s =
    Ordered (λ (p : PostRow). p.timestamp) s.posts.posts
    × Ordered (λ (q : StockQuote). q.timestamp) s.quotes.quotes

module _ (r : Rollups) (retention_days quote_retention_days : ℕ) where
  round-InOrder :
      (now : ℕ) (s : Tables)
      → InOrder s
      → InOrder (round r retention_days quote_retention_days now s)
  unfolding do_rollup_and_prune_posts rollup_and_prune_posts rollup_and_prune_quotes
  round-InOrder now s o = (
    filter-Ordered (λ (p : PostRow). p.timestamp) _ s.posts.posts o.0,
    filter-Ordered (λ (q : StockQuote). q.timestamp) _ s.quotes.quotes o.1,
  )

  round_twice :
      (k : FactKey) (symbol : String) (bucket early late : ℕ) (s : Tables)
      → ((a b : String) → r.rank a ≡ r.rank b → a ≡ b)
      → early ≤ late
      → InOrder s
      → let roll = round r retention_days quote_retention_days in
        SameAt k symbol bucket (roll late (roll early s)) (roll late s)
  unfolding do_rollup_and_prune_posts
  round_twice k symbol bucket early late s differ le o =
      let (posts, facts, _) =
        rollup_posts_twice r.of_posts.weight_of r.of_posts.hour_of r.of_posts.hash_of
          r.of_posts.policy (post_cutoff retention_days early) (post_cutoff retention_days late)
          s.posts k (omega (arith, le)) o.0 in
      let (quotes, hourly, daily) =
        rollup_quotes_twice r.rank r.of_posts.hour_of r.day_of
          (quote_cutoff quote_retention_days early) (quote_cutoff quote_retention_days late)
          s.quotes symbol bucket differ (omega (arith, le)) o.1 in
      (posts, facts, quotes, hourly, daily)

module _ (r : Rollups) (db : Maintenance Tables) (up : IsUp r db)
    (retention_days quote_retention_days : ℕ) where
  -- a round of the scheduler succeeds
  maintain_guarded-round :
      (now : ℕ) (s : Tables)
      → maintain_guarded db retention_days quote_retention_days now s
        ≡ (ok tt, round r retention_days quote_retention_days now s)
  unfolding maintain_guarded maintain logged ◌>>=◌ pure
  maintain_guarded-round now s =
      let s₁ : Tables = record {
        posts = roll_posts r (post_cutoff retention_days now) s.posts;
        quotes = s.quotes;
        context = s.context;
      } in
      let s₂ : Tables = record {
        posts = s₁.posts;
        quotes = roll_quotes r (quote_cutoff quote_retention_days now) s.quotes;
        context = s.context;
      } in
      rw
        (
          up.rolls_posts (post_cutoff retention_days now) s,
          up.rolls_quotes (quote_cutoff quote_retention_days now) s₁,
          up.prunes_context (now - 180 * day) (now - 365 * 5 * day) (now - 365 * day) s₂,
        )
        refl

  scheduler_step :
      (now : ℕ) (later : List ℕ) (s : Tables)
      → rollup_scheduler db retention_days quote_retention_days (now ∷ later) s
        ≡ rollup_scheduler db retention_days quote_retention_days later
            (round r retention_days quote_retention_days now s)
  unfolding rollup_scheduler ◌>>=◌
  scheduler_step now later s =
      ap
        (λ x. continue (λ _. rollup_scheduler db retention_days quote_retention_days later) x.0 x.1)
        (maintain_guarded-round now s)

  -- While the database is up, where the posts and quotes stand in the order of time and the ranks
  -- tell the providers apart, a run of the scheduler whose last round is its latest leaves the posts,
  -- the quotes, the sums and the facts that this one round alone would leave.
  pub rollup_scheduler_once :
      (times : List ℕ) (last : ℕ) (s : Tables) (k : FactKey) (symbol : String) (bucket : ℕ)
      → ((a b : String) → r.rank a ≡ r.rank b → a ≡ b)
      → All (λ t. t ≤ last) times
      → InOrder s
      → SameAt k symbol bucket
          (rollup_scheduler db retention_days quote_retention_days (times ++ (last ∷ [])) s).1
          (round r retention_days quote_retention_days last s)
  unfolding rollup_scheduler pure
  rollup_scheduler_once [] last s k symbol bucket differ le o =
      rw (scheduler_step last [] s) (refl, refl, refl, refl, refl)
  rollup_scheduler_once (now ∷ times) last s k symbol bucket differ le o =
      let s₁ = round r retention_days quote_retention_days now s in
      let (a, b, c, d, e) =
        rollup_scheduler_once times last s₁ k symbol bucket differ le.1
          (round-InOrder r retention_days quote_retention_days now s o) in
      let (f, g, h, i, j) =
        round_twice r retention_days quote_retention_days k symbol bucket now last s differ le.0
          o in
      rw (scheduler_step now (times ++ (last ∷ [])) s) (a ∙ f, b ∙ g, c ∙ h, d ∙ i, e ∙ j)
