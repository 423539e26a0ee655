-- ===== src/Examples/Rollups.antt =====
-- The theorems on the rollups of posts and quotes at concrete tables.
use social_sentiment.Retention.Once
use social_sentiment.Retention.Once.{
  Tables, Rollups, IsUp, roll_posts, roll_quotes, round, rollup_scheduler_once,
}
use social_sentiment.Retention.{Maintenance, rollup_scheduler}
use social_sentiment.Database.{prune_global_context, attempt, with_reconnect, lost_after, commits}
use social_sentiment.Database.Maintain
use social_sentiment.Database.Maintain.{
  Rollup, SameAt, do_rollup_and_prune_posts, rollup_posts_retried,
}
use social_sentiment.Outcome.{ok}
use Prim.Native.Nat.{◌/◌}
use Prim.Native.Char.{code}
use social_sentiment.QuoteFacts.{Quotes, rollup_and_prune_quotes}
use social_sentiment.PostFacts.{PostRow, Posts, SamplingPolicy, FactKey, rollup_and_prune_posts}
use social_sentiment.PostFacts.Staging.{IsAllowed, Distinct, rollup_posts-IsAllowed}
use social_sentiment.PostFacts.Tables.{rollup_posts_twice}
use social_sentiment.QuoteFacts.Tables.{rollup_quotes_twice}
use social_sentiment.Schemas.{StockQuote, Sentiment}
use text.Mathlib.TextEquality.{Char-path}
use social_sentiment.Prelude.{
  ℕ, String, ◌∷◌, ◌≡◌, ◌≤◌, arith, [], ◌+◌, All, none, ◌*◌, suc, ap, ◌∙◌, zero, refl,
}
use social_sentiment.Prelude.Int.{pos, pos_part}
use social_sentiment.Examples.{failure}

-- an injective number for a text
unfoldable pair : ℕ → ℕ → ℕ
pair zero b = 2 * b + 1
pair (suc a) b = 2 * pair a b

pair_inj : (a b c d : ℕ) → pair a b ≡ pair c d → (a ≡ c) × (b ≡ d)
unfolding pair
pair_inj zero b zero d e = (refl, omega (arith, e))
pair_inj zero b (suc c) d e = absurd (omega (arith, e))
pair_inj (suc a) b zero d e = absurd (omega (arith, e))
pair_inj (suc a) b (suc c) d e =
    let (same, rest) = pair_inj a b c d (omega (arith, e)) in (ap suc same, rest)

pair_pos : (a b : ℕ) → 1 ≤ pair a b
unfolding pair
pair_pos zero b = omega arith
pair_pos (suc a) b = let h = pair_pos a b in omega arith

unfoldable rank : String → ℕ
rank String.[] = 0
rank (String.◌∷◌ c s) = pair (code c) (rank s)

rank_inj : (a b : String) → rank a ≡ rank b → a ≡ b
unfolding rank
rank_inj String.[] String.[] e = refl
rank_inj String.[] (String.◌∷◌ d t) e =
    let h = pair_pos (code d) (rank t) in absurd (omega (arith, h, e))
rank_inj (String.◌∷◌ c s) String.[] e =
    let h = pair_pos (code c) (rank s) in absurd (omega (arith, h, e))
rank_inj (String.◌∷◌ c s) (String.◌∷◌ d t) e =
    let (heads, tails) = pair_inj (code c) (rank s) (code d) (rank t) e in
    ap (λ h. String.◌∷◌ h s) (Char-path c d heads) ∙ ap (String.◌∷◌ d) (rank_inj s t tails)

abbrev hour_of : ℕ → ℕ
hour_of n = n / 60

abbrev day_of : ℕ → ℕ
day_of n = n / 1440

abbrev quote_at : ℕ → ℕ → String → StockQuote
quote_at timestamp price provider = record {
  symbol = "NVDA";
  timestamp = timestamp;
  price = price;
  volume = 100;
  market_session = "regular";
  provider = provider;
}

abbrev quotes : Quotes
quotes = record {
  quotes = quote_at 10 500 "yfinance" ∷ quote_at 20 510 "twse" ∷ quote_at 90 505 "yfinance" ∷ [];
  hourly = λ s b. none;
  daily = λ s b. none;
}

rollup_quotes_twice_example :
    let roll = rollup_and_prune_quotes rank hour_of day_of in
    ((roll 80 (roll 15 quotes)).quotes ≡ (roll 80 quotes).quotes)
    × ((roll 80 (roll 15 quotes)).hourly "NVDA" 0 ≡ (roll 80 quotes).hourly "NVDA" 0)
    × ((roll 80 (roll 15 quotes)).daily "NVDA" 0 ≡ (roll 80 quotes).daily "NVDA" 0)
rollup_quotes_twice_example =
    rollup_quotes_twice rank hour_of day_of 15 80 quotes "NVDA" 0 rank_inj (omega arith)
      ((omega arith, (omega arith, tt)), ((omega arith, tt), (tt, tt)))

abbrev post_at : String → String → ℕ → PostRow
post_at id platform timestamp = record {
  id = id;
  symbol = "NVDA";
  platform = platform;
  timestamp = timestamp;
  sentiment = Sentiment.positive;
  scores = ("positive", 900000000) ∷ [];
  engagement = pos 12;
  ingested_at = timestamp;
  sentiment_scored_at = timestamp;
  topic_id = pos 1;
  topic_label = none;
  topic_model_hash = "t";
  sentiment_model_hash = "s";
}

abbrev posts : Posts
posts = record {
  posts = post_at "1" "reddit" 10 ∷ post_at "2" "bluesky" 20 ∷ post_at "3" "reddit" 90 ∷ [];
  facts = λ k. none;
  staged = [];
}

abbrev policy : SamplingPolicy
policy = record {
  archive_platforms = "bluesky" ∷ [];
  sample_rate = 500000000;
  challenge_engagement = pos 10;
  challenge_abs_signal = 800000000;
}

abbrev nvda_key : FactKey
nvda_key = record {
  bucket_hour = 0;
  symbol = "NVDA";
  platform = "reddit";
  topic_id = pos 1;
  topic_model_hash = "t";
  sentiment_model_hash = "s";
}

rollup_posts_twice_example :
    let roll = rollup_and_prune_posts pos_part hour_of (λ p. 7) policy in
    ((roll 80 (roll 15 posts).0).0.posts ≡ (roll 80 posts).0.posts)
    × ((roll 80 (roll 15 posts).0).0.facts nvda_key ≡ (roll 80 posts).0.facts nvda_key)
    × ((roll 15 posts).1 + (roll 80 (roll 15 posts).0).1 ≡ (roll 80 posts).1)
rollup_posts_twice_example =
    rollup_posts_twice pos_part hour_of (λ p. 7) policy 15 80 posts nvda_key (omega arith)
      ((omega arith, (omega arith, tt)), ((omega arith, tt), (tt, tt)))

rollup_posts-IsAllowed_example :
    let s' = (rollup_and_prune_posts pos_part hour_of (λ p. 7) policy 80 posts).0 in
    All (IsAllowed policy (λ p. 7)) s'.staged × Distinct policy (λ p. 7) s'.staged
rollup_posts-IsAllowed_example =
    rollup_posts-IsAllowed policy (λ p. 7) pos_part hour_of 80 posts tt tt

abbrev rollup : Rollup
rollup = record { weight_of = pos_part; hour_of = hour_of; hash_of = λ p. 7; policy = policy }

rollup_posts_retried_example :
    let once = (do_rollup_and_prune_posts rollup 80 posts).1 in
    SameAt nvda_key (do_rollup_and_prune_posts rollup 80 once).1 once
unfolding Maintain.rollup_and_prune_posts with_reconnect attempt
rollup_posts_retried_example =
    rollup_posts_retried rollup (lost_after failure) commits none 80 posts
      (do_rollup_and_prune_posts rollup 80 (do_rollup_and_prune_posts rollup 80 posts).1).1
      (do_rollup_and_prune_posts rollup 80 (do_rollup_and_prune_posts rollup 80 posts).1).0 nvda_key
      refl

abbrev rollups : Rollups
rollups = record { of_posts = rollup; rank = rank; day_of = day_of }

abbrev running : Maintenance Tables
running = record {
  rollup_and_prune_posts = λ cutoff s. (
    ok (0, 0),
    record { posts = roll_posts rollups cutoff s.posts; quotes = s.quotes; context = s.context },
  );
  rollup_and_prune_quotes = λ cutoff s. (
    ok (0, 0, 0),
    record { posts = s.posts; quotes = roll_quotes rollups cutoff s.quotes; context = s.context },
  );
  prune_global_context = λ a b c s. (
    ok (prune_global_context a b c s.context).0,
    record {
      posts = s.posts;
      quotes = s.quotes;
      context = (prune_global_context a b c s.context).1;
    },
  );
}

running-IsUp : IsUp rollups running
running-IsUp = record {
  posts_answer = λ cutoff s. (0, 0);
  quotes_answer = λ cutoff s. (0, 0, 0);
  rolls_posts = λ cutoff s. refl;
  rolls_quotes = λ cutoff s. refl;
  prunes_context = λ a b c s. refl;
}

abbrev all_tables : Tables
all_tables = record { posts = posts; quotes = quotes; context = record { bars = []; events = [] } }

rollup_scheduler_once_example :
    Once.SameAt nvda_key "NVDA" 0
      (rollup_scheduler running 0 0 (7200000000 ∷ 3600000000 ∷ 10800000000 ∷ []) all_tables).1
      (round rollups 0 0 10800000000 all_tables)
rollup_scheduler_once_example =
    rollup_scheduler_once rollups running running-IsUp 0 0 (7200000000 ∷ 3600000000 ∷ [])
      10800000000 all_tables nvda_key "NVDA" 0 rank_inj (omega arith, (omega arith, tt))
      (
        ((omega arith, (omega arith, tt)), ((omega arith, tt), (tt, tt))),
        ((omega arith, (omega arith, tt)), ((omega arith, tt), (tt, tt))),
      )
