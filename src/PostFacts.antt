-- ===== src/PostFacts.antt =====
-- storage-service/db.py: the statement `ROLLUP_AND_PRUNE_POSTS_SQL` deletes old posts, keeps their
-- sums for each hour and stages a sample of them for the archive. A probability is a number of
-- billionths and a weight one of some unit, so sums are exact. `LN(GREATEST(engagement, 0) + 1)`, the
-- hash that samples and the hour of a time are parameters.
pub mod Sums
pub mod Tables
pub mod Staging
use social_sentiment.Schemas.{Sentiment, positive, neutral, negative, one}
use social_sentiment.Prelude.{
  String, Bool, ℕ, ◌+◌, Option, List, Dict, true, if◌then◌else◌, get_or, ◌∷◌, min, ◌==◌, filter,
  str_eq, any, ◌&&◌, leb, map, false, lookup, max, ◌*◌, some, ltb, ◌||◌, [], ◌++◌, not, none, suc,
  length,
}
use social_sentiment.Prelude.Int.{ℤ, sub_ℕ, pos_part, pos, leb_ℤ, neg_part, negsuc}

-- A row of `posts`, as far as the statement reads it.
pub record PostRow : Type 0 where
  pub id : String
  pub symbol : String
  pub platform : String
  pub timestamp : ℕ
  pub sentiment : Sentiment
  pub scores : Dict ℕ
  pub engagement : ℤ
  pub ingested_at : ℕ
  pub sentiment_scored_at : ℕ
  pub topic_id : ℤ
  pub topic_label : Option String
  pub topic_model_hash : String
  pub sentiment_model_hash : String

abbrev is_positive : Sentiment → Bool
is_positive positive = true
is_positive _ = false

abbrev is_neutral : Sentiment → Bool
is_neutral neutral = true
is_neutral _ = false

abbrev is_negative : Sentiment → Bool
is_negative negative = true
is_negative _ = false

abbrev one_if : Bool → ℕ
one_if b = if b then one else 0

abbrev indicator : Bool → ℕ
indicator b = if b then 1 else 0

-- `COALESCE(scores ->> label, CASE WHEN sentiment = label THEN 1.0 ELSE 0.0 END)`
abbrev pub positive_probability : PostRow → ℕ
positive_probability p = get_or (lookup "positive" p.scores) (one_if (is_positive p.sentiment))

abbrev pub neutral_probability : PostRow → ℕ
neutral_probability p = get_or (lookup "neutral" p.scores) (one_if (is_neutral p.sentiment))

abbrev pub negative_probability : PostRow → ℕ
negative_probability p = get_or (lookup "negative" p.scores) (one_if (is_negative p.sentiment))

abbrev pub signal : PostRow → ℤ
signal p = sub_ℕ (positive_probability p) (negative_probability p)

abbrev square_ℤ : ℤ → ℕ
square_ℤ z = (pos_part z + neg_part z) * (pos_part z + neg_part z)

-- `SUM(f)` over some rows
abbrev pub total : (PostRow → ℕ) → List PostRow → ℕ
total f [] = 0
total f (p ∷ ps) = f p + total f ps

-- `SUM(f)` where `f` may be negative, as what is above and what is below nothing
pub record Balance : Type 0 where
  pub above : ℕ
  pub below : ℕ

abbrev pub balance : (PostRow → ℤ) → List PostRow → Balance
balance f ps = record {
  above = total (λ p. pos_part (f p)) ps;
  below = total (λ p. neg_part (f p)) ps;
}

-- `MIN(f)` and `MAX(f)` over a group that has a row
abbrev pub least : (PostRow → ℕ) → ℕ → List PostRow → ℕ
least f n [] = n
least f n (p ∷ ps) = least f (min n (f p)) ps

abbrev pub greatest : (PostRow → ℕ) → ℕ → List PostRow → ℕ
greatest f n [] = n
greatest f n (p ∷ ps) = greatest f (max n (f p)) ps

-- What a row of `hourly_sentiment_facts` holds of its posts, beside the labels of the models.
pub record SentimentFact : Type 0 where
  pub post_count : ℕ
  pub positive_count : ℕ
  pub neutral_count : ℕ
  pub negative_count : ℕ
  pub positive_probability_sum : ℕ
  pub neutral_probability_sum : ℕ
  pub negative_probability_sum : ℕ
  pub positive_probability_sq_sum : ℕ
  pub neutral_probability_sq_sum : ℕ
  pub negative_probability_sq_sum : ℕ
  pub signal_sum : Balance
  pub signal_sq_sum : ℕ
  pub engagement_sum : ℕ
  pub weight_sum : ℕ
  pub positive_weight_sum : ℕ
  pub neutral_weight_sum : ℕ
  pub negative_weight_sum : ℕ
  pub weighted_signal_sum : Balance
  pub weighted_signal_sq_sum : ℕ
  pub first_event_at : ℕ
  pub last_event_at : ℕ
  pub first_ingested_at : ℕ
  pub last_ingested_at : ℕ
  pub first_scored_at : ℕ
  pub last_scored_at : ℕ
  pub input_watermark : ℕ

abbrev scale : ℕ → ℤ → ℤ
scale w (pos n) = pos (w * n)
scale w (negsuc n) = sub_ℕ 0 (w * suc n)

-- The columns of `aggregated_posts`, each summed over the rows.
module _ (weight_of : ℤ → ℕ) where
  abbrev pub weight : PostRow → ℕ
  weight p = weight_of p.engagement

  abbrev pub weighted_if : (Sentiment → Bool) → PostRow → ℕ
  weighted_if test p = if test p.sentiment then weight p else 0

  unfoldable pub aggregate : PostRow → List PostRow → SentimentFact
  aggregate q qs =
      let ps = q ∷ qs in
      record {
        post_count = total (λ p. 1) ps;
        positive_count = total (λ p. indicator (is_positive p.sentiment)) ps;
        neutral_count = total (λ p. indicator (is_neutral p.sentiment)) ps;
        negative_count = total (λ p. indicator (is_negative p.sentiment)) ps;
        positive_probability_sum = total positive_probability ps;
        neutral_probability_sum = total neutral_probability ps;
        negative_probability_sum = total negative_probability ps;
        positive_probability_sq_sum =
            total (λ p. positive_probability p * positive_probability p) ps;
        neutral_probability_sq_sum = total (λ p. neutral_probability p * neutral_probability p) ps;
        negative_probability_sq_sum =
            total (λ p. negative_probability p * negative_probability p) ps;
        signal_sum = balance signal ps;
        signal_sq_sum = total (λ p. square_ℤ (signal p)) ps;
        engagement_sum = total (λ p. pos_part p.engagement) ps;
        weight_sum = total weight ps;
        positive_weight_sum = total (weighted_if is_positive) ps;
        neutral_weight_sum = total (weighted_if is_neutral) ps;
        negative_weight_sum = total (weighted_if is_negative) ps;
        weighted_signal_sum = balance (λ p. scale (weight p) (signal p)) ps;
        weighted_signal_sq_sum = total (λ p. weight p * square_ℤ (signal p)) ps;
        first_event_at = least (λ p. p.timestamp) q.timestamp qs;
        last_event_at = greatest (λ p. p.timestamp) q.timestamp qs;
        first_ingested_at = least (λ p. p.ingested_at) q.ingested_at qs;
        last_ingested_at = greatest (λ p. p.ingested_at) q.ingested_at qs;
        first_scored_at = least (λ p. p.sentiment_scored_at) q.sentiment_scored_at qs;
        last_scored_at = greatest (λ p. p.sentiment_scored_at) q.sentiment_scored_at qs;
        input_watermark = greatest (λ p. p.ingested_at) q.ingested_at qs;
      }

abbrev add_balance : Balance → Balance → Balance
add_balance a b = record { above = a.above + b.above; below = a.below + b.below }

-- `ON CONFLICT ... DO UPDATE SET` of `hourly_sentiment_facts`
unfoldable pub merge_fact : SentimentFact → SentimentFact → SentimentFact
merge_fact old new = record {
  post_count = old.post_count + new.post_count;
  positive_count = old.positive_count + new.positive_count;
  neutral_count = old.neutral_count + new.neutral_count;
  negative_count = old.negative_count + new.negative_count;
  positive_probability_sum = old.positive_probability_sum + new.positive_probability_sum;
  neutral_probability_sum = old.neutral_probability_sum + new.neutral_probability_sum;
  negative_probability_sum = old.negative_probability_sum + new.negative_probability_sum;
  positive_probability_sq_sum = old.positive_probability_sq_sum + new.positive_probability_sq_sum;
  neutral_probability_sq_sum = old.neutral_probability_sq_sum + new.neutral_probability_sq_sum;
  negative_probability_sq_sum = old.negative_probability_sq_sum + new.negative_probability_sq_sum;
  signal_sum = add_balance old.signal_sum new.signal_sum;
  signal_sq_sum = old.signal_sq_sum + new.signal_sq_sum;
  engagement_sum = old.engagement_sum + new.engagement_sum;
  weight_sum = old.weight_sum + new.weight_sum;
  positive_weight_sum = old.positive_weight_sum + new.positive_weight_sum;
  neutral_weight_sum = old.neutral_weight_sum + new.neutral_weight_sum;
  negative_weight_sum = old.negative_weight_sum + new.negative_weight_sum;
  weighted_signal_sum = add_balance old.weighted_signal_sum new.weighted_signal_sum;
  weighted_signal_sq_sum = old.weighted_signal_sq_sum + new.weighted_signal_sq_sum;
  first_event_at = min old.first_event_at new.first_event_at;
  last_event_at = max old.last_event_at new.last_event_at;
  first_ingested_at = min old.first_ingested_at new.first_ingested_at;
  last_ingested_at = max old.last_ingested_at new.last_ingested_at;
  first_scored_at = min old.first_scored_at new.first_scored_at;
  last_scored_at = max old.last_scored_at new.last_scored_at;
  input_watermark = max old.input_watermark new.input_watermark;
}

-- The key of a fact, beside the version of the aggregate.
pub record FactKey : Type 0 where
  pub bucket_hour : ℕ
  pub symbol : String
  pub platform : String
  pub topic_id : ℤ
  pub topic_model_hash : String
  pub sentiment_model_hash : String

abbrev eq_ℤ : ℤ → ℤ → Bool
eq_ℤ (pos a) (pos b) = a == b
eq_ℤ (negsuc a) (negsuc b) = a == b
eq_ℤ _ _ = false

abbrev pub in_group : (ℕ → ℕ) → FactKey → PostRow → Bool
in_group hour_of k p =
    (hour_of p.timestamp == k.bucket_hour)
    && str_eq p.symbol k.symbol
    && str_eq p.platform k.platform
    && eq_ℤ p.topic_id k.topic_id
    && str_eq p.topic_model_hash k.topic_model_hash
    && str_eq p.sentiment_model_hash k.sentiment_model_hash

abbrev pub FactTable : Type 0
FactTable = FactKey → Option SentimentFact

module _ (weight_of : ℤ → ℕ) where
  abbrev pub upsert_group : Option SentimentFact → List PostRow → Option SentimentFact
  upsert_group old [] = old
  upsert_group none (p ∷ ps) = some (aggregate weight_of p ps)
  upsert_group (some old) (p ∷ ps) = some (merge_fact old (aggregate weight_of p ps))

  unfoldable pub upsert_facts : (ℕ → ℕ) → List PostRow → FactTable → FactTable
  unfolding aggregate merge_fact
  upsert_facts hour_of deleted table k =
      upsert_group (table k) (filter (in_group hour_of k) deleted)

-- The sampling of the archive: who is copied, how often, and what counts as a challenge.
pub record SamplingPolicy : Type 0 where
  pub archive_platforms : List String
  pub sample_rate : ℕ
  pub challenge_engagement : ℤ
  pub challenge_abs_signal : ℕ

pub data Cohort : Type 0 where
  probability challenge : Cohort

pub record Staged : Type 0 where
  pub post : PostRow
  pub cohort : Cohort
  pub selection_reasons : List String

abbrev same_cohort : Cohort → Cohort → Bool
same_cohort probability probability = true
same_cohort challenge challenge = true
same_cohort _ _ = false

-- the unique columns of `raw_post_archive_staging`
abbrev pub same_key : Staged → Staged → Bool
same_key a b =
    str_eq a.post.platform b.post.platform
    && str_eq a.post.id b.post.id
    && str_eq a.post.symbol b.post.symbol
    && same_cohort a.cohort b.cohort

module _ (policy : SamplingPolicy) (hash_of : PostRow → ℕ) where
  -- `platform = ANY(...)`
  abbrev pub is_allowed : PostRow → Bool
  is_allowed p = any (str_eq p.platform) policy.archive_platforms

  -- the hash of 32 bits, over two to the 32, below the rate in billionths
  abbrev pub is_sampled : PostRow → Bool
  is_sampled p = is_allowed p && ltb (hash_of p * one) (policy.sample_rate * 4294967296)

  abbrev is_engaging : PostRow → Bool
  is_engaging p = leb_ℤ policy.challenge_engagement p.engagement

  abbrev is_extreme : PostRow → Bool
  is_extreme p = leb policy.challenge_abs_signal (pos_part (signal p) + neg_part (signal p))

  abbrev pub is_challenge : PostRow → Bool
  is_challenge p = is_allowed p && (is_engaging p || is_extreme p)

  abbrev challenge_reasons : PostRow → List String
  challenge_reasons p =
      (if is_engaging p then "high_engagement" ∷ [] else [])
      ++ (if is_extreme p then "extreme_sentiment" ∷ [] else [])

  abbrev sampled_row : PostRow → Staged
  sampled_row p = record {
    post = p;
    cohort = probability;
    selection_reasons = "deterministic_uniform_sample" ∷ [];
  }

  abbrev challenge_row : PostRow → Staged
  challenge_row p = record { post = p; cohort = challenge; selection_reasons = challenge_reasons p }

  -- `ON CONFLICT ... DO NOTHING`
  abbrev pub stage_row : List Staged → Staged → List Staged
  stage_row staged row = if any (same_key row) staged then staged else row ∷ staged

  unfoldable pub stage_all : List Staged → List Staged → List Staged
  stage_all staged [] = staged
  stage_all staged (row ∷ rows) = stage_all (stage_row staged row) rows

  unfoldable pub archived_candidates : List PostRow → List Staged
  archived_candidates candidates =
      map sampled_row (filter is_sampled candidates)
      ++ map challenge_row (filter is_challenge candidates)

pub record Posts : Type 0 where
  pub posts : List PostRow
  pub facts : FactTable
  pub staged : List Staged

-- The whole statement, with the number of posts that it deleted.
unfoldable pub rollup_and_prune_posts :
    (ℤ → ℕ) → (ℕ → ℕ) → (PostRow → ℕ) → SamplingPolicy → ℕ → Posts → Posts × ℕ
unfolding upsert_facts stage_all archived_candidates
rollup_and_prune_posts weight_of hour_of hash_of policy cutoff_ts s =
    let deleted = filter (λ p. ltb p.timestamp cutoff_ts) s.posts in
    (
      record {
        posts = filter (λ p. not (ltb p.timestamp cutoff_ts)) s.posts;
        facts = upsert_facts weight_of hour_of deleted s.facts;
        staged = stage_all policy hash_of s.staged (archived_candidates policy hash_of deleted);
      },
      length deleted,
    )
