-- ===== src/Schemas.antt =====
-- shared/schemas.py: the posts that travel through the queues, and the check of a scored post.
-- A `datetime` is a number of microseconds. A probability is a number of billionths, or a value
-- that is not finite; the rounding of floating point is not modelled.
pub mod Validation
use social_sentiment.Prelude.{
  ℕ, ◌+◌, String, Bool, true, false, not, ◌&&◌, ◌||◌, Option, none, some, List, [], ◌∷◌, map, leb,
  any, Dict, lookup, if◌then◌else◌, str_eq,
}
use social_sentiment.Prelude.Int.{ℤ, pos, negsuc}
use social_sentiment.Outcome.{Outcome, ok, raised, cancelled, validation_error}

pub record RawPost : Type 0 where
  pub id : String
  pub symbol : String
  pub platform : String
  pub text : String
  pub timestamp : ℕ
  pub engagement : ℤ
  pub ingested_at : ℕ
  pub engagement_observed_at : ℕ
  pub source_schema_version : ℤ
  pub pipeline_git_commit : String

pub record CleanPost : Type 0 where
  pub id : String
  pub symbol : String
  pub platform : String
  pub text : String
  pub timestamp : ℕ
  pub topic_id : Option ℤ
  pub topic_label : Option String
  pub engagement : ℤ
  pub ingested_at : ℕ
  pub engagement_observed_at : ℕ
  pub source_schema_version : ℤ
  pub pipeline_git_commit : String
  pub cleaned_at : ℕ
  pub topic_scored_at : ℕ
  pub topic_model_version : String
  pub topic_model_hash : String

-- A price is a number of some unit.
pub record StockQuote : Type 0 where
  pub symbol : String
  pub timestamp : ℕ
  pub price : ℕ
  pub volume : ℕ
  pub market_session : String
  pub provider : String

pub data Sentiment : Type 0 where
  positive neutral negative : Sentiment

-- A `float`: `finite n` is n billionths.
pub data Score : Type 0 where
  finite : ℤ → Score
  not_finite : Score

abbrev pub one : ℕ
one = 1000000000

-- `abs_tol=0.0001`; the relative tolerance of `math.isclose` is smaller for the sums that arise.
abbrev pub tolerance : ℕ
tolerance = 100000

-- A scored post: the fields of `CleanPost` and those that `ScoredPost` adds.
pub record ScoredPost : Type 0 where
  pub clean : CleanPost
  pub sentiment : Sentiment
  pub scores : Dict Score
  pub sentiment_scored_at : ℕ
  pub sentiment_model_version : String
  pub sentiment_model_hash : String

abbrev pub parse_sentiment : String → Option Sentiment
parse_sentiment label =
    if str_eq label "positive"
    then some positive
    else if str_eq label "neutral"
    then some neutral
    else if str_eq label "negative"
    then some negative
    else none

-- `not math.isfinite(p) or not 0 <= p <= 1`
abbrev pub is_bad_probability : Score → Bool
is_bad_probability not_finite = true
is_bad_probability (finite (negsuc n)) = true
is_bad_probability (finite (pos n)) = not (leb n one)

-- The amount of a probability that `is_bad_probability` has let pass.
abbrev pub amount : Score → ℕ
amount (finite (pos n)) = n
amount _ = 0

-- `math.isclose(sum(probabilities), 1.0, abs_tol=0.0001)`
abbrev pub is_close_to_one : ℕ → Bool
is_close_to_one total = leb total (one + tolerance) && leb one (total + tolerance)

-- The three values that the validator reads, in the order of `sorted(required)`.
pub check_probabilities : Option Score → Option Score → Option Score → Outcome (Unit {0})
check_probabilities (some n) (some u) (some p) =
    if is_bad_probability n || is_bad_probability u || is_bad_probability p
    then raised (validation_error "sentiment probabilities must be finite and in [0, 1]")
    else if not (is_close_to_one (amount n + amount u + amount p))
    then raised (validation_error "sentiment probabilities must sum to one")
    else ok tt
check_probabilities _ _ _ =
    raised (validation_error "scores must include positive, neutral, and negative")

unfoldable pub validate_probability_scores : Dict Score → Outcome (Unit {0})
validate_probability_scores scores =
    check_probabilities (lookup "negative" scores) (lookup "neutral" scores)
      (lookup "positive" scores)

-- The label must be one of the `Literal`, and then the validator must pass.
unfoldable pub assemble :
    Option Sentiment → Outcome (Unit {0}) → (Sentiment → ScoredPost) → Outcome ScoredPost
assemble none checked build =
    raised (validation_error "Input should be 'positive', 'neutral' or 'negative'")
assemble (some sentiment) (ok _) build = ok (build sentiment)
assemble (some sentiment) (raised e) build = raised e
assemble (some sentiment) cancelled build = cancelled

abbrev scored_from : CleanPost → Dict Score → ℕ → String → String → Sentiment → ScoredPost
scored_from post scores scored_at version hash sentiment = record {
  clean = post;
  sentiment = sentiment;
  scores = scores;
  sentiment_scored_at = scored_at;
  sentiment_model_version = version;
  sentiment_model_hash = hash;
}

-- `ScoredPost(**post.model_dump(), sentiment=label, scores=scores, ...)`
unfoldable pub make_scored_post :
    CleanPost → String → Dict Score → ℕ → String → String → Outcome ScoredPost
unfolding validate_probability_scores check_probabilities assemble
make_scored_post post label scores scored_at version hash =
    assemble (parse_sentiment label) (validate_probability_scores scores)
      (scored_from post scores scored_at version hash)
