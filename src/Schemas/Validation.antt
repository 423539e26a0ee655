-- ===== src/Schemas/Validation.antt =====
-- About the scored posts that the validator of `ScoredPost` accepts.
use social_sentiment.Prelude.{
  ℕ, ◌+◌, ◌≤◌, String, ◌≡◌, ◌↔◌, refl, ap, sym, ◌∙◌, Option, none, some, arith, Dict, lookup,
}
use social_sentiment.Prelude.Int.{pos}
use social_sentiment.Outcome.{Outcome, ok, raised, cancelled}
use social_sentiment.Schemas.{
  CleanPost, ScoredPost, Score, finite, one, tolerance, Sentiment, assemble, scored_from,
  parse_sentiment, check_probabilities, validate_probability_scores, make_scored_post,
}

-- Three probabilities in [0, 1] whose sum is one up to the tolerance.
pub record IsDistribution (n u p : ℕ) : Type 0 where
  pub negative_le : n ≤ one
  pub neutral_le : u ≤ one
  pub positive_le : p ≤ one
  pub above : one ≤ n + u + p + tolerance
  pub below : n + u + p ≤ one + tolerance

-- The dict has the three labels, with such probabilities.
pub record HasDistribution (scores : Dict Score) : Type 0 where
  pub negative : ℕ
  pub neutral : ℕ
  pub positive : ℕ
  pub has_negative : lookup "negative" scores ≡ some (finite (pos negative))
  pub has_neutral : lookup "neutral" scores ≡ some (finite (pos neutral))
  pub has_positive : lookup "positive" scores ≡ some (finite (pos positive))
  pub sums : IsDistribution negative neutral positive

-- What `check_probabilities` lets pass, as a relation on what it was given.
record Passes (a b c : Option Score) : Type 0 where
  n : ℕ
  u : ℕ
  p : ℕ
  has_n : a ≡ some (finite (pos n))
  has_u : b ≡ some (finite (pos u))
  has_p : c ≡ some (finite (pos p))
  sums : IsDistribution n u p

check_accepts :
    (n u p : ℕ)
    → IsDistribution n u p
    → check_probabilities (some (finite (pos n))) (some (finite (pos u))) (some (finite (pos p)))
      ≡ ok tt
unfolding check_probabilities
check_accepts n u p d = ground arith

check_sums :
    (n u p : ℕ)
    → check_probabilities (some (finite (pos n))) (some (finite (pos u))) (some (finite (pos p)))
      ≡ ok tt
    → IsDistribution n u p
unfolding check_probabilities
check_sums n u p h = ground arith

check-Passes : (a b c : Option Score) → check_probabilities a b c ≡ ok tt → Passes a b c
unfolding check_probabilities
check-Passes (some (finite (pos n))) (some (finite (pos u))) (some (finite (pos p))) h = record {
  n = n;
  u = u;
  p = p;
  has_n = refl;
  has_u = refl;
  has_p = refl;
  sums = check_sums n u p h;
}
check-Passes (some x) (some y) (some z) h = ground arith
check-Passes _ _ _ h = cc

validate_sound :
    (scores : Dict Score) → validate_probability_scores scores ≡ ok tt → HasDistribution scores
unfolding validate_probability_scores
validate_sound scores h =
    let t : Passes (lookup "negative" scores) (lookup "neutral" scores) (lookup "positive" scores) =
      check-Passes _ _ _ h in
    record {
      negative = t.n;
      neutral = t.u;
      positive = t.p;
      has_negative = t.has_n;
      has_neutral = t.has_u;
      has_positive = t.has_p;
      sums = t.sums;
    }

validate_complete :
    (scores : Dict Score) → HasDistribution scores → validate_probability_scores scores ≡ ok tt
unfolding validate_probability_scores
validate_complete scores d =
    rw (d.has_negative, d.has_neutral, d.has_positive)
      (check_accepts d.negative d.neutral d.positive d.sums)

-- The validator accepts exactly the dicts with three probabilities in [0, 1] that sum to one up
-- to the tolerance.
pub validate_exact :
    (scores : Dict Score) → (validate_probability_scores scores ≡ ok tt) ↔ HasDistribution scores
validate_exact scores = (validate_sound scores, validate_complete scores)

assemble_ok :
    (o : Option Sentiment) (v : Outcome (Unit {0})) (build : Sentiment → ScoredPost)
    {s : ScoredPost}
    → assemble o v build ≡ ok s
    → (x : Sentiment) × (o ≡ some x) × (v ≡ ok tt) × (s ≡ build x)
unfolding assemble
assemble_ok (some x) (ok tt) build h = (x, refl, refl, cc)
assemble_ok (some x) (raised e) build h = cc
assemble_ok (some x) cancelled build h = cc
assemble_ok none v build h = cc

-- A scored post that was made keeps the clean post, and has the sentiment that the label names and
-- the scores that were given, which are a distribution.
pub make_scored_post_sound :
    (post : CleanPost) (label : String) (scores : Dict Score) (at : ℕ) (version hash : String)
    (s : ScoredPost)
    → make_scored_post post label scores at version hash ≡ ok s
    → (s.clean ≡ post)
      × (parse_sentiment label ≡ some s.sentiment)
      × (s.scores ≡ scores)
      × HasDistribution scores
unfolding make_scored_post
make_scored_post_sound post label scores at version hash s h =
    let (x, label_is, valid, e) =
      assemble_ok (parse_sentiment label) (validate_probability_scores scores)
        (scored_from post scores at version hash) h in
    (
      ap (λ (t : ScoredPost). t.clean) e,
      label_is ∙ ap some (sym (ap (λ (t : ScoredPost). t.sentiment) e)),
      ap (λ (t : ScoredPost). t.scores) e,
      validate_sound scores valid,
    )
