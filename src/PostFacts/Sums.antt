-- ===== src/PostFacts/Sums.antt =====
-- About the sums of two groups of posts.
use social_sentiment.PostFacts.{
  PostRow, SentimentFact, aggregate, merge_fact, total, balance, least, greatest, Balance, weight,
  weighted_if, signal, positive_probability, neutral_probability, negative_probability, square_ℤ,
  scale, indicator, is_positive, is_neutral, is_negative, add_balance,
}
use social_sentiment.Prelude.{
  ℕ, ◌≡◌, List, arith, ◌++◌, ◌∷◌, min, max, ◌+◌, ap, sym, ◌*◌, ◌∙◌, [], refl,
}
use social_sentiment.Prelude.Int.{ℤ, pos_part, neg_part}

total-append :
    (f : PostRow → ℕ) (ps qs : List PostRow) → total f (ps ++ qs) ≡ total f ps + total f qs
total-append f [] qs = omega arith
total-append f (p ∷ ps) qs = omega (arith, total-append f ps qs)

balance_ext : (a b : Balance) → a.above ≡ b.above → a.below ≡ b.below → a ≡ b
balance_ext a b p q = cc

least-append :
    (f : PostRow → ℕ) (n : ℕ) (ps : List PostRow) (r : PostRow) (rs : List PostRow)
    → least f n (ps ++ r ∷ rs) ≡ min (least f n ps) (least f (f r) rs)
least-append f n [] r rs = pull n (f r) rs
  where
    pull : (a b : ℕ) (rs : List PostRow) → least f (min a b) rs ≡ min a (least f b rs)
    pull a b [] = refl
    pull a b (x ∷ rs) = ap (λ c. least f c rs) (omega arith) ∙ pull a (min b (f x)) rs
least-append f n (x ∷ ps) r rs = least-append f (min n (f x)) ps r rs

greatest-append :
    (f : PostRow → ℕ) (n : ℕ) (ps : List PostRow) (r : PostRow) (rs : List PostRow)
    → greatest f n (ps ++ r ∷ rs) ≡ max (greatest f n ps) (greatest f (f r) rs)
greatest-append f n [] r rs = pull n (f r) rs
  where
    pull : (a b : ℕ) (rs : List PostRow) → greatest f (max a b) rs ≡ max a (greatest f b rs)
    pull a b [] = refl
    pull a b (x ∷ rs) = ap (λ c. greatest f c rs) (omega arith) ∙ pull a (max b (f x)) rs
greatest-append f n (x ∷ ps) r rs = greatest-append f (max n (f x)) ps r rs

-- Field by field, two facts are one.
fact_ext :
    (a b : SentimentFact)
    → a.post_count ≡ b.post_count
    → a.positive_count ≡ b.positive_count
    → a.neutral_count ≡ b.neutral_count
    → a.negative_count ≡ b.negative_count
    → a.positive_probability_sum ≡ b.positive_probability_sum
    → a.neutral_probability_sum ≡ b.neutral_probability_sum
    → a.negative_probability_sum ≡ b.negative_probability_sum
    → a.positive_probability_sq_sum ≡ b.positive_probability_sq_sum
    → a.neutral_probability_sq_sum ≡ b.neutral_probability_sq_sum
    → a.negative_probability_sq_sum ≡ b.negative_probability_sq_sum
    → a.signal_sum ≡ b.signal_sum
    → a.signal_sq_sum ≡ b.signal_sq_sum
    → a.engagement_sum ≡ b.engagement_sum
    → a.weight_sum ≡ b.weight_sum
    → a.positive_weight_sum ≡ b.positive_weight_sum
    → a.neutral_weight_sum ≡ b.neutral_weight_sum
    → a.negative_weight_sum ≡ b.negative_weight_sum
    → a.weighted_signal_sum ≡ b.weighted_signal_sum
    → a.weighted_signal_sq_sum ≡ b.weighted_signal_sq_sum
    → a.first_event_at ≡ b.first_event_at
    → a.last_event_at ≡ b.last_event_at
    → a.first_ingested_at ≡ b.first_ingested_at
    → a.last_ingested_at ≡ b.last_ingested_at
    → a.first_scored_at ≡ b.first_scored_at
    → a.last_scored_at ≡ b.last_scored_at
    → a.input_watermark ≡ b.input_watermark
    → a ≡ b
fact_ext a b e0 e1 e2 e3 e4 e5 e6 e7 e8 e9 e10 e11 e12 e13 e14 e15 e16 e17 e18 e19 e20 e21 e22 e23
      e24 e25 =
    cc

pub merge_assoc :
    (a b c : SentimentFact) → merge_fact (merge_fact a b) c ≡ merge_fact a (merge_fact b c)
unfolding merge_fact
merge_assoc a b c =
    fact_ext _ _ (omega arith) (omega arith) (omega arith) (omega arith) (omega arith) (omega arith)
      (omega arith) (omega arith) (omega arith) (omega arith)
      (balance_ext _ _ (omega arith) (omega arith)) (omega arith) (omega arith) (omega arith)
      (omega arith) (omega arith) (omega arith) (balance_ext _ _ (omega arith) (omega arith))
      (omega arith) (omega arith) (omega arith) (omega arith) (omega arith) (omega arith)
      (omega arith) (omega arith)

module _ (weight_of : ℤ → ℕ) (q : PostRow) (qs : List PostRow) (r : PostRow)
    (rs : List PostRow) where
  sums : (f : PostRow → ℕ) → total f (q ∷ qs) + total f (r ∷ rs) ≡ total f (q ∷ qs ++ r ∷ rs)
  sums f = sym (total-append f (q ∷ qs) (r ∷ rs))

  balances :
      (f : PostRow → ℤ)
      → add_balance (balance f (q ∷ qs)) (balance f (r ∷ rs)) ≡ balance f (q ∷ qs ++ r ∷ rs)
  balances f = balance_ext _ _ (sums (λ p. pos_part (f p))) (sums (λ p. neg_part (f p)))

  minima :
      (f : PostRow → ℕ) → min (least f (f q) qs) (least f (f r) rs) ≡ least f (f q) (qs ++ r ∷ rs)
  minima f = sym (least-append f (f q) qs r rs)

  maxima :
      (f : PostRow → ℕ)
      → max (greatest f (f q) qs) (greatest f (f r) rs) ≡ greatest f (f q) (qs ++ r ∷ rs)
  maxima f = sym (greatest-append f (f q) qs r rs)

  pub merge-aggregate :
      merge_fact (aggregate weight_of q qs) (aggregate weight_of r rs)
      ≡ aggregate weight_of q (qs ++ r ∷ rs)
  unfolding merge_fact aggregate
  merge-aggregate =
      fact_ext _ _ (sums (λ p. 1)) (sums (λ p. indicator (is_positive p.sentiment)))
        (sums (λ p. indicator (is_neutral p.sentiment)))
        (sums (λ p. indicator (is_negative p.sentiment))) (sums positive_probability)
        (sums neutral_probability) (sums negative_probability)
        (sums (λ p. positive_probability p * positive_probability p))
        (sums (λ p. neutral_probability p * neutral_probability p))
        (sums (λ p. negative_probability p * negative_probability p)) (balances signal)
        (sums (λ p. square_ℤ (signal p))) (sums (λ p. pos_part p.engagement))
        (sums (weight weight_of)) (sums (weighted_if weight_of is_positive))
        (sums (weighted_if weight_of is_neutral)) (sums (weighted_if weight_of is_negative))
        (balances (λ p. scale (weight weight_of p) (signal p)))
        (sums (λ p. weight weight_of p * square_ℤ (signal p))) (minima (λ p. p.timestamp))
        (maxima (λ p. p.timestamp)) (minima (λ p. p.ingested_at)) (maxima (λ p. p.ingested_at))
        (minima (λ p. p.sentiment_scored_at)) (maxima (λ p. p.sentiment_scored_at))
        (maxima (λ p. p.ingested_at))
