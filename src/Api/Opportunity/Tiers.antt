-- ===== src/Api/Opportunity/Tiers.antt =====
-- About the score, the tiers that it decides and the strategy.
use social_sentiment.Api.Opportunity.{
  Strategy, classify, compute_opportunity, Reason, strategy_of, strong_buy, long_call, tally, Tally,
  add, add_support, add_crossover, add_divergence, add_valuation, percent, caution_overbought,
  long_shares, sell_put_spreads, Classification, bullish_strategy, near_support,
  approaching_support, crossover_above_positive, crossover_above_negative, divergence, undervalued,
  fairly_valued, is_zero, trend, tenth,
}
use social_sentiment.Prelude.{
  List, Bool, ℕ, Option, true, ◌≡◌, ◌≤◌, ◌++◌, false, leb, arith, ◌+◌, some, ◌∷◌, none, [], get_or,
  refl, ltb, Bool-cases, min, inl, inr, not, length, ◌<◌, ◌∙◌, ◌||◌, ◌&&◌, ap,
}
use social_sentiment.Prelude.Int.{ℤ, ltb_ℤ, leb_ℤ, pos, ◌*ℤ◌, ◌-ℤ◌}

-- what the reasons are worth, in halves of a point
abbrev pub points : Reason → ℕ
points near_support = 6
points approaching_support = 3
points crossover_above_positive = 6
points crossover_above_negative = 3
points divergence = 4
points undervalued = 4
points fairly_valued = 2

abbrev pub total_points : List Reason → ℕ
total_points [] = 0
total_points (r ∷ rs) = points r + total_points rs

total_points-append :
    (xs ys : List Reason) → total_points (xs ++ ys) ≡ total_points xs + total_points ys
total_points-append [] ys = omega arith
total_points-append (x ∷ xs) ys = let h = total_points-append xs ys in omega (arith, h)

-- The score is what the checklist is worth, and at most a number.
record IsWorth (most : ℕ) (t : Tally) : Type 0 where
  worth : t.score ≡ total_points t.checklist
  few : t.score ≤ most

add-IsWorth :
    (most halves : ℕ) (r : Reason) (t : Tally)
    → points r ≡ halves
    → IsWorth most t
    → IsWorth (most + halves) (add halves r t)
add-IsWorth most halves r t is w = record {
  worth = omega (arith, total_points-append t.checklist (r ∷ []), is, w.worth);
  few = omega (arith, w.few);
}

IsWorth-more : (most more : ℕ) (t : Tally) → most ≤ more → IsWorth most t → IsWorth more t
IsWorth-more most more t le w = record { worth = w.worth; few = omega (arith, le, w.few) }

add_support-IsWorth :
    (most : ℕ) (price : Option ℤ) (support : ℤ) (t : Tally)
    → IsWorth most t
    → IsWorth (most + 6) (add_support price support t)
unfolding add_support
add_support-IsWorth most none support t w = IsWorth-more most (most + 6) t (omega arith) w
add_support-IsWorth most (some price) support t w =
    let same = IsWorth-more most (most + 6) t (omega arith) w in
    elim (Bool-cases (not (ltb_ℤ (pos 0) price) || is_zero support)) [
      | inl a ↦ rw a same
      | inr a ↦ elim (Bool-cases (leb_ℤ (pos 1000 *ℤ (price -ℤ support)) (pos 25 *ℤ price))) [
        | inl c ↦ rw (a, c) (add-IsWorth most 6 near_support t refl w)
        | inr c ↦ elim (Bool-cases (leb_ℤ (pos 1000 *ℤ (price -ℤ support)) (pos 50 *ℤ price))) [
          | inl d ↦
              rw (a, c, d)
                (IsWorth-more (most + 3) (most + 6) _ (omega arith)
                  (add-IsWorth most 3 approaching_support t refl w))
          | inr d ↦ rw (a, c, d) same
        ]
      ]
    ]

add_crossover-IsWorth :
    (most : ℕ) (sentiment sentiment_sma : ℤ) (t : Tally)
    → IsWorth most t
    → IsWorth (most + 6) (add_crossover sentiment sentiment_sma t)
unfolding add_crossover
add_crossover-IsWorth most sentiment sentiment_sma t w =
    elim (Bool-cases (ltb_ℤ sentiment_sma sentiment)) [
      | inl a ↦ elim (Bool-cases (ltb_ℤ (pos 0) sentiment_sma)) [
        | inl c ↦ rw (a, c) (add-IsWorth most 6 crossover_above_positive t refl w)
        | inr c ↦
            rw (a, c)
              (IsWorth-more (most + 3) (most + 6) _ (omega arith)
                (add-IsWorth most 3 crossover_above_negative t refl w))
      ]
      | inr a ↦ rw a (IsWorth-more most (most + 6) t (omega arith) w)
    ]

add_divergence-IsWorth :
    (most : ℕ) (prev_prices prev_sentiments : List ℤ) (t : Tally)
    → IsWorth most t
    → IsWorth (most + 4) (add_divergence prev_prices prev_sentiments t)
unfolding add_divergence
add_divergence-IsWorth most prev_prices prev_sentiments t w =
    elim (Bool-cases (
      leb 3 (length prev_prices)
      && leb 3 (length prev_sentiments)
      && ltb_ℤ (trend prev_prices) (pos 0)
      && ltb_ℤ tenth (trend prev_sentiments))) [
        | inl a ↦ rw a (add-IsWorth most 4 divergence t refl w)
        | inr a ↦ rw a (IsWorth-more most (most + 4) t (omega arith) w)
      ]

add_valuation-IsWorth :
    (most : ℕ) (pe_relative : Option ℤ) (t : Tally)
    → IsWorth most t
    → IsWorth (most + 4) (add_valuation pe_relative t)
unfolding add_valuation
add_valuation-IsWorth most none t w = IsWorth-more most (most + 4) t (omega arith) w
add_valuation-IsWorth most (some pe_relative) t w = elim (Bool-cases (ltb_ℤ pe_relative (pos 0))) [
  | inl a ↦ rw a (add-IsWorth most 4 undervalued t refl w)
  | inr a ↦ elim (Bool-cases (is_zero pe_relative)) [
    | inl c ↦
        rw (a, c)
          (IsWorth-more (most + 2) (most + 4) _ (omega arith)
            (add-IsWorth most 2 fairly_valued t refl w))
    | inr c ↦ rw (a, c) (IsWorth-more most (most + 4) t (omega arith) w)
  ]
]

tally-IsWorth :
    (price : Option ℤ) (support sentiment sentiment_sma : ℤ) (pe_relative : Option ℤ)
    (prev_prices prev_sentiments : List ℤ)
    → IsWorth 20
        (tally price support sentiment sentiment_sma pe_relative prev_prices prev_sentiments)
unfolding tally
tally-IsWorth price support sentiment sentiment_sma pe_relative prev_prices prev_sentiments =
    add_valuation-IsWorth 16 pe_relative _ (
      add_divergence-IsWorth 12 prev_prices prev_sentiments _ (
        add_crossover-IsWorth 6 sentiment sentiment_sma _ (
          add_support-IsWorth 0 price support (record { score = 0; checklist = [] })
            (record { worth = refl; few = omega arith }))))

-- a strategy that gains when the price rises
abbrev pub is_bullish : Strategy → Bool
is_bullish long_call = true
is_bullish long_shares = true
is_bullish sell_put_spreads = true
is_bullish _ = false

abbrev pub is_strong_buy : Classification → Bool
is_strong_buy strong_buy = true
is_strong_buy _ = false

abbrev pub is_caution : Classification → Bool
is_caution caution_overbought = true
is_caution _ = false

bullish_strategy-bullish : (vix : ℕ) → is_bullish (bullish_strategy vix) ≡ true
bullish_strategy-bullish vix = elim (Bool-cases (ltb vix 150)) [
  | inl e ↦ rw e refl
  | inr e ↦ elim (Bool-cases (leb vix 220)) [ inl f ↦ rw (e, f) refl | inr f ↦ rw (e, f) refl ]
]

classify_exact :
    (score vix : ℕ)
    → (is_strong_buy (classify score) ≡ leb (percent 75) score)
      × (is_caution (classify score) ≡ ltb score (percent 30))
      × (is_bullish (strategy_of (classify score) vix) ≡ leb (percent 50) score)
unfolding classify strategy_of
classify_exact score vix = elim (Bool-cases (leb (percent 75) score)) [
  | inl e ↦
      let f : leb (percent 50) score ≡ true = ground arith in
      rw e (refl, ground arith, rw f (bullish_strategy-bullish vix))
  | inr e ↦ elim (Bool-cases (leb (percent 50) score)) [
    | inl f ↦ rw (e, f) (refl, ground arith, bullish_strategy-bullish vix)
    | inr f ↦ elim (Bool-cases (leb (percent 30) score)) [
      | inl g ↦ rw (e, f, g) (refl, ground arith, refl)
      | inr g ↦
          let h : ltb score (percent 30) ≡ true = ground arith in
          elim (Bool-cases (ltb 220 vix)) [
            | inl k ↦ rw (e, f, g, h, k) (refl, refl, refl)
            | inr k ↦ rw (e, f, g, h, k) (refl, refl, refl)
          ]
    ]
  ]
]

-- What floating point makes of the percentage of a score in halves: it does not fall when the score
-- grows, and these values are exact.
pub record IsPercentage (percentage : ℕ → ℕ) : Type 0 where
  pub grows : (m n : ℕ) → m ≤ n → percentage m ≤ percentage n
  pub at_5 : percentage 5 ≡ percent 25
  pub at_6 : percentage 6 ≡ percent 30
  pub at_9 : percentage 9 ≡ percent 45
  pub at_10 : percentage 10 ≡ percent 50
  pub at_14 : percentage 14 ≡ percent 70
  pub at_15 : percentage 15 ≡ percent 75
  pub at_20 : percentage 20 ≡ percent 100

-- A score reaches a limit from some number of halves on.
reaches :
    (percentage : ℕ → ℕ) (is : IsPercentage percentage) (limit k n : ℕ)
    → limit ≤ percent 100
    → limit ≤ percentage (k + 1)
    → percentage k < limit
    → leb limit (min (percent 100) (percentage n)) ≡ leb (k + 1) n
reaches percentage is limit k n le above below = elim (Bool-cases (leb (k + 1) n)) [
  | inl e ↦
      let more = is.grows (k + 1) n (ground arith) in
      let f : leb limit (min (percent 100) (percentage n)) ≡ true = ground arith in rw (f, e) refl
  | inr e ↦
      let less = is.grows n k (ground arith) in
      let f : leb limit (min (percent 100) (percentage n)) ≡ false = ground arith in rw (f, e) refl
]

-- The score is the percentage of what the reasons of the checklist are worth, and at most 100. The
-- classification is the strongest exactly from 15 halves of a point on and the weakest exactly below
-- 6, and the strategy is one that gains from a rising price exactly from 10 on.
pub compute_opportunity_exact :
    (percentage : ℕ → ℕ) (price : Option ℤ) (support sentiment sentiment_sma : ℤ)
    (vix_price : Option ℕ) (pe_relative : Option ℤ) (prev_prices prev_sentiments : List ℤ)
    → IsPercentage percentage
    → let r =
        compute_opportunity percentage price support sentiment sentiment_sma vix_price pe_relative
          prev_prices prev_sentiments in
      (r.score ≡ percentage (total_points r.checklist))
      × (r.score ≤ percent 100)
      × (is_strong_buy r.classification ≡ leb 15 (total_points r.checklist))
      × (is_caution r.classification ≡ ltb (total_points r.checklist) 6)
      × (is_bullish r.strategy ≡ leb 10 (total_points r.checklist))
unfolding compute_opportunity
compute_opportunity_exact percentage price support sentiment sentiment_sma vix_price pe_relative
      prev_prices prev_sentiments is =
    let t = tally price support sentiment sentiment_sma pe_relative prev_prices prev_sentiments in
    let n = total_points t.checklist in
    let w =
      tally-IsWorth price support sentiment sentiment_sma pe_relative prev_prices prev_sentiments in
    let below = is.grows t.score 20 w.few in
    let (strong, caution, bullish) =
      classify_exact (min (percent 100) (percentage t.score)) (get_or vix_price 150) in
    let full : min (percent 100) (percentage t.score) ≡ percentage t.score =
      omega (arith, below, is.at_20) in
    (
      full ∙ ap percentage w.worth,
      omega arith,
      strong
          ∙ reaches percentage is (percent 75) 14 t.score (omega arith) (omega (arith, is.at_15))
              (omega (arith, is.at_14))
          ∙ ap (leb 15) w.worth,
      caution ∙ under percentage is t.score ∙ ap (λ m. ltb m 6) w.worth,
      bullish
          ∙ reaches percentage is (percent 50) 9 t.score (omega arith) (omega (arith, is.at_10))
              (omega (arith, is.at_9))
          ∙ ap (leb 10) w.worth,
    )
  where
    under :
        (percentage : ℕ → ℕ) (is : IsPercentage percentage) (n : ℕ)
        → ltb (min (percent 100) (percentage n)) (percent 30) ≡ ltb n 6
    under percentage is n =
        let h =
          reaches percentage is (percent 30) 5 n (omega arith) (omega (arith, is.at_6))
            (omega (arith, is.at_5)) in
        elim (Bool-cases (leb 6 n)) [ inl e ↦ ground (arith, h) | inr e ↦ ground (arith, h) ]
