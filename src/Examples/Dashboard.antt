-- ===== src/Examples/Dashboard.antt =====
-- The theorems on the API's computations at concrete inputs.

use Prim.Native.Nat.{◌/◌}
use social_sentiment.Api.Connections.Delivered.{is_in, broadcast_exact}
use social_sentiment.Prelude.{
  ℕ, List, some, ◌∷◌, ◌-◌, if◌then◌else◌, [], ◌+◌, none, ◌==◌, ◌≡◌, length, ◌&&◌, ◌*◌, ◌≤◌, ◌++◌,
  ◌||◌, not, leb, ltb, refl, Option, arith,
}
use social_sentiment.Api.Connections.{
  broadcast, Sending, connects, disconnects, timed_out, change_all, sent, send_text,
}
use social_sentiment.Api.Opportunity.{compute_opportunity, percent}
use social_sentiment.Api.Momentum.{Floats, compute_sentiment_macd, Bar}
use social_sentiment.Prelude.Int.{pos}
use social_sentiment.Api.Opportunity.Tiers.{
  is_strong_buy, is_caution, is_bullish, total_points, compute_opportunity_exact,
}
use social_sentiment.Api.Momentum.Causal.{compute_sentiment_macd-causal}

abbrev reaches : ℕ → Sending
reaches c = if c == 2 then timed_out else sent

broadcast_exact_example :
    let (addressed, left) = broadcast reaches (connects 9 ∷ disconnects 1 ∷ []) (1 ∷ 2 ∷ 3 ∷ []) in
    (addressed ≡ 1 ∷ 2 ∷ 3 ∷ [])
    × (is_in 2 left
        ≡ is_in 2 (change_all (connects 9 ∷ disconnects 1 ∷ []) (1 ∷ 2 ∷ 3 ∷ []))
          && (send_text (reaches 2) || not (is_in 2 (1 ∷ 2 ∷ 3 ∷ []))))
broadcast_exact_example =
    broadcast_exact reaches (connects 9 ∷ disconnects 1 ∷ []) (1 ∷ 2 ∷ 3 ∷ []) 2
      (refl, (refl, (refl, tt))) (refl, tt)

-- `(score / 10.0) * 100.0` of a score in halves, up to ten points: 5.5 gives 55.00000000000001
abbrev percentage : ℕ → ℕ
percentage halves = if halves == 11 then percent 55 + 32 else percent (halves * 5)

percentage-grows : (m n : ℕ) → m ≤ n → percentage m ≤ percentage n
percentage-grows m n le = ground arith

compute_opportunity_exact_example :
    let r =
      compute_opportunity percentage
        (some (pos 1000))
        (pos 990)
        (pos 5)
        (pos 3)
        (some 180)
        (some (pos 0))
        []
        [] in
    (r.score ≡ percentage (total_points r.checklist))
    × (r.score ≤ percent 100)
    × (is_strong_buy r.classification ≡ leb 15 (total_points r.checklist))
    × (is_caution r.classification ≡ ltb (total_points r.checklist) 6)
    × (is_bullish r.strategy ≡ leb 10 (total_points r.checklist))
compute_opportunity_exact_example =
    compute_opportunity_exact percentage (some (pos 1000)) (pos 990) (pos 5) (pos 3) (some 180)
      (some (pos 0)) [] []
      (record {
        grows = percentage-grows;
        at_5 = refl;
        at_6 = refl;
        at_9 = refl;
        at_10 = refl;
        at_14 = refl;
        at_15 = refl;
        at_20 = refl;
      })

abbrev sum_all : List ℕ → ℕ
sum_all [] = 0
sum_all (n ∷ ns) = n + sum_all ns

-- whole numbers in the place of floats
abbrev whole_numbers : Floats
whole_numbers = record { F = ℕ; sum = λ ns. sum_all ns; minus = λ a b. a - b; over = λ a n. a / n }

abbrev hours : List (Option ℕ)
hours = some 10 ∷ none ∷ some 12 ∷ some 13 ∷ []

abbrev later_hours : List (Option ℕ)
later_hours = some 20 ∷ []

compute_sentiment_macd-causal_example :
    (length (compute_sentiment_macd whole_numbers hours 1 2 2) ≡ 4)
    × ((rest : List (Bar ℕ)) × (compute_sentiment_macd whole_numbers (hours ++ later_hours) 1 2 2
          ≡ compute_sentiment_macd whole_numbers hours 1 2 2 ++ rest))
compute_sentiment_macd-causal_example =
    compute_sentiment_macd-causal whole_numbers hours later_hours 1 2 2
