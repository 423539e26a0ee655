-- ===== src/Api/Opportunity.antt =====
-- api-service/main.py: `compute_opportunity`. Prices and sentiments are whole numbers of a small unit
-- and fractions are compared by products, so their rounding is not modelled. The score counts in
-- halves, which floating point adds exactly; its percentage is a parameter.
pub mod Tiers
use social_sentiment.Prelude.Int.{ℤ, pos, ltb_ℤ, ◌-ℤ◌, negsuc, leb_ℤ, ◌*ℤ◌}
use social_sentiment.Prelude.{
  ℕ, Option, List, Bool, ◌∷◌, [], if◌then◌else◌, ◌++◌, ◌==◌, some, leb, ltb, ◌+◌, min, not, length,
  ◌*◌, none, false, ◌||◌, ◌&&◌, get_or,
}

pub data Reason : Type 0 where
  near_support approaching_support crossover_above_positive crossover_above_negative : Reason
  divergence undervalued fairly_valued : Reason

-- a billionth of the unit of sentiment is one
abbrev pub tenth : ℤ
tenth = pos 100000000

abbrev is_zero : ℤ → Bool
is_zero (pos n) = n == 0
is_zero (negsuc n) = false

abbrev last_of : ℤ → List ℤ → ℤ
last_of v [] = v
last_of v (w ∷ ws) = last_of w ws

-- the two variables that the steps change, the score in halves of a point
pub record Tally : Type 0 where
  pub score : ℕ
  pub checklist : List Reason

-- `score += ...` and `checklist.append(...)`
abbrev pub add : ℕ → Reason → Tally → Tally
add halves reason t = record { score = t.score + halves; checklist = t.checklist ++ reason ∷ [] }

-- `if price and support and price > 0`, with the distance to the support over the price
unfoldable pub add_support : Option ℤ → ℤ → Tally → Tally
add_support none support t = t
add_support (some price) support t =
    if not (ltb_ℤ (pos 0) price) || is_zero support
    then t
    else if leb_ℤ (pos 1000 *ℤ (price -ℤ support)) (pos 25 *ℤ price)
    then add 6 near_support t
    else if leb_ℤ (pos 1000 *ℤ (price -ℤ support)) (pos 50 *ℤ price)
    then add 3 approaching_support t
    else t

unfoldable pub add_crossover : ℤ → ℤ → Tally → Tally
add_crossover sentiment sentiment_sma t =
    if ltb_ℤ sentiment_sma sentiment
    then if ltb_ℤ (pos 0) sentiment_sma
      then add 6 crossover_above_positive t
      else add 3 crossover_above_negative t
    else t

-- `values[-1] - values[0]`
abbrev pub trend : List ℤ → ℤ
trend [] = pos 0
trend (v ∷ vs) = last_of v vs -ℤ v

unfoldable pub add_divergence : List ℤ → List ℤ → Tally → Tally
add_divergence prev_prices prev_sentiments t =
    if leb 3 (length prev_prices)
      && leb 3 (length prev_sentiments)
      && ltb_ℤ (trend prev_prices) (pos 0)
      && ltb_ℤ tenth (trend prev_sentiments)
    then add 4 divergence t
    else t

unfoldable pub add_valuation : Option ℤ → Tally → Tally
add_valuation none t = t
add_valuation (some pe_relative) t =
    if ltb_ℤ pe_relative (pos 0)
    then add 4 undervalued t
    else if is_zero pe_relative
    then add 2 fairly_valued t
    else t

-- A percentage is a number of units of `2 ** -52`, of which a float from 1 to 100 is a whole number.
abbrev pub percent : ℕ → ℕ
percent n = n * 4503599627370496

pub data Classification : Type 0 where
  strong_buy accumulate hold_neutral caution_overbought : Classification

unfoldable pub classify : ℕ → Classification
classify opportunity_pct =
    if leb (percent 75) opportunity_pct
    then strong_buy
    else if leb (percent 50) opportunity_pct
    then accumulate
    else if leb (percent 30) opportunity_pct
    then hold_neutral
    else caution_overbought

pub data Strategy : Type 0 where
  covered_calls long_call long_shares sell_put_spreads sell_call_spreads protect_longs : Strategy

-- The volatility index is in tenths.
abbrev bullish_strategy : ℕ → Strategy
bullish_strategy vix =
    if ltb vix 150 then long_call else if leb vix 220 then long_shares else sell_put_spreads

unfoldable pub strategy_of : Classification → ℕ → Strategy
strategy_of strong_buy vix = bullish_strategy vix
strategy_of accumulate vix = bullish_strategy vix
strategy_of hold_neutral vix = covered_calls
strategy_of caution_overbought vix = if ltb 220 vix then sell_call_spreads else protect_longs

pub record OpportunityResult : Type 0 where
  pub score : ℕ
  pub classification : Classification
  pub strategy : Strategy
  pub checklist : List Reason

-- the four steps
unfoldable pub tally : Option ℤ → ℤ → ℤ → ℤ → Option ℤ → List ℤ → List ℤ → Tally
unfolding add_support add_crossover add_divergence add_valuation
tally price support sentiment sentiment_sma pe_relative prev_prices prev_sentiments =
    let t₁ = add_support price support (record { score = 0; checklist = [] }) in
    let t₂ = add_crossover sentiment sentiment_sma t₁ in
    let t₃ = add_divergence prev_prices prev_sentiments t₂ in add_valuation pe_relative t₃

-- `percentage` is `(score / 10.0) * 100.0` of a score in halves
unfoldable pub compute_opportunity :
    (ℕ → ℕ) → Option ℤ → ℤ → ℤ → ℤ → Option ℕ → Option ℤ → List ℤ → List ℤ → OpportunityResult
unfolding tally classify strategy_of
compute_opportunity percentage price support sentiment sentiment_sma vix_price pe_relative
      prev_prices prev_sentiments =
    let t = tally price support sentiment sentiment_sma pe_relative prev_prices prev_sentiments in
    let opportunity_pct = min (percent 100) (percentage t.score) in
    let classification = classify opportunity_pct in
    record {
      score = opportunity_pct;
      classification = classification;
      strategy = strategy_of classification (get_or vix_price 150);
      checklist = t.checklist;
    }
