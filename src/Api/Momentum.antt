-- ===== src/Api/Momentum.antt =====
-- api-service/main.py: `compute_sentiment_macd`. Floating point is a parameter, by the operations that
-- the function uses.
pub mod Causal
use social_sentiment.Prelude.{
  List, Option, ℕ, ◌∷◌, some, take, [], if◌then◌else◌, length, get_elem?, none, drop, suc, ltb, ◌+◌,
  zero, ◌-◌,
}

-- `sum(window)`, `-` and `/ period` of a float
pub record Floats : Type 1 where
  pub F : Type 0
  pub sum : List F → F
  pub minus : F → F → F
  pub over : F → ℕ → F

pub record Bar (F : Type 0) : Type 0 where
  pub macd : Option F
  pub signal : Option F
  pub hist : Option F

-- an empty hour takes the previous value
unfoldable pub fill : {F : Type 0} → Option F → List (Option F) → List (Option F)
fill last [] = []
fill last (none ∷ vs) = last ∷ fill last vs
fill last (some v ∷ vs) = some v ∷ fill (some v) vs

abbrev cons : {F : Type 0} → F → Option (List F) → Option (List F)
cons w none = none
cons w (some ws) = some (w ∷ ws)

-- a value of a list that is long enough
abbrev pub join : {F : Type 0} → Option (Option F) → Option F
join none = none
join (some v) = v

-- the values, unless one of them is missing
unfoldable pub all_present : {F : Type 0} → List (Option F) → Option (List F)
all_present [] = some []
all_present (none ∷ ws) = none
all_present (some w ∷ ws) = cons w (all_present ws)

-- `seq[i - period + 1 : i + 1]`
abbrev pub window : {F : Type 0} → List (Option F) → ℕ → ℕ → List (Option F)
window seq i period = take period (drop (i + 1 - period) seq)

-- `for i in range(n)`, from a number on
unfoldable pub for_range : {B : Type 0} → (ℕ → B) → ℕ → ℕ → List B
for_range f start zero = []
for_range f start (suc n) = f start ∷ for_range f (suc start) n

module _ (fl : Floats) where
  abbrev mean : ℕ → Option (List fl.F) → Option fl.F
  mean period none = none
  mean period (some ws) = some (fl.over (fl.sum ws) period)

  unfoldable pub sma : List (Option fl.F) → ℕ → ℕ → Option fl.F
  unfolding all_present
  sma seq i period =
      if ltb (i + 1) period then none else mean period (all_present (window seq i period))

  abbrev pub difference : Option fl.F → Option fl.F → Option fl.F
  difference (some a) (some b) = some (fl.minus a b)
  difference _ _ = none

  unfoldable pub macd_line : ℕ → ℕ → List (Option fl.F) → List (Option fl.F)
  unfolding sma for_range
  macd_line fast slow filled =
      for_range (λ i. difference (sma filled i fast) (sma filled i slow)) 0 (length filled)

  -- one turn of the second loop
  abbrev pub bar_at : List (Option fl.F) → ℕ → ℕ → Bar fl.F
  bar_at line signal i =
      let m = join (get_elem? line i) in
      let sig = sma line i signal in record { macd = m; signal = sig; hist = difference m sig }

  unfoldable pub compute_sentiment_macd : List (Option fl.F) → ℕ → ℕ → ℕ → List (Bar fl.F)
  unfolding macd_line fill
  compute_sentiment_macd indices fast slow signal =
      let line = macd_line fast slow (fill none indices) in
      for_range (bar_at line signal) 0 (length indices)
