-- ===== src/Api/Momentum/Causal.antt =====
-- About the bars of an hour and the hours that come later.
use social_sentiment.Api.Momentum.{
  fill, for_range, Floats, sma, macd_line, compute_sentiment_macd, window, difference, Bar, bar_at,
}
use social_sentiment.Prelude.{
  ℕ, List, Option, ◌≤◌, length, ◌<◌, ◌++◌, ◌≡◌, drop, take, ◌+◌, get_elem?, ◌∷◌, suc, ◌-◌, arith,
  ap, Bool-cases, some, ◌∙◌, ltb, length-append, none, zero, [], inl, refl, inr,
}

fill-append :
    {F : Type 0} (last : Option F) (xs ys : List (Option F))
    → (rest : List (Option F)) × (fill last (xs ++ ys) ≡ fill last xs ++ rest)
unfolding fill
fill-append last [] ys = (fill last ys, refl)
fill-append last (none ∷ xs) ys = let (rest, e) = fill-append last xs ys in (rest, ap (◌∷◌ last) e)
fill-append last (some v ∷ xs) ys =
    let (rest, e) = fill-append (some v) xs ys in (rest, ap (◌∷◌ (some v)) e)

length-fill :
    {F : Type 0} (last : Option F) (xs : List (Option F)) → length (fill last xs) ≡ length xs
unfolding fill
length-fill last [] = refl
length-fill last (none ∷ xs) = ap suc (length-fill last xs)
length-fill last (some v ∷ xs) = ap suc (length-fill (some v) xs)

drop-append :
    {A : Type 0} (k : ℕ) (xs ys : List A) → k ≤ length xs → drop k (xs ++ ys) ≡ drop k xs ++ ys
drop-append zero xs ys le = refl
drop-append (suc k) [] ys le = absurd (omega (arith, le))
drop-append (suc k) (x ∷ xs) ys le = drop-append k xs ys (omega (arith, le))

take-append : {A : Type 0} (k : ℕ) (xs ys : List A) → k ≤ length xs → take k (xs ++ ys) ≡ take k xs
take-append zero xs ys le = refl
take-append (suc k) [] ys le = absurd (omega (arith, le))
take-append (suc k) (x ∷ xs) ys le = ap (◌∷◌ x) (take-append k xs ys (omega (arith, le)))

length-drop : {A : Type 0} (k : ℕ) (xs : List A) → length (drop k xs) ≡ length xs - k
length-drop zero xs = omega arith
length-drop (suc k) [] = omega arith
length-drop (suc k) (x ∷ xs) = let h = length-drop k xs in omega (arith, h)

window-append :
    {F : Type 0} (xs ys : List (Option F)) (i period : ℕ)
    → i < length xs
    → period ≤ i + 1
    → window (xs ++ ys) i period ≡ window xs i period
window-append xs ys i period early whole =
    let long = length-drop (i + 1 - period) xs in
    ap (take period) (drop-append (i + 1 - period) xs ys (omega (arith, early)))
    ∙ take-append period (drop (i + 1 - period) xs) ys (omega (arith, long, early, whole))

get-append :
    {A : Type 0} (xs ys : List A) (i : ℕ) → i < length xs → get_elem? (xs ++ ys) i ≡ get_elem? xs i
get-append [] ys i lt = absurd (omega (arith, lt))
get-append (x ∷ xs) ys zero lt = refl
get-append (x ∷ xs) ys (suc i) lt = get-append xs ys i (omega (arith, lt))

length-for_range : {B : Type 0} (f : ℕ → B) (start n : ℕ) → length (for_range f start n) ≡ n
unfolding for_range
length-for_range f start zero = refl
length-for_range f start (suc n) = ap suc (length-for_range f (suc start) n)

-- Two loops whose bodies agree on the first rounds give the same first results.
for_range-append :
    {B : Type 0} (f g : ℕ → B) (start n m : ℕ)
    → ((i : ℕ) → start ≤ i → i < start + n → g i ≡ f i)
    → (rest : List B) × (for_range g start (n + m) ≡ for_range f start n ++ rest)
unfolding for_range
for_range-append f g start zero m same = (for_range g start m, ap (for_range g start) (omega arith))
for_range-append f g start (suc n) m same =
    let (rest, e) =
      for_range-append f g (suc start) n m
        (λ i from to. same i (omega (arith, from)) (omega (arith, to))) in
    let one_more : suc n + m ≡ suc (n + m) = omega arith in
    (
      rest,
      ap (for_range g start) one_more
          ∙ ap (λ b. b ∷ for_range g (suc start) (n + m)) (same start (omega arith) (omega arith))
          ∙ ap (◌∷◌ (f start)) e,
    )

module _ (fl : Floats) where
  sma-append :
      (xs ys : List (Option fl.F)) (i period : ℕ)
      → i < length xs
      → sma fl (xs ++ ys) i period ≡ sma fl xs i period
  unfolding sma
  sma-append xs ys i period early = elim (Bool-cases (ltb (i + 1) period)) [
    | inl e ↦ rw e refl
    | inr e ↦ rw (e, window-append xs ys i period early (ground (arith, e))) refl
  ]

  macd_line-append :
      (fast slow : ℕ) (xs ys : List (Option fl.F))
      → (rest : List (Option fl.F)) × (macd_line fl fast slow (xs ++ ys)
          ≡ macd_line fl fast slow xs ++ rest)
  unfolding macd_line
  macd_line-append fast slow xs ys =
      let (rest, e) =
        for_range-append (λ i. difference fl (sma fl xs i fast) (sma fl xs i slow))
          (λ i. difference fl (sma fl (xs ++ ys) i fast) (sma fl (xs ++ ys) i slow)) 0 (length xs)
          (length ys)
          (λ i from to.
            rw
              (
                sma-append xs ys i fast (omega (arith, to)),
                sma-append xs ys i slow (omega (arith, to)),
              )
              refl) in
      (rest, rw (length-append xs ys) e)

  length-macd_line :
      (fast slow : ℕ) (xs : List (Option fl.F)) → length (macd_line fl fast slow xs) ≡ length xs
  unfolding macd_line
  length-macd_line fast slow xs = length-for_range _ 0 (length xs)

  -- The oscillator has a bar for each hour, and the bars of some hours stay the same whatever hours
  -- come after them: no bar looks ahead.
  pub compute_sentiment_macd-causal :
      (xs ys : List (Option fl.F)) (fast slow signal : ℕ)
      → (length (compute_sentiment_macd fl xs fast slow signal) ≡ length xs)
        × ((rest : List (Bar fl.F)) × (compute_sentiment_macd fl (xs ++ ys) fast slow signal
              ≡ compute_sentiment_macd fl xs fast slow signal ++ rest))
  unfolding compute_sentiment_macd
  compute_sentiment_macd-causal xs ys fast slow signal =
      let (filled, f) = fill-append none xs ys in
      let (line, l) = macd_line-append fast slow (fill none xs) filled in
      let whole : macd_line fl fast slow (fill none (xs ++ ys))
          ≡ macd_line fl fast slow (fill none xs) ++ line =
        ap (macd_line fl fast slow) f ∙ l in
      let long : length (macd_line fl fast slow (fill none xs)) ≡ length xs =
        length-macd_line fast slow (fill none xs) ∙ length-fill none xs in
      let (rest, e) =
        for_range-append (bar_at fl (macd_line fl fast slow (fill none xs)) signal)
          (bar_at fl (macd_line fl fast slow (fill none (xs ++ ys))) signal) 0 (length xs)
          (length ys)
          (λ i from to.
            rw
              (
                whole,
                get-append (macd_line fl fast slow (fill none xs)) line i (omega (arith, to, long)),
                sma-append (macd_line fl fast slow (fill none xs)) line i signal
                    (omega (arith, to, long)),
              )
              refl) in
      (length-for_range _ 0 (length xs), (rest, rw (length-append xs ys) e))
