-- ===== src/SyntheticNav/Published.antt =====
-- About the published values that are stored.
use social_sentiment.SyntheticNav.{
  Calendar, Runner, StockQuote, upsert_each, upsert_row, check_move, store_official, after_official,
  is_implausible, is_final_close, upsert_official_rows, starting,
}
use social_sentiment.GlobalEvents.{pure, raise}
use social_sentiment.GlobalEvents.Actions.{bind-holds}
use social_sentiment.Prelude.{
  List, ℕ, ◌∷◌, Option, ◌≡◌, All, false, none, true, Bool, some, Bool-cases, [], sym, inl, refl,
  ◌∙◌, inr, ◌==◌, ◌&&◌, subst, ◌⊎◌,
}

-- Each close is not far from the one before.
abbrev pub Plausible : List (ℕ × ℕ) → Type 0
Plausible [] = Unit
Plausible (x ∷ []) = Unit
Plausible (x ∷ y ∷ rest) = (is_implausible x.1 y.1 ≡ false) × Plausible (y ∷ rest)

-- the latest close
abbrev latest : List (ℕ × ℕ) → Option ℕ
latest [] = none
latest (x ∷ rest) = some x.1

-- Each stored quote is the rounded one of a close that was answered, in the same order.
abbrev pub AreRounded : (ℕ → ℕ) → List (ℕ × ℕ) → List (ℕ × ℕ) → Type 0
AreRounded round4 [] answered = Unit
AreRounded round4 (x ∷ stored) [] = ⊥
AreRounded round4 (x ∷ stored) (a ∷ answered) =
    ((x.0 ≡ a.0) × (x.1 ≡ round4 a.1) × AreRounded round4 stored answered)
    ⊎ AreRounded round4 (x ∷ stored) answered

AreRounded-later :
    (round4 : ℕ → ℕ) (stored answered : List (ℕ × ℕ)) (a : ℕ × ℕ)
    → AreRounded round4 stored answered
    → AreRounded round4 stored (a ∷ answered)
AreRounded-later round4 [] answered a h = tt
AreRounded-later round4 (x ∷ stored) answered a h = inr h

module _ (calendar : Calendar) (today time : ℕ) where
  -- The day is a trading day, and its value is final.
  abbrev pub Final : ℕ × ℕ → Type 0
  Final x = (calendar.is_trading_day x.0 ≡ true) × (is_final_close x.0 today time ≡ true)

  module _ (round4 : ℕ → ℕ) (insert_quote : ℕ → StockQuote → Option Bool) where
    record Sound (r : Runner) : Type 0 where
      final : All Final r.answered
      plausible : Plausible r.answered
      rounded : AreRounded round4 r.stored r.answered
      compared : r.prev_close ≡ latest r.answered

    extend :
        (d close : ℕ) (answered : List (ℕ × ℕ)) (prev : Option ℕ)
        → prev ≡ latest answered
        → ((p : ℕ) → prev ≡ some p → is_implausible close p ≡ false)
        → Plausible answered
        → Plausible ((d, close) ∷ answered)
    extend d close [] prev e near p = tt
    extend d close (y ∷ rest) prev e near p = (near y.1 e, p)

    after_official-Sound :
        (d close : ℕ) (o : Option Bool) (r : Runner)
        → Final (d, close)
        → ((p : ℕ) → r.prev_close ≡ some p → is_implausible close p ≡ false)
        → Sound r
        → Sound (after_official calendar round4 insert_quote today time d close o r)
    unfolding after_official
    after_official-Sound d close none r f near s = record {
      final = s.final;
      plausible = s.plausible;
      rounded = s.rounded;
      compared = s.compared;
    }
    after_official-Sound d close (some true) r f near s = record {
      final = (f, s.final);
      plausible = extend d close r.answered r.prev_close s.compared near s.plausible;
      rounded = inl (refl, refl, s.rounded);
      compared = refl;
    }
    after_official-Sound d close (some false) r f near s = record {
      final = (f, s.final);
      plausible = extend d close r.answered r.prev_close s.compared near s.plausible;
      rounded = AreRounded-later round4 r.stored r.answered (d, close) s.rounded;
      compared = refl;
    }

    check_move-Sound :
        (d close : ℕ) (prev : Option ℕ) (r : Runner)
        → r.prev_close ≡ prev
        → Final (d, close)
        → Sound r
        → Sound (check_move calendar round4 insert_quote today time d close prev r).1
    unfolding check_move store_official pure raise
    check_move-Sound d close none r e f s =
        after_official-Sound d close _ r f
          (λ p h. let wrong : none ≡ some p = sym e ∙ h in cc wrong) s
    check_move-Sound d close (some prev) r e f s = elim (Bool-cases (prev == 0)) [
      | inl z ↦ rw z s
      | inr z ↦ elim (Bool-cases (is_implausible close prev)) [
        | inl q ↦ rw (z, q) s
        | inr q ↦ elim (Bool-cases (d == today && close == prev)) [
          | inl t ↦ rw (z, q, t) s
          | inr t ↦
              rw (z, q, t)
                (after_official-Sound d close _ r f
                  (λ p h.
                    let same : prev ≡ p = cc (sym e ∙ h) in
                    subst (λ x. is_implausible close x ≡ false) same q)
                  s)
        ]
      ]
    ]

    upsert_row-Sound :
        (d close : ℕ) (r : Runner)
        → Sound r
        → Sound (upsert_row calendar round4 insert_quote today time d close r).1
    unfolding upsert_row
    upsert_row-Sound d close r s = elim (Bool-cases (calendar.is_trading_day d)) [
      | inl q ↦ elim (Bool-cases (is_final_close d today time)) [
        | inl t ↦ rw (q, t) (check_move-Sound d close r.prev_close r refl (q, t) s)
        | inr t ↦ rw (q, t) s
      ]
      | inr q ↦ rw q s
    ]

    upsert_each-Sound :
        (navs : List (ℕ × ℕ)) (r : Runner)
        → Sound r
        → Sound (upsert_each calendar round4 insert_quote today time navs r).1
    unfolding upsert_each pure
    upsert_each-Sound [] r s = s
    upsert_each-Sound ((d, close) ∷ navs) r s =
        let first = upsert_row-Sound d close r s in
        bind-holds Sound (upsert_row calendar round4 insert_quote today time d close) _ r first
          (λ u e. upsert_each-Sound navs _ first)

    -- Whatever values are published, whatever the database answers and whether the call returns or
    -- raises: each close whose insert the database answered, by inserting a row or not, is of a
    -- trading day, final, and at most eight percent away from the one answered before; and the rows
    -- that it inserted have, in this order, days and rounded closes of these.
    pub upsert_official_rows-Final :
        (navs : List (ℕ × ℕ)) (official_done_for : Option ℕ)
        → let r =
            (upsert_official_rows calendar round4 insert_quote today time navs
              official_done_for).1 in
          All Final r.answered × Plausible r.answered × AreRounded round4 r.stored r.answered
    unfolding upsert_official_rows
    upsert_official_rows-Final navs official_done_for =
        let s =
          upsert_each-Sound navs (starting official_done_for)
            (record { final = tt; plausible = tt; rounded = tt; compared = refl }) in
        (s.final, s.plausible, s.rounded)
