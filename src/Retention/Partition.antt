-- ===== src/Retention/Partition.antt =====
-- A table in the order of time, cut at one time and then at a later one.
use social_sentiment.Prelude.{
  ℕ, List, Bool, ◌++◌, filter, ◌∷◌, ltb, not, All, ◌≤◌, ◌≡◌, [], ap, Bool-cases, false, arith, inl,
  refl, inr, true,
}

pub append_assoc : {A : Type 0} (xs ys zs : List A) → (xs ++ ys) ++ zs ≡ xs ++ (ys ++ zs)
append_assoc [] ys zs = refl
append_assoc (x ∷ xs) ys zs = ap (◌∷◌ x) (append_assoc xs ys zs)

pub filter-append :
    {A : Type 0} (p : A → Bool) (xs ys : List A) → filter p (xs ++ ys) ≡ filter p xs ++ filter p ys
filter-append p [] ys = refl
filter-append p (x ∷ xs) ys = elim (Bool-cases (p x)) [
  | inl e ↦ rw e (ap (◌∷◌ x) (filter-append p xs ys))
  | inr e ↦ rw e (filter-append p xs ys)
]

module _ {A : Type 0} (time : A → ℕ) where
  -- The rows in the order of time.
  abbrev pub Ordered : List A → Type 0
  Ordered [] = Unit
  Ordered (q ∷ qs) = All (λ r. time q ≤ time r) qs × Ordered qs

  abbrev pub old : ℕ → A → Bool
  old cutoff q = ltb (time q) cutoff

  abbrev pub kept : ℕ → A → Bool
  kept cutoff q = not (ltb (time q) cutoff)

  none_older :
      (cutoff : ℕ) (qs : List A)
      → All (λ r. cutoff ≤ time r) qs
      → (filter (old cutoff) qs ≡ []) × (filter (kept cutoff) qs ≡ qs)
  none_older cutoff [] a = (refl, refl)
  none_older cutoff (q ∷ qs) a =
      let late : ltb (time q) cutoff ≡ false = let h = a.0 in ground arith in
      let (gone, all_kept) = none_older cutoff qs a.1 in
      (rw late gone, rw late (ap (◌∷◌ q) all_kept))

  pub split_old :
      (early late : ℕ) (qs : List A)
      → early ≤ late
      → Ordered qs
      → filter (old early) qs ++ filter (old late) (filter (kept early) qs) ≡ filter (old late) qs
  split_old early late [] le o = refl
  split_old early late (q ∷ qs) le o = elim (Bool-cases (ltb (time q) early)) [
    | inl e ↦
        let also : ltb (time q) late ≡ true = ground arith in
        rw (e, also) (ap (◌∷◌ q) (split_old early late qs le o.1))
    | inr e ↦
        let from : early ≤ time q = ground arith in
        let (gone, all_kept) = none_older early qs (raise_all early (time q) qs from o.0) in
        rw (e, gone, all_kept) refl
  ]
    where
      raise_all :
          (a b : ℕ) (rs : List A) → a ≤ b → All (λ r. b ≤ time r) rs → All (λ r. a ≤ time r) rs
      raise_all a b [] le h = tt
      raise_all a b (r ∷ rs) le h = (let here = h.0 in omega arith, raise_all a b rs le h.1)

  pub kept_twice :
      (early late : ℕ) (qs : List A)
      → early ≤ late
      → filter (kept late) (filter (kept early) qs) ≡ filter (kept late) qs
  kept_twice early late [] le = refl
  kept_twice early late (q ∷ qs) le = elim (Bool-cases (ltb (time q) early)) [
    | inl e ↦
        let also : ltb (time q) late ≡ true = ground arith in
        rw (e, also) (kept_twice early late qs le)
    | inr e ↦ elim (Bool-cases (ltb (time q) late)) [
      | inl l ↦ rw (e, l) (kept_twice early late qs le)
      | inr l ↦ rw (e, l) (ap (◌∷◌ q) (kept_twice early late qs le))
    ]
  ]

  filter-All : (P : A → Type 0) (p : A → Bool) (qs : List A) → All P qs → All P (filter p qs)
  filter-All P p [] h = tt
  filter-All P p (q ∷ qs) h = elim (Bool-cases (p q)) [
    | inl e ↦ rw e (h.0, filter-All P p qs h.1)
    | inr e ↦ rw e (filter-All P p qs h.1)
  ]

  pub filter-Ordered : (p : A → Bool) (qs : List A) → Ordered qs → Ordered (filter p qs)
  filter-Ordered p [] o = tt
  filter-Ordered p (q ∷ qs) o = elim (Bool-cases (p q)) [
    | inl e ↦ rw e (filter-All (λ r. time q ≤ time r) p qs o.0, filter-Ordered p qs o.1)
    | inr e ↦ rw e (filter-Ordered p qs o.1)
  ]
