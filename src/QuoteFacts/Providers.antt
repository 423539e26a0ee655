-- ===== src/QuoteFacts/Providers.antt =====
-- About the ordered list of providers.
use social_sentiment.QuoteFacts.{add_provider, distinct_providers}
use social_sentiment.Prelude.{
  String, ℕ, ◌≡◌, List, arith, ◌∷◌, ◌++◌, [], Bool-cases, ◌∙◌, ap, ◌==◌, sym, refl, inl, inr, ltb,
}

module _ (rank : String → ℕ) (differ : (a b : String) → rank a ≡ rank b → a ≡ b) where
  add_again :
      (p : String) (ps : List String)
      → add_provider rank p (add_provider rank p ps) ≡ add_provider rank p ps
  unfolding add_provider
  add_again p [] = ground arith
  add_again p (q ∷ qs) = ground (arith, add_again p qs)

  -- `p` and `q` with different ranks
  add_comm :
      (p q : String) (ps : List String)
      → add_provider rank p (add_provider rank q ps) ≡ add_provider rank q (add_provider rank p ps)
  unfolding add_provider
  add_comm p q [] = ground (arith, differ p q)
  add_comm p q (r ∷ rs) = ground (arith, add_comm p q rs, differ p q)

  -- Adding the providers of a list one by one.
  add_all : List String → List String → List String
  add_all [] acc = acc
  add_all (p ∷ ps) acc = add_provider rank p (add_all ps acc)

  add_all-add :
      (p : String) (ps acc : List String)
      → add_all (add_provider rank p ps) acc ≡ add_provider rank p (add_all ps acc)
  unfolding add_all add_provider
  add_all-add p [] acc = refl
  add_all-add p (q ∷ qs) acc = elim (Bool-cases (rank p == rank q)) [
    | inl e ↦
        let same : p ≡ q = differ p q (ground arith) in
        rw e (
          sym (add_again q (add_all qs acc))
          ∙ ap (λ x. add_provider rank x (add_provider rank q (add_all qs acc))) (sym same))
    | inr e ↦ elim (Bool-cases (ltb (rank p) (rank q))) [
      | inl l ↦ rw (e, l) refl
      | inr l ↦
          rw (e, l)
            (ap (add_provider rank q) (add_all-add p qs acc) ∙ add_comm q p (add_all qs acc))
    ]
  ]

  add_all-distinct :
      (ps acc : List String) → add_all (distinct_providers rank ps) acc ≡ add_all ps acc
  unfolding add_all distinct_providers
  add_all-distinct [] acc = refl
  add_all-distinct (p ∷ ps) acc =
      add_all-add p (distinct_providers rank ps) acc
      ∙ ap (add_provider rank p) (add_all-distinct ps acc)

  distinct-append :
      (ps qs : List String)
      → distinct_providers rank (ps ++ qs) ≡ add_all ps (distinct_providers rank qs)
  unfolding add_all distinct_providers
  distinct-append [] qs = refl
  distinct-append (p ∷ ps) qs = ap (add_provider rank p) (distinct-append ps qs)

  distinct_again :
      (ps : List String)
      → distinct_providers rank (distinct_providers rank ps) ≡ distinct_providers rank ps
  unfolding add_all distinct_providers
  distinct_again ps =
      no_more (distinct_providers rank ps) ∙ add_all-distinct ps [] ∙ sym (no_more ps)
    where
      no_more : (ps : List String) → distinct_providers rank ps ≡ add_all ps []
      no_more [] = refl
      no_more (p ∷ ps) = ap (add_provider rank p) (no_more ps)

  -- The providers of two lists are those of what is left of each.
  pub distinct-distinct :
      (ps qs : List String)
      → distinct_providers rank (distinct_providers rank ps ++ distinct_providers rank qs)
        ≡ distinct_providers rank (ps ++ qs)
  distinct-distinct ps qs =
      distinct-append (distinct_providers rank ps) (distinct_providers rank qs)
      ∙ add_all-distinct ps (distinct_providers rank (distinct_providers rank qs))
      ∙ ap (add_all ps) (distinct_again qs)
      ∙ sym (distinct-append ps qs)

  -- The same on one side only.
  pub distinct_left :
      (ps qs : List String)
      → distinct_providers rank (distinct_providers rank ps ++ qs)
        ≡ distinct_providers rank (ps ++ qs)
  distinct_left ps qs =
      distinct-append (distinct_providers rank ps) qs
      ∙ add_all-distinct ps (distinct_providers rank qs)
      ∙ sym (distinct-append ps qs)

  pub distinct_right :
      (ps qs : List String)
      → distinct_providers rank (ps ++ distinct_providers rank qs)
        ≡ distinct_providers rank (ps ++ qs)
  distinct_right ps qs =
      distinct-append ps (distinct_providers rank qs)
      ∙ ap (add_all ps) (distinct_again qs)
      ∙ sym (distinct-append ps qs)
