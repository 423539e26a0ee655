-- ===== src/Catalog/Consistent.antt =====
-- About the validators of the catalog and the catalogs that they accept.
use social_sentiment.Catalog.{
  ◌then◌, refuse_if, check_references, duplicates, distinct, contains, occurrences,
  validate_unique_instrument_keys, GlobalInstrumentCatalog, validate_catalog,
  CatalogSymbolExposures, exposure_keys, CatalogInstrument,
}
use social_sentiment.Prelude.{
  String, List, Bool, ◌∷◌, ◌≡◌, length, ◌≤◌, All, is_empty, filter, any, map, ◌⊎◌, true, arith,
  Bool-cases, inl, ltb, not, [], str_eq, eq_iff, suc, inr, false, ◌↔◌, str_eq_refl, leb, refl, sym,
  leb→le, ◌+◌,
}
use social_sentiment.Outcome.{Outcome, ok, raised, cancelled}

-- The key is one of the list.
abbrev pub IsIn : String → List String → Type 0
IsIn k [] = ⊥
IsIn k (j ∷ ks) = (k ≡ j) ⊎ IsIn k ks

-- No key stands twice.
abbrev pub Unique : List String → Type 0
Unique [] = Unit
Unique (k ∷ ks) = (¬ IsIn k ks) × Unique ks

contains-IsIn : (k : String) (ks : List String) → contains ks k ≡ true → IsIn k ks
contains-IsIn k (j ∷ ks) e = elim (Bool-cases (str_eq k j)) [
  | inl q ↦ inl ((eq_iff k j).0 q)
  | inr q ↦ inr (contains-IsIn k ks (rw q at e))
]
contains-IsIn k [] e = cc e

pub IsIn-contains : (k : String) (ks : List String) → IsIn k ks → contains ks k ≡ true
IsIn-contains k [] m = absurd m
IsIn-contains k (j ∷ ks) (inl e) = rw ((eq_iff k j).1 e) refl
IsIn-contains k (j ∷ ks) (inr m) = let rest = IsIn-contains k ks m in ground (arith, rest)

distinct-le : (ks : List String) → length (distinct ks) ≤ length ks
distinct-le [] = omega arith
distinct-le (k ∷ ks) = ground (arith, distinct-le ks)

distinct-Unique : (ks : List String) → length ks ≡ length (distinct ks) → Unique ks
distinct-Unique [] e = tt
distinct-Unique (k ∷ ks) e = elim (Bool-cases (contains ks k)) [
  | inl q ↦
      let shorter : suc (length ks) ≡ length (distinct ks) = rw q at e in
      absurd (omega (arith, shorter, distinct-le ks))
  | inr q ↦
      let same : suc (length ks) ≡ suc (length (distinct ks)) = rw q at e in
      ((λ m. let t = IsIn-contains k ks m in cc (t, q)), distinct-Unique ks (omega (arith, same)))
]

Unique-distinct : (ks : List String) → Unique ks → length ks ≡ length (distinct ks)
Unique-distinct [] u = refl
Unique-distinct (k ∷ ks) u = elim (Bool-cases (contains ks k)) [
  | inl q ↦ absurd (u.0 (contains-IsIn k ks q))
  | inr q ↦ rw q (omega (arith, Unique-distinct ks u.1))
]

refuse_if_ok : (b : Bool) (text : String) → refuse_if b text ≡ ok tt → b ≡ false
refuse_if_ok true text e = cc e
refuse_if_ok false text e = refl

then_ok : (o p : Outcome (Unit {0})) → (o then p) ≡ ok tt → (o ≡ ok tt) × (p ≡ ok tt)
then_ok (ok tt) p e = (refl, e)
then_ok (raised x) p e = cc e
then_ok cancelled p e = cc e

-- The exposures of a symbol are accepted exactly when no instrument stands twice among them.
pub exposures_exact :
    (s : CatalogSymbolExposures)
    → (validate_unique_instrument_keys s ≡ ok tt) ↔ Unique (exposure_keys s)
unfolding validate_unique_instrument_keys
exposures_exact s = (
  λ e. distinct-Unique (exposure_keys s) (ground (arith, refuse_if_ok _ _ e)),
  λ u. let same = Unique-distinct (exposure_keys s) u in ground (arith, same),
)

IsIn-occurs : (k : String) (ks : List String) → IsIn k ks → 1 ≤ occurrences k ks
IsIn-occurs k [] m = absurd m
IsIn-occurs k (j ∷ ks) (inl e) = rw ((eq_iff k j).1 e) (omega arith)
IsIn-occurs k (j ∷ ks) (inr m) = let rest = IsIn-occurs k ks m in ground (arith, rest)

occurs-IsIn : (k : String) (ks : List String) → 1 ≤ occurrences k ks → IsIn k ks
occurs-IsIn k [] h = absurd (omega (arith, h))
occurs-IsIn k (j ∷ ks) h = elim (Bool-cases (str_eq k j)) [
  | inl q ↦ inl ((eq_iff k j).0 q)
  | inr q ↦
      let fewer : 1 ≤ 0 + occurrences k ks = rw q at h in
      inr (occurs-IsIn k ks (omega (arith, fewer)))
]

-- every key of the list occurs once in the other list
abbrev Once : List String → List String → Type 0
Once all ks = All (λ k. occurrences k all ≤ 1) ks

distinct-empty : (ks : List String) → is_empty (distinct ks) ≡ true → is_empty ks ≡ true
distinct-empty [] e = refl
distinct-empty (k ∷ ks) e = elim (Bool-cases (contains ks k)) [
  | inl q ↦
      let rest : is_empty ks ≡ true = distinct-empty ks (rw q at e) in
      absurd (none_contained ks rest q)
  | inr q ↦ let absent : false ≡ true = rw q at e in cc absent
]
  where
    none_contained : (ks : List String) → is_empty ks ≡ true → contains ks k ≡ true → ⊥
    none_contained [] e q = cc q
    none_contained (j ∷ js) e q = cc e

filter-Once :
    (all ks : List String)
    → is_empty (filter (λ key. ltb 1 (occurrences key all)) ks) ≡ true
    → Once all ks
filter-Once all [] e = tt
filter-Once all (k ∷ ks) e = elim (Bool-cases (ltb 1 (occurrences k all))) [
  | inl q ↦ let absent : false ≡ true = rw q at e in cc absent
  | inr q ↦ (ground arith, filter-Once all ks (rw q at e))
]

Once-filter :
    (all ks : List String) → Once all ks → filter (λ key. ltb 1 (occurrences key all)) ks ≡ []
Once-filter all [] o = refl
Once-filter all (k ∷ ks) o =
    let few : ltb 1 (occurrences k all) ≡ false = let h = o.0 in ground arith in
    rw few (Once-filter all ks o.1)

Once-Unique : (ks : List String) → Once ks ks → Unique ks
Once-Unique [] o = tt
Once-Unique (k ∷ ks) o = (
  (λ m.
      let more = IsIn-occurs k ks m in
      let one = o.0 in let self = str_eq_refl k in absurd (ground (arith, more, one, self))),
  Once-Unique ks (drop_first k ks ks o.1),
)
  where
    drop_first : (k : String) (ks js : List String) → Once (k ∷ ks) js → Once ks js
    drop_first k ks [] o = tt
    drop_first k ks (j ∷ js) o = (let h = o.0 in ground arith, drop_first k ks js o.1)

add_first : (k : String) (ks js : List String) → ¬ IsIn k js → Once ks js → Once (k ∷ ks) js
add_first k ks [] absent o = tt
add_first k ks (j ∷ js) absent o = elim (Bool-cases (str_eq j k)) [
  | inl q ↦ absurd (absent (inl (sym ((eq_iff j k).0 q))))
  | inr q ↦
      (rw q (let one = o.0 in omega (arith, one)), add_first k ks js (λ m. absent (inr m)) o.1)
]

Unique-Once : (ks : List String) → Unique ks → Once ks ks
Unique-Once [] u = tt
Unique-Once (k ∷ ks) u = (
  elim (Bool-cases (leb 1 (occurrences k ks))) [
    | inl q ↦ absurd (u.0 (occurs-IsIn k ks (leb→le 1 _ q)))
    | inr q ↦ let self = str_eq_refl k in ground (arith, self)
  ],
  add_first k ks ks u.0 (Unique-Once ks u.1),
)

-- Each exposure of each symbol refers to one of the keys.
abbrev pub Refer : List String → List CatalogSymbolExposures → Type 0
Refer keys exposures = All (λ s. All (λ k. IsIn k keys) (exposure_keys s)) exposures

known-All :
    (keys ks : List String)
    → any (λ key. not (contains keys key)) ks ≡ false
    → All (λ k. IsIn k keys) ks
known-All keys [] e = tt
known-All keys (k ∷ ks) e = elim (Bool-cases (contains keys k)) [
  | inl q ↦ (contains-IsIn k keys q, known-All keys ks (rw q at e))
  | inr q ↦ let absent : true ≡ false = rw q at e in cc absent
]

All-known :
    (keys ks : List String)
    → All (λ k. IsIn k keys) ks
    → any (λ key. not (contains keys key)) ks ≡ false
All-known keys [] a = refl
All-known keys (k ∷ ks) a = rw (IsIn-contains k keys a.0) (All-known keys ks a.1)

references_ok :
    (keys : List String) (exposures : List CatalogSymbolExposures)
    → check_references keys exposures ≡ ok tt
    → Refer keys exposures
unfolding check_references
references_ok keys [] e = tt
references_ok keys (s ∷ rest) e =
    let (first, others) = then_ok _ _ e in
    (known-All keys (exposure_keys s) (refuse_if_ok _ _ first), references_ok keys rest others)

Refer-ok :
    (keys : List String) (exposures : List CatalogSymbolExposures)
    → Refer keys exposures
    → check_references keys exposures ≡ ok tt
unfolding check_references
Refer-ok keys [] r = refl
Refer-ok keys (s ∷ rest) r = rw (All-known keys (exposure_keys s) r.0) (Refer-ok keys rest r.1)

abbrev pub catalog_keys : GlobalInstrumentCatalog → List String
catalog_keys c = map (λ (i : CatalogInstrument). i.instrument_key) c.instruments

-- A catalog is accepted exactly when no instrument key stands twice in it and every exposure refers
-- to one of its instruments.
pub validate_catalog_exact :
    (c : GlobalInstrumentCatalog)
    → (validate_catalog c ≡ ok tt)
      ↔ (Unique (catalog_keys c) × Refer (catalog_keys c) c.stock_exposures)
unfolding validate_catalog
validate_catalog_exact c = (
  (λ e.
      let (first, others) = then_ok _ _ e in
      let none_twice : is_empty (duplicates (catalog_keys c)) ≡ true =
        let r : not (is_empty (duplicates (catalog_keys c))) ≡ false = refuse_if_ok _ _ first in
        ground arith in
      (
        Once-Unique (catalog_keys c)
            (filter-Once (catalog_keys c) (catalog_keys c) (distinct-empty _ none_twice)),
        references_ok (catalog_keys c) c.stock_exposures others,
      )),
  (λ (u, r).
      let no_filter =
        Once-filter (catalog_keys c) (catalog_keys c) (Unique-Once (catalog_keys c) u) in
      rw no_filter (Refer-ok (catalog_keys c) c.stock_exposures r)),
)
