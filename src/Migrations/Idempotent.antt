-- ===== src/Migrations/Idempotent.antt =====
-- About applying the migrations twice.
use social_sentiment.Catalog.Consistent.{IsIn, Unique}
use social_sentiment.Migrations.{
  Prepared, Schema, apply_each, commit, prepend, applied, stopped, failing, checksum_mismatch,
  Attempt, apply_pending_migrations, SqlError,
}
use social_sentiment.Prelude.{
  List, Dict, String, map, All, lookup, Option, ◌≡◌, some, ◌∷◌, if◌then◌else◌, ap, none, subst, [],
  ◌⊎◌, Option-cases, str_eq, sym, Bool-cases, inl, str_eq_refl, inr, lookup-insert, eq_iff, refl,
  ◌∙◌, false, str_eq-ne,
}

abbrev pub versions_of : List Prepared → List String
versions_of = map (λ p. p.version)

-- The table holds each migration with its checksum.
abbrev pub Recorded : List Prepared → Dict String → Type 0
Recorded ps table = All (λ p. lookup p.version table ≡ some p.checksum) ps

-- What was recorded when the table was read still is.
Extends : Dict String → Dict String → Type 0
Extends recorded table = (k c : String) → lookup k recorded ≡ some c → lookup k table ≡ some c

Extends-lookup :
    (recorded table : Dict String) (k c : String)
    → Extends recorded table
    → lookup k recorded ≡ some c
    → lookup k table ≡ some c
unfolding Extends
Extends-lookup recorded table k c still q = still k c q

module _ (run : Schema → String → Option SqlError) (recorded : Dict String) where
  -- One round that goes on: the migration is recorded already, or is applied now.
  abbrev Step : Prepared → List Prepared → Schema → Schema → Type 0
  Step p ps s end =
      ((lookup p.version recorded ≡ some p.checksum)
        × ((vs : List String) × (apply_each run recorded ps s ≡ (applied vs, end))))
      ⊎ ((lookup p.version recorded ≡ none)
          × ((vs : List String) × (apply_each run recorded ps (commit p s) ≡ (applied vs, end))))

  prepended :
      (v : String) (a : Attempt) (s : Schema) (vs : List String) (end : Schema)
      → ◌≡◌ {A = Attempt × Schema} (prepend v a, s) (applied vs, end)
      → (ws : List String) × (◌≡◌ {A = Attempt × Schema} (a, s) (applied ws, end))
  prepended v (applied ws) s vs end e =
      let same : s ≡ end = cc e in (ws, ap (λ t. (applied ws, t)) same)
  prepended v (stopped x) s vs end e = cc e

  step :
      (p : Prepared) (ps : List Prepared) (s : Schema) (vs : List String) (end : Schema)
      → apply_each run recorded (p ∷ ps) s ≡ (applied vs, end)
      → Step p ps s end
  unfolding apply_each
  step p ps s vs end e = elim (Option-cases (lookup p.version recorded)) [
    | inl q ↦ elim (Option-cases (run s p.sql)) [
      | inl r ↦ inr (q, prepended p.version _ _ vs end (rw (apply_each, q, r) at e))
      | inr (x, r) ↦
          let wrong : ◌≡◌ {A = Attempt × Schema} (stopped x, s) (applied vs, end) =
            rw (apply_each, q, r) at e in
          cc wrong
    ]
    | inr (c, q) ↦ elim (Bool-cases (str_eq c p.checksum)) [
      | inl same ↦
          inl (q ∙ ap some ((eq_iff c p.checksum).0 same), (vs, rw (apply_each, q, same) at e))
      | inr differs ↦
          let wrong : ◌≡◌ {A = Attempt × Schema}
              (stopped (failing (checksum_mismatch p.version)), s) (applied vs, end) =
            rw (apply_each, q, differs) at e in
          cc wrong
    ]
  ]

  commit-lookup :
      (p : Prepared) (s : Schema) (k : String)
      → lookup k (commit p s).table
        ≡ (if str_eq p.version k then some p.checksum else lookup k s.table)
  commit-lookup p s k = lookup-insert p.version k p.checksum s.table

  -- a version that is none of those still to come is left alone
  apply_each-keeps :
      (ps : List Prepared) (s : Schema) (vs : List String) (end : Schema) (k : String)
      → apply_each run recorded ps s ≡ (applied vs, end)
      → ¬ IsIn k (versions_of ps)
      → lookup k end.table ≡ lookup k s.table
  unfolding apply_each
  apply_each-keeps [] s vs end k e absent =
      let same : s ≡ end = cc e in ap (λ (x : Schema). lookup k x.table) (sym same)
  apply_each-keeps (p ∷ ps) s vs end k e absent = elim (step p ps s vs end e) [
    | inl (q, (ws, r)) ↦ apply_each-keeps ps s ws end k r (λ m. absent (inr m))
    | inr (q, (ws, r)) ↦
        let other : str_eq p.version k ≡ false =
          str_eq-ne p.version k (λ x. absent (inl (sym x))) in
        apply_each-keeps ps (commit p s) ws end k r (λ m. absent (inr m))
        ∙ commit-lookup p s k
        ∙ rw other refl
  ]

  commit-Extends :
      (p : Prepared) (s : Schema)
      → lookup p.version recorded ≡ none
      → Extends recorded s.table
      → Extends recorded (commit p s).table
  unfolding Extends
  commit-Extends p s fresh x k c e = elim (Bool-cases (str_eq p.version k)) [
    | inl same ↦
        let is : p.version ≡ k = (eq_iff p.version k).0 same in
        let gone : lookup k recorded ≡ none = subst (λ v. lookup v recorded ≡ none) is fresh in
        cc (gone, e)
    | inr other ↦ commit-lookup p s k ∙ rw other (x k c e)
  ]

  apply_each-Recorded :
      (ps : List Prepared) (s : Schema) (vs : List String) (end : Schema)
      → Unique (versions_of ps)
      → Extends recorded s.table
      → apply_each run recorded ps s ≡ (applied vs, end)
      → Recorded ps end.table × Extends recorded end.table
  unfolding apply_each
  apply_each-Recorded [] s vs end u x e =
      let same : s ≡ end = cc e in (tt, subst (λ (t : Schema). Extends recorded t.table) same x)
  apply_each-Recorded (p ∷ ps) s vs end u x e = elim (step p ps s vs end e) [
    | inl (q, (ws, r)) ↦
        let (rest, still) = apply_each-Recorded ps s ws end u.1 x r in
        ((Extends-lookup recorded end.table p.version p.checksum still q, rest), still)
    | inr (q, (ws, r)) ↦
        let (rest, still) =
          apply_each-Recorded ps (commit p s) ws end u.1 (commit-Extends p s q x) r in
        (
          (
            apply_each-keeps ps (commit p s) ws end p.version r u.0
                ∙ commit-lookup p s p.version
                ∙ rw (str_eq_refl p.version) refl,
            rest,
          ),
          still,
        )
  ]

-- Migrations that are recorded are passed over.
Recorded-apply :
    (run : Schema → String → Option SqlError) (recorded : Dict String) (ps : List Prepared)
    (s : Schema)
    → Recorded ps recorded
    → apply_each run recorded ps s ≡ (applied [], s)
unfolding apply_each
Recorded-apply run recorded [] s r = refl
Recorded-apply run recorded (p ∷ ps) s r =
    rw (apply_each, r.0, str_eq_refl p.checksum) (Recorded-apply run recorded ps s r.1)

-- When an attempt over migrations with different versions succeeds, each of them is recorded with
-- its checksum, what was recorded before still is, and another attempt applies nothing and changes
-- nothing, whatever the scripts would do.
pub apply_twice :
    (run again : Schema → String → Option SqlError) (prepared : List Prepared) (s : Schema)
    (vs : List String) (end : Schema)
    → Unique (versions_of prepared)
    → apply_pending_migrations run prepared s ≡ (applied vs, end)
    → Recorded prepared end.table
      × ((k c : String) → lookup k s.table ≡ some c → lookup k end.table ≡ some c)
      × (apply_pending_migrations again prepared end ≡ (applied [], end))
unfolding apply_pending_migrations Extends
apply_twice run again prepared s vs end u e =
    let (done, still) = apply_each-Recorded run s.table prepared s vs end u (λ k c x. x) e in
    (done, still, Recorded-apply again end.table prepared end done)
