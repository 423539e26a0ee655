-- ===== src/Database/Insertion.antt =====
-- About a batch that is inserted twice.
use social_sentiment.Database.{
  PostValues, same_post, insert_post, insert_all, PostTables, insert_batch, post_values,
}
use social_sentiment.Prelude.{
  List, ◌≡◌, Dict, ◌∷◌, All, true, any, length, false, arith, Bool-cases, ◌+◌, String, [],
  str_eq_refl, inl, ◌≤◌, refl, inr, map, length-map,
}
use social_sentiment.Schemas.{Score, ScoredPost}

-- No two rows have the same unique columns.
abbrev pub Distinct : List PostValues → Type 0
Distinct [] = Unit
Distinct (row ∷ rows) = (any (same_post row) rows ≡ false) × Distinct rows

-- Each of the rows has a row with its unique columns in the table.
abbrev pub AllThere : List PostValues → List PostValues → Type 0
AllThere table rows = All (λ row. any (same_post row) table ≡ true) rows

same_post_refl : (row : PostValues) → same_post row row ≡ true
same_post_refl row =
    ground (arith, str_eq_refl row.platform, str_eq_refl row.id, str_eq_refl row.symbol)

insert_all-keeps :
    (rows table : List PostValues) (row : PostValues)
    → any (same_post row) table ≡ true
    → any (same_post row) (insert_all rows table).0 ≡ true
unfolding insert_all
insert_all-keeps [] table row e = e
insert_all-keeps (r ∷ rows) table row e = elim (Bool-cases (any (same_post r) table)) [
  | inl q ↦ rw q (insert_all-keeps rows table row e)
  | inr q ↦ rw q (insert_all-keeps rows (r ∷ table) row (let h = e in ground arith))
]

insert_post-there :
    (row : PostValues) (table : List PostValues)
    → any (same_post row) (insert_post row table).0 ≡ true
insert_post-there row table = elim (Bool-cases (any (same_post row) table)) [
  | inl q ↦ rw q q
  | inr q ↦ rw q (let self = same_post_refl row in ground (arith, self))
]

insert_all-AllThere : (rows table : List PostValues) → AllThere (insert_all rows table).0 rows
unfolding insert_all
insert_all-AllThere [] table = tt
insert_all-AllThere (r ∷ rows) table =
    let table' = (insert_post r table).0 in
    (insert_all-keeps rows table' r (insert_post-there r table), insert_all-AllThere rows table')

insert_all-Distinct :
    (rows table : List PostValues) → Distinct table → Distinct (insert_all rows table).0
unfolding insert_all
insert_all-Distinct [] table d = d
insert_all-Distinct (r ∷ rows) table d = elim (Bool-cases (any (same_post r) table)) [
  | inl q ↦ rw q (insert_all-Distinct rows table d)
  | inr q ↦ rw q (insert_all-Distinct rows (r ∷ table) (q, d))
]

pub insert_all_again :
    (rows table : List PostValues) → AllThere table rows → insert_all rows table ≡ (table, 0)
unfolding insert_all
insert_all_again [] table a = refl
insert_all_again (r ∷ rows) table a = rw (a.0, insert_all_again rows table a.1) refl

insert_all-length :
    (rows table : List PostValues)
    → (length (insert_all rows table).0 ≡ length table + (insert_all rows table).1)
      × ((insert_all rows table).1 ≤ length rows)
unfolding insert_all
insert_all-length [] table = (omega arith, omega arith)
insert_all-length (r ∷ rows) table = elim (Bool-cases (any (same_post r) table)) [
  | inl q ↦ let ih = insert_all-length rows table in rw q (omega (arith, ih.0), omega (arith, ih.1))
  | inr q ↦
      let ih = insert_all-length rows (r ∷ table) in rw q (omega (arith, ih.0), omega (arith, ih.1))
]

-- Inserting a batch keeps the unique columns apart and adds as many rows as it reports, no more than
-- the posts; inserting it again adds no row and reports none.
pub insert_batch_twice :
    (dumps : Dict Score → String) (posts : List ScoredPost) (t : PostTables)
    → Distinct t.posts
    → let (n, t') = insert_batch dumps posts t in
      Distinct t'.posts
      × (length t'.posts ≡ length t.posts + n)
      × (n ≤ length posts)
      × ((insert_batch dumps posts t').0 ≡ 0)
      × ((insert_batch dumps posts t').1.posts ≡ t'.posts)
unfolding insert_batch
insert_batch_twice dumps posts t d =
    let rows = map (post_values dumps) posts in
    let (added, few) = insert_all-length rows t.posts in
    let again =
      insert_all_again rows (insert_all rows t.posts).0 (insert_all-AllThere rows t.posts) in
    (
      insert_all-Distinct rows t.posts d,
      added,
      omega (arith, few, length-map (post_values dumps) posts),
      rw again refl,
      rw again refl,
    )
