-- ===== src/ArchiveExport/Parquet.antt =====
-- About the rows of a file and its summary.
use social_sentiment.ArchiveExport.{
  Written, event_values, write_parquet, least_of, greatest_of, merge_least, merge_greatest, Cell,
  ArrowType, write_batch, write_batches, Column, present, normalize_row, column_index, event_of,
  arrow_schema, nothing_written,
}
use social_sentiment.Prelude.{
  ℕ, Option, List, ◌≡◌, min, max, map, take, length, ◌∷◌, ◌++◌, drop, [], ◌∙◌, ap, suc, ◌≤◌,
  append_nil, String, refl, arith, some, sym, zero, length-append, none,
}
use social_sentiment.Retention.Partition.{append_assoc}

written_ext :
    (a b : Written)
    → a.content ≡ b.content
    → a.row_count ≡ b.row_count
    → a.min_event ≡ b.min_event
    → a.max_event ≡ b.max_event
    → a ≡ b
written_ext a b p q r s =
    λ i. record { content = p i; row_count = q i; min_event = r i; max_event = s i }

least_of-min : (n m : ℕ) (ts : List ℕ) → min n (least_of m ts) ≡ least_of (min n m) ts
least_of-min n m [] = refl
least_of-min n m (t ∷ ts) = least_of-min n (min m t) ts ∙ ap (λ k. least_of k ts) (omega arith)

least_of-append : (n : ℕ) (xs ys : List ℕ) → least_of n (xs ++ ys) ≡ least_of (least_of n xs) ys
least_of-append n [] ys = refl
least_of-append n (x ∷ xs) ys = least_of-append (min n x) xs ys

greatest_of-max : (n m : ℕ) (ts : List ℕ) → max n (greatest_of m ts) ≡ greatest_of (max n m) ts
greatest_of-max n m [] = refl
greatest_of-max n m (t ∷ ts) =
    greatest_of-max n (max m t) ts ∙ ap (λ k. greatest_of k ts) (omega arith)

greatest_of-append :
    (n : ℕ) (xs ys : List ℕ) → greatest_of n (xs ++ ys) ≡ greatest_of (greatest_of n xs) ys
greatest_of-append n [] ys = refl
greatest_of-append n (x ∷ xs) ys = greatest_of-append (max n x) xs ys

merge_least-append :
    (n : Option ℕ) (xs ys : List ℕ) → merge_least (merge_least n xs) ys ≡ merge_least n (xs ++ ys)
merge_least-append n [] ys = refl
merge_least-append none (x ∷ xs) [] = ap (λ l. some (least_of x l)) (sym (append_nil xs))
merge_least-append (some n) (x ∷ xs) [] =
    ap (λ l. some (min n (least_of x l))) (sym (append_nil xs))
merge_least-append none (x ∷ xs) (y ∷ ys) =
    ap some (least_of-min (least_of x xs) y ys ∙ sym (least_of-append x xs (y ∷ ys)))
merge_least-append (some n) (x ∷ xs) (y ∷ ys) = ap some (
    least_of-min (min n (least_of x xs)) y ys
    ∙ ap (λ k. least_of k ys) (omega arith)
    ∙ sym (least_of-min n (min (least_of x xs) y) ys)
    ∙ ap (min n) (sym (least_of-append x xs (y ∷ ys))))

merge_greatest-append :
    (n : Option ℕ) (xs ys : List ℕ)
    → merge_greatest (merge_greatest n xs) ys ≡ merge_greatest n (xs ++ ys)
merge_greatest-append n [] ys = refl
merge_greatest-append none (x ∷ xs) [] = ap (λ l. some (greatest_of x l)) (sym (append_nil xs))
merge_greatest-append (some n) (x ∷ xs) [] =
    ap (λ l. some (max n (greatest_of x l))) (sym (append_nil xs))
merge_greatest-append none (x ∷ xs) (y ∷ ys) =
    ap some (greatest_of-max (greatest_of x xs) y ys ∙ sym (greatest_of-append x xs (y ∷ ys)))
merge_greatest-append (some n) (x ∷ xs) (y ∷ ys) = ap some (
    greatest_of-max (max n (greatest_of x xs)) y ys
    ∙ ap (λ k. greatest_of k ys) (omega arith)
    ∙ sym (greatest_of-max n (max (greatest_of x xs) y) ys)
    ∙ ap (max n) (sym (greatest_of-append x xs (y ∷ ys))))

event_values-append :
    (k : ℕ) (xs ys : List (List Cell))
    → event_values k (xs ++ ys) ≡ event_values k xs ++ event_values k ys
unfolding event_values
event_values-append k [] ys = refl
event_values-append k (x ∷ xs) ys =
    ap (present (event_of k x)) (event_values-append k xs ys)
    ∙ present-append (event_of k x) (event_values k xs) (event_values k ys)
  where
    present-append : (o : Option ℕ) (us vs : List ℕ) → present o (us ++ vs) ≡ present o us ++ vs
    present-append none us vs = refl
    present-append (some t) us vs = refl

map-append : {A B : Type 0} (f : A → B) (xs ys : List A) → map f (xs ++ ys) ≡ map f xs ++ map f ys
map-append f [] ys = refl
map-append f (x ∷ xs) ys = ap (◌∷◌ (f x)) (map-append f xs ys)

take-drop : {A : Type 0} (n : ℕ) (xs : List A) → take n xs ++ drop n xs ≡ xs
take-drop zero xs = refl
take-drop (suc n) [] = refl
take-drop (suc n) (x ∷ xs) = ap (◌∷◌ x) (take-drop n xs)

length-drop-le : {A : Type 0} (n : ℕ) (xs : List A) → length (drop n xs) ≤ length xs
length-drop-le zero xs = omega arith
length-drop-le (suc n) [] = omega arith
length-drop-le (suc n) (x ∷ xs) = let h = length-drop-le n xs in omega arith

module _ (schema : List ArrowType) (k : ℕ) where
  write_batch-append :
      (w : Written) (xs ys : List (List Cell))
      → write_batch schema k (write_batch schema k w xs) ys ≡ write_batch schema k w (xs ++ ys)
  unfolding write_batch
  write_batch-append w xs ys =
      written_ext _ _
        (append_assoc w.content (map (normalize_row schema) xs) _
          ∙ ap (λ l. w.content ++ l) (sym (map-append (normalize_row schema) xs ys)))
        (omega (arith, length-append xs ys))
        (merge_least-append w.min_event (event_values k xs) _
          ∙ ap (merge_least w.min_event) (sym (event_values-append k xs ys)))
        (merge_greatest-append w.max_event (event_values k xs) _
          ∙ ap (merge_greatest w.max_event) (sym (event_values-append k xs ys)))

  write_batch-nil : (w : Written) → write_batch schema k w [] ≡ w
  unfolding write_batch event_values
  write_batch-nil w = written_ext _ _ (append_nil w.content) (omega arith) refl refl

  write_batches-one :
      (fuel n : ℕ) (rows : List (List Cell)) (w : Written)
      → length rows ≤ fuel
      → write_batches schema k fuel (suc n) rows w ≡ write_batch schema k w rows
  unfolding write_batches
  write_batches-one zero n [] w le = sym (write_batch-nil w)
  write_batches-one zero n (row ∷ rows) w le = absurd (omega (arith, le))
  write_batches-one (suc fuel) n [] w le = sym (write_batch-nil w)
  write_batches-one (suc fuel) n (row ∷ rows) w le =
      let few = length-drop-le n rows in
      write_batches-one fuel n (drop n rows) _ (omega (arith, le, few))
      ∙ write_batch-append w (row ∷ take n rows) (drop n rows)
      ∙ ap (λ l. write_batch schema k w (row ∷ l)) (take-drop n rows)

-- The file holds every row of the result, in its order and normalized by the columns' types; the
-- summary counts them all and has the least and the greatest of all their event times, however the
-- rows were fetched in batches.
pub write_parquet_whole :
    (description : List Column) (time_column : String) (rows : List (List Cell))
    → let w = write_parquet description time_column rows in
      let times = event_values (column_index time_column description) rows in
      (w.content ≡ map (normalize_row (arrow_schema description)) rows)
      × (w.row_count ≡ length rows)
      × (w.min_event ≡ merge_least none times)
      × (w.max_event ≡ merge_greatest none times)
unfolding write_parquet write_batch
write_parquet_whole description time_column rows =
    let whole =
      write_batches-one (arrow_schema description) (column_index time_column description)
        (length rows) 9999 rows nothing_written (omega arith) in
    (
      ap (λ w. w.content) whole,
      ap (λ w. w.row_count) whole ∙ omega arith,
      ap (λ w. w.min_event) whole,
      ap (λ w. w.max_event) whole,
    )
