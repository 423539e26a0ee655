-- ===== src/ArchiveExport/Marked.antt =====
-- About the rows that an export marks, and those in its file.
use social_sentiment.Database.{Attempt, commits, lost_after, lost_before, fails}
use social_sentiment.ArchiveExport.Dataset.{
  insert_row, order_rows, Request, Client, DatasetRow, is_staging, Head, chosen, check_upload,
  upload, has_checksum, object_key_of, export_dataset, Tables, write_dataset, record_manifest,
  ExportResult, after_upload, manifest_of, mark, Manifest,
}
use social_sentiment.Prelude.{
  List, length, ◌≡◌, map, String, ◌+◌, ◌∷◌, true, ℕ, arith, ◌∙◌, ap, All, Bool-cases, suc, ◌<◌, [],
  leb, filter, some, refl, inl, inr, false, Option, ◌==◌, eq_iff, none, ◌<>◌, ◌++◌, append_nil,
  subst, sym, ◌⊎◌,
}
use social_sentiment.ArchiveExport.{Cell, Written, normalize_row, arrow_schema}
use social_sentiment.Outcome.{ok, raised, runtime_error, Error, Outcome, cancelled}
use social_sentiment.GlobalEvents.Actions.{bind-ok}
use social_sentiment.Retention.Partition.{filter-append}
use social_sentiment.ArchiveExport.Parquet.{write_parquet_whole}

length-insert_row :
    (r : DatasetRow) (rs : List DatasetRow) → length (insert_row r rs) ≡ length rs + 1
unfolding insert_row
length-insert_row r [] = omega arith
length-insert_row r (x ∷ rs) = elim (Bool-cases (leb r.event_at x.event_at)) [
  | inl e ↦ rw e (omega arith)
  | inr e ↦ rw e (let h = length-insert_row r rs in omega (arith, h))
]

length-order_rows : (rs : List DatasetRow) → length (order_rows rs) ≡ length rs
unfolding order_rows
length-order_rows [] = refl
length-order_rows (r ∷ rs) =
    length-insert_row r (order_rows rs) ∙ omega (arith, length-order_rows rs)

length-map : {A B : Type 0} (f : A → B) (xs : List A) → length (map f xs) ≡ length xs
length-map f [] = refl
length-map f (x ∷ xs) = ap suc (length-map f xs)

-- A row that was staged after the query is not chosen.
none_chosen :
    (q : Request) (arrived : List DatasetRow)
    → is_staging q ≡ true
    → All (λ (r : DatasetRow). q.stage_cutoff < r.staged_at) arrived
    → filter (chosen q) arrived ≡ []
none_chosen q [] e late = refl
none_chosen q (r ∷ rs) e late =
    let here = late.0 in
    let out : chosen q r ≡ false = ground (arith, here, e) in rw out (none_chosen q rs e late.1)

record_manifest-marks :
    (q : Request) (m : Manifest) (t : Tables)
    → is_staging q ≡ true
    → (record_manifest q m t).1.rows
      ≡ map (mark q.now (record_manifest q m t).0.manifest_id (chosen q)) t.rows
unfolding record_manifest
record_manifest-marks q m t e = rw e refl

module _ {S : Type 0} (client : Client S) (sha256_of : List (List Cell) → String)
    (size_of : List (List Cell) → ℕ) where
  -- The store has answered that it holds an object of the file's size and checksum.
  abbrev pub Confirmed : String → List (List Cell) → Type 0
  Confirmed object_key content =
      (s : S) × (head : Head) × ((client.head_object object_key s).0 ≡ ok head)
      × (head.content_length ≡ size_of content)
      × (head.sha256 ≡ some (sha256_of content))

  has_checksum-some :
      (checksum : String) (o : Option String) → has_checksum checksum o ≡ true → o ≡ some checksum
  has_checksum-some checksum none h = cc h
  has_checksum-some checksum (some x) h = ap some ((eq_iff x checksum).0 h)

  check_upload-Confirmed :
      (object_key checksum : String) (byte_size : ℕ) (head : Head)
      → check_upload object_key byte_size checksum head ≡ ok tt
      → (head.content_length ≡ byte_size) × (head.sha256 ≡ some checksum)
  unfolding check_upload
  check_upload-Confirmed object_key checksum byte_size head h =
      elim (Bool-cases (head.content_length == byte_size)) [
        | inl e ↦ elim (Bool-cases (has_checksum checksum head.sha256)) [
          | inl f ↦ (ground (arith, e), has_checksum-some checksum head.sha256 f)
          | inr f ↦
              let absent : raised
                    (runtime_error ("uploaded checksum metadata mismatch for " <> object_key))
                  ≡ ok tt =
                rw (e, f) at h in
              cc absent
        ]
        | inr e ↦
            let absent : raised (runtime_error ("uploaded size mismatch for " <> object_key))
                ≡ ok tt =
              rw e at h in
            cc absent
      ]

  upload-Confirmed :
      (q : Request) (w : Written) (s : S)
      → (upload client sha256_of size_of q w s).0 ≡ ok tt
      → Confirmed (object_key_of client sha256_of size_of q w) w.content
  unfolding upload
  upload-Confirmed q w s h =
      let (_, _, rest) = bind-ok _ _ s tt h in
      let (head, answered, checked) = bind-ok _ _ _ tt rest in
      let (size, sum) =
        check_upload-Confirmed (object_key_of client sha256_of size_of q w) (sha256_of w.content)
          (size_of w.content) head checked in
      (_, head, answered, size, sum)

  -- The file's rows are those that the update marks, in the order of their time.
  IsArchived : Request → List DatasetRow → List (List Cell) → Type 0
  IsArchived q rows content =
      content
      ≡ map (normalize_row (arrow_schema q.description))
          (map (λ (x : DatasetRow). x.cells) (order_rows (filter (chosen q) rows)))

  late_not_chosen :
      (q : Request) (arrived rows : List DatasetRow)
      → is_staging q ≡ true
      → All (λ (x : DatasetRow). q.stage_cutoff < x.staged_at) arrived
      → filter (chosen q) (rows ++ arrived) ≡ filter (chosen q) rows
  late_not_chosen q arrived rows staging late =
      filter-append (chosen q) rows arrived
      ∙ rw (none_chosen q arrived staging late) (append_nil (filter (chosen q) rows))

  write_dataset-IsArchived :
      (q : Request) (arrived rows : List DatasetRow)
      → is_staging q ≡ true
      → All (λ (x : DatasetRow). q.stage_cutoff < x.staged_at) arrived
      → IsArchived q (rows ++ arrived) (write_dataset q rows).content
  unfolding write_dataset IsArchived
  write_dataset-IsArchived q arrived rows staging late =
      let (content, _, _, _) =
        write_parquet_whole q.description q.time_column
          (map (λ (x : DatasetRow). x.cells) (order_rows (filter (chosen q) rows))) in
      rw (late_not_chosen q arrived rows staging late) content

  after_upload-ok :
      (q : Request) (w : Written) (attempt : Attempt) (t : Tables) (o : Outcome (Unit {0}))
      (r : ExportResult)
      → (after_upload client sha256_of size_of q w attempt t o).0 ≡ ok r
      → (o ≡ ok tt)
        × ((record_manifest q (manifest_of client sha256_of size_of q w) t).0 ≡ r)
        × ((after_upload client sha256_of size_of q w attempt t o).1
            ≡ (record_manifest q (manifest_of client sha256_of size_of q w) t).1)
  after_upload-ok q w commits t (ok x) r h = (refl, cc h, refl)
  after_upload-ok q w (lost_after e) t (ok x) r h = cc h
  after_upload-ok q w (lost_before e) t (ok x) r h = cc h
  after_upload-ok q w (fails e) t (ok x) r h = cc h
  after_upload-ok q w attempt t (raised e) r h = cc h
  after_upload-ok q w attempt t cancelled r h = cc h

  after_upload-raised :
      (q : Request) (w : Written) (attempt : Attempt) (t : Tables) (o : Outcome (Unit {0}))
      (e : Error)
      → (after_upload client sha256_of size_of q w attempt t o).0 ≡ raised e
      → ((after_upload client sha256_of size_of q w attempt t o).1 ≡ t)
        ⊎ ((attempt ≡ lost_after e)
            × (o ≡ ok tt)
            × ((after_upload client sha256_of size_of q w attempt t o).1
                ≡ (record_manifest q (manifest_of client sha256_of size_of q w) t).1))
  after_upload-raised q w commits t (ok x) e h = cc h
  after_upload-raised q w (lost_after y) t (ok x) e h = inr (cc h, refl, refl)
  after_upload-raised q w (lost_before y) t (ok x) e h = inl refl
  after_upload-raised q w (fails y) t (ok x) e h = inl refl
  after_upload-raised q w attempt t (raised y) e h = inl refl
  after_upload-raised q w attempt t cancelled e h = inl refl

  -- When the export of the staged posts raises and every row that arrived meanwhile was staged after
  -- the query, either the tables hold just what they held and what arrived, or the connection was lost
  -- after the commit; then the store has confirmed the size and the checksum of the file, and the
  -- file's rows are exactly the rows that are marked as archived, in the order of their time.
  pub export_dataset-raised :
      (q : Request) (arrived : List DatasetRow) (attempt : Attempt) (t : Tables) (s : S) (e : Error)
      → is_staging q ≡ true
      → All (λ (x : DatasetRow). q.stage_cutoff < x.staged_at) arrived
      → (export_dataset client sha256_of size_of q arrived attempt t s).0.0 ≡ raised e
      → let content = (write_dataset q t.rows).content in
        let rows = t.rows ++ arrived in
        let tables = (export_dataset client sha256_of size_of q arrived attempt t s).0.1 in
        (tables ≡ record { rows = rows; manifests = t.manifests })
        ⊎ ((attempt ≡ lost_after e)
            × Confirmed (object_key_of client sha256_of size_of q (write_dataset q t.rows)) content
            × ((manifest_id : ℕ) × (tables.rows ≡ map (mark q.now manifest_id (chosen q)) rows))
            × (content
                ≡ map
                    (normalize_row (arrow_schema q.description))
                    (map (λ (x : DatasetRow). x.cells) (order_rows (filter (chosen q) rows)))))
  unfolding export_dataset IsArchived
  export_dataset-raised q arrived attempt t s e staging late h =
      let w = write_dataset q t.rows in
      elim (after_upload-raised q w attempt _ _ e h) [
        | inl same ↦ inl same
        | inr (lost, confirmed, tables) ↦ inr (
          lost,
          upload-Confirmed q w s confirmed,
          (
            _,
            ap (λ (x : Tables). x.rows) tables
                ∙ record_manifest-marks q (manifest_of client sha256_of size_of q w)
                    (record { rows = t.rows ++ arrived; manifests = t.manifests }) staging,
          ),
          write_dataset-IsArchived q arrived t.rows staging late,
        )
      ]

  -- When the export of the staged posts succeeds and every row that arrived meanwhile was staged
  -- after the query, the store has confirmed the size and the checksum of the file, the file's rows
  -- are exactly the rows that the update marks as archived, in the order of their time, and the
  -- result counts them.
  pub export_dataset-marked :
      (q : Request) (arrived : List DatasetRow) (attempt : Attempt) (t : Tables) (s : S)
      (r : ExportResult)
      → is_staging q ≡ true
      → All (λ (x : DatasetRow). q.stage_cutoff < x.staged_at) arrived
      → (export_dataset client sha256_of size_of q arrived attempt t s).0.0 ≡ ok r
      → let content = (write_dataset q t.rows).content in
        let rows = t.rows ++ arrived in
        Confirmed r.object_key content
        × ((export_dataset client sha256_of size_of q arrived attempt t s).0.1.rows
            ≡ map (mark q.now r.manifest_id (chosen q)) rows)
        × (content
            ≡ map
                (normalize_row (arrow_schema q.description))
                (map (λ (x : DatasetRow). x.cells) (order_rows (filter (chosen q) rows))))
        × (r.row_count ≡ length (filter (chosen q) rows))
  unfolding export_dataset write_dataset record_manifest IsArchived
  export_dataset-marked q arrived attempt t s r staging late h =
      let w = write_dataset q t.rows in
      let (confirmed, result, tables) = after_upload-ok q w attempt _ _ r h in
      let same = late_not_chosen q arrived t.rows staging late in
      let (_, count, _, _) =
        write_parquet_whole q.description q.time_column
          (map (λ (x : DatasetRow). x.cells) (order_rows (filter (chosen q) t.rows))) in
      (
        subst (λ k. Confirmed k w.content) (ap (λ (x : ExportResult). x.object_key) result)
            (upload-Confirmed q w s confirmed),
        ap (λ (x : Tables). x.rows) tables
            ∙ record_manifest-marks q (manifest_of client sha256_of size_of q w)
                (record { rows = t.rows ++ arrived; manifests = t.manifests }) staging
            ∙ ap
                (λ (x : ExportResult).
                  map (mark q.now x.manifest_id (chosen q)) (t.rows ++ arrived))
                result,
        write_dataset-IsArchived q arrived t.rows staging late,
        sym (ap (λ (x : ExportResult). x.row_count) result)
            ∙ count
            ∙ length-map _ (order_rows (filter (chosen q) t.rows))
            ∙ length-order_rows (filter (chosen q) t.rows)
            ∙ ap length (sym same),
      )
