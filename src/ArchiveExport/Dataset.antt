-- ===== src/ArchiveExport/Dataset.antt =====
-- archive-service/export.py: the export of one dataset. The store of objects, the checksum and the
-- size of a file are parameters. The rows that other transactions commit while the file is written and
-- uploaded are an argument, by the tables as they are when the manifest is written.
use social_sentiment.Database.{Attempt, commits, lost_after, lost_before, fails}
use social_sentiment.GlobalEvents.{◌>>=◌, ◌>>◌, Act}
use social_sentiment.Prelude.{
  List, ℕ, String, Option, Bool, if◌then◌else◌, true, leb, ◌∷◌, some, str_eq, map, false, ◌&&◌, [],
  ltb, not, filter, none, ◌||◌, ◌==◌, ◌<>◌, ◌++◌,
}
use social_sentiment.ArchiveExport.{Cell, Column, Written, write_parquet}
use social_sentiment.Outcome.{Outcome, raised, runtime_error, ok, cancelled}

-- A row of a dataset: its values, its event time and, for the staged posts, when it was staged and
-- whether it is archived.
pub record DatasetRow : Type 0 where
  pub cells : List Cell
  pub event_at : ℕ
  pub staged_at : ℕ
  pub archived_at : Option ℕ
  pub manifest_id : Option ℕ

-- A row of `archive_manifests`.
pub record Manifest : Type 0 where
  pub manifest_id : ℕ
  pub dataset : String
  pub object_key : String
  pub row_count : ℕ
  pub min_event_at : Option ℕ
  pub max_event_at : Option ℕ
  pub sha256 : String
  pub byte_size : ℕ

pub record Tables : Type 0 where
  pub rows : List DatasetRow
  pub manifests : List Manifest

-- What `head_object` answers.
pub record Head : Type 0 where
  pub content_length : ℕ
  pub sha256 : Option String

-- The client of the object store, over its state.
pub record Client (S : Type 0) : Type 0 where
  pub upload_file : String → List (List Cell) → String → Act S (Unit {0})
  pub head_object : String → Act S Head

abbrev is_none : Option ℕ → Bool
is_none none = true
is_none (some n) = false

-- The `WHERE` of the query and of the update: the times of the export, and the cutoff.
abbrev pub is_selected : Bool → ℕ → ℕ → ℕ → DatasetRow → Bool
is_selected staging start end stage_cutoff row =
    leb start row.event_at
    && ltb row.event_at end
    && (not staging || (is_none row.archived_at && leb row.staged_at stage_cutoff))

-- `ORDER BY` the time column
unfoldable pub insert_row : DatasetRow → List DatasetRow → List DatasetRow
insert_row row [] = row ∷ []
insert_row row (r ∷ rs) =
    let rest = insert_row row rs in if leb row.event_at r.event_at then row ∷ r ∷ rs else r ∷ rest

unfoldable pub order_rows : List DatasetRow → List DatasetRow
unfolding insert_row
order_rows [] = []
order_rows (r ∷ rs) = insert_row r (order_rows rs)

-- `head.get("Metadata", {}).get("sha256") == checksum`
abbrev pub has_checksum : String → Option String → Bool
has_checksum checksum none = false
has_checksum checksum (some s) = str_eq s checksum

-- the two checks of the uploaded object
unfoldable pub check_upload : String → ℕ → String → Head → Outcome (Unit {0})
check_upload object_key byte_size checksum head =
    if not (head.content_length == byte_size)
    then raised (runtime_error ("uploaded size mismatch for " <> object_key))
    else if not (has_checksum checksum head.sha256)
    then raised (runtime_error ("uploaded checksum metadata mismatch for " <> object_key))
    else ok tt

-- `DO UPDATE SET` of a manifest
abbrev pub refresh : Manifest → Manifest → Manifest
refresh new m = record {
  manifest_id = m.manifest_id;
  dataset = m.dataset;
  object_key = m.object_key;
  row_count = new.row_count;
  min_event_at = m.min_event_at;
  max_event_at = m.max_event_at;
  sha256 = m.sha256;
  byte_size = new.byte_size;
}

-- `INSERT INTO archive_manifests ... ON CONFLICT (object_key) DO UPDATE`, with the manifest's id
unfoldable pub upsert_manifest : Manifest → List Manifest → List Manifest × ℕ
upsert_manifest new [] = (new ∷ [], new.manifest_id)
upsert_manifest new (m ∷ ms) =
    let (rest, id) = upsert_manifest new ms in
    if str_eq m.object_key new.object_key
    then (refresh new m ∷ ms, m.manifest_id)
    else (m ∷ rest, id)

-- `UPDATE raw_post_archive_staging SET archived_at = NOW(), manifest_id = ...`
abbrev pub mark : ℕ → ℕ → (DatasetRow → Bool) → DatasetRow → DatasetRow
mark now manifest_id chosen row =
    if chosen row
    then record {
      cells = row.cells;
      event_at = row.event_at;
      staged_at = row.staged_at;
      archived_at = some now;
      manifest_id = some manifest_id;
    }
    else row

-- What is exported: the dataset with its columns, the times, the moment of the query and that of
-- the update, the names of the object and the id that a new manifest would get.
pub record Request : Type 0 where
  pub dataset : String
  pub time_column : String
  pub description : List Column
  pub start : ℕ
  pub end : ℕ
  pub stage_cutoff : ℕ
  pub now : ℕ
  pub object_prefix : String
  pub new_id : ℕ

pub record ExportResult : Type 0 where
  pub object_key : String
  pub row_count : ℕ
  pub byte_size : ℕ
  pub sha256 : String
  pub manifest_id : ℕ

-- `dataset == "raw_post_archive_staging"`
abbrev pub is_staging : Request → Bool
is_staging q = str_eq q.dataset "raw_post_archive_staging"

abbrev pub chosen : Request → DatasetRow → Bool
chosen q = is_selected (is_staging q) q.start q.end q.stage_cutoff

-- the query and the file
unfoldable pub write_dataset : Request → List DatasetRow → Written
unfolding order_rows
write_dataset q rows =
    write_parquet q.description q.time_column
      (map (λ (r : DatasetRow). r.cells) (order_rows (filter (chosen q) rows)))

-- the transaction that records the manifest
unfoldable pub record_manifest : Request → Manifest → Tables → ExportResult × Tables
unfolding upsert_manifest
record_manifest q m t =
    let (manifests, id) = upsert_manifest m t.manifests in
    (
      record {
        object_key = m.object_key;
        row_count = m.row_count;
        byte_size = m.byte_size;
        sha256 = m.sha256;
        manifest_id = id;
      },
      record {
        rows = if is_staging q then map (mark q.now id (chosen q)) t.rows else t.rows;
        manifests = manifests;
      },
    )

module _ {S : Type 0} (client : Client S) (sha256_of : List (List Cell) → String)
    (size_of : List (List Cell) → ℕ) where
  abbrev pub object_key_of : Request → Written → String
  object_key_of q w = q.object_prefix <> sha256_of w.content <> ".parquet"

  -- the upload with its checks
  unfoldable pub upload : Request → Written → Act S (Unit {0})
  unfolding check_upload
  upload q w = do
    client.upload_file (object_key_of q w) w.content (sha256_of w.content)
    head ← client.head_object (object_key_of q w)
    λ s. (check_upload (object_key_of q w) (size_of w.content) (sha256_of w.content) head, s)

  abbrev pub manifest_of : Request → Written → Manifest
  manifest_of q w = record {
    manifest_id = q.new_id;
    dataset = q.dataset;
    object_key = object_key_of q w;
    row_count = w.row_count;
    min_event_at = w.min_event;
    max_event_at = w.max_event;
    sha256 = sha256_of w.content;
    byte_size = size_of w.content;
  }

  -- The transaction. It is not sent again: when the connection is lost at the commit, the call
  -- raises, whether or not the database has committed.
  abbrev pub commit : Request → Written → Attempt → Tables → Outcome ExportResult × Tables
  commit q w commits t = let (r, t') = record_manifest q (manifest_of q w) t in (ok r, t')
  commit q w (lost_after e) t =
      let (r, t') = record_manifest q (manifest_of q w) t in (raised e, t')
  commit q w (lost_before e) t = (raised e, t)
  commit q w (fails e) t = (raised e, t)

  abbrev pub after_upload :
      Request → Written → Attempt → Tables → Outcome (Unit {0}) → Outcome ExportResult × Tables
  after_upload q w attempt t (ok _) = commit q w attempt t
  after_upload q w attempt t (raised e) = (raised e, t)
  after_upload q w attempt t cancelled = (cancelled, t)

  -- `arrived` are the rows that other transactions have committed since the query.
  unfoldable pub export_dataset :
      Request → List DatasetRow → Attempt → Tables → S → (Outcome ExportResult × Tables) × S
  unfolding upload record_manifest write_dataset
  export_dataset q arrived attempt t s =
      let w = write_dataset q t.rows in
      let t₁ : Tables = record { rows = t.rows ++ arrived; manifests = t.manifests } in
      let (o, s') = upload q w s in (after_upload q w attempt t₁ o, s')
