-- ===== src/Examples/Exports.antt =====
-- The theorems on the archive export at a concrete store.
use social_sentiment.Database.{commits, lost_after}
use social_sentiment.GlobalEvents.{◌>>=◌}
use social_sentiment.ArchiveExport.Dataset.{
  Tables, Client, Request, ExportResult, export_dataset, DatasetRow, write_dataset, upload, Head,
  record_manifest, mark, chosen, order_rows, object_key_of,
}
use social_sentiment.Prelude.{
  Dict, List, Option, ℕ, ◌∷◌, String, [], insert, none, length, some, lookup, ◌≡◌, ◌++◌, ◌↔◌, map,
  true, refl, arith, filter, ◌⊎◌,
}
use social_sentiment.ArchiveExport.{
  time, Month, check_closed, Cell, Column, plain, month_bounds, write_parquet, event_values,
  column_index, is_later, normalize_row, arrow_schema, merge_least, merge_greatest,
}
use social_sentiment.Outcome.{ok, Outcome, raised}
use social_sentiment.Examples.{failure}
use social_sentiment.ArchiveExport.Marked.{Confirmed, export_dataset-raised, export_dataset-marked}
use social_sentiment.ArchiveExport.Months.{check_closed_exact}
use social_sentiment.ArchiveExport.Parquet.{write_parquet_whole}

-- a store that keeps the objects by their keys
abbrev Objects : Type 0
Objects = Dict (List (List Cell))

abbrev sum_of : List (List Cell) → String
sum_of content = "5f1d"

abbrev head_of : Option (List (List Cell)) → Outcome Head
head_of none = raised failure
head_of (some content) =
    ok (record { content_length = length content; sha256 = some (sum_of content) })

abbrev store : Client Objects
store = record {
  upload_file = λ key content sum s. (ok tt, insert key content s);
  head_object = λ key s. (head_of (lookup key s), s);
}

abbrev staged_row : ℕ → ℕ → String → DatasetRow
staged_row event_at staged_at text = record {
  cells = time event_at ∷ plain text ∷ [];
  event_at = event_at;
  staged_at = staged_at;
  archived_at = none;
  manifest_id = none;
}

abbrev columns : List Column
columns =
    record { name = "event_at"; type_code = 1184 } ∷ record { name = "text"; type_code = 25 } ∷ []

abbrev request : Request
request = record {
  dataset = "raw_post_archive_staging";
  time_column = "event_at";
  description = columns;
  start = 10;
  end = 20;
  stage_cutoff = 100;
  now = 110;
  object_prefix = "raw/part-";
  new_id = 1;
}

abbrev tables : Tables
tables = record {
  rows = staged_row 15 50 "up" ∷ staged_row 12 60 "down" ∷ staged_row 25 60 "later" ∷ [];
  manifests = [];
}

abbrev arrived : List DatasetRow
arrived = staged_row 13 105 "new" ∷ []

abbrev result : ExportResult
result = record {
  object_key = "raw/part-5f1d.parquet";
  row_count = 2;
  byte_size = 2;
  sha256 = "5f1d";
  manifest_id = 1;
}

export_dataset-marked_example :
    let content = (write_dataset request tables.rows).content in
    let rows = tables.rows ++ arrived in
    Confirmed store sum_of length result.object_key content
    × ((export_dataset store sum_of length request arrived commits tables []).0.1.rows
        ≡ map (mark 110 1 (chosen request)) rows)
    × (content
        ≡ map
            (normalize_row (arrow_schema columns))
            (map (λ (x : DatasetRow). x.cells) (order_rows (filter (chosen request) rows))))
    × (2 ≡ length (filter (chosen request) rows))
unfolding export_dataset write_dataset write_parquet record_manifest upload ◌>>=◌
export_dataset-marked_example =
    export_dataset-marked store sum_of length request arrived commits tables [] result refl
      (omega arith, tt) refl

export_dataset-raised_example :
    let content = (write_dataset request tables.rows).content in
    let rows = tables.rows ++ arrived in
    let left =
      (export_dataset store sum_of length request arrived (lost_after failure) tables []).0.1 in
    (left ≡ record { rows = rows; manifests = [] })
    ⊎ ((lost_after failure ≡ lost_after failure)
        × Confirmed store sum_of length
            (object_key_of store sum_of length request (write_dataset request tables.rows))
            content
        × ((manifest_id : ℕ) × (left.rows ≡ map (mark 110 manifest_id (chosen request)) rows))
        × (content
            ≡ map
                (normalize_row (arrow_schema columns))
                (map (λ (x : DatasetRow). x.cells) (order_rows (filter (chosen request) rows)))))
unfolding export_dataset write_dataset write_parquet record_manifest upload ◌>>=◌
export_dataset-raised_example =
    export_dataset-raised store sum_of length request arrived (lost_after failure) tables [] failure
      refl (omega arith, tt) refl

write_parquet_whole_example :
    let rows = (time 15 ∷ plain "up" ∷ []) ∷ (time 12 ∷ plain "down" ∷ []) ∷ [] in
    let w = write_parquet columns "event_at" rows in
    let times = event_values (column_index "event_at" columns) rows in
    (w.content ≡ map (normalize_row (arrow_schema columns)) rows)
    × (w.row_count ≡ 2)
    × (w.min_event ≡ merge_least none times)
    × (w.max_event ≡ merge_greatest none times)
write_parquet_whole_example =
    write_parquet_whole columns "event_at"
      ((time 15 ∷ plain "up" ∷ []) ∷ (time 12 ∷ plain "down" ∷ []) ∷ [])

abbrev january : Month
january = record { year = 2026; month = 1 }

abbrev december : Month
december = record { year = 2025; month = 12 }

check_closed_exact_example :
    ((check_closed (month_bounds (some december) january).1 january ≡ ok tt)
      ↔ (is_later january december ≡ true))
    × ((month_bounds none january).1 ≡ january)
    × (check_closed (month_bounds none january).1 january ≡ ok tt)
check_closed_exact_example =
    check_closed_exact december january (omega arith, omega arith, omega arith)
      (omega arith, omega arith, omega arith)
