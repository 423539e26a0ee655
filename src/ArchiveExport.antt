-- ===== src/ArchiveExport.antt =====
-- archive-service/export.py: the months, the columns and the file of an export. The writer of Parquet
-- files, base64 and the parsing of a URL are libraries, so parameters; a file is the rows written to it.
pub mod Parquet
pub mod Months
pub mod Dataset
pub mod Marked
use social_sentiment.Outcome.{Outcome, raised, system_exit, value_error, ok}
use social_sentiment.Prelude.{
  ℕ, if◌then◌else◌, Option, Bool, String, List, [], ◌==◌, some, ltb, not, map, ◌∷◌, none, ◌++◌, suc,
  length, ◌+◌, ◌-◌, ◌||◌, str_eq, drop, zero, ◌&&◌, take, min, max,
}

-- A month of the calendar: `month` counts from 1.
pub record Month : Type 0 where
  pub year : ℕ
  pub month : ℕ

abbrev pub next_month : Month → Month
next_month m =
    if m.month == 12
    then record { year = m.year + 1; month = 1 }
    else record { year = m.year; month = m.month + 1 }

abbrev pub previous_month : Month → Month
previous_month m =
    if m.month == 1
    then record { year = m.year - 1; month = 12 }
    else record { year = m.year; month = m.month - 1 }

-- The first of the months that start and end the export: of the given month, or of the one before
-- the current month.
unfoldable pub month_bounds : Option Month → Month → Month × Month
month_bounds (some start) now = (start, next_month start)
month_bounds none now = let start = previous_month now in (start, next_month start)

-- the order of the first days of two months
abbrev pub is_later : Month → Month → Bool
is_later a b = ltb b.year a.year || ((a.year == b.year) && ltb b.month a.month)

-- the guard of `main`: `now` is the current month
unfoldable pub check_closed : Month → Month → Outcome (Unit {0})
check_closed end now =
    if is_later end now then raised (system_exit "Only closed months may be exported") else ok tt

-- What `urlparse` answers, as far as it is read.
pub record ParsedUrl : Type 0 where
  pub scheme : String
  pub netloc : String
  pub path : String

unfoldable pub s3_location :
    (String → ParsedUrl) → (String → String) → String → Outcome (String × String)
s3_location urlparse strip_slashes prefix =
    let parsed = urlparse prefix in
    if not (str_eq parsed.scheme "s3") || str_eq parsed.netloc ""
    then raised (value_error "ANALYTICS_S3_PREFIX must be an s3://bucket/prefix URL")
    else ok (parsed.netloc, strip_slashes parsed.path)

-- `b64decode` gives the bytes, or nothing where it raises.
unfoldable pub decode_sse_c_key : (String → Option (List ℕ)) → String → Outcome (List ℕ)
decode_sse_c_key b64decode encoded_key = decoded (b64decode encoded_key)
  where
    decoded : Option (List ℕ) → Outcome (List ℕ)
    decoded none = raised (value_error "ANALYTICS_SSE_C_KEY_B64 must be valid base64")
    decoded (some key) =
        if length key == 32
        then ok key
        else raised (value_error "ANALYTICS_SSE_C_KEY_B64 must decode to exactly 32 bytes")

pub data ArrowType : Type 0 where
  bool_ int64 int16 int32 float32 float64 date32 timestamp_us timestamp_utc string : ArrowType

unfoldable pub arrow_type : ℕ → ArrowType
arrow_type postgres_oid =
    if postgres_oid == 16
    then bool_
    else if postgres_oid == 20
    then int64
    else if postgres_oid == 21
    then int16
    else if postgres_oid == 23
    then int32
    else if postgres_oid == 700
    then float32
    else if postgres_oid == 701
    then float64
    else if postgres_oid == 1082
    then date32
    else if postgres_oid == 1114
    then timestamp_us
    else if postgres_oid == 1184
    then timestamp_utc
    else string

-- A value of a row: a time, a `dict`, `list` or `tuple` with what `json.dumps` makes of it, a `UUID`
-- or `Decimal` with what `str` makes of it, or another value.
pub data Cell : Type 0 where
  null : Cell
  time : ℕ → Cell
  container : String → Cell
  exact : String → Cell
  plain : String → Cell

unfoldable pub normalize_value : Cell → ArrowType → Cell
normalize_value (container json) ArrowType.string = plain json
normalize_value (exact text) ArrowType.string = plain text
normalize_value value _ = value

-- A column of the cursor's description.
pub record Column : Type 0 where
  pub name : String
  pub type_code : ℕ

abbrev pub arrow_schema : List Column → List ArrowType
arrow_schema description = map (λ (c : Column). arrow_type c.type_code) description

-- the row with its values normalized, one for each field
unfoldable pub normalize_row : List ArrowType → List Cell → List Cell
unfolding normalize_value
normalize_row (t ∷ ts) (c ∷ cs) = normalize_value c t ∷ normalize_row ts cs
normalize_row _ _ = []

-- `next(index for index, column in enumerate(...) if column.name == time_column)`
unfoldable pub column_index : String → List Column → ℕ
column_index name [] = 0
column_index name (c ∷ cs) =
    let rest = column_index name cs in if str_eq c.name name then 0 else rest + 1

-- `row[event_index]`, where it is a time
abbrev pub event_of : ℕ → List Cell → Option ℕ
event_of n [] = none
event_of zero (time t ∷ cs) = some t
event_of zero (_ ∷ cs) = none
event_of (suc n) (c ∷ cs) = event_of n cs

-- `[row[event_index] for row in rows if row[event_index] is not None]`
abbrev pub present : Option ℕ → List ℕ → List ℕ
present none ts = ts
present (some t) ts = t ∷ ts

unfoldable pub event_values : ℕ → List (List Cell) → List ℕ
event_values event_index [] = []
event_values event_index (row ∷ rows) =
    present (event_of event_index row) (event_values event_index rows)

-- `min` and `max` of the values
abbrev pub least_of : ℕ → List ℕ → ℕ
least_of n [] = n
least_of n (t ∷ ts) = least_of (min n t) ts

abbrev pub greatest_of : ℕ → List ℕ → ℕ
greatest_of n [] = n
greatest_of n (t ∷ ts) = greatest_of (max n t) ts

-- `min(event_values)`, folded into the least so far
abbrev pub merge_least : Option ℕ → List ℕ → Option ℕ
merge_least least [] = least
merge_least none (t ∷ ts) = some (least_of t ts)
merge_least (some n) (t ∷ ts) = some (min n (least_of t ts))

abbrev pub merge_greatest : Option ℕ → List ℕ → Option ℕ
merge_greatest greatest [] = greatest
merge_greatest none (t ∷ ts) = some (greatest_of t ts)
merge_greatest (some n) (t ∷ ts) = some (max n (greatest_of t ts))

-- The rows of the file, and what `_write_parquet` returns of them.
pub record Written : Type 0 where
  pub content : List (List Cell)
  pub row_count : ℕ
  pub min_event : Option ℕ
  pub max_event : Option ℕ

abbrev pub nothing_written : Written
nothing_written = record { content = []; row_count = 0; min_event = none; max_event = none }

module _ (schema : List ArrowType) (event_index : ℕ) where
  -- one turn of the loop
  unfoldable pub write_batch : Written → List (List Cell) → Written
  unfolding event_values normalize_row
  write_batch w rows =
      let times = event_values event_index rows in
      record {
        content = w.content ++ map (normalize_row schema) rows;
        row_count = w.row_count + length rows;
        min_event = merge_least w.min_event times;
        max_event = merge_greatest w.max_event times;
      }

  -- `while rows := cursor.fetchmany(batch_size)`
  unfoldable pub write_batches : ℕ → ℕ → List (List Cell) → Written → Written
  unfolding write_batch
  write_batches zero batch_size rows w = w
  write_batches (suc fuel) batch_size [] w = w
  write_batches (suc fuel) batch_size (row ∷ rows) w =
      write_batches fuel batch_size (drop batch_size (row ∷ rows))
        (write_batch w (take batch_size (row ∷ rows)))

-- `BATCH_SIZE`, and as many turns as there are rows
abbrev pub batch_size : ℕ
batch_size = 10000

unfoldable pub write_parquet : List Column → String → List (List Cell) → Written
unfolding write_batches column_index
write_parquet description time_column rows =
    write_batches (arrow_schema description) (column_index time_column description) (length rows)
      batch_size rows nothing_written
