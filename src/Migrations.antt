-- ===== src/Migrations.antt =====
-- storage-service/schema_migrations.py: the versioned scripts of the database schema. What a script
-- does is the database's: a parameter tells whether it runs, on which attempt.
pub mod Idempotent
use social_sentiment.Outcome.{Outcome, ok, raised, cancelled, Error, ErrorKind, runtime_error}
use social_sentiment.Prelude.{
  ℕ, String, Dict, List, insert, Bool, ◌∷◌, [], ◌<>◌, Option, any, if◌then◌else◌, lookup, suc,
  str_eq, some, ◌+◌, zero, none,
}

abbrev pub schema_apply_retries : ℕ
schema_apply_retries = 5

-- A version with the content of its file.
pub record Migration : Type 0 where
  pub version : String
  pub sql : String

pub record Prepared : Type 0 where
  pub version : String
  pub sql : String
  pub checksum : String

-- The table `schema_migrations`, and the scripts that were run, latest first.
pub record Schema : Type 0 where
  pub table : Dict String
  pub scripts : List String

-- What a statement raises: `DeadlockDetected` or `LockNotAvailable`, or any other error.
pub data SqlError : Type 0 where
  blocked failing : Error → SqlError

abbrev is_member : String → List String → Bool
is_member v vs = any (str_eq v) vs

-- The loop over the migrations; `versions` are those seen. The checksum is a hash of the content.
pub prepare_from : (String → String) → List String → List Migration → Outcome (List Prepared)
prepare_from hash versions [] = ok []
prepare_from hash versions (m ∷ ms) =
    let rest = prepare_from hash (m.version ∷ versions) ms in
    if is_member m.version versions
    then raised (record {
      kind = ErrorKind.other_failure;
      type_name = "ValueError";
      text = "Duplicate migration version: " <> m.version;
    })
    else elim rest [
      | ok ps ↦ ok (record { version = m.version; sql = m.sql; checksum = hash m.sql } ∷ ps)
      | raised e ↦ raised e
      | cancelled ↦ cancelled
    ]

pub prepare_migrations : (String → String) → List Migration → Outcome (List Prepared)
unfolding prepare_from
prepare_migrations hash migrations = prepare_from hash [] migrations

abbrev pub checksum_mismatch : String → Error
checksum_mismatch version = record {
  kind = ErrorKind.other_failure;
  type_name = "MigrationChecksumMismatch";
  text =
      "Applied migration " <> version
      <> " has changed; add a new migration instead of editing applied SQL";
}

-- How one attempt ends: with the versions applied now, or with an error.
pub data Attempt : Type 0 where
  applied : List String → Attempt
  stopped : SqlError → Attempt

abbrev prepend : String → Attempt → Attempt
prepend version (applied versions) = applied (version ∷ versions)
prepend version (stopped e) = stopped e

-- the script and the record of its version, in one transaction
abbrev pub commit : Prepared → Schema → Schema
commit p s = record { table = insert p.version p.checksum s.table; scripts = p.sql ∷ s.scripts }

module _ (run : Schema → String → Option SqlError) where
  -- one round for each migration; `recorded` is the table as it was read before the loop
  unfoldable pub apply_each : Dict String → List Prepared → Schema → Attempt × Schema
  apply_each recorded [] s = (applied [], s)
  apply_each recorded (p ∷ ps) s = elim (lookup p.version recorded) [
    | some checksum ↦
        if str_eq checksum p.checksum
        then apply_each recorded ps s
        else (stopped (failing (checksum_mismatch p.version)), s)
    | none ↦ elim (run s p.sql) [
      | some e ↦ (stopped e, s)
      | none ↦ let (a, s') = apply_each recorded ps (commit p s) in (prepend p.version a, s')
    ]
  ]

  unfoldable pub apply_pending_migrations : List Prepared → Schema → Attempt × Schema
  unfolding apply_each
  apply_pending_migrations prepared s = apply_each s.table prepared s

-- The attempts that are left after one that ended so: only lock contention is tried again.
module _ (run : ℕ → Schema → String → Option SqlError) (prepared : List Prepared) where
  pub attempts : ℕ → ℕ → Error → Schema → Outcome (List String) × Schema
  unfolding apply_pending_migrations
  attempts zero attempt last_error s = (raised last_error, s)
  attempts (suc left) attempt last_error s =
      let (a, s') = apply_pending_migrations (run attempt) prepared s in
      elim a [
        | applied versions ↦ (ok versions, s')
        | stopped (failing e) ↦ (raised e, s')
        | stopped (blocked e) ↦ attempts left (attempt + 1) e s'
      ]

  abbrev try_all : Schema → Outcome (List String) × Schema
  try_all s =
      attempts schema_apply_retries 1 (runtime_error "Schema migration failed without an exception")
        s

pub apply_migrations :
    (String → String)
    → (ℕ → Schema → String → Option SqlError)
    → List Migration
    → Schema
    → Outcome (List String) × Schema
unfolding prepare_migrations attempts
apply_migrations hash run migrations s = elim (prepare_migrations hash migrations) [
  | ok prepared ↦ try_all run prepared s
  | raised e ↦ (raised e, s)
  | cancelled ↦ (cancelled, s)
]
