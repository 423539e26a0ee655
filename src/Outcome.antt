-- ===== src/Outcome.antt =====
-- What a Python call ends with: a value, an `Exception`, or `asyncio.CancelledError`, which
-- `except Exception` does not catch.
use social_sentiment.Prelude.{ℕ, ◌<>◌, String, Bool, true, false, List, length, decimal}

-- The classes of exceptions that some handler of the program tells apart.
pub data ErrorKind : Type 0 where
  data_failure integrity_failure validation_failure runtime_failure other_failure : ErrorKind
  -- the tags of the deliveries that failed, and the number of attempts
  requeue_failure : List ℕ → ℕ → ErrorKind

-- `type(error).__name__` and `str(error)` beside the class.
pub record Error : Type 0 where
  pub kind : ErrorKind
  pub type_name : String
  pub text : String

abbrev pub validation_error : String → Error
validation_error text = record {
  kind = ErrorKind.validation_failure;
  type_name = "ValidationError";
  text = text;
}

abbrev pub runtime_error : String → Error
runtime_error text = record {
  kind = ErrorKind.runtime_failure;
  type_name = "RuntimeError";
  text = text;
}

pub requeue_error : List ℕ → ℕ → Error
unfolding decimal
requeue_error failures attempted_count = record {
  kind = ErrorKind.requeue_failure failures attempted_count;
  type_name = "RequeueError";
  text =
      "failed to requeue "
      <> decimal (length failures)
      <> " of "
      <> decimal attempted_count
      <> " unprocessed RabbitMQ messages";
}

-- `except (psycopg.DataError, psycopg.IntegrityError)`
abbrev pub is_permanent_post_error : ErrorKind → Bool
is_permanent_post_error ErrorKind.data_failure = true
is_permanent_post_error ErrorKind.integrity_failure = true
is_permanent_post_error _ = false

-- `except RequeueError`
abbrev pub is_requeue_error : ErrorKind → Bool
is_requeue_error (ErrorKind.requeue_failure _ _) = true
is_requeue_error _ = false

pub data Outcome {ℓ} (A : Type ℓ) : Type ℓ where
  ok : A → Outcome A
  raised : Error → Outcome A
  cancelled : Outcome A

abbrev pub value_error : String → Error
value_error text = record { kind = ErrorKind.other_failure; type_name = "ValueError"; text = text }

abbrev pub zero_division_error : Error
zero_division_error = record {
  kind = ErrorKind.other_failure;
  type_name = "ZeroDivisionError";
  text = "float division by zero";
}

abbrev pub system_exit : String → Error
system_exit text = record { kind = ErrorKind.other_failure; type_name = "SystemExit"; text = text }
