-- ===== src/Messaging.antt =====
-- shared/messaging.py: the delivery policy of the consumers.
pub mod Retry
pub mod Requeue
pub mod Settles
use social_sentiment.Prelude.{
  ℕ, ◌+◌, ◌<>◌, String, Bool, true, false, Option, none, some, List, [], ◌∷◌, ◌++◌, map, Dict,
  lookup, update, get_or, is_blank, slice_to, if◌then◌else◌,
}
use social_sentiment.Prelude.Int.{ℤ, pos, negsuc, ◌+ℤ◌, leb_ℤ}
use social_sentiment.Outcome.{Error, ErrorKind, requeue_error}
use social_sentiment.Broker.{
  HeaderValue, number, text, Headers, Message, Publication, publish, ack, nack, Broker, Exec, pure,
  raise, catch, ◌>>=◌, ◌>>◌, perform, History,
}

abbrev pub processing_attempt_header : String
processing_attempt_header = "x-processing-attempt"

abbrev pub dead_letter_queue_name : String → String
dead_letter_queue_name input_queue = input_queue <> ".dead-letter"

-- `dict(message.headers or {})`
abbrev pub headers_of : Message → Headers
headers_of message = get_or message.headers []

-- `message.content_type or "application/json"`
abbrev content_type_of : Option String → String
content_type_of none = "application/json"
content_type_of (some t) = if is_blank t then "application/json" else t

-- The copy of a message that goes to a queue under new headers.
abbrev pub copy_to : String → Headers → Message → Publication
copy_to queue headers message = record {
  routing_key = queue;
  body = message.body;
  content_type = some (content_type_of message.content_type);
  persistent = true;
  headers = headers;
}

abbrev pub dead_letter_headers : Message → String → Error → Headers
dead_letter_headers message input_queue error = update (headers_of message) (
    ("x-original-queue", text input_queue)
    ∷ ("x-error-type", text error.type_name)
    ∷ ("x-error", text (slice_to 500 error.text))
    ∷ [])

abbrev pub retry_headers : Message → ℤ → Error → Headers
retry_headers message processing_attempt error = update (headers_of message) (
    (processing_attempt_header, number (processing_attempt +ℤ pos 1))
    ∷ ("x-last-error-type", text error.type_name)
    ∷ ("x-last-error", text (slice_to 500 error.text))
    ∷ [])

pub data Disposition : Type 0 where
  dead_lettered requeued : Disposition

-- The counts of the loop of `requeue_unprocessed_messages`.
pub record Tally : Type 0 where
  pub attempted_count : ℕ
  pub requeued_count : ℕ
  pub failures : List ℕ

abbrev pub no_tally : Tally
no_tally = record { attempted_count = 0; requeued_count = 0; failures = [] }

-- `int(headers.get(PROCESSING_ATTEMPT_HEADER, 0))`, and 0 where `int` raises
unfoldable pub attempt_of : (String → Option ℤ) → Option HeaderValue → ℤ
attempt_of int_of_text none = pos 0
attempt_of int_of_text (some (number n)) = n
attempt_of int_of_text (some (text t)) = get_or (int_of_text t) (pos 0)

-- `if failures: raise RequeueError(failures, attempted_count)`, and the count of what was requeued
unfoldable pub finish : ℕ → ℕ → List ℕ → Exec ℕ
finish attempted count [] = pure count
finish attempted count (tag ∷ tags) = raise (requeue_error (tag ∷ tags) attempted)

unfoldable pub report : Tally → Exec ℕ
unfolding finish
report t = finish t.attempted_count t.requeued_count t.failures

module _ (b : Broker) where
  pub dead_letter_message : Message → String → Error → Exec (Unit {0})
  dead_letter_message message input_queue error = do
    perform b (
        publish (
          copy_to (dead_letter_queue_name input_queue)
            (dead_letter_headers message input_queue error) message))
    perform b (ack message)
    pure tt

  unfoldable pub processing_attempt : Message → ℤ
  unfolding attempt_of
  processing_attempt message =
      attempt_of b.int_of_text (lookup processing_attempt_header (headers_of message))

  -- the retry copy, and then the acknowledgement of the original
  resend : Message → String → Error → Exec (Unit {0})
  resend message input_queue error = do
    perform b (
        publish
          (copy_to input_queue (retry_headers message (processing_attempt message) error) message))
    perform b (ack message)
    pure tt

  pub retry_or_dead_letter : Message → String → Error → Exec Disposition
  unfolding resend
  retry_or_dead_letter message input_queue error =
      if leb_ℤ (pos 1) (processing_attempt message)
      then (do dead_letter_message message input_queue error; pure dead_lettered)
      else (do resend message input_queue error; pure requeued)

  unfoldable pub requeue_unprocessed : Message → Exec (Unit {0})
  requeue_unprocessed message h =
      if b.processed h message.tag then pure tt h else (do perform b (nack message); pure tt) h

  -- one round of the loop of `requeue_unprocessed_messages`
  unfoldable pub requeue_one : Tally → Message → Exec Tally
  unfolding requeue_unprocessed
  requeue_one t message h =
      if b.processed h message.tag
      then pure t h
      else catch
          (do
            requeue_unprocessed message
            pure (record t {
              attempted_count = t.attempted_count + 1;
              requeued_count = t.requeued_count + 1;
            }))
          (λ error. pure (record t {
            attempted_count = t.attempted_count + 1;
            failures = t.failures ++ message.tag ∷ [];
          }))
          h

  unfoldable pub requeue_each : Tally → List Message → Exec Tally
  requeue_each t [] = pure t
  requeue_each t (message ∷ messages) = do t' ← requeue_one t message; requeue_each t' messages

  unfoldable pub requeue_unprocessed_messages : List Message → Exec ℕ
  unfolding requeue_each requeue_one report
  requeue_unprocessed_messages messages = do t ← requeue_each no_tally messages; report t

  -- Draining the local queue takes every buffered item before any disposition is tried. What is
  -- left of the queue comes back beside the action.
  unfoldable pub requeue_buffered_messages :
      {P : Type 0} → List (Message × P) → Exec ℕ × List (Message × P)
  requeue_buffered_messages queue = (requeue_unprocessed_messages (map (λ item. item.0) queue), [])
