-- ===== src/Preprocessing.antt =====
-- preprocessing-service/main.py: one raw post becomes a clean post, or is dropped or disposed of.
pub mod Delivery
use Prim.Native.Char.{Char}
use social_sentiment.Prelude.{
  ℕ, String, Option, none, some, List, chars, text_of, true, [], if◌then◌else◌, inl, inr, ◌⊎◌,
}
use social_sentiment.Schemas.{RawPost, CleanPost}
use social_sentiment.Outcome.{Outcome, ok, raised, cancelled, Error, validation_error}
use social_sentiment.Broker.{
  Message, Publication, publish, ack, Broker, History, Exec, pure, lift, try_except, perform, ◌>>=◌,
  ◌>>◌,
}
use social_sentiment.Messaging.{
  Disposition, dead_letter_message, retry_or_dead_letter, requeue_unprocessed,
}
use social_sentiment.Text.{Characters, clean_text, is_valid}
use social_sentiment.Prelude.Int.{ℤ}

-- What `process_message` uses of other code: the schema library, the topic model, the clock, and
-- the names of its queues.
pub record Services : Type 0 where
  pub broker : Broker
  pub characters : Characters
  pub input_queue : String
  pub output_queue : String
  -- `RawPost.model_validate_json`; `none` is a `ValidationError`, whose text follows
  pub decode : String → Option RawPost
  pub validation_text : String → String
  -- `CleanPost.model_dump_json`
  pub encode : CleanPost → String
  -- `topic_model.predict` in a thread
  pub predict : History → String → Outcome (ℤ × String)
  pub version : String
  pub model_hash : String
  -- the clock: the n-th reading after the history
  pub now : History → ℕ → ℕ

-- How a message ends when no exception escapes.
pub data Handled : Type 0 where
  malformed dropped forwarded : Handled
  failed : Disposition → Handled

-- How the body of the `try` ends: with an early return, or at its end.
data Step : Type 0 where
  returned published : Step

module _ (s : Services) where
  abbrev pub cleaned_text : RawPost → List Char
  cleaned_text raw = clean_text s.characters (chars raw.text)

  abbrev pub clean_post : RawPost → ℤ × String → ℕ → ℕ → CleanPost
  clean_post raw (topic_id, topic_label) cleaned_at topic_scored_at = record {
    id = raw.id;
    symbol = raw.symbol;
    platform = raw.platform;
    text = text_of (cleaned_text raw);
    timestamp = raw.timestamp;
    topic_id = some topic_id;
    topic_label = some topic_label;
    engagement = raw.engagement;
    ingested_at = raw.ingested_at;
    engagement_observed_at = raw.engagement_observed_at;
    source_schema_version = raw.source_schema_version;
    pipeline_git_commit = raw.pipeline_git_commit;
    cleaned_at = cleaned_at;
    topic_scored_at = topic_scored_at;
    topic_model_version = s.version;
    topic_model_hash = s.model_hash;
  }

  abbrev pub clean_publication : CleanPost → Publication
  clean_publication clean = record {
    routing_key = s.output_queue;
    body = s.encode clean;
    content_type = none;
    persistent = true;
    headers = [];
  }

  -- from `CleanPost(...)` to the end of the `try`
  send : RawPost → ℤ × String → Exec Step
  send raw topic h =
      let clean = clean_post raw topic (s.now h 0) (s.now h 1) in
      (do perform s.broker (publish (clean_publication clean)); pure published) h

  -- the body of the `try`
  forward : RawPost → Message → Exec Step
  unfolding send
  forward raw message =
      if is_valid (cleaned_text raw)
      then (do topic ← (λ h. (s.predict h (text_of (cleaned_text raw)), h)); send raw topic)
      else (do perform s.broker (ack message); pure returned)

  -- what follows the `try`, or its `return`
  conclude : Message → Step ⊎ Disposition → Exec Handled
  conclude message (inl returned) = pure dropped
  conclude message (inl published) = do perform s.broker (ack message); pure forwarded
  conclude message (inr disposition) = pure (failed disposition)

  process_valid : RawPost → Message → Exec Handled
  unfolding forward conclude
  process_valid raw message = do
    ended ←
        try_except (do step ← forward raw message; pure (inl step))
          (requeue_unprocessed s.broker message)
          (λ e. do
            disposition ← retry_or_dead_letter s.broker message s.input_queue e
            pure (inr disposition))
    conclude message ended

  process_decoded : Message → Option RawPost → Exec Handled
  unfolding process_valid
  process_decoded message none = do
    dead_letter_message s.broker message s.input_queue
        (validation_error (s.validation_text message.body))
    pure malformed
  process_decoded message (some raw) = process_valid raw message

  pub process_message : Message → Exec Handled
  unfolding process_decoded
  process_message message = process_decoded message (s.decode message.body)
