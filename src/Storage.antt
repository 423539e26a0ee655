-- ===== src/Storage.antt =====
-- storage-service/main.py: scored posts are written to the database in batches.
pub mod Delivery
pub mod Settles
use social_sentiment.Prelude.{
  ℕ, ◌+◌, List, [], ◌∷◌, length, zip, true, false, String, ◌⊎◌, inl, if◌then◌else◌, inr,
}
use social_sentiment.Schemas.{ScoredPost}
use social_sentiment.Outcome.{Outcome, ok, raised, cancelled, Error, is_permanent_post_error}
use social_sentiment.Broker.{
  Message, insert_scored, ack, Broker, History, Exec, pure, perform, ◌>>=◌, ◌>>◌, catch, raise,
}
use social_sentiment.Messaging.{dead_letter_message, requeue_unprocessed_messages}
use social_sentiment.Worker.{Worker, Turn, run_turns}

abbrev pub batch_size : ℕ
batch_size = 100

pub record BatchWriteResult : Type 0 where
  pub stored_messages : ℕ
  pub affected_rows : ℕ
  pub dead_lettered_messages : ℕ

abbrev pub nothing_written : BatchWriteResult
nothing_written = record { stored_messages = 0; affected_rows = 0; dead_lettered_messages = 0 }

module _ (b : Broker) (input_queue : String) where
  -- `except PERMANENT_POST_ERRORS` around one insert: its number of rows, or the error caught
  unfoldable pub insert_batch : List ScoredPost → Exec (ℕ ⊎ Error)
  insert_batch posts =
      catch (do rows ← perform b (insert_scored posts); pure (inl rows))
        λ e. if is_permanent_post_error e.kind then pure (inr e) else raise e

  -- one round of `_persist_scored_individually`, behind its insert
  persist_one : BatchWriteResult → Message → ℕ ⊎ Error → Exec BatchWriteResult
  persist_one r message (inl rows) = do
    perform b (ack message)
    pure (record r {
      stored_messages = r.stored_messages + 1;
      affected_rows = r.affected_rows + rows;
    })
  persist_one r message (inr e) = do
    dead_letter_message b message input_queue e
    pure (record r { dead_lettered_messages = r.dead_lettered_messages + 1 })

  persist_each : BatchWriteResult → List (ScoredPost × Message) → Exec BatchWriteResult
  unfolding persist_one insert_batch
  persist_each r [] = pure r
  persist_each r ((post, message) ∷ rest) = do
    inserted ← insert_batch (post ∷ [])
    r' ← persist_one r message inserted
    persist_each r' rest

  pub persist_scored_individually : List ScoredPost → List Message → Exec BatchWriteResult
  unfolding persist_each
  persist_scored_individually posts messages = persist_each nothing_written (zip posts messages)

  unfoldable pub ack_each : List Message → Exec (Unit {0})
  ack_each [] = pure tt
  ack_each (message ∷ messages) = do perform b (ack message); ack_each messages

  unfoldable pub after_insert : List ScoredPost → List Message → ℕ ⊎ Error → Exec BatchWriteResult
  unfolding ack_each persist_scored_individually
  after_insert posts messages (inl rows) = do
    ack_each messages
    pure (record {
      stored_messages = length posts;
      affected_rows = rows;
      dead_lettered_messages = 0;
    })
  after_insert posts messages (inr e) = persist_scored_individually posts messages

  unfoldable pub persist_scored_batch : List ScoredPost → List Message → Exec BatchWriteResult
  unfolding insert_batch after_insert
  persist_scored_batch posts messages = do
    inserted ← insert_batch posts
    after_insert posts messages inserted

  -- the flush of `db_writer_worker`: an exception puts the batch back, and the worker goes on
  pub flush : List ScoredPost → List Message → Exec (Unit {0})
  unfolding persist_scored_batch
  flush posts messages =
      catch (do persist_scored_batch posts messages; pure tt)
        λ e. do requeue_unprocessed_messages b messages; pure tt

  unfoldable pub db_writer_worker :
      Worker ScoredPost → List (Turn ScoredPost) → Exec (Worker ScoredPost)
  unfolding flush
  db_writer_worker = run_turns b batch_size flush
