-- ===== src/Session.antt =====
-- One consumer session of the sentiment service or of the storage service: `consume_input_messages`
-- and `run_consumer_session`, with the local queue as a list, oldest first.
pub mod Shutdown
use social_sentiment.Broker.{Broker, Message, History, Exec, pure, raise, lift, ◌>>=◌, ◌>>◌}
use social_sentiment.Outcome.{
  Outcome, ok, raised, cancelled, Error, validation_error, is_requeue_error,
}
use social_sentiment.Messaging.{dead_letter_message, requeue_buffered_messages}
use social_sentiment.Prelude.{List, String, ℕ, Option, if◌then◌else◌, some, ◌∷◌, [], ◌++◌, none}

abbrev pub Queue : Type 0 → Type 0
Queue P = List (Message × P)

module _ {P : Type 0} (b : Broker) (input_queue : String) (decode : String → Option P)
    (validation_text : String → String) where
  -- one round of the loop: what is put in the queue, if anything
  consume_decoded : Message → Option P → Exec (Queue P)
  consume_decoded message (some post) = pure ((message, post) ∷ [])
  consume_decoded message none = do
    dead_letter_message b message input_queue (validation_error (validation_text message.body))
    pure []

  -- The queue is shared with the worker, so it keeps what was put even when the loop ends early.
  pub consume_input_messages :
      Queue P → List Message → History → (Outcome (Unit {0}) × Queue P) × History
  unfolding consume_decoded
  consume_input_messages queue [] h = ((ok tt, queue), h)
  consume_input_messages queue (message ∷ messages) h =
      let (o, h') = consume_decoded message (decode message.body) h in
      elim o [
        | ok put ↦ consume_input_messages (queue ++ put) messages h'
        | raised e ↦ ((raised e, queue), h')
        | cancelled ↦ ((cancelled, queue), h')
      ]

-- after `requeue_buffered_messages` in the handler of a cancellation
after_cancel : Outcome ℕ → Outcome (Unit {0})
after_cancel (raised e) = if is_requeue_error e.kind then cancelled else raised e
after_cancel _ = cancelled

-- `raise requeue_error from session_error`, and else the bare `raise`
unfoldable pub after_failure : Error → Outcome ℕ → Outcome (Unit {0})
after_failure session_error (ok n) = raised session_error
after_failure session_error (raised e) = raised e
after_failure session_error cancelled = cancelled

module _ {P : Type 0} (b : Broker) where
  -- what `run_consumer_session` does with the end of its tasks, and the queue they leave
  unfoldable pub end_session : Outcome (Unit {0}) → Queue P → Exec (Unit {0})
  unfolding after_cancel after_failure
  end_session (ok x) queue h = (ok tt, h)
  end_session (raised e) queue h =
      let (o, h') = (requeue_buffered_messages b queue).0 h in (after_failure e o, h')
  end_session cancelled queue h =
      let (o, h') = (requeue_buffered_messages b queue).0 h in (after_cancel o, h')
