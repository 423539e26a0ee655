-- ===== src/Messaging/Retry.antt =====
-- About the retry of a message, its copies and its acknowledgement.
use social_sentiment.Prelude.{String, ◌≡◌, refl, ◌⊎◌, inl, inr, some, arith, lookup-insert, true}
use social_sentiment.Prelude.Int.{ℤ, pos, +ℤ_parts, ◌+ℤ◌, ◌≤ℤ◌, leb_ℤ}
use social_sentiment.Outcome.{Error}
use social_sentiment.Broker.{
  Headers, Message, Publication, Call, publish, ack, nack, insert_scored, History, Broker, ◌>>=◌,
  perform, pure,
}
use social_sentiment.Broker.Traces.{AcksCovered}
use social_sentiment.Messaging.{
  dead_letter_queue_name, copy_to, dead_letter_headers, retry_headers, processing_attempt,
  dead_letter_message, resend, retry_or_dead_letter, dead_lettered, requeue_unprocessed,
}
use social_sentiment.Broker.Triples.{Triple, Any, Triple-keeps}

-- The call publishes the message's body to its input queue or to the dead-letter queue.
abbrev pub IsCopy : String → Message → Call → Type 0
IsCopy q m (publish p) =
    (p.body ≡ m.body) × ((p.routing_key ≡ q) ⊎ (p.routing_key ≡ dead_letter_queue_name q))
IsCopy q m (ack _) = ⊥
IsCopy q m (nack _) = ⊥
IsCopy q m (insert_scored _) = ⊥

module _ (b : Broker) (Q : Message → Call → Type 0) (message : Message) (input_queue : String)
    (covers : (c : Call) → IsCopy input_queue message c → Q message c) where
  pub dead_letter-AcksCovered :
      (error : Error) (h : History)
      → AcksCovered Q h
      → AcksCovered Q (dead_letter_message b message input_queue error h).1
  unfolding dead_letter_message ◌>>=◌ perform
  dead_letter-AcksCovered error h covered =
      let queue : String = dead_letter_queue_name input_queue in
      let copy : Publication =
        copy_to queue (dead_letter_headers message input_queue error) message in
      ground (arith, covers (publish copy) (refl, inr refl))

  resend-AcksCovered :
      (error : Error) (h : History)
      → AcksCovered Q h
      → AcksCovered Q (resend b message input_queue error h).1
  unfolding resend ◌>>=◌ perform
  resend-AcksCovered error h covered =
      let headers : Headers = retry_headers message (processing_attempt b message) error in
      ground (arith, covers (publish (copy_to input_queue headers message)) (refl, inl refl))

  -- When every acknowledgement so far was covered, it stays so, whatever the broker answers: the
  -- failed message is acknowledged only after a copy of its body was confirmed, in the input
  -- queue or in the dead-letter queue.
  pub retry-AcksCovered :
      (error : Error) (h : History)
      → AcksCovered Q h
      → AcksCovered Q (retry_or_dead_letter b message input_queue error h).1
  unfolding retry_or_dead_letter ◌>>=◌
  retry-AcksCovered error h covered =
      ground (arith, dead_letter-AcksCovered error h, resend-AcksCovered error h)

  pub dead_letter-Triple :
      (error : Error) {E : History → Type 0}
      → Triple (AcksCovered Q) E (dead_letter_message b message input_queue error) Any
  dead_letter-Triple error = Triple-keeps _ (dead_letter-AcksCovered error)

  pub retry-Triple :
      (error : Error) {E : History → Type 0}
      → Triple (AcksCovered Q) E (retry_or_dead_letter b message input_queue error) Any
  retry-Triple error = Triple-keeps _ (retry-AcksCovered error)

-- A negative acknowledgement needs no cover.
pub requeue_unprocessed-Triple :
    (b : Broker) (Q : Message → Call → Type 0) (message : Message) {E : History → Type 0}
    → Triple (AcksCovered Q) E (requeue_unprocessed b message) Any
unfolding requeue_unprocessed ◌>>=◌ perform
requeue_unprocessed-Triple b Q message = Triple-keeps _ (λ h covered. ground arith)

-- The copy that a retry publishes counts one attempt more than the message.
pub processing_attempt-retry :
    (b : Broker) (message copy : Message) (error : Error)
    → copy.headers ≡ some (retry_headers message (processing_attempt b message) error)
    → processing_attempt b copy ≡ processing_attempt b message +ℤ pos 1
unfolding processing_attempt
processing_attempt-retry b message copy error h = rw h (simp lookup-insert)

counted_once : (a c : ℤ) → pos 0 ≤ℤ a → c ≡ a +ℤ pos 1 → leb_ℤ (pos 1) c ≡ true
counted_once a c h e = ground (arith, +ℤ_parts a (pos 1))

-- The copy that a retry makes of a message with no negative count of attempts is not retried
-- again: it goes to the dead-letter queue, whatever the second failure is.
pub retried_once :
    (b : Broker) (message copy : Message) (input_queue : String) (first second : Error)
    (h : History)
    → pos 0 ≤ℤ processing_attempt b message
    → copy.headers ≡ some (retry_headers message (processing_attempt b message) first)
    → retry_or_dead_letter b copy input_queue second h
      ≡ (dead_letter_message b copy input_queue second >>= λ _. pure dead_lettered) h
unfolding retry_or_dead_letter
retried_once b message copy input_queue first second h fresh copied =
    let counted : processing_attempt b copy ≡ processing_attempt b message +ℤ pos 1 =
      processing_attempt-retry b message copy first copied in
    rw (counted_once (processing_attempt b message) (processing_attempt b copy) fresh counted)
