-- ===== src/Storage/Settles.antt =====
-- About the messages of a batch that is persisted.
use social_sentiment.Broker.{Broker, Message, IsFaithful, History, pure, raise}
use social_sentiment.Prelude.{String, List, ℕ, ◌+◌, ◌⊎◌, ◌≡◌, length, zip, inl, arith, inr, [], ◌∷◌}
use social_sentiment.Storage.{
  insert_batch, BatchWriteResult, persist_one, persist_each, ack_each, after_insert,
  persist_scored_batch, flush, db_writer_worker, persist_scored_individually, nothing_written,
  batch_size,
}
use social_sentiment.Schemas.{ScoredPost}
use social_sentiment.Outcome.{Error, is_permanent_post_error, ok}
use social_sentiment.Broker.Triples.{
  Triple, Any, Triple-catch, Triple-bind, Triple-pure, Triple-if, Triple-raise, Anything,
  Triple-given, Triple-weaken, Ensures-ok,
}
use social_sentiment.Broker.Settled.{AllSettled, Settled, Triple-call, Triple-acks, Triple-hold}
use social_sentiment.Messaging.Settles.{dead_letter-Settles}
use social_sentiment.Worker.{Worker, Turn}
use social_sentiment.Messaging.Requeue.{requeue-Settles}
use social_sentiment.Worker.Bounds.{IsSound, run_turns-IsSound}
use social_sentiment.Worker.Keeping.{Among, Arrives, run_turns-Kept}

module _ (b : Broker) (faithful : IsFaithful b) (input_queue : String) where
  insert_batch-Settles :
      (held : List Message) (posts : List ScoredPost) {E : History → Type 0}
      → Triple (AllSettled b held) E (insert_batch b input_queue posts) Any
  unfolding insert_batch
  insert_batch-Settles held posts =
      Triple-catch _ _
        (Triple-bind _ _ (Triple-call b faithful held _)
          (λ rows. Triple-pure (inl rows) (λ h x. tt)))
        (λ e.
          Triple-if (is_permanent_post_error e.kind) (pure (inr e)) (raise e)
            (λ q. Triple-pure (inr e) (λ h x. tt)) (λ q. Triple-raise e))

  -- a result that counts `n` messages more than `r`
  abbrev Counts : BatchWriteResult → ℕ → BatchWriteResult → Type 0
  Counts r n r' =
      r'.stored_messages + r'.dead_lettered_messages
      ≡ r.stored_messages + r.dead_lettered_messages + n

  persist_one-Settles :
      (held : List Message) (r : BatchWriteResult) (message : Message) (i : ℕ ⊎ Error)
      {E : History → Type 0}
      → Triple
          (AllSettled b held)
          E
          (persist_one b input_queue r message i)
          (λ r' h. Settled b h message × Counts r 1 r')
  unfolding persist_one
  persist_one-Settles held r message (inl rows) =
      Triple-bind _ _ (Triple-acks b faithful held message)
        (λ n. Triple-pure _ (λ h x. (x, omega arith)))
  persist_one-Settles held r message (inr e) =
      Triple-bind _ _ (dead_letter-Settles b faithful held message input_queue e)
        (λ a. Triple-pure _ (λ h x. (x, omega arith)))

  persist_each-Settles :
      (held : List Message) (r : BatchWriteResult) (posts : List ScoredPost)
      (messages : List Message) {E : History → Type 0}
      → length messages ≡ length posts
      → Triple
          (AllSettled b held)
          E
          (persist_each b input_queue r (zip posts messages))
          (λ r' h. AllSettled b messages h × Counts r (length posts) r')
  unfolding persist_each
  persist_each-Settles held r [] [] q = Triple-pure r (λ h x. (tt, omega arith))
  persist_each-Settles held r (post ∷ posts) (message ∷ messages) q =
      Triple-bind _ _ (insert_batch-Settles held (post ∷ [])) (λ i.
        Triple-bind _ _ (persist_one-Settles held r message i) (λ r₁.
          Triple-given (Counts r 1 r₁) _ (λ counted.
            Triple-weaken _
              (Triple-hold b faithful held message _
                (persist_each-Settles (message ∷ held) r₁ posts messages (omega arith)))
              (λ h x. x) (λ r₂ h x. ((x.0, x.1.0), omega (arith, x.1.1))))))
  persist_each-Settles held r [] (m ∷ ms) q = absurd (omega arith)
  persist_each-Settles held r (p ∷ ps) [] q = absurd (omega arith)

  ack_each-Settles :
      (held ms : List Message) {E : History → Type 0}
      → Triple (AllSettled b held) E (ack_each b input_queue ms) (λ x. AllSettled b ms)
  unfolding ack_each
  ack_each-Settles held [] = Triple-pure tt (λ h x. tt)
  ack_each-Settles held (m ∷ ms) =
      Triple-bind _ _ (Triple-acks b faithful held m)
        (λ n. Triple-hold b faithful held m _ (ack_each-Settles (m ∷ held) ms))

  after_insert-Settles :
      (held : List Message) (posts : List ScoredPost) (messages : List Message) (i : ℕ ⊎ Error)
      {E : History → Type 0}
      → length messages ≡ length posts
      → Triple (AllSettled b held) E (after_insert b input_queue posts messages i) (λ r h.
        AllSettled b messages h × (r.stored_messages + r.dead_lettered_messages ≡ length posts))
  unfolding after_insert persist_scored_individually
  after_insert-Settles held posts messages (inl rows) q =
      Triple-bind _ _ (ack_each-Settles held messages)
        (λ a. Triple-pure _ (λ h x. (x, omega arith)))
  after_insert-Settles held posts messages (inr e) q =
      Triple-weaken _ (persist_each-Settles held nothing_written posts messages q) (λ h x. x)
        (λ r h x. (x.0, omega (arith, x.1)))

  pub persist_scored_batch-Triple :
      (held : List Message) (posts : List ScoredPost) (messages : List Message)
      {E : History → Type 0}
      → length messages ≡ length posts
      → Triple (AllSettled b held) E (persist_scored_batch b input_queue posts messages) (λ r h.
        AllSettled b messages h × (r.stored_messages + r.dead_lettered_messages ≡ length posts))
  unfolding persist_scored_batch
  persist_scored_batch-Triple held posts messages q =
      Triple-bind _ _ (insert_batch-Settles held posts)
        (λ i. after_insert-Settles held posts messages i q)

  -- With a client that marks settled deliveries, when a batch with one message for each post
  -- returns its result, each message is settled, and the posts counted as stored and as
  -- dead-lettered are as many as the posts.
  pub persist_scored_batch-Settles :
      (posts : List ScoredPost) (messages : List Message) (h : History) (r : BatchWriteResult)
      → length messages ≡ length posts
      → (persist_scored_batch b input_queue posts messages h).0 ≡ ok r
      → AllSettled b messages (persist_scored_batch b input_queue posts messages h).1
        × (r.stored_messages + r.dead_lettered_messages ≡ length posts)
  persist_scored_batch-Settles posts messages h r q e =
      Ensures-ok _ _ _ r e
        ((persist_scored_batch-Triple [] posts messages {E = Anything} q).at h tt tt).1

  flush-Triple :
      (held : List Message) (posts : List ScoredPost) (messages : List Message)
      → length messages ≡ length posts
      → Triple
          (AllSettled b held)
          Anything
          (flush b input_queue posts messages)
          (λ x. AllSettled b messages)
  unfolding flush
  flush-Triple held posts messages q =
      Triple-catch _ _
        (Triple-bind _ _ (persist_scored_batch-Triple held posts messages q)
          (λ r. Triple-pure tt (λ h x. x.0)))
        (λ e.
          Triple-bind _ _ (requeue-Settles b faithful held messages)
            (λ n. Triple-pure tt (λ h x. x)))

  -- With a client that marks settled deliveries, a storage worker that starts with a sound batch
  -- and still runs has a sound batch of fewer than a hundred posts, and every delivery that was
  -- settled, waited or arrived is settled or waits in it.
  pub db_writer_worker-Kept :
      (m : Message) (w w' : Worker ScoredPost) (ts : List (Turn ScoredPost)) (h : History)
      → IsSound batch_size w
      → (Settled b h m ⊎ Among m w.messages) ⊎ Arrives m ts
      → (db_writer_worker b input_queue w ts h).0 ≡ ok w'
      → IsSound batch_size w'
        × (Settled b (db_writer_worker b input_queue w ts h).1 m ⊎ Among m w'.messages)
  unfolding db_writer_worker
  db_writer_worker-Kept m w w' ts h s k e = (
    run_turns-IsSound b batch_size (flush b input_queue) (omega arith) w ts h w' s e,
    run_turns-Kept b faithful batch_size (flush b input_queue) flush-Triple (omega arith) m w w' ts
        h s k e,
  )
