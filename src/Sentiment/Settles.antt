-- ===== src/Sentiment/Settles.antt =====
-- About the messages of a batch that returns.
use social_sentiment.Broker.{IsFaithful, Message, History, ◌>>=◌, pure}
use social_sentiment.Broker.Settled.{Settled, AllSettled, Triple-call, Triple-acks, Triple-hold}
use social_sentiment.Sentiment.{
  Services, process_batch, retry_each, send, acknowledge, handle_scored, publish_each, use_results,
  Result, score, count_error,
}
use social_sentiment.Prelude.{Bool, List, ℕ, length, ◌≡◌, ◌∷◌, zip3, [], true, false, arith, ◌==◌}
use social_sentiment.Outcome.{Error, Outcome, ok, raised, cancelled}
use social_sentiment.Schemas.{ScoredPost, CleanPost}
use social_sentiment.Broker.Triples.{
  Triple, Triple-pure, Triple-catch, Triple-bind, Ensures-ok, Triple-read, Anything, Triple-lift,
  Triple-if,
}
use social_sentiment.Messaging.Settles.{retry-Settles, dead_letter-Settles}

module _ (s : Services) (faithful : IsFaithful s.broker) where
  retry_each-Settles :
      (held messages : List Message) (e : Error) {E : History → Type 0}
      → Triple
          (AllSettled s.broker held)
          E
          (retry_each s messages e)
          (λ a. AllSettled s.broker messages)
  unfolding retry_each
  retry_each-Settles held [] e = Triple-pure tt (λ h x. tt)
  retry_each-Settles held (message ∷ messages) e =
      Triple-bind _ _ (retry-Settles s.broker faithful held message s.input_queue e) (λ a.
        Triple-hold s.broker faithful held message _
          (retry_each-Settles (message ∷ held) messages e))

  -- what the answer of `send` says of the history
  abbrev Sent : Message → Bool → History → Type 0
  Sent message true h = Unit
  Sent message false h = Settled s.broker h message

  send-Settles :
      (held : List Message) (message : Message) (scored : ScoredPost) {E : History → Type 0}
      → Triple (AllSettled s.broker held) E (send s message scored) (Sent message)
  unfolding send
  send-Settles held message scored =
      Triple-catch _ _
        (Triple-bind _ _ (Triple-call s.broker faithful held _) (λ a. Triple-pure true (λ h x. tt)))
        (λ e.
          Triple-bind _ _ (retry-Settles s.broker faithful held message s.input_queue e)
            (λ a. Triple-pure false (λ h x. x)))

  acknowledge-Settles :
      (held : List Message) (count : ℕ) (message : Message) (sent : Bool)
      → Triple
          (AllSettled s.broker held)
          (Sent message sent)
          (acknowledge s count message sent)
          (λ n h. Settled s.broker h message)
  unfolding acknowledge
  acknowledge-Settles held count message false = Triple-pure _ (λ h x. x)
  acknowledge-Settles held count message true =
      Triple-bind _ _ (Triple-acks s.broker faithful held message) (λ a. Triple-pure _ (λ h x. x))

  handle_scored-Settles :
      (held : List Message) (count : ℕ) (message : Message) (made : Outcome ScoredPost)
      {E : History → Type 0}
      → Triple
          (AllSettled s.broker held)
          E
          (handle_scored s count message made)
          (λ n h. Settled s.broker h message)
  unfolding handle_scored
  handle_scored-Settles held count message (ok scored) =
      Triple-bind _ _ (send-Settles held message scored) (acknowledge-Settles held count message)
  handle_scored-Settles held count message (raised e) =
      Triple-bind _ _ (dead_letter-Settles s.broker faithful held message s.input_queue e)
        (λ a. Triple-pure _ (λ h x. x))
  handle_scored-Settles held count message cancelled = Triple-lift cancelled (λ h x a e. cc)

  publish_each-Settles :
      (held : List Message) (count : ℕ) (posts : List CleanPost) (results : List Result)
      (messages : List Message) {E : History → Type 0}
      → length results ≡ length posts
      → length messages ≡ length posts
      → Triple
          (AllSettled s.broker held)
          E
          (publish_each s count (zip3 posts results messages))
          (λ n. AllSettled s.broker messages)
  unfolding publish_each
  publish_each-Settles held count (post ∷ posts) (result ∷ results) (message ∷ messages) p q =
      Triple-bind _ _ (Triple-read _ (λ h x a. tt)) (λ at.
        Triple-bind _ _ (handle_scored-Settles held count message (score s post result at)) (λ n.
          Triple-hold s.broker faithful held message _ (
            publish_each-Settles (message ∷ held) n posts results messages (omega arith)
              (omega arith))))
  publish_each-Settles held count posts results [] p q = Triple-pure count (λ h x. tt)
  publish_each-Settles held count _ _ _ p q = absurd (omega arith)

  use_results-Settles :
      (held : List Message) (posts : List CleanPost) (messages : List Message)
      (results : Outcome (List Result))
      → length messages ≡ length posts
      → Triple
          (AllSettled s.broker held)
          Anything
          (use_results s posts messages results)
          (λ n. AllSettled s.broker messages)
  unfolding use_results
  use_results-Settles held posts messages (ok results) q =
      let wrong : Error = count_error s (length results) (length posts) in
      Triple-if (length results == length posts) (publish_each s 0 (zip3 posts results messages))
        (retry_each s messages wrong >>= λ _. pure 0)
        (λ e. publish_each-Settles held 0 posts results messages (ground arith) q)
        (λ e.
          Triple-bind _ _ (retry_each-Settles held messages wrong) (λ a. Triple-pure 0 (λ h x. x)))
  use_results-Settles held posts messages (raised e) q =
      Triple-bind _ _ (retry_each-Settles held messages e) (λ a. Triple-pure 0 (λ h x. x))
  use_results-Settles held posts messages cancelled q = Triple-lift cancelled (λ h x a e. cc)

  pub process_batch-Triple :
      (held : List Message) (posts : List CleanPost) (messages : List Message)
      → length messages ≡ length posts
      → Triple
          (AllSettled s.broker held)
          Anything
          (process_batch s posts messages)
          (λ n. AllSettled s.broker messages)
  unfolding process_batch
  process_batch-Triple held posts messages q = record {
    at = λ h a e. (use_results-Settles held posts messages _ q).at h a e;
  }

  -- With a client that marks settled deliveries, when a batch with one message for each post
  -- returns, each of its messages is settled.
  pub process_batch-Settles :
      (posts : List CleanPost) (messages : List Message) (h : History) (n : ℕ)
      → length messages ≡ length posts
      → (process_batch s posts messages h).0 ≡ ok n
      → AllSettled s.broker messages (process_batch s posts messages h).1
  unfolding process_batch
  process_batch-Settles posts messages h n q e =
      Ensures-ok _ _ _ n e ((use_results-Settles [] posts messages _ q).at h tt tt).1
