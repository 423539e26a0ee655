-- ===== src/Sentiment/Delivery.antt =====
-- About the acknowledgements of clean posts.
use social_sentiment.Prelude.{
  ◌≡◌, some, List, Bool, ℕ, ◌⊎◌, zip3, inl, ◌∷◌, inr, [], true, refl, false, length, ◌==◌,
}
use social_sentiment.Sentiment.{
  Services, retry_each, send, acknowledge, handle_scored, score, publish_each, use_results,
  process_batch, Result, scored_publication, count_error,
}
use social_sentiment.Broker.{Message, History, Call, publish, ack, nack, insert_scored, ◌>>=◌, pure}
use social_sentiment.Schemas.{CleanPost, ScoredPost}
use social_sentiment.Broker.Traces.{AcksCovered, IsCovered, Triple-publish, Triple-ack}
use social_sentiment.Outcome.{Error, Outcome, ok, raised, cancelled}
use social_sentiment.Messaging.Retry.{IsCopy, retry-Triple, dead_letter-Triple}
use social_sentiment.Broker.Triples.{
  Triple, Any, Anything, Triple-pure, Triple-catch, Triple-bind, Triple-if, Triple-read,
  Triple-lift,
}
use social_sentiment.Schemas.Validation.{HasDistribution, make_scored_post_sound}
use social_sentiment.Messaging.{retry_or_dead_letter}

-- The posts were read from the messages, one each, in order.
abbrev pub Paired : Services → List CleanPost → List Message → Type 0
Paired s [] [] = Unit
Paired s (post ∷ posts) (message ∷ messages) =
    (s.decode message.body ≡ some post) × Paired s posts messages
Paired s _ _ = ⊥

-- The call publishes, to the output queue, the message's post with a valid sentiment.
abbrev pub Scores : Services → Message → Call → Type 0
Scores s m (publish p) =
    (scored : ScoredPost) × (s.decode m.body ≡ some scored.clean)
    × HasDistribution scored.scores
    × (p ≡ scored_publication s scored)
Scores s m (ack _) = ⊥
Scores s m (nack _) = ⊥
Scores s m (insert_scored _) = ⊥

-- A copy in the input or the dead-letter queue, or a scored post in the output queue.
abbrev pub Held : Services → Message → Call → Type 0
Held s m c = IsCopy s.input_queue m c ⊎ Scores s m c

module _ (s : Services) where
  abbrev Kept : History → Type 0
  Kept = AcksCovered (Held s)

  retry-Kept :
      (message : Message) (e : Error) {E : History → Type 0}
      → Triple Kept E (retry_or_dead_letter s.broker message s.input_queue e) Any
  retry-Kept message e = retry-Triple s.broker (Held s) message s.input_queue (λ c copy. inl copy) e

  retry_each-Kept :
      (messages : List Message) (e : Error) {E : History → Type 0}
      → Triple Kept E (retry_each s messages e) Any
  unfolding retry_each
  retry_each-Kept [] e = Triple-pure _ (λ h x. tt)
  retry_each-Kept (message ∷ messages) e =
      Triple-bind _ _ (retry-Kept message e) (λ a. retry_each-Kept messages e)

  -- what the answer of `send` says of the history
  abbrev Sent : Message → Bool → History → Type 0
  Sent message true h = IsCovered (Held s) message h
  Sent message false h = Unit

  send-Kept :
      (message : Message) (scored : ScoredPost) {E : History → Type 0}
      → Scores s message (publish (scored_publication s scored))
      → Triple Kept E (send s message scored) (Sent message)
  unfolding send
  send-Kept message scored q =
      Triple-catch _ _
        (Triple-bind _ _ (Triple-publish s.broker (Held s) _ message (inr q))
          (λ a. Triple-pure true (λ h x. x)))
        (λ e. Triple-bind _ _ (retry-Kept message e) (λ a. Triple-pure false (λ h x. tt)))

  acknowledge-Kept :
      (count : ℕ) (message : Message) (sent : Bool)
      → Triple Kept (Sent message sent) (acknowledge s count message sent) Any
  unfolding acknowledge
  acknowledge-Kept count message false = Triple-pure _ (λ h x. tt)
  acknowledge-Kept count message true =
      Triple-bind _ _ (Triple-ack s.broker (Held s) message) (λ a. Triple-pure _ (λ h x. tt))

  handle_scored-Kept :
      (count : ℕ) (message : Message) (made : Outcome ScoredPost) {E : History → Type 0}
      → ((scored : ScoredPost)
          → made ≡ ok scored
          → Scores s message (publish (scored_publication s scored)))
      → Triple Kept E (handle_scored s count message made) Any
  unfolding handle_scored
  handle_scored-Kept count message (ok scored) q =
      Triple-bind _ _ (send-Kept message scored (q scored refl)) (acknowledge-Kept count message)
  handle_scored-Kept count message (raised e) q =
      Triple-bind _ _
        (dead_letter-Triple s.broker (Held s) message s.input_queue (λ c copy. inl copy) e)
        (λ a. Triple-pure _ (λ h x. tt))
  handle_scored-Kept count message cancelled q = Triple-lift cancelled (λ h x a e. cc)

  -- a scored post that was made is the message's post, with a distribution
  score-Scores :
      (post : CleanPost) (result : Result) (message : Message) (at : ℕ)
      → s.decode message.body ≡ some post
      → (scored : ScoredPost) → score s post result at ≡ ok scored
      → Scores s message (publish (scored_publication s scored))
  unfolding score
  score-Scores post (label, scores) message at d scored e =
      let (clean, label_is, given, sums) =
        make_scored_post_sound post label scores at s.version s.model_hash scored e in
      (scored, rw clean d, rw given sums, refl)

  publish_each-Kept :
      (count : ℕ) (posts : List CleanPost) (results : List Result) (messages : List Message)
      {E : History → Type 0}
      → Paired s posts messages
      → Triple Kept E (publish_each s count (zip3 posts results messages)) Any
  unfolding publish_each
  publish_each-Kept count (post ∷ posts) (result ∷ results) (message ∷ messages) pairs =
      Triple-bind _ _ (Triple-read _ (λ h x a. tt)) (λ at.
        Triple-bind _ _
          (handle_scored-Kept count message (score s post result at)
            (score-Scores post result message at pairs.0))
          (λ a. publish_each-Kept a posts results messages pairs.1))
  publish_each-Kept count _ _ _ pairs = Triple-pure _ (λ h x. tt)

  use_results-Kept :
      (posts : List CleanPost) (messages : List Message) (results : Outcome (List Result))
      → Paired s posts messages
      → Triple Kept Anything (use_results s posts messages results) Any
  unfolding use_results
  use_results-Kept posts messages (ok results) pairs =
      let wrong : Error = count_error s (length results) (length posts) in
      Triple-if (length results == length posts) (publish_each s 0 (zip3 posts results messages))
        (retry_each s messages wrong >>= λ _. pure 0)
        (λ e. publish_each-Kept 0 posts results messages pairs)
        (λ e. Triple-bind _ _ (retry_each-Kept messages wrong) (λ a. Triple-pure 0 (λ h x. tt)))
  use_results-Kept posts messages (raised e) pairs =
      Triple-bind _ _ (retry_each-Kept messages e) (λ a. Triple-pure _ (λ h x. tt))
  use_results-Kept posts messages cancelled pairs = Triple-lift cancelled (λ h x a e. cc)

  -- When every acknowledgement so far was covered, and the posts were read from the messages,
  -- every acknowledgement stays covered, whatever the broker and the model answer: it comes
  -- after the confirmation of a copy of its message in the input or the dead-letter queue or, in
  -- the output queue, of its post with three probabilities that sum to one up to the tolerance.
  pub process_batch-AcksCovered :
      (posts : List CleanPost) (messages : List Message) (h : History)
      → Paired s posts messages
      → AcksCovered (Held s) h
      → AcksCovered (Held s) (process_batch s posts messages h).1
  unfolding process_batch
  process_batch-AcksCovered posts messages h pairs covered =
      ((use_results-Kept posts messages _ pairs).at h covered tt).0
