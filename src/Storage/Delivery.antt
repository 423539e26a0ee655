-- ===== src/Storage/Delivery.antt =====
-- About the acknowledgements of scored posts.
use social_sentiment.Broker.{
  Broker, Message, Call, History, perform, insert_scored, Reply, done, ack, publish, nack, fails,
  cancels, pure, raise,
}
use social_sentiment.Schemas.{ScoredPost}
use social_sentiment.Prelude.{
  String, List, Option, ◌∷◌, ℕ, ◌≡◌, ◌⊎◌, All, some, zip, [], inl, inr, refl,
}
use social_sentiment.Storage.{
  insert_batch, persist_one, persist_each, ack_each, after_insert, persist_scored_batch,
  BatchWriteResult, persist_scored_individually, nothing_written,
}
use social_sentiment.Messaging.Retry.{IsCopy, dead_letter-Triple}
use social_sentiment.Broker.Traces.{AcksCovered, IsCovered, Triple-insert, Triple-ack}
use social_sentiment.Broker.Triples.{
  Triple, Triple-catch, Any, Triple-bind, Triple-pure, Ensures-always, Anything, Triple-if,
  Triple-weaken, Triple-raise,
}
use social_sentiment.Outcome.{Error, is_permanent_post_error}

-- A post among those of an insert.
abbrev pub Inserts : ScoredPost → List ScoredPost → Type 0
Inserts post [] = ⊥
Inserts post (p ∷ ps) = (p ≡ post) ⊎ Inserts post ps

module _ (b : Broker) (input_queue : String) (decode : String → Option ScoredPost) where
  -- The posts were read from the messages, one each, in order.
  abbrev pub Paired : List ScoredPost → List Message → Type 0
  Paired [] [] = Unit
  Paired (post ∷ posts) (message ∷ messages) =
      (decode message.body ≡ some post) × Paired posts messages
  Paired _ _ = ⊥

  -- The call writes the message's post to the database.
  abbrev pub Stores : Message → Call → Type 0
  Stores m (insert_scored posts) =
      (post : ScoredPost) × (decode m.body ≡ some post) × Inserts post posts
  Stores m (publish _) = ⊥
  Stores m (ack _) = ⊥
  Stores m (nack _) = ⊥

  abbrev pub Held : Message → Call → Type 0
  Held m c = IsCopy input_queue m c ⊎ Stores m c

  abbrev Kept : History → Type 0
  Kept = AcksCovered Held

  -- what an insert says of the history when it was not refused
  abbrev Inserted : List ScoredPost → ℕ ⊎ Error → History → Type 0
  Inserted posts (inl rows) h = (m : Message) → Held m (insert_scored posts) → IsCovered Held m h
  Inserted posts (inr e) h = Unit

  insert_batch-Kept :
      (posts : List ScoredPost) {E : History → Type 0}
      → Triple Kept E (insert_batch b input_queue posts) (Inserted posts)
  unfolding insert_batch
  insert_batch-Kept posts =
      Triple-catch _ _
        (Triple-bind _ _ (Triple-insert b Held posts) (λ rows. Triple-pure (inl rows) (λ h x. x)))
        (λ e.
          Triple-if (is_permanent_post_error e.kind) (pure (inr e)) (raise e)
            (λ q. Triple-pure (inr e) (λ h x. tt)) (λ q. Triple-raise e))

  persist_one-Kept :
      (r : BatchWriteResult) (post : ScoredPost) (message : Message) (i : ℕ ⊎ Error)
      → decode message.body ≡ some post
      → Triple Kept (Inserted (post ∷ []) i) (persist_one b input_queue r message i) Any
  unfolding persist_one
  persist_one-Kept r post message (inl rows) d =
      Triple-bind _ _
        (Triple-weaken _ (Triple-ack b Held message) (λ h x. x message (inr (post, d, inl refl)))
          (λ a h x. x))
        (λ n. Triple-pure _ (λ h x. tt))
  persist_one-Kept r post message (inr e) d =
      Triple-bind _ _ (dead_letter-Triple b Held message input_queue (λ c copy. inl copy) e)
        (λ a. Triple-pure _ (λ h x. tt))

  persist_each-Kept :
      (r : BatchWriteResult) (posts : List ScoredPost) (messages : List Message)
      {E : History → Type 0}
      → Paired posts messages
      → Triple Kept E (persist_each b input_queue r (zip posts messages)) Any
  unfolding persist_each
  persist_each-Kept r [] [] pairs = Triple-pure r (λ h x. tt)
  persist_each-Kept r (post ∷ posts) (message ∷ messages) pairs =
      Triple-bind _ _ (insert_batch-Kept (post ∷ [])) (λ i.
        Triple-bind _ _ (persist_one-Kept r post message i pairs.0)
          (λ r'. persist_each-Kept r' posts messages pairs.1))
  persist_each-Kept r [] (m ∷ ms) pairs = absurd pairs
  persist_each-Kept r (p ∷ ps) [] pairs = absurd pairs

  -- what covers every message of a list
  abbrev AllCovered : List Message → History → Type 0
  AllCovered ms h = All (λ m. IsCovered Held m h) ms

  covered_by_insert :
      (all posts : List ScoredPost) (messages : List Message) (h : History)
      → Paired posts messages
      → ((p : ScoredPost) → Inserts p posts → Inserts p all)
      → ((m : Message) → Held m (insert_scored all) → IsCovered Held m h)
      → AllCovered messages h
  covered_by_insert all [] [] h pairs within c = tt
  covered_by_insert all (post ∷ posts) (message ∷ messages) h pairs within c = (
    c message (inr (post, pairs.0, within post (inl refl))),
    covered_by_insert all posts messages h pairs.1 (λ p i. within p (inr i)) c,
  )
  covered_by_insert all [] (m ∷ ms) h pairs within c = absurd pairs
  covered_by_insert all (p ∷ ps) [] h pairs within c = absurd pairs

  AllCovered-call :
      (ms : List Message) (c : Call) (r : Reply) (h : History)
      → AllCovered ms h
      → AllCovered ms ((c, r) ∷ h)
  AllCovered-call [] c r h a = tt
  AllCovered-call (m ∷ ms) c (done n) h a = (inr a.0, AllCovered-call ms c (done n) h a.1)
  AllCovered-call (m ∷ ms) c (fails e) h a = (a.0, AllCovered-call ms c (fails e) h a.1)
  AllCovered-call (m ∷ ms) c cancels h a = (a.0, AllCovered-call ms c cancels h a.1)

  ack_one-Kept :
      (m : Message) (ms : List Message)
      → Triple Kept (AllCovered (m ∷ ms)) (perform b (ack m)) (λ n h. AllCovered ms h)
  unfolding perform
  ack_one-Kept m ms = record {
    at = λ h k a. (
      (a.0, k),
      Ensures-always {A = ℕ} (AllCovered ms) (perform b (ack m) h).0 (perform b (ack m) h).1
          (AllCovered-call ms (ack m) (b.respond h (ack m)) h a.1),
    );
  }

  ack_each-Kept : (ms : List Message) → Triple Kept (AllCovered ms) (ack_each b input_queue ms) Any
  unfolding ack_each
  ack_each-Kept [] = Triple-pure tt (λ h x. tt)
  ack_each-Kept (m ∷ ms) = Triple-bind _ _ (ack_one-Kept m ms) (λ n. ack_each-Kept ms)

  after_insert-Kept :
      (posts : List ScoredPost) (messages : List Message) (i : ℕ ⊎ Error)
      → Paired posts messages
      → Triple Kept (Inserted posts i) (after_insert b input_queue posts messages i) Any
  unfolding after_insert persist_scored_individually
  after_insert-Kept posts messages (inl rows) pairs =
      Triple-bind _ _
        (Triple-weaken _ (ack_each-Kept messages)
          (λ h x. covered_by_insert posts posts messages h pairs (λ p i. i) x) (λ a h x. x))
        (λ a. Triple-pure _ (λ h x. tt))
  after_insert-Kept posts messages (inr e) pairs =
      persist_each-Kept nothing_written posts messages pairs

  -- When every acknowledgement so far was covered, and the posts were read from the messages,
  -- every acknowledgement stays covered, whatever the database and the broker answer: it comes
  -- after the confirmation of an insert with its post or of a copy of its message.
  pub persist_scored_batch-AcksCovered :
      (posts : List ScoredPost) (messages : List Message) (h : History)
      → Paired posts messages
      → AcksCovered Held h
      → AcksCovered Held (persist_scored_batch b input_queue posts messages h).1
  unfolding persist_scored_batch
  persist_scored_batch-AcksCovered posts messages h pairs covered =
      ((Triple-bind {P = Kept} {E = Anything} _ _ (insert_batch-Kept posts)
          (λ i. after_insert-Kept posts messages i pairs)).at
        h covered tt).0
