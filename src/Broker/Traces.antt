-- ===== src/Broker/Traces.antt =====
-- Histories: which messages are covered by a confirmed call, and the rules for single calls.
use social_sentiment.Prelude.{ℕ, ◌⊎◌, inl, [], ◌∷◌, List}
use social_sentiment.Broker.{
  Message, Publication, Call, publish, ack, nack, insert_scored, Reply, done, fails, cancels,
  History, Broker, perform, outcome,
}
use social_sentiment.Broker.Triples.{Triple, Ensures, Any, Anything}
use social_sentiment.Schemas.{ScoredPost}

-- Some confirmed call of the history stands for the message.
abbrev pub IsCovered : (Message → Call → Type 0) → Message → History → Type 0
IsCovered Q m [] = ⊥
IsCovered Q m ((c, done n) ∷ h) = Q m c ⊎ IsCovered Q m h
IsCovered Q m ((c, fails e) ∷ h) = IsCovered Q m h
IsCovered Q m ((c, cancels) ∷ h) = IsCovered Q m h

-- No `ack` is sent before a confirmed call stands for its message.
abbrev pub AcksCovered : (Message → Call → Type 0) → History → Type 0
AcksCovered Q [] = Unit
AcksCovered Q ((ack m, r) ∷ h) = IsCovered Q m h × AcksCovered Q h
AcksCovered Q ((publish p, r) ∷ h) = AcksCovered Q h
AcksCovered Q ((nack m, r) ∷ h) = AcksCovered Q h
AcksCovered Q ((insert_scored ps, r) ∷ h) = AcksCovered Q h

module _ (b : Broker) (Q : Message → Call → Type 0) where
  IsCovered-done :
      (m : Message) (c : Call) (r : Reply) (h : History)
      → Q m c
      → Ensures (λ (n : ℕ) h'. IsCovered Q m h') (outcome r) ((c, r) ∷ h)
  IsCovered-done m c (done n) h q = inl q
  IsCovered-done m c (fails e) h q = tt
  IsCovered-done m c cancels h q = tt

  pub Triple-publish :
      (p : Publication) (m : Message) {E : History → Type 0}
      → Q m (publish p)
      → Triple (AcksCovered Q) E (perform b (publish p)) (λ _ h. IsCovered Q m h)
  unfolding perform
  Triple-publish p m q = record {
    at = λ h a e. (a, IsCovered-done m (publish p) (b.respond h (publish p)) h q);
  }

  Ensures-Any : (r : Reply) (h : History) → Ensures (Any {A = ℕ}) (outcome r) h
  Ensures-Any (done n) h = tt
  Ensures-Any (fails e) h = tt
  Ensures-Any cancels h = tt

  pub Triple-ack :
      (m : Message) → Triple (AcksCovered Q) (λ h. IsCovered Q m h) (perform b (ack m)) Any
  unfolding perform
  Triple-ack m = record {
    at = λ h a e. ((e, a), Ensures-Any (b.respond h (ack m)) ((ack m, b.respond h (ack m)) ∷ h));
  }

  pub Triple-nack : (m : Message) → Triple (AcksCovered Q) Anything (perform b (nack m)) Any
  unfolding perform
  Triple-nack m = record {
    at = λ h a e. (a, Ensures-Any (b.respond h (nack m)) ((nack m, b.respond h (nack m)) ∷ h));
  }

  -- A confirmed insert stands for every message that `Q` lets it stand for.
  pub Triple-insert :
      (posts : List ScoredPost) {E : History → Type 0}
      → Triple
          (AcksCovered Q)
          E
          (perform b (insert_scored posts))
          (λ n h. (m : Message) → Q m (insert_scored posts) → IsCovered Q m h)
  unfolding perform
  Triple-insert posts = record { at = λ h a e. (a, go (b.respond h (insert_scored posts)) h) }
    where
      go :
          (r : Reply) (h : History)
          → Ensures
              (λ (n : ℕ) h'. (m : Message) → Q m (insert_scored posts) → IsCovered Q m h')
              (outcome r)
              ((insert_scored posts, r) ∷ h)
      go (done n) h = λ m q. inl q
      go (fails e) h = tt
      go cancels h = tt
