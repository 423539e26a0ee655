-- ===== src/Preprocessing/Delivery.antt =====
-- About the acknowledgements of raw posts.
use social_sentiment.Prelude.{
  ◌≡◌, some, true, false, List, chars, text_of, ◌⊎◌, String, ℕ, ◌∷◌, ap, arith, refl, [], inl, inr,
  none, length, ◌<◌, ◌≤◌, Option, le→leb,
}
use social_sentiment.Broker.Traces.{AcksCovered, IsCovered, Triple-ack}
use social_sentiment.Messaging.Retry.{
  IsCopy, requeue_unprocessed-Triple, retry-Triple, dead_letter-Triple,
}
use social_sentiment.Preprocessing.{
  Services, process_valid, cleaned_text, clean_publication, clean_post, forward, Step, published,
  send, conclude, process_message, returned, dropped, process_decoded,
}
use Prim.Native.Char.{Char}
use social_sentiment.Schemas.{RawPost, CleanPost}
use social_sentiment.Broker.{
  Message, Call, ◌>>=◌, try_except, publish, perform, History, ack, nack, insert_scored, done,
}
use social_sentiment.Prelude.Int.{ℤ}
use social_sentiment.Text.{is_valid}
use social_sentiment.Outcome.{ok}
use social_sentiment.Messaging.{Disposition}
use social_sentiment.Broker.Triples.{
  Triple, Anything, Any, Triple-bind, Triple-pure, Triple-read, Triple-weaken, Triple-try_except,
}

-- What a clean post keeps of the raw post.
pub record Preserves (s : Services) (raw : RawPost) (clean : CleanPost) : Type 0 where
  pub id : clean.id ≡ raw.id
  pub symbol : clean.symbol ≡ raw.symbol
  pub platform : clean.platform ≡ raw.platform
  pub timestamp : clean.timestamp ≡ raw.timestamp
  pub engagement : clean.engagement ≡ raw.engagement
  pub ingested_at : clean.ingested_at ≡ raw.ingested_at
  pub engagement_observed_at : clean.engagement_observed_at ≡ raw.engagement_observed_at
  pub source_schema_version : clean.source_schema_version ≡ raw.source_schema_version
  pub pipeline_git_commit : clean.pipeline_git_commit ≡ raw.pipeline_git_commit
  pub text : chars clean.text ≡ cleaned_text s raw

chars-text_of : (cs : List Char) → chars (text_of cs) ≡ cs
chars-text_of [] = refl
chars-text_of (c ∷ cs) = ap (◌∷◌ c) (chars-text_of cs)

-- The call publishes, to the output queue, a clean post that keeps what the message says.
abbrev pub Forwards : Services → Message → Call → Type 0
Forwards s m (publish p) =
    (raw : RawPost) × (clean : CleanPost) × (s.decode m.body ≡ some raw)
    × Preserves s raw clean
    × (p ≡ clean_publication s clean)
Forwards s m (ack _) = ⊥
Forwards s m (nack _) = ⊥
Forwards s m (insert_scored _) = ⊥

-- A copy in the input or the dead-letter queue, or a clean post in the output queue.
abbrev pub Held : Services → Message → Call → Type 0
Held s m c = IsCopy s.input_queue m c ⊎ Forwards s m c

module _ (s : Services) (message : Message) where
  forwards :
      (raw : RawPost)
      → s.decode message.body ≡ some raw
      → (topic : ℤ × String) (x y : ℕ)
      → Forwards s message (publish (clean_publication s (clean_post s raw topic x y)))
  forwards raw d topic x y = (
    raw,
    clean_post s raw topic x y,
    d,
    record {
      id = refl;
      symbol = refl;
      platform = refl;
      timestamp = refl;
      engagement = refl;
      ingested_at = refl;
      engagement_observed_at = refl;
      source_schema_version = refl;
      pipeline_git_commit = refl;
      text = chars-text_of (cleaned_text s raw);
    },
    refl,
  )

  -- what is known when the `try` has published the clean post
  abbrev Sent : Step → History → Type 0
  Sent step h = (step ≡ published) × IsCovered (Held s) message h

  abbrev Concluded : Step ⊎ Disposition → History → Type 0
  Concluded (inl step) h = Sent step h
  Concluded (inr disposition) h = Unit

  module _ (raw : RawPost) (d : s.decode message.body ≡ some raw) where
    send-Sent :
        (topic : ℤ × String) → Triple (AcksCovered (Held s)) Anything (send s raw topic) Sent
    unfolding send ◌>>=◌ perform
    send-Sent topic = record {
      at = λ h covered e. ground (arith, forwards raw d topic (s.now h 0) (s.now h 1));
    }

    forward-Sent :
        is_valid (cleaned_text s raw) ≡ true
        → Triple (AcksCovered (Held s)) Anything (forward s raw message) Sent
    unfolding forward
    forward-Sent valid = rw valid (
        Triple-bind _ _
          (Triple-read (λ h. s.predict h (text_of (cleaned_text s raw))) (λ h e a. tt)) send-Sent)

    conclude-Triple :
        (ended : Step ⊎ Disposition)
        → Triple (AcksCovered (Held s)) (Concluded ended) (conclude s message ended) Any
    unfolding conclude
    conclude-Triple (inl returned) = Triple-pure _ (λ h e. tt)
    conclude-Triple (inl published) =
        Triple-bind _ _
          (Triple-weaken _ (Triple-ack s.broker (Held s) message) (λ h e. e.1) (λ a h e. e))
          (λ a. Triple-pure _ (λ h e. tt))
    conclude-Triple (inr disposition) = Triple-pure _ (λ h e. tt)

    process_valid-Triple :
        is_valid (cleaned_text s raw) ≡ true
        → Triple (AcksCovered (Held s)) Anything (process_valid s raw message) Any
    unfolding process_valid
    process_valid-Triple valid =
        Triple-bind _ _
          (Triple-try_except _ _ _
            (Triple-bind _ _ (forward-Sent valid) (λ step. Triple-pure _ (λ h e. e)))
            (requeue_unprocessed-Triple s.broker (Held s) message)
            (λ x.
              Triple-bind _ _
                (retry-Triple s.broker (Held s) message s.input_queue (λ c copy. inl copy) x)
                (λ disposition. Triple-pure _ (λ h e. tt))))
          conclude-Triple

  process_decoded-Triple :
      (o : Option RawPost)
      → s.decode message.body ≡ o
      → ((raw : RawPost) → o ≡ some raw → is_valid (cleaned_text s raw) ≡ true)
      → Triple (AcksCovered (Held s)) Anything (process_decoded s message o) Any
  unfolding process_decoded
  process_decoded-Triple none d valid =
      Triple-bind _ _
        (dead_letter-Triple s.broker (Held s) message s.input_queue (λ c copy. inl copy) _)
        (λ a. Triple-pure _ (λ h e. tt))
  process_decoded-Triple (some raw) d valid = process_valid-Triple raw d (valid raw refl)

  -- When every acknowledgement so far was covered, and the message cannot be read or its cleaned
  -- text has three characters or more, every acknowledgement stays covered, whatever the broker
  -- and the model answer: it comes after the confirmation of a copy of its message or, in the
  -- output queue, of a clean post that keeps the fields.
  pub process_message-AcksCovered :
      (h : History)
      → ((raw : RawPost) → s.decode message.body ≡ some raw → 3 ≤ length (cleaned_text s raw))
      → AcksCovered (Held s) h
      → AcksCovered (Held s) (process_message s message h).1
  unfolding process_message
  process_message-AcksCovered h long covered =
      ((process_decoded-Triple (s.decode message.body) refl (λ raw d. le→leb 3 _ (long raw d))).at h
        covered tt).0

  -- A post whose cleaned text is too short is acknowledged, and nothing else is sent for it, when
  -- the broker confirms the acknowledgement.
  pub process_message-drops :
      (raw : RawPost) (h : History) (n : ℕ)
      → s.decode message.body ≡ some raw
      → length (cleaned_text s raw) < 3
      → s.broker.respond h (ack message) ≡ done n
      → process_message s message h ≡ (ok dropped, (ack message, done n) ∷ h)
  unfolding process_message ◌>>=◌ perform try_except
  process_message-drops raw h n d short r =
      let too_short : is_valid (cleaned_text s raw) ≡ false = ground arith in
      rw (d, process_decoded, too_short, r)
