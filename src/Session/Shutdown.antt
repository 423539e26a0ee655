-- ===== src/Session/Shutdown.antt =====
-- About the end of a session and the messages that wait in the local queue.
use social_sentiment.Session.{Queue, end_session, after_failure}
use social_sentiment.Broker.{Broker, IsFaithful, Message, History}
use social_sentiment.Outcome.{Error, Outcome, raised, requeue_error, ok, cancelled}
use social_sentiment.Messaging.{requeue_buffered_messages}
use social_sentiment.Prelude.{List, ℕ, ◌≡◌, ◌⊎◌, All, inl, inr, map, ap, refl}
use social_sentiment.Messaging.Requeue.{Reported, Handled, requeue-Reported}
use social_sentiment.Broker.Settled.{AllSettled}

module _ (b : Broker) (faithful : IsFaithful b) where
  after_failure-Reported :
      (e : Error) (ms : List Message) (o : Outcome ℕ) (h : History)
      → Reported b faithful ms o h
      → ((after_failure e o ≡ raised e) × AllSettled b ms h)
        ⊎ ((tags : List ℕ) × (attempted : ℕ) × (after_failure e o
              ≡ raised (requeue_error tags attempted))
            × All (Handled b faithful h tags) ms)
        ⊎ ((after_failure e o ≡ cancelled) × (o ≡ cancelled))
  unfolding after_failure
  after_failure-Reported e ms (ok n) h r = inl (refl, r)
  after_failure-Reported e ms (raised y) h (tags, attempted, is, some_tag, few, handled) =
      inr (inl (tags, attempted, ap raised is, handled))
  after_failure-Reported e ms cancelled h r = inr (inr (refl, refl))

  -- A session that failed raises its own error, and then every message in the local queue is settled;
  -- or it raises a `RequeueError`, and then each one is settled or listed in it; or it is cancelled,
  -- and then the requeueing of the local queue was cancelled.
  pub end_session-Reported :
      {P : Type 0} (e : Error) (queue : Queue P) (h : History)
      → let o = (end_session b (raised e) queue h).0 in
        let h' = (end_session b (raised e) queue h).1 in
        let ms = map (λ item. item.0) queue in
        ((o ≡ raised e) × AllSettled b ms h')
        ⊎ ((tags : List ℕ) × (attempted : ℕ) × (o ≡ raised (requeue_error tags attempted))
            × All (Handled b faithful h' tags) ms)
        ⊎ ((o ≡ cancelled) × (((requeue_buffered_messages b queue).0 h).0 ≡ cancelled))
  unfolding end_session requeue_buffered_messages
  end_session-Reported e queue h =
      after_failure-Reported e (map (λ item. item.0) queue) _ _
        (requeue-Reported b faithful (map (λ item. item.0) queue) h)
