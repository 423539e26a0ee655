-- ===== src/Examples/Queues.antt =====
-- The theorems on messages and batch workers at concrete inputs.
use social_sentiment.Worker.Bounds.{IsSound, turn-Carried}
use social_sentiment.Worker.{arrival, Worker, turn, guarded, recover, flush_if_due, accept, is_due}
use social_sentiment.Broker.Traces.{AcksCovered}
use social_sentiment.Broker.{Message, Exec, ◌>>=◌, pure}
use social_sentiment.Messaging.{
  processing_attempt, retry_or_dead_letter, retry_headers, requeue_unprocessed_messages, attempt_of,
  dead_letter_message, requeue_buffered_messages, dead_lettered,
}
use social_sentiment.Messaging.Requeue.{Reported, requeue-Reported, Handled}
use social_sentiment.Prelude.{List, arith, ◌≡◌, [], refl, some, ◌∷◌, ◌⊎◌, ℕ, All, false}
use social_sentiment.Schemas.{ScoredPost}
use social_sentiment.Session.{end_session, Queue}
use social_sentiment.Messaging.Retry.{IsCopy, retry-AcksCovered, retried_once}
use social_sentiment.Examples.{delivery, confirming, scored_post, confirming-IsFaithful, failure}
use social_sentiment.Outcome.{ok, raised, requeue_error, cancelled}
use social_sentiment.Prelude.Int.{pos}
use social_sentiment.Broker.Settled.{AllSettled}
use social_sentiment.Session.Shutdown.{end_session-Reported}

retry-AcksCovered_example :
    AcksCovered
      (IsCopy "raw-posts")
      (retry_or_dead_letter confirming delivery "raw-posts" failure []).1
retry-AcksCovered_example =
    retry-AcksCovered confirming (IsCopy "raw-posts") delivery "raw-posts" (λ c i. i) failure [] tt

abbrev retried : Message
retried = record delivery { headers = some (retry_headers delivery (pos 0) failure) }

retried_once_example :
    retry_or_dead_letter confirming retried "raw-posts" failure []
    ≡ (dead_letter_message confirming retried "raw-posts" failure >>= λ _. pure dead_lettered) []
unfolding processing_attempt attempt_of
retried_once_example =
    retried_once confirming delivery retried "raw-posts" failure failure [] (omega arith) refl

requeue-Reported_example :
    Reported confirming confirming-IsFaithful
      (delivery ∷ [])
      (requeue_unprocessed_messages confirming (delivery ∷ []) []).0
      (requeue_unprocessed_messages confirming (delivery ∷ []) []).1
requeue-Reported_example = requeue-Reported confirming confirming-IsFaithful (delivery ∷ []) []

abbrev no_flush : List ScoredPost → List Message → Exec (Unit {0})
no_flush posts messages h = (ok tt, h)

abbrev idle : Worker ScoredPost
idle = record { posts = []; messages = []; last_flush = 0 }

abbrev idle-IsSound : IsSound 32 idle
idle-IsSound = record { aligned = refl; room = omega arith }

abbrev waiting : Worker ScoredPost
waiting = record { posts = scored_post ∷ []; messages = delivery ∷ []; last_flush = 10 }

turn-Carried_example :
    IsSound 32 waiting
    × (((waiting.posts ≡ []) × (waiting.messages ≡ []))
        ⊎ ((waiting ≡ accept idle delivery scored_post 10)
            × (is_due 32 (accept idle delivery scored_post 10) 20 ≡ false)))
unfolding turn guarded recover flush_if_due ◌>>=◌ pure
turn-Carried_example =
    turn-Carried confirming 32 no_flush (omega arith) idle (arrival delivery scored_post 10 20 20)
      [] waiting idle-IsSound refl

abbrev waiting_queue : Queue ScoredPost
waiting_queue = (delivery, scored_post) ∷ []

end_session-Reported_example :
    let o = (end_session confirming (raised failure) waiting_queue []).0 in
    let h' = (end_session confirming (raised failure) waiting_queue []).1 in
    ((o ≡ raised failure) × AllSettled confirming (delivery ∷ []) h')
    ⊎ ((tags : List ℕ) × (attempted : ℕ) × (o ≡ raised (requeue_error tags attempted))
        × All (Handled confirming confirming-IsFaithful h' tags) (delivery ∷ []))
    ⊎ ((o ≡ cancelled)
        × (((requeue_buffered_messages confirming waiting_queue).0 []).0 ≡ cancelled))
end_session-Reported_example =
    end_session-Reported confirming confirming-IsFaithful failure waiting_queue []
