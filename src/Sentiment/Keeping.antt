-- ===== src/Sentiment/Keeping.antt =====
-- About the deliveries that the sentiment worker was given.
use social_sentiment.Worker.Bounds.{IsSound, run_turns-IsSound}
use social_sentiment.Worker.{Worker, Turn}
use social_sentiment.Sentiment.{Services, process_batch, batch_worker, batch_size}
use social_sentiment.Broker.{IsFaithful, Message, History, ◌>>=◌, pure, ◌>>◌}
use social_sentiment.Prelude.{List, length, ◌≡◌, ◌⊎◌, arith}
use social_sentiment.Schemas.{CleanPost}
use social_sentiment.Broker.Triples.{Triple, Anything, Triple-bind, Triple-pure}
use social_sentiment.Broker.Settled.{AllSettled, Settled}
use social_sentiment.Sentiment.Settles.{process_batch-Triple}
use social_sentiment.Worker.Keeping.{Among, Arrives, run_turns-Kept}
use social_sentiment.Outcome.{ok}

module _ (s : Services) (faithful : IsFaithful s.broker) where
  flush-Triple :
      (held : List Message) (posts : List CleanPost) (messages : List Message)
      → length messages ≡ length posts
      → Triple
          (AllSettled s.broker held)
          Anything
          (process_batch s posts messages >>= (λ n. pure tt))
          (λ x. AllSettled s.broker messages)
  flush-Triple held posts messages q =
      Triple-bind _ _ (process_batch-Triple s faithful held posts messages q)
        (λ n. Triple-pure tt (λ h x. x))

  -- With a client that marks settled deliveries, a sentiment worker that starts with a sound
  -- batch and still runs has a sound batch of fewer than thirty-two posts, and every delivery
  -- that was settled, waited or arrived is settled or waits in it.
  pub batch_worker-Kept :
      (m : Message) (w w' : Worker CleanPost) (ts : List (Turn CleanPost)) (h : History)
      → IsSound batch_size w
      → (Settled s.broker h m ⊎ Among m w.messages) ⊎ Arrives m ts
      → (batch_worker s w ts h).0 ≡ ok w'
      → IsSound batch_size w' × (Settled s.broker (batch_worker s w ts h).1 m ⊎ Among m w'.messages)
  unfolding batch_worker
  batch_worker-Kept m w w' ts h k0 k e = (
    run_turns-IsSound s.broker batch_size
        (λ posts messages. process_batch s posts messages >> pure tt) (omega arith) w ts h w' k0 e,
    run_turns-Kept s.broker faithful batch_size
        (λ posts messages. process_batch s posts messages >> pure tt) flush-Triple (omega arith) m w
        w' ts h k0 k e,
  )
