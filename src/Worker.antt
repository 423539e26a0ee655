-- ===== src/Worker.antt =====
-- The batch worker of the sentiment service and of the storage service: `batch_worker` and
-- `db_writer_worker`. Posts are gathered until the batch is full or old enough, and then flushed.
-- Times are microseconds. What `queue.get()` and the clock answer is a sequence of turns.
pub mod Bounds
pub mod Keeping
use social_sentiment.Prelude.{
  ℕ, ◌+◌, ◌-◌, Bool, true, false, not, ◌&&◌, ◌||◌, List, [], ◌∷◌, ◌++◌, length, leb, max, is_empty,
  if◌then◌else◌,
}
use social_sentiment.Outcome.{Outcome, ok, raised, cancelled, Error, is_requeue_error}
use social_sentiment.Broker.{Message, Broker, History, Exec, pure, raise, lift, ◌>>=◌, ◌>>◌}
use social_sentiment.Messaging.{requeue_unprocessed_messages}

abbrev pub batch_timeout : ℕ
batch_timeout = 1000000

-- `max(0.01, BATCH_TIMEOUT - elapsed)` with `elapsed = now - last_flush`
abbrev pub remaining : ℕ → ℕ → ℕ
remaining last_flush now = max 10000 (last_flush + batch_timeout - now)

pub record Worker (P : Type 0) : Type 0 where
  pub posts : List P
  pub messages : List Message
  pub last_flush : ℕ

-- One round of the loop: what the queue gave, with the readings of the clock when it gave it, at
-- the test for a flush and after the flush.
pub data Turn (P : Type 0) : Type 0 where
  arrival : Message → P → ℕ → ℕ → ℕ → Turn P
  timeout : ℕ → ℕ → Turn P
  shutdown : Turn P

module _ {P : Type 0} where
  abbrev pub fresh : ℕ → Worker P
  fresh at = record { posts = []; messages = []; last_flush = at }

  -- after `queue.get()`; the first post of a batch starts its age
  abbrev pub accept : Worker P → Message → P → ℕ → Worker P
  accept w message post at = record {
    posts = w.posts ++ post ∷ [];
    messages = w.messages ++ message ∷ [];
    last_flush = if is_empty w.posts then at else w.last_flush;
  }

  -- `len(batch_posts) >= BATCH_SIZE or (batch_posts and now - last_flush >= BATCH_TIMEOUT)`
  abbrev pub is_due : ℕ → Worker P → ℕ → Bool
  is_due batch_size w now =
      leb batch_size (length w.posts)
      || (not (is_empty w.posts) && leb (w.last_flush + batch_timeout) now)

  module _ (b : Broker) (batch_size : ℕ) (flush : List P → List Message → Exec (Unit {0})) where
    unfoldable pub flush_if_due : Worker P → ℕ → ℕ → Exec (Worker P)
    flush_if_due w now after =
        if is_due batch_size w now
        then (do flush w.posts w.messages; pure (fresh after))
        else pure w

    -- the outer `except` clauses, over the batch as it stands when the exception arrives
    unfoldable pub recover : Worker P → Outcome (Worker P) → Exec (Worker P)
    recover w (ok w') h = (ok w', h)
    recover w (raised e) h =
        if is_requeue_error e.kind
        then (raised e, h)
        else (do
          requeue_unprocessed_messages b w.messages
          pure (record w { posts = []; messages = [] }))
            h
    recover w cancelled h = (cancelled, (requeue_unprocessed_messages b w.messages h).1)

    unfoldable pub guarded : Worker P → Exec (Worker P) → Exec (Worker P)
    unfolding recover
    guarded w body h = let (o, h') = body h in recover w o h'

    -- an empty batch waits with no timeout
    after_timeout : Bool → Worker P → ℕ → ℕ → Exec (Worker P)
    unfolding flush_if_due guarded
    after_timeout true w now after = pure w
    after_timeout false w now after = guarded w (flush_if_due w now after)

    unfoldable pub turn : Worker P → Turn P → Exec (Worker P)
    unfolding flush_if_due guarded after_timeout
    turn w (arrival message post at now after) =
        let w' = accept w message post at in guarded w' (flush_if_due w' now after)
    turn w (timeout now after) = after_timeout (is_empty w.posts) w now after
    turn w shutdown = guarded w (lift cancelled)

    -- the loop over the turns that the queue gives; it ends early when a turn does not return
    unfoldable pub run_turns : Worker P → List (Turn P) → Exec (Worker P)
    unfolding turn
    run_turns w [] = pure w
    run_turns w (t ∷ ts) = do w' ← turn w t; run_turns w' ts
