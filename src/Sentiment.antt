-- ===== src/Sentiment.antt =====
-- sentiment-service/main.py: clean posts are scored in batches.
pub mod Delivery
pub mod Settles
pub mod Keeping
use social_sentiment.Prelude.{
  ℕ, suc, ◌+◌, String, Bool, true, false, Option, none, some, List, [], ◌∷◌, map, length, zip, ◌==◌,
  ◌<>◌, decimal, Dict, if◌then◌else◌, zip3,
}
use social_sentiment.Schemas.{CleanPost, ScoredPost, Score, make_scored_post}
use social_sentiment.Outcome.{Outcome, ok, raised, cancelled, Error, runtime_error}
use social_sentiment.Broker.{
  Message, Publication, publish, ack, Broker, History, Exec, pure, perform, ◌>>=◌, ◌>>◌, try_except,
  catch, lift,
}
use social_sentiment.Messaging.{Disposition, dead_letter_message, retry_or_dead_letter}
use social_sentiment.Worker.{Worker, Turn, run_turns}

-- What `process_batch` uses of other code: the schema library, the sentiment model, the clock, and
-- the names of its queues.
pub record Services : Type 0 where
  pub broker : Broker
  pub input_queue : String
  pub output_queue : String
  -- `CleanPost.model_validate_json`
  pub decode : String → Option CleanPost
  pub validation_text : String → String
  -- `ScoredPost.model_dump_json`
  pub encode : ScoredPost → String
  -- `model.predict_batch` in a thread: a label and its scores for each text
  pub predict_batch : History → List String → Outcome (List (String × Dict Score))
  pub version : String
  pub model_hash : String
  pub now : History → ℕ

abbrev pub batch_size : ℕ
batch_size = 32

abbrev pub Result : Type 0
Result = String × Dict Score

module _ (s : Services) where
  abbrev pub scored_publication : ScoredPost → Publication
  scored_publication scored = record {
    routing_key = s.output_queue;
    body = s.encode scored;
    content_type = none;
    persistent = true;
    headers = [];
  }

  -- `for message in batch_messages: await retry_or_dead_letter(...)`
  retry_each : List Message → Error → Exec (Unit {0})
  retry_each [] error = pure tt
  retry_each (message ∷ messages) error = do
    retry_or_dead_letter s.broker message s.input_queue error
    retry_each messages error

  -- after the `publish` of one scored post: the count goes up once the input is acknowledged
  unfoldable pub acknowledge : ℕ → Message → Bool → Exec ℕ
  acknowledge processed_count message false = pure processed_count
  acknowledge processed_count message true = do
    perform s.broker (ack message)
    pure (processed_count + 1)

  -- the `publish` with its `except Exception`; `false` is the `continue`
  unfoldable pub send : Message → ScoredPost → Exec Bool
  send message scored =
      catch (do perform s.broker (publish (scored_publication scored)); pure true)
        λ e. do retry_or_dead_letter s.broker message s.input_queue e; pure false

  -- one round of the loop over posts, results and messages, from the `ScoredPost(...)` on
  unfoldable pub handle_scored : ℕ → Message → Outcome ScoredPost → Exec ℕ
  unfolding send acknowledge
  handle_scored processed_count message (ok scored) = do
    sent ← send message scored
    acknowledge processed_count message sent
  handle_scored processed_count message (raised e) = do
    dead_letter_message s.broker message s.input_queue e
    pure processed_count
  handle_scored processed_count message cancelled = lift cancelled

  unfoldable pub score : CleanPost → Result → ℕ → Outcome ScoredPost
  score post (label, scores) scored_at =
      make_scored_post post label scores scored_at s.version s.model_hash

  unfoldable pub publish_each : ℕ → List (CleanPost × Result × Message) → Exec ℕ
  unfolding handle_scored score
  publish_each processed_count [] = pure processed_count
  publish_each processed_count ((post, result, message) ∷ rest) = do
    scored_at ← λ h. (ok (s.now h), h)
    count ← handle_scored processed_count message (score post result scored_at)
    publish_each count rest

  abbrev pub count_error : ℕ → ℕ → Error
  count_error results posts = runtime_error (
      "sentiment model returned "
      <> decimal results
      <> " results for "
      <> decimal posts
      <> " posts")

  -- what follows the inference; the result is the count that the metric is raised by
  unfoldable pub use_results : List CleanPost → List Message → Outcome (List Result) → Exec ℕ
  unfolding retry_each publish_each
  use_results posts messages cancelled = lift cancelled
  use_results posts messages (raised e) = do retry_each messages e; pure 0
  use_results posts messages (ok results) =
      if length results == length posts
      then publish_each 0 (zip3 posts results messages)
      else (do retry_each messages (count_error (length results) (length posts)); pure 0)

  unfoldable pub process_batch : List CleanPost → List Message → Exec ℕ
  unfolding use_results
  process_batch posts messages h =
      use_results posts messages (s.predict_batch h (map (λ post. post.text) posts)) h

  -- the loop of the worker, which waits for nothing but its queue, the clock and the batch
  unfoldable pub batch_worker : Worker CleanPost → List (Turn CleanPost) → Exec (Worker CleanPost)
  unfolding process_batch
  batch_worker =
      run_turns s.broker batch_size (λ posts messages. process_batch posts messages >> pure tt)
