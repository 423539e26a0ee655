-- ===== src/Examples/Pipeline.antt =====
-- The theorems on the three services at concrete inputs.
use social_sentiment.Preprocessing
use social_sentiment.Sentiment
use social_sentiment.Storage
use social_sentiment.Worker.Bounds.{IsSound}
use social_sentiment.Worker.{
  arrival, fresh, Worker, run_turns, turn, guarded, recover, flush_if_due,
}
use social_sentiment.Examples.{
  confirming, ascii, clean_post, scored_post, raw_post, fair_scores, delivery,
  confirming-IsFaithful,
}
use social_sentiment.Text.{
  clean_text, strip, substitute, whitespace_length, drop_spaces, drop_last_spaces, put_back,
  span_length, url_length, username_length,
}
use social_sentiment.Broker.Traces.{AcksCovered}
use social_sentiment.Sentiment.{
  process_batch, batch_worker, use_results, publish_each, handle_scored, send, acknowledge, score,
}
use social_sentiment.Schemas.{
  CleanPost, ScoredPost, make_scored_post, validate_probability_scores, assemble,
}
use social_sentiment.Storage.{
  persist_scored_batch, db_writer_worker, insert_batch, after_insert, ack_each,
}
use social_sentiment.Prelude.{
  some, ◌∷◌, [], refl, ◌⊎◌, ◌≡◌, arith, inr, inl, subst, ◌≤◌, length, ◌+◌,
}
use social_sentiment.Outcome.{ok}
use social_sentiment.Prelude.Int.{pos}
use social_sentiment.Sentiment.Delivery.{process_batch-AcksCovered}
use social_sentiment.Storage.Delivery.{persist_scored_batch-AcksCovered}
use social_sentiment.Broker.Settled.{Settled, AllSettled}
use social_sentiment.Broker.{◌>>=◌, perform, catch, pure}
use social_sentiment.Worker.Keeping.{Among}
use social_sentiment.Sentiment.Keeping.{batch_worker-Kept}
use social_sentiment.Storage.Settles.{db_writer_worker-Kept, persist_scored_batch-Settles}
use social_sentiment.Preprocessing.{process_message, dropped, cleaned_text}
use social_sentiment.Sentiment.Settles.{process_batch-Settles}
use social_sentiment.Preprocessing.Delivery.{process_message-AcksCovered, process_message-drops}

abbrev preprocessing : Preprocessing.Services
preprocessing = record {
  broker = confirming;
  characters = ascii;
  input_queue = "raw-posts";
  output_queue = "clean-posts";
  decode = λ body. some raw_post;
  validation_text = λ body. "";
  encode = λ clean. clean.text;
  predict = λ h text. ok (pos 1, "topic");
  version = "v";
  model_hash = "hash";
  now = λ h n. n;
}

abbrev sentiment : Sentiment.Services
sentiment = record {
  broker = confirming;
  input_queue = "clean-posts";
  output_queue = "scored-posts";
  decode = λ body. some clean_post;
  validation_text = λ body. "";
  encode = λ scored. scored.clean.text;
  predict_batch = λ h texts. ok (("positive", fair_scores) ∷ []);
  version = "v";
  model_hash = "hash";
  now = λ h. 5;
}

process_message-AcksCovered_example :
    AcksCovered
      (Preprocessing.Delivery.Held preprocessing)
      (process_message preprocessing delivery []).1
unfolding clean_text strip substitute whitespace_length drop_spaces drop_last_spaces put_back
    span_length url_length username_length
process_message-AcksCovered_example =
    process_message-AcksCovered preprocessing delivery []
      (λ raw e.
        let same : raw_post ≡ raw = cc e in
        subst (λ r. 3 ≤ length (cleaned_text preprocessing r)) same (ground arith))
      tt

process_batch-AcksCovered_example :
    AcksCovered
      (Sentiment.Delivery.Held sentiment)
      (process_batch sentiment (clean_post ∷ []) (delivery ∷ []) []).1
process_batch-AcksCovered_example =
    process_batch-AcksCovered sentiment (clean_post ∷ []) (delivery ∷ []) [] (refl, tt) tt

process_batch-Settles_example :
    AllSettled confirming
      (delivery ∷ [])
      (process_batch sentiment (clean_post ∷ []) (delivery ∷ []) []).1
unfolding process_batch use_results publish_each handle_scored send acknowledge score
    make_scored_post validate_probability_scores assemble ◌>>=◌ perform catch
process_batch-Settles_example =
    process_batch-Settles sentiment confirming-IsFaithful (clean_post ∷ []) (delivery ∷ []) [] 1
      refl refl

abbrev waiting : Worker CleanPost
waiting = record { posts = clean_post ∷ []; messages = delivery ∷ []; last_flush = 10 }

batch_worker-Kept_example :
    IsSound Sentiment.batch_size waiting
    × (Settled confirming
          (batch_worker sentiment (fresh 0) (arrival delivery clean_post 10 20 20 ∷ []) []).1
          delivery
        ⊎ Among delivery waiting.messages)
unfolding batch_worker run_turns turn guarded recover flush_if_due ◌>>=◌ pure
batch_worker-Kept_example =
    batch_worker-Kept sentiment confirming-IsFaithful delivery (fresh 0) waiting
      (arrival delivery clean_post 10 20 20 ∷ []) [] (record { aligned = refl; room = omega arith })
      (inr (inl refl)) refl

persist_scored_batch-AcksCovered_example :
    AcksCovered
      (Storage.Delivery.Held confirming "scored-posts" (λ body. some scored_post))
      (persist_scored_batch confirming "scored-posts" (scored_post ∷ []) (delivery ∷ []) []).1
persist_scored_batch-AcksCovered_example =
    persist_scored_batch-AcksCovered confirming "scored-posts" (λ body. some scored_post)
      (scored_post ∷ []) (delivery ∷ []) [] (refl, tt) tt

persist_scored_batch-Settles_example :
    AllSettled confirming
      (delivery ∷ [])
      (persist_scored_batch confirming "scored-posts" (scored_post ∷ []) (delivery ∷ []) []).1
    × (1 + 0 ≡ length (scored_post ∷ []))
unfolding persist_scored_batch insert_batch after_insert ack_each ◌>>=◌ perform catch
persist_scored_batch-Settles_example =
    persist_scored_batch-Settles confirming confirming-IsFaithful "scored-posts" (scored_post ∷ [])
      (delivery ∷ []) []
      (record { affected_rows = 1; stored_messages = 1; dead_lettered_messages = 0 }) refl refl

abbrev stored : Worker ScoredPost
stored = record { posts = scored_post ∷ []; messages = delivery ∷ []; last_flush = 10 }

db_writer_worker-Kept_example :
    IsSound Storage.batch_size stored
    × (Settled confirming
          (db_writer_worker confirming "scored-posts"
            (fresh 0)
            (arrival delivery scored_post 10 20 20 ∷ [])
            []).1
          delivery
        ⊎ Among delivery stored.messages)
unfolding db_writer_worker run_turns turn guarded recover flush_if_due ◌>>=◌ pure
db_writer_worker-Kept_example =
    db_writer_worker-Kept confirming confirming-IsFaithful "scored-posts" delivery (fresh 0) stored
      (arrival delivery scored_post 10 20 20 ∷ []) []
      (record { aligned = refl; room = omega arith }) (inr (inl refl)) refl
