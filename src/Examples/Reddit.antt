-- ===== src/Examples/Reddit.antt =====
-- The theorems on the feed of Reddit at a concrete feed.
use social_sentiment.RedditProducer.Whole.{fetch_and_process_whole}
use social_sentiment.RedditProducer.{
  process_children, publish_each, publish, matched_posts, raw_post,
}
use social_sentiment.GlobalEvents.{pure, ◌>>=◌}
use social_sentiment.Symbols.{
  match_symbol, match_found, match_config, search_word, word_at, is_in_text,
}
use social_sentiment.RedditProducer.Advanced.{
  AllExplained, fetch_and_process-AllExplained, Explained,
}
use Prim.Native.Char.{code}
use social_sentiment.RedditProducer.{Comment, Feed, fetch_and_process, answer}
use social_sentiment.Prelude.{List, some, Option, ◌==◌, [], ◌∷◌, none, true, false, ℕ, inl, refl}
use social_sentiment.Symbols.{Letters, SymbolRegistry, SymbolConfig}
use social_sentiment.Prelude.Int.{pos}
use social_sentiment.Outcome.{raised, Outcome, ok}
use social_sentiment.Examples.{failure}
use social_sentiment.Gdelt.{PollOutcome, success}

abbrev one_comment : Comment
one_comment = record {
  post_id = some "c1";
  body = some "NVDA up";
  timestamp = none;
  score = some (pos 3);
}

abbrev comments : List (Option Comment)
comments = some one_comment ∷ none ∷ []

abbrev letters : Letters
letters = record { lower = λ s. s; same_letter = λ a b. code a == code b }

abbrev config : SymbolConfig
config = record {
  keywords = "Nvidia" ∷ [];
  future = none;
  sector = none;
  require_uppercase = true;
  block_phrases = [];
  require_cashtag = false;
}

abbrev registry : SymbolRegistry
registry = record {
  refresh_interval = 60;
  retry_base = 1;
  retry_max = 60;
  connect_timeout = 5;
  symbols = ("NVDA", config) ∷ [];
}

abbrev feed_state : Feed
feed_state = record { processed_ids = "c0" ∷ []; published = []; attempts = 0 }

fetch_and_process-AllExplained_example :
    AllExplained letters registry
      (λ s. s)
      5
      "abc"
      (λ n. raised failure)
      ("c0" ∷ [])
      comments
      (fetch_and_process letters registry
        (λ s. s)
        5
        "abc"
        (λ n. raised failure)
        (λ s. none)
        (answer 200 none (some comments))
        feed_state).1
fetch_and_process-AllExplained_example =
    fetch_and_process-AllExplained letters registry (λ s. s) 5 "abc" (λ n. raised failure)
      (λ s. none) 200 none comments feed_state

abbrev taken : ℕ → Outcome (Unit {0})
taken n = ok tt

abbrev succeeded : PollOutcome
succeeded = record { status = success; retry_after_seconds = none }

fetch_and_process_whole_example :
    Explained letters registry
      (λ s. s)
      5
      "abc"
      taken
      ("c0" ∷ [])
      comments
      (fetch_and_process letters registry
        (λ s. s)
        5
        "abc"
        taken
        (λ s. none)
        (answer 200 none (some comments))
        feed_state).1.published
      "c1"
unfolding fetch_and_process process_children publish_each publish matched_posts raw_post pure
    match_symbol match_found match_config search_word word_at is_in_text ◌>>=◌
fetch_and_process_whole_example =
    fetch_and_process_whole letters registry (λ s. s) 5 "abc" taken (λ s. none) none comments
      feed_state succeeded one_comment "c1" (inl refl) refl refl
