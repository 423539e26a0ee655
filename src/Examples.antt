-- ===== src/Examples.antt =====
-- Concrete services and messages on which the theorems of the services are tried.
mod Posts
mod Queues
mod Pipeline
mod Pace
mod Events
mod Registry
mod Schema
mod Funds
mod Rollups
mod Tables
mod Exports
mod Dashboard
mod Markets
mod Reddit
use Prim.Native.Char.{code}
use social_sentiment.Broker.{
  History, Broker, Call, IsFaithful, Message, done, Reply, ack, publish, insert_scored, fails, nack,
  cancels,
}
use social_sentiment.Outcome.{Error, runtime_error}
use social_sentiment.Schemas.{RawPost, CleanPost, ScoredPost, Score, positive, finite}
use social_sentiment.Prelude.{
  Dict, ℕ, arith, none, Bool, ◌≡◌, false, true, ◌∷◌, [], ◌==◌, ◌||◌, leb,
}
use social_sentiment.Text.{Characters}
use social_sentiment.Prelude.Int.{pos}

-- what the client library keeps as `processed`, read off the history
abbrev pub settled_in : History → ℕ → Bool
settled_in [] tag = false
settled_in ((ack m, done n) ∷ h) tag = (m.tag == tag) || settled_in h tag
settled_in ((nack m, done n) ∷ h) tag = (m.tag == tag) || settled_in h tag
settled_in (_ ∷ h) tag = settled_in h tag

-- a broker and a database that confirm every call
abbrev pub confirming : Broker
confirming = record { respond = λ h c. done 1; processed = settled_in; int_of_text = λ t. none }

later_is_settled :
    (c : Call) (r : Reply) (h : History) (tag : ℕ)
    → settled_in h tag ≡ true
    → settled_in ((c, r) ∷ h) tag ≡ true
later_is_settled (publish p) r h tag e = e
later_is_settled (insert_scored ps) r h tag e = e
later_is_settled (ack m) (done n) h tag e = ground arith
later_is_settled (ack m) (fails x) h tag e = e
later_is_settled (ack m) cancels h tag e = e
later_is_settled (nack m) (done n) h tag e = ground arith
later_is_settled (nack m) (fails x) h tag e = e
later_is_settled (nack m) cancels h tag e = e

pub confirming-IsFaithful : IsFaithful confirming
confirming-IsFaithful = record {
  acked = λ h m n. ground arith;
  nacked = λ h m n. ground arith;
  kept = λ h c r tag e. later_is_settled c r h tag e;
}

abbrev pub delivery : Message
delivery = record { tag = 7; body = "post"; content_type = none; headers = none }

abbrev pub other_delivery : Message
other_delivery = record { tag = 8; body = "other post"; content_type = none; headers = none }

abbrev pub failure : Error
failure = runtime_error "model unavailable"

abbrev pub raw_post : RawPost
raw_post = record {
  id = "1";
  symbol = "NVDA";
  platform = "reddit";
  text = "up again";
  timestamp = 1;
  engagement = pos 3;
  ingested_at = 2;
  engagement_observed_at = 2;
  source_schema_version = pos 1;
  pipeline_git_commit = "unknown";
}

abbrev pub clean_post : CleanPost
clean_post = record {
  id = "1";
  symbol = "NVDA";
  platform = "reddit";
  text = "up again";
  timestamp = 1;
  topic_id = none;
  topic_label = none;
  engagement = pos 3;
  ingested_at = 2;
  engagement_observed_at = 2;
  source_schema_version = pos 1;
  pipeline_git_commit = "unknown";
  cleaned_at = 3;
  topic_scored_at = 4;
  topic_model_version = "unknown";
  topic_model_hash = "unknown";
}

abbrev pub fair_scores : Dict Score
fair_scores =
    ("negative", finite (pos 200000000))
    ∷ ("neutral", finite (pos 300000000))
    ∷ ("positive", finite (pos 500000000))
    ∷ []

abbrev pub scored_post : ScoredPost
scored_post = record {
  clean = clean_post;
  sentiment = positive;
  scores = fair_scores;
  sentiment_scored_at = 5;
  sentiment_model_version = "v";
  sentiment_model_hash = "hash";
}

-- the characters of ASCII, without letter case
abbrev pub ascii : Characters
ascii = record {
  is_space = λ c. code c == 32;
  is_word = λ c. leb 65 (code c);
  same_letter = λ a b. code a == code b;
  unescape = λ cs. cs;
}
