-- ===== src/RedditProducer.antt =====
-- reddit-producer/main.py: one poll of the feed and the delay until the next one. The HTTP client, the
-- reading of JSON, the clock and the broker's answers are parameters. A delay is in milliseconds.
pub mod Delays
pub mod Advanced
pub mod Whole
use social_sentiment.Gdelt.{
  PollStatus, PollOutcome, poll_outcome, success, is_rate_limited, is_blocked, transient_error,
  error,
}
use social_sentiment.Symbols.{SymbolRegistry, Letters, match_symbol, keywords_map}
use social_sentiment.GlobalEvents.{Act, pure, ◌>>=◌, ◌>>◌}
use social_sentiment.Prelude.Int.{ℤ, pos, negsuc, leb_ℤ, ltb_ℤ, pos_part}
use social_sentiment.Prelude.{
  ℕ, String, Option, List, some, min, Bool, if◌then◌else◌, ◌*◌, max, ◌-◌, take, any, ◌<>◌, ◌∷◌, map,
  none, ◌+◌, str_eq, text_of, suc, filter, ◌==◌, [], chars, leb, get_or, ◌&&◌, ltb, not,
}
use social_sentiment.Schemas.{RawPost}
use social_sentiment.Outcome.{ok, Outcome, raised, cancelled}

-- The environment's settings, in milliseconds.
pub record Settings : Type 0 where
  pub poll_interval : ℕ
  pub max_backoff : ℕ
  pub transient_retry_interval : ℕ
  pub transient_retry_jitter : ℕ

-- `int` of the header, where it is a number
unfoldable pub parse_retry_after : (String → Option ℤ) → Option String → Option ℤ
parse_retry_after int_of none = none
parse_retry_after int_of (some value) = positive (int_of value)
  where
    positive : Option ℤ → Option ℤ
    positive none = none
    positive (some seconds) = if ltb_ℤ (pos 0) seconds then some seconds else none

-- `min(float(retry_after_seconds), float(MAX_BACKOFF))`
abbrev pub retry_delay : Settings → Option ℤ → ℕ → ℕ
retry_delay c none current_backoff = min (current_backoff * 2) c.max_backoff
retry_delay c (some seconds) current_backoff = min (pos_part seconds * 1000) c.max_backoff

abbrev pub retry_interval : Settings → ℕ
retry_interval c = min c.poll_interval (max 1000 c.transient_retry_interval)

-- the jitter that is drawn, within its bounds
abbrev pub bounded_jitter : Settings → ℕ → ℕ
bounded_jitter c jitter =
    min jitter (min c.transient_retry_jitter (c.poll_interval - retry_interval c))

abbrev pub delay_of : Settings → Option ℤ → ℕ → ℕ → PollStatus → ℕ
delay_of c retry_after current_backoff jitter is_rate_limited =
    retry_delay c retry_after current_backoff
delay_of c retry_after current_backoff jitter is_blocked = min (current_backoff * 2) c.max_backoff
delay_of c retry_after current_backoff jitter transient_error =
    retry_interval c + bounded_jitter c jitter
delay_of c retry_after current_backoff jitter _ = c.poll_interval

unfoldable pub next_poll_delay : Settings → PollOutcome → ℕ → ℕ → ℕ
next_poll_delay c o current_backoff jitter =
    delay_of c o.retry_after_seconds current_backoff jitter o.status

-- The data of a child of the feed; a field is missing where the program does not accept it.
pub record Comment : Type 0 where
  pub post_id : Option String
  pub body : Option String
  pub timestamp : Option ℕ
  pub score : Option ℤ

-- What the request ends with: an error, or a status with the children of its payload, which are
-- missing where the payload is not what it should be. A child is missing where it is no object.
pub data Response : Type 0 where
  request_error : Response
  answer : ℕ → Option String → Option (List (Option Comment)) → Response

-- The deque of the processed ids, the newest first, the posts that the broker has taken, the newest
-- first, and the number of messages that were sent to it.
pub record Feed : Type 0 where
  pub processed_ids : List String
  pub published : List RawPost
  pub attempts : ℕ

abbrev pub maxlen : ℕ
maxlen = 2000

abbrev pub remember : String → Act Feed (Unit {0})
remember post_id s = (
  ok tt,
  record {
    processed_ids = take maxlen (post_id ∷ s.processed_ids);
    published = s.published;
    attempts = s.attempts;
  },
)

abbrev pub is_processed : String → List String → Bool
is_processed post_id ids = any (λ i. str_eq i post_id) ids

module _ (letters : Letters) (registry : SymbolRegistry) (strip : String → String) (now : ℕ)
    (commit : String) (broker : ℕ → Outcome (Unit {0})) where
  -- `max(1, int(comment.get("score", 1)))`
  abbrev engagement_of : Option ℤ → ℤ
  engagement_of none = pos 1
  engagement_of (some score) = if leb_ℤ score (pos 1) then pos 1 else score

  unfoldable pub raw_post : String → String → Comment → String → RawPost
  raw_post post_id body c symbol = record {
    id = "rd_" <> post_id;
    symbol = symbol;
    platform = "reddit";
    text = text_of (take 2000 (chars (strip body)));
    timestamp = get_or c.timestamp now;
    engagement = engagement_of c.score;
    ingested_at = now;
    engagement_observed_at = now;
    source_schema_version = pos 1;
    pipeline_git_commit = commit;
  }

  abbrev pub sent : RawPost → Outcome (Unit {0}) → Act Feed (Unit {0})
  sent post (ok x) s = (
    ok tt,
    record {
      processed_ids = s.processed_ids;
      published = post ∷ s.published;
      attempts = suc s.attempts;
    },
  )
  sent post (raised e) s = (
    raised e,
    record { processed_ids = s.processed_ids; published = s.published; attempts = suc s.attempts },
  )
  sent post cancelled s = (cancelled, s)

  unfoldable pub publish : RawPost → Act Feed (Unit {0})
  publish post s = sent post (broker s.attempts) s

  unfoldable pub publish_each : List RawPost → Act Feed (Unit {0})
  unfolding publish
  publish_each [] = pure tt
  publish_each (post ∷ posts) = do publish post; publish_each posts

  -- `for symbol in kw_map: if match_symbol(body, symbol)`
  unfoldable pub matched_posts : String → String → Comment → List RawPost
  unfolding raw_post
  matched_posts post_id body c =
      map (raw_post post_id body c)
        (filter (match_symbol letters body registry) (map (λ e. e.0) (keywords_map registry)))

  -- a comment that has an id which is not processed
  abbrev pub process_new : String → Comment → Option String → Act Feed (Unit {0})
  process_new post_id c none = remember post_id
  process_new post_id c (some body) =
      if str_eq body ""
      then remember post_id
      else (do publish_each (matched_posts post_id body c); remember post_id)

  abbrev pub process_id : Comment → Option String → Act Feed (Unit {0})
  process_id c none s = (ok tt, s)
  process_id c (some post_id) s =
      if is_processed post_id s.processed_ids then (ok tt, s) else process_new post_id c c.body s

  abbrev pub process_child : Option Comment → Act Feed (Unit {0})
  process_child none s = (ok tt, s)
  process_child (some c) s = process_id c c.post_id s

  unfoldable pub process_children : List (Option Comment) → Act Feed (Unit {0})
  unfolding publish_each matched_posts
  process_children [] = pure tt
  process_children (c ∷ cs) = do process_child c; process_children cs

  abbrev outcome : PollStatus → PollOutcome
  outcome status = record { status = status; retry_after_seconds = none }

  abbrev after_children : Option (List (Option Comment)) → Act Feed PollOutcome
  after_children none s = (ok (outcome transient_error), s)
  after_children (some cs) s = (do process_children cs; pure (outcome success)) s

  unfoldable pub fetch_and_process : (String → Option ℤ) → Response → Act Feed PollOutcome
  unfolding process_children parse_retry_after
  fetch_and_process int_of request_error s = (ok (outcome transient_error), s)
  fetch_and_process int_of (answer status_code retry_after children) s =
      if status_code == 403
      then (ok (outcome is_blocked), s)
      else if status_code == 429
      then (poll_outcome is_rate_limited (parse_retry_after int_of retry_after), s)
      else if leb 500 status_code && ltb status_code 600
      then (ok (outcome transient_error), s)
      else if not (status_code == 200)
      then (ok (outcome error), s)
      else after_children children s
