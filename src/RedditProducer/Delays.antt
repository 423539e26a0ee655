-- ===== src/RedditProducer/Delays.antt =====
-- About the delay until the next poll.
use social_sentiment.RedditProducer.{Settings, next_poll_delay, retry_delay, delay_of}
use social_sentiment.Prelude.{Option, ℕ, ◌≤◌, arith, max, some, none}
use social_sentiment.Gdelt.{
  PollOutcome, PollStatus, success, no_data, is_rate_limited, is_blocked, transient_error, error,
}
use social_sentiment.Prelude.Int.{ℤ}

retry_delay-le :
    (c : Settings) (retry_after : Option ℤ) (current_backoff : ℕ)
    → retry_delay c retry_after current_backoff ≤ c.max_backoff
retry_delay-le c none current_backoff = omega arith
retry_delay-le c (some seconds) current_backoff = omega arith

delay_of-le :
    (c : Settings) (retry_after : Option ℤ) (current_backoff jitter : ℕ) (status : PollStatus)
    → delay_of c retry_after current_backoff jitter status ≤ max c.poll_interval c.max_backoff
delay_of-le c retry_after current_backoff jitter success = omega arith
delay_of-le c retry_after current_backoff jitter no_data = omega arith
delay_of-le c retry_after current_backoff jitter is_rate_limited =
    let h = retry_delay-le c retry_after current_backoff in omega (arith, h)
delay_of-le c retry_after current_backoff jitter is_blocked = omega arith
delay_of-le c retry_after current_backoff jitter transient_error = omega arith
delay_of-le c retry_after current_backoff jitter error = omega arith

-- Whatever the poll ended with, whatever a server asks for and whatever jitter is drawn, the delay is
-- not above the greater of the poll interval and the largest backoff.
pub next_poll_delay_limited :
    (c : Settings) (o : PollOutcome) (current_backoff jitter : ℕ)
    → next_poll_delay c o current_backoff jitter ≤ max c.poll_interval c.max_backoff
unfolding next_poll_delay
next_poll_delay_limited c o current_backoff jitter =
    delay_of-le c o.retry_after_seconds current_backoff jitter o.status
