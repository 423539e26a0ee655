-- ===== src/Pacing.antt =====
-- shared/pacing.py: the backoff of each symbol and the token bucket of a producer. Times are
-- nanoseconds and a rate counts billionths of an acquisition, so the smallest ones that the code
-- allows, `1e-9`, are 1; a token is `period` billions of units, which makes the refill exact.
pub mod Backoff
pub mod Limiter
use social_sentiment.Prelude.{
  ℕ, ◌+◌, ◌-◌, ◌*◌, String, Bool, true, false, Option, none, some, List, [], ◌∷◌, min, max, leb,
  ltb, get_or, filter, Dict, lookup, insert, erase, if◌then◌else◌,
}

pub record PerSymbolBackoff : Type 0 where
  pub base : ℕ
  pub max_backoff : ℕ
  pub penalty : Dict ℕ
  pub next_ok : Dict ℕ

unfoldable pub new_backoff : ℕ → ℕ → PerSymbolBackoff
new_backoff base_interval max_backoff = record {
  base = max base_interval 1;
  max_backoff = max max_backoff (max base_interval 1);
  penalty = [];
  next_ok = [];
}

-- `t >= self._next_ok.get(s, 0.0)`
abbrev pub is_due : PerSymbolBackoff → ℕ → String → Bool
is_due b now symbol = leb (get_or (lookup symbol b.next_ok) 0) now

pub due : PerSymbolBackoff → List String → ℕ → List String
due b symbols now = filter (is_due b now) symbols

abbrev pub next_penalty : PerSymbolBackoff → ℕ → ℕ
next_penalty b prev = min b.max_backoff (if ltb 0 prev then prev * 2 else b.base)

pub record_outcome : PerSymbolBackoff → String → Bool → ℕ → PerSymbolBackoff
record_outcome b symbol false now = record b {
  penalty = erase symbol b.penalty;
  next_ok = erase symbol b.next_ok;
}
record_outcome b symbol true now =
    let next = next_penalty b (get_or (lookup symbol b.penalty) 0) in
    record b {
      penalty = insert symbol next b.penalty;
      next_ok = insert symbol (now + next) b.next_ok;
    }

pub record RateLimiter : Type 0 where
  pub max_rate : ℕ
  pub period : ℕ
  pub tokens : ℕ
  pub last : ℕ

unfoldable pub new_limiter : ℕ → ℕ → ℕ → RateLimiter
new_limiter max_rate period now = record {
  max_rate = max max_rate 1;
  period = max period 1;
  tokens = max max_rate 1 * max period 1;
  last = now;
}

-- the units of a token
abbrev pub token : RateLimiter → ℕ
token l = l.period * 1000000000

-- the refill at the top of the loop of `acquire`
abbrev pub refill : RateLimiter → ℕ → RateLimiter
refill l now = record l {
  tokens = min (l.max_rate * l.period) (l.tokens + (now - l.last) * l.max_rate);
  last = now;
}

-- What one round of the loop does: the token is taken, or the caller sleeps for some time.
pub data Round : Type 0 where
  granted : Round
  sleeps : ℕ → Round

-- `deficit * (period / max_rate)` is `missing / max_rate` nanoseconds, for the missing units.
abbrev pub take_token : RateLimiter → RateLimiter × Round
take_token l =
    if leb (token l) l.tokens
    then (record l { tokens = l.tokens - token l }, granted)
    else (l, sleeps (token l - l.tokens))

unfoldable pub acquire_round : RateLimiter → ℕ → RateLimiter × Round
acquire_round l now = take_token (refill l now)

abbrev pub grants : Round → ℕ
grants granted = 1
grants (sleeps missing) = 0

-- The rounds of any number of acquisitions, one after the other under the lock, at the readings of
-- the clock; the number of tokens handed out comes back too.
pub run_rounds : RateLimiter → List ℕ → RateLimiter × ℕ
run_rounds l [] = (l, 0)
run_rounds l (now ∷ rest) =
    let (l', round) = acquire_round l now in
    let (l'', n) = run_rounds l' rest in (l'', grants round + n)
