-- ===== src/GlobalEvents.antt =====
-- global-events-producer/main.py: the events that a provider reports for a rule are stored and
-- linked to the rule's stock, up to a number for each day. The database and the provider are code of
-- others: the actions below run over any state of theirs. Times are microseconds.
pub mod Caps
pub mod Actions
pub mod Polling
use Prim.Native.Nat.{◌/◌}
use social_sentiment.Outcome.{Outcome, ok, raised, cancelled, Error, runtime_error}
use social_sentiment.Prelude.{
  ◌||◌, ◌&&◌, ℕ, String, List, Option, ◌∷◌, Bool, if◌then◌else◌, map, ◌+◌, ◌==◌, leb, some, [], ◌≡◌,
  none, true, false,
}

-- `event.occurred_at.date()` of a time in UTC
abbrev pub day_of : ℕ → ℕ
day_of at = at / 86400000000

pub record EventRule : Type 0 where
  pub id : ℕ
  pub symbol : String
  pub name : String
  pub countries : List String
  pub themes : List String
  pub query_terms : List String

pub record NormalizedEventSignal : Type 0 where
  pub provider : String
  pub provider_event_id : String
  pub canonical_url : String
  pub title : String
  pub summary : Option String
  pub source_name : Option String
  pub occurred_at : ℕ
  pub countries : List String
  pub themes : List String

-- An action on a state ends with an outcome.
abbrev pub Act : Type 0 → Type 0 → Type 0
Act S A = S → Outcome A × S

module _ {S A B : Type 0} where
  abbrev pub continue : (A → Act S B) → Outcome A → Act S B
  continue f (ok a) s = f a s
  continue f (raised e) s = (raised e, s)
  continue f cancelled s = (cancelled, s)

  infixl 10 ◌>>=◌ ◌>>◌
  unfoldable pub ◌>>=◌ : Act S A → (A → Act S B) → Act S B
  ◌>>=◌ m f s = let (o, s') = m s in continue f o s'

  abbrev pub ◌>>◌ : Act S A → Act S B → Act S B
  m >> n = m >>= λ _. n

module _ {S A : Type 0} where
  unfoldable pub pure : A → Act S A
  pure a s = (ok a, s)

  unfoldable pub raise : Error → Act S A
  raise e s = (raised e, s)

-- The number of links of each day: a `dict` whose latest entry of a key counts.
abbrev pub DailyCounts : Type 0
DailyCounts = List (ℕ × ℕ)

abbrev pub count_on : ℕ → DailyCounts → ℕ
count_on day [] = 0
count_on day ((d, n) ∷ rest) = if d == day then n else count_on day rest

abbrev pub is_among : ℕ → List ℕ → Bool
is_among n [] = false
is_among n (m ∷ ms) = m == n || is_among n ms

-- `WHERE link.rule_id = ... AND ... = ANY(days) GROUP BY` the day, with the number of rows of each
unfoldable pub group_days : ℕ → List ℕ → List (ℕ × ℕ) → DailyCounts
group_days rule_id days [] = []
group_days rule_id days ((id, at) ∷ rows) =
    let counts = group_days rule_id days rows in
    if id == rule_id && is_among (day_of at) days
    then (day_of at, count_on (day_of at) counts + 1) ∷ counts
    else counts

-- What is documented of a transaction: it ends well only with what its action ended with.
pub record IsTransaction {S : Type 0}
    (transaction : Act S (DailyCounts × ℕ) → Act S (DailyCounts × ℕ)) : Type 0 where
  pub committed :
      (m : Act S (DailyCounts × ℕ)) (s : S) (a : DailyCounts × ℕ)
      → (transaction m s).0 ≡ ok a
      → (t : S) × ((m t).0 ≡ ok a)

-- The statements that `store_rule_events` sends, the provider and the limiter.
pub record Services (S : Type 0) : Type 0 where
  pub load_rules : Act S (List EventRule)
  -- `stock_event_links AS link JOIN global_event_signals AS signal ON signal.id = link.event_id`: the
  -- rule of each link and the time of its signal
  pub joined_links : Act S (List (ℕ × ℕ))
  -- `INSERT INTO global_event_signals ... ON CONFLICT DO NOTHING RETURNING id`
  pub insert_signal : NormalizedEventSignal → Act S (Option ℕ)
  pub find_signal : NormalizedEventSignal → Act S (Option ℕ)
  pub update_signal : NormalizedEventSignal → ℕ → Act S (Unit {0})
  -- `INSERT INTO stock_event_links ... RETURNING event_id`: whether a row came back
  pub insert_link : ℕ → EventRule → Act S Bool
  -- `async with conn.transaction()` around an action
  pub transaction : Act S (DailyCounts × ℕ) → Act S (DailyCounts × ℕ)
  pub acquire : Act S (Unit {0})
  -- `adapter.fetch`
  pub fetch : EventRule → ℕ → ℕ → Act S (List NormalizedEventSignal)

-- `sorted(events, key=lambda item: item.occurred_at)`
unfoldable pub insert_event :
    NormalizedEventSignal → List NormalizedEventSignal → List NormalizedEventSignal
insert_event event [] = event ∷ []
insert_event event (e ∷ es) =
    let rest = insert_event event es in
    if leb event.occurred_at e.occurred_at then event ∷ e ∷ es else e ∷ rest

unfoldable pub sort_events : List NormalizedEventSignal → List NormalizedEventSignal
unfolding insert_event
sort_events [] = []
sort_events (e ∷ es) = insert_event e (sort_events es)

module _ {S : Type 0} (db : Services S) (cap_per_day : ℕ) (rule : EventRule) where
  -- after a conflict: the stored signal takes the new fields
  pub refresh_signal : NormalizedEventSignal → Option ℕ → Act S ℕ
  refresh_signal event none = raise (runtime_error "event deduplication conflict was not found")
  refresh_signal event (some event_id) = do db.update_signal event event_id; pure event_id

  unfoldable pub signal_id : NormalizedEventSignal → Option ℕ → Act S ℕ
  unfolding refresh_signal
  signal_id event (some event_id) = pure event_id
  signal_id event none = do existing ← db.find_signal event; refresh_signal event existing

  -- the counts when the link was inserted or was there already
  unfoldable pub count_link : DailyCounts → ℕ → ℕ → Bool → DailyCounts × ℕ
  count_link counts linked day true = ((day, count_on day counts + 1) ∷ counts, linked + 1)
  count_link counts linked day false = (counts, linked)

  unfoldable pub link_event : DailyCounts → ℕ → NormalizedEventSignal → Act S (DailyCounts × ℕ)
  unfolding signal_id count_link
  link_event counts linked event = do
    inserted ← db.insert_signal event
    event_id ← signal_id event inserted
    is_new ← db.insert_link event_id rule
    pure (count_link counts linked (day_of event.occurred_at) is_new)

  -- one round of the loop
  unfoldable pub store_event : DailyCounts → ℕ → NormalizedEventSignal → Act S (DailyCounts × ℕ)
  unfolding link_event
  store_event counts linked event =
      if leb cap_per_day (count_on (day_of event.occurred_at) counts)
      then pure (counts, linked)
      else link_event counts linked event

  unfoldable pub store_each : DailyCounts → ℕ → List NormalizedEventSignal → Act S (DailyCounts × ℕ)
  unfolding store_event
  store_each counts linked [] = pure (counts, linked)
  store_each counts linked (event ∷ events) = do
    next ← store_event counts linked event
    store_each next.0 next.1 events

  unfoldable pub existing_daily_counts : List NormalizedEventSignal → Act S DailyCounts
  unfolding group_days
  existing_daily_counts [] = pure []
  existing_daily_counts (event ∷ events) = do
    rows ← db.joined_links
    pure (group_days rule.id (map (λ e. day_of e.occurred_at) (event ∷ events)) rows)

  -- behind the early return
  unfoldable pub store_some : List NormalizedEventSignal → Act S ℕ
  unfolding existing_daily_counts store_each sort_events
  store_some events = do
    counts ← existing_daily_counts events
    stored ← db.transaction (store_each counts 0 (sort_events events))
    pure stored.1

  unfoldable pub store_rule_events : List NormalizedEventSignal → Act S ℕ
  unfolding store_some
  store_rule_events [] = pure 0
  store_rule_events (event ∷ events) =
      if leb cap_per_day 0 then pure 0 else store_some (event ∷ events)

module _ {S : Type 0} (db : Services S) (max_per_rule_per_day : ℕ) (since : ℕ) where
  -- the body of the `try`
  poll_rule : EventRule → Act S ℕ
  unfolding store_rule_events
  poll_rule rule = do
    events ← db.fetch rule since max_per_rule_per_day
    store_rule_events db max_per_rule_per_day rule events

  -- the `except` clauses: only a cancellation leaves the loop
  after_rule : ℕ → Outcome ℕ → Outcome ℕ
  after_rule total_linked (ok linked) = ok (total_linked + linked)
  after_rule total_linked (raised e) = ok total_linked
  after_rule total_linked cancelled = cancelled

  guarded_poll : ℕ → EventRule → Act S ℕ
  unfolding poll_rule after_rule
  guarded_poll total_linked rule s =
      let (o, s') = poll_rule rule s in (after_rule total_linked o, s')

  poll_each : ℕ → List EventRule → Act S ℕ
  unfolding guarded_poll
  poll_each total_linked [] = pure total_linked
  poll_each total_linked (rule ∷ rules) = do
    db.acquire
    total_linked' ← guarded_poll total_linked rule
    poll_each total_linked' rules

  pub poll_once : Act S ℕ
  unfolding poll_each
  poll_once = do rules ← db.load_rules; poll_each 0 rules
