-- ===== src/Gdelt.antt =====
-- global-events-producer/adapter.py and shared/polling.py: the query for a rule, the articles that
-- become event signals, and the outcomes of a poll. The HTTP client, the hash of an address and the
-- parsing of a time are parameters, as are the operations on texts of Python's library.
pub mod Articles
use social_sentiment.Outcome.{Outcome, ok, raised, cancelled, Error, ErrorKind, value_error}
use social_sentiment.GlobalEvents.{EventRule, NormalizedEventSignal}
use social_sentiment.Prelude.{
  String, List, slice_to, Option, if◌then◌else◌, ◌<>◌, ◌∷◌, ◌++◌, ℕ, none, Bool, [], is_blank, max,
  some, ◌||◌, min, any, str_eq,
}
use social_sentiment.Prelude.Int.{ℤ, leb_ℤ, pos}

-- What the program uses of texts: `normalize` replaces unsafe characters by spaces and squeezes
-- them, and `strip` is `str.strip`.
pub record Texts : Type 0 where
  pub normalize : String → String
  pub strip : String → String
  pub sha256 : String → String
  -- `datetime.strptime` with a pattern, in UTC; nothing is a `ValueError`
  pub strptime : String → String → Option ℕ
  -- `datetime.fromisoformat` with `Z` for the zone of UTC, in UTC
  pub fromisoformat : String → Option ℕ

abbrev quote : String
quote = "\""

module _ (texts : Texts) where
  pub query_atom : String → Outcome String
  query_atom value =
      let cleaned = texts.normalize value in
      if is_blank cleaned
      then raised (value_error "event query values cannot be empty")
      else ok (quote <> cleaned <> quote)

  abbrev add_atom : String → Outcome String → Outcome (List String) → Outcome (List String)
  add_atom before (ok atom) (ok atoms) = ok ((before <> atom) ∷ atoms)
  add_atom before (ok atom) (raised e) = raised e
  add_atom before (ok atom) cancelled = cancelled
  add_atom before (raised e) rest = raised e
  add_atom before cancelled rest = cancelled

  pub atoms_of : String → List String → Outcome (List String)
  unfolding query_atom
  atoms_of before [] = ok []
  atoms_of before (value ∷ values) = add_atom before (query_atom value) (atoms_of before values)

  -- `separator.join(parts)`
  abbrev pub join : String → List String → String
  join separator [] = ""
  join separator (part ∷ []) = part
  join separator (part ∷ next ∷ parts) = part <> separator <> join separator (next ∷ parts)

  -- the group of one kind of values, if there are some
  abbrev group_of : List String → Outcome (List String) → Outcome (List String)
  group_of [] o = ok []
  group_of (v ∷ vs) (ok atoms) = ok (("(" <> join " OR " atoms <> ")") ∷ [])
  group_of (v ∷ vs) (raised e) = raised e
  group_of (v ∷ vs) cancelled = cancelled

  abbrev both : Outcome (List String) → Outcome (List String) → Outcome (List String)
  both (ok a) (ok b) = ok (a ++ b)
  both (ok a) (raised e) = raised e
  both (ok a) cancelled = cancelled
  both (raised e) o = raised e
  both cancelled o = cancelled

  abbrev query_of : Outcome (List String) → Outcome String
  query_of (ok []) = raised (value_error "event rule must contain a country, theme, or term")
  query_of (ok (g ∷ gs)) = ok (join " AND " (g ∷ gs))
  query_of (raised e) = raised e
  query_of cancelled = cancelled

  pub build_gdelt_query : EventRule → Outcome String
  unfolding atoms_of
  build_gdelt_query rule = query_of (
      both (group_of rule.query_terms (atoms_of "" rule.query_terms)) (
        both (group_of rule.countries (atoms_of "" rule.countries))
          (group_of rule.themes (atoms_of "theme:" rule.themes))))

  -- An article of the payload, with `str(x or "")` for the address and the title and
  -- `str(article.get("domain"))`, and the clock when it is read.
  pub record Article : Type 0 where
    pub url : String
    pub title : String
    pub domain : String
    pub seendate : Option String
    pub read_at : ℕ

  abbrev first_time : Option ℕ → Option ℕ → Option ℕ
  first_time none other = other
  first_time (some at) other = some at

  -- nothing is a `ValueError`
  unfoldable pub parse_gdelt_timestamp : ℕ → Option String → Option ℕ
  parse_gdelt_timestamp now none = some now
  parse_gdelt_timestamp now (some value) =
      if str_eq value ""
      then some now
      else first_time (texts.strptime "%Y%m%dT%H%M%SZ" value)
          (first_time (texts.strptime "%Y%m%d%H%M%S" value) (texts.fromisoformat value))

  abbrev pub seen_at : Article → Option ℕ
  seen_at article = parse_gdelt_timestamp article.read_at article.seendate

  abbrev some_text : String → Option String
  some_text s = if is_blank s then none else some s

  abbrev pub event_of : EventRule → Article → ℕ → NormalizedEventSignal
  event_of rule article at = record {
    provider = "gdelt";
    provider_event_id = texts.sha256 (texts.strip article.url);
    canonical_url = texts.strip article.url;
    title = slice_to 1000 (texts.strip article.title);
    summary = none;
    source_name = some_text (slice_to 255 (texts.strip article.domain));
    occurred_at = at;
    countries = rule.countries;
    themes = rule.themes;
  }

  -- `not url or not title or url in seen_urls`
  abbrev pub is_skipped : List String → Article → Bool
  is_skipped seen_urls article =
      is_blank (texts.strip article.url)
      || is_blank (texts.strip article.title)
      || any (str_eq (texts.strip article.url)) seen_urls

  -- The text, which also quotes the value, is cut short.
  abbrev pub date_error : Error
  date_error = value_error "Invalid isoformat string"

  -- the event of an article with its time, before those of the later articles
  abbrev pub add_event :
      EventRule
      → Article
      → Option ℕ
      → Outcome (List NormalizedEventSignal)
      → Outcome (List NormalizedEventSignal)
  add_event rule article none later = raised date_error
  add_event rule article (some at) (ok later) = ok (event_of rule article at ∷ later)
  add_event rule article (some at) (raised e) = raised e
  add_event rule article (some at) cancelled = cancelled

  -- the loop over the articles
  pub events_from : EventRule → List String → List Article → Outcome (List NormalizedEventSignal)
  unfolding parse_gdelt_timestamp
  events_from rule seen_urls [] = ok []
  events_from rule seen_urls (article ∷ articles) =
      let without = events_from rule seen_urls articles in
      let later = events_from rule (texts.strip article.url ∷ seen_urls) articles in
      if is_skipped seen_urls article
      then without
      else add_event rule article (seen_at article) later

  -- An answer of the provider, by its status.
  pub data Response : Type 0 where
    too_many_requests : Response
    refused : Error → Response
    articles : List Article → Response

  abbrev rate_limited : Error
  rate_limited = record {
    kind = ErrorKind.other_failure;
    type_name = "EventProviderRateLimited";
    text = "event provider rate limited";
  }

  abbrev read_response : EventRule → Response → Outcome (List NormalizedEventSignal)
  read_response rule too_many_requests = raised rate_limited
  read_response rule (refused e) = raised e
  read_response rule (articles found) = events_from rule [] found

  -- `client.get`, with the query and the number of records, which is the parameter's answer
  pub fetch : (String → ℕ → Outcome Response) → EventRule → ℕ → Outcome (List NormalizedEventSignal)
  unfolding build_gdelt_query events_from
  fetch get rule max_results = elim (build_gdelt_query rule) [
    | ok query ↦ elim (get query (max 1 (min max_results 250))) [
      | ok response ↦ read_response rule response
      | raised e ↦ raised e
      | cancelled ↦ cancelled
    ]
    | raised e ↦ raised e
    | cancelled ↦ cancelled
  ]

pub data PollStatus : Type 0 where
  success no_data is_rate_limited is_blocked transient_error error : PollStatus

pub record PollOutcome : Type 0 where
  pub status : PollStatus
  pub retry_after_seconds : Option ℤ

abbrev pub poll_outcome : PollStatus → Option ℤ → Outcome PollOutcome
poll_outcome status none = ok (record { status = status; retry_after_seconds = none })
poll_outcome is_rate_limited (some seconds) =
    if leb_ℤ seconds (pos 0)
    then raised (value_error "retry_after_seconds must be positive")
    else ok (record { status = is_rate_limited; retry_after_seconds = some seconds })
poll_outcome _ (some seconds) =
    raised (value_error "retry_after_seconds requires a rate-limited outcome")
