-- ===== src/Examples/Events.antt =====
-- The theorems on global events at concrete inputs. The state is the links
-- with the times of their signals; a signal has its time as its id.
use social_sentiment.GlobalEvents.{
  Services, Act, pure, EventRule, store_rule_events, poll_once, NormalizedEventSignal, store_some,
  store_each, store_event, link_event, signal_id, count_link, sort_events, insert_event, count_on,
  existing_daily_counts, group_days,
}
use social_sentiment.Prelude.{ℕ, ◌∷◌, [], none, some, true, ◌+◌, ◌≤◌, max, List, arith, refl}
use social_sentiment.Outcome.{ok}
use social_sentiment.GlobalEvents.Caps.{store_rule_events-capped}

abbrev Links : Type 0
Links = List (ℕ × ℕ)

abbrev nothing : Act Links (Unit {0})
nothing s = (ok tt, s)

abbrev rule : EventRule
rule = record {
  id = 1;
  symbol = "TSM";
  name = "strait";
  countries = "TW" ∷ [];
  themes = [];
  query_terms = [];
}

abbrev event : ℕ → NormalizedEventSignal
event at = record {
  provider = "gdelt";
  provider_event_id = "1";
  canonical_url = "https://example.com";
  title = "title";
  summary = none;
  source_name = none;
  occurred_at = at;
  countries = [];
  themes = [];
}

abbrev services : Services Links
services = record {
  load_rules = λ s. (ok (rule ∷ []), s);
  joined_links = λ s. (ok s, s);
  insert_signal = λ e s. (ok (some e.occurred_at), s);
  find_signal = λ e s. (ok none, s);
  update_signal = λ e id s. (ok tt, s);
  insert_link = λ id r s. (ok true, (r.id, id) ∷ s);
  transaction = λ m s. m s;
  acquire = nothing;
  fetch = λ r since n s. (ok (event 7 ∷ []), s);
}

store_rule_events-capped_example : 1 + 1 ≤ max 2 1
unfolding store_rule_events store_some store_each store_event link_event signal_id count_link
    sort_events insert_event existing_daily_counts group_days social_sentiment.GlobalEvents.◌>>=◌
    pure
store_rule_events-capped_example =
    store_rule_events-capped services 2 rule 0 (event 9 ∷ event 7 ∷ []) ((1, 5) ∷ []) ((1, 5) ∷ [])
      1 (record { committed = λ m s a e. (s, e) }) refl (ground arith, (ground arith, tt)) refl
