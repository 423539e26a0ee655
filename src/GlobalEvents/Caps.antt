-- ===== src/GlobalEvents/Caps.antt =====
-- About the number of links of a rule on a day.
use social_sentiment.GlobalEvents.{
  group_days, existing_daily_counts, is_among, ◌>>=◌, continue, Act, count_on, store_each,
  store_event, link_event, count_link, DailyCounts, pure, Services, insert_event, sort_events,
  store_rule_events, EventRule, NormalizedEventSignal, store_some, day_of, IsTransaction,
}
use social_sentiment.Prelude.{
  ◌≡◌, ℕ, List, ◌≤◌, arith, ◌<◌, ◌+◌, All, max, ◌∷◌, Bool, subst, leb, Bool-cases, if◌then◌else◌,
  refl, true, [], inl, false, inr, ◌==◌, map, ◌&&◌, ap,
}
use social_sentiment.Outcome.{ok, Outcome, raised, cancelled}

module _ {S A B : Type 0} where
  -- An action that ends well ran its first part well.
  bind_ok :
      (m : Act S A) (f : A → Act S B) (s : S) {b : B}
      → ((m >>= f) s).0 ≡ ok b
      → (a : A) × (t : S) × ((f a t).0 ≡ ok b) × ((m s).0 ≡ ok a)
  unfolding ◌>>=◌
  bind_ok m f s {b} = go (m s).0 (m s).1
    where
      go :
          (o : Outcome A) (t : S)
          → (continue f o t).0 ≡ ok b
          → (a : A) × (u : S) × ((f a u).0 ≡ ok b) × (o ≡ ok a)
      go (ok a) t e = (a, t, e, refl)
      go (raised x) t e = cc e
      go cancelled t e = cc e

-- Every event falls on the day.
abbrev pub AllOn : ℕ → List NormalizedEventSignal → Type 0
AllOn day events = All (λ event. day_of event.occurred_at ≡ day) events

-- What some rounds do to the count of a day and to the number of links.
record Grows (limit : ℕ) (counts counts' : DailyCounts) : Type 0 where
  grown : (day : ℕ) → count_on day counts ≤ count_on day counts'
  capped : (day : ℕ) → count_on day counts' ≤ max limit (count_on day counts)

Grows-refl : (limit : ℕ) (counts : DailyCounts) → Grows limit counts counts
Grows-refl limit counts = record { grown = λ d. omega arith; capped = λ d. omega arith }

Grows-trans :
    (limit : ℕ) (a b c : DailyCounts) → Grows limit a b → Grows limit b c → Grows limit a c
Grows-trans limit a b c p q = record {
  grown = λ d. omega (arith, p.grown d, q.grown d);
  capped = λ d. omega (arith, p.capped d, q.capped d);
}

-- One round either leaves the counts alone or adds one link to the day of its event.
data Round (limit day : ℕ) (counts : DailyCounts) (linked : ℕ) : DailyCounts × ℕ → Type 0 where
  kept : Round limit day counts linked (counts, linked)
  added :
      count_on day counts < limit
      → Round limit day counts linked ((day, count_on day counts + 1) ∷ counts, linked + 1)

Round-Grows :
    (limit day : ℕ) (counts : DailyCounts) (linked : ℕ) (next : DailyCounts × ℕ)
    → Round limit day counts linked next
    → Grows limit counts next.0
Round-Grows limit day counts linked _ kept = Grows-refl limit counts
Round-Grows limit day counts linked _ (added room) = record {
  grown = λ d. ground arith;
  capped = λ d. ground arith;
}

Round-balance :
    (limit day : ℕ) (counts : DailyCounts) (linked : ℕ) (next : DailyCounts × ℕ)
    → Round limit day counts linked next
    → next.1 + count_on day counts ≡ linked + count_on day next.0
Round-balance limit day counts linked _ kept = refl
Round-balance limit day counts linked _ (added room) = ground arith

module _ {S : Type 0} (db : Services S) (limit : ℕ) (rule : EventRule) where
  count_link-Round :
      (counts : DailyCounts) (linked day : ℕ) (is_new : Bool)
      → count_on day counts < limit
      → Round limit day counts linked (count_link db limit rule counts linked day is_new)
  unfolding count_link
  count_link-Round counts linked day true room = added room
  count_link-Round counts linked day false room = kept

  link_event-Round :
      (counts : DailyCounts) (linked : ℕ) (event : NormalizedEventSignal) (s : S)
      (next : DailyCounts × ℕ)
      → count_on (day_of event.occurred_at) counts < limit
      → (link_event db limit rule counts linked event s).0 ≡ ok next
      → Round limit (day_of event.occurred_at) counts linked next
  unfolding link_event pure
  link_event-Round counts linked event s next room e =
      let (inserted, t, e₁, _) = bind_ok _ _ s e in
      let (event_id, u, e₂, _) = bind_ok _ _ t e₁ in
      let (is_new, v, e₃, _) = bind_ok _ _ u e₂ in
      subst (Round limit (day_of event.occurred_at) counts linked) (cc e₃)
        (count_link-Round counts linked (day_of event.occurred_at) is_new room)

  store_event-Round :
      (counts : DailyCounts) (linked : ℕ) (event : NormalizedEventSignal) (s : S)
      (next : DailyCounts × ℕ)
      → (store_event db limit rule counts linked event s).0 ≡ ok next
      → Round limit (day_of event.occurred_at) counts linked next
  unfolding store_event pure
  store_event-Round counts linked event s next =
      go (leb limit (count_on (day_of event.occurred_at) counts)) refl
    where
      go :
          (full : Bool)
          → leb limit (count_on (day_of event.occurred_at) counts) ≡ full
          → ((if full then pure (counts, linked) else link_event db limit rule counts linked event)
              s).0
            ≡ ok next
          → Round limit (day_of event.occurred_at) counts linked next
      go true is_full e = subst (Round limit (day_of event.occurred_at) counts linked) (cc e) kept
      go false not_full e = link_event-Round counts linked event s next (ground arith) e

  store_each-Grows :
      (counts : DailyCounts) (linked : ℕ) (events : List NormalizedEventSignal) (s : S)
      (end : DailyCounts × ℕ)
      → (store_each db limit rule counts linked events s).0 ≡ ok end
      → Grows limit counts end.0
  unfolding store_each pure
  store_each-Grows counts linked [] s end e =
      let same : (counts, linked) ≡ end = cc e in
      subst (λ (x : DailyCounts × ℕ). Grows limit counts x.0) same (Grows-refl limit counts)
  store_each-Grows counts linked (event ∷ events) s end e =
      let (next, t, rest, first) =
        bind_ok (store_event db limit rule counts linked event)
          (λ n. store_each db limit rule n.0 n.1 events) s e in
      Grows-trans limit counts next.0 end.0
        (Round-Grows limit _ counts linked next
          (store_event-Round counts linked event s next first))
        (store_each-Grows next.0 next.1 events t end rest)

  store_each-balance :
      (day : ℕ) (counts : DailyCounts) (linked : ℕ) (events : List NormalizedEventSignal) (s : S)
      (end : DailyCounts × ℕ)
      → AllOn day events
      → (store_each db limit rule counts linked events s).0 ≡ ok end
      → end.1 + count_on day counts ≡ linked + count_on day end.0
  unfolding store_each pure
  store_each-balance day counts linked [] s end on e =
      let same : (counts, linked) ≡ end = cc e in
      subst (λ (x : DailyCounts × ℕ). x.1 + count_on day counts ≡ linked + count_on day x.0) same
        refl
  store_each-balance day counts linked (event ∷ events) s end on e =
      let (next, t, rest, first) =
        bind_ok (store_event db limit rule counts linked event)
          (λ n. store_each db limit rule n.0 n.1 events) s e in
      let round : next.1 + count_on day counts ≡ linked + count_on day next.0 =
        subst (λ x. next.1 + count_on x counts ≡ linked + count_on x next.0) on.0
          (Round-balance limit _ counts linked next
            (store_event-Round counts linked event s next first)) in
      omega (arith, round, store_each-balance day next.0 next.1 events t end on.1 rest)

insert_event-AllOn :
    (day : ℕ) (event : NormalizedEventSignal) (events : List NormalizedEventSignal)
    → day_of event.occurred_at ≡ day
    → AllOn day events
    → AllOn day (insert_event event events)
unfolding insert_event
insert_event-AllOn day event [] p a = (p, tt)
insert_event-AllOn day event (e ∷ es) p a =
    let rest = insert_event-AllOn day event es p a.1 in
    elim (Bool-cases (leb event.occurred_at e.occurred_at)) [
      | inl q ↦ rw q (p, a)
      | inr q ↦ rw q (a.0, rest)
    ]

sort_events-AllOn :
    (day : ℕ) (events : List NormalizedEventSignal)
    → AllOn day events
    → AllOn day (sort_events events)
unfolding sort_events
sort_events-AllOn day [] a = tt
sort_events-AllOn day (e ∷ es) a =
    insert_event-AllOn day e (sort_events es) a.0 (sort_events-AllOn day es a.1)

-- the links of a rule on a day
abbrev pub links_on : ℕ → ℕ → List (ℕ × ℕ) → ℕ
links_on rule_id day [] = 0
links_on rule_id day ((id, at) ∷ rows) =
    let rest = links_on rule_id day rows in
    if id == rule_id && day_of at == day then rest + 1 else rest

group_days-links_on :
    (rule_id day : ℕ) (days : List ℕ) (rows : List (ℕ × ℕ))
    → is_among day days ≡ true
    → count_on day (group_days rule_id days rows) ≡ links_on rule_id day rows
unfolding group_days
group_days-links_on rule_id day days [] asked = refl
group_days-links_on rule_id day days ((id, at) ∷ rows) asked =
    let rest = group_days-links_on rule_id day days rows asked in
    elim (Bool-cases (id == rule_id)) [
      | inr q ↦ rw q rest
      | inl q ↦ elim (Bool-cases (day_of at == day)) [
        | inl d ↦
            let same : day_of at ≡ day = ground arith in
            let listed : is_among (day_of at) days ≡ true = rw same asked in
            let counted : count_on (day_of at) (group_days rule_id days rows)
                ≡ links_on rule_id day rows =
              rw same rest in
            rw (q, listed, d) (ap (λ n. n + 1) counted)
        | inr d ↦ elim (Bool-cases (is_among (day_of at) days)) [
          | inl k ↦ rw (q, k, d) rest
          | inr k ↦ rw (q, k, d) rest
        ]
      ]
    ]

module _ {S : Type 0} (db : Services S) (limit : ℕ) (rule : EventRule) where
  existing_daily_counts-read :
      (event : NormalizedEventSignal) (events : List NormalizedEventSignal) (s : S)
      (rows : List (ℕ × ℕ)) (counts : DailyCounts)
      → (db.joined_links s).0 ≡ ok rows
      → (existing_daily_counts db limit rule (event ∷ events) s).0 ≡ ok counts
      → count_on (day_of event.occurred_at) counts
        ≡ links_on rule.id (day_of event.occurred_at) rows
  unfolding existing_daily_counts pure
  existing_daily_counts-read event events s rows counts read done =
      let day = day_of event.occurred_at in
      let days = map (λ (e : NormalizedEventSignal). day_of e.occurred_at) (event ∷ events) in
      let (rows', t, e, read') = bind_ok db.joined_links _ s done in
      let same : rows' ≡ rows = cc (read, read') in
      let is : group_days rule.id days rows ≡ counts =
        subst (λ r. group_days rule.id days r ≡ counts) same (cc e) in
      subst (λ c. count_on day c ≡ links_on rule.id day rows) is
        (group_days-links_on rule.id day days rows (ground arith))

-- When all events of a call fall on one day, the links that it counts, together with the links of
-- the rule on that day among the rows that the database holds when the call starts, are no more than
-- the cap, or than the latter alone.
pub store_rule_events-capped :
    {S : Type 0} (db : Services S) (limit : ℕ) (rule : EventRule) (day : ℕ)
    (events : List NormalizedEventSignal) (s : S) (rows : List (ℕ × ℕ)) (n : ℕ)
    → IsTransaction db.transaction
    → (db.joined_links s).0 ≡ ok rows
    → AllOn day events
    → (store_rule_events db limit rule events s).0 ≡ ok n
    → n + links_on rule.id day rows ≤ max limit (links_on rule.id day rows)
unfolding store_rule_events store_some pure
store_rule_events-capped {S} db limit rule day [] s rows n atomic held on e =
    let none_linked : 0 ≡ n = cc e in omega arith
store_rule_events-capped {S} db limit rule day (event ∷ events) s rows n atomic held on e =
    go (leb limit 0) e
  where
    go :
        (off : Bool)
        → ((if off then pure 0 else store_some db limit rule (event ∷ events)) s).0 ≡ ok n
        → n + links_on rule.id day rows ≤ max limit (links_on rule.id day rows)
    go true e = let none_linked : 0 ≡ n = cc e in omega arith
    go false e =
        let (counts, t, e₁, read) = bind_ok _ _ s e in
        let (stored, u, e₂, ended) = bind_ok _ _ t e₁ in
        let (v, body) = atomic.committed _ t stored ended in
        let same : stored.1 ≡ n = cc e₂ in
        let at_start : count_on day counts ≡ links_on rule.id day rows =
          subst (λ d. count_on d counts ≡ links_on rule.id d rows) on.0
            (existing_daily_counts-read db limit rule event events s rows counts held read) in
        let grows =
          store_each-Grows db limit rule counts 0 (sort_events (event ∷ events)) v stored body in
        let balance =
          store_each-balance db limit rule day counts 0 (sort_events (event ∷ events)) v stored
            (sort_events-AllOn day (event ∷ events) on) body in
        omega (arith, same, at_start, grows.capped day, balance)
