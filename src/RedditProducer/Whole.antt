-- ===== src/RedditProducer/Whole.antt =====
-- About a poll that returns, and the comments of its feed.
use social_sentiment.GlobalEvents.{pure, ◌>>=◌}
use social_sentiment.GlobalEvents.Actions.{bind-holds, bind-done}
use social_sentiment.Symbols.{SymbolRegistry, Letters}
use social_sentiment.Schemas.{RawPost}
use social_sentiment.Gdelt.{PollOutcome}
use social_sentiment.Outcome.{ok, Outcome, raised, cancelled}
use social_sentiment.RedditProducer.{
  Comment, is_processed, Feed, sent, publish_each, process_new, publish, process_id, process_child,
  process_children, fetch_and_process, answer, matched_posts, remember,
}
use social_sentiment.RedditProducer.Advanced.{
  IsIn, AreIn, AreIn-all, Among, Complete, Explained, AllExplained, In-Handled, Handled-grows,
  publish_each-Among, process_child-AllExplained, each_processed, All-weaken,
}
use social_sentiment.Prelude.{
  ◌≡◌, List, ℕ, String, ◌∷◌, All, Option, [], some, refl, str_eq, inl, true, none, inr, subst,
  Bool-cases, ap, sym, ◌∙◌, eq_iff,
}
use social_sentiment.Prelude.Int.{ℤ}

All-processed :
    (P : String → Type 0) (ids : List String) (post_id : String)
    → is_processed post_id ids ≡ true
    → All P ids
    → P post_id
All-processed P [] post_id h a = cc h
All-processed P (i ∷ ids) post_id h a = elim (Bool-cases (str_eq i post_id)) [
  | inl e ↦ subst P ((eq_iff i post_id).0 e) a.0
  | inr e ↦ All-processed P ids post_id (rw e at h) a.1
]

module _ (letters : Letters) (registry : SymbolRegistry) (strip : String → String) (now : ℕ)
    (commit : String) (broker : ℕ → Outcome (Unit {0})) where
  -- What more published posts leave true, every part of a poll leaves true.
  module _ (R : List RawPost → Type 0)
      (grows : (p : RawPost) (published : List RawPost) → R published → R (p ∷ published)) where
    abbrev Holds : Feed → Type 0
    Holds s = R s.published

    sent-Holds :
        (post : RawPost) (o : Outcome (Unit {0})) (s : Feed)
        → Holds s
        → Holds (sent letters registry strip now commit broker post o s).1
    sent-Holds post (ok x) s h = grows post s.published h
    sent-Holds post (raised e) s h = h
    sent-Holds post cancelled s h = h

    publish_each-Holds :
        (posts : List RawPost) (s : Feed)
        → Holds s
        → Holds (publish_each letters registry strip now commit broker posts s).1
    unfolding publish_each publish pure
    publish_each-Holds [] s h = h
    publish_each-Holds (post ∷ posts) s h =
        let first = sent-Holds post (broker s.attempts) s h in
        bind-holds Holds (publish letters registry strip now commit broker post) _ s first
          (λ u e. publish_each-Holds posts _ first)

    process_new-Holds :
        (post_id : String) (c : Comment) (b : Option String) (s : Feed)
        → Holds s
        → Holds (process_new letters registry strip now commit broker post_id c b s).1
    process_new-Holds post_id c none s h = h
    process_new-Holds post_id c (some body) s h = elim (Bool-cases (str_eq body "")) [
      | inl e ↦ rw e h
      | inr e ↦
          let published =
            publish_each-Holds
              (matched_posts letters registry strip now commit broker post_id body c) s h in
          rw e (
            bind-holds Holds
              (publish_each letters registry strip now commit broker
                (matched_posts letters registry strip now commit broker post_id body c))
              _ s published (λ u done. published))
    ]

    process_child-Holds :
        (c : Option Comment) (s : Feed)
        → Holds s
        → Holds (process_child letters registry strip now commit broker c s).1
    process_child-Holds none s h = h
    process_child-Holds (some c) s h = by_id c.post_id
      where
        by_id :
            (b : Option String)
            → Holds (process_id letters registry strip now commit broker c b s).1
        by_id none = h
        by_id (some post_id) = elim (Bool-cases (is_processed post_id s.processed_ids)) [
          | inl q ↦ rw q h
          | inr q ↦ rw q (process_new-Holds post_id c c.body s h)
        ]

    process_children-Holds :
        (cs : List (Option Comment)) (s : Feed)
        → Holds s
        → Holds (process_children letters registry strip now commit broker cs s).1
    unfolding process_children pure
    process_children-Holds [] s h = h
    process_children-Holds (c ∷ cs) s h =
        let first = process_child-Holds c s h in
        bind-holds Holds (process_child letters registry strip now commit broker c) _ s first
          (λ u e. process_children-Holds cs _ first)

  module _ (old : List String) (feed : List (Option Comment)) where
    abbrev Told : List RawPost → String → Type 0
    Told = Explained letters registry strip now commit broker old feed

    Told-grows :
        (post_id : String) (p : RawPost) (published : List RawPost)
        → Told published post_id
        → Told (p ∷ published) post_id
    Told-grows post_id p published (inl e) = inl e
    Told-grows post_id p published (inr e) =
        inr (Handled-grows letters registry strip now commit broker p feed published post_id e)

    -- The broker has taken the posts of a new comment that is processed without an error.
    process_new-Complete :
        (post_id : String) (c : Comment) (b : Option String) (s : Feed) (u : Unit {0})
        → (process_new letters registry strip now commit broker post_id c b s).0 ≡ ok u
        → Complete letters registry strip now commit broker
            (process_new letters registry strip now commit broker post_id c b s).1.published
            post_id
            c
            b
    process_new-Complete post_id c none s u h = tt
    process_new-Complete post_id c (some body) s u h = elim (Bool-cases (str_eq body "")) [
      | inl e ↦ inl e
      | inr e ↦
          let m =
            publish_each letters registry strip now commit broker
              (matched_posts letters registry strip now commit broker post_id body c) in
          let h' : ((m >>= λ _. remember post_id) s).0 ≡ ok u = rw e at h in
          let (v, done, whole) = bind-done m (λ _. remember post_id) s u h' in
          let taken =
            publish_each-Among letters registry strip now commit broker old feed
              (matched_posts letters registry strip now commit broker post_id body c) s v done in
          rw e (
            inr (
              subst
                (λ (x : Outcome (Unit {0}) × Feed).
                  All (λ p. Among p x.1.published)
                    (matched_posts letters registry strip now commit broker post_id body c))
                (sym whole) taken))
    ]

    process_child-Told :
        (c : Comment) (b : Option String) (s : Feed) (u : Unit {0}) (post_id : String)
        → c.post_id ≡ b
        → b ≡ some post_id
        → IsIn c feed
        → AllExplained letters registry strip now commit broker old feed s
        → (process_id letters registry strip now commit broker c b s).0 ≡ ok u
        → Told (process_id letters registry strip now commit broker c b s).1.published post_id
    process_child-Told c none s u post_id is e i a h = cc e
    process_child-Told c (some other) s u post_id is e i a h =
        let same : other ≡ post_id = cc e in
        elim (Bool-cases (is_processed other s.processed_ids)) [
          | inl q ↦ rw q (
              subst (Told s.published) same
                (All-processed (Told s.published) s.processed_ids other q a))
          | inr q ↦
              let h' : (process_new letters registry strip now commit broker other c c.body s).0
                  ≡ ok u =
                rw q at h in
              rw q (
                subst
                  (Told
                    (process_new letters registry strip now commit broker other c c.body
                      s).1.published)
                  same
                  (inr (
                    In-Handled letters registry strip now commit broker old feed c feed _ other i is
                      (process_new-Complete other c c.body s u h'))))
        ]

    process_children-Told :
        (cs : List (Option Comment)) (s : Feed) (u : Unit {0}) (c : Comment) (post_id : String)
        → AreIn feed cs
        → IsIn c cs
        → c.post_id ≡ some post_id
        → AllExplained letters registry strip now commit broker old feed s
        → (process_children letters registry strip now commit broker cs s).0 ≡ ok u
        → Told (process_children letters registry strip now commit broker cs s).1.published post_id
    unfolding process_children pure
    process_children-Told [] s u c post_id are i e a h = absurd i
    process_children-Told (d ∷ cs) s u c post_id are i e a h =
        let (v, first, whole) =
          bind-done (process_child letters registry strip now commit broker d)
            (λ _. process_children letters registry strip now commit broker cs) s u h in
        let t = (process_child letters registry strip now commit broker d s).1 in
        let ended : (process_children letters registry strip now commit broker cs t).0 ≡ ok u =
          ap (λ x. x.0) (sym whole) ∙ h in
        let kept =
          process_child-AllExplained letters registry strip now commit broker old feed d s are.0
            a in
        subst (λ (x : Outcome (Unit {0}) × Feed). Told x.1.published post_id) (sym whole)
          (here d v t refl first (λ j. process_children-Told cs t u c post_id are.1 j e kept ended)
            are.0 i)
      where
        here :
            (d : Option Comment) (v : Unit {0}) (t : Feed)
            → (process_child letters registry strip now commit broker d s).1 ≡ t
            → (process_child letters registry strip now commit broker d s).0 ≡ ok v
            → (IsIn c cs
                → Told
                    (process_children letters registry strip now commit broker cs t).1.published
                    post_id)
            → ((x : Comment) → d ≡ some x → IsIn x feed)
            → IsIn c (d ∷ cs)
            → Told
                (process_children letters registry strip now commit broker cs t).1.published
                post_id
        here none v t is first rest in_feed i = rest i
        here (some x) v t is first rest in_feed (inr i) = rest i
        here (some x) v t is first rest in_feed (inl same) =
            process_children-Holds (λ l. Told l post_id) (Told-grows post_id) cs t
              (subst (λ (f : Feed). Told f.published post_id) is
                (process_child-Told x x.post_id s v post_id refl
                  (ap (λ (y : Comment). y.post_id) (sym same) ∙ e) (in_feed x refl) a first))

  -- After a poll of status 200 that returns, the id of every comment of its feed was processed before,
  -- or a comment of the feed with this id has no text or has had its post for every matching symbol
  -- taken by the broker.
  pub fetch_and_process_whole :
      (int_of : String → Option ℤ) (retry_after : Option String) (feed : List (Option Comment))
      (s : Feed) (o : PollOutcome) (c : Comment) (post_id : String)
      → IsIn c feed
      → c.post_id ≡ some post_id
      → (fetch_and_process letters registry strip now commit broker int_of
          (answer 200 retry_after (some feed))
          s).0
        ≡ ok o
      → Explained letters registry strip now commit broker s.processed_ids feed
          (fetch_and_process letters registry strip now commit broker int_of
            (answer 200 retry_after (some feed))
            s).1.published
          post_id
  unfolding fetch_and_process pure
  fetch_and_process_whole int_of retry_after feed s o c post_id i e h =
      let before : AllExplained letters registry strip now commit broker s.processed_ids feed s =
        All-weaken (λ i. is_processed i s.processed_ids ≡ true)
          (Explained letters registry strip now commit broker s.processed_ids feed s.published)
          s.processed_ids (λ i e. inl e) (each_processed s.processed_ids) in
      let (u, done, whole) =
        bind-done (process_children letters registry strip now commit broker feed) _ s o h in
      subst
        (λ (x : Outcome PollOutcome × Feed).
          Explained letters registry strip now commit broker s.processed_ids feed x.1.published
            post_id)
        (sym whole)
        (process_children-Told s.processed_ids feed feed s u c post_id (AreIn-all feed) i e before
          done)
