-- ===== src/RedditProducer/Advanced.antt =====
-- About the ids of the comments that count as processed.
use social_sentiment.GlobalEvents.{pure}
use social_sentiment.Symbols.{SymbolRegistry, Letters}
use social_sentiment.Prelude.{
  ◌≡◌, List, ℕ, String, ◌∷◌, All, ◌⊎◌, take, Option, [], suc, some, refl, str_eq, inl, true, zero,
  none, inr, subst, Bool-cases, ap, sym, ◌∙◌, str_eq_refl, ◌==◌, arith, leb, ◌&&◌, ltb,
}
use social_sentiment.Schemas.{RawPost}
use social_sentiment.Outcome.{ok, Outcome, raised, cancelled}
use social_sentiment.RedditProducer.{
  Comment, is_processed, Feed, sent, matched_posts, publish_each, remember, process_new, publish,
  maxlen, pure, process_id, process_child, process_children, fetch_and_process, answer,
}
use social_sentiment.GlobalEvents.Actions.{bind-holds, bind-done}
use social_sentiment.Prelude.Int.{ℤ}

pub All-weaken :
    {A : Type 0} (P R : A → Type 0) (xs : List A) → ((x : A) → P x → R x) → All P xs → All R xs
All-weaken P R [] f a = tt
All-weaken P R (x ∷ xs) f a = (f x a.0, All-weaken P R xs f a.1)

pub each_processed : (ids : List String) → All (λ i. is_processed i ids ≡ true) ids
each_processed [] = tt
each_processed (i ∷ is) = (
  (let same = str_eq_refl i in ground (arith, same)),
  All-weaken (λ j. is_processed j is ≡ true) (λ j. is_processed j (i ∷ is) ≡ true) is
      (λ j h. ground (arith, h)) (each_processed is),
)

-- a comment that stands in a feed
abbrev pub IsIn : Comment → List (Option Comment) → Type 0
IsIn c [] = ⊥
IsIn c (none ∷ cs) = IsIn c cs
IsIn c (some d ∷ cs) = (c ≡ d) ⊎ IsIn c cs

IsIn-later :
    (d : Comment) (c : Option Comment) (cs : List (Option Comment)) → IsIn d cs → IsIn d (c ∷ cs)
IsIn-later d none cs h = h
IsIn-later d (some c) cs h = inr h

IsIn-first :
    (d : Comment) (c : Option Comment) (cs : List (Option Comment)) → c ≡ some d → IsIn d (c ∷ cs)
IsIn-first d none cs e = cc e
IsIn-first d (some c) cs e = inl cc

-- Every comment of a part of a feed stands in the feed.
abbrev pub AreIn : List (Option Comment) → List (Option Comment) → Type 0
AreIn feed part = All (λ c. (d : Comment) → c ≡ some d → IsIn d feed) part

pub AreIn-all : (feed : List (Option Comment)) → AreIn feed feed
AreIn-all [] = tt
AreIn-all (c ∷ cs) = (
  (λ d e. IsIn-first d c cs e),
  All-weaken (λ x. (d : Comment) → x ≡ some d → IsIn d cs)
      (λ x. (d : Comment) → x ≡ some d → IsIn d (c ∷ cs)) cs (λ x h d e. IsIn-later d c cs (h d e))
      (AreIn-all cs),
)

abbrev pub Among : RawPost → List RawPost → Type 0
Among p [] = ⊥
Among p (q ∷ qs) = (p ≡ q) ⊎ Among p qs

All-take : {A : Type 0} (P : A → Type 0) (n : ℕ) (xs : List A) → All P xs → All P (take n xs)
All-take P zero xs a = tt
All-take P (suc n) [] a = tt
All-take P (suc n) (x ∷ xs) a = (a.0, All-take P n xs a.1)

module _ (letters : Letters) (registry : SymbolRegistry) (strip : String → String) (now : ℕ)
    (commit : String) (broker : ℕ → Outcome (Unit {0})) where
  -- The broker has taken every post of the comment; a comment without text has none.
  abbrev pub Complete : List RawPost → String → Comment → Option String → Type 0
  Complete published post_id c none = Unit
  Complete published post_id c (some body) =
      (str_eq body "" ≡ true)
      ⊎ All (λ p. Among p published)
          (matched_posts letters registry strip now commit broker post_id body c)

  -- Some comment of the feed has the id and is complete.
  abbrev pub Handled : List (Option Comment) → List RawPost → String → Type 0
  Handled [] published post_id = ⊥
  Handled (none ∷ cs) published post_id = Handled cs published post_id
  Handled (some c ∷ cs) published post_id =
      ((c.post_id ≡ some post_id) × Complete published post_id c c.body)
      ⊎ Handled cs published post_id

  Complete-grows :
      (p : RawPost) (published : List RawPost) (post_id : String) (c : Comment) (b : Option String)
      → Complete published post_id c b
      → Complete (p ∷ published) post_id c b
  Complete-grows p published post_id c none h = tt
  Complete-grows p published post_id c (some body) (inl e) = inl e
  Complete-grows p published post_id c (some body) (inr a) =
      inr (All-weaken (λ q. Among q published) (λ q. Among q (p ∷ published)) _ (λ q h. inr h) a)

  pub Handled-grows :
      (p : RawPost) (cs : List (Option Comment)) (published : List RawPost) (post_id : String)
      → Handled cs published post_id
      → Handled cs (p ∷ published) post_id
  Handled-grows p [] published post_id h = h
  Handled-grows p (none ∷ cs) published post_id h = Handled-grows p cs published post_id h
  Handled-grows p (some c ∷ cs) published post_id (inl (e, h)) =
      inl (e, Complete-grows p published post_id c c.body h)
  Handled-grows p (some c ∷ cs) published post_id (inr h) =
      inr (Handled-grows p cs published post_id h)

  module _ (old : List String) (feed : List (Option Comment)) where
    abbrev pub Explained : List RawPost → String → Type 0
    Explained published post_id = (is_processed post_id old ≡ true) ⊎ Handled feed published post_id

    -- Every processed id was processed before or is handled.
    abbrev pub AllExplained : Feed → Type 0
    AllExplained s = All (Explained s.published) s.processed_ids

    sent-AllExplained :
        (post : RawPost) (o : Outcome (Unit {0})) (s : Feed)
        → AllExplained s
        → AllExplained (sent letters registry strip now commit broker post o s).1
    sent-AllExplained post (ok x) s h =
        All-weaken (Explained s.published) (Explained (post ∷ s.published)) s.processed_ids
          (λ post_id. grows post_id) h
      where
        grows :
            (post_id : String)
            → Explained s.published post_id
            → Explained (post ∷ s.published) post_id
        grows post_id (inl e) = inl e
        grows post_id (inr e) = inr (Handled-grows post feed s.published post_id e)
    sent-AllExplained post (raised e) s h = h
    sent-AllExplained post cancelled s h = h

    sent-Among :
        (post : RawPost) (o : Outcome (Unit {0})) (s : Feed) (u : Unit {0})
        → (sent letters registry strip now commit broker post o s).0 ≡ ok u
        → Among post (sent letters registry strip now commit broker post o s).1.published
    sent-Among post (ok x) s u h = inl refl
    sent-Among post (raised e) s u h = cc h
    sent-Among post cancelled s u h = cc h

    sent-keeps :
        (p post : RawPost) (o : Outcome (Unit {0})) (s : Feed)
        → Among p s.published
        → Among p (sent letters registry strip now commit broker post o s).1.published
    sent-keeps p post (ok x) s h = inr h
    sent-keeps p post (raised e) s h = h
    sent-keeps p post cancelled s h = h

    publish_each-AllExplained :
        (posts : List RawPost) (s : Feed)
        → AllExplained s
        → AllExplained (publish_each letters registry strip now commit broker posts s).1
    unfolding publish_each publish pure
    publish_each-AllExplained [] s h = h
    publish_each-AllExplained (post ∷ posts) s h =
        let first = sent-AllExplained post (broker s.attempts) s h in
        bind-holds AllExplained (publish letters registry strip now commit broker post) _ s first
          (λ u e. publish_each-AllExplained posts _ first)

    publish_each-keeps :
        (p : RawPost) (posts : List RawPost) (s : Feed)
        → Among p s.published
        → Among p (publish_each letters registry strip now commit broker posts s).1.published
    unfolding publish_each publish pure
    publish_each-keeps p [] s h = h
    publish_each-keeps p (post ∷ posts) s h =
        let first = sent-keeps p post (broker s.attempts) s h in
        bind-holds (λ t. Among p t.published)
          (publish letters registry strip now commit broker post) _ s first
          (λ u e. publish_each-keeps p posts _ first)

    pub publish_each-Among :
        (posts : List RawPost) (s : Feed) (u : Unit {0})
        → (publish_each letters registry strip now commit broker posts s).0 ≡ ok u
        → All
            (λ p.
              Among p (publish_each letters registry strip now commit broker posts s).1.published)
            posts
    unfolding publish_each publish pure
    publish_each-Among [] s u h = tt
    publish_each-Among (post ∷ posts) s u h =
        let (v, first, whole) =
          bind-done (publish letters registry strip now commit broker post) _ s u h in
        let t = (publish letters registry strip now commit broker post s).1 in
        let rest = publish_each-Among posts t u (ap (λ x. x.0) (sym whole) ∙ h) in
        let here =
          publish_each-keeps post posts t (sent-Among post (broker s.attempts) s v first) in
        subst (λ (x : Outcome (Unit {0}) × Feed). All (λ p. Among p x.1.published) (post ∷ posts))
          (sym whole) (here, rest)

    remember-AllExplained :
        (post_id : String) (s : Feed)
        → Explained s.published post_id
        → AllExplained s
        → AllExplained (remember post_id s).1
    remember-AllExplained post_id s here h =
        All-take (Explained s.published) maxlen (post_id ∷ s.processed_ids) (here, h)

    pub In-Handled :
        (c : Comment) (cs : List (Option Comment)) (published : List RawPost) (post_id : String)
        → IsIn c cs
        → c.post_id ≡ some post_id
        → Complete published post_id c c.body
        → Handled cs published post_id
    In-Handled c [] published post_id i e h = i
    In-Handled c (none ∷ cs) published post_id i e h = In-Handled c cs published post_id i e h
    In-Handled c (some d ∷ cs) published post_id (inl same) e h =
        inl (
          subst (λ x. (x.post_id ≡ some post_id) × Complete published post_id x x.body) same (e, h))
    In-Handled c (some d ∷ cs) published post_id (inr i) e h =
        inr (In-Handled c cs published post_id i e h)

    process_new-AllExplained :
        (post_id : String) (c : Comment) (b : Option String) (s : Feed)
        → ((published : List RawPost)
            → Complete published post_id c b
            → Handled feed published post_id)
        → AllExplained s
        → AllExplained (process_new letters registry strip now commit broker post_id c b s).1
    process_new-AllExplained post_id c none s handles h =
        remember-AllExplained post_id s (inr (handles s.published tt)) h
    process_new-AllExplained post_id c (some body) s handles h =
        elim (Bool-cases (str_eq body "")) [
          | inl e ↦ rw e (remember-AllExplained post_id s (inr (handles s.published (inl e))) h)
          | inr e ↦
              let posts = matched_posts letters registry strip now commit broker post_id body c in
              let published = publish_each-AllExplained posts s h in
              rw e (
                bind-holds AllExplained
                  (publish_each letters registry strip now commit broker posts) _ s published
                  (λ u done.
                    remember-AllExplained post_id
                      (publish_each letters registry strip now commit broker posts s).1
                      (inr (handles _ (inr (publish_each-Among posts s u done)))) published))
        ]

    process_id-AllExplained :
        (c : Comment) (b : Option String) (s : Feed)
        → c.post_id ≡ b
        → IsIn c feed
        → AllExplained s
        → AllExplained (process_id letters registry strip now commit broker c b s).1
    process_id-AllExplained c none s e i h = h
    process_id-AllExplained c (some post_id) s e i h =
        elim (Bool-cases (is_processed post_id s.processed_ids)) [
          | inl q ↦ rw q h
          | inr q ↦ rw q (
              process_new-AllExplained post_id c c.body s
                (λ published done. In-Handled c feed published post_id i e done) h)
        ]

    pub process_child-AllExplained :
        (c : Option Comment) (s : Feed)
        → ((d : Comment) → c ≡ some d → IsIn d feed)
        → AllExplained s
        → AllExplained (process_child letters registry strip now commit broker c s).1
    process_child-AllExplained none s i h = h
    process_child-AllExplained (some c) s i h =
        process_id-AllExplained c c.post_id s refl (i c refl) h

    process_children-AllExplained :
        (cs : List (Option Comment)) (s : Feed)
        → AreIn feed cs
        → AllExplained s
        → AllExplained (process_children letters registry strip now commit broker cs s).1
    unfolding process_children pure
    process_children-AllExplained [] s i h = h
    process_children-AllExplained (c ∷ cs) s i h =
        let first = process_child-AllExplained c s i.0 h in
        bind-holds AllExplained (process_child letters registry strip now commit broker c) _ s first
          (λ u e. process_children-AllExplained cs _ i.1 first)

  -- After any poll, whether the broker took all the posts or failed or the poll was cancelled on the
  -- way, an id is among the processed ones only if it was there before or a comment of the feed with
  -- this id has no text or has had its post for every matching symbol taken by the broker.
  pub fetch_and_process-AllExplained :
      (int_of : String → Option ℤ) (status_code : ℕ) (retry_after : Option String)
      (feed : List (Option Comment)) (s : Feed)
      → AllExplained s.processed_ids feed
          (fetch_and_process letters registry strip now commit broker int_of
            (answer status_code retry_after (some feed))
            s).1
  unfolding fetch_and_process pure
  fetch_and_process-AllExplained int_of status_code retry_after feed s =
      let before : AllExplained s.processed_ids feed s =
        All-weaken (λ i. is_processed i s.processed_ids ≡ true)
          (Explained s.processed_ids feed s.published) s.processed_ids (λ i e. inl e)
          (each_processed s.processed_ids) in
      let polled =
        process_children-AllExplained s.processed_ids feed feed s (AreIn-all feed) before in
      elim (Bool-cases (status_code == 403)) [
        | inl a ↦ rw a before
        | inr a ↦ elim (Bool-cases (status_code == 429)) [
          | inl b ↦ rw (a, b) before
          | inr b ↦ elim (Bool-cases (leb 500 status_code && ltb status_code 600)) [
            | inl c ↦ rw (a, b, c) before
            | inr c ↦ elim (Bool-cases (status_code == 200)) [
              | inl d ↦
                  rw (a, b, c, d)
                    (bind-holds (AllExplained s.processed_ids feed)
                      (process_children letters registry strip now commit broker feed) _ s polled
                      (λ u e. polled))
              | inr d ↦ rw (a, b, c, d) before
            ]
          ]
        ]
      ]
