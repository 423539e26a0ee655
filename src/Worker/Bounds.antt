-- ===== src/Worker/Bounds.antt =====
-- About the batch of a worker, its size and the time that it waits.
use social_sentiment.Broker.{lift}
use social_sentiment.Worker.{
  Worker, fresh, is_due, flush_if_due, accept, recover, guarded, turn, run_turns, Turn, remaining,
  arrival, timeout, after_timeout, shutdown,
}
use social_sentiment.Prelude.{
  ℕ, length, List, ◌≡◌, ◌<◌, false, refl, arith, ◌+◌, length-append, ◌∷◌, ◌≤◌, [], subst, true,
  Bool-cases, is_empty, inl, inr, Bool, ◌⊎◌, ap, sym, ◌∙◌,
}
use social_sentiment.Broker.{Broker, Message, Exec, History, ◌>>=◌, pure, bind-eq-ok}
use social_sentiment.Broker.Triples.{
  Triple, Anything, Any, Triple-if, Triple-keeps, Triple-bind, Triple-pure, Ensures, Ensures-ok,
  Triple-lift,
}
use social_sentiment.Outcome.{Outcome, ok, raised, is_requeue_error, cancelled}
use social_sentiment.Messaging.{requeue_unprocessed_messages}

-- One message for each post, and room for one more post.
pub record IsSound {P : Type 0} (batch_size : ℕ) (w : Worker P) : Type 0 where
  pub aligned : length w.messages ≡ length w.posts
  pub room : length w.posts < batch_size

module _ {P : Type 0} (b : Broker) (batch_size : ℕ)
    (flush : List P → List Message → Exec (Unit {0})) (positive : 0 < batch_size) where
  Sound : Worker P → History → Type 0
  Sound w h = IsSound batch_size w

  Triple-Any : {A : Type 0} (m : Exec A) {E : History → Type 0} → Triple Anything E m Any
  Triple-Any m = Triple-keeps m (λ h x. tt)

  fresh-IsSound : (at : ℕ) → IsSound {P = P} batch_size (fresh at)
  fresh-IsSound at = record { aligned = refl; room = positive }

  not_due-IsSound :
      (w : Worker P) (now : ℕ)
      → length w.messages ≡ length w.posts
      → is_due batch_size w now ≡ false
      → IsSound batch_size w
  not_due-IsSound w now a e = ground arith

  flush-Sound :
      (w : Worker P) (now after : ℕ)
      → length w.messages ≡ length w.posts
      → Triple Anything Anything
          (flush_if_due b batch_size flush w now after)
          (λ w' h. IsSound batch_size w')
  unfolding flush_if_due
  flush-Sound w now after a =
      Triple-if (is_due batch_size w now) (flush w.posts w.messages >>= λ _. pure (fresh after))
        (pure w)
        (λ e. Triple-bind _ _ (Triple-Any _) (λ x. Triple-pure _ (λ h y. fresh-IsSound after)))
        (λ e. Triple-pure w (λ h y. not_due-IsSound w now a e))

  pub accept-aligned :
      (w : Worker P) (m : Message) (p : P) (at : ℕ)
      → length w.messages ≡ length w.posts
      → length (accept w m p at).messages ≡ length (accept w m p at).posts
  accept-aligned w m p at a =
      omega (arith, length-append {0} w.messages (m ∷ []), length-append {0} w.posts (p ∷ []))

  recover-Sound :
      (w : Worker P) (o : Outcome (Worker P)) (h : History)
      → Ensures (λ w' h'. IsSound batch_size w') o h
      → Ensures
          (λ w' h'. IsSound batch_size w')
          (recover b batch_size flush w o h).0
          (recover b batch_size flush w o h).1
  unfolding recover
  recover-Sound w (ok w') h e = e
  recover-Sound w cancelled h e = tt
  recover-Sound w (raised x) h e = elim (Bool-cases (is_requeue_error x.kind)) [
    | inl q ↦ rw q tt
    | inr q ↦
        rw q
          ((Triple-bind {P = Anything} {E = Anything} (requeue_unprocessed_messages b w.messages)
              (λ n. pure (record w { posts = []; messages = [] })) (Triple-Any _)
              (λ n. Triple-pure _ (λ h' y. record { aligned = refl; room = positive }))).at
            h tt tt).1
  ]

  guarded-Sound :
      (w : Worker P) (body : Exec (Worker P)) (h : History)
      → Triple Anything Anything body (λ w' h'. IsSound batch_size w')
      → Ensures
          (λ w' h'. IsSound batch_size w')
          (guarded b batch_size flush w body h).0
          (guarded b batch_size flush w body h).1
  unfolding guarded
  guarded-Sound w body h t = recover-Sound w (body h).0 (body h).1 (t.at h tt tt).1

  after_timeout-Sound :
      (e : Bool) (w : Worker P) (now after : ℕ) (h : History)
      → IsSound batch_size w
      → Ensures
          (λ w' h'. IsSound batch_size w')
          (after_timeout b batch_size flush e w now after h).0
          (after_timeout b batch_size flush e w now after h).1
  unfolding after_timeout pure
  after_timeout-Sound true w now after h s = s
  after_timeout-Sound false w now after h s =
      guarded-Sound w _ h (flush-Sound w now after s.aligned)

  pub turn-Sound :
      (w : Worker P) (t : Turn P) (h : History)
      → IsSound batch_size w
      → Ensures
          (λ w' h'. IsSound batch_size w')
          (turn b batch_size flush w t h).0
          (turn b batch_size flush w t h).1
  unfolding turn pure
  turn-Sound w (arrival m p at now after) h s =
      let w' : Worker P = accept w m p at in
      guarded-Sound w' (flush_if_due b batch_size flush w' now after) h
        (flush-Sound w' now after (accept-aligned w m p at s.aligned))
  turn-Sound w (timeout now after) h s = after_timeout-Sound (is_empty w.posts) w now after h s
  turn-Sound w shutdown h s = guarded-Sound w _ h (Triple-lift cancelled (λ h' y a e. cc))

  abbrev pub IsEmptied : Worker P → Type 0
  IsEmptied w = (w.posts ≡ []) × (w.messages ≡ [])

  -- What a turn makes of the batch `w`: the batch `w'` is empty, or it is `w` with what arrived, and
  -- was not due when it was tested.
  abbrev pub Carried : Worker P → Turn P → Worker P → Type 0
  Carried w (arrival m p at now after) w' =
      IsEmptied w' ⊎ ((w' ≡ accept w m p at) × (is_due batch_size (accept w m p at) now ≡ false))
  Carried w (timeout now after) w' =
      IsEmptied w' ⊎ ((w' ≡ w) × ((w.posts ≡ []) ⊎ (is_due batch_size w now ≡ false)))
  Carried w shutdown w' = ⊥

  recover-Emptied :
      (w : Worker P) (o : Outcome (Worker P)) (h : History) (w' : Worker P)
      → (recover b batch_size flush w o h).0 ≡ ok w'
      → (o ≡ ok w') ⊎ IsEmptied w'
  unfolding recover pure
  recover-Emptied w (ok x) h w' e = inl e
  recover-Emptied w cancelled h w' e = cc e
  recover-Emptied w (raised x) h w' e = elim (Bool-cases (is_requeue_error x.kind)) [
    | inl q ↦ let left : ◌≡◌ {A = Outcome (Worker P)} (raised x) (ok w') = rw q at e in cc left
    | inr q ↦
        let rest : ((requeue_unprocessed_messages b w.messages >>= λ n.
        pure (record w { posts = []; messages = [] }))
              h).0
            ≡ ok w' =
          rw q at e in
        let (n, one, step) =
          bind-eq-ok (requeue_unprocessed_messages b w.messages)
            (λ n. pure (record w { posts = []; messages = [] })) h rest in
        let same : ok (record w { posts = []; messages = [] }) ≡ ok w' =
          ap (λ x. x.0) (sym step) ∙ rest in
        let is : record w { posts = []; messages = [] } ≡ w' = cc same in
        inr (subst IsEmptied is (refl, refl))
  ]

  flush-Carried :
      (w : Worker P) (now after : ℕ) (h : History) (w' : Worker P)
      → (flush_if_due b batch_size flush w now after h).0 ≡ ok w'
      → IsEmptied w' ⊎ ((w' ≡ w) × (is_due batch_size w now ≡ false))
  unfolding flush_if_due pure
  flush-Carried w now after h w' e = elim (Bool-cases (is_due batch_size w now)) [
    | inl q ↦
        let rest : ((flush w.posts w.messages >>= λ _. pure (fresh after)) h).0 ≡ ok w' =
          rw q at e in
        let (n, one, step) =
          bind-eq-ok (flush w.posts w.messages) (λ _. pure (fresh after)) h rest in
        let same : ok (fresh after) ≡ ok w' = ap (λ x. x.0) (sym step) ∙ rest in
        let is : fresh after ≡ w' = cc same in inl (subst IsEmptied is (refl, refl))
    | inr q ↦ let same : ok w ≡ ok w' = rw q at e in let is : w ≡ w' = cc same in inr (sym is, q)
  ]

  guarded-Carried :
      (w : Worker P) (now after : ℕ) (h : History) (w' : Worker P)
      → (guarded b batch_size flush w (flush_if_due b batch_size flush w now after) h).0 ≡ ok w'
      → IsEmptied w' ⊎ ((w' ≡ w) × (is_due batch_size w now ≡ false))
  unfolding guarded
  guarded-Carried w now after h w' e =
      elim (recover-Emptied w (flush_if_due b batch_size flush w now after h).0 _ w' e) [
        | inl done ↦ flush-Carried w now after h w' done
        | inr emptied ↦ inl emptied
      ]

  after_timeout-Carried :
      (e : Bool) (w : Worker P) (now after : ℕ) (h : History) (w' : Worker P)
      → is_empty w.posts ≡ e
      → (after_timeout b batch_size flush e w now after h).0 ≡ ok w'
      → IsEmptied w' ⊎ ((w' ≡ w) × ((w.posts ≡ []) ⊎ (is_due batch_size w now ≡ false)))
  unfolding after_timeout pure
  after_timeout-Carried true w now after h w' none_waits done =
      let same : w ≡ w' = cc done in inr (sym same, inl (empty w.posts none_waits))
    where
      empty : (ps : List P) → is_empty ps ≡ true → ps ≡ []
      empty [] q = refl
      empty (x ∷ xs) q = cc q
  after_timeout-Carried false w now after h w' waits done =
      elim (guarded-Carried w now after h w' done) [
        | inl emptied ↦ inl emptied
        | inr (same, early) ↦ inr (same, inr early)
      ]

  -- A turn that returns keeps a message for each post and the batch smaller than the batch size. It
  -- leaves the batch empty, or as it was, with the message that arrived if one did, and then the batch
  -- was not due when the turn tested it, or had no post; so a batch that was due, whether its flush ended
  -- well or failed, is not carried on. A shutdown does not return.
  pub turn-Carried :
      (w : Worker P) (t : Turn P) (h : History) (w' : Worker P)
      → IsSound batch_size w
      → (turn b batch_size flush w t h).0 ≡ ok w'
      → IsSound batch_size w' × Carried w t w'
  unfolding turn guarded recover lift
  turn-Carried w t h w' s e =
      (Ensures-ok _ _ (turn b batch_size flush w t h).1 w' e (turn-Sound w t h s), carried t e)
    where
      carried : (t : Turn P) → (turn b batch_size flush w t h).0 ≡ ok w' → Carried w t w'
      carried (arrival m p at now after) e = guarded-Carried (accept w m p at) now after h w' e
      carried (timeout now after) e =
          after_timeout-Carried (is_empty w.posts) w now after h w' refl e
      carried shutdown e = cc e

  -- Between two turns the batch has a message for each post and is smaller than the batch size.
  pub run_turns-IsSound :
      (w : Worker P) (ts : List (Turn P)) (h : History) (w' : Worker P)
      → IsSound batch_size w
      → (run_turns b batch_size flush w ts h).0 ≡ ok w'
      → IsSound batch_size w'
  unfolding run_turns pure
  run_turns-IsSound w [] h w' s e = subst (IsSound batch_size) (cc e) s
  run_turns-IsSound w (t ∷ ts) h w' s e =
      let (w₁, one, step) =
        bind-eq-ok (turn b batch_size flush w t) (λ x. run_turns b batch_size flush x ts) h e in
      run_turns-IsSound w₁ ts (turn b batch_size flush w t h).1 w'
        (Ensures-ok _ _ (turn b batch_size flush w t h).1 w₁ one (turn-Sound w t h s))
        (cc (e, step))

-- A worker that waited at least the `remaining` time that it computed finds its batch due, so a
-- batch with a post in it is not left waiting by a clock that goes forward.
pub remaining-is_due :
    {P : Type 0} (batch_size : ℕ) (w : Worker P) (before now : ℕ)
    → 0 < length w.posts
    → before + remaining w.last_flush before ≤ now
    → is_due batch_size w now ≡ true
remaining-is_due batch_size w before now some_post waited =
    let filled : is_empty w.posts ≡ false = nonempty w.posts some_post in rw filled (ground arith)
  where
    nonempty : {P : Type 0} (ps : List P) → 0 < length ps → is_empty ps ≡ false
    nonempty [] h = absurd (omega arith)
    nonempty (p ∷ ps) h = refl
