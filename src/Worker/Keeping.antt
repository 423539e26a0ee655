-- ===== src/Worker/Keeping.antt =====
-- About the deliveries that a worker was given.
use social_sentiment.Worker.{
  Worker, Turn, arrival, timeout, shutdown, flush_if_due, recover, guarded, is_due, fresh, turn,
  after_timeout, run_turns, accept,
}
use social_sentiment.Broker.{
  Message, Broker, IsFaithful, Exec, History, ◌>>=◌, pure, lift, bind-eq-ok,
}
use social_sentiment.Prelude.{
  false, List, ◌∷◌, ◌++◌, ℕ, ◌≡◌, inl, [], ◌⊎◌, inr, length, refl, ◌<◌, subst, Bool-cases, Bool,
  is_empty, true,
}
use social_sentiment.Broker.Triples.{
  Triple, Anything, Any, Triple-if, Ensures, Ensures-map, Triple-bind, Triple-pure, Ensures-ok,
}
use social_sentiment.Broker.Settled.{AllSettled, Settled}
use social_sentiment.Outcome.{Outcome, ok, raised, is_requeue_error, cancelled}
use social_sentiment.Messaging.Requeue.{requeue-Settles}
use social_sentiment.Messaging.{requeue_unprocessed_messages}
use social_sentiment.Worker.Bounds.{IsSound, accept-aligned, turn-Sound}

abbrev pub Among : Message → List Message → Type 0
Among m [] = ⊥
Among m (x ∷ xs) = (x ≡ m) ⊎ Among m xs

Among-append : (m : Message) (xs ys : List Message) → Among m xs → Among m (xs ++ ys)
Among-append m (x ∷ xs) ys (inl e) = inl e
Among-append m (x ∷ xs) ys (inr a) = inr (Among-append m xs ys a)
Among-append m [] ys a = absurd a

Among-last : (m : Message) (xs : List Message) → Among m (xs ++ m ∷ [])
Among-last m [] = inl refl
Among-last m (x ∷ xs) = inr (Among-last m xs)

module _ {P : Type 0} where
  -- The delivery comes with one of the turns.
  abbrev pub Arrives : Message → List (Turn P) → Type 0
  Arrives m [] = ⊥
  Arrives m (arrival x p at now after ∷ ts) = (x ≡ m) ⊎ Arrives m ts
  Arrives m (timeout now after ∷ ts) = Arrives m ts
  Arrives m (shutdown ∷ ts) = Arrives m ts

module _ {P : Type 0} (b : Broker) (faithful : IsFaithful b) (batch_size : ℕ)
    (flush : List P → List Message → Exec (Unit {0}))
    (flush_settles : (held : List Message) (posts : List P) (messages : List Message)
      → length messages ≡ length posts
      → Triple (AllSettled b held) Anything (flush posts messages) (λ x. AllSettled b messages))
    (positive : 0 < batch_size) (m : Message) where
  -- The delivery is settled, or it waits in the batch.
  abbrev pub Kept : Worker P → History → Type 0
  Kept w h = Settled b h m ⊎ Among m w.messages

  Among-Settled : (ms : List Message) (h : History) → AllSettled b ms h → Among m ms → Settled b h m
  Among-Settled (x ∷ xs) h a (inl e) = subst (λ y. Settled b h y) e a.0
  Among-Settled (x ∷ xs) h a (inr r) = Among-Settled xs h a.1 r
  Among-Settled [] h a r = absurd r

  -- A step that keeps settled what is settled, and settles or keeps what waits.
  record Keeps (w : Worker P) (body : Exec (Worker P)) : Type 0 where
    settled : Triple (AllSettled b (m ∷ [])) Anything body Any
    waiting : Among m w.messages → Triple (AllSettled b []) Anything body (λ w' h. Kept w' h)

  flush-Keeps :
      (w : Worker P) (now after : ℕ)
      → length w.messages ≡ length w.posts
      → Keeps w (flush_if_due b batch_size flush w now after)
  unfolding flush_if_due
  flush-Keeps w now after a = record {
    settled =
        Triple-if (is_due batch_size w now) (flush w.posts w.messages >>= λ _. pure (fresh after))
          (pure w)
          (λ e.
            Triple-bind _ _ (flush_settles (m ∷ []) w.posts w.messages a)
              (λ x. Triple-pure _ (λ h y. tt)))
          (λ e. Triple-pure w (λ h y. tt));
    waiting = λ here.
        Triple-if (is_due batch_size w now) (flush w.posts w.messages >>= λ _. pure (fresh after))
          (pure w)
          (λ e.
            Triple-bind _ _ (flush_settles [] w.posts w.messages a)
              (λ x. Triple-pure _ (λ h y. inl (Among-Settled w.messages h y here))))
          (λ e. Triple-pure w (λ h y. inr here));
  }

  -- what `recover` does, by rules
  recover-rule :
      {R : Worker P → History → Type 0} (held : List Message) (w : Worker P)
      (o : Outcome (Worker P)) (h : History)
      → ((h' : History) → AllSettled b w.messages h' → (at : Worker P) → R at h')
      → AllSettled b held h × Ensures R o h
      → AllSettled b held (recover b batch_size flush w o h).1
        × Ensures R (recover b batch_size flush w o h).0 (recover b batch_size flush w o h).1
  unfolding recover
  recover-rule held w (ok w') h r x = x
  recover-rule held w cancelled h r x =
      (((requeue-Settles b faithful held w.messages).at h x.0 tt).0, tt)
  recover-rule held w (raised e) h r x = elim (Bool-cases (is_requeue_error e.kind)) [
    | inl q ↦ rw q (x.0, tt)
    | inr q ↦ rw q (
        (Triple-bind {P = AllSettled b held} {E = Anything}
            (requeue_unprocessed_messages b w.messages)
            (λ n. pure (record w { posts = []; messages = [] }))
            (requeue-Settles b faithful held w.messages) (λ n. Triple-pure _ (λ h' y. r h' y _))).at
          h x.0 tt)
  ]

  guarded-Keeps :
      (w : Worker P) (body : Exec (Worker P))
      → Keeps w body
      → Keeps w (guarded b batch_size flush w body)
  unfolding guarded
  guarded-Keeps w body k = record {
    settled = record {
      at = λ h a e.
          recover-rule (m ∷ []) w (body h).0 (body h).1 (λ h' s x. tt) (k.settled.at h a e);
    };
    waiting = λ here. record {
      at = λ h a e.
          recover-rule [] w (body h).0 (body h).1
            (λ h' s x. inl (Among-Settled w.messages h' s here)) ((k.waiting here).at h a e);
    };
  }

  -- From a step that keeps, to the delivery.
  Keeps-Kept :
      (w : Worker P) (body : Exec (Worker P)) (h : History)
      → Keeps w body
      → Kept w h
      → Ensures Kept (body h).0 (body h).1
  Keeps-Kept w body h k (inl s) =
      Ensures-map _ _ (body h).0 (body h).1 (λ w' x. inl (k.settled.at h (s, tt) tt).0.0)
        ((k.settled.at h (s, tt) tt).1)
  Keeps-Kept w body h k (inr here) = ((k.waiting here).at h tt tt).1

  arrival-Kept :
      (w : Worker P) (x : Message) (p : P) (at now after : ℕ) (h : History)
      → IsSound batch_size w
      → Kept (accept w x p at) h
      → Ensures Kept
          (turn b batch_size flush w (arrival x p at now after) h).0
          (turn b batch_size flush w (arrival x p at now after) h).1
  unfolding turn
  arrival-Kept w x p at now after h s k =
      let w' : Worker P = accept w x p at in
      let body : Exec (Worker P) = flush_if_due b batch_size flush w' now after in
      Keeps-Kept w' (guarded b batch_size flush w' body) h
        (guarded-Keeps w' body (
          flush-Keeps w' now after (accept-aligned b batch_size flush positive w x p at s.aligned)))
        k

  after_timeout-Kept :
      (e : Bool) (w : Worker P) (now after : ℕ) (h : History)
      → IsSound batch_size w
      → Kept w h
      → Ensures Kept
          (after_timeout b batch_size flush e w now after h).0
          (after_timeout b batch_size flush e w now after h).1
  unfolding after_timeout pure
  after_timeout-Kept true w now after h s k = k
  after_timeout-Kept false w now after h s k =
      let body : Exec (Worker P) = flush_if_due b batch_size flush w now after in
      Keeps-Kept w (guarded b batch_size flush w body) h
        (guarded-Keeps w body (flush-Keeps w now after s.aligned)) k

  shutdown-Kept :
      (w : Worker P) (h : History)
      → Ensures Kept
          (turn b batch_size flush w shutdown h).0
          (turn b batch_size flush w shutdown h).1
  unfolding turn guarded recover lift
  shutdown-Kept w h = tt

  -- A turn keeps every delivery that was kept, and the one that it brings.
  turn-Kept :
      (w : Worker P) (t : Turn P) (h : History)
      → IsSound batch_size w
      → Kept w h ⊎ Arrives m (t ∷ [])
      → Ensures Kept (turn b batch_size flush w t h).0 (turn b batch_size flush w t h).1
  unfolding turn
  turn-Kept w (arrival x p at now after) h s (inl (inl k)) =
      arrival-Kept w x p at now after h s (inl k)
  turn-Kept w (arrival x p at now after) h s (inl (inr k)) =
      arrival-Kept w x p at now after h s (inr (Among-append m w.messages (x ∷ []) k))
  turn-Kept w (arrival x p at now after) h s (inr (inl e)) =
      arrival-Kept w x p at now after h s
        (inr (subst (λ y. Among y (w.messages ++ x ∷ [])) e (Among-last x w.messages)))
  turn-Kept w (arrival x p at now after) h s (inr (inr k)) = absurd k
  turn-Kept w (timeout now after) h s (inl k) =
      after_timeout-Kept (is_empty w.posts) w now after h s k
  turn-Kept w (timeout now after) h s (inr k) = absurd k
  turn-Kept w shutdown h s k = shutdown-Kept w h

  split_arrival :
      (w : Worker P) (t : Turn P) (ts : List (Turn P)) (h : History)
      → Kept w h ⊎ Arrives m (t ∷ ts)
      → (Kept w h ⊎ Arrives m (t ∷ [])) ⊎ Arrives m ts
  split_arrival w t ts h (inl k) = inl (inl k)
  split_arrival w (arrival x p at now after) ts h (inr (inl e)) = inl (inr (inl e))
  split_arrival w (arrival x p at now after) ts h (inr (inr a)) = inr a
  split_arrival w (timeout now after) ts h (inr a) = inr a
  split_arrival w shutdown ts h (inr a) = inr a

  -- As long as the worker runs, every delivery that it was given is settled or waits in the batch:
  -- no failure of a flush loses one.
  pub run_turns-Kept :
      (w w' : Worker P) (ts : List (Turn P)) (h : History)
      → IsSound batch_size w
      → Kept w h ⊎ Arrives m ts
      → (run_turns b batch_size flush w ts h).0 ≡ ok w'
      → Kept w' (run_turns b batch_size flush w ts h).1
  unfolding run_turns pure
  run_turns-Kept w w' [] h s (inl k) e = let same : w ≡ w' = cc e in subst (λ x. Kept x h) same k
  run_turns-Kept w w' [] h s (inr a) e = absurd a
  run_turns-Kept w w' (t ∷ ts) h s k e =
      let (w₁, one, step) =
        bind-eq-ok (turn b batch_size flush w t) (λ x. run_turns b batch_size flush x ts) h e in
      let h₁ : History = (turn b batch_size flush w t h).1 in
      let s₁ : IsSound batch_size w₁ =
        Ensures-ok _ _ h₁ w₁ one (turn-Sound b batch_size flush positive w t h s) in
      let k₁ : Kept w₁ h₁ ⊎ Arrives m ts = elim (split_arrival w t ts h k) [
        | inl now ↦ inl (Ensures-ok Kept _ h₁ w₁ one (turn-Kept w t h s now))
        | inr later ↦ inr later
      ] in
      rw step (run_turns-Kept w₁ w' ts h₁ s₁ k₁ (cc (e, step)))
