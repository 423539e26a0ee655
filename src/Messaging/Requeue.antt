-- ===== src/Messaging/Requeue.antt =====
-- About the requeueing of deliveries that were not processed.
use social_sentiment.Prelude.{
  ℕ, ◌+◌, ◌≤◌, ◌≡◌, refl, ◌⊎◌, inl, inr, List, [], ◌∷◌, ◌++◌, arith, true, length, length-append,
  All, Bool-cases, false, subst₂, subst, sym, ap, ◌≢◌, ◌<◌,
}
use social_sentiment.Outcome.{Outcome, ok, raised, cancelled, Error, requeue_error}
use social_sentiment.Broker.{
  Message, nack, done, fails, cancels, History, IsFaithful, Broker, ◌>>=◌, perform, pure, catch,
  raise, continue, Reply-cases, bind-eq-ok, bind-eq-raised,
}
use social_sentiment.Messaging.{
  Tally, no_tally, requeue_one, requeue_each, report, requeue_unprocessed_messages, finish,
}
use social_sentiment.Broker.Settled.{AllSettled, AllSettled-call}
use social_sentiment.Broker.Triples.{
  Triple, Ensures, Any, Anything, Triple-pure, Triple-bind, Triple-keeps, Triple-raise,
}

-- The tag is among those listed.
abbrev pub Listed : ℕ → List ℕ → Type 0
Listed t [] = ⊥
Listed t (u ∷ us) = (u ≡ t) ⊎ Listed t us

Listed-append : (t : ℕ) (us vs : List ℕ) → Listed t us → Listed t (us ++ vs)
Listed-append t (u ∷ us) vs (inl e) = inl e
Listed-append t (u ∷ us) vs (inr l) = inr (Listed-append t us vs l)
Listed-append t [] vs l = absurd l

Listed-last : (t : ℕ) (us : List ℕ) → Listed t (us ++ t ∷ [])
Listed-last t [] = inl refl
Listed-last t (u ∷ us) = inr (Listed-last t us)

module _ (b : Broker) (t : Tally) (m : Message) (h : History) where
  abbrev count_requeued : Tally
  count_requeued = record t {
    attempted_count = t.attempted_count + 1;
    requeued_count = t.requeued_count + 1;
  }

  abbrev count_failure : Tally
  count_failure = record t {
    attempted_count = t.attempted_count + 1;
    failures = t.failures ++ m.tag ∷ [];
  }

  requeue_one_skips : b.processed h m.tag ≡ true → requeue_one b t m h ≡ (ok t, h)
  unfolding requeue_one pure
  requeue_one_skips p = rw p

  requeue_one_nacks :
      (n : ℕ)
      → b.processed h m.tag ≡ false
      → b.respond h (nack m) ≡ done n
      → requeue_one b t m h ≡ (ok count_requeued, (nack m, done n) ∷ h)
  unfolding requeue_one ◌>>=◌ perform catch
  requeue_one_nacks n p r = rw (p, r)

  requeue_one_fails :
      (e : Error)
      → b.processed h m.tag ≡ false
      → b.respond h (nack m) ≡ fails e
      → requeue_one b t m h ≡ (ok count_failure, (nack m, fails e) ∷ h)
  unfolding requeue_one ◌>>=◌ perform catch
  requeue_one_fails e p r = rw (p, r)

  requeue_one_cancelled :
      b.processed h m.tag ≡ false
      → b.respond h (nack m) ≡ cancels
      → requeue_one b t m h ≡ (cancelled, (nack m, cancels) ∷ h)
  unfolding requeue_one ◌>>=◌ perform catch
  requeue_one_cancelled p r = rw (p, r)

module _ (b : Broker) (faithful : IsFaithful b) where
  -- The delivery is settled, or it is one of the failures.
  abbrev pub Handled : History → List ℕ → Message → Type 0
  Handled h failures m = (b.processed h m.tag ≡ true) ⊎ Listed m.tag failures

  -- One round handles its message, keeps what was handled before, and keeps the counts in balance.
  record Round (t : Tally) (h : History) (m : Message) (t' : Tally) (h' : History) : Type 0 where
    handled : Handled h' t'.failures m
    kept : (other : Message) → Handled h t.failures other → Handled h' t'.failures other
    counts :
        t.attempted_count ≡ t.requeued_count + length t.failures
        → t'.attempted_count ≡ t'.requeued_count + length t'.failures

  Round-nacked :
      (t : Tally) (m : Message) (h : History) (n : ℕ)
      → Round t h m (count_requeued b t m h) ((nack m, done n) ∷ h)
  Round-nacked t m h n = record {
    handled = inl (faithful.nacked h m n);
    kept = λ other. elim [
      | inl p ↦ inl (faithful.kept h (nack m) (done n) other.tag p)
      | inr l ↦ inr l
    ];
    counts = λ e. omega arith;
  }

  Round-failed :
      (t : Tally) (m : Message) (h : History) (e : Error)
      → Round t h m (count_failure b t m h) ((nack m, fails e) ∷ h)
  Round-failed t m h e = record {
    handled = inr (Listed-last m.tag t.failures);
    kept = λ other. elim [
      | inl p ↦ inl (faithful.kept h (nack m) (fails e) other.tag p)
      | inr l ↦ inr (Listed-append other.tag t.failures (m.tag ∷ []) l)
    ];
    counts = λ q. omega (arith, length-append {0} t.failures (m.tag ∷ []));
  }

  Round-of-eq :
      (t t' t₁ : Tally) (m : Message) (h h₁ : History)
      → requeue_one b t m h ≡ (ok t₁, h₁)
      → (requeue_one b t m h).0 ≡ ok t'
      → Round t h m t₁ h₁
      → Round t h m t' (requeue_one b t m h).1
  Round-of-eq t t' t₁ m h h₁ q e r =
      let same : t₁ ≡ t' = cc (q, e) in
      subst₂ (Round t h m) same (sym (ap (λ (x : Outcome Tally × History). x.1) q)) r

  requeue_one-Round :
      (t t' : Tally) (m : Message) (h : History)
      → (requeue_one b t m h).0 ≡ ok t'
      → Round t h m t' (requeue_one b t m h).1
  requeue_one-Round t t' m h e = elim (Bool-cases (b.processed h m.tag)) [
    | inl p ↦
        Round-of-eq t t' t m h h (requeue_one_skips b t m h p) e
          (record { handled = inl p; kept = λ other x. x; counts = λ q. q })
    | inr p ↦ elim (Reply-cases (b.respond h (nack m))) [
      | inl (n, r) ↦
          Round-of-eq t t' _ m h _ (requeue_one_nacks b t m h n p r) e (Round-nacked t m h n)
      | inr (inl (x, r)) ↦
          Round-of-eq t t' _ m h _ (requeue_one_fails b t m h x p r) e (Round-failed t m h x)
      | inr (inr r) ↦ cc (requeue_one_cancelled b t m h p r, e)
    ]
  ]

  -- What the loop leaves behind: all its messages are handled, as is what was before.
  record Rounds (t : Tally) (h : History) (ms : List Message) (t' : Tally) (h' : History)
      : Type 0 where
    handled : All (Handled h' t'.failures) ms
    kept : (other : Message) → Handled h t.failures other → Handled h' t'.failures other
    counts :
        t.attempted_count ≡ t.requeued_count + length t.failures
        → t'.attempted_count ≡ t'.requeued_count + length t'.failures

  requeue_each-Rounds :
      (t t' : Tally) (ms : List Message) (h : History)
      → (requeue_each b t ms h).0 ≡ ok t'
      → Rounds t h ms t' (requeue_each b t ms h).1
  unfolding requeue_each pure
  requeue_each-Rounds t t' [] h e =
      subst (λ x. Rounds t h [] x h) (cc e)
        (record { handled = tt; kept = λ other x. x; counts = λ q. q })
  requeue_each-Rounds t t' (m ∷ ms) h e =
      let (t₁, one, step) = bind-eq-ok (requeue_one b t m) (λ x. requeue_each b x ms) h e in
      let h₁ : History = (requeue_one b t m h).1 in
      let first : Round t h m t₁ h₁ = requeue_one-Round t t₁ m h one in
      let rest : Rounds t₁ h₁ ms t' (requeue_each b t₁ ms h₁).1 =
        requeue_each-Rounds t₁ t' ms h₁ (cc (e, step)) in
      rw step (record {
        handled = (rest.kept m first.handled, rest.handled);
        kept = λ other x. rest.kept other (first.kept other x);
        counts = λ q. rest.counts (first.counts q);
      })

  requeue_one-ne-raised :
      (t : Tally) (m : Message) (h : History) (e : Error) → (requeue_one b t m h).0 ≢ raised e
  requeue_one-ne-raised t m h e q = elim (Bool-cases (b.processed h m.tag)) [
    | inl p ↦ cc (requeue_one_skips b t m h p, q)
    | inr p ↦ elim (Reply-cases (b.respond h (nack m))) [
      | inl (n, r) ↦ cc (requeue_one_nacks b t m h n p r, q)
      | inr (inl (x, r)) ↦ cc (requeue_one_fails b t m h x p r, q)
      | inr (inr r) ↦ cc (requeue_one_cancelled b t m h p r, q)
    ]
  ]

  requeue_each-ne-raised :
      (t : Tally) (ms : List Message) (h : History) (e : Error)
      → (requeue_each b t ms h).0 ≢ raised e
  unfolding requeue_each pure
  requeue_each-ne-raised t [] h e q = cc
  requeue_each-ne-raised t (m ∷ ms) h e q =
      elim (bind-eq-raised (requeue_one b t m) (λ x. requeue_each b x ms) h q) [
        | inl here ↦ requeue_one-ne-raised t m h e here
        | inr (t₁, one, later) ↦ requeue_each-ne-raised t₁ ms (requeue_one b t m h).1 e later
      ]

  All-Handled-nil :
      (h : History) (ms : List Message)
      → All (Handled h []) ms
      → All (λ m. b.processed h m.tag ≡ true) ms
  All-Handled-nil h [] a = tt
  All-Handled-nil h (m ∷ ms) a =
      (elim a.0 [ inl p ↦ p | inr l ↦ absurd l ], All-Handled-nil h ms a.1)

  -- What a call of `requeue_unprocessed_messages` means to its caller.
  abbrev pub Reported : List Message → Outcome ℕ → History → Type 0
  Reported ms (ok n) h = All (λ m. b.processed h m.tag ≡ true) ms
  Reported ms (raised e) h =
      (tags : List ℕ) × (attempted : ℕ) × (e ≡ requeue_error tags attempted)
      × (0 < length tags)
      × (length tags ≤ attempted)
      × All (Handled h tags) ms
  Reported ms cancelled h = Unit

  finish-Reported :
      (ms : List Message) (h : History) (attempted requeued : ℕ) (failures : List ℕ)
      → attempted ≡ requeued + length failures
      → All (Handled h failures) ms
      → Reported ms
          (finish attempted requeued failures h).0
          (finish attempted requeued failures h).1
  unfolding finish pure raise
  finish-Reported ms h attempted requeued [] counts a = All-Handled-nil h ms a
  finish-Reported ms h attempted requeued (tag ∷ tags) counts a =
      (tag ∷ tags, attempted, refl, omega arith, omega arith, a)

  Reported-requeue :
      (t : Tally) (ms : List Message) (h : History)
      → t.attempted_count ≡ t.requeued_count + length t.failures
      → Reported ms ((requeue_each b t ms >>= report) h).0 ((requeue_each b t ms >>= report) h).1
  unfolding ◌>>=◌ report
  Reported-requeue t ms h counts = go (requeue_each b t ms h).0 refl
    where
      go :
          (o : Outcome Tally)
          → (requeue_each b t ms h).0 ≡ o
          → Reported ms
              (continue report o (requeue_each b t ms h).1).0
              (continue report o (requeue_each b t ms h).1).1
      go (ok t') e =
          let r : Rounds t h ms t' (requeue_each b t ms h).1 = requeue_each-Rounds t t' ms h e in
          finish-Reported ms (requeue_each b t ms h).1 t'.attempted_count t'.requeued_count
            t'.failures (r.counts counts) r.handled
      go (raised x) e = absurd (requeue_each-ne-raised t ms h x e)
      go cancelled e = tt

  -- When it returns, every message given is settled. When it raises, it raises a `RequeueError`
  -- that lists at least one delivery and no more than were attempted, and every message given is
  -- settled or listed. Of a cancelled call nothing is said.
  pub requeue-Reported :
      (ms : List Message) (h : History)
      → Reported ms (requeue_unprocessed_messages b ms h).0 (requeue_unprocessed_messages b ms h).1
  unfolding requeue_unprocessed_messages
  requeue-Reported ms h = Reported-requeue no_tally ms h refl

  -- Whatever its outcome, the loop leaves settled what was settled.
  requeue_one-AllSettled :
      (held : List Message) (t : Tally) (m : Message) (h : History)
      → AllSettled b held h
      → AllSettled b held (requeue_one b t m h).1
  requeue_one-AllSettled held t m h a = elim (Bool-cases (b.processed h m.tag)) [
    | inl p ↦ rw (requeue_one_skips b t m h p) a
    | inr p ↦ elim (Reply-cases (b.respond h (nack m))) [
      | inl (n, r) ↦
          rw (requeue_one_nacks b t m h n p r)
            (AllSettled-call b faithful held h (nack m) (done n) a)
      | inr (inl (x, r)) ↦
          rw (requeue_one_fails b t m h x p r)
            (AllSettled-call b faithful held h (nack m) (fails x) a)
      | inr (inr r) ↦
          rw (requeue_one_cancelled b t m h p r)
            (AllSettled-call b faithful held h (nack m) cancels a)
    ]
  ]

  requeue_each-AllSettled :
      (held : List Message) (t : Tally) (ms : List Message) {E : History → Type 0}
      → Triple (AllSettled b held) E (requeue_each b t ms) Any
  unfolding requeue_each
  requeue_each-AllSettled held t [] = Triple-pure t (λ h x. tt)
  requeue_each-AllSettled held t (m ∷ ms) =
      Triple-bind _ _ (Triple-keeps _ (requeue_one-AllSettled held t m))
        (λ t'. requeue_each-AllSettled held t' ms)

  finish-AllSettled :
      (held : List Message) (attempted requeued : ℕ) (failures : List ℕ) {E : History → Type 0}
      → Triple (AllSettled b held) E (finish attempted requeued failures) Any
  unfolding finish
  finish-AllSettled held attempted requeued [] = Triple-pure _ (λ h x. tt)
  finish-AllSettled held attempted requeued (f ∷ fs) = Triple-raise _

  requeue-AllSettled :
      (held ms : List Message)
      → Triple (AllSettled b held) Anything (requeue_unprocessed_messages b ms) Any
  unfolding requeue_unprocessed_messages report
  requeue-AllSettled held ms =
      Triple-bind _ _ (requeue_each-AllSettled held no_tally ms)
        (λ t. finish-AllSettled held t.attempted_count t.requeued_count t.failures)

  Reported-Ensures :
      (ms : List Message) (o : Outcome ℕ) (h : History)
      → Reported ms o h
      → Ensures (λ n. AllSettled b ms) o h
  Reported-Ensures ms (ok n) h r = r
  Reported-Ensures ms (raised e) h r = tt
  Reported-Ensures ms cancelled h r = tt

  -- When the messages have been put back, all are settled, and so is what was settled before.
  pub requeue-Settles :
      (held ms : List Message)
      → Triple
          (AllSettled b held)
          Anything
          (requeue_unprocessed_messages b ms)
          (λ n. AllSettled b ms)
  requeue-Settles held ms = record {
    at = λ h a e. (
      ((requeue-AllSettled held ms).at h a e).0,
      Reported-Ensures ms (requeue_unprocessed_messages b ms h).0
          (requeue_unprocessed_messages b ms h).1 (requeue-Reported ms h),
    );
  }
