-- ===== src/Broker/Settled.antt =====
-- About deliveries that are settled: by a confirmed `ack` or `nack`.
use social_sentiment.Prelude.{◌≡◌, true, List, [], ◌∷◌, All, ℕ}
use social_sentiment.Broker.{
  Broker, IsFaithful, History, Message, Call, Exec, Reply, perform, ack, outcome, done, fails,
  cancels,
}
use social_sentiment.Outcome.{Outcome, ok, raised, cancelled}
use social_sentiment.Broker.Triples.{Triple, Any, Ensures, Anything, Triple-keeps}

abbrev pub Settled : Broker → History → Message → Type 0
Settled b h m = b.processed h m.tag ≡ true

abbrev pub AllSettled : Broker → List Message → History → Type 0
AllSettled b ms h = All (Settled b h) ms

module _ (b : Broker) (faithful : IsFaithful b) where
  pub AllSettled-call :
      (ms : List Message) (h : History) (c : Call) (r : Reply)
      → AllSettled b ms h
      → AllSettled b ms ((c, r) ∷ h)
  AllSettled-call [] h c r a = tt
  AllSettled-call (m ∷ ms) h c r a = (faithful.kept h c r m.tag a.0, AllSettled-call ms h c r a.1)

  acked-Settled :
      (m : Message) (r : Reply) (h : History)
      → Ensures (λ (n : ℕ) h'. Settled b h' m) (outcome r) ((ack m, r) ∷ h)
  acked-Settled m (done n) h = faithful.acked h m n
  acked-Settled m (fails e) h = tt
  acked-Settled m cancels h = tt

  module _ (held : List Message) {E : History → Type 0} where
    pub Triple-call : (c : Call) → Triple (AllSettled b held) E (perform b c) Any
    unfolding perform
    Triple-call c = Triple-keeps _ (λ h a. AllSettled-call held h c (b.respond h c) a)

    pub Triple-acks :
        (m : Message) → Triple (AllSettled b held) E (perform b (ack m)) (λ n h. Settled b h m)
    unfolding perform
    Triple-acks m = record {
      at = λ h a e. (
        AllSettled-call held h (ack m) (b.respond h (ack m)) a,
        acked-Settled m (b.respond h (ack m)) h,
      );
    }

  -- What is settled before an action is settled behind it.
  Ensures-hold :
      {A : Type 0} (R : A → History → Type 0) (m : Message) (o : Outcome A) (h : History)
      → Settled b h m
      → Ensures R o h
      → Ensures (λ a h'. Settled b h' m × R a h') o h
  Ensures-hold R m (ok a) h s r = (s, r)
  Ensures-hold R m (raised e) h s r = tt
  Ensures-hold R m cancelled h s r = tt

  pub Triple-hold :
      {A : Type 0} {R : A → History → Type 0} (held : List Message) (m : Message) (act : Exec A)
      → Triple (AllSettled b (m ∷ held)) Anything act R
      → Triple (AllSettled b held) (λ h. Settled b h m) act (λ a h. Settled b h m × R a h)
  Triple-hold {R = R} held m act t = record {
    at = λ h a s.
        let r : AllSettled b (m ∷ held) (act h).1 × Ensures R (act h).0 (act h).1 =
          t.at h (s, a) tt in
        (r.0.1, Ensures-hold R m (act h).0 (act h).1 r.0.0 r.1);
  }
