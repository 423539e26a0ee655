-- ===== src/Broker/Triples.antt =====
-- Rules for actions: what holds of the history whatever the outcome, and what holds beside it when
-- the action returns a value.
use social_sentiment.Prelude.{◌≡◌, refl, Bool, true, false, if◌then◌else◌, subst}
use social_sentiment.Outcome.{Outcome, ok, raised, cancelled, Error}
use social_sentiment.Broker.{
  History, Exec, pure, raise, catch, handle, settle, try_except, continue, ◌>>=◌, lift,
}

module _ {A : Type 0} where
  -- `R` holds of the value, if there is one.
  abbrev pub Ensures : (A → History → Type 0) → Outcome A → History → Type 0
  Ensures R (ok a) h = R a h
  Ensures R (raised e) h = Unit
  Ensures R cancelled h = Unit

  -- From a history with the invariant `P` and with `E`, the action keeps `P`, and `R` holds of the
  -- value that it returns.
  pub record Triple (P E : History → Type 0) (m : Exec A) (R : A → History → Type 0) : Type 0 where
    pub at : (h : History) → P h → E h → P (m h).1 × Ensures R (m h).0 (m h).1

abbrev pub Anything : History → Type 0
Anything h = Unit

abbrev pub Any : {A : Type 0} → A → History → Type 0
Any a h = Unit

module _ {A : Type 0} (R : A → History → Type 0) where
  Ensures-lift : (o : Outcome A) (h : History) → ((a : A) → R a h) → Ensures R o h
  Ensures-lift (ok a) h r = r a
  Ensures-lift (raised x) h r = tt
  Ensures-lift cancelled h r = tt

  reraise-at :
      (o : Outcome (Unit {0})) (h : History)
      → Ensures R (elim o [ ok _ ↦ cancelled | raised e ↦ raised e | cancelled ↦ cancelled ]) h
  reraise-at (ok _) h = tt
  reraise-at (raised x) h = tt
  reraise-at cancelled h = tt

  -- a weaker conclusion
  Ensures-weaken :
      (S : A → History → Type 0) (o : Outcome A) (h : History)
      → ((a : A) → R a h → S a h)
      → Ensures R o h
      → Ensures S o h
  Ensures-weaken S (ok a) h w r = w a r
  Ensures-weaken S (raised x) h w r = tt
  Ensures-weaken S cancelled h w r = tt

module _ {A : Type 0} (P : History → Type 0) (R : A → History → Type 0) where
  handle-at :
      (f : Error → Exec A)
      → ((x : Error) → Triple P Anything (f x) R)
      → (o : Outcome A) (h : History) → P h × Ensures R o h
      → P (handle f o h).1 × Ensures R (handle f o h).0 (handle f o h).1
  handle-at f t (ok a) h r = r
  handle-at f t (raised x) h r = (t x).at h r.0 tt
  handle-at f t cancelled h r = r

  settle-at :
      (c : Exec (Unit {0})) (f : Error → Exec A)
      → Triple P Anything c Any
      → ((x : Error) → Triple P Anything (f x) R)
      → (o : Outcome A) (h : History) → P h × Ensures R o h
      → P (settle c f o h).1 × Ensures R (settle c f o h).0 (settle c f o h).1
  settle-at c f tc tf (ok a) h r = r
  settle-at c f tc tf (raised x) h r = (tf x).at h r.0 tt
  settle-at c f tc tf cancelled h r = ((tc.at h r.0 tt).0, reraise-at R (c h).0 (c h).1)

module _ {A B : Type 0} (P : History → Type 0) (R : A → History → Type 0)
    (S : B → History → Type 0) where
  continue-at :
      (f : A → Exec B)
      → ((a : A) → Triple P (R a) (f a) S)
      → (o : Outcome A) (h : History) → P h × Ensures R o h
      → P (continue f o h).1 × Ensures S (continue f o h).0 (continue f o h).1
  continue-at f t (ok a) h r = (t a).at h r.0 r.1
  continue-at f t (raised x) h r = (r.0, tt)
  continue-at f t cancelled h r = (r.0, tt)

module _ {A : Type 0} {P E : History → Type 0} {R : A → History → Type 0} where
  pub Triple-pure : (a : A) → ((h : History) → E h → R a h) → Triple P E (pure a) R
  unfolding pure
  Triple-pure a r = record { at = λ h p e. (p, r h e) }

  pub Triple-raise : (x : Error) → Triple P E (raise x) R
  unfolding raise
  Triple-raise x = record { at = λ h p e. (p, tt) }

  pub Triple-lift :
      (o : Outcome A) → ((h : History) → E h → (a : A) → o ≡ ok a → R a h) → Triple P E (lift o) R
  unfolding lift
  Triple-lift (ok a) r = record { at = λ h p e. (p, r h e a refl) }
  Triple-lift (raised x) r = record { at = λ h p e. (p, tt) }
  Triple-lift cancelled r = record { at = λ h p e. (p, tt) }

  -- an outcome that is read off the history, with no call
  pub Triple-read :
      (f : History → Outcome A)
      → ((h : History) → E h → (a : A) → R a h)
      → Triple P E (λ h. (f h, h)) R
  Triple-read f r = record { at = λ h p e. (p, Ensures-lift R (f h) h (r h e)) }

  pub Triple-if :
      (b : Bool) (m n : Exec A)
      → (b ≡ true → Triple P E m R)
      → (b ≡ false → Triple P E n R)
      → Triple P E (if b then m else n) R
  Triple-if true m n x y = x refl
  Triple-if false m n x y = y refl

  pub Triple-catch :
      (m : Exec A) (f : Error → Exec A)
      → Triple P E m R
      → ((x : Error) → Triple P Anything (f x) R)
      → Triple P E (catch m f) R
  unfolding catch
  Triple-catch m f tm tf = record { at = λ h p e. handle-at P R f tf (m h).0 (m h).1 (tm.at h p e) }

  pub Triple-try_except :
      (m : Exec A) (c : Exec (Unit {0})) (f : Error → Exec A)
      → Triple P E m R
      → Triple P Anything c Any
      → ((x : Error) → Triple P Anything (f x) R)
      → Triple P E (try_except m c f) R
  unfolding try_except
  Triple-try_except m c f tm tc tf = record {
    at = λ h p e. settle-at P R c f tc tf (m h).0 (m h).1 (tm.at h p e);
  }

  pub Triple-weaken :
      {F : History → Type 0} {S : A → History → Type 0} (m : Exec A)
      → Triple P E m R
      → ((h : History) → F h → E h)
      → ((a : A) (h : History) → R a h → S a h)
      → Triple P F m S
  Triple-weaken {S = S} m t e w = record {
    at = λ h p f.
        let r : P (m h).1 × Ensures R (m h).0 (m h).1 = t.at h p (e h f) in
        (r.0, Ensures-weaken R S (m h).0 (m h).1 (λ a. w a (m h).1) r.1);
  }

module _ {A B : Type 0} {P E : History → Type 0} {R : A → History → Type 0}
    {S : B → History → Type 0} where
  pub Triple-bind :
      (m : Exec A) (f : A → Exec B)
      → Triple P E m R
      → ((a : A) → Triple P (R a) (f a) S)
      → Triple P E (m >>= f) S
  unfolding ◌>>=◌
  Triple-bind m f tm tf = record {
    at = λ h p e. continue-at P R S f tf (m h).0 (m h).1 (tm.at h p e);
  }

module _ {A : Type 0} where
  Ensures-Any : (o : Outcome A) (h : History) → Ensures (Any {A = A}) o h
  Ensures-Any (ok a) h = tt
  Ensures-Any (raised x) h = tt
  Ensures-Any cancelled h = tt

  pub Triple-keeps :
      {P E : History → Type 0} (m : Exec A) → ((h : History) → P h → P (m h).1) → Triple P E m Any
  Triple-keeps m k = record { at = λ h p e. (k h p, Ensures-Any (m h).0 (m h).1) }

  pub Ensures-ok :
      (R : A → History → Type 0) (o : Outcome A) (h : History) (a : A)
      → o ≡ ok a
      → Ensures R o h
      → R a h
  Ensures-ok R (ok b) h a e r = subst (λ x. R x h) (cc e) r
  Ensures-ok R (raised x) h a e r = absurd (cc e)
  Ensures-ok R cancelled h a e r = absurd (cc e)

  pub Ensures-map :
      (R S : A → History → Type 0) (o : Outcome A) (h : History)
      → ((a : A) → R a h → S a h)
      → Ensures R o h
      → Ensures S o h
  Ensures-map R S (ok a) h f r = f a r
  Ensures-map R S (raised x) h f r = tt
  Ensures-map R S cancelled h f r = tt

module _ {A : Type 0} (R : History → Type 0) where
  pub Ensures-always : (o : Outcome A) (h : History) → R h → Ensures (λ a h'. R h') o h
  Ensures-always (ok a) h r = r
  Ensures-always (raised x) h r = tt
  Ensures-always cancelled h r = tt

module _ {A : Type 0} {P E : History → Type 0} {R : A → History → Type 0} where
  -- a fact that is no matter of the history
  pub Triple-given : (X : Type 0) (m : Exec A) → (X → Triple P E m R) → Triple P (λ h. E h × X) m R
  Triple-given X m t = record { at = λ h p e. (t e.1).at h p e.0 }
