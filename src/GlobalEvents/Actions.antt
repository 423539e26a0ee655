-- ===== src/GlobalEvents/Actions.antt =====
-- About actions that run one after the other.
use social_sentiment.GlobalEvents.{Act, continue, ◌>>=◌}
use social_sentiment.Outcome.{Outcome, Error, ok, raised, cancelled}
use social_sentiment.Prelude.{◌≡◌, ◌∙◌, refl}

module _ {S A B : Type 0} where
  -- An action that ends well does what its second part does after its first.
  pub bind-done :
      (m : Act S A) (f : A → Act S B) (s : S) (b : B)
      → ((m >>= f) s).0 ≡ ok b
      → (a : A) × ((m s).0 ≡ ok a) × ((m >>= f) s ≡ f a (m s).1)
  unfolding ◌>>=◌
  bind-done m f s b h = go (m s).0 (m s).1 h
    where
      go :
          (o : Outcome A) (t : S)
          → (continue f o t).0 ≡ ok b
          → (a : A) × (o ≡ ok a) × (continue f o t ≡ f a t)
      go (ok a) t h = (a, refl, refl)
      go (raised x) t h = cc h
      go cancelled t h = cc h

  -- What both parts leave alone, the whole leaves alone.
  pub bind-keeps :
      {V : Type 0} (view : S → V) (m : Act S A) (f : A → Act S B)
      → ((s : S) → view (m s).1 ≡ view s)
      → ((a : A) (s : S) → view (f a s).1 ≡ view s)
      → (s : S) → view ((m >>= f) s).1 ≡ view s
  unfolding ◌>>=◌
  bind-keeps view m f p q s = go (m s).0 (m s).1 (p s)
    where
      go : (o : Outcome A) (t : S) → view t ≡ view s → view (continue f o t).1 ≡ view s
      go (ok a) t e = q a t ∙ e
      go (raised x) t e = e
      go cancelled t e = e

  -- What the first part leaves true, and the second part where the first ends well, the whole does.
  pub bind-holds :
      (Q : S → Type 0) (m : Act S A) (f : A → Act S B) (s : S)
      → Q (m s).1
      → ((a : A) → (m s).0 ≡ ok a → Q (f a (m s).1).1)
      → Q ((m >>= f) s).1
  unfolding ◌>>=◌
  bind-holds Q m f s here next = go (m s).0 (m s).1 here next
    where
      go : (o : Outcome A) (t : S) → Q t → ((a : A) → o ≡ ok a → Q (f a t).1) → Q (continue f o t).1
      go (ok a) t here next = next a refl
      go (raised x) t here next = here
      go cancelled t here next = here

  -- An action raises only where one of its parts does.
  pub bind_quiet :
      (m : Act S A) (f : A → Act S B)
      → ((s : S) (e : Error) → ¬ ((m s).0 ≡ raised e))
      → ((a : A) (s : S) (e : Error) → ¬ ((f a s).0 ≡ raised e))
      → (s : S) (e : Error) → ¬ (((m >>= f) s).0 ≡ raised e)
  unfolding ◌>>=◌
  bind_quiet m f p q s e = go (m s).0 (m s).1 (p s)
    where
      go :
          (o : Outcome A) (t : S)
          → ((x : Error) → ¬ (o ≡ raised x))
          → ¬ ((continue f o t).0 ≡ raised e)
      go (ok a) t r = q a t e
      go (raised x) t r = λ h. r x refl
      go cancelled t r = λ h. cc h

  -- An action that ends well has had its first part end well.
  pub bind-ok :
      (m : Act S A) (f : A → Act S B) (s : S) (b : B)
      → ((m >>= f) s).0 ≡ ok b
      → (a : A) × ((m s).0 ≡ ok a) × ((f a (m s).1).0 ≡ ok b)
  unfolding ◌>>=◌
  bind-ok m f s b h = go (m s).0 (m s).1 h
    where
      go :
          (o : Outcome A) (t : S)
          → (continue f o t).0 ≡ ok b
          → (a : A) × (o ≡ ok a) × ((f a t).0 ≡ ok b)
      go (ok a) t h = (a, refl, h)
      go (raised x) t h = cc h
      go cancelled t h = cc h
