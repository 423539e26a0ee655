-- ===== src/Broker.antt =====
-- The RabbitMQ client and the database, as the services use them. Both are code of others, so what
-- they answer is a parameter: a function of every call made so far. The calls that a service
-- makes, with the answers, are its history, latest first.
pub mod Traces
pub mod Triples
pub mod Settled
use social_sentiment.Prelude.{ℕ, String, ◌≡◌, refl, ◌⊎◌, inl, inr, Bool, Option, List, ◌∷◌, Dict}
use social_sentiment.Prelude.Int.{ℤ}
use social_sentiment.Outcome.{Outcome, ok, raised, cancelled, Error}
use social_sentiment.Schemas.{ScoredPost}

-- A header's value: an `int`, or any other value by its text.
pub data HeaderValue : Type 0 where
  number : ℤ → HeaderValue
  text : String → HeaderValue

abbrev pub Headers : Type 0
Headers = Dict HeaderValue

-- `aio_pika.IncomingMessage`; the tag tells deliveries apart.
pub record Message : Type 0 where
  pub tag : ℕ
  pub body : String
  pub content_type : Option String
  pub headers : Option Headers

-- `aio_pika.Message` with its routing key on the default exchange.
pub record Publication : Type 0 where
  pub routing_key : String
  pub body : String
  pub content_type : Option String
  pub persistent : Bool
  pub headers : Headers

-- What a service asks of the broker and of the database.
pub data Call : Type 0 where
  publish : Publication → Call
  ack : Message → Call
  nack : Message → Call
  insert_scored : List ScoredPost → Call

-- The number is the count of affected rows of an insert, and nothing for the other calls.
pub data Reply : Type 0 where
  done : ℕ → Reply
  fails : Error → Reply
  cancels : Reply

abbrev pub History : Type 0
History = List (Call × Reply)

pub record Broker : Type 0 where
  pub respond : History → Call → Reply
  -- `message.processed` of a delivery
  pub processed : History → ℕ → Bool
  -- `int()` of a header that is no integer; `none` is a `TypeError` or a `ValueError`
  pub int_of_text : String → Option ℤ

-- What the client library documents of `processed`: a confirmed `ack` or `nack` sets it, and it is
-- never reset.
pub record IsFaithful (b : Broker) : Type 0 where
  pub acked :
      (h : History) (m : Message) (n : ℕ) → b.processed ((ack m, done n) ∷ h) m.tag ≡ Bool.true
  pub nacked :
      (h : History) (m : Message) (n : ℕ) → b.processed ((nack m, done n) ∷ h) m.tag ≡ Bool.true
  pub kept :
      (h : History) (c : Call) (r : Reply) (tag : ℕ)
      → b.processed h tag ≡ Bool.true
      → b.processed ((c, r) ∷ h) tag ≡ Bool.true

-- An action makes calls and ends with an outcome.
abbrev pub Exec : Type 0 → Type 0
Exec A = History → Outcome A × History

module _ {A : Type 0} where
  unfoldable pub pure : A → Exec A
  pure a h = (ok a, h)

  unfoldable pub raise : Error → Exec A
  raise e h = (raised e, h)

  unfoldable pub lift : Outcome A → Exec A
  lift o h = (o, h)

  abbrev pub handle : (Error → Exec A) → Outcome A → Exec A
  handle f (ok a) h = (ok a, h)
  handle f (raised e) h = f e h
  handle f cancelled h = (cancelled, h)

  -- `try: m` with `except Exception as e: f(e)`
  unfoldable pub catch : Exec A → (Error → Exec A) → Exec A
  catch m f h = let (o, h') = m h in handle f o h'

  abbrev pub settle : Exec (Unit {0}) → (Error → Exec A) → Outcome A → Exec A
  settle on_cancel on_error (ok a) h = (ok a, h)
  settle on_cancel on_error (raised e) h = on_error e h
  settle on_cancel on_error cancelled h =
      let (o, h') = on_cancel h in
      (elim o [ ok _ ↦ cancelled | raised e ↦ raised e | cancelled ↦ cancelled ], h')

  -- `try: m` with `except asyncio.CancelledError: on_cancel; raise` and
  -- `except Exception as e: return on_error(e)`
  unfoldable pub try_except : Exec A → Exec (Unit {0}) → (Error → Exec A) → Exec A
  try_except m on_cancel on_error h = let (o, h') = m h in settle on_cancel on_error o h'

module _ {A B : Type 0} where
  abbrev pub continue : (A → Exec B) → Outcome A → Exec B
  continue f (ok a) h = f a h
  continue f (raised e) h = (raised e, h)
  continue f cancelled h = (cancelled, h)

  infixl 10 ◌>>=◌ ◌>>◌
  unfoldable pub ◌>>=◌ : Exec A → (A → Exec B) → Exec B
  unfolding pure raise lift
  ◌>>=◌ m f h = let (o, h') = m h in continue f o h'

  abbrev pub ◌>>◌ : Exec A → Exec B → Exec B
  m >> n = m >>= λ _. n

abbrev pub outcome : Reply → Outcome ℕ
outcome (done n) = ok n
outcome (fails e) = raised e
outcome cancels = cancelled

-- Await one call.
unfoldable pub perform : Broker → Call → Exec ℕ
perform b c h = let r = b.respond h c in (outcome r, (c, r) ∷ h)

pub Reply-cases :
    (r : Reply) → ((n : ℕ) × (r ≡ done n)) ⊎ ((e : Error) × (r ≡ fails e)) ⊎ (r ≡ cancels)
Reply-cases (done n) = inl (n, refl)
Reply-cases (fails e) = inr (inl (e, refl))
Reply-cases cancels = inr (inr refl)

module _ {A B : Type 0} where
  -- A block that ends well ran its first action well, and goes on from there.
  pub bind-eq-ok :
      (m : Exec A) (f : A → Exec B) (h : History) {x : B}
      → ((m >>= f) h).0 ≡ ok x
      → (a : A) × ((m h).0 ≡ ok a) × ((m >>= f) h ≡ f a (m h).1)
  unfolding ◌>>=◌
  bind-eq-ok m f h {x} = go (m h).0 (m h).1
    where
      go :
          (o : Outcome A) (h' : History)
          → (continue f o h').0 ≡ ok x
          → (a : A) × (o ≡ ok a) × (continue f o h' ≡ f a h')
      go (ok a) h' e = (a, refl, refl)
      go (raised r) h' e = cc
      go cancelled h' e = cc

  -- A block that raises does so in its first action, or in what follows it.
  pub bind-eq-raised :
      (m : Exec A) (f : A → Exec B) (h : History) {e : Error}
      → ((m >>= f) h).0 ≡ raised e
      → ((m h).0 ≡ raised e) ⊎ ((a : A) × ((m h).0 ≡ ok a) × ((f a (m h).1).0 ≡ raised e))
  unfolding ◌>>=◌
  bind-eq-raised m f h {e} = go (m h).0 (m h).1
    where
      go :
          (o : Outcome A) (h' : History)
          → (continue f o h').0 ≡ raised e
          → (o ≡ raised e) ⊎ ((a : A) × (o ≡ ok a) × ((f a h').0 ≡ raised e))
      go (ok a) h' q = inr (a, refl, q)
      go (raised r) h' q = inl (cc q)
      go cancelled h' q = cc
