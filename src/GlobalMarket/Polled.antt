-- ===== src/GlobalMarket/Polled.antt =====
-- About what a poll stores and completes.
use social_sentiment.GlobalEvents.Actions.{bind-done, bind-keeps}
use social_sentiment.Pacing.{is_due}
use social_sentiment.GlobalEvents.{◌>>=◌, ◌>>◌, pure}
use social_sentiment.Prelude.{
  ◌≡◌, List, Bool, ◌∙◌, ◌∷◌, true, [], ◌++◌, ℕ, refl, false, sym, append_nil, String, map, filter,
  ap, if◌then◌else◌, Bool-cases, inl, inr,
}
use social_sentiment.GlobalMarket.Runner.{
  Fetch, MarketInstrument, MarketBar, fetched, Interval, fails, MarketState, settle_one,
  MarketAdapter, store, settle_each, limited, record_request, poll, request_key,
}
use social_sentiment.Outcome.{ok, Outcome, raised, cancelled}
use social_sentiment.Gdelt.{success}
use social_sentiment.Retention.Partition.{append_assoc}

-- the answer of a provider that settles an instrument: bars, or none to be had
abbrev pub is_settled : Fetch → Bool
is_settled (fetched bars) = true
is_settled limited = false
is_settled (fails e) = false

abbrev pub bars_of : Fetch → List MarketBar
bars_of (fetched bars) = bars
bars_of limited = []
bars_of (fails e) = []

abbrev pub all_bars : (MarketInstrument → Fetch) → List MarketInstrument → List MarketBar
all_bars fetch [] = []
all_bars fetch (i ∷ is) = bars_of (fetch i) ++ all_bars fetch is

module _ (upsert : List MarketBar → Outcome (Unit {0})) (interval : Interval) (now : ℕ) where
  store-ok :
      (bars : List MarketBar) (o : Outcome (Unit {0})) (s : MarketState) (done : Bool)
      → ((store upsert interval now bars o >> pure true) s).0 ≡ ok done
      → (done ≡ true)
        × (((store upsert interval now bars o >> pure true) s).1.stored ≡ s.stored ++ bars)
  unfolding ◌>>=◌ pure
  store-ok bars (ok x) s done h = (cc h, refl)
  store-ok bars (raised e) s done h = cc h
  store-ok bars cancelled s done h = cc h

  store-days :
      (bars : List MarketBar) (o : Outcome (Unit {0})) (s : MarketState)
      → ((store upsert interval now bars o >> pure true) s).1.last_daily_session
        ≡ s.last_daily_session
  unfolding ◌>>=◌ pure
  store-days bars (ok x) s = refl
  store-days bars (raised e) s = refl
  store-days bars cancelled s = refl

  settle_one-ok :
      (provider : Outcome MarketAdapter) (i : MarketInstrument) (f : Fetch) (s : MarketState)
      (done : Bool)
      → (settle_one upsert interval now provider i f s).0 ≡ ok done
      → (done ≡ is_settled f)
        × ((settle_one upsert interval now provider i f s).1.stored ≡ s.stored ++ bars_of f)
  unfolding settle_one ◌>>=◌ pure
  settle_one-ok (raised e) i f s done h = cc h
  settle_one-ok cancelled i f s done h = cc h
  settle_one-ok (ok a) i (fetched []) s done h = (cc h, sym (append_nil s.stored))
  settle_one-ok (ok a) i (fetched (b ∷ bars)) s done h =
      store-ok (b ∷ bars) (upsert (b ∷ bars)) _ done h
  settle_one-ok (ok a) i limited s done h = (cc h, sym (append_nil s.stored))
  settle_one-ok (ok a) i (fails e) s done h = (cc h, sym (append_nil s.stored))

  settle_one-days :
      (provider : Outcome MarketAdapter) (i : MarketInstrument) (f : Fetch) (s : MarketState)
      → (settle_one upsert interval now provider i f s).1.last_daily_session ≡ s.last_daily_session
  unfolding settle_one ◌>>=◌ pure
  settle_one-days (raised e) i f s = refl
  settle_one-days cancelled i f s = refl
  settle_one-days (ok a) i (fetched []) s = refl
  settle_one-days (ok a) i (fetched (b ∷ bars)) s =
      store-days (b ∷ bars) (upsert (b ∷ bars)) (record_request upsert interval now i success s).1
  settle_one-days (ok a) i limited s = refl
  settle_one-days (ok a) i (fails e) s = refl

  module _ (provider_of : MarketInstrument → Outcome MarketAdapter)
      (fetch : MarketInstrument → Fetch) where
    settle_each-ok :
        (is : List MarketInstrument) (s : MarketState) (completed : List String)
        → (settle_each upsert interval now provider_of fetch is s).0 ≡ ok completed
        → (completed
            ≡ map
                (λ (i : MarketInstrument). i.instrument_key)
                (filter (λ i. is_settled (fetch i)) is))
          × ((settle_each upsert interval now provider_of fetch is s).1.stored
              ≡ s.stored ++ all_bars fetch is)
    unfolding settle_each pure
    settle_each-ok [] s completed h = (cc h, sym (append_nil s.stored))
    settle_each-ok (i ∷ is) s completed h =
        let (done, one, whole) = bind-done _ _ s completed h in
        let s₁ = (settle_one upsert interval now (provider_of i) i (fetch i) s).1 in
        let (settled, stored) = settle_one-ok (provider_of i) i (fetch i) s done one in
        let (keys, more, rest) = bind-done _ _ s₁ completed (ap (λ x. x.0) (sym whole) ∙ h) in
        let (keys_are, stored_are) = settle_each-ok is s₁ keys more in
        let all = whole ∙ rest in
        let named : ok completed ≡ ok (if done then i.instrument_key ∷ keys else keys) =
          sym h ∙ ap (λ x. x.0) all in
        let told : completed ≡ (if done then i.instrument_key ∷ keys else keys) = cc named in
        (
          told ∙ elim (Bool-cases (is_settled (fetch i))) [
            | inl e ↦ rw (settled, e) (ap (◌∷◌ i.instrument_key) keys_are)
            | inr e ↦ rw (settled, e) keys_are
          ],
          ap (λ x. x.1.stored) all
              ∙ stored_are
              ∙ ap (λ l. l ++ all_bars fetch is) stored
              ∙ append_assoc s.stored (bars_of (fetch i)) (all_bars fetch is),
        )

    pub settle_each-days :
        (is : List MarketInstrument) (s : MarketState)
        → (settle_each upsert interval now provider_of fetch is s).1.last_daily_session
          ≡ s.last_daily_session
    unfolding settle_each pure
    settle_each-days [] s = refl
    settle_each-days (i ∷ is) s =
        bind-keeps (λ (t : MarketState). t.last_daily_session) _ _
          (settle_one-days (provider_of i) i (fetch i))
          (λ done.
            bind-keeps (λ (t : MarketState). t.last_daily_session) _ _ (settle_each-days is)
              (λ completed t. refl))
          s

    -- A poll that ends well has asked for the instruments whose backoff is over. It completes exactly
    -- those among them whose provider sent bars or had none to send, and not those that were limited
    -- or failed, and it has stored all the bars that were sent, in order.
    pub poll_exact :
        (instruments : List MarketInstrument) (s : MarketState) (completed : List String)
        → (poll upsert interval now provider_of fetch instruments s).0 ≡ ok completed
        → let asked = filter (λ i. is_due s.backoff now (request_key interval i)) instruments in
          (completed
            ≡ map
                (λ (i : MarketInstrument). i.instrument_key)
                (filter (λ i. is_settled (fetch i)) asked))
          × ((poll upsert interval now provider_of fetch instruments s).1.stored
              ≡ s.stored ++ all_bars fetch asked)
    unfolding poll
    poll_exact instruments s completed h =
        settle_each-ok (filter (λ i. is_due s.backoff now (request_key interval i)) instruments) s
          completed h
