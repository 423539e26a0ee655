-- ===== src/GlobalEvents/Polling.antt =====
-- About a poll in which some rules fail.
use social_sentiment.GlobalEvents.Actions.{bind_quiet}
use social_sentiment.GlobalEvents.{
  ◌>>=◌, poll_once, poll_each, guarded_poll, after_rule, pure, Services, EventRule,
}
use social_sentiment.Outcome.{Error, raised, Outcome, ok, cancelled}
use social_sentiment.Prelude.{ℕ, ◌≡◌, List, ◌∷◌, []}

module _ {S : Type 0} (db : Services S) (limit since : ℕ)
    (acquires : (s : S) (e : Error) → ¬ ((db.acquire s).0 ≡ raised e)) where
  after_rule_quiet :
      (total : ℕ) (o : Outcome ℕ) (e : Error) → ¬ (after_rule db limit since total o ≡ raised e)
  unfolding after_rule
  after_rule_quiet total (ok n) e h = cc h
  after_rule_quiet total (raised x) e h = cc h
  after_rule_quiet total cancelled e h = cc h

  poll_each_quiet :
      (total : ℕ) (rules : List EventRule) (s : S) (e : Error)
      → ¬ ((poll_each db limit since total rules s).0 ≡ raised e)
  unfolding poll_each guarded_poll pure
  poll_each_quiet total [] s e = λ h. cc h
  poll_each_quiet total (rule ∷ rules) s e =
      bind_quiet (db.acquire)
        (λ u. guarded_poll db limit since total rule >>= (λ n. poll_each db limit since n rules))
        acquires
        (λ u.
          bind_quiet (guarded_poll db limit since total rule)
            (λ n. poll_each db limit since n rules) (λ t x. after_rule_quiet total _ x)
            (λ n. poll_each_quiet n rules))
        s e

  -- When the rules can be read and the limiter raises nothing, a poll raises nothing, whatever the
  -- provider and the database answer for single rules.
  pub poll_once_returns :
      ((s : S) (e : Error) → ¬ ((db.load_rules s).0 ≡ raised e))
      → (s : S) (e : Error) → ¬ ((poll_once db limit since s).0 ≡ raised e)
  unfolding poll_once
  poll_once_returns reads = bind_quiet _ _ reads (λ rules. poll_each_quiet 0 rules)
