-- ===== src/QuoteFacts/Merge.antt =====
-- About a fact that takes a later group in.
use social_sentiment.Schemas.{StockQuote}
use social_sentiment.QuoteFacts.{
  MarketFact, summarize, merge_fact, earliest, newest, highest, lowest, is_regular,
  distinct_providers,
}
use social_sentiment.Prelude.{
  List, ◌++◌, ◌∷◌, ◌≡◌, if◌then◌else◌, ltb, leb, ℕ, Bool, map, String, [], arith, max, min, any, ap,
  ◌∙◌, ◌||◌, sym, refl, length-append,
}
use social_sentiment.QuoteFacts.Providers.{distinct-distinct}

earliest-append :
    (q : StockQuote) (qs : List StockQuote) (r : StockQuote) (rs : List StockQuote)
    → earliest q (qs ++ r ∷ rs) ≡ (
        if ltb (earliest r rs).timestamp (earliest q qs).timestamp
        then earliest r rs
        else earliest q qs)
earliest-append q [] r [] = ground arith
earliest-append q [] r (x ∷ rs) =
    ground (arith, earliest-append q [] r rs, earliest-append q [] x rs, earliest-append r [] x rs)
earliest-append q (x ∷ qs) r rs =
    ground (arith, earliest-append x qs r rs, earliest-append q qs r rs)

newest-append :
    (q : StockQuote) (qs : List StockQuote) (r : StockQuote) (rs : List StockQuote)
    → newest q (qs ++ r ∷ rs)
      ≡ (if leb (newest q qs).timestamp (newest r rs).timestamp then newest r rs else newest q qs)
newest-append q [] r [] = ground arith
newest-append q [] r (x ∷ rs) =
    ground (arith, newest-append q [] r rs, newest-append q [] x rs, newest-append r [] x rs)
newest-append q (x ∷ qs) r rs = ground (arith, newest-append x qs r rs, newest-append q qs r rs)

highest-append :
    (p : ℕ) (qs : List StockQuote) (r : StockQuote) (rs : List StockQuote)
    → highest p (qs ++ r ∷ rs) ≡ max (highest p qs) (highest r.price rs)
highest-append p [] r rs = pull p r.price rs
  where
    pull : (a b : ℕ) (rs : List StockQuote) → highest (max a b) rs ≡ max a (highest b rs)
    pull a b [] = refl
    pull a b (x ∷ rs) = ap (λ c. highest c rs) (omega arith) ∙ pull a (max b x.price) rs
highest-append p (x ∷ qs) r rs = highest-append (max p x.price) qs r rs

lowest-append :
    (p : ℕ) (qs : List StockQuote) (r : StockQuote) (rs : List StockQuote)
    → lowest p (qs ++ r ∷ rs) ≡ min (lowest p qs) (lowest r.price rs)
lowest-append p [] r rs = pull p r.price rs
  where
    pull : (a b : ℕ) (rs : List StockQuote) → lowest (min a b) rs ≡ min a (lowest b rs)
    pull a b [] = refl
    pull a b (x ∷ rs) = ap (λ c. lowest c rs) (omega arith) ∙ pull a (min b x.price) rs
lowest-append p (x ∷ qs) r rs = lowest-append (min p x.price) qs r rs

any-append :
    {A : Type 0} (t : A → Bool) (xs ys : List A) → any t (xs ++ ys) ≡ (any t xs || any t ys)
any-append t [] ys = refl
any-append t (x ∷ xs) ys = ground (arith, any-append t xs ys)

map-append : {A B : Type 0} (f : A → B) (xs ys : List A) → map f (xs ++ ys) ≡ map f xs ++ map f ys
map-append f [] ys = refl
map-append f (x ∷ xs) ys = ap (◌∷◌ (f x)) (map-append f xs ys)

abbrev provider_of : StockQuote → String
provider_of q = q.provider

-- Field by field, two facts are one.
pub fact_ext :
    (a b : MarketFact)
    → a.open_price ≡ b.open_price
    → a.high_price ≡ b.high_price
    → a.low_price ≡ b.low_price
    → a.close_price ≡ b.close_price
    → a.last_volume ≡ b.last_volume
    → a.observation_count ≡ b.observation_count
    → a.providers ≡ b.providers
    → a.had_regular_session ≡ b.had_regular_session
    → a.first_observed_at ≡ b.first_observed_at
    → a.last_observed_at ≡ b.last_observed_at
    → a ≡ b
fact_ext a b p1 p2 p3 p4 p5 p6 p7 p8 p9 p10 = cc

-- Where the ranks tell the providers apart, merging the fact of a later run of quotes into the
-- fact of an earlier one gives the fact of both runs together.
pub merge-summarize :
    (rank : String → ℕ)
    → ((a b : String) → rank a ≡ rank b → a ≡ b)
    → (q : StockQuote) (qs : List StockQuote) (r : StockQuote) (rs : List StockQuote)
    → merge_fact rank (summarize rank q qs) (summarize rank r rs) ≡ summarize rank q (qs ++ r ∷ rs)
unfolding merge_fact summarize
merge-summarize rank differ q qs r rs =
    let e = earliest-append q qs r rs in
    let n = newest-append q qs r rs in
    fact_ext _ _ (ground (arith, e)) (sym (highest-append q.price qs r rs))
      (sym (lowest-append q.price qs r rs)) (ground (arith, n)) (ground (arith, n))
      (omega (arith, length-append qs (r ∷ rs)))
      (distinct-distinct rank differ (map provider_of (q ∷ qs)) (map provider_of (r ∷ rs))
        ∙ ap (distinct_providers rank) (sym (map-append provider_of (q ∷ qs) (r ∷ rs))))
      (sym (any-append is_regular (q ∷ qs) (r ∷ rs))) (ground (arith, e)) (ground (arith, n))
