-- ===== src/QuoteFacts/Tables.antt =====
-- About the facts that are kept when old quotes are rolled up in several runs.
use social_sentiment.Schemas.{StockQuote}
use social_sentiment.QuoteFacts.{
  MarketFact, summarize, merge_fact, upsert_group, upsert_facts, in_group, FactTable, Quotes,
  rollup_and_prune_quotes, distinct_providers,
}
use social_sentiment.QuoteFacts.Merge.{fact_ext, merge-summarize}
use social_sentiment.Prelude.{
  List, String, ℕ, ◌++◌, filter, ◌≡◌, ◌∷◌, ◌≤◌, ap, arith, Option, ◌∙◌, [], sym, some, refl,
  append_nil, none,
}
use social_sentiment.QuoteFacts.Providers.{distinct_left, distinct_right}
use social_sentiment.Retention.Partition.{
  append_assoc, filter-append, Ordered, split_old, kept_twice, old,
}

module _ (rank : String → ℕ) (differ : (a b : String) → rank a ≡ rank b → a ≡ b) where
  merge_providers :
      (a b c : List String)
      → distinct_providers rank (distinct_providers rank (a ++ b) ++ c)
        ≡ distinct_providers rank (a ++ distinct_providers rank (b ++ c))
  merge_providers a b c =
      distinct_left rank differ (a ++ b) c
      ∙ ap (distinct_providers rank) (append_assoc a b c)
      ∙ sym (distinct_right rank differ a (b ++ c))

  merge_assoc :
      (a b c : MarketFact)
      → merge_fact rank (merge_fact rank a b) c ≡ merge_fact rank a (merge_fact rank b c)
  unfolding merge_fact
  merge_assoc a b c =
      fact_ext _ _ (ground arith) (omega arith) (omega arith) (ground arith) (ground arith)
        (omega arith) (merge_providers a.providers b.providers c.providers) (ground arith)
        (omega arith) (omega arith)

  upsert_group-append :
      (old : Option MarketFact) (xs ys : List StockQuote)
      → upsert_group rank (upsert_group rank old xs) ys ≡ upsert_group rank old (xs ++ ys)
  upsert_group-append old [] ys = refl
  upsert_group-append none (x ∷ xs) [] = ap (λ l. some (summarize rank x l)) (sym (append_nil xs))
  upsert_group-append (some f) (x ∷ xs) [] =
      ap (λ l. some (merge_fact rank f (summarize rank x l))) (sym (append_nil xs))
  upsert_group-append none (x ∷ xs) (y ∷ ys) = ap some (merge-summarize rank differ x xs y ys)
  upsert_group-append (some f) (x ∷ xs) (y ∷ ys) = ap some (
      merge_assoc f (summarize rank x xs) (summarize rank y ys)
      ∙ ap (merge_fact rank f) (merge-summarize rank differ x xs y ys))

  upsert_facts-append :
      (bucket_of : ℕ → ℕ) (xs ys : List StockQuote) (table : FactTable) (symbol : String)
      (bucket : ℕ)
      → upsert_facts rank bucket_of ys (upsert_facts rank bucket_of xs table) symbol bucket
        ≡ upsert_facts rank bucket_of (xs ++ ys) table symbol bucket
  unfolding upsert_facts
  upsert_facts-append bucket_of xs ys table symbol bucket =
      upsert_group-append (table symbol bucket) (filter (in_group bucket_of symbol bucket) xs)
        (filter (in_group bucket_of symbol bucket) ys)
      ∙ ap (upsert_group rank (table symbol bucket))
          (sym (filter-append (in_group bucket_of symbol bucket) xs ys))

-- Where the quotes stand in the order of time and the ranks tell the providers apart, rolling up at
-- a cutoff and again at a later one leaves the same quotes and, for each symbol and each hour and
-- day, the same facts as rolling up once at the later cutoff.
pub rollup_quotes_twice :
    (rank : String → ℕ) (hour_of day_of : ℕ → ℕ) (early late : ℕ) (s : Quotes) (symbol : String)
    (bucket : ℕ)
    → ((a b : String) → rank a ≡ rank b → a ≡ b)
    → early ≤ late
    → Ordered (λ (q : StockQuote). q.timestamp) s.quotes
    → let roll = rollup_and_prune_quotes rank hour_of day_of in
      ((roll late (roll early s)).quotes ≡ (roll late s).quotes)
      × ((roll late (roll early s)).hourly symbol bucket ≡ (roll late s).hourly symbol bucket)
      × ((roll late (roll early s)).daily symbol bucket ≡ (roll late s).daily symbol bucket)
unfolding rollup_and_prune_quotes
rollup_quotes_twice rank hour_of day_of early late s symbol bucket differ le o =
    let all = split_old (λ (q : StockQuote). q.timestamp) early late s.quotes le o in
    (
      kept_twice (λ (q : StockQuote). q.timestamp) early late s.quotes le,
      upsert_facts-append rank differ hour_of
            (filter (old (λ (q : StockQuote). q.timestamp) early) s.quotes) _ s.hourly symbol bucket
          ∙ ap (λ d. upsert_facts rank hour_of d s.hourly symbol bucket) all,
      upsert_facts-append rank differ day_of
            (filter (old (λ (q : StockQuote). q.timestamp) early) s.quotes) _ s.daily symbol bucket
          ∙ ap (λ d. upsert_facts rank day_of d s.daily symbol bucket) all,
    )
