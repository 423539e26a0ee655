-- ===== src/Examples/Funds.antt =====
-- The theorems on provider articles and on the synthetic fund value at concrete inputs.
use social_sentiment.Gdelt.{Texts, Article, events_from}
use social_sentiment.GlobalEvents.{EventRule}
use social_sentiment.SyntheticNav.{Calendar, StockQuote, upsert_official_rows}
use social_sentiment.Prelude.{
  List, All, ◌∷◌, ltb, not, ◌==◌, Option, ℕ, [], ◌%◌, Bool, ◌*◌, some, none, ◌+◌, if◌then◌else◌,
  str_eq,
}
use social_sentiment.Gdelt.Articles.{IsClean, events_from-Unique}
use social_sentiment.SyntheticNav.Published.{
  Final, Plausible, AreRounded, upsert_official_rows-Final,
}

abbrev texts : Texts
texts = record {
  normalize = λ s. s;
  strip = λ s. s;
  sha256 = λ s. s;
  strptime = λ pattern s. if str_eq s "20260101T000000Z" then some 1 else none;
  fromisoformat = λ s. none;
}

abbrev rule : EventRule
rule = record {
  id = 1;
  symbol = "TSM";
  name = "strait";
  countries = "TW" ∷ [];
  themes = [];
  query_terms = [];
}

abbrev article : Article texts
article = record {
  url = "https://a";
  title = "title";
  domain = "a";
  seendate = some "20260101T000000Z";
  read_at = 2;
}

events_from-Unique_example :
    IsClean texts (article ∷ article ∷ []) (events_from texts rule [] (article ∷ article ∷ []))
events_from-Unique_example = events_from-Unique texts rule [] (article ∷ article ∷ [])

abbrev calendar : Calendar
calendar = record { is_trading_day = λ d. ltb (d % 7) 5; official_close = λ d. d * 86400 + 72000 }

-- it refuses the second quote
abbrev stores : ℕ → StockQuote → Option Bool
stores n q = some (not (n == 1))

abbrev navs : List (ℕ × ℕ)
navs = (21, 1000) ∷ (22, 1010) ∷ (23, 1990) ∷ []

upsert_official_rows-Final_example :
    let r = (upsert_official_rows calendar (λ p. p) stores 23 70000 navs none).1 in
    All (Final calendar 23 70000) r.answered
    × Plausible r.answered
    × AreRounded (λ p. p) r.stored r.answered
upsert_official_rows-Final_example =
    upsert_official_rows-Final calendar 23 70000 (λ p. p) stores navs none
