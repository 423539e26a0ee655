-- ===== src/Symbols.antt =====
-- shared/symbols.py: the registry of tracked symbols, its refresh and the matching of a text. Times
-- are microseconds. What Python knows of characters and of JSON is a parameter.
pub mod Delays
pub mod Matching
use Prim.Native.Char.{Char, code}
use social_sentiment.Outcome.{Outcome, ok, raised, cancelled, Error, ErrorKind, value_error}
use social_sentiment.Prelude.{
  List, ℕ, String, Bool, Dict, Option, if◌then◌else◌, min, ◌∷◌, map, leb, ◌||◌, true, not, any,
  chars, lookup, ◌==◌, some, false, ◌*◌, ◌<>◌, ◌&&◌, [], ltb, none, insert,
}

pub record SymbolConfig : Type 0 where
  pub keywords : List String
  pub future : Option String
  pub sector : Option String
  pub require_uppercase : Bool
  pub block_phrases : List String
  pub require_cashtag : Bool

pub record SymbolRegistry : Type 0 where
  pub refresh_interval : ℕ
  pub retry_base : ℕ
  pub retry_max : ℕ
  pub connect_timeout : ℕ
  pub symbols : Dict SymbolConfig

unfoldable pub new_registry : ℕ → ℕ → ℕ → ℕ → Outcome SymbolRegistry
new_registry refresh_interval retry_base retry_max connect_timeout =
    if refresh_interval == 0
    then raised (value_error "refresh_interval must be positive")
    else if retry_base == 0
    then raised (value_error "retry_base must be positive")
    else if ltb retry_max retry_base
    then raised (value_error "retry_max must be greater than or equal to retry_base")
    else if connect_timeout == 0
    then raised (value_error "connect_timeout must be positive")
    else ok (record {
      refresh_interval = refresh_interval;
      retry_base = retry_base;
      retry_max = retry_max;
      connect_timeout = connect_timeout;
      symbols = [];
    })

-- A column of the database that holds a list of texts.
pub data Column : Type 0 where
  null : Column
  items : List String → Column
  other : String → Column

-- A row of `tracked_symbols`.
pub record Row : Type 0 where
  pub symbol : String
  pub keywords : Column
  pub future : Option String
  pub sector : Option String
  pub require_uppercase : Bool
  pub block_phrases : Column
  pub require_cashtag : Bool

module _ (json_list : String → Option (List String)) where
  -- `json_list` gives nothing where `json.loads` fails or its value is no list
  abbrev pub decode_string_list : Column → Option (List String)
  decode_string_list null = some []
  decode_string_list (items texts) = some texts
  decode_string_list (other text) = json_list text

  abbrev pub config_of : Row → Option (List String) → Option (List String) → Option SymbolConfig
  config_of row (some keywords) (some block_phrases) = some (record {
    keywords = keywords;
    future = row.future;
    sector = row.sector;
    require_uppercase = row.require_uppercase;
    block_phrases = block_phrases;
    require_cashtag = row.require_cashtag;
  })
  config_of row _ _ = none

  -- the comprehension over the rows, in their order; nothing when a row cannot be decoded
  pub read_rows : Dict SymbolConfig → List Row → Option (Dict SymbolConfig)
  read_rows symbols [] = some symbols
  read_rows symbols (row ∷ rows) =
      let config =
        config_of row (decode_string_list row.keywords) (decode_string_list row.block_phrases) in
      elim config [ some c ↦ read_rows (insert row.symbol c symbols) rows | none ↦ none ]

  abbrev pub publish_snapshot : SymbolRegistry → Option (Dict SymbolConfig) → SymbolRegistry × Bool
  publish_snapshot r (some symbols) = (record r { symbols = symbols }, true)
  publish_snapshot r none = (r, false)

  -- the query's rows, or nothing when the database fails
  pub refresh : SymbolRegistry → Option (List Row) → SymbolRegistry × Bool
  unfolding read_rows
  refresh r none = (r, false)
  refresh r (some rows) = publish_snapshot r (read_rows [] rows)

-- the next delay and the delay of the next retry, after a refresh that succeeded or failed
abbrev pub after_refresh : SymbolRegistry → ℕ → Bool → ℕ × ℕ
after_refresh r retry_delay true = (r.refresh_interval, r.retry_base)
after_refresh r retry_delay false = (retry_delay, min (retry_delay * 2) r.retry_max)

-- The delays that `_refresh_loop` sleeps for, after the initial refresh and after each later one.
pub refresh_delays : SymbolRegistry → ℕ → List Bool → List ℕ
refresh_delays r retry_delay [] = []
refresh_delays r retry_delay (succeeded ∷ later) =
    let (next_delay, retry) = after_refresh r retry_delay succeeded in
    next_delay ∷ refresh_delays r retry later

pub refresh_loop : SymbolRegistry → Bool → List Bool → List ℕ
unfolding refresh_delays
refresh_loop r initial_refresh_succeeded later =
    refresh_delays r r.retry_base (initial_refresh_succeeded ∷ later)

abbrev pub keywords_map : SymbolRegistry → Dict (List String)
keywords_map r =
    map (λ (ticker, config). (ticker, ticker ∷ ("$" <> ticker) ∷ config.keywords)) r.symbols

abbrev pub primary_futures_map : SymbolRegistry → Dict (Option String)
primary_futures_map r = map (λ (ticker, config). (ticker, config.future)) r.symbols

abbrev pub sector_map : SymbolRegistry → Dict (Option String)
sector_map r = map (λ (ticker, config). (ticker, config.sector)) r.symbols

-- What Python knows of letters.
pub record Letters : Type 0 where
  pub lower : String → String
  -- equality of characters under `re.IGNORECASE`
  pub same_letter : Char → Char → Bool

abbrev in_range : Char → ℕ → ℕ → Bool
in_range c first last = leb first (code c) && leb (code c) last

-- `[a-zA-Z0-9]`
abbrev pub is_alphanumeric : Char → Bool
is_alphanumeric c = in_range c 97 122 || in_range c 65 90 || in_range c 48 57

abbrev pub ends_word : List Char → Bool
ends_word [] = true
ends_word (c ∷ cs) = not (is_alphanumeric c)

-- the pattern at the front of the text, with no letter or digit behind it
unfoldable pub word_at : (Char → Char → Bool) → List Char → List Char → Bool
word_at same [] cs = ends_word cs
word_at same (p ∷ ps) [] = false
word_at same (p ∷ ps) (c ∷ cs) = same p c && word_at same ps cs

-- `re.search` of the escaped pattern between the two tests for letters and digits; `inside` tells
-- whether one stands in front
unfoldable pub search_word : (Char → Char → Bool) → List Char → Bool → List Char → Bool
unfolding word_at
search_word same pattern inside [] = not inside && word_at same pattern []
search_word same pattern inside (c ∷ cs) =
    (not inside && word_at same pattern (c ∷ cs)) || search_word same pattern (is_alphanumeric c) cs

abbrev pub starts_text : List Char → List Char → Bool
starts_text [] cs = true
starts_text (p ∷ ps) [] = false
starts_text (p ∷ ps) (c ∷ cs) = (code p == code c) && starts_text ps cs

-- `phrase in text`
unfoldable pub is_in_text : List Char → List Char → Bool
is_in_text phrase [] = starts_text phrase []
is_in_text phrase (c ∷ cs) = starts_text phrase (c ∷ cs) || is_in_text phrase cs

module _ (letters : Letters) (text : String) where
  abbrev pub is_blocked : SymbolConfig → Bool
  is_blocked config =
      any (λ phrase. is_in_text (chars (letters.lower phrase)) (chars (letters.lower text)))
        config.block_phrases

  abbrev pub mentions : String → Bool
  mentions word = search_word letters.same_letter (chars word) false (chars text)

  abbrev pub mentions_symbol : SymbolConfig → String → Bool
  mentions_symbol config symbol =
      if config.require_uppercase
      then search_word (λ a b. code a == code b) (chars symbol) false (chars text)
      else mentions symbol

  unfoldable pub match_config : SymbolConfig → String → Bool
  match_config config symbol =
      if is_blocked config
      then false
      else if mentions ("$" <> symbol)
      then true
      else if any mentions config.keywords
      then true
      else if config.require_cashtag
      then false
      else mentions_symbol config symbol

  unfoldable pub match_found : Option SymbolConfig → String → Bool
  unfolding match_config
  match_found none symbol = false
  match_found (some config) symbol = match_config config symbol

  unfoldable pub match_symbol : SymbolRegistry → String → Bool
  unfolding match_found
  match_symbol r symbol = match_found (lookup symbol r.symbols) symbol
