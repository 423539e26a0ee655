-- ===== src/Symbols/Matching.antt =====
-- About texts that match a symbol.
use social_sentiment.Symbols.{
  Letters, SymbolConfig, is_blocked, mentions, mentions_symbol, match_config, match_found,
  match_symbol, SymbolRegistry,
}
use social_sentiment.Prelude.{
  String, ◌≡◌, Option, false, true, ◌<>◌, ◌↔◌, ◌⊎◌, arith, some, lookup, any, subst, none, refl,
}

-- No phrase of the symbol blocks the text, and the text has its cashtag or one of its keywords, or
-- the symbol itself where no cashtag is required.
abbrev pub Matches : Letters → String → SymbolConfig → String → Type 0
Matches letters text config symbol =
    (is_blocked letters text config ≡ false)
    × ((mentions letters text ("$" <> symbol) ≡ true)
        ⊎ ((any (mentions letters text) config.keywords ≡ true)
            ⊎ ((config.require_cashtag ≡ false)
                × (mentions_symbol letters text config symbol ≡ true))))

match_config_exact :
    (letters : Letters) (text : String) (config : SymbolConfig) (symbol : String)
    → (match_config letters text config symbol ≡ true) ↔ Matches letters text config symbol
unfolding match_config
match_config_exact letters text config symbol = (λ e. ground arith, λ m. ground arith)

match_found_exact :
    (letters : Letters) (text : String) (o : Option SymbolConfig) (symbol : String)
    → (match_found letters text o symbol ≡ true)
      ↔ ((config : SymbolConfig) × (o ≡ some config) × Matches letters text config symbol)
unfolding match_found
match_found_exact letters text none symbol = (λ e. cc e, λ (config, e, m). cc e)
match_found_exact letters text (some c) symbol = (
  λ e. (c, refl, (match_config_exact letters text c symbol).0 e),
  λ (config, e, m).
      let same : config ≡ c = cc e in
      (match_config_exact letters text c symbol).1
        (subst (λ x. Matches letters text x symbol) same m),
)

-- A text matches exactly the symbols that are registered, and whose configuration it matches.
pub match_symbol_exact :
    (letters : Letters) (text : String) (r : SymbolRegistry) (symbol : String)
    → (match_symbol letters text r symbol ≡ true) ↔ (
        (config : SymbolConfig) × (lookup symbol r.symbols ≡ some config)
        × Matches letters text config symbol)
unfolding match_symbol
match_symbol_exact letters text r symbol =
    match_found_exact letters text (lookup symbol r.symbols) symbol
