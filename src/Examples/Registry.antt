-- ===== src/Examples/Registry.antt =====
-- The theorems on the instrument catalog and on the symbol registry at concrete inputs.
use Prim.Native.Char.{code}
use social_sentiment.Catalog.{CatalogSymbolExposures, GlobalInstrumentCatalog, validate_catalog}
use social_sentiment.Symbols.{SymbolRegistry, Letters, SymbolConfig}
use social_sentiment.Prelude.{◌∷◌, [], ◌≡◌, ◌==◌, none, true, ◌↔◌, false}
use social_sentiment.Outcome.{ok}
use social_sentiment.Catalog.Consistent.{Unique, catalog_keys, Refer, validate_catalog_exact}

abbrev exposures : CatalogSymbolExposures
exposures = record {
  symbol = "NVDA";
  exposures = record { instrument_key = "fx:twd"; reason = "suppliers"; display_order = 0 } ∷ [];
}

abbrev catalog : GlobalInstrumentCatalog
catalog = record { instruments = []; stock_exposures = exposures ∷ [] }

validate_catalog_exact_example :
    (validate_catalog catalog ≡ ok tt)
    ↔ (Unique (catalog_keys catalog) × Refer (catalog_keys catalog) (exposures ∷ []))
validate_catalog_exact_example = validate_catalog_exact catalog

abbrev registry : SymbolRegistry
registry = record {
  refresh_interval = 60;
  retry_base = 5;
  retry_max = 60;
  connect_timeout = 5;
  symbols = [];
}

abbrev letters : Letters
letters = record { lower = λ s. s; same_letter = λ a b. code a == code b }

abbrev config : SymbolConfig
config = record {
  keywords = "Nvidia" ∷ [];
  future = none;
  sector = none;
  require_uppercase = true;
  block_phrases = [];
  require_cashtag = false;
}

abbrev filled : SymbolRegistry
filled = record registry { symbols = ("NVDA", config) ∷ [] }
