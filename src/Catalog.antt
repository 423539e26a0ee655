-- ===== src/Catalog.antt =====
-- shared/global_instrument_catalog.py: the validators of the instrument catalog. What the schema
-- library checks field by field, the table of time zones and `str.strip` are parameters.
pub mod Consistent
use Prim.Native.Char.{Char, code}
use social_sentiment.Outcome.{Outcome, ok, raised, cancelled, validation_error}
use social_sentiment.Prelude.{
  String, List, Bool, not, map, Option, ℕ, true, Dict, chars, any, ◌∷◌, length, filter, is_empty,
  false, is_blank, if◌then◌else◌, str_eq, ◌==◌, ltb, [], ◌&&◌, ◌||◌, is_some, ◌+◌,
}

pub data AssetClass : Type 0 where
  index fx commodity us_equity : AssetClass

-- `Literal["local_currency_per_usd"]`
pub data QuoteConvention : Type 0 where
  local_currency_per_usd : QuoteConvention

pub record CatalogInstrument : Type 0 where
  pub instrument_key : String
  pub display_name : String
  pub asset_class : AssetClass
  pub currency : String
  pub exchange : Option String
  pub timezone : String
  pub provider_aliases : Dict String
  pub session_metadata : Dict String
  pub quote_convention : Option QuoteConvention
  pub is_active : Bool

pub record CatalogStockExposure : Type 0 where
  pub instrument_key : String
  pub reason : String
  pub display_order : ℕ

pub record CatalogSymbolExposures : Type 0 where
  pub symbol : String
  pub exposures : List CatalogStockExposure

pub record GlobalInstrumentCatalog : Type 0 where
  pub instruments : List CatalogInstrument
  pub stock_exposures : List CatalogSymbolExposures

abbrev pub refuse_if : Bool → String → Outcome (Unit {0})
refuse_if true text = raised (validation_error text)
refuse_if false text = ok tt

-- one check after the other: the first error counts
infixl 40 ◌then◌
abbrev pub ◌then◌ : Outcome (Unit {0}) → Outcome (Unit {0}) → Outcome (Unit {0})
ok x then o = o
raised e then o = raised e
cancelled then o = cancelled

abbrev starts_with : List Char → List Char → Bool
starts_with [] cs = true
starts_with (p ∷ ps) [] = false
starts_with (p ∷ ps) (c ∷ cs) = code p == code c && starts_with ps cs

abbrev pub expected_prefix : AssetClass → String
expected_prefix index = "index:"
expected_prefix fx = "fx:"
expected_prefix commodity = "commodity:"
expected_prefix us_equity = "us-stock:"

abbrev is_fx : AssetClass → Bool
is_fx fx = true
is_fx _ = false

-- `ZoneInfo(value)`, whether it is known
pub validate_timezone : (String → Bool) → String → Outcome (Unit {0})
validate_timezone is_zone value = refuse_if (not (is_zone value)) "Unknown IANA timezone"

pub validate_provider_aliases : (String → String) → Dict String → Outcome (Unit {0})
validate_provider_aliases strip value =
    refuse_if (is_empty value) "provider_aliases must not be empty"
    then refuse_if (any (λ e. is_blank (strip e.0) || is_blank (strip e.1)) value)
        "provider aliases must have non-empty keys and values"

pub validate_identity : CatalogInstrument → Outcome (Unit {0})
validate_identity i =
    refuse_if (not (starts_with (chars (expected_prefix i.asset_class)) (chars i.instrument_key)))
      "instrument keys must start with the prefix of their asset class"
    then (if is_fx i.asset_class
        then refuse_if (not (is_some i.quote_convention))
            "FX catalog entries must use local_currency_per_usd"
        else refuse_if (is_some i.quote_convention)
            "quote_convention is only supported for FX entries")

abbrev pub contains : List String → String → Bool
contains ks k = any (str_eq k) ks

-- `set(keys)`, by the last place of each key
abbrev pub distinct : List String → List String
distinct [] = []
distinct (k ∷ ks) = let rest = distinct ks in if contains ks k then rest else k ∷ rest

abbrev pub occurrences : String → List String → ℕ
occurrences k [] = 0
occurrences k (j ∷ ks) = (if str_eq k j then 1 else 0) + occurrences k ks

-- `len(keys) != len(set(keys))`
pub validate_unique_instrument_keys : CatalogSymbolExposures → Outcome (Unit {0})
validate_unique_instrument_keys s =
    let keys = map (λ exposure. exposure.instrument_key) s.exposures in
    refuse_if (not (length keys == length (distinct keys))) "Duplicate exposure instrument keys"

-- `{key for key in keys if keys.count(key) > 1}`
abbrev pub duplicates : List String → List String
duplicates keys = distinct (filter (λ key. ltb 1 (occurrences key keys)) keys)

abbrev pub exposure_keys : CatalogSymbolExposures → List String
exposure_keys s = map (λ (exposure : CatalogStockExposure). exposure.instrument_key) s.exposures

-- the two nested loops over the exposures
check_references : List String → List CatalogSymbolExposures → Outcome (Unit {0})
check_references valid_keys [] = ok tt
check_references valid_keys (s ∷ rest) =
    refuse_if (any (λ key. not (contains valid_keys key)) (exposure_keys s))
      "Stock exposure references unknown instrument_key"
    then check_references valid_keys rest

pub validate_catalog : GlobalInstrumentCatalog → Outcome (Unit {0})
unfolding check_references
validate_catalog c =
    let keys = map (λ (instrument : CatalogInstrument). instrument.instrument_key) c.instruments in
    refuse_if (not (is_empty (duplicates keys))) "Duplicate global instrument keys"
    then check_references keys c.stock_exposures
