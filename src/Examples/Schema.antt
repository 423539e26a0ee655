-- ===== src/Examples/Schema.antt =====
-- The theorem on schema migrations at a concrete input.
use social_sentiment.Migrations.{
  Schema, Prepared, apply_pending_migrations, apply_each, SqlError, applied,
}
use social_sentiment.Prelude.{
  String, ◌∷◌, Option, [], none, lookup, ◌≡◌, some, inl, inr, false, true, eq_iff, refl,
}
use social_sentiment.Migrations.Idempotent.{Recorded, apply_twice}
use social_sentiment.Catalog.Consistent.{IsIn}

abbrev runs : Schema → String → Option SqlError
runs s sql = none

abbrev baseline : Prepared
baseline = record { version = "0001"; sql = "create"; checksum = "a" }

abbrev facts : Prepared
facts = record { version = "0002"; sql = "alter"; checksum = "b" }

abbrev before : Schema
before = record { table = ("0001", "a") ∷ []; scripts = "create" ∷ [] }

abbrev after : Schema
after = record { table = ("0001", "a") ∷ ("0002", "b") ∷ []; scripts = "alter" ∷ "create" ∷ [] }

apply_twice_example :
    Recorded (baseline ∷ facts ∷ []) after.table
    × ((k c : String) → lookup k before.table ≡ some c → lookup k after.table ≡ some c)
    × (apply_pending_migrations runs (baseline ∷ facts ∷ []) after ≡ (applied [], after))
unfolding apply_pending_migrations apply_each
apply_twice_example =
    apply_twice runs runs (baseline ∷ facts ∷ []) before ("0002" ∷ []) after
      (differ, ((λ m. m), tt)) refl
  where
    differ : ¬ IsIn "0001" ("0002" ∷ [])
    differ (inl e) = let wrong : false ≡ true = (eq_iff "0001" "0002").1 e in cc wrong
    differ (inr m) = absurd m
