-- ===== src/ArchiveExport/Months.antt =====
-- The months of an export.
use social_sentiment.ArchiveExport.{
  Month, check_closed, month_bounds, next_month, is_later, previous_month,
}
use social_sentiment.Prelude.{
  ◌≤◌, ◌≡◌, some, false, arith, ◌↔◌, refl, true, none, subst, sym, Bool-cases, inl, inr,
}
use social_sentiment.Outcome.{ok, raised, system_exit}

-- A month that the calendar has.
abbrev pub IsMonth : Month → Type 0
IsMonth m = (1 ≤ m.month) × (m.month ≤ 12) × (1 ≤ m.year)

month_ext : (a b : Month) → a.year ≡ b.year → a.month ≡ b.month → a ≡ b
month_ext a b p q = λ i. record { year = p i; month = q i }

next-previous : (m : Month) → IsMonth m → next_month (previous_month m) ≡ m
next-previous m real = month_ext _ m (ground arith) (ground arith)

check_closed-ok : (end now : Month) → is_later end now ≡ false → check_closed end now ≡ ok tt
unfolding check_closed
check_closed-ok end now e = rw e refl

check_closed-later : (end now : Month) → check_closed end now ≡ ok tt → is_later end now ≡ false
unfolding check_closed
check_closed-later end now h = elim (Bool-cases (is_later end now)) [
  | inl e ↦
      let absent : raised (system_exit "Only closed months may be exported") ≡ ok tt = rw e at h in
      cc absent
  | inr e ↦ e
]

-- A given month is exported exactly when it is before the current one; without a month, the export
-- is of the month that ends where the current one starts, and the guard lets it pass.
pub check_closed_exact :
    (start now : Month)
    → IsMonth start
    → IsMonth now
    → ((check_closed (month_bounds (some start) now).1 now ≡ ok tt) ↔ (is_later now start ≡ true))
      × ((month_bounds none now).1 ≡ now)
      × (check_closed (month_bounds none now).1 now ≡ ok tt)
unfolding month_bounds
check_closed_exact start now real current =
    let same = next-previous now current in
    (
      (
        (λ h. let e = check_closed-later (next_month start) now h in ground arith),
        (λ h. check_closed-ok (next_month start) now (ground arith)),
      ),
      same,
      subst (λ end. check_closed end now ≡ ok tt) (sym same)
          (check_closed-ok now now (ground arith)),
    )
