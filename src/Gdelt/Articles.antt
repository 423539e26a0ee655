-- ===== src/Gdelt/Articles.antt =====
-- About the events that come out of a provider's articles.
use social_sentiment.Catalog.Consistent.{IsIn, Unique, IsIn-contains}
use social_sentiment.Gdelt.{Texts, Article, events_from, is_skipped, seen_at, add_event, date_error}
use social_sentiment.Outcome.{Outcome, ok, raised, cancelled}
use social_sentiment.Prelude.{
  Option, some, none, ◌⊎◌, List, ℕ, String, is_blank, map, ◌≡◌, text_length, ◌∷◌, All, false,
  slice_to, Bool-cases, ◌≤◌, any, inl, arith, str_eq, inr, suc, true, [], subst, refl, zero,
}
use social_sentiment.GlobalEvents.{NormalizedEventSignal, EventRule}

abbrev pub urls_of : List NormalizedEventSignal → List String
urls_of = map (λ e. e.canonical_url)

-- What each event of a list satisfies.
abbrev pub Usable : NormalizedEventSignal → Type 0
Usable e = (is_blank e.canonical_url ≡ false) × (text_length e.title ≤ 1000)

slice_to-le : (n : ℕ) (s : String) → text_length (slice_to n s) ≤ n
slice_to-le zero s = omega arith
slice_to-le (suc n) String.[] = omega arith
slice_to-le (suc n) (String.◌∷◌ c s) = omega (arith, slice_to-le n s)

module _ (texts : Texts) where
  -- The time of some article is not readable.
  abbrev pub Unreadable : List (Article texts) → Type 0
  Unreadable [] = ⊥
  Unreadable (a ∷ articles) = (seen_at texts a ≡ none) ⊎ Unreadable articles

  -- The events have different addresses, none of them blank, and titles of bounded length; and only
  -- an article whose time is not readable raises an error.
  abbrev pub IsClean : List (Article texts) → Outcome (List NormalizedEventSignal) → Type 0
  IsClean articles (ok events) = Unique (urls_of events) × All Usable events
  IsClean articles (raised e) = (e ≡ date_error texts) × Unreadable articles
  IsClean articles cancelled = ⊥

  NotIn : String → Outcome (List NormalizedEventSignal) → Type 0
  NotIn u (ok events) = ¬ IsIn u (urls_of events)
  NotIn u _ = Unit

module _ (texts : Texts) (rule : EventRule) where
  add_event-NotIn :
      (u : String) (a : Article texts) (at : Option ℕ) (o : Outcome (List NormalizedEventSignal))
      → ¬ (u ≡ texts.strip a.url)
      → NotIn texts u o
      → NotIn texts u (add_event texts rule a at o)
  unfolding NotIn
  add_event-NotIn u a none o differ h = tt
  add_event-NotIn u a (some at) (ok later) differ h =
      λ x. elim x [ inl same ↦ differ same | inr found ↦ h found ]
  add_event-NotIn u a (some at) (raised e) differ h = tt
  add_event-NotIn u a (some at) cancelled differ h = tt

  -- an address that was seen does not come out again
  events_from-ne :
      (seen : List String) (articles : List (Article texts)) (u : String)
      → IsIn u seen
      → NotIn texts u (events_from texts rule seen articles)
  unfolding events_from NotIn
  events_from-ne seen [] u m = λ x. absurd x
  events_from-ne seen (a ∷ articles) u m =
      let without = events_from-ne seen articles u m in
      let later = events_from-ne (texts.strip a.url ∷ seen) articles u (inr m) in
      elim (Bool-cases (is_skipped texts seen a)) [
        | inl q ↦ rw q without
        | inr q ↦ rw q (
            add_event-NotIn u a (seen_at texts a) _
              (λ same.
                let known : any (str_eq (texts.strip a.url)) seen ≡ true =
                  subst (λ v. any (str_eq v) seen ≡ true) same (IsIn-contains u seen m) in
                clash seen a q known)
              later)
      ]
    where
      clash :
          (seen : List String) (a : Article texts)
          → is_skipped texts seen a ≡ false
          → any (str_eq (texts.strip a.url)) seen ≡ true
          → ⊥
      clash seen a q known = ground arith

  add_event-IsClean :
      (a : Article texts) (articles : List (Article texts)) (at : Option ℕ)
      (o : Outcome (List NormalizedEventSignal))
      → seen_at texts a ≡ at
      → is_blank (texts.strip a.url) ≡ false
      → NotIn texts (texts.strip a.url) o
      → IsClean texts articles o
      → IsClean texts (a ∷ articles) (add_event texts rule a at o)
  unfolding NotIn
  add_event-IsClean a articles none o seen filled new clean = (refl, inl seen)
  add_event-IsClean a articles (some at) (ok later) seen filled new (differ, usable) =
      ((new, differ), ((filled, slice_to-le 1000 (texts.strip a.title)), usable))
  add_event-IsClean a articles (some at) (raised e) seen filled new (is, unreadable) =
      (is, inr unreadable)
  add_event-IsClean a articles (some at) cancelled seen filled new clean = absurd clean

  IsClean-later :
      (a : Article texts) (articles : List (Article texts))
      (o : Outcome (List NormalizedEventSignal))
      → IsClean texts articles o
      → IsClean texts (a ∷ articles) o
  IsClean-later a articles (ok events) clean = clean
  IsClean-later a articles (raised e) (is, unreadable) = (is, inr unreadable)
  IsClean-later a articles cancelled clean = absurd clean

  -- The events of a provider's answer have different addresses, none of them blank, and titles of
  -- at most a thousand characters; or an article's time cannot be read, and the `ValueError` is raised.
  pub events_from-Unique :
      (seen : List String) (articles : List (Article texts))
      → IsClean texts articles (events_from texts rule seen articles)
  unfolding events_from
  events_from-Unique seen [] = (tt, tt)
  events_from-Unique seen (a ∷ articles) =
      let without = events_from-Unique seen articles in
      let later = events_from-Unique (texts.strip a.url ∷ seen) articles in
      elim (Bool-cases (is_skipped texts seen a)) [
        | inl q ↦ rw q (IsClean-later a articles _ without)
        | inr q ↦
            let filled : is_blank (texts.strip a.url) ≡ false = ground arith in
            rw q (
              add_event-IsClean a articles (seen_at texts a) _ refl filled
                (events_from-ne (texts.strip a.url ∷ seen) articles (texts.strip a.url) (inl refl))
                later)
      ]
