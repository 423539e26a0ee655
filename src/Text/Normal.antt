-- ===== src/Text/Normal.antt =====
-- About cleaned text.
use Prim.Native.Char.{Char}
use social_sentiment.Prelude.{
  ℕ, suc, ◌≡◌, refl, Bool, true, false, List, [], ◌∷◌, chars, Bool-cases, inl, inr, ◌++◌,
}
use social_sentiment.Text.{
  Characters, span_length, substitute, drop_spaces, drop_last_spaces, whitespace_length, clean_text,
  strip, url_length, username_length, put_back,
}

module _ (match : List Char → ℕ) (by : List Char) (c : Char) (cs : List Char) where
  pub substitute_miss :
      match (c ∷ cs) ≡ 0 → substitute match by 0 (c ∷ cs) ≡ c ∷ substitute match by 0 cs
  unfolding substitute
  substitute_miss e = rw (e, substitute)

  pub substitute_hit :
      (k : ℕ)
      → match (c ∷ cs) ≡ suc k
      → substitute match by 0 (c ∷ cs) ≡ by ++ substitute match by k cs
  unfolding substitute
  substitute_hit k e = rw (e, substitute)

  pub substitute_skip : (k : ℕ) → substitute match by (suc k) (c ∷ cs) ≡ substitute match by k cs
  unfolding substitute
  substitute_skip k = refl

module _ (p : Char → Bool) where
  -- No space stands at the front.
  abbrev pub StartsClean : List Char → Type 0
  StartsClean [] = Unit
  StartsClean (c ∷ cs) = p c ≡ false

  -- No two spaces stand side by side.
  abbrev pub Single : List Char → Type 0
  Single [] = Unit
  Single (c ∷ cs) = (p c ≡ true → StartsClean cs) × Single cs

  -- No space stands at the end.
  abbrev pub EndsClean : List Char → Type 0
  EndsClean [] = Unit
  EndsClean (c ∷ []) = p c ≡ false
  EndsClean (c ∷ d ∷ cs) = EndsClean (d ∷ cs)

  span_space :
      (c : Char) (cs : List Char) → p c ≡ true → span_length p (c ∷ cs) ≡ suc (span_length p cs)
  unfolding span_length
  span_space c cs e = rw e

  span_other : (c : Char) (cs : List Char) → p c ≡ false → span_length p (c ∷ cs) ≡ 0
  unfolding span_length
  span_other c cs e = rw e

  abbrev squeeze : ℕ → List Char → List Char
  squeeze = substitute (span_length p) (chars " ")

  -- What is shown of the rest of a text, from its start and from inside a run of spaces.
  record Squeezed (cs : List Char) : Type 0 where
    start : Single (squeeze 0 cs)
    inside : Single (squeeze (span_length p cs) cs)
    clean : StartsClean (squeeze (span_length p cs) cs)

  Squeezed-space : (c : Char) (cs : List Char) → p c ≡ true → Squeezed cs → Squeezed (c ∷ cs)
  Squeezed-space c cs e r =
      let n : ℕ = span_length p cs in
      let run : span_length p (c ∷ cs) ≡ suc n = span_space c cs e in
      let skip : squeeze (suc n) (c ∷ cs) ≡ squeeze n cs =
        substitute_skip (span_length p) (chars " ") c cs n in
      record {
        start = rw (substitute_hit (span_length p) (chars " ") c cs n run) (λ _. r.clean, r.inside);
        inside = rw (run, skip) r.inside;
        clean = rw (run, skip) r.clean;
      }

  Squeezed-other : (c : Char) (cs : List Char) → p c ≡ false → Squeezed cs → Squeezed (c ∷ cs)
  Squeezed-other c cs e r =
      let none_here : span_length p (c ∷ cs) ≡ 0 = span_other c cs e in
      let keep : squeeze 0 (c ∷ cs) ≡ c ∷ squeeze 0 cs =
        substitute_miss (span_length p) (chars " ") c cs none_here in
      let here : Single (c ∷ squeeze 0 cs) = (λ q. cc (q, e), r.start) in
      record {
        start = rw keep here;
        inside = rw (none_here, keep) here;
        clean = rw (none_here, keep) e;
      }

  squeeze-Squeezed : (cs : List Char) → Squeezed cs
  unfolding substitute
  squeeze-Squeezed [] = record { start = tt; inside = tt; clean = tt }
  squeeze-Squeezed (c ∷ cs) = elim (Bool-cases (p c)) [
    | inl e ↦ Squeezed-space c cs e (squeeze-Squeezed cs)
    | inr e ↦ Squeezed-other c cs e (squeeze-Squeezed cs)
  ]

  drop_spaces-StartsClean : (cs : List Char) → StartsClean (drop_spaces p cs)
  unfolding drop_spaces
  drop_spaces-StartsClean [] = tt
  drop_spaces-StartsClean (c ∷ cs) = elim (Bool-cases (p c)) [
    | inl e ↦ rw (e, drop_spaces) (drop_spaces-StartsClean cs)
    | inr e ↦ rw (e, drop_spaces) e
  ]

  drop_spaces-Single : (cs : List Char) → Single cs → Single (drop_spaces p cs)
  unfolding drop_spaces
  drop_spaces-Single [] s = tt
  drop_spaces-Single (c ∷ cs) s = elim (Bool-cases (p c)) [
    | inl e ↦ rw (e, drop_spaces) (drop_spaces-Single cs s.1)
    | inr e ↦ rw (e, drop_spaces) s
  ]

  put_back-EndsClean :
      (b : Bool) (c : Char) (r : List Char) → p c ≡ b → EndsClean r → EndsClean (put_back b c r)
  unfolding put_back
  put_back-EndsClean true c [] e h = tt
  put_back-EndsClean false c [] e h = e
  put_back-EndsClean b c (d ∷ ds) e h = h

  put_back-StartsClean :
      (b : Bool) (c : Char) (r : List Char) → p c ≡ false → StartsClean (put_back b c r)
  unfolding put_back
  put_back-StartsClean true c [] e = tt
  put_back-StartsClean false c [] e = e
  put_back-StartsClean b c (d ∷ ds) e = e

  put_back-Single :
      (b : Bool) (c : Char) (r : List Char)
      → (p c ≡ true → StartsClean r)
      → Single r
      → Single (put_back b c r)
  unfolding put_back
  put_back-Single true c [] h s = tt
  put_back-Single false c [] h s = (λ _. tt, tt)
  put_back-Single b c (d ∷ ds) h s = (h, s)

  drop_last-StartsClean : (cs : List Char) → StartsClean cs → StartsClean (drop_last_spaces p cs)
  unfolding drop_last_spaces
  drop_last-StartsClean [] h = tt
  drop_last-StartsClean (c ∷ cs) h = put_back-StartsClean (p c) c (drop_last_spaces p cs) h

  drop_last-EndsClean : (cs : List Char) → EndsClean (drop_last_spaces p cs)
  unfolding drop_last_spaces
  drop_last-EndsClean [] = tt
  drop_last-EndsClean (c ∷ cs) =
      put_back-EndsClean (p c) c (drop_last_spaces p cs) refl (drop_last-EndsClean cs)

  drop_last-Single : (cs : List Char) → Single cs → Single (drop_last_spaces p cs)
  unfolding drop_last_spaces
  drop_last-Single [] s = tt
  drop_last-Single (c ∷ cs) s =
      put_back-Single (p c) c (drop_last_spaces p cs) (λ e. drop_last-StartsClean cs (s.0 e))
        (drop_last-Single cs s.1)

-- Cleaned text has no space at an end and no two spaces side by side, whatever the characters
-- that count as spaces.
pub clean_text_normal :
    (t : Characters) (raw : List Char)
    → StartsClean t.is_space (clean_text t raw)
      × Single t.is_space (clean_text t raw)
      × EndsClean t.is_space (clean_text t raw)
unfolding clean_text whitespace_length strip
clean_text_normal t raw =
    let no_urls : List Char = substitute (url_length t) (chars "http") 0 (t.unescape raw) in
    let no_users : List Char = substitute (username_length t) (chars "@user") 0 no_urls in
    let spaced : List Char = substitute (span_length t.is_space) (chars " ") 0 no_users in
    let p : Char → Bool = t.is_space in
    let front : List Char = drop_spaces p spaced in
    let single : Single p front = drop_spaces-Single p spaced (squeeze-Squeezed p no_users).start in
    (
      drop_last-StartsClean p front (drop_spaces-StartsClean p spaced),
      drop_last-Single p front single,
      drop_last-EndsClean p front,
    )
