-- ===== src/Text.antt =====
-- preprocessing-service/preprocess.py: the cleaning of a post's text. A text is the list of its
-- characters. What Python's `re` and `html` know of characters is a parameter.
pub mod Normal
use Prim.Native.Char.{Char, code}
use social_sentiment.Prelude.{
  ℕ, zero, suc, ◌+◌, Bool, true, false, ◌&&◌, List, [], ◌∷◌, ◌++◌, String, chars, length, leb,
  if◌then◌else◌, ◌==◌,
}

pub record Characters : Type 0 where
  -- `\s` and `str.strip`
  pub is_space : Char → Bool
  -- `\w`
  pub is_word : Char → Bool
  -- equality of a character with a letter of the pattern under `re.IGNORECASE`
  pub same_letter : Char → Char → Bool
  -- `html.unescape`
  pub unescape : List Char → List Char

-- The number of leading characters that pass the test: `x*`.
unfoldable pub span_length : (Char → Bool) → List Char → ℕ
span_length p [] = 0
span_length p (c ∷ cs) = let rest = span_length p cs in if p c then suc rest else 0

-- `re.sub`: from left to right, each match is replaced and scanning goes on behind it. `match`
-- gives the length of a match at the front of the text, and 0 for none; `skip` counts the
-- characters of a match that are still to be passed over.
unfoldable pub substitute : (List Char → ℕ) → List Char → ℕ → List Char → List Char
substitute match by skip [] = []
substitute match by (suc k) (c ∷ cs) = substitute match by k cs
substitute match by zero (c ∷ cs) = elim (match (c ∷ cs)) [
  | zero ↦ c ∷ substitute match by zero cs
  | suc k ↦ by ++ substitute match by k cs
]

unfoldable pub drop_spaces : (Char → Bool) → List Char → List Char
drop_spaces p [] = []
drop_spaces p (c ∷ cs) = let rest = drop_spaces p cs in if p c then rest else c ∷ cs

-- a character in front of what is left of the text behind it
unfoldable pub put_back : Bool → Char → List Char → List Char
put_back space c [] = if space then [] else c ∷ []
put_back space c (d ∷ ds) = c ∷ d ∷ ds

unfoldable pub drop_last_spaces : (Char → Bool) → List Char → List Char
unfolding put_back
drop_last_spaces p [] = []
drop_last_spaces p (c ∷ cs) = put_back (p c) c (drop_last_spaces p cs)

module _ (t : Characters) where
  -- the length of a literal at the front of the text, letters without case; 0 for no match
  literal_length : List Char → List Char → ℕ
  literal_length [] cs = 0
  literal_length (l ∷ ls) [] = 0
  literal_length (l ∷ []) (c ∷ cs) = if t.same_letter l c then 1 else 0
  literal_length (l ∷ k ∷ ls) (c ∷ cs) =
      let rest = literal_length (k ∷ ls) cs in
      if t.same_letter l c then elim rest [ zero ↦ 0 | suc n ↦ suc (suc n) ] else 0

  drop_chars : ℕ → List Char → List Char
  drop_chars zero cs = cs
  drop_chars (suc n) [] = []
  drop_chars (suc n) (c ∷ cs) = drop_chars n cs

  -- a literal followed by `\S+`
  literal_then_word : List Char → List Char → ℕ
  unfolding literal_length drop_chars span_length
  literal_then_word literal cs = elim (literal_length literal cs) [
    | zero ↦ 0
    | suc n ↦
        elim (span_length (λ c. if t.is_space c then false else true) (drop_chars (suc n) cs)) [
          | zero ↦ 0
          | suc k ↦ suc n + suc k
        ]
  ]

  -- the first alternative that matches
  or_else : ℕ → ℕ → ℕ
  or_else zero n = n
  or_else (suc k) n = suc k

  -- `https?://\S+|www\.\S+`
  unfoldable pub url_length : List Char → ℕ
  unfolding literal_then_word or_else
  url_length cs =
      or_else (literal_then_word (chars "https://") cs)
        (or_else (literal_then_word (chars "http://") cs) (literal_then_word (chars "www.") cs))

  -- `@\w+`
  unfoldable pub username_length : List Char → ℕ
  unfolding span_length
  username_length [] = 0
  username_length (c ∷ cs) =
      if code c == b'@'
      then elim (span_length t.is_word cs) [ zero ↦ 0 | suc k ↦ suc (suc k) ]
      else 0

  -- `\s+`
  unfoldable pub whitespace_length : List Char → ℕ
  unfolding span_length
  whitespace_length cs = span_length t.is_space cs

  unfoldable pub strip : List Char → List Char
  unfolding drop_spaces drop_last_spaces
  strip cs = drop_last_spaces t.is_space (drop_spaces t.is_space cs)

  unfoldable pub clean_text : List Char → List Char
  unfolding substitute url_length username_length whitespace_length strip
  clean_text raw =
      let unescaped = t.unescape raw in
      let no_urls = substitute url_length (chars "http") 0 unescaped in
      let no_users = substitute username_length (chars "@user") 0 no_urls in
      let spaced = substitute whitespace_length (chars " ") 0 no_users in strip spaced

abbrev pub min_length : ℕ
min_length = 3

abbrev pub is_valid : List Char → Bool
is_valid text = leb min_length (length text)
