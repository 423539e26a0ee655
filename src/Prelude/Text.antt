-- ===== src/Prelude/Text.antt =====
-- Python's text operations, over the characters of a native text.
use Prim.Native.Nat.{ℕ, zero, suc, ◌+◌, ◌/◌, ◌%◌}
use Prim.Native.Char.{Char}
use Prim.Native.String.{String}
use mathlib.Core.Bool.{Bool, true, false}
use mathlib.Core.List.{List, [], ◌∷◌}
use social_sentiment.Prelude.Tests.{ltb, ◌==◌, if◌then◌else◌}

infixr 65 ◌<>◌
-- `a + b` on texts
abbrev pub ◌<>◌ : String → String → String
String.[] <> t = t
String.◌∷◌ c s <> t = String.◌∷◌ c (s <> t)

-- `text[:n]`
abbrev pub slice_to : ℕ → String → String
slice_to zero s = String.[]
slice_to (suc n) String.[] = String.[]
slice_to (suc n) (String.◌∷◌ c s) = String.◌∷◌ c (slice_to n s)

-- `len(text)`
abbrev pub text_length : String → ℕ
text_length String.[] = 0
text_length (String.◌∷◌ c s) = suc (text_length s)

-- `not text`
abbrev pub is_blank : String → Bool
is_blank String.[] = true
is_blank (String.◌∷◌ c s) = false

abbrev pub chars : String → List Char
chars String.[] = []
chars (String.◌∷◌ c s) = c ∷ chars s

abbrev digit : ℕ → String
digit n =
    if n == 0
    then "0"
    else if n == 1
    then "1"
    else if n == 2
    then "2"
    else if n == 3
    then "3"
    else if n == 4
    then "4"
    else if n == 5
    then "5"
    else if n == 6
    then "6"
    else if n == 7
    then "7"
    else if n == 8
    then "8"
    else "9"

print_digits : ℕ → ℕ → String
print_digits zero n = ""
print_digits (suc fuel) n =
    let rest = print_digits fuel (n / 10) in if ltb n 10 then digit n else rest <> digit (n % 10)

-- `str(n)`. The fuel `n + 1` is enough, since the number falls on every round.
unfoldable pub decimal : ℕ → String
unfolding print_digits
decimal n = print_digits (n + 1) n

abbrev pub text_of : List Char → String
text_of [] = String.[]
text_of (c ∷ cs) = String.◌∷◌ c (text_of cs)
