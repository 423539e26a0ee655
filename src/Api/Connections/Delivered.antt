-- ===== src/Api/Connections/Delivered.antt =====
-- About who stays connected after a broadcast.
use social_sentiment.Prelude.{
  ℕ, List, Bool, ◌∷◌, ◌≡◌, any, false, if◌then◌else◌, Bool-cases, ◌&&◌, ◌==◌, [], arith, inl, ◌||◌,
  inr, not, refl, true, ◌++◌, ap, sym, ◌∙◌,
}
use social_sentiment.Api.Connections.{
  disconnect, drop_undelivered, Sending, send_text, Change, change_all, broadcast, connects,
  connect, disconnects,
}

abbrev pub is_in : ℕ → List ℕ → Bool
is_in c cs = any (λ d. d == c) cs

-- No connection is listed twice.
abbrev pub Distinct : List ℕ → Type 0
Distinct [] = Unit
Distinct (c ∷ cs) = (is_in c cs ≡ false) × Distinct cs

is_in-disconnect :
    (c d : ℕ) (cs : List ℕ)
    → Distinct cs
    → is_in d (disconnect c cs) ≡ (if c == d then false else is_in d cs)
unfolding disconnect
is_in-disconnect c d [] u = ground arith
is_in-disconnect c d (x ∷ cs) u =
    let (out, rest) = u in
    let ih = is_in-disconnect c d cs rest in
    elim (Bool-cases (x == c)) [
      | inl e ↦
          let same : x ≡ c = ground arith in
          elim (Bool-cases (c == d)) [
            | inl f ↦ let also : x ≡ d = ground arith in rw (e, f, ← also) out
            | inr f ↦ let other : (x == d) ≡ false = ground arith in rw (e, f, other) refl
          ]
      | inr e ↦ rw e (ground (arith, ih))
    ]

Distinct-disconnect : (c : ℕ) (cs : List ℕ) → Distinct cs → Distinct (disconnect c cs)
unfolding disconnect
Distinct-disconnect c [] u = tt
Distinct-disconnect c (x ∷ cs) u = elim (Bool-cases (x == c)) [
  | inl e ↦ rw e u.1
  | inr e ↦ rw e (
    (let h = is_in-disconnect c x cs u.1 in let out = u.0 in ground arith),
    Distinct-disconnect c cs u.1,
  )
]

same_sending :
    (outcome : ℕ → Sending) (c d : ℕ)
    → (c == d) ≡ true
    → send_text (outcome c) ≡ send_text (outcome d)
same_sending outcome c d e = let same : c ≡ d = ground arith in ap (λ x. send_text (outcome x)) same

is_in-drop_undelivered :
    (outcome : ℕ → Sending) (cs active : List ℕ) (d : ℕ)
    → Distinct active
    → is_in d (drop_undelivered outcome cs active)
      ≡ is_in d active && (send_text (outcome d) || not (is_in d cs))
unfolding drop_undelivered
is_in-drop_undelivered outcome [] active d u = ground arith
is_in-drop_undelivered outcome (c ∷ cs) active d u = elim (Bool-cases (send_text (outcome c))) [
  | inl e ↦
      let ih = is_in-drop_undelivered outcome cs active d u in
      elim (Bool-cases (c == d)) [
        | inl f ↦
            let got : send_text (outcome d) ≡ true = sym (same_sending outcome c d f) ∙ e in
            rw (e, ih, f, got) refl
        | inr f ↦ rw (e, ih, f) refl
      ]
  | inr e ↦
      let ih =
        is_in-drop_undelivered outcome cs (disconnect c active) d
          (Distinct-disconnect c active u) in
      let here = is_in-disconnect c d active u in
      elim (Bool-cases (c == d)) [
        | inl f ↦
            let got : send_text (outcome d) ≡ false = sym (same_sending outcome c d f) ∙ e in
            rw (e, ih, here, f, got) (ground arith)
        | inr f ↦ rw (e, ih, here, f) refl
      ]
]

Distinct-append :
    (c : ℕ) (cs : List ℕ) → is_in c cs ≡ false → Distinct cs → Distinct (cs ++ (c ∷ []))
Distinct-append c [] out u = (refl, tt)
Distinct-append c (x ∷ cs) out u =
    let (here, rest) = u in
    ((let h = is_in-append x cs (c ∷ []) in ground arith), Distinct-append c cs (ground arith) rest)
  where
    is_in-append : (d : ℕ) (xs ys : List ℕ) → is_in d (xs ++ ys) ≡ is_in d xs || is_in d ys
    is_in-append d [] ys = refl
    is_in-append d (x ∷ xs) ys = let h = is_in-append d xs ys in ground arith

-- Other tasks connect only clients that are new.
abbrev pub AreNew : List Change → List ℕ → Type 0
AreNew [] active = Unit
AreNew (connects c ∷ cs) active = (is_in c active ≡ false) × AreNew cs (connect c active)
AreNew (disconnects c ∷ cs) active = AreNew cs (disconnect c active)

change_all-Distinct :
    (changes : List Change) (active : List ℕ)
    → AreNew changes active
    → Distinct active
    → Distinct (change_all changes active)
unfolding change_all
change_all-Distinct [] active new u = u
change_all-Distinct (connects c ∷ cs) active new u =
    change_all-Distinct cs (connect c active) new.1 (Distinct-append c active new.0 u)
change_all-Distinct (disconnects c ∷ cs) active new u =
    change_all-Distinct cs (disconnect c active) new (Distinct-disconnect c active u)

-- While no client is listed twice and other tasks connect only new ones, a broadcast goes to every
-- client that was connected when it started, and afterwards a client is connected exactly when it
-- still was after what the other tasks did and the message did not fail to reach it.
pub broadcast_exact :
    (outcome : ℕ → Sending) (changes : List Change) (active : List ℕ) (d : ℕ)
    → Distinct active
    → AreNew changes active
    → let (addressed, left) = broadcast outcome changes active in
      (addressed ≡ active)
      × (is_in d left
          ≡ is_in d (change_all changes active) && (send_text (outcome d) || not (is_in d active)))
unfolding broadcast
broadcast_exact outcome changes [] d u new = (refl, ground arith)
broadcast_exact outcome changes (c ∷ cs) d u new = (
  refl,
  is_in-drop_undelivered outcome (c ∷ cs) (change_all changes (c ∷ cs)) d
      (change_all-Distinct changes (c ∷ cs) new u),
)
