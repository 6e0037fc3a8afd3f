-- ===== src/Dsff/Rounds.antt =====
-- One round of the loop in `_tokenize` of src/dsvire/dsff.py.
use mathlib.Core.List.{append_assoc}
use tokito_dsvire.Prelude.{
  ℕ, ◌+◌, ◌<◌, ◌≤◌, Bool, false, not, Option, none, some, List, [], ◌∷◌, ◌++◌, ◌≡◌, ◌≢◌, refl, sym,
  ap, ◌∙◌, subst, arith, inl, inr, ◌⊎◌, ◌==◌, length, Bool-cases,
}
use tokito_dsvire.Dsff.Token.{
  Split, keep, span, is_blank, is_bracket, is_name_char, is_delimiter, after_newline, literal,
  number, comment, emit, name, number_or_word, round_at, round,
}
use tokito_dsvire.Dsff.Splits.{
  Splits, Within, after_newline-Within, cons-ne, literal-Splits, number-Takes, span-Splits,
}

-- A `)` where a token should begin.
abbrev pub Unmatched : List ℕ → Type 0
Unmatched cs = (rest : List ℕ) × ((span is_blank cs).rest ≡ b')' ∷ rest)

-- A round that emits takes the next bytes, and at least one if they do not begin with a `)`.
abbrev pub Emits : Split → List ℕ → Type 0
Emits s cs = Splits s cs × ((s.taken ≢ []) ⊎ ((rest : List ℕ) × (cs ≡ b')' ∷ rest)))

pub name-Emits :
    (ds rest cs : List ℕ) {s : Split}
    → (ds ++ rest) ≡ cs
    → name ds rest ≡ emit s
    → Emits s (b'/' ∷ cs)
unfolding name
name-Emits [] rest cs h e = cc
name-Emits (d ∷ ds) rest cs {s} h e =
    subst (λ o. Emits o (b'/' ∷ cs)) {x = record { taken = b'/' ∷ d ∷ ds; rest = rest }}
      (ground arith) (ap (λ x. b'/' ∷ x) h, inl (cons-ne _ _))

pub word-Emits :
    (c : ℕ) (cs : List ℕ)
    → is_blank c ≡ false
    → (c == b'%') ≡ false
    → (c == b'/') ≡ false
    → is_bracket c ≡ false
    → (c == b'(') ≡ false
    → Emits (span (λ x. not (is_delimiter x)) (c ∷ cs)) (c ∷ cs)
unfolding span
word-Emits c cs a b d e f = elim (Bool-cases (c == b')')) [
  | inl t ↦ (span-Splits (λ x. not (is_delimiter x)) (c ∷ cs), inr (cs, ground arith))
  | inr t ↦ (span-Splits (λ x. not (is_delimiter x)) (c ∷ cs), inl (λ q. ground arith))
]

pub span-stops :
    (p : ℕ → Bool) (cs : List ℕ) {c : ℕ} {rest : List ℕ} → (span p cs).rest ≡ c ∷ rest → p c ≡ false
unfolding span
span-stops p [] e = cc
span-stops p (x ∷ cs) {c} {rest} e = elim (Bool-cases (p x)) [
  | inl t ↦ span-stops p cs {c = c} {rest = rest} (ground arith)
  | inr t ↦ ground arith
]

pub round_at-Emits :
    (c : ℕ) (cs : List ℕ) {s : Split}
    → is_blank c ≡ false
    → round_at (c ∷ cs) ≡ emit s
    → Emits s (c ∷ cs)
unfolding round_at
round_at-Emits c cs {s} b e = elim (Bool-cases (c == b'%')) [
  | inl t ↦ ground arith
  | inr t ↦ elim (Bool-cases (c == b'/')) [
    | inl u ↦
        subst (λ x. Emits s (x ∷ cs)) (ground arith)
          (name-Emits (span is_name_char cs).taken (span is_name_char cs).rest cs
            (span-Splits is_name_char cs) (ground arith))
    | inr u ↦ elim (Bool-cases (is_bracket c)) [
      | inl v ↦
          subst (λ o. Emits o (c ∷ cs)) {x = record { taken = c ∷ []; rest = cs }} (ground arith)
            (refl, inl (cons-ne _ _))
      | inr v ↦ elim (Bool-cases (c == b'(')) [
        | inl w ↦
            subst (λ o. Emits o (c ∷ cs)) {x = keep c (literal 1 cs)} (ground arith)
              (ap (λ x. c ∷ x) (literal-Splits 1 cs), inl (cons-ne _ _))
        | inr w ↦ other (number (c ∷ cs)) refl t u v w (ground arith)
      ]
    ]
  ]
]
  where
    other :
        (o : Option Split)
        → number (c ∷ cs) ≡ o
        → (c == b'%') ≡ false
        → (c == b'/') ≡ false
        → is_bracket c ≡ false
        → (c == b'(') ≡ false
        → number_or_word o (c ∷ cs) ≡ emit s
        → Emits s (c ∷ cs)
    other none q t u v w h =
        unfold number_or_word in
        subst (λ o. Emits o (c ∷ cs)) {x = span (λ x. not (is_delimiter x)) (c ∷ cs)} (ground arith)
          (word-Emits c cs b t u v w)
    other (some n) q t u v w h =
        unfold number_or_word in
        let n' = number-Takes (c ∷ cs) q in
        subst (λ o. Emits o (c ∷ cs)) {x = n} (ground arith) (n'.0, inl n'.1)

-- What a round that emits does to the data.
pub round-Emits : (cs : List ℕ) {s : Split} → round cs ≡ emit s → Emits s (span is_blank cs).rest
unfolding round
round-Emits cs {s} e = pick (span is_blank cs).rest refl e
  where
    pick : (r : List ℕ) → (span is_blank cs).rest ≡ r → round_at r ≡ emit s → Emits s r
    pick [] q h = unfold round_at in cc
    pick (c ∷ r) q h = round_at-Emits c r (span-stops is_blank cs q) h

pub comment_at :
    (c : ℕ) (r : List ℕ) {rest : List ℕ} → round_at (c ∷ r) ≡ comment rest → rest ≡ after_newline r
unfolding round_at name number_or_word
comment_at c r {rest} e = elim (Bool-cases (c == b'%')) [
  | inl t ↦ ground arith
  | inr t ↦ elim (Bool-cases (c == b'/')) [
    | inl u ↦ named (span is_name_char r).taken (span is_name_char r).rest (ground arith)
    | inr u ↦ elim (Bool-cases (is_bracket c)) [
      | inl v ↦ ground arith
      | inr v ↦ elim (Bool-cases (c == b'(')) [
        | inl w ↦ ground arith
        | inr w ↦ worded (number (c ∷ r)) (ground arith)
      ]
    ]
  ]
]
  where
    named : (ds xs : List ℕ) → name ds xs ≡ comment rest → rest ≡ after_newline r
    named [] xs h = cc
    named (d ∷ ds) xs h = cc

    worded : (o : Option Split) → number_or_word o (c ∷ r) ≡ comment rest → rest ≡ after_newline r
    worded none h = cc
    worded (some n) h = cc

pub length-append : (xs ys : List ℕ) → length (xs ++ ys) ≡ length xs + length ys
length-append [] ys = omega arith
length-append (x ∷ xs) ys = omega (arith, length-append xs ys)

pub length-Within : (rest cs : List ℕ) → Within rest cs → length rest ≤ length cs
length-Within rest cs (before, e) = omega (arith, length-append before rest, ap length e)

pub unblanked-Within : (cs : List ℕ) → Within (span is_blank cs).rest cs
unblanked-Within cs = ((span is_blank cs).taken, span-Splits is_blank cs)

pub Within-trans : {a b c : List ℕ} → Within a b → Within b c → Within a c
Within-trans (x, e) (y, f) = (y ++ x, append_assoc y x _ ∙ ap (λ z. y ++ z) e ∙ f)

-- A comment leaves less of the data, a suffix of it.
pub round-comment :
    (cs : List ℕ) {rest : List ℕ}
    → round cs ≡ comment rest
    → Within rest cs × (length rest < length cs)
unfolding round
round-comment cs {rest} e = pick (span is_blank cs).rest refl e
  where
    pick :
        (r : List ℕ)
        → (span is_blank cs).rest ≡ r
        → round_at r ≡ comment rest
        → Within rest cs × (length rest < length cs)
    pick [] q h = unfold round_at in cc
    pick (c ∷ r) q h =
        let at = subst (λ x. Within x r) (sym (comment_at c r h)) (after_newline-Within r) in
        let unblanked = subst (λ x. Within x cs) q (unblanked-Within cs) in
        (
          Within-trans at (Within-trans (c ∷ [], refl) unblanked),
          omega (arith, length-Within rest r at, length-Within (c ∷ r) cs unblanked),
        )

pub length-pos : (xs : List ℕ) → xs ≢ [] → 0 < length xs
length-pos [] h = absurd (h refl)
length-pos (x ∷ xs) h = omega arith

-- A token leaves less of the data, unless it begins with a `)`.
pub round-emit :
    (cs : List ℕ) {s : Split}
    → round cs ≡ emit s
    → Within s.rest cs × ((length s.rest < length cs) ⊎ Unmatched cs)
round-emit cs {s} e =
    let (splits, progress) = round-Emits cs e in
    (
      Within-trans (s.taken, splits) (unblanked-Within cs),
      elim progress [
        | inl ne ↦ inl (
            omega (
              arith,
              length-pos s.taken ne,
              length-append s.taken s.rest,
              ap length splits,
              length-Within (span is_blank cs).rest cs (unblanked-Within cs),
            ))
        | inr u ↦ inr u
      ],
    )
