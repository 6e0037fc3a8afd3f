-- ===== src/Dsff/Splits.antt =====
-- How far the matches of `_tokenize` in src/dsvire/dsff.py reach.
use mathlib.Core.List.{append_assoc}
use tokito_dsvire.Prelude.{
  ℕ, zero, suc, Bool, ◌||◌, Option, none, some, List, [], ◌∷◌, ◌++◌, ◌≡◌, ◌≢◌, refl, ap, ◌∙◌, subst,
  arith, inl, inr, ◌==◌, is_digit, map_option, Bool-cases,
}
use tokito_dsvire.Dsff.Token.{
  Split, keep, span, after_newline, depth_after, literal, fraction, after_point, unsigned, number,
}

-- A split puts the data in two.
abbrev pub Splits : Split → List ℕ → Type 0
Splits s cs = (s.taken ++ s.rest) ≡ cs

pub span-Splits : (p : ℕ → Bool) (cs : List ℕ) → Splits (span p cs) cs
unfolding span
span-Splits p [] = refl
span-Splits p (c ∷ cs) = ground (arith, span-Splits p cs)

pub literal-Splits : (d : ℕ) (cs : List ℕ) → Splits (literal d cs) cs
unfolding literal
literal-Splits zero cs = refl
literal-Splits (suc d) [] = refl
literal-Splits (suc d) (c ∷ []) = refl
literal-Splits (suc d) (c ∷ e ∷ cs) = elim (Bool-cases (c == 92)) [
  | inl t ↦ rw (t, literal) (ap (λ x. c ∷ e ∷ x) (literal-Splits (suc d) cs))
  | inr t ↦ rw (t, literal) (ap (λ x. c ∷ x) (literal-Splits (depth_after c d) (e ∷ cs)))
]

-- A suffix of the data, with what stands before it.
abbrev pub Within : List ℕ → List ℕ → Type 0
Within rest cs = (before : List ℕ) × ((before ++ rest) ≡ cs)

pub after_newline-Within : (cs : List ℕ) → Within (after_newline cs) cs
unfolding after_newline
after_newline-Within [] = ([], refl)
after_newline-Within (c ∷ cs) = elim (Bool-cases (c == 10)) [
  | inl t ↦ rw t (c ∷ [], refl)
  | inr t ↦ let (before, e) = after_newline-Within cs in rw t (c ∷ before, ap (λ x. c ∷ x) e)
]

pub cons-ne : (c : ℕ) (cs : List ℕ) → (c ∷ cs) ≢ []
cons-ne c cs e = cc

-- A number takes at least one byte of the data.
abbrev pub Takes : Split → List ℕ → Type 0
Takes s cs = Splits s cs × (s.taken ≢ [])

pub fraction-Splits : (ds rest : List ℕ) → Splits (fraction ds rest) (ds ++ rest)
unfolding fraction
fraction-Splits ds [] = refl
fraction-Splits ds (c ∷ cs) = elim (Bool-cases (c == b'.')) [
  | inl t ↦ rw t (append_assoc ds _ _ ∙ ap (λ x. ds ++ c ∷ x) (span-Splits is_digit cs))
  | inr t ↦ rw t refl
]

pub fraction-ne : (c : ℕ) (ds rest : List ℕ) → (fraction (c ∷ ds) rest).taken ≢ []
unfolding fraction
fraction-ne c ds [] e = cc
fraction-ne c ds (x ∷ cs) e = ground arith

pub after_point-Takes :
    (ds rest : List ℕ) {s : Split} → after_point ds rest ≡ some s → Takes s (b'.' ∷ (ds ++ rest))
unfolding after_point
after_point-Takes [] rest e = cc
after_point-Takes (d ∷ ds) rest {s} e =
    subst (λ o. Takes o (b'.' ∷ d ∷ (ds ++ rest)))
      {x = record { taken = b'.' ∷ d ∷ ds; rest = rest }} (ground arith) (refl, cons-ne _ _)

pub unsigned-Takes : (cs : List ℕ) {s : Split} → unsigned cs ≡ some s → Takes s cs
unfolding unsigned
unsigned-Takes [] e = cc
unsigned-Takes (c ∷ cs) {s} e = elim (Bool-cases (is_digit c)) [
  | inl t ↦
      subst (λ o. Takes o (c ∷ cs)) (ground arith)
        (
          fraction-Splits (c ∷ (span is_digit cs).taken) (span is_digit cs).rest
              ∙ ap (λ x. c ∷ x) (span-Splits is_digit cs),
          fraction-ne c (span is_digit cs).taken (span is_digit cs).rest,
        )
  | inr t ↦ elim (Bool-cases (c == b'.')) [
    | inl u ↦
        subst (Takes s) (ground (arith, span-Splits is_digit cs))
          (after_point-Takes (span is_digit cs).taken (span is_digit cs).rest (ground arith))
    | inr u ↦ ground arith
  ]
]

pub number-Takes : (cs : List ℕ) {s : Split} → number cs ≡ some s → Takes s cs
unfolding number
number-Takes [] e = cc
number-Takes (c ∷ cs) {s} e = elim (Bool-cases ((c == b'-') || (c == b'+'))) [
  | inl t ↦ signed (unsigned cs) refl (ground arith)
  | inr t ↦ unsigned-Takes (c ∷ cs) (ground arith)
]
  where
    signed :
        (o : Option Split) → unsigned cs ≡ o → map_option (keep c) o ≡ some s → Takes s (c ∷ cs)
    signed none q h = cc
    signed (some u) q h =
        subst (λ o. Takes o (c ∷ cs)) {x = keep c u} (ground arith)
          (ap (λ x. c ∷ x) (unsigned-Takes cs q).0, cons-ne _ _)
