-- ===== src/Dsff/Concatenations.antt =====
-- The matrices that `cm` concatenates in a content stream: `extract_xobjects` of src/dsvire/dsff.py.
use tokito_dsvire.Prelude.{
  ℕ, false, true, Option, List, [], ◌∷◌, ◌++◌, ◌≡◌, refl, sym, ap, ◌∙◌, subst, inl, inr, Bool-cases,
  ok, find, codes, bind-ok, ok_injective, ◌⊎◌, Ensures, Ensures-ok, Ensures-bind, All,
}
use tokito_dsvire.Dsff.Affine.{Affine, Point, multiply, apply, sum, product, apply-multiply}
use tokito_dsvire.Dsff.Content.{
  Token, same_bytes, Image, Machine, operands, operand_name, figure_of, past, draw, concatenate,
  operator, run,
}
use tokito_dsvire.Dsff.Groups.{IsPlain}

-- The operands of the `cm` of a content stream, in its order. `behind` are the tokens before it, the
-- last one first.
pub data Concats {M : Type 0} (read : List Token → Option M)
    : List Token → List Token → List M → Type 0 where
  at_end : {behind : List Token} → Concats read behind [] []
  no_cm :
      {behind ts : List Token} {t : Token} {ds : List M}
      → same_bytes t (codes "cm") ≡ false
      → Concats read (t ∷ behind) ts ds
      → Concats read behind (t ∷ ts) ds
  cm :
      {behind ts : List Token} {t : Token} {d : M} {ds : List M}
      → same_bytes t (codes "cm") ≡ true
      → operands read behind ≡ ok d
      → Concats read (t ∷ behind) ts ds
      → Concats read behind (t ∷ ts) (d ∷ ds)

-- A point that is mapped by some matrices, the first one first.
abbrev pub apply_each : List (Affine ℕ) → Point ℕ → Point ℕ
apply_each [] p = p
apply_each (d ∷ ds) p = apply_each ds (apply sum product d p)

module _ {B : Type 0} (read : List Token → Option (Affine ℕ)) (place : Affine ℕ → Option B)
    (images : List Image) where
  -- What one round does to the current matrix.
  abbrev Moves : Token → Machine (Affine ℕ) B → Machine (Affine ℕ) B → Type 0
  Moves t m m' =
      (m'.behind ≡ m.behind)
      × (((same_bytes t (codes "cm") ≡ false) × (m'.top ≡ m.top))
          ⊎ ((same_bytes t (codes "cm") ≡ true)
              × ((d : Affine ℕ) × (operands read m.behind ≡ ok d)
                  × (m'.top ≡ multiply sum product m.top d))))

  operator-Moves :
      (t : Token) (m : Machine (Affine ℕ) B)
      → IsPlain t
      → Ensures (Moves t m) (operator (multiply sum product) read place images t m)
  unfolding operator draw concatenate
  operator-Moves t m p = rw p.0 (
      rw p.1 (elim (Bool-cases (same_bytes t (codes "cm"))) [
        | inl e ↦ rw e (
            Ensures-bind (Moves t m) (operands read m.behind)
              (λ delta. ok (record m { top = multiply sum product m.top delta }))
              (λ delta q. (refl, inr (e, (delta, q, refl)))))
        | inr e ↦ rw e (elim (Bool-cases (same_bytes t (codes "Do"))) [
          | inl f ↦ rw f (
              Ensures-bind (Moves t m) (operand_name m.behind) _ (λ name q.
                Ensures-bind (Moves t m)
                  (figure_of place m.top (find (λ (i : Image). same_bytes i.name name) images))
                  (λ drawn. ok (record m { figures = m.figures ++ drawn }))
                  (λ drawn r. (refl, inl (e, refl)))))
          | inr f ↦ rw f (refl, inl (e, refl))
        ])
      ]))

  -- Where no state is saved or restored, the matrix at the end of a stream maps a point by the
  -- matrix at its begin first, and then by the operands of `cm` in the order of the stream.
  pub run-Concats :
      (ts : List Token) (m : Machine (Affine ℕ) B) {m' : Machine (Affine ℕ) B}
      → All IsPlain ts
      → run (multiply sum product) read place images ts m ≡ ok m'
      → (ds : List (Affine ℕ)) × Concats read m.behind ts ds
        × ((p : Point ℕ) → apply sum product m'.top p ≡ apply_each ds (apply sum product m.top p))
  unfolding run
  run-Concats [] m h e = (
    [],
    at_end,
    λ p. ap (λ (x : Machine (Affine ℕ) B). apply sum product x.top p) (sym (ok_injective e)),
  )
  run-Concats (t ∷ ts) m h e =
      let (m1, one, rest) = bind-ok (operator (multiply sum product) read place images t m) _ e in
      let (behind, moves) = Ensures-ok (Moves t m) _ (operator-Moves t m h.0) one in
      let (ds, concats, maps) =
        run-Concats ts (past (multiply sum product) read place images t m1) h.1 rest in
      let concats' = subst (λ b. Concats read (t ∷ b) ts ds) behind concats in
      elim moves [
        | inl (other, top) ↦ (
          ds,
          no_cm other concats',
          λ p. maps p ∙ ap (λ x. apply_each ds (apply sum product x p)) top,
        )
        | inr (is_cm, (d, q, top)) ↦ (
          d ∷ ds,
          cm is_cm q concats',
          λ p.
              maps p
              ∙ ap (λ x. apply_each ds (apply sum product x p)) top
              ∙ ap (apply_each ds) (apply-multiply m.top d p),
        )
      ]
