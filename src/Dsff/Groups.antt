-- ===== src/Dsff/Groups.antt =====
-- Graphics states in a content stream: what `q` saves and `Q` restores in src/dsvire/dsff.py.
use tokito_dsvire.Prelude.{
  false, Option, List, [], ◌∷◌, ◌++◌, ◌≡◌, refl, sym, ap, ◌∙◌, inl, inr, Bool-cases, Result, ok,
  err, ◌>>=◌, find, codes, Ensures, Ensures-ok, Ensures-bind,
}
use mathlib.Core.List.{append_assoc, append-nil}
use tokito_dsvire.Dsff.Content.{
  Token, same_bytes, Refused, unbalanced, Image, Figure, Machine, operands, operand_name, figure_of,
  past, restore, draw, concatenate, operator, run,
}

-- Neither `q` nor `Q`.
abbrev pub IsPlain : Token → Type 0
IsPlain t = (same_bytes t (codes "q") ≡ false) × (same_bytes t (codes "Q") ≡ false)

-- Every `q` has its `Q`.
pub data Balanced : List Token → Type 0 where
  no_tokens : Balanced []
  plain : {t : Token} {ts : List Token} → IsPlain t → Balanced ts → Balanced (t ∷ ts)
  group :
      {inner rest : List Token}
      → Balanced inner
      → Balanced rest
      → Balanced (codes "q" ∷ (inner ++ (codes "Q" ∷ rest)))

module _ {M B : Type 0} (multiply : M → M → M) (read : List Token → Option M) (place : M → Option B)
    (images : List Image) where
  -- The saved states are those of the machine `m`, and the figures of `m` stand.
  abbrev Saves : Machine M B → Machine M B → Type 0
  Saves m m' = (m'.below ≡ m.below) × ((more : List (Figure B)) × (m'.figures ≡ m.figures ++ more))

  Saves-refl : (m : Machine M B) → Saves m m
  Saves-refl m = (refl, ([], sym (append-nil m.figures)))

  Saves-trans : (a b c : Machine M B) → Saves a b → Saves b c → Saves a c
  Saves-trans a b c s t = (
    t.0 ∙ s.0,
    (s.1.0 ++ t.1.0, t.1.1 ∙ ap (λ x. x ++ t.1.0) s.1.1 ∙ append_assoc a.figures s.1.0 t.1.0),
  )

  plain-Saves :
      (t : Token) (m : Machine M B)
      → IsPlain t
      → Ensures (Saves m) (operator multiply read place images t m)
  unfolding operator draw concatenate
  plain-Saves t m p = rw p.0 (
      rw p.1 (elim (Bool-cases (same_bytes t (codes "cm"))) [
        | inl e ↦ rw e (
            Ensures-bind (Saves m) (operands read m.behind)
              (λ delta. ok (record m { top = multiply m.top delta })) (λ delta q. Saves-refl m))
        | inr e ↦ rw e (elim (Bool-cases (same_bytes t (codes "Do"))) [
          | inl f ↦ rw f (
              Ensures-bind (Saves m) (operand_name m.behind) _ (λ name q.
                Ensures-bind (Saves m)
                  (figure_of place m.top (find (λ (i : Image). same_bytes i.name name) images))
                  (λ drawn. ok (record m { figures = m.figures ++ drawn }))
                  (λ drawn r. (refl, (drawn, refl)))))
          | inr f ↦ rw f (Saves-refl m)
        ])
      ]))

  run-append :
      (ts us : List Token) (m : Machine M B)
      → run multiply read place images (ts ++ us) m
        ≡ (run multiply read place images ts m >>= λ m'. run multiply read place images us m')
  unfolding run
  run-append [] us m = refl
  run-append (t ∷ ts) us m =
      pick (operator multiply read place images t m)
        (λ m'. run-append ts us (past multiply read place images t m'))
    where
      pick :
          (r : Result Refused (Machine M B))
          → ((m' : Machine M B)
              → run multiply read place images (ts ++ us) (past multiply read place images t m') ≡ (
                  run multiply read place images ts (past multiply read place images t m') >>= λ x.
                  run multiply read place images us x))
          → (r >>= λ m'.
              run multiply read place images (ts ++ us) (past multiply read place images t m'))
            ≡ ((r >>= λ m'.
                  run multiply read place images ts (past multiply read place images t m'))
                >>= λ x. run multiply read place images us x)
      pick (ok m') ih = ih m'
      pick (err e) ih = refl

  nothing_saved :
      (rest : List Token) (m : Machine M B)
      → m.below ≡ []
      → run multiply read place images (codes "Q" ∷ rest) m ≡ err unbalanced
  unfolding run operator restore same_bytes
  nothing_saved rest m e = rw e refl

  restored :
      (rest : List Token) (m : Machine M B) (x : M) (xs : List M)
      → m.below ≡ x ∷ xs
      → run multiply read place images (codes "Q" ∷ rest) m
        ≡ run multiply read place images rest
            (past multiply read place images (codes "Q") (record m { top = x; below = xs }))
  unfolding run operator restore same_bytes
  restored rest m x xs e = rw e refl

  extend :
      (m m' : Machine M B) (r : Result Refused (Machine M B))
      → Saves m m'
      → Ensures (Saves m') r
      → Ensures (Saves m) r
  extend m m' (ok z) h k = Saves-trans m m' z h k
  extend m m' (err e) h k = tt

  -- The machine after a `q`.
  abbrev saved : Machine M B → Machine M B
  saved m = past multiply read place images (codes "q") (record m { below = m.top ∷ m.below })

  -- The machine after the `Q` that goes with the `q` at `m`.
  abbrev closed : Machine M B → Machine M B → Machine M B
  closed m m2 =
      past multiply read place images (codes "Q") (record m2 { top = m.top; below = m.below })

  grouped :
      (inner rest : List Token) (m : Machine M B)
      → run multiply read place images (codes "q" ∷ (inner ++ (codes "Q" ∷ rest))) m ≡ (
          run multiply read place images inner (saved m) >>= λ m'.
          run multiply read place images (codes "Q" ∷ rest) m')
  grouped inner rest m =
      unfold run operator same_bytes in run-append inner (codes "Q" ∷ rest) (saved m)

  -- A run over balanced tokens keeps the saved states, and adds to the figures.
  run-Saves :
      {ts : List Token}
      → Balanced ts
      → (m : Machine M B) → Ensures (Saves m) (run multiply read place images ts m)
  unfolding run
  run-Saves no_tokens m = Saves-refl m
  run-Saves (plain {t} {ts} p b) m =
      Ensures-bind (Saves m) (operator multiply read place images t m) _ (λ m' q.
        extend m (past multiply read place images t m')
          (run multiply read place images ts (past multiply read place images t m'))
          (Ensures-ok (Saves m) _ (plain-Saves t m p) q)
          (run-Saves b (past multiply read place images t m')))
  run-Saves (group {inner} {rest} b c) m = rw (grouped inner rest m) (
      Ensures-bind (Saves m) (run multiply read place images inner (saved m)) _ (λ m2 q.
        let s = Ensures-ok (Saves (saved m)) _ (run-Saves b (saved m)) q in
        rw (restored rest m2 m.top m.below s.0) (
          extend m (closed m m2) (run multiply read place images rest (closed m m2)) (refl, s.1)
            (run-Saves c (closed m m2)))))

  -- A group of balanced tokens between `q` and `Q` leaves the current matrix and the saved ones as
  -- they were before it, whatever it concatenates, and only adds to the figures.
  pub group_restores :
      {inner : List Token} (m : Machine M B) {m' : Machine M B}
      → Balanced inner
      → run multiply read place images (codes "q" ∷ (inner ++ (codes "Q" ∷ []))) m ≡ ok m'
      → (m'.top ≡ m.top)
        × (m'.below ≡ m.below)
        × ((more : List (Figure B)) × (m'.figures ≡ m.figures ++ more))
  unfolding run
  group_restores {inner} m {m'} b e =
      let r =
        Ensures-ok (λ (x : Machine M B). (x.top ≡ m.top) × Saves m x)
          (run multiply read place images (codes "q" ∷ (inner ++ (codes "Q" ∷ []))) m) {a = m'}
          (rw (grouped inner [] m) (
            Ensures-bind (λ x. (x.top ≡ m.top) × Saves m x)
              (run multiply read place images inner (saved m)) _
              (λ m2 q.
                let s = Ensures-ok (Saves (saved m)) _ (run-Saves b (saved m)) q in
                rw (restored [] m2 m.top m.below s.0) (refl, (refl, s.1)))))
          e in
      (r.0, r.1.0, r.1.1)

  -- A `Q` for which nothing is saved is refused, wherever it stands after balanced tokens.
  pub unbalanced_refused :
      {ts : List Token} (rest : List Token) (m : Machine M B) {m' : Machine M B}
      → Balanced ts
      → m.below ≡ []
      → run multiply read place images ts m ≡ ok m'
      → run multiply read place images (ts ++ (codes "Q" ∷ rest)) m ≡ err unbalanced
  unbalanced_refused {ts} rest m {m'} b base e =
      let s = Ensures-ok (Saves m) _ (run-Saves b m) e in
      run-append ts (codes "Q" ∷ rest) m ∙ rw e (nothing_saved rest m' (s.0 ∙ base))
