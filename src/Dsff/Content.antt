-- ===== src/Dsff/Content.antt =====
-- The content stream machine of `extract_xobjects` in src/dsvire/dsff.py, over the tokens of one
-- page. Matrices, and the reading of six operands as a matrix, are parameters: Python's floats.
use tokito_dsvire.Prelude.{
  ℕ, Bool, true, false, ◌&&◌, Option, none, some, List, [], ◌∷◌, ◌++◌, ltb, ◌==◌, if◌then◌else◌,
  Result, ok, err, guard, ◌>>=◌, ◌>>◌, find, every, codes,
}

abbrev pub Token : Type 0
Token = List ℕ

unfoldable pub same_bytes : Token → Token → Bool
same_bytes [] [] = true
same_bytes [] (d ∷ ds) = false
same_bytes (c ∷ cs) [] = false
same_bytes (c ∷ cs) (d ∷ ds) = (c == d) && same_bytes cs ds

-- The DsffError of each branch.
pub data Refused : Type 0 where
  unbalanced missing_operands not_numbers missing_name not_a_name undecodable degenerate : Refused

pub record Image : Type 0 where
  pub name : Token
  pub width : ℕ
  pub height : ℕ

pub record Figure (B : Type 0) : Type 0 where
  pub name : Token
  pub bbox : B
  pub width : ℕ
  pub height : ℕ

-- The loop's state: the top of `stack`, what is below it, the tokens that are behind, the last of
-- them first, and the figures.
pub record Machine (M B : Type 0) : Type 0 where
  pub top : M
  pub below : List M
  pub behind : List Token
  pub figures : List (Figure B)

-- `read` is float() on the six tokens before `cm`, as a matrix.
unfoldable pub operands : {M : Type 0} → (List Token → Option M) → List Token → Result Refused M
operands read (f ∷ e ∷ d ∷ c ∷ b ∷ a ∷ behind) = elim (read (a ∷ b ∷ c ∷ d ∷ e ∷ f ∷ [])) [
  | some m ↦ ok m
  | none ↦ err not_numbers
]
operands read _ = err missing_operands

unfoldable pub operand_name : List Token → Result Refused Token
operand_name [] = err missing_name
operand_name ([] ∷ behind) = err not_a_name
operand_name ((c ∷ cs) ∷ behind) = do
  guard (c == b'/') not_a_name
  guard (every (λ x. ltb x 128) cs) undecodable
  ok cs

-- `place` is `_unit_square_bbox` on the page.
unfoldable pub figure_of :
    {M B : Type 0} → (M → Option B) → M → Option Image → Result Refused (List (Figure B))
figure_of place m none = ok []
figure_of place m (some i) = elim (place m) [
  | some box ↦ ok (record { name = i.name; bbox = box; width = i.width; height = i.height } ∷ [])
  | none ↦ err degenerate
]

module _ {M B : Type 0} (multiply : M → M → M) (read : List Token → Option M) (place : M → Option B)
    (images : List Image) where
  abbrev pub past : Token → Machine M B → Machine M B
  past t m = record m { behind = t ∷ m.behind }

  unfoldable pub restore : List M → Machine M B → Result Refused (Machine M B)
  restore [] m = err unbalanced
  restore (x ∷ xs) m = ok (record m { top = x; below = xs })

  unfoldable pub draw : Machine M B → Result Refused (Machine M B)
  unfolding figure_of operand_name same_bytes
  draw m = do
    name ← operand_name m.behind
    drawn ← figure_of place m.top (find (λ (i : Image). same_bytes i.name name) images)
    ok (record m { figures = m.figures ++ drawn })

  unfoldable pub concatenate : Machine M B → Result Refused (Machine M B)
  unfolding operands
  concatenate m = do delta ← operands read m.behind; ok (record m { top = multiply m.top delta })

  -- One round of the loop.
  unfoldable pub operator : Token → Machine M B → Result Refused (Machine M B)
  unfolding restore draw concatenate same_bytes
  operator t m =
      if same_bytes t (codes "q")
      then ok (record m { below = m.top ∷ m.below })
      else if same_bytes t (codes "Q")
      then restore m.below m
      else if same_bytes t (codes "cm")
      then concatenate m
      else if same_bytes t (codes "Do")
      then draw m
      else ok m

  unfoldable pub run : List Token → Machine M B → Result Refused (Machine M B)
  unfolding operator
  run [] m = ok m
  run (t ∷ ts) m = do m' ← operator t m; run ts (past t m')
