-- ===== src/Tests/Concatenations.antt =====
-- A run of the content stream machine of src/dsvire/dsff.py over two `cm`.
use tokito_dsvire.Prelude.{
  ℕ, ◌-◌, String, Option, none, some, List, [], ◌∷◌, ◌++◌, ◌≡◌, refl, Result, ok, err, codes, All,
}
use tokito_dsvire.Dsff.Affine.{multiply, apply, sum, product, Affine, Point}
use tokito_dsvire.Dsff.Content.{
  Token, same_bytes, Refused, Machine, operands, concatenate, operator, run,
}
use tokito_dsvire.Dsff.Groups.{IsPlain}
use tokito_dsvire.Dsff.Concatenations.{Concats, apply_each, run-Concats}

-- Two concatenations of matrices whose entries are single digits.
abbrev digit : Token → ℕ
digit [] = 0
digit (c ∷ cs) = c - 48

abbrev digits : List Token → Option (Affine ℕ)
digits (a ∷ b ∷ c ∷ d ∷ e ∷ f ∷ _) =
    some (record { a = digit a; b = digit b; c = digit c; d = digit d; e = digit e; f = digit f })
digits _ = none

abbrev six : String → String → String → String → List Token
six s e f op = codes s ∷ codes "0" ∷ codes "0" ∷ codes s ∷ codes e ∷ codes f ∷ codes op ∷ []

abbrev twice : List Token
twice = six "2" "0" "0" "cm" ++ six "1" "5" "0" "cm"

abbrev nowhere : Affine ℕ → Option ℕ
nowhere m = none

abbrev unmoved : Machine (Affine ℕ) ℕ
unmoved = record {
  top = record { a = 1; b = 0; c = 0; d = 1; e = 0; f = 0 };
  below = [];
  behind = [];
  figures = [];
}

abbrev machine_in : Result Refused (Machine (Affine ℕ) ℕ) → Machine (Affine ℕ) ℕ
machine_in (ok m) = m
machine_in (err e) = unmoved

abbrev moved : Machine (Affine ℕ) ℕ
moved = machine_in (run (multiply sum product) digits nowhere [] twice unmoved)

moves : run (multiply sum product) digits nowhere [] twice unmoved ≡ ok moved
unfolding run operator concatenate operands same_bytes multiply
moves = refl

twice-IsPlain : All IsPlain twice
unfolding same_bytes
twice-IsPlain = (
  (refl, refl),
  (
    (refl, refl),
    (
      (refl, refl),
      (
        (refl, refl),
        (
          (refl, refl),
          (
            (refl, refl),
            (
              (refl, refl),
              (
                (refl, refl),
                (
                  (refl, refl),
                  (
                    (refl, refl),
                    ((refl, refl), ((refl, refl), ((refl, refl), ((refl, refl), tt)))),
                  ),
                ),
              ),
            ),
          ),
        ),
      ),
    ),
  ),
)

run-Concats_example :
    (ds : List (Affine ℕ)) × Concats digits [] twice ds
    × ((p : Point ℕ)
        → apply sum product moved.top p ≡ apply_each ds (apply sum product unmoved.top p))
run-Concats_example = run-Concats digits nowhere [] twice unmoved twice-IsPlain moves
