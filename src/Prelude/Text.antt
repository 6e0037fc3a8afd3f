-- ===== src/Prelude/Text.antt =====
-- Texts as their code points, for the tests that the program makes on characters.
use Prim.Native.Nat.{ℕ}
use Prim.Native.Char.{code}
use Prim.Native.String.{String}
use native.Mathlib.Omega.{arith}
use mathlib.Core.Path.{◌≡◌, refl}
use mathlib.Core.Bool.{Bool, true, false, ◌&&◌, ◌||◌}
use mathlib.Core.List.{List, [], ◌∷◌}
use tokito_dsvire.Prelude.Tests.{leb, ◌==◌, if◌then◌else◌}
use tokito_dsvire.Prelude.Lists.{length}

abbrev pub codes : String → List ℕ
codes String.[] = []
codes (String.◌∷◌ c s) = code c ∷ codes s

-- Python's `len(text)` and SQL's `length(text)`.
abbrev pub text_length : String → ℕ
text_length s = length (codes s)

abbrev pub every {ℓ} : {A : Type ℓ} → (A → Bool) → List A → Bool
every p [] = true
every p (x ∷ xs) = p x && every p xs

abbrev pub is_digit : ℕ → Bool
is_digit c = leb b'0' c && leb c b'9'

abbrev pub is_lower_hex : ℕ → Bool
is_lower_hex c = is_digit c || (leb b'a' c && leb c b'f')

-- The pattern [0-9a-f]{n}, over the whole text.
abbrev pub lower_hex : ℕ → String → Bool
lower_hex n s = every is_lower_hex (codes s) && (text_length s == n)

abbrev pub is_empty {ℓ} : {A : Type ℓ} → List A → Bool
is_empty [] = true
is_empty (x ∷ xs) = false

-- The characters that `str.strip` takes away.
abbrev pub is_space : ℕ → Bool
is_space c =
    ((leb 9 c && leb c 13) || (leb 28 c && leb c 32))
    || (((c == 133) || (c == 160)) || ((c == 5_760) || (leb 8_192 c && leb c 8_202)))
    || (((c == 8_232) || (c == 8_233)) || ((c == 8_239) || ((c == 8_287) || (c == 12_288))))

unfoldable pub strip_left : List ℕ → List ℕ
strip_left [] = []
strip_left (c ∷ cs) = if is_space c then strip_left cs else c ∷ cs

unfoldable pub strip_right : List ℕ → List ℕ
strip_right [] = []
strip_right (c ∷ cs) =
    let rest = strip_right cs in if is_empty rest && is_space c then [] else c ∷ rest

unfoldable pub same_text : List ℕ → List ℕ → Bool
same_text [] [] = true
same_text [] (d ∷ ds) = false
same_text (c ∷ cs) [] = false
same_text (c ∷ cs) (d ∷ ds) = (c == d) && same_text cs ds

pub same_text-eq : (a b : List ℕ) → same_text a b ≡ true → a ≡ b
unfolding same_text
same_text-eq [] [] h = refl
same_text-eq [] (d ∷ ds) h = cc
same_text-eq (c ∷ cs) [] h = cc
same_text-eq (c ∷ cs) (d ∷ ds) h = ground (arith, same_text-eq cs ds)

pub same_text_refl : (a : List ℕ) → same_text a a ≡ true
unfolding same_text
same_text_refl [] = refl
same_text_refl (c ∷ cs) = ground (arith, same_text_refl cs)
