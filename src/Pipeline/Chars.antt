-- ===== src/Pipeline/Chars.antt =====
-- Texts of src/dsvire/pipeline.py as lists of code points, with the operations of `str` that it
-- calls. The tables of Unicode are those of the interpreter: the record Unicode holds what
-- `unicodedata.normalize("NFKC", …)`, `casefold`, `upper`, `lower`, `isalnum`, `isalpha`, `isdigit`, the
-- digits of regular expressions and `int` take from them.
use tokito_dsvire.Prelude.{
  ℕ, zero, suc, Bool, true, false, not, ◌&&◌, ◌||◌, Option, none, some, List, [], ◌∷◌, ◌++◌, leb,
  ◌==◌, if◌then◌else◌, is_space, is_empty, strip_left, strip_right,
}

abbrev pub Text : Type 0
Text = List ℕ

pub record Unicode : Type 0 where
  pub nfkc : Text → Text
  pub casefold : Text → Text
  pub upper : Text → Text
  pub lower : Text → Text
  pub alnum : ℕ → Bool
  pub alpha : ℕ → Bool
  pub digit : ℕ → Bool
  pub decimal : ℕ → Bool
  pub value : ℕ → ℕ

abbrev pub any {ℓ} : {A : Type ℓ} → (A → Bool) → List A → Bool
any p [] = false
any p (x ∷ xs) = p x || any p xs

abbrev pub drop_first {ℓ} : {A : Type ℓ} → ℕ → List A → List A
drop_first zero xs = xs
drop_first (suc n) [] = []
drop_first (suc n) (x ∷ xs) = drop_first n xs

abbrev pub head_of {ℓ} : {A : Type ℓ} → List A → Option A
head_of [] = none
head_of (x ∷ xs) = some x

abbrev pub tail_of {ℓ} : {A : Type ℓ} → List A → List A
tail_of [] = []
tail_of (x ∷ xs) = xs

-- `s.startswith(prefix)`
unfoldable pub starts_with : Text → Text → Bool
starts_with [] s = true
starts_with (c ∷ cs) [] = false
starts_with (c ∷ cs) (d ∷ ds) = (c == d) && starts_with cs ds

-- `needle in s`
unfoldable pub within : Text → Text → Bool
unfolding starts_with
within needle [] = starts_with needle []
within needle (c ∷ cs) = starts_with needle (c ∷ cs) || within needle cs

-- `s.strip()`
unfoldable pub strip : Text → Text
unfolding strip_left strip_right
strip s = strip_right (strip_left s)

unfoldable pub drop_while : (ℕ → Bool) → Text → Text
drop_while p [] = []
drop_while p (c ∷ cs) = if p c then drop_while p cs else c ∷ cs

unfoldable pub drop_last_while : (ℕ → Bool) → Text → Text
drop_last_while p [] = []
drop_last_while p (c ∷ cs) =
    let rest = drop_last_while p cs in if is_empty rest && p c then [] else c ∷ rest

-- `s.strip(chars)`
unfoldable pub strip_chars : Text → Text → Text
unfolding drop_while drop_last_while
strip_chars chars s =
    drop_last_while (λ c. any (λ d. c == d) chars) (drop_while (λ c. any (λ d. c == d) chars) s)

abbrev pub starts_where : (ℕ → Bool) → Text → Bool
starts_where p [] = false
starts_where p (c ∷ cs) = p c

abbrev pub prepend_first : ℕ → List Text → List Text
prepend_first c [] = (c ∷ []) ∷ []
prepend_first c (s ∷ ss) = (c ∷ s) ∷ ss

-- The longest runs of characters that pass the test.
unfoldable pub runs_of : (ℕ → Bool) → Text → List Text
runs_of p [] = []
runs_of p (c ∷ cs) =
    let rest = runs_of p cs in
    if p c then (if starts_where p cs then prepend_first c rest else (c ∷ []) ∷ rest) else rest

-- `s.split()`
unfoldable pub split_words : Text → List Text
unfolding runs_of
split_words s = runs_of (λ c. not (is_space c)) s

-- `separator.join(words)`
unfoldable pub join : ℕ → List Text → Text
join separator [] = []
join separator (w ∷ []) = w
join separator (w ∷ v ∷ ws) = w ++ (separator ∷ join separator (v ∷ ws))

-- The characters that end a line for `str.splitlines`.
abbrev pub is_break : ℕ → Bool
is_break c =
    ((leb 10 c && leb c 13) || (leb 28 c && leb c 30))
    || ((c == 133) || ((c == 8_232) || (c == 8_233)))

abbrev pub newline : ℕ
newline = 10

abbrev pub space : ℕ
space = 32

-- `s.splitlines()`
unfoldable pub split_lines : Text → List Text
split_lines [] = []
split_lines (c ∷ cs) =
    let rest = split_lines cs in
    if is_break c
    then (if (c == 13) && starts_where (λ d. d == newline) cs then rest else [] ∷ rest)
    else prepend_first c rest

-- `s.replace(old, new)` of one character.
unfoldable pub replace : ℕ → ℕ → Text → Text
replace old new [] = []
replace old new (c ∷ cs) = (if c == old then new else c) ∷ replace old new cs
