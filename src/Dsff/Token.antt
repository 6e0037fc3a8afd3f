-- ===== src/Dsff/Token.antt =====
-- The tokens of a PDF content stream: `_tokenize` of src/dsvire/dsff.py. The data that is left
-- stands for the index into it.
use tokito_dsvire.Prelude.{
  ℕ, zero, suc, Bool, true, false, ◌&&◌, ◌||◌, not, Option, none, some, List, [], ◌∷◌, ◌++◌, leb,
  ◌==◌, if◌then◌else◌, is_digit, map_option,
}

-- A prefix that is taken, and what is left.
pub record Split : Type 0 where
  pub taken : List ℕ
  pub rest : List ℕ

abbrev pub keep : ℕ → Split → Split
keep c s = record s { taken = c ∷ s.taken }

-- The longest prefix of bytes that pass a test.
unfoldable pub span : (ℕ → Bool) → List ℕ → Split
span p [] = record { taken = []; rest = [] }
span p (c ∷ cs) = if p c then keep c (span p cs) else record { taken = []; rest = c ∷ cs }

abbrev pub is_blank : ℕ → Bool
is_blank c = (c == b' ') || ((c == 9) || ((c == 13) || (c == 10)))

abbrev pub is_bracket : ℕ → Bool
is_bracket c = (c == b'[') || (c == b']')

-- [A-Za-z0-9._-]
abbrev pub is_name_char : ℕ → Bool
is_name_char c =
    (is_digit c || ((leb b'A' c && leb c b'Z') || (leb b'a' c && leb c b'z')))
    || ((c == b'.') || ((c == b'_') || (c == b'-')))

-- The bytes that end a word.
abbrev pub is_delimiter : ℕ → Bool
is_delimiter c =
    is_blank c || (((c == b'/') || (c == b'%')) || (is_bracket c || ((c == b'(') || (c == b')'))))

-- From a `%` to past the next newline, or to the end.
unfoldable pub after_newline : List ℕ → List ℕ
after_newline [] = []
after_newline (c ∷ cs) = if c == 10 then cs else after_newline cs

-- The depth of parentheses after a byte.
abbrev pub depth_after : ℕ → ℕ → ℕ
depth_after c d = if c == b'(' then suc (suc d) else if c == b')' then d else suc d

-- The rest of a string at a depth of parentheses; a backslash escapes the byte after it.
unfoldable pub literal : ℕ → List ℕ → Split
literal zero cs = record { taken = []; rest = cs }
literal (suc d) [] = record { taken = []; rest = [] }
literal (suc d) (c ∷ []) = record { taken = c ∷ []; rest = [] }
literal (suc d) (c ∷ e ∷ cs) = elim (c == 92) [
  | true ↦ keep c (keep e (literal (suc d) cs))
  | false ↦ keep c (literal (depth_after c d) (e ∷ cs))
]

-- `\d+\.\d*` or `\d+`, after its digits.
unfoldable pub fraction : List ℕ → List ℕ → Split
unfolding span
fraction ds [] = record { taken = ds; rest = [] }
fraction ds (c ∷ cs) =
    if c == b'.'
    then record { taken = ds ++ c ∷ (span is_digit cs).taken; rest = (span is_digit cs).rest }
    else record { taken = ds; rest = c ∷ cs }

-- `\.\d+`, after the point.
unfoldable pub after_point : List ℕ → List ℕ → Option Split
after_point [] rest = none
after_point (d ∷ ds) rest = some (record { taken = b'.' ∷ d ∷ ds; rest = rest })

unfoldable pub unsigned : List ℕ → Option Split
unfolding span fraction after_point
unsigned [] = none
unsigned (c ∷ cs) =
    if is_digit c
    then some (fraction (c ∷ (span is_digit cs).taken) (span is_digit cs).rest)
    else if c == b'.'
    then after_point (span is_digit cs).taken (span is_digit cs).rest
    else none

-- `[-+]?(?:\d+\.\d*|\.\d+|\d+)`
unfoldable pub number : List ℕ → Option Split
unfolding unsigned
number [] = none
number (c ∷ cs) =
    if (c == b'-') || (c == b'+') then map_option (keep c) (unsigned cs) else unsigned (c ∷ cs)

-- What one round of the loop does, after the blanks.
pub data Round : Type 0 where
  stop : Round
  comment : List ℕ → Round
  emit : Split → Round
  invalid_name : Round

unfoldable pub name : List ℕ → List ℕ → Round
name [] rest = invalid_name
name (c ∷ cs) rest = emit (record { taken = b'/' ∷ c ∷ cs; rest = rest })

unfoldable pub number_or_word : Option Split → List ℕ → Round
unfolding span
number_or_word (some s) cs = emit s
number_or_word none cs = emit (span (λ c. not (is_delimiter c)) cs)

unfoldable pub round_at : List ℕ → Round
unfolding after_newline name literal number_or_word number span
round_at [] = stop
round_at (c ∷ cs) =
    if c == b'%'
    then comment (after_newline cs)
    else if c == b'/'
    then name (span is_name_char cs).taken (span is_name_char cs).rest
    else if is_bracket c
    then emit (record { taken = c ∷ []; rest = cs })
    else if c == b'('
    then emit (keep c (literal 1 cs))
    else number_or_word (number (c ∷ cs)) (c ∷ cs)

unfoldable pub round : List ℕ → Round
unfolding round_at span
round cs = round_at (span is_blank cs).rest

-- `unfinished` is a run that has used up its rounds.
pub data Tokens : Type 0 where
  unfinished : Tokens
  raised : Tokens
  finished : List (List ℕ) → Tokens

abbrev pub emitted : List ℕ → Tokens → Tokens
emitted t unfinished = unfinished
emitted t raised = raised
emitted t (finished ts) = finished (t ∷ ts)

unfoldable pub tokenize : ℕ → List ℕ → Tokens
unfolding round
tokenize zero cs = unfinished
tokenize (suc n) cs = elim (round cs) [
  | stop ↦ finished []
  | invalid_name ↦ raised
  | comment rest ↦ tokenize n rest
  | emit s ↦ emitted s.taken (tokenize n s.rest)
]
