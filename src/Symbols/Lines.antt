-- ===== src/Symbols/Lines.antt =====
-- The row that a line of a pin table shows: `_ROW` and `_HEADER` of src/dsvire/symbol_extract.py.
-- The regular expression of a row takes the first three words of a line, since their characters are
-- no spaces.
use tokito_dsvire.Prelude.{
  ℕ, suc, Bool, true, false, not, ◌&&◌, ◌||◌, Option, none, some, List, [], ◌∷◌, leb, ◌==◌,
  if◌then◌else◌, is_digit, is_empty, is_some, every, codes, map_option,
}
use tokito_dsvire.Pipeline.Chars.{Text, Unicode, any, split_words}
use tokito_dsvire.Pipeline.Phrases.{normalise_text}
use tokito_dsvire.Symbols.Electrical.{is_capital}

-- What the regular expression of a row finds.
pub record TableRow : Type 0 where
  pub number : Text
  pub name : Text
  pub kind : Text

-- `pin`, `name`, `type` or `description` in a folded line. Where case does not count, the dotless
-- letter 305 is an `i` too.
unfoldable pub starts_alike : Text → Text → Option Text
starts_alike [] s = some s
starts_alike (p ∷ ps) [] = none
starts_alike (p ∷ ps) (c ∷ cs) =
    let rest = starts_alike ps cs in if (p == c) || ((p == b'i') && (c == 305)) then rest else none

abbrev pub is_pin_name_char : ℕ → Bool
is_pin_name_char c = (is_capital c || is_digit c) || ((c == b'_') || ((c == b'/') || (c == b'#')))

-- [A-Z][A-Z0-9_/#]*, over the whole word.
unfoldable pub is_pin_name : Text → Bool
is_pin_name [] = false
is_pin_name (c ∷ cs) = is_capital c && every is_pin_name_char cs

abbrev pub is_kind_letter : ℕ → Bool
is_kind_letter c = is_capital c || (leb b'a' c && leb c b'z')

abbrev pub is_kind_char : ℕ → Bool
is_kind_char c = is_kind_letter c || ((c == b'/') || ((c == b'+') || ((c == b'_') || (c == b'-'))))

abbrev pub row_with : Text → Text → Option Text → Option TableRow
row_with number name none = none
row_with number name (some kind) = some (record { number = number; name = name; kind = kind })

module _ (u : Unicode) where
  -- A word character of a regular expression.
  abbrev pub is_word : ℕ → Bool
  is_word c = u.alnum c || (c == b'_')

  abbrev pub ends_word : Option Text → Bool
  ends_word none = false
  ends_word (some []) = true
  ends_word (some (c ∷ cs)) = not (is_word c)

  -- `_HEADER.match`
  unfoldable pub is_header : Text → Bool
  unfolding starts_alike
  is_header line =
      any (λ word. ends_word (starts_alike (codes word) line))
        ("pin" ∷ "name" ∷ "type" ∷ "description" ∷ [])

  -- \d{1,4}[A-Z]?, over the whole word.
  unfoldable pub is_number : ℕ → Text → Bool
  is_number digits [] = leb 1 digits && leb digits 4
  is_number digits (c ∷ []) =
      (u.decimal c && leb digits 3) || (is_capital c && (leb 1 digits && leb digits 4))
  is_number digits (c ∷ d ∷ cs) = u.decimal c && is_number (suc digits) (d ∷ cs)

  -- The longest match of [A-Za-z/+_-]*\b behind a character.
  unfoldable pub kind_tail : ℕ → Text → Option Text
  kind_tail before [] = if is_word before then some [] else none
  kind_tail before (c ∷ cs) =
      let longer = map_option (λ t. c ∷ t) (kind_tail c cs) in
      let here = if is_word before then not (is_word c) else is_word c in
      if is_kind_char c && is_some longer then longer else if here then some [] else none

  -- [A-Za-z][A-Za-z/+_-]*\b, at the start of a word.
  unfoldable pub kind_at : Text → Option Text
  unfolding kind_tail
  kind_at [] = none
  kind_at (c ∷ cs) = if is_kind_letter c then map_option (λ t. c ∷ t) (kind_tail c cs) else none

  -- `_ROW.match`, from the words of a line on.
  unfoldable pub row_of_words : List Text → Option TableRow
  unfolding is_number is_pin_name kind_at
  row_of_words [] = none
  row_of_words (number ∷ []) = none
  row_of_words (number ∷ name ∷ []) = none
  row_of_words (number ∷ name ∷ third ∷ words) =
      if is_number 0 number && is_pin_name name then row_with number name (kind_at third) else none

  -- The row of a line of the table, unless it is blank or a header.
  unfoldable pub row_of_line : Text → Option TableRow
  unfolding normalise_text is_header split_words row_of_words
  row_of_line raw =
      let line = normalise_text raw in
      if is_empty line || is_header (u.casefold line) then none else row_of_words (split_words line)
