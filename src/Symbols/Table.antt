-- ===== src/Symbols/Table.antt =====
-- The pins of a part from the text of its pin table: `parse_pin_table` of
-- src/dsvire/symbol_extract.py. A confidence counts hundredths.
use tokito_dsvire.Prelude.{
  ℕ, Bool, false, not, Option, none, some, List, [], ◌∷◌, leb, if◌then◌else◌, length, codes,
  same_text, Result, ok, guard, ◌>>=◌, ◌>>◌,
}
use tokito_dsvire.Pipeline.Chars.{Text, Unicode, any, split_lines}
use tokito_dsvire.Symbols.Electrical.{electrical_of, group_of}
use tokito_dsvire.Symbols.Lines.{TableRow, row_of_line}

pub data ExtractionError : Type 0 where
  duplicate_number low_confidence too_few_rows : ExtractionError

pub record Pin : Type 0 where
  pub number : Text
  pub name : Text
  pub electrical : Text
  pub style : Text
  pub group : Text
  pub unit : ℕ
  pub hidden : Bool
  pub confidence : ℕ
  pub evidence_region_ids : List Text

abbrev pub confidence_of : Text → ℕ
confidence_of electrical = if same_text electrical (codes "unspecified") then 72 else 86

abbrev pub min_confidence : ℕ
min_confidence = 60

abbrev pub min_pins : ℕ
min_pins = 4

module _ (u : Unicode) where
  unfoldable pub pin_of : TableRow → Pin
  unfolding electrical_of group_of same_text
  pin_of row =
      let name = u.upper row.name in
      let electrical = electrical_of u name row.kind in
      record {
        number = row.number;
        name = name;
        electrical = electrical;
        style = codes "line";
        group = group_of u name electrical;
        unit = 1;
        hidden = false;
        confidence = confidence_of electrical;
        evidence_region_ids = codes "r_pinout_01" ∷ codes "r_pin_table_01" ∷ [];
      }

  -- One turn of the loop over the lines, where `seen` holds the numbers so far.
  unfoldable pub add_row :
      List Text
      → TableRow
      → (List Text → Result ExtractionError (List Pin))
      → Result ExtractionError (List Pin)
  unfolding pin_of same_text
  add_row seen row rest = do
    guard (not (any (λ n. same_text row.number n) seen)) duplicate_number
    guard (leb min_confidence (pin_of row).confidence) low_confidence
    pins ← rest (row.number ∷ seen)
    ok (pin_of row ∷ pins)

  unfoldable pub parse_row :
      List Text
      → Option TableRow
      → (List Text → Result ExtractionError (List Pin))
      → Result ExtractionError (List Pin)
  unfolding add_row
  parse_row seen none rest = rest seen
  parse_row seen (some row) rest = add_row seen row rest

  unfoldable pub parse_lines : List Text → List Text → Result ExtractionError (List Pin)
  unfolding row_of_line parse_row
  parse_lines seen [] = ok []
  parse_lines seen (raw ∷ lines) =
      parse_row seen (row_of_line u raw) (λ numbers. parse_lines numbers lines)

  -- `parse_pin_table`
  unfoldable pub parse_pin_table : Text → Result ExtractionError (List Pin)
  unfolding split_lines parse_lines
  parse_pin_table table_text = do
    pins ← parse_lines [] (split_lines table_text)
    guard (leb min_pins (length pins)) too_few_rows
    ok pins
