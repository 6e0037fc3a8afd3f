-- ===== src/Symbols/Sides.antt =====
-- The pins of each side of a body, in order: `pin_side`, `_sort_key` and the buckets of
-- `layout_pins` in src/dsvire/symbol_layout.py.
use tokito_dsvire.Prelude.{
  ℕ, ◌+◌, ◌*◌, Bool, true, false, ◌&&◌, ◌||◌, every, leb, List, [], ◌∷◌, ltb, ◌==◌, if◌then◌else◌,
  length, codes, same_text, select,
}
use tokito_dsvire.Pipeline.Chars.{Text, Unicode, within}
use tokito_dsvire.Symbols.Table.{Pin}
use tokito_dsvire.Symbols.Electrical.{one_of}

pub data Side : Type 0 where
  top bottom left right : Side

abbrev pub same_side : Side → Side → Bool
same_side top top = true
same_side bottom bottom = true
same_side left left = true
same_side right right = true
same_side _ _ = false

-- `int` raises a ValueError on a character that is a digit but no decimal, and on more than 4300
-- digits; `max` raises one when there is no name.
pub data LayoutError : Type 0 where
  bad_number no_names : LayoutError

-- The order of texts.
unfoldable pub text_le : Text → Text → Bool
text_le [] t = true
text_le (c ∷ cs) [] = false
text_le (c ∷ cs) (d ∷ ds) = ltb c d || ((c == d) && text_le cs ds)

module _ (u : Unicode) where
  -- `pin_side`
  unfoldable pub pin_side : Pin → Side
  unfolding same_text within one_of
  pin_side pin =
      let name = u.upper pin.name in
      if same_text pin.electrical (codes "power_in")
        && (within (codes "GND") name || one_of ("VSS" ∷ "V-" ∷ "EP" ∷ "PWRPAD" ∷ "PAD" ∷ []) name)
      then bottom
      else if one_of ("power_in" ∷ "power_out" ∷ []) pin.electrical
      then top
      else if one_of ("output" ∷ "open_collector" ∷ "open_emitter" ∷ []) pin.electrical
      then right
      else left

  -- `int` of digits.
  unfoldable pub read_digits : ℕ → Text → ℕ
  read_digits total [] = total
  read_digits total (c ∷ cs) = read_digits (total * 10 + u.value c) cs

  -- `re_digits`; without a digit the number is 0.
  unfoldable pub digits_of : Text → Text
  digits_of [] = []
  digits_of (c ∷ cs) = if u.digit c then c ∷ digits_of cs else digits_of cs

  -- `int` of the digits of a pin's number does not raise.
  unfoldable pub is_numeric : Pin → Bool
  unfolding digits_of
  is_numeric pin =
      every u.decimal (digits_of pin.number) && leb (length (digits_of pin.number)) 4_300

  -- The number of a pin, when `int` does not raise.
  unfoldable pub numeric : Pin → ℕ
  unfolding read_digits digits_of
  numeric pin = read_digits 0 (digits_of pin.number)

  -- The key (group, numeric, number) of `a` is at most that of `b`.
  unfoldable pub key_le : Pin → Pin → Bool
  unfolding same_text text_le numeric
  key_le a b =
      if same_text a.group b.group
      then (if numeric a == numeric b
          then text_le a.number b.number
          else ltb (numeric a) (numeric b))
      else text_le a.group b.group

  -- `sort(key=_sort_key)`, which is stable.
  unfoldable pub insert_pin : Pin → List Pin → List Pin
  unfolding key_le
  insert_pin a [] = a ∷ []
  insert_pin a (b ∷ bs) = if key_le a b then a ∷ b ∷ bs else b ∷ insert_pin a bs

  unfoldable pub sort_pins : List Pin → List Pin
  unfolding insert_pin
  sort_pins [] = []
  sort_pins (a ∷ bs) = insert_pin a (sort_pins bs)

  -- The bucket of a side.
  unfoldable pub bucket : Side → List Pin → List Pin
  unfolding pin_side sort_pins
  bucket side pins = sort_pins (select (λ p. same_side (pin_side p) side) pins)
