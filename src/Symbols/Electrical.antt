-- ===== src/Symbols/Electrical.antt =====
-- What a pin is electrically, and its group: the tables, `_electrical` and `_group` of
-- src/dsvire/symbol_extract.py.
use tokito_dsvire.Prelude.{
  ℕ, String, Bool, false, not, ◌&&◌, ◌||◌, Option, none, some, List, [], ◌∷◌, leb, ◌==◌,
  if◌then◌else◌, is_empty, every, codes, same_text,
}
use tokito_dsvire.Pipeline.Chars.{Text, Unicode, any, starts_with, within, replace, space}

-- `_ELECTRICAL`
abbrev pub electrical_kinds : List (String × String)
electrical_kinds =
    ("input", "input")
    ∷ ("in", "input")
    ∷ ("i", "input")
    ∷ ("output", "output")
    ∷ ("out", "output")
    ∷ ("o", "output")
    ∷ ("bidirectional", "bidirectional")
    ∷ ("bidi", "bidirectional")
    ∷ ("io", "bidirectional")
    ∷ ("i/o", "bidirectional")
    ∷ ("tri_state", "tri_state")
    ∷ ("tristate", "tri_state")
    ∷ ("passive", "passive")
    ∷ ("free", "free")
    ∷ ("unspecified", "unspecified")
    ∷ ("power", "power_in")
    ∷ ("power_in", "power_in")
    ∷ ("pwr", "power_in")
    ∷ ("supply", "power_in")
    ∷ ("ground", "power_in")
    ∷ ("gnd", "power_in")
    ∷ ("power_out", "power_out")
    ∷ ("open_collector", "open_collector")
    ∷ ("open_emitter", "open_emitter")
    ∷ ("nc", "no_connect")
    ∷ ("n/c", "no_connect")
    ∷ ("no_connect", "no_connect")
    ∷ []

abbrev pub power_names : List String
power_names = "VIN" ∷ "VDD" ∷ "VCC" ∷ "V+" ∷ "VBAT" ∷ "AVDD" ∷ "DVDD" ∷ "PVIN" ∷ []

abbrev pub ground_names : List String
ground_names = "GND" ∷ "VSS" ∷ "AGND" ∷ "DGND" ∷ "PGND" ∷ "V-" ∷ "EP" ∷ "PWRPAD" ∷ "PAD" ∷ []

unfoldable pub one_of : List String → Text → Bool
unfolding same_text
one_of names s = any (λ name. same_text s (codes name)) names

-- `s.endswith(suffix)`
unfoldable pub ends_with : Text → Text → Bool
unfolding same_text
ends_with suffix [] = same_text suffix []
ends_with suffix (c ∷ cs) = same_text suffix (c ∷ cs) || ends_with suffix cs

unfoldable pub look_up : List (String × String) → Text → Option Text
unfolding same_text
look_up [] s = none
look_up ((key, value) ∷ entries) s =
    if same_text s (codes key) then some (codes value) else look_up entries s

abbrev pub or_unspecified : Option Text → Text
or_unspecified none = codes "unspecified"
or_unspecified (some electrical) = electrical

abbrev pub is_capital : ℕ → Bool
is_capital c = leb b'A' c && leb c b'Z'

module _ (u : Unicode) where
  -- `_electrical`
  unfoldable pub electrical_of : Text → Text → Text
  unfolding one_of ends_with look_up replace
  electrical_of name kind =
      let upper = u.upper name in
      let folded = u.casefold kind in
      if one_of ground_names upper || ends_with (codes "GND") upper
      then codes "power_in"
      else if one_of power_names upper
      then codes "power_in"
      else if one_of ("VOUT" ∷ "SW" ∷ "PH" ∷ []) upper
          && one_of ("output" ∷ "out" ∷ "o" ∷ []) folded
      then codes "output"
      else or_unspecified (look_up electrical_kinds (replace space b'_' folded))

  -- P[A-Z]\d+, over the whole name.
  unfoldable pub is_port : Text → Bool
  is_port [] = false
  is_port (p ∷ []) = false
  is_port (p ∷ l ∷ digits) =
      ((p == b'P') && is_capital l) && (not (is_empty digits) && every u.decimal digits)

  -- `_group`
  unfoldable pub group_of : Text → Text → Text
  unfolding one_of within same_text starts_with is_port
  group_of name electrical =
      let upper = u.upper name in
      if one_of ground_names upper
        || (same_text electrical (codes "power_in") && within (codes "GND") upper)
      then codes "ground"
      else if one_of ("power_in" ∷ "power_out" ∷ []) electrical
      then codes "power"
      else if one_of ("BOOT" ∷ "COMP" ∷ "FB" ∷ "VSENSE" ∷ []) upper
      then codes "analog"
      else if starts_with (codes "GPIO") upper || is_port upper
      then codes "gpio"
      else codes "signal"
