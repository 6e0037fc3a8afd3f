-- ===== src/Symbols/Layout.antt =====
-- The pins around the body of a symbol: `layout_pins` of src/dsvire/symbol_layout.py. The floats are
-- a type `R`, and what Python does with them the record Floats.
use tokito_dsvire.Prelude.{
  ℕ, suc, ◌-◌, Result, ok, err, guard, ◌>>◌, every, List, [], ◌∷◌, ◌++◌, max, ◌==◌, if◌then◌else◌,
  length,
}
use tokito_dsvire.Pipeline.Chars.{Unicode}
use tokito_dsvire.Symbols.Table.{Pin}
use tokito_dsvire.Symbols.Sides.{
  Side, top, bottom, left, right, LayoutError, bad_number, no_names, is_numeric, bucket,
}

-- Python's floats: a whole number, the literal of so many hundredths, and the operators. `greatest`
-- is `max` of two.
pub record Floats (R : Type 0) : Type 0 where
  pub whole : ℕ → R
  pub hundredths : ℕ → R
  pub negated : R → R
  pub sum : R → R → R
  pub difference : R → R → R
  pub product : R → R → R
  pub quotient : R → R → R
  pub greatest : R → R → R

pub record Laid (R : Type 0) : Type 0 where
  pub pin : Pin
  pub side : Side
  pub x : R
  pub y : R
  pub angle : ℕ
  pub pin_length : R

unfoldable pub longest_name : List Pin → ℕ
longest_name [] = 0
longest_name (p ∷ ps) = max (length p.name) (longest_name ps)

-- The edges of the body.
pub record Body (R : Type 0) : Type 0 where
  pub left : R
  pub bottom : R
  pub right : R
  pub top : R

pub record Placement (R : Type 0) : Type 0 where
  pub laid : List (Laid R)
  pub body : Body R

module _ {R : Type 0} (floats : Floats R) where
  abbrev pub pitch : R
  pitch = floats.hundredths 100

  abbrev pub body_margin : R
  body_margin = floats.hundredths 80

  abbrev pub half : R → R
  half r = floats.quotient r (floats.whole 2)

  -- The length of a side of the body with so many pins at most on it.
  abbrev pub body_side : ℕ → R
  body_side count =
      floats.sum (floats.product (floats.whole (max (count - 1) 1)) pitch)
        (floats.product body_margin (floats.whole 2))

  -- `spaced`: the position of an index among `count` from `start` to `end`.
  unfoldable pub spaced_at : ℕ → R → R → ℕ → R
  spaced_at count start end index =
      if count == 1
      then half (floats.sum start end)
      else floats.sum start (
          floats.quotient (floats.product (floats.difference end start) (floats.whole index))
            (floats.whole (count - 1)))

  abbrev pub angle_of : Side → ℕ
  angle_of left = 180
  angle_of right = 0
  angle_of top = 90
  angle_of bottom = 270

  -- The position of an index among `count` along a side.
  unfoldable pub position : Body R → Side → ℕ → ℕ → R
  unfolding spaced_at
  position body left count index =
      spaced_at count (floats.difference body.top body_margin) (floats.sum body.bottom body_margin)
        index
  position body right count index =
      spaced_at count (floats.difference body.top body_margin) (floats.sum body.bottom body_margin)
        index
  position body top count index =
      spaced_at count (floats.sum body.left body_margin) (floats.difference body.right body_margin)
        index
  position body bottom count index =
      spaced_at count (floats.sum body.left body_margin) (floats.difference body.right body_margin)
        index

  -- A pin on its side, at a position along it.
  unfoldable pub lay_pin : Body R → Side → R → Pin → Laid R
  lay_pin body side along p = record {
    pin = p;
    side = side;
    x = x_on side;
    y = y_on side;
    angle = angle_of side;
    pin_length = pitch;
  }
    where
      x_on : Side → R
      x_on left = body.left
      x_on right = body.right
      x_on top = along
      x_on bottom = along

      y_on : Side → R
      y_on left = along
      y_on right = along
      y_on top = body.top
      y_on bottom = body.bottom

  -- The loop over the pins of a side, from the pin of an index on.
  unfoldable pub lay_from : Body R → Side → ℕ → ℕ → List Pin → List (Laid R)
  unfolding position lay_pin
  lay_from body side count index [] = []
  lay_from body side count index (p ∷ ps) =
      lay_pin body side (position body side count index) p ∷ lay_from body side count (suc index) ps

  unfoldable pub lay_side : Body R → Side → List Pin → List (Laid R)
  unfolding lay_from
  lay_side body side pins = lay_from body side (length pins) 0 pins

module _ {R : Type 0} (floats : Floats R) (u : Unicode) where
  unfoldable pub body_of : List Pin → Body R
  unfolding bucket longest_name
  body_of pins =
      let vertical = max (max (length (bucket u left pins)) (length (bucket u right pins))) 2 in
      let horizontal = max (max (length (bucket u top pins)) (length (bucket u bottom pins))) 1 in
      let height = body_side floats vertical in
      let width = floats.greatest (body_side floats horizontal) (
        floats.sum (floats.hundredths 240)
          (floats.product (floats.whole (longest_name pins)) (floats.hundredths 22))) in
      record {
        left = half floats (floats.negated width);
        bottom = half floats (floats.negated height);
        right = half floats width;
        top = half floats height;
      }

  unfoldable pub lay_all : List Pin → Placement R
  unfolding bucket body_of lay_side
  lay_all pins =
      let body = body_of pins in
      record {
        laid =
            lay_side floats body left (bucket u left pins)
            ++ (lay_side floats body right (bucket u right pins)
                ++ (lay_side floats body top (bucket u top pins)
                    ++ lay_side floats body bottom (bucket u bottom pins)));
        body = body;
      }

  unfoldable pub lay_named : List Pin → Result LayoutError (Placement R)
  unfolding lay_all
  lay_named [] = err no_names
  lay_named (p ∷ ps) = ok (lay_all (p ∷ ps))

  -- `layout_pins`. The keys of all pins are computed first.
  unfoldable pub layout_pins : List Pin → Result LayoutError (Placement R)
  unfolding is_numeric lay_named
  layout_pins pins = do guard (every (is_numeric u) pins) bad_number; lay_named pins
