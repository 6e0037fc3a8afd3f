-- ===== src/Symbols/Placing.antt =====
-- The pins that `layout_pins` of src/dsvire/symbol_layout.py lays out are all pins.
use tokito_dsvire.Prelude.{ℕ, suc, List, [], ◌∷◌, ◌++◌, ◌≡◌, refl, ap, ◌∙◌, map, length, select}
use mathlib.Core.List.{Perm, perm_middle}
use mathlib.Core.List.Perm
use tokito_dsvire.Pipeline.Chars.{Unicode}
use tokito_dsvire.Symbols.Table.{Pin}
use tokito_dsvire.Symbols.Layout.{Floats, Body, lay_pin, lay_from, lay_side, body_of, lay_all}
use tokito_dsvire.Symbols.Sides.{Side, top, bottom, left, right, same_side, pin_side, bucket}
use tokito_dsvire.Symbols.Ordering.{sort_pins-Perm}

-- A pin behind some lists can be taken to the front.
module _ (p : Pin) where
  behind_two : (l r x : List Pin) → Perm (l ++ (r ++ (p ∷ x))) (p ∷ (l ++ (r ++ x)))
  behind_two l r x = Perm.trans (Perm.append_left l (perm_middle r x)) (perm_middle l (r ++ x))

  behind_three :
      (l r t x : List Pin) → Perm (l ++ (r ++ (t ++ (p ∷ x)))) (p ∷ (l ++ (r ++ (t ++ x))))
  behind_three l r t x =
      Perm.trans (Perm.append_left l (behind_two r t x)) (perm_middle l (r ++ (t ++ x)))

map-append {ℓ κ} :
    {A : Type ℓ} {B : Type κ} (f : A → B) (xs ys : List A) → map f (xs ++ ys) ≡ map f xs ++ map f ys
map-append f [] ys = refl
map-append f (x ∷ xs) ys = ap (λ l. f x ∷ l) (map-append f xs ys)

joined {ℓ} : {A : Type ℓ} {a b c d : List A} → a ≡ b → c ≡ d → a ++ c ≡ b ++ d
joined {b = b} {c = c} e f = ap (λ x. x ++ c) e ∙ ap (λ x. b ++ x) f

map-append_four {ℓ κ} :
    {A : Type ℓ} {B : Type κ} (f : A → B) (a b c d : List A)
    → map f (a ++ (b ++ (c ++ d))) ≡ map f a ++ (map f b ++ (map f c ++ map f d))
map-append_four f a b c d =
    rw (map-append f a (b ++ (c ++ d)), map-append f b (c ++ d), map-append f c d) refl

-- The pins of a side that has been laid out are its pins.
module _ {R : Type 0} (floats : Floats R) (body : Body R) where
  map-lay_from :
      (side : Side) (count index : ℕ) (pins : List Pin)
      → map (λ l. l.pin) (lay_from floats body side count index pins) ≡ pins
  unfolding lay_from lay_pin
  map-lay_from side count index [] = refl
  map-lay_from side count index (p ∷ ps) = ap (λ l. p ∷ l) (map-lay_from side count (suc index) ps)

  pub map-lay_side :
      (side : Side) (pins : List Pin) → map (λ l. l.pin) (lay_side floats body side pins) ≡ pins
  unfolding lay_side
  map-lay_side side pins = map-lay_from side (length pins) 0 pins

module _ (u : Unicode) where
  -- The pins of the four sides together are all pins.
  of_side : Side → List Pin → List Pin
  of_side side pins = select (λ p. same_side (pin_side u p) side) pins

  sides-Perm :
      (pins : List Pin)
      → Perm
          (of_side left pins ++ (of_side right pins ++ (of_side top pins ++ of_side bottom pins)))
          pins
  unfolding of_side
  sides-Perm [] = Perm.refl []
  sides-Perm (p ∷ ps) = on (sides-Perm ps) (pin_side u p) refl
    where
      on :
          Perm (of_side left ps ++ (of_side right ps ++ (of_side top ps ++ of_side bottom ps))) ps
          → (s : Side) → pin_side u p ≡ s
          → Perm
              (of_side left (p ∷ ps)
                ++ (of_side right (p ∷ ps) ++ (of_side top (p ∷ ps) ++ of_side bottom (p ∷ ps))))
              (p ∷ ps)
      on rest top e = rw e (
          Perm.trans
            (behind_two p (of_side left ps) (of_side right ps)
              (of_side top ps ++ of_side bottom ps))
            (Perm.cons p rest))
      on rest bottom e = rw e (
          Perm.trans
            (behind_three p (of_side left ps) (of_side right ps) (of_side top ps)
              (of_side bottom ps))
            (Perm.cons p rest))
      on rest left e = rw e (Perm.cons p rest)
      on rest right e = rw e (
          Perm.trans
            (perm_middle (of_side left ps)
              (of_side right ps ++ (of_side top ps ++ of_side bottom ps)))
            (Perm.cons p rest))

  pub bucket-Perm :
      (pins : List Pin)
      → Perm
          (bucket u left pins
            ++ (bucket u right pins ++ (bucket u top pins ++ bucket u bottom pins)))
          pins
  unfolding bucket of_side
  bucket-Perm pins =
      Perm.trans
        (Perm.append (sort_pins-Perm u (of_side left pins)) (
          Perm.append (sort_pins-Perm u (of_side right pins)) (
            Perm.append (sort_pins-Perm u (of_side top pins))
              (sort_pins-Perm u (of_side bottom pins)))))
        (sides-Perm pins)

pub laid-pins :
    {R : Type 0} (floats : Floats R) (u : Unicode) (pins : List Pin)
    → map (λ l. l.pin) (lay_all floats u pins).laid
      ≡ bucket u left pins ++ (bucket u right pins ++ (bucket u top pins ++ bucket u bottom pins))
unfolding lay_all
laid-pins floats u pins =
    let body = body_of floats u pins in
    map-append_four (λ l. l.pin) (lay_side floats body left (bucket u left pins))
      (lay_side floats body right (bucket u right pins))
      (lay_side floats body top (bucket u top pins))
      (lay_side floats body bottom (bucket u bottom pins))
    ∙ joined (map-lay_side floats body left (bucket u left pins)) (
        joined (map-lay_side floats body right (bucket u right pins)) (
          joined (map-lay_side floats body top (bucket u top pins))
            (map-lay_side floats body bottom (bucket u bottom pins))))
