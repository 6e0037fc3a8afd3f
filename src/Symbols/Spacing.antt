-- ===== src/Symbols/Spacing.antt =====
-- Where the pins stand that `layout_pins` of src/dsvire/symbol_layout.py lays out.
use tokito_dsvire.Prelude.{
  ℕ, suc, ◌+◌, ◌≤◌, true, List, [], ◌∷◌, ◌++◌, ◌≡◌, ◌≢◌, refl, sym, ◌∙◌, ap, Bool, subst, arith,
  inl, inr, Bool-cases, map, length, ◌<◌, every, ok, err≢ok, All, All-map, All-append, select,
}
use mathlib.Core.List.{Perm}
use tokito_dsvire.Pipeline.Chars.{Unicode}
use tokito_dsvire.Symbols.Table.{Pin}
use tokito_dsvire.Symbols.Layout.{
  Laid, Floats, Body, spaced_at, position, lay_pin, lay_from, lay_side, body_of, Placement, lay_all,
  lay_named, layout_pins,
}
use tokito_dsvire.Symbols.Sides.{
  Side, top, bottom, left, right, same_side, pin_side, key_le, bucket, is_numeric,
}
use tokito_dsvire.Symbols.Ordering.{Ordered, sort_pins-All, sort_pins-Ordered}
use tokito_dsvire.Symbols.Placing.{bucket-Perm, laid-pins}

module _ (u : Unicode) where
  same_side-eq : (s t : Side) → same_side s t ≡ true → s ≡ t
  same_side-eq s t h = ground (arith, h)

  bucket-Sided :
      (side : Side) (pins : List Pin) → All (λ p. pin_side u p ≡ side) (bucket u side pins)
  unfolding bucket
  bucket-Sided side pins = sort_pins-All u _ _ (of_side-Sided pins)
    where
      of_side-Sided :
          (ps : List Pin)
          → All (λ p. pin_side u p ≡ side) (select (λ p. same_side (pin_side u p) side) ps)
      of_side-Sided [] = tt
      of_side-Sided (p ∷ ps) = elim (Bool-cases (same_side (pin_side u p) side)) [
        | inl t ↦ rw t (same_side-eq (pin_side u p) side t, of_side-Sided ps)
        | inr t ↦ rw t (of_side-Sided ps)
      ]

  bucket-Ordered : (side : Side) (pins : List Pin) → Ordered u (bucket u side pins)
  unfolding bucket
  bucket-Ordered side pins = sort_pins-Ordered u (select (λ p. same_side (pin_side u p) side) pins)

module _ {R : Type 0} (floats : Floats R) (u : Unicode) (body : Body R) (pins : List Pin) where
  -- The pin of an index stands on the edge that its side names, and along it at that index among the
  -- pins of the side, from the upper or the left end.
  abbrev pub StandsOn : Side → R → R → ℕ → Type 0
  StandsOn left x y i =
      (x ≡ body.left)
      × (y
          ≡ spaced_at floats (length (bucket u left pins))
              (floats.difference body.top (floats.hundredths 80))
              (floats.sum body.bottom (floats.hundredths 80)) i)
  StandsOn right x y i =
      (x ≡ body.right)
      × (y
          ≡ spaced_at floats (length (bucket u right pins))
              (floats.difference body.top (floats.hundredths 80))
              (floats.sum body.bottom (floats.hundredths 80)) i)
  StandsOn top x y i =
      (x
        ≡ spaced_at floats (length (bucket u top pins))
            (floats.sum body.left (floats.hundredths 80))
            (floats.difference body.right (floats.hundredths 80)) i)
      × (y ≡ body.top)
  StandsOn bottom x y i =
      (x
        ≡ spaced_at floats (length (bucket u bottom pins))
            (floats.sum body.left (floats.hundredths 80))
            (floats.difference body.right (floats.hundredths 80)) i)
      × (y ≡ body.bottom)

  abbrev pub Stands : Laid R → ℕ → Type 0
  Stands l i = (i < length (bucket u l.side pins)) × StandsOn l.side l.x l.y i

  -- Of two pins on one side, the first does not sort behind the second, and stands at a smaller index.
  abbrev pub Before : Laid R → Laid R → Type 0
  Before l m =
      l.side ≡ m.side
      → (key_le u l.pin m.pin ≡ true) × ((i : ℕ) × (j : ℕ) × (i < j) × Stands l i × Stands m j)

  abbrev pub InOrder : List (Laid R) → Type 0
  InOrder [] = Unit
  InOrder (l ∷ ls) = All (Before l) ls × InOrder ls

  -- A pin that is laid out stands on the side that is its own.
  abbrev pub IsPlaced : Laid R → Type 0
  IsPlaced l = (l.side ≡ pin_side u l.pin) × ((i : ℕ) × Stands l i)

  lay_pin-Stands :
      (side : Side) (i : ℕ) (p : Pin)
      → i < length (bucket u side pins)
      → Stands
          (lay_pin floats body side (position floats body side (length (bucket u side pins)) i) p)
          i
  unfolding lay_pin position
  lay_pin-Stands top i p h = (h, (refl, refl))
  lay_pin-Stands bottom i p h = (h, (refl, refl))
  lay_pin-Stands left i p h = (h, (refl, refl))
  lay_pin-Stands right i p h = (h, (refl, refl))

  side-lay_pin :
      (side : Side) (along : R) (p : Pin) → (lay_pin floats body side along p).side ≡ side
  unfolding lay_pin
  side-lay_pin side along p = refl

  -- What holds of the pins that are left holds of them as they are laid out, from an index on.
  lay_from-Stands :
      (P : Pin → Type 0) (side : Side) (index : ℕ) (ps : List Pin)
      → index + length ps ≤ length (bucket u side pins)
      → All P ps
      → All
          (λ l. P l.pin × (l.side ≡ side) × ((j : ℕ) × (index ≤ j) × Stands l j))
          (lay_from floats body side (length (bucket u side pins)) index ps)
  unfolding lay_from lay_pin
  lay_from-Stands P side index [] fits h = tt
  lay_from-Stands P side index (p ∷ ps) fits h = (
    (h.0, refl, (index, omega arith, lay_pin-Stands side index p (omega (arith, fits)))),
    All-map _ _ _ (λ l (a, b, (j, le, s)). (a, b, (j, omega (arith, le), s)))
        (lay_from-Stands P side (suc index) ps (omega (arith, fits)) h.1),
  )

  lay_from-InOrder :
      (side : Side) (index : ℕ) (ps : List Pin)
      → index + length ps ≤ length (bucket u side pins)
      → Ordered u ps
      → InOrder (lay_from floats body side (length (bucket u side pins)) index ps)
  unfolding lay_from lay_pin
  lay_from-InOrder side index [] fits h = tt
  lay_from-InOrder side index (p ∷ ps) fits h = (
    All-map _ _ _
        (λ m (a, b, (j, le, s)) same.
          (a, (index, j, omega (arith, le), lay_pin-Stands side index p (omega (arith, fits)), s)))
        (lay_from-Stands (λ q. key_le u p q ≡ true) side (suc index) ps (omega (arith, fits)) h.0),
    lay_from-InOrder side (suc index) ps (omega (arith, fits)) h.1,
  )

  append-InOrder :
      (side : Side) (xs ys : List (Laid R))
      → InOrder xs
      → InOrder ys
      → All (λ l. l.side ≡ side) xs
      → All (λ l. l.side ≢ side) ys
      → InOrder (xs ++ ys)
  append-InOrder side [] ys h k a b = k
  append-InOrder side (l ∷ xs) ys h k a b = (
    All-append (Before l) xs ys h.0
        (All-map _ (Before l) ys (λ m ne same. absurd (ne (sym same ∙ a.0))) b),
    append-InOrder side xs ys h.1 k a.1 b,
  )

  -- One side of the body: its pins stand on it, in order.
  abbrev Fine : Side → List (Laid R) → Type 0
  Fine side ls = InOrder ls × All (λ l. (l.side ≡ side) × IsPlaced l) ls

  lay_side-Fine : (side : Side) → Fine side (lay_side floats body side (bucket u side pins))
  unfolding lay_side
  lay_side-Fine side = (
    lay_from-InOrder side 0 (bucket u side pins) (omega arith) (bucket-Ordered u side pins),
    All-map _ _ _ (λ l (a, b, (j, le, s)). (b, (b ∙ sym a, (j, s))))
        (lay_from-Stands (λ p. pin_side u p ≡ side) side 0 (bucket u side pins) (omega arith)
          (bucket-Sided u side pins)),
  )

  four-Fine :
      (a b c d : List (Laid R))
      → Fine left a
      → Fine right b
      → Fine top c
      → Fine bottom d
      → InOrder (a ++ (b ++ (c ++ d))) × All IsPlaced (a ++ (b ++ (c ++ d)))
  four-Fine a b c d fa fb fc fd =
      let c_d =
        append-InOrder top c d fc.0 fd.0 (sides top c fc) (apart bottom top d fd (λ e. cc)) in
      let b_d =
        append-InOrder right b (c ++ d) fb.0 c_d (sides right b fb)
          (All-append _ c d (apart top right c fc (λ e. cc)) (apart bottom right d fd (λ e. cc))) in
      (
        append-InOrder left a (b ++ (c ++ d)) fa.0 b_d (sides left a fa) (
            All-append _ b (c ++ d) (apart right left b fb (λ e. cc)) (
              All-append _ c d (apart top left c fc (λ e. cc)) (apart bottom left d fd (λ e. cc)))),
        All-append _ a (b ++ (c ++ d)) (placed left a fa) (
            All-append _ b (c ++ d) (placed right b fb)
              (All-append _ c d (placed top c fc) (placed bottom d fd))),
      )
    where
      sides : (side : Side) (ls : List (Laid R)) → Fine side ls → All (λ l. l.side ≡ side) ls
      sides side ls f = All-map _ _ ls (λ l k. k.0) f.1

      placed : (side : Side) (ls : List (Laid R)) → Fine side ls → All IsPlaced ls
      placed side ls f = All-map _ _ ls (λ l k. k.1) f.1

      apart :
          (side other : Side) (ls : List (Laid R))
          → Fine side ls
          → side ≢ other
          → All (λ l. l.side ≢ other) ls
      apart side other ls f ne = All-map _ _ ls (λ l k e. ne (sym k.0 ∙ e)) f.1

All-every : (p : Pin → Bool) (xs : List Pin) → All (λ x. p x ≡ true) xs → every p xs ≡ true
All-every p [] h = refl
All-every p (x ∷ xs) h = rw h.0 (All-every p xs h.1)

every-All : (p : Pin → Bool) (xs : List Pin) → every p xs ≡ true → All (λ x. p x ≡ true) xs
every-All p [] h = tt
every-All p (x ∷ xs) h = (ground arith, every-All p xs (ground arith))

-- A symbol with pins, whose numbers Python reads, is laid out: every pin exactly once, on the edge of
-- the side that `pin_side` names for it. On each side the pins stand in the order of their keys, each
-- at an index of its own among the positions that `spaced` gives for so many pins.
pub layout_pins-Placed :
    {R : Type 0} (floats : Floats R) (u : Unicode) (pins : List Pin)
    → pins ≢ []
    → All (λ p. is_numeric u p ≡ true) pins
    → (placement : Placement R) × (layout_pins floats u pins ≡ ok placement)
      × Perm (map (λ l. l.pin) placement.laid) pins
      × All (IsPlaced floats u placement.body pins) placement.laid
      × InOrder floats u placement.body pins placement.laid
unfolding layout_pins lay_named lay_all
layout_pins-Placed floats u [] h n = absurd (h refl)
layout_pins-Placed floats u (p ∷ ps) h n =
    let pins : List Pin = p ∷ ps in
    let body = body_of floats u pins in
    let (in_order, placed) =
      four-Fine floats u body pins (lay_side floats body left (bucket u left pins))
        (lay_side floats body right (bucket u right pins))
        (lay_side floats body top (bucket u top pins))
        (lay_side floats body bottom (bucket u bottom pins)) (lay_side-Fine floats u body pins left)
        (lay_side-Fine floats u body pins right) (lay_side-Fine floats u body pins top)
        (lay_side-Fine floats u body pins bottom) in
    (
      lay_all floats u pins,
      rw (All-every (is_numeric u) pins n) refl,
      subst (λ l. Perm l pins) (sym (laid-pins floats u pins)) (bucket-Perm u pins),
      placed,
      in_order,
    )

-- What is laid out has pins, and numbers that Python reads.
pub layout_pins-numeric :
    {R : Type 0} (floats : Floats R) (u : Unicode) (pins : List Pin) {placement : Placement R}
    → layout_pins floats u pins ≡ ok placement
    → (pins ≢ []) × All (λ p. is_numeric u p ≡ true) pins
unfolding layout_pins lay_named
layout_pins-numeric floats u pins {placement} e = elim (Bool-cases (every (is_numeric u) pins)) [
  | inl t ↦ (λ none. absurd (empty pins none e), every-All (is_numeric u) pins t)
  | inr t ↦ absurd (ground (arith, e, t))
]
  where
    empty : (ps : List Pin) → ps ≡ [] → layout_pins floats u ps ≢ ok placement
    empty [] q k = absurd (err≢ok k)
    empty (p ∷ ps) q k = absurd (ground (arith, ap length q))
