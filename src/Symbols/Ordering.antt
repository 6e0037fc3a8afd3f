-- ===== src/Symbols/Ordering.antt =====
-- The order in which src/dsvire/symbol_layout.py sorts the pins of a side.
use tokito_dsvire.Prelude.{
  ℕ, Bool, true, false, List, [], ◌∷◌, ◌≡◌, refl, sym, subst, arith, inl, inr, if◌then◌else◌,
  Bool-cases, ltb, ◌==◌, All, All-map, same_text, same_text-eq,
}
use mathlib.Core.List.{Perm}
use mathlib.Core.List.Perm
use tokito_dsvire.Pipeline.Chars.{Text, Unicode}
use tokito_dsvire.Symbols.Table.{Pin}
use tokito_dsvire.Symbols.Sides.{text_le, numeric, key_le, insert_pin, sort_pins}

text_le_total : (a b : Text) → text_le a b ≡ false → text_le b a ≡ true
unfolding text_le
text_le_total [] b h = cc
text_le_total (c ∷ cs) [] h = refl
text_le_total (c ∷ cs) (d ∷ ds) h = ground (arith, h, text_le_total cs ds)

text_le_trans : (a b c : Text) → text_le a b ≡ true → text_le b c ≡ true → text_le a c ≡ true
unfolding text_le
text_le_trans [] b c h k = refl
text_le_trans (x ∷ xs) [] c h k = cc
text_le_trans (x ∷ xs) (y ∷ ys) [] h k = cc
text_le_trans (x ∷ xs) (y ∷ ys) (z ∷ zs) h k = ground (arith, h, k, text_le_trans xs ys zs)

text_le_antisym : (a b : Text) → text_le a b ≡ true → text_le b a ≡ true → same_text a b ≡ true
unfolding text_le same_text
text_le_antisym [] [] h k = refl
text_le_antisym [] (y ∷ ys) h k = cc
text_le_antisym (x ∷ xs) [] h k = cc
text_le_antisym (x ∷ xs) (y ∷ ys) h k = ground (arith, h, k, text_le_antisym xs ys)

same_text_comm : (a b : Text) → same_text a b ≡ same_text b a
unfolding same_text
same_text_comm [] [] = refl
same_text_comm [] (y ∷ ys) = refl
same_text_comm (x ∷ xs) [] = refl
same_text_comm (x ∷ xs) (y ∷ ys) = ground (arith, same_text_comm xs ys)

-- The order by group, then by numeric value, then by number.
abbrev triple_le : Text → ℕ → Text → Text → ℕ → Text → Bool
triple_le g m s h n t =
    if same_text g h then (if m == n then text_le s t else ltb m n) else text_le g h

triple_le_total :
    (g h s t : Text) (m n : ℕ) → triple_le g m s h n t ≡ false → triple_le h n t g m s ≡ true
triple_le_total g h s t m n e =
    ground (arith, e, same_text_comm g h, text_le_total g h, text_le_total s t)

triple_le_trans :
    (g h i s t r : Text) (m n k : ℕ)
    → triple_le g m s h n t ≡ true
    → triple_le h n t i k r ≡ true
    → triple_le g m s i k r ≡ true
triple_le_trans g h i s t r m n k e f = elim (Bool-cases (same_text g h)) [
  | inl x ↦
      let same : g ≡ h = same_text-eq g h x in
      let later : triple_le g n t i k r ≡ true =
        subst (λ y. triple_le y n t i k r ≡ true) (sym same) f in
      ground (arith, e, x, later, text_le_trans s t r)
  | inr x ↦ elim (Bool-cases (same_text h i)) [
    | inl y ↦
        let same : h ≡ i = same_text-eq h i y in
        subst (λ z. triple_le g m s z k r ≡ true) same (ground (arith, e, x))
    | inr y ↦
        let up : text_le g h ≡ true = ground (arith, e, x) in
        let on : text_le h i ≡ true = ground (arith, f, y) in
        let apart : same_text g i ≡ false = elim (Bool-cases (same_text g i)) [
          | inr z ↦ z
          | inl z ↦
              let back : text_le h g ≡ true =
                subst (λ w. text_le h w ≡ true) (sym (same_text-eq g i z)) on in
              ground (arith, x, text_le_antisym g h up back)
        ] in
        ground (arith, e, f, x, y, apart, text_le_trans g h i)
  ]
]

module _ (u : Unicode) where
  key_le_total : (a b : Pin) → key_le u a b ≡ false → key_le u b a ≡ true
  unfolding key_le
  key_le_total a b h =
      triple_le_total a.group b.group a.number b.number (numeric u a) (numeric u b) h

  key_le_trans : (a b c : Pin) → key_le u a b ≡ true → key_le u b c ≡ true → key_le u a c ≡ true
  unfolding key_le
  key_le_trans a b c h k =
      triple_le_trans a.group b.group c.group a.number b.number c.number (numeric u a) (numeric u b)
        (numeric u c) h k

  abbrev pub Ordered : List Pin → Type 0
  Ordered [] = Unit
  Ordered (p ∷ ps) = All (λ q. key_le u p q ≡ true) ps × Ordered ps

  insert_pin-All :
      (P : Pin → Type 0) (a : Pin) (bs : List Pin) → P a → All P bs → All P (insert_pin u a bs)
  unfolding insert_pin
  insert_pin-All P a [] h k = (h, tt)
  insert_pin-All P a (b ∷ bs) h k = elim (Bool-cases (key_le u a b)) [
    | inl t ↦ rw t (h, k)
    | inr t ↦ rw t (k.0, insert_pin-All P a bs h k.1)
  ]

  insert_pin-Ordered : (a : Pin) (bs : List Pin) → Ordered bs → Ordered (insert_pin u a bs)
  unfolding insert_pin
  insert_pin-Ordered a [] h = (tt, tt)
  insert_pin-Ordered a (b ∷ bs) h = elim (Bool-cases (key_le u a b)) [
    | inl t ↦ rw t ((t, All-map _ _ bs (λ c k. key_le_trans a b c t k) h.0), h)
    | inr t ↦ rw t (
      insert_pin-All (λ c. key_le u b c ≡ true) a bs (key_le_total a b t) h.0,
      insert_pin-Ordered a bs h.1,
    )
  ]

  pub sort_pins-Ordered : (pins : List Pin) → Ordered (sort_pins u pins)
  unfolding sort_pins
  sort_pins-Ordered [] = tt
  sort_pins-Ordered (p ∷ ps) = insert_pin-Ordered p (sort_pins u ps) (sort_pins-Ordered ps)

  pub sort_pins-All : (P : Pin → Type 0) (pins : List Pin) → All P pins → All P (sort_pins u pins)
  unfolding sort_pins
  sort_pins-All P [] h = tt
  sort_pins-All P (p ∷ ps) h = insert_pin-All P p (sort_pins u ps) h.0 (sort_pins-All P ps h.1)

  insert_pin-Perm : (a : Pin) (bs : List Pin) → Perm (insert_pin u a bs) (a ∷ bs)
  unfolding insert_pin
  insert_pin-Perm a [] = Perm.refl (a ∷ [])
  insert_pin-Perm a (b ∷ bs) = elim (Bool-cases (key_le u a b)) [
    | inl t ↦ rw t (Perm.refl (a ∷ b ∷ bs))
    | inr t ↦ rw t (Perm.trans (Perm.cons b (insert_pin-Perm a bs)) (Perm.swap a b bs))
  ]

  pub sort_pins-Perm : (pins : List Pin) → Perm (sort_pins u pins) pins
  unfolding sort_pins
  sort_pins-Perm [] = Perm.refl []
  sort_pins-Perm (p ∷ ps) =
      Perm.trans (insert_pin-Perm p (sort_pins u ps)) (Perm.cons p (sort_pins-Perm ps))
