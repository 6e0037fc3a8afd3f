-- ===== src/Prelude/Rows.antt =====
-- Laws of SELECT, UPDATE and INSERT on a table, and of columns whose values are distinct.
use Prim.Native.Nat.{ℕ, zero, suc, ◌+◌, ◌≤◌, ◌<◌}
use mathlib.Core.Path.{◌≡◌, refl, ap, sym, ◌∙◌, subst}
use mathlib.Core.Logic.{◌≢◌, ◌⊎◌, inl, inr}
use mathlib.Core.Bool.{Bool, true, false}
use mathlib.Core.List.{List, [], ◌∷◌, ◌++◌, map}
use mathlib.Core.Option.{Option, none, some}
use native.Mathlib.Omega.{arith}
use tokito_dsvire.Prelude.Tests.{if◌then◌else◌, Bool-cases, is_some}
use tokito_dsvire.Prelude.Lists.{length, take, find, update, All}

-- What UPDATE does to one row.
abbrev pub set_if {ℓ} : {A : Type ℓ} → (A → Bool) → (A → A) → A → A
set_if p f x = if p x then f x else x

abbrev pub map_option {ℓ κ} : {A : Type ℓ} {B : Type κ} → (A → B) → Option A → Option B
map_option f none = none
map_option f (some a) = some (f a)

module _ {ℓ} {A : Type ℓ} where
  -- A SELECT by columns that the UPDATE leaves alone finds the same row, updated.
  pub find-update :
      (q p : A → Bool) (f : A → A)
      → ((x : A) → q (f x) ≡ q x)
      → (xs : List A) → find q (update p f xs) ≡ map_option (set_if p f) (find q xs)
  find-update q p f keep [] = refl
  find-update q p f keep (x ∷ xs) = ground (arith, keep x, find-update q p f keep xs)

  pub find-append :
      (q : A → Bool) (xs ys : List A)
      → find q (xs ++ ys) ≡ (if is_some (find q xs) then find q xs else find q ys)
  find-append q [] ys = refl
  find-append q (x ∷ xs) ys = ground (arith, find-append q xs ys)

  -- A row that a stronger test finds is the first that the weaker test finds, if no later row
  -- passes the weaker one.
  pub find-true : (q : A → Bool) (xs : List A) {x : A} → find q xs ≡ some x → q x ≡ true
  find-true q [] h = cc
  find-true q (y ∷ xs) {x} h = ground (arith, find-true q xs {x = x})

  pub find-none : (q : A → Bool) (xs : List A) → find q xs ≡ none → All (λ x. q x ≡ false) xs
  find-none q [] h = tt
  find-none q (x ∷ xs) h = (ground arith, find-none q xs (ground arith))

  pub update-none : (p : A → Bool) (f : A → A) (xs : List A) → find p xs ≡ none → update p f xs ≡ xs
  update-none p f [] h = refl
  update-none p f (x ∷ xs) h = ground (arith, update-none p f xs)

  pub length-take_le : (n : ℕ) (xs : List A) → length (take n xs) ≤ n
  length-take_le zero xs = omega arith
  length-take_le (suc n) [] = omega arith
  length-take_le (suc n) (x ∷ xs) = omega (arith, length-take_le n xs)

module _ {ℓ κ} {A : Type ℓ} {B : Type κ} where
  -- A column that the UPDATE does not set is as before.
  pub map-update :
      (g : A → B) (p : A → Bool) (f : A → A)
      → ((x : A) → g (f x) ≡ g x)
      → (xs : List A) → map g (update p f xs) ≡ map g xs
  map-update g p f keep [] = refl
  map-update g p f keep (x ∷ xs) = ground (arith, keep x, map-update g p f keep xs)

-- No value stands twice.
abbrev pub Distinct {ℓ} : {A : Type ℓ} → List A → Type ℓ
Distinct [] = Unit
Distinct (x ∷ xs) = All (λ y. x ≢ y) xs × Distinct xs

module _ {ℓ} {A : Type ℓ} where
  snoc-All : (P : A → Type ℓ) (xs : List A) (z : A) → All P xs → P z → All P (xs ++ z ∷ [])
  snoc-All P [] z h k = (k, tt)
  snoc-All P (x ∷ xs) z h k = (h.0, snoc-All P xs z h.1 k)

  pub Distinct-snoc :
      (xs : List A) (z : A) → Distinct xs → All (λ y. y ≢ z) xs → Distinct (xs ++ z ∷ [])
  Distinct-snoc [] z d h = (tt, tt)
  Distinct-snoc (x ∷ xs) z d h = (snoc-All (λ y. x ≢ y) xs z d.0 h.0, Distinct-snoc xs z d.1 h.1)

-- A row of the table.
abbrev pub In : {A : Type 0} → A → List A → Type 0
In y [] = ⊥
In y (x ∷ xs) = (y ≡ x) ⊎ In y xs

module _ {A : Type 0} where
  pub find-In : (q : A → Bool) (xs : List A) {y : A} → find q xs ≡ some y → In y xs
  find-In q [] h = cc
  find-In q (x ∷ xs) {y} h = elim (Bool-cases (q x)) [
    | inl t ↦ inl (ground arith)
    | inr t ↦ inr (find-In q xs (ground arith))
  ]

  pub All-In {κ} : (P : A → Type κ) (xs : List A) {y : A} → All P xs → In y xs → P y
  All-In P [] h m = absurd m
  All-In P (x ∷ xs) h (inl e) = subst P (sym e) h.0
  All-In P (x ∷ xs) h (inr m) = All-In P xs h.1 m

  pub In-All {κ} : (P : A → Type κ) (xs : List A) → ((y : A) → In y xs → P y) → All P xs
  In-All P [] h = tt
  In-All P (x ∷ xs) h = (h x (inl refl), In-All P xs (λ y m. h y (inr m)))

  pub find-some :
      (q : A → Bool) (xs : List A) {y : A} → In y xs → q y ≡ true → is_some (find q xs) ≡ true
  find-some q [] m t = absurd m
  find-some q (x ∷ xs) (inl e) t = ground (arith, ap q e)
  find-some q (x ∷ xs) (inr m) t = ground (arith, find-some q xs m t)

-- Rows that share a key with a row that is gone are gone too.
module _ {A K : Type 0} (key : A → K) where
  pub In-map : (xs : List A) (y : A) → In y xs → In (key y) (map key xs)
  In-map [] y m = absurd m
  In-map (x ∷ xs) y (inl e) = inl (ap key e)
  In-map (x ∷ xs) y (inr m) = inr (In-map xs y m)

  pub key-ne : (k : K) (xs : List A) {y : A} → All (λ z. k ≢ z) (map key xs) → In y xs → k ≢ key y
  key-ne k xs h m = All-In (λ z. k ≢ z) (map key xs) h (In-map xs _ m)

  pub update_absent :
      (p : A → Bool) (f : A → A) (k : K)
      → ((x : A) → p x ≡ true → key x ≡ k)
      → (xs : List A) → All (λ z. k ≢ z) (map key xs)
      → update p f xs ≡ xs
  update_absent p f k only [] h = refl
  update_absent p f k only (x ∷ xs) h = elim (Bool-cases (p x)) [
    | inl t ↦ absurd (h.0 (sym (only x t)))
    | inr t ↦ rw (t, update_absent p f k only xs h.1)
  ]

  -- Two rows of a table with distinct keys that have one key are one row.
  pub same-row :
      (xs : List A) {y z : A} → Distinct (map key xs) → In y xs → In z xs → key y ≡ key z → y ≡ z
  same-row [] d m n e = absurd m
  same-row (x ∷ xs) d (inl a) (inl b) e = a ∙ sym b
  same-row (x ∷ xs) d (inl a) (inr n) e = absurd (key-ne (key x) xs d.0 n (ap key (sym a) ∙ e))
  same-row (x ∷ xs) d (inr m) (inl b) e = absurd (key-ne (key x) xs d.0 m (ap key (sym b) ∙ sym e))
  same-row (x ∷ xs) d (inr m) (inr n) e = same-row xs d.1 m n e

  -- Where keys are distinct, an UPDATE by the key of a row changes at most that row, so it is
  -- enough to keep a predicate there.
  pub All-update_at {κ} :
      (P : A → Type κ) (p : A → Bool) (f : A → A) (xs : List A) {y : A}
      → Distinct (map key xs)
      → In y xs
      → ((x : A) → p x ≡ true → key x ≡ key y)
      → (P y → P (f y))
      → All P xs
      → All P (update p f xs)
  All-update_at P p f xs {y} d m only keep h = restrict xs (λ x n. n) h
    where
      changed : (x : A) → In x xs → P x → P (set_if p f x)
      changed x n hx = elim (Bool-cases (p x)) [
        | inl t ↦ rw t (subst (λ z. P z → P (f z)) (sym (same-row xs d n m (only x t))) keep hx)
        | inr t ↦ rw t hx
      ]

      restrict : (ys : List A) → ((x : A) → In x ys → In x xs) → All P ys → All P (update p f ys)
      restrict [] sub hs = tt
      restrict (x ∷ ys) sub hs =
          (changed x (sub x (inl refl)) hs.0, restrict ys (λ z n. sub z (inr n)) hs.1)

module _ {ℓ κ μ} {A : Type ℓ} (P : A → Type κ) (Q : A → Type μ) where
  pub All-map : (xs : List A) → ((x : A) → P x → Q x) → All P xs → All Q xs
  All-map [] to h = tt
  All-map (x ∷ xs) to h = (to x h.0, All-map xs to h.1)

  -- An UPDATE that leads from one predicate to another, on the rows that it leaves alone too.
  pub All-update_to :
      (p : A → Bool) (f : A → A) (xs : List A)
      → ((x : A) → P x → Q (set_if p f x))
      → All P xs
      → All Q (update p f xs)
  All-update_to p f [] to h = tt
  All-update_to p f (x ∷ xs) to h = (to x h.0, All-update_to p f xs to h.1)

-- The numbers climb from `lo`, and all are below `hi`.
abbrev pub Climbs : ℕ → List ℕ → ℕ → Type 0
Climbs lo [] hi = lo ≤ hi
Climbs lo (x ∷ xs) hi = (lo ≤ x) × Climbs (suc x) xs hi

pub Climbs-snoc :
    (lo : ℕ) (xs : List ℕ) (hi : ℕ) → Climbs lo xs hi → Climbs lo (xs ++ hi ∷ []) (hi + 1)
Climbs-snoc lo [] hi h = (h, omega arith)
Climbs-snoc lo (x ∷ xs) hi h = (h.0, Climbs-snoc (suc x) xs hi h.1)

pub Climbs-bound :
    (lo : ℕ) (xs : List ℕ) (hi : ℕ) → Climbs lo xs hi → All (λ x. (lo ≤ x) × (x < hi)) xs
Climbs-bound lo [] hi h = tt
Climbs-bound lo (x ∷ xs) hi h = (
  (h.0, below xs (suc x) h.1),
  All-map (λ y. (suc x ≤ y) × (y < hi)) _ xs (λ y k. omega arith) (Climbs-bound (suc x) xs hi h.1),
)
  where
    below : (ys : List ℕ) (l : ℕ) → Climbs l ys hi → l ≤ hi
    below [] l k = k
    below (y ∷ ys) l k = omega (arith, below ys (suc y) k.1)

module _ {A : Type 0} where
  pub In-update :
      (p : A → Bool) (f : A → A) (xs : List A) (y : A) → In y xs → In (set_if p f y) (update p f xs)
  In-update p f [] y m = absurd m
  In-update p f (x ∷ xs) y (inl e) = inl (ap (set_if p f) e)
  In-update p f (x ∷ xs) y (inr m) = inr (In-update p f xs y m)

  pub In-append : (xs ys : List A) (y : A) → In y xs → In y (xs ++ ys)
  In-append [] ys y m = absurd m
  In-append (x ∷ xs) ys y (inl e) = inl e
  In-append (x ∷ xs) ys y (inr m) = inr (In-append xs ys y m)
