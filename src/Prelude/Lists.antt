-- ===== src/Prelude/Lists.antt =====
-- Tables as lists: SELECT, UPDATE and predicates that hold of every row.
use Prim.Native.Nat.{ℕ, zero, suc}
use mathlib.Core.Path.{◌≡◌, refl, ap, subst}
use mathlib.Core.Logic.{inl, inr}
use mathlib.Core.Bool.{Bool, true}
use mathlib.Core.List.{List, [], ◌∷◌, ◌++◌}
use mathlib.Core.Option.{Option, none, some}
use native.Mathlib.Omega.{arith}
use tokito_dsvire.Prelude.Tests.{if◌then◌else◌, Bool-cases}

module _ {ℓ} {A : Type ℓ} where
  abbrev pub length : List A → ℕ
  length [] = 0
  length (x ∷ xs) = suc (length xs)

  abbrev pub take : ℕ → List A → List A
  take zero xs = []
  take (suc n) [] = []
  take (suc n) (x ∷ xs) = x ∷ take n xs

  -- The rows that a WHERE clause keeps.
  abbrev pub select : (A → Bool) → List A → List A
  select p [] = []
  select p (x ∷ xs) = if p x then x ∷ select p xs else select p xs

  -- The first row that a WHERE clause keeps.
  abbrev pub find : (A → Bool) → List A → Option A
  find p [] = none
  find p (x ∷ xs) = if p x then some x else find p xs

  -- UPDATE … SET f WHERE p.
  abbrev pub update : (A → Bool) → (A → A) → List A → List A
  update p f [] = []
  update p f (x ∷ xs) = (if p x then f x else x) ∷ update p f xs

  abbrev pub All {κ} : (A → Type κ) → List A → Type κ
  All P [] = Unit
  All P (x ∷ xs) = P x × All P xs

module _ {ℓ κ} {A : Type ℓ} (P : A → Type κ) where
  pub All-append : (xs ys : List A) → All P xs → All P ys → All P (xs ++ ys)
  All-append [] ys h k = k
  All-append (x ∷ xs) ys h k = (h.0, All-append xs ys h.1 k)

  -- A predicate of every row survives an UPDATE that keeps it on the rows that it changes.
  pub All-update :
      (p : A → Bool) (f : A → A) (xs : List A)
      → ((x : A) → p x ≡ true → P x → P (f x))
      → All P xs
      → All P (update p f xs)
  All-update p f [] keep h = tt
  All-update p f (x ∷ xs) keep h = elim (Bool-cases (p x)) [
    | inl e ↦ (rw e (keep x e h.0), All-update p f xs keep h.1)
    | inr e ↦ (rw e h.0, All-update p f xs keep h.1)
  ]

  pub All-find :
      (p : A → Bool) (xs : List A) {x : A} → All P xs → find p xs ≡ some x → P x × (p x ≡ true)
  All-find p [] h e = cc
  All-find p (y ∷ xs) {x} h e = elim (Bool-cases (p y)) [
    | inl t ↦ (subst P (ground arith) h.0, ground arith)
    | inr t ↦ All-find p xs h.1 (ground arith)
  ]

module _ {ℓ} {A : Type ℓ} where
  pub append_nil : (xs : List A) → xs ++ [] ≡ xs
  append_nil [] = refl
  append_nil (x ∷ xs) = ap (λ l. x ∷ l) (append_nil xs)

  pub snoc-append : (xs : List A) (y : A) (zs : List A) → xs ++ (y ∷ zs) ≡ (xs ++ (y ∷ [])) ++ zs
  snoc-append [] y zs = refl
  snoc-append (x ∷ xs) y zs = ap (λ l. x ∷ l) (snoc-append xs y zs)
