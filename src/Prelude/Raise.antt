-- ===== src/Prelude/Raise.antt =====
-- Calls that may raise: a value, or the exception that ends the call.
use mathlib.Core.Path.{◌≡◌, refl, subst}
use mathlib.Core.Logic.{◌⊎◌, ◌≢◌, inl, inr}
use mathlib.Core.Bool.{Bool, true, false}
use native.Mathlib.Omega.{arith}

pub data Result {ℓ} (E : Type 0) (A : Type ℓ) : Type ℓ where
  ok : A → Result E A
  err : E → Result E A

infixl 5 ◌>>=◌ ◌>>◌
abbrev pub ◌>>=◌ {ℓ κ} :
    {E : Type 0} {A : Type ℓ} {B : Type κ} → Result E A → (A → Result E B) → Result E B
ok a >>= f = f a
err e >>= f = err e

abbrev pub ◌>>◌ {ℓ} : {E : Type 0} {B : Type ℓ} → Result E (Unit {0}) → Result E B → Result E B
m >> k = m >>= λ _. k

abbrev pub guard : {E : Type 0} → Bool → E → Result E (Unit {0})
guard true e = ok tt
guard false e = err e

abbrev pub is_ok {ℓ} : {E : Type 0} {A : Type ℓ} → Result E A → Bool
is_ok (ok a) = true
is_ok (err e) = false

pub guard-ok : {E : Type 0} (b : Bool) (e : E) → guard b e ≡ ok tt → b ≡ true
guard-ok b e h = ground arith

-- What holds of the value, if there is one.
abbrev pub Ensures {ℓ κ} : {E : Type 0} {A : Type ℓ} → (A → Type κ) → Result E A → Type κ
Ensures P (ok a) = P a
Ensures P (err e) = Unit

pub Ensures-ok {ℓ κ} :
    {E : Type 0} {A : Type ℓ} (P : A → Type κ) (r : Result E A) {a : A}
    → Ensures P r
    → r ≡ ok a
    → P a
Ensures-ok P (ok b) {a} h e = subst P (ground arith) h
Ensures-ok P (err x) h e = cc

pub Ensures-map {ℓ κ μ} :
    {E : Type 0} {A : Type ℓ} (P : A → Type κ) (Q : A → Type μ) (r : Result E A)
    → ((a : A) → P a → Q a)
    → Ensures P r
    → Ensures Q r
Ensures-map P Q (ok a) to h = to a h
Ensures-map P Q (err e) to h = tt

module _ {ℓ κ μ} {E : Type 0} {A : Type ℓ} {B : Type κ} (P : B → Type μ) where
  pub Ensures-bind :
      (m : Result E A) (f : A → Result E B)
      → ((a : A) → m ≡ ok a → Ensures P (f a))
      → Ensures P (m >>= f)
  Ensures-bind (ok a) f h = h a refl
  Ensures-bind (err e) f h = tt

module _ {ℓ κ} {E : Type 0} {B : Type ℓ} (P : B → Type κ) where
  pub Ensures-guard :
      (b : Bool) (e : E) (k : Result E B) → (b ≡ true → Ensures P k) → Ensures P (guard b e >> k)
  Ensures-guard true e k h = h refl
  Ensures-guard false e k h = tt

  pub Ensures-guard3 :
      (a b c : Bool) (x y z : E) (v : B)
      → (a ≡ true → b ≡ true → c ≡ true → P v)
      → Ensures P (guard a x >> (guard b y >> (guard c z >> ok v)))
  Ensures-guard3 true true true x y z v h = h refl refl refl
  Ensures-guard3 false b c x y z v h = tt
  Ensures-guard3 true false c x y z v h = tt
  Ensures-guard3 true true false x y z v h = tt

pub Result-cases {ℓ} :
    {E : Type 0} {A : Type ℓ} (r : Result E A) → ((a : A) × (r ≡ ok a)) ⊎ ((e : E) × (r ≡ err e))
Result-cases (ok a) = inl (a, refl)
Result-cases (err e) = inr (e, refl)

module _ {ℓ} {E : Type 0} {A : Type ℓ} where
  pub err≢ok : {e : E} {a : A} → ◌≢◌ {A = Result E A} (err e) (ok a)
  err≢ok h = cc

  pub ok_injective : {a b : A} → ◌≡◌ {A = Result E A} (ok a) (ok b) → a ≡ b
  ok_injective h = cc

-- A call that returns has had each of its parts return.
pub bind-ok {ℓ κ} :
    {E : Type 0} {A : Type ℓ} {B : Type κ} (m : Result E A) (f : A → Result E B) {b : B}
    → (m >>= f) ≡ ok b
    → (a : A) × (m ≡ ok a) × (f a ≡ ok b)
bind-ok (ok a) f h = (a, refl, h)
bind-ok (err e) f h = absurd (err≢ok h)
