-- ===== src/Dsff/Affine.antt =====
-- The matrices of src/dsvire/dsff.py. The sum and the product of two numbers are parameters:
-- Python's floats.
use tokito_dsvire.Prelude.{ℕ, ◌+◌, ◌*◌, ◌≡◌, arith}

pub record Affine (R : Type 0) : Type 0 where
  pub a : R
  pub b : R
  pub c : R
  pub d : R
  pub e : R
  pub f : R

pub record Point (R : Type 0) : Type 0 where
  pub x : R
  pub y : R

module _ {R : Type 0} (sum product : R → R → R) where
  unfoldable pub multiply : Affine R → Affine R → Affine R
  multiply self other = record {
    a = sum (product self.a other.a) (product self.b other.c);
    b = sum (product self.a other.b) (product self.b other.d);
    c = sum (product self.c other.a) (product self.d other.c);
    d = sum (product self.c other.b) (product self.d other.d);
    e = sum (sum (product self.e other.a) (product self.f other.c)) other.e;
    f = sum (sum (product self.e other.b) (product self.f other.d)) other.f;
  }

  unfoldable pub apply : Affine R → Point R → Point R
  apply m p = record {
    x = sum (sum (product m.a p.x) (product m.c p.y)) m.e;
    y = sum (sum (product m.b p.x) (product m.d p.y)) m.f;
  }

-- Whole numbers, which floats add and multiply exactly.
abbrev pub sum : ℕ → ℕ → ℕ
sum m n = m + n

abbrev pub product : ℕ → ℕ → ℕ
product m n = m * n

-- On whole numbers, the product of two matrices maps a point by the left one first and by the
-- right one then.
pub apply-multiply :
    (m n : Affine ℕ) (p : Point ℕ)
    → apply sum product (multiply sum product m n) p ≡ apply sum product n (apply sum product m p)
unfolding multiply apply
apply-multiply m n p =
    let at_x : (apply sum product (multiply sum product m n) p).x
        ≡ (apply sum product n (apply sum product m p)).x =
      omega arith in
    let at_y : (apply sum product (multiply sum product m n) p).y
        ≡ (apply sum product n (apply sum product m p)).y =
      omega arith in
    λ i. record { x = at_x i; y = at_y i }
