-- ===== src/Dsff/Used.antt =====
-- The figures that `associate` of src/dsvire/dsff.py has used, counted by their names.
use tokito_dsvire.Prelude.{
  ℕ, suc, ◌+◌, ◌≤◌, ◌<◌, String, Bool, true, false, Option, none, some, List, [], ◌∷◌, ◌++◌, ◌≡◌,
  refl, subst, arith, inl, inr, ◌⊎◌, if◌then◌else◌, str_eq,
}
use tokito_dsvire.Dsff.Fusion.{XobjectFigure, AssociatedRegion, mem}

-- 1 for a figure or a region of the name `n`.
abbrev pub bit : Bool → ℕ
bit true = 1
bit false = 0

abbrev pub named : String → Option String → ℕ
named n none = 0
named n (some m) = bit (str_eq m n)

mem-cons : (i k : ℕ) (used : List ℕ) → i < k → mem k (i ∷ used) ≡ mem k used
unfolding mem
mem-cons i k used h = ground arith

mem-ne : (i k : ℕ) (used : List ℕ) → k < i → mem k (i ∷ used) ≡ mem k used
unfolding mem
mem-ne i k used h = ground arith

mem-here : (i : ℕ) (used : List ℕ) → mem i (i ∷ used) ≡ true
unfolding mem
mem-here i used = ground arith

module _ {B : Type 0} where
  -- The regions that name `n` as their figure.
  abbrev pub regions_of : String → List (AssociatedRegion B) → ℕ
  regions_of n [] = 0
  regions_of n (r ∷ rs) = named n r.xobject_name + regions_of n rs

  abbrev pub figures_of : String → List (XobjectFigure B) → ℕ
  figures_of n [] = 0
  figures_of n (f ∷ fs) = bit (str_eq f.name n) + figures_of n fs

  -- The used figures of the name `n`; the first figure has the index `k`.
  abbrev pub used_of : String → List ℕ → ℕ → List (XobjectFigure B) → ℕ
  used_of n used k [] = 0
  used_of n used k (f ∷ fs) =
      (if mem k used then bit (str_eq f.name n) else 0) + used_of n used (suc k) fs

  -- The figure `f` has the index `i`.
  abbrev pub At : ℕ → XobjectFigure B → ℕ → List (XobjectFigure B) → Type 0
  At i f k [] = ⊥
  At i f k (g ∷ gs) = ((i ≡ k) × (f ≡ g)) ⊎ At i f (suc k) gs

  pub regions_of-append :
      (n : String) (rs ts : List (AssociatedRegion B))
      → regions_of n (rs ++ ts) ≡ regions_of n rs + regions_of n ts
  regions_of-append n [] ts = omega arith
  regions_of-append n (r ∷ rs) ts = omega (arith, regions_of-append n rs ts)

  At-le : (i : ℕ) (f : XobjectFigure B) (k : ℕ) (fs : List (XobjectFigure B)) → At i f k fs → k ≤ i
  At-le i f k [] m = absurd m
  At-le i f k (g ∷ gs) (inl e) = omega (arith, e.0)
  At-le i f k (g ∷ gs) (inr m) = omega (arith, At-le i f (suc k) gs m)

  used_of_past :
      (n : String) (used : List ℕ) (i k : ℕ) (fs : List (XobjectFigure B))
      → i < k
      → used_of n (i ∷ used) k fs ≡ used_of n used k fs
  used_of_past n used i k [] h = refl
  used_of_past n used i k (f ∷ fs) h =
      rw (mem-cons i k used h) (omega (arith, used_of_past n used i (suc k) fs (omega arith)))

  pub used_of-add :
      (n : String) (used : List ℕ) (i : ℕ) (f : XobjectFigure B) (k : ℕ)
      (fs : List (XobjectFigure B))
      → At i f k fs
      → mem i used ≡ false
      → used_of n (i ∷ used) k fs ≡ bit (str_eq f.name n) + used_of n used k fs
  used_of-add n used i f k [] m u = absurd m
  used_of-add n used i f k (g ∷ gs) (inl (e, q)) u =
      subst
        (λ x. used_of n (i ∷ used) k (x ∷ gs) ≡ bit (str_eq f.name n) + used_of n used k (x ∷ gs)) q
        (subst
          (λ x. used_of n (i ∷ used) x (f ∷ gs) ≡ bit (str_eq f.name n) + used_of n used x (f ∷ gs))
          e
          (rw (mem-here i used, u) (omega (arith, used_of_past n used i (suc i) gs (omega arith)))))
  used_of-add n used i f k (g ∷ gs) (inr m) u =
      rw (mem-ne i k used (omega (arith, At-le i f (suc k) gs m)))
        (omega (arith, used_of-add n used i f (suc k) gs m u))
