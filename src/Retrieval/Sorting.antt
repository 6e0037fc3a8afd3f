-- ===== src/Retrieval/Sorting.antt =====
-- What the orders of src/dsvire/hybrid_query.py keep.
use tokito_dsvire.Prelude.{
  ℕ, zero, suc, true, false, List, [], ◌∷◌, ◌≡◌, arith, inl, inr, ◌⊎◌, ◌↔◌, Bool-cases, All,
  All-map, All-In, In, take,
}
use tokito_dsvire.Retrieval.Ranking.{Scored, ranks_before, place, sorted}

abbrev pub Sorted : List Scored → Type 0
Sorted [] = Unit
Sorted (a ∷ bs) = All (λ b. ranks_before a b ≡ true) bs × Sorted bs

ranks_before_trans :
    (a b c : Scored) → ranks_before a b ≡ true → ranks_before b c ≡ true → ranks_before a c ≡ true
ranks_before_trans a b c h k = ground arith

ranks_before_total : (a b : Scored) → ranks_before a b ≡ false → ranks_before b a ≡ true
ranks_before_total a b h = ground arith

place-In : (a x : Scored) (bs : List Scored) → In x (place a bs) ↔ ((x ≡ a) ⊎ In x bs)
unfolding place
place-In a x [] = ((λ m. m), (λ m. m))
place-In a x (b ∷ bs) = elim (Bool-cases (ranks_before a b)) [
  | inl t ↦ rw t ((λ m. m), (λ m. m))
  | inr t ↦
      let (to, from) = place-In a x bs in
      rw t (
        (λ m. elim m [
          | inl e ↦ inr (inl e)
          | inr n ↦ elim (to n) [ inl e ↦ inl e | inr k ↦ inr (inr k) ]
        ]),
        (λ m. elim m [
          | inl e ↦ inr (from (inl e))
          | inr n ↦ elim n [ inl e ↦ inl e | inr k ↦ inr (from (inr k)) ]
        ]),
      )
]

pub sorted-In : (x : Scored) (xs : List Scored) → In x (sorted xs) ↔ In x xs
unfolding sorted
sorted-In x [] = ((λ m. m), (λ m. m))
sorted-In x (a ∷ bs) =
    let (to, from) = place-In a x (sorted bs) in
    let (go, back) = sorted-In x bs in
    (
      (λ m. elim (to m) [ inl e ↦ inl e | inr n ↦ inr (go n) ]),
      (λ m. from (elim m [ inl e ↦ inl e | inr n ↦ inr (back n) ])),
    )

place-All :
    (P : Scored → Type 0) (a : Scored) (bs : List Scored) → P a → All P bs → All P (place a bs)
unfolding place
place-All P a [] h k = (h, tt)
place-All P a (b ∷ bs) h k = elim (Bool-cases (ranks_before a b)) [
  | inl t ↦ rw t (h, k)
  | inr t ↦ rw t (k.0, place-All P a bs h k.1)
]

place-Sorted : (a : Scored) (bs : List Scored) → Sorted bs → Sorted (place a bs)
unfolding place
place-Sorted a [] h = (tt, tt)
place-Sorted a (b ∷ bs) h = elim (Bool-cases (ranks_before a b)) [
  | inl t ↦ rw t ((t, All-map _ _ bs (λ c k. ranks_before_trans a b c t k) h.0), h)
  | inr t ↦ rw t (
    place-All (λ c. ranks_before b c ≡ true) a bs (ranks_before_total a b t) h.0,
    place-Sorted a bs h.1,
  )
]

pub sorted-Sorted : (xs : List Scored) → Sorted (sorted xs)
unfolding sorted
sorted-Sorted [] = tt
sorted-Sorted (a ∷ bs) = place-Sorted a (sorted bs) (sorted-Sorted bs)

-- What is not among the first `n` ranks after all of them.
pub take-first :
    (n : ℕ) (xs : List Scored) (x : Scored)
    → Sorted xs
    → In x xs
    → In x (take n xs) ⊎ All (λ h. ranks_before h x ≡ true) (take n xs)
take-first zero xs x s m = inr tt
take-first (suc n) [] x s m = absurd m
take-first (suc n) (a ∷ bs) x s (inl e) = inl (inl e)
take-first (suc n) (a ∷ bs) x s (inr m) = elim (take-first n bs x s.1 m) [
  | inl k ↦ inl (inr k)
  | inr k ↦ inr (All-In _ bs s.0 m, k)
]

pub take-Sorted : (n : ℕ) (xs : List Scored) → Sorted xs → Sorted (take n xs)
take-Sorted zero xs s = tt
take-Sorted (suc n) [] s = tt
take-Sorted (suc n) (a ∷ bs) s =
    (taken (λ b. ranks_before a b ≡ true) n bs s.0, take-Sorted n bs s.1)
  where
    taken : (P : Scored → Type 0) (m : ℕ) (ys : List Scored) → All P ys → All P (take m ys)
    taken P zero ys h = tt
    taken P (suc m) [] h = tt
    taken P (suc m) (y ∷ ys) h = (h.0, taken P m ys h.1)

pub take-In : (n : ℕ) (xs : List Scored) (x : Scored) → In x (take n xs) → In x xs
take-In zero xs x m = absurd m
take-In (suc n) [] x m = absurd m
take-In (suc n) (a ∷ bs) x (inl e) = inl e
take-In (suc n) (a ∷ bs) x (inr m) = inr (take-In n bs x m)
