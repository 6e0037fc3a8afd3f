-- ===== src/Retrieval/Rescoring.antt =====
-- The ids that `hybrid_query` of src/dsvire/hybrid_query.py keeps as it sorts, rescores, fuses and
-- boosts.
use tokito_dsvire.Prelude.{
  ℕ, suc, ◌+◌, Bool, Option, none, some, List, [], ◌∷◌, ◌≡◌, refl, sym, ap, ◌∙◌, subst, inl, inr,
  ◌⊎◌, ◌↔◌, ◌==◌, ==-eq, Bool-cases, In, Result, ok, err, Ensures,
}
use tokito_dsvire.Retrieval.Ranking.{Scored, sorted, ids_of}
use tokito_dsvire.Retrieval.Cascade.{QueryError, add_share, fuse_order, boosted, rescored}
use tokito_dsvire.Retrieval.Sorting.{sorted-In}

ids_of-In : (x : Scored) (xs : List Scored) → In x xs → In x.id (ids_of xs)
unfolding ids_of
ids_of-In x [] m = absurd m
ids_of-In x (a ∷ bs) (inl e) = inl (ap (λ (s : Scored). s.id) e)
ids_of-In x (a ∷ bs) (inr m) = inr (ids_of-In x bs m)

In-ids_of : (i : ℕ) (xs : List Scored) → In i (ids_of xs) → (x : Scored) × In x xs × (x.id ≡ i)
unfolding ids_of
In-ids_of i [] m = absurd m
In-ids_of i (a ∷ bs) (inl e) = (a, inl refl, sym e)
In-ids_of i (a ∷ bs) (inr m) = let (x, n, e) = In-ids_of i bs m in (x, inr n, e)

-- Sorting keeps the ids.
pub sorted-ids : (i : ℕ) (xs : List Scored) → In i (ids_of (sorted xs)) ↔ In i (ids_of xs)
sorted-ids i xs = (
  (λ m.
      let (x, n, e) = In-ids_of i (sorted xs) m in
      subst (λ j. In j (ids_of xs)) e (ids_of-In x xs ((sorted-In x xs).0 n))),
  (λ m.
      let (x, n, e) = In-ids_of i xs m in
      subst (λ j. In j (ids_of (sorted xs))) e (ids_of-In x (sorted xs) ((sorted-In x xs).1 n))),
)

-- What MaxSim has scored.
pub record Rescored (maxsim : ℕ → Option ℕ) (ids : List ℕ) (scores : List Scored) : Type 0 where
  pub sound : (x : Scored) → In x scores → In x.id ids × (maxsim x.id ≡ some x.score)
  pub complete :
      (i : ℕ) → In i ids → (s : ℕ) × (maxsim i ≡ some s) × In (record { id = i; score = s }) scores

module _ (reciprocal : ℕ → ℕ) (sum : ℕ → ℕ → ℕ) (zero_score bonus : ℕ) where
  pub rescored-Rescored :
      (maxsim : ℕ → Option ℕ) (ids : List ℕ)
      → Ensures (Rescored maxsim ids) (rescored reciprocal sum zero_score bonus maxsim ids)
  unfolding rescored
  rescored-Rescored maxsim [] = record { sound = λ x m. absurd m; complete = λ i m. absurd m }
  rescored-Rescored maxsim (i ∷ ids) =
      pick (maxsim i) refl (rescored reciprocal sum zero_score bonus maxsim ids) refl
        (rescored-Rescored maxsim ids)
    where
      pick :
          (o : Option ℕ)
          → maxsim i ≡ o
          → (r : Result QueryError (List Scored))
          → rescored reciprocal sum zero_score bonus maxsim ids ≡ r
          → Ensures (Rescored maxsim ids) r
          → Ensures
              (Rescored maxsim (i ∷ ids))
              (rescored reciprocal sum zero_score bonus maxsim (i ∷ ids))
      pick none e r f h = rw (e, rescored) tt
      pick (some s) e (err x) f h = rw (e, rescored) (rw f tt)
      pick (some s) e (ok scores) f h =
          rw (e, rescored)
            (rw f (record {
              sound = λ x m. elim m [
                | inl q ↦ (
                  inl (ap (λ (z : Scored). z.id) q),
                  ap (λ (z : Scored). maxsim z.id) q
                      ∙ e
                      ∙ ap (λ (z : Scored). some z.score) (sym q),
                )
                | inr n ↦ let (k, l) = h.sound x n in (inr k, l)
              ];
              complete = λ j m. elim m [
                | inl q ↦ (s, ap maxsim q ∙ e, inl (λ t. record { id = q t; score = s }))
                | inr n ↦ let (u, k, l) = h.complete j n in (u, k, inr l)
              ];
            }))

  add_share-ids :
      (j i share : ℕ) (fused : List Scored)
      → In j (ids_of (add_share reciprocal sum zero_score bonus i share fused))
        ↔ ((j ≡ i) ⊎ In j (ids_of fused))
  unfolding add_share ids_of
  add_share-ids j i share [] = ((λ m. m), (λ m. m))
  add_share-ids j i share (a ∷ bs) = elim (Bool-cases (a.id == i)) [
    | inl t ↦
        rw t ((λ m. inr m), (λ m. elim m [ inl e ↦ inl (e ∙ sym (==-eq a.id i t)) | inr n ↦ n ]))
    | inr t ↦
        let (to, from) = add_share-ids j i share bs in
        rw t (
          (λ m. elim m [
            | inl e ↦ inr (inl e)
            | inr n ↦ elim (to n) [ inl e ↦ inl e | inr k ↦ inr (inr k) ]
          ]),
          (λ m. elim m [
            | inl e ↦ inr (from (inl e))
            | inr n ↦ elim n [ inl e ↦ inl e | inr k ↦ inr (from (inr k)) ]
          ]),
        )
  ]

  pub fuse_order-ids :
      (j k n : ℕ) (order : List ℕ) (fused : List Scored)
      → In j (ids_of (fuse_order reciprocal sum zero_score bonus k n order fused))
        ↔ (In j order ⊎ In j (ids_of fused))
  unfolding fuse_order
  fuse_order-ids j k n [] fused = ((λ m. inr m), (λ m. elim m [ inl e ↦ absurd e | inr h ↦ h ]))
  fuse_order-ids j k n (i ∷ order) fused =
      let (to, from) =
        fuse_order-ids j k (suc n) order
          (add_share reciprocal sum zero_score bonus i (reciprocal (k + n)) fused) in
      let (go, back) = add_share-ids j i (reciprocal (k + n)) fused in
      (
        (λ m. elim (to m) [
          | inl h ↦ inl (inr h)
          | inr h ↦ elim (go h) [ inl e ↦ inl (inl e) | inr l ↦ inr l ]
        ]),
        (λ m. from (elim m [
          | inl h ↦ elim h [ inl e ↦ inr (back (inl e)) | inr l ↦ inl l ]
          | inr h ↦ inr (back (inr h))
        ])),
      )

  pub boosted-ids :
      (routed : ℕ → Bool) (fused : List Scored)
      → ids_of (boosted reciprocal sum zero_score bonus routed fused) ≡ ids_of fused
  unfolding boosted ids_of
  boosted-ids routed [] = refl
  boosted-ids routed (a ∷ bs) = ap (λ z. a.id ∷ z) (boosted-ids routed bs)
