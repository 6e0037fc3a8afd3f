-- ===== src/Visual/Thresholds.antt =====
-- The thresholds that `freeze_policy` of src/dsvire/visual_metrics.py tries, and the best of them.
use tokito_dsvire.Prelude.{
  ℕ, ◌≤◌, Bool, true, false, none, some, List, [], ◌∷◌, ◌≡◌, refl, sym, ap, subst, arith, inl, inr,
  ◌⊎◌, ◌↔◌, Bool-cases, All, All-map, All-In, In, select, ltb, ◌==◌,
}
use tokito_dsvire.Visual.Cases.{Prediction, accepted, count}
use tokito_dsvire.Visual.Policy.{
  insert, candidates, selective_counts, feasible, above, preferred, best_threshold,
}

-- The thresholds that are tried: the scores of the calibration cases, and 1.0.
pub insert-In : (x : ℕ) (ys : List ℕ) → In x (insert x ys)
unfolding insert
insert-In x [] = inl refl
insert-In x (y ∷ ys) = elim (Bool-cases (ltb x y)) [
  | inl t ↦ rw t (inl refl)
  | inr t ↦ rw t (elim (Bool-cases (x == y)) [
    | inl u ↦ rw u (inl (ground arith))
    | inr u ↦ rw u (inr (insert-In x ys))
  ])
]

pub insert-keeps : (x z : ℕ) (ys : List ℕ) → In z ys → In z (insert x ys)
unfolding insert
insert-keeps x z [] m = absurd m
insert-keeps x z (y ∷ ys) m = elim (Bool-cases (ltb x y)) [
  | inl t ↦ rw t (inr m)
  | inr t ↦ rw t (elim (Bool-cases (x == y)) [
    | inl u ↦ rw u m
    | inr u ↦ rw u (elim m [ inl e ↦ inl e | inr n ↦ inr (insert-keeps x z ys n) ])
  ])
]

pub one-In : (one : ℕ) (ps : List Prediction) → In one (candidates one ps)
unfolding candidates
one-In one [] = inl refl
one-In one (p ∷ ps) = insert-keeps p.score one (candidates one ps) (one-In one ps)

pub score-In :
    (one : ℕ) (ps : List Prediction) (p : Prediction) → In p ps → In p.score (candidates one ps)
unfolding candidates
score-In one [] p m = absurd m
score-In one (q ∷ ps) p (inl e) =
    subst (λ s. In s (insert q.score (candidates one ps)))
      (ap (λ (z : Prediction). z.score) (sym e)) (insert-In q.score (candidates one ps))
score-In one (q ∷ ps) p (inr m) =
    insert-keeps q.score p.score (candidates one ps) (score-In one ps p m)

pub none_counted :
    (test : Prediction → Bool) (t : ℕ) (ps : List Prediction)
    → (count test (select (accepted t) ps) ≡ 0) ↔ All (λ p. test p ≡ true → p.score ≤ t) ps
unfolding count
none_counted test t [] = ((λ e. tt), (λ h. refl))
none_counted test t (p ∷ ps) =
    let (to, from) = none_counted test t ps in
    (
      (λ e. elim (Bool-cases (ltb t p.score)) [
        | inl a ↦ elim (Bool-cases (test p)) [
          | inl b ↦ ground arith
          | inr b ↦ ((λ h. ground arith), to (ground arith))
        ]
        | inr a ↦ ((λ h. ground arith), to (ground arith))
      ]),
      (λ h. elim (Bool-cases (ltb t p.score)) [
        | inl a ↦ elim (Bool-cases (test p)) [
          | inl b ↦ ground (arith, h.0 b)
          | inr b ↦ ground (arith, from h.1)
        ]
        | inr a ↦ ground (arith, from h.1)
      ]),
    )

module _ (ratio : ℕ → ℕ → ℕ) (one : ℕ) where
  abbrev pub positives_at : List Prediction → ℕ → ℕ
  positives_at ps t = (selective_counts ratio one ps t).accepted_positives

  -- `t` accepts no more positives than `u`, and is no stricter where it accepts as many.
  abbrev pub Yields : List Prediction → ℕ → ℕ → Type 0
  Yields ps t u =
      (positives_at ps t ≤ positives_at ps u) × (positives_at ps t ≡ positives_at ps u → t ≤ u)

  abbrev pub is_feasible : ℕ → List Prediction → ℕ → Bool
  is_feasible maximum ps t = feasible ratio one maximum (selective_counts ratio one ps t)

  pub Yields-trans :
      (ps : List Prediction) (t u v : ℕ) → Yields ps t u → Yields ps u v → Yields ps t v
  Yields-trans ps t u v a b = (
    omega (arith, a.0, b.0),
    λ e. omega (arith, a.0, b.0, a.1 (omega (arith, a.0, b.0)), b.1 (omega (arith, a.0, b.0))),
  )

  abbrev pub IsBest : ℕ → List Prediction → List ℕ → ℕ → Type 0
  IsBest maximum ps ts u =
      In u ts
      × (is_feasible maximum ps u ≡ true)
      × All (λ t. is_feasible maximum ps t ≡ true → Yields ps t u) ts

  pub preferred-Yields :
      (ps : List Prediction) (t u : ℕ)
      → (preferred ratio one ps t (some u) ≡ some u × Yields ps t u)
        ⊎ (preferred ratio one ps t (some u) ≡ some t × Yields ps u t)
  unfolding preferred
  preferred-Yields ps t u =
      elim (Bool-cases
        (above ratio one (selective_counts ratio one ps u) u (selective_counts ratio one ps t) t)) [
          | inl e ↦ rw e (inl (refl, (ground arith, λ q. ground arith)))
          | inr e ↦ rw e (inr (refl, (ground arith, λ q. ground arith)))
        ]

  pub Yields-refl : (ps : List Prediction) (t : ℕ) → Yields ps t t
  Yields-refl ps t = (omega arith, λ e. omega arith)

  pub best_threshold-IsBest :
      (maximum : ℕ) (ps : List Prediction) (ts : List ℕ)
      → (best_threshold ratio one maximum ps ts ≡ none
          × All (λ t. is_feasible maximum ps t ≡ false) ts)
        ⊎ ((u : ℕ) × (best_threshold ratio one maximum ps ts ≡ some u) × IsBest maximum ps ts u)
  unfolding best_threshold
  best_threshold-IsBest maximum ps [] = inl (refl, tt)
  best_threshold-IsBest maximum ps (t ∷ ts) = elim (best_threshold-IsBest maximum ps ts) [
    | inl (e, h) ↦ elim (Bool-cases (is_feasible maximum ps t)) [
      | inl f ↦ inr (
        t,
        unfold preferred in rw f (rw e refl),
        (inl refl, f, ((λ k. Yields-refl ps t), All-map _ _ ts (λ s k g. cc) h)),
      )
      | inr f ↦ inl (rw f e, (f, h))
    ]
    | inr (u, e, (m, g, best)) ↦ elim (Bool-cases (is_feasible maximum ps t)) [
      | inl f ↦ elim (preferred-Yields ps t u) [
        | inl (q, y) ↦ inr (u, rw f (rw e q), (inr m, g, ((λ k. y), best)))
        | inr (q, y) ↦ inr (
          t,
          rw f (rw e q),
          (
            inl refl,
            f,
            ((λ k. Yields-refl ps t), All-map _ _ ts (λ s k h. Yields-trans ps s u t (k h) y) best),
          ),
        )
      ]
      | inr f ↦ inr (u, rw f e, (inr m, g, ((λ k. cc), best)))
    ]
  ]

  -- Above every score nothing is accepted, and nothing wrong is.
  pub none_accepted :
      (ps : List Prediction) (t : ℕ) → All (λ p. p.score ≤ t) ps → select (accepted t) ps ≡ []
  none_accepted [] t h = refl
  none_accepted (p ∷ ps) t h =
      let e : ltb t p.score ≡ false = ground (arith, h.0) in rw e (none_accepted ps t h.1)

  pub abstains-feasible :
      (maximum : ℕ) (ps : List Prediction)
      → All (λ p. p.score ≤ one) ps
      → is_feasible maximum ps one ≡ true
  unfolding feasible selective_counts count
  abstains-feasible maximum ps h = rw (none_accepted ps one h) (ground arith)

  -- On scores of 1.0 at most there is always a threshold to freeze.
  pub threshold_found :
      (maximum : ℕ) (ps : List Prediction)
      → All (λ p. p.score ≤ one) ps
      → (u : ℕ) × (best_threshold ratio one maximum ps (candidates one ps) ≡ some u)
        × IsBest maximum ps (candidates one ps) u
  threshold_found maximum ps h = elim (best_threshold-IsBest maximum ps (candidates one ps)) [
    | inl (e, k) ↦
        ground
          (arith, All-In _ (candidates one ps) k (one-In one ps), abstains-feasible maximum ps h)
    | inr r ↦ r
  ]
