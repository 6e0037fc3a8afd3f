-- ===== src/Visual/Admitting.antt =====
-- What it means for a threshold to be feasible, in terms of the cases: `freeze_policy` of
-- src/dsvire/visual_metrics.py.
use tokito_dsvire.Prelude.{
  ℕ, ◌≤◌, Bool, true, ◌&&◌, ltb, length, Bool-cases, All-map, ◌↔◌, [], ◌∷◌, List, ◌≡◌, refl, sym,
  ap, subst, arith, inl, inr, ◌⊎◌, All, select,
}
use tokito_dsvire.Visual.Cases.{
  Prediction, Label, wrong_package, wrong_variant, is_wrong_identity, is_wrong_visual, is_positive,
  accepted, count,
}
use tokito_dsvire.Visual.Policy.{quotient, selective_counts, feasible}
use tokito_dsvire.Visual.Thresholds.{Yields, none_counted, is_feasible}

-- How many cases with a label of some kind score above the threshold `t`.
abbrev pub above_threshold : (Label → Bool) → ℕ → List Prediction → ℕ
above_threshold test t ps = length (select (λ p. test p.label && ltb t p.score) ps)

-- No case of a wrong package or variant scores above the threshold `t`.
abbrev pub NoWrongIdentity : ℕ → List Prediction → Type 0
NoWrongIdentity t = All (λ p. (p.label ≡ wrong_package) ⊎ (p.label ≡ wrong_variant) → p.score ≤ t)

-- Above `t` no more positive cases score than above `u`, and `t` is no stricter where as many do.
abbrev pub AcceptsNoMore : List Prediction → ℕ → ℕ → Type 0
AcceptsNoMore ps t u =
    (above_threshold is_positive t ps ≤ above_threshold is_positive u ps)
    × (above_threshold is_positive t ps ≡ above_threshold is_positive u ps → t ≤ u)

count-above :
    (test : Label → Bool) (t : ℕ) (ps : List Prediction)
    → count (λ p. test p.label) (select (accepted t) ps) ≡ above_threshold test t ps
unfolding count
count-above test t [] = refl
count-above test t (p ∷ ps) = elim (Bool-cases (ltb t p.score)) [
  | inl a ↦ elim (Bool-cases (test p.label)) [
    | inl b ↦ rw (a, b) (ground (arith, count-above test t ps))
    | inr b ↦ rw (a, b) (ground (arith, count-above test t ps))
  ]
  | inr a ↦ elim (Bool-cases (test p.label)) [
    | inl b ↦ rw (a, b) (count-above test t ps)
    | inr b ↦ rw (a, b) (count-above test t ps)
  ]
]

labels_wrong :
    (t : ℕ) (ps : List Prediction)
    → All (λ p. is_wrong_identity p.label ≡ true → p.score ≤ t) ps ↔ NoWrongIdentity t ps
labels_wrong t ps =
    (All-map _ _ ps (λ p h w. h (marked p.label w)), All-map _ _ ps (λ p h w. h (wrong p.label w)))
  where
    marked : (l : Label) → (l ≡ wrong_package) ⊎ (l ≡ wrong_variant) → is_wrong_identity l ≡ true
    marked l (inl e) = ap is_wrong_identity e
    marked l (inr e) = ap is_wrong_identity e

    wrong : (l : Label) → is_wrong_identity l ≡ true → (l ≡ wrong_package) ⊎ (l ≡ wrong_variant)
    wrong l h = ground (arith, h)

module _ (ratio : ℕ → ℕ → ℕ) (one : ℕ) where
  -- At the threshold `t` no case of a wrong package or variant is accepted, and of the accepted
  -- cases no more than `maximum` are of a wrong figure or view.
  abbrev pub Admits : ℕ → List Prediction → ℕ → Type 0
  Admits maximum ps t =
      NoWrongIdentity t ps
      × (quotient ratio one (above_threshold is_wrong_visual t ps)
            (above_threshold (λ _. true) t ps)
          ≤ maximum)

  pub feasible-Admits :
      (maximum : ℕ) (ps : List Prediction) (t : ℕ)
      → (is_feasible ratio one maximum ps t ≡ true) ↔ Admits maximum ps t
  unfolding feasible selective_counts
  feasible-Admits maximum ps t =
      let (to, from) = none_counted (λ p. is_wrong_identity p.label) t ps in
      let (named, marked) = labels_wrong t ps in
      let same = count-above is_wrong_visual t ps in
      (
        (λ h. (named (to (ground arith)), rw (← same) (ground arith))),
        (λ h. ground (
          arith,
          from (marked h.0),
          subst (λ n. quotient ratio one n (above_threshold (λ _. true) t ps) ≤ maximum) (sym same)
              h.1,
        )),
      )

  pub Yields-AcceptsNoMore :
      (ps : List Prediction) (t u : ℕ) → Yields ratio one ps t u → AcceptsNoMore ps t u
  unfolding selective_counts
  Yields-AcceptsNoMore ps t u y =
      subst
        (λ n.
          (above_threshold is_positive t ps ≤ n) × (above_threshold is_positive t ps ≡ n → t ≤ u))
        (count-above is_positive u ps)
        (subst
          (λ m.
            (m ≤ count (λ p. is_positive p.label) (select (accepted u) ps))
            × (m ≡ count (λ p. is_positive p.label) (select (accepted u) ps) → t ≤ u))
          (count-above is_positive t ps) y)
