-- ===== src/Visual/Judging.antt =====
-- The gate that `evaluate_policy` of src/dsvire/visual_metrics.py puts on held-out cases.
use tokito_dsvire.Prelude.{
  ℕ, ◌≤◌, true, not, List, ◌≡◌, sym, ap, ◌∙◌, subst, arith, ◌↔◌, ok, guard, All, select, Ensures,
  Ensures-ok, Ensures-bind,
}
use tokito_dsvire.Visual.Cases.{
  Prediction, is_nil, validated_predictions, count, Counts, is_positive, is_wrong_identity,
  no_evaluation,
}
use tokito_dsvire.Visual.Policy.{
  is_evaluation, FrozenPolicy, selective_counts, Gate, gate_passed, evaluate_policy,
}
use tokito_dsvire.Visual.Leaks.{validated-Unleaked}
use tokito_dsvire.Visual.Thresholds.{none_accepted, none_counted}

module _ (ratio : ℕ → ℕ → ℕ) (one : ℕ) where
  abbrev pub held_out_counts : List Prediction → FrozenPolicy → Counts
  held_out_counts ps policy = selective_counts ratio one (select is_evaluation ps) policy.threshold

  -- What a gate that is passed means.
  abbrev pub Passes : List Prediction → FrozenPolicy → Type 0
  Passes ps policy =
      All (λ p. is_wrong_identity p.label ≡ true → p.score ≤ policy.threshold)
        (select is_evaluation ps)
      × ((held_out_counts ps policy).wrong_visual_rate ≤ policy.maximum_wrong_visual_rate)
      × (policy.minimum_positive_coverage ≤ (held_out_counts ps policy).positive_coverage)

  gate-Passes :
      (ps : List Prediction) (policy : FrozenPolicy)
      → (gate_passed ratio one policy (held_out_counts ps policy) ≡ true) ↔ Passes ps policy
  unfolding gate_passed selective_counts
  gate-Passes ps policy =
      let (to, from) =
        none_counted (λ p. is_wrong_identity p.label) policy.threshold (select is_evaluation ps) in
      (
        (λ h. (to (ground arith), ground arith, ground arith)),
        (λ h. ground (arith, from h.0, h.1, h.2)),
      )

  Judged : List Prediction → FrozenPolicy → Gate → Type 0
  Judged ps policy g =
      (g.counts ≡ held_out_counts ps policy)
      × (g.passed ≡ gate_passed ratio one policy (held_out_counts ps policy))

  evaluate_policy-Judged :
      (ps : List Prediction) (policy : FrozenPolicy)
      → Ensures (Judged ps policy) (evaluate_policy ratio one ps policy)
  unfolding evaluate_policy Judged
  evaluate_policy-Judged ps policy =
      let P = Judged ps policy in
      Ensures-bind P (validated_predictions ps) _ (λ vs e.
        Ensures-bind P (guard (not (is_nil (select is_evaluation vs))) no_evaluation) _ (λ u f.
          let same = (validated-Unleaked ps e).0 in
          (
            ap (λ v. held_out_counts v policy) same,
            ap (λ v. gate_passed ratio one policy (held_out_counts v policy)) same,
          )))

  -- The gate is passed exactly when no held-out case of a wrong package or variant scores above
  -- the frozen threshold, wrong figures and views are accepted at no more than the maximum rate,
  -- and positive cases are accepted at no less than the minimum.
  pub evaluate_policy-Passes :
      (ps : List Prediction) (policy : FrozenPolicy) {g : Gate}
      → evaluate_policy ratio one ps policy ≡ ok g
      → (g.passed ≡ true) ↔ Passes ps policy
  unfolding Judged
  evaluate_policy-Passes ps policy {g} e =
      let j = Ensures-ok (Judged ps policy) _ (evaluate_policy-Judged ps policy) e in
      let (to, from) = gate-Passes ps policy in ((λ h. to (sym j.1 ∙ h)), (λ h. j.1 ∙ from h))

  -- A policy at the threshold 1.0 abstains from every case: with scores of 1.0 at most, its gate is
  -- passed only if no coverage is asked for. `ratio` is to give 0.0 for no case out of some.
  pub abstaining_fails :
      (ps : List Prediction) (policy : FrozenPolicy) {g : Gate}
      → ((n : ℕ) → ratio 0 n ≡ 0)
      → policy.threshold ≡ one
      → All (λ p. p.score ≤ one) (select is_evaluation ps)
      → evaluate_policy ratio one ps policy ≡ ok g
      → g.passed ≡ true
      → policy.minimum_positive_coverage ≡ 0
  unfolding selective_counts count
  abstaining_fails ps policy {g} zero_ratio top below e h =
      let passes = (evaluate_policy-Passes ps policy e).0 h in
      let nothing =
        none_accepted ratio one (select is_evaluation ps) policy.threshold
          (subst (λ t. All (λ p. p.score ≤ t) (select is_evaluation ps)) (sym top) below) in
      let coverage : (held_out_counts ps policy).positive_coverage ≡ 0 =
        rw nothing (
          ground
            (arith, zero_ratio (count (λ p. is_positive p.label) (select is_evaluation ps)))) in
      omega (arith, passes.2, coverage)
