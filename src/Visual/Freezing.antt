-- ===== src/Visual/Freezing.antt =====
-- The threshold that `freeze_policy` of src/dsvire/visual_metrics.py chooses.
use tokito_dsvire.Prelude.{
  ℕ, ◌≤◌, true, false, Option, none, some, List, ◌≡◌, refl, sym, ap, ◌∙◌, subst, arith, inl, inr,
  ◌⊎◌, ok, All, All-In, In, select, is_ok, Ensures, Ensures-ok, Ensures-bind, Ensures-map,
}
use tokito_dsvire.Visual.Cases.{Prediction, validated_predictions, Counts}
use tokito_dsvire.Visual.Policy.{
  is_calibration, Terms, FrozenPolicy, text, candidates, selective_counts, best_threshold,
  calibration_text, chosen_threshold, freeze_policy, admitted, frozen_at,
}
use tokito_dsvire.Visual.Leaks.{validated-Unleaked}
use tokito_dsvire.Visual.Thresholds.{
  IsBest, Yields, best_threshold-IsBest, is_feasible, one-In, score-In, threshold_found,
}
use tokito_dsvire.Visual.Admitting.{Admits, AcceptsNoMore, feasible-Admits, Yields-AcceptsNoMore}

module _ (ratio : ℕ → ℕ → ℕ) (one : ℕ) where
  -- The frozen threshold is the best feasible one.
  pub record Frozen (ps : List Prediction) (terms : Terms) (r : FrozenPolicy × Counts)
      : Type 0 where
    pub counted : r.1 ≡ selective_counts ratio one (select is_calibration ps) r.0.threshold
    pub admits :
        Admits ratio one terms.maximum_wrong_visual_rate (select is_calibration ps) r.0.threshold
    pub best :
        (t : ℕ)
        → (t ≡ one) ⊎ ((p : Prediction) × In p (select is_calibration ps) × (t ≡ p.score))
        → Admits ratio one terms.maximum_wrong_visual_rate (select is_calibration ps) t
        → AcceptsNoMore (select is_calibration ps) t r.0.threshold

  frozen_at-Ensures :
      (calibrated : List Prediction) (terms : Terms) (t : ℕ)
      → Ensures
          (λ r. (r.1 ≡ selective_counts ratio one calibrated t) × (r.0.threshold ≡ t))
          (frozen_at ratio one calibrated terms t)
  unfolding frozen_at
  frozen_at-Ensures calibrated terms t =
      let P = λ (r : FrozenPolicy × Counts).
        (r.1 ≡ selective_counts ratio one calibrated t) × (r.0.threshold ≡ t) in
      Ensures-bind P (calibration_text ratio one terms.score_semantics terms.calibration_id) _
        (λ c e.
          Ensures-bind P (text terms.model_id) _
            (λ m f. Ensures-bind P (text terms.preprocessing_id) _ (λ q g. (refl, refl))))

  chosen-some : (o : Option ℕ) {t : ℕ} → chosen_threshold ratio one o ≡ ok t → o ≡ some t
  unfolding chosen_threshold
  chosen-some none e = cc
  chosen-some (some u) e = ground arith

  tried :
      (ps : List Prediction) (t : ℕ)
      → (t ≡ one) ⊎ ((p : Prediction) × In p ps × (t ≡ p.score))
      → In t (candidates one ps)
  tried ps t (inl e) = subst (λ x. In x (candidates one ps)) (sym e) (one-In one ps)
  tried ps t (inr (p, m, e)) = subst (λ x. In x (candidates one ps)) (sym e) (score-In one ps p m)

  IsBest-Frozen :
      (ps : List Prediction) (terms : Terms) (t : ℕ) (r : FrozenPolicy × Counts)
      → IsBest ratio one terms.maximum_wrong_visual_rate
          (select is_calibration ps)
          (candidates one (select is_calibration ps))
          t
      → (r.1 ≡ selective_counts ratio one (select is_calibration ps) t) × (r.0.threshold ≡ t)
      → Frozen ps terms r
  IsBest-Frozen ps terms t r b q =
      let calibrated = select is_calibration ps in
      record {
        counted = q.0 ∙ ap (selective_counts ratio one calibrated) (sym q.1);
        admits =
            subst (Admits ratio one terms.maximum_wrong_visual_rate calibrated) (sym q.1)
              ((feasible-Admits ratio one terms.maximum_wrong_visual_rate calibrated t).0 b.1);
        best = λ u k f. Yields-AcceptsNoMore ratio one calibrated u r.0.threshold (
            subst (Yields ratio one calibrated u) (sym q.1) (
              All-In _ (candidates one calibrated) b.2 (tried calibrated u k)
                ((feasible-Admits ratio one terms.maximum_wrong_visual_rate calibrated u).1 f)));
      }

  found-Frozen :
      (ps : List Prediction) (terms : Terms) (t : ℕ)
      → best_threshold ratio one terms.maximum_wrong_visual_rate
          (select is_calibration ps)
          (candidates one (select is_calibration ps))
        ≡ some t
      → Ensures (Frozen ps terms) (frozen_at ratio one (select is_calibration ps) terms t)
  found-Frozen ps terms t e = pick (
      best_threshold-IsBest ratio one terms.maximum_wrong_visual_rate (select is_calibration ps)
        (candidates one (select is_calibration ps)))
    where
      calibrated : List Prediction
      calibrated = select is_calibration ps

      o : Option ℕ
      o =
          best_threshold ratio one terms.maximum_wrong_visual_rate calibrated
            (candidates one calibrated)

      pick :
          (o ≡ none
              × All
                  (λ u. is_feasible ratio one terms.maximum_wrong_visual_rate calibrated u ≡ false)
                  (candidates one calibrated))
            ⊎ ((u : ℕ) × (o ≡ some u)
                × IsBest ratio one terms.maximum_wrong_visual_rate calibrated
                    (candidates one calibrated)
                    u)
          → Ensures (Frozen ps terms) (frozen_at ratio one calibrated terms t)
      pick (inl (f, h)) = cc
      pick (inr (u, f, b)) =
          let same : u ≡ t = ground (arith, e, f) in
          Ensures-map
            (λ (r : FrozenPolicy × Counts).
              (r.1 ≡ selective_counts ratio one calibrated t) × (r.0.threshold ≡ t))
            (Frozen ps terms) (frozen_at ratio one calibrated terms t)
            (λ r q.
              IsBest-Frozen ps terms t r
                (subst
                  (IsBest ratio one terms.maximum_wrong_visual_rate calibrated
                    (candidates one calibrated))
                  same b)
                q)
            (frozen_at-Ensures calibrated terms t)

  freeze_policy-Ensures :
      (ps : List Prediction) (terms : Terms)
      → Ensures (Frozen ps terms) (freeze_policy ratio one ps terms)
  unfolding freeze_policy
  freeze_policy-Ensures ps terms =
      let P = Frozen ps terms in
      Ensures-bind P (validated_predictions ps) _ (λ vs e.
        let same = (validated-Unleaked ps e).0 in
        let calibrated = select is_calibration vs in
        Ensures-bind P (admitted ratio one calibrated terms) _ (λ u f.
          Ensures-bind P
            (chosen_threshold ratio one (
              best_threshold ratio one terms.maximum_wrong_visual_rate calibrated
                (candidates one calibrated)))
            _
            (λ t g.
              subst (λ v. Ensures P (frozen_at ratio one (select is_calibration v) terms t))
                (sym same)
                (found-Frozen ps terms t (
                  subst
                    (λ v.
                      best_threshold ratio one terms.maximum_wrong_visual_rate
                        (select is_calibration v) (candidates one (select is_calibration v))
                      ≡ some t)
                    same (chosen-some _ g))))))

  -- A frozen policy accepts no case of a wrong package or variant among the calibration cases, and
  -- accepts wrong figures and views at no more than the rate that was asked for. Of the thresholds
  -- that do so, the scores of the calibration cases and 1.0, none accepts more positive cases, and
  -- none that accepts as many is stricter. The counts that are returned are those of the policy's
  -- threshold.
  pub freeze_policy-Frozen :
      (ps : List Prediction) (terms : Terms) {r : FrozenPolicy × Counts}
      → freeze_policy ratio one ps terms ≡ ok r
      → Frozen ps terms r
  freeze_policy-Frozen ps terms e =
      Ensures-ok (Frozen ps terms) (freeze_policy ratio one ps terms)
        (freeze_policy-Ensures ps terms) e

  -- There is always a threshold to freeze: predictions that are valid, with scores of 1.0 at most,
  -- and terms that pass their checks give a policy.
  pub freeze_policy_succeeds :
      (ps : List Prediction) (terms : Terms) {c : Option (List ℕ)} {m q : List ℕ}
      → validated_predictions ps ≡ ok ps
      → admitted ratio one (select is_calibration ps) terms ≡ ok tt
      → All (λ p. p.score ≤ one) (select is_calibration ps)
      → calibration_text ratio one terms.score_semantics terms.calibration_id ≡ ok c
      → text terms.model_id ≡ ok m
      → text terms.preprocessing_id ≡ ok q
      → is_ok (freeze_policy ratio one ps terms) ≡ true
  unfolding freeze_policy frozen_at
  freeze_policy_succeeds ps terms v a s c m q =
      let (t, e, b) =
        threshold_found ratio one terms.maximum_wrong_visual_rate (select is_calibration ps) s in
      rw v (rw a (rw e (unfold chosen_threshold in rw c (rw m (rw q refl)))))
