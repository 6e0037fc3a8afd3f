-- ===== src/Visual/Policy.antt =====
-- The frozen threshold of src/dsvire/visual_metrics.py, and the gate on held-out cases. `one` is
-- the float 1.0 in the unit of the scores, and `ratio` is the quotient of two counts as a float.
use tokito_dsvire.Prelude.{
  ℕ, String, Bool, ◌&&◌, ◌||◌, not, Option, none, some, List, [], ◌∷◌, leb, ltb, ◌==◌,
  if◌then◌else◌, Result, ok, err, guard, ◌>>=◌, ◌>>◌, length, select, str_eq, codes, lower_hex,
  strip_left, strip_right,
}
use tokito_dsvire.Visual.Cases.{
  Counts, MetricError, Prediction, accepted, bad_digest, calibration, count, evaluation, is_nil,
  is_positive, is_wrong_identity, is_wrong_visual, no_calibration, no_positive, same_split,
  validated_predictions, bad_rate, bad_coverage, bad_semantics, named_calibration, blank_text,
  no_evaluation, max_of_none,
}

-- The text of a string as its characters.
unfoldable pub text : String → Result MetricError (List ℕ)
unfolding strip_left strip_right
text s = do
  guard (not (is_nil (strip_right (strip_left (codes s))))) blank_text
  ok (strip_right (strip_left (codes s)))

pub record Terms : Type 0 where
  pub model_id : String
  pub model_sha256 : String
  pub preprocessing_id : String
  pub dataset_sha256 : String
  pub score_semantics : String
  pub calibration_id : Option String
  pub maximum_wrong_visual_rate : ℕ
  pub minimum_positive_coverage : ℕ

pub record FrozenPolicy : Type 0 where
  pub model_id : List ℕ
  pub model_sha256 : String
  pub preprocessing_id : List ℕ
  pub dataset_sha256 : String
  pub score_semantics : String
  pub calibration_id : Option (List ℕ)
  pub threshold : ℕ
  pub maximum_wrong_visual_rate : ℕ
  pub minimum_positive_coverage : ℕ

-- A sorted set of scores.
unfoldable pub insert : ℕ → List ℕ → List ℕ
insert x [] = x ∷ []
insert x (y ∷ ys) = if ltb x y then x ∷ y ∷ ys else if x == y then y ∷ ys else y ∷ insert x ys

unfoldable pub candidates : ℕ → List Prediction → List ℕ
unfolding insert
candidates one [] = one ∷ []
candidates one (p ∷ ps) = insert p.score (candidates one ps)

abbrev pub is_calibration : Prediction → Bool
is_calibration p = same_split p.split calibration

abbrev pub is_evaluation : Prediction → Bool
is_evaluation p = same_split p.split evaluation

pub record Gate : Type 0 where
  pub passed : Bool
  pub counts : Counts

module _ (ratio : ℕ → ℕ → ℕ) (one : ℕ) where
  abbrev pub quotient : ℕ → ℕ → ℕ
  quotient m n = if n == 0 then 0 else ratio m n

  unfoldable pub selective_counts : List Prediction → ℕ → Counts
  unfolding count
  selective_counts ps threshold =
      let taken = select (accepted threshold) ps in
      record {
        cases = length ps;
        accepted = length taken;
        positives = count (λ p. is_positive p.label) ps;
        accepted_positives = count (λ p. is_positive p.label) taken;
        positive_coverage =
            quotient (count (λ p. is_positive p.label) taken) (count (λ p. is_positive p.label) ps);
        wrong_visual_accepted = count (λ p. is_wrong_visual p.label) taken;
        wrong_identity_accepted = count (λ p. is_wrong_identity p.label) taken;
        wrong_visual_rate = quotient (count (λ p. is_wrong_visual p.label) taken) (length taken);
      }

  unfoldable pub feasible : ℕ → Counts → Bool
  feasible maximum c = (c.wrong_identity_accepted == 0) && leb c.wrong_visual_rate maximum

  -- The key (accepted_positives, threshold) of `c` and `t` is above that of `d` and `u`.
  abbrev pub above : Counts → ℕ → Counts → ℕ → Bool
  above c t d u =
      ltb d.accepted_positives c.accepted_positives
      || ((d.accepted_positives == c.accepted_positives) && ltb u t)

  unfoldable pub preferred : List Prediction → ℕ → Option ℕ → Option ℕ
  unfolding selective_counts
  preferred ps t none = some t
  preferred ps t (some u) =
      if above (selective_counts ps u) u (selective_counts ps t) t then some u else some t

  -- The feasible candidate with the greatest key.
  unfoldable pub best_threshold : ℕ → List Prediction → List ℕ → Option ℕ
  unfolding feasible selective_counts preferred
  best_threshold maximum ps [] = none
  best_threshold maximum ps (t ∷ ts) =
      let rest = best_threshold maximum ps ts in
      if feasible maximum (selective_counts ps t) then preferred ps t rest else rest

  abbrev pub semantics_allowed : String → Bool
  semantics_allowed s = str_eq s "similarity" || str_eq s "calibrated_probability"

  unfoldable pub calibration_text : String → Option String → Result MetricError (Option (List ℕ))
  unfolding text
  calibration_text semantics none =
      if str_eq semantics "calibrated_probability" then err blank_text else ok none
  calibration_text semantics (some id) =
      if str_eq semantics "calibrated_probability"
      then (text id >>= λ t. ok (some t))
      else err named_calibration

  unfoldable pub chosen_threshold : Option ℕ → Result MetricError ℕ
  chosen_threshold none = err max_of_none
  chosen_threshold (some t) = ok t

  -- The checks of `freeze_policy` before a threshold is chosen.
  unfoldable pub admitted : List Prediction → Terms → Result MetricError (Unit {0})
  unfolding count
  admitted calibrated terms = do
    guard (not (is_nil calibrated)) no_calibration
    guard (not (count (λ p. is_positive p.label) calibrated == 0)) no_positive
    guard (lower_hex 64 terms.model_sha256) bad_digest
    guard (lower_hex 64 terms.dataset_sha256) bad_digest
    guard (leb terms.maximum_wrong_visual_rate one) bad_rate
    guard (leb terms.minimum_positive_coverage one) bad_coverage
    guard (semantics_allowed terms.score_semantics) bad_semantics

  -- The policy at the threshold, with the counts that belong to it.
  unfoldable pub frozen_at :
      List Prediction → Terms → ℕ → Result MetricError (FrozenPolicy × Counts)
  unfolding calibration_text text
  frozen_at calibrated terms threshold = do
    calibration_id ← calibration_text terms.score_semantics terms.calibration_id
    model_id ← text terms.model_id
    preprocessing_id ← text terms.preprocessing_id
    ok (
      record {
        model_id = model_id;
        model_sha256 = terms.model_sha256;
        preprocessing_id = preprocessing_id;
        dataset_sha256 = terms.dataset_sha256;
        score_semantics = terms.score_semantics;
        calibration_id = calibration_id;
        threshold = threshold;
        maximum_wrong_visual_rate = terms.maximum_wrong_visual_rate;
        minimum_positive_coverage = terms.minimum_positive_coverage;
      },
      selective_counts calibrated threshold,
    )

  unfoldable pub freeze_policy :
      List Prediction → Terms → Result MetricError (FrozenPolicy × Counts)
  unfolding validated_predictions admitted candidates best_threshold chosen_threshold frozen_at
  freeze_policy ps terms = do
    values ← validated_predictions ps
    let calibrated = select is_calibration values
    admitted calibrated terms
    threshold ←
        chosen_threshold
          (best_threshold terms.maximum_wrong_visual_rate calibrated (candidates one calibrated))
    frozen_at calibrated terms threshold

  unfoldable pub gate_passed : FrozenPolicy → Counts → Bool
  gate_passed policy c =
      (c.wrong_identity_accepted == 0)
      && (leb c.wrong_visual_rate policy.maximum_wrong_visual_rate
          && leb policy.minimum_positive_coverage c.positive_coverage)

  unfoldable pub evaluate_policy : List Prediction → FrozenPolicy → Result MetricError Gate
  unfolding validated_predictions gate_passed selective_counts
  evaluate_policy ps policy = do
    values ← validated_predictions ps
    let held_out = select is_evaluation values
    guard (not (is_nil held_out)) no_evaluation
    let c = selective_counts held_out policy.threshold
    ok (record { passed = gate_passed policy c; counts = c })
