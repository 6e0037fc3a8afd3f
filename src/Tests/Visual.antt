-- ===== src/Tests/Visual.antt =====
-- Runs of src/dsvire/visual_metrics.py on three predictions, and the laws of Visual at them.
use tokito_dsvire.Prelude.{
  strip_right, strip_left, ℕ, ◌*◌, ◌/◌, String, true, none, some, List, [], ◌∷◌, ◌≡◌, ◌≢◌, refl,
  arith, ◌↔◌, ◌==◌, if◌then◌else◌, ok, is_ok, codes,
}
use tokito_dsvire.Visual.Cases.{
  calibration, evaluation, positive, wrong_package, Prediction, has_id, split_of, check_all,
  validated_predictions, count, Counts,
}
use tokito_dsvire.Visual.Policy.{
  Terms, FrozenPolicy, text, insert, candidates, selective_counts, feasible, preferred,
  best_threshold, calibration_text, chosen_threshold, admitted, frozen_at, freeze_policy, Gate,
  gate_passed, evaluate_policy,
}
use tokito_dsvire.Visual.Leaks.{id_of, Unleaked, validated_predictions-Unleaked}
use tokito_dsvire.Prelude.{Distinct, map, ◌↔◌, []}
use tokito_dsvire.Visual.Freezing.{Frozen, freeze_policy-Frozen, freeze_policy_succeeds}
use tokito_dsvire.Visual.Judging.{Passes, evaluate_policy-Passes}

abbrev right : Prediction
right = record {
  case_id = "a";
  document_group = "g1";
  split = calibration;
  label = positive;
  score = 90;
}

abbrev wrong : Prediction
wrong = record {
  case_id = "b";
  document_group = "g2";
  split = calibration;
  label = wrong_package;
  score = 40;
}

abbrev held_out : Prediction
held_out = record {
  case_id = "c";
  document_group = "g3";
  split = evaluation;
  label = positive;
  score = 95;
}

abbrev predictions : List Prediction
predictions = right ∷ wrong ∷ held_out ∷ []

abbrev percent : ℕ → ℕ → ℕ
percent m n = if m == 0 then 0 else (100 * m) / n

abbrev digest : String
digest = "0123456789abcdef0123456789abcdef0123456789abcdef0123456789abcdef"

abbrev terms : Terms
terms = record {
  model_id = " egvv ";
  model_sha256 = digest;
  preprocessing_id = "crop";
  dataset_sha256 = digest;
  score_semantics = "similarity";
  calibration_id = none;
  maximum_wrong_visual_rate = 2;
  minimum_positive_coverage = 50;
}

abbrev policy : FrozenPolicy
policy = record {
  model_id = codes "egvv";
  model_sha256 = digest;
  preprocessing_id = codes "crop";
  dataset_sha256 = digest;
  score_semantics = "similarity";
  calibration_id = none;
  threshold = 40;
  maximum_wrong_visual_rate = 2;
  minimum_positive_coverage = 50;
}

valid : validated_predictions predictions ≡ ok predictions
unfolding validated_predictions check_all has_id split_of
valid = refl

validated_predictions-Unleaked_example : (validated_predictions predictions ≡ ok predictions) ↔ (
    (predictions ≡ predictions)
    × (predictions ≢ [])
    × Distinct (map id_of predictions)
    × Unleaked predictions)
validated_predictions-Unleaked_example = validated_predictions-Unleaked predictions predictions

egvv : text " egvv " ≡ ok (codes "egvv")
unfolding text strip_left strip_right
egvv = refl

crop : text "crop" ≡ ok (codes "crop")
unfolding text strip_left strip_right
crop = refl

chosen :
    best_threshold percent 100 2 (right ∷ wrong ∷ []) (candidates 100 (right ∷ wrong ∷ []))
    ≡ some 40
unfolding best_threshold candidates insert feasible preferred selective_counts count
chosen = refl

abbrev frozen_counts : Counts
frozen_counts = selective_counts percent 100 (right ∷ wrong ∷ []) 40

admits : admitted percent 100 (right ∷ wrong ∷ []) terms ≡ ok tt
unfolding admitted count
admits = refl

no_id : calibration_text percent 100 "similarity" none ≡ ok none
unfolding calibration_text
no_id = refl

freezes : freeze_policy percent 100 predictions terms ≡ ok (policy, frozen_counts)
unfolding freeze_policy frozen_at chosen_threshold validated_predictions check_all has_id split_of
    admitted count best_threshold candidates insert feasible preferred selective_counts
    calibration_text text strip_left strip_right
freezes = refl

freeze_policy-Frozen_example : Frozen percent 100 predictions terms (policy, frozen_counts)
freeze_policy-Frozen_example = freeze_policy-Frozen percent 100 predictions terms freezes

freeze_policy_succeeds_example : is_ok (freeze_policy percent 100 predictions terms) ≡ true
freeze_policy_succeeds_example =
    freeze_policy_succeeds percent 100 predictions terms valid admits
      (omega arith, (omega arith, tt)) no_id egvv crop

abbrev gate : Gate
gate = record { passed = true; counts = selective_counts percent 100 (held_out ∷ []) 40 }

judges : evaluate_policy percent 100 predictions policy ≡ ok gate
unfolding evaluate_policy gate_passed selective_counts count validated_predictions check_all has_id
    split_of
judges = refl

evaluate_policy-Passes_example : (gate.passed ≡ true) ↔ Passes percent 100 predictions policy
evaluate_policy-Passes_example = evaluate_policy-Passes percent 100 predictions policy judges

-- With no coverage asked for, abstaining passes.
abbrev abstaining : FrozenPolicy
abstaining = record policy { threshold = 100; minimum_positive_coverage = 0 }

abbrev empty_gate : Gate
empty_gate = record { passed = true; counts = selective_counts percent 100 (held_out ∷ []) 100 }

abstains : evaluate_policy percent 100 predictions abstaining ≡ ok empty_gate
unfolding evaluate_policy gate_passed selective_counts count validated_predictions check_all has_id
    split_of
abstains = refl
