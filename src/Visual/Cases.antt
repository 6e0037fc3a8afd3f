-- ===== src/Visual/Cases.antt =====
-- Predictions of src/dsvire/visual_metrics.py, their validation and their counts. A score or a
-- rate is a float of 0.0 or more, counted in a unit that divides them all.
use tokito_dsvire.Prelude.{
  ℕ, suc, String, Bool, true, false, ◌||◌, not, List, [], ◌∷◌, ◌++◌, ltb, if◌then◌else◌, Result, ok,
  guard, ◌>>◌, str_eq,
}

pub data Split : Type 0 where
  development calibration evaluation : Split

pub data Label : Type 0 where
  positive wrong_figure wrong_view wrong_package wrong_variant : Label

abbrev pub same_split : Split → Split → Bool
same_split development development = true
same_split calibration calibration = true
same_split evaluation evaluation = true
same_split _ _ = false

abbrev pub is_positive : Label → Bool
is_positive positive = true
is_positive _ = false

abbrev pub is_wrong_visual : Label → Bool
is_wrong_visual wrong_figure = true
is_wrong_visual wrong_view = true
is_wrong_visual _ = false

abbrev pub is_wrong_identity : Label → Bool
is_wrong_identity wrong_package = true
is_wrong_identity wrong_variant = true
is_wrong_identity _ = false

pub record Prediction : Type 0 where
  pub case_id : String
  pub document_group : String
  pub split : Split
  pub label : Label
  pub score : ℕ

-- The VisualMetricError of each branch, and the ValueError of max() on no value.
pub data MetricError : Type 0 where
  no_predictions duplicate_case leaking_group no_calibration no_positive bad_digest : MetricError
  bad_rate bad_coverage bad_semantics named_calibration blank_text no_evaluation max_of_none :
      MetricError

unfoldable pub has_id : String → List String → Bool
has_id x [] = false
has_id x (y ∷ ys) = str_eq y x || has_id x ys

pub record Group : Type 0 where
  pub name : String
  pub split : Split

-- `group_splits.setdefault(…)`: the split that the group has, or now gets.
unfoldable pub split_of : Prediction → List Group → Split
split_of p [] = p.split
split_of p (g ∷ gs) = if str_eq g.name p.document_group then g.split else split_of p gs

unfoldable pub check_all :
    List String → List Group → List Prediction → Result MetricError (Unit {0})
unfolding has_id split_of
check_all ids groups [] = ok tt
check_all ids groups (p ∷ ps) = do
  guard (not (has_id p.case_id ids)) duplicate_case
  guard (same_split (split_of p groups) p.split) leaking_group
  check_all (p.case_id ∷ ids)
      (groups ++ record { name = p.document_group; split = split_of p groups } ∷ []) ps

abbrev pub is_nil {ℓ} : {A : Type ℓ} → List A → Bool
is_nil [] = true
is_nil (x ∷ xs) = false

unfoldable pub validated_predictions : List Prediction → Result MetricError (List Prediction)
unfolding check_all
validated_predictions ps = do guard (not (is_nil ps)) no_predictions; check_all [] [] ps; ok ps

abbrev pub accepted : ℕ → Prediction → Bool
accepted threshold p = ltb threshold p.score

-- `sum(test(value) for value in values)`
unfoldable pub count : (Prediction → Bool) → List Prediction → ℕ
count test [] = 0
count test (p ∷ ps) = if test p then suc (count test ps) else count test ps

pub record Counts : Type 0 where
  pub cases : ℕ
  pub accepted : ℕ
  pub positives : ℕ
  pub accepted_positives : ℕ
  pub positive_coverage : ℕ
  pub wrong_visual_accepted : ℕ
  pub wrong_identity_accepted : ℕ
  pub wrong_visual_rate : ℕ
