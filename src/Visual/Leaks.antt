-- ===== src/Visual/Leaks.antt =====
-- What `_validated_predictions` of src/dsvire/visual_metrics.py lets through.
use tokito_dsvire.Prelude.{
  String, true, false, List, [], ◌∷◌, ◌++◌, ◌≡◌, ◌≢◌, ◌↔◌, refl, sym, ap, ◌∙◌, subst, arith, inl,
  inr, Result, ok, err, ◌>>◌, map, str_eq, eq_iff, eq_refl, Bool-cases, All, All-map, Distinct,
}
use tokito_dsvire.Visual.Cases.{
  Split, development, calibration, evaluation, same_split, Prediction, MetricError, has_id, Group,
  split_of, check_all, validated_predictions,
}

same_split-eq : (a b : Split) → same_split a b ≡ true → a ≡ b
same_split-eq development development h = refl
same_split-eq calibration calibration h = refl
same_split-eq evaluation evaluation h = refl
same_split-eq development calibration h = cc
same_split-eq development evaluation h = cc
same_split-eq calibration development h = cc
same_split-eq calibration evaluation h = cc
same_split-eq evaluation development h = cc
same_split-eq evaluation calibration h = cc

same_split_refl : (a : Split) → same_split a a ≡ true
same_split_refl development = refl
same_split_refl calibration = refl
same_split_refl evaluation = refl

abbrev pub id_of : Prediction → String
id_of p = p.case_id

-- Predictions of one document group stand in one split.
abbrev pub Unleaked : List Prediction → Type 0
Unleaked [] = Unit
Unleaked (p ∷ ps) =
    All (λ q. q.document_group ≡ p.document_group → p.split ≡ q.split) ps × Unleaked ps

-- The group that a prediction joins, after the groups that are known.
abbrev grown : Prediction → List Group → List Group
grown p groups = groups ++ record { name = p.document_group; split = split_of p groups } ∷ []

split_of-grown :
    (p q : Prediction) (groups : List Group) (s : Split)
    → q.document_group ≡ p.document_group
    → s ≡ split_of p groups
    → split_of q (groups ++ record { name = p.document_group; split = s } ∷ []) ≡ s
unfolding split_of
split_of-grown p q [] s e f = rw e (rw (eq_refl p.document_group) refl)
split_of-grown p q (g ∷ gs) s e f = elim (Bool-cases (str_eq g.name p.document_group)) [
  | inl t ↦ rw e (ground arith)
  | inr t ↦ rw e (rw t (split_of-grown p q gs s e (ground arith)))
]

split_of-append :
    (q : Prediction) (groups : List Group) (x : Group)
    → split_of q (groups ++ x ∷ []) ≡ q.split
    → split_of q groups ≡ q.split
unfolding split_of
split_of-append q [] x e = refl
split_of-append q (g ∷ gs) x e = elim (Bool-cases (str_eq g.name q.document_group)) [
  | inl t ↦ ground arith
  | inr t ↦ rw t (split_of-append q gs x (ground arith))
]

abbrev Fits : List String → List Group → List Prediction → Type 0
Fits ids groups ps =
    All (λ p. has_id p.case_id ids ≡ false) ps
    × All (λ p. split_of p groups ≡ p.split) ps
    × Distinct (map id_of ps)
    × Unleaked ps

All-mapped :
    (x : String) (ids : List String) (ps : List Prediction)
    → All (λ p. has_id p.case_id (x ∷ ids) ≡ false) ps
    → All (λ y. x ≢ y) (map id_of ps)
unfolding has_id
All-mapped x ids [] h = tt
All-mapped x ids (p ∷ ps) h =
    ((λ e. ground (arith, h.0, eq_iff x p.case_id)), All-mapped x ids ps h.1)

check_all-Fits :
    (ids : List String) (groups : List Group) (ps : List Prediction)
    → check_all ids groups ps ≡ ok tt
    → Fits ids groups ps
unfolding check_all
check_all-Fits ids groups [] e = (tt, tt, tt, tt)
check_all-Fits ids groups (p ∷ ps) e = elim (Bool-cases (has_id p.case_id ids)) [
  | inl t ↦ ground arith
  | inr t ↦ elim (Bool-cases (same_split (split_of p groups) p.split)) [
    | inl u ↦
        let own : split_of p groups ≡ p.split = same_split-eq (split_of p groups) p.split u in
        let (fresh, kept, distinct, apart) =
          check_all-Fits (p.case_id ∷ ids) (grown p groups) ps (ground arith) in
        (
          (t, All-map _ _ ps (λ q h. unfold has_id in ground (arith, h)) fresh),
          (own, All-map _ _ ps (λ q h. split_of-append q groups _ h) kept),
          (All-mapped p.case_id ids ps fresh, distinct),
          (
            All-map _ _ ps
                (λ q h g. sym own ∙ sym (split_of-grown p q groups (split_of p groups) g refl) ∙ h)
                kept,
            apart,
          ),
        )
    | inr u ↦ ground arith
  ]
]

-- Predictions that are let through are at least one, no two of them are of one case, and those of
-- one document group stand in one split.
pub validated-Unleaked :
    (ps : List Prediction) {vs : List Prediction}
    → validated_predictions ps ≡ ok vs
    → (vs ≡ ps) × (vs ≢ []) × Distinct (map id_of vs) × Unleaked vs
unfolding validated_predictions
validated-Unleaked [] e = ground arith
validated-Unleaked (p ∷ ps) {vs} e = pick (check_all [] [] (p ∷ ps)) refl e
  where
    pick :
        (r : Result MetricError (Unit {0}))
        → check_all [] [] (p ∷ ps) ≡ r
        → (r >> ok (p ∷ ps)) ≡ ok vs
        → (vs ≡ p ∷ ps) × (vs ≢ []) × Distinct (map id_of vs) × Unleaked vs
    pick (err x) q h = cc
    pick (ok u) q h =
        let (fresh, kept, distinct, apart) = check_all-Fits [] [] (p ∷ ps) (ground (arith, q)) in
        subst (λ v. (v ≡ p ∷ ps) × (v ≢ []) × Distinct (map id_of v) × Unleaked v) {x = p ∷ ps}
          (ground arith) (refl, (λ z. cc), distinct, apart)

split_of-joined :
    (p q : Prediction) (groups : List Group)
    → split_of p groups ≡ p.split
    → split_of q groups ≡ q.split
    → (q.document_group ≡ p.document_group → p.split ≡ q.split)
    → split_of q (grown p groups) ≡ q.split
unfolding split_of
split_of-joined p q groups own kept one =
    elim (Bool-cases (str_eq p.document_group q.document_group)) [
      | inl t ↦
          let same : p.document_group ≡ q.document_group =
            ground (arith, t, eq_iff p.document_group q.document_group) in
          split_of-grown p q groups (split_of p groups) (sym same) refl ∙ own ∙ one (sym same)
      | inr t ↦ away groups kept t
    ]
  where
    away :
        (gs : List Group)
        → split_of q gs ≡ q.split
        → str_eq p.document_group q.document_group ≡ false
        → split_of q (gs ++ record { name = p.document_group; split = split_of p groups } ∷ [])
          ≡ q.split
    away [] k t = rw t refl
    away (g ∷ gs) k t = elim (Bool-cases (str_eq g.name q.document_group)) [
      | inl e ↦ rw e (ground (arith, k, e))
      | inr e ↦ rw e (away gs (ground (arith, k, e)) t)
    ]

Fits-check_all :
    (ids : List String) (groups : List Group) (ps : List Prediction)
    → Fits ids groups ps
    → check_all ids groups ps ≡ ok tt
unfolding check_all has_id
Fits-check_all ids groups [] h = refl
Fits-check_all ids groups (p ∷ ps) (fresh, kept, distinct, apart) =
    let same : same_split (split_of p groups) p.split ≡ true =
      subst (λ s. same_split s p.split ≡ true) (sym kept.0) (same_split_refl p.split) in
    rw fresh.0 (
      rw same (
        Fits-check_all (p.case_id ∷ ids) (grown p groups) ps
          (unseen ps fresh.1 distinct.0, joined ps kept.1 apart.0, distinct.1, apart.1)))
  where
    unseen :
        (qs : List Prediction)
        → All (λ q. has_id q.case_id ids ≡ false) qs
        → All (λ y. p.case_id ≢ y) (map id_of qs)
        → All (λ q. has_id q.case_id (p.case_id ∷ ids) ≡ false) qs
    unseen [] a b = tt
    unseen (q ∷ qs) a b = (
      elim (Bool-cases (str_eq p.case_id q.case_id)) [
        | inl t ↦ absurd (b.0 (ground (arith, t, eq_iff p.case_id q.case_id)))
        | inr t ↦ rw t a.0
      ],
      unseen qs a.1 b.1,
    )

    joined :
        (qs : List Prediction)
        → All (λ q. split_of q groups ≡ q.split) qs
        → All (λ q. q.document_group ≡ p.document_group → p.split ≡ q.split) qs
        → All (λ q. split_of q (grown p groups) ≡ q.split) qs
    joined [] a b = tt
    joined (q ∷ qs) a b = (split_of-joined p q groups kept.0 a.0 b.0, joined qs a.1 b.1)

-- Predictions are let through exactly when they are at least one, no two of them are of one case, and
-- those of one document group stand in one split; and they are let through unchanged.
pub validated_predictions-Unleaked :
    (ps vs : List Prediction)
    → (validated_predictions ps ≡ ok vs)
      ↔ ((vs ≡ ps) × (vs ≢ []) × Distinct (map id_of vs) × Unleaked vs)
unfolding validated_predictions has_id split_of
validated_predictions-Unleaked ps vs = (
  validated-Unleaked ps,
  λ (same, some_case, distinct, apart). back ps vs same some_case distinct apart,
)
  where
    back :
        (ps vs : List Prediction)
        → vs ≡ ps
        → vs ≢ []
        → Distinct (map id_of vs)
        → Unleaked vs
        → validated_predictions ps ≡ ok vs
    back [] vs e n d a = absurd (n e)
    back (p ∷ ps) vs e n d a =
        let d' = subst (λ v. Distinct (map id_of v)) e d in
        let a' = subst Unleaked e a in
        let checked =
          Fits-check_all [] [] (p ∷ ps) (none_seen (p ∷ ps), no_groups (p ∷ ps), d', a') in
        rw checked (ap ok (sym e))
      where
        none_seen : (qs : List Prediction) → All (λ q. has_id q.case_id [] ≡ false) qs
        none_seen [] = tt
        none_seen (q ∷ qs) = (refl, none_seen qs)

        no_groups : (qs : List Prediction) → All (λ q. split_of q [] ≡ q.split) qs
        no_groups [] = tt
        no_groups (q ∷ qs) = (refl, no_groups qs)
