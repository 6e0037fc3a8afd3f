-- ===== src/Platform/Candidate.antt =====
-- Which job `lease_next` of src/dsvire/platform_db.py picks.
use tokito_dsvire.Prelude.{
  ℕ, Bool, true, false, not, Option, none, some, List, [], ◌∷◌, ◌≡◌, refl, sym, subst, arith,
  if◌then◌else◌, All, In, Bool-cases, inl, inr, ◌⊎◌, ap, ◌∙◌, &&-true,
}
use tokito_dsvire.Platform.Tables.{Job}
use tokito_dsvire.Platform.Queue.{claimable, precedes, earlier, candidate, free}

earlier-cases : (j : Job) (o : Option Job) → (earlier j o ≡ j) ⊎ (o ≡ some (earlier j o))
unfolding earlier
earlier-cases j none = inl refl
earlier-cases j (some k) = elim (Bool-cases (precedes j k)) [
  | inl t ↦ inl (rw t)
  | inr t ↦ inr (rw t)
]

candidate-step :
    (locked : ℕ → Bool) (now : ℕ) (j : Job) (js : List Job)
    → candidate locked now (j ∷ js) ≡ (
        if free locked now j
        then some (earlier j (candidate locked now js))
        else candidate locked now js)
unfolding candidate
candidate-step locked now j js = refl

precedes_refl : (j : Job) → precedes j j ≡ true
unfolding precedes
precedes_refl j = ground arith

precedes_trans : (i j k : Job) → precedes i j ≡ true → precedes j k ≡ true → precedes i k ≡ true
unfolding precedes
precedes_trans i j k p q = ground arith

precedes_total : (j k : Job) → precedes j k ≡ false → precedes k j ≡ true
unfolding precedes
precedes_total j k p = ground arith

earlier-first : (j : Job) (o : Option Job) → precedes (earlier j o) j ≡ true
unfolding earlier
earlier-first j none = precedes_refl j
earlier-first j (some k) = elim (Bool-cases (precedes j k)) [
  | inl t ↦ rw t (precedes_refl j)
  | inr t ↦ rw t (precedes_total j k t)
]

earlier-rest : (j k : Job) → precedes (earlier j (some k)) k ≡ true
unfolding earlier
earlier-rest j k = elim (Bool-cases (precedes j k)) [
  | inl t ↦ rw t t
  | inr t ↦ rw t (precedes_refl k)
]

module _ (locked : ℕ → Bool) (now : ℕ) where
  -- What is picked is a row of the table, and is free.
  picked :
      (jobs : List Job) {c : Job}
      → candidate locked now jobs ≡ some c
      → In c jobs × (free locked now c ≡ true)
  picked [] e = unfold candidate in cc e
  picked (j ∷ js) {c} e = elim (Bool-cases (free locked now j)) [
    | inl t ↦ elim (earlier-cases j (candidate locked now js)) [
      | inl p ↦ (inl (chosen t ∙ p), ap (free locked now) (chosen t ∙ p) ∙ t)
      | inr p ↦ let (m, f) = picked js (p ∙ ap some (sym (chosen t))) in (inr m, f)
    ]
    | inr t ↦ let (m, f) = picked js {c = c} (passed t) in (inr m, f)
  ]
    where
      chosen : free locked now j ≡ true → c ≡ earlier j (candidate locked now js)
      chosen t = ground (arith, candidate-step locked now j js)

      passed : free locked now j ≡ false → candidate locked now js ≡ some c
      passed t = ground (arith, candidate-step locked now j js)

  pub candidate-In : (jobs : List Job) {c : Job} → candidate locked now jobs ≡ some c → In c jobs
  candidate-In jobs e = (picked jobs e).0

  pub candidate-claimable :
      (jobs : List Job) {c : Job}
      → candidate locked now jobs ≡ some c
      → (claimable now c ≡ true) × (not (locked c.job_id) ≡ true)
  candidate-claimable jobs {c} e = &&-true (claimable now c) _ (picked jobs e).1

  -- Nothing is picked only if no row is free.
  pub candidate-none :
      (jobs : List Job)
      → candidate locked now jobs ≡ none
      → All (λ j. free locked now j ≡ false) jobs
  candidate-none [] e = tt
  candidate-none (j ∷ js) e = elim (Bool-cases (free locked now j)) [
    | inl t ↦ absurd (ground (arith, candidate-step locked now j js))
    | inr t ↦ (t, candidate-none js (ground (arith, candidate-step locked now j js)))
  ]

  -- What is picked comes before every other free row.
  pub candidate-first :
      (jobs : List Job) {c : Job}
      → candidate locked now jobs ≡ some c
      → All (λ j. free locked now j ≡ true → precedes c j ≡ true) jobs
  candidate-first [] e = tt
  candidate-first (j ∷ js) {c} e = elim (Bool-cases (free locked now j)) [
    | inl t ↦ (
      λ _. subst (λ z. precedes z j ≡ true) (sym (chosen t)) (earlier-first j _),
      below t (candidate locked now js) refl (λ k q. candidate-first js {c = k} q),
    )
    | inr t ↦ (λ f. cc, candidate-first js (passed t))
  ]
    where
      chosen : free locked now j ≡ true → c ≡ earlier j (candidate locked now js)
      chosen t = ground (arith, candidate-step locked now j js)

      passed : free locked now j ≡ false → candidate locked now js ≡ some c
      passed t = ground (arith, candidate-step locked now j js)

      weaken :
          (k : Job) (ys : List Job)
          → precedes c k ≡ true
          → All (λ x. free locked now x ≡ true → precedes k x ≡ true) ys
          → All (λ x. free locked now x ≡ true → precedes c x ≡ true) ys
      weaken k [] p h = tt
      weaken k (y ∷ ys) p h = (λ f. precedes_trans c k y p (h.0 f), weaken k ys p h.1)

      never :
          (ys : List Job)
          → All (λ x. free locked now x ≡ false) ys
          → All (λ x. free locked now x ≡ true → precedes c x ≡ true) ys
      never [] h = tt
      never (y ∷ ys) h = (λ f. cc (h.0), never ys h.1)

      below :
          free locked now j ≡ true
          → (o : Option Job) → candidate locked now js ≡ o
          → ((k : Job)
              → candidate locked now js ≡ some k
              → All (λ x. free locked now x ≡ true → precedes k x ≡ true) js)
          → All (λ x. free locked now x ≡ true → precedes c x ≡ true) js
      below t none q ih = never js (candidate-none js q)
      below t (some k) q ih =
          weaken k js
            (subst (λ z. precedes z k ≡ true) (sym (chosen t ∙ ap (earlier j) q))
              (earlier-rest j k))
            (ih k q)
