-- ===== src/Platform/Submitted.antt =====
-- A submission that src/dsvire/platform_db.py has taken, and what `submit` finds under its key.
use tokito_dsvire.Prelude.{
  ℕ, String, true, false, Option, none, some, List, [], ◌∷◌, ◌++◌, ◌≡◌, ◌≢◌, refl, ◌∙◌, ap, arith,
  find, find-In, find-true, find-none, In, All-In, same-row, eq_iff, Bool-cases, inl, inr, ◌⊎◌,
}
use mathlib.Core.Bool.{decide}
use tokito_dsvire.Platform.Tables.{Json, Json-discrete, Document, Job, Db}
use tokito_dsvire.Platform.Submit.{
  Submission, document_allowed, job_allowed, same_document, same_key, same_request,
}
use tokito_dsvire.Platform.Documents.{Step-Keeps}
use tokito_dsvire.Platform.Unique.{job_key}
use tokito_dsvire.Platform.Lifecycle.{Step-Evolves, Reach-Valid}
use tokito_dsvire.Platform.Steps.{Step, Reach, here, next, IsValid}

-- The database has taken the submission `s` as the job `i`.
pub record Taken (s : Submission) (i : ℕ) (db : Db) : Type 0 where
  pub document_fits : document_allowed s.document ≡ true
  pub job_fits : job_allowed s.idempotency_key s.max_attempts ≡ true
  pub document : Document
  pub stored : find (same_document s.tenant_id s.document.sha256) db.documents ≡ some document
  pub job : Job
  pub row : In job db.jobs
  pub named : job.job_id ≡ i
  pub keyed : (job.tenant_id ≡ s.tenant_id) × (job.idempotency_key ≡ s.idempotency_key)
  pub asked : (job.document_id ≡ document.document_id) × (job.request ≡ s.request)

decide-eq : (a b : Json) → decide (Json-discrete a b) ≡ true → a ≡ b
unfolding decide
decide-eq a b h = split (Json-discrete a b) h
  where
    split : (d : Dec (a ≡ b)) → decide d ≡ true → a ≡ b
    split (yes p) k = p
    split (no p) k = cc

eq-decide : (a b : Json) → a ≡ b → decide (Json-discrete a b) ≡ true
unfolding decide
eq-decide a b h = split (Json-discrete a b)
  where
    split : (d : Dec (a ≡ b)) → decide d ≡ true
    split (yes p) = refl
    split (no p) = absurd (p h)

pub same_key-eq :
    (t : ℕ) (k : String) (j : Job)
    → same_key t k j ≡ true
    → (j.tenant_id ≡ t) × (j.idempotency_key ≡ k)
unfolding same_key
same_key-eq t k j h = ground (arith, eq_iff j.idempotency_key k)

eq-same_key :
    (t : ℕ) (k : String) (j : Job) → j.tenant_id ≡ t → j.idempotency_key ≡ k → same_key t k j ≡ true
unfolding same_key
eq-same_key t k j p q = ground (arith, eq_iff j.idempotency_key k)

pub same_request-eq :
    (d : ℕ) (r : Json) (j : Job) → same_request d r j ≡ true → (j.document_id ≡ d) × (j.request ≡ r)
unfolding same_request
same_request-eq d r j h = (ground arith, decide-eq j.request r (ground arith))

pub eq-same_request :
    (d : ℕ) (r : Json) (j : Job) → j.document_id ≡ d → j.request ≡ r → same_request d r j ≡ true
unfolding same_request
eq-same_request d r j p q = ground (arith, eq-decide j.request r q)

pub ne-same_request :
    (d : ℕ) (r : Json) (j : Job)
    → (j.document_id ≢ d) ⊎ (j.request ≢ r)
    → same_request d r j ≡ false
ne-same_request d r j h = elim (Bool-cases (same_request d r j)) [
  | inl t ↦
      let (p, q) = same_request-eq d r j t in elim h [ inl n ↦ absurd (n p) | inr n ↦ absurd (n q) ]
  | inr t ↦ t
]

pub In-last : (js : List Job) (j : Job) → In j (js ++ j ∷ [])
In-last [] j = inl refl
In-last (x ∷ js) j = inr (In-last js j)

-- Later transactions leave it taken.
Step-Taken :
    (s : Submission) (i : ℕ) {db db' : Db} → Step db db' → IsValid db → Taken s i db → Taken s i db'
Step-Taken s i st v t =
    let (j, m, e) = Step-Evolves st v t.job t.row in
    record {
      document_fits = t.document_fits;
      job_fits = t.job_fits;
      document = t.document;
      stored = Step-Keeps st s.tenant_id s.document.sha256 t.document t.stored;
      job = j;
      row = m;
      named = e.same_id ∙ t.named;
      keyed = (e.same_request.0 ∙ t.keyed.0, e.same_request.1 ∙ t.keyed.1);
      asked = (e.same_request.2 ∙ t.asked.0, e.same_request.3 ∙ t.asked.1);
    }

pub Reach-Taken :
    (s : Submission) (i : ℕ) {db db' : Db}
    → Reach db db'
    → IsValid db
    → Taken s i db
    → Taken s i db'
Reach-Taken s i here v t = t
Reach-Taken s i (next r st) v t = Step-Taken s i st (Reach-Valid r v) (Reach-Taken s i r v t)

-- The row that a taken submission's key finds.
pub found-Taken :
    (s : Submission) (i : ℕ) (db : Db)
    → IsValid db
    → (t : Taken s i db) → find (same_key s.tenant_id s.idempotency_key) db.jobs ≡ some t.job
found-Taken s i db v t = split (find (same_key s.tenant_id s.idempotency_key) db.jobs) refl
  where
    mine : same_key s.tenant_id s.idempotency_key t.job ≡ true
    mine = eq-same_key s.tenant_id s.idempotency_key t.job t.keyed.0 t.keyed.1

    split :
        (o : Option Job)
        → find (same_key s.tenant_id s.idempotency_key) db.jobs ≡ o
        → find (same_key s.tenant_id s.idempotency_key) db.jobs ≡ some t.job
    split none e = absurd (
        ground (
          arith,
          mine,
          All-In (λ x. same_key s.tenant_id s.idempotency_key x ≡ false) db.jobs
              (find-none _ db.jobs e) t.row,
        ))
    split (some x) e =
        let (p, q) = same_key-eq s.tenant_id s.idempotency_key x (find-true _ db.jobs e) in
        e
        ∙ ap some (
            same-row job_key db.jobs v.keyed.keys (find-In _ db.jobs e) t.row
              (ground (arith, t.keyed)))
