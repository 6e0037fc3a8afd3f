-- ===== src/Platform/Unique.antt =====
-- The keys of dsvire_job: its primary key and UNIQUE (tenant_id, idempotency_key).
use tokito_dsvire.Prelude.{
  Ensures, Ensures-ok, ℕ, String, Bool, false, Option, none, some, List, [], ◌∷◌, ◌++◌, ◌≡◌, ◌≢◌,
  refl, arith, ◌==◌, ==-ne, eq_iff, map, map-update, Distinct, Distinct-snoc, All, find-none, find,
  update, ok,
}
use mathlib.Core.List.{map-append}
use tokito_dsvire.Platform.Tables.{Json, Job, Document, Db}
use tokito_dsvire.Platform.Queue.{
  log_event, lease_row, grant, lease_candidate, candidate, lease_next, beat_row, beat, heartbeat,
  holds, owns, leased_to, finish_current, finish, has_job_id,
}
use tokito_dsvire.Platform.Submission.{submit-Ensures, with_job}
use tokito_dsvire.Platform.Submit.{
  Submission, new_job, cancel_row, cancellable, request_cancel, cancel_found, same_key, submit,
}

pub record JobKey : Type 0 where
  pub tenant : ℕ
  pub key : String

abbrev pub job_key : Job → JobKey
job_key j = record { tenant = j.tenant_id; key = j.idempotency_key }

abbrev pub id_of : Job → ℕ
id_of j = j.job_id

pub record IsKeyed (db : Db) : Type 0 where
  pub ids : Distinct (map id_of db.jobs)
  pub keys : Distinct (map job_key db.jobs)

-- An UPDATE that leaves the key columns alone.
update-IsKeyed :
    (p : Job → Bool) (f : Job → Job) (db : Db) {db' : Db}
    → ((j : Job) → id_of (f j) ≡ id_of j)
    → ((j : Job) → job_key (f j) ≡ job_key j)
    → db'.jobs ≡ update p f db.jobs
    → IsKeyed db
    → IsKeyed db'
update-IsKeyed p f db ids keys e h = record {
  ids = rw (e, map-update id_of p f ids) h.ids;
  keys = rw (e, map-update job_key p f keys) h.keys;
}

pub lease_next-IsKeyed :
    (locked : ℕ → Bool) (now : ℕ) (owner : String) (secs : ℕ) (db : Db)
    → IsKeyed db
    → IsKeyed (lease_next locked now owner secs db).1
unfolding lease_next
lease_next-IsKeyed locked now owner secs db h = pick (candidate locked now db.jobs)
  where
    granted : (c : Job) (d : Option Document) → IsKeyed (grant now owner secs c d db).1
    granted c none = h
    granted c (some d) =
        update-IsKeyed (has_job_id c.job_id) (lease_row now owner secs) db (λ j. refl) (λ j. refl)
          refl h

    pick : (o : Option Job) → IsKeyed (lease_candidate now owner secs o db).1
    pick none = h
    pick (some c) = granted c (find (λ d. d.document_id == c.document_id) db.documents)

pub heartbeat-IsKeyed :
    (now job_id : ℕ) (owner stage : String) (secs : ℕ) (db : Db)
    → IsKeyed db
    → IsKeyed (heartbeat now job_id owner stage secs db).1
unfolding heartbeat
heartbeat-IsKeyed now job_id owner stage secs db h = pick (find (holds now job_id owner) db.jobs)
  where
    pick : (o : Option Job) → IsKeyed (beat now job_id owner stage secs o db).1
    pick none = h
    pick (some c) =
        update-IsKeyed (holds now job_id owner) (beat_row now stage secs) db (λ j. refl) (λ j. refl)
          refl h

pub request_cancel-IsKeyed :
    (now tenant_id job_id : ℕ) (db : Db)
    → IsKeyed db
    → IsKeyed (request_cancel now tenant_id job_id db).1
unfolding request_cancel
request_cancel-IsKeyed now tenant_id job_id db h =
    pick (find (cancellable tenant_id job_id) db.jobs)
  where
    pick : (o : Option Job) → IsKeyed (cancel_found now tenant_id job_id o db).1
    pick none = h
    pick (some c) =
        update-IsKeyed (cancellable tenant_id job_id) (cancel_row now) db (λ j. refl) (λ j. refl)
          refl h

pub finish-IsKeyed :
    (now job_id : ℕ) (owner : String) (result : Option Json) (error_code : Option String)
    (retryable : Bool) (db : Db) {db' : Db}
    → finish now job_id owner result error_code retryable db ≡ ok db'
    → IsKeyed db
    → IsKeyed db'
unfolding finish
finish-IsKeyed now job_id owner result error_code retryable db e h =
    Ensures-ok IsKeyed _ (pick (find (leased_to job_id owner) db.jobs)) e
  where
    pick :
        (o : Option Job)
        → Ensures IsKeyed (finish_current now job_id owner result error_code retryable o db)
    pick none = tt
    pick (some c) = update-IsKeyed (owns job_id owner) _ db (λ j. refl) (λ j. refl) refl h

ne_of_same_key :
    (tenant_id : ℕ) (k : String) (xs : List Job)
    → All (λ j. same_key tenant_id k j ≡ false) xs
    → All (λ y. y ≢ record { tenant = tenant_id; key = k }) (map job_key xs)
unfolding same_key
ne_of_same_key tenant_id k [] h = tt
ne_of_same_key tenant_id k (x ∷ xs) h =
    ((λ e. ground (arith, h.0, eq_iff x.idempotency_key k)), ne_of_same_key tenant_id k xs h.1)

ne_of_has_job_id :
    (i : ℕ) (xs : List Job) → All (λ j. has_job_id i j ≡ false) xs → All (λ y. y ≢ i) (map id_of xs)
ne_of_has_job_id i [] h = tt
ne_of_has_job_id i (x ∷ xs) h = (==-ne x.job_id i h.0, ne_of_has_job_id i xs h.1)

append-IsKeyed :
    (db : Db) {db' : Db} (j : Job)
    → db'.jobs ≡ db.jobs ++ j ∷ []
    → find (same_key j.tenant_id j.idempotency_key) db.jobs ≡ none
    → find (has_job_id j.job_id) db.jobs ≡ none
    → IsKeyed db
    → IsKeyed db'
append-IsKeyed db j e key_free id_free h = record {
  ids = rw (e, map-append) (Distinct-snoc _ _ h.ids (ne_of_has_job_id _ _ (find-none _ _ id_free)));
  keys =
      rw (e, map-append) (Distinct-snoc _ _ h.keys (ne_of_same_key _ _ _ (find-none _ _ key_free)));
}

pub submit-IsKeyed :
    (now fd fj : ℕ) (s : Submission) (db : Db) {r : ℕ × Bool} {db' : Db}
    → submit now fd fj s db ≡ ok (r, db')
    → IsKeyed db
    → IsKeyed db'
submit-IsKeyed now fd fj s db e h =
    Ensures-ok (λ r. IsKeyed r.1) _
      (submit-Ensures now fd fj s db (λ r. IsKeyed r.1) (λ d docs i a k f. added d docs k f)
        (λ d docs j i k t. record { ids = h.ids; keys = h.keys }))
      e
  where
    added :
        (d : ℕ) (docs : List Document)
        → find (same_key s.tenant_id s.idempotency_key) db.jobs ≡ none
        → find (has_job_id fj) db.jobs ≡ none
        → IsKeyed (with_job now fj d s db docs)
    added d docs k f = unfold log_event new_job in append-IsKeyed db (new_job now fj d s) refl k f h
