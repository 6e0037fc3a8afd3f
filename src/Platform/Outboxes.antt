-- ===== src/Platform/Outboxes.antt =====
-- What `claim_outbox` and `acknowledge_outbox` of src/dsvire/platform_db.py promise a publisher.
use tokito_dsvire.Prelude.{
  ℕ, zero, suc, String, Bool, true, false, ◌&&◌, not, Option, none, some, List, [], ◌∷◌, ◌≡◌, refl,
  ap, subst, arith, ◌==◌, is_some, find, update, In, In-append, In-update, set_if, Bool-cases, inl,
  inr, ok, Ensures, Ensures-ok,
}
use tokito_dsvire.Platform.Tables.{Json, Outbox, Db, Job, Document}
use tokito_dsvire.Platform.Queue.{
  holds, leased_to, log_event, lease_next, lease_candidate, candidate, grant, heartbeat, beat,
  finish, finish_current,
}
use tokito_dsvire.Platform.Submit.{
  cancellable, Submission, submit, request_cancel, cancel_found, page_size,
}
use tokito_dsvire.Platform.Delivery.{
  deliverable, claim_row, mark_claimed, claim_outbox, claimed_by, publish_row, acknowledge_outbox,
}
use tokito_dsvire.Platform.Submission.{submit-Ensures}
use tokito_dsvire.Platform.Steps.{
  Step, submit_step, lease_step, heartbeat_step, finish_step, cancel_step, claim_step,
  acknowledge_step, tenant_step, key_step, authenticate_step, Reach, here, next,
  ensure_tenant-SameWork, issue_api_key-SameWork, authenticate-SameWork,
}

-- The publication of a message is final.
published_row :
    (p : Outbox → Bool) (f : Outbox → Outbox) (rows : List Outbox) (o : Outbox)
    → p o ≡ false
    → In o rows
    → In o (update p f rows)
published_row p f rows o e m = subst (λ x. In x (update p f rows)) (left e) (In-update p f rows o m)
  where
    left : p o ≡ false → set_if p f o ≡ o
    left t = rw t

abbrev takes : (ℕ → Bool) → ℕ → Outbox → Bool
takes locked now o = deliverable now o && not (locked o.outbox_id)

module _ (locked : ℕ → Bool) (now : ℕ) (owner : String) where
  mark_hit :
      (n : ℕ) (x : Outbox) (rows : List Outbox)
      → takes locked now x ≡ true
      → mark_claimed locked now owner (suc n) (x ∷ rows)
        ≡ claim_row now owner x ∷ mark_claimed locked now owner n rows
  unfolding mark_claimed
  mark_hit n x rows t = ground arith

  mark_miss :
      (n : ℕ) (x : Outbox) (rows : List Outbox)
      → takes locked now x ≡ false
      → mark_claimed locked now owner (suc n) (x ∷ rows)
        ≡ x ∷ mark_claimed locked now owner (suc n) rows
  unfolding mark_claimed
  mark_miss n x rows t = ground arith

  mark_zero : (rows : List Outbox) → mark_claimed locked now owner zero rows ≡ rows
  unfolding mark_claimed
  mark_zero rows = refl

  mark_nil : (n : ℕ) → mark_claimed locked now owner n [] ≡ []
  unfolding mark_claimed
  mark_nil zero = refl
  mark_nil (suc n) = refl

  -- A row that is not taken stays as it is.
  mark_claimed-keeps :
      (n : ℕ) (rows : List Outbox) (o : Outbox)
      → takes locked now o ≡ false
      → In o rows
      → In o (mark_claimed locked now owner n rows)
  mark_claimed-keeps zero rows o h m = rw mark_zero m
  mark_claimed-keeps (suc n) [] o h m = absurd m
  mark_claimed-keeps (suc n) (x ∷ rows) o h m = elim (Bool-cases (takes locked now x)) [
    | inl t ↦ rw (mark_hit n x rows t) (
        inr (elim m [
          | inl e ↦ absurd (ground (arith, t, h, ap (takes locked now) e))
          | inr k ↦ mark_claimed-keeps n rows o h k
        ]))
    | inr t ↦
        rw (mark_miss n x rows t)
          (elim m [ inl e ↦ inl e | inr k ↦ inr (mark_claimed-keeps (suc n) rows o h k) ])
  ]

published_untaken :
    (locked : ℕ → Bool) (now : ℕ) (o : Outbox)
    → is_some o.published_at ≡ true
    → takes locked now o ≡ false
unfolding deliverable
published_untaken locked now o h = ground arith

submit-outbox :
    (now fd fj : ℕ) (s : Submission) (db : Db) {r : ℕ × Bool} {db' : Db} (o : Outbox)
    → submit now fd fj s db ≡ ok (r, db')
    → In o db.outbox
    → In o db'.outbox
unfolding log_event
submit-outbox now fd fj s db o e m =
    Ensures-ok (λ r. In o r.1.outbox) _
      (submit-Ensures now fd fj s db (λ r. In o r.1.outbox)
        (λ d docs i a k f. In-append db.outbox _ o m) (λ d docs j i k t. m))
      e

module _ (o : Outbox) (db : Db) (m : In o db.outbox) where
  lease_next-outbox :
      (locked : ℕ → Bool) (now : ℕ) (owner : String) (secs : ℕ)
      → In o (lease_next locked now owner secs db).1.outbox
  unfolding lease_next
  lease_next-outbox locked now owner secs = pick (candidate locked now db.jobs)
    where
      granted : (c : Job) (d : Option Document) → In o (grant now owner secs c d db).1.outbox
      granted c none = m
      granted c (some d) = In-append db.outbox _ o m

      pick : (q : Option Job) → In o (lease_candidate now owner secs q db).1.outbox
      pick none = m
      pick (some c) = granted c (find (λ d. d.document_id == c.document_id) db.documents)

  heartbeat-outbox :
      (now job_id : ℕ) (owner stage : String) (secs : ℕ)
      → In o (heartbeat now job_id owner stage secs db).1.outbox
  unfolding heartbeat
  heartbeat-outbox now job_id owner stage secs = pick (find (holds now job_id owner) db.jobs)
    where
      pick : (q : Option Job) → In o (beat now job_id owner stage secs q db).1.outbox
      pick none = m
      pick (some c) = In-append db.outbox _ o m

  cancel-outbox :
      (now tenant_id job_id : ℕ) → In o (request_cancel now tenant_id job_id db).1.outbox
  unfolding request_cancel
  cancel-outbox now tenant_id job_id = pick (find (cancellable tenant_id job_id) db.jobs)
    where
      pick : (q : Option Job) → In o (cancel_found now tenant_id job_id q db).1.outbox
      pick none = m
      pick (some c) = In-append db.outbox _ o m

  finish-outbox :
      (now job_id : ℕ) (owner : String) (result : Option Json) (error_code : Option String)
      (retryable : Bool) {db' : Db}
      → finish now job_id owner result error_code retryable db ≡ ok db'
      → In o db'.outbox
  unfolding finish
  finish-outbox now job_id owner result error_code retryable e =
      Ensures-ok (λ d. In o d.outbox) _ (pick (find (leased_to job_id owner) db.jobs)) e
    where
      pick :
          (q : Option Job)
          → Ensures
              (λ d. In o d.outbox)
              (finish_current now job_id owner result error_code retryable q db)
      pick none = tt
      pick (some c) = In-append db.outbox _ o m

-- A published message stands unchanged in the outbox after any sequence of transactions.
pub Reach-published :
    {db db' : Db}
    → Reach db db'
    → (o : Outbox) → is_some o.published_at ≡ true
    → In o db.outbox
    → In o db'.outbox
Reach-published here o h m = m
Reach-published (next r s) o h m = step s (Reach-published r o h m)
  where
    step : {d d' : Db} → Step d d' → In o d.outbox → In o d'.outbox
    step (submit_step now fd fj s {db = d} q e) n = submit-outbox now fd fj s d o e n
    step (lease_step locked now owner secs d) n = lease_next-outbox o d n locked now owner secs
    step (heartbeat_step now job_id owner stage secs d) n =
        heartbeat-outbox o d n now job_id owner stage secs
    step (finish_step now job_id owner result error_code retryable {db = d} e) n =
        finish-outbox o d n now job_id owner result error_code retryable e
    step (cancel_step now tenant_id job_id d) n = cancel-outbox o d n now tenant_id job_id
    step (claim_step locked now owner limit d) n =
        unfold claim_outbox in
        mark_claimed-keeps locked now owner (page_size limit) d.outbox o
          (published_untaken locked now o h) n
    step (acknowledge_step now owner outbox_id d) n =
        unfold acknowledge_outbox in
        published_row (claimed_by owner outbox_id) (publish_row now) d.outbox o (ground arith) n
    step (tenant_step fresh slug {db = d} q e) n =
        rw ((ensure_tenant-SameWork fresh slug d e).outbox) n
    step (key_step sha256 secret tenant_id label {db = d} token e) n =
        rw ((issue_api_key-SameWork sha256 secret tenant_id label d e).outbox) n
    step (authenticate_step sha256 now token d) n =
        rw ((authenticate-SameWork sha256 now token d).outbox) n
