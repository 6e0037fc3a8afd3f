-- ===== src/Platform/Journal.antt =====
-- Every method of `PlatformDatabase` in src/dsvire/platform_db.py keeps the event log and the
-- outbox.
use tokito_dsvire.Prelude.{
  ℕ, zero, suc, ◌+◌, String, Bool, true, false, ◌&&◌, Option, none, some, List, [], ◌∷◌, ◌≡◌, refl,
  sym, ◌∙◌, arith, ◌==◌, ==_refl, is_some, find, map, find-some, find-true, In, find-In, map-update,
  ltb, Ensures, Ensures-ok, ok,
}
use tokito_dsvire.Platform.Tables.{Json, object1, num, Kind, is_leased, Job, Document, Outbox, Db}
use tokito_dsvire.Platform.Queue.{
  log_event, lease_row, grant, lease_candidate, candidate, lease_next, beat_row, beat, heartbeat,
  holds, owns, outcome, leased_to, finish_current, finish, has_job_id,
}
use tokito_dsvire.Platform.Submit.{
  Submission, new_job, cancel_row, cancellable, request_cancel, cancel_found, submit, page_size,
}
use tokito_dsvire.Platform.Delivery.{
  mark_claimed, claim_outbox, claimed_by, publish_row, acknowledge_outbox,
}
use tokito_dsvire.Platform.Candidate.{candidate-In}
use tokito_dsvire.Platform.Submission.{submit-Ensures, with_job, with_documents}
use tokito_dsvire.Platform.Log.{
  IsLogged, log_event-IsLogged, inserted-IsLogged, sent_outbox, outbox_id_of,
}

-- The row that a statement has found has the id that the statement names.
there :
    (q : Job → Bool) (i : ℕ) (js : List Job) {c : Job}
    → find q js ≡ some c
    → ((x : Job) → q x ≡ true → x.job_id ≡ i)
    → is_some (find (has_job_id i) js) ≡ true
there q i js {c} f only =
    find-some (has_job_id i) js (find-In q js f) (ground (arith, only c (find-true q js f)))

pub lease_next-IsLogged :
    (locked : ℕ → Bool) (now : ℕ) (owner : String) (secs : ℕ) (db : Db)
    → IsLogged db
    → IsLogged (lease_next locked now owner secs db).1
unfolding lease_next
lease_next-IsLogged locked now owner secs db h = pick (candidate locked now db.jobs) refl
  where
    granted :
        (c : Job) (d : Option Document) → In c db.jobs → IsLogged (grant now owner secs c d db).1
    granted c none m = h
    granted c (some d) m =
        log_event-IsLogged now c.tenant_id c.job_id Kind.leased
          (object1 "attempt" (num (c.attempt + 1))) (has_job_id c.job_id) (lease_row now owner secs)
          db (λ j. refl) (λ j. ground arith)
          (find-some (has_job_id c.job_id) db.jobs m (==_refl c.job_id)) h

    pick :
        (o : Option Job)
        → candidate locked now db.jobs ≡ o
        → IsLogged (lease_candidate now owner secs o db).1
    pick none e = h
    pick (some c) e =
        granted c (find (λ d. d.document_id == c.document_id) db.documents)
          (candidate-In locked now db.jobs e)

pub heartbeat-IsLogged :
    (now job_id : ℕ) (owner stage : String) (secs : ℕ) (db : Db)
    → IsLogged db
    → IsLogged (heartbeat now job_id owner stage secs db).1
unfolding heartbeat
heartbeat-IsLogged now job_id owner stage secs db h =
    pick (find (holds now job_id owner) db.jobs) refl
  where
    pick :
        (o : Option Job)
        → find (holds now job_id owner) db.jobs ≡ o
        → IsLogged (beat now job_id owner stage secs o db).1
    pick none e = h
    pick (some c) e =
        log_event-IsLogged now c.tenant_id job_id Kind.progress _ (holds now job_id owner)
          (beat_row now stage secs) db (λ j. refl) (λ j. ground arith)
          (there (holds now job_id owner) job_id db.jobs e (λ x t. ground arith)) h

pub finish-IsLogged :
    (now job_id : ℕ) (owner : String) (result : Option Json) (error_code : Option String)
    (retryable : Bool) (db : Db) {db' : Db}
    → finish now job_id owner result error_code retryable db ≡ ok db'
    → IsLogged db
    → IsLogged db'
unfolding finish
finish-IsLogged now job_id owner result error_code retryable db e h =
    Ensures-ok IsLogged _ (pick (find (leased_to job_id owner) db.jobs) refl) e
  where
    unleased : (a b c : Bool) → is_leased (outcome a b c).kind ≡ false
    unleased a b c = ground arith

    pick :
        (o : Option Job)
        → find (leased_to job_id owner) db.jobs ≡ o
        → Ensures IsLogged (finish_current now job_id owner result error_code retryable o db)
    pick none f = tt
    pick (some c) f =
        log_event-IsLogged now c.tenant_id job_id _ _ (owns job_id owner) _ db (λ j. refl)
          (λ j. ground (
            arith,
            unleased c.cancel_requested (is_some result)
                (retryable && ltb c.attempt c.max_attempts),
          ))
          (there (leased_to job_id owner) job_id db.jobs f (λ x t. ground arith)) h

pub request_cancel-IsLogged :
    (now tenant_id job_id : ℕ) (db : Db)
    → IsLogged db
    → IsLogged (request_cancel now tenant_id job_id db).1
unfolding request_cancel
request_cancel-IsLogged now tenant_id job_id db h =
    pick (find (cancellable tenant_id job_id) db.jobs) refl
  where
    pick :
        (o : Option Job)
        → find (cancellable tenant_id job_id) db.jobs ≡ o
        → IsLogged (cancel_found now tenant_id job_id o db).1
    pick none e = h
    pick (some c) e =
        log_event-IsLogged now tenant_id job_id Kind.cancel_requested _
          (cancellable tenant_id job_id) (cancel_row now) db (λ j. refl) (λ j. ground arith)
          (there (cancellable tenant_id job_id) job_id db.jobs e (λ x t. ground arith)) h

tables-IsLogged : (db : Db) (docs : List Document) → IsLogged db → IsLogged (with_documents db docs)
tables-IsLogged db docs h = record {
  event_ids = h.event_ids;
  outbox_ids = h.outbox_ids;
  paired = h.paired;
  counted = h.counted;
  known = h.known;
}

pub submit-IsLogged :
    (now fd fj : ℕ) (s : Submission) (db : Db) {r : ℕ × Bool} {db' : Db}
    → submit now fd fj s db ≡ ok (r, db')
    → IsLogged db
    → IsLogged db'
submit-IsLogged now fd fj s db e h =
    Ensures-ok (λ r. IsLogged r.1) _
      (submit-Ensures now fd fj s db (λ r. IsLogged r.1) (λ d docs i a k f. added d docs f)
        (λ d docs j i k t. tables-IsLogged db docs h))
      e
  where
    added :
        (d : ℕ) (docs : List Document)
        → find (has_job_id fj) db.jobs ≡ none
        → IsLogged (with_job now fj d s db docs)
    added d docs f =
        unfold log_event new_job in
        inserted-IsLogged now s.tenant_id _ (new_job now fj d s) db refl refl f h

mark_claimed-columns :
    (locked : ℕ → Bool) (now : ℕ) (owner : String) (n : ℕ) (rows : List Outbox)
    → (map outbox_id_of (mark_claimed locked now owner n rows) ≡ map outbox_id_of rows)
      × (map sent_outbox (mark_claimed locked now owner n rows) ≡ map sent_outbox rows)
unfolding mark_claimed
mark_claimed-columns locked now owner zero rows = (refl, refl)
mark_claimed-columns locked now owner (suc n) [] = (refl, refl)
mark_claimed-columns locked now owner (suc n) (o ∷ rows) = ground (
  arith,
  mark_claimed-columns locked now owner n rows,
  mark_claimed-columns locked now owner (suc n) rows,
)

outbox-IsLogged :
    (db : Db) (rows : List Outbox)
    → map outbox_id_of rows ≡ map outbox_id_of db.outbox
    → map sent_outbox rows ≡ map sent_outbox db.outbox
    → IsLogged db
    → IsLogged (record db { outbox = rows })
outbox-IsLogged db rows i s h = record {
  event_ids = h.event_ids;
  outbox_ids = rw i h.outbox_ids;
  paired = h.paired ∙ sym s;
  counted = h.counted;
  known = h.known;
}

pub claim_outbox-IsLogged :
    (locked : ℕ → Bool) (now : ℕ) (owner : String) (limit : ℕ) (db : Db)
    → IsLogged db
    → IsLogged (claim_outbox locked now owner limit db).1
unfolding claim_outbox
claim_outbox-IsLogged locked now owner limit db h =
    let (i, s) = mark_claimed-columns locked now owner (page_size limit) db.outbox in
    outbox-IsLogged db _ i s h

pub acknowledge_outbox-IsLogged :
    (now : ℕ) (owner : String) (outbox_id : ℕ) (db : Db)
    → IsLogged db
    → IsLogged (acknowledge_outbox now owner outbox_id db).1
unfolding acknowledge_outbox
acknowledge_outbox-IsLogged now owner outbox_id db h =
    outbox-IsLogged db _
      (map-update outbox_id_of (claimed_by owner outbox_id) (publish_row now) (λ o. refl) db.outbox)
      (map-update sent_outbox (claimed_by owner outbox_id) (publish_row now) (λ o. refl) db.outbox)
      h
