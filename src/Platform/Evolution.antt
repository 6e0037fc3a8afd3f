-- ===== src/Platform/Evolution.antt =====
-- The diagram of the states of a job of src/dsvire/platform_db.py, and the rows that one
-- transaction writes.
use tokito_dsvire.Prelude.{ℕ, ◌+◌, ◌≤◌, String, Bool, true, false, Option, ◌≡◌, refl, arith}
use tokito_dsvire.Platform.Tables.{
  Json, State, queued, running, succeeded, failed, cancelled, is_terminal, is_running, Job,
}
use tokito_dsvire.Platform.Queue.{lease_row, claimable, beat_row, holds, finish_row, outcome}
use tokito_dsvire.Platform.Submit.{cancel_row, cancellable}

-- The diagram.
infix 40 ◌⟶◌
pub data ◌⟶◌ : State → State → Type 0 where
  stay : {s : State} → s ⟶ s
  start : queued ⟶ running
  retry : running ⟶ queued
  succeed : running ⟶ succeeded
  fail : running ⟶ failed
  abort : running ⟶ cancelled
  withdraw : queued ⟶ cancelled

ruleset edges = (start, retry, succeed, fail, abort, withdraw)

-- What one transaction may do to one job.
pub record Evolves (j j' : Job) : Type 0 where
  pub same_id : j'.job_id ≡ j.job_id
  pub same_request :
      (j'.tenant_id ≡ j.tenant_id)
      × (j'.idempotency_key ≡ j.idempotency_key)
      × (j'.document_id ≡ j.document_id)
      × (j'.request ≡ j.request)
  pub same_limit : j'.max_attempts ≡ j.max_attempts
  pub state_moves : j.state ⟶ j'.state
  pub attempts_grow : (j.attempt ≤ j'.attempt) × (j'.attempt ≤ j.attempt + 1)
  pub cancel_sticks : j.cancel_requested ≡ true → j'.cancel_requested ≡ true
  pub terminal_keeps : is_terminal j.state ≡ true → j' ≡ j

pub Evolves-refl : (j : Job) → Evolves j j
Evolves-refl j = record {
  same_id = refl;
  same_request = (refl, refl, refl, refl);
  same_limit = refl;
  state_moves = stay;
  attempts_grow = omega arith;
  cancel_sticks = λ h. h;
  terminal_keeps = λ h. refl;
}

pub lease_row-Evolves :
    (now : ℕ) (owner : String) (secs : ℕ) (j : Job)
    → claimable now j ≡ true
    → Evolves j (lease_row now owner secs j)
unfolding claimable lease_row
lease_row-Evolves now owner secs j h = grind (arith, edges, stay)

pub beat_row-Evolves :
    (now job_id : ℕ) (owner stage : String) (secs : ℕ) (j : Job)
    → holds now job_id owner j ≡ true
    → Evolves j (beat_row now stage secs j)
unfolding holds beat_row
beat_row-Evolves now job_id owner stage secs j h = grind (arith, stay)

pub finish_row-Evolves :
    (now : ℕ) (result : Option Json) (error_code : Option String) (a b c : Bool) (j : Job)
    → a ≡ j.cancel_requested
    → is_running j.state ≡ true
    → Evolves j (finish_row now (outcome a b c) result error_code j)
unfolding finish_row outcome
finish_row-Evolves now result error_code true b c j e h = grind (arith, edges)
finish_row-Evolves now result error_code false true c j e h = grind (arith, edges)
finish_row-Evolves now result error_code false false true j e h = grind (arith, edges)
finish_row-Evolves now result error_code false false false j e h = grind (arith, edges)

pub cancel_row-Evolves :
    (now tenant_id job_id : ℕ) (j : Job)
    → cancellable tenant_id job_id j ≡ true
    → Evolves j (cancel_row now j)
unfolding cancellable cancel_row
cancel_row-Evolves now tenant_id job_id j h = grind (arith, stay, withdraw)
