-- ===== src/Platform/Log.antt =====
-- The event log and the outbox of src/dsvire/platform_db.py: what every transaction keeps of them.
use mathlib.Core.List.{map-append}
use mathlib.Core.Path.{ap₂}
use tokito_dsvire.Prelude.{
  ℕ, ◌+◌, Bool, true, false, ◌&&◌, Option, none, some, List, [], ◌∷◌, ◌++◌, ◌≡◌, refl, sym, ◌∙◌, ap,
  subst, arith, ◌==◌, ==-eq, ==_refl, if◌then◌else◌, is_some, find, update, map, All, All-append,
  All-map, All-update_to, set_if, map_option, find-update, find-append, Climbs, Climbs-snoc,
  Bool-cases, inl, inr,
}
use tokito_dsvire.Platform.Tables.{Json, Kind, is_leased, Job, Event, Notice, Outbox, Db}
use tokito_dsvire.Platform.Queue.{log_event, has_job_id}

pub record Sent : Type 0 where
  pub job : ℕ
  pub notice : Notice

abbrev pub sent_event : Event → Sent
sent_event e = record {
  job = e.job_id;
  notice = record { event_id = e.event_id; tenant_id = e.tenant_id; kind = e.kind };
}

abbrev pub sent_outbox : Outbox → Sent
sent_outbox o = record { job = o.aggregate_id; notice = o.payload }

abbrev pub event_id_of : Event → ℕ
event_id_of e = e.event_id

abbrev pub outbox_id_of : Outbox → ℕ
outbox_id_of o = o.outbox_id

abbrev pub is_lease_of : ℕ → Event → Bool
is_lease_of i e = e.job_id == i && is_leased e.kind

-- How often a job was leased, by the log.
abbrev pub leases : ℕ → List Event → ℕ
leases i [] = 0
leases i (e ∷ es) = (if is_lease_of i e then 1 else 0) + leases i es

abbrev pub Counted : List Event → Job → Type 0
Counted es j = leases j.job_id es ≡ j.attempt

abbrev pub Known : List Job → Event → Type 0
Known js e = is_some (find (has_job_id e.job_id) js) ≡ true

pub record IsLogged (db : Db) : Type 0 where
  pub event_ids : Climbs 1 (map event_id_of db.events) db.next_event_id
  pub outbox_ids : Climbs 1 (map outbox_id_of db.outbox) db.next_outbox_id
  pub paired : map sent_event db.events ≡ map sent_outbox db.outbox
  pub counted : All (Counted db.events) db.jobs
  pub known : All (Known db.jobs) db.events

leases-append : (i : ℕ) (xs ys : List Event) → leases i (xs ++ ys) ≡ leases i xs + leases i ys
leases-append i [] ys = omega arith
leases-append i (e ∷ es) ys = omega (arith, leases-append i es ys)

leases_absent :
    (i : ℕ) (js : List Job) (es : List Event)
    → find (has_job_id i) js ≡ none
    → All (Known js) es
    → leases i es ≡ 0
leases_absent i js [] f h = refl
leases_absent i js (e ∷ es) f h = ground (arith, leases_absent i js es f h.1, other)
  where
    other : (e.job_id == i) ≡ false
    other = elim (Bool-cases (e.job_id == i)) [
      | inl t ↦
          ground
            (arith, subst (λ k. is_some (find (has_job_id k) js) ≡ true) (==-eq e.job_id i t) h.0)
      | inr t ↦ t
    ]

Known-update :
    (p : Job → Bool) (f : Job → Job) (js : List Job) (es : List Event)
    → ((j : Job) → (f j).job_id ≡ j.job_id)
    → All (Known js) es
    → All (Known (update p f js)) es
Known-update p f js es same h =
    All-map (Known js) (Known (update p f js)) es (λ e k. still e.job_id k) h
  where
    kept : (o : Option Job) → is_some o ≡ true → is_some (map_option (set_if p f) o) ≡ true
    kept none k = k
    kept (some x) k = refl

    still :
        (i : ℕ)
        → is_some (find (has_job_id i) js) ≡ true
        → is_some (find (has_job_id i) (update p f js)) ≡ true
    still i k =
        rw (find-update (has_job_id i) p f (λ j. ap (λ (n : ℕ). n == i) (same j)) js)
          (kept (find (has_job_id i) js) k)

paired_snoc :
    (es : List Event) (os : List Outbox) (e : Event) (o : Outbox)
    → map sent_event es ≡ map sent_outbox os
    → sent_event e ≡ sent_outbox o
    → map sent_event (es ++ e ∷ []) ≡ map sent_outbox (os ++ o ∷ [])
paired_snoc es os e o h k =
    map-append _ _ _ ∙ ap₂ (λ xs x. xs ++ x ∷ []) h k ∙ sym (map-append _ _ _)

-- A transaction that updates job rows, counts its lease in `attempt` and logs one event.
pub log_event-IsLogged :
    (now tenant_id i : ℕ) (kind : Kind) (payload : Json) (p : Job → Bool) (f : Job → Job) (db : Db)
    → ((j : Job) → (f j).job_id ≡ j.job_id)
    → ((j : Job)
        → (set_if p f j).attempt ≡ j.attempt + (if i == j.job_id && is_leased kind then 1 else 0))
    → is_some (find (has_job_id i) db.jobs) ≡ true
    → IsLogged db
    → IsLogged (log_event now tenant_id i kind payload (record db { jobs = update p f db.jobs }))
unfolding log_event
log_event-IsLogged now tenant_id i kind payload p f db same counts there h = record {
  event_ids = rw map-append (Climbs-snoc 1 _ _ h.event_ids);
  outbox_ids = rw map-append (Climbs-snoc 1 _ _ h.outbox_ids);
  paired = paired_snoc db.events db.outbox _ _ h.paired refl;
  counted = All-update_to (Counted db.events) _ p f db.jobs count h.counted;
  known =
      Known-update p f db.jobs _ same (All-append (Known db.jobs) db.events _ h.known (there, tt));
}
  where
    same_id : (x : Job) → (set_if p f x).job_id ≡ x.job_id
    same_id x = elim (Bool-cases (p x)) [ inl t ↦ rw t (same x) | inr t ↦ rw t refl ]

    count :
        (x : Job)
        → Counted db.events x
        → Counted (log_event now tenant_id i kind payload db).events (set_if p f x)
    count x c = rw (same_id x, leases-append) (omega (arith, c, counts x))

Known-append : (js ks : List Job) (es : List Event) → All (Known js) es → All (Known (js ++ ks)) es
Known-append js ks es h =
    All-map (Known js) (Known (js ++ ks)) es
      (λ e k. ground (arith, find-append (has_job_id e.job_id) js ks)) h

-- The transaction that inserts a job and logs its first event.
pub inserted-IsLogged :
    (now tenant_id : ℕ) (payload : Json) (j : Job) (db : Db) {db' : Db}
    → db'
      ≡ log_event now tenant_id j.job_id Kind.queued payload
          (record db { documents = db'.documents; jobs = db.jobs ++ j ∷ [] })
    → j.attempt ≡ 0
    → find (has_job_id j.job_id) db.jobs ≡ none
    → IsLogged db
    → IsLogged db'
unfolding log_event
inserted-IsLogged now tenant_id payload j db {db'} e a f h = subst IsLogged (sym e) (record {
  event_ids = rw map-append (Climbs-snoc 1 _ _ h.event_ids);
  outbox_ids = rw map-append (Climbs-snoc 1 _ _ h.outbox_ids);
  paired = paired_snoc db.events db.outbox _ _ h.paired refl;
  counted =
      All-append (Counted _) db.jobs _
        (All-map (Counted db.events) (Counted _) db.jobs
          (λ x c. rw leases-append (omega (arith, c, unleased x))) h.counted)
        (
          rw leases-append
              (omega (arith, leases_absent j.job_id db.jobs db.events f h.known, unleased j)),
          tt,
        );
  known =
      All-append (Known _) db.events _ (Known-append db.jobs _ db.events h.known)
        (ground (arith, find-append (has_job_id j.job_id) db.jobs (j ∷ []), ==_refl j.job_id), tt);
})
  where
    unleased :
        (x : Job) → ◌≡◌ {A = ℕ} (if (j.job_id == x.job_id && is_leased Kind.queued) then 1 else 0) 0
    unleased x = ground arith
