-- ===== src/Platform/Replay.antt =====
-- Replaying the events of a job by cursor: `events` of src/dsvire/platform_db.py.
use tokito_dsvire.Prelude.{
  ℕ, zero, suc, ◌≤◌, ◌<◌, true, false, ◌&&◌, List, [], ◌∷◌, ◌++◌, ◌≡◌, refl, sym, ap, subst, arith,
  ◌==◌, select, take, length, map, Climbs, Bool-cases, inl, inr, ltb, length-take_le,
}
use tokito_dsvire.Platform.Tables.{Event, Db}
use tokito_dsvire.Platform.Submit.{page_size, event_after, events}
use tokito_dsvire.Platform.Log.{event_id_of, IsLogged}

-- All the events of a job after a cursor.
abbrev pub stream : ℕ → ℕ → ℕ → List Event → List Event
stream tenant_id job_id after rows = select (event_after tenant_id job_id after) rows

abbrev pub drop : ℕ → List Event → List Event
drop zero xs = xs
drop (suc n) [] = []
drop (suc n) (x ∷ xs) = drop n xs

-- The cursor of the next request: the id of the last event that was received.
abbrev pub cursor : ℕ → List Event → ℕ
cursor after [] = after
cursor after (e ∷ es) = cursor e.event_id es

module _ (tenant_id job_id : ℕ) where
  after_eq :
      (a : ℕ) (e : Event)
      → event_after tenant_id job_id a e
        ≡ (e.tenant_id == tenant_id && e.job_id == job_id) && ltb a e.event_id
  unfolding event_after
  after_eq a e = refl

  -- Beyond rows whose ids are at most the cursor, the cursor selects what an earlier one does.
  later_same :
      (a b : ℕ) (lo hi : ℕ) (rows : List Event)
      → a < lo
      → b < lo
      → Climbs lo (map event_id_of rows) hi
      → stream tenant_id job_id a rows ≡ stream tenant_id job_id b rows
  later_same a b lo hi [] p q c = refl
  later_same a b lo hi (e ∷ rows) p q c =
      ground (arith, after_eq a e, after_eq b e, later_same a b (suc e.event_id) hi rows, c)

  -- A cursor that has passed a row does not select it.
  passed :
      (a c : ℕ) (e : Event)
      → event_after tenant_id job_id a e ≡ false
      → a ≤ c
      → event_after tenant_id job_id c e ≡ false
  unfolding event_after
  passed a c e h k = ground arith

  at_or_before : (c : ℕ) (e : Event) → e.event_id ≤ c → event_after tenant_id job_id c e ≡ false
  unfolding event_after
  at_or_before c e h = ground arith

  beyond : (a : ℕ) (e : Event) → event_after tenant_id job_id a e ≡ true → a < e.event_id
  unfolding event_after
  beyond a e h = ground arith

  -- A page moves the cursor forward.
  cursor-ge :
      (n a lo hi : ℕ) (rows : List Event)
      → Climbs lo (map event_id_of rows) hi
      → a ≤ cursor a (take n (stream tenant_id job_id a rows))
  cursor-ge zero a lo hi rows c = omega arith
  cursor-ge (suc n) a lo hi [] c = omega arith
  cursor-ge (suc n) a lo hi (e ∷ rows) c = elim (Bool-cases (event_after tenant_id job_id a e)) [
    | inl t ↦
        let before : a < e.event_id = beyond a e t in
        rw (t, later_same a e.event_id (suc e.event_id) hi rows (omega arith) (omega arith) c.1)
          (omega (arith, cursor-ge n e.event_id (suc e.event_id) hi rows c.1))
    | inr t ↦ rw t (cursor-ge (suc n) a (suc e.event_id) hi rows c.1)
  ]

  resume :
      (n a lo hi : ℕ) (rows : List Event)
      → Climbs lo (map event_id_of rows) hi
      → take n (stream tenant_id job_id a rows)
          ++ stream tenant_id job_id (cursor a (take n (stream tenant_id job_id a rows))) rows
        ≡ stream tenant_id job_id a rows
  resume zero a lo hi rows c = refl
  resume (suc n) a lo hi [] c = refl
  resume (suc n) a lo hi (e ∷ rows) c = elim (Bool-cases (event_after tenant_id job_id a e)) [
    | inl t ↦
        subst
          (λ p.
            p ++ stream tenant_id job_id (cursor a p) (e ∷ rows)
            ≡ stream tenant_id job_id a (e ∷ rows))
          (sym (page t))
          (rw
            (
              at_or_before (cursor e.event_id (rest e.event_id)) e
                  (cursor-ge n e.event_id (suc e.event_id) hi rows c.1),
              t,
              same t,
            )
            (ap (λ xs. e ∷ xs) (resume n e.event_id (suc e.event_id) hi rows c.1)))
    | inr t ↦
        subst
          (λ p.
            p ++ stream tenant_id job_id (cursor a p) (e ∷ rows)
            ≡ stream tenant_id job_id a (e ∷ rows))
          (sym (skip t))
          (rw
            (
              passed a (cursor a (take (suc n) (stream tenant_id job_id a rows))) e t
                  (cursor-ge (suc n) a (suc e.event_id) hi rows c.1),
              t,
            )
            (resume (suc n) a (suc e.event_id) hi rows c.1))
  ]
    where
      rest : ℕ → List Event
      rest b = take n (stream tenant_id job_id b rows)

      same :
          event_after tenant_id job_id a e ≡ true
          → stream tenant_id job_id a rows ≡ stream tenant_id job_id e.event_id rows
      same t =
          let before : a < e.event_id = beyond a e t in
          later_same a e.event_id (suc e.event_id) hi rows (omega arith) (omega arith) c.1

      page :
          event_after tenant_id job_id a e ≡ true
          → take (suc n) (stream tenant_id job_id a (e ∷ rows)) ≡ e ∷ rest e.event_id
      page t = rw (t, same t) refl

      skip :
          event_after tenant_id job_id a e ≡ false
          → take (suc n) (stream tenant_id job_id a (e ∷ rows))
            ≡ take (suc n) (stream tenant_id job_id a rows)
      skip t = rw t refl

take-nil : (n : ℕ) (xs : List Event) → 0 < n → take n xs ≡ [] → xs ≡ []
take-nil zero xs h e = absurd (omega arith)
take-nil (suc n) [] h e = refl
take-nil (suc n) (x ∷ xs) h e = cc

-- Reading the events of a job page by page loses none, repeats none and keeps their order: the
-- page after any cursor, followed by what the cursor of that page still selects, is all that the
-- first cursor selects. A page has at most 500 events, and is empty only when no event is left.
pub events_resume :
    (tenant_id job_id after limit : ℕ) (db : Db)
    → IsLogged db
    → (events tenant_id job_id after limit db
          ++ stream tenant_id job_id
              (cursor after (events tenant_id job_id after limit db))
              db.events
        ≡ stream tenant_id job_id after db.events)
      × (length (events tenant_id job_id after limit db) ≤ 500)
      × (events tenant_id job_id after limit db ≡ [] → stream tenant_id job_id after db.events ≡ [])
unfolding events
events_resume tenant_id job_id after limit db h = (
  resume tenant_id job_id (page_size limit) after 1 db.next_event_id db.events h.event_ids,
  omega (arith, length-take_le (page_size limit) (stream tenant_id job_id after db.events)),
  take-nil (page_size limit) _ (omega arith),
)
