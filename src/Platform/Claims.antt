-- ===== src/Platform/Claims.antt =====
-- What `claim_outbox` of src/dsvire/platform_db.py hands to a publisher.
use tokito_dsvire.Prelude.{
  ℕ, zero, suc, ◌≤◌, Bool, true, false, ◌&&◌, not, none, List, [], ◌∷◌, ◌≡◌, refl, ap, arith,
  select, take, length, length-take_le, map, Bool-cases, inl, inr, ◌⊎◌, All, All-map,
}
use tokito_dsvire.Platform.Tables.{Outbox, OutboxMessage, Db}
use tokito_dsvire.Platform.Queue.{expired}
use tokito_dsvire.Platform.Submit.{page_size}
use tokito_dsvire.Platform.Delivery.{deliverable, claimed}
use tokito_dsvire.Platform.Log.{outbox_id_of}

-- The ids of the claimed rows.
abbrev pub claimed_ids : (ℕ → Bool) → ℕ → ℕ → List Outbox → List ℕ
claimed_ids locked now n rows = map outbox_id_of (claimed locked now n rows)

length-map : (f : Outbox → OutboxMessage) (xs : List Outbox) → length (map f xs) ≡ length xs
length-map f [] = refl
length-map f (x ∷ xs) = ap suc (length-map f xs)

-- A row is claimed, and is not locked for another publisher.
pub record Takes (locked : ℕ → Bool) (now : ℕ) (o : Outbox) : Type 0 where
  pub unpublished : o.published_at ≡ none
  pub unheld : (o.lock_expires_at ≡ none) ⊎ (expired now o.lock_expires_at ≡ true)
  pub unlocked : locked o.outbox_id ≡ false

deliverable-Takes :
    (locked : ℕ → Bool) (now : ℕ) (o : Outbox)
    → (deliverable now o && not (locked o.outbox_id)) ≡ true
    → Takes locked now o
unfolding deliverable
deliverable-Takes locked now o h = ground arith

take-select-All :
    (n : ℕ) (p : Outbox → Bool) (rows : List Outbox)
    → All (λ o. p o ≡ true) (take n (select p rows))
take-select-All zero p rows = tt
take-select-All (suc n) p [] = tt
take-select-All (suc n) p (o ∷ rows) = elim (Bool-cases (p o)) [
  | inl t ↦ rw t (t, take-select-All n p rows)
  | inr t ↦ rw t (take-select-All (suc n) p rows)
]

-- The rows that `claim_outbox` hands out, whatever the caller's limit, are at most 500; each is
-- unpublished, is not held by a publisher whose 30 seconds are not over, and is not locked by
-- another transaction.
pub claim-Takes :
    (locked : ℕ → Bool) (now limit : ℕ) (db : Db)
    → (length (claimed locked now (page_size limit) db.outbox) ≤ 500)
      × All (Takes locked now) (claimed locked now (page_size limit) db.outbox)
unfolding claimed
claim-Takes locked now limit db = (
  omega (
    arith,
    length-take_le (page_size limit)
        (select (λ o. deliverable now o && not (locked o.outbox_id)) db.outbox),
  ),
  All-map (λ o. (deliverable now o && not (locked o.outbox_id)) ≡ true) (Takes locked now) _
      (λ o t. deliverable-Takes locked now o t) (take-select-All (page_size limit) _ db.outbox),
)
