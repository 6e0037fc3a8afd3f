-- ===== src/Platform/Delivery.antt =====
-- The outbox methods of `PlatformDatabase` in src/dsvire/platform_db.py, and its tenants and
-- bearer tokens.
use tokito_dsvire.Prelude.{
  ℕ, zero, suc, ◌+◌, String, Bool, true, false, not, ◌&&◌, ◌||◌, Option, none, some, List, [], ◌∷◌,
  ◌==◌, is_some, find, update, map, select, take,
}
use tokito_dsvire.Platform.Tables.{Outbox, OutboxMessage, Db}
use tokito_dsvire.Platform.Queue.{expired, owned_by, seconds}
use tokito_dsvire.Platform.Submit.{page_size}

abbrev pub is_none {ℓ} : {A : Type ℓ} → Option A → Bool
is_none o = not (is_some o)

unfoldable pub deliverable : ℕ → Outbox → Bool
deliverable now o =
    is_none o.published_at && (is_none o.lock_expires_at || expired now o.lock_expires_at)

unfoldable pub claim_row : ℕ → String → Outbox → Outbox
claim_row now owner o = record o {
  lock_owner = some owner;
  lock_expires_at = some (now + seconds 30);
  attempts = o.attempts + 1;
}

abbrev pub message_of : Outbox → OutboxMessage
message_of o = record {
  outbox_id = o.outbox_id;
  aggregate_id = o.aggregate_id;
  payload = o.payload;
}

-- The rows that are claimed: the first `n` that are deliverable and that no other transaction
-- has locked. Rows stand in the order of outbox_id.
unfoldable pub claimed : (ℕ → Bool) → ℕ → ℕ → List Outbox → List Outbox
unfolding deliverable
claimed locked now n rows =
    take n (select (λ o. deliverable now o && not (locked o.outbox_id)) rows)

unfoldable pub mark_claimed : (ℕ → Bool) → ℕ → String → ℕ → List Outbox → List Outbox
unfolding deliverable claim_row
mark_claimed locked now owner zero rows = rows
mark_claimed locked now owner (suc n) [] = []
mark_claimed locked now owner (suc n) (o ∷ rows) =
    elim (deliverable now o && not (locked o.outbox_id)) [
      | true ↦ claim_row now owner o ∷ mark_claimed locked now owner n rows
      | false ↦ o ∷ mark_claimed locked now owner (suc n) rows
    ]

unfoldable pub claim_outbox : (ℕ → Bool) → ℕ → String → ℕ → Db → List OutboxMessage × Db
unfolding claimed mark_claimed
claim_outbox locked now owner limit db = (
  map message_of (claimed locked now (page_size limit) db.outbox),
  record db { outbox = mark_claimed locked now owner (page_size limit) db.outbox },
)

unfoldable pub claimed_by : String → ℕ → Outbox → Bool
claimed_by owner outbox_id o =
    (o.outbox_id == outbox_id && owned_by owner o.lock_owner) && is_none o.published_at

unfoldable pub publish_row : ℕ → Outbox → Outbox
publish_row now o = record o { published_at = some now; lock_owner = none; lock_expires_at = none }

-- The status is `UPDATE 1` when a row was updated: outbox_id is the primary key.
unfoldable pub acknowledge_outbox : ℕ → String → ℕ → Db → Bool × Db
unfolding claimed_by publish_row
acknowledge_outbox now owner outbox_id db = (
  is_some (find (claimed_by owner outbox_id) db.outbox),
  record db { outbox = update (claimed_by owner outbox_id) (publish_row now) db.outbox },
)
