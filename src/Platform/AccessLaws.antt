-- ===== src/Platform/AccessLaws.antt =====
-- Bearer tokens of src/dsvire/platform_db.py: issue, then authenticate.
use text.Mathlib.TextPositions.{starts_with-append}
use tokito_dsvire.Prelude.{
  ℕ, ◌≤◌, String, true, false, not, Option, none, some, List, [], ◌∷◌, ◌++◌, ◌≡◌, refl, ap, arith,
  ◌==◌, str_eq, eq_iff, is_some, find, find-append, find-none, All, Ensures, Ensures-ok,
  Ensures-guard3, ok, text_length,
}
use tokito_dsvire.Platform.Tables.{
  ApiKey, Db, check_violation, unique_violation, foreign_key_violation,
}
use tokito_dsvire.Platform.Access.{
  issue_api_key, authenticate, live_key, has_digest, token_of, new_key, key_allowed,
}

module _ (sha256 : String → String) where
  no_live :
      (token : String) (keys : List ApiKey)
      → All (λ k. has_digest sha256 token k ≡ false) keys
      → find (live_key sha256 token) keys ≡ none
  unfolding live_key
  no_live token [] h = refl
  no_live token (k ∷ keys) h = ground (arith, h.0, no_live token keys h.1)

  authenticate_new :
      (now : ℕ) (secret : String) (db : Db) (key : ApiKey)
      → key.token_sha256 ≡ sha256 (token_of sha256 secret)
      → key.revoked_at ≡ none
      → find (has_digest sha256 (token_of sha256 secret)) db.api_keys ≡ none
      → text_length (token_of sha256 secret) ≤ 128
      → (authenticate sha256 now
          (token_of sha256 secret)
          (record db { api_keys = db.api_keys ++ key ∷ [] })).0
        ≡ some key.tenant_id
  unfolding authenticate
  authenticate_new now secret db key e r f fits =
      rw
        (
          starts_with-append "dsv_live_" secret,
          find-append (live_key sha256 (token_of sha256 secret)) db.api_keys (key ∷ []),
          no_live (token_of sha256 secret) db.api_keys (find-none _ db.api_keys f),
        )
        (ground (
          arith,
          ap (str_eq key.token_sha256) e,
          eq_iff key.token_sha256 (sha256 (token_of sha256 secret)),
        ))

  issued :
      (now : ℕ) (secret : String) (tenant_id : ℕ) (label : String) (db : Db)
      → Ensures
          (λ r. text_length r.0 ≤ 128 → (authenticate sha256 now r.0 r.1).0 ≡ some tenant_id)
          (issue_api_key sha256 secret tenant_id label db)
  unfolding issue_api_key
  issued now secret tenant_id label db =
      let P = λ (r : String × Db).
        text_length r.0 ≤ 128 → (authenticate sha256 now r.0 r.1).0 ≡ some tenant_id in
      Ensures-guard3 P (key_allowed sha256 label (token_of sha256 secret))
        (not (is_some (find (has_digest sha256 (token_of sha256 secret)) db.api_keys)))
        (is_some (find (λ t. t.tenant_id == tenant_id) db.tenants)) check_violation unique_violation
        foreign_key_violation _
        (λ a u t.
          authenticate_new now secret db (new_key sha256 tenant_id label (token_of sha256 secret))
            refl refl (absent (find (has_digest sha256 (token_of sha256 secret)) db.api_keys) u))
    where
      absent : (o : Option ApiKey) → not (is_some o) ≡ true → o ≡ none
      absent none h = refl
      absent (some x) h = cc

  -- A token that was issued to a tenant authenticates as that tenant, if its text has at most 128
  -- characters.
  pub authenticate-issue :
      (now : ℕ) (secret : String) (tenant_id : ℕ) (label : String) (db : Db) {token : String}
      {db' : Db}
      → issue_api_key sha256 secret tenant_id label db ≡ ok (token, db')
      → text_length token ≤ 128
      → (authenticate sha256 now token db').0 ≡ some tenant_id
  authenticate-issue now secret tenant_id label db h =
      Ensures-ok (λ r. text_length r.0 ≤ 128 → (authenticate sha256 now r.0 r.1).0 ≡ some tenant_id)
        _ (issued now secret tenant_id label db) h

  -- A token whose keys are all revoked authenticates as nobody.
  pub authenticate_revoked :
      (now : ℕ) (token : String) (db : Db)
      → All (λ k. (has_digest sha256 token k ≡ true) → is_some k.revoked_at ≡ true) db.api_keys
      → (authenticate sha256 now token db).0 ≡ none
  unfolding authenticate
  authenticate_revoked now token db h = rw (dead db.api_keys h) (ground arith)
    where
      dead :
          (keys : List ApiKey)
          → All (λ k. (has_digest sha256 token k ≡ true) → is_some k.revoked_at ≡ true) keys
          → find (live_key sha256 token) keys ≡ none
      dead [] k = refl
      dead (x ∷ keys) k = ground (arith, dead keys k.1, k.0)
