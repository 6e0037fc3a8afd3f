-- ===== src/Platform/Access.antt =====
-- Tenants and bearer tokens: `ensure_tenant`, `issue_api_key` and `authenticate` of
-- src/dsvire/platform_db.py. The digest of a token is that of hashlib, and the random part of a
-- token and a fresh tenant id are arguments.
use Prim.Native.String.{◌++◌ as text_append}
use text.Mathlib.Text.{starts_with}
use tokito_dsvire.Prelude.{
  ℕ, String, Bool, false, ◌&&◌, ◌||◌, not, Option, none, some, List, [], ◌∷◌, ◌++◌, leb, ltb, ◌==◌,
  str_eq, if◌then◌else◌, is_some, find, update, Result, ok, guard, ◌>>◌, codes, text_length, every,
  is_digit, lower_hex, map_option, length,
}
use tokito_dsvire.Platform.Tables.{
  DbError, check_violation, unique_violation, foreign_key_violation, Tenant, ApiKey, Db,
}
use tokito_dsvire.Platform.Delivery.{is_none}

abbrev is_slug_start : ℕ → Bool
is_slug_start c = is_digit c || (leb b'a' c && leb c b'z')

abbrev is_slug_char : ℕ → Bool
is_slug_char c = is_slug_start c || (c == b'-')

-- CHECK (slug ~ '^[a-z0-9][a-z0-9-]{1,62}$')
slug_codes : List ℕ → Bool
slug_codes [] = false
slug_codes (c ∷ cs) =
    is_slug_start c && (every is_slug_char cs && (leb 1 (length cs) && leb (length cs) 62))

unfoldable pub slug_allowed : String → Bool
unfolding slug_codes
slug_allowed slug = slug_codes (codes slug)

-- ON CONFLICT (slug) DO UPDATE writes the slug that is there.
unfoldable pub tenant_found : ℕ → String → Option Tenant → Db → Result DbError (ℕ × Db)
tenant_found fresh slug (some t) db = ok (t.tenant_id, db)
tenant_found fresh slug none db = do
  guard (not (is_some (find (λ t. t.tenant_id == fresh) db.tenants))) unique_violation
  ok (fresh, record db { tenants = db.tenants ++ record { tenant_id = fresh; slug = slug } ∷ [] })

unfoldable pub ensure_tenant : ℕ → String → Db → Result DbError (ℕ × Db)
unfolding slug_allowed tenant_found
ensure_tenant fresh slug db = do
  guard (slug_allowed slug) check_violation
  tenant_found fresh slug (find (λ t. str_eq t.slug slug) db.tenants) db

module _ (sha256 : String → String) where
  abbrev pub has_digest : String → ApiKey → Bool
  has_digest token k = str_eq k.token_sha256 (sha256 token)

  unfoldable pub live_key : String → ApiKey → Bool
  live_key token k = has_digest token k && is_none k.revoked_at

  -- `secret` is `secrets.token_urlsafe(32)`.
  abbrev pub token_of : String → String
  token_of secret = text_append "dsv_live_" secret

  -- The CHECK constraints of dsvire_api_key.
  unfoldable pub key_allowed : String → String → Bool
  key_allowed label token =
      (leb 1 (text_length label) && leb (text_length label) 100) && lower_hex 64 (sha256 token)

  abbrev pub new_key : ℕ → String → String → ApiKey
  new_key tenant_id label token = record {
    tenant_id = tenant_id;
    label = label;
    token_sha256 = sha256 token;
    last_used_at = none;
    revoked_at = none;
  }

  unfoldable pub issue_api_key : String → ℕ → String → Db → Result DbError (String × Db)
  unfolding key_allowed
  issue_api_key secret tenant_id label db = do
    guard (key_allowed label (token_of secret)) check_violation
    guard (not (is_some (find (has_digest (token_of secret)) db.api_keys))) unique_violation
    guard (is_some (find (λ t. t.tenant_id == tenant_id) db.tenants)) foreign_key_violation
    ok (
      token_of secret,
      record db { api_keys = db.api_keys ++ new_key tenant_id label (token_of secret) ∷ [] },
    )

  abbrev use_row : ℕ → ApiKey → ApiKey
  use_row now k = record k { last_used_at = some now }

  unfoldable pub authenticate : ℕ → String → Db → Option ℕ × Db
  unfolding live_key
  authenticate now token db =
      if not (starts_with token "dsv_live_") || ltb 128 (text_length token) then (none, db) else (
        map_option (λ (k : ApiKey). k.tenant_id) (find (live_key token) db.api_keys),
        record db { api_keys = update (live_key token) (use_row now) db.api_keys },
      )
