-- ===== src/Storage/Keys.antt =====
-- The keys of objects and their paths: `object_key` and `LocalObjectStore._path` of
-- src/dsvire/object_store.py. A text is its list of characters, and a path its list of segments;
-- no segment is a symbolic link.
use tokito_dsvire.Prelude.{
  same_text, is_empty, ℕ, Bool, true, false, ◌&&◌, ◌||◌, not, List, [], ◌∷◌, ◌++◌, leb, ◌==◌,
  if◌then◌else◌, Result, ok, guard, ◌>>◌, codes, every, is_digit, is_lower_hex, length, take,
}

pub data StoreError : Type 0 where
  value_error integrity_error os_error : StoreError

abbrev pub is_letter : ℕ → Bool
is_letter c = (leb b'A' c && leb c b'Z') || (leb b'a' c && leb c b'z')

-- [a-zA-Z0-9_-]
abbrev pub is_tenant_char : ℕ → Bool
is_tenant_char c = (is_letter c || is_digit c) || ((c == b'_') || (c == b'-'))

-- [a-zA-Z0-9.]
abbrev pub is_suffix_char : ℕ → Bool
is_suffix_char c = (is_letter c || is_digit c) || (c == b'.')

-- `re.sub` of the characters outside a class by nothing.
unfoldable pub only : (ℕ → Bool) → List ℕ → List ℕ
only p [] = []
only p (c ∷ cs) = if p c then c ∷ only p cs else only p cs

-- `text.lstrip(".")`
unfoldable pub strip_dots : List ℕ → List ℕ
strip_dots [] = []
strip_dots (c ∷ cs) = if c == b'.' then strip_dots cs else c ∷ cs

unfoldable pub is_kind : List ℕ → Bool
unfolding same_text
is_kind kind =
    (same_text kind (codes "pdf")
      || (same_text kind (codes "crop") || same_text kind (codes "evidence")))
    || ((same_text kind (codes "pack") || same_text kind (codes "symbol"))
        || (same_text kind (codes "report") || same_text kind (codes "bundle")))

-- `_SHA256.fullmatch(digest)`
abbrev pub is_digest : List ℕ → Bool
is_digest digest = every is_lower_hex digest && (length digest == 64)

abbrev pub slash : ℕ
slash = b'/'

-- The key, once its parts are checked.
abbrev pub key_of : List ℕ → List ℕ → List ℕ → List ℕ → List ℕ
key_of tenant_id kind digest suffix =
    codes "tenants"
    ++ (slash
        ∷ (tenant_id
            ++ (slash
                ∷ (kind ++ (slash ∷ (take 2 digest ++ (slash ∷ (digest ++ (b'.' ∷ suffix)))))))))

abbrev pub safe_suffix : List ℕ → List ℕ
safe_suffix suffix = strip_dots (only is_suffix_char suffix)

unfoldable pub object_key : List ℕ → List ℕ → List ℕ → List ℕ → Result StoreError (List ℕ)
unfolding is_kind only strip_dots same_text
object_key tenant_id kind digest suffix = do
  guard (is_kind kind && is_digest digest) value_error
  guard
      (not (is_empty (only is_tenant_char tenant_id))
        && (same_text (only is_tenant_char tenant_id) tenant_id
            && not (is_empty (safe_suffix suffix))))
      value_error
  ok (key_of (only is_tenant_char tenant_id) kind digest (safe_suffix suffix))

-- The segments of a path between its slashes.
abbrev pub cons_first : ℕ → List (List ℕ) → List (List ℕ)
cons_first c [] = (c ∷ []) ∷ []
cons_first c (s ∷ ss) = (c ∷ s) ∷ ss

unfoldable pub segments : List ℕ → List (List ℕ)
segments [] = [] ∷ []
segments (c ∷ cs) = if c == slash then [] ∷ segments cs else cons_first c (segments cs)

-- The parent of a path stands below its last segment, which comes first.
abbrev pub parent : List (List ℕ) → List (List ℕ)
parent [] = []
parent (s ∷ ss) = ss

-- One segment of a path that is resolved.
unfoldable pub enter : List ℕ → List (List ℕ) → List (List ℕ)
unfolding same_text
enter s at =
    if is_empty s || same_text s (codes ".")
    then at
    else if same_text s (codes "..")
    then parent at
    else s ∷ at

unfoldable pub resolve : List (List ℕ) → List (List ℕ) → List (List ℕ)
unfolding enter
resolve at [] = at
resolve at (s ∷ ss) = resolve (enter s at) ss

-- An absolute key replaces the root.
unfoldable pub joined : List (List ℕ) → List ℕ → List (List ℕ)
unfolding resolve segments
joined root [] = root
joined root (c ∷ cs) =
    if c == slash then resolve [] (segments (c ∷ cs)) else resolve root (segments (c ∷ cs))

unfoldable pub same_path : List (List ℕ) → List (List ℕ) → Bool
unfolding same_text
same_path [] [] = true
same_path [] (d ∷ ds) = false
same_path (c ∷ cs) [] = false
same_path (c ∷ cs) (d ∷ ds) = same_text c d && same_path cs ds

-- `root in candidate.parents`
unfoldable pub below : List (List ℕ) → List (List ℕ) → Bool
unfolding same_path
below root [] = false
below root (s ∷ ss) = same_path root ss || below root ss

-- `LocalObjectStore._path`
unfoldable pub path : List (List ℕ) → List ℕ → Result StoreError (List (List ℕ))
unfolding below joined
path root key = do guard (below root (joined root key)) value_error; ok (joined root key)
