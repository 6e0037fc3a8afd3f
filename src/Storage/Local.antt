-- ===== src/Storage/Local.antt =====
-- The local object store: `LocalObjectStore` of src/dsvire/object_store.py. The files below the
-- root are a list of paths with their contents; `sha256` is the digest of hashlib as its
-- characters, and a write that the system refuses is left out.
use tokito_dsvire.Prelude.{
  same_text, ℕ, ◌&&◌, Option, none, some, List, [], ◌∷◌, ◌++◌, ◌==◌, if◌then◌else◌, Result, ok, err,
  guard, ◌>>=◌, ◌>>◌, length,
}
use tokito_dsvire.Storage.Keys.{StoreError, integrity_error, os_error, same_path, object_key, path}

pub record File : Type 0 where
  pub path : List (List ℕ)
  pub bytes : List ℕ

pub record ObjectRef : Type 0 where
  pub key : List ℕ
  pub sha256 : List ℕ
  pub size : ℕ
  pub content_type : List ℕ

unfoldable pub contents : List (List ℕ) → List File → Option (List ℕ)
unfolding same_path
contents p [] = none
contents p (f ∷ fs) = if same_path p f.path then some f.bytes else contents p fs

-- `_write_atomic`
unfoldable pub write_found :
    List (List ℕ) → List ℕ → Option (List ℕ) → List File → Result StoreError (List File)
write_found p payload none files = ok (files ++ record { path = p; bytes = payload } ∷ [])
write_found p payload (some existing) files =
    if same_text existing payload then ok files else err integrity_error

unfoldable pub write_atomic : List (List ℕ) → List ℕ → List File → Result StoreError (List File)
unfolding write_found contents same_text
write_atomic p payload files = write_found p payload (contents p files) files

module _ (sha256 : List ℕ → List ℕ) (root : List (List ℕ)) where
  abbrev pub ref_of : List ℕ → List ℕ → List ℕ → ObjectRef
  ref_of key payload content_type = record {
    key = key;
    sha256 = sha256 payload;
    size = length payload;
    content_type = content_type;
  }

  unfoldable pub put_immutable :
      List ℕ
      → List ℕ
      → List ℕ
      → List ℕ
      → List ℕ
      → List File
      → Result StoreError (ObjectRef × List File)
  unfolding object_key path write_atomic
  put_immutable tenant_id kind payload suffix content_type files = do
    key ← object_key tenant_id kind (sha256 payload) suffix
    p ← path root key
    files' ← write_atomic p payload files
    ok (ref_of key payload content_type, files')

  unfoldable pub verified : ObjectRef → Option (List ℕ) → Result StoreError (List ℕ)
  unfolding same_text
  verified ref none = err os_error
  verified ref (some payload) = do
    guard ((length payload == ref.size) && same_text (sha256 payload) ref.sha256) integrity_error
    ok payload

  unfoldable pub read_verified : ObjectRef → List File → Result StoreError (List ℕ)
  unfolding verified contents path
  read_verified ref files = do p ← path root ref.key; verified ref (contents p files)
