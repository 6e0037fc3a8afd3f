-- ===== src/Tests/Storage.antt =====
-- Runs of src/dsvire/object_store.py on small inputs, and the laws of Storage at them.
use tokito_dsvire.Prelude.{same_text, ℕ, List, [], ◌∷◌, ◌++◌, ◌≡◌, refl, take, ok, err, codes}
use tokito_dsvire.Storage.Keys.{
  value_error, integrity_error, only, strip_dots, is_kind, safe_suffix, key_of, object_key,
  segments, enter, resolve, joined, same_path, below, path,
}
use tokito_dsvire.Storage.Local.{
  File, ObjectRef, contents, write_found, write_atomic, ref_of, put_immutable, read_verified,
}
use tokito_dsvire.Storage.Integrity.{no_puts, put, put-read}
use tokito_dsvire.Storage.Paths.{path-object_key}

abbrev digest : List ℕ
digest = codes "0123456789abcdef0123456789abcdef0123456789abcdef0123456789abcdef"

-- A digest for every payload.
abbrev constant : List ℕ → List ℕ
constant payload = digest

abbrev root : List (List ℕ)
root = codes "data" ∷ codes "srv" ∷ []

abbrev key : List ℕ
key = key_of (codes "acme") (codes "pdf") digest (codes "pdf")

abbrev file : File
file = record {
  path =
      (digest ++ codes ".pdf") ∷ codes "01" ∷ codes "pdf" ∷ codes "acme" ∷ codes "tenants" ∷ root;
  bytes = codes "%PDF-1.7";
}

abbrev ref : ObjectRef
ref = ref_of constant root key (codes "%PDF-1.7") (codes "application/pdf")

keys : object_key (codes "acme") (codes "pdf") digest (codes ".pdf") ≡ ok key
unfolding object_key is_kind only strip_dots same_text
keys = refl

escaping_tenant : object_key (codes "../acme") (codes "pdf") digest (codes "pdf") ≡ err value_error
unfolding object_key is_kind only strip_dots same_text
escaping_tenant = refl

escaping_key : path root (codes "tenants/../../x") ≡ err value_error
unfolding path joined below segments resolve enter same_path same_text
escaping_key = refl

stores :
    put_immutable constant root
      (codes "acme")
      (codes "pdf")
      (codes "%PDF-1.7")
      (codes "pdf")
      (codes "application/pdf")
      []
    ≡ ok (ref, file ∷ [])
unfolding put_immutable object_key is_kind only strip_dots same_text path joined below segments
    resolve enter same_path write_atomic write_found contents
stores = refl

stores_again :
    put_immutable constant root
      (codes "acme")
      (codes "pdf")
      (codes "%PDF-1.7")
      (codes "pdf")
      (codes "application/pdf")
      (file ∷ [])
    ≡ ok (ref, file ∷ [])
unfolding put_immutable object_key is_kind only strip_dots same_text path joined below segments
    resolve enter same_path write_atomic write_found contents
stores_again = refl

collides :
    put_immutable constant root
      (codes "acme")
      (codes "pdf")
      (codes "%PDF-1.4")
      (codes "pdf")
      (codes "application/pdf")
      (file ∷ [])
    ≡ err integrity_error
unfolding put_immutable object_key is_kind only strip_dots same_text path joined below segments
    resolve enter same_path write_atomic write_found contents
collides = refl

put-read_example : read_verified constant root ref (file ∷ []) ≡ ok (codes "%PDF-1.7")
put-read_example =
    put-read constant root (codes "acme") (codes "pdf") (codes "%PDF-1.7") (codes "pdf")
      (codes "application/pdf") [] stores
      (put (codes "acme") (codes "pdf") (codes "%PDF-1.7") (codes "pdf") (codes "application/pdf")
        ref no_puts stores_again)

path-object_key_example :
    path root key
    ≡ ok (
        (digest ++ (b'.' ∷ safe_suffix (codes ".pdf")))
        ∷ take 2 digest
        ∷ codes "pdf"
        ∷ codes "acme"
        ∷ codes "tenants"
        ∷ root)
path-object_key_example =
    path-object_key root (codes "acme") (codes "pdf") digest (codes ".pdf") keys
