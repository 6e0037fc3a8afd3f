-- ===== src/Storage/Integrity.antt =====
-- What the local store of src/dsvire/object_store.py promises.
use tokito_dsvire.Prelude.{
  same_text-eq, same_text, ℕ, true, Option, none, some, List, [], ◌∷◌, ◌++◌, ◌≡◌, refl, sym, ap,
  ◌∙◌, arith, inl, inr, Bool-cases, Result, ok, err, length, Ensures, Ensures-ok, Ensures-bind,
}
use tokito_dsvire.Storage.Keys.{StoreError, same_path, object_key, path}
use tokito_dsvire.Storage.Local.{
  File, ObjectRef, contents, write_found, write_atomic, put_immutable, verified, read_verified,
}

pub same_text_refl : (a : List ℕ) → same_text a a ≡ true
unfolding same_text
same_text_refl [] = refl
same_text_refl (c ∷ cs) = ground (arith, same_text_refl cs)

pub same_path_refl : (a : List (List ℕ)) → same_path a a ≡ true
unfolding same_path
same_path_refl [] = refl
same_path_refl (c ∷ cs) = rw (same_text_refl c) (same_path_refl cs)

-- A file that is there is found in the longer list, and a file that is added is found when there
-- was none.
contents-append :
    (p : List (List ℕ)) (fs : List File) (f : File)
    → contents p (fs ++ f ∷ [])
      ≡ elim (contents p fs) [ some b ↦ some b | none ↦ contents p (f ∷ []) ]
unfolding contents
contents-append p [] f = refl
contents-append p (g ∷ fs) f = elim (Bool-cases (same_path p g.path)) [
  | inl t ↦ rw t refl
  | inr t ↦ rw t (contents-append p fs f)
]

-- A write keeps every file, and leaves the payload at its path.
abbrev Writes : List (List ℕ) → List ℕ → List File → List File → Type 0
Writes p payload files files' =
    (contents p files' ≡ some payload)
    × ((q : List (List ℕ)) (b : List ℕ) → contents q files ≡ some b → contents q files' ≡ some b)

write_atomic-Writes :
    (p : List (List ℕ)) (payload : List ℕ) (files : List File)
    → Ensures (Writes p payload files) (write_atomic p payload files)
unfolding write_atomic
write_atomic-Writes p payload files = pick (contents p files) refl
  where
    pick :
        (o : Option (List ℕ))
        → contents p files ≡ o
        → Ensures (Writes p payload files) (write_found p payload o files)
    pick none e =
        unfold write_found in
        (
          contents-append p files _ ∙ rw e (unfold contents in rw (same_path_refl p) refl),
          λ q b h. contents-append q files _ ∙ rw h refl,
        )
    pick (some x) e = elim (Bool-cases (same_text x payload)) [
      | inl t ↦ rw (t, write_found) (e ∙ ap some (same_text-eq x payload t), λ q b h. h)
      | inr t ↦ rw (t, write_found) tt
    ]

module _ (sha256 : List ℕ → List ℕ) (root : List (List ℕ)) where
  -- What a `put_immutable` that returns has done.
  pub record Put (payload : List ℕ) (files : List File) (ref : ObjectRef) (files' : List File)
      : Type 0 where
    pub at : List (List ℕ)
    pub located : path root ref.key ≡ ok at
    pub sized : ref.size ≡ length payload
    pub digested : ref.sha256 ≡ sha256 payload
    pub written : Writes at payload files files'

  put_immutable-Put :
      (tenant_id kind payload suffix content_type : List ℕ) (files : List File)
      → Ensures
          (λ r. Put payload files r.0 r.1)
          (put_immutable sha256 root tenant_id kind payload suffix content_type files)
  unfolding put_immutable
  put_immutable-Put tenant_id kind payload suffix content_type files =
      let P = λ (r : ObjectRef × List File). Put payload files r.0 r.1 in
      Ensures-bind P (object_key tenant_id kind (sha256 payload) suffix) _ (λ key e.
        Ensures-bind P (path root key) _ (λ p f.
          Ensures-bind P (write_atomic p payload files) _ (λ files' g. record {
            at = p;
            located = f;
            sized = refl;
            digested = refl;
            written = Ensures-ok (Writes p payload files) _ (write_atomic-Writes p payload files) g;
          })))

  -- Where a path is known, the store reads what is there.
  read-at :
      (ref : ObjectRef) (p : List (List ℕ)) (files : List File)
      → path root ref.key ≡ ok p
      → read_verified sha256 root ref files ≡ verified sha256 root ref (contents p files)
  unfolding read_verified
  read-at ref p files e = rw e refl

  Put-read :
      (payload : List ℕ) (files : List File) (ref : ObjectRef) (files' : List File)
      → Put payload files ref files'
      → read_verified sha256 root ref files' ≡ ok payload
  unfolding verified
  Put-read payload files ref files' t =
      read-at ref t.at files' t.located
      ∙ rw t.written.0
          (rw t.sized (rw t.digested (rw (same_text_refl (sha256 payload)) (ground arith))))

  -- What could be read before can be read after.
  Put-keeps :
      (payload : List ℕ) (files : List File) (ref : ObjectRef) (files' : List File)
      → Put payload files ref files'
      → (other : ObjectRef) (b : List ℕ) → read_verified sha256 root other files ≡ ok b
      → read_verified sha256 root other files' ≡ ok b
  unfolding read_verified verified
  Put-keeps payload files ref files' t other b h = located (path root other.key) refl
    where
      found :
          (p : List (List ℕ)) (o : Option (List ℕ))
          → contents p files ≡ o
          → verified sha256 root other o ≡ ok b
          → verified sha256 root other (contents p files') ≡ ok b
      found p none e k = cc
      found p (some x) e k = rw (t.written.1 p x e) k

      located :
          (r : Result StoreError (List (List ℕ)))
          → path root other.key ≡ r
          → read_verified sha256 root other files' ≡ ok b
      located (ok p) e =
          read-at other p files' e
          ∙ found p (contents p files) refl (sym (read-at other p files e) ∙ h)
      located (err x) e = ground (arith, h, e)

  -- The store after any calls of `put_immutable`, by anyone.
  pub data Puts (s : List File) : List File → Type 0 where
    no_puts : Puts s s
    put :
        (tenant_id kind payload suffix content_type : List ℕ) {t u : List File} (ref : ObjectRef)
        → Puts s t
        → put_immutable sha256 root tenant_id kind payload suffix content_type t ≡ ok (ref, u)
        → Puts s u

  Puts-keeps :
      {s t : List File}
      → Puts s t
      → (other : ObjectRef) (b : List ℕ) → read_verified sha256 root other s ≡ ok b
      → read_verified sha256 root other t ≡ ok b
  Puts-keeps no_puts other b h = h
  Puts-keeps (put tenant_id kind payload suffix content_type {t} {u} ref k e) other b h =
      Put-keeps payload t ref u
        (Ensures-ok (λ (r : ObjectRef × List File). Put payload t r.0 r.1) _
          (put_immutable-Put tenant_id kind payload suffix content_type t) e)
        other b (Puts-keeps k other b h)

  -- What has been put can be read back under its reference, the same bytes, after any further
  -- calls of `put_immutable` by any tenants.
  pub put-read :
      (tenant_id kind payload suffix content_type : List ℕ) (files : List File) {ref : ObjectRef}
      {files' later : List File}
      → put_immutable sha256 root tenant_id kind payload suffix content_type files
        ≡ ok (ref, files')
      → Puts files' later
      → read_verified sha256 root ref later ≡ ok payload
  put-read tenant_id kind payload suffix content_type files {ref} {files'} e k =
      Puts-keeps k ref payload (
        Put-read payload files ref files' (
          Ensures-ok (λ (r : ObjectRef × List File). Put payload files r.0 r.1) _
            (put_immutable-Put tenant_id kind payload suffix content_type files) e))
