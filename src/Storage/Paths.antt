-- ===== src/Storage/Paths.antt =====
-- Where the keys of src/dsvire/object_store.py lead.
use tokito_dsvire.Prelude.{
  same_text-eq, same_text, is_empty, ℕ, true, false, ◌&&◌, not, List, [], ◌∷◌, ◌++◌, ◌≡◌, refl, sym,
  ap, ◌∙◌, subst, arith, ◌==◌, ok, codes, every, is_lower_hex, length, take, Ensures, Ensures-ok,
  Ensures-guard,
}
use tokito_dsvire.Storage.Keys.{
  value_error, is_tenant_char, is_suffix_char, only, is_kind, is_digest, slash, key_of, safe_suffix,
  object_key, segments, resolve, joined, below, path,
}
use tokito_dsvire.Storage.Segments.{
  Unslashed, segments-part, segments-last, every-Unslashed, only-every, strip_dots-every,
  every-append, Names, enter-Names, tenant-Names, kind-Names, hex-Names,
}
use tokito_dsvire.Storage.Integrity.{same_path_refl}

-- What `object_key` lets through.
record Keyed (tenant_id kind digest suffix key : List ℕ) : Type 0 where
  tenant : Names tenant_id
  kinded : Names kind
  first : ℕ
  second : ℕ
  others : List ℕ
  split : digest ≡ first ∷ second ∷ others
  hex : every is_lower_hex digest ≡ true
  suffixed : every is_suffix_char (safe_suffix suffix) ≡ true
  spelled : key ≡ key_of tenant_id kind digest (safe_suffix suffix)

object_key-Keyed :
    (tenant_id kind digest suffix : List ℕ)
    → Ensures (Keyed tenant_id kind digest suffix) (object_key tenant_id kind digest suffix)
unfolding object_key
object_key-Keyed tenant_id kind digest suffix =
    let P = Keyed tenant_id kind digest suffix in
    Ensures-guard P (is_kind kind && is_digest digest) value_error _ (λ a.
      Ensures-guard P
        (not (is_empty (only is_tenant_char tenant_id))
          && (same_text (only is_tenant_char tenant_id) tenant_id
              && not (is_empty (safe_suffix suffix))))
        value_error _
        (λ b.
          let same = same_text-eq (only is_tenant_char tenant_id) tenant_id (ground arith) in
          let chars = only-every is_tenant_char tenant_id in
          keyed digest refl (subst (λ t. every is_tenant_char t ≡ true) same chars)
            (subst (λ t. is_empty t ≡ false) same (ground arith)) (ground arith) (ground arith)
            (ground arith) same))
  where
    keyed :
        (d : List ℕ)
        → digest ≡ d
        → every is_tenant_char tenant_id ≡ true
        → is_empty tenant_id ≡ false
        → is_kind kind ≡ true
        → every is_lower_hex digest ≡ true
        → length digest ≡ 64
        → only is_tenant_char tenant_id ≡ tenant_id
        → Keyed tenant_id kind digest suffix
            (key_of (only is_tenant_char tenant_id) kind digest (safe_suffix suffix))
    keyed [] e t n k h l s = absurd (omega (arith, ap length e, l))
    keyed (x ∷ []) e t n k h l s = absurd (omega (arith, ap length e, l))
    keyed (x ∷ y ∷ zs) e t n k h l s = record {
      tenant = tenant-Names tenant_id t n;
      kinded = kind-Names kind k;
      first = x;
      second = y;
      others = zs;
      split = e;
      hex = h;
      suffixed =
          strip_dots-every is_suffix_char (only is_suffix_char suffix)
            (only-every is_suffix_char suffix);
      spelled = ap (λ t. key_of t kind digest (safe_suffix suffix)) s;
    }

-- The directories of a key, and its file.
abbrev pub parts : List ℕ → List ℕ → List ℕ → List ℕ → List (List ℕ)
parts tenant_id kind digest suffix =
    codes "tenants"
    ∷ tenant_id
    ∷ kind
    ∷ take 2 digest
    ∷ (digest ++ (b'.' ∷ safe_suffix suffix))
    ∷ []

module _ (tenant_id kind digest suffix key : List ℕ)
    (k : Keyed tenant_id kind digest suffix key) where
  file-Names : Names (digest ++ (b'.' ∷ safe_suffix suffix))
  file-Names =
      let hex = subst (λ d. every is_lower_hex d ≡ true) k.split k.hex in
      let file : Unslashed (digest ++ (b'.' ∷ safe_suffix suffix)) =
        every-append (λ c. not (c == slash)) digest (b'.' ∷ safe_suffix suffix)
          (every-Unslashed is_lower_hex (λ x h q. ground arith) digest k.hex)
          (ground (
            arith,
            every-Unslashed is_suffix_char (λ x h q. ground arith) (safe_suffix suffix) k.suffixed,
          )) in
      (
        file,
        (
          k.first,
          (k.second ∷ k.others) ++ (b'.' ∷ safe_suffix suffix),
          ap (λ d. d ++ (b'.' ∷ safe_suffix suffix)) k.split,
          λ q. ground (arith, hex),
        ),
      )

  folder-Names : Names (take 2 digest)
  folder-Names =
      let hex = subst (λ d. every is_lower_hex d ≡ true) k.split k.hex in
      subst (λ d. Names (take 2 d)) (sym k.split)
        (hex-Names k.first (k.second ∷ []) (ground (arith, hex)))

  key-segments : segments key ≡ parts tenant_id kind digest suffix
  key-segments =
      ap segments k.spelled
      ∙ segments-part (codes "tenants") _ refl
      ∙ ap (λ x. codes "tenants" ∷ x)
          (segments-part tenant_id _ k.tenant.0
            ∙ ap (λ x. tenant_id ∷ x)
                (segments-part kind _ k.kinded.0
                  ∙ ap (λ x. kind ∷ x)
                      (segments-part (take 2 digest) _ folder-Names.0
                        ∙ ap (λ x. take 2 digest ∷ x) (segments-last _ file-Names.0))))

  -- The file of the key, below the root.
  abbrev leads : List (List ℕ) → List (List ℕ)
  leads root =
      (digest ++ (b'.' ∷ safe_suffix suffix))
      ∷ take 2 digest
      ∷ kind
      ∷ tenant_id
      ∷ codes "tenants"
      ∷ root

  resolved : (root : List (List ℕ)) → resolve root (parts tenant_id kind digest suffix) ≡ leads root
  unfolding resolve
  resolved root =
      rw
        (enter-Names (codes "tenants") root
          (refl, (b't', codes "enants", refl, λ q. omega (arith, q))))
        (rw (enter-Names tenant_id (codes "tenants" ∷ root) k.tenant) (
          rw (enter-Names kind (tenant_id ∷ codes "tenants" ∷ root) k.kinded) (
            rw
              (enter-Names (take 2 digest) (kind ∷ tenant_id ∷ codes "tenants" ∷ root) folder-Names)
              (enter-Names (digest ++ (b'.' ∷ safe_suffix suffix))
                (take 2 digest ∷ kind ∷ tenant_id ∷ codes "tenants" ∷ root) file-Names))))

  below-leads : (root : List (List ℕ)) → below root (leads root) ≡ true
  unfolding below
  below-leads root = rw (same_path_refl root) (ground arith)

  joined-leads : (root : List (List ℕ)) → joined root key ≡ leads root
  unfolding joined
  joined-leads root =
      subst (λ x. joined root x ≡ leads root) (sym k.spelled)
        (ap (resolve root) (ap segments (sym k.spelled) ∙ key-segments) ∙ resolved root)

  located : (root : List (List ℕ)) → path root key ≡ ok (leads root)
  unfolding path
  located root = rw (joined-leads root) (rw (below-leads root) refl)

-- A key leads to the file of its digest, in the folders of its tenant and kind below the root,
-- whatever the root is: `_path` does not refuse it, and it escapes neither the root nor the
-- tenant's folder.
pub path-object_key :
    (root : List (List ℕ)) (tenant_id kind digest suffix : List ℕ) {key : List ℕ}
    → object_key tenant_id kind digest suffix ≡ ok key
    → path root key
      ≡ ok (
          (digest ++ (b'.' ∷ safe_suffix suffix))
          ∷ take 2 digest
          ∷ kind
          ∷ tenant_id
          ∷ codes "tenants"
          ∷ root)
path-object_key root tenant_id kind digest suffix {key} e =
    located tenant_id kind digest suffix key
      (Ensures-ok (Keyed tenant_id kind digest suffix) _
        (object_key-Keyed tenant_id kind digest suffix) e)
      root

-- What stands before the first dot of two equal texts is equal.
before_dot :
    (a b c d : List ℕ)
    → every is_lower_hex a ≡ true
    → every is_lower_hex b ≡ true
    → (a ++ (b'.' ∷ c)) ≡ (b ++ (b'.' ∷ d))
    → a ≡ b
before_dot [] [] c d h k e = refl
before_dot [] (y ∷ b) c d h k e = ground arith
before_dot (x ∷ a) [] c d h k e = ground arith
before_dot (x ∷ a) (y ∷ b) c d h k e = ground (arith, before_dot a b c d)

-- A key belongs to one tenant, one kind and one digest: two calls of `object_key` that return the
-- same key were given the same three.
pub object_key_injective :
    (tenant_id tenant_id' kind kind' digest digest' suffix suffix' : List ℕ) {key : List ℕ}
    → object_key tenant_id kind digest suffix ≡ ok key
    → object_key tenant_id' kind' digest' suffix' ≡ ok key
    → (tenant_id ≡ tenant_id') × (kind ≡ kind') × (digest ≡ digest')
object_key_injective tenant_id tenant_id' kind kind' digest digest' suffix suffix' {key} e e' =
    let k =
      Ensures-ok (Keyed tenant_id kind digest suffix) _
        (object_key-Keyed tenant_id kind digest suffix) e in
    let k' =
      Ensures-ok (Keyed tenant_id' kind' digest' suffix') _
        (object_key-Keyed tenant_id' kind' digest' suffix') e' in
    let same : parts tenant_id kind digest suffix ≡ parts tenant_id' kind' digest' suffix' =
      sym (key-segments tenant_id kind digest suffix key k)
      ∙ key-segments tenant_id' kind' digest' suffix' key k' in
    let file : (digest ++ (b'.' ∷ safe_suffix suffix)) ≡ (digest' ++ (b'.' ∷ safe_suffix suffix')) =
      cc in
    (cc, cc, before_dot digest digest' (safe_suffix suffix) (safe_suffix suffix') k.hex k'.hex file)
