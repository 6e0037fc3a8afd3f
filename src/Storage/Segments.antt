-- ===== src/Storage/Segments.antt =====
-- The segments of the keys of src/dsvire/object_store.py.
use tokito_dsvire.Prelude.{
  same_text-eq, same_text, is_empty, ℕ, zero, suc, Bool, true, false, not, List, [], ◌∷◌, ◌++◌, ◌≡◌,
  ◌≢◌, refl, sym, ap, subst, arith, inl, inr, ◌⊎◌, ◌==◌, Bool-cases, codes, every, is_lower_hex,
  take,
}
use tokito_dsvire.Storage.Keys.{
  is_tenant_char, only, strip_dots, is_kind, slash, cons_first, segments, enter,
}

-- A text without a slash.
abbrev pub Unslashed : List ℕ → Type 0
Unslashed a = every (λ c. not (c == slash)) a ≡ true

pub segments-part :
    (a rest : List ℕ) → Unslashed a → segments (a ++ (slash ∷ rest)) ≡ a ∷ segments rest
unfolding segments
segments-part [] rest h = refl
segments-part (c ∷ cs) rest h =
    let e : (c == slash) ≡ false = ground (arith, h) in
    rw e (ap (cons_first c) (segments-part cs rest (ground (arith, h))))

pub segments-last : (a : List ℕ) → Unslashed a → segments a ≡ a ∷ []
unfolding segments
segments-last [] h = refl
segments-last (c ∷ cs) h =
    let e : (c == slash) ≡ false = ground (arith, h) in
    rw e (ap (cons_first c) (segments-last cs (ground (arith, h))))

pub every-Unslashed :
    (p : ℕ → Bool)
    → ((c : ℕ) → p c ≡ true → c ≢ slash)
    → (a : List ℕ) → every p a ≡ true
    → Unslashed a
every-Unslashed p h [] e = refl
every-Unslashed p h (c ∷ cs) e = ground (arith, h c, every-Unslashed p h cs)

pub only-every : (p : ℕ → Bool) (a : List ℕ) → every p (only p a) ≡ true
unfolding only
only-every p [] = refl
only-every p (c ∷ cs) = ground (arith, only-every p cs)

pub strip_dots-every :
    (p : ℕ → Bool) (a : List ℕ) → every p a ≡ true → every p (strip_dots a) ≡ true
unfolding strip_dots
strip_dots-every p [] h = refl
strip_dots-every p (c ∷ cs) h = ground (arith, strip_dots-every p cs)

pub take-every : (p : ℕ → Bool) (n : ℕ) (a : List ℕ) → every p a ≡ true → every p (take n a) ≡ true
take-every p zero a h = refl
take-every p (suc n) [] h = refl
take-every p (suc n) (c ∷ cs) h = ground (arith, take-every p n cs)

pub every-append :
    (p : ℕ → Bool) (a b : List ℕ) → every p a ≡ true → every p b ≡ true → every p (a ++ b) ≡ true
every-append p [] b h k = k
every-append p (c ∷ cs) b h k = ground (arith, every-append p cs b)

-- A segment that names a file or a directory.
abbrev pub Names : List ℕ → Type 0
Names a = Unslashed a × ((c : ℕ) × (cs : List ℕ) × (a ≡ c ∷ cs) × (c ≢ b'.'))

pub enter-Names : (a : List ℕ) (at : List (List ℕ)) → Names a → enter a at ≡ a ∷ at
unfolding enter same_text
enter-Names a at (u, (c, cs, e, ne)) =
    let d : (c == b'.') ≡ false = ground arith in
    subst (λ x. enter x at ≡ x ∷ at) (sym e) (rw d refl)

pub tenant-Names : (a : List ℕ) → every is_tenant_char a ≡ true → is_empty a ≡ false → Names a
tenant-Names [] e h = cc
tenant-Names (c ∷ cs) e h = (
  every-Unslashed is_tenant_char (λ x k q. ground arith) (c ∷ cs) e,
  (c, cs, refl, λ q. ground arith),
)

pub kind-Names : (kind : List ℕ) → is_kind kind ≡ true → Names kind
unfolding is_kind
kind-Names kind h =
    pick (Bool-cases (same_text kind (codes "pdf"))) (Bool-cases (same_text kind (codes "crop")))
      (Bool-cases (same_text kind (codes "evidence"))) (Bool-cases (same_text kind (codes "pack")))
      (Bool-cases (same_text kind (codes "symbol"))) (Bool-cases (same_text kind (codes "report")))
  where
    named :
        (c : ℕ) (cs : List ℕ)
        → same_text kind (c ∷ cs) ≡ true
        → Unslashed (c ∷ cs)
        → c ≢ b'.'
        → Names kind
    named c cs e u ne = subst Names (sym (same_text-eq kind (c ∷ cs) e)) (u, (c, cs, refl, ne))

    pick :
        (same_text kind (codes "pdf") ≡ true) ⊎ (same_text kind (codes "pdf") ≡ false)
        → (same_text kind (codes "crop") ≡ true) ⊎ (same_text kind (codes "crop") ≡ false)
        → (same_text kind (codes "evidence") ≡ true) ⊎ (same_text kind (codes "evidence") ≡ false)
        → (same_text kind (codes "pack") ≡ true) ⊎ (same_text kind (codes "pack") ≡ false)
        → (same_text kind (codes "symbol") ≡ true) ⊎ (same_text kind (codes "symbol") ≡ false)
        → (same_text kind (codes "report") ≡ true) ⊎ (same_text kind (codes "report") ≡ false)
        → Names kind
    pick (inl a) b c d e f = named b'p' (codes "df") a refl (λ q. omega (arith, q))
    pick (inr a) (inl b) c d e f = named b'c' (codes "rop") b refl (λ q. omega (arith, q))
    pick (inr a) (inr b) (inl c) d e f = named b'e' (codes "vidence") c refl (λ q. omega (arith, q))
    pick (inr a) (inr b) (inr c) (inl d) e f =
        named b'p' (codes "ack") d refl (λ q. omega (arith, q))
    pick (inr a) (inr b) (inr c) (inr d) (inl e) f =
        named b's' (codes "ymbol") e refl (λ q. omega (arith, q))
    pick (inr a) (inr b) (inr c) (inr d) (inr e) (inl f) =
        named b'r' (codes "eport") f refl (λ q. omega (arith, q))
    pick (inr a) (inr b) (inr c) (inr d) (inr e) (inr f) =
        named b'b' (codes "undle") (ground (arith, h)) refl (λ q. omega (arith, q))

pub hex-Names : (c : ℕ) (cs : List ℕ) → every is_lower_hex (c ∷ cs) ≡ true → Names (c ∷ cs)
hex-Names c cs e = (
  every-Unslashed is_lower_hex (λ x k q. ground arith) (c ∷ cs) e,
  (c, cs, refl, λ q. ground arith),
)
