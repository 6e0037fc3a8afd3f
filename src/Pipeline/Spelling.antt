-- ===== src/Pipeline/Spelling.antt =====
-- The identities that the lines of a datasheet spell, as `discover_part_identities` of
-- src/dsvire/pipeline.py enters them.
use tokito_dsvire.Prelude.{
  true, Option, none, some, List, [], ◌∷◌, ◌++◌, ◌≡◌, refl, sym, ap, ◌∙◌, subst, arith, inl, inr,
  Bool-cases, map, All, In, same_text-eq, snoc-append, append_nil,
}
use tokito_dsvire.Pipeline.Chars.{Text, Unicode, split_words}
use tokito_dsvire.Pipeline.Phrases.{normalise_phrase, normalise_mpn}
use tokito_dsvire.Pipeline.Pages.{DatasheetIdentity, Page}
use tokito_dsvire.Pipeline.Identity.{IdentityHint, page_lines}
use tokito_dsvire.Pipeline.Discovery.{
  PackageToken, identity_at, same_identity, enter_found, enter_option, scan_tokens,
}

-- What tells identities apart: the normalised manufacturer, part number and package.
pub record Key : Type 0 where
  pub manufacturer : Text
  pub mpn : Text
  pub part_package : Text

module _ (u : Unicode) (package_token : PackageToken) (hint : Option IdentityHint) where
  abbrev pub key_of : DatasheetIdentity → Key
  key_of identity = record {
    manufacturer = normalise_phrase u identity.manufacturer;
    mpn = normalise_mpn u identity.mpn;
    part_package = normalise_phrase u identity.part_package;
  }

  same_identity-key_of :
      (a b : DatasheetIdentity) → same_identity u package_token a b ≡ true → key_of a ≡ key_of b
  unfolding same_identity
  same_identity-key_of a b h =
      let m =
        same_text-eq (normalise_phrase u a.manufacturer) (normalise_phrase u b.manufacturer)
          (ground (arith, h)) in
      let n = same_text-eq (normalise_mpn u a.mpn) (normalise_mpn u b.mpn) (ground (arith, h)) in
      let p =
        same_text-eq (normalise_phrase u a.part_package) (normalise_phrase u b.part_package)
          (ground (arith, h)) in
      rw (m, n, p) refl

  -- The identity that a token of the text spells with the words before it and a package behind it.
  abbrev pub SpelledBy : Text → Text → DatasheetIdentity → Type 0
  SpelledBy raw_text line identity =
      (words : List Text) × (token : Text) × (later : List Text) × (split_words line
        ≡ words ++ (token ∷ later))
      × (identity_at u package_token raw_text hint words token later ≡ some identity)

  -- It is spelled by a line of a page of the document.
  abbrev pub Spelled : List (Option Page) → DatasheetIdentity → Type 0
  Spelled pages identity =
      (page : Page) × In (some page) pages
      × ((line : Text) × In line (page_lines page.raw_text) × SpelledBy page.raw_text line identity)

  abbrev pub Keys : List DatasheetIdentity → Key → Type 0
  Keys found key = In key (map key_of found)

  enter_found-Keys :
      (identity : DatasheetIdentity) (found : List DatasheetIdentity)
      → Keys (enter_found u package_token identity found) (key_of identity)
        × ((key : Key) → Keys found key → Keys (enter_found u package_token identity found) key)
  unfolding enter_found
  enter_found-Keys identity [] = (inl refl, λ key m. absurd m)
  enter_found-Keys identity (f ∷ found) =
      elim (Bool-cases (same_identity u package_token identity f)) [
        | inl t ↦ rw t (
          inl refl,
          λ key m. elim m [
            | inl e ↦ inl (e ∙ sym (same_identity-key_of identity f t))
            | inr k ↦ inr k
          ],
        )
        | inr t ↦
            let (new, old) = enter_found-Keys identity found in
            rw t (inr new, λ key m. elim m [ inl e ↦ inl e | inr k ↦ inr (old key k) ])
      ]

  module _ (P : DatasheetIdentity → Type 0) where
    enter_found-All :
        (identity : DatasheetIdentity) (found : List DatasheetIdentity)
        → P identity
        → All P found
        → All P (enter_found u package_token identity found)
    unfolding enter_found
    enter_found-All identity [] p h = (p, tt)
    enter_found-All identity (f ∷ found) p h =
        elim (Bool-cases (same_identity u package_token identity f)) [
          | inl t ↦ rw t (p, h.1)
          | inr t ↦ rw t (h.0, enter_found-All identity found p h.1)
        ]

    enter_option-All :
        (o : Option DatasheetIdentity) (found : List DatasheetIdentity)
        → ((identity : DatasheetIdentity) → o ≡ some identity → P identity)
        → All P found
        → All P (enter_option u package_token o found)
    enter_option-All none found p h = h
    enter_option-All (some identity) found p h = enter_found-All identity found (p identity refl) h

  enter_option-Keys :
      (o : Option DatasheetIdentity) (found : List DatasheetIdentity)
      → ((identity : DatasheetIdentity)
          → o ≡ some identity
          → Keys (enter_option u package_token o found) (key_of identity))
        × ((key : Key) → Keys found key → Keys (enter_option u package_token o found) key)
  enter_option-Keys none found = ((λ identity e. cc), λ key m. m)
  enter_option-Keys (some i) found = (
    (λ identity e.
        let same : i ≡ identity = ground (arith, e) in
        subst (λ x. Keys (enter_found u package_token i found) (key_of x)) same
          (enter_found-Keys i found).0),
    (enter_found-Keys i found).1,
  )

  -- The loop over the tokens of a line enters what they spell, and nothing else.
  pub scan_tokens-All :
      (P : DatasheetIdentity → Type 0) (raw_text : Text) (words tokens : List Text)
      (found : List DatasheetIdentity)
      → ((ws : List Text) (token : Text) (later : List Text) (identity : DatasheetIdentity)
          → words ++ tokens ≡ ws ++ (token ∷ later)
          → identity_at u package_token raw_text hint ws token later ≡ some identity
          → P identity)
      → All P found
      → All P (scan_tokens u package_token raw_text hint words tokens found)
  unfolding scan_tokens
  scan_tokens-All P raw_text words [] found spelled h = h
  scan_tokens-All P raw_text words (token ∷ later) found spelled h =
      scan_tokens-All P raw_text (words ++ (token ∷ [])) later _
        (λ ws t l identity e. spelled ws t l identity (snoc-append words token later ∙ e))
        (enter_option-All P (identity_at u package_token raw_text hint words token later) found
          (λ identity e. spelled words token later identity refl e) h)

  pub scan_tokens-Keys :
      (raw_text : Text) (words tokens : List Text) (found : List DatasheetIdentity)
      → ((ws : List Text) (token : Text) (later : List Text) (identity : DatasheetIdentity)
          → tokens ≡ ws ++ (token ∷ later)
          → identity_at u package_token raw_text hint (words ++ ws) token later ≡ some identity
          → Keys (scan_tokens u package_token raw_text hint words tokens found) (key_of identity))
        × ((key : Key)
            → Keys found key
            → Keys (scan_tokens u package_token raw_text hint words tokens found) key)
  unfolding scan_tokens
  scan_tokens-Keys raw_text words [] found = (none_left, λ key m. m)
    where
      none_left :
          (ws : List Text) (token : Text) (later : List Text) (identity : DatasheetIdentity)
          → [] ≡ ws ++ (token ∷ later)
          → identity_at u package_token raw_text hint (words ++ ws) token later ≡ some identity
          → Keys found (key_of identity)
      none_left [] token later identity e f = cc
      none_left (w ∷ ws) token later identity e f = cc
  scan_tokens-Keys raw_text words (token ∷ later) found =
      let o = identity_at u package_token raw_text hint words token later in
      let (new, old) = enter_option-Keys o found in
      let (rest, kept) =
        scan_tokens-Keys raw_text (words ++ (token ∷ [])) later
          (enter_option u package_token o found) in
      (at_token new rest kept, λ key m. kept key (old key m))
    where
      after : List DatasheetIdentity
      after =
          enter_option u package_token (identity_at u package_token raw_text hint words token later)
            found

      end : List DatasheetIdentity
      end = scan_tokens u package_token raw_text hint (words ++ (token ∷ [])) later after

      at_token :
          ((identity : DatasheetIdentity)
            → identity_at u package_token raw_text hint words token later ≡ some identity
            → Keys after (key_of identity))
          → ((ws : List Text) (t : Text) (l : List Text) (identity : DatasheetIdentity)
              → later ≡ ws ++ (t ∷ l)
              → identity_at u package_token raw_text hint ((words ++ (token ∷ [])) ++ ws) t l
                ≡ some identity
              → Keys end (key_of identity))
          → ((key : Key) → Keys after key → Keys end key)
          → (ws : List Text) (t : Text) (l : List Text) (identity : DatasheetIdentity)
          → token ∷ later ≡ ws ++ (t ∷ l)
          → identity_at u package_token raw_text hint (words ++ ws) t l ≡ some identity
          → Keys end (key_of identity)
      at_token new rest kept [] t l identity e f =
          let same_token : token ≡ t = ground (arith, e) in
          let same_later : later ≡ l = ground (arith, e) in
          kept (key_of identity) (new identity (rw (same_token, same_later, ← append_nil words) f))
      at_token new rest kept (w ∷ ws) t l identity e f =
          let same_token : token ≡ w = ground (arith, e) in
          let same_later : later ≡ ws ++ (t ∷ l) = ground (arith, e) in
          rest ws t l identity same_later (
            subst (λ x. identity_at u package_token raw_text hint x t l ≡ some identity)
              (snoc-append words w ws ∙ ap (λ x. (words ++ (x ∷ [])) ++ ws) (sym same_token)) f)
