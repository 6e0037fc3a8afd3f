-- ===== src/Pipeline/Resolving.antt =====
-- What `resolve_identity` of src/dsvire/pipeline.py takes from the text of a datasheet.
use tokito_dsvire.Prelude.{
  ◌&&◌, Option, none, some, List, [], ◌∷◌, ◌≡◌, refl, ap, subst, arith, inl, inr, Bool-cases, All,
  In, leb, length, ok, err≢ok, ok_injective, Ensures, Ensures-ok, Ensures-map, guard, ◌>>=◌,
  bind-ok,
}
use tokito_dsvire.Pipeline.Chars.{Text, Unicode, split_words}
use tokito_dsvire.Pipeline.Pages.{
  DatasheetIdentity, Page, PdfDocument, max_text_chars, max_pages, page_count, page_count_outside,
}
use tokito_dsvire.Pipeline.Identity.{IdentityHint, page_lines}
use tokito_dsvire.Pipeline.Discovery.{
  Bytes, PackageToken, check_pdf, opened, only_one, completed, scan_tokens, scan_lines, scan_pages,
  discover_part_identities, discovered, or_discovered, resolve_identity,
}
use tokito_dsvire.Pipeline.Spelling.{
  Key, key_of, SpelledBy, Spelled, Keys, scan_tokens-All, scan_tokens-Keys,
}

module _ (u : Unicode) (package_token : PackageToken) (hint : Option IdentityHint) where
  scan_lines-All :
      (P : DatasheetIdentity → Type 0) (raw_text : Text) (lines : List Text)
      (found : List DatasheetIdentity)
      → ((line : Text) (identity : DatasheetIdentity)
          → In line lines
          → SpelledBy u package_token hint raw_text line identity
          → P identity)
      → All P found
      → All P (scan_lines u package_token raw_text hint lines found)
  unfolding scan_lines
  scan_lines-All P raw_text [] found spelled h = h
  scan_lines-All P raw_text (line ∷ lines) found spelled h =
      scan_lines-All P raw_text lines _ (λ l identity m. spelled l identity (inr m))
        (scan_tokens-All u package_token hint P raw_text [] (split_words line) found
          (λ ws token later identity e f. spelled line identity (inl refl) (ws, token, later, e, f))
          h)

  scan_lines-Keys :
      (raw_text : Text) (lines : List Text) (found : List DatasheetIdentity)
      → ((line : Text) (identity : DatasheetIdentity)
          → In line lines
          → SpelledBy u package_token hint raw_text line identity
          → Keys u package_token hint
              (scan_lines u package_token raw_text hint lines found)
              (key_of u package_token hint identity))
        × ((key : Key)
            → Keys u package_token hint found key
            → Keys u package_token hint (scan_lines u package_token raw_text hint lines found) key)
  unfolding scan_lines
  scan_lines-Keys raw_text [] found = ((λ line identity m. absurd m), λ key m. m)
  scan_lines-Keys raw_text (line ∷ lines) found =
      let (here, old) =
        scan_tokens-Keys u package_token hint raw_text [] (split_words line) found in
      let (rest, kept) =
        scan_lines-Keys raw_text lines
          (scan_tokens u package_token raw_text hint [] (split_words line) found) in
      (
        (λ l identity m spelled. elim m [
          | inl e ↦
              let (ws, token, later, split_line, f) =
                subst (λ x. SpelledBy u package_token hint raw_text x identity) e spelled in
              kept _ (here ws token later identity split_line f)
          | inr k ↦ rest l identity k spelled
        ]),
        λ key m. kept key (old key m),
      )

  -- The identities that are found are spelled, and every identity that is spelled has its key.
  abbrev Complete :
      List (Option Page)
      → List (Option Page)
      → List DatasheetIdentity
      → List DatasheetIdentity
      → Type 0
  Complete pages rest before found =
      All (Spelled u package_token hint pages) found
      × ((identity : DatasheetIdentity)
          → Spelled u package_token hint rest identity
          → Keys u package_token hint found (key_of u package_token hint identity))
      × ((key : Key) → Keys u package_token hint before key → Keys u package_token hint found key)

  scan_pages-Complete :
      (pages rest : List (Option Page)) (found : List DatasheetIdentity)
      → ((p : Option Page) → In p rest → In p pages)
      → All (Spelled u package_token hint pages) found
      → Ensures (Complete pages rest found) (scan_pages u package_token hint rest found)
  unfolding scan_pages
  scan_pages-Complete pages [] found sub h = (h, (λ identity s. absurd s.1), λ key m. m)
  scan_pages-Complete pages (none ∷ rest) found sub h = tt
  scan_pages-Complete pages (some page ∷ rest) found sub h =
      elim (Bool-cases (leb (length page.raw_text) max_text_chars)) [
        | inr x ↦ rw x tt
        | inl x ↦
            let lines = page_lines page.raw_text in
            let after = scan_lines u package_token page.raw_text hint lines found in
            let (here, old) = scan_lines-Keys page.raw_text lines found in
            rw x (
              Ensures-map (Complete pages rest after) (Complete pages (some page ∷ rest) found) _
                (λ end k. (
                  k.0,
                  (λ identity s. elim s.1 [
                    | inl e ↦
                        let same : s.0 ≡ page = ground (arith, e) in
                        k.2 _ (
                          here s.2.0 identity
                            (subst (λ p. In s.2.0 (page_lines p.raw_text)) same s.2.1)
                            (subst (λ p. SpelledBy u package_token hint p.raw_text s.2.0 identity)
                              same s.2.2))
                    | inr m ↦ k.1 identity (s.0, m, s.2)
                  ]),
                  λ key m. k.2 key (old key m),
                ))
                (scan_pages-Complete pages rest after (λ p m. sub p (inr m))
                  (scan_lines-All (Spelled u package_token hint pages) page.raw_text lines found
                    (λ line identity m s. (page, sub (some page) (inl refl), (line, m, s))) h)))
      ]

pub opened-some : {d : PdfDocument} (o : Option PdfDocument) → opened o ≡ ok d → o ≡ some d
unfolding opened
opened-some none e = absurd (err≢ok e)
opened-some (some d) e = ap some (ok_injective e)

only_one-found :
    (found : List DatasheetIdentity) (identity : DatasheetIdentity)
    → only_one found ≡ ok identity
    → found ≡ identity ∷ []
unfolding only_one
only_one-found [] identity h = cc
only_one-found (f ∷ []) identity h = ap (λ x. x ∷ []) (ok_injective h)
only_one-found (f ∷ g ∷ found) identity h = cc

-- Without a complete hint, an identity is returned only when the text of the document spells it,
-- and every identity that the text spells, and that agrees with the hint, is the same up to its
-- normal form. Where two are spelled, none is guessed.
pub resolve_identity_only :
    (u : Unicode) (package_token : PackageToken) (open_pdf : Bytes → Option PdfDocument)
    (pdf_bytes : Bytes) (hint : Option IdentityHint) (identity : DatasheetIdentity)
    → completed hint ≡ ok none
    → resolve_identity u package_token open_pdf pdf_bytes hint ≡ ok identity
    → (document : PdfDocument) × (open_pdf pdf_bytes ≡ some document)
      × Spelled u package_token hint document.pages identity
      × ((other : DatasheetIdentity)
          → Spelled u package_token hint document.pages other
          → key_of u package_token hint other ≡ key_of u package_token hint identity)
unfolding resolve_identity discovered discover_part_identities opened
resolve_identity_only u package_token open_pdf pdf_bytes hint identity incomplete h =
    let direct : discovered u package_token open_pdf pdf_bytes hint ≡ ok identity =
      subst (λ r. (r >>= or_discovered u package_token open_pdf pdf_bytes hint) ≡ ok identity)
        incomplete h in
    let (found, searched, single) =
      bind-ok (discover_part_identities u package_token open_pdf pdf_bytes hint) only_one direct in
    let (x, checked, opening) = bind-ok (check_pdf pdf_bytes) _ searched in
    let (document, is_open, scanning) = bind-ok (opened (open_pdf pdf_bytes)) _ opening in
    let (y, counted, scanned) =
      bind-ok
        (guard (leb 1 (page_count document) && leb (page_count document) max_pages)
          page_count_outside)
        _ scanning in
    let k =
      Ensures-ok (Complete u package_token hint document.pages document.pages []) _
        (scan_pages-Complete u package_token hint document.pages document.pages [] (λ p m. m) tt)
        scanned in
    let only = only_one-found found identity single in
    (
      document,
      opened-some (open_pdf pdf_bytes) is_open,
      (subst (All (Spelled u package_token hint document.pages)) only k.0).0,
      λ other s. alone (
          subst (λ l. Keys u package_token hint l (key_of u package_token hint other)) only
            (k.1 other s)),
    )
  where
    alone :
        {key : Key}
        → Keys u package_token hint (identity ∷ []) key
        → key ≡ key_of u package_token hint identity
    alone (inl e) = e
    alone (inr m) = absurd m
