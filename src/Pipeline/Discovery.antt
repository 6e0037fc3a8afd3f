-- ===== src/Pipeline/Discovery.antt =====
-- The identities that a datasheet itself names: `discover_part_identities` and `resolve_identity`
-- of src/dsvire/pipeline.py. What `re` finds for PACKAGE_TOKEN, and what PDFium opens, are
-- arguments.
use tokito_dsvire.Prelude.{
  ℕ, Bool, true, not, ◌&&◌, ◌||◌, Option, none, some, List, [], ◌∷◌, ◌++◌, leb, if◌then◌else◌,
  is_empty, length, Result, ok, err, guard, ◌>>=◌, ◌>>◌, codes, same_text, String,
}
use tokito_dsvire.Pipeline.Chars.{
  Text, Unicode, any, starts_with, strip, strip_chars, split_words, join, space,
}
use tokito_dsvire.Pipeline.Phrases.{
  contains_phrase, contains_ordered_tokens, normalise_mpn, normalise_phrase,
}
use tokito_dsvire.Pipeline.Regions.{Verified, best_candidates}
use tokito_dsvire.Pipeline.Pages.{
  DatasheetIdentity, Page, PdfDocument, RetrievalError, pdf_size, no_pdf_header, backend_error,
  backend_failure, page_count_outside, page_text_limit, not_grounded, identity_ambiguous,
  max_text_chars, max_pages, page_count,
}
use tokito_dsvire.Pipeline.Identity.{IdentityHint, complete_hint, page_lines}

-- Bytes as numbers.
abbrev pub Bytes : Type 0
Bytes = List ℕ

abbrev pub max_pdf_bytes : ℕ
max_pdf_bytes = 67_108_864

-- The tests of the size and the header that stand before every use of a PDF.
unfoldable pub check_pdf : Bytes → Result RetrievalError (Unit {0})
unfolding starts_with
check_pdf pdf_bytes = do
  guard (leb 8 (length pdf_bytes) && leb (length pdf_bytes) max_pdf_bytes) pdf_size
  guard (starts_with (codes "%PDF-") pdf_bytes) no_pdf_header

-- `PdfDocument(pdf_bytes)`, whose refusal becomes a RetrievalError.
unfoldable pub opened : Option PdfDocument → Result RetrievalError PdfDocument
opened none = err backend_error
opened (some document) = ok document

-- PACKAGE_TOKEN: the first group of `search`, and whether `fullmatch` finds a match.
pub record PackageToken : Type 0 where
  pub search : Text → Option Text
  pub fullmatch : Text → Bool

abbrev pub mpn_edge : Text
mpn_edge = codes "()[]{},;:"

-- The only candidate, or an error.
unfoldable pub only_one : List DatasheetIdentity → Result RetrievalError DatasheetIdentity
only_one [] = err not_grounded
only_one (c ∷ []) = ok c
only_one (c ∷ d ∷ cs) = err (identity_ambiguous (c ∷ d ∷ cs))

unfoldable pub completed : Option IdentityHint → Result RetrievalError (Option DatasheetIdentity)
unfolding complete_hint
completed none = ok none
completed (some hint) = complete_hint hint

abbrev pub hint_url : Option IdentityHint → Option String
hint_url none = none
hint_url (some hint) = hint.source_url

module _ (u : Unicode) (package_token : PackageToken) where
  -- `_looks_like_mpn`
  unfoldable pub looks_like_mpn : Text → Bool
  unfolding strip_chars
  looks_like_mpn token =
      let compact = strip_chars mpn_edge (u.nfkc token) in
      (leb 2 (length compact) && leb (length compact) 40)
      && (not (package_token.fullmatch compact) && (any u.alpha compact && any u.digit compact))

  -- `_hint_matches`, given a hint.
  unfoldable pub matches : DatasheetIdentity → IdentityHint → Bool
  unfolding strip contains_phrase normalise_mpn contains_ordered_tokens same_text
  matches identity hint =
      (is_empty (strip hint.manufacturer)
        || contains_phrase u identity.manufacturer hint.manufacturer)
      && ((is_empty (strip hint.mpn)
            || same_text (normalise_mpn u identity.mpn) (normalise_mpn u hint.mpn))
          && (is_empty (strip hint.part_package)
              || contains_ordered_tokens u identity.part_package hint.part_package))

  -- `_hint_matches`
  unfoldable pub hint_matches : DatasheetIdentity → Option IdentityHint → Bool
  unfolding matches
  hint_matches identity none = true
  hint_matches identity (some hint) = matches identity hint

  -- The triple that `words`, a token and a package behind it spell.
  unfoldable pub triple : Option IdentityHint → List Text → Text → Text → DatasheetIdentity
  unfolding strip join strip_chars
  triple hint words token found = record {
    manufacturer = strip (join space words);
    mpn = strip_chars mpn_edge (u.nfkc token);
    part_package = found;
    source_url = hint_url hint;
  }

  unfoldable pub is_grounded : Text → Option IdentityHint → DatasheetIdentity → Bool
  unfolding contains_phrase hint_matches
  is_grounded raw_text hint identity =
      (not (is_empty identity.manufacturer) && not (any u.digit identity.manufacturer))
      && (contains_phrase u raw_text identity.manufacturer && hint_matches identity hint)

  unfoldable pub grounded_triple :
      Text → Option IdentityHint → List Text → Text → Option Text → Option DatasheetIdentity
  unfolding triple is_grounded
  grounded_triple raw_text hint words token none = none
  grounded_triple raw_text hint words token (some found) =
      let identity = triple hint words token found in
      if is_grounded raw_text hint identity then some identity else none

  -- One turn of the loop over the tokens of a line: `words` stand before the token.
  unfoldable pub identity_at :
      Text → Option IdentityHint → List Text → Text → List Text → Option DatasheetIdentity
  unfolding looks_like_mpn grounded_triple join
  identity_at raw_text hint words token later =
      if looks_like_mpn token
      then grounded_triple raw_text hint words token (package_token.search (join space later))
      else none

  -- Two identities have the key of one entry of `found`.
  unfoldable pub same_identity : DatasheetIdentity → DatasheetIdentity → Bool
  unfolding same_text normalise_phrase normalise_mpn
  same_identity a b =
      same_text (normalise_phrase u a.manufacturer) (normalise_phrase u b.manufacturer)
      && (same_text (normalise_mpn u a.mpn) (normalise_mpn u b.mpn)
          && same_text (normalise_phrase u a.part_package) (normalise_phrase u b.part_package))

  -- `found[key] = identity`
  unfoldable pub enter_found : DatasheetIdentity → List DatasheetIdentity → List DatasheetIdentity
  unfolding same_identity
  enter_found identity [] = identity ∷ []
  enter_found identity (f ∷ found) =
      if same_identity identity f then identity ∷ found else f ∷ enter_found identity found

  abbrev pub enter_option :
      Option DatasheetIdentity → List DatasheetIdentity → List DatasheetIdentity
  enter_option none found = found
  enter_option (some identity) found = enter_found identity found

  unfoldable pub scan_tokens :
      Text
      → Option IdentityHint
      → List Text
      → List Text
      → List DatasheetIdentity
      → List DatasheetIdentity
  unfolding identity_at enter_found
  scan_tokens raw_text hint words [] found = found
  scan_tokens raw_text hint words (token ∷ later) found =
      scan_tokens raw_text hint (words ++ (token ∷ [])) later
        (enter_option (identity_at raw_text hint words token later) found)

  unfoldable pub scan_lines :
      Text → Option IdentityHint → List Text → List DatasheetIdentity → List DatasheetIdentity
  unfolding split_words scan_tokens
  scan_lines raw_text hint [] found = found
  scan_lines raw_text hint (line ∷ lines) found =
      scan_lines raw_text hint lines (scan_tokens raw_text hint [] (split_words line) found)

  unfoldable pub scan_pages :
      Option IdentityHint
      → List (Option Page)
      → List DatasheetIdentity
      → Result RetrievalError (List DatasheetIdentity)
  unfolding page_lines scan_lines
  scan_pages hint [] found = ok found
  scan_pages hint (none ∷ pages) found = err backend_failure
  scan_pages hint (some page ∷ pages) found = do
    guard (leb (length page.raw_text) max_text_chars) page_text_limit
    scan_pages hint pages (scan_lines page.raw_text hint (page_lines page.raw_text) found)

  module _ (open_pdf : Bytes → Option PdfDocument) where
    -- `discover_part_identities`
    unfoldable pub discover_part_identities :
        Bytes → Option IdentityHint → Result RetrievalError (List DatasheetIdentity)
    unfolding check_pdf opened scan_pages
    discover_part_identities pdf_bytes hint = do
      check_pdf pdf_bytes
      document ← opened (open_pdf pdf_bytes)
      guard (leb 1 (page_count document) && leb (page_count document) max_pages) page_count_outside
      scan_pages hint document.pages []

    unfoldable pub discovered :
        Bytes → Option IdentityHint → Result RetrievalError DatasheetIdentity
    unfolding discover_part_identities only_one
    discovered pdf_bytes hint = do
      candidates ← discover_part_identities pdf_bytes hint
      only_one candidates

    abbrev pub or_discovered :
        Bytes
        → Option IdentityHint
        → Option DatasheetIdentity
        → Result RetrievalError DatasheetIdentity
    or_discovered pdf_bytes hint none = discovered pdf_bytes hint
    or_discovered pdf_bytes hint (some identity) = ok identity

    -- `resolve_identity`
    unfoldable pub resolve_identity :
        Bytes → Option IdentityHint → Result RetrievalError DatasheetIdentity
    unfolding completed discovered
    resolve_identity pdf_bytes hint = do
      identity ← completed hint
      or_discovered pdf_bytes hint identity

-- `load_verified_region_candidates`
unfoldable pub load_verified_region_candidates :
    Unicode → (Bytes → Option PdfDocument) → Bytes → Result RetrievalError Verified
unfolding check_pdf opened best_candidates
load_verified_region_candidates u open_pdf pdf_bytes = do
  check_pdf pdf_bytes
  document ← opened (open_pdf pdf_bytes)
  best_candidates u document
