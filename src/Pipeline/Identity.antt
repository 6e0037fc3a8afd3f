-- ===== src/Pipeline/Identity.antt =====
-- The identity of a part in the text of its datasheet: DatasheetIdentity, IdentityHint and
-- `_identity_package_candidate` of src/dsvire/pipeline.py. A source URL does not count for
-- anything here but that it is passed on.
use tokito_dsvire.Prelude.{
  ℕ, suc, ◌+◌, ◌*◌, Bool, true, false, not, ◌||◌, Option, none, some, List, [], ◌∷◌, ◌++◌, map, min,
  leb, ltb, if◌then◌else◌, is_empty, length, take, select, find, Result, ok, err, guard, ◌>>=◌,
  ◌>>◌, codes, String,
}
use tokito_dsvire.Pipeline.Chars.{Text, Unicode, strip, split_lines, join, newline, space}
use tokito_dsvire.Pipeline.Phrases.{
  contains_phrase, contains_ordered_tokens, contains_exact_mpn, starts_new_part_row,
}
use tokito_dsvire.Pipeline.Scores.{orderable_part}
use tokito_dsvire.Pipeline.Regions.{across, region_top, region_bottom}
use tokito_dsvire.Pipeline.Pages.{
  DatasheetIdentity, Block, Page, PdfDocument, Candidate, RetrievalError, is_required,
  exceeds_bytes, backend_failure, page_text_limit, manufacturer_absent, mpn_absent,
  package_not_associated, max_text_chars, Box, extract_blocks,
}

pub record IdentityHint : Type 0 where
  pub manufacturer : Text
  pub mpn : Text
  pub part_package : Text
  pub source_url : Option String

-- `len(value.encode("utf-8"))`
unfoldable pub utf8_length : Text → ℕ
utf8_length [] = 0
utf8_length (c ∷ cs) =
    (if ltb c 128 then 1 else if ltb c 2_048 then 2 else if ltb c 65_536 then 3 else 4)
    + utf8_length cs

unfoldable pub validate_field : Text → ℕ → Result RetrievalError (Unit {0})
unfolding strip utf8_length
validate_field value limit = do
  guard (not (is_empty (strip value))) is_required
  guard (leb (utf8_length value) limit) exceeds_bytes

-- `DatasheetIdentity.validate`
unfoldable pub validate : DatasheetIdentity → Result RetrievalError (Unit {0})
unfolding validate_field
validate identity = do
  validate_field identity.manufacturer 160
  validate_field identity.mpn 120
  validate_field identity.part_package 120

-- `IdentityHint.complete`
unfoldable pub complete_hint : IdentityHint → Result RetrievalError (Option DatasheetIdentity)
unfolding strip validate
complete_hint hint =
    let identity : DatasheetIdentity = record {
      manufacturer = strip hint.manufacturer;
      mpn = strip hint.mpn;
      part_package = strip hint.part_package;
      source_url = hint.source_url;
    } in
    if is_empty identity.manufacturer || (is_empty identity.mpn || is_empty identity.part_package)
    then ok none
    else do validate identity; ok (some identity)

-- The lines of a page that are not blank, without the space around them.
unfoldable pub page_lines : Text → List Text
unfolding split_lines strip
page_lines raw = select (λ l. not (is_empty l)) (map strip (split_lines raw))

-- What the loop over the pages has seen.
pub record Sightings : Type 0 where
  pub manufacturer_seen : Bool
  pub mpn_seen : Bool
  pub associations : List Candidate

-- The box around the block that names the part, or the head of the page.
unfoldable pub identity_box : Page → Option Block → Box
identity_box page none = across page 0 (min (page.height * 1_000) (page.height * 220))
identity_box page (some anchor) =
    across page (region_top page anchor) (region_bottom 90 160 page anchor)

abbrev pub before_line : Option Text → List Text
before_line none = []
before_line (some line) = line ∷ []

abbrev pub identity_caption : DatasheetIdentity → Text
identity_caption identity =
    codes "Exact identity evidence: "
    ++ (strip identity.manufacturer
        ++ (space ∷ (strip identity.mpn ++ (space ∷ strip identity.part_package))))

-- `max` by the score, which is the same for all: the first.
unfoldable pub first_association : List Candidate → Result RetrievalError Candidate
first_association [] = err package_not_associated
first_association (c ∷ cs) = ok c

unfoldable pub proved : Sightings → Result RetrievalError Candidate
unfolding first_association
proved seen = do
  guard seen.manufacturer_seen manufacturer_absent
  guard seen.mpn_seen mpn_absent
  first_association seen.associations

abbrev pub nothing_seen : Sightings
nothing_seen = record { manufacturer_seen = false; mpn_seen = false; associations = [] }

module _ (u : Unicode) (identity : DatasheetIdentity) where
  -- The lines after an orderable part that belong to its row.
  unfoldable pub continued : List Text → List Text
  unfolding starts_new_part_row
  continued [] = []
  continued (line ∷ lines) =
      if starts_new_part_row u line identity.part_package then [] else line ∷ continued lines

  -- `row_lines`, for a line and the lines after it.
  unfoldable pub row_of : Text → List Text → List Text
  unfolding continued
  row_of line later = line ∷ continued (take 3 later)

  -- The package stands in the row of a line.
  unfoldable pub is_associated : Text → List Text → Bool
  unfolding row_of contains_ordered_tokens join
  is_associated line later =
      contains_ordered_tokens u (join newline (row_of line later)) identity.part_package

  unfoldable pub association : ℕ → Page → List Block → Option Text → Text → List Text → Candidate
  unfolding contains_exact_mpn row_of identity_box join
  association page_index page blocks previous line later =
      let row = row_of line later in
      record {
        kind = orderable_part;
        page_index = page_index;
        bbox = identity_box page (find (λ b. contains_exact_mpn u b.text identity.mpn) blocks);
        caption = identity_caption identity;
        text = join newline (before_line previous ++ take (length row + 1) (line ∷ later));
        score = 1_000;
        verified = true;
      }

  -- The sightings after a line with the exact part number, with the candidates of its row.
  abbrev pub mpn_sighted : Sightings → List Candidate → Sightings
  mpn_sighted seen found = record {
    manufacturer_seen = seen.manufacturer_seen;
    mpn_seen = true;
    associations = seen.associations ++ found;
  }

  unfoldable pub associate_line :
      ℕ → Page → Option Text → Text → List Text → Sightings → Result RetrievalError Sightings
  unfolding extract_blocks association
  associate_line page_index page previous line later seen = do
    blocks ← extract_blocks page
    ok (mpn_sighted seen (association page_index page blocks previous line later ∷ []))

  -- One turn of the loop over the lines, where `previous` is the line before.
  unfoldable pub see_line :
      ℕ → Page → Option Text → Text → List Text → Sightings → Result RetrievalError Sightings
  unfolding contains_exact_mpn is_associated associate_line
  see_line page_index page previous line later seen =
      if contains_exact_mpn u line identity.mpn
      then (if is_associated line later
          then associate_line page_index page previous line later seen
          else ok (mpn_sighted seen []))
      else ok seen

  unfoldable pub see_lines :
      ℕ → Page → Option Text → List Text → Sightings → Result RetrievalError Sightings
  unfolding see_line
  see_lines page_index page previous [] seen = ok seen
  see_lines page_index page previous (line ∷ later) seen = do
    after ← see_line page_index page previous line later seen
    see_lines page_index page (some line) later after

  unfoldable pub see_page : ℕ → Option Page → Sightings → Result RetrievalError Sightings
  unfolding contains_phrase page_lines see_lines
  see_page page_index none seen = err backend_failure
  see_page page_index (some page) seen = do
    guard (leb (length page.raw_text) max_text_chars) page_text_limit
    see_lines page_index page none (page_lines page.raw_text) (record {
      manufacturer_seen =
          seen.manufacturer_seen || contains_phrase u page.raw_text identity.manufacturer;
      mpn_seen = seen.mpn_seen;
      associations = seen.associations;
    })

  unfoldable pub see_pages : ℕ → List (Option Page) → Sightings → Result RetrievalError Sightings
  unfolding see_page
  see_pages page_index [] seen = ok seen
  see_pages page_index (page ∷ pages) seen = do
    after ← see_page page_index page seen
    see_pages (suc page_index) pages after

  -- `_identity_package_candidate`
  unfoldable pub identity_package_candidate : PdfDocument → Result RetrievalError Candidate
  unfolding see_pages proved
  identity_package_candidate document = do
    seen ← see_pages 0 document.pages nothing_seen
    proved seen
