-- ===== src/Pipeline/Pages.antt =====
-- The pages of a datasheet and their text blocks, and what is looked for there: `_extract_blocks`
-- and the types of src/dsvire/pipeline.py. What PDFium gives for a page is the record Page; a page
-- that cannot be loaded is none. Lengths on a page are whole numbers of some unit, counted from the
-- upper left corner, and the box of a candidate is in thousandths of this unit, so that it is
-- exact.
use tokito_dsvire.Prelude.{
  ℕ, ◌+◌, Bool, Option, List, [], ◌∷◌, leb, if◌then◌else◌, is_empty, length, Result, ok, guard,
  ◌>>=◌, ◌>>◌, String,
}
use tokito_dsvire.Pipeline.Chars.{Text}
use tokito_dsvire.Pipeline.Phrases.{normalise_text}
use tokito_dsvire.Pipeline.Scores.{Region, CandidateKind}

pub record Box : Type 0 where
  pub x0 : ℕ
  pub y0 : ℕ
  pub x1 : ℕ
  pub y1 : ℕ

-- TextBlock, and the PdfTextBlock of a page.
pub record Block : Type 0 where
  pub bbox : Box
  pub text : Text

pub record Page : Type 0 where
  pub width : ℕ
  pub height : ℕ
  pub raw_text : Text
  pub blocks : List Block

pub record PdfDocument : Type 0 where
  pub pages : List (Option Page)

abbrev pub page_count : PdfDocument → ℕ
page_count d = length d.pages

pub record DatasheetIdentity : Type 0 where
  pub manufacturer : Text
  pub mpn : Text
  pub part_package : Text
  pub source_url : Option String

pub data RetrievalError : Type 0 where
  is_required exceeds_bytes : RetrievalError
  pdf_size no_pdf_header : RetrievalError
  backend_error page_count_outside page_text_limit : RetrievalError
  no_region evidence_abstained : List Region → RetrievalError
  manufacturer_absent mpn_absent package_not_associated : RetrievalError
  crop_limit : RetrievalError
  not_grounded : RetrievalError
  identity_ambiguous : List DatasheetIdentity → RetrievalError
  pack_busy : RetrievalError
  backend_failure : RetrievalError  -- PdfBackendError of a page, which is no RetrievalError

pub record Candidate : Type 0 where
  pub kind : CandidateKind
  pub page_index : ℕ
  pub bbox : Box
  pub caption : Text
  pub text : Text
  pub score : ℕ
  pub verified : Bool

abbrev pub max_text_chars : ℕ
max_text_chars = 250_000

abbrev pub max_pages : ℕ
max_pages = 2_000

-- `_extract_blocks`, where `chars` characters are counted.
unfoldable pub blocks_from : ℕ → List Block → Result RetrievalError (List Block)
unfolding normalise_text
blocks_from chars [] = ok []
blocks_from chars (item ∷ items) =
    let text = normalise_text item.text in
    if is_empty text then blocks_from chars items else do
      guard (leb (chars + length text) max_text_chars) page_text_limit
      rest ← blocks_from (chars + length text) items
      ok (record { bbox = item.bbox; text = text } ∷ rest)

-- `_extract_blocks`
unfoldable pub extract_blocks : Page → Result RetrievalError (List Block)
unfolding blocks_from
extract_blocks page = blocks_from 0 page.blocks
