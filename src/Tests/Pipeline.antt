-- ===== src/Tests/Pipeline.antt =====
-- Runs of src/dsvire/pipeline.py on a datasheet of one page, and the laws of Pipeline at it.
use tokito_dsvire.Prelude.{
  ℕ, ◌+◌, ◌-◌, Bool, true, false, ◌&&◌, ◌||◌, Option, none, some, List, [], ◌∷◌, ◌≡◌, ◌↔◌, refl,
  arith, leb, if◌then◌else◌, map, is_digit, codes, Result, ok, err, is_ok, Ensures, is_empty, take,
}
use tokito_dsvire.Pipeline.Chars.{Text, Unicode}
use tokito_dsvire.Pipeline.Phrases.{contains_exact_mpn, normalise_mpn}
use tokito_dsvire.Pipeline.Scores.{Region, pinout, table}
use tokito_dsvire.Pipeline.Regions.{best_candidates, candidate_for_page}
use tokito_dsvire.Pipeline.Pages.{
  DatasheetIdentity, Block, Page, PdfDocument, Candidate, RetrievalError, pack_busy,
  backend_failure,
}
use tokito_dsvire.Pipeline.Identity.{association, identity_package_candidate}
use tokito_dsvire.Pipeline.Discovery.{Bytes, PackageToken, completed, resolve_identity}
use tokito_dsvire.Pipeline.Bundles.{Bundle}
use tokito_dsvire.Pipeline.Crops.{is_inside}
use tokito_dsvire.Pipeline.Packs.{Tools, pack_id_of, retrieve, evidence_bundle}
use tokito_dsvire.Pipeline.Actions.{pack_at, names_of, perform_all}
use tokito_dsvire.Pipeline.Best.{Chosen, best_candidates-Chosen}
use tokito_dsvire.Pipeline.Boxes.{candidates-inside}
use tokito_dsvire.Pipeline.Mpns.{StandsAlone, contains_exact_mpn-StandsAlone}
use tokito_dsvire.Pipeline.Grounded.{
  NamesManufacturer, ShowsRow, identity_package_candidate-Grounded,
}
use tokito_dsvire.Pipeline.Moments.{Moment}
use tokito_dsvire.Pipeline.Retrieving.{retrieve_atomic, retrieve_again, retrieve_fails}
use tokito_dsvire.Pipeline.Spelling.{Spelled, key_of}
use tokito_dsvire.Pipeline.Resolving.{resolve_identity_only}

abbrev pub ascii_letter : ℕ → Bool
ascii_letter c = (leb b'A' c && leb c b'Z') || (leb b'a' c && leb c b'z')

abbrev pub ascii_lower : ℕ → ℕ
ascii_lower c = if leb b'A' c && leb c b'Z' then c + 32 else c

abbrev pub ascii_upper : ℕ → ℕ
ascii_upper c = if leb b'a' c && leb c b'z' then c - 32 else c

-- Unicode on texts of ASCII characters.
abbrev pub ascii : Unicode
ascii = record {
  nfkc = λ s. s;
  casefold = map ascii_lower;
  upper = map ascii_upper;
  lower = map ascii_lower;
  alnum = λ c. ascii_letter c || is_digit c;
  alpha = ascii_letter;
  digit = is_digit;
  decimal = is_digit;
  value = λ c. c - 48;
}

abbrev pub line : ℕ → Text → Block
line y text = record { bbox = record { x0 = 10; y0 = y; x1 = 90; y1 = y + 5 }; text = text }

abbrev page_text : Text
page_text = codes "Acme AB123 SOIC-8"

abbrev page : Page
page = record {
  width = 100;
  height = 200;
  raw_text = page_text;
  blocks =
      line 10 (codes "Acme AB123 SOIC-8")
      ∷ line 20 (codes "Pinout VDD VSS GND EN NC SCL SDA TX")
      ∷ line 150 (codes "Pin functions name type description 1 2 3 4 5 6 7 8")
      ∷ [];
}

abbrev document : PdfDocument
document = record { pages = some page ∷ [] }

found_both : is_ok (best_candidates ascii document) ≡ true
unfolding best_candidates
found_both = refl

abbrev identity : DatasheetIdentity
identity = record {
  manufacturer = codes "Acme";
  mpn = codes "AB123";
  part_package = codes "SOIC-8";
  source_url = none;
}

found_part : is_ok (identity_package_candidate ascii identity document) ≡ true
unfolding identity_package_candidate
found_part = refl

best_candidates-Chosen_example :
    Ensures
      (λ v. Chosen ascii pinout document v.pinout × Chosen ascii table document v.table)
      (best_candidates ascii document)
best_candidates-Chosen_example = best_candidates-Chosen ascii document

identity_package_candidate-Grounded_example :
    Ensures
      (λ c.
        NamesManufacturer ascii identity document.pages × ShowsRow ascii identity document.pages c)
      (identity_package_candidate ascii identity document)
identity_package_candidate-Grounded_example =
    identity_package_candidate-Grounded ascii identity document

candidates-inside_example :
    ((kind : Region) (c : Candidate)
      → candidate_for_page ascii kind 0 page page.blocks ≡ some c
      → is_inside page c.bbox ≡ true)
    × ((previous : Option Text) (line : Text) (later : List Text)
        → is_inside page (association ascii identity 0 page page.blocks previous line later).bbox
          ≡ true)
candidates-inside_example =
    candidates-inside ascii identity 0 page page.blocks (omega arith) (omega arith)
      (omega arith, (omega arith, (omega arith, tt)))

contains_exact_mpn-StandsAlone_example :
    (contains_exact_mpn ascii page_text identity.mpn ≡ true) ↔ (
      (is_empty (normalise_mpn ascii identity.mpn) ≡ false)
      × StandsAlone ascii (normalise_mpn ascii identity.mpn) none (normalise_mpn ascii page_text))
contains_exact_mpn-StandsAlone_example = contains_exact_mpn-StandsAlone ascii page_text identity.mpn

alone : contains_exact_mpn ascii page_text identity.mpn ≡ true
unfolding contains_exact_mpn
alone = refl

not_alone : contains_exact_mpn ascii (codes "AB1234, XAB123") identity.mpn ≡ false
unfolding contains_exact_mpn
not_alone = refl

-- A digest that keeps the first bytes, and crops that are their boxes.
abbrev tools : Tools
tools = record {
  unicode = ascii;
  sha256 = λ b. take 8 b;
  dumps = λ k. k.mpn;
  model_ids = codes "m" ∷ [];
  open_pdf = λ b. some document;
  per_point = 1;
  draw = λ p b. some (b.y0 ∷ b.y1 ∷ []);
  ratio = λ m n. m;
}

abbrev pub pdf_bytes : Bytes
pdf_bytes = codes "%PDF-1.7"

abbrev pub fresh : Text
fresh = codes "x1"

retrieved : is_ok (retrieve tools pdf_bytes identity true []).answer ≡ true
unfolding retrieve
retrieved = refl

busy : (retrieve tools pdf_bytes identity false []).answer ≡ err pack_busy
unfolding retrieve
busy = refl

-- The bundle that an answer holds.
abbrev bundle_in : Result RetrievalError Bundle → Bundle
bundle_in (ok b) = b
bundle_in (err e) = evidence_bundle tools pdf_bytes identity []

abbrev first_answer : Bundle
first_answer = bundle_in (retrieve tools pdf_bytes identity true []).answer

answered : (retrieve tools pdf_bytes identity true []).answer ≡ ok first_answer
unfolding retrieve
answered = refl

retrieve_atomic_example :
    Moment tools pdf_bytes identity
      (pack_at (pack_id_of tools pdf_bytes identity) [])
      (retrieve tools pdf_bytes identity true []).answer
      (names_of (pack_id_of tools pdf_bytes identity) fresh)
      (perform_all
        (names_of (pack_id_of tools pdf_bytes identity) fresh)
        (take 4 (retrieve tools pdf_bytes identity true []).actions)
        [])
retrieve_atomic_example = retrieve_atomic tools pdf_bytes identity fresh true [] 4

retrieve_again_example :
    retrieve tools pdf_bytes identity true (
      perform_all
        (names_of (pack_id_of tools pdf_bytes identity) fresh)
        (retrieve tools pdf_bytes identity true []).actions
        [])
    ≡ record { actions = []; answer = ok first_answer }
retrieve_again_example = retrieve_again tools pdf_bytes identity fresh true [] first_answer answered

abbrev no_pages : Tools
no_pages = record {
  unicode = ascii;
  sha256 = λ b. take 8 b;
  dumps = λ k. k.mpn;
  model_ids = [];
  open_pdf = λ b. some (record { pages = none ∷ [] });
  per_point = 1;
  draw = λ p b. none;
  ratio = λ m n. m;
}

unreadable : (retrieve no_pages pdf_bytes identity true []).answer ≡ err backend_failure
unfolding retrieve
unreadable = refl

retrieve_fails_example :
    pack_at (codes "other") (
      perform_all
        (names_of (pack_id_of no_pages pdf_bytes identity) fresh)
        (retrieve no_pages pdf_bytes identity true []).actions
        [])
    ≡ pack_at (codes "other") []
unfolding pack_at
retrieve_fails_example =
    retrieve_fails no_pages pdf_bytes identity fresh true [] backend_failure (codes "other") nowhere
      unreadable
  where
    nowhere : pack_at (names_of (pack_id_of no_pages pdf_bytes identity) fresh).staging [] ≡ none
    nowhere = refl

-- A search that takes the rest of the line for the package.
abbrev pub package_token : PackageToken
package_token = record { search = λ s. some s; fullmatch = λ s. false }

resolved : resolve_identity ascii package_token tools.open_pdf pdf_bytes none ≡ ok identity
unfolding resolve_identity
resolved = refl

resolve_identity_only_example :
    (d : PdfDocument) × (tools.open_pdf pdf_bytes ≡ some d)
    × Spelled ascii package_token none d.pages identity
    × ((other : DatasheetIdentity)
        → Spelled ascii package_token none d.pages other
        → key_of ascii package_token none other ≡ key_of ascii package_token none identity)
unfolding completed
resolve_identity_only_example =
    resolve_identity_only ascii package_token tools.open_pdf pdf_bytes none identity refl resolved
