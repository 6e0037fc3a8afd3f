-- ===== src/Symbols/Compile.antt =====
-- From a datasheet to the symbol of its part: `compile_symbol` of src/dsvire/symbol_compile.py. The
-- drawing of the symbol is an argument, as are the floats.
use tokito_dsvire.Prelude.{ℕ, Bool, Option, List, map, codes, Result, ok, err, ◌>>=◌}
use tokito_dsvire.Pipeline.Chars.{Text, Unicode, strip}
use tokito_dsvire.Pipeline.Pages.{Box, DatasheetIdentity, RetrievalError, PdfDocument}
use tokito_dsvire.Pipeline.Identity.{IdentityHint}
use tokito_dsvire.Pipeline.Discovery.{
  Bytes, PackageToken, resolve_identity, load_verified_region_candidates,
}
use tokito_dsvire.Pipeline.Bundles.{Bundle, EvidenceRegion}
use tokito_dsvire.Pipeline.Packs.{Tools, retrieve_symbol_evidence}
use tokito_dsvire.Pipeline.Actions.{Root}
use tokito_dsvire.Symbols.Table.{ExtractionError}
use tokito_dsvire.Symbols.Layout.{Floats, Laid, Placement, layout_pins}
use tokito_dsvire.Symbols.Sides.{Side, LayoutError}
use tokito_dsvire.Symbols.Spec.{SymbolSpec, extract_symbol_spec}

-- ExtractionError is a RetrievalError in the source; LayoutError stands for a ValueError.
pub data CompileError : Type 0 where
  retrieval : RetrievalError → CompileError
  extraction : ExtractionError → CompileError
  layout : LayoutError → CompileError

pub record Citation : Type 0 where
  pub region_id : Text
  pub kind : Text
  pub page : ℕ
  pub bbox_norm : Box
  pub content_hash : Text
  pub crop_uri : Text

pub record PublicPin : Type 0 where
  pub number : Text
  pub name : Text
  pub electrical : Text
  pub style : Text
  pub group : Text
  pub side : Side
  pub confidence : ℕ
  pub evidence_region_ids : List Text

pub record SymbolResult : Type 0 where
  pub schema_version : Text
  pub manufacturer : Text
  pub mpn : Text
  pub part_package : Text
  pub layout_policy_version : Text
  pub spec : SymbolSpec
  pub pins : List PublicPin
  pub citations : List Citation
  pub svg : Text
  pub evidence : Bundle

abbrev pub citation_of : EvidenceRegion → Citation
citation_of r = record {
  region_id = r.region_id;
  kind = r.kind;
  page = r.page;
  bbox_norm = r.bbox_norm;
  content_hash = r.content_hash;
  crop_uri = r.crop_uri;
}

abbrev pub public_pin : {R : Type 0} → Laid R → PublicPin
public_pin l = record {
  number = l.pin.number;
  name = l.pin.name;
  electrical = l.pin.electrical;
  style = l.pin.style;
  group = l.pin.group;
  side = l.side;
  confidence = l.pin.confidence;
  evidence_region_ids = l.pin.evidence_region_ids;
}

unfoldable pub or_retrieval {ℓ} : {A : Type ℓ} → Result RetrievalError A → Result CompileError A
or_retrieval (ok a) = ok a
or_retrieval (err e) = err (retrieval e)

unfoldable pub or_extraction {ℓ} : {A : Type ℓ} → Result ExtractionError A → Result CompileError A
or_extraction (ok a) = ok a
or_extraction (err e) = err (extraction e)

unfoldable pub or_layout {ℓ} : {A : Type ℓ} → Result LayoutError A → Result CompileError A
or_layout (ok a) = ok a
or_layout (err e) = err (layout e)

module _ {R : Type 0} (floats : Floats R) (draw_svg : SymbolSpec → Placement R → Text) where
  unfoldable pub result_of : DatasheetIdentity → Bundle → SymbolSpec → Placement R → SymbolResult
  unfolding strip
  result_of identity evidence spec placement = record {
    schema_version = codes "dsvire.symbol-result.v1";
    manufacturer = strip identity.manufacturer;
    mpn = strip identity.mpn;
    part_package = strip identity.part_package;
    layout_policy_version = codes "dsvire.box-layout@1.0.0";
    spec = spec;
    pins = map public_pin placement.laid;
    citations = map citation_of evidence.regions;
    svg = draw_svg spec placement;
    evidence = evidence;
  }

  -- What follows the retrieval of the evidence.
  unfoldable pub compile_evidence :
      Unicode
      → (Bytes → Option PdfDocument)
      → Bytes
      → DatasheetIdentity
      → Text
      → Bundle
      → Result CompileError SymbolResult
  unfolding load_verified_region_candidates extract_symbol_spec layout_pins result_of or_retrieval
      or_extraction or_layout
  compile_evidence u open_pdf pdf_bytes identity extracted_at evidence = do
    candidates ← or_retrieval (load_verified_region_candidates u open_pdf pdf_bytes)
    spec ← or_extraction (extract_symbol_spec u identity candidates.table evidence extracted_at)
    placement ← or_layout (layout_pins floats u spec.pins)
    ok (result_of identity evidence spec placement)

  unfoldable pub compile_identity :
      Tools
      → Bytes
      → Text
      → Text
      → Bool
      → Root
      → Result RetrievalError DatasheetIdentity
      → Result CompileError SymbolResult × Root
  unfolding retrieve_symbol_evidence or_retrieval compile_evidence
  compile_identity t pdf_bytes extracted_at fresh lock_free root (err e) = (err (retrieval e), root)
  compile_identity t pdf_bytes extracted_at fresh lock_free root (ok identity) =
      let retrieved = retrieve_symbol_evidence t pdf_bytes identity fresh lock_free root in
      (
        or_retrieval retrieved.0
            >>= compile_evidence t.unicode t.open_pdf pdf_bytes identity extracted_at,
        retrieved.1,
      )

  -- `compile_symbol`: its answer, and the folder of packs that it leaves.
  unfoldable pub compile_symbol :
      Tools
      → PackageToken
      → Bytes
      → Option IdentityHint
      → Text
      → Text
      → Bool
      → Root
      → Result CompileError SymbolResult × Root
  unfolding resolve_identity compile_identity
  compile_symbol t package_token pdf_bytes hint extracted_at fresh lock_free root =
      compile_identity t pdf_bytes extracted_at fresh lock_free root
        (resolve_identity t.unicode package_token t.open_pdf pdf_bytes hint)
