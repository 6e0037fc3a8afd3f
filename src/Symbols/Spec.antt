-- ===== src/Symbols/Spec.antt =====
-- The specification of a symbol: `extract_symbol_spec` of src/dsvire/symbol_extract.py. The time of
-- the extraction is an argument.
use tokito_dsvire.Prelude.{
  String, Option, none, some, List, [], ◌∷◌, ◌++◌, map, take, codes, Result, ok, ◌>>=◌,
}
use tokito_dsvire.Pipeline.Chars.{Text, Unicode, strip, join, space}
use tokito_dsvire.Pipeline.Pages.{DatasheetIdentity, Candidate}
use tokito_dsvire.Pipeline.Bundles.{Bundle}
use tokito_dsvire.Symbols.Table.{Pin, ExtractionError, parse_pin_table}

pub record Properties : Type 0 where
  pub datasheet : Text
  pub description : Text
  pub footprint : Text
  pub keywords : Text

pub record Provenance : Type 0 where
  pub evidence_datasheet_id : Text
  pub evidence_content_sha256 : Text
  pub extractor_version : Text
  pub model : Text
  pub extracted_at : Text

pub record SymbolSpec : Type 0 where
  pub schema_version : Text
  pub manufacturer : Text
  pub mpn : Text
  pub part_package : Text
  pub reference_prefix : Text
  pub pins : List Pin
  pub properties : Properties
  pub provenance : Provenance

abbrev pub or_empty : Option String → Text
or_empty none = []
or_empty (some url) = codes url

unfoldable pub spec_of : Unicode → DatasheetIdentity → Bundle → Text → List Pin → SymbolSpec
unfolding strip join
spec_of u identity evidence extracted_at pins = record {
  schema_version = codes "tokito.symbol-spec.v1";
  manufacturer = strip identity.manufacturer;
  mpn = strip identity.mpn;
  part_package = strip identity.part_package;
  reference_prefix = codes "U";
  pins = pins;
  properties = record {
    datasheet = or_empty identity.source_url;
    description = strip identity.mpn ++ (space ∷ strip identity.part_package);
    footprint = [];
    keywords = u.lower (join space (map (λ p. p.name) (take 12 pins)));
  };
  provenance = record {
    evidence_datasheet_id = evidence.datasheet.id;
    evidence_content_sha256 = evidence.datasheet.content_sha256;
    extractor_version = codes "dsvire.symbol-extractor-text@1.0.0";
    model = codes "text-layout-heuristic";
    extracted_at = extracted_at;
  };
}

-- `extract_symbol_spec`
unfoldable pub extract_symbol_spec :
    Unicode → DatasheetIdentity → Candidate → Bundle → Text → Result ExtractionError SymbolSpec
unfolding parse_pin_table spec_of
extract_symbol_spec u identity table evidence extracted_at = do
  pins ← parse_pin_table u table.text
  ok (spec_of u identity evidence extracted_at pins)
