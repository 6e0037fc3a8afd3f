-- ===== src/Pipeline/Bundles.antt =====
-- The evidence of a part as it is kept in a pack: the bundle of `retrieve_symbol_evidence` and
-- `_artifact_id` of src/dsvire/pipeline.py. A pack that has no bundle here has no `evidence.json`,
-- or one that is not of this form: `_load_cached_bundle` returns None for both.
use tokito_dsvire.Prelude.{
  ℕ, Bool, true, false, not, ◌&&◌, Option, List, [], ◌∷◌, ◌++◌, ◌==◌, take, codes, same_text,
}
use tokito_dsvire.Pipeline.Chars.{Text, strip}
use tokito_dsvire.Pipeline.Pages.{DatasheetIdentity, Box}
use tokito_dsvire.Pipeline.Scores.{pinout, table, CandidateKind, region, orderable_part}
use tokito_dsvire.Pipeline.Discovery.{Bytes}

pub record Datasheet : Type 0 where
  pub id : Text
  pub content_sha256 : Text
  pub manufacturer : Text
  pub mpn : Text
  pub part_package : Text

pub record IdentityVerification : Type 0 where
  pub method : Text
  pub policy_version : Text
  pub outcome : Text
  pub manufacturer_observed : Bool
  pub exact_mpn_observed : Bool
  pub package_associated : Bool
  pub evidence_region_ids : List Text

pub record RegionVerification : Type 0 where
  pub method : Text
  pub policy_version : Text
  pub outcome : Text
  pub score : ℕ
  pub score_semantics : Text

pub record EvidenceRegion : Type 0 where
  pub region_id : Text
  pub kind : Text
  pub page : ℕ
  pub bbox_norm : Box
  pub crop_uri : Text
  pub content_hash : Text
  pub verification : RegionVerification
  pub caption : Text

pub record Retrieval : Type 0 where
  pub index_version : Text
  pub model_ids : List Text
  pub query_ids : List Text

pub record Bundle : Type 0 where
  pub schema_version : Text
  pub datasheet : Datasheet
  pub identity_verification : IdentityVerification
  pub regions : List EvidenceRegion
  pub retrieval : Retrieval

pub record CropFile : Type 0 where
  pub name : Text
  pub content : Bytes

-- A folder of evidence.
pub record Pack : Type 0 where
  pub evidence : Option Bundle
  pub crops : List CropFile

abbrev pub schema_version : Text
schema_version = codes "dsvire.symbol-evidence.v2"

abbrev pub index_version : Text
index_version = codes "dsvire-baseline@0.4.0"

abbrev pub identity_policy : Text
identity_policy = codes "dsvire.identity-text@2.0.0"

abbrev pub region_policy : Text
region_policy = codes "dsvire.region-text-layout@2.0.0"

abbrev pub region_id_of : CandidateKind → Text
region_id_of (region pinout) = codes "r_pinout_01"
region_id_of (region table) = codes "r_pin_table_01"
region_id_of orderable_part = codes "r_package_01"

abbrev pub kind_name : CandidateKind → Text
kind_name (region pinout) = codes "pinout"
kind_name (region table) = codes "table"
kind_name orderable_part = codes "package"

abbrev pub all_kinds : List CandidateKind
all_kinds = region pinout ∷ region table ∷ orderable_part ∷ []

abbrev pub accepted_identity : IdentityVerification
accepted_identity = record {
  method = codes "exact_text_orderable_part";
  policy_version = identity_policy;
  outcome = codes "accepted";
  manufacturer_observed = true;
  exact_mpn_observed = true;
  package_associated = true;
  evidence_region_ids = region_id_of orderable_part ∷ [];
}

abbrev pub accepted_region : ℕ → RegionVerification
accepted_region score = record {
  method = codes "text_layout_heuristic";
  policy_version = region_policy;
  outcome = codes "accepted";
  score = score;
  score_semantics = codes "heuristic_evidence_strength";
}

unfoldable pub same_texts : List Text → List Text → Bool
unfolding same_text
same_texts [] [] = true
same_texts [] (y ∷ ys) = false
same_texts (x ∷ xs) [] = false
same_texts (x ∷ xs) (y ∷ ys) = same_text x y && same_texts xs ys

abbrev pub same_flag : Bool → Bool → Bool
same_flag true b = b
same_flag false b = not b

unfoldable pub same_verification : IdentityVerification → IdentityVerification → Bool
unfolding same_text same_texts
same_verification a b =
    (same_text a.method b.method
      && (same_text a.policy_version b.policy_version && same_text a.outcome b.outcome))
    && (same_flag a.manufacturer_observed b.manufacturer_observed
        && (same_flag a.exact_mpn_observed b.exact_mpn_observed
            && (same_flag a.package_associated b.package_associated
                && same_texts a.evidence_region_ids b.evidence_region_ids)))

unfoldable pub same_region_verification : RegionVerification → RegionVerification → Bool
unfolding same_text
same_region_verification a b =
    (same_text a.method b.method && same_text a.policy_version b.policy_version)
    && (same_text a.outcome b.outcome
        && ((a.score == b.score) && same_text a.score_semantics b.score_semantics))

-- What the digest of an artifact covers.
pub record ArtifactKey : Type 0 where
  pub content_sha256 : Text
  pub manufacturer : Text
  pub mpn : Text
  pub part_package : Text
  pub index_version : Text
  pub model_ids : List Text

-- `_artifact_id`: `dumps` is the canonical JSON of a key.
unfoldable pub artifact_id :
    (Bytes → Text) → (ArtifactKey → Bytes) → List Text → Text → DatasheetIdentity → Text
unfolding strip
artifact_id sha256 dumps model_ids content_sha256 identity = take 32 (
    sha256 (
      dumps (record {
        content_sha256 = content_sha256;
        manufacturer = strip identity.manufacturer;
        mpn = strip identity.mpn;
        part_package = strip identity.part_package;
        index_version = index_version;
        model_ids = model_ids;
      })))

-- `dsvire://pack/<pack>/<region>.webp`
abbrev pub crop_uri_of : Text → Text → Text
crop_uri_of pack_id region_id =
    codes "dsvire://pack/" ++ (pack_id ++ (b'/' ∷ (region_id ++ codes ".webp")))

abbrev pub crop_name : Text → Text
crop_name region_id = region_id ++ codes ".webp"

abbrev pub hash_of : (Bytes → Text) → Bytes → Text
hash_of sha256 content = codes "sha256:" ++ sha256 content
