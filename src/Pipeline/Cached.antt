-- ===== src/Pipeline/Cached.antt =====
-- The check of a pack that is there already: `_load_cached_bundle` of src/dsvire/pipeline.py.
use tokito_dsvire.Prelude.{
  Bool, false, not, ◌&&◌, Option, none, some, List, [], ◌∷◌, leb, ◌==◌, if◌then◌else◌, length, find,
  every, same_text,
}
use tokito_dsvire.Pipeline.Chars.{Text, any, strip}
use tokito_dsvire.Pipeline.Pages.{DatasheetIdentity}
use tokito_dsvire.Pipeline.Scores.{CandidateKind}
use tokito_dsvire.Pipeline.Discovery.{Bytes}
use tokito_dsvire.Pipeline.Bundles.{
  Bundle, EvidenceRegion, CropFile, Pack, region_id_of, kind_name, all_kinds, same_texts,
  same_verification, same_region_verification, accepted_identity, accepted_region, crop_uri_of,
  crop_name, hash_of, schema_version, index_version,
}

-- The kind that `expected_regions` names for an id.
unfoldable pub expected_kind : Text → Option CandidateKind
unfolding same_text
expected_kind region_id = find (λ k. same_text region_id (region_id_of k)) all_kinds

unfoldable pub find_crop : Text → Pack → Option CropFile
unfolding same_text
find_crop region_id pack = find (λ c. same_text c.name (crop_name region_id)) pack.crops

module _ (sha256 : Bytes → Text) (pack_id : Text) (pack : Pack) where
  unfoldable pub crop_matches : EvidenceRegion → Option CropFile → Bool
  unfolding same_text
  crop_matches r none = false
  crop_matches r (some crop) = same_text r.content_hash (hash_of sha256 crop.content)

  unfoldable pub region_matches : List Text → EvidenceRegion → Option CandidateKind → Bool
  unfolding same_text same_region_verification find_crop crop_matches
  region_matches seen r none = false
  region_matches seen r (some kind) =
      (same_text r.kind (kind_name kind) && not (any (λ s. same_text r.region_id s) seen))
      && ((same_text r.crop_uri (crop_uri_of pack_id r.region_id)
            && same_region_verification r.verification (accepted_region r.verification.score))
          && (leb r.verification.score 1_000 && crop_matches r (find_crop r.region_id pack)))

  -- The loop over the regions, and the test behind it that no id is missing.
  unfoldable pub regions_match : List Text → List EvidenceRegion → Bool
  unfolding expected_kind region_matches same_text
  regions_match seen [] = every (λ k. any (λ s. same_text s (region_id_of k)) seen) all_kinds
  regions_match seen (r ∷ rs) =
      region_matches seen r (expected_kind r.region_id) && regions_match (r.region_id ∷ seen) rs

unfoldable pub header_matches : List Text → DatasheetIdentity → Text → Bundle → Bool
unfolding same_text same_texts strip
header_matches model_ids identity digest bundle =
    (same_text bundle.schema_version schema_version
      && same_text bundle.datasheet.content_sha256 digest)
    && ((same_text bundle.datasheet.manufacturer (strip identity.manufacturer)
          && same_text bundle.datasheet.mpn (strip identity.mpn))
        && (same_text bundle.datasheet.part_package (strip identity.part_package)
            && (same_text bundle.retrieval.index_version index_version
                && same_texts bundle.retrieval.model_ids model_ids)))

unfoldable pub bundle_matches :
    (Bytes → Text) → List Text → Text → Pack → DatasheetIdentity → Text → Bundle → Bool
unfolding header_matches same_verification regions_match
bundle_matches sha256 model_ids pack_id pack identity digest bundle =
    header_matches model_ids identity digest bundle
    && ((length bundle.regions == 3)
        && (same_verification bundle.identity_verification accepted_identity
            && regions_match sha256 pack_id pack [] bundle.regions))

unfoldable pub accepted_bundle :
    (Bytes → Text)
    → List Text
    → Text
    → Pack
    → DatasheetIdentity
    → Text
    → Option Bundle
    → Option Bundle
unfolding bundle_matches
accepted_bundle sha256 model_ids pack_id pack identity digest none = none
accepted_bundle sha256 model_ids pack_id pack identity digest (some bundle) =
    if bundle_matches sha256 model_ids pack_id pack identity digest bundle
    then some bundle
    else none

-- `_load_cached_bundle`
unfoldable pub load_cached_bundle :
    (Bytes → Text) → List Text → Text → Option Pack → DatasheetIdentity → Text → Option Bundle
unfolding accepted_bundle
load_cached_bundle sha256 model_ids pack_id none identity digest = none
load_cached_bundle sha256 model_ids pack_id (some pack) identity digest =
    accepted_bundle sha256 model_ids pack_id pack identity digest pack.evidence
