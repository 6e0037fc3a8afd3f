-- ===== src/Pipeline/Packs.antt =====
-- How src/dsvire/pipeline.py retrieves the evidence of a part into its pack:
-- `retrieve_symbol_evidence`. The call makes its actions under the lock of the pack.
use tokito_dsvire.Prelude.{
  ℕ, suc, Bool, true, false, Option, none, some, List, [], ◌∷◌, ◌++◌, is_some, take, Result, ok,
  err, guard, ◌>>=◌, ◌>>◌, codes,
}
use tokito_dsvire.Pipeline.Chars.{Text, Unicode, drop_first, head_of, strip}
use tokito_dsvire.Pipeline.Scores.{pinout, table, CandidateKind, region, orderable_part}
use tokito_dsvire.Pipeline.Regions.{best_candidates}
use tokito_dsvire.Pipeline.Pages.{
  DatasheetIdentity, Box, Page, PdfDocument, Candidate, RetrievalError, backend_failure, pack_busy,
}
use tokito_dsvire.Pipeline.Identity.{validate, identity_package_candidate}
use tokito_dsvire.Pipeline.Discovery.{Bytes, check_pdf, opened}
use tokito_dsvire.Pipeline.Bundles.{
  Bundle, EvidenceRegion, CropFile, ArtifactKey, artifact_id, schema_version, index_version,
  region_id_of, kind_name, accepted_identity, accepted_region, crop_uri_of, crop_name, hash_of,
}
use tokito_dsvire.Pipeline.Cached.{load_cached_bundle}
use tokito_dsvire.Pipeline.Crops.{render_crop, normalised_bbox}
use tokito_dsvire.Pipeline.Actions.{
  Action, Root, Work, go_on, make_staging, names_of, pack_at, perform_all, publish, remove_corrupt,
  remove_staging, set_aside, write_crop, write_evidence,
}

-- What the call takes from outside: Unicode, hashlib, json, PDFium and Pillow.
pub record Tools : Type 0 where
  pub unicode : Unicode
  pub sha256 : Bytes → Text
  pub dumps : ArtifactKey → Bytes
  pub model_ids : List Text
  pub open_pdf : Bytes → Option PdfDocument
  pub per_point : ℕ
  pub draw : Page → Box → Option Bytes
  pub ratio : ℕ → ℕ → ℕ

abbrev pub page_at : ℕ → PdfDocument → Result RetrievalError Page
page_at index document = elim (head_of (drop_first index document.pages)) [
  | none ↦ err backend_failure
  | some page ↦ elim page [ none ↦ err backend_failure | some p ↦ ok p ]
]

-- The name of a pack that a call works on.
abbrev pub pack_id_of : Tools → Bytes → DatasheetIdentity → Text
pack_id_of t pdf_bytes identity =
    artifact_id t.sha256 t.dumps t.model_ids (t.sha256 pdf_bytes) identity

-- A candidate's page and its crop.
pub record Drawing : Type 0 where
  pub page : Page
  pub crop : Bytes

abbrev pub crop_of : CandidateKind → Bytes → CropFile
crop_of kind crop = record { name = crop_name (region_id_of kind); content = crop }

-- A pack that is there already is set aside and removed first.
abbrev pub replaced : Bool → List Action
replaced true = remove_corrupt ∷ set_aside ∷ remove_corrupt ∷ []
replaced false = []

unfoldable pub finished_pack : Bool → Work Bundle → Work Bundle
finished_pack exists work = elim work.answer [
  | err e ↦ record { actions = work.actions ++ (remove_staging ∷ []); answer = err e }
  | ok bundle ↦ record {
    actions = work.actions ++ (replaced exists ++ (publish ∷ remove_staging ∷ []));
    answer = ok bundle;
  }
]

module _ (t : Tools) (pdf_bytes : Bytes) (identity : DatasheetIdentity) where
  -- One entry of `regions`, for a crop that has been drawn.
  abbrev pub evidence_region : CandidateKind → Candidate → Page → Bytes → EvidenceRegion
  evidence_region kind candidate page crop = record {
    region_id = region_id_of kind;
    kind = kind_name kind;
    page = suc candidate.page_index;
    bbox_norm = normalised_bbox t.ratio candidate page;
    crop_uri = crop_uri_of (pack_id_of t pdf_bytes identity) (region_id_of kind);
    content_hash = hash_of t.sha256 crop;
    verification = accepted_region candidate.score;
    caption = candidate.caption;
  }

  unfoldable pub drawing : PdfDocument → Candidate → Result RetrievalError Drawing
  unfolding render_crop
  drawing document candidate = do
    page ← page_at candidate.page_index document
    crop ← render_crop t.per_point t.draw page candidate.bbox
    ok (record { page = page; crop = crop })

  -- One turn of the loop over the three kinds.
  unfoldable pub crop_region : PdfDocument → CandidateKind → Candidate → Work EvidenceRegion
  unfolding drawing go_on
  crop_region document kind candidate = go_on [] (drawing document candidate) (λ d. record {
    actions = write_crop (crop_of kind d.crop) ∷ [];
    answer = ok (evidence_region kind candidate d.page d.crop);
  })

  unfoldable pub crop_regions :
      PdfDocument → List (CandidateKind × Candidate) → Work (List EvidenceRegion)
  unfolding crop_region go_on
  crop_regions document [] = record { actions = []; answer = ok [] }
  crop_regions document ((kind, candidate) ∷ rest) =
      let first = crop_region document kind candidate in
      let others = crop_regions document rest in
      go_on first.actions first.answer (λ r.
        go_on others.actions others.answer (λ rs. record { actions = []; answer = ok (r ∷ rs) }))

  abbrev pub evidence_bundle : List EvidenceRegion → Bundle
  evidence_bundle regions =
      let digest = t.sha256 pdf_bytes in
      record {
        schema_version = schema_version;
        datasheet = record {
          id = codes "ds_sha256_" ++ take 24 digest;
          content_sha256 = digest;
          manufacturer = strip identity.manufacturer;
          mpn = strip identity.mpn;
          part_package = strip identity.part_package;
        };
        identity_verification = accepted_identity;
        regions = regions;
        retrieval = record {
          index_version = index_version;
          model_ids = t.model_ids;
          query_ids =
              codes "q_pinout" ∷ codes "q_pin_table" ∷ codes "q_exact_identity_package" ∷ [];
        };
      }

  -- The document with the candidates of the three kinds.
  unfoldable pub gathered : Result RetrievalError (PdfDocument × List (CandidateKind × Candidate))
  unfolding opened best_candidates identity_package_candidate
  gathered = do
    document ← opened (t.open_pdf pdf_bytes)
    best ← best_candidates t.unicode document
    part ← identity_package_candidate t.unicode identity document
    ok (
      document,
      (region pinout, best.pinout) ∷ (region table, best.table) ∷ (orderable_part, part) ∷ [],
    )

  -- The folder that is staged, with its bundle.
  unfoldable pub staged : Work Bundle
  unfolding gathered crop_regions go_on
  staged = go_on (make_staging ∷ []) gathered (λ g.
      let rendered = crop_regions g.0 g.1 in
      go_on rendered.actions rendered.answer (λ regions. record {
        actions = write_evidence (evidence_bundle regions) ∷ [];
        answer = ok (evidence_bundle regions);
      }))

  -- What stands before the lock, and the lock: `lock_free` says that it is had in time.
  unfoldable pub input_checked : Bool → Result RetrievalError (Unit {0})
  unfolding validate check_pdf
  input_checked lock_free = do validate identity; check_pdf pdf_bytes; guard lock_free pack_busy

  unfoldable pub cached_or_built : Root → Option Bundle → Work Bundle
  unfolding staged finished_pack pack_at
  cached_or_built root (some bundle) = record { actions = []; answer = ok bundle }
  cached_or_built root none =
      finished_pack (is_some (pack_at (pack_id_of t pdf_bytes identity) root)) staged

  -- `retrieve_symbol_evidence`
  unfoldable pub retrieve : Bool → Root → Work Bundle
  unfolding input_checked cached_or_built load_cached_bundle go_on pack_at
  retrieve lock_free root =
      let pack_id = pack_id_of t pdf_bytes identity in
      go_on [] (input_checked lock_free) (λ _. cached_or_built root (
        load_cached_bundle t.sha256 t.model_ids pack_id (pack_at pack_id root) identity
          (t.sha256 pdf_bytes)))

-- What the call answers, and the folder that it leaves; `fresh` is what `mkdtemp` adds to a name.
unfoldable pub retrieve_symbol_evidence :
    Tools → Bytes → DatasheetIdentity → Text → Bool → Root → Result RetrievalError Bundle × Root
unfolding retrieve perform_all
retrieve_symbol_evidence t pdf_bytes identity fresh lock_free root =
    let work = retrieve t pdf_bytes identity lock_free root in
    (work.answer, perform_all (names_of (pack_id_of t pdf_bytes identity) fresh) work.actions root)
