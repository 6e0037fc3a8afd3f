-- ===== src/Pipeline/Building.antt =====
-- The folder that `retrieve_symbol_evidence` of src/dsvire/pipeline.py has built when it is
-- published.
use tokito_dsvire.Prelude.{
  Option, some, List, [], ◌∷◌, ◌++◌, ◌≡◌, refl, sym, ap, ◌∙◌, inl, inr, All, All-append, ok,
  Result-cases, err≢ok, ok_injective, Ensures-ok,
}
use tokito_dsvire.Pipeline.Scores.{CandidateKind}
use tokito_dsvire.Pipeline.Pages.{DatasheetIdentity, Candidate}
use tokito_dsvire.Pipeline.Discovery.{Bytes}
use tokito_dsvire.Pipeline.Bundles.{Bundle, EvidenceRegion, CropFile, Pack}
use tokito_dsvire.Pipeline.Cached.{load_cached_bundle}
use tokito_dsvire.Pipeline.Packs.{
  Tools, pack_id_of, crop_regions, evidence_bundle, gathered, staged,
}
use tokito_dsvire.Pipeline.Actions.{
  Root, pack_at, put_pack, PackNames, Action, make_staging, write_evidence, perform, perform_all,
  empty_pack, with_evidence, map_pack, Work, go_on,
}
use tokito_dsvire.Pipeline.Folders.{pack_at-put_pack}
use tokito_dsvire.Pipeline.Publishing.{IsStaging}
use tokito_dsvire.Pipeline.Staging.{
  crops_of, writes, pack_at-writes, entries, Drawn, crop_regions-Drawn,
}
use tokito_dsvire.Pipeline.Serving.{Three, gathered-Three, pack_of, pack_of-accepted}

pub perform_all-append :
    (n : PackNames) (xs ys : List Action) (root : Root)
    → perform_all n (xs ++ ys) root ≡ perform_all n ys (perform_all n xs root)
unfolding perform_all
perform_all-append n [] ys root = refl
perform_all-append n (a ∷ xs) ys root = perform_all-append n xs ys (perform n a root)

pack_at-written :
    (n : PackNames) (crops : List CropFile) (bundle : Bundle) (root : Root)
    → pack_at n.staging
        (perform_all n (writes crops ++ (write_evidence bundle ∷ [])) (perform n make_staging root))
      ≡ some (record { evidence = some bundle; crops = crops })
unfolding perform perform_all
pack_at-written n crops bundle root =
    let made = pack_at-put_pack n.staging empty_pack root in
    let start = perform n make_staging root in
    let rendered = pack_at-writes n crops empty_pack start made in
    let after = perform_all n (writes crops) start in
    ap (pack_at n.staging) (perform_all-append n (writes crops) (write_evidence bundle ∷ []) start)
    ∙ (ap (λ p. pack_at n.staging (put_pack n.staging (map_pack (with_evidence bundle) p) after))
          rendered
        ∙ pack_at-put_pack n.staging (record { evidence = some bundle; crops = crops }) after)

module _ (t : Tools) (pdf_bytes : Bytes) (identity : DatasheetIdentity) where
  -- The check of a pack of this document and identity returns the bundle.
  abbrev pub Serves : Option Pack → Bundle → Type 0
  Serves pack bundle =
      load_cached_bundle t.sha256 t.model_ids (pack_id_of t pdf_bytes identity) pack identity
        (t.sha256 pdf_bytes)
      ≡ some bundle

  abbrev pub Built : PackNames → Work Bundle → Type 0
  Built n work =
      All IsStaging work.actions
      × ((bundle : Bundle)
          → work.answer ≡ ok bundle
          → (root : Root)
          → (new : Pack) × (pack_at n.staging (perform_all n work.actions root) ≡ some new)
            × Serves (some new) bundle)

  abbrev filled : Work (List EvidenceRegion) → Work Bundle
  filled rendered = go_on rendered.actions rendered.answer (λ regions. record {
    actions = write_evidence (evidence_bundle t pdf_bytes identity regions) ∷ [];
    answer = ok (evidence_bundle t pdf_bytes identity regions);
  })

  filled-Built :
      (n : PackNames) (kcs : List (CandidateKind × Candidate))
      (rendered : Work (List EvidenceRegion))
      → Three t pdf_bytes identity kcs
      → All IsStaging rendered.actions
      → Drawn t pdf_bytes identity kcs rendered
      → Built n (go_on (make_staging ∷ []) (ok kcs) (λ _. filled rendered))
  unfolding go_on perform_all perform
  filled-Built n kcs rendered three stage d = elim (Result-cases rendered.answer) [
    | inr (x, e) ↦ rw e ((tt, stage), λ bundle f. absurd (err≢ok f))
    | inl (regions, e) ↦
        let (ds, fits, acts, regs) = d regions e in
        let new = pack_of t pdf_bytes identity kcs ds in
        rw e (
          (tt, All-append IsStaging rendered.actions _ stage (tt, tt)),
          λ bundle f root.
              let regions_drawn : evidence_bundle t pdf_bytes identity
                    (entries t pdf_bytes identity kcs ds)
                  ≡ bundle =
                ap (evidence_bundle t pdf_bytes identity) (sym regs) ∙ ok_injective f in
              let written : pack_at n.staging (
                    perform_all n
                      (rendered.actions
                        ++ (write_evidence (evidence_bundle t pdf_bytes identity regions) ∷ []))
                      (perform n make_staging root))
                  ≡ some new =
                rw (acts, regs)
                  (pack_at-written n (crops_of kcs ds)
                    (evidence_bundle t pdf_bytes identity (entries t pdf_bytes identity kcs ds))
                    root) in
              (
                new,
                written,
                pack_of-accepted t pdf_bytes identity kcs ds three fits ∙ ap some regions_drawn,
              ),
        )
  ]

  pub staged-Built : (n : PackNames) → Built n (staged t pdf_bytes identity)
  unfolding staged go_on
  staged-Built n = elim (Result-cases (gathered t pdf_bytes identity)) [
    | inr (x, e) ↦ rw e ((tt, tt), λ bundle f. absurd (err≢ok f))
    | inl ((document, kcs), e) ↦
        let (stage, d) = crop_regions-Drawn t pdf_bytes identity document kcs in
        rw e (
          filled-Built n kcs (crop_regions t pdf_bytes identity document kcs)
            (Ensures-ok (λ g. Three t pdf_bytes identity g.1) _
              (gathered-Three t pdf_bytes identity) e)
            stage d)
  ]
