-- ===== src/Pipeline/Staging.antt =====
-- What `retrieve_symbol_evidence` of src/dsvire/pipeline.py writes to the folder that it stages.
use tokito_dsvire.Prelude.{
  some, List, [], ◌∷◌, ◌++◌, ◌≡◌, refl, sym, ap, ◌∙◌, inl, inr, All, All-append, append_nil,
  snoc-append, ok, Result-cases, err≢ok, ok_injective, err≢ok, ok_injective,
}
use tokito_dsvire.Pipeline.Scores.{CandidateKind}
use tokito_dsvire.Pipeline.Pages.{DatasheetIdentity, PdfDocument, Candidate}
use tokito_dsvire.Pipeline.Discovery.{Bytes}
use tokito_dsvire.Pipeline.Bundles.{EvidenceRegion, CropFile, Pack}
use tokito_dsvire.Pipeline.Packs.{
  Tools, Drawing, drawing, evidence_region, crop_of, crop_region, crop_regions,
}
use tokito_dsvire.Pipeline.Actions.{
  Root, pack_at, put_pack, PackNames, Action, write_crop, perform, perform_all, with_crop, map_pack,
  Work, go_on,
}
use tokito_dsvire.Pipeline.Folders.{pack_at-put_pack}
use tokito_dsvire.Pipeline.Publishing.{IsStaging}

abbrev pub crops_of : List (CandidateKind × Candidate) → List Drawing → List CropFile
crops_of [] ds = []
crops_of ((kind, c) ∷ kcs) [] = []
crops_of ((kind, c) ∷ kcs) (d ∷ ds) = crop_of kind d.crop ∷ crops_of kcs ds

abbrev pub writes : List CropFile → List Action
writes [] = []
writes (crop ∷ crops) = write_crop crop ∷ writes crops

abbrev pub Fits : List (CandidateKind × Candidate) → List Drawing → Type 0
Fits [] [] = Unit
Fits [] (d ∷ ds) = ⊥
Fits (kc ∷ kcs) [] = ⊥
Fits (kc ∷ kcs) (d ∷ ds) = Fits kcs ds

module _ (n : PackNames) where
  -- Writing crops adds them to the staged folder.
  pub pack_at-writes :
      (crops : List CropFile) (pack : Pack) (root : Root)
      → pack_at n.staging root ≡ some pack
      → pack_at n.staging (perform_all n (writes crops) root)
        ≡ some (record { evidence = pack.evidence; crops = pack.crops ++ crops })
  unfolding perform_all perform
  pack_at-writes [] pack root h =
      h
      ∙ ap (λ cs. some (record { evidence = pack.evidence; crops = cs }))
          (sym (append_nil pack.crops))
  pack_at-writes (crop ∷ crops) pack root h =
      let written : pack_at n.staging (perform n (write_crop crop) root)
          ≡ some (with_crop crop pack) =
        ap (λ p. pack_at n.staging (put_pack n.staging (map_pack (with_crop crop) p) root)) h
        ∙ pack_at-put_pack n.staging (with_crop crop pack) root in
      pack_at-writes crops (with_crop crop pack) (perform n (write_crop crop) root) written
      ∙ ap (λ cs. some (record { evidence = pack.evidence; crops = cs }))
          (sym (snoc-append pack.crops crop crops))

module _ (t : Tools) (pdf_bytes : Bytes) (identity : DatasheetIdentity) where
  abbrev pub entries : List (CandidateKind × Candidate) → List Drawing → List EvidenceRegion
  entries [] ds = []
  entries ((kind, c) ∷ kcs) [] = []
  entries ((kind, c) ∷ kcs) (d ∷ ds) =
      evidence_region t pdf_bytes identity kind c d.page d.crop ∷ entries kcs ds

  -- All crops are drawn, and the entries of the bundle are those of the crops.
  abbrev pub Drawn : List (CandidateKind × Candidate) → Work (List EvidenceRegion) → Type 0
  Drawn kcs work =
      (regions : List EvidenceRegion)
      → work.answer ≡ ok regions
      → (ds : List Drawing) × Fits kcs ds
        × (work.actions ≡ writes (crops_of kcs ds))
        × (regions ≡ entries kcs ds)

  abbrev with_entry :
      CandidateKind → Candidate → Drawing → Work (List EvidenceRegion) → Work (List EvidenceRegion)
  with_entry kind c d others =
      go_on (write_crop (crop_of kind d.crop) ∷ [])
        (ok (evidence_region t pdf_bytes identity kind c d.page d.crop))
        (λ r.
          go_on others.actions others.answer (λ rs. record { actions = []; answer = ok (r ∷ rs) }))

  with_entry-Drawn :
      (kind : CandidateKind) (c : Candidate) (d : Drawing) (kcs : List (CandidateKind × Candidate))
      (others : Work (List EvidenceRegion))
      → All IsStaging others.actions
      → Drawn kcs others
      → All IsStaging (with_entry kind c d others).actions
        × Drawn ((kind, c) ∷ kcs) (with_entry kind c d others)
  unfolding go_on
  with_entry-Drawn kind c d kcs others stage rendered = elim (Result-cases others.answer) [
    | inr (x, f) ↦ rw f ((tt, stage), λ regions g. absurd (err≢ok g))
    | inl (rs, f) ↦
        let (ds, fits, acts, regs) = rendered rs f in
        rw f (
          (tt, All-append IsStaging others.actions [] stage tt),
          λ regions g. (
            d ∷ ds,
            fits,
            ap (λ l. write_crop (crop_of kind d.crop) ∷ l) (append_nil others.actions ∙ acts),
            sym (ok_injective g)
                ∙ ap (λ l. evidence_region t pdf_bytes identity kind c d.page d.crop ∷ l) regs,
          ),
        )
  ]

  pub crop_regions-Drawn :
      (document : PdfDocument) (kcs : List (CandidateKind × Candidate))
      → All IsStaging (crop_regions t pdf_bytes identity document kcs).actions
        × Drawn kcs (crop_regions t pdf_bytes identity document kcs)
  unfolding crop_regions crop_region go_on
  crop_regions-Drawn document [] = (tt, λ regions e. ([], tt, refl, sym (ok_injective e)))
  crop_regions-Drawn document ((kind, c) ∷ kcs) =
      let (others_stage, others_drawn) = crop_regions-Drawn document kcs in
      elim (Result-cases (drawing t pdf_bytes identity document c)) [
        | inr (x, e) ↦ rw e (tt, λ regions f. absurd (err≢ok f))
        | inl (d, e) ↦ rw e (
            with_entry-Drawn kind c d kcs (crop_regions t pdf_bytes identity document kcs)
              others_stage others_drawn)
      ]
