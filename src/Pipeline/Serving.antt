-- ===== src/Pipeline/Serving.antt =====
-- A pack that `retrieve_symbol_evidence` of src/dsvire/pipeline.py has written passes the check of
-- `_load_cached_bundle`.
use tokito_dsvire.Prelude.{
  true, false, some, List, [], ◌∷◌, ◌≡◌, refl, sym, subst, arith, inl, inr, Result-cases, Ensures,
  Ensures-ok, same_text, same_text_refl, leb, ==_refl,
}
use tokito_dsvire.Pipeline.Chars.{Text, strip, any}
use tokito_dsvire.Pipeline.Scores.{CandidateKind, pinout, table, region, orderable_part}
use tokito_dsvire.Pipeline.Regions.{best_candidates}
use tokito_dsvire.Pipeline.Pages.{DatasheetIdentity, Candidate}
use tokito_dsvire.Pipeline.Identity.{identity_package_candidate}
use tokito_dsvire.Pipeline.Discovery.{Bytes, opened}
use tokito_dsvire.Pipeline.Bundles.{
  EvidenceRegion, Pack, same_texts, same_verification, same_region_verification, region_id_of,
  kind_name, hash_of, crop_uri_of,
}
use tokito_dsvire.Pipeline.Cached.{
  expected_kind, find_crop, crop_matches, region_matches, regions_match, header_matches,
  bundle_matches, accepted_bundle, load_cached_bundle,
}
use tokito_dsvire.Pipeline.Packs.{
  Tools, Drawing, evidence_region, crop_of, evidence_bundle, gathered, pack_id_of,
}
use tokito_dsvire.Pipeline.Strengths.{
  IsBounded, best_candidates-IsBounded, identity_package_candidate-IsBounded,
}
use tokito_dsvire.Pipeline.Staging.{crops_of, Fits, entries}

same_texts_refl : (xs : List Text) → same_texts xs xs ≡ true
unfolding same_texts
same_texts_refl [] = refl
same_texts_refl (x ∷ xs) = ground (arith, same_text_refl x, same_texts_refl xs)

module _ (t : Tools) (pdf_bytes : Bytes) (identity : DatasheetIdentity) where
  -- The candidates of the three kinds in their order, with scores of at most 1.0.
  abbrev pub Three : List (CandidateKind × Candidate) → Type 0
  Three kcs =
      (p : Candidate) × (q : Candidate) × (r : Candidate) × (kcs
        ≡ (region pinout, p) ∷ (region table, q) ∷ (orderable_part, r) ∷ [])
      × IsBounded p
      × IsBounded q
      × IsBounded r

  pub gathered-Three : Ensures (λ g. Three g.1) (gathered t pdf_bytes identity)
  unfolding gathered
  gathered-Three = elim (Result-cases (opened (t.open_pdf pdf_bytes))) [
    | inr (x, e) ↦ rw e tt
    | inl (document, e) ↦ elim (Result-cases (best_candidates t.unicode document)) [
      | inr (x, f) ↦ rw (e, f) tt
      | inl (best, f) ↦
          let b : IsBounded best.pinout × IsBounded best.table =
            Ensures-ok (λ v. IsBounded v.pinout × IsBounded v.table) _
              (best_candidates-IsBounded t.unicode document) f in
          elim (Result-cases (identity_package_candidate t.unicode identity document)) [
            | inr (x, g) ↦ rw (e, f, g) tt
            | inl (part, g) ↦
                rw (e, f, g)
                  (
                    best.pinout,
                    best.table,
                    part,
                    refl,
                    b.0,
                    b.1,
                    Ensures-ok IsBounded _
                        (identity_package_candidate-IsBounded t.unicode identity document) g,
                  )
          ]
    ]
  ]

  abbrev pack_id : Text
  pack_id = pack_id_of t pdf_bytes identity

  abbrev pub pack_of : List (CandidateKind × Candidate) → List Drawing → Pack
  pack_of kcs ds = record {
    evidence = some (evidence_bundle t pdf_bytes identity (entries t pdf_bytes identity kcs ds));
    crops = crops_of kcs ds;
  }

  bundle-header :
      (regions : List EvidenceRegion)
      → header_matches t.model_ids identity
          (t.sha256 pdf_bytes)
          (evidence_bundle t pdf_bytes identity regions)
        ≡ true
  unfolding header_matches
  bundle-header regions =
      rw
        (
          same_text_refl (t.sha256 pdf_bytes),
          same_text_refl (strip identity.manufacturer),
          same_text_refl (strip identity.mpn),
          same_text_refl (strip identity.part_package),
          same_texts_refl t.model_ids,
        )
        refl

  region-matches :
      (pack : Pack) (seen : List Text) (kind : CandidateKind) (c : Candidate) (d : Drawing)
      → IsBounded c
      → any (λ s. same_text (region_id_of kind) s) seen ≡ false
      → find_crop (region_id_of kind) pack ≡ some (crop_of kind d.crop)
      → region_matches t.sha256 pack_id pack seen
          (evidence_region t pdf_bytes identity kind c d.page d.crop)
          (some kind)
        ≡ true
  unfolding region_matches crop_matches same_region_verification
  region-matches pack seen kind c d bounded fresh found =
      let full : leb c.score 1_000 ≡ true = ground (arith, bounded) in
      rw
        (
          same_text_refl (kind_name kind),
          fresh,
          same_text_refl (crop_uri_of pack_id (region_id_of kind)),
          ==_refl c.score,
          full,
          found,
          same_text_refl (hash_of t.sha256 d.crop),
        )
        refl

  three-accepted :
      (p q r : Candidate) (a b c : Drawing)
      → IsBounded p
      → IsBounded q
      → IsBounded r
      → let kcs : List (CandidateKind × Candidate) =
          (region pinout, p) ∷ (region table, q) ∷ (orderable_part, r) ∷ [] in
        let ds : List Drawing = a ∷ b ∷ c ∷ [] in
        bundle_matches t.sha256 t.model_ids pack_id
          (pack_of kcs ds)
          identity
          (t.sha256 pdf_bytes)
          (evidence_bundle t pdf_bytes identity (entries t pdf_bytes identity kcs ds))
        ≡ true
  unfolding bundle_matches regions_match expected_kind same_verification same_texts same_text
      find_crop
  three-accepted p q r a b c bp bq br =
      let kcs : List (CandidateKind × Candidate) =
        (region pinout, p) ∷ (region table, q) ∷ (orderable_part, r) ∷ [] in
      let ds : List Drawing = a ∷ b ∷ c ∷ [] in
      let pack = pack_of kcs ds in
      rw
        (
          bundle-header (entries t pdf_bytes identity kcs ds),
          region-matches pack [] (region pinout) p a bp refl refl,
          region-matches pack (region_id_of (region pinout) ∷ []) (region table) q b bq refl refl,
          region-matches pack (region_id_of (region table) ∷ region_id_of (region pinout) ∷ [])
              orderable_part r c br refl refl,
        )
        refl

  -- The pack with the crops of the three kinds passes the check.
  pub pack_of-accepted :
      (kcs : List (CandidateKind × Candidate)) (ds : List Drawing)
      → Three kcs
      → Fits kcs ds
      → load_cached_bundle t.sha256 t.model_ids pack_id
          (some (pack_of kcs ds))
          identity
          (t.sha256 pdf_bytes)
        ≡ some (evidence_bundle t pdf_bytes identity (entries t pdf_bytes identity kcs ds))
  unfolding load_cached_bundle accepted_bundle
  pack_of-accepted kcs ds (p, q, r, e, bp, bq, br) fits = ordered ds (subst (λ l. Fits l ds) e fits)
    where
      Accepts : List (CandidateKind × Candidate) → List Drawing → Type 0
      Accepts kcs ds =
          load_cached_bundle t.sha256 t.model_ids pack_id (some (pack_of kcs ds)) identity
            (t.sha256 pdf_bytes)
          ≡ some (evidence_bundle t pdf_bytes identity (entries t pdf_bytes identity kcs ds))

      three : List (CandidateKind × Candidate)
      three = (region pinout, p) ∷ (region table, q) ∷ (orderable_part, r) ∷ []

      ordered : (ds : List Drawing) → Fits three ds → Accepts kcs ds
      ordered [] f = absurd f
      ordered (a ∷ []) f = absurd f
      ordered (a ∷ b ∷ []) f = absurd f
      ordered (a ∷ b ∷ c ∷ []) f =
          subst (λ l. Accepts l (a ∷ b ∷ c ∷ [])) (sym e)
            (rw (three-accepted p q r a b c bp bq br) refl)
      ordered (a ∷ b ∷ c ∷ d ∷ ds) f = absurd f
