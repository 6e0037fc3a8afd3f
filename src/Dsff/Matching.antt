-- ===== src/Dsff/Matching.antt =====
-- What `associate` of src/dsvire/dsff.py makes of figures and boxes.
use tokito_dsvire.Prelude.{
  ℕ, suc, ◌+◌, ◌≤◌, ◌<◌, String, true, false, ◌&&◌, none, some, List, [], ◌∷◌, ◌++◌, ◌≡◌, refl, sym,
  subst, arith, inl, inr, ◌⊎◌, leb, ltb, Bool-cases,
}
use tokito_dsvire.Dsff.Fusion.{
  XobjectFigure, LayoutBox, mem, Best, Fused, eligible, better, best_of, matched, alone, settle,
  fuse, left_overs,
}
use tokito_dsvire.Dsff.Used.{At, figures_of, regions_of, regions_of-append, used_of, used_of-add}

module _ {B : Type 0} (overlap : B → B → ℕ) (rounded : ℕ → ℕ) where
  pub left_overs-regions_of :
      (n : String) (used : List ℕ) (k : ℕ) (fs : List (XobjectFigure B))
      → regions_of n (left_overs overlap rounded used k fs) + used_of n used k fs ≡ figures_of n fs
  unfolding left_overs
  left_overs-regions_of n used k [] = refl
  left_overs-regions_of n used k (f ∷ fs) = elim (Bool-cases (mem k used)) [
    | inl e ↦ rw e (omega (arith, left_overs-regions_of n used (suc k) fs))
    | inr e ↦ rw e (omega (arith, left_overs-regions_of n used (suc k) fs))
  ]

  -- The figure that the loop settles on.
  pub record Chosen (used : List ℕ) (box : LayoutBox B) (k : ℕ) (fs : List (XobjectFigure B))
      (b : ℕ) (best : Best B) (i : ℕ) (f : XobjectFigure B) : Type 0 where
    pub found : best.figure ≡ some (i, f)
    pub scored : best.iou ≡ overlap box.bbox f.bbox
    pub at : At i f k fs
    pub fits : eligible overlap rounded used box i f ≡ true
    pub more : b < best.iou

  pub best_of-Chosen :
      (used : List ℕ) (box : LayoutBox B) (k : ℕ) (fs : List (XobjectFigure B)) (b : Best B)
      → (best_of overlap rounded used box k fs b ≡ b)
        ⊎ ((i : ℕ) × (f : XobjectFigure B) × Chosen used box k fs b.iou
              (best_of overlap rounded used box k fs b)
              i
              f)
  unfolding best_of
  best_of-Chosen used box k [] b = inl refl
  best_of-Chosen used box k (f ∷ fs) b =
      elim (Bool-cases
        (eligible overlap rounded used box k f && ltb b.iou (overlap box.bbox f.bbox))) [
          | inl t ↦
              elim (best_of-Chosen used box (suc k) fs
                (record { figure = some (k, f); iou = overlap box.bbox f.bbox })) [
                  | inl e ↦
                      rw (t, better)
                        (inr (
                          k,
                          f,
                          rw e (record {
                            found = refl;
                            scored = refl;
                            at = inl (refl, refl);
                            fits = ground arith;
                            more = ground arith;
                          }),
                        ))
                  | inr (i, g, c) ↦
                      rw (t, better)
                        (inr (
                          i,
                          g,
                          record {
                            found = c.found;
                            scored = c.scored;
                            at = inr c.at;
                            fits = c.fits;
                            more = ground (arith, c.more);
                          },
                        ))
                ]
          | inr t ↦ elim (best_of-Chosen used box (suc k) fs b) [
            | inl e ↦ rw (t, better) (inl e)
            | inr (i, g, c) ↦
                rw (t, better)
                  (inr (
                    i,
                    g,
                    record {
                      found = c.found;
                      scored = c.scored;
                      at = inr c.at;
                      fits = c.fits;
                      more = c.more;
                    },
                  ))
          ]
        ]

  better-iou :
      (used : List ℕ) (box : LayoutBox B) (k : ℕ) (f : XobjectFigure B) (b : Best B)
      → (b.iou ≤ (better overlap rounded used box k f b).iou)
        × (eligible overlap rounded used box k f ≡ true
            → overlap box.bbox f.bbox ≤ (better overlap rounded used box k f b).iou)
  unfolding better
  better-iou used box k f b =
      elim (Bool-cases
        (eligible overlap rounded used box k f && ltb b.iou (overlap box.bbox f.bbox))) [
          | inl t ↦ rw (t, better) (ground arith, λ h. ground arith)
          | inr t ↦ rw (t, better) (ground arith, λ h. ground arith)
        ]

  -- The loop over the figures settles on one that overlaps most among those it may take.
  pub best_of-max :
      (used : List ℕ) (box : LayoutBox B) (k : ℕ) (fs : List (XobjectFigure B)) (b : Best B)
      → (b.iou ≤ (best_of overlap rounded used box k fs b).iou)
        × ((i : ℕ) (f : XobjectFigure B)
            → At i f k fs
            → eligible overlap rounded used box i f ≡ true
            → overlap box.bbox f.bbox ≤ (best_of overlap rounded used box k fs b).iou)
  unfolding best_of
  best_of-max used box k [] b = (omega arith, λ i f m. absurd m)
  best_of-max used box k (f ∷ fs) b =
      let b' = better overlap rounded used box k f b in
      let (grow, all) = best_of-max used box (suc k) fs b' in
      let (keep, take) = better-iou used box k f b in
      (
        omega (arith, grow, keep),
        λ i g m h. elim m [
          | inl e ↦
              let h' = subst (λ x. eligible overlap rounded used box x g ≡ true) e.0 h in
              let h2 = subst (λ x. eligible overlap rounded used box k x ≡ true) e.1 h' in
              subst
                (λ x.
                  overlap box.bbox x.bbox ≤ (best_of overlap rounded used box (suc k) fs b').iou)
                (sym e.1) (omega (arith, grow, take h2))
          | inr m' ↦ all i g m' h
        ],
      )

  -- No name stands in more or fewer regions than its used figures.
  abbrev pub Counted : List (XobjectFigure B) → Fused B → Type 0
  Counted figures s = (n : String) → regions_of n s.regions ≡ used_of n s.used 0 figures

  pub eligible-unused :
      (used : List ℕ) (box : LayoutBox B) (i : ℕ) (f : XobjectFigure B)
      → eligible overlap rounded used box i f ≡ true
      → (mem i used ≡ false) × (f.page ≡ box.page)
  unfolding eligible
  eligible-unused used box i f h = ground arith

  alone-Counted :
      (figures : List (XobjectFigure B)) (s : Fused B) (box : LayoutBox B) (iou : ℕ)
      → Counted figures s
      → Counted figures (record s { regions = s.regions ++ alone overlap rounded box iou ∷ [] })
  alone-Counted figures s box iou c n =
      omega (arith, regions_of-append n s.regions (alone overlap rounded box iou ∷ []), c n)

  matched-Counted :
      (figures : List (XobjectFigure B)) (s : Fused B) (box : LayoutBox B) (i : ℕ)
      (f : XobjectFigure B) (iou : ℕ)
      → At i f 0 figures
      → mem i s.used ≡ false
      → Counted figures s
      → Counted figures (record {
        used = i ∷ s.used;
        regions = s.regions ++ matched overlap rounded box f iou ∷ [];
      })
  matched-Counted figures s box i f iou at u c n = omega (
    arith,
    regions_of-append n s.regions (matched overlap rounded box f iou ∷ []),
    c n,
    used_of-add n s.used i f 0 figures at u,
  )

  settle-Counted :
      (minimum : ℕ) (figures : List (XobjectFigure B)) (s : Fused B) (box : LayoutBox B)
      → Counted figures s
      → let best =
          best_of overlap rounded s.used box 0 figures (record { figure = none; iou = 0 }) in
        Counted figures (settle overlap rounded minimum box best.figure best.iou s)
  unfolding settle
  settle-Counted minimum figures s box c =
      elim (best_of-Chosen s.used box 0 figures (record { figure = none; iou = 0 })) [
        | inl e ↦ rw e (alone-Counted figures s box 0 c)
        | inr (i, f, ch) ↦
            rw ch.found
              (elim (Bool-cases (
                leb minimum
                  (best_of overlap rounded s.used box 0 figures
                    (record { figure = none; iou = 0 })).iou)) [
                      | inl t ↦ rw t (
                          matched-Counted figures s box i f _ ch.at
                            (eligible-unused s.used box i f ch.fits).0 c)
                      | inr t ↦ rw t (alone-Counted figures s box _ c)
                    ])
      ]

  pub fuse-Counted :
      (minimum : ℕ) (figures : List (XobjectFigure B)) (boxes : List (LayoutBox B)) (s : Fused B)
      → Counted figures s
      → Counted figures (fuse overlap rounded minimum figures boxes s)
  unfolding fuse
  fuse-Counted minimum figures [] s c = c
  fuse-Counted minimum figures (box ∷ boxes) s c =
      fuse-Counted minimum figures boxes _ (settle-Counted minimum figures s box c)
