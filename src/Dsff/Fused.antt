-- ===== src/Dsff/Fused.antt =====
-- The regions that `associate` of src/dsvire/dsff.py returns.
use mathlib.Core.List.{append_assoc, append-nil}
use tokito_dsvire.Prelude.{
  ℕ, suc, ◌≤◌, ◌<◌, String, true, false, Option, none, some, List, [], ◌∷◌, ◌++◌, ◌≡◌, refl, sym,
  ap, ◌∙◌, subst, arith, inl, inr, ◌⊎◌, leb, Bool-cases, map,
}
use tokito_dsvire.Dsff.Fusion.{
  XobjectFigure, LayoutBox, AssociatedRegion, mem, Best, Fused, eligible, best_of, matched, alone,
  settle, fuse, left_overs, associate,
}
use tokito_dsvire.Dsff.Matching.{
  Chosen, best_of-Chosen, best_of-max, fuse-Counted, left_overs-regions_of, eligible-unused,
}
use tokito_dsvire.Dsff.Used.{regions_of, figures_of, used_of, At, regions_of-append}

-- What a region keeps of its box.
pub record Shown (B : Type 0) : Type 0 where
  pub page : ℕ
  pub bbox : B
  pub label : String

module _ {B : Type 0} where
  abbrev pub shown_box : LayoutBox B → Shown B
  shown_box b = record { page = b.page; bbox = b.bbox; label = b.label }

  abbrev pub shown : AssociatedRegion B → Shown B
  shown r = record { page = r.page; bbox = r.bbox; label = r.label }

  map-snoc :
      (rs : List (AssociatedRegion B)) (r : AssociatedRegion B)
      → map shown (rs ++ r ∷ []) ≡ map shown rs ++ shown r ∷ []
  map-snoc [] r = refl
  map-snoc (x ∷ rs) r = ap (λ z. shown x ∷ z) (map-snoc rs r)

  unused_none : (n : String) (k : ℕ) (fs : List (XobjectFigure B)) → used_of n [] k fs ≡ 0
  unfolding mem
  unused_none n k [] = refl
  unused_none n k (f ∷ fs) = omega (arith, unused_none n (suc k) fs)

module _ {B : Type 0} (overlap : B → B → ℕ) (rounded : ℕ → ℕ) where
  abbrev pub best_for : List (XobjectFigure B) → List ℕ → LayoutBox B → Best B
  best_for figures used box =
      best_of overlap rounded used box 0 figures (record { figure = none; iou = 0 })

  abbrev pub settled : ℕ → List (XobjectFigure B) → LayoutBox B → Fused B → Fused B
  settled minimum figures box s =
      settle overlap rounded minimum box (best_for figures s.used box).figure
        (best_for figures s.used box).iou s

  settled-shown :
      (minimum : ℕ) (figures : List (XobjectFigure B)) (box : LayoutBox B) (s : Fused B)
      → map shown (settled minimum figures box s).regions
        ≡ map shown s.regions ++ shown_box box ∷ []
  unfolding settle
  settled-shown minimum figures box s = pick (best_for figures s.used box).figure
    where
      pick :
          (o : Option (ℕ × XobjectFigure B))
          → map shown
              (settle overlap rounded minimum box o (best_for figures s.used box).iou s).regions
            ≡ map shown s.regions ++ shown_box box ∷ []
      pick none = map-snoc s.regions _
      pick (some (i, f)) = elim (Bool-cases (leb minimum (best_for figures s.used box).iou)) [
        | inl t ↦ rw (t, settle) (map-snoc s.regions _)
        | inr t ↦ rw (t, settle) (map-snoc s.regions _)
      ]

  fuse-shown :
      (minimum : ℕ) (figures : List (XobjectFigure B)) (boxes : List (LayoutBox B)) (s : Fused B)
      → map shown (fuse overlap rounded minimum figures boxes s).regions
        ≡ map shown s.regions ++ map shown_box boxes
  unfolding fuse
  fuse-shown minimum figures [] s = sym (append-nil _)
  fuse-shown minimum figures (box ∷ boxes) s =
      fuse-shown minimum figures boxes (settled minimum figures box s)
      ∙ ap (λ z. z ++ map shown_box boxes) (settled-shown minimum figures box s)
      ∙ append_assoc (map shown s.regions) (shown_box box ∷ []) (map shown_box boxes)

  -- Fusion loses and doubles nothing: the regions begin with one for each box, in order, with the
  -- page, the place and the label of the box; and every name of a figure stands in as many regions
  -- as there are figures of that name.
  pub associate_keeps :
      (half one minimum : ℕ) (figures : List (XobjectFigure B)) (boxes : List (LayoutBox B))
      {rs : List (AssociatedRegion B)}
      → associate overlap rounded half one minimum figures boxes ≡ some rs
      → ((front : List (AssociatedRegion B)) × (back : List (AssociatedRegion B)) × (rs
            ≡ front ++ back)
          × (map shown front ≡ map shown_box boxes))
        × ((n : String) → regions_of n rs ≡ figures_of n figures)
  unfolding associate
  associate_keeps half one minimum figures boxes {rs} e =
      let start : Fused B = record { used = []; regions = [] } in
      let s = fuse overlap rounded minimum figures boxes start in
      let rest = left_overs overlap rounded s.used 0 figures in
      let e' : rs ≡ s.regions ++ rest = ground arith in
      (
        (s.regions, rest, e', fuse-shown minimum figures boxes start),
        λ n.
            ap (regions_of n) e'
            ∙ omega (
              arith,
              regions_of-append n s.regions rest,
              fuse-Counted overlap rounded minimum figures boxes start
                  (λ m. sym (unused_none m 0 figures)) n,
              left_overs-regions_of overlap rounded n s.used 0 figures,
            ),
      )

  -- What one box gets.
  pub data BoxGets (minimum : ℕ) (figures : List (XobjectFigure B)) (box : LayoutBox B)
      (s : Fused B) : Fused B → Type 0 where
    nothing :
        (r : ℕ)
        → ((i : ℕ) (f : XobjectFigure B)
            → At i f 0 figures
            → eligible overlap rounded s.used box i f ≡ true
            → overlap box.bbox f.bbox < minimum)
        → BoxGets minimum figures box s
            (record s { regions = s.regions ++ alone overlap rounded box r ∷ [] })
    figure :
        (i : ℕ) (f : XobjectFigure B)
        → At i f 0 figures
        → (mem i s.used ≡ false) × (f.page ≡ box.page)
        → minimum ≤ overlap box.bbox f.bbox
        → ((j : ℕ) (g : XobjectFigure B)
            → At j g 0 figures
            → eligible overlap rounded s.used box j g ≡ true
            → overlap box.bbox g.bbox ≤ overlap box.bbox f.bbox)
        → BoxGets minimum figures box s (record {
          used = i ∷ s.used;
          regions = s.regions ++ matched overlap rounded box f (overlap box.bbox f.bbox) ∷ [];
        })

  -- A box takes the figure of its page that overlaps it most among those that no earlier box has
  -- taken, when the overlap reaches the minimum, and stays alone only when none of them reaches it.
  pub settled-BoxGets :
      (minimum : ℕ) (figures : List (XobjectFigure B)) (box : LayoutBox B) (s : Fused B)
      → 0 < minimum
      → BoxGets minimum figures box s (settled minimum figures box s)
  unfolding settle
  settled-BoxGets minimum figures box s pos =
      pick (best_of-Chosen overlap rounded s.used box 0 figures (record { figure = none; iou = 0 }))
    where
      best : Best B
      best = best_for figures s.used box

      max :
          (i : ℕ) (f : XobjectFigure B)
          → At i f 0 figures
          → eligible overlap rounded s.used box i f ≡ true
          → overlap box.bbox f.bbox ≤ best.iou
      max = (best_of-max overlap rounded s.used box 0 figures (record { figure = none; iou = 0 })).1

      pick :
          (best ≡ record { figure = none; iou = 0 })
            ⊎ ((i : ℕ) × (f : XobjectFigure B) × Chosen overlap rounded s.used box 0 figures 0 best
                  i f)
          → BoxGets minimum figures box s
              (settle overlap rounded minimum box best.figure best.iou s)
      pick (inl e) =
          subst
            (λ b.
              BoxGets minimum figures box s (settle overlap rounded minimum box b.figure b.iou s))
            (sym e)
            (nothing 0 (λ i f m h. omega (arith, max i f m h, ap (λ (b : Best B). b.iou) e)))
      pick (inr (i, f, c)) = elim (Bool-cases (leb minimum best.iou)) [
        | inl t ↦
            rw (c.found, settle)
              (rw t (
                rw c.scored (
                  figure i f c.at (eligible-unused overlap rounded s.used box i f c.fits)
                    (ground (arith, c.scored)) (λ j g m h. omega (arith, max j g m h, c.scored)))))
        | inr t ↦
            rw (c.found, settle) (rw t (nothing best.iou (λ j g m h. ground (arith, max j g m h))))
      ]
