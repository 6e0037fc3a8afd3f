-- ===== src/Dsff/Fusion.antt =====
-- Figures and layout boxes: `associate` of src/dsvire/dsff.py. The type of a box on a page, the
-- overlap of two of them and its rounding are parameters; an overlap is a float of 0.0 or more,
-- counted in a unit that divides them all.
use tokito_dsvire.Prelude.{
  ℕ, suc, String, Bool, false, ◌&&◌, ◌||◌, not, Option, none, some, List, [], ◌∷◌, ◌++◌, leb, ltb,
  ◌==◌, if◌then◌else◌,
}

pub record XobjectFigure (B : Type 0) : Type 0 where
  pub page : ℕ
  pub name : String
  pub bbox : B

pub record LayoutBox (B : Type 0) : Type 0 where
  pub page : ℕ
  pub bbox : B
  pub label : String
  pub source : String

pub record AssociatedRegion (B : Type 0) : Type 0 where
  pub page : ℕ
  pub bbox : B
  pub label : String
  pub source : String
  pub iou : ℕ
  pub xobject_name : Option String

-- `index in used_figures`
unfoldable pub mem : ℕ → List ℕ → Bool
mem i [] = false
mem i (x ∷ xs) = (i == x) || mem i xs

-- `best_index` and `best_iou`; `none` is the index -1.
pub record Best (B : Type 0) : Type 0 where
  pub figure : Option (ℕ × XobjectFigure B)
  pub iou : ℕ

-- The regions so far, and the figures they use.
pub record Fused (B : Type 0) : Type 0 where
  pub used : List ℕ
  pub regions : List (AssociatedRegion B)

module _ {B : Type 0} (overlap : B → B → ℕ) (rounded : ℕ → ℕ) where
  unfoldable pub eligible : List ℕ → LayoutBox B → ℕ → XobjectFigure B → Bool
  unfolding mem
  eligible used box i f = not (mem i used || not (f.page == box.page))

  unfoldable pub better : List ℕ → LayoutBox B → ℕ → XobjectFigure B → Best B → Best B
  unfolding eligible
  better used box i f best =
      if eligible used box i f && ltb best.iou (overlap box.bbox f.bbox)
      then record { figure = some (i, f); iou = overlap box.bbox f.bbox }
      else best

  -- The loop over the figures, the first of which has the index `i`.
  unfoldable pub best_of : List ℕ → LayoutBox B → ℕ → List (XobjectFigure B) → Best B → Best B
  unfolding better
  best_of used box i [] best = best
  best_of used box i (f ∷ fs) best = best_of used box (suc i) fs (better used box i f best)

  abbrev pub matched : LayoutBox B → XobjectFigure B → ℕ → AssociatedRegion B
  matched box f iou = record {
    page = box.page;
    bbox = box.bbox;
    label = box.label;
    source = "ensemble";
    iou = rounded iou;
    xobject_name = some f.name;
  }

  abbrev pub alone : LayoutBox B → ℕ → AssociatedRegion B
  alone box iou = record {
    page = box.page;
    bbox = box.bbox;
    label = box.label;
    source = box.source;
    iou = rounded iou;
    xobject_name = none;
  }

  abbrev pub left_over : XobjectFigure B → AssociatedRegion B
  left_over f = record {
    page = f.page;
    bbox = f.bbox;
    label = "other";
    source = "xobject";
    iou = 0;
    xobject_name = some f.name;
  }

  unfoldable pub settle : ℕ → LayoutBox B → Option (ℕ × XobjectFigure B) → ℕ → Fused B → Fused B
  settle minimum box none iou s = record s { regions = s.regions ++ alone box iou ∷ [] }
  settle minimum box (some (i, f)) iou s =
      if leb minimum iou
      then record { used = i ∷ s.used; regions = s.regions ++ matched box f iou ∷ [] }
      else record s { regions = s.regions ++ alone box iou ∷ [] }

  -- The loop over the boxes.
  unfoldable pub fuse : ℕ → List (XobjectFigure B) → List (LayoutBox B) → Fused B → Fused B
  unfolding settle best_of
  fuse minimum figures [] s = s
  fuse minimum figures (box ∷ boxes) s =
      let best = best_of s.used box 0 figures (record { figure = none; iou = 0 }) in
      fuse minimum figures boxes (settle minimum box best.figure best.iou s)

  -- The loop over the figures that are left.
  unfoldable pub left_overs : List ℕ → ℕ → List (XobjectFigure B) → List (AssociatedRegion B)
  unfolding mem
  left_overs used i [] = []
  left_overs used i (f ∷ fs) =
      if mem i used then left_overs used (suc i) fs else left_over f ∷ left_overs used (suc i) fs

  -- `none` is the DsffError. `half` and `one` are 0.5 and 1.0.
  unfoldable pub associate :
      ℕ → ℕ → ℕ → List (XobjectFigure B) → List (LayoutBox B) → Option (List (AssociatedRegion B))
  unfolding fuse left_overs
  associate half one minimum figures boxes =
      if leb half minimum && leb minimum one
      then (let s = fuse minimum figures boxes (record { used = []; regions = [] }) in
          some (s.regions ++ left_overs s.used 0 figures))
      else none
