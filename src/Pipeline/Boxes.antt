-- ===== src/Pipeline/Boxes.antt =====
-- Where the candidates of src/dsvire/pipeline.py lie on their page, and their scores.
use tokito_dsvire.Prelude.{
  ℕ, ◌*◌, ◌≤◌, ◌<◌, Bool, true, Option, none, some, List, [], ◌∷◌, ◌≡◌, refl, sym, ap, subst, arith,
  inl, inr, leb, ltb, Bool-cases, All, find, All-find, map_option, ◌∙◌, select,
}
use tokito_dsvire.Pipeline.Chars.{Text, Unicode}
use tokito_dsvire.Pipeline.Phrases.{contains_exact_mpn}
use tokito_dsvire.Pipeline.Scores.{Region, pinout, table}
use tokito_dsvire.Pipeline.Regions.{
  anchor_hits, above_anchor, greatest_from, greatest, anchor_of, candidate_at, candidate_for_page,
  across, region_top, region_bottom, window_of,
}
use tokito_dsvire.Pipeline.Pages.{DatasheetIdentity, Block, Page, Candidate}
use tokito_dsvire.Pipeline.Identity.{identity_box, association}
use tokito_dsvire.Pipeline.Crops.{is_inside}

-- The block begins on its page.
abbrev pub Begins : Page → Block → Type 0
Begins page b = b.bbox.y0 ≤ page.height

module _ (P : Block → Type 0) where
  select-All : (p : Block → Bool) (bs : List Block) → All P bs → All P (select p bs)
  select-All p [] h = tt
  select-All p (b ∷ bs) h = elim (Bool-cases (p b)) [
    | inl e ↦ rw e (h.0, select-All p bs h.1)
    | inr e ↦ rw e (select-All p bs h.1)
  ]

  greatest_from-All :
      (u : Unicode) (kind : Region) (a : Block) (bs : List Block)
      → P a
      → All P bs
      → P (greatest_from u kind a bs)
  unfolding greatest_from
  greatest_from-All u kind a [] h k = h
  greatest_from-All u kind a (b ∷ bs) h k = elim (Bool-cases (above_anchor u kind b a)) [
    | inl e ↦ rw e (greatest_from-All u kind b bs k.0 k.1)
    | inr e ↦ rw e (greatest_from-All u kind a bs h k.1)
  ]

  anchor_of-All :
      (u : Unicode) (kind : Region) (bs : List Block) {a : Block}
      → All P bs
      → anchor_of u kind bs ≡ some a
      → P a
  unfolding anchor_of greatest
  anchor_of-All u kind bs {a} h e =
      pick (select (λ b. leb 1 (anchor_hits u kind b)) bs) (select-All _ bs h) e
    where
      pick : (cs : List Block) → All P cs → greatest u kind cs ≡ some a → P a
      pick [] k e = cc
      pick (c ∷ cs) k e = subst P (ground arith) (greatest_from-All u kind c cs k.0 k.1)

-- A strip across the page that begins at a block, and is at least as high as `window` says, lies
-- inside of it.
strip-inside :
    (below window : ℕ) (page : Page) (b : Block)
    → 0 < page.width
    → 0 < page.height
    → page.height ≤ page.height * window
    → Begins page b
    → is_inside page (across page (region_top page b) (region_bottom below window page b)) ≡ true
strip-inside below window page b w h k begins =
    let wide : leb (page.width * 965) (page.width * 1_000) ≡ true = ground arith in
    let apart : ltb (page.width * 35) (page.width * 965) ≡ true = ground arith in
    let top = region_top page b in
    let above : top < page.height * 1_000 = omega (arith, begins, h) in
    let bottom : region_bottom below window page b ≤ page.height * 1_000 = omega arith in
    let lower : top < region_bottom below window page b = omega (arith, above, k, h) in
    ground (arith, wide, apart, above, bottom, lower)

-- On a page with an area, whose blocks begin on the page, every candidate has a box that PDFium
-- can render: inside the page, and with an area. This holds of the pinout and the table of the
-- page, and of the evidence of an identity.
pub candidates-inside :
    (u : Unicode) (identity : DatasheetIdentity) (i : ℕ) (page : Page) (blocks : List Block)
    → 0 < page.width
    → 0 < page.height
    → All (Begins page) blocks
    → ((kind : Region) (c : Candidate)
        → candidate_for_page u kind i page blocks ≡ some c
        → is_inside page c.bbox ≡ true)
      × ((previous : Option Text) (line : Text) (later : List Text)
          → is_inside page (association u identity i page blocks previous line later).bbox ≡ true)
unfolding candidate_for_page candidate_at association identity_box
candidates-inside u identity i page blocks w h begins = (
  (λ kind c e. region-inside kind c e),
  (λ previous line later.
      part-inside (find (λ b. contains_exact_mpn u b.text identity.mpn) blocks) refl),
)
  where
    window-positive : (kind : Region) → page.height ≤ page.height * window_of kind
    window-positive pinout = omega arith
    window-positive table = omega arith

    of_anchor :
        (kind : Region) (c : Candidate) (o : Option Block)
        → anchor_of u kind blocks ≡ o
        → candidate_for_page u kind i page blocks ≡ some c
        → is_inside page c.bbox ≡ true
    of_anchor kind c none a e =
        let k : none ≡ some c = sym (ap (map_option (candidate_at u kind i page blocks)) a) ∙ e in
        cc
    of_anchor kind c (some b) a e =
        let at : Block → Candidate = candidate_at u kind i page blocks in
        let e' : at b ≡ c = ground (arith, sym (ap (map_option at) a) ∙ e) in
        subst (λ x. is_inside page x.bbox ≡ true) e'
          (strip-inside 160 (window_of kind) page b w h (window-positive kind)
            (anchor_of-All (Begins page) u kind blocks begins a))

    region-inside :
        (kind : Region) (c : Candidate)
        → candidate_for_page u kind i page blocks ≡ some c
        → is_inside page c.bbox ≡ true
    region-inside kind c e = of_anchor kind c (anchor_of u kind blocks) refl e

    part-inside :
        (o : Option Block)
        → find (λ b. contains_exact_mpn u b.text identity.mpn) blocks ≡ o
        → is_inside page (identity_box page o) ≡ true
    part-inside none f = ground (arith, w, h)
    part-inside (some b) f =
        strip-inside 90 160 page b w h (omega arith) (All-find (Begins page) _ blocks begins f).0
