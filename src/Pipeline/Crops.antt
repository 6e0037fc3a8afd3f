-- ===== src/Pipeline/Crops.antt =====
-- The crop of a region: `_render_crop` and `_bbox_norm` of src/dsvire/pipeline.py, and the check
-- that PdfPage makes of a box in src/dsvire/pdf_backend.py. A point of the page is `per_point`
-- units of length. What PDFium and Pillow draw, and the rounded quotient of two lengths, are
-- arguments.
use tokito_dsvire.Prelude.{
  ℕ, ◌*◌, ◌-◌, Bool, ◌&&◌, Option, none, some, leb, ltb, Result, ok, err, guard, ◌>>=◌, ◌>>◌,
}
use tokito_dsvire.Pipeline.Pages.{Box, Page, Candidate, RetrievalError, crop_limit, backend_failure}
use tokito_dsvire.Pipeline.Discovery.{Bytes}

abbrev pub max_side_pixels : ℕ
max_side_pixels = 12_000

abbrev pub max_pixels : ℕ
max_pixels = 40_000_000

abbrev pub render_dpi : ℕ
render_dpi = 220

-- A box that `PdfPage._validated_bbox` accepts; a box has no negative coordinates here.
abbrev pub is_inside : Page → Box → Bool
is_inside page bbox =
    (leb bbox.x1 (page.width * 1_000) && leb bbox.y1 (page.height * 1_000))
    && (ltb bbox.x0 bbox.x1 && ltb bbox.y0 bbox.y1)

unfoldable pub validated_bbox : Page → Box → Result RetrievalError Box
validated_bbox page bbox = do guard (is_inside page bbox) backend_failure; ok bbox

-- A pixel in units of length, where a coordinate counts thousandths: 72 points have 220 pixels,
-- so this many units have `render_dpi`.
abbrev pub inch : ℕ → ℕ
inch per_point = 72 * (1_000 * per_point)

-- The tests of `_render_crop` on the sides, which are numbers of pixels divided by 220.
abbrev pub is_renderable : ℕ → ℕ → ℕ → Bool
is_renderable per_point wide high =
    (ltb 0 wide && ltb 0 high)
    && ((leb (wide * render_dpi) (max_side_pixels * inch per_point)
          && leb (high * render_dpi) (max_side_pixels * inch per_point))
        && leb ((wide * render_dpi) * (high * render_dpi))
            (max_pixels * (inch per_point * inch per_point)))

module _ (per_point : ℕ) (draw : Page → Box → Option Bytes) where
  unfoldable pub rendered : Option Bytes → Result RetrievalError Bytes
  rendered none = err backend_failure
  rendered (some crop) = ok crop

  -- `_render_crop`
  unfoldable pub render_crop : Page → Box → Result RetrievalError Bytes
  unfolding validated_bbox rendered
  render_crop page bbox = do
    guard (is_renderable per_point (bbox.x1 - bbox.x0) (bbox.y1 - bbox.y0)) crop_limit
    valid ← validated_bbox page bbox
    rendered (draw page valid)

-- `_bbox_norm`
unfoldable pub normalised_bbox : (ℕ → ℕ → ℕ) → Candidate → Page → Box
normalised_bbox ratio candidate page = record {
  x0 = ratio candidate.bbox.x0 (page.width * 1_000);
  y0 = ratio candidate.bbox.y0 (page.height * 1_000);
  x1 = ratio candidate.bbox.x1 (page.width * 1_000);
  y1 = ratio candidate.bbox.y1 (page.height * 1_000);
}
