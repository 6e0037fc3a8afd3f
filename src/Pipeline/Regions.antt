-- ===== src/Pipeline/Regions.antt =====
-- The search of the pages for a pinout and a pin table: src/dsvire/pipeline.py, from
-- `_candidate_for_page` to `_best_candidates`.
use tokito_dsvire.Prelude.{
  ℕ, suc, ◌+◌, ◌-◌, ◌*◌, Bool, ◌&&◌, ◌||◌, Option, none, some, List, [], ◌∷◌, ◌++◌, map, map_option,
  min, max, leb, ltb, ◌==◌, if◌then◌else◌, take, select, Result, ok, err, guard, ◌>>=◌, ◌>>◌,
  String,
}
use tokito_dsvire.Pipeline.Chars.{Unicode, join, newline}
use tokito_dsvire.Pipeline.Phrases.{term_hits}
use tokito_dsvire.Pipeline.Scores.{
  Region, pinout, table, region, score_candidate, pinout_terms, pin_table_terms,
}
use tokito_dsvire.Pipeline.Pages.{
  Block, Box, Candidate, Page, PdfDocument, RetrievalError, backend_failure, evidence_abstained,
  extract_blocks, max_pages, no_region, page_count, page_count_outside,
}

abbrev pub terms_of : Region → List String
terms_of pinout = pinout_terms
terms_of table = pin_table_terms

-- The share of the height of the page that a region takes, in thousandths.
abbrev pub window_of : Region → ℕ
window_of pinout = 340
window_of table = 420

module _ (u : Unicode) (kind : Region) where
  unfoldable pub anchor_hits : Block → ℕ
  unfolding term_hits
  anchor_hits block = term_hits u block.text (terms_of kind)

  -- The key (hits, -y0) of `b` is above that of `a`.
  unfoldable pub above_anchor : Block → Block → Bool
  unfolding anchor_hits
  above_anchor b a =
      ltb (anchor_hits a) (anchor_hits b)
      || ((anchor_hits a == anchor_hits b) && ltb b.bbox.y0 a.bbox.y0)

  -- `max`: the first of the greatest blocks.
  unfoldable pub greatest_from : Block → List Block → Block
  unfolding above_anchor
  greatest_from a [] = a
  greatest_from a (b ∷ bs) = greatest_from (if above_anchor b a then b else a) bs

  unfoldable pub greatest : List Block → Option Block
  unfolding greatest_from
  greatest [] = none
  greatest (a ∷ bs) = some (greatest_from a bs)

  -- The anchor of a region, if a block of the page names its kind.
  unfoldable pub anchor_of : List Block → Option Block
  unfolding anchor_hits greatest
  anchor_of blocks = greatest (select (λ b. leb 1 (anchor_hits b)) blocks)

-- The upper edge of a region, 3.5 % of the page above its anchor.
abbrev pub region_top : Page → Block → ℕ
region_top page anchor = anchor.bbox.y0 * 1_000 - page.height * 35

-- The lower edge, which leaves `below` under the anchor and `window` under the upper edge.
abbrev pub region_bottom : ℕ → ℕ → Page → Block → ℕ
region_bottom below window page anchor = min (page.height * 1_000) (
    max (anchor.bbox.y1 * 1_000 + page.height * below)
      (region_top page anchor + page.height * window))

-- The box of a region: the page between two heights, without its margins.
abbrev pub across : Page → ℕ → ℕ → Box
across page top bottom = record {
  x0 = page.width * 35;
  y0 = top;
  x1 = page.width * 965;
  y1 = bottom;
}

abbrev pub near : ℕ → ℕ → Block → Bool
near top bottom b = leb top (b.bbox.y1 * 1_000) && leb (b.bbox.y0 * 1_000) bottom

unfoldable pub candidate_at : Unicode → Region → ℕ → Page → List Block → Block → Candidate
unfolding score_candidate join
candidate_at u kind page_index page blocks anchor =
    let top = region_top page anchor in
    let bottom = region_bottom 160 (window_of kind) page anchor in
    let nearby = join newline (map (λ b. b.text) (select (near top bottom) blocks)) in
    let scoring = score_candidate u kind nearby in
    record {
      kind = region kind;
      page_index = page_index;
      bbox = across page top bottom;
      caption = take 500 anchor.text;
      text = nearby;
      score = scoring.score;
      verified = scoring.verified;
    }

-- `_candidate_for_page`
unfoldable pub candidate_for_page : Unicode → Region → ℕ → Page → List Block → Option Candidate
unfolding anchor_of candidate_at
candidate_for_page u kind page_index page blocks =
    map_option (candidate_at u kind page_index page blocks) (anchor_of u kind blocks)

-- `best`: the candidate of each kind so far, if there is one.
pub record BestRegions : Type 0 where
  pub pinout : Option Candidate
  pub table : Option Candidate

-- One turn of the loop over the kinds: a candidate takes the place of a weaker one.
unfoldable pub keep_best : Option Candidate → Option Candidate → Option Candidate
keep_best held none = held
keep_best none (some c) = some c
keep_best (some b) (some c) = if ltb b.score c.score then some c else some b

unfoldable pub search_page :
    Unicode → ℕ → Option Page → BestRegions → Result RetrievalError BestRegions
unfolding extract_blocks candidate_for_page keep_best
search_page u page_index none best = err backend_failure
search_page u page_index (some page) best = do
  blocks ← extract_blocks page
  ok (record {
    pinout = keep_best best.pinout (candidate_for_page u pinout page_index page blocks);
    table = keep_best best.table (candidate_for_page u table page_index page blocks);
  })

-- The loop over the pages.
unfoldable pub search_pages :
    Unicode → ℕ → List (Option Page) → BestRegions → Result RetrievalError BestRegions
unfolding search_page
search_pages u page_index [] best = ok best
search_pages u page_index (page ∷ pages) best = do
  after ← search_page u page_index page best
  search_pages u (suc page_index) pages after

-- The two candidates that `_best_candidates` returns.
pub record Verified : Type 0 where
  pub pinout : Candidate
  pub table : Candidate

-- The message names the unverified kinds in the order in which they were found; here the pinout
-- comes first.
unfoldable pub both_verified : Candidate → Candidate → Result RetrievalError Verified
both_verified p t =
    if p.verified && t.verified
    then ok (record { pinout = p; table = t })
    else err (
        evidence_abstained
          ((if p.verified then [] else pinout ∷ []) ++ (if t.verified then [] else table ∷ [])))

-- The tests behind the loop: no kind is missing, and none is unverified.
unfoldable pub all_verified : Option Candidate → Option Candidate → Result RetrievalError Verified
unfolding both_verified
all_verified none none = err (no_region (pinout ∷ table ∷ []))
all_verified none (some t) = err (no_region (pinout ∷ []))
all_verified (some p) none = err (no_region (table ∷ []))
all_verified (some p) (some t) = both_verified p t

-- `_best_candidates`
unfoldable pub best_candidates : Unicode → PdfDocument → Result RetrievalError Verified
unfolding search_pages all_verified
best_candidates u document = do
  guard (leb 1 (page_count document) && leb (page_count document) max_pages) page_count_outside
  best ← search_pages u 0 document.pages (record { pinout = none; table = none })
  all_verified best.pinout best.table
