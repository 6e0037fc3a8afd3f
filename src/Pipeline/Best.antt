-- ===== src/Pipeline/Best.antt =====
-- Which candidates `_best_candidates` of src/dsvire/pipeline.py chooses.
use tokito_dsvire.Prelude.{
  ℕ, suc, ◌≤◌, ◌<◌, true, Option, none, some, List, [], ◌∷◌, ◌++◌, ◌≡◌, refl, sym, ap, subst, arith,
  inl, inr, ◌⊎◌, leb, ltb, Bool-cases, ◌&&◌, All, Result, ok, err, Ensures, Ensures-map, ◌∙◌,
  Ensures-ok, Result-cases, &&-true,
}
use tokito_dsvire.Pipeline.Chars.{Unicode}
use tokito_dsvire.Pipeline.Scores.{Region, pinout, table}
use tokito_dsvire.Pipeline.Regions.{
  BestRegions, Verified, candidate_for_page, keep_best, search_page, search_pages, both_verified,
  all_verified, best_candidates,
}
use tokito_dsvire.Pipeline.Pages.{
  Block, Page, PdfDocument, Candidate, RetrievalError, extract_blocks, page_count, max_pages,
}

-- The candidates of one kind that a page has, at most one, when its blocks can be read.
abbrev pub candidate_list : Option Candidate → List Candidate
candidate_list none = []
candidate_list (some c) = c ∷ []

abbrev pub found_in :
    Unicode → Region → ℕ → Page → Result RetrievalError (List Block) → List Candidate
found_in u kind i page (err e) = []
found_in u kind i page (ok blocks) = candidate_list (candidate_for_page u kind i page blocks)

-- The candidates of one kind that the pages have, in the order of the pages.
abbrev pub candidates_of : Unicode → Region → ℕ → List (Option Page) → List Candidate
candidates_of u kind i [] = []
candidates_of u kind i (none ∷ pages) = candidates_of u kind (suc i) pages
candidates_of u kind i (some page ∷ pages) =
    found_in u kind i page (extract_blocks page) ++ candidates_of u kind (suc i) pages

abbrev keep_all : Option Candidate → List Candidate → Option Candidate
keep_all held [] = held
keep_all held (c ∷ cs) = keep_all (keep_best held (some c)) cs

keep_all-candidate_list :
    (held c : Option Candidate) (cs : List Candidate)
    → keep_all held (candidate_list c ++ cs) ≡ keep_all (keep_best held c) cs
unfolding keep_best
keep_all-candidate_list none none cs = refl
keep_all-candidate_list (some b) none cs = refl
keep_all-candidate_list held (some c) cs = refl

abbrev Kept : Unicode → ℕ → List (Option Page) → BestRegions → BestRegions → Type 0
Kept u i pages best after =
    (after.pinout ≡ keep_all best.pinout (candidates_of u pinout i pages))
    × (after.table ≡ keep_all best.table (candidates_of u table i pages))

abbrev nothing : BestRegions
nothing = record { pinout = none; table = none }

search_pages-Kept :
    (u : Unicode) (i : ℕ) (pages : List (Option Page)) (best : BestRegions)
    → Ensures (Kept u i pages best) (search_pages u i pages best)
unfolding search_pages search_page
search_pages-Kept u i [] best = (refl, refl)
search_pages-Kept u i (none ∷ pages) best = tt
search_pages-Kept u i (some page ∷ pages) best = elim (Result-cases (extract_blocks page)) [
  | inl (blocks, e) ↦
      let p =
        keep_all-candidate_list best.pinout (candidate_for_page u pinout i page blocks)
          (candidates_of u pinout (suc i) pages) in
      let t =
        keep_all-candidate_list best.table (candidate_for_page u table i page blocks)
          (candidates_of u table (suc i) pages) in
      rw e (
        Ensures-map (Kept u (suc i) pages _) (λ after. Kept u i (some page ∷ pages) best after) _
          (λ after k. rw e (k.0 ∙ sym p, k.1 ∙ sym t)) (search_pages-Kept u (suc i) pages _))
  | inr (x, e) ↦ rw e tt
]

-- The first of the strongest.
abbrev pub Winner : Candidate → List Candidate → Type 0
Winner v cs =
    (before : List Candidate) × (after : List Candidate) × (cs ≡ before ++ (v ∷ after))
    × All (λ c. c.score < v.score) before
    × All (λ c. c.score ≤ v.score) after

abbrev Leads : Candidate → Candidate → List Candidate → Type 0
Leads b v cs = ((b ≡ v) × All (λ c. c.score ≤ b.score) cs) ⊎ ((b.score < v.score) × Winner v cs)

-- A weaker candidate before the winner of the rest.
weaker-Winner :
    (c v : Candidate) (cs : List Candidate) → c.score < v.score → Winner v cs → Winner v (c ∷ cs)
weaker-Winner c v cs lt (before, after, e, less, most) =
    (c ∷ before, after, ap (λ xs. c ∷ xs) e, (lt, less), most)

keep_all-Leads :
    (b v : Candidate) (cs : List Candidate) → keep_all (some b) cs ≡ some v → Leads b v cs
unfolding keep_best
keep_all-Leads b v [] h = inl (ground arith, tt)
keep_all-Leads b v (c ∷ cs) h = elim (Bool-cases (ltb b.score c.score)) [
  | inl t ↦
      let held : keep_best (some b) (some c) ≡ some c = rw t refl in
      let lt : b.score < c.score = ground arith in
      elim (keep_all-Leads c v cs (subst (λ k. keep_all k cs ≡ some v) held h)) [
        | inl (e, most) ↦ inr (
          subst (λ x. b.score < x.score) e lt,
          subst (λ x. Winner x (c ∷ cs)) e ([], cs, refl, tt, most),
        )
        | inr (more, w) ↦ inr (omega (arith, lt, more), weaker-Winner c v cs more w)
      ]
  | inr t ↦
      let held : keep_best (some b) (some c) ≡ some b = rw t refl in
      let ge : c.score ≤ b.score = ground arith in
      elim (keep_all-Leads b v cs (subst (λ k. keep_all k cs ≡ some v) held h)) [
        | inl (e, most) ↦ inl (e, (ge, most))
        | inr (more, w) ↦ inr (more, weaker-Winner c v cs (omega (arith, ge, more)) w)
      ]
]

keep_all-Winner : (v : Candidate) (cs : List Candidate) → keep_all none cs ≡ some v → Winner v cs
unfolding keep_best
keep_all-Winner v [] h = cc
keep_all-Winner v (c ∷ cs) h = elim (keep_all-Leads c v cs h) [
  | inl (e, most) ↦ subst (λ x. Winner x (c ∷ cs)) e ([], cs, refl, tt, most)
  | inr (more, w) ↦ weaker-Winner c v cs more w
]

-- A candidate that is verified, and that no candidate of its kind in the document outranks.
abbrev pub Chosen : Unicode → Region → PdfDocument → Candidate → Type 0
Chosen u kind document v = (v.verified ≡ true) × Winner v (candidates_of u kind 0 document.pages)

abbrev Both : BestRegions → Verified → Type 0
Both best v =
    ((best.pinout ≡ some v.pinout) × (v.pinout.verified ≡ true))
    × ((best.table ≡ some v.table) × (v.table.verified ≡ true))

all_verified-Both :
    (p t : Option Candidate) → Ensures (Both (record { pinout = p; table = t })) (all_verified p t)
unfolding all_verified both_verified
all_verified-Both none none = tt
all_verified-Both none (some t) = tt
all_verified-Both (some p) none = tt
all_verified-Both (some p) (some t) = elim (Bool-cases (p.verified && t.verified)) [
  | inl e ↦
      rw e
        ((refl, (&&-true p.verified t.verified e).0), (refl, (&&-true p.verified t.verified e).1))
  | inr e ↦ rw e tt
]

-- When `_best_candidates` returns, both candidates are verified. Each is the first one of the
-- greatest score among all candidates of its kind in the document: those of earlier pages are
-- weaker, and those of later pages are not stronger.
pub best_candidates-Chosen :
    (u : Unicode) (document : PdfDocument)
    → Ensures
        (λ v. Chosen u pinout document v.pinout × Chosen u table document v.table)
        (best_candidates u document)
unfolding best_candidates
best_candidates-Chosen u document =
    elim (Bool-cases (leb 1 (page_count document) && leb (page_count document) max_pages)) [
      | inr e ↦ rw e tt
      | inl e ↦ elim (Result-cases (search_pages u 0 document.pages nothing)) [
        | inr (x, f) ↦ rw (e, f) tt
        | inl (best, f) ↦ rw (e, f) (chosen best f)
      ]
    ]
  where
    chosen :
        (best : BestRegions)
        → search_pages u 0 document.pages nothing ≡ ok best
        → Ensures
            (λ v. Chosen u pinout document v.pinout × Chosen u table document v.table)
            (all_verified best.pinout best.table)
    chosen best f =
        let k : Kept u 0 document.pages nothing best =
          Ensures-ok (Kept u 0 document.pages nothing) _
            (search_pages-Kept u 0 document.pages nothing) f in
        Ensures-map (Both best)
          (λ v. Chosen u pinout document v.pinout × Chosen u table document v.table) _
          (λ v h. (
            (h.0.1, keep_all-Winner _ _ (sym k.0 ∙ h.0.0)),
            (h.1.1, keep_all-Winner _ _ (sym k.1 ∙ h.1.0)),
          ))
          (all_verified-Both best.pinout best.table)
