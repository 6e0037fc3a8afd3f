-- ===== src/Pipeline/Strengths.antt =====
-- The scores of the candidates of src/dsvire/pipeline.py are at most 1.0.
use tokito_dsvire.Prelude.{
  ℕ, suc, ◌≤◌, Option, none, some, List, [], ◌∷◌, ◌++◌, subst, arith, Result, ok, err, Ensures,
  Ensures-map, All, All-append, map_option,
}
use tokito_dsvire.Pipeline.Chars.{Unicode}
use tokito_dsvire.Pipeline.Scores.{Region, pinout, table, score_candidate}
use tokito_dsvire.Pipeline.Regions.{anchor_of, candidate_at, candidate_for_page, best_candidates}
use tokito_dsvire.Pipeline.Pages.{
  DatasheetIdentity, Block, Page, PdfDocument, Candidate, RetrievalError, extract_blocks,
}
use tokito_dsvire.Pipeline.Best.{
  candidate_list, found_in, candidates_of, Winner, Chosen, best_candidates-Chosen,
}
use tokito_dsvire.Pipeline.Identity.{association, identity_package_candidate}
use tokito_dsvire.Pipeline.Grounded.{
  ShowsRow, identity_package_candidate-Grounded, NamesManufacturer,
}

abbrev pub IsBounded : Candidate → Type 0
IsBounded c = c.score ≤ 1_000

candidate_at-IsBounded :
    (u : Unicode) (kind : Region) (i : ℕ) (page : Page) (blocks : List Block) (b : Block)
    → IsBounded (candidate_at u kind i page blocks b)
unfolding candidate_at score_candidate
candidate_at-IsBounded u pinout i page blocks b = omega arith
candidate_at-IsBounded u table i page blocks b = omega arith

candidates_of-IsBounded :
    (u : Unicode) (kind : Region) (i : ℕ) (pages : List (Option Page))
    → All IsBounded (candidates_of u kind i pages)
unfolding candidate_for_page
candidates_of-IsBounded u kind i [] = tt
candidates_of-IsBounded u kind i (none ∷ pages) = candidates_of-IsBounded u kind (suc i) pages
candidates_of-IsBounded u kind i (some page ∷ pages) =
    All-append IsBounded (found_in u kind i page (extract_blocks page)) _ (on (extract_blocks page))
      (candidates_of-IsBounded u kind (suc i) pages)
  where
    of_anchor :
        (blocks : List Block) (o : Option Block)
        → All IsBounded (candidate_list (map_option (candidate_at u kind i page blocks) o))
    of_anchor blocks none = tt
    of_anchor blocks (some b) = (candidate_at-IsBounded u kind i page blocks b, tt)

    on : (r : Result RetrievalError (List Block)) → All IsBounded (found_in u kind i page r)
    on (ok blocks) = of_anchor blocks (anchor_of u kind blocks)
    on (err e) = tt

Winner-IsBounded :
    (v : Candidate) (cs : List Candidate) → All IsBounded cs → Winner v cs → IsBounded v
Winner-IsBounded v cs h (before, after, e, less, most) = middle before (subst (All IsBounded) e h)
  where
    middle : (xs : List Candidate) → All IsBounded (xs ++ (v ∷ after)) → IsBounded v
    middle [] k = k.0
    middle (x ∷ xs) k = middle xs k.1

pub best_candidates-IsBounded :
    (u : Unicode) (document : PdfDocument)
    → Ensures (λ v. IsBounded v.pinout × IsBounded v.table) (best_candidates u document)
best_candidates-IsBounded u document =
    Ensures-map (λ v. Chosen u pinout document v.pinout × Chosen u table document v.table)
      (λ v. IsBounded v.pinout × IsBounded v.table) (best_candidates u document)
      (λ v h. (
        Winner-IsBounded v.pinout _ (candidates_of-IsBounded u pinout 0 document.pages) h.0.1,
        Winner-IsBounded v.table _ (candidates_of-IsBounded u table 0 document.pages) h.1.1,
      ))
      (best_candidates-Chosen u document)

pub identity_package_candidate-IsBounded :
    (u : Unicode) (identity : DatasheetIdentity) (document : PdfDocument)
    → Ensures IsBounded (identity_package_candidate u identity document)
unfolding association
identity_package_candidate-IsBounded u identity document =
    Ensures-map
      (λ c. NamesManufacturer u identity document.pages × ShowsRow u identity document.pages c)
      IsBounded (identity_package_candidate u identity document) (λ c h. bounded c h.1)
      (identity_package_candidate-Grounded u identity document)
  where
    bounded : (c : Candidate) → ShowsRow u identity document.pages c → IsBounded c
    bounded c h = omega (arith, h.marked.1)
