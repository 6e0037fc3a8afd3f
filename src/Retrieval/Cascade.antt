-- ===== src/Retrieval/Cascade.antt =====
-- `hybrid_query` of src/dsvire/hybrid_query.py, after its input is checked. The scores of BM25, of
-- the dense vector and of MaxSim are parameters, and so are the arithmetic of the fused scores:
-- `reciprocal n` is 1.0 / n, `sum` adds two floats, and `bonus` is 0.001.
use tokito_dsvire.Prelude.{
  ℕ, suc, ◌+◌, Bool, ◌&&◌, Option, none, some, List, [], ◌∷◌, leb, ◌==◌, if◌then◌else◌, Result, ok,
  err, guard, ◌>>=◌, ◌>>◌, length, take, min,
}
use tokito_dsvire.Retrieval.Ranking.{Scored, sorted, rank, ids_of}

pub data QueryError : Type 0 where
  bad_top_n bad_limit bad_rrf_k not_finite : QueryError

-- A hit's BM25 and dense scores, which are looked up by its id, are left out.
pub record HybridResult : Type 0 where
  pub considered : ℕ
  pub maxsim_evaluated : ℕ
  pub prefiltered : List ℕ
  pub hits : List Scored

pub record Bounds : Type 0 where
  pub top_n : ℕ
  pub maxsim_k : ℕ
  pub limit : ℕ
  pub rrf_k : ℕ

module _ (reciprocal : ℕ → ℕ) (sum : ℕ → ℕ → ℕ) (zero_score bonus : ℕ) where
  -- `fused[id] = fused.get(id, 0.0) + share`
  unfoldable pub add_share : ℕ → ℕ → List Scored → List Scored
  add_share i share [] = record { id = i; score = sum zero_score share } ∷ []
  add_share i share (a ∷ bs) =
      if a.id == i then record a { score = sum a.score share } ∷ bs else a ∷ add_share i share bs

  -- One order's part in the fused scores, from the rank `n` on.
  unfoldable pub fuse_order : ℕ → ℕ → List ℕ → List Scored → List Scored
  unfolding add_share
  fuse_order k n [] fused = fused
  fuse_order k n (i ∷ order) fused =
      fuse_order k (suc n) order (add_share i (reciprocal (k + n)) fused)

  -- The routed types earn a bonus.
  unfoldable pub boosted : (ℕ → Bool) → List Scored → List Scored
  boosted routed [] = []
  boosted routed (a ∷ bs) =
      record a { score = sum a.score (if routed a.id then bonus else zero_score) }
      ∷ boosted routed bs

  -- `none` is a score that is not finite.
  unfoldable pub rescored : (ℕ → Option ℕ) → List ℕ → Result QueryError (List Scored)
  rescored maxsim [] = ok []
  rescored maxsim (i ∷ ids) = elim (maxsim i) [
    | none ↦ err not_finite
    | some s ↦ do rest ← rescored maxsim ids; ok (record { id = i; score = s } ∷ rest)
  ]

  abbrev pub fused_scores : Bounds → List ℕ → List ℕ → List ℕ → List Scored
  fused_scores b ids bm25 dense =
      fuse_order b.rrf_k 1 (take b.top_n (rank ids dense))
        (fuse_order b.rrf_k 1 (take b.top_n (rank ids bm25)) [])

  abbrev pub prefiltered_ids : Bounds → List ℕ → List ℕ → List ℕ → (ℕ → Bool) → List ℕ
  prefiltered_ids b ids bm25 dense routed =
      ids_of (sorted (boosted routed (fused_scores b ids bm25 dense)))

  unfoldable pub hybrid_query :
      Bounds
      → List ℕ
      → List ℕ
      → List ℕ
      → (ℕ → Bool)
      → (ℕ → Option ℕ)
      → Result QueryError HybridResult
  unfolding rank sorted ids_of fuse_order boosted rescored
  hybrid_query b ids bm25 dense routed maxsim = do
    guard (leb 1 b.top_n && leb b.top_n (min 10_000 (length ids))) bad_top_n
    guard
        ((leb 1 b.maxsim_k && leb b.maxsim_k (min 1_000 b.top_n))
          && (leb 1 b.limit && leb b.limit b.maxsim_k))
        bad_limit
    guard (leb 1 b.rrf_k && leb b.rrf_k 10_000) bad_rrf_k
    scores ← rescored maxsim (take b.maxsim_k (prefiltered_ids b ids bm25 dense routed))
    ok (record {
      considered = length (fused_scores b ids bm25 dense);
      maxsim_evaluated = length (take b.maxsim_k (prefiltered_ids b ids bm25 dense routed));
      prefiltered = prefiltered_ids b ids bm25 dense routed;
      hits = take b.limit (sorted scores);
    })
