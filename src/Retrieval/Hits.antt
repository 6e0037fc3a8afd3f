-- ===== src/Retrieval/Hits.antt =====
-- What `hybrid_query` of src/dsvire/hybrid_query.py returns.
use tokito_dsvire.Prelude.{
  ℕ, ◌≤◌, Bool, true, ◌&&◌, Option, some, List, [], ◌≡◌, sym, subst, inl, inr, ◌⊎◌, ◌↔◌, leb, All,
  In, length, take, length-take_le, min, ok, Ensures, Ensures-ok, Ensures-bind, Ensures-guard,
}
use tokito_dsvire.Retrieval.Ranking.{Scored, ranks_before, sorted, ids_of, rank}
use tokito_dsvire.Retrieval.Cascade.{
  bad_top_n, bad_limit, bad_rrf_k, HybridResult, Bounds, fuse_order, boosted, rescored,
  fused_scores, prefiltered_ids, hybrid_query,
}
use tokito_dsvire.Retrieval.Sorting.{
  Sorted, sorted-In, sorted-Sorted, take-first, take-Sorted, take-In,
}
use tokito_dsvire.Retrieval.Rescoring.{
  Rescored, boosted-ids, fuse_order-ids, rescored-Rescored, sorted-ids,
}

module _ (reciprocal : ℕ → ℕ) (sum : ℕ → ℕ → ℕ) (zero_score bonus : ℕ) where
  -- The regions that are considered are those among the first `top_n` by BM25 or among the first
  -- `top_n` by the dense vector, whatever the routed types.
  pub prefiltered_either :
      (b : Bounds) (ids bm25 dense : List ℕ) (routed : ℕ → Bool) (i : ℕ)
      → In i (prefiltered_ids reciprocal sum zero_score bonus b ids bm25 dense routed)
        ↔ (In i (take b.top_n (rank ids bm25)) ⊎ In i (take b.top_n (rank ids dense)))
  prefiltered_either b ids bm25 dense routed i =
      let fused = fused_scores reciprocal sum zero_score bonus b ids bm25 dense in
      let (to, from) = sorted-ids i (boosted reciprocal sum zero_score bonus routed fused) in
      let first =
        fuse_order reciprocal sum zero_score bonus b.rrf_k 1 (take b.top_n (rank ids bm25)) [] in
      let (go, back) =
        fuse_order-ids reciprocal sum zero_score bonus i b.rrf_k 1 (take b.top_n (rank ids dense))
          first in
      let (go', back') =
        fuse_order-ids reciprocal sum zero_score bonus i b.rrf_k 1 (take b.top_n (rank ids bm25))
          [] in
      let e = boosted-ids reciprocal sum zero_score bonus routed fused in
      (
        (λ m. elim (go (subst (In i) e (to m))) [
          | inl h ↦ inr h
          | inr h ↦ elim (go' h) [ inl k ↦ inl k | inr k ↦ absurd (unfold ids_of in k) ]
        ]),
        (λ m.
            from (
              subst (In i) (sym e)
                (back (elim m [ inl h ↦ inr (back' (inl h)) | inr h ↦ inl h ])))),
      )

  -- What a query answers.
  pub record Answers (b : Bounds) (ids bm25 dense : List ℕ) (routed : ℕ → Bool)
      (maxsim : ℕ → Option ℕ) (r : HybridResult) : Type 0 where
    pub few : length r.hits ≤ b.limit
    pub few_evaluated : r.maxsim_evaluated ≤ b.maxsim_k
    pub ordered : Sorted r.hits
    pub sound :
        (x : Scored)
        → In x r.hits
        → In x.id (
            take b.maxsim_k
              (prefiltered_ids reciprocal sum zero_score bonus b ids bm25 dense routed))
          × (maxsim x.id ≡ some x.score)
    pub best :
        (i : ℕ)
        → In i (
            take b.maxsim_k
              (prefiltered_ids reciprocal sum zero_score bonus b ids bm25 dense routed))
        → (s : ℕ) × (maxsim i ≡ some s)
          × (In (record { id = i; score = s }) r.hits
              ⊎ All (λ h. ranks_before h (record { id = i; score = s }) ≡ true) r.hits)

  answered :
      (b : Bounds) (ids bm25 dense : List ℕ) (routed : ℕ → Bool) (maxsim : ℕ → Option ℕ)
      → Ensures
          (Answers b ids bm25 dense routed maxsim)
          (hybrid_query reciprocal sum zero_score bonus b ids bm25 dense routed maxsim)
  unfolding hybrid_query
  answered b ids bm25 dense routed maxsim =
      let P = Answers b ids bm25 dense routed maxsim in
      let candidates =
        take b.maxsim_k (prefiltered_ids reciprocal sum zero_score bonus b ids bm25 dense routed) in
      Ensures-guard P (leb 1 b.top_n && leb b.top_n (min 10_000 (length ids))) bad_top_n _ (λ t.
        Ensures-guard P
          ((leb 1 b.maxsim_k && leb b.maxsim_k (min 1_000 b.top_n))
            && (leb 1 b.limit && leb b.limit b.maxsim_k))
          bad_limit _
          (λ u. Ensures-guard P (leb 1 b.rrf_k && leb b.rrf_k 10_000) bad_rrf_k _ (λ v.
            Ensures-bind P (rescored reciprocal sum zero_score bonus maxsim candidates) _
              (λ scores e.
                let scored =
                  Ensures-ok (Rescored maxsim candidates) _
                    (rescored-Rescored reciprocal sum zero_score bonus maxsim candidates) e in
                record {
                  few = length-take_le b.limit (sorted scores);
                  few_evaluated =
                      length-take_le b.maxsim_k
                        (prefiltered_ids reciprocal sum zero_score bonus b ids bm25 dense routed);
                  ordered = take-Sorted b.limit (sorted scores) (sorted-Sorted scores);
                  sound = λ x m.
                      scored.sound x ((sorted-In x scores).0 (take-In b.limit (sorted scores) x m));
                  best = λ i m.
                      let (s, f, n) = scored.complete i m in
                      let x : Scored = record { id = i; score = s } in
                      (
                        s,
                        f,
                        take-first b.limit (sorted scores) x (sorted-Sorted scores)
                            ((sorted-In x scores).1 n),
                      );
                }))))

  -- A query that is answered returns at most `limit` hits, by descending MaxSim score and with
  -- ties by id; each is one of the first `maxsim_k` regions that were prefiltered, under its own
  -- MaxSim score, and each of these regions that is not a hit ranks after every hit.
  pub hybrid_query-Answers :
      (b : Bounds) (ids bm25 dense : List ℕ) (routed : ℕ → Bool) (maxsim : ℕ → Option ℕ)
      {r : HybridResult}
      → hybrid_query reciprocal sum zero_score bonus b ids bm25 dense routed maxsim ≡ ok r
      → Answers b ids bm25 dense routed maxsim r
  hybrid_query-Answers b ids bm25 dense routed maxsim e =
      Ensures-ok (Answers b ids bm25 dense routed maxsim) _
        (answered b ids bm25 dense routed maxsim) e
