-- ===== src/Tests/Retrieval.antt =====
-- A run of src/dsvire/hybrid_query.py on three regions, and the laws of Retrieval at it.
use tokito_dsvire.Prelude.{
  ℕ, ◌+◌, ◌/◌, Bool, Option, none, some, List, [], ◌∷◌, ◌≡◌, refl, ◌==◌, ok, err,
}
use tokito_dsvire.Retrieval.Ranking.{place, sorted, zipped, ids_of, rank}
use tokito_dsvire.Retrieval.Cascade.{
  not_finite, HybridResult, Bounds, add_share, fuse_order, boosted, rescored, hybrid_query,
}
use tokito_dsvire.Retrieval.Hits.{Answers, hybrid_query-Answers}

abbrev part : ℕ → ℕ
part n = 1_000 / n

abbrev total : ℕ → ℕ → ℕ
total m n = m + n

abbrev bounds : Bounds
bounds = record { top_n = 2; maxsim_k = 2; limit = 1; rrf_k = 60 }

abbrev regions : List ℕ
regions = 1 ∷ 2 ∷ 3 ∷ []

abbrev lexical : List ℕ
lexical = 5 ∷ 9 ∷ 5 ∷ []

abbrev dense : List ℕ
dense = 1 ∷ 7 ∷ 8 ∷ []

abbrev is_third : ℕ → Bool
is_third i = i == 3

abbrev doubled : ℕ → Option ℕ
doubled i = some (i + i)

abbrev answer : HybridResult
answer = record {
  considered = 3;
  maxsim_evaluated = 2;
  prefiltered = 2 ∷ 3 ∷ 1 ∷ [];
  hits = record { id = 3; score = 6 } ∷ [];
}

ties : rank regions lexical ≡ 2 ∷ 1 ∷ 3 ∷ []
unfolding rank sorted place zipped ids_of
ties = refl

answers : hybrid_query part total 0 1 bounds regions lexical dense is_third doubled ≡ ok answer
unfolding hybrid_query rank sorted place zipped ids_of add_share fuse_order boosted rescored
answers = refl

infinite :
    hybrid_query part total 0 1 bounds regions lexical dense is_third (λ i. none) ≡ err not_finite
unfolding hybrid_query rank sorted place zipped ids_of add_share fuse_order boosted rescored
infinite = refl

hybrid_query-Answers_example :
    Answers part total 0 1 bounds regions lexical dense is_third doubled answer
hybrid_query-Answers_example =
    hybrid_query-Answers part total 0 1 bounds regions lexical dense is_third doubled answers
