-- ===== src/Retrieval/Ranking.antt =====
-- Orders of regions in src/dsvire/hybrid_query.py. Only the order of scores and of ids counts, so
-- a score is the place of a float in the order of the floats, and an id that of a text in the
-- order of the texts.
use tokito_dsvire.Prelude.{ℕ, Bool, ◌&&◌, ◌||◌, List, [], ◌∷◌, leb, ltb, ◌==◌, if◌then◌else◌}

pub record Scored : Type 0 where
  pub id : ℕ
  pub score : ℕ

-- The key (-score, id) of `a` is at most that of `b`.
abbrev pub ranks_before : Scored → Scored → Bool
ranks_before a b = ltb b.score a.score || ((b.score == a.score) && leb a.id b.id)

unfoldable pub place : Scored → List Scored → List Scored
place a [] = a ∷ []
place a (b ∷ bs) = if ranks_before a b then a ∷ b ∷ bs else b ∷ place a bs

-- `sorted(…, key=lambda …: (-score, id))`
unfoldable pub sorted : List Scored → List Scored
unfolding place
sorted [] = []
sorted (a ∷ bs) = place a (sorted bs)

unfoldable pub zipped : List ℕ → List ℕ → List Scored
zipped [] scores = []
zipped (i ∷ ids) [] = []
zipped (i ∷ ids) (s ∷ scores) = record { id = i; score = s } ∷ zipped ids scores

unfoldable pub ids_of : List Scored → List ℕ
ids_of [] = []
ids_of (a ∷ bs) = a.id ∷ ids_of bs

-- `_rank`
unfoldable pub rank : List ℕ → List ℕ → List ℕ
unfolding sorted zipped ids_of
rank ids scores = ids_of (sorted (zipped ids scores))
