-- ===== src/Pipeline/Mpns.antt =====
-- What `_contains_exact_mpn` of src/dsvire/pipeline.py finds: its loop has fuel enough, and is
-- compared with occurrences that stand alone.
use tokito_dsvire.Prelude.{
  ℕ, zero, suc, ◌+◌, ◌<◌, Bool, true, false, ◌&&◌, ◌||◌, Option, none, some, [], ◌∷◌, ◌++◌, ◌≡◌,
  ◌↔◌, refl, sym, ap, ◌∙◌, subst, arith, inl, inr, if◌then◌else◌, is_empty, length, Bool-cases,
}
use tokito_dsvire.Pipeline.Chars.{Text, Unicode, drop_first, head_of, starts_with}
use tokito_dsvire.Pipeline.Phrases.{
  find_place, accept_place, find_alone, contains_exact_mpn, normalise_mpn, is_free,
}

-- The character before a place behind `pre`.
abbrev pub last_of : Option ℕ → Text → Option ℕ
last_of before [] = before
last_of before (c ∷ cs) = last_of (some c) cs

-- `needle` stands in the text with nothing alphanumeric next to it.
abbrev pub StandsAlone : Unicode → Text → Option ℕ → Text → Type 0
StandsAlone u needle before haystack =
    (pre : Text) × (post : Text) × (haystack ≡ pre ++ (needle ++ post))
    × (is_free u (last_of before pre) ≡ true)
    × (is_free u (head_of post) ≡ true)

starts_with-append : (a b : Text) → starts_with a (a ++ b) ≡ true
unfolding starts_with
starts_with-append [] b = refl
starts_with-append (c ∷ cs) b = ground (arith, starts_with-append cs b)

drop_first-append : (a b : Text) → drop_first (length a) (a ++ b) ≡ b
drop_first-append [] b = refl
drop_first-append (c ∷ cs) b = drop_first-append cs b

starts_with-drop_first : (a s : Text) → starts_with a s ≡ true → s ≡ a ++ drop_first (length a) s
unfolding starts_with
starts_with-drop_first [] s h = refl
starts_with-drop_first (c ∷ cs) [] h = cc
starts_with-drop_first (c ∷ cs) (d ∷ ds) h =
    let e : c ≡ d = ground arith in
    let t : starts_with cs ds ≡ true = ground arith in
    rw (← e) (ap (λ x. c ∷ x) (starts_with-drop_first cs ds t))

starts_with-nothing : (a : Text) → is_empty a ≡ false → starts_with a [] ≡ false
unfolding starts_with
starts_with-nothing [] h = cc
starts_with-nothing (c ∷ cs) h = refl

or-true : (a b : Bool) → b ≡ true → (a || b) ≡ true
or-true a b h = ground arith

if-or : (a b : Bool) → (if a then true else b) ≡ (a || b)
if-or a b = ground arith

module _ (u : Unicode) (needle : Text) where
  -- The needle stands alone at the place itself.
  abbrev alone_here : Option ℕ → Text → Bool
  alone_here before s =
      starts_with needle s
      && (is_free u before && is_free u (head_of (drop_first (length needle) s)))

  -- The occurrences tried one after the other.
  abbrev scan : Option ℕ → Text → Bool
  scan before [] = alone_here before []
  scan before (c ∷ cs) = alone_here before (c ∷ cs) || scan (some c) cs

  alone_here-StandsAlone :
      (before : Option ℕ) (s : Text) → alone_here before s ≡ true → StandsAlone u needle before s
  alone_here-StandsAlone before s h = (
    [],
    drop_first (length needle) s,
    starts_with-drop_first needle s (ground arith),
    ground arith,
    ground arith,
  )

  scan-StandsAlone :
      (before : Option ℕ) (s : Text) → scan before s ≡ true → StandsAlone u needle before s
  scan-StandsAlone before [] h = alone_here-StandsAlone before [] h
  scan-StandsAlone before (c ∷ cs) h = elim (Bool-cases (alone_here before (c ∷ cs))) [
    | inl t ↦ alone_here-StandsAlone before (c ∷ cs) t
    | inr t ↦
        let (pre, post, e, l, r) = scan-StandsAlone (some c) cs (rest h t) in
        (c ∷ pre, post, ap (λ x. c ∷ x) e, l, r)
  ]
    where
      rest :
          (alone_here before (c ∷ cs) || scan (some c) cs) ≡ true
          → alone_here before (c ∷ cs) ≡ false
          → scan (some c) cs ≡ true
      rest h t = subst (λ b. (b || scan (some c) cs) ≡ true) t h

  StandsAlone-scan :
      (before : Option ℕ) (pre post : Text)
      → is_free u (last_of before pre) ≡ true
      → is_free u (head_of post) ≡ true
      → scan before (pre ++ (needle ++ post)) ≡ true
  StandsAlone-scan before [] post l r =
      here (needle ++ post)
        (rw (starts_with-append needle post, drop_first-append needle post, l, r) refl)
    where
      here : (s : Text) → alone_here before s ≡ true → scan before s ≡ true
      here [] h = h
      here (c ∷ cs) h = ground (arith, h)
  StandsAlone-scan before (c ∷ cs) post l r = or-true _ _ (StandsAlone-scan (some c) cs post l r)

  -- The search for the next occurrence and the test of it, where the loop goes on as the scan does.
  accept_place-scan :
      (go_on : Option ℕ → Text → Bool) (before : Option ℕ) (s : Text)
      → is_empty needle ≡ false
      → ((b : Option ℕ) (t : Text) → length t < length s → go_on b t ≡ scan b t)
      → accept_place u needle go_on (find_place needle before s) ≡ scan before s
  unfolding find_place
  accept_place-scan go_on before [] some_needle go =
      rw (starts_with-nothing needle some_needle) refl
  accept_place-scan go_on before (c ∷ cs) some_needle go =
      elim (Bool-cases (starts_with needle (c ∷ cs))) [
        | inl t ↦
            rw (t, go (some c) cs (omega arith))
              (if-or (is_free u before && is_free u (head_of (drop_first (length needle) (c ∷ cs))))
                (scan (some c) cs))
        | inr t ↦
            rw t (accept_place-scan go_on (some c) cs some_needle (λ b s l. go b s (omega arith)))
      ]

  find_alone-scan :
      (n : ℕ) (before : Option ℕ) (s : Text)
      → is_empty needle ≡ false
      → length s < n
      → find_alone u needle n before s ≡ scan before s
  unfolding find_alone
  find_alone-scan zero before s some_needle enough = absurd (omega (arith, enough))
  find_alone-scan (suc n) before s some_needle enough =
      accept_place-scan (find_alone u needle n) before s some_needle
        (λ b t l. find_alone-scan n b t some_needle (omega arith))

-- `_contains_exact_mpn` is true exactly when the normalised part number is not empty and stands
-- alone somewhere in the normalised text: no alphanumeric character right before it or right
-- after it. The loop never runs out of fuel.
pub contains_exact_mpn-StandsAlone :
    (u : Unicode) (text mpn : Text)
    → (contains_exact_mpn u text mpn ≡ true) ↔ (
        (is_empty (normalise_mpn u mpn) ≡ false)
        × StandsAlone u (normalise_mpn u mpn) none (normalise_mpn u text))
unfolding contains_exact_mpn
contains_exact_mpn-StandsAlone u text mpn = (to, from)
  where
    needle : Text
    needle = normalise_mpn u mpn

    haystack : Text
    haystack = normalise_mpn u text

    loop :
        is_empty needle ≡ false
        → find_alone u needle (length haystack + 1) none haystack ≡ scan u needle none haystack
    loop e = find_alone-scan u needle (length haystack + 1) none haystack e (omega arith)

    to :
        contains_exact_mpn u text mpn ≡ true
        → (is_empty needle ≡ false) × StandsAlone u needle none haystack
    to h =
        let e : is_empty needle ≡ false = ground (arith, h) in
        let f : find_alone u needle (length haystack + 1) none haystack ≡ true =
          ground (arith, h) in
        (e, scan-StandsAlone u needle none haystack (sym (loop e) ∙ f))

    from :
        (is_empty needle ≡ false) × StandsAlone u needle none haystack
        → contains_exact_mpn u text mpn ≡ true
    from (e, (pre, post, split_words, l, r)) =
        let f : scan u needle none haystack ≡ true =
          rw split_words (StandsAlone-scan u needle none pre post l r) in
        rw (e, loop e, f) refl
