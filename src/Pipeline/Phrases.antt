-- ===== src/Pipeline/Phrases.antt =====
-- How src/dsvire/pipeline.py looks for phrases, part numbers and packages in the text of a page.
use tokito_dsvire.Prelude.{
  ℕ, zero, suc, ◌+◌, String, Bool, true, false, not, ◌&&◌, ◌||◌, Option, none, some, List, [], ◌∷◌,
  ◌++◌, map, if◌then◌else◌, is_empty, length, take, codes, same_text,
}
use tokito_dsvire.Pipeline.Chars.{
  Text, Unicode, any, drop_first, head_of, tail_of, starts_with, within, strip, strip_chars,
  split_words, join, space, replace,
}

-- `_normalise_text`
unfoldable pub normalise_text : Text → Text
unfolding replace split_words join
normalise_text value = join space (split_words (replace 0 space value))

module _ (u : Unicode) where
  -- The words that `_normalise_phrase` joins.
  unfoldable pub phrase_words : Text → List Text
  unfolding split_words
  phrase_words value =
      split_words (map (λ c. if u.alnum c then c else space) (u.casefold (u.nfkc value)))

  -- `_normalise_phrase`
  unfoldable pub normalise_phrase : Text → Text
  unfolding phrase_words join
  normalise_phrase value = join space (phrase_words value)

  -- `_contains_phrase`
  unfoldable pub contains_phrase : Text → Text → Bool
  unfolding normalise_phrase within
  contains_phrase text phrase =
      let haystack = normalise_phrase text in
      let needle = normalise_phrase phrase in
      not (is_empty needle)
      && within (space ∷ (needle ++ (space ∷ []))) (space ∷ (haystack ++ (space ∷ [])))

  -- The words of the needle that are still to be matched after the window.
  unfoldable pub matched_in : List Text → List Text → List Text
  unfolding same_text
  matched_in [] window = []
  matched_in (n ∷ ns) [] = n ∷ ns
  matched_in (n ∷ ns) (w ∷ ws) = if same_text w n then matched_in ns ws else matched_in (n ∷ ns) ws

  -- The loop over the places where the first word of the needle may stand.
  unfoldable pub ordered_from : Text → List Text → List Text → Bool
  unfolding same_text matched_in
  ordered_from first others [] = false
  ordered_from first others (token ∷ haystack) =
      (same_text token first && is_empty (matched_in others (take (length others + 2) haystack)))
      || ordered_from first others haystack

  unfoldable pub ordered_words : List Text → List Text → Bool
  unfolding ordered_from
  ordered_words [] haystack = false
  ordered_words (first ∷ others) haystack = ordered_from first others haystack

  -- `_contains_ordered_tokens`
  unfoldable pub contains_ordered_tokens : Text → Text → Bool
  unfolding normalise_phrase split_words ordered_words
  contains_ordered_tokens text phrase =
      ordered_words (split_words (normalise_phrase phrase)) (split_words (normalise_phrase text))

  -- `_normalise_mpn`
  unfoldable pub normalise_mpn : Text → Text
  unfolding replace strip
  normalise_mpn value = strip (
      replace 8_722 b'-' (
        replace 8_212 b'-' (
          replace 8_211 b'-' (
            replace 8_210 b'-'
              (replace 8_209 b'-' (replace 8_208 b'-' (u.upper (u.nfkc value))))))))

  -- Nothing alphanumeric stands there.
  abbrev pub is_free : Option ℕ → Bool
  is_free none = true
  is_free (some c) = not (u.alnum c)

-- A place in a text: the character before it, and the text from there on.
pub record Place : Type 0 where
  pub before : Option ℕ
  pub rest : Text

-- `haystack.find(needle, start)`
unfoldable pub find_place : Text → Option ℕ → Text → Option Place
unfolding starts_with
find_place needle before [] =
    if starts_with needle [] then some (record { before = before; rest = [] }) else none
find_place needle before (c ∷ cs) =
    if starts_with needle (c ∷ cs)
    then some (record { before = before; rest = c ∷ cs })
    else find_place needle (some c) cs

module _ (u : Unicode) where
  -- Whether the needle, found at a place, stands alone there, or else the loop goes on behind the
  -- first character of the place.
  abbrev pub accept_place : Text → (Option ℕ → Text → Bool) → Option Place → Bool
  accept_place needle go_on none = false
  accept_place needle go_on (some p) =
      if is_free u p.before && is_free u (head_of (drop_first (length needle) p.rest))
      then true
      else go_on (head_of p.rest) (tail_of p.rest)

  -- The loop of `_contains_exact_mpn`, on fuel.
  unfoldable pub find_alone : Text → ℕ → Option ℕ → Text → Bool
  unfolding find_place
  find_alone needle zero before haystack = false
  find_alone needle (suc n) before haystack =
      accept_place needle (find_alone needle n) (find_place needle before haystack)

  -- `_contains_exact_mpn`
  unfoldable pub contains_exact_mpn : Text → Text → Bool
  unfolding normalise_mpn find_alone
  contains_exact_mpn text mpn =
      let haystack = normalise_mpn u text in
      let needle = normalise_mpn u mpn in
      not (is_empty needle) && find_alone needle (length haystack + 1) none haystack

  -- `_starts_new_part_row`, from the first word of the line on.
  unfoldable pub starts_part : Text → Option Text → Bool
  unfolding strip_chars normalise_phrase starts_with
  starts_part part_package none = false
  starts_part part_package (some word) =
      let first = strip_chars (codes "()[]{}|,;:") (u.nfkc word) in
      (any u.alpha first && any u.digit first)
      && (not (is_empty (normalise_phrase u first))
          && not (starts_with (normalise_phrase u first) (normalise_phrase u part_package)))

  -- `_starts_new_part_row`
  unfoldable pub starts_new_part_row : Text → Text → Bool
  unfolding strip split_words starts_part
  starts_new_part_row line part_package =
      starts_part part_package (head_of (split_words (strip line)))

  -- `_term_hits`
  unfoldable pub term_hits : Text → List String → ℕ
  unfolding within
  term_hits text [] = 0
  term_hits text (term ∷ terms) =
      (if within (codes term) (u.casefold text) then 1 else 0) + term_hits text terms
