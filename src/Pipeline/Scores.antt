-- ===== src/Pipeline/Scores.antt =====
-- The strength of evidence: `score_candidate` of src/dsvire/pipeline.py. A score counts
-- thousandths. On all counts that can occur, the floats of the source compare with its bounds as
-- these do, and `round(score, 4)` is the float of so many thousandths.
use tokito_dsvire.Prelude.{
  ℕ, ◌+◌, ◌*◌, String, Bool, not, ◌&&◌, ◌||◌, List, [], ◌∷◌, min, leb, ltb, ◌==◌, if◌then◌else◌,
  is_digit, length, every, codes, same_text,
}
use tokito_dsvire.Pipeline.Chars.{Text, Unicode, any, drop_while, runs_of}
use tokito_dsvire.Pipeline.Phrases.{normalise_text, term_hits}

-- The kinds of region that a page is searched for.
pub data Region : Type 0 where
  pinout table : Region

-- The `kind` of a candidate: the third is "package".
pub data CandidateKind : Type 0 where
  region : Region → CandidateKind
  orderable_part : CandidateKind

abbrev pub pinout_terms : List String
pinout_terms =
    "pinout" ∷ "pin out" ∷ "pin configuration" ∷ "terminal configuration" ∷ "top view"
    ∷ "bottom view" ∷ "ball map" ∷ "pin assignment" ∷ []

abbrev pub pin_table_terms : List String
pin_table_terms =
    "pin functions" ∷ "pin function" ∷ "pin description" ∷ "terminal functions"
    ∷ "terminal function" ∷ "pin name" ∷ "signal name" ∷ []

abbrev pub table_header_terms : List String
table_header_terms = "description" ∷ "function" ∷ "type" ∷ "name" ∷ "pin" ∷ []

abbrev pub pin_names : List String
pin_names =
    "VDD" ∷ "VSS" ∷ "VIN" ∷ "VOUT" ∷ "GND" ∷ "AGND" ∷ "DGND" ∷ "EN" ∷ "NC" ∷ "COMP" ∷ "BOOT" ∷ "PH"
    ∷ "FB" ∷ "SCL" ∷ "SDA" ∷ "TX" ∷ "RX" ∷ "RESET" ∷ "NRST" ∷ []

abbrev pub is_upper_letter : ℕ → Bool
is_upper_letter c = leb b'A' c && leb c b'Z'

-- [A-Z0-9_]
abbrev pub is_pin_char : ℕ → Bool
is_pin_char c = is_upper_letter c || (is_digit c || (c == b'_'))

-- [A-Z]{0,6}[0-9]{1,3}, over the whole word.
unfoldable pub is_numbered : Text → Bool
unfolding drop_while
is_numbered w =
    let digits = drop_while is_upper_letter w in
    leb (length w) (length digits + 6)
    && (every is_digit digits && (ltb 0 (length digits) && leb (length digits) 3))

-- PIN_TOKEN matches a whole run of the characters [A-Z0-9_], since it looks for none of them
-- before and after.
unfoldable pub is_pin_token : Text → Bool
unfolding is_numbered same_text
is_pin_token w = is_numbered w || any (λ name. same_text w (codes name)) pin_names

-- `len(set(…))` of the words that match.
unfoldable pub distinct_tokens : List Text → ℕ
unfolding is_pin_token same_text
distinct_tokens [] = 0
distinct_tokens (w ∷ ws) =
    (if is_pin_token w && not (any (λ v. same_text w v) ws) then 1 else 0) + distinct_tokens ws

-- `_pin_token_count`
unfoldable pub pin_token_count : Unicode → Text → ℕ
unfolding runs_of distinct_tokens
pin_token_count u text = distinct_tokens (runs_of is_pin_char (u.upper text))

pub record Scoring : Type 0 where
  pub score : ℕ
  pub verified : Bool

abbrev pub score_pinout : ℕ → ℕ → Scoring
score_pinout title_hits pins =
    let score = min 1_000 (title_hits * 340 + min pins 12 * 45) in
    record { score = score; verified = leb 1 title_hits && (leb 4 pins && leb 700 score) }

abbrev pub score_table : ℕ → ℕ → ℕ → Scoring
score_table title_hits header_hits pins =
    let score = min 1_000 (title_hits * 300 + (min header_hits 3 * 90 + min pins 16 * 30)) in
    record {
      score = score;
      verified = leb 1 title_hits && (leb 2 header_hits && (leb 4 pins && leb 720 score));
    }

-- `score_candidate`, of a kind that it supports.
unfoldable pub score_candidate : Unicode → Region → Text → Scoring
unfolding normalise_text pin_token_count term_hits
score_candidate u pinout text =
    let clean = normalise_text text in
    score_pinout (term_hits u clean pinout_terms) (pin_token_count u clean)
score_candidate u table text =
    let clean = normalise_text text in
    score_table (min 1 (term_hits u clean pin_table_terms)) (term_hits u clean table_header_terms)
      (pin_token_count u clean)
