-- ===== src/Dsff/Tokens.antt =====
-- What `_tokenize` of src/dsvire/dsff.py makes of a content stream, and when it ends.
use mathlib.Core.List.{append_assoc}
use tokito_dsvire.Prelude.{
  ℕ, zero, suc, ◌<◌, List, [], ◌∷◌, ◌++◌, ◌≡◌, ◌≢◌, refl, ap, ◌∙◌, subst, arith, inl, inr, length,
}
use tokito_dsvire.Dsff.Token.{
  Split, span, is_blank, unsigned, number, Round, stop, comment, emit, invalid_name, number_or_word,
  round_at, round, Tokens, unfinished, raised, finished, emitted, tokenize,
}
use tokito_dsvire.Dsff.Splits.{Within, span-Splits}
use tokito_dsvire.Dsff.Rounds.{Unmatched, round-Emits, round-comment, round-emit}

-- The data that is left after some rounds.
pub data Later : List ℕ → List ℕ → Type 0 where
  now : {cs : List ℕ} → Later cs cs
  past_comment : {cs rest z : List ℕ} → round cs ≡ comment rest → Later rest z → Later cs z
  past_token : {cs z : List ℕ} (s : Split) → round cs ≡ emit s → Later s.rest z → Later cs z

emitted-unfinished : (t : List ℕ) (r : Tokens) → r ≢ unfinished → emitted t r ≢ unfinished
emitted-unfinished t unfinished h = absurd (h refl)
emitted-unfinished t raised h = λ e. cc
emitted-unfinished t (finished ts) h = λ e. cc

-- No token of the data, and of what is left after it, has to begin with a `)`.
abbrev pub Matched : List ℕ → Type 0
Matched cs = (z : List ℕ) → Later cs z → ¬ Unmatched z

round_ends :
    (n : ℕ) (cs : List ℕ)
    → ((rest : List ℕ) → length rest < length cs → Matched rest → tokenize n rest ≢ unfinished)
    → Matched cs
    → tokenize (suc n) cs ≢ unfinished
unfolding tokenize
round_ends n cs ih h = pick (round cs) refl
  where
    pick : (r : Round) → round cs ≡ r → tokenize (suc n) cs ≢ unfinished
    pick stop q = rw (q, tokenize) (λ e. cc)
    pick invalid_name q = rw (q, tokenize) (λ e. cc)
    pick (comment rest) q =
        rw (q, tokenize) (ih rest (round-comment cs q).1 (λ z k. h z (past_comment q k)))
    pick (emit s) q = elim (round-emit cs q).1 [
      | inl shorter ↦
          rw (q, tokenize)
            (emitted-unfinished s.taken (tokenize n s.rest)
              (ih s.rest shorter (λ z k. h z (past_token s q k))))
      | inr u ↦ absurd (h cs now u)
    ]

-- The loop ends on every content stream in which no token has to begin with a `)`: one round for
-- each byte, and one more, are enough.
pub tokenize_ends : (n : ℕ) (cs : List ℕ) → length cs < n → Matched cs → tokenize n cs ≢ unfinished
tokenize_ends zero cs l h = omega arith
tokenize_ends (suc n) cs l h = round_ends n cs (λ rest k m. tokenize_ends n rest (omega arith) m) h

Unmatched-round :
    (cs : List ℕ) → Unmatched cs → (s : Split) × (round cs ≡ emit s) × Unmatched s.rest
unfolding round round_at number unsigned number_or_word span
Unmatched-round cs (rest, e) = (record { taken = []; rest = b')' ∷ rest }, rw e refl, (rest, refl))

Unmatched-tokenize : (n : ℕ) (cs : List ℕ) → Unmatched cs → tokenize n cs ≡ unfinished
unfolding tokenize
Unmatched-tokenize zero cs u = refl
Unmatched-tokenize (suc n) cs u =
    let (s, q, u') = Unmatched-round cs u in
    rw (q, tokenize) (rw (Unmatched-tokenize n s.rest u') refl)

-- A content stream in which a token has to begin with a `)` keeps the loop running for ever: no
-- number of rounds is enough.
pub tokenize_diverges :
    (n : ℕ) {cs z : List ℕ} → Later cs z → Unmatched z → tokenize n cs ≡ unfinished
unfolding tokenize
tokenize_diverges zero k u = refl
tokenize_diverges (suc n) {cs} now u = Unmatched-tokenize (suc n) cs u
tokenize_diverges (suc n) (past_comment q k) u = rw (q, tokenize) (tokenize_diverges n k u)
tokenize_diverges (suc n) (past_token s q k) u =
    rw (q, tokenize) (rw (tokenize_diverges n k u) refl)

-- Tokens that stand in the data in this order, without overlap, none of them empty.
pub data Slices : List (List ℕ) → List ℕ → Type 0 where
  none_left : {cs : List ℕ} → Slices [] cs
  slice :
      {t rest : List ℕ} {ts : List (List ℕ)} (before : List ℕ) {cs : List ℕ}
      → t ≢ []
      → (before ++ (t ++ rest)) ≡ cs
      → Slices ts rest
      → Slices (t ∷ ts) cs

Slices-Within :
    {ts : List (List ℕ)} {rest cs : List ℕ} → Within rest cs → Slices ts rest → Slices ts cs
Slices-Within w none_left = none_left
Slices-Within (x, e) (slice before ne f k) =
    slice (x ++ before) ne (append_assoc x before _ ∙ ap (λ z. x ++ z) f ∙ e) k

round-Slices :
    (n : ℕ) (cs : List ℕ)
    → ((rest : List ℕ) (ts : List (List ℕ)) → tokenize n rest ≡ finished ts → Slices ts rest)
    → (ts : List (List ℕ)) → tokenize (suc n) cs ≡ finished ts
    → Slices ts cs
unfolding tokenize
round-Slices n cs ih ts e = pick (round cs) refl
  where
    after :
        (s : Split)
        → round cs ≡ emit s
        → (r : Tokens) → tokenize n s.rest ≡ r
        → emitted s.taken r ≡ finished ts
        → Slices ts cs
    after s q unfinished f g = cc
    after s q raised f g = cc
    after s q (finished us) f g =
        let (splits, progress) = round-Emits cs q in
        elim progress [
          | inl ne ↦
              subst (λ x. Slices x cs) {x = s.taken ∷ us} (ground arith)
                (slice (span is_blank cs).taken ne
                  (ap (λ z. (span is_blank cs).taken ++ z) splits ∙ span-Splits is_blank cs)
                  (ih s.rest us f))
          | inr u ↦ ground (arith, Unmatched-tokenize (suc n) cs u)
        ]

    pick : (r : Round) → round cs ≡ r → Slices ts cs
    pick stop q = subst (λ x. Slices x cs) {x = []} (ground arith) none_left
    pick invalid_name q = ground arith
    pick (comment rest) q = Slices-Within (round-comment cs q).0 (ih rest ts (ground arith))
    pick (emit s) q = after s q (tokenize n s.rest) refl (ground arith)

-- The tokens of a content stream are slices of it, in its order, without overlap, and none of
-- them is empty.
pub tokenize-Slices :
    (n : ℕ) (cs : List ℕ) {ts : List (List ℕ)} → tokenize n cs ≡ finished ts → Slices ts cs
unfolding tokenize
tokenize-Slices zero cs e = cc
tokenize-Slices (suc n) cs {ts} e = round-Slices n cs (λ rest us f. tokenize-Slices n rest f) ts e
