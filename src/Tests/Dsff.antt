-- ===== src/Tests/Dsff.antt =====
-- Runs of src/dsvire/dsff.py on small inputs, and the laws of Dsff at them.
use tokito_dsvire.Prelude.{
  ℕ, String, Option, some, List, [], ◌∷◌, ◌++◌, ◌≡◌, ◌≢◌, refl, sym, ap, subst, arith, ok, codes,
  map, min,
}
use tokito_dsvire.Dsff.Token.{
  round, round_at, span, literal, name, number, unsigned, fraction, number_or_word, emit, stop,
  unfinished, finished, tokenize,
}
use tokito_dsvire.Dsff.Rounds.{Unmatched}
use tokito_dsvire.Dsff.Tokens.{
  Later, now, past_comment, past_token, tokenize_ends, tokenize_diverges, Slices, tokenize-Slices,
}
use tokito_dsvire.Dsff.Affine.{product}
use tokito_dsvire.Dsff.Content.{
  Token, same_bytes, Image, Figure, Machine, operands, operand_name, figure_of, restore, draw,
  concatenate, operator, run,
}
use tokito_dsvire.Dsff.Groups.{Balanced, no_tokens, plain, group_restores}
use tokito_dsvire.Dsff.Fusion.{
  XobjectFigure, LayoutBox, AssociatedRegion, mem, Fused, eligible, better, best_of, settle, fuse,
  left_overs, associate,
}
use tokito_dsvire.Dsff.Used.{regions_of, figures_of}
use tokito_dsvire.Dsff.Fused.{shown, shown_box, associate_keeps, settled, BoxGets, settled-BoxGets}

tokens_of_stream :
    tokenize 20 (codes "q 1.5 -2 cm /Im0 Do[(a(b)\\)c)]Q")
    ≡ finished (
        codes "q"
        ∷ codes "1.5"
        ∷ codes "-2"
        ∷ codes "cm"
        ∷ codes "/Im0"
        ∷ codes "Do"
        ∷ codes "["
        ∷ codes "(a(b)\\)c)"
        ∷ codes "]"
        ∷ codes "Q"
        ∷ [])
unfolding tokenize round round_at span literal name number unsigned fraction number_or_word
tokens_of_stream = refl

tokenize-Slices_example : Slices (codes "q" ∷ codes "1." ∷ []) (codes "q 1.")
tokenize-Slices_example = tokenize-Slices 5 (codes "q 1.") runs
  where
    runs : tokenize 5 (codes "q 1.") ≡ finished (codes "q" ∷ codes "1." ∷ [])
    runs = unfold tokenize round round_at span number unsigned fraction number_or_word in refl

restore_last : round (codes " Q") ≡ emit (record { taken = codes "Q"; rest = [] })
unfolding round round_at span number unsigned number_or_word
restore_last = refl

no_rounds : round [] ≡ stop
unfolding round round_at span
no_rounds = refl

Later-nil : (cs z : List ℕ) → cs ≡ [] → Later cs z → z ≡ []
Later-nil cs z e now = e
Later-nil cs z e (past_comment q k) = ground (arith, no_rounds, ap round e)
Later-nil cs z e (past_token s q k) = ground (arith, no_rounds, ap round e)

nil-matched : ¬ Unmatched []
unfolding span
nil-matched (r, e) = cc

restore-matched : ¬ Unmatched (codes " Q")
unfolding span
restore-matched (r, e) = ground arith

restore-Later : (cs z : List ℕ) → cs ≡ codes " Q" → Later cs z → ¬ Unmatched z
restore-Later cs z e now = subst (λ x. ¬ Unmatched x) (sym e) restore-matched
restore-Later cs z e (past_comment q k) = ground (arith, restore_last, ap round e)
restore-Later cs z e (past_token s q k) =
    let empty : s.rest ≡ [] = ground (arith, restore_last, ap round e) in
    subst (λ x. ¬ Unmatched x) (sym (Later-nil s.rest z empty k)) nil-matched

tokenize_ends_example : tokenize 3 (codes " Q") ≢ unfinished
tokenize_ends_example =
    tokenize_ends 3 (codes " Q") (omega arith) (λ z k. restore-Later (codes " Q") z refl k)

stray : Unmatched (codes ")")
unfolding span
stray = (([]), refl)

first_token : round (codes "Q )") ≡ emit (record { taken = codes "Q"; rest = codes " )" })
unfolding round round_at span number unsigned number_or_word
first_token = refl

stray_later : Unmatched (codes " )")
unfolding span
stray_later = (([]), refl)

tokenize_diverges_example : tokenize 1_000 (codes "Q )") ≡ unfinished
tokenize_diverges_example =
    tokenize_diverges 1_000
      (past_token (record { taken = codes "Q"; rest = codes " )" }) first_token now) stray_later

-- A machine whose matrices are numbers, and which reads every operand as 2.
abbrev two : List Token → Option ℕ
two ts = some 2

abbrev all_placed : ℕ → Option ℕ
all_placed m = some m

abbrev im0 : Image
im0 = record { name = codes "Im0"; width = 640; height = 480 }

abbrev start : Machine ℕ ℕ
start = record { top = 1; below = []; behind = []; figures = [] }

abbrev inner : List Token
inner =
    codes "2"
    ∷ codes "2"
    ∷ codes "2"
    ∷ codes "2"
    ∷ codes "2"
    ∷ codes "2"
    ∷ codes "cm"
    ∷ codes "/Im0"
    ∷ codes "Do"
    ∷ []

abbrev drawn : Figure ℕ
drawn = record { name = codes "Im0"; bbox = 2; width = 640; height = 480 }

abbrev restored : Machine ℕ ℕ
restored = record {
  top = 1;
  below = [];
  behind =
      codes "Q"
      ∷ codes "Do"
      ∷ codes "/Im0"
      ∷ codes "cm"
      ∷ codes "2"
      ∷ codes "2"
      ∷ codes "2"
      ∷ codes "2"
      ∷ codes "2"
      ∷ codes "2"
      ∷ codes "q"
      ∷ [];
  figures = drawn ∷ [];
}

draws :
    run product two all_placed (im0 ∷ []) (codes "q" ∷ (inner ++ (codes "Q" ∷ []))) start
    ≡ ok restored
unfolding run operator restore draw concatenate same_bytes operands operand_name figure_of
draws = refl

inner-Balanced : Balanced inner
unfolding same_bytes
inner-Balanced =
    plain (refl, refl)
      (plain (refl, refl)
        (plain (refl, refl)
          (plain (refl, refl)
            (plain (refl, refl)
              (plain (refl, refl)
                (plain (refl, refl) (plain (refl, refl) (plain (refl, refl) no_tokens))))))))

group_restores_example :
    (restored.top ≡ start.top)
    × (restored.below ≡ start.below)
    × ((more : List (Figure ℕ)) × (restored.figures ≡ start.figures ++ more))
group_restores_example = group_restores product two all_placed (im0 ∷ []) start inner-Balanced draws

-- Boxes are numbers, which overlap by the smaller of them.
abbrev smaller : ℕ → ℕ → ℕ
smaller m n = min m n

abbrev same : ℕ → ℕ
same n = n

abbrev figure_a : XobjectFigure ℕ
figure_a = record { page = 1; name = "Im0"; bbox = 7 }

abbrev figure_b : XobjectFigure ℕ
figure_b = record { page = 2; name = "Im1"; bbox = 9 }

abbrev box_a : LayoutBox ℕ
box_a = record { page = 1; bbox = 8; label = "package"; source = "layout" }

abbrev fused_regions : List (AssociatedRegion ℕ)
fused_regions =
    record {
      page = 1;
      bbox = 8;
      label = "package";
      source = "ensemble";
      iou = 7;
      xobject_name = some "Im0";
    }
    ∷ record {
      page = 2;
      bbox = 9;
      label = "other";
      source = "xobject";
      iou = 0;
      xobject_name = some "Im1";
    }
    ∷ []

fuses : associate smaller same 5 10 6 (figure_a ∷ figure_b ∷ []) (box_a ∷ []) ≡ some fused_regions
unfolding associate fuse settle best_of better eligible mem left_overs
fuses = refl

associate_keeps_example :
    ((front : List (AssociatedRegion ℕ)) × (back : List (AssociatedRegion ℕ)) × (fused_regions
        ≡ front ++ back)
      × (map shown front ≡ map shown_box (box_a ∷ [])))
    × ((n : String) → regions_of n fused_regions ≡ figures_of n (figure_a ∷ figure_b ∷ []))
associate_keeps_example =
    associate_keeps smaller same 5 10 6 (figure_a ∷ figure_b ∷ []) (box_a ∷ []) fuses

abbrev none_fused : Fused ℕ
none_fused = record { used = []; regions = [] }

settled-BoxGets_example :
    BoxGets smaller same 6
      (figure_a ∷ figure_b ∷ [])
      box_a
      none_fused
      (settled smaller same 6 (figure_a ∷ figure_b ∷ []) box_a none_fused)
settled-BoxGets_example =
    settled-BoxGets smaller same 6 (figure_a ∷ figure_b ∷ []) box_a none_fused (omega arith)
