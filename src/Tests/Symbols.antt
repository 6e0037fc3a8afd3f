-- ===== src/Tests/Symbols.antt =====
-- Runs of src/dsvire/symbol_extract.py and symbol_layout.py on a table of four pins, and the laws
-- of Symbols at it.
use mathlib.Core.List.{Perm}
use tokito_dsvire.Prelude.{
  ℕ, ◌+◌, ◌-◌, ◌*◌, ◌/◌, max, ◌≢◌, take, none, true, false, some, List, [], ◌∷◌, ◌++◌, ◌≡◌, ◌↔◌,
  ◌≤◌, refl, map, length, codes, Result, ok, err, Distinct, All,
}
use tokito_dsvire.Pipeline.Chars.{Text, split_lines}
use tokito_dsvire.Symbols.Table.{Pin, ExtractionError, duplicate_number, parse_pin_table, pin_of}
use tokito_dsvire.Symbols.Lines.{kind_at}
use tokito_dsvire.Symbols.Layout.{Floats, Placement, layout_pins}
use tokito_dsvire.Symbols.Sides.{is_numeric}
use tokito_dsvire.Symbols.Parsing.{rows_in, parse_pin_table-Rows}
use tokito_dsvire.Symbols.Spacing.{IsPlaced, InOrder, layout_pins-Placed}
use tokito_dsvire.Pipeline.Scores.{table, score_candidate}
use tokito_dsvire.Pipeline.Pages.{PdfDocument, DatasheetIdentity}
use tokito_dsvire.Pipeline.Bundles.{Bundle}
use tokito_dsvire.Pipeline.Packs.{Tools, evidence_bundle, retrieve_symbol_evidence}
use tokito_dsvire.Pipeline.Discovery.{resolve_identity}
use tokito_dsvire.Symbols.Spec.{SymbolSpec, spec_of}
use tokito_dsvire.Symbols.Compile.{CompileError, SymbolResult, compile_symbol, result_of}
use tokito_dsvire.Symbols.Job.{JobError, Exit, symbol_worker_main, run_symbol_job}
use tokito_dsvire.Symbols.Compiling.{Names, FromTable, run_symbol_job-FromTable}
use tokito_dsvire.Tests.Pipeline.{ascii, line, package_token, pdf_bytes, fresh}

abbrev row : Text → Text
row s = s ++ (10 ∷ [])

abbrev four_rows : Text
four_rows =
    row (codes "Pin Name Type")
    ++ (row (codes "1 VDD power")
        ++ (row (codes "2 GND ground") ++ (row (codes "3 OUT output") ++ codes "4 IN i/o, input")))

abbrev pins_in : Result ExtractionError (List Pin) → List Pin
pins_in (ok pins) = pins
pins_in (err e) = []

abbrev pins : List Pin
pins = pins_in (parse_pin_table ascii four_rows)

names : map (λ p. p.name) pins ≡ codes "VDD" ∷ codes "GND" ∷ codes "OUT" ∷ codes "IN" ∷ []
unfolding parse_pin_table
names = refl

electricals :
    map (λ p. p.electrical) pins
    ≡ codes "power_in" ∷ codes "power_in" ∷ codes "output" ∷ codes "bidirectional" ∷ []
unfolding parse_pin_table
electricals = refl

kind_stops : kind_at ascii (codes "in-") ≡ some (codes "in")
unfolding kind_at
kind_stops = refl

doubled :
    parse_pin_table ascii (row (codes "1 VDD power") ++ codes "1 GND ground") ≡ err duplicate_number
unfolding parse_pin_table
doubled = refl

parsed : parse_pin_table ascii four_rows ≡ ok pins
unfolding parse_pin_table
parsed = refl

parse_pin_table-Rows_example : (parse_pin_table ascii four_rows ≡ ok pins) ↔ (
    (pins ≡ map (pin_of ascii) (rows_in ascii (split_lines four_rows)))
    × Distinct (map (λ r. r.number) (rows_in ascii (split_lines four_rows)))
    × (4 ≤ length pins))
parse_pin_table-Rows_example = parse_pin_table-Rows ascii four_rows pins

-- Whole hundredths in place of floats, without their signs.
abbrev numbers : Floats ℕ
numbers = record {
  whole = λ n. n * 100;
  hundredths = λ n. n;
  negated = λ r. r;
  sum = λ r s. r + s;
  difference = λ r s. r - s;
  product = λ r s. r * s / 100;
  quotient = λ r s. r * 100 / s;
  greatest = max;
}

some_pins : pins ≢ []
unfolding parse_pin_table
some_pins e = cc

read_pins : All (λ p. is_numeric ascii p ≡ true) pins
unfolding parse_pin_table is_numeric
read_pins = (refl, (refl, (refl, (refl, tt))))

-- A superscript digit is a digit but no decimal.
superscript :
    is_numeric
      (record ascii { digit = λ c. true })
      (record {
        number = codes "2a";
        name = [];
        electrical = [];
        style = [];
        group = [];
        unit = 1;
        hidden = false;
        confidence = 86;
        evidence_region_ids = [];
      })
    ≡ false
unfolding is_numeric
superscript = refl

layout_pins-Placed_example :
    (placement : Placement ℕ) × (layout_pins numbers ascii pins ≡ ok placement)
    × Perm (map (λ l. l.pin) placement.laid) pins
    × All (IsPlaced numbers ascii placement.body pins) placement.laid
    × InOrder numbers ascii placement.body pins placement.laid
layout_pins-Placed_example = layout_pins-Placed numbers ascii pins some_pins read_pins

abbrev datasheet : PdfDocument
datasheet = record {
  pages =
      some (record {
        width = 100;
        height = 200;
        raw_text = codes "Acme AB123 SOIC-8";
        blocks =
            line 20 (codes "Pinout VDD VSS GND EN NC SCL SDA TX")
            ∷ line 100 (codes "Pin functions: name, type, description")
            ∷ line 110 (codes "1 VDD power")
            ∷ line 120 (codes "2 GND ground")
            ∷ line 130 (codes "3 OUT output")
            ∷ line 140 (codes "4 IN input")
            ∷ [];
      })
      ∷ [];
}

abbrev tools : Tools
tools = record {
  unicode = ascii;
  sha256 = λ b. take 8 b;
  dumps = λ k. k.mpn;
  model_ids = [];
  open_pdf = λ b. some datasheet;
  per_point = 1;
  draw = λ p b. some (b.y0 ∷ b.y1 ∷ []);
  ratio = λ m n. m;
}

abbrev no_drawing : SymbolSpec → Placement ℕ → Text
no_drawing spec placement = []

abbrev compiled : Result CompileError SymbolResult
compiled =
    (compile_symbol numbers no_drawing tools package_token pdf_bytes none (codes "now") fresh true
      []).0

abbrev exit : Exit
exit = record {
  timed_out = false;
  exitcode_zero = true;
  has_result = true;
  status = some (symbol_worker_main compiled);
}

-- The symbol that a result holds, or an empty one.
abbrev identity : DatasheetIdentity
identity = record {
  manufacturer = codes "Acme";
  mpn = codes "AB123";
  part_package = codes "SOIC 8";
  source_url = none;
}

abbrev empty_bundle : Bundle
empty_bundle = evidence_bundle tools pdf_bytes identity []

abbrev symbol_in : Result JobError SymbolResult → SymbolResult
symbol_in (ok r) = r
symbol_in (err e) =
    result_of numbers no_drawing identity empty_bundle (spec_of ascii identity empty_bundle [] [])
      (record { laid = []; body = record { left = 0; bottom = 0; right = 0; top = 0 } })

abbrev returned : SymbolResult
returned = symbol_in (run_symbol_job exit)

job_returns : run_symbol_job exit ≡ ok returned
unfolding run_symbol_job compile_symbol symbol_worker_main
job_returns = refl

four_pins : map (λ p. p.number) returned.pins ≡ codes "4" ∷ codes "3" ∷ codes "1" ∷ codes "2" ∷ []
unfolding run_symbol_job compile_symbol symbol_worker_main
four_pins = refl

run_symbol_job-FromTable_example :
    (i : DatasheetIdentity) × (resolve_identity ascii package_token tools.open_pdf pdf_bytes none
      ≡ ok i)
    × Names i returned
    × ((retrieve_symbol_evidence tools pdf_bytes i fresh true []).0 ≡ ok returned.evidence)
    × ((document : PdfDocument) × (tools.open_pdf pdf_bytes ≡ some document)
        × FromTable numbers ascii document returned)
run_symbol_job-FromTable_example =
    run_symbol_job-FromTable numbers no_drawing tools package_token pdf_bytes none (codes "now")
      fresh true [] exit returned refl job_returns

-- A title alone counts as its own column headers: without any other header, and without a row, the
-- region is verified.
bare_title :
    score_candidate ascii table (codes "Pin functions 1 2 3 4 5 6 7 8")
    ≡ record { score = 720; verified = true }
unfolding score_candidate
bare_title = refl
