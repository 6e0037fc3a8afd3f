-- ===== src/Symbols/Compiling.antt =====
-- What stands behind a symbol that the job of src/dsvire/worker.py returns.
use mathlib.Core.List.{Perm}
use tokito_dsvire.Prelude.{
  ◌≤◌, Bool, not, Option, some, List, [], ◌≡◌, ◌≢◌, refl, sym, ap, ◌∙◌, subst, arith, inl, inr, map,
  length, Distinct, Result, ok, err, Result-cases, err≢ok, ok_injective, bind-ok, guard, Ensures-ok,
}
use tokito_dsvire.Pipeline.Chars.{Text, Unicode, split_lines, strip}
use tokito_dsvire.Pipeline.Scores.{pinout, table}
use tokito_dsvire.Pipeline.Pages.{
  DatasheetIdentity, RetrievalError, PdfDocument, Candidate, is_required, exceeds_bytes, pdf_size,
  no_pdf_header, backend_error, page_count_outside, page_text_limit, no_region, evidence_abstained,
  manufacturer_absent, mpn_absent, package_not_associated, crop_limit, not_grounded,
  identity_ambiguous, pack_busy, backend_failure,
}
use tokito_dsvire.Pipeline.Identity.{IdentityHint}
use tokito_dsvire.Pipeline.Discovery.{
  Bytes, PackageToken, check_pdf, opened, resolve_identity, load_verified_region_candidates,
}
use tokito_dsvire.Pipeline.Bundles.{Bundle}
use tokito_dsvire.Pipeline.Packs.{Tools, retrieve_symbol_evidence}
use tokito_dsvire.Pipeline.Actions.{Root}
use tokito_dsvire.Pipeline.Best.{Chosen, best_candidates-Chosen}
use tokito_dsvire.Pipeline.Resolving.{opened-some}
use tokito_dsvire.Symbols.Table.{Pin, ExtractionError, pin_of, parse_pin_table}
use tokito_dsvire.Symbols.Layout.{Floats, Placement, layout_pins}
use tokito_dsvire.Symbols.Sides.{LayoutError}
use tokito_dsvire.Symbols.Spec.{SymbolSpec, extract_symbol_spec, spec_of}
use tokito_dsvire.Symbols.Parsing.{rows_in, parse_pin_table-Rows}
use tokito_dsvire.Symbols.Spacing.{layout_pins-Placed, layout_pins-numeric}
use tokito_dsvire.Symbols.Compile.{
  CompileError, retrieval, extraction, layout, SymbolResult, PublicPin, public_pin, or_retrieval,
  or_extraction, or_layout, result_of, compile_evidence, compile_identity, compile_symbol,
}
use tokito_dsvire.Symbols.Job.{
  retrieval_status, symbol_worker_main, Exit, read_status, run_symbol_job, worker_timeout,
  worker_error,
}

or_retrieval-ok :
    {A : Type 0} (r : Result RetrievalError A) {a : A} → or_retrieval r ≡ ok a → r ≡ ok a
unfolding or_retrieval
or_retrieval-ok (ok b) h = ap ok (ok_injective h)
or_retrieval-ok (err e) h = absurd (err≢ok h)

or_extraction-ok :
    {A : Type 0} (r : Result ExtractionError A) {a : A} → or_extraction r ≡ ok a → r ≡ ok a
unfolding or_extraction
or_extraction-ok (ok b) h = ap ok (ok_injective h)
or_extraction-ok (err e) h = absurd (err≢ok h)

or_layout-ok : {A : Type 0} (r : Result LayoutError A) {a : A} → or_layout r ≡ ok a → r ≡ ok a
unfolding or_layout
or_layout-ok (ok b) h = ap ok (ok_injective h)
or_layout-ok (err e) h = absurd (err≢ok h)

-- Only a symbol that was compiled is returned as one.
run_symbol_job-ok :
    (exit : Exit) (compiled : Result CompileError SymbolResult) (r : SymbolResult)
    → exit.status ≡ some (symbol_worker_main compiled)
    → run_symbol_job exit ≡ ok r
    → compiled ≡ ok r
unfolding run_symbol_job symbol_worker_main
run_symbol_job-ok exit compiled r written h =
    let (x, in_time, a) = bind-ok (guard (not exit.timed_out) worker_timeout) _ h in
    let (y, zero_code, b) = bind-ok (guard exit.exitcode_zero worker_error) _ a in
    let (z, there, c) = bind-ok (guard exit.has_result worker_error) _ b in
    read compiled (subst (λ s. read_status s ≡ ok r) written c)
  where
    of_retrieval : (e : RetrievalError) → read_status (some (retrieval_status e)) ≢ ok r
    of_retrieval is_required k = absurd (err≢ok k)
    of_retrieval exceeds_bytes k = absurd (err≢ok k)
    of_retrieval pdf_size k = absurd (err≢ok k)
    of_retrieval no_pdf_header k = absurd (err≢ok k)
    of_retrieval backend_error k = absurd (err≢ok k)
    of_retrieval page_count_outside k = absurd (err≢ok k)
    of_retrieval page_text_limit k = absurd (err≢ok k)
    of_retrieval (no_region rs) k = absurd (err≢ok k)
    of_retrieval (evidence_abstained rs) k = absurd (err≢ok k)
    of_retrieval manufacturer_absent k = absurd (err≢ok k)
    of_retrieval mpn_absent k = absurd (err≢ok k)
    of_retrieval package_not_associated k = absurd (err≢ok k)
    of_retrieval crop_limit k = absurd (err≢ok k)
    of_retrieval not_grounded k = absurd (err≢ok k)
    of_retrieval (identity_ambiguous cs) k = absurd (err≢ok k)
    of_retrieval pack_busy k = absurd (err≢ok k)
    of_retrieval backend_failure k = absurd (err≢ok k)

    read :
        (c : Result CompileError SymbolResult)
        → read_status (some (symbol_worker_main c)) ≡ ok r
        → c ≡ ok r
    read (ok s) k = ap ok (ok_injective k)
    read (err (retrieval e)) k = absurd (of_retrieval e k)
    read (err (extraction e)) k = absurd (err≢ok k)
    read (err (layout e)) k = absurd (err≢ok k)

-- A symbol and its specification are under the names of an identity.
pub record Names (identity : DatasheetIdentity) (r : SymbolResult) : Type 0 where
  pub manufacturer : r.manufacturer ≡ strip identity.manufacturer
  pub mpn : r.mpn ≡ strip identity.mpn
  pub part_package : r.part_package ≡ strip identity.part_package
  pub of_spec :
      (r.spec.manufacturer ≡ r.manufacturer)
      × (r.spec.mpn ≡ r.mpn)
      × (r.spec.part_package ≡ r.part_package)

module _ {R : Type 0} (floats : Floats R) (u : Unicode) where
  -- The pins of a symbol: those of the rows of a table, four at least, under distinct numbers, each
  -- laid out once.
  abbrev pub PinsOf : Text → List Pin → List PublicPin → Type 0
  PinsOf table_text pins public_pins =
      (pins ≡ map (pin_of u) (rows_in u (split_lines table_text)))
      × Distinct (map (λ r. r.number) (rows_in u (split_lines table_text)))
      × (4 ≤ length pins)
      × ((placement : Placement R) × (layout_pins floats u pins ≡ ok placement)
          × (public_pins ≡ map public_pin placement.laid)
          × Perm (map (λ l. l.pin) placement.laid) pins)

  -- The text of a table that is chosen in the document.
  abbrev pub FromTable : PdfDocument → SymbolResult → Type 0
  FromTable document r =
      (source : Candidate) × Chosen u table document source × PinsOf source.text r.spec.pins r.pins

  layout-PinsOf :
      (table_text : Text) (pins : List Pin) (placement : Placement R)
      → parse_pin_table u table_text ≡ ok pins
      → layout_pins floats u pins ≡ ok placement
      → PinsOf table_text pins (map public_pin placement.laid)
  layout-PinsOf table_text pins placement parsed laid =
      let (same, distinct, four) = (parse_pin_table-Rows u table_text pins).0 parsed in
      let (other, laid_out, perm, sided, in_order) =
        layout_pins-Placed floats u pins (some_pins pins four)
          (layout_pins-numeric floats u pins laid).1 in
      let one : other ≡ placement = ok_injective (sym laid_out ∙ laid) in
      (
        same,
        distinct,
        four,
        (placement, laid, refl, subst (λ p. Perm (map (λ l. l.pin) p.laid) pins) one perm),
      )
    where
      some_pins : (ps : List Pin) → 4 ≤ length ps → ps ≢ []
      some_pins ps four e = omega (arith, four, ap length e)

  compile_evidence-FromTable :
      (draw_svg : SymbolSpec → Placement R → Text) (open_pdf : Bytes → Option PdfDocument)
      (pdf_bytes : Bytes) (identity : DatasheetIdentity) (extracted_at : Text) (evidence : Bundle)
      (r : SymbolResult)
      → compile_evidence floats draw_svg u open_pdf pdf_bytes identity extracted_at evidence ≡ ok r
      → Names identity r
        × (r.evidence ≡ evidence)
        × ((document : PdfDocument) × (open_pdf pdf_bytes ≡ some document) × FromTable document r)
  unfolding compile_evidence load_verified_region_candidates extract_symbol_spec result_of spec_of
  compile_evidence-FromTable draw_svg open_pdf pdf_bytes identity extracted_at evidence r h =
      let (candidates, loaded, a) =
        bind-ok (or_retrieval (load_verified_region_candidates u open_pdf pdf_bytes)) _ h in
      let (spec, extracted, b) =
        bind-ok
          (or_extraction (extract_symbol_spec u identity candidates.table evidence extracted_at)) _
          a in
      let (placement, laid, c) = bind-ok (or_layout (layout_pins floats u spec.pins)) _ b in
      let (x, checked, d) = bind-ok (check_pdf pdf_bytes) _ (or_retrieval-ok _ loaded) in
      let (document, is_open, best) = bind-ok (opened (open_pdf pdf_bytes)) _ d in
      let (pins, parsed, made) =
        bind-ok (parse_pin_table u candidates.table.text) _ (or_extraction-ok _ extracted) in
      let chosen =
        Ensures-ok (λ v. Chosen u pinout document v.pinout × Chosen u table document v.table) _
          (best_candidates-Chosen u document) best in
      let same_pins : pins ≡ spec.pins = ap (λ s. s.pins) (ok_injective made) in
      subst
        (λ s.
          Names identity s
          × (s.evidence ≡ evidence)
          × ((document : PdfDocument) × (open_pdf pdf_bytes ≡ some document)
              × FromTable document s))
        (ok_injective c)
        (
          subst (λ s. Names identity (result_of floats draw_svg identity evidence s placement))
              (ok_injective made)
              (record {
                manufacturer = refl;
                mpn = refl;
                part_package = refl;
                of_spec = (refl, refl, refl);
              }),
          refl,
          (
            document,
            opened-some (open_pdf pdf_bytes) is_open,
            (
              candidates.table,
              chosen.1,
              layout-PinsOf candidates.table.text spec.pins placement (parsed ∙ ap ok same_pins)
                  (or_layout-ok _ laid),
            ),
          ),
        )

-- A symbol that the job returns was compiled: it and its specification carry the manufacturer, the
-- part number and the package of the identity that was resolved, and its evidence is what was
-- retrieved for that identity. Its pins are those of the rows of a table that is chosen in the
-- document, four at least and under distinct numbers, and each of them is laid out exactly once.
pub run_symbol_job-FromTable :
    {R : Type 0} (floats : Floats R) (draw_svg : SymbolSpec → Placement R → Text) (t : Tools)
    (package_token : PackageToken) (pdf_bytes : Bytes) (hint : Option IdentityHint)
    (extracted_at fresh : Text) (lock_free : Bool) (root : Root) (exit : Exit) (r : SymbolResult)
    → exit.status
      ≡ some (
          symbol_worker_main
            (compile_symbol floats draw_svg t package_token pdf_bytes hint extracted_at fresh
              lock_free root).0)
    → run_symbol_job exit ≡ ok r
    → (identity : DatasheetIdentity) × (resolve_identity t.unicode package_token t.open_pdf
          pdf_bytes hint
        ≡ ok identity)
      × Names identity r
      × ((retrieve_symbol_evidence t pdf_bytes identity fresh lock_free root).0 ≡ ok r.evidence)
      × ((document : PdfDocument) × (t.open_pdf pdf_bytes ≡ some document)
          × FromTable floats t.unicode document r)
unfolding compile_symbol compile_identity
run_symbol_job-FromTable floats draw_svg t package_token pdf_bytes hint extracted_at fresh lock_free
      root exit r written h =
    let compiled = run_symbol_job-ok exit _ r written h in
    elim (Result-cases (resolve_identity t.unicode package_token t.open_pdf pdf_bytes hint)) [
      | inr (e, f) ↦ absurd (
          err≢ok (
            subst
              (λ i.
                (compile_identity floats draw_svg t pdf_bytes extracted_at fresh lock_free root i).0
                ≡ ok r)
              f compiled))
      | inl (identity, f) ↦
          let done =
            subst
              (λ i.
                (compile_identity floats draw_svg t pdf_bytes extracted_at fresh lock_free root i).0
                ≡ ok r)
              f compiled in
          let (evidence, retrieved, rest) =
            bind-ok
              (or_retrieval (retrieve_symbol_evidence t pdf_bytes identity fresh lock_free root).0)
              _ done in
          let (names, same, from_table) =
            compile_evidence-FromTable floats t.unicode draw_svg t.open_pdf pdf_bytes identity
              extracted_at evidence r rest in
          (identity, f, names, or_retrieval-ok _ retrieved ∙ ap ok (sym same), from_table)
    ]
