-- ===== src/Symbols/Parsing.antt =====
-- What `parse_pin_table` of src/dsvire/symbol_extract.py makes of the rows of a table.
use tokito_dsvire.Prelude.{
  ◌≤◌, true, false, not, ◌||◌, Option, none, some, List, [], ◌∷◌, ◌≡◌, ◌≢◌, ◌↔◌, refl, sym, ap, ◌∙◌,
  subst, arith, inl, inr, Bool-cases, Option-cases, map, length, leb, All, All-map, Distinct, ok,
  ok_injective, bind-ok, guard, guard-ok, same_text, same_text-eq, same_text_refl, codes,
}
use tokito_dsvire.Pipeline.Chars.{Text, Unicode, any, split_lines}
use tokito_dsvire.Symbols.Table.{
  Pin, pin_of, min_confidence, min_pins, add_row, parse_row, parse_lines, parse_pin_table,
  too_few_rows, low_confidence, duplicate_number,
}
use tokito_dsvire.Symbols.Lines.{TableRow, row_of_line}
use tokito_dsvire.Symbols.Electrical.{electrical_of}

abbrev pub option_rows : Option TableRow → List TableRow → List TableRow
option_rows none rows = rows
option_rows (some row) rows = row ∷ rows

-- The rows that the lines of a table hold, in their order.
abbrev pub rows_in : Unicode → List Text → List TableRow
rows_in u [] = []
rows_in u (line ∷ lines) = option_rows (row_of_line u line) (rows_in u lines)

-- No number stands twice, or among those that are seen.
abbrev New : List Text → List TableRow → Type 0
New seen [] = Unit
New seen (row ∷ rows) =
    (any (λ n. same_text row.number n) seen ≡ false) × New (row.number ∷ seen) rows

module _ (u : Unicode) where
  is-confident : (row : TableRow) → leb min_confidence (pin_of u row).confidence ≡ true
  unfolding pin_of
  is-confident row =
      elim (Bool-cases
        (same_text (electrical_of u (u.upper row.name) row.kind) (codes "unspecified"))) [
          | inl e ↦ rw e refl
          | inr e ↦ rw e refl
        ]

  parse_lines-New :
      (seen lines : List Text) (pins : List Pin)
      → parse_lines u seen lines ≡ ok pins
      → (pins ≡ map (pin_of u) (rows_in u lines)) × New seen (rows_in u lines)
  unfolding parse_lines parse_row add_row
  parse_lines-New seen [] pins h = (sym (ok_injective h), tt)
  parse_lines-New seen (line ∷ lines) pins h = elim (Option-cases (row_of_line u line)) [
    | inl e ↦ rw e (
        parse_lines-New seen lines pins
          (subst (λ o. parse_row u seen o (λ numbers. parse_lines u numbers lines) ≡ ok pins) e h))
    | inr (row, e) ↦
        let added =
          subst (λ o. parse_row u seen o (λ numbers. parse_lines u numbers lines) ≡ ok pins) e h in
        let (x, fresh, checked) =
          bind-ok (guard (not (any (λ n. same_text row.number n) seen)) duplicate_number) _ added in
        let (y, sure, parsed) =
          bind-ok (guard (leb min_confidence (pin_of u row).confidence) low_confidence) _ checked in
        let (rest, going, made) = bind-ok (parse_lines u (row.number ∷ seen) lines) _ parsed in
        let (same, news) = parse_lines-New (row.number ∷ seen) lines rest going in
        let is_fresh : any (λ n. same_text row.number n) seen ≡ false =
          ground (arith, guard-ok _ _ fresh) in
        rw e (sym (ok_injective made) ∙ ap (λ l. pin_of u row ∷ l) same, (is_fresh, news))
  ]

  New-parse_lines :
      (seen lines : List Text)
      → New seen (rows_in u lines)
      → parse_lines u seen lines ≡ ok (map (pin_of u) (rows_in u lines))
  unfolding parse_lines parse_row add_row
  New-parse_lines seen [] h = refl
  New-parse_lines seen (line ∷ lines) h = elim (Option-cases (row_of_line u line)) [
    | inl e ↦
        rw e
          (New-parse_lines seen lines (subst (λ o. New seen (option_rows o (rows_in u lines))) e h))
    | inr (row, e) ↦
        let news = subst (λ o. New seen (option_rows o (rows_in u lines))) e h in
        rw (e, news.0, is-confident row, New-parse_lines (row.number ∷ seen) lines news.1) refl
  ]

  New-Distinct :
      (seen : List Text) (rows : List TableRow)
      → New seen rows
      → Distinct (map (λ r. r.number) rows)
        × All (λ n. any (λ s. same_text n s) seen ≡ false) (map (λ r. r.number) rows)
  New-Distinct seen [] h = (tt, tt)
  New-Distinct seen (row ∷ rows) h =
      let (distinct, fresh) = New-Distinct (row.number ∷ seen) rows h.1 in
      (
        (
          All-map _ (λ n. row.number ≢ n) _ (λ n k e. not_same row.number n seen k e) fresh,
          distinct,
        ),
        (
          h.0,
          All-map _ (λ n. any (λ s. same_text n s) seen ≡ false) _ (λ n k. ground (arith, k)) fresh,
        ),
      )
    where
      not_same :
          (a n : Text) (seen : List Text)
          → (same_text n a || any (λ s. same_text n s) seen) ≡ false
          → a ≢ n
      not_same a n seen k e =
          let t : same_text n a ≡ true =
            subst (λ x. same_text n x ≡ true) (sym e) (same_text_refl n) in
          ground (arith, t, k)

  Distinct-New :
      (seen : List Text) (rows : List TableRow)
      → Distinct (map (λ r. r.number) rows)
      → All (λ n. any (λ s. same_text n s) seen ≡ false) (map (λ r. r.number) rows)
      → New seen rows
  Distinct-New seen [] d h = tt
  Distinct-New seen (row ∷ rows) d h =
      (h.0, Distinct-New (row.number ∷ seen) rows d.1 (both (map (λ r. r.number) rows) d.0 h.1))
    where
      other : (a n : Text) → a ≢ n → same_text n a ≡ false
      other a n ne = elim (Bool-cases (same_text n a)) [
        | inl t ↦ absurd (ne (sym (same_text-eq n a t)))
        | inr t ↦ t
      ]

      both :
          (ns : List Text)
          → All (λ n. row.number ≢ n) ns
          → All (λ n. any (λ s. same_text n s) seen ≡ false) ns
          → All (λ n. (same_text n row.number || any (λ s. same_text n s) seen) ≡ false) ns
      both [] a b = tt
      both (n ∷ ns) a b = (rw (other row.number n a.0, b.0) refl, both ns a.1 b.1)

  -- No number is seen at the start.
  none_seen : (ns : List Text) → All (λ n. any (λ s. same_text n s) [] ≡ false) ns
  none_seen [] = tt
  none_seen (n ∷ ns) = (refl, none_seen ns)

-- `parse_pin_table` returns pins exactly when the rows of the table have distinct numbers and are
-- four at least, and the pins are then those of the rows, all of them and in their order: no pin is
-- invented, lost or doubled, and the test of the confidence refuses none.
pub parse_pin_table-Rows :
    (u : Unicode) (table_text : Text) (pins : List Pin)
    → (parse_pin_table u table_text ≡ ok pins) ↔ (
        (pins ≡ map (pin_of u) (rows_in u (split_lines table_text)))
        × Distinct (map (λ r. r.number) (rows_in u (split_lines table_text)))
        × (4 ≤ length pins))
unfolding parse_pin_table
parse_pin_table-Rows u table_text pins = (to, from)
  where
    rows : List TableRow
    rows = rows_in u (split_lines table_text)

    to :
        parse_pin_table u table_text ≡ ok pins
        → (pins ≡ map (pin_of u) rows) × Distinct (map (λ r. r.number) rows) × (4 ≤ length pins)
    to h =
        let (found, parsed, counted) = bind-ok (parse_lines u [] (split_lines table_text)) _ h in
        let (x, enough, made) =
          bind-ok (guard (leb min_pins (length found)) too_few_rows) _ counted in
        let (same, news) = parse_lines-New u [] (split_lines table_text) found parsed in
        let (distinct, fresh) = New-Distinct u [] rows news in
        let same_pins : found ≡ pins = ok_injective made in
        let four : 4 ≤ length found = ground (arith, guard-ok _ _ enough) in
        (sym same_pins ∙ same, distinct, subst (λ l. 4 ≤ length l) same_pins four)

    from :
        (pins ≡ map (pin_of u) rows) × Distinct (map (λ r. r.number) rows) × (4 ≤ length pins)
        → parse_pin_table u table_text ≡ ok pins
    from (same, distinct, four) =
        let news = Distinct-New u [] rows distinct (none_seen u (map (λ r. r.number) rows)) in
        let enough : leb min_pins (length pins) ≡ true = ground (arith, four) in
        rw (New-parse_lines u [] (split_lines table_text) news, ← same, enough) refl
