-- ===== src/Pipeline/Grounded.antt =====
-- What `_identity_package_candidate` of src/dsvire/pipeline.py has seen when it accepts an identity.
use tokito_dsvire.Prelude.{
  ℕ, suc, ◌+◌, sym, ap, subst, take, find, ok, true, ◌||◌, Option, none, some, List, [], ◌∷◌, ◌++◌,
  ◌≡◌, refl, ◌∙◌, arith, inl, inr, Bool-cases, Ensures, Ensures-ok, Result-cases, All, All-append,
  In, snoc-append, leb, length,
}
use tokito_dsvire.Pipeline.Chars.{Text, Unicode, join, newline}
use tokito_dsvire.Pipeline.Scores.{orderable_part}
use tokito_dsvire.Pipeline.Phrases.{contains_phrase, contains_exact_mpn}
use tokito_dsvire.Pipeline.Pages.{
  DatasheetIdentity, Block, Page, PdfDocument, Candidate, extract_blocks, max_text_chars,
}
use tokito_dsvire.Pipeline.Identity.{
  Sightings, row_of, identity_box, identity_caption, before_line, page_lines, is_associated,
  association, associate_line, see_line, see_lines, see_page, see_pages, first_association, proved,
  nothing_seen, identity_package_candidate,
}

-- The last of some lines, if there is one.
abbrev pub last_of : List Text → List Text
last_of [] = []
last_of (x ∷ []) = x ∷ []
last_of (x ∷ y ∷ ys) = last_of (y ∷ ys)

last_of_snoc : (xs : List Text) (y : Text) → last_of (xs ++ (y ∷ [])) ≡ y ∷ []
last_of_snoc [] y = refl
last_of_snoc (x ∷ []) y = refl
last_of_snoc (x ∷ z ∷ xs) y = last_of_snoc (z ∷ xs) y

In-middle :
    (front : List (Option Page)) (p : Option Page) (back : List (Option Page))
    → In p (front ++ (p ∷ back))
In-middle [] p back = inl refl
In-middle (x ∷ front) p back = inr (In-middle front p back)

length-snoc :
    (xs : List (Option Page)) (y : Option Page) → length (xs ++ (y ∷ [])) ≡ suc (length xs)
length-snoc [] y = refl
length-snoc (x ∷ xs) y = ap suc (length-snoc xs y)

module _ (u : Unicode) (identity : DatasheetIdentity) (pages : List (Option Page)) where
  -- A page of the document names the manufacturer.
  abbrev pub NamesManufacturer : Type 0
  NamesManufacturer =
      (page : Page) × In (some page) pages
      × (contains_phrase u page.raw_text identity.manufacturer ≡ true)

  -- The page of an index in the document.
  abbrev pub At : ℕ → Option Page → Type 0
  At i page =
      (front : List (Option Page)) × (back : List (Option Page)) × (pages ≡ front ++ (page ∷ back))
      × (i ≡ length front)

  -- The candidate is the evidence of a row of an orderable part on a page of the document. `line` is
  -- the first line of the row and has the exact part number, `later` follows it, and the package
  -- stands in the row. The text is that of the row with the line before and the line behind it; the
  -- box is around the first block of the page with the part number, or the head of the page.
  pub record ShowsRow (c : Candidate) : Type 0 where
    pub page : Page
    pub at : At c.page_index (some page)
    pub before : List Text
    pub line : Text
    pub later : List Text
    pub lines : page_lines page.raw_text ≡ before ++ (line ∷ later)
    pub named : contains_exact_mpn u line identity.mpn ≡ true
    pub associated : is_associated u identity line later ≡ true
    pub blocks : List Block
    pub read : extract_blocks page ≡ ok blocks
    pub text :
        c.text
        ≡ join newline
            (last_of before ++ take (length (row_of u identity line later) + 1) (line ∷ later))
    pub bbox :
        c.bbox ≡ identity_box page (find (λ b. contains_exact_mpn u b.text identity.mpn) blocks)
    pub caption : c.caption ≡ identity_caption identity
    pub marked : (c.kind ≡ orderable_part) × (c.score ≡ 1_000) × (c.verified ≡ true)

  abbrev IsSound : Sightings → Type 0
  IsSound seen =
      (seen.manufacturer_seen ≡ true → NamesManufacturer) × All ShowsRow seen.associations

  association-ShowsRow :
      (i : ℕ) (page : Page) (previous : Option Text) (line : Text) (later before : List Text)
      (blocks : List Block)
      → At i (some page)
      → before_line previous ≡ last_of before
      → page_lines page.raw_text ≡ before ++ (line ∷ later)
      → contains_exact_mpn u line identity.mpn ≡ true
      → is_associated u identity line later ≡ true
      → extract_blocks page ≡ ok blocks
      → ShowsRow (association u identity i page blocks previous line later)
  unfolding association
  association-ShowsRow i page previous line later before blocks m b e x y f = record {
    page = page;
    at = m;
    before = before;
    line = line;
    later = later;
    lines = e;
    named = x;
    associated = y;
    blocks = blocks;
    read = f;
    text =
        ap
          (λ z. join newline (z ++ take (length (row_of u identity line later) + 1) (line ∷ later)))
          b;
    bbox = refl;
    caption = refl;
    marked = (refl, refl, refl);
  }

  see_line-IsSound :
      (i : ℕ) (page : Page) (previous : Option Text) (line : Text) (later before : List Text)
      (seen : Sightings)
      → At i (some page)
      → before_line previous ≡ last_of before
      → page_lines page.raw_text ≡ before ++ (line ∷ later)
      → IsSound seen
      → Ensures IsSound (see_line u identity i page previous line later seen)
  unfolding see_line associate_line
  see_line-IsSound i page previous line later before seen m b e h =
      elim (Bool-cases (contains_exact_mpn u line identity.mpn)) [
        | inr x ↦ rw x h
        | inl x ↦ elim (Bool-cases (is_associated u identity line later)) [
          | inr y ↦ rw (x, y) (h.0, All-append ShowsRow seen.associations [] h.1 tt)
          | inl y ↦ elim (Result-cases (extract_blocks page)) [
            | inr (z, f) ↦ rw (x, y, f) tt
            | inl (blocks, f) ↦
                rw (x, y, f)
                  (
                    h.0,
                    All-append ShowsRow seen.associations _ h.1 (
                      association-ShowsRow i page previous line later before blocks m b e x y f,
                      tt,
                    ),
                  )
          ]
        ]
      ]

  see_lines-IsSound :
      (i : ℕ) (page : Page) (previous : Option Text) (lines before : List Text) (seen : Sightings)
      → At i (some page)
      → before_line previous ≡ last_of before
      → page_lines page.raw_text ≡ before ++ lines
      → IsSound seen
      → Ensures IsSound (see_lines u identity i page previous lines seen)
  unfolding see_lines
  see_lines-IsSound i page previous [] before seen m b e h = h
  see_lines-IsSound i page previous (line ∷ later) before seen m b e h =
      elim (Result-cases (see_line u identity i page previous line later seen)) [
        | inr (x, f) ↦ rw f tt
        | inl (after, f) ↦ rw f (
            see_lines-IsSound i page (some line) later (before ++ (line ∷ [])) after m
              (sym (last_of_snoc before line)) (e ∙ snoc-append before line later)
              (Ensures-ok IsSound _
                (see_line-IsSound i page previous line later before seen m b e h) f))
      ]

  see_page-IsSound :
      (i : ℕ) (page : Option Page) (seen : Sightings)
      → At i page
      → IsSound seen
      → Ensures IsSound (see_page u identity i page seen)
  unfolding see_page
  see_page-IsSound i none seen m h = tt
  see_page-IsSound i (some page) seen m h =
      elim (Bool-cases (leb (length page.raw_text) max_text_chars)) [
        | inr x ↦ rw x tt
        | inl x ↦
            rw x (
              see_lines-IsSound i page none (page_lines page.raw_text) [] _ m refl refl
                (named, h.1))
      ]
    where
      named :
          (seen.manufacturer_seen || contains_phrase u page.raw_text identity.manufacturer) ≡ true
          → NamesManufacturer
      named s = elim (Bool-cases seen.manufacturer_seen) [
        | inl t ↦ h.0 t
        | inr t ↦ (
          page,
          subst (In (some page)) (sym m.2) (In-middle m.0 (some page) m.1),
          ground (arith, s, t),
        )
      ]

  see_pages-IsSound :
      (front rest : List (Option Page)) (seen : Sightings)
      → pages ≡ front ++ rest
      → IsSound seen
      → Ensures IsSound (see_pages u identity (length front) rest seen)
  unfolding see_pages
  see_pages-IsSound front [] seen e h = h
  see_pages-IsSound front (page ∷ rest) seen e h =
      elim (Result-cases (see_page u identity (length front) page seen)) [
        | inr (x, f) ↦ rw f tt
        | inl (after, f) ↦ rw f (
            subst (λ i. Ensures IsSound (see_pages u identity i rest after))
              (length-snoc front page)
              (see_pages-IsSound (front ++ (page ∷ [])) rest after (e ∙ snoc-append front page rest)
                (Ensures-ok IsSound _
                  (see_page-IsSound (length front) page seen (front, rest, e, refl) h) f)))
      ]

  proved-Grounded :
      (seen : Sightings)
      → IsSound seen
      → Ensures (λ c. NamesManufacturer × ShowsRow c) (proved seen)
  unfolding proved first_association
  proved-Grounded seen h = elim (Bool-cases seen.manufacturer_seen) [
    | inr x ↦ rw x tt
    | inl x ↦ elim (Bool-cases seen.mpn_seen) [
      | inr y ↦ rw (x, y) tt
      | inl y ↦ rw (x, y) (first (h.0 x) seen.associations h.1)
    ]
  ]
    where
      first :
          NamesManufacturer
          → (cs : List Candidate) → All ShowsRow cs
          → Ensures (λ c. NamesManufacturer × ShowsRow c) (first_association cs)
      first m [] k = tt
      first m (c ∷ cs) k = (m, k.0)

-- An identity is accepted only when some page names its manufacturer, and some page has a row that
-- begins with a line with the exact part number and has the words of the package in order. The
-- evidence that is returned is that of such a row: the index of its page, the text of the row with the
-- line before and the line behind it, and the box around the first block of the page with the part
-- number, or else the head of the page.
pub identity_package_candidate-Grounded :
    (u : Unicode) (identity : DatasheetIdentity) (document : PdfDocument)
    → Ensures
        (λ c. NamesManufacturer u identity document.pages × ShowsRow u identity document.pages c)
        (identity_package_candidate u identity document)
unfolding identity_package_candidate
identity_package_candidate-Grounded u identity document =
    let sound =
      see_pages-IsSound u identity document.pages [] document.pages nothing_seen refl
        ((λ e. cc), tt) in
    elim (Result-cases (see_pages u identity 0 document.pages nothing_seen)) [
      | inr (x, f) ↦ rw f tt
      | inl (seen, f) ↦ rw f (
          proved-Grounded u identity document.pages seen
            (Ensures-ok (IsSound u identity document.pages) _ sound f))
    ]
