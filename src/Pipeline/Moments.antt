-- ===== src/Pipeline/Moments.antt =====
-- A pack while `retrieve_symbol_evidence` of src/dsvire/pipeline.py is at work on it.
use tokito_dsvire.Prelude.{
  Bool, true, Option, none, some, List, [], ◌∷◌, ◌++◌, ◌≡◌, refl, sym, ap, ◌∙◌, subst, inl, inr,
  ◌⊎◌, All, All-append, Result, ok, err, Result-cases, err≢ok, ok_injective, same_text,
  same_text-eq, same_text_refl, Bool-cases,
}
use tokito_dsvire.Pipeline.Chars.{Text}
use tokito_dsvire.Pipeline.Pages.{DatasheetIdentity, RetrievalError}
use tokito_dsvire.Pipeline.Discovery.{Bytes}
use tokito_dsvire.Pipeline.Bundles.{Bundle, Pack}
use tokito_dsvire.Pipeline.Packs.{Tools, staged, finished_pack, cached_or_built}
use tokito_dsvire.Pipeline.Actions.{
  Root, pack_at, PackNames, Action, remove_staging, perform, perform_all, Work,
}
use tokito_dsvire.Pipeline.Folders.{Apart, pack_at-remove_pack}
use tokito_dsvire.Pipeline.Publishing.{
  IsStaging, Throughout, Throughout-end, Throughout-append, Throughout-staging, OneOf,
  publish-OneOf,
}
use tokito_dsvire.Pipeline.Building.{Serves, Built, staged-Built, perform_all-append}

module _ (t : Tools) (pdf_bytes : Bytes) (identity : DatasheetIdentity) where
  -- The pack at a moment of a call: as it was, or gone, or a pack that serves what the call returns.
  abbrev pub Moment : Option Pack → Result RetrievalError Bundle → PackNames → Root → Type 0
  Moment old answer n r =
      (pack_at n.pack_dir r ≡ old)
      ⊎ ((pack_at n.pack_dir r ≡ none)
          ⊎ ((bundle : Bundle) × (answer ≡ ok bundle)
              × Serves t pdf_bytes identity (pack_at n.pack_dir r) bundle))

  OneOf-Moment :
      (n : PackNames) (old : Option Pack) (new : Pack) (bundle : Bundle) (r : Root)
      → Serves t pdf_bytes identity (some new) bundle
      → OneOf n old new r
      → Moment old (ok bundle) n r
  OneOf-Moment n old new bundle r s (inl e) = inl e
  OneOf-Moment n old new bundle r s (inr (inl e)) = inr (inl e)
  OneOf-Moment n old new bundle r s (inr (inr e)) =
      inr (inr (bundle, refl, subst (λ p. Serves t pdf_bytes identity p bundle) (sym e) s))

  Throughout-map :
      (n : PackNames) (P Q : Root → Type 0)
      → ((r : Root) → P r → Q r)
      → (actions : List Action) (root : Root) → Throughout n P actions root
      → Throughout n Q actions root
  Throughout-map n P Q to [] root h = to root h
  Throughout-map n P Q to (a ∷ actions) root h =
      (to root h.0, Throughout-map n P Q to actions (perform n a root) h.1)

  abbrev pub Published : PackNames → Root → Work Bundle → Type 0
  Published n root work =
      Throughout n (Moment (pack_at n.pack_dir root) work.answer n) work.actions root
      × ((bundle : Bundle)
          → work.answer ≡ ok bundle
          → Serves t pdf_bytes identity (pack_at n.pack_dir (perform_all n work.actions root))
              bundle)

  finished_pack-Published :
      (n : PackNames) (root : Root) (exists : Bool) (work : Work Bundle)
      → Apart n
      → Built t pdf_bytes identity n work
      → Published n root (finished_pack exists work)
  unfolding finished_pack
  finished_pack-Published n root exists work apart (stage, built) =
      elim (Result-cases work.answer) [
        | inr (x, e) ↦ rw e (
          Throughout-map n _ (Moment (pack_at n.pack_dir root) (err x) n) (λ r h. inl h) _ root
              (Throughout-staging n n.pack_dir (pack_at n.pack_dir root)
                (work.actions ++ (remove_staging ∷ [])) root apart.published_staged
                (All-append IsStaging work.actions _ stage (tt, tt)) refl),
          λ bundle f. absurd (err≢ok f),
        )
        | inl (bundle, e) ↦
            let (new, written, serves) = built bundle e root in
            let after = perform_all n work.actions root in
            let staging =
              Throughout-staging n n.pack_dir (pack_at n.pack_dir root) work.actions root
                apart.published_staged stage refl in
            let kept =
              Throughout-end n (λ r. pack_at n.pack_dir r ≡ pack_at n.pack_dir root) work.actions
                root staging in
            let (moving, moved) =
              publish-OneOf n (pack_at n.pack_dir root) new exists after apart kept written in
            rw e (
              Throughout-append n (Moment (pack_at n.pack_dir root) (ok bundle) n) work.actions _
                  root (Throughout-map n _ _ (λ r h. inl h) work.actions root staging)
                  (Throughout-map n _ _
                    (λ r h. OneOf-Moment n (pack_at n.pack_dir root) new bundle r serves h) _ after
                    moving),
              λ b f.
                  let at_end =
                    ap (pack_at n.pack_dir) (perform_all-append n work.actions _ root) ∙ moved in
                  subst (λ p. Serves t pdf_bytes identity p b) (sym at_end)
                    (subst (λ x. Serves t pdf_bytes identity (some new) x) (ok_injective f) serves),
            )
      ]

  -- A call that fails takes its staging away again.
  pub finished_pack-undone :
      (n : PackNames) (root : Root) (exists : Bool) (work : Work Bundle)
      → All IsStaging work.actions
      → pack_at n.staging root ≡ none
      → (e : RetrievalError) → (finished_pack exists work).answer ≡ err e
      → (name : Text)
      → pack_at name (perform_all n (finished_pack exists work).actions root) ≡ pack_at name root
  unfolding finished_pack perform_all perform
  finished_pack-undone n root exists work stage free e h name = elim (Result-cases work.answer) [
    | inl (bundle, f) ↦ absurd (err≢ok (sym h ∙ answered f))
    | inr (x, f) ↦ elim (Bool-cases (same_text name n.staging)) [
      | inl s ↦
          let same = same_text-eq name n.staging s in
          rw (f, same, free)
            (ap (pack_at n.staging) (perform_all-append n work.actions (remove_staging ∷ []) root)
              ∙ pack_at-remove_pack n.staging (perform_all n work.actions root))
      | inr s ↦ rw f (
          Throughout-end n (λ r. pack_at name r ≡ pack_at name root) _ root
            (Throughout-staging n name (pack_at name root) (work.actions ++ (remove_staging ∷ []))
              root
              (λ q.
                let k = sym (subst (λ z. same_text name z ≡ true) q (same_text_refl name)) ∙ s in
                cc)
              (All-append IsStaging work.actions _ stage (tt, tt)) refl))
    ]
  ]
    where
      answered :
          {bundle : Bundle}
          → work.answer ≡ ok bundle
          → (finished_pack exists work).answer ≡ ok bundle
      answered f = rw f refl

  -- A call that finds its bundle in the pack writes nothing.
  pub cached-Published :
      (n : PackNames) (root : Root) (cached : Option Bundle)
      → Apart n
      → ((bundle : Bundle)
          → cached ≡ some bundle
          → Serves t pdf_bytes identity (pack_at n.pack_dir root) bundle)
      → Published n root (cached_or_built t pdf_bytes identity root cached)
  unfolding cached_or_built perform_all
  cached-Published n root none apart serves =
      finished_pack-Published n root _ (staged t pdf_bytes identity) apart
        (staged-Built t pdf_bytes identity n)
  cached-Published n root (some bundle) apart serves =
      (inl refl, λ b f. serves b (ap some (ok_injective f)))
