-- ===== src/Pipeline/Retrieving.antt =====
-- `retrieve_symbol_evidence` of src/dsvire/pipeline.py as a whole: what it leaves when it is cut
-- short, when it fails, and when it is asked again.
use tokito_dsvire.Prelude.{
  ℕ, Bool, true, Option, none, some, [], ◌≡◌, refl, sym, ◌∙◌, subst, inl, inr, take, ok, err,
  Result-cases, err≢ok, guard, ◌>>◌,
}
use tokito_dsvire.Pipeline.Chars.{Text}
use tokito_dsvire.Pipeline.Pages.{DatasheetIdentity, RetrievalError, pack_busy}
use tokito_dsvire.Pipeline.Identity.{validate}
use tokito_dsvire.Pipeline.Discovery.{Bytes, check_pdf}
use tokito_dsvire.Pipeline.Bundles.{Bundle}
use tokito_dsvire.Pipeline.Cached.{load_cached_bundle}
use tokito_dsvire.Pipeline.Packs.{
  Tools, pack_id_of, staged, input_checked, cached_or_built, retrieve,
}
use tokito_dsvire.Pipeline.Actions.{Root, pack_at, PackNames, names_of, perform_all, go_on}
use tokito_dsvire.Pipeline.Folders.{names_of-Apart}
use tokito_dsvire.Pipeline.Publishing.{Throughout-take}
use tokito_dsvire.Pipeline.Building.{staged-Built}
use tokito_dsvire.Pipeline.Moments.{Moment, Published, cached-Published, finished_pack-undone}

module _ (t : Tools) (pdf_bytes : Bytes) (identity : DatasheetIdentity) where
  module _ (fresh : Text) (lock_free : Bool) (root : Root) where
    abbrev names : PackNames
    names = names_of (pack_id_of t pdf_bytes identity) fresh

    retrieve-Published :
        Published t pdf_bytes identity names root (retrieve t pdf_bytes identity lock_free root)
    unfolding retrieve go_on perform_all
    retrieve-Published = elim (Result-cases (input_checked t pdf_bytes identity lock_free)) [
      | inr (x, e) ↦ rw e (inl refl, λ b f. absurd (err≢ok f))
      | inl (x, e) ↦ rw e (
          cached-Published t pdf_bytes identity names root _
            (names_of-Apart (pack_id_of t pdf_bytes identity) fresh) (λ b f. f))
    ]

    -- Whenever the call is cut short, after any number of its actions, the pack is as it was before
    -- the call, or it is gone, or it is complete: then the call was about to return the bundle that
    -- the check of the pack gives. A pack that is written in part is never there.
    pub retrieve_atomic :
        (k : ℕ)
        → let work = retrieve t pdf_bytes identity lock_free root in
          Moment t pdf_bytes identity
            (pack_at (pack_id_of t pdf_bytes identity) root)
            work.answer
            names
            (perform_all names (take k work.actions) root)
    retrieve_atomic k =
        let work = retrieve t pdf_bytes identity lock_free root in
        Throughout-take names
          (Moment t pdf_bytes identity (pack_at (pack_id_of t pdf_bytes identity) root) work.answer
            names)
          work.actions root k retrieve-Published.0

  input_checked-free :
      (lock_free : Bool) (x : Unit {0})
      → input_checked t pdf_bytes identity lock_free ≡ ok x
      → input_checked t pdf_bytes identity true ≡ ok tt
  unfolding input_checked
  input_checked-free lock_free x h = elim (Result-cases (validate identity)) [
    | inr (y, e) ↦
        absurd (
          err≢ok
            (subst (λ r. (r >> (check_pdf pdf_bytes >> guard lock_free pack_busy)) ≡ ok x) e h))
    | inl (y, e) ↦ elim (Result-cases (check_pdf pdf_bytes)) [
      | inr (z, f) ↦ absurd (
          err≢ok (
            subst (λ r. (r >> guard lock_free pack_busy) ≡ ok x) f
              (subst (λ r. (r >> (check_pdf pdf_bytes >> guard lock_free pack_busy)) ≡ ok x) e h)))
      | inl (z, f) ↦ rw (e, f) refl
    ]
  ]

  -- A call that has returned a bundle is served the same bundle when it is made again with the lock
  -- free, and then writes nothing.
  pub retrieve_again :
      (fresh : Text) (lock_free : Bool) (root : Root) (bundle : Bundle)
      → (retrieve t pdf_bytes identity lock_free root).answer ≡ ok bundle
      → retrieve t pdf_bytes identity true (
          perform_all
            (names_of (pack_id_of t pdf_bytes identity) fresh)
            (retrieve t pdf_bytes identity lock_free root).actions
            root)
        ≡ record { actions = []; answer = ok bundle }
  unfolding retrieve cached_or_built go_on
  retrieve_again fresh lock_free root bundle h =
      let served = (retrieve-Published fresh lock_free root).1 bundle h in
      elim (Result-cases (input_checked t pdf_bytes identity lock_free)) [
        | inr (x, e) ↦ absurd (err≢ok (refused e ∙ h))
        | inl (x, e) ↦ rw (input_checked-free lock_free x e, served) refl
      ]
    where
      refused :
          {x : RetrievalError}
          → input_checked t pdf_bytes identity lock_free ≡ err x
          → err x ≡ (retrieve t pdf_bytes identity lock_free root).answer
      refused e = rw e refl

  -- A call that raises leaves every folder as it was, when no folder has the name of its staging.
  pub retrieve_fails :
      (fresh : Text) (lock_free : Bool) (root : Root) (e : RetrievalError) (name : Text)
      → pack_at (names_of (pack_id_of t pdf_bytes identity) fresh).staging root ≡ none
      → (retrieve t pdf_bytes identity lock_free root).answer ≡ err e
      → pack_at name (
          perform_all
            (names_of (pack_id_of t pdf_bytes identity) fresh)
            (retrieve t pdf_bytes identity lock_free root).actions
            root)
        ≡ pack_at name root
  unfolding retrieve cached_or_built go_on perform_all
  retrieve_fails fresh lock_free root e name free h =
      elim (Result-cases (input_checked t pdf_bytes identity lock_free)) [
        | inr (x, f) ↦ rw f refl
        | inl (x, f) ↦ rw f (
            built
              (load_cached_bundle t.sha256 t.model_ids (pack_id_of t pdf_bytes identity)
                (pack_at (pack_id_of t pdf_bytes identity) root) identity (t.sha256 pdf_bytes))
              (raised f ∙ h))
      ]
    where
      n : PackNames
      n = names_of (pack_id_of t pdf_bytes identity) fresh

      raised :
          {x : Unit {0}}
          → input_checked t pdf_bytes identity lock_free ≡ ok x
          → (cached_or_built t pdf_bytes identity root (
              load_cached_bundle t.sha256 t.model_ids
                (pack_id_of t pdf_bytes identity)
                (pack_at (pack_id_of t pdf_bytes identity) root)
                identity
                (t.sha256 pdf_bytes))).answer
            ≡ (retrieve t pdf_bytes identity lock_free root).answer
      raised f = rw f refl

      built :
          (cached : Option Bundle)
          → (cached_or_built t pdf_bytes identity root cached).answer ≡ err e
          → pack_at name
              (perform_all n (cached_or_built t pdf_bytes identity root cached).actions root)
            ≡ pack_at name root
      built none k =
          finished_pack-undone t pdf_bytes identity n root _ (staged t pdf_bytes identity)
            (staged-Built t pdf_bytes identity n).0 free e k name
      built (some bundle) k = absurd (err≢ok (sym k))
