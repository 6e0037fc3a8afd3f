-- ===== src/Pipeline/Publishing.antt =====
-- What `retrieve_symbol_evidence` of src/dsvire/pipeline.py leaves of a pack at every moment of the
-- call.
use tokito_dsvire.Prelude.{
  ℕ, zero, suc, Bool, true, false, Option, none, some, List, [], ◌∷◌, ◌++◌, ◌≡◌, ◌≢◌, sym, ◌∙◌, inl,
  inr, ◌⊎◌, All, take,
}
use tokito_dsvire.Pipeline.Chars.{Text}
use tokito_dsvire.Pipeline.Bundles.{Pack}
use tokito_dsvire.Pipeline.Packs.{replaced}
use tokito_dsvire.Pipeline.Actions.{
  Root, pack_at, PackNames, Action, make_staging, write_crop, write_evidence, remove_corrupt,
  set_aside, publish, remove_staging, perform, perform_all, empty_pack, with_crop, with_evidence,
  map_pack,
}
use tokito_dsvire.Pipeline.Folders.{
  Apart, pack_at-remove_other, pack_at-put_other, pack_at-move_other, pack_at-moved, pack_at-left,
}

-- An action that touches only the folder that is staged.
abbrev pub IsStaging : Action → Type 0
IsStaging make_staging = Unit
IsStaging (write_crop crop) = Unit
IsStaging (write_evidence bundle) = Unit
IsStaging remove_corrupt = ⊥
IsStaging set_aside = ⊥
IsStaging publish = ⊥
IsStaging remove_staging = Unit

module _ (n : PackNames) where
  -- A predicate holds of the folder before the actions and after each of them.
  abbrev pub Throughout : (Root → Type 0) → List Action → Root → Type 0
  Throughout P [] root = P root
  Throughout P (a ∷ actions) root = P root × Throughout P actions (perform n a root)

  pub Throughout-take :
      (P : Root → Type 0) (actions : List Action) (root : Root) (k : ℕ)
      → Throughout P actions root
      → P (perform_all n (take k actions) root)
  unfolding perform_all
  Throughout-take P [] root zero h = h
  Throughout-take P [] root (suc k) h = h
  Throughout-take P (a ∷ actions) root zero h = h.0
  Throughout-take P (a ∷ actions) root (suc k) h =
      Throughout-take P actions (perform n a root) k h.1

  pub Throughout-end :
      (P : Root → Type 0) (actions : List Action) (root : Root)
      → Throughout P actions root
      → P (perform_all n actions root)
  unfolding perform_all
  Throughout-end P [] root h = h
  Throughout-end P (a ∷ actions) root h = Throughout-end P actions (perform n a root) h.1

  pub Throughout-append :
      (P : Root → Type 0) (xs ys : List Action) (root : Root)
      → Throughout P xs root
      → Throughout P ys (perform_all n xs root)
      → Throughout P (xs ++ ys) root
  unfolding perform_all
  Throughout-append P [] ys root h k = k
  Throughout-append P (a ∷ xs) ys root h k =
      (h.0, Throughout-append P xs ys (perform n a root) h.1 k)

  pub perform-staging :
      (name : Text) (a : Action) (root : Root)
      → name ≢ n.staging
      → IsStaging a
      → pack_at name (perform n a root) ≡ pack_at name root
  unfolding perform
  perform-staging name make_staging root ne s =
      pack_at-put_other name n.staging (some empty_pack) root ne
  perform-staging name (write_crop crop) root ne s =
      pack_at-put_other name n.staging (map_pack (with_crop crop) (pack_at n.staging root)) root ne
  perform-staging name (write_evidence b) root ne s =
      pack_at-put_other name n.staging (map_pack (with_evidence b) (pack_at n.staging root)) root ne
  perform-staging name remove_corrupt root ne s = absurd s
  perform-staging name set_aside root ne s = absurd s
  perform-staging name publish root ne s = absurd s
  perform-staging name remove_staging root ne s = pack_at-remove_other name n.staging root ne

  -- While only the staged folder is touched, another folder is as it was.
  pub Throughout-staging :
      (name : Text) (old : Option Pack) (actions : List Action) (root : Root)
      → name ≢ n.staging
      → All IsStaging actions
      → pack_at name root ≡ old
      → Throughout (λ r. pack_at name r ≡ old) actions root
  Throughout-staging name old [] root ne s h = h
  Throughout-staging name old (a ∷ actions) root ne s h = (
    h,
    Throughout-staging name old actions (perform n a root) ne s.1
        (perform-staging name a root ne s.0 ∙ h),
  )

  -- The pack is the old one, or it is gone, or it is the new one.
  abbrev pub OneOf : Option Pack → Pack → Root → Type 0
  OneOf old new r =
      (pack_at n.pack_dir r ≡ old)
      ⊎ ((pack_at n.pack_dir r ≡ none) ⊎ (pack_at n.pack_dir r ≡ some new))

  publish-new :
      (old : Option Pack) (new : Pack) (root : Root)
      → Apart n
      → pack_at n.staging root ≡ some new
      → OneOf old new root
      → Throughout (OneOf old new) (publish ∷ remove_staging ∷ []) root
        × (pack_at n.pack_dir (perform_all n (publish ∷ remove_staging ∷ []) root) ≡ some new)
  unfolding perform perform_all
  publish-new old new root apart s here =
      let moved = pack_at-moved n.staging n.pack_dir new root s in
      let kept =
        pack_at-remove_other n.pack_dir n.staging (perform n publish root) apart.published_staged
        ∙ moved in
      ((here, (inr (inr moved), inr (inr kept))), kept)

  -- The staged pack takes the place of the old one.
  pub publish-OneOf :
      (old : Option Pack) (new : Pack) (exists : Bool) (root : Root)
      → Apart n
      → pack_at n.pack_dir root ≡ old
      → pack_at n.staging root ≡ some new
      → Throughout (OneOf old new) (replaced exists ++ (publish ∷ remove_staging ∷ [])) root
        × (pack_at n.pack_dir
              (perform_all n (replaced exists ++ (publish ∷ remove_staging ∷ [])) root)
            ≡ some new)
  unfolding perform perform_all
  publish-OneOf old new true root apart h s =
      let a = perform n remove_corrupt root in
      let b = perform n set_aside a in
      let c = perform n remove_corrupt b in
      let pa = pack_at-remove_other n.pack_dir n.corrupt root apart.published_aside ∙ h in
      let sa = pack_at-remove_other n.staging n.corrupt root apart.staged_aside ∙ s in
      let pb = pack_at-left n.pack_dir n.corrupt a apart.published_aside in
      let sb =
        pack_at-move_other n.staging n.pack_dir n.corrupt a (λ e. apart.published_staged (sym e))
          apart.staged_aside
        ∙ sa in
      let pc = pack_at-remove_other n.pack_dir n.corrupt b apart.published_aside ∙ pb in
      let sc = pack_at-remove_other n.staging n.corrupt b apart.staged_aside ∙ sb in
      let (moving, moved) = publish-new old new c apart sc (inr (inl pc)) in
      ((inl h, (inl pa, (inr (inl pb), moving))), moved)
  publish-OneOf old new false root apart h s = publish-new old new root apart s (inl h)
