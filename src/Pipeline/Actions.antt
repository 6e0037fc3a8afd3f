-- ===== src/Pipeline/Actions.antt =====
-- The folder of packs, and what `retrieve_symbol_evidence` of src/dsvire/pipeline.py does to it:
-- the folder is a list of packs under their names, and the call is a list of actions in order, so
-- that it can be cut short anywhere. What the folder `.locks` holds does not count.
use tokito_dsvire.Prelude.{
  Bool, Option, none, some, List, [], ◌∷◌, ◌++◌, if◌then◌else◌, Result, ok, err, codes, same_text,
}
use tokito_dsvire.Pipeline.Chars.{Text}
use tokito_dsvire.Pipeline.Pages.{RetrievalError}
use tokito_dsvire.Pipeline.Bundles.{Bundle, CropFile, Pack}

pub record Entry : Type 0 where
  pub name : Text
  pub pack : Pack

abbrev pub Root : Type 0
Root = List Entry

abbrev pub is_named : Text → Entry → Bool
is_named name e = same_text e.name name

unfoldable pub pack_at : Text → Root → Option Pack
unfolding same_text
pack_at name [] = none
pack_at name (e ∷ es) = if is_named name e then some e.pack else pack_at name es

-- `shutil.rmtree`, of a folder that may be missing.
unfoldable pub remove_pack : Text → Root → Root
unfolding same_text
remove_pack name [] = []
remove_pack name (e ∷ es) = if is_named name e then remove_pack name es else e ∷ remove_pack name es

unfoldable pub put_pack : Text → Option Pack → Root → Root
unfolding remove_pack
put_pack name none root = root
put_pack name (some pack) root = record { name = name; pack = pack } ∷ remove_pack name root

-- `os.replace(source, target)`
unfoldable pub move_pack : Text → Text → Root → Root
unfolding pack_at remove_pack put_pack
move_pack source target root = put_pack target (pack_at source root) (remove_pack source root)

-- The names of the folders of one call.
pub record PackNames : Type 0 where
  pub pack_dir : Text
  pub staging : Text
  pub corrupt : Text

abbrev pub names_of : Text → Text → PackNames
names_of pack_id fresh = record {
  pack_dir = pack_id;
  staging = b'.' ∷ (pack_id ++ (b'-' ∷ fresh));
  corrupt = b'.' ∷ (pack_id ++ codes ".corrupt");
}

pub data Action : Type 0 where
  make_staging : Action
  write_crop : CropFile → Action
  write_evidence : Bundle → Action
  remove_corrupt : Action
  set_aside : Action
  publish : Action
  remove_staging : Action

abbrev pub empty_pack : Pack
empty_pack = record { evidence = none; crops = [] }

abbrev pub with_crop : CropFile → Pack → Pack
with_crop crop pack = record { evidence = pack.evidence; crops = pack.crops ++ (crop ∷ []) }

abbrev pub with_evidence : Bundle → Pack → Pack
with_evidence bundle pack = record { evidence = some bundle; crops = pack.crops }

abbrev pub map_pack : (Pack → Pack) → Option Pack → Option Pack
map_pack f none = none
map_pack f (some pack) = some (f pack)

unfoldable pub perform : PackNames → Action → Root → Root
unfolding pack_at remove_pack put_pack move_pack
perform n make_staging root = put_pack n.staging (some empty_pack) root
perform n (write_crop crop) root =
    put_pack n.staging (map_pack (with_crop crop) (pack_at n.staging root)) root
perform n (write_evidence bundle) root =
    put_pack n.staging (map_pack (with_evidence bundle) (pack_at n.staging root)) root
perform n remove_corrupt root = remove_pack n.corrupt root
perform n set_aside root = move_pack n.pack_dir n.corrupt root
perform n publish root = move_pack n.staging n.pack_dir root
perform n remove_staging root = remove_pack n.staging root

unfoldable pub perform_all : PackNames → List Action → Root → Root
unfolding perform
perform_all n [] root = root
perform_all n (a ∷ actions) root = perform_all n actions (perform n a root)

-- What a part of the call has done, and what it comes to.
pub record Work {ℓ} (A : Type ℓ) : Type ℓ where
  pub actions : List Action
  pub answer : Result RetrievalError A

unfoldable pub go_on {ℓ κ} :
    {A : Type ℓ} {B : Type κ} → List Action → Result RetrievalError A → (A → Work B) → Work B
go_on done (err e) next = record { actions = done; answer = err e }
go_on done (ok a) next = record { actions = done ++ (next a).actions; answer = (next a).answer }
