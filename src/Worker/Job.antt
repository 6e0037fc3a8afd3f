-- ===== src/Worker/Job.antt =====
-- One PDF job as the parent process sees it: `run_pdf_job` of src/dsvire/worker.py, and the crops
-- that `_artifacts` of src/dsvire/platform_worker.py reads for its evidence.
use tokito_dsvire.Prelude.{
  ℕ, Bool, true, false, not, ◌&&◌, Option, none, some, List, [], ◌∷◌, ◌==◌, if◌then◌else◌, Result,
  ok, err, guard, ◌>>=◌, ◌>>◌, codes,
}
use tokito_dsvire.Platform.Tables.{Json, DbError}

-- The exceptions that can reach `process_lease`. IdentityAmbiguous is a RetrievalError and
-- WorkerTimeout is a WorkerError in the source; the handlers tell them apart in this order.
pub data Exn : Type 0 where
  retrieval_error worker_timeout worker_error os_error : Exn
  integrity_error key_error value_error : Exn
  db_error : DbError → Exn

-- What the child wrote to its result file.
pub data ChildResult : Type 0 where
  invalid : ChildResult  -- the file is unreadable or no JSON
  retrieval_failed : ChildResult  -- status "retrieval_error"
  done : Json → ChildResult  -- status "ok" with an object as bundle
  other : ChildResult  -- any other status, or a bundle that is no object

pub record Child : Type 0 where
  pub timed_out : Bool
  pub exitcode_zero : Bool
  pub has_result : Bool
  pub result : ChildResult

bundle_of : ChildResult → Result Exn Json
bundle_of invalid = err worker_error
bundle_of retrieval_failed = err retrieval_error
bundle_of (done j) = ok j
bundle_of other = err worker_error

unfoldable pub run_pdf_job : Child → Result Exn Json
unfolding bundle_of
run_pdf_job c = do
  guard (not c.timed_out) worker_timeout
  guard c.exitcode_zero worker_error
  guard c.has_result worker_error
  bundle_of c.result

-- `text.removeprefix(prefix)`
pub remove_prefix : List ℕ → List ℕ → Option (List ℕ)
remove_prefix [] text = some text
remove_prefix (p ∷ ps) [] = none
remove_prefix (p ∷ ps) (c ∷ cs) = if p == c then remove_prefix ps cs else none

or_whole : Option (List ℕ) → List ℕ → List ℕ
or_whole none text = text
or_whole (some rest) text = rest

pub record Parts : Type 0 where
  pub pack : List ℕ
  pub name : List ℕ

add_char : ℕ → Option Parts → Option Parts
add_char c none = none
add_char c (some p) = some (record p { pack = c ∷ p.pack })

-- `text.split("/", 1)`, where `none` is a text without a slash.
pub split_slash : List ℕ → Option Parts
unfolding add_char
split_slash [] = none
split_slash (c ∷ cs) =
    if c == b'/' then some (record { pack = []; name = cs }) else add_char c (split_slash cs)

starts : List ℕ → List ℕ → Bool
starts [] text = true
starts (p ∷ ps) [] = false
starts (p ∷ ps) (c ∷ cs) = (p == c) && starts ps cs

safe_parts : Option Parts → Result Exn Parts
unfolding starts
safe_parts none = err worker_error
safe_parts (some p) = do guard (not (starts (codes "../") p.name)) worker_error; ok p

-- The pack and the file of a crop URI.
unfoldable pub crop_parts : List ℕ → Result Exn Parts
unfolding safe_parts split_slash or_whole remove_prefix
crop_parts uri =
    safe_parts (split_slash (or_whole (remove_prefix (codes "dsvire://pack/") uri) uri))

pub record Crop : Type 0 where
  pub name : List ℕ
  pub bytes : List ℕ

-- The loop of `_artifacts` over the regions; `read` is the file system under data_dir/packs.
unfoldable pub artifacts : (Parts → Result Exn (List ℕ)) → List (List ℕ) → Result Exn (List Crop)
unfolding crop_parts
artifacts read [] = ok []
artifacts read (uri ∷ uris) = do
  parts ← crop_parts uri
  bytes ← read parts
  rest ← artifacts read uris
  ok (record { name = parts.name; bytes = bytes } ∷ rest)
