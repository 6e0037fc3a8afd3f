-- ===== src/Symbols/Job.antt =====
-- The symbol job in its child process: `_symbol_worker_main`, `run_symbol_job` and
-- `public_candidates` of src/dsvire/worker.py and symbol_compile.py. The parent waits for the child;
-- whether the child meets its deadline, exits with 0 and has written its result is the record Exit.
use tokito_dsvire.Prelude.{Bool, not, Option, none, some, List, map, Result, ok, err, guard, ◌>>◌}
use tokito_dsvire.Pipeline.Chars.{Text}
use tokito_dsvire.Pipeline.Pages.{
  DatasheetIdentity, RetrievalError, identity_ambiguous, backend_failure,
}
use tokito_dsvire.Symbols.Compile.{CompileError, retrieval, extraction, layout, SymbolResult}

pub record PublicCandidate : Type 0 where
  pub manufacturer : Text
  pub mpn : Text
  pub part_package : Text

-- What the child writes to its result file.
pub data JobStatus : Type 0 where
  status_ok : SymbolResult → JobStatus
  ambiguous_identity : List PublicCandidate → JobStatus
  retrieval_error worker_failed : JobStatus

abbrev pub public_candidate : DatasheetIdentity → PublicCandidate
public_candidate item = record {
  manufacturer = item.manufacturer;
  mpn = item.mpn;
  part_package = item.part_package;
}

-- Only IdentityAmbiguous has its own handler; every other RetrievalError is reported alike.
abbrev pub retrieval_status : RetrievalError → JobStatus
retrieval_status (identity_ambiguous candidates) =
    ambiguous_identity (map public_candidate candidates)
retrieval_status backend_failure = worker_failed
retrieval_status _ = retrieval_error

-- `_symbol_worker_main`, of what `compile_symbol` has come to.
unfoldable pub symbol_worker_main : Result CompileError SymbolResult → JobStatus
symbol_worker_main (ok result) = status_ok result
symbol_worker_main (err (retrieval e)) = retrieval_status e
symbol_worker_main (err (extraction e)) = retrieval_error
symbol_worker_main (err (layout e)) = worker_failed

pub data JobError : Type 0 where
  worker_timeout worker_error retrieval_failed : JobError
  ambiguous : List DatasheetIdentity → JobError

-- The end of the child: its result is none when the file cannot be read as JSON.
pub record Exit : Type 0 where
  pub timed_out : Bool
  pub exitcode_zero : Bool
  pub has_result : Bool
  pub status : Option JobStatus

abbrev pub named_identity : PublicCandidate → DatasheetIdentity
named_identity item = record {
  manufacturer = item.manufacturer;
  mpn = item.mpn;
  part_package = item.part_package;
  source_url = none;
}

unfoldable pub read_status : Option JobStatus → Result JobError SymbolResult
read_status none = err worker_error
read_status (some (status_ok result)) = ok result
read_status (some (ambiguous_identity candidates)) = err (ambiguous (map named_identity candidates))
read_status (some retrieval_error) = err retrieval_failed
read_status (some worker_failed) = err worker_error

-- `run_symbol_job`, as far as it answers.
unfoldable pub run_symbol_job : Exit → Result JobError SymbolResult
unfolding read_status
run_symbol_job exit = do
  guard (not exit.timed_out) worker_timeout
  guard exit.exitcode_zero worker_error
  guard exit.has_result worker_error
  read_status exit.status
