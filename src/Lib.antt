-- ===== src/Lib.antt =====
-- DS-ViRe takes a datasheet in PDF, finds its figures, and returns the evidence for the symbol of a
-- part. This library models its core and proves what makes it correct.
--
-- The parts, and how they interact:
--
-- - The job platform (src/dsvire/platform_db.py over src/dsvire/sql/001_platform.sql) is the
--   authority on jobs. Clients submit, cancel and read; workers lease a job, keep the lease alive by
--   heartbeats, and finish it; each step logs an event and puts a message in the outbox, which
--   publishers claim and acknowledge.
-- - The worker (src/dsvire/platform_worker.py) holds a lease while it downloads the document, runs
--   the parser in a child process (src/dsvire/worker.py) and uploads the artifacts.
-- - The pipeline (src/dsvire/pipeline.py) searches the text of a PDF for a pinout, a pin table and the
--   identity of a part, and keeps the evidence in a pack that later calls are served from.
-- - The symbol (src/dsvire/symbol_compile.py with symbol_extract.py and symbol_layout.py) is made from
--   the evidence: the rows of the pin table are parsed to pins, and laid out around a body. It runs in
--   a child process of src/dsvire/worker.py.
-- - The object store (src/dsvire/object_store.py) keeps documents and artifacts under keys that
--   name their tenant and digest, and checks what it reads.
-- - Figure fusion (src/dsvire/dsff.py) finds the images that a page draws and matches them to the
--   boxes of a layout detector.
-- - The retrieval cascade (src/dsvire/hybrid_query.py) ranks the regions of a pack for a query.
-- - The policy boundary (src/dsvire/visual_metrics.py) freezes a threshold on calibration cases and
--   judges it by held-out cases.
--
-- How the files correspond to the code:
--
-- - Platform/Tables: the rows of the tables, one record for each. The tables are the fields of Db,
--   lists of rows in the order of insertion. A uuid is a number, and a time a number of microseconds.
-- - Platform/Queue: `lease_next`, `heartbeat`, `finish` and `_event`. Platform/Submit: `submit`,
--   `request_cancel`, `get_job` and `events`. Platform/Delivery: `claim_outbox` and
--   `acknowledge_outbox`. Platform/Access: `ensure_tenant`, `issue_api_key` and `authenticate`. Each
--   is a function of the database and of the time of its transaction, and returns its answer with
--   the new database, or raises. A statement with a WHERE clause is `find` and `update` of
--   Prelude/Lists by the clause, and CHECK constraints, keys and the trigger that stamps a row stand
--   in the operations that meet them. SKIP LOCKED is an argument, the rows that are locked.
-- - Platform/Steps: one committed transaction is a step, and Reach is any sequence of them, by any
--   number of clients, workers and publishers. The other files of Platform are named for what they
--   prove: Unique, Checks, Log and Journal keep the invariant of Steps; Evolution, Lifecycle,
--   Candidate, Leasing, Fencing, Stranded, Submission, Documents, Submitted, Idempotency,
--   Stored, Conflicts, Claims, Outboxes, Replay and AccessLaws follow.
-- - Worker/Job: `run_pdf_job` as its parent sees it, and `_artifacts`. Worker/Lease: `process_lease`
--   with its handlers. What it meets outside is the record World: the store, the child, the bundler,
--   the clock, and what other transactions do to the database between its own. Worker/Verdicts,
--   Settling and Reports: what becomes of the job.
-- - Pipeline/Chars: texts as lists of code points. Pipeline/Phrases: the tests on text. Pipeline/Scores:
--   `score_candidate`. Pipeline/Pages: what a page holds, and `_extract_blocks`. Pipeline/Regions:
--   `_best_candidates` and its parts. Pipeline/Identity: `_identity_package_candidate`.
--   Pipeline/Discovery: `resolve_identity`. Pipeline/Bundles: the bundle of a pack and `_artifact_id`.
--   Pipeline/Cached: `_load_cached_bundle`. Pipeline/Crops: `_render_crop`. Pipeline/Packs:
--   `retrieve_symbol_evidence`, as the list of what it does to the folder of packs, where
--   Pipeline/Actions says what each does. Mpns, Best, Strengths, Boxes, Grounded,
--   Spelling and Resolving prove what the search finds; Folders, Publishing, Staging, Serving,
--   Building, Moments and Retrieving what becomes of the packs.
-- - Symbols/Electrical: `_electrical` and `_group`. Symbols/Lines: the regular expressions of a row
--   and of a header. Symbols/Table: `parse_pin_table`. Symbols/Spec:
--   `extract_symbol_spec`. Symbols/Sides: `pin_side` and `_sort_key`. Symbols/Layout: `layout_pins`.
--   Symbols/Compile: `compile_symbol`. Symbols/Job: `run_symbol_job` and its child.
--   Parsing, Ordering, Placing, Spacing and Compiling prove what they do.
-- - Storage/Keys: `object_key` and `_path`. Storage/Local: the store on a file system, a list of
--   paths with their contents. Storage/Segments, Paths and Integrity: their laws.
-- - Dsff/Token: `_tokenize`, Dsff/Affine: matrices, Dsff/Content: the loop of `extract_xobjects` over
--   the tokens of a page, Dsff/Fusion: `associate`. Dsff/Splits, Rounds and Tokens prove what the
--   tokenizer does, Dsff/Groups is about `q` and `Q`, Dsff/Concatenations about `cm`, and Dsff/Used, Matching and Fused about `associate`.
-- - Retrieval/Ranking: `_rank`. Retrieval/Cascade: `hybrid_query` from its bounds to its hits.
--   Retrieval/Sorting, Rescoring and Hits: their laws.
-- - Visual/Cases: predictions, their validation and counts. Visual/Policy: `freeze_policy` and
--   `evaluate_policy`. Visual/Leaks, Thresholds, Admitting, Freezing and Judging: their laws.
-- - Tests: runs on concrete inputs, and each theorem at an input that meets its hypotheses.
--
-- Bounds and fuel: `tokenize` takes fuel, one unit for each turn of the loop. A turn that does not
-- leave the loop takes at least one byte, unless it stands at a `)` where it stays for ever, so a
-- unit for each byte and one more are enough. So does the loop of `_contains_exact_mpn`, where each
-- turn starts further to the right, so a unit for each character and one more are enough. Floats are
-- counted in a unit that divides them all, so comparisons are exact; their quotients, overlaps and
-- rounding are parameters. The floats of a symbol's layout are a type with its operators, which are
-- parameters altogether.
--
-- Not modelled: the pool of connections and the text of SQL, migration, `run_forever`, the limits of
-- the child process and its scratch folder, S3 and its signatures, the reading of PDF structure by
-- PDFium and pypdf, the tables of Unicode, the matches of the regular expression PACKAGE_TOKEN, the
-- drawing of crops and symbols, the scores of BM25, dense vectors and MaxSim and the score metrics of
-- `evaluate_policy` (sums of floats), the bundler, and the rest of the program: the HTTP services,
-- the encoders and their adapters, the registries and their reviews, and the scripts.
mod Prelude
pub mod Platform
pub mod Pipeline
pub mod Symbols
pub mod Worker
pub mod Dsff
pub mod Visual
pub mod Storage
pub mod Retrieval
mod Tests
