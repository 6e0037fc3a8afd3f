-- ===== src/Tests/Worker.antt =====
-- Witnesses for the theorems on src/dsvire/platform_worker.py.
use tokito_dsvire.Prelude.{
  ◌≡◌, ◌≢◌, refl, String, true, false, Option, some, [], ◌∷◌, ok, err, In, arith, eq_iff, codes,
}
use tokito_dsvire.Platform.Tables.{num, null, Job, Lease, object1, str, job_not_found}
use tokito_dsvire.Worker.Job.{
  db_error, Child, done, run_pdf_job, crop_parts, worker_error, worker_timeout,
}
use tokito_dsvire.Worker.Lease.{World, raised, process_lease}
use tokito_dsvire.Worker.Verdicts.{process_lease_lost}
use tokito_dsvire.Worker.Reports.{process_lease_settles}
use tokito_dsvire.Worker.Settling.{Settled, attempted}
use tokito_dsvire.Tests.Sample.{pdf, leased, leased-IsValid, job, job-In}

abbrev good_child : Child
good_child = record {
  timed_out = false;
  exitcode_zero = true;
  has_result = true;
  result = done null;
}

abbrev world : String → World
world owner = record {
  owner = owner;
  lease_seconds = 60;
  started_at = 300;
  extracting_at = 400;
  finished_at = 500;
  before_extracting = λ db. db;
  before_finish = λ db. db;
  read_verified = λ r. ok (1 ∷ []);
  identity = λ r. ok r;
  child = λ p i. good_child;
  crop_uris = λ e. codes "dsvire://pack/p/a.png" ∷ [];
  read_crop = λ p. ok (2 ∷ []);
  build_bundle = λ f. ok (3 ∷ []);
  put_bundle = λ b. ok (num 1);
  put_evidence = λ b. ok (num 2);
}

abbrev lease : Lease
lease = record {
  job_id = 1;
  tenant_id = 7;
  document = pdf;
  request = object1 "mpn" (str "X1");
  attempt = 1;
  cancel_requested = false;
}

process_lease_settles_example :
    (j' : Job) × In j' (process_lease (world "w1") lease leased).1.jobs
    × (j'.job_id ≡ 1)
    × Settled
        (world "w1")
        (attempted (world "w1") lease)
        job
        j'
        (process_lease (world "w1") lease leased).0
process_lease_settles_example =
    process_lease_settles (world "w1") lease (λ db. refl) (λ db. refl) leased job
      (record {
        valid = leased-IsValid;
        row = job-In;
        named = refl;
        runs = refl;
        mine = refl;
        wanted = refl;
      })
      refl (omega arith)

process_lease_lost_example :
    process_lease (world "w2") lease leased ≡ (raised (db_error job_not_found), leased)
process_lease_lost_example =
    process_lease_lost (world "w2") lease leased job leased-IsValid job-In refl not_w2 refl
  where
    not_w2 : ◌≢◌ {A = Option String} (some "w1") (some "w2")
    not_w2 e = ground (arith, eq_iff "w1" "w2")

slow_child : run_pdf_job (record good_child { timed_out = true }) ≡ err worker_timeout
unfolding run_pdf_job
slow_child = refl

unsafe_crop : crop_parts (codes "dsvire://pack/p/../x") ≡ err worker_error
unfolding crop_parts
unsafe_crop = refl

-- Only a leading `../` is refused.
deep_crop :
    crop_parts (codes "dsvire://pack/p/a/../../x")
    ≡ ok (record { pack = codes "p"; name = codes "a/../../x" })
unfolding crop_parts
deep_crop = refl
