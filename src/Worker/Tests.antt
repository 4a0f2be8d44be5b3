-- ===== src/Worker/Tests.antt =====
-- A worker on small tables: apps/worker.
use lab_kit.Prelude.{arith, ℕ, ◌≡◌, refl, sym, none, some, [], ◌∷◌, Bool, false, true}
use lab_kit.Prelude.Int.{pos}
use lab_kit.Prelude.Text.{trim_space}
use lab_kit.Prelude.Results.{ok}
use lab_kit.Manifest.{Manifest, MetricSort}
use lab_kit.Manifest.Validate.{validate}
use lab_kit.Evaluator.{Verdict, Outcome, validate_result, parse_result}
use lab_kit.Db.{State, Submission, QuotaState, SubmissionStatus, Job, JobStatus}
use lab_kit.Db.Submissions.{
  new_submission, get_submission, update_result, update_quota_state, update_running,
}
use lab_kit.Db.Jobs.{new_job, run_job, mark_done}
use lab_kit.Jobs.{acknowledge, valid_worker_id}
use lab_kit.Jobs.Valid.{IsValid}
use lab_kit.Evaluation as Store
use lab_kit.Evaluation.{
  persist, transaction, store_result, settle_quota, new_quota_state, publish_scores,
}
use lab_kit.Worker.Paths.{clean, is_bad_entry}
use lab_kit.Worker.Workspace.{
  Node, extract_archive, stage_submission_dir, extract_entry, put, check_listing, pick_declared,
}
use lab_kit.Worker.Container.{run_evaluator, create_container_with, outcome_of}
use lab_kit.Worker.Handler.{
  Env, Faults, Times, Error, handle, load_submission, evaluate, settle_job,
}
use lab_kit.Worker.Stored.{IsHandled, DecodesOnce, handle-IsHandled}
use lab_kit.Worker.Held.{Stays}
use lab_kit.Worker.Loop.{Round, run}
use lab_kit.Worker.Progress.{run-Stays}

cleans : clean "a//b/../c/./x" ≡ "a/c/x"
unfolding clean
cleans = refl

cleans_up : clean "../x" ≡ "../x"
unfolding clean
cleans_up = refl

abbrev lab : Manifest
lab = record {
  lab = record { id = "malloc"; name = "Malloc"; tags = [] };
  submit = record { files = "mm.c" ∷ []; max_size = "1MB" };
  eval = record { image = "labkit/malloc"; timeout = pos 300 };
  quota = record { daily = pos 2; free = "build_failed" ∷ [] };
  metrics = record { id = "score"; name = "Score"; sort = MetricSort.desc; unit = "" } ∷ [];
  board = record { rank_by = "score"; pick = false; rank_all = none };
  schedule = record { visible = 100; opens = 100; closes = 9000 };
}

abbrev failed_build : Outcome ℕ
failed_build = record { verdict = Verdict.build_failed; scores = []; detail = none; message = "no" }

abbrev env : Env ℕ ℕ
env = record {
  docker = record {
    create = λ args. some " c1 ";
    cp = λ id dir. true;
    start = λ id dir t. record {
      is_canceled = false;
      is_timed_out = false;
      is_failed = false;
      stdout = 65 ∷ 10 ∷ [];
    };
  };
  limits = record { memory = ""; cpus = "" };
  decode_result = λ line. some failed_build;
  stored_manifest = λ lab. some "m";
  decode_manifest = λ raw. some lab;
  artifact = λ key. some (7 ∷ []);
  unpack = λ bytes. some (record {
    entries = record { name = "mm.c"; is_dir = false; content = some (9 ∷ []) } ∷ [];
    ends = true;
  });
  inspect_image = λ image. some "sha256:1";
  text_of = λ e. "error";
  narrow = λ x. x;
  encode = λ d. none;
}

abbrev up : Faults
up = record {
  get_submission = false;
  get_lab = false;
  queue = λ c. false;
  store = λ c. false;
  files = λ c. false;
}

abbrev times : Times
times = record { started_at = 5200; finished_at = 5290; stored_at = 5300; acknowledged_at = 5310 }

abbrev row : Submission
row = new_submission 7 5000 QuotaState.pending (record {
  user_id = 4;
  lab_id = "malloc";
  key_id = 3;
  artifact_key = "malloc/x";
  content_hash = "h";
  status = SubmissionStatus.queued;
})

abbrev job : Job
job = run_job "w1" 5200 (new_job 1 7 5000)

abbrev start : State ℕ
start = record {
  submissions = row ∷ [];
  jobs = job ∷ [];
  bonus = [];
  scores = [];
  board = [];
  nonces = [];
}

abbrev stop : State ℕ
stop = record start {
  submissions =
      record row {
        status = SubmissionStatus.done;
        verdict = some "build_failed";
        message = some "no";
        image_digest = some "sha256:1";
        started_at = some 5200;
        finished_at = some 5290;
        quota_state = QuotaState.free;
      }
      ∷ [];
  jobs = record job { status = JobStatus.done; finished_at = some 5310; updated_at = 5310 } ∷ [];
}

extracts :
    extract_archive (λ c. false) (env.unpack (7 ∷ [])) ≡ ok (("mm.c", Node.regular (9 ∷ [])) ∷ [])
unfolding extract_archive extract_entry put clean is_bad_entry
extracts = refl

stages :
    stage_submission_dir (λ c. false) (("mm.c", Node.regular (9 ∷ [])) ∷ []) ("mm.c" ∷ [])
    ≡ ok (("mm.c", Node.regular (9 ∷ [])) ∷ [])
unfolding stage_submission_dir check_listing pick_declared put
stages = refl

evaluates : evaluate env up row lab ≡ ok failed_build
unfolding evaluate extract_archive extract_entry put clean is_bad_entry run_evaluator
    create_container_with stage_submission_dir check_listing pick_declared outcome_of parse_result
    validate_result trim_space
evaluates = refl

loads : load_submission env up 7 start.submissions ≡ ok (row, lab)
unfolding load_submission get_submission validate
loads = refl

handles : handle env up times "w1" job start ≡ (ok tt, stop)
unfolding handle settle_job load_submission get_submission validate evaluate extract_archive
    extract_entry put clean is_bad_entry run_evaluator create_container_with stage_submission_dir
    check_listing pick_declared outcome_of parse_result validate_result trim_space persist
    transaction store_result settle_quota new_quota_state publish_scores update_result
    update_quota_state update_running acknowledge mark_done valid_worker_id Store.mark_running
handles = refl

start-IsValid : IsValid start.jobs
start-IsValid = ((refl, refl, refl), tt, tt)

decodes_once : DecodesOnce env up
decodes_once line o e = let same : failed_build ≡ o = ground arith in rw (sym same) tt

handle-IsHandled_example : IsHandled env up times "w1" job job start stop
handle-IsHandled_example =
    handle-IsHandled env up times "w1" job job start stop decodes_once start-IsValid refl handles

abbrev round : Round
round = record {
  locked = λ id. false;
  now = 5400;
  clock = 5400;
  claim_fails = λ c. false;
  faults = up;
  times = times;
}

-- The job that runs under `w1` is not taken up by the loop of `w2`.
run-Stays_example :
    Stays start.jobs (run env "w2" (λ e. false) (round ∷ round ∷ []) start).1.jobs
    × (((x : Error) → ◌≡◌ {A = Bool} false false)
        → (run env "w2" (λ e. false) (round ∷ round ∷ []) start).0 ≡ ok tt
        → Stays (run env "w2" (λ e. false) (round ∷ round ∷ []) start).1.jobs start.jobs)
run-Stays_example = run-Stays env "w2" (λ e. false) (round ∷ round ∷ []) start start-IsValid
