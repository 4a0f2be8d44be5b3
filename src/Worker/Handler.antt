-- ===== src/Worker/Handler.antt =====
-- The handling of one job: apps/worker/cmd/labkit-worker/runtime_handler.go. The tables are those of
-- the database; the labs' rows, the files of the artifact store, JSON, tar and docker are the
-- record `Env`.
use lab_kit.Prelude.{ℕ, String, Option, none, some, List, [], ◌∷◌, Bool, not, if◌then◌else◌}
use lab_kit.Prelude.Text.{is_empty, trim_space}
use lab_kit.Prelude.Results.{Result, ok, err, ◌>>=◌, ◌>>◌, guard}
use lab_kit.Manifest.{Manifest}
use lab_kit.Manifest.Validate.{Problem, validate}
use lab_kit.Evaluator.{Outcome, Detail, Verdict}
use lab_kit.Db.{State, Submission, Job, JobStatus}
use lab_kit.Db.Submissions.{get_submission}
use lab_kit.Jobs as Queue
use lab_kit.Jobs.{acknowledge}
use lab_kit.Evaluation as Store
use lab_kit.Evaluation.{PersistInput, mark_running, persist}
use lab_kit.Worker.Workspace as Files
use lab_kit.Worker.Workspace.{FileError, Archive, Node, extract_archive}
use lab_kit.Worker.Container.{Docker, Limits, RunError, run_evaluator}

-- The errors of evaluate.
pub data EvalError : Type 0 where
  read_artifact : EvalError
  workspace extract : FileError → EvalError
  run : RunError → EvalError

pub record Env (F V : Type 0) : Type 0 where
  pub docker : Docker
  pub limits : Limits
  pub decode_result : List ℕ → Option (Outcome F)
  pub stored_manifest : String → Option String
  pub decode_manifest : String → Option Manifest
  pub artifact : String → Option (List ℕ)
  pub unpack : List ℕ → Option Archive
  pub inspect_image : String → Option String
  pub text_of : EvalError → String
  pub narrow : F → V
  pub encode : Detail → Option String

-- Which calls fail while a job is handled.
pub record Faults : Type 0 where
  pub get_submission : Bool
  pub get_lab : Bool
  pub queue : Queue.Call → Bool
  pub store : Store.Call → Bool
  pub files : Files.Call → Bool

-- The worker's clock before and after the evaluation, and NOW() of the two last statements.
pub record Times : Type 0 where
  pub started_at : ℕ
  pub finished_at : ℕ
  pub stored_at : ℕ
  pub acknowledged_at : ℕ

pub data LoadError : Type 0 where
  no_submission no_lab undecodable : LoadError
  invalid_manifest : List Problem → LoadError

pub data Error : Type 0 where
  load : LoadError → Error
  store : Store.Error → Error
  queue : Queue.Error → Error

abbrev pub found {ℓ} : {A : Type ℓ} → LoadError → Option A → Result LoadError A
found e none = err e
found e (some a) = ok a

abbrev pub valid_manifest : Manifest → List Problem → Result LoadError Manifest
valid_manifest m [] = ok m
valid_manifest m (p ∷ problems) = err (invalid_manifest (p ∷ problems))

abbrev pub in_files :
    {A : Type 0} → (FileError → EvalError) → Result FileError A → Result EvalError A
in_files wrap (err e) = err (wrap e)
in_files wrap (ok a) = ok a

abbrev pub in_run : {A : Type 0} → Result RunError A → Result EvalError A
in_run (err e) = err (run e)
in_run (ok a) = ok a

module _ {F V : Type 0} (env : Env F V) (faults : Faults) where
  -- loadSubmission
  unfoldable pub load_submission : ℕ → List Submission → Result LoadError (Submission × Manifest)
  load_submission id rows = do
    guard (not faults.get_submission) no_submission
    s ← found no_submission (get_submission id rows)
    guard (not faults.get_lab) no_lab
    raw ← found no_lab (env.stored_manifest s.lab_id)
    decoded ← found undecodable (env.decode_manifest raw)
    m ← valid_manifest decoded (validate decoded)
    ok (s, m)

  -- evaluate
  unfoldable pub evaluate : Submission → Manifest → Result EvalError (Outcome F)
  evaluate s m = elim (env.artifact s.artifact_key) [
    | none ↦ err read_artifact
    | some archive ↦ do
      in_files workspace (Files.call faults.files Files.Call.create_workspace)
      in_files workspace (Files.call faults.files Files.Call.make_dir)
      dir ← in_files extract (extract_archive faults.files (env.unpack archive))
      in_run (run_evaluator env.decode_result env.docker env.limits faults.files m dir)
  ]

  -- resolveImageDigest; its error is not looked at.
  abbrev pub image_digest_of : String → String
  image_digest_of image =
      if is_empty (trim_space image)
      then ""
      else (elim (env.inspect_image image) [ none ↦ "" | some digest ↦ trim_space digest ])

  -- The result that is stored: the evaluator's, or the verdict error with the error's text.
  abbrev pub outcome_or_error : Result EvalError (Outcome F) → Outcome F
  outcome_or_error (ok o) = o
  outcome_or_error (err e) = record {
    verdict = Verdict.error;
    scores = [];
    detail = none;
    message = env.text_of e;
  }

  abbrev pub persist_input : Times → Submission → Manifest → PersistInput F
  persist_input t s m = record {
    manifest = some m;
    submission = s;
    result = outcome_or_error (evaluate s m);
    image_digest = image_digest_of m.eval.image;
    started_at = t.started_at;
    finished_at = t.finished_at;
  }

  abbrev pub job_status : Verdict → JobStatus
  job_status Verdict.error = JobStatus.error
  job_status _ = JobStatus.done

  abbrev pub last_error_of : Outcome F → String
  last_error_of o = elim (job_status o.verdict) [ JobStatus.error ↦ o.message | _ ↦ "" ]

  abbrev pub acknowledged :
      State V → Result Queue.Error (Unit {0}) × List Job → Result Error (Unit {0}) × State V
  acknowledged st (err e, jobs) = (err (queue e), record st { jobs = jobs })
  acknowledged st (ok done, jobs) = (ok tt, record st { jobs = jobs })

  -- The acknowledgement, on the table of jobs.
  unfoldable pub settle_job :
      Times → String → Job → Outcome F → State V → Result Error (Unit {0}) × State V
  settle_job t worker job o st = acknowledged st (
      acknowledge faults.queue t.acknowledged_at job.id worker (job_status o.verdict)
        (last_error_of o) st.jobs)

  abbrev pub persisted :
      Times
      → String
      → Job
      → Outcome F
      → Result Store.Error (Unit {0}) × State V
      → Result Error (Unit {0}) × State V
  persisted t worker job o (err e, st) = (err (store e), st)
  persisted t worker job o (ok done, st) = settle_job t worker job o st

  abbrev pub marked :
      Times
      → String
      → Job
      → PersistInput F
      → Result Store.Error (Unit {0}) × State V
      → Result Error (Unit {0}) × State V
  marked t worker job i (err e, st) = (err (store e), st)
  marked t worker job i (ok done, st) =
      persisted t worker job i.result (persist env.narrow env.encode faults.store t.stored_at i st)

  abbrev pub loaded :
      Times
      → String
      → Job
      → State V
      → Result LoadError (Submission × Manifest)
      → Result Error (Unit {0}) × State V
  loaded t worker job st (err e) = (err (load e), st)
  loaded t worker job st (ok (s, m)) =
      marked t worker job (persist_input t s m)
        (mark_running env.narrow env.encode faults.store s.id t.started_at st)

  -- runtimeHandler.Handle
  unfoldable pub handle : Times → String → Job → State V → Result Error (Unit {0}) × State V
  handle t worker job st = loaded t worker job st (load_submission job.submission_id st.submissions)
