-- ===== src/Db/Jobs.antt =====
-- The queries on `evaluation_jobs`: packages/go/db/sqlc/jobs.sql.go.
use lab_kit.Prelude.{
  ℕ, ◌+◌, String, Option, none, some, List, [], ◌∷◌, ◌++◌, Bool, true, false, ◌&&◌, ◌||◌, not, map,
  ◌==◌, leb, ltb, if◌then◌else◌, count, any, str_eq,
}
use lab_kit.Db.Rows.{Job, JobStatus}

abbrev pub is_queued : JobStatus → Bool
is_queued JobStatus.queued = true
is_queued _ = false

abbrev pub is_running : JobStatus → Bool
is_running JobStatus.running = true
is_running _ = false

-- `column = $n` in a WHERE clause: false on NULL.
abbrev pub text_is : Option String → String → Bool
text_is none s = false
text_is (some t) s = str_eq t s

-- The columns' defaults; the row's id is fresh.
abbrev pub new_job : ℕ → ℕ → ℕ → Job
new_job id submission_id now = record {
  id = id;
  submission_id = submission_id;
  status = JobStatus.queued;
  attempts = 0;
  available_at = now;
  worker_id = none;
  last_error = none;
  started_at = none;
  finished_at = none;
  created_at = now;
  updated_at = now;
}

-- CreateEvaluationJob; `none` is the violation of UNIQUE (submission_id).
unfoldable pub create_job : ℕ → ℕ → ℕ → List Job → Option (Job × List Job)
create_job id submission_id now jobs =
    if any (λ j. j.submission_id == submission_id) jobs
    then none
    else some (new_job id submission_id now, jobs ++ new_job id submission_id now ∷ [])

-- The WHERE clause of GetNextQueuedEvaluationJob; SKIP LOCKED leaves out the rows that another
-- transaction holds.
abbrev pub is_eligible : (ℕ → Bool) → ℕ → Job → Bool
is_eligible locked now j = is_queued j.status && leb j.available_at now && not (locked j.id)

-- ORDER BY available_at, created_at
abbrev pub is_before : Job → Job → Bool
is_before j k =
    ltb j.available_at k.available_at
    || j.available_at == k.available_at && ltb j.created_at k.created_at

abbrev pub earlier : Job → Option Job → Job
earlier j none = j
earlier j (some k) = if is_before k j then k else j

-- GetNextQueuedEvaluationJob
unfoldable pub next_queued : (ℕ → Bool) → ℕ → List Job → Option Job
next_queued locked now [] = none
next_queued locked now (j ∷ jobs) =
    let rest = next_queued locked now jobs in
    if is_eligible locked now j then some (earlier j rest) else rest

abbrev pub run_job : String → ℕ → Job → Job
run_job worker now j = record j {
  status = JobStatus.running;
  attempts = j.attempts + 1;
  worker_id = some worker;
  started_at = some now;
  updated_at = now;
}

-- MarkEvaluationJobRunning
unfoldable pub mark_running : ℕ → String → ℕ → List Job → List Job
mark_running id worker now = map (λ j. if j.id == id then run_job worker now j else j)

-- The WHERE clause of MarkEvaluationJobDone and RequeueEvaluationJob.
abbrev pub is_held : ℕ → String → Job → Bool
is_held id worker j = j.id == id && is_running j.status && text_is j.worker_id worker

abbrev pub finish_job : JobStatus → Option String → ℕ → Job → Job
finish_job status last_error now j = record j {
  status = status;
  last_error = last_error;
  finished_at = some now;
  updated_at = now;
}

-- MarkEvaluationJobDone, with the number of rows affected.
unfoldable pub mark_done : ℕ → JobStatus → String → Option String → ℕ → List Job → ℕ × List Job
mark_done id status worker last_error now jobs = (
  count (is_held id worker) jobs,
  map (λ j. if is_held id worker j then finish_job status last_error now j else j) jobs,
)

abbrev pub requeue_job : ℕ → Option String → ℕ → Job → Job
requeue_job available_at last_error now j = record j {
  status = JobStatus.queued;
  available_at = available_at;
  worker_id = none;
  started_at = none;
  finished_at = none;
  last_error = last_error;
  updated_at = now;
}

-- RequeueEvaluationJob, with the number of rows affected.
unfoldable pub requeue : ℕ → String → ℕ → Option String → ℕ → List Job → ℕ × List Job
requeue id worker available_at last_error now jobs = (
  count (is_held id worker) jobs,
  map (λ j. if is_held id worker j then requeue_job available_at last_error now j else j) jobs,
)
