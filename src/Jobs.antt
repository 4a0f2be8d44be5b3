-- ===== src/Jobs.antt =====
-- The job queue: packages/go/jobs/claim.go and queue.go. A queue is the table of jobs; every
-- operation returns its result and the table that is committed. `fails` says which calls of the
-- driver return an error, and `locked` which rows another transaction holds.
pub mod Claim
pub mod Valid
pub mod Lifecycle
pub mod Ownership
pub mod Holder
pub mod Refine
pub mod Moves
mod Tests
use lab_kit.Prelude.{
  ℕ, suc, ◌+◌, String, Option, none, some, List, Bool, true, false, ◌≡◌, ◌==◌, if◌then◌else◌, not,
}
use lab_kit.Prelude.Results.{Result, ok, err}
use lab_kit.Prelude.Text.{is_empty, trim_space}
use lab_kit.Db.{Job, JobStatus}
use lab_kit.Db.Jobs.{create_job, next_queued, mark_running, mark_done, requeue, run_job}

-- The driver's calls that may fail.
pub data Call : Type 0 where
  begin select_next set_running commit set_terminal set_queued insert : Call

pub data Error : Type 0 where
  invalid_worker_id invalid_terminal_status transition_not_allowed unique_violation : Error
  driver : Call → Error

-- validateWorkerID
unfoldable pub valid_worker_id : String → Bool
unfolding trim_space
valid_worker_id worker = not (is_empty (trim_space worker))

-- isTerminalStatus
abbrev pub is_terminal : JobStatus → Bool
is_terminal JobStatus.done = true
is_terminal JobStatus.error = true
is_terminal _ = false

-- textValue: the empty text is NULL.
abbrev pub text_value : String → Option String
text_value s = if is_empty s then none else some s

module _ (fails : Call → Bool) where
  -- Queue.Enqueue
  unfoldable pub enqueue : ℕ → ℕ → ℕ → List Job → Result Error Job × List Job
  unfolding create_job
  enqueue id submission_id now jobs =
      if fails Call.insert
      then (err (driver Call.insert), jobs)
      else (elim (create_job id submission_id now jobs) [
        | none ↦ (err unique_violation, jobs)
        | some (job, jobs') ↦ (ok job, jobs')
      ])

  -- Queue.Claim: `now` is the database's NOW(), `clock` the worker's time.Now(). A transaction
  -- that is not committed is rolled back.
  unfoldable pub claim :
      (ℕ → Bool) → ℕ → ℕ → String → List Job → Result Error (Option Job) × List Job
  unfolding valid_worker_id next_queued mark_running
  claim locked now clock worker jobs =
      if not (valid_worker_id worker)
      then (err invalid_worker_id, jobs)
      else if fails Call.begin
      then (err (driver Call.begin), jobs)
      else if fails Call.select_next
      then (err (driver Call.select_next), jobs)
      else (elim (next_queued locked now jobs) [
        | none ↦ (ok none, jobs)
        | some job ↦
            if fails Call.set_running
            then (err (driver Call.set_running), jobs)
            else if fails Call.commit
            then (err (driver Call.commit), jobs)
            else (ok (some (run_job worker clock job)), mark_running job.id worker now jobs)
      ])

  -- `rows != 1`
  abbrev expect_one : ℕ × List Job → Result Error (Unit {0}) × List Job
  expect_one (rows, jobs') = (if rows == 1 then ok tt else err transition_not_allowed, jobs')

  -- Queue.Acknowledge
  unfoldable pub acknowledge :
      ℕ → ℕ → String → JobStatus → String → List Job → Result Error (Unit {0}) × List Job
  unfolding valid_worker_id mark_done
  acknowledge now id worker status last_error jobs =
      if not (valid_worker_id worker)
      then (err invalid_worker_id, jobs)
      else if not (is_terminal status)
      then (err invalid_terminal_status, jobs)
      else if fails Call.set_terminal
      then (err (driver Call.set_terminal), jobs)
      else expect_one (mark_done id status worker (text_value last_error) now jobs)

  -- Queue.Retry
  unfoldable pub retry : ℕ → ℕ → String → ℕ → String → List Job → Result Error (Unit {0}) × List Job
  unfolding valid_worker_id requeue
  retry now id worker available_at last_error jobs =
      if not (valid_worker_id worker)
      then (err invalid_worker_id, jobs)
      else if fails Call.set_queued
      then (err (driver Call.set_queued), jobs)
      else expect_one (requeue id worker available_at (text_value last_error) now jobs)
