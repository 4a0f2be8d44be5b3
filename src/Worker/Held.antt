-- ===== src/Worker/Held.antt =====
-- The jobs that run while a worker's loop goes on: apps/worker/internal/runtime/loop.go.

use lab_kit.Prelude.{
  ℕ, ◌≡◌, ◌≢◌, refl, sym, ap, ◌∙◌, String, some, List, [], ◌∷◌, Bool, false, arith, ◌==◌, ==_iff,
  if◌then◌else◌, Bool-cases, inl, inr, ◌⊎◌, map,
}
use lab_kit.Prelude.Results.{Result, ok, err}
use lab_kit.Db.{State, Submission, Job, JobStatus}
use lab_kit.Evaluator.{Outcome}
use lab_kit.Manifest.{Manifest}
use lab_kit.Db.Jobs.{is_held, finish_job}
use lab_kit.Jobs as Queue
use lab_kit.Jobs.{claim, acknowledge, is_terminal, text_value, valid_worker_id}
use lab_kit.Jobs.Valid.{get_job}
use lab_kit.Evaluation as Store
use lab_kit.Evaluation.{PersistInput, mark_running, persist}
use lab_kit.Evaluation.Jobs.{persist-jobs, mark_running-jobs}
use lab_kit.Worker.Handler as Handler
use lab_kit.Worker.Handler.{
  Env, Faults, Times, Error, LoadError, load_submission, persist_input, job_status, last_error_of,
  settle_job, persisted, marked, loaded, handle,
}

-- An acknowledgement leaves the other rows.
pub acknowledge_others :
    (fails : Queue.Call → Bool) (now id k : ℕ) (worker : String) (status : JobStatus)
    (last_error : String) (jobs : List Job)
    → k ≢ id
    → get_job k (acknowledge fails now id worker status last_error jobs).1 ≡ get_job k jobs
unfolding acknowledge
acknowledge_others fails now id k worker status last_error jobs other =
    ground (arith, finished_others jobs)
  where
    finished_others :
        (js : List Job)
        → get_job k (
            map
              (λ j.
                if is_held id worker j then finish_job status (text_value last_error) now j else j)
              js)
          ≡ get_job k js
    finished_others [] = refl
    finished_others (j ∷ js) = ground (arith, finished_others js)

module _ {F V : Type 0} (env : Env F V) (faults : Faults) (t : Times) (worker : String)
    (job : Job) where
  -- What a Handle may do to the jobs: nothing, or one acknowledgement of its job.
  abbrev pub Settled : List Job → List Job → Type 0
  Settled jobs jobs' =
      (jobs' ≡ jobs)
      ⊎ ((status : JobStatus) × (last_error : String) × (jobs'
            ≡ (acknowledge faults.queue t.acknowledged_at job.id worker status last_error jobs).1))

  Settled-from : (js jobs jobs' : List Job) → js ≡ jobs → Settled js jobs' → Settled jobs jobs'
  Settled-from js jobs jobs' e h = rw e at h

  acknowledged-jobs :
      (st : State V) (r : Result Queue.Error (Unit {0}) × List Job)
      → (Handler.acknowledged env faults st r).1.jobs ≡ r.1
  acknowledged-jobs st (err e, jobs) = refl
  acknowledged-jobs st (ok done, jobs) = refl

  persisted-Settled :
      (o : Outcome F) (r : Result Store.Error (Unit {0}) × State V)
      → Settled r.1.jobs (persisted env faults t worker job o r).1.jobs
  unfolding settle_job
  persisted-Settled o (err e, st) = inl refl
  persisted-Settled o (ok done, st) =
      inr (job_status env faults o.verdict, last_error_of env faults o, acknowledged-jobs st _)

  marked-Settled :
      (i : PersistInput F) (r : Result Store.Error (Unit {0}) × State V)
      → Settled r.1.jobs (marked env faults t worker job i r).1.jobs
  marked-Settled i (err e, st) = inl refl
  marked-Settled i (ok done, st) =
      Settled-from _ _ _ (persist-jobs env.narrow env.encode faults.store t.stored_at i st)
        (persisted-Settled i.result (persist env.narrow env.encode faults.store t.stored_at i st))

  pub handle-Settled : (st : State V) → Settled st.jobs (handle env faults t worker job st).1.jobs
  unfolding handle
  handle-Settled st = by_load (load_submission env faults job.submission_id st.submissions)
    where
      by_load :
          (r : Result LoadError (Submission × Manifest))
          → Settled st.jobs (loaded env faults t worker job st r).1.jobs
      by_load (err e) = inl refl
      by_load (ok (s, m)) =
          Settled-from _ _ _
            (mark_running-jobs env.narrow env.encode faults.store s.id t.started_at st)
            (marked-Settled (persist_input env faults t s m)
              (mark_running env.narrow env.encode faults.store s.id t.started_at st))

-- The row of a job that runs is the same in both tables.
abbrev pub Stays : List Job → List Job → Type 0
Stays jobs jobs' =
    (id : ℕ) (j : Job)
    → get_job id jobs ≡ some j
    → j.status ≡ JobStatus.running
    → get_job id jobs' ≡ some j

-- A row that an update of one id changes, from one that does not run to one that does not.
pub one_row-Stays :
    (id : ℕ) (row : Job) (jobs jobs' : List Job)
    → get_job id jobs ≡ some row
    → row.status ≢ JobStatus.running
    → ((k : ℕ) → k ≢ id → get_job k jobs' ≡ get_job k jobs)
    → Stays jobs jobs'
one_row-Stays id row jobs jobs' listed idle others k j e run = elim (Bool-cases (k == id)) [
  | inl same ↦ absurd (idle (runs (ap (λ (n : ℕ). get_job n jobs) ((==_iff k id).0 same))))
  | inr other ↦ others k (λ p. differ p other) ∙ e
]
  where
    runs : get_job k jobs ≡ get_job id jobs → row.status ≡ JobStatus.running
    runs p =
        let it : row ≡ j = some_inj (sym listed ∙ sym p ∙ e) in ap (λ (x : Job). x.status) it ∙ run
      where
        some_inj : {a b : Job} → some a ≡ some b → a ≡ b
        some_inj q = ground arith

    differ : k ≡ id → (k == id) ≡ false → ⊥
    differ p q = ground arith
