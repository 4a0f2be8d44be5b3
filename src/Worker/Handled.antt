-- ===== src/Worker/Handled.antt =====
-- What a job that is handled leaves: apps/worker/cmd/labkit-worker/runtime_handler.go.

use lab_kit.Prelude.{
  ℕ, ◌≡◌, refl, sym, ap, ◌∙◌, String, some, List, Bool, true, false, arith, Bool-cases, inl, inr,
}
use lab_kit.Prelude.Results.{Result, ok, err, Result-cases}
use lab_kit.Manifest.{Manifest}
use lab_kit.Db.{State, Submission, Job, JobStatus}
use lab_kit.Db.Jobs.{is_held, finish_job}
use lab_kit.Jobs as Queue
use lab_kit.Jobs.{acknowledge, is_terminal, valid_worker_id, text_value}
use lab_kit.Jobs.Valid.{IsValid, get_job}
use lab_kit.Jobs.Ownership.{acknowledge_held}
use lab_kit.Evaluation as Store
use lab_kit.Evaluation.{PersistInput, mark_running, persist, time_value}
use lab_kit.Worker.Handler.{
  Env, Faults, Times, LoadError, Error, load_submission, evaluate, outcome_or_error, persist_input,
  job_status, last_error_of, acknowledged, settle_job, persisted, marked, handle,
}

acknowledge_calls :
    (fails : Queue.Call → Bool) (now id : ℕ) (worker : String) (status : JobStatus)
    (last_error : String) (jobs jobs' : List Job)
    → acknowledge fails now id worker status last_error jobs ≡ (ok tt, jobs')
    → (valid_worker_id worker ≡ true)
      × (is_terminal status ≡ true)
      × (fails Queue.Call.set_terminal ≡ false)
unfolding acknowledge
acknowledge_calls fails now id worker status last_error jobs jobs' p =
    (ground arith, ground arith, ground arith)

-- An acknowledgement that succeeds is the holder's, and it has finished the row.
pub acknowledge_ok :
    (fails : Queue.Call → Bool) (now id : ℕ) (worker : String) (status : JobStatus)
    (last_error : String) (jobs jobs' : List Job) (j : Job)
    → IsValid jobs
    → get_job id jobs ≡ some j
    → acknowledge fails now id worker status last_error jobs ≡ (ok tt, jobs')
    → (is_held id worker j ≡ true)
      × (get_job id jobs' ≡ some (finish_job status (text_value last_error) now j))
acknowledge_ok fails now id worker status last_error jobs jobs' j v e h =
    let (named, terminal, up) =
      acknowledge_calls fails now id worker status last_error jobs jobs' h in
    let (mine, other) =
      acknowledge_held fails now id worker status last_error jobs j up named terminal v e in
    elim (Bool-cases (is_held id worker j)) [
      | inl held ↦ (
        held,
        ap (get_job id) (sym (ap (λ (p : Result Queue.Error (Unit {0}) × List Job). p.1) h))
            ∙ (mine held).1,
      )
      | inr free ↦ absurd (
          differ
            (sym (other free).0 ∙ ap (λ (p : Result Queue.Error (Unit {0}) × List Job). p.0) h))
    ]
  where
    differ :
        ◌≡◌ {A = Result Queue.Error (Unit {0})} (err Queue.Error.transition_not_allowed) (ok tt) → ⊥
    differ p = ground arith

module _ {F V : Type 0} (env : Env F V) (faults : Faults) where
  -- The steps of a job that is handled without an error.
  pub record Steps (t : Times) (worker : String) (job : Job) (st st' : State V) : Type 0 where
    pub s : Submission
    pub m : Manifest
    pub started : State V
    pub after : State V
    pub jobs : List Job
    pub loading : load_submission env faults job.submission_id st.submissions ≡ ok (s, m)
    pub starting :
        mark_running env.narrow env.encode faults.store s.id t.started_at st ≡ (ok tt, started)
    pub storing :
        persist env.narrow env.encode faults.store t.stored_at
          (persist_input env faults t s m)
          started
        ≡ (ok tt, after)
    pub settling :
        acknowledge faults.queue t.acknowledged_at job.id worker
          (job_status env faults (outcome_or_error env faults (evaluate env faults s m)).verdict)
          (last_error_of env faults (outcome_or_error env faults (evaluate env faults s m)))
          after.jobs
        ≡ (ok tt, jobs)
    pub ending : st' ≡ record after { jobs = jobs }

  acknowledged_inv :
      (st st' : State V) (r : Result Queue.Error (Unit {0}) × List Job)
      → acknowledged env faults st r ≡ (ok tt, st')
      → (jobs : List Job) × (r ≡ (ok tt, jobs)) × (st' ≡ record st { jobs = jobs })
  acknowledged_inv st st' (err e, jobs) h = absurd (ground arith)
  acknowledged_inv st st' (ok done, jobs) h = (jobs, refl, ground arith)

  stored_inv :
      (r : Result Store.Error (Unit {0}) × State V)
      (next : State V → Result Error (Unit {0}) × State V)
      (all : Result Store.Error (Unit {0}) × State V → Result Error (Unit {0}) × State V)
      (st' : State V)
      → ((e : Store.Error) (st : State V) → all (err e, st) ≡ (err (Error.store e), st))
      → ((st : State V) → all (ok tt, st) ≡ next st)
      → all r ≡ (ok tt, st')
      → (st : State V) × (r ≡ (ok tt, st)) × (next st ≡ (ok tt, st'))
  stored_inv (err e, st) next all st' f g h = absurd (differ (sym (f e st) ∙ h))
    where
      differ :
          ◌≡◌ {A = Result Error (Unit {0}) × State V} (err (Error.store e), st) (ok tt, st') → ⊥
      differ p = ground arith
  stored_inv (ok done, st) next all st' f g h = (st, refl, sym (g st) ∙ h)

  pub handle-Steps :
      (t : Times) (worker : String) (job : Job) (st st' : State V)
      → handle env faults t worker job st ≡ (ok tt, st')
      → Steps t worker job st st'
  unfolding handle settle_job
  handle-Steps t worker job st st' h =
      elim (Result-cases (load_submission env faults job.submission_id st.submissions)) [
        | inr (e, l) ↦ absurd (differ e (rw l at h))
        | inl ((s, m), l) ↦
            let i = persist_input env faults t s m in
            let (started, starting, h1) =
              stored_inv (mark_running env.narrow env.encode faults.store s.id t.started_at st)
                (λ x.
                  persisted env faults t worker job i.result
                    (persist env.narrow env.encode faults.store t.stored_at i x))
                (marked env faults t worker job i) st' (λ e x. refl) (λ x. refl) (rw l at h) in
            let (after, storing, h2) =
              stored_inv (persist env.narrow env.encode faults.store t.stored_at i started)
                (settle_job env faults t worker job i.result)
                (persisted env faults t worker job i.result) st' (λ e x. refl) (λ x. refl) h1 in
            let (jobs, settling, ending) = acknowledged_inv after st' _ h2 in
            record {
              s = s;
              m = m;
              started = started;
              after = after;
              jobs = jobs;
              loading = l;
              starting = starting;
              storing = storing;
              settling = settling;
              ending = ending;
            }
      ]
    where
      differ :
          (e : LoadError)
          → ◌≡◌ {A = Result Error (Unit {0}) × State V} (err (Error.load e), st) (ok tt, st')
          → ⊥
      differ e p = ground arith
