-- ===== src/Worker/Progress.antt =====
-- What a worker's loop does to the jobs that run: apps/worker/internal/runtime/loop.go.
use lab_kit.Prelude.{
  ℕ, ◌≡◌, ◌≢◌, refl, sym, ap, ◌∙◌, String, Option, none, some, List, [], ◌∷◌, Bool, true, false,
  arith, if◌then◌else◌, Bool-cases, inl, inr,
}
use lab_kit.Prelude.Text.{is_empty, trim_space}
use lab_kit.Prelude.Results.{Result, ok, err}
use lab_kit.Evaluator.{Verdict}
use lab_kit.Db.{State, Job, JobStatus}
use lab_kit.Db.Jobs.{is_eligible, run_job}
use lab_kit.Jobs as Queue
use lab_kit.Jobs.{claim, text_value}
use lab_kit.Jobs.Valid.{IsValid, get_job}
use lab_kit.Jobs.Lifecycle as Life
use lab_kit.Jobs.Lifecycle.{Reach, Reach-Keeps, here, next}
use lab_kit.Jobs.Ownership.{claim_hands_out-IsNext, claim_otherwise, get_job_listed}
use lab_kit.Evaluation.Jobs.{persist-jobs, mark_running-jobs}
use lab_kit.Worker.Handler.{
  Env, Faults, Times, Error, job_status, outcome_or_error, evaluate, persist_input, handle,
}
use lab_kit.Worker.Handled.{handle-Steps, acknowledge_ok}
use lab_kit.Worker.Held.{Settled, Stays, handle-Settled, acknowledge_others, one_row-Stays}
use lab_kit.Worker.Loop.{
  Round, Passed, idle, handled, failed, pass, claimed, handled_by, rounds, run, go_on,
}

claim-IsValid :
    (fails : Queue.Call → Bool) (locked : ℕ → Bool) (now clock : ℕ) (worker : String)
    (jobs jobs' : List Job) (r : Result Queue.Error (Option Job))
    → IsValid jobs
    → claim fails locked now clock worker jobs ≡ (r, jobs')
    → IsValid jobs'
claim-IsValid fails locked now clock worker jobs jobs' r v e =
    (Reach-Keeps v (
      next fails here (
        Life.claimed locked now clock worker
          (sym (ap (λ (p : Result Queue.Error (Option Job) × List Job). p.1) e))))).0

module _ {F V : Type 0} (env : Env F V) (worker : String) where
  module _ (faults : Faults) (t : Times) (job : Job) where
    Settled-IsValid :
        (jobs jobs' : List Job)
        → IsValid jobs
        → Settled env faults t worker job jobs jobs'
        → IsValid jobs'
    Settled-IsValid jobs jobs' v (inl e) = rw e v
    Settled-IsValid jobs jobs' v (inr (status, last_error, e)) =
        (Reach-Keeps v (
          next faults.queue here
            (Life.acknowledged t.acknowledged_at job.id worker status last_error e))).0

    Settled-others :
        (jobs jobs' : List Job) (k : ℕ)
        → k ≢ job.id
        → Settled env faults t worker job jobs jobs'
        → get_job k jobs' ≡ get_job k jobs
    Settled-others jobs jobs' k other (inl e) = ap (get_job k) e
    Settled-others jobs jobs' k other (inr (status, last_error, e)) =
        ap (get_job k) e
        ∙ acknowledge_others faults.queue t.acknowledged_at job.id k worker status last_error jobs
            other

    job_status_idle : (v : Verdict) → job_status env faults v ≢ JobStatus.running
    job_status_idle v e = ground arith

    -- A Handle that succeeds leaves its job in a status that is not running.
    handle_finishes :
        (st st' : State V) (row : Job)
        → IsValid st.jobs
        → get_job job.id st.jobs ≡ some row
        → handle env faults t worker job st ≡ (ok tt, st')
        → (done : Job) × (get_job job.id st'.jobs ≡ some done) × (done.status ≢ JobStatus.running)
    handle_finishes st st' row v listed e =
        let x = handle-Steps env faults t worker job st st' e in
        let i = persist_input env faults t x.s x.m in
        let same : x.after.jobs ≡ st.jobs =
          ap (λ (p : Result _ _ × State V). p.1.jobs) (sym x.storing)
          ∙ persist-jobs env.narrow env.encode faults.store t.stored_at i x.started
          ∙ ap (λ (p : Result _ _ × State V). p.1.jobs) (sym x.starting)
          ∙ mark_running-jobs env.narrow env.encode faults.store x.s.id t.started_at st in
        let (_, finished) =
          acknowledge_ok faults.queue t.acknowledged_at job.id worker _ _ x.after.jobs x.jobs row
            (rw same v) (rw same listed) x.settling in
        (
          _,
          ap (λ (y : State V). get_job job.id y.jobs) x.ending ∙ finished,
          job_status_idle (outcome_or_error env faults (evaluate env faults x.s x.m)).verdict,
        )

  abbrev pub state_of : Passed V → State V
  state_of (idle st) = st
  state_of (handled st) = st
  state_of (failed e st) = st

  abbrev pub is_failed : Passed V → Bool
  is_failed (failed e st) = true
  is_failed _ = false

  jobs_of :
      {A : Type 0} {r : Result Queue.Error A} {jobs : List Job}
      {c : Result Queue.Error A × List Job}
      → c ≡ (r, jobs)
      → jobs ≡ c.1
  jobs_of e = sym (ap (λ p. p.1) e)

  result_of :
      {A : Type 0} {r : Result Queue.Error A} {jobs : List Job}
      {c : Result Queue.Error A × List Job}
      → c ≡ (r, jobs)
      → c.0 ≡ r
  result_of e = ap (λ p. p.0) e

  -- What one pass does: running jobs stay as they are, and without an error no other job runs.
  pub record Effect (jobs : List Job) (p : Passed V) : Type 0 where
    pub valid : IsValid (state_of p).jobs
    pub stay : Stays jobs (state_of p).jobs
    pub none_new : is_failed p ≡ false → Stays (state_of p).jobs jobs

  same-Effect :
      (jobs : List Job) (p : Passed V) → IsValid jobs → (state_of p).jobs ≡ jobs → Effect jobs p
  same-Effect jobs p v e = record {
    valid = rw e v;
    stay = λ id j h run. rw e h;
    none_new = λ ok id j h run. rw e at h;
  }

  queued_idle :
      (locked : ℕ → Bool) (now : ℕ) (j : Job)
      → is_eligible locked now j ≡ true
      → j.status ≢ JobStatus.running
  queued_idle locked now j e run = ground arith

  module _ (r : Round) (st : State V) (v : IsValid st.jobs) where
    -- A job that was claimed and handled, with the tables that this leaves.
    record Handling (jobs : List Job) (job : Job) (st' : State V) : Type 0 where
      before : Job
      listed : get_job job.id st.jobs ≡ some before
      queued : before.status ≢ JobStatus.running
      valid : IsValid st'.jobs
      others : (k : ℕ) → k ≢ job.id → get_job k st'.jobs ≡ get_job k st.jobs
      valid_claimed : IsValid jobs
      row : Job
      listed_claimed : get_job job.id jobs ≡ some row

    to_Handling :
        (jobs : List Job) (job : Job)
        → claim r.claim_fails r.locked r.now r.clock worker st.jobs ≡ (ok (some job), jobs)
        → Handling jobs job (handle env r.faults r.times worker job (record st { jobs = jobs })).1
    to_Handling jobs job e =
        let (j, n, same, row, others) =
          claim_hands_out-IsNext r.claim_fails r.locked r.now r.clock worker st.jobs jobs job v e in
        let v' =
          claim-IsValid r.claim_fails r.locked r.now r.clock worker st.jobs jobs (ok (some job)) v
            e in
        let ids : j.id ≡ job.id = sym (ap (λ (x : Job). x.id) same) in
        let settled = handle-Settled env r.faults r.times worker job (record st { jobs = jobs }) in
        record {
          before = j;
          listed =
              ap (λ (n : ℕ). get_job n st.jobs) (sym ids) ∙ get_job_listed j st.jobs v n.listed;
          queued = queued_idle r.locked r.now j n.eligible;
          valid = Settled-IsValid r.faults r.times job jobs _ v' settled;
          others = λ k other.
              Settled-others r.faults r.times job jobs _ k other settled
              ∙ others k (λ p. other (p ∙ ids));
          valid_claimed = v';
          row = run_job worker r.now j;
          listed_claimed = ap (λ (n : ℕ). get_job n jobs) (sym ids) ∙ row;
        }

    handled-Effect :
        (jobs : List Job) (job : Job) (p : Result Error (Unit {0}) × State V)
        → handle env r.faults r.times worker job (record st { jobs = jobs }) ≡ p
        → Handling jobs job p.1
        → Effect st.jobs (handled_by env worker p)
    handled-Effect jobs job (err x, st') e h = record {
      valid = h.valid;
      stay = one_row-Stays job.id h.before st.jobs st'.jobs h.listed h.queued h.others;
      none_new = λ f. cc;
    }
    handled-Effect jobs job (ok done, st') e h =
        let (row, now_listed, idle_row) =
          handle_finishes r.faults r.times job (record st { jobs = jobs }) st' h.row h.valid_claimed
            h.listed_claimed e in
        record {
          valid = h.valid;
          stay = one_row-Stays job.id h.before st.jobs st'.jobs h.listed h.queued h.others;
          none_new = λ f.
              one_row-Stays job.id row st'.jobs st.jobs now_listed idle_row
                (λ k other. sym (h.others k other));
        }

    claimed-Effect :
        (c : Result Queue.Error (Option Job) × List Job)
        → claim r.claim_fails r.locked r.now r.clock worker st.jobs ≡ c
        → Effect st.jobs (claimed env worker r st c)
    claimed-Effect (err x, jobs) e =
        let (_, unchanged) = claim_otherwise r.claim_fails r.locked r.now r.clock worker st.jobs in
        same-Effect st.jobs _ v (jobs_of e ∙ unchanged x (result_of e))
    claimed-Effect (ok none, jobs) e =
        let (unchanged, _) = claim_otherwise r.claim_fails r.locked r.now r.clock worker st.jobs in
        same-Effect st.jobs _ v (jobs_of e ∙ (unchanged (result_of e)).0)
    claimed-Effect (ok (some job), jobs) e =
        handled-Effect jobs job (handle env r.faults r.times worker job (record st { jobs = jobs }))
          refl (to_Handling jobs job e)

    pass-Effect : Effect st.jobs (pass env worker r st)
    unfolding pass
    pass-Effect = claimed-Effect _ refl

  -- The jobs that run in the end are those that ran at the start, if there is no error.
  abbrev Keeps : (Error → Bool) → List Job → Result Error (Unit {0}) × State V → Type 0
  Keeps canceled jobs r =
      Stays jobs r.1.jobs × (((x : Error) → canceled x ≡ false) → r.0 ≡ ok tt → Stays r.1.jobs jobs)

  rounds_after :
      (canceled : Error → Bool) (rs : List Round) (st : State V) (p : Passed V)
      → ((st' : State V)
          → IsValid st'.jobs
          → Keeps canceled st'.jobs (rounds env worker canceled rs st'))
      → Effect st.jobs p
      → Keeps canceled st.jobs (go_on env worker (rounds env worker canceled rs) canceled p)
  rounds_after canceled rs st p rest f = by_pass p f
    where
      after :
          (st' : State V)
          → Stays st.jobs st'.jobs
          → Stays st'.jobs st.jobs
          → IsValid st'.jobs
          → Keeps canceled st.jobs (rounds env worker canceled rs st')
      after st' stay back v' =
          let (stay', back') = rest st' v' in
          (
            λ id j h run. stay' id j (stay id j h run) run,
            λ c done id j h run. back id j (back' c done id j h run) run,
          )

      stopped :
          (x : Error)
          → canceled x ≡ false
          → ◌≡◌ {A = Result Error (Unit {0})} (if canceled x then ok tt else err x) (ok tt)
          → ⊥
      stopped x c done = ground arith

      by_pass :
          (p : Passed V)
          → Effect st.jobs p
          → Keeps canceled st.jobs (go_on env worker (rounds env worker canceled rs) canceled p)
      by_pass (idle st') f = after st' f.stay (f.none_new refl) f.valid
      by_pass (handled st') f = after st' f.stay (f.none_new refl) f.valid
      by_pass (failed x st') f = (f.stay, λ c done. absurd (stopped x (c x) done))

  rounds-Keeps :
      (canceled : Error → Bool) (rs : List Round) (st : State V)
      → IsValid st.jobs
      → Keeps canceled st.jobs (rounds env worker canceled rs st)
  unfolding rounds
  rounds-Keeps canceled [] st v = (λ id j h run. h, λ c done id j h run. h)
  rounds-Keeps canceled (r ∷ rs) st v =
      rounds_after canceled rs st (pass env worker r st) (λ st' v'. rounds-Keeps canceled rs st' v')
        (pass-Effect r st v)

  -- Whatever the rounds of a loop meet, on a well-formed table: a job that is running when the loop
  -- starts is left as it is, so that no loop ever takes it up again, whichever worker held it; and a
  -- loop that ends with no error, none being a cancellation, leaves no other job running.
  pub run-Stays :
      (canceled : Error → Bool) (rs : List Round) (st : State V)
      → IsValid st.jobs
      → Stays st.jobs (run env worker canceled rs st).1.jobs
        × (((x : Error) → canceled x ≡ false)
            → (run env worker canceled rs st).0 ≡ ok tt
            → Stays (run env worker canceled rs st).1.jobs st.jobs)
  unfolding run
  run-Stays canceled rs st v = elim (Bool-cases (is_empty (trim_space worker))) [
    | inl h ↦ rw (h, run) (λ id j g s. g, λ c done id j g s. g)
    | inr h ↦ rw (h, run) (rounds-Keeps canceled rs st v)
  ]
