-- ===== src/Jobs/Moves.antt =====
-- Each call of the queue is a move of the abstract queue: packages/go/jobs.
use mathlib.Core.Option
use lab_kit.Prelude.{
  ℕ, ◌≡◌, ◌≢◌, refl, sym, ap, ◌∙◌, String, Option, none, some, List, [], ◌∷◌, ◌++◌, Bool, true,
  false, arith, ◌==◌, ==_iff, any, if◌then◌else◌, Bool-cases, inl, inr, ◌⊎◌, map,
}
use lab_kit.Prelude.Results.{Result, ok, err, Result-cases}
use lab_kit.Db.{Job, JobStatus}
use lab_kit.Db.Jobs.{is_held, finish_job, requeue_job, run_job, new_job, is_eligible}
use lab_kit.Jobs.{Call, Error, enqueue, claim, acknowledge, retry, text_value, is_terminal}
use lab_kit.Jobs.Valid.{IsValid, get_job}
use lab_kit.Jobs.Ownership.{map_none_held, claim_hands_out-IsNext, claim_otherwise, get_job_listed}
use lab_kit.Jobs.Refine.{
  waiting, held_by, finished, phase, phase_of, view, Move, finish, give_back, moved_id, from_phase,
  to_phase, IsMove, added, taken, done_by, QueueCall, enqueued, claimed, acknowledged, retried,
  move_of, table_of, holding, updated-IsMove,
}

same-IsMove : (jobs jobs' : List Job) → jobs' ≡ jobs → IsMove none (view jobs) (view jobs')
same-IsMove jobs jobs' e k = ap (λ (js : List Job). view js k) e

-- A statement on the row that a worker holds either updates it and succeeds, or does neither.
abbrev IsOutcome : (Job → Job) → ℕ → String → List Job → Result Error (Unit {0}) × List Job → Type 0
IsOutcome f id worker jobs r =
    ((r.0 ≡ ok tt)
      × (j : Job) × (get_job id jobs ≡ some j)
      × (is_held id worker j ≡ true)
      × (r.1 ≡ map (λ k. if is_held id worker k then f k else k) jobs))
    ⊎ ((e : Error) × (r.0 ≡ err e) × (r.1 ≡ jobs))

outcome_move :
    (f : Job → Job) (ids : (j : Job) → (f j).id ≡ j.id) (m : Move) (worker : String)
    (jobs : List Job) (r : Result Error (Unit {0}) × List Job)
    → from_phase m ≡ some (held_by (some worker))
    → ((j : Job) → r.0 ≡ ok tt → phase (f j) ≡ to_phase m)
    → IsOutcome f (moved_id m) worker jobs r
    → IsMove (done_by m r.0) (view jobs) (view r.1)
outcome_move f ids m worker jobs r from to (inr (e, failed, same)) =
    rw failed (same-IsMove jobs r.1 same)
outcome_move f ids m worker jobs r from to (inl (done, j, listed, held, table)) =
    rw (done, table)
      (updated-IsMove f ids (moved_id m) worker m jobs j refl from (to j done) listed held)

acknowledge-IsOutcome :
    (fails : Call → Bool) (now id : ℕ) (worker : String) (status : JobStatus) (last_error : String)
    (jobs : List Job)
    → IsValid jobs
    → IsOutcome
        (finish_job status (text_value last_error) now)
        id
        worker
        jobs
        (acknowledge fails now id worker status last_error jobs)
unfolding acknowledge
acknowledge-IsOutcome fails now id worker status last_error jobs v =
    elim (Result-cases (acknowledge fails now id worker status last_error jobs).0) [
      | inr (e, h) ↦ elim (holding id worker jobs v) [
        | inl zero ↦ inr (
          e,
          h,
          ground (
            arith,
            map_none_held (finish_job status (text_value last_error) now) id worker jobs zero,
          ),
        )
        | inr (j, listed, held, one) ↦ inr (e, h, ground arith)
      ]
      | inl (x, h) ↦ elim (holding id worker jobs v) [
        | inl zero ↦ ground arith
        | inr (j, listed, held, one) ↦ inl (h, j, listed, held, ground arith)
      ]
    ]

retry-IsOutcome :
    (fails : Call → Bool) (now id : ℕ) (worker : String) (available_at : ℕ) (last_error : String)
    (jobs : List Job)
    → IsValid jobs
    → IsOutcome
        (requeue_job available_at (text_value last_error) now)
        id
        worker
        jobs
        (retry fails now id worker available_at last_error jobs)
unfolding retry
retry-IsOutcome fails now id worker available_at last_error jobs v =
    elim (Result-cases (retry fails now id worker available_at last_error jobs).0) [
      | inr (e, h) ↦ elim (holding id worker jobs v) [
        | inl zero ↦ inr (
          e,
          h,
          ground (
            arith,
            map_none_held (requeue_job available_at (text_value last_error) now) id worker jobs
                zero,
          ),
        )
        | inr (j, listed, held, one) ↦ inr (e, h, ground arith)
      ]
      | inl (x, h) ↦ elim (holding id worker jobs v) [
        | inl zero ↦ ground arith
        | inr (j, listed, held, one) ↦ inl (h, j, listed, held, ground arith)
      ]
    ]

terminal_phase :
    (status : JobStatus) (w : Option String)
    → is_terminal status ≡ true
    → phase_of status w ≡ finished status
terminal_phase JobStatus.done w t = refl
terminal_phase JobStatus.error w t = refl
terminal_phase JobStatus.queued w t = absurd (ground arith)
terminal_phase JobStatus.running w t = absurd (ground arith)

ok-is_terminal :
    (fails : Call → Bool) (now id : ℕ) (worker : String) (status : JobStatus) (last_error : String)
    (jobs : List Job)
    → (acknowledge fails now id worker status last_error jobs).0 ≡ ok tt
    → is_terminal status ≡ true
unfolding acknowledge
ok-is_terminal fails now id worker status last_error jobs e = ground arith

find-snoc :
    (k : ℕ) (job : Job) (jobs : List Job)
    → get_job job.id jobs ≡ none
    → view (jobs ++ job ∷ []) k ≡ (if k == job.id then some (phase job) else view jobs k)
find-snoc k job [] h = ground arith
find-snoc k job (j ∷ jobs) h = elim (Bool-cases (j.id == k)) [
  | inl same ↦ let other : (k == job.id) ≡ false = ground arith in rw (same, other) refl
  | inr differ ↦ rw differ (find-snoc k job jobs (rest h))
]
  where
    rest : get_job job.id (j ∷ jobs) ≡ none → get_job job.id jobs ≡ none
    rest e = ground arith

enqueue-IsMove :
    (fails : Call → Bool) (id submission now : ℕ) (jobs : List Job)
    → get_job id jobs ≡ none
    → IsMove
        (added (enqueue fails id submission now jobs).0)
        (view jobs)
        (view (enqueue fails id submission now jobs).1)
unfolding enqueue
enqueue-IsMove fails id submission now jobs fresh = elim (Bool-cases (fails Call.insert)) [
  | inl down ↦ rw down (λ k. refl)
  | inr up ↦ elim (Bool-cases (any (λ j. j.submission_id == submission) jobs)) [
    | inl clash ↦ rw (up, clash) (λ k. refl)
    | inr free ↦
        rw (up, free)
          (ap (Option.map phase) fresh, λ k. find-snoc k (new_job id submission now) jobs fresh)
  ]
]

waiting_phase :
    (locked : ℕ → Bool) (now : ℕ) (j : Job) → is_eligible locked now j ≡ true → phase j ≡ waiting
waiting_phase locked now j e = queued_phase j.status j.worker_id (ground arith)
  where
    queued_phase :
        (t : JobStatus) (w : Option String) → t ≡ JobStatus.queued → phase_of t w ≡ waiting
    queued_phase t w e = rw e refl

claim-IsMove :
    (fails : Call → Bool) (locked : ℕ → Bool) (now clock : ℕ) (worker : String) (jobs : List Job)
    (r : Result Error (Option Job) × List Job)
    → IsValid jobs
    → claim fails locked now clock worker jobs ≡ r
    → IsMove (taken worker r.0) (view jobs) (view r.1)
claim-IsMove fails locked now clock worker jobs (err e, jobs') v h =
    let (_, unchanged) = claim_otherwise fails locked now clock worker jobs in
    same-IsMove jobs jobs' (table h ∙ unchanged e (answer h))
  where
    table :
        claim fails locked now clock worker jobs ≡ (err e, jobs')
        → jobs' ≡ (claim fails locked now clock worker jobs).1
    table p = sym (ap (λ (q : Result Error (Option Job) × List Job). q.1) p)

    answer :
        claim fails locked now clock worker jobs ≡ (err e, jobs')
        → (claim fails locked now clock worker jobs).0 ≡ err e
    answer p = ap (λ (q : Result Error (Option Job) × List Job). q.0) p
claim-IsMove fails locked now clock worker jobs (ok none, jobs') v h =
    let (unchanged, _) = claim_otherwise fails locked now clock worker jobs in
    same-IsMove jobs jobs' (table h ∙ (unchanged (answer h)).0)
  where
    table :
        claim fails locked now clock worker jobs ≡ (ok none, jobs')
        → jobs' ≡ (claim fails locked now clock worker jobs).1
    table p = sym (ap (λ (q : Result Error (Option Job) × List Job). q.1) p)

    answer :
        claim fails locked now clock worker jobs ≡ (ok none, jobs')
        → (claim fails locked now clock worker jobs).0 ≡ ok none
    answer p = ap (λ (q : Result Error (Option Job) × List Job). q.0) p
claim-IsMove fails locked now clock worker jobs (ok (some job), jobs') v h =
    let (j, n, same, row, others) =
      claim_hands_out-IsNext fails locked now clock worker jobs jobs' job v h in
    let ids : job.id ≡ j.id = ap (λ (x : Job). x.id) same in
    let first = waiting_phase locked now j n.eligible in
    let listed = get_job_listed j jobs v n.listed in
    (
      ap (view jobs) ids ∙ ap (Option.map phase) listed ∙ ap some first,
      λ k. rw ids (moved j row others k),
    )
  where
    moved :
        (j : Job)
        → get_job j.id jobs' ≡ some (run_job worker now j)
        → ((id : ℕ) → id ≢ j.id → get_job id jobs' ≡ get_job id jobs)
        → (k : ℕ) → view jobs' k ≡ (if k == j.id then some (held_by (some worker)) else view jobs k)
    moved j row others k = elim (Bool-cases (k == j.id)) [
      | inl e ↦
          let it : k ≡ j.id = (==_iff k j.id).0 e in
          rw e (ap (λ (n : ℕ). Option.map phase (get_job n jobs')) it ∙ ap (Option.map phase) row)
      | inr e ↦ rw e (ap (Option.map phase) (others k (λ p. differ p e)))
    ]
      where
        differ : k ≡ j.id → (k == j.id) ≡ false → ⊥
        differ p q = ground arith

-- The table of jobs refines a queue of phases: on a well-formed table every call makes the one move
-- that its answer stands for, which the abstract queue allows, and with an error or nothing to hand
-- out it makes none. An enqueued job waits; a claimed one waited, and is then held by the worker; only
-- the holder finishes a job, with the status that is asked for, or gives it back.
pub queue-IsMove :
    (fails : Call → Bool) (jobs : List Job) (c : QueueCall jobs)
    → IsValid jobs
    → IsMove (move_of fails jobs c) (view jobs) (view (table_of fails jobs c))
queue-IsMove fails jobs (enqueued id submission now fresh) v =
    enqueue-IsMove fails id submission now jobs fresh
queue-IsMove fails jobs (claimed locked now clock worker) v =
    claim-IsMove fails locked now clock worker jobs (claim fails locked now clock worker jobs) v
      refl
queue-IsMove fails jobs (acknowledged now id worker status last_error) v =
    outcome_move (finish_job status (text_value last_error) now) (λ j. refl)
      (finish id worker status) worker jobs _ refl
      (λ j done.
        terminal_phase status j.worker_id
          (ok-is_terminal fails now id worker status last_error jobs done))
      (acknowledge-IsOutcome fails now id worker status last_error jobs v)
queue-IsMove fails jobs (retried now id worker available_at last_error) v =
    outcome_move (requeue_job available_at (text_value last_error) now) (λ j. refl)
      (give_back id worker) worker jobs _ refl (λ j done. refl)
      (retry-IsOutcome fails now id worker available_at last_error jobs v)
