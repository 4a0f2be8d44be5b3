-- ===== src/Jobs/Lifecycle.antt =====
-- The life of a job under any sequence of queue calls by any workers: packages/go/jobs.
use lab_kit.Prelude.{
  ℕ, ◌≡◌, refl, inl, inr, String, Option, none, some, List, [], ◌∷◌, Bool, true, arith, All,
  All-imp, All-In, All-always, any, ◌==◌, Bool-cases, Option-cases, if◌then◌else◌, map, ◌∙◌, ap,
}
use mathlib.Core.Option
use lab_kit.Db.{Job, JobStatus}
use lab_kit.Db.Jobs.{
  is_eligible, is_held, next_queued, new_job, mark_running, run_job, finish_job, requeue_job,
}
use lab_kit.Jobs.{Call, enqueue, claim, acknowledge, retry, is_terminal, text_value}
use lab_kit.Jobs.Claim.{next_queued-IsNext}
use lab_kit.Jobs.Valid.{
  IsSound, IsValid, get_job, get_job-map, IsValid-map, same_id, get_job-append, IsValid-snoc,
  get_job-In,
}

module _ (fails : Call → Bool) where
  -- One call of the queue, by any worker at any time; a new row's id is unused.
  pub data Step (jobs : List Job) (jobs' : List Job) : Type 0 where
    enqueued :
        (id submission now : ℕ)
        → get_job id jobs ≡ none
        → jobs' ≡ (enqueue fails id submission now jobs).1
        → Step jobs jobs'
    claimed :
        (locked : ℕ → Bool) (now clock : ℕ) (worker : String)
        → jobs' ≡ (claim fails locked now clock worker jobs).1
        → Step jobs jobs'
    acknowledged :
        (now id : ℕ) (worker : String) (status : JobStatus) (last_error : String)
        → jobs' ≡ (acknowledge fails now id worker status last_error jobs).1
        → Step jobs jobs'
    retried :
        (now id : ℕ) (worker : String) (available_at : ℕ) (last_error : String)
        → jobs' ≡ (retry fails now id worker available_at last_error jobs).1
        → Step jobs jobs'

  -- What one call may do to a well-formed table.
  abbrev pub Keeps : List Job → List Job → Type 0
  Keeps jobs jobs' =
      IsValid jobs'
      × ((id : ℕ) (j : Job)
          → get_job id jobs ≡ some j
          → is_terminal j.status ≡ true
          → get_job id jobs' ≡ some j)

  Keeps-refl : (jobs : List Job) → IsValid jobs → Keeps jobs jobs
  Keeps-refl jobs v = (v, λ id j e t. e)

  enqueue-Keeps :
      (id submission now : ℕ) (jobs : List Job)
      → get_job id jobs ≡ none
      → IsValid jobs
      → Keeps jobs (enqueue fails id submission now jobs).1
  unfolding enqueue
  enqueue-Keeps id submission now jobs fresh v = elim (Bool-cases (fails Call.insert)) [
    | inl down ↦ rw down (Keeps-refl jobs v)
    | inr up ↦ elim (Bool-cases (any (λ j. j.submission_id == submission) jobs)) [
      | inl taken ↦ rw (up, taken) (Keeps-refl jobs v)
      | inr free ↦
          rw (up, free)
            (
              IsValid-snoc (new_job id submission now) jobs fresh free (refl, refl, refl) v,
              λ i j e t. get_job-append i jobs (new_job id submission now ∷ []) j e,
            )
    ]
  ]

  -- An update that leaves terminal rows and the keys alone.
  map-Keeps :
      (g : Job → Job) (jobs : List Job)
      → ((j : Job) → (g j).id ≡ j.id)
      → ((j : Job) → (g j).submission_id ≡ j.submission_id)
      → All (λ j. IsSound j → IsSound (g j)) jobs
      → All (λ j. is_terminal j.status ≡ true → g j ≡ j) jobs
      → IsValid jobs
      → Keeps jobs (map g jobs)
  map-Keeps g jobs ids subs sound fixed v = (
    IsValid-map g ids subs jobs sound v,
    λ id j e t.
        get_job-map g ids id jobs
        ∙ ap (Option.map g) e
        ∙ ap some (All-In _ j jobs (get_job-In id jobs j e) fixed t),
  )

  eligible_queued :
      (locked : ℕ → Bool) (now : ℕ) (j : Job)
      → is_eligible locked now j ≡ true
      → j.status ≡ JobStatus.queued
  eligible_queued locked now j e = ground arith

  run_job-IsSound :
      (worker : String) (now : ℕ) (j : Job)
      → j.status ≡ JobStatus.queued
      → IsSound j
      → IsSound (run_job worker now j)
  run_job-IsSound worker now j e h = ground arith

  terminal-ne-queued : (j : Job) → j.status ≡ JobStatus.queued → is_terminal j.status ≡ true → ⊥
  terminal-ne-queued j e t = ground arith

  terminal-ne-running : (j : Job) → j.status ≡ JobStatus.running → is_terminal j.status ≡ true → ⊥
  terminal-ne-running j e t = ground arith

  mark_running-Keeps :
      (locked : ℕ → Bool) (now : ℕ) (worker : String) (jobs : List Job) (j : Job)
      → next_queued locked now jobs ≡ some j
      → IsValid jobs
      → Keeps jobs (mark_running j.id worker now jobs)
  unfolding mark_running
  mark_running-Keeps locked now worker jobs j e v =
      let n = next_queued-IsNext locked now jobs j e in
      let queued = eligible_queued locked now j n.eligible in
      let same = same_id j jobs v n.listed in
      map-Keeps (λ k. if k.id == j.id then run_job worker now k else k) jobs (λ k. ground arith)
        (λ k. ground arith) (All-imp (λ k. sound_one k) jobs same)
        (All-imp (λ k. fixed_one k) jobs same) v
    where
      is_it :
          (k : Job) → (k.id == j.id) ≡ true → (k.id ≡ j.id → k ≡ j) → k.status ≡ JobStatus.queued
      is_it k p h =
          let same : k ≡ j = h (ground arith) in
          ap (λ (x : Job). x.status) same
          ∙ eligible_queued locked now j (next_queued-IsNext locked now jobs j e).eligible

      sound_one :
          (k : Job)
          → (k.id ≡ j.id → k ≡ j)
          → IsSound k
          → IsSound (if k.id == j.id then run_job worker now k else k)
      sound_one k h s = elim (Bool-cases (k.id == j.id)) [
        | inl p ↦ rw p (run_job-IsSound worker now k (is_it k p h) s)
        | inr p ↦ rw p s
      ]

      fixed_one :
          (k : Job)
          → (k.id ≡ j.id → k ≡ j)
          → is_terminal k.status ≡ true
          → (if k.id == j.id then run_job worker now k else k) ≡ k
      fixed_one k h t = elim (Bool-cases (k.id == j.id)) [
        | inl p ↦ absurd (terminal-ne-queued k (is_it k p h) t)
        | inr p ↦ rw p
      ]

  pub claim-Keeps :
      (locked : ℕ → Bool) (now clock : ℕ) (worker : String) (jobs : List Job)
      → IsValid jobs
      → Keeps jobs (claim fails locked now clock worker jobs).1
  unfolding claim
  claim-Keeps locked now clock worker jobs v = elim (Option-cases (next_queued locked now jobs)) [
    | inl e ↦ ground (arith, Keeps-refl jobs v)
    | inr (j, e) ↦
        ground (arith, Keeps-refl jobs v, mark_running-Keeps locked now worker jobs j e v)
  ]

  held_running :
      (id : ℕ) (worker : String) (j : Job)
      → is_held id worker j ≡ true
      → j.status ≡ JobStatus.running
  held_running id worker j e = ground arith

  -- An update of the running rows that a worker holds.
  held-Keeps :
      (f : Job → Job) (id : ℕ) (worker : String) (jobs : List Job)
      → ((j : Job) → (f j).id ≡ j.id)
      → ((j : Job) → (f j).submission_id ≡ j.submission_id)
      → ((j : Job) → j.status ≡ JobStatus.running → IsSound j → IsSound (f j))
      → IsValid jobs
      → Keeps jobs (map (λ j. if is_held id worker j then f j else j) jobs)
  held-Keeps f id worker jobs ids subs sound v =
      map-Keeps (λ j. if is_held id worker j then f j else j) jobs (λ j. keys j)
        (λ j. submissions j) (All-always (λ j. sound_one j) jobs)
        (All-always (λ j. fixed_one j) jobs) v
    where
      keys : (j : Job) → (if is_held id worker j then f j else j).id ≡ j.id
      keys j = elim (Bool-cases (is_held id worker j)) [ inl p ↦ rw p (ids j) | inr p ↦ rw p ]

      submissions :
          (j : Job) → (if is_held id worker j then f j else j).submission_id ≡ j.submission_id
      submissions j = elim (Bool-cases (is_held id worker j)) [
        | inl p ↦ rw p (subs j)
        | inr p ↦ rw p
      ]

      sound_one : (j : Job) → IsSound j → IsSound (if is_held id worker j then f j else j)
      sound_one j s = elim (Bool-cases (is_held id worker j)) [
        | inl p ↦ rw p (sound j (held_running id worker j p) s)
        | inr p ↦ rw p s
      ]

      fixed_one :
          (j : Job) → is_terminal j.status ≡ true → (if is_held id worker j then f j else j) ≡ j
      fixed_one j t = elim (Bool-cases (is_held id worker j)) [
        | inl p ↦ absurd (terminal-ne-running j (held_running id worker j p) t)
        | inr p ↦ rw p
      ]

  finish_job-IsSound :
      (status : JobStatus) (last_error : Option String) (now : ℕ) (j : Job)
      → is_terminal status ≡ true
      → j.status ≡ JobStatus.running
      → IsSound j
      → IsSound (finish_job status last_error now j)
  finish_job-IsSound status last_error now j t e h = ground arith

  acknowledge-Keeps :
      (now id : ℕ) (worker : String) (status : JobStatus) (last_error : String) (jobs : List Job)
      → IsValid jobs
      → Keeps jobs (acknowledge fails now id worker status last_error jobs).1
  unfolding acknowledge
  acknowledge-Keeps now id worker status last_error jobs v =
      elim (Bool-cases (is_terminal status)) [
        | inl t ↦ ground (
          arith,
          Keeps-refl jobs v,
          held-Keeps (finish_job status (text_value last_error) now) id worker jobs (λ j. refl)
              (λ j. refl) (λ j. finish_job-IsSound status (text_value last_error) now j t) v,
        )
        | inr t ↦ ground (arith, Keeps-refl jobs v)
      ]

  retry-Keeps :
      (now id : ℕ) (worker : String) (available_at : ℕ) (last_error : String) (jobs : List Job)
      → IsValid jobs
      → Keeps jobs (retry fails now id worker available_at last_error jobs).1
  unfolding retry
  retry-Keeps now id worker available_at last_error jobs v = ground (
    arith,
    Keeps-refl jobs v,
    held-Keeps (requeue_job available_at (text_value last_error) now) id worker jobs (λ j. refl)
        (λ j. refl) (λ j p s. (refl, refl, refl)) v,
  )

  Step-Keeps : {jobs jobs' : List Job} → Step jobs jobs' → IsValid jobs → Keeps jobs jobs'
  Step-Keeps {jobs} (enqueued id submission now fresh e) v =
      rw e (enqueue-Keeps id submission now jobs fresh v)
  Step-Keeps {jobs} (claimed locked now clock worker e) v =
      rw e (claim-Keeps locked now clock worker jobs v)
  Step-Keeps {jobs} (acknowledged now id worker status last_error e) v =
      rw e (acknowledge-Keeps now id worker status last_error jobs v)
  Step-Keeps {jobs} (retried now id worker available_at last_error e) v =
      rw e (retry-Keeps now id worker available_at last_error jobs v)

-- Tables that a sequence of calls leads to; every call has its own failures of the driver.
pub data Reach (jobs : List Job) : List Job → Type 0 where
  here : Reach jobs jobs
  next :
      {some_jobs more_jobs : List Job} (fails : Call → Bool)
      → Reach jobs some_jobs
      → Step fails some_jobs more_jobs
      → Reach jobs more_jobs

-- Whatever calls of the queue follow one another, by any workers and with any failures of the
-- driver, the table stays well formed (unique ids and submissions, columns that agree with the
-- status), and a job that is done or in error is never changed again. New ids are unused.
pub Reach-Keeps :
    {jobs jobs' : List Job}
    → IsValid jobs
    → Reach jobs jobs'
    → IsValid jobs'
      × ((id : ℕ) (j : Job)
          → get_job id jobs ≡ some j
          → is_terminal j.status ≡ true
          → get_job id jobs' ≡ some j)
Reach-Keeps {jobs} v here = (v, λ id j e t. e)
Reach-Keeps v (next fails r step) =
    let (v', before) = Reach-Keeps v r in
    let (v'', after) = Step-Keeps fails step v' in (v'', λ id j e t. after id j (before id j e t) t)
