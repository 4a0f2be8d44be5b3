-- ===== src/Jobs/Ownership.antt =====
-- A claimed job belongs to its worker until it acknowledges it or puts it back:
-- packages/go/jobs/claim.go and queue.go.
use lab_kit.Prelude.{
  ℕ, suc, ◌≡◌, refl, ◌≢◌, String, Option, none, some, List, [], ◌∷◌, Bool, true, false, arith, All,
  In, count, ◌==◌, Bool-cases, Option-cases, if◌then◌else◌, map, sym, ◌∙◌, ap, inl, inr,
}
use mathlib.Core.Option
use lab_kit.Prelude.Results.{Result, ok, err}
use lab_kit.Db.{Job, JobStatus}
use lab_kit.Db.Jobs.{is_eligible, is_held, next_queued, mark_running, run_job, finish_job}
use lab_kit.Jobs.{
  Call, Error, transition_not_allowed, claim, acknowledge, valid_worker_id, is_terminal, text_value,
}
use lab_kit.Jobs.Claim.{IsNext, next_queued-IsNext, next_queued-none}
use lab_kit.Jobs.Valid.{IsValid, get_job, get_job-map, same_id, IsAlone}
use lab_kit.Jobs.Lifecycle.{claim-Keeps}

-- No row of another id is held.
none_held :
    (id : ℕ) (worker : String) (j : Job) (jobs : List Job)
    → j.id ≡ id
    → IsAlone j jobs
    → count (is_held id worker) jobs ≡ 0
none_held id worker j [] e h = refl
none_held id worker j (k ∷ jobs) e h =
    let other : k.id ≢ id = λ p. h.0.0 (p ∙ sym e) in
    ground (arith, none_held id worker j jobs e h.1)

-- The rows affected are one if the job is held by the worker, and none otherwise.
pub count-held :
    (id : ℕ) (worker : String) (jobs : List Job) (j : Job)
    → IsValid jobs
    → get_job id jobs ≡ some j
    → count (is_held id worker) jobs ≡ (if is_held id worker j then 1 else 0)
count-held id worker [] j v e = cc
count-held id worker (k ∷ jobs) j v e = elim (Bool-cases (k.id == id)) [
  | inl same ↦
      let it : k ≡ j = ground arith in
      rw (none_held id worker k jobs (ground arith) v.1, ← it) (ground arith)
  | inr other ↦ rw other (count-held id worker jobs j v.2 (rw other at e))
]

pub map_none_held :
    (f : Job → Job) (id : ℕ) (worker : String) (jobs : List Job)
    → count (is_held id worker) jobs ≡ 0
    → map (λ j. if is_held id worker j then f j else j) jobs ≡ jobs
map_none_held f id worker [] e = refl
map_none_held f id worker (k ∷ jobs) e = elim (Bool-cases (is_held id worker k)) [
  | inl p ↦ absurd (one_held (rw p at e))
  | inr p ↦ rw (p, map_none_held f id worker jobs (rw p at e))
]
  where
    one_held : suc (count (is_held id worker) jobs) ≡ 0 → ⊥
    one_held h = omega arith

pub get_job-held :
    (f : Job → Job) (id : ℕ) (worker : String) (jobs : List Job) (j : Job)
    → ((k : Job) → (f k).id ≡ k.id)
    → get_job id jobs ≡ some j
    → is_held id worker j ≡ true
    → get_job id (map (λ k. if is_held id worker k then f k else k) jobs) ≡ some (f j)
get_job-held f id worker [] j ids e h = cc
get_job-held f id worker (k ∷ jobs) j ids e h = elim (Bool-cases (k.id == id)) [
  | inl same ↦
      let it : k ≡ j = ground arith in
      let held : is_held id worker k ≡ true = rw it h in rw held (ground (arith, ids k))
  | inr other ↦
      let free : is_held id worker k ≡ false = ground arith in
      rw (free, other) (get_job-held f id worker jobs j ids (rw other at e) h)
]

-- An acknowledgement by the test of its WHERE clause on the row of the job.
pub acknowledge_held :
    (fails : Call → Bool) (now id : ℕ) (worker : String) (status : JobStatus) (last_error : String)
    (jobs : List Job) (j : Job)
    → fails Call.set_terminal ≡ false
    → valid_worker_id worker ≡ true
    → is_terminal status ≡ true
    → IsValid jobs
    → get_job id jobs ≡ some j
    → let (result, jobs') = acknowledge fails now id worker status last_error jobs in
      (is_held id worker j ≡ true
        → (result ≡ ok tt)
          × (get_job id jobs' ≡ some (finish_job status (text_value last_error) now j)))
      × (is_held id worker j ≡ false → (result ≡ err transition_not_allowed) × (jobs' ≡ jobs))
unfolding acknowledge
acknowledge_held fails now id worker status last_error jobs j up named terminal v e =
    let rows = count-held id worker jobs j v e in
    rw (named, terminal, up)
      (
        (λ held. (
          rw (rows, held) refl,
          get_job-held (finish_job status (text_value last_error) now) id worker jobs j (λ k. refl)
              e held,
        )),
        λ free. (
          rw (rows, free) refl,
          map_none_held (finish_job status (text_value last_error) now) id worker jobs
              (rw (rows, free) refl),
        ),
      )

-- What the table holds after MarkEvaluationJobRunning.
mark_running_rows :
    (worker : String) (now : ℕ) (jobs : List Job) (j : Job) (id : ℕ)
    → get_job id (mark_running j.id worker now jobs)
      ≡ Option.map (λ k. if k.id == j.id then run_job worker now k else k) (get_job id jobs)
unfolding mark_running
mark_running_rows worker now jobs j id =
    get_job-map (λ k. if k.id == j.id then run_job worker now k else k) (λ k. ground arith) id jobs

pub get_job_listed :
    (j : Job) (jobs : List Job) → IsValid jobs → In j jobs → get_job j.id jobs ≡ some j
get_job_listed j [] v m = absurd m
get_job_listed j (k ∷ jobs) v m = elim (Bool-cases (k.id == j.id)) [
  | inl same ↦ let it : k ≡ j = (same_id j (k ∷ jobs) v m).0 (ground arith) in rw (same, it) refl
  | inr other ↦ rw other (get_job_listed j jobs v.2 (later m other))
]
  where
    later : In j (k ∷ jobs) → (k.id == j.id) ≡ false → In j jobs
    later (inl e) h = absurd (differ (ap (λ (x : Job). x.id) e) h)
      where
        differ : j.id ≡ k.id → (k.id == j.id) ≡ false → ⊥
        differ p q = ground arith
    later (inr n) h = n

-- A claim that hands out a job hands out the eligible one that is first by (available_at,
-- created_at), in state running under the worker's name with one attempt more. In the table that
-- row alone has changed, to the same status, attempts and worker.
pub claim_hands_out-IsNext :
    (fails : Call → Bool) (locked : ℕ → Bool) (now clock : ℕ) (worker : String)
    (jobs jobs' : List Job) (job : Job)
    → IsValid jobs
    → claim fails locked now clock worker jobs ≡ (ok (some job), jobs')
    → (j : Job) × IsNext locked now jobs j
      × (job ≡ run_job worker clock j)
      × (get_job j.id jobs' ≡ some (run_job worker now j))
      × ((id : ℕ) → id ≢ j.id → get_job id jobs' ≡ get_job id jobs)
unfolding claim
claim_hands_out-IsNext fails locked now clock worker jobs jobs' job v e =
    elim (Option-cases (next_queued locked now jobs)) [
      | inl nothing ↦ absurd (ground arith)
      | inr (j, picked) ↦
          let n = next_queued-IsNext locked now jobs j picked in
          let same : job ≡ run_job worker clock j = ground arith in
          let after : jobs' ≡ mark_running j.id worker now jobs = ground arith in
          (
            j,
            n,
            same,
            rw (after, mark_running_rows worker now jobs j j.id, get_job_listed j jobs v n.listed)
                (ground arith),
            λ id other. rw (after, mark_running_rows worker now jobs j id) (others jobs j id other),
          )
    ]
  where
    others :
        (jobs : List Job) (j : Job) (id : ℕ)
        → id ≢ j.id
        → Option.map (λ k. if k.id == j.id then run_job worker now k else k) (get_job id jobs)
          ≡ get_job id jobs
    others [] j id h = refl
    others (k ∷ jobs) j id h = ground (arith, others jobs j id h)

-- A claim that hands out nothing changes nothing: with no error it found no eligible row.
pub claim_otherwise :
    (fails : Call → Bool) (locked : ℕ → Bool) (now clock : ℕ) (worker : String) (jobs : List Job)
    → let (result, jobs') = claim fails locked now clock worker jobs in
      (result ≡ ok none → (jobs' ≡ jobs) × All (λ k. is_eligible locked now k ≡ false) jobs)
      × ((e : Error) → result ≡ err e → jobs' ≡ jobs)
unfolding claim
claim_otherwise fails locked now clock worker jobs =
    elim (Option-cases (next_queued locked now jobs)) [
      | inl nothing ↦
          let no_row = next_queued-none locked now jobs nothing in
          rw nothing ((λ h. (ground arith, no_row)), λ e h. ground arith)
      | inr (j, picked) ↦ rw picked ((λ h. absurd (ground arith)), λ e h. ground arith)
    ]

eligible_not_run :
    (locked : ℕ → Bool) (now started : ℕ) (worker : String) (j k : Job)
    → k ≡ run_job worker started j
    → is_eligible locked now k ≡ true
    → ⊥
eligible_not_run locked now started worker j k p q = ground arith

-- Two claims in a row, by whichever workers, never hand out the same job.
pub claim_exclusive :
    (fails : Call → Bool) (locked locked' : ℕ → Bool) (now now' clock clock' : ℕ)
    (worker worker' : String) (jobs jobs' jobs'' : List Job) (a b : Job)
    → IsValid jobs
    → claim fails locked now clock worker jobs ≡ (ok (some a), jobs')
    → claim fails locked' now' clock' worker' jobs' ≡ (ok (some b), jobs'')
    → a.id ≢ b.id
claim_exclusive fails locked locked' now now' clock clock' worker worker' jobs jobs' jobs'' a b v e
      e' same =
    let (j, _, got_a, row, _) =
      claim_hands_out-IsNext fails locked now clock worker jobs jobs' a v e in
    let keeps : IsValid (claim fails locked now clock worker jobs).1 =
      (claim-Keeps fails locked now clock worker jobs v).0 in
    let v' : IsValid jobs' =
      rw (ap (λ (p : Result Error (Option Job) × List Job). p.1) e) at keeps in
    let (k, n, got_b, _, _) =
      claim_hands_out-IsNext fails locked' now' clock' worker' jobs' jobs'' b v' e' in
    let listed = get_job_listed k jobs' v' n.listed in
    let ids : j.id ≡ k.id =
      ap (λ (x : Job). x.id) (sym got_a) ∙ same ∙ ap (λ (x : Job). x.id) got_b in
    let it : run_job worker now j ≡ k = ground (arith, row, listed, ids) in
    eligible_not_run locked' now' now worker j k (sym it) n.eligible
