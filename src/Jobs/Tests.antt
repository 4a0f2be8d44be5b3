-- ===== src/Jobs/Tests.antt =====
-- The queue on small tables: packages/go/jobs.
use lab_kit.Prelude.{◌↔◌, ℕ, ◌≡◌, refl, ◌≢◌, none, some, List, [], ◌∷◌, Bool, true, false, arith}
use lab_kit.Prelude.Results.{ok, err}
use lab_kit.Prelude.Text.{trim_space}
use lab_kit.Db.{Job, JobStatus}
use lab_kit.Db.Jobs.{new_job, run_job, create_job, next_queued, mark_running, mark_done, finish_job}
use lab_kit.Jobs.{
  Call, enqueue, claim, acknowledge, valid_worker_id, is_terminal, text_value,
  transition_not_allowed,
}
use lab_kit.Jobs.Refine.{QueueCall, IsMove, move_of, table_of, view, take}
use lab_kit.Jobs.Moves.{queue-IsMove}
use lab_kit.Jobs.Claim.{IsNext}
use lab_kit.Jobs.Valid.{IsValid, get_job}
use lab_kit.Jobs.Lifecycle.{enqueued, claimed, acknowledged, Reach, here, next, Reach-Keeps}
use lab_kit.Jobs.Holder.{IsHolder, acknowledge_owner}
use lab_kit.Jobs.Ownership.{claim_hands_out-IsNext, claim_exclusive}

abbrev up : Call → Bool
up _ = false

abbrev unlocked : ℕ → Bool
unlocked _ = false

abbrev first : Job
first = new_job 1 10 100

abbrev second : Job
second = new_job 2 20 50

abbrev finished : Job
finished = finish_job JobStatus.done none 300 (run_job "w1" 200 first)

abbrev two_jobs : List Job
two_jobs = first ∷ second ∷ []

two_jobs-IsValid : IsValid two_jobs
two_jobs-IsValid =
    ((refl, refl, refl), ((ground arith, ground arith), tt), ((refl, refl, refl), tt, tt))

history : Reach [] (finished ∷ [])
unfolding enqueue claim acknowledge create_job next_queued mark_running mark_done valid_worker_id
    trim_space
history =
    next up
      (next up (next up here (enqueued 1 10 100 refl refl)) (claimed unlocked 200 201 "w1" refl))
      (acknowledged 300 1 "w1" JobStatus.done "" refl)

one_job-IsValid : IsValid (finished ∷ [])
one_job-IsValid = ((refl, refl, refl), tt, tt)

-- The finished job stays as it is.
Reach-Keeps_example :
    IsValid (finished ∷ [])
    × ((id : ℕ) (j : Job)
        → get_job id [] ≡ some j
        → is_terminal j.status ≡ true
        → get_job id (finished ∷ []) ≡ some j)
Reach-Keeps_example = Reach-Keeps tt history

abbrev claimed_second : List Job
claimed_second = first ∷ run_job "w1" 200 second ∷ []

abbrev claimed_both : List Job
claimed_both = run_job "w2" 210 first ∷ run_job "w1" 200 second ∷ []

-- The job that is available first is handed out first.
claim_two :
    claim up unlocked 200 201 "w1" two_jobs ≡ (ok (some (run_job "w1" 201 second)), claimed_second)
unfolding claim next_queued mark_running valid_worker_id trim_space
claim_two = refl

claim_rest :
    claim up unlocked 210 211 "w2" claimed_second
    ≡ (ok (some (run_job "w2" 211 first)), claimed_both)
unfolding claim next_queued mark_running valid_worker_id trim_space
claim_rest = refl

claim_hands_out-IsNext_example :
    (j : Job) × IsNext unlocked 200 two_jobs j
    × (run_job "w1" 201 second ≡ run_job "w1" 201 j)
    × (get_job j.id claimed_second ≡ some (run_job "w1" 200 j))
    × ((id : ℕ) → id ≢ j.id → get_job id claimed_second ≡ get_job id two_jobs)
claim_hands_out-IsNext_example =
    claim_hands_out-IsNext up unlocked 200 201 "w1" two_jobs claimed_second
      (run_job "w1" 201 second) two_jobs-IsValid claim_two

claim_exclusive_example : (run_job "w1" 201 second).id ≢ (run_job "w2" 211 first).id
claim_exclusive_example =
    claim_exclusive up unlocked unlocked 200 210 201 211 "w1" "w2" two_jobs claimed_second
      claimed_both (run_job "w1" 201 second) (run_job "w2" 211 first) two_jobs-IsValid claim_two
      claim_rest

claimed_second-IsValid : IsValid claimed_second
claimed_second-IsValid =
    ((refl, refl, refl), ((ground arith, ground arith), tt), ((refl, refl, refl), tt, tt))

w1_valid : valid_worker_id "w1" ≡ true
unfolding valid_worker_id trim_space
w1_valid = refl

acknowledge_owner_example :
    let (result, jobs') = acknowledge up 300 2 "w1" JobStatus.error "boom" claimed_second in
    ((result ≡ ok tt) ↔ IsHolder "w1" (run_job "w1" 200 second))
    × (IsHolder "w1" (run_job "w1" 200 second)
        → get_job 2 jobs'
          ≡ some (record (run_job "w1" 200 second) {
            status = JobStatus.error;
            last_error = text_value "boom";
            finished_at = some 300;
            updated_at = 300;
          }))
    × ((¬ IsHolder "w1" (run_job "w1" 200 second))
        → (result ≡ err transition_not_allowed) × (jobs' ≡ claimed_second))
    × ((k : ℕ) → k ≢ 2 → get_job k jobs' ≡ get_job k claimed_second)
acknowledge_owner_example =
    acknowledge_owner up 300 2 "w1" JobStatus.error "boom" claimed_second (run_job "w1" 200 second)
      refl w1_valid refl claimed_second-IsValid refl

-- The claim takes the second job, which waits the longest.
takes : move_of up two_jobs (QueueCall.claimed unlocked 200 201 "w1") ≡ some (take 2 "w1")
unfolding claim next_queued mark_running valid_worker_id trim_space
takes = refl

queue-IsMove_example :
    IsMove
      (move_of up two_jobs (QueueCall.claimed unlocked 200 201 "w1"))
      (view two_jobs)
      (view (table_of up two_jobs (QueueCall.claimed unlocked 200 201 "w1")))
queue-IsMove_example =
    queue-IsMove up two_jobs (QueueCall.claimed unlocked 200 201 "w1") two_jobs-IsValid
