-- ===== src/Jobs/Refine.antt =====
-- The queue as its callers see it: packages/go/jobs. Of a table only the phase of each job counts, and
-- each call makes one move of a queue of phases, or none.
use mathlib.Core.Option
use lab_kit.Prelude.{
  ℕ, ◌≡◌, refl, sym, ap, ◌∙◌, String, Option, none, some, List, [], ◌∷◌, Bool, true, false, arith,
  eq_iff, ◌==◌, ==_iff, count, map, if◌then◌else◌, Bool-cases, Option-cases, inl, inr, ◌⊎◌,
}
use lab_kit.Prelude.Results.{Result, ok, err}
use lab_kit.Db.{Job, JobStatus}
use lab_kit.Db.Jobs.{is_held, is_running, text_is}
use lab_kit.Jobs.{Call, Error, enqueue, claim, acknowledge, retry}
use lab_kit.Jobs.Valid.{IsValid, get_job}
use lab_kit.Jobs.Ownership.{count-held, get_job-held}

-- The phases of a job.
pub data Phase : Type 0 where
  waiting : Phase
  held_by : Option String → Phase
  finished : JobStatus → Phase

abbrev pub phase_of : JobStatus → Option String → Phase
phase_of JobStatus.queued worker = waiting
phase_of JobStatus.running worker = held_by worker
phase_of JobStatus.done worker = finished JobStatus.done
phase_of JobStatus.error worker = finished JobStatus.error

abbrev pub phase : Job → Phase
phase j = phase_of j.status j.worker_id

-- The abstract queue: the phases by id.
abbrev pub View : Type 0
View = ℕ → Option Phase

abbrev pub view : List Job → View
view jobs id = Option.map phase (get_job id jobs)

pub data Move : Type 0 where
  add : ℕ → Move
  take : ℕ → String → Move
  finish : ℕ → String → JobStatus → Move
  give_back : ℕ → String → Move

abbrev pub moved_id : Move → ℕ
moved_id (add id) = id
moved_id (take id worker) = id
moved_id (finish id worker status) = id
moved_id (give_back id worker) = id

-- The phase that a move asks for, and the one that it leads to.
abbrev pub from_phase : Move → Option Phase
from_phase (add id) = none
from_phase (take id worker) = some waiting
from_phase (finish id worker status) = some (held_by (some worker))
from_phase (give_back id worker) = some (held_by (some worker))

abbrev pub to_phase : Move → Phase
to_phase (add id) = waiting
to_phase (take id worker) = held_by (some worker)
to_phase (finish id worker status) = finished status
to_phase (give_back id worker) = waiting

-- A move of the abstract queue, or none.
abbrev pub IsMove : Option Move → View → View → Type 0
IsMove none q q' = (k : ℕ) → q' k ≡ q k
IsMove (some m) q q' =
    (q (moved_id m) ≡ from_phase m)
    × ((k : ℕ) → q' k ≡ (if k == moved_id m then some (to_phase m) else q k))

-- The moves that the answers of the calls stand for.
abbrev pub added : Result Error Job → Option Move
added (ok job) = some (add job.id)
added (err e) = none

abbrev pub taken : String → Result Error (Option Job) → Option Move
taken worker (ok (some job)) = some (take job.id worker)
taken worker (ok none) = none
taken worker (err e) = none

abbrev pub done_by : Move → Result Error (Unit {0}) → Option Move
done_by m (ok done) = some m
done_by m (err e) = none

-- A call of the queue: an enqueue takes a fresh id.
pub data QueueCall (jobs : List Job) : Type 0 where
  enqueued : (id submission now : ℕ) → get_job id jobs ≡ none → QueueCall jobs
  claimed : (locked : ℕ → Bool) (now clock : ℕ) (worker : String) → QueueCall jobs
  acknowledged :
      (now id : ℕ) (worker : String) (status : JobStatus) (last_error : String) → QueueCall jobs
  retried : (now id : ℕ) (worker : String) (available_at : ℕ) (last_error : String) → QueueCall jobs

module _ (fails : Call → Bool) (jobs : List Job) where
  -- The move that the answer of a call stands for.
  abbrev pub move_of : QueueCall jobs → Option Move
  move_of (enqueued id submission now fresh) = added (enqueue fails id submission now jobs).0
  move_of (claimed locked now clock worker) =
      taken worker (claim fails locked now clock worker jobs).0
  move_of (acknowledged now id worker status last_error) =
      done_by (finish id worker status) (acknowledge fails now id worker status last_error jobs).0
  move_of (retried now id worker available_at last_error) =
      done_by (give_back id worker) (retry fails now id worker available_at last_error jobs).0

  abbrev pub table_of : QueueCall jobs → List Job
  table_of (enqueued id submission now fresh) = (enqueue fails id submission now jobs).1
  table_of (claimed locked now clock worker) = (claim fails locked now clock worker jobs).1
  table_of (acknowledged now id worker status last_error) =
      (acknowledge fails now id worker status last_error jobs).1
  table_of (retried now id worker available_at last_error) =
      (retry fails now id worker available_at last_error jobs).1

none_held_by :
    (id : ℕ) (worker : String) (jobs : List Job)
    → get_job id jobs ≡ none
    → count (is_held id worker) jobs ≡ 0
none_held_by id worker [] e = refl
none_held_by id worker (j ∷ jobs) e = elim (Bool-cases (j.id == id)) [
  | inl same ↦ ground arith
  | inr other ↦ ground (arith, none_held_by id worker jobs (ground arith))
]

-- Whether a worker holds the job.
pub holding :
    (id : ℕ) (worker : String) (jobs : List Job)
    → IsValid jobs
    → (count (is_held id worker) jobs ≡ 0)
      ⊎ ((j : Job) × (get_job id jobs ≡ some j)
          × (is_held id worker j ≡ true)
          × (count (is_held id worker) jobs ≡ 1))
holding id worker jobs v = elim (Option-cases (get_job id jobs)) [
  | inl e ↦ inl (none_held_by id worker jobs e)
  | inr (j, e) ↦ elim (Bool-cases (is_held id worker j)) [
    | inl h ↦ inr (j, e, h, count-held id worker jobs j v e ∙ rw h refl)
    | inr h ↦ inl (count-held id worker jobs j v e ∙ rw h refl)
  ]
]

running_phase :
    (s : JobStatus) (w : Option String) (worker : String)
    → is_running s ≡ true
    → text_is w worker ≡ true
    → phase_of s w ≡ held_by (some worker)
running_phase JobStatus.running (some t) worker r h =
    ap (λ (x : String). held_by (some x)) ((eq_iff t worker).0 h)
running_phase JobStatus.running none worker r h = absurd (ground arith)
running_phase JobStatus.queued w worker r h = absurd (ground arith)
running_phase JobStatus.done w worker r h = absurd (ground arith)
running_phase JobStatus.error w worker r h = absurd (ground arith)

held_phase :
    (id : ℕ) (worker : String) (j : Job)
    → is_held id worker j ≡ true
    → phase j ≡ held_by (some worker)
held_phase id worker j h = running_phase j.status j.worker_id worker (ground arith) (ground arith)

-- An update of the row that a worker holds, seen from outside.
module _ (f : Job → Job) (ids : (j : Job) → (f j).id ≡ j.id) (id : ℕ) (worker : String) where
  abbrev pub updated : List Job → List Job
  updated jobs = map (λ j. if is_held id worker j then f j else j) jobs

  others_same :
      (k : ℕ) (jobs : List Job) → (k == id) ≡ false → get_job k (updated jobs) ≡ get_job k jobs
  others_same k [] other = refl
  others_same k (j ∷ jobs) other = elim (Bool-cases (is_held id worker j)) [
    | inl held ↦
        let is_id : j.id ≡ id = ground arith in
        let not_k : (j.id == k) ≡ false = ground arith in
        let not_k' : ((f j).id == k) ≡ false = rw (ids j) not_k in
        rw (held, not_k, not_k') (others_same k jobs other)
    | inr free ↦ rw free (same_head j jobs (others_same k jobs other))
  ]
    where
      same_head :
          (j : Job) (js : List Job)
          → get_job k (updated js) ≡ get_job k js
          → get_job k (j ∷ updated js) ≡ get_job k (j ∷ js)
      same_head j js e = elim (Bool-cases (j.id == k)) [ inl h ↦ rw h refl | inr h ↦ rw h e ]

  view-updated :
      (jobs : List Job) (j : Job) (k : ℕ)
      → get_job id jobs ≡ some j
      → is_held id worker j ≡ true
      → view (updated jobs) k ≡ (if k == id then some (phase (f j)) else view jobs k)
  view-updated jobs j k listed held = elim (Bool-cases (k == id)) [
    | inr other ↦ rw other (ap (Option.map phase) (others_same k jobs other))
    | inl same ↦
        let it : k ≡ id = (==_iff k id).0 same in
        rw same (
          ap (λ (n : ℕ). Option.map phase (get_job n (updated jobs))) it
          ∙ ap (Option.map phase) (get_job-held f id worker jobs j ids listed held))
  ]

  pub updated-IsMove :
      (m : Move) (jobs : List Job) (j : Job)
      → moved_id m ≡ id
      → from_phase m ≡ some (held_by (some worker))
      → phase (f j) ≡ to_phase m
      → get_job id jobs ≡ some j
      → is_held id worker j ≡ true
      → IsMove (some m) (view jobs) (view (updated jobs))
  updated-IsMove m jobs j same from to listed held = (
    ap (view jobs) same
        ∙ ap (Option.map phase) listed
        ∙ ap some (held_phase id worker j held)
        ∙ sym from,
    λ k. rw same (view-updated jobs j k listed held ∙ rw to refl),
  )
