-- ===== src/Jobs/Holder.antt =====
-- Who may acknowledge a job: Queue.Acknowledge of packages/go/jobs/queue.go.
use lab_kit.Prelude.{
  ℕ, ◌≡◌, refl, ◌≢◌, ◌↔◌, String, Option, none, some, List, [], ◌∷◌, Bool, true, false, arith, ◌==◌,
  Bool-cases, if◌then◌else◌, map, sym, ◌∙◌, ap, inl, inr, eq_iff, str_eq,
}
use lab_kit.Prelude.Results.{Result, ok, err}
use lab_kit.Db.{Job, JobStatus}
use lab_kit.Db.Jobs.{is_held, text_is, finish_job}
use lab_kit.Jobs.{
  Call, Error, transition_not_allowed, acknowledge, valid_worker_id, is_terminal, text_value,
}
use lab_kit.Jobs.Valid.{IsValid, get_job}
use lab_kit.Jobs.Ownership.{acknowledge_held}

-- A worker holds a job that is running under its name.
abbrev pub IsHolder : String → Job → Type 0
IsHolder worker j = (j.status ≡ JobStatus.running) × (j.worker_id ≡ some worker)

pub held_iff :
    (id : ℕ) (worker : String) (j : Job)
    → (is_held id worker j ≡ true) ↔ ((j.id ≡ id) × IsHolder worker j)
held_iff id worker j = (
  λ h. (ground arith, (ground arith, named j.worker_id (ground arith))),
  λ (its, (running, mine)).
      let same : str_eq worker worker ≡ true = (eq_iff worker worker).1 refl in
      rw (running, mine) (ground arith),
)
  where
    named : (w : Option String) → text_is w worker ≡ true → w ≡ some worker
    named none h = cc
    named (some t) h = ap some ((eq_iff t worker).0 h)

get_job-id : (id : ℕ) (jobs : List Job) (j : Job) → get_job id jobs ≡ some j → j.id ≡ id
get_job-id id [] j e = cc
get_job-id id (k ∷ jobs) j e = elim (Bool-cases (k.id == id)) [
  | inl same ↦ ground arith
  | inr other ↦ get_job-id id jobs j (rw other at e)
]

-- The rows of other ids stay.
get_job-other :
    (f : Job → Job) (id : ℕ) (worker : String) (jobs : List Job) (k : ℕ)
    → ((j : Job) → (f j).id ≡ j.id)
    → k ≢ id
    → get_job k (map (λ j. if is_held id worker j then f j else j) jobs) ≡ get_job k jobs
get_job-other f id worker [] k ids other = refl
get_job-other f id worker (j ∷ jobs) k ids other =
    let rest = get_job-other f id worker jobs k ids other in
    elim (Bool-cases (is_held id worker j)) [
      | inl h ↦
          let its : j.id ≡ id = ((held_iff id worker j).0 h).0 in
          let old : (j.id == k) ≡ false = ground arith in
          let new : ((f j).id == k) ≡ false = rw (ids j) old in rw (h, new, old) rest
      | inr h ↦ rw (h, rest) refl
    ]

-- On a well-formed table, with a worker id that is not blank, a terminal status and a driver that
-- answers: an acknowledgement succeeds exactly if the job is running under that worker's name, and
-- then its row has the status, the error text and the time, and else is as it was. For any other
-- worker or state the call is refused as a transition that is not allowed, and no row changes. The
-- rows of other jobs never change.
pub acknowledge_owner :
    (fails : Call → Bool) (now id : ℕ) (worker : String) (status : JobStatus) (last_error : String)
    (jobs : List Job) (j : Job)
    → fails Call.set_terminal ≡ false
    → valid_worker_id worker ≡ true
    → is_terminal status ≡ true
    → IsValid jobs
    → get_job id jobs ≡ some j
    → let (result, jobs') = acknowledge fails now id worker status last_error jobs in
      ((result ≡ ok tt) ↔ IsHolder worker j)
      × (IsHolder worker j
          → get_job id jobs'
            ≡ some (record j {
              status = status;
              last_error = text_value last_error;
              finished_at = some now;
              updated_at = now;
            }))
      × ((¬ IsHolder worker j) → (result ≡ err transition_not_allowed) × (jobs' ≡ jobs))
      × ((k : ℕ) → k ≢ id → get_job k jobs' ≡ get_job k jobs)
unfolding acknowledge
acknowledge_owner fails now id worker status last_error jobs j up named terminal v e =
    let (yes_held, not_held) =
      acknowledge_held fails now id worker status last_error jobs j up named terminal v e in
    let its = get_job-id id jobs j e in
    let holds : IsHolder worker j → is_held id worker j ≡ true =
      λ h. (held_iff id worker j).1 (its, h) in
    (
      (
        λ done. elim (Bool-cases (is_held id worker j)) [
          | inl held ↦ ((held_iff id worker j).0 held).1
          | inr free ↦ absurd (differ (sym (not_held free).0 ∙ done))
        ],
        λ h. (yes_held (holds h)).0,
      ),
      (λ h. (yes_held (holds h)).1),
      (λ h. not_held (elim (Bool-cases (is_held id worker j)) [
        | inl held ↦ absurd (h ((held_iff id worker j).0 held).1)
        | inr free ↦ free
      ])),
      λ k other.
          rw (named, terminal, up)
            (get_job-other (finish_job status (text_value last_error) now) id worker jobs k
              (λ x. refl) other),
    )
  where
    differ : ◌≡◌ {A = Result Error (Unit {0})} (err transition_not_allowed) (ok tt) → ⊥
    differ p = ground arith
