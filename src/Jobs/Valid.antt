-- ===== src/Jobs/Valid.antt =====
-- When the table of jobs is well formed, and updates of its rows.
use lab_kit.Prelude.{
  ℕ, ◌≡◌, refl, ◌≢◌, inl, inr, String, Option, none, some, List, [], ◌∷◌, ◌++◌, true, false, arith,
  All, All-imp, All-append, In, any, find, ◌==◌, Bool-cases, map, is_some, sym, ◌∙◌, ap,
}
use mathlib.Core.Option
use lab_kit.Db.{Job, JobStatus}

-- What the columns hold in each status.
abbrev SoundAt : JobStatus → Option String → Option ℕ → Option ℕ → Type 0
SoundAt JobStatus.queued worker started finished =
    (worker ≡ none) × (started ≡ none) × (finished ≡ none)
SoundAt JobStatus.running worker started finished =
    (is_some worker ≡ true) × (is_some started ≡ true) × (finished ≡ none)
SoundAt _ worker started finished =
    (is_some worker ≡ true) × (is_some started ≡ true) × (is_some finished ≡ true)

abbrev pub IsSound : Job → Type 0
IsSound j = SoundAt j.status j.worker_id j.started_at j.finished_at

-- No other row has the job's id or its submission.
abbrev pub IsAlone : Job → List Job → Type 0
IsAlone j jobs = All (λ k. (k.id ≢ j.id) × (k.submission_id ≢ j.submission_id)) jobs

-- Ids and submissions are unique, and the columns agree with the status: a queued job has no
-- worker and no times, a running one has a worker, a terminal one has a finishing time as well.
abbrev pub IsValid : List Job → Type 0
IsValid [] = Unit
IsValid (j ∷ jobs) = IsSound j × IsAlone j jobs × IsValid jobs

abbrev pub get_job : ℕ → List Job → Option Job
get_job id jobs = find (λ j. j.id == id) jobs

-- An update of rows that leaves the two keys alone.
module _ (g : Job → Job) (ids : (j : Job) → (g j).id ≡ j.id) where
  pub get_job-map :
      (id : ℕ) (jobs : List Job) → get_job id (map g jobs) ≡ Option.map g (get_job id jobs)
  get_job-map id [] = refl
  get_job-map id (j ∷ jobs) = ground (arith, ids j, get_job-map id jobs)

  module _ (subs : (j : Job) → (g j).submission_id ≡ j.submission_id) where
    IsAlone-map : (j : Job) (jobs : List Job) → IsAlone j jobs → IsAlone (g j) (map g jobs)
    IsAlone-map j [] h = tt
    IsAlone-map j (k ∷ jobs) h =
        ((rw (ids j, ids k) h.0.0, rw (subs j, subs k) h.0.1), IsAlone-map j jobs h.1)

    pub IsValid-map :
        (jobs : List Job)
        → All (λ j. IsSound j → IsSound (g j)) jobs
        → IsValid jobs
        → IsValid (map g jobs)
    IsValid-map [] k h = tt
    IsValid-map (j ∷ jobs) k h = (k.0 h.0, IsAlone-map j jobs h.1, IsValid-map jobs k.1 h.2)

-- The row with a listed job's id is that job.
pub same_id :
    (j : Job) (jobs : List Job) → IsValid jobs → In j jobs → All (λ k. k.id ≡ j.id → k ≡ j) jobs
same_id j [] v h = absurd h
same_id j (k ∷ jobs) v (inl e) = (
  λ _. sym e,
  All-imp (λ i alone same. absurd (alone.0 (same ∙ ap (λ (x : Job). x.id) e))) jobs v.1,
)
same_id j (k ∷ jobs) v (inr m) = (λ e. absurd (alone_in j jobs m v.1 e), same_id j jobs v.2 m)
  where
    alone_in : (i : Job) (is : List Job) → In i is → IsAlone k is → k.id ≡ i.id → ⊥
    alone_in i (x ∷ is) (inl same) alone e = alone.0.0 (ap (λ (y : Job). y.id) (sym same) ∙ sym e)
    alone_in i (x ∷ is) (inr m) alone e = alone_in i is m alone.1 e
    alone_in i [] m alone e = absurd m

pub get_job-append :
    (id : ℕ) (jobs new : List Job) (j : Job)
    → get_job id jobs ≡ some j
    → get_job id (jobs ++ new) ≡ some j
get_job-append id [] new j e = cc
get_job-append id (k ∷ jobs) new j e = ground (arith, get_job-append id jobs new j)

-- A row at the end, with new keys.
IsAlone-snoc :
    (j k : Job) (jobs : List Job)
    → IsAlone j jobs
    → k.id ≢ j.id
    → k.submission_id ≢ j.submission_id
    → IsAlone j (jobs ++ k ∷ [])
IsAlone-snoc j k jobs h p q = All-append _ jobs (k ∷ []) h ((p, q), tt)

pub IsValid-snoc :
    (k : Job) (jobs : List Job)
    → get_job k.id jobs ≡ none
    → any (λ j. j.submission_id == k.submission_id) jobs ≡ false
    → IsSound k
    → IsValid jobs
    → IsValid (jobs ++ k ∷ [])
IsValid-snoc k [] p q sound v = (sound, tt, tt)
IsValid-snoc k (j ∷ jobs) p q sound v =
    let other : (j.id == k.id) ≡ false = ground arith in
    let other_submission : (j.submission_id == k.submission_id) ≡ false = ground arith in
    (
      v.0,
      IsAlone-snoc j k jobs v.1 (ground arith) (ground arith),
      IsValid-snoc k jobs (ground arith) (ground arith) sound v.2,
    )

-- A row that is found has the id that was looked for.
pub get_job-id : (id : ℕ) (jobs : List Job) (j : Job) → get_job id jobs ≡ some j → j.id ≡ id
get_job-id id [] j e = cc
get_job-id id (k ∷ jobs) j e = ground (arith, get_job-id id jobs j)

pub get_job-In : (id : ℕ) (jobs : List Job) (j : Job) → get_job id jobs ≡ some j → In j jobs
get_job-In id [] j e = cc
get_job-In id (k ∷ jobs) j e = elim (Bool-cases (k.id == id)) [
  | inl same ↦ inl (ground arith)
  | inr other ↦ inr (get_job-In id jobs j (rw other at e))
]
