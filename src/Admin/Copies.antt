-- ===== src/Admin/Copies.antt =====
-- The copies that Reevaluate of apps/api/internal/service/admin/service.go makes.
use lab_kit.Prelude.{ℕ, ◌≡◌, refl, String, none, some, List, [], ◌∷◌, ◌++◌, false, arith, count}
use lab_kit.Db.{State, Submission, SubmissionStatus, QuotaState, Job, JobStatus, BoardRow}
use lab_kit.Db.Submissions.{get_submission, counts}

-- A new submission that repeats an old one at no charge, and its job.
pub record IsCopy (old : Submission) (new : Submission) (job : Job) : Type 0 where
  pub same_user : new.user_id ≡ old.user_id
  pub same_lab : new.lab_id ≡ old.lab_id
  pub same_key : new.key_id ≡ old.key_id
  pub same_artifact : new.artifact_key ≡ old.artifact_key
  pub same_hash : new.content_hash ≡ old.content_hash
  pub waits : new.status ≡ SubmissionStatus.queued
  pub unjudged : new.verdict ≡ none
  pub uncharged : new.quota_state ≡ QuotaState.free
  pub of_copy : job.submission_id ≡ new.id
  pub queued : job.status ≡ JobStatus.queued
  pub unclaimed : job.worker_id ≡ none

-- One copy and one job for each row of a leaderboard, in its order.
pub data AreCopies (seen : List Submission)
    : List BoardRow → List Submission → List Job → Type 0 where
  no_copies : AreCopies seen [] [] []
  one_more :
      (r : BoardRow) (rows : List BoardRow) (old new : Submission) (news : List Submission)
      (job : Job) (jobs : List Job)
      → get_submission r.submission_id seen ≡ some old
      → IsCopy old new job
      → AreCopies seen rows news jobs
      → AreCopies seen (r ∷ rows) (new ∷ news) (job ∷ jobs)

-- The tables after the loop over the rows.
pub record AreRequeued {V : Type 0} (seen : List Submission) (rows : List BoardRow)
    (st st' : State V) : Type 0 where
  pub news : List Submission
  pub jobs : List Job
  pub appended : st'.submissions ≡ st.submissions ++ news
  pub enqueued : st'.jobs ≡ st.jobs ++ jobs
  pub copies : AreCopies seen rows news jobs
  pub same_bonus : st'.bonus ≡ st.bonus
  pub same_scores : st'.scores ≡ st.scores
  pub same_board : st'.board ≡ st.board
  pub same_nonces : st'.nonces ≡ st.nonces

-- Copies do not count against a quota.
pub AreCopies-uncounted :
    (seen : List Submission) (rows : List BoardRow) (news : List Submission) (jobs : List Job)
    → AreCopies seen rows news jobs
    → (user : ℕ) (lab_id : String) (from until : ℕ) → count (counts user lab_id from until) news ≡ 0
AreCopies-uncounted seen rows news jobs no_copies user lab_id from until = refl
AreCopies-uncounted seen rows news jobs (one_more r rs old new ns job js e c rest) user lab_id from
      until =
    let h = AreCopies-uncounted seen rs ns js rest user lab_id from until in
    let out : counts user lab_id from until new ≡ false = ground (arith, c.uncharged) in
    rw (out, h) refl
