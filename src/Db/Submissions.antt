-- ===== src/Db/Submissions.antt =====
-- The queries on `submissions`: packages/go/db/sqlc/submissions.sql.go.
use lab_kit.Prelude.{
  ℕ, String, Option, none, some, List, [], ◌∷◌, ◌++◌, Bool, true, false, ◌&&◌, map, ◌==◌, leb, ltb,
  if◌then◌else◌, count, find, str_eq,
}
use lab_kit.Db.Rows.{Submission, SubmissionStatus, QuotaState}

-- The columns that CreateSubmission is given by the intake; the others are NULL.
pub record CreateParams : Type 0 where
  pub user_id : ℕ
  pub lab_id : String
  pub key_id : ℕ
  pub artifact_key : String
  pub content_hash : String
  pub status : SubmissionStatus

abbrev pub new_submission : ℕ → ℕ → QuotaState → CreateParams → Submission
new_submission id now state arg = record {
  id = id;
  user_id = arg.user_id;
  lab_id = arg.lab_id;
  key_id = arg.key_id;
  artifact_key = arg.artifact_key;
  content_hash = arg.content_hash;
  status = arg.status;
  verdict = none;
  message = none;
  detail = none;
  image_digest = none;
  started_at = none;
  finished_at = none;
  created_at = now;
  quota_state = state;
}

-- CreateSubmission: `quota_state` is by default 'pending'.
unfoldable pub create_submission :
    ℕ → ℕ → CreateParams → List Submission → Submission × List Submission
create_submission id now arg rows =
    let row = new_submission id now QuotaState.pending arg in (row, rows ++ row ∷ [])

-- CreateBonusSubmission
unfoldable pub create_bonus_submission :
    ℕ → ℕ → CreateParams → List Submission → Submission × List Submission
create_bonus_submission id now arg rows =
    let row = new_submission id now QuotaState.bonus arg in (row, rows ++ row ∷ [])

-- CreateFreeSubmission
unfoldable pub create_free_submission :
    ℕ → ℕ → CreateParams → List Submission → Submission × List Submission
create_free_submission id now arg rows =
    let row = new_submission id now QuotaState.free arg in (row, rows ++ row ∷ [])

-- quota_state IN ('pending', 'charged')
abbrev pub is_charging : QuotaState → Bool
is_charging QuotaState.pending = true
is_charging QuotaState.charged = true
is_charging _ = false

-- The WHERE clause of CountSubmissionQuotaUsage.
abbrev pub counts : ℕ → String → ℕ → ℕ → Submission → Bool
counts user lab start end row =
    row.user_id == user
    && str_eq row.lab_id lab
    && leb start row.created_at
    && ltb row.created_at end
    && is_charging row.quota_state

-- CountSubmissionQuotaUsage
unfoldable pub count_quota_usage : ℕ → String → ℕ → ℕ → List Submission → ℕ
count_quota_usage user lab start end = count (counts user lab start end)

-- GetSubmission
unfoldable pub get_submission : ℕ → List Submission → Option Submission
get_submission id = find (λ row. row.id == id)

-- An UPDATE of the row with an id.
abbrev pub update_row : ℕ → (Submission → Submission) → List Submission → List Submission
update_row id f = map (λ row. if row.id == id then f row else row)

-- UpdateSubmissionRunning
unfoldable pub update_running : ℕ → SubmissionStatus → Option ℕ → List Submission → List Submission
update_running id status started_at =
    update_row id (λ row. record row { status = status; started_at = started_at })

-- The columns that UpdateSubmissionResult writes.
pub record ResultParams : Type 0 where
  pub status : SubmissionStatus
  pub verdict : Option String
  pub message : Option String
  pub detail : Option String
  pub image_digest : Option String
  pub started_at : Option ℕ
  pub finished_at : Option ℕ

abbrev pub with_result : ResultParams → Submission → Submission
with_result arg row = record row {
  status = arg.status;
  verdict = arg.verdict;
  message = arg.message;
  detail = arg.detail;
  image_digest = arg.image_digest;
  started_at = arg.started_at;
  finished_at = arg.finished_at;
}

-- UpdateSubmissionResult
unfoldable pub update_result : ℕ → ResultParams → List Submission → List Submission
update_result id arg = update_row id (with_result arg)

-- UpdateSubmissionQuotaState
unfoldable pub update_quota_state : ℕ → QuotaState → List Submission → List Submission
update_quota_state id state = update_row id (λ row. record row { quota_state = state })

abbrev pub resets : String → ℕ → Submission → Bool
resets lab start row =
    str_eq row.lab_id lab && leb start row.created_at && is_charging row.quota_state

-- AdminResetLabQuotaToday, with the number of rows affected.
unfoldable pub admin_reset_quota : String → ℕ → List Submission → ℕ × List Submission
admin_reset_quota lab start rows = (
  count (resets lab start) rows,
  map
      (λ row.
        if resets lab start row then record row { quota_state = QuotaState.admin_reset } else row)
      rows,
)

-- The newest of the rows by `created_at`.
abbrev pub later : Submission → Option Submission → Submission
later row none = row
later row (some best) = if ltb row.created_at best.created_at then best else row

-- GetLatestSubmissionByUserLab
unfoldable pub latest_by_user_lab : ℕ → String → List Submission → Option Submission
latest_by_user_lab user lab [] = none
latest_by_user_lab user lab (row ∷ rows) =
    let rest = latest_by_user_lab user lab rows in
    if row.user_id == user && str_eq row.lab_id lab then some (later row rest) else rest
