-- ===== src/Db/Rows.antt =====
-- Rows of the tables: packages/go/db/sqlc/models.go, with the CHECK constraints of db/migrations
-- as data types.
use lab_kit.Prelude.{ℕ, String, Option, List, Bool}

-- `submissions.status`
pub data SubmissionStatus : Type 0 where
  queued running done timeout error : SubmissionStatus

-- `submissions.quota_state`
pub data QuotaState : Type 0 where
  pending charged free admin_reset bonus : QuotaState

-- `evaluation_jobs.status`
pub data JobStatus : Type 0 where
  queued running done error : JobStatus

pub record Submission : Type 0 where
  pub id : ℕ
  pub user_id : ℕ
  pub lab_id : String
  pub key_id : ℕ
  pub artifact_key : String
  pub content_hash : String
  pub status : SubmissionStatus
  pub verdict : Option String
  pub message : Option String
  pub detail : Option String
  pub image_digest : Option String
  pub started_at : Option ℕ
  pub finished_at : Option ℕ
  pub created_at : ℕ
  pub quota_state : QuotaState

pub record Job : Type 0 where
  pub id : ℕ
  pub submission_id : ℕ
  pub status : JobStatus
  pub attempts : ℕ
  pub available_at : ℕ
  pub worker_id : Option String
  pub last_error : Option String
  pub started_at : Option ℕ
  pub finished_at : Option ℕ
  pub created_at : ℕ
  pub updated_at : ℕ

-- `user_lab_bonus_quota`; CHECK (remaining >= 0).
pub record BonusQuota : Type 0 where
  pub user_id : ℕ
  pub lab_id : String
  pub remaining : ℕ

-- `users`
pub record User : Type 0 where
  pub id : ℕ
  pub student_id : String
  pub nickname : String

-- `user_keys`; of `revoked_at` only whether it is set.
pub record UserKey : Type 0 where
  pub id : ℕ
  pub user_id : ℕ
  pub public_key : String
  pub device_name : String
  pub is_revoked : Bool
  pub fingerprint : Option String

-- `device_auth_requests.status`
pub data RequestStatus : Type 0 where
  pending approved expired : RequestStatus

-- `device_auth_requests`
pub record Request : Type 0 where
  pub id : ℕ
  pub device_code : String
  pub user_code : String
  pub public_key : String
  pub device_name : String
  pub student_id : Option String
  pub oauth_state : Option String
  pub status : RequestStatus
  pub expires_at : ℕ

-- `scores`; the REAL column is a parameter.
pub record Score (V : Type 0) : Type 0 where
  pub submission_id : ℕ
  pub metric_id : String
  pub value : V

pub record BoardRow : Type 0 where
  pub user_id : ℕ
  pub lab_id : String
  pub submission_id : ℕ
  pub updated_at : ℕ

-- The tables that the services share.
pub record State (V : Type 0) : Type 0 where
  pub submissions : List Submission
  pub jobs : List Job
  pub bonus : List BonusQuota
  pub scores : List (Score V)
  pub board : List BoardRow
  pub nonces : List String
