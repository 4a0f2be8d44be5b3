-- ===== src/Db/Lookup.antt =====
-- Reading a row after an update: laws of the queries of packages/go/db/sqlc.
use lab_kit.Prelude.{
  ℕ, ◌≡◌, refl, ◌≢◌, String, Option, none, some, List, [], ◌∷◌, arith, find, ◌==◌, ◌&&◌,
  if◌then◌else◌, str_eq, eq_iff,
}
use mathlib.Core.Option
use lab_kit.Db.Rows.{Submission, SubmissionStatus, BonusQuota, BoardRow, Score, QuotaState}
use lab_kit.Db.Submissions.{
  get_submission, update_row, update_running, update_quota_state, update_result, ResultParams,
  with_result,
}
use lab_kit.Db.Bonus.{add_one, refund_bonus}
use lab_kit.Db.Board.{create_score, upsert_entry}

-- An UPDATE of one row by its id, which the update leaves alone.
pub get-update_row :
    (k id : ℕ) (f : Submission → Submission) (rows : List Submission)
    → ((row : Submission) → (f row).id ≡ row.id)
    → get_submission k (update_row id f rows)
      ≡ (if k == id then Option.map f (get_submission k rows) else get_submission k rows)
unfolding get_submission
get-update_row k id f [] keys = ground arith
get-update_row k id f (row ∷ rows) keys = ground (arith, keys row, get-update_row k id f rows keys)

pub get-update_result :
    (k id : ℕ) (arg : ResultParams) (rows : List Submission)
    → get_submission k (update_result id arg rows) ≡ (
        if k == id
        then Option.map (with_result arg) (get_submission k rows)
        else get_submission k rows)
unfolding update_result
get-update_result k id arg rows = get-update_row k id (with_result arg) rows (λ row. refl)

abbrev pub with_state : QuotaState → Submission → Submission
with_state state row = record row { quota_state = state }

pub get-update_quota_state :
    (k id : ℕ) (state : QuotaState) (rows : List Submission)
    → get_submission k (update_quota_state id state rows) ≡ (
        if k == id
        then Option.map (with_state state) (get_submission k rows)
        else get_submission k rows)
unfolding update_quota_state
get-update_quota_state k id state rows = get-update_row k id (with_state state) rows (λ row. refl)

-- A refund of a bonus submission frees it and gives the unit back; any other changes nothing.
pub refund_bonus_row :
    (id : ℕ) (row : Submission) (rows : List Submission) (bs : List BonusQuota)
    → get_submission id rows ≡ some row
    → row.quota_state ≡ QuotaState.bonus
    → refund_bonus id rows bs
      ≡ (update_quota_state id QuotaState.free rows, add_one row.user_id row.lab_id bs)
unfolding refund_bonus
refund_bonus_row id row rows bs e b = ground arith

pub refund_other :
    (id : ℕ) (row : Submission) (rows : List Submission) (bs : List BonusQuota)
    → get_submission id rows ≡ some row
    → row.quota_state ≢ QuotaState.bonus
    → refund_bonus id rows bs ≡ (rows, bs)
unfolding refund_bonus
refund_other id row rows bs e b = ground arith

-- The leaderboard entry of a user in a lab.
pub get_entry : ℕ → String → List BoardRow → Option BoardRow
get_entry user lab = find (λ q. q.user_id == user && str_eq q.lab_id lab)

pub get_entry-upsert :
    (user : ℕ) (lab : String) (r : BoardRow) (rows : List BoardRow)
    → get_entry user lab (upsert_entry r rows)
      ≡ (if r.user_id == user && str_eq r.lab_id lab then some r else get_entry user lab rows)
unfolding get_entry upsert_entry
get_entry-upsert user lab r [] = refl
get_entry-upsert user lab r (q ∷ rows) = ground (
  arith,
  eq_iff q.lab_id lab,
  eq_iff q.lab_id r.lab_id,
  eq_iff r.lab_id lab,
  get_entry-upsert user lab r rows,
)

module _ {V : Type 0} where
  -- The value of a metric of a submission.
  pub get_score : ℕ → String → List (Score V) → Option V
  get_score id metric [] = none
  get_score id metric (s ∷ scores) =
      if s.submission_id == id && str_eq s.metric_id metric
      then some s.value
      else get_score id metric scores

  pub get_score-create :
      (id : ℕ) (metric : String) (s : Score V) (scores : List (Score V))
      → get_score id metric (create_score s scores) ≡ (
          if s.submission_id == id && str_eq s.metric_id metric
          then some s.value
          else get_score id metric scores)
  unfolding get_score create_score
  get_score-create id metric s [] = refl
  get_score-create id metric s (t ∷ scores) = ground (
    arith,
    eq_iff t.metric_id metric,
    eq_iff t.metric_id s.metric_id,
    eq_iff s.metric_id metric,
    get_score-create id metric s scores,
  )

abbrev pub with_running : SubmissionStatus → Option ℕ → Submission → Submission
with_running status started_at row = record row { status = status; started_at = started_at }

pub get-update_running :
    (k id : ℕ) (status : SubmissionStatus) (started_at : Option ℕ) (rows : List Submission)
    → get_submission k (update_running id status started_at rows) ≡ (
        if k == id
        then Option.map (with_running status started_at) (get_submission k rows)
        else get_submission k rows)
unfolding update_running
get-update_running k id status started_at rows =
    get-update_row k id (with_running status started_at) rows (λ row. refl)
