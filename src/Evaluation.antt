-- ===== src/Evaluation.antt =====
-- Storing an evaluation: apps/worker/internal/service/evaluation/service.go and leaderboard.go.
-- `fails` says which calls of the driver return an error; float64 and float32 are the parameters
-- `F` and `V` with the conversion `narrow`; `encode` is json.Marshal of a detail, and its error is
-- none. `now` is NOW() of the transaction. A time 0 is Go's zero time.
pub mod Quota
pub mod Publish
pub mod Effects
pub mod Settled
pub mod Refund
pub mod Total
pub mod Jobs
mod Tests
use lab_kit.Prelude.{
  ℕ, String, Option, none, some, List, [], ◌∷◌, Bool, true, false, any, ◌==◌, if◌then◌else◌, str_eq,
}
use lab_kit.Prelude.Text.{is_empty}
use lab_kit.Prelude.Dict.{Dict}
use lab_kit.Prelude.Results.{Result, ok, err, ◌>>=◌, ◌>>◌}
use lab_kit.Manifest.{Manifest}
use lab_kit.Evaluator as Ev
use lab_kit.Evaluator.{Verdict, Outcome, Detail, validate_result, verdict_text, is_scored}
use lab_kit.Db.{State, Submission, SubmissionStatus, QuotaState, Score, BoardRow}
use lab_kit.Db.Submissions.{ResultParams, update_result, update_quota_state, update_running}
use lab_kit.Db.Bonus.{refund_bonus, is_bonus}
use lab_kit.Db.Board.{create_score, upsert_entry}

-- The driver's calls that may fail.
pub data Call : Type 0 where
  begin set_result set_quota_state refund upsert commit set_running : Call
  insert_score : String → Call

pub data Error : Type 0 where
  invalid_output : Ev.Error → Error
  driver : Call → Error

-- PersistInput
pub record PersistInput (F : Type 0) : Type 0 where
  pub manifest : Option Manifest
  pub submission : Submission
  pub result : Outcome F
  pub image_digest : String
  pub started_at : ℕ
  pub finished_at : ℕ

-- textValue
abbrev pub text_value : String → Option String
text_value s = if is_empty s then none else some s

-- timestamptzValue
abbrev pub time_value : ℕ → Option ℕ
time_value t = if t == 0 then none else some t

-- submissionStatusFor
abbrev pub submission_status_for : Verdict → SubmissionStatus
submission_status_for Verdict.error = SubmissionStatus.error
submission_status_for _ = SubmissionStatus.done

-- The inner loop of quotaStateFor over the manifest's free verdicts.
abbrev pub is_free : Option Manifest → Verdict → Bool
is_free none v = false
is_free (some m) v = any (λ f. str_eq f (verdict_text v)) m.quota.free

-- quotaStateFor
unfoldable pub quota_state_for : Option Manifest → Verdict → QuotaState
quota_state_for m Verdict.error = QuotaState.free
quota_state_for m Verdict.scored = QuotaState.charged
quota_state_for m Verdict.build_failed =
    if is_free m Verdict.build_failed then QuotaState.free else QuotaState.charged
quota_state_for m Verdict.rejected =
    if is_free m Verdict.rejected then QuotaState.free else QuotaState.charged
quota_state_for m (Verdict.other s) = QuotaState.charged

abbrev pub is_free_state : QuotaState → Bool
is_free_state QuotaState.free = true
is_free_state _ = false

-- `newQuotaState`, from the state that the submission had when it was loaded.
unfoldable pub new_quota_state : QuotaState → Option Manifest → Verdict → QuotaState
unfolding quota_state_for
new_quota_state before m v = if is_free_state before then QuotaState.free else quota_state_for m v

-- detailBytes
abbrev pub detail_bytes : (Detail → Option String) → Option Detail → Option String
detail_bytes encode none = none
detail_bytes encode (some d) = encode d

module _ {F V : Type 0} (narrow : F → V) (encode : Detail → Option String)
    (fails : Call → Bool) where
  -- A call inside the transaction.
  abbrev pub call : Call → State V → Result Error (State V)
  call c st = if fails c then err (driver c) else ok st

  abbrev pub result_params : PersistInput F → ResultParams
  result_params i = record {
    status = submission_status_for i.result.verdict;
    verdict = text_value (verdict_text i.result.verdict);
    message = text_value i.result.message;
    detail = detail_bytes encode i.result.detail;
    image_digest = text_value i.image_digest;
    started_at = time_value i.started_at;
    finished_at = time_value i.finished_at;
  }

  unfoldable pub store_result : PersistInput F → State V → Result Error (State V)
  store_result i st =
      call Call.set_result
        (record st { submissions = update_result i.submission.id (result_params i) st.submissions })

  abbrev pub set_state : ℕ → QuotaState → State V → Result Error (State V)
  set_state id state st =
      call Call.set_quota_state
        (record st { submissions = update_quota_state id state st.submissions })

  abbrev pub refund_submission : ℕ → State V → Result Error (State V)
  refund_submission id st = call Call.refund (record st {
    submissions = (refund_bonus id st.submissions st.bonus).0;
    bonus = (refund_bonus id st.submissions st.bonus).1;
  })

  -- The quota branch of Persist.
  unfoldable pub settle_quota : PersistInput F → State V → Result Error (State V)
  settle_quota i st =
      let state = new_quota_state i.submission.quota_state i.manifest i.result.verdict in
      if is_bonus i.submission.quota_state
      then (if is_free_state state
          then refund_submission i.submission.id st
          else set_state i.submission.id QuotaState.bonus st)
      else set_state i.submission.id state st

  -- persistScores
  unfoldable pub persist_scores : ℕ → Dict F → State V → Result Error (State V)
  persist_scores id [] st = ok st
  persist_scores id ((metric, value) ∷ scores) st = do
    st' ← call (Call.insert_score metric) (record st {
      scores =
          create_score (record { submission_id = id; metric_id = metric; value = narrow value })
            st.scores;
    })
    persist_scores id scores st'

  -- refreshLeaderboard
  unfoldable pub refresh_leaderboard : ℕ → Submission → State V → Result Error (State V)
  refresh_leaderboard now s st = call Call.upsert (record st {
    board =
        upsert_entry
          (record {
            user_id = s.user_id;
            lab_id = s.lab_id;
            submission_id = s.id;
            updated_at = now;
          })
          st.board;
  })

  unfoldable pub publish_scores : ℕ → PersistInput F → State V → Result Error (State V)
  publish_scores now i st =
      if is_scored i.result.verdict
      then (do
        st' ← persist_scores i.submission.id i.result.scores st
        refresh_leaderboard now i.submission st')
      else ok st

  -- The transaction of Persist, to its commit.
  unfoldable pub transaction : ℕ → PersistInput F → State V → Result Error (State V)
  transaction now i st = do
    begun ← call Call.begin st
    stored ← store_result i begun
    settled ← settle_quota i stored
    published ← publish_scores now i settled
    call Call.commit published

  -- What is committed, or the old state after a rollback.
  abbrev pub committed : Result Error (State V) → State V → Result Error (Unit {0}) × State V
  committed (ok st') st = (ok tt, st')
  committed (err e) st = (err e, st)

  -- Service.Persist
  unfoldable pub persist : ℕ → PersistInput F → State V → Result Error (Unit {0}) × State V
  persist now i st = elim (validate_result i.manifest i.result) [
    | err e ↦ (err (invalid_output e), st)
    | ok _ ↦ committed (transaction now i st) st
  ]

  -- Service.MarkRunning
  unfoldable pub mark_running : ℕ → ℕ → State V → Result Error (Unit {0}) × State V
  mark_running id started_at st =
      if fails Call.set_running then (err (driver Call.set_running), st) else (
        ok tt,
        record st {
          submissions =
              update_running id SubmissionStatus.running (time_value started_at) st.submissions;
        },
      )
