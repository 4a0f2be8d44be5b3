-- ===== src/Evaluation/Settled.antt =====
-- The quota state of a submission after a Persist: apps/worker/internal/service/evaluation/service.go.
use lab_kit.Prelude.{◌≡◌, ℕ, String, Option, some, Bool}
use lab_kit.Prelude.Results.{ok}
use lab_kit.Evaluator.{Detail}
use lab_kit.Db.{State, Submission}
use lab_kit.Db.Submissions.{get_submission, with_result}
use lab_kit.Db.Lookup.{with_state}
use lab_kit.Evaluation.{Call, PersistInput, result_params, persist}
use lab_kit.Evaluation.Publish.{HasKeysOnce}
use lab_kit.Evaluation.Quota.{Settles, settled_state, settled_state-Settles}
use lab_kit.Evaluation.Effects.{persist-IsStored}

module _ {F V : Type 0} (narrow : F → V) (encode : Detail → Option String)
    (fails : Call → Bool) where
  -- After a Persist that succeeds, for a submission as it stands in the table and a result whose
  -- scores have one value for a metric, the row of the submission is there, and a free one is still
  -- free, a verdict that costs nothing has freed it, a bonus one is otherwise still a bonus one, and
  -- any other, an admin_reset one among them, is otherwise charged.
  pub persist-Settles :
      (now : ℕ) (i : PersistInput F) (row : Submission) (st st' : State V)
      → HasKeysOnce i.result.scores
      → get_submission i.submission.id st.submissions ≡ some row
      → i.submission.quota_state ≡ row.quota_state
      → persist narrow encode fails now i st ≡ (ok tt, st')
      → (after : Submission) × (get_submission i.submission.id st'.submissions ≡ some after)
        × Settles i.manifest i.result.verdict row.quota_state after.quota_state
  persist-Settles now i row st st' once found same e =
      let stored = persist-IsStored narrow encode fails now i row st st' once found same e in
      (
        with_state (settled_state row.quota_state i.manifest i.result.verdict)
            (with_result (result_params narrow encode fails i) row),
        stored.settled,
        settled_state-Settles row.quota_state i.manifest i.result.verdict,
      )
