-- ===== src/Evaluation/Refund.antt =====
-- The bonus after a Persist, and after a Persist that is retried:
-- apps/worker/internal/service/evaluation/service.go.
use lab_kit.Prelude.{
  ℕ, ◌≡◌, String, Option, some, List, Bool, ◌&&◌, arith, if◌then◌else◌, inl, inr, ◌∙◌, ap,
}
use lab_kit.Prelude.Results.{Result-cases, ok, err}
use lab_kit.Evaluator.{Detail, validate_result}
use lab_kit.Db.{State, Submission, QuotaState, BonusQuota}
use lab_kit.Db.Submissions.{get_submission, with_result, update_result}
use lab_kit.Db.Bonus.{refund_bonus, is_bonus, add_one}
use lab_kit.Db.Lookup.{get-update_result, with_state}
use lab_kit.Evaluation.{
  Call, Error, PersistInput, result_params, settle_quota, transaction, persist, new_quota_state,
  is_free_state,
}
use lab_kit.Evaluation.Quota.{settled_state}
use lab_kit.Evaluation.Publish.{HasKeysOnce, publish_effect}
use lab_kit.Evaluation.Effects.{transaction-Steps, persist_ok, persist-IsStored}

module _ {F V : Type 0} (narrow : F → V) (encode : Detail → Option String)
    (fails : Call → Bool) where
  -- The unit of a bonus row goes back exactly if its verdict costs nothing.
  abbrev pub refunded : PersistInput F → Submission → List BonusQuota → List BonusQuota
  refunded i row bs =
      if is_bonus i.submission.quota_state
        && is_free_state (new_quota_state i.submission.quota_state i.manifest i.result.verdict)
        && is_bonus row.quota_state
      then add_one row.user_id row.lab_id bs
      else bs

  settle_bonus :
      (i : PersistInput F) (row : Submission) (st st' : State V)
      → get_submission i.submission.id st.submissions ≡ some row
      → settle_quota narrow encode fails i st ≡ ok st'
      → st'.bonus ≡ refunded i row st.bonus
  unfolding settle_quota refund_bonus
  settle_bonus i row st st' found e = ground arith

  -- The bonus after a Persist that succeeds: the user of the row gets one unit if the submission was
  -- loaded as a bonus one, its verdict costs nothing, and the row is still a bonus row; else no bonus
  -- changes. The submission in hand may be older than the row.
  pub persist-bonus :
      (now : ℕ) (i : PersistInput F) (row : Submission) (st st' : State V)
      → HasKeysOnce i.result.scores
      → get_submission i.submission.id st.submissions ≡ some row
      → persist narrow encode fails now i st ≡ (ok tt, st')
      → st'.bonus ≡ refunded i row st.bonus
  persist-bonus now i row st st' once found e =
      let (stored, settled, at_stored, e2, e3) =
        transaction-Steps narrow encode fails now i st st'
          (persist_ok narrow encode fails now i st st' e) in
      let in_stored : get_submission i.submission.id stored.submissions
          ≡ some (with_result (result_params narrow encode fails i) row) =
        ap (λ (x : State V). get_submission i.submission.id x.submissions) at_stored ∙ its_row in
      (publish_effect narrow encode fails now i settled st' once e3).bonus
      ∙ settle_bonus i (with_result (result_params narrow encode fails i) row) stored settled
          in_stored e2
      ∙ ap (refunded i row) (ap (λ (x : State V). x.bonus) at_stored)
    where
      its_row :
          get_submission i.submission.id
            (update_result i.submission.id (result_params narrow encode fails i) st.submissions)
          ≡ some (with_result (result_params narrow encode fails i) row)
      its_row = ground (
        arith,
        get-update_result i.submission.id i.submission.id (result_params narrow encode fails i)
            st.submissions,
      )

  refunded_settled :
      (i : PersistInput F) (row : Submission) (before : QuotaState) (bs : List BonusQuota)
      → i.submission.quota_state ≡ before
      → refunded i (with_state (settled_state before i.manifest i.result.verdict) row) bs ≡ bs
  refunded_settled i row QuotaState.bonus bs e = ground arith
  refunded_settled i row QuotaState.pending bs e = ground arith
  refunded_settled i row QuotaState.charged bs e = ground arith
  refunded_settled i row QuotaState.free bs e = ground arith
  refunded_settled i row QuotaState.admin_reset bs e = ground arith

-- A Persist that is run again after it has committed, with the submission as it was loaded before the
-- first run, gives no second unit of bonus back, whatever calls of the driver fail in between.
pub persist-twice :
    {F V : Type 0} (narrow : F → V) (encode : Detail → Option String) (fails fails' : Call → Bool)
    → (now now' : ℕ) (i : PersistInput F) (row : Submission) (st st1 st2 : State V)
    → HasKeysOnce i.result.scores
    → get_submission i.submission.id st.submissions ≡ some row
    → i.submission.quota_state ≡ row.quota_state
    → persist narrow encode fails now i st ≡ (ok tt, st1)
    → persist narrow encode fails' now' i st1 ≡ (ok tt, st2)
    → st2.bonus ≡ st1.bonus
persist-twice narrow encode fails fails' now now' i row st st1 st2 once found same e e' =
    let stored = persist-IsStored narrow encode fails now i row st st1 once found same e in
    persist-bonus narrow encode fails' now' i _ st1 st2 once stored.settled e'
    ∙ refunded_settled narrow encode fails' i
        (with_result (result_params narrow encode fails i) row) row.quota_state st1.bonus same

module _ {F V : Type 0} (narrow : F → V) (encode : Detail → Option String)
    (fails : Call → Bool) where
  -- A Persist that returns an error changes no table.
  pub persist-err :
      (now : ℕ) (i : PersistInput F) (st : State V) (x : Error)
      → (persist narrow encode fails now i st).0 ≡ err x
      → (persist narrow encode fails now i st).1 ≡ st
  unfolding persist
  persist-err now i st x e = elim (Result-cases (validate_result i.manifest i.result)) [
    | inr (y, h) ↦ ground arith
    | inl (_, h) ↦ elim (Result-cases (transaction narrow encode fails now i st)) [
      | inr (y, g) ↦ ground arith
      | inl (st', g) ↦ ground arith
    ]
  ]
