-- ===== src/Evaluation/Total.antt =====
-- When a Persist succeeds: apps/worker/internal/service/evaluation/service.go.
use lab_kit.Prelude.{
  ℕ, ◌≡◌, refl, String, Option, [], ◌∷◌, Bool, false, arith, Bool-cases, inl, inr, ◌↔◌,
}
use lab_kit.Prelude.Dict.{Dict}
use lab_kit.Prelude.Results.{Result, ok, err}
use lab_kit.Evaluator as Ev
use lab_kit.Db.Submissions.{update_result}
use lab_kit.Evaluator.{Outcome, Detail, validate_result, is_scored}
use lab_kit.Db.{State}
use lab_kit.Db.Bonus.{is_bonus}
use lab_kit.Evaluation.{
  Call, Error, invalid_output, result_params, PersistInput, new_quota_state, is_free_state,
  persist_scores, refresh_leaderboard, publish_scores, store_result, settle_quota, transaction,
  persist,
}

module _ {F V : Type 0} (narrow : F → V) (encode : Detail → Option String) (fails : Call → Bool)
    (up : (c : Call) → fails c ≡ false) where
  Returns : Result Error (State V) → Type 0
  Returns r = (st : State V) × (r ≡ ok st)

  persist_scores-Returns :
      (id : ℕ) (d : Dict F) (st : State V) → Returns (persist_scores narrow encode fails id d st)
  unfolding persist_scores Returns
  persist_scores-Returns id [] st = (st, refl)
  persist_scores-Returns id ((metric, value) ∷ d) st =
      rw (up (Call.insert_score metric)) (persist_scores-Returns id d _)

  settle_quota-Returns :
      (i : PersistInput F) (st : State V) → Returns (settle_quota narrow encode fails i st)
  unfolding settle_quota Returns
  settle_quota-Returns i st = elim (Bool-cases (is_bonus i.submission.quota_state)) [
    | inr b ↦ rw (b, up Call.set_quota_state) (_, refl)
    | inl b ↦
        elim (Bool-cases
          (is_free_state (new_quota_state i.submission.quota_state i.manifest i.result.verdict))) [
            | inl f ↦ rw (b, f, up Call.refund) (_, refl)
            | inr f ↦ rw (b, f, up Call.set_quota_state) (_, refl)
          ]
  ]

  publish_scores-Returns :
      (now : ℕ) (i : PersistInput F) (st : State V)
      → Returns (publish_scores narrow encode fails now i st)
  unfolding publish_scores refresh_leaderboard Returns
  publish_scores-Returns now i st = elim (Bool-cases (is_scored i.result.verdict)) [
    | inr s ↦ rw s (st, refl)
    | inl s ↦
        let (st', e) = persist_scores-Returns i.submission.id i.result.scores st in
        rw (s, e, up Call.upsert) (_, refl)
  ]

  transaction-Returns :
      (now : ℕ) (i : PersistInput F) (st : State V)
      → Returns (transaction narrow encode fails now i st)
  unfolding transaction store_result Returns
  transaction-Returns now i st =
      let stored = record st {
        submissions =
            update_result i.submission.id (result_params narrow encode fails i) st.submissions;
      } in
      let (settled, e) = settle_quota-Returns i stored in
      let (published, e') = publish_scores-Returns now i settled in
      rw (up Call.begin, up Call.set_result, e, e', up Call.commit) (published, refl)

  -- With no failing call, Persist succeeds exactly for the results that ValidateResult accepts, and
  -- else returns its error and leaves the tables as they are.
  pub persist-validate_result :
      (now : ℕ) (i : PersistInput F) (st : State V)
      → (((persist narrow encode fails now i st).0 ≡ ok tt)
          ↔ (validate_result i.manifest i.result ≡ ok tt))
        × ((e : Ev.Error)
            → validate_result i.manifest i.result ≡ err e
            → persist narrow encode fails now i st ≡ (err (invalid_output e), st))
  unfolding persist Returns
  persist-validate_result now i st =
      let (st', done) = transaction-Returns now i st in
      ((λ h. ground arith, λ h. ground arith), λ e h. ground arith)
