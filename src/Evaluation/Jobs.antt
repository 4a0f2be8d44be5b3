-- ===== src/Evaluation/Jobs.antt =====
-- A Persist and a MarkRunning leave the jobs: apps/worker/internal/service/evaluation/service.go.
use lab_kit.Prelude.{
  ℕ, ◌≡◌, refl, ap, ◌∙◌, String, Option, [], ◌∷◌, Bool, arith, Bool-cases, inl, inr, List,
}
use lab_kit.Prelude.Dict.{Dict}
use lab_kit.Prelude.Results.{ok, Result-cases, >>=-eq-ok}
use lab_kit.Evaluator.{Detail, validate_result, is_scored}
use lab_kit.Db.{State, Score, Job}
use lab_kit.Db.Board.{create_score}
use lab_kit.Db.Bonus.{is_bonus}
use lab_kit.Evaluation.{
  Call, PersistInput, call, persist_scores, refresh_leaderboard, publish_scores, settle_quota,
  transaction, persist, mark_running, new_quota_state, is_free_state,
}
use lab_kit.Evaluation.Publish.{call_ok}
use lab_kit.Evaluation.Effects.{transaction-Steps}

module _ {F V : Type 0} (narrow : F → V) (encode : Detail → Option String)
    (fails : Call → Bool) where
  call-jobs :
      (c : Call) (jobs : List Job) (st st' : State V)
      → st.jobs ≡ jobs
      → call narrow encode fails c st ≡ ok st'
      → st'.jobs ≡ jobs
  call-jobs c jobs st st' same e =
      ap (λ (x : State V). x.jobs) (call_ok narrow encode fails c st st' e) ∙ same

  persist_scores-jobs :
      (id : ℕ) (d : Dict F) (st st' : State V)
      → persist_scores narrow encode fails id d st ≡ ok st'
      → st'.jobs ≡ st.jobs
  unfolding persist_scores
  persist_scores-jobs id [] st st' e = ground arith
  persist_scores-jobs id ((metric, value) ∷ d) st st' e =
      let new : Score V = record { submission_id = id; metric_id = metric; value = narrow value } in
      let (st1, called, rest) =
        >>=-eq-ok
          (call narrow encode fails (Call.insert_score metric)
            (record st { scores = create_score new st.scores }))
          _ e in
      persist_scores-jobs id d st1 st' rest
      ∙ call-jobs (Call.insert_score metric) st.jobs _ st1 refl called

  publish_scores-jobs :
      (now : ℕ) (i : PersistInput F) (st st' : State V)
      → publish_scores narrow encode fails now i st ≡ ok st'
      → st'.jobs ≡ st.jobs
  unfolding publish_scores refresh_leaderboard
  publish_scores-jobs now i st st' e = elim (Bool-cases (is_scored i.result.verdict)) [
    | inr s ↦ ground arith
    | inl s ↦
        let (st1, scored, refreshed) =
          >>=-eq-ok (persist_scores narrow encode fails i.submission.id i.result.scores st) _
            (rw s at e) in
        call-jobs Call.upsert st.jobs _ st'
          (persist_scores-jobs i.submission.id i.result.scores st st1 scored) refreshed
  ]

  settle_quota-jobs :
      (i : PersistInput F) (st st' : State V)
      → settle_quota narrow encode fails i st ≡ ok st'
      → st'.jobs ≡ st.jobs
  unfolding settle_quota
  settle_quota-jobs i st st' e = elim (Bool-cases (is_bonus i.submission.quota_state)) [
    | inr b ↦ call-jobs Call.set_quota_state st.jobs _ st' refl (rw b at e)
    | inl b ↦
        elim (Bool-cases
          (is_free_state (new_quota_state i.submission.quota_state i.manifest i.result.verdict))) [
            | inl f ↦ call-jobs Call.refund st.jobs _ st' refl (rw (b, f) at e)
            | inr f ↦ call-jobs Call.set_quota_state st.jobs _ st' refl (rw (b, f) at e)
          ]
  ]

  -- Whatever a Persist comes to, the table of jobs is as it was.
  pub persist-jobs :
      (now : ℕ) (i : PersistInput F) (st : State V)
      → (persist narrow encode fails now i st).1.jobs ≡ st.jobs
  unfolding persist
  persist-jobs now i st = elim (Result-cases (validate_result i.manifest i.result)) [
    | inr (x, h) ↦ rw (h, persist) refl
    | inl (_, h) ↦ elim (Result-cases (transaction narrow encode fails now i st)) [
      | inr (x, g) ↦ rw (h, g, persist) refl
      | inl (st', g) ↦
          let (stored, settled, at_stored, e2, e3) =
            transaction-Steps narrow encode fails now i st st' g in
          rw (h, g, persist)
            (publish_scores-jobs now i settled st' e3
              ∙ settle_quota-jobs i stored settled e2
              ∙ ap (λ (x : State V). x.jobs) at_stored)
    ]
  ]

  pub mark_running-jobs :
      (id started_at : ℕ) (st : State V)
      → (mark_running narrow encode fails id started_at st).1.jobs ≡ st.jobs
  unfolding mark_running
  mark_running-jobs id started_at st = elim (Bool-cases (fails Call.set_running)) [
    | inl h ↦ rw h refl
    | inr h ↦ rw h refl
  ]
