-- ===== src/Evaluation/Effects.antt =====
-- What a successful Persist leaves in the tables:
-- apps/worker/internal/service/evaluation/service.go.
use lab_kit.Prelude.{
  ℕ, ◌≡◌, refl, ◌≢◌, String, Option, some, List, Bool, ◌&&◌, arith, ◌==◌, if◌then◌else◌, str_eq,
  Bool-cases, inl, inr, sym, ◌∙◌, ap,
}
use lab_kit.Prelude.Dict.{lookup}
use lab_kit.Prelude.Results.{ok, >>=-eq-ok}
use lab_kit.Evaluator.{Detail, is_scored}
use lab_kit.Db.{State, Submission, QuotaState, BoardRow, Score}
use lab_kit.Db.Submissions.{get_submission, with_result, update_result, update_quota_state}
use lab_kit.Db.Bonus.{refund_bonus, is_bonus}
use lab_kit.Db.Lookup.{
  refund_bonus_row, get-update_result, get-update_quota_state, with_state, get_entry, get_score,
}
use lab_kit.Evaluation.{
  Call, PersistInput, call, result_params, store_result, settle_quota, publish_scores, transaction,
  persist, new_quota_state, is_free_state,
}
use lab_kit.Evaluation.Publish.{HasKeysOnce, call_ok, override, entry_of, Published, publish_effect}
use lab_kit.Evaluation.Quota.{settled_state}

module _ {F V : Type 0} (narrow : F → V) (encode : Detail → Option String)
    (fails : Call → Bool) where
  -- The tables that the two updates of the submission leave alone.
  record SameElse (st st' : State V) : Type 0 where
    jobs : st'.jobs ≡ st.jobs
    scores : st'.scores ≡ st.scores
    board : st'.board ≡ st.board
    nonces : st'.nonces ≡ st.nonces

  -- One row is replaced and no other changes.
  abbrev Replaces : ℕ → Submission → List Submission → List Submission → Type 0
  Replaces id row rows rows' =
      (get_submission id rows' ≡ some row)
      × ((k : ℕ) → k ≢ id → get_submission k rows' ≡ get_submission k rows)

  state-Replaces :
      (id : ℕ) (state : QuotaState) (row : Submission) (rows : List Submission)
      → get_submission id rows ≡ some row
      → Replaces id (with_state state row) rows (update_quota_state id state rows)
  state-Replaces id state row rows e = (
    ground (arith, get-update_quota_state id id state rows),
    λ k h. ground (arith, get-update_quota_state k id state rows),
  )

  refund-Replaces :
      (id : ℕ) (row : Submission) (st : State V)
      → get_submission id st.submissions ≡ some row
      → row.quota_state ≡ QuotaState.bonus
      → Replaces id
          (with_state QuotaState.free row)
          st.submissions
          (refund_bonus id st.submissions st.bonus).0
  refund-Replaces id row st e b =
      rw (refund_bonus_row id row st.submissions st.bonus e b)
        (state-Replaces id QuotaState.free row st.submissions e)

  settle_effect :
      (i : PersistInput F) (row : Submission) (st st' : State V)
      → get_submission i.submission.id st.submissions ≡ some row
      → i.submission.quota_state ≡ row.quota_state
      → settle_quota narrow encode fails i st ≡ ok st'
      → Replaces i.submission.id
          (with_state (settled_state row.quota_state i.manifest i.result.verdict) row)
          st.submissions
          st'.submissions
        × SameElse st st'
  unfolding settle_quota
  settle_effect i row st st' e same h = elim (Bool-cases (is_bonus i.submission.quota_state)) [
    | inl b ↦
        let was : row.quota_state ≡ QuotaState.bonus = ground arith in
        elim (Bool-cases
          (is_free_state (new_quota_state i.submission.quota_state i.manifest i.result.verdict))) [
            | inl f ↦
                let done = call_ok narrow encode fails Call.refund _ st' (rw (b, f) at h) in
                let after : settled_state row.quota_state i.manifest i.result.verdict
                    ≡ QuotaState.free =
                  ground arith in
                rw (done, after)
                  (
                    refund-Replaces i.submission.id row st e was,
                    record { jobs = refl; scores = refl; board = refl; nonces = refl },
                  )
            | inr f ↦
                let done =
                  call_ok narrow encode fails Call.set_quota_state _ st' (rw (b, f) at h) in
                let after : settled_state row.quota_state i.manifest i.result.verdict
                    ≡ QuotaState.bonus =
                  ground arith in
                rw (done, after)
                  (
                    state-Replaces i.submission.id QuotaState.bonus row st.submissions e,
                    record { jobs = refl; scores = refl; board = refl; nonces = refl },
                  )
          ]
    | inr b ↦
        let done = call_ok narrow encode fails Call.set_quota_state _ st' (rw b at h) in
        let after : settled_state row.quota_state i.manifest i.result.verdict
            ≡ new_quota_state i.submission.quota_state i.manifest i.result.verdict =
          ground arith in
        rw (done, after)
          (
            state-Replaces i.submission.id
                (new_quota_state i.submission.quota_state i.manifest i.result.verdict) row
                st.submissions e,
            record { jobs = refl; scores = refl; board = refl; nonces = refl },
          )
  ]

  -- The tables after a Persist that has committed.
  pub record IsStored (now : ℕ) (i : PersistInput F) (row : Submission) (st st' : State V)
      : Type 0 where
    -- The row has the result's columns and its settled quota state; no other row changes.
    pub settled :
        get_submission i.submission.id st'.submissions
        ≡ some (
            with_state
              (settled_state row.quota_state i.manifest i.result.verdict)
              (with_result (result_params narrow encode fails i) row))
    pub other_rows :
        (k : ℕ)
        → k ≢ i.submission.id
        → get_submission k st'.submissions ≡ get_submission k st.submissions
    -- The user's entry in the lab shows this submission if it was scored; no other entry changes.
    pub entry :
        (user : ℕ) (lab : String)
        → get_entry user lab st'.board ≡ (
            if is_scored i.result.verdict
              && (i.submission.user_id == user && str_eq i.submission.lab_id lab)
            then some (entry_of narrow encode fails now i.submission)
            else get_entry user lab st.board)
    -- The scores of the result are written if it was scored; no other score changes.
    pub written :
        (m : String)
        → get_score i.submission.id m st'.scores ≡ (
            if is_scored i.result.verdict
            then override narrow encode fails
                (lookup m i.result.scores)
                (get_score i.submission.id m st.scores)
            else get_score i.submission.id m st.scores)
    pub other_scores :
        (k : ℕ) (m : String)
        → k ≢ i.submission.id
        → get_score k m st'.scores ≡ get_score k m st.scores
    pub same_jobs : st'.jobs ≡ st.jobs
    pub same_nonces : st'.nonces ≡ st.nonces

  -- The steps of a transaction that commits.
  abbrev pub Steps : ℕ → PersistInput F → State V → State V → Type 0
  Steps now i st st' =
      (stored settled : State V) × (stored ≡ record st {
        submissions =
            update_result i.submission.id (result_params narrow encode fails i) st.submissions;
      })
      × (settle_quota narrow encode fails i stored ≡ ok settled)
      × (publish_scores narrow encode fails now i settled ≡ ok st')

  pub transaction-Steps :
      (now : ℕ) (i : PersistInput F) (st st' : State V)
      → transaction narrow encode fails now i st ≡ ok st'
      → Steps now i st st'
  unfolding transaction store_result
  transaction-Steps now i st st' e =
      let (begun, e0, r0) = >>=-eq-ok (call narrow encode fails Call.begin st) _ e in
      let (stored, e1, r1) = >>=-eq-ok (store_result narrow encode fails i begun) _ r0 in
      let (settled, e2, r2) = >>=-eq-ok (settle_quota narrow encode fails i stored) _ r1 in
      let (published, e3, r3) = >>=-eq-ok (publish_scores narrow encode fails now i settled) _ r2 in
      (
        stored,
        settled,
        call_ok narrow encode fails Call.set_result _ stored e1
            ∙ ap
                (λ (x : State V). record x {
                  submissions =
                      update_result i.submission.id (result_params narrow encode fails i)
                        x.submissions;
                })
                (call_ok narrow encode fails Call.begin st begun e0),
        e2,
        e3 ∙ ap ok (sym (call_ok narrow encode fails Call.commit published st' r3)),
      )

  pub persist_ok :
      (now : ℕ) (i : PersistInput F) (st st' : State V)
      → persist narrow encode fails now i st ≡ (ok tt, st')
      → transaction narrow encode fails now i st ≡ ok st'
  unfolding persist
  persist_ok now i st st' e = ground arith

  IsStored-effect :
      (now : ℕ) (i : PersistInput F) (row : Submission) (st stored settled st' : State V)
      → get_submission i.submission.id st.submissions ≡ some row
      → stored ≡ record st {
        submissions =
            update_result i.submission.id (result_params narrow encode fails i) st.submissions;
      }
      → Replaces i.submission.id
          (with_state
            (settled_state row.quota_state i.manifest i.result.verdict)
            (with_result (result_params narrow encode fails i) row))
          stored.submissions
          settled.submissions
      → SameElse stored settled
      → Published narrow encode fails now i settled st'
      → IsStored now i row st st'
  IsStored-effect now i row st stored settled st' found at_stored one else_same published = record {
    settled = ap (get_submission i.submission.id) published.submissions ∙ one.0;
    other_rows = λ k h.
        ap (get_submission k) published.submissions
        ∙ one.1 k h
        ∙ ap (λ (x : State V). get_submission k x.submissions) at_stored
        ∙ not_it k h;
    entry = λ user lab.
        published.entry user lab
        ∙ ap
            (λ (b : List BoardRow).
              if is_scored i.result.verdict
                && (i.submission.user_id == user && str_eq i.submission.lab_id lab)
              then some (entry_of narrow encode fails now i.submission)
              else get_entry user lab b)
            (else_same.board ∙ ap (λ (x : State V). x.board) at_stored);
    written = λ m.
        published.written m
        ∙ ap
            (λ (ss : List (Score V)).
              if is_scored i.result.verdict
              then override narrow encode fails (lookup m i.result.scores)
                  (get_score i.submission.id m ss)
              else get_score i.submission.id m ss)
            (else_same.scores ∙ ap (λ (x : State V). x.scores) at_stored);
    other_scores = λ k m h.
        published.others k m h
        ∙ ap (get_score k m) (else_same.scores ∙ ap (λ (x : State V). x.scores) at_stored);
    same_jobs = published.jobs ∙ else_same.jobs ∙ ap (λ (x : State V). x.jobs) at_stored;
    same_nonces = published.nonces ∙ else_same.nonces ∙ ap (λ (x : State V). x.nonces) at_stored;
  }
    where
      not_it :
          (k : ℕ)
          → k ≢ i.submission.id
          → get_submission k
              (update_result i.submission.id (result_params narrow encode fails i) st.submissions)
            ≡ get_submission k st.submissions
      not_it k h = ground (
        arith,
        get-update_result k i.submission.id (result_params narrow encode fails i) st.submissions,
      )

  -- A Persist that succeeds, for a submission as it stands in the table and a result whose scores
  -- have one value for a metric, writes the result and the settled quota state to that row, the
  -- scores and the leaderboard entry if the verdict is `scored`, and changes no other row, entry,
  -- score, job or nonce.
  pub persist-IsStored :
      (now : ℕ) (i : PersistInput F) (row : Submission) (st st' : State V)
      → HasKeysOnce i.result.scores
      → get_submission i.submission.id st.submissions ≡ some row
      → i.submission.quota_state ≡ row.quota_state
      → persist narrow encode fails now i st ≡ (ok tt, st')
      → IsStored now i row st st'
  persist-IsStored now i row st st' once found same e =
      let (stored, settled, at_stored, e2, e3) =
        transaction-Steps now i st st' (persist_ok now i st st' e) in
      let in_stored : get_submission i.submission.id stored.submissions
          ≡ some (with_result (result_params narrow encode fails i) row) =
        ap (λ (x : State V). get_submission i.submission.id x.submissions) at_stored ∙ its_row in
      let (one, else_same) =
        settle_effect i (with_result (result_params narrow encode fails i) row) stored settled
          in_stored same e2 in
      IsStored-effect now i row st stored settled st' found at_stored one else_same
        (publish_effect narrow encode fails now i settled st' once e3)
    where
      its_row :
          get_submission i.submission.id
            (update_result i.submission.id (result_params narrow encode fails i) st.submissions)
          ≡ some (with_result (result_params narrow encode fails i) row)
      its_row = ground (
        arith,
        get-update_result i.submission.id i.submission.id (result_params narrow encode fails i)
            st.submissions,
      )
