-- ===== src/Submissions/Accept.antt =====
-- What Intake leaves in the tables and in the store, on its answers and on its errors:
-- apps/api/internal/service/submissions/service.go.
use lab_kit.Prelude.{
  ℕ, ◌≡◌, refl, String, some, List, [], ◌∷◌, ◌++◌, Bool, true, false, arith, any, ap, sym, ◌∙◌,
  str_eq, Option-cases, inl, inr, ◌⊎◌,
}
use lab_kit.Prelude.Dict.{insert}
use lab_kit.Prelude.Results.{Result, Result-cases, ok, err}
use lab_kit.Db.{State, Submission, BonusQuota, QuotaState}
use lab_kit.Db.Submissions.{create_submission, create_bonus_submission, new_submission}
use lab_kit.Db.Jobs.{create_job, new_job}
use lab_kit.Db.Bonus.{consume_bonus}
use lab_kit.Db.Board.{reserve_nonce}
use lab_kit.Submissions.Intake.{
  Call, Error, SubmitInput, Env, World, Receipt, Checked, Reserved, create_params, create_row,
  receipt, record_submission, finish, submit, reserve_quota, check_daily_quota, spend_bonus,
}

abbrev pub is_used : String → List String → Bool
is_used nonce nonces = any (λ n. str_eq n nonce) nonces

-- The quota state of the new row.
abbrev pub initial_state : Bool → QuotaState
initial_state true = QuotaState.bonus
initial_state false = QuotaState.pending

module _ {F : Type 0} (env : Env F) (fails : Call → Bool) where
  -- The row that is inserted.
  abbrev pub inserted : Checked → String → Bool → Submission
  inserted c lab bonus_used =
      new_submission env.submission_id env.now (initial_state bonus_used) (create_params c lab)

  create_row_lem :
      (c : Checked) (lab : String) (b : Bool) (rows : List Submission)
      → create_row env fails c lab b rows ≡ (inserted c lab b, rows ++ inserted c lab b ∷ [])
  unfolding create_submission create_bonus_submission
  create_row_lem c lab true rows = refl
  create_row_lem c lab false rows = refl

module _ {F V : Type 0} (env : Env F) (fails : Call → Bool) where
  -- The tables with a submission, its job and its nonce.
  abbrev pub with_submission : Checked → SubmitInput → Bool → State V → State V
  with_submission c i bonus_used st = record st {
    nonces = st.nonces ++ i.nonce ∷ [];
    submissions = st.submissions ++ inserted env fails c i.lab_id bonus_used ∷ [];
    jobs = st.jobs ++ new_job env.job_id env.submission_id env.now ∷ [];
  }

  record_submission_inv :
      (c : Checked) (i : SubmitInput) (b : Bool) (st st' : State V) (row : Submission)
      → record_submission env fails c i b st ≡ ok (row, st')
      → (row ≡ inserted env fails c i.lab_id b)
        × (is_used i.nonce st.nonces ≡ false)
        × (st' ≡ with_submission c i b st)
  unfolding record_submission create_job reserve_nonce create_submission create_bonus_submission
  record_submission_inv c i true st st' row e = ground arith
  record_submission_inv c i false st st' row e = ground arith

  -- What the transaction does before the save: without a bonus submission nothing changes, and with
  -- one the user's bonus goes down by one.
  abbrev pub Spends : Checked → String → Reserved → State V → State V → Type 0
  Spends c lab r st st' =
      (check_daily_quota env fails c.manifest c.key.user_id lab st ≡ ok (r.used, r.bonus_used))
      × (((r.bonus_used ≡ false) × (st' ≡ st))
          ⊎ ((r.bonus_used ≡ true)
              × (bs : List BonusQuota) × (consume_bonus c.key.user_id lab st.bonus
                  ≡ some (r.bonus_left, bs))
              × (st' ≡ record st { bonus = bs })))

  spend_bonus_inv :
      (c : Checked) (lab : String) (used : ℕ) (st st' : State V) (r : Reserved)
      → spend_bonus env fails c lab used st ≡ ok (r, st')
      → (r.used ≡ used)
        × (r.bonus_used ≡ true)
        × (bs : List BonusQuota) × (consume_bonus c.key.user_id lab st.bonus
            ≡ some (r.bonus_left, bs))
        × (st' ≡ record st { bonus = bs })
  unfolding spend_bonus
  spend_bonus_inv c lab used st st' r e =
      elim (Option-cases (consume_bonus c.key.user_id lab st.bonus)) [
        | inl h ↦ ground arith
        | inr ((left, bs), h) ↦ (ground arith, ground arith, bs, ground arith, ground arith)
      ]

  pub reserve_quota_inv :
      (c : Checked) (lab : String) (st st' : State V) (r : Reserved)
      → reserve_quota env fails c lab st ≡ ok (r, st')
      → Spends c lab r st st'
  unfolding reserve_quota
  reserve_quota_inv c lab st st' r e =
      elim (Result-cases (check_daily_quota env fails c.manifest c.key.user_id lab st)) [
        | inl ((used, true), h) ↦
            let s = spend_bonus_inv c lab used st st' r (ground arith) in
            (ground arith, inr (s.1, s.2, s.3, s.4))
        | inl ((used, false), h) ↦ (ground arith, inl (ground arith, ground arith))
        | inr (x, h) ↦ ground arith
      ]

  -- An accepted request, from the world in which its key was found.
  pub record IsAccepted (i : SubmitInput) (c : Checked) (res : Receipt) (w w' : World V)
      : Type 0 where
    pub reserved : Reserved
    pub paid : State V
    pub spends : Spends c i.lab_id reserved w.db paid
    pub nonce_new : is_used i.nonce w.db.nonces ≡ false
    pub tables : w'.db ≡ with_submission c i reserved.bonus_used paid
    pub artifacts : w'.artifacts ≡ insert c.artifact_key c.archive w.artifacts
    pub answer :
        res ≡ receipt env fails c reserved (inserted env fails c i.lab_id reserved.bonus_used)

  pub Spends-nonces :
      (c : Checked) (lab : String) (r : Reserved) (st st' : State V)
      → Spends c lab r st st'
      → st'.nonces ≡ st.nonces
  Spends-nonces c lab r st st' (_, inl (_, h)) = ap (λ x. x.nonces) h
  Spends-nonces c lab r st st' (_, inr (_, _, _, h)) = ap (λ x. x.nonces) h

  finish_ok :
      (c : Checked) (r : Reserved) (w w' : World V) (o : Result Error (Submission × State V))
      (res : Receipt)
      → finish env fails c r w o ≡ (ok res, w')
      → (row : Submission) × (db' : State V) × (o ≡ ok (row, db'))
        × (res ≡ receipt env fails c r row)
        × (w' ≡ record w { db = db' })
  unfolding finish
  finish_ok c r w w' (ok (row, db')) res e = (row, db', refl, ground arith, ground arith)
  finish_ok c r w w' (err x) res e = ground arith

  -- The world once the artifact is saved.
  abbrev pub with_artifact : Checked → World V → World V
  with_artifact c w = record w { artifacts = insert c.artifact_key c.archive w.artifacts }

  finished :
      (i : SubmitInput) (c : Checked) (w w' : World V) (res : Receipt) (r : Reserved)
      (paid : State V)
      → Spends c i.lab_id r w.db paid
      → finish env fails c r (with_artifact c w) (record_submission env fails c i r.bonus_used paid)
        ≡ (ok res, w')
      → IsAccepted i c res w w'
  finished i c w w' res r paid s e =
      let (row, db', o, a, b) = finish_ok c r (with_artifact c w) w' _ res e in
      let (u, v, x) = record_submission_inv c i r.bonus_used paid db' row o in
      record {
        reserved = r;
        paid = paid;
        spends = s;
        nonce_new = rw (sym (Spends-nonces c i.lab_id r w.db paid s)) v;
        tables = ap (λ y. y.db) b ∙ x;
        artifacts = ap (λ y. y.artifacts) b;
        answer = a ∙ ap (receipt env fails c r) u;
      }

  pub submit_ok :
      (i : SubmitInput) (c : Checked) (w w' : World V) (res : Receipt)
      → submit env fails i c w ≡ (ok res, w')
      → IsAccepted i c res w w'
  unfolding submit
  submit_ok i c w w' res e = elim (Result-cases (reserve_quota env fails c i.lab_id w.db)) [
    | inr (x, h) ↦ ground arith
    | inl ((r, paid), h) ↦
        finished i c w w' res r paid (reserve_quota_inv c i.lab_id w.db paid r h) (ground arith)
  ]
