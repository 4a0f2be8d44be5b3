-- ===== src/Submissions/Refused.antt =====
-- What Intake leaves behind when it returns an error, and the nonces and the quota over two requests:
-- apps/api/internal/service/submissions/service.go.
use lab_kit.Prelude.{
  ◌≡◌, none, Bool, true, false, arith, eq_iff, Option-cases, Bool-cases, inl, inr,
}
use lab_kit.Prelude.Dict.{lookup, insert, lookup-delete}
use lab_kit.Prelude.Results.{Result, ok, err, Result-cases}
use lab_kit.Db.{State, Submission}
use lab_kit.Db.Board.{reserve_nonce}
use lab_kit.Submissions.Intake.{
  Call, Error, SubmitInput, Env, World, Checked, Reserved, finish, record_submission, submit,
  intake, reserve_quota, nonce_replayed, check_lab, check_signed,
}
use lab_kit.Submissions.Keys.{get_user_key}
use lab_kit.Submissions.Accept.{is_used, with_artifact}
use lab_kit.Submissions.Entry.{with_keys}

module _ {F V : Type 0} (env : Env F) (fails : Call → Bool) where
  finish_err :
      (c : Checked) (r : Reserved) (w : World V) (o : Result Error (Submission × State V))
      (x : Error)
      → (finish env fails c r w o).0 ≡ err x
      → ((finish env fails c r w o).1.db ≡ w.db) × ((finish env fails c r w o).1.labs ≡ w.labs)
  unfolding finish
  finish_err c r w (ok (row, db')) x e = ground arith
  finish_err c r w (err y) x e = (ground arith, ground arith)

  submit_saved :
      (i : SubmitInput) (c : Checked) (w : World V) (r : Reserved) (paid : State V)
      → reserve_quota env fails c i.lab_id w.db ≡ ok (r, paid)
      → fails Call.save ≡ false
      → submit env fails i c w
        ≡ finish env fails c r
            (with_artifact env fails c w)
            (record_submission env fails c i r.bonus_used paid)
  unfolding submit
  submit_saved i c w r paid h s = ground arith

  submit_err :
      (i : SubmitInput) (c : Checked) (w : World V) (x : Error)
      → (submit env fails i c w).0 ≡ err x
      → ((submit env fails i c w).1.db ≡ w.db) × ((submit env fails i c w).1.labs ≡ w.labs)
  unfolding submit
  submit_err i c w x e = elim (Result-cases (reserve_quota env fails c i.lab_id w.db)) [
    | inr (y, h) ↦ (ground arith, ground arith)
    | inl ((r, paid), h) ↦ elim (Bool-cases (fails Call.save)) [
      | inl s ↦ (ground arith, ground arith)
      | inr s ↦
          let q = submit_saved i c w r paid h s in
          rw q (finish_err c r (with_artifact env fails c w) _ x (rw q at e))
    ]
  ]

  -- A request that Intake refuses, for whatever reason, changes no table of the queue: not the
  -- submissions, jobs, nonces, bonus, scores or board, nor the labs.
  pub intake-err :
      (i : SubmitInput) (w : World V) (x : Error)
      → (intake env fails i w).0 ≡ err x
      → ((intake env fails i w).1.db ≡ w.db) × ((intake env fails i w).1.labs ≡ w.labs)
  unfolding intake
  intake-err i w x e = elim (Result-cases (check_lab env fails i w.labs)) [
    | inr (y, h) ↦ (ground arith, ground arith)
    | inl (m, h) ↦ elim (Bool-cases (fails Call.get_key)) [
      | inl g ↦ (ground arith, ground arith)
      | inr g ↦
          elim (Option-cases
            (get_user_key env.codec (fails Call.set_key) i.key_fingerprint w.keys).0) [
              | inl k ↦ (ground arith, ground arith)
              | inr (key, k) ↦ elim (Result-cases (check_signed env fails i m key)) [
                | inr (y, s) ↦ (ground arith, ground arith)
                | inl (c, s) ↦
                    let t = submit_err i c (with_keys env fails i w) x (ground arith) in
                    (ground arith, ground arith)
              ]
            ]
    ]
  ]

  replayed_record :
      (c : Checked) (i : SubmitInput) (b : Bool) (st : State V)
      → fails Call.nonce ≡ false
      → is_used i.nonce st.nonces ≡ true
      → record_submission env fails c i b st ≡ err nonce_replayed
  unfolding record_submission reserve_nonce
  replayed_record c i b st n u = ground arith

  -- A request that is refused after the save, for a nonce that was used, takes the artifact at its
  -- key away, whatever was stored there before: the tables stay as they were, and no artifact is at
  -- the key any more.
  pub submit-replayed :
      (i : SubmitInput) (c : Checked) (w : World V) (r : Reserved) (paid : State V)
      → reserve_quota env fails c i.lab_id w.db ≡ ok (r, paid)
      → is_used i.nonce paid.nonces ≡ true
      → fails Call.save ≡ false
      → fails Call.nonce ≡ false
      → fails Call.remove ≡ false
      → ((submit env fails i c w).0 ≡ err nonce_replayed)
        × ((submit env fails i c w).1.db ≡ w.db)
        × (lookup c.artifact_key (submit env fails i c w).1.artifacts ≡ none)
  unfolding finish
  submit-replayed i c w r paid h u s n d =
      let o = replayed_record c i r.bonus_used paid n u in
      rw (submit_saved i c w r paid h s, o)
        (
          ground arith,
          ground arith,
          ground (
            arith,
            eq_iff c.artifact_key c.artifact_key,
            lookup-delete c.artifact_key c.artifact_key
                (insert c.artifact_key c.archive w.artifacts),
          ),
        )
