-- ===== src/Submissions/Entry.antt =====
-- Intake as a whole: apps/api/internal/service/submissions/service.go.
use lab_kit.Prelude.{ℕ, ◌≡◌, some, List, Bool, true, arith, Option-cases, inl, inr, ap, sym, ◌∙◌}
use lab_kit.Prelude.Dict.{Dict, lookup}
use lab_kit.Prelude.Results.{ok, Result-cases}
use lab_kit.Manifest.{Manifest}
use lab_kit.Auth.{verify_signature}
use lab_kit.Submissions.{lab_open}
use lab_kit.Submissions.Files.{validate_files}
use lab_kit.Submissions.Archive.{archive_of}
use lab_kit.Submissions.Keys.{get_user_key}
use lab_kit.Db.{UserKey}
use lab_kit.Submissions.Intake.{
  Call, SubmitInput, Env, World, Receipt, Checked, submit, intake, check_lab, check_signed,
  build_artifact_key, payload, file_names,
}
use lab_kit.Submissions.Accept.{IsAccepted, submit_ok}

module _ {F : Type 0} (env : Env F) (fails : Call → Bool) where
  -- The checks that the request passed: the lab is there and open, its files are the right ones, and
  -- the key signed the archive's hash.
  pub record IsChecked (i : SubmitInput) (c : Checked) (labs : Dict (List ℕ)) : Type 0 where
    pub raw : List ℕ
    pub lab_found : lookup i.lab_id labs ≡ some raw
    pub parsed : env.parse_manifest raw ≡ some c.manifest
    pub opened : lab_open c.manifest.schedule env.opened ≡ true
    pub files :
        validate_files env.floats c.manifest.submit.files c.manifest.submit.max_size i.files ≡ ok tt
    pub public_key : List ℕ
    pub key_parsed : env.codec.parse c.key.public_key ≡ some public_key
    pub archived : archive_of env.packer i.files ≡ some (c.archive, c.content_hash)
    pub signed :
        verify_signature env.crypto env.verified 0 public_key (payload i c.content_hash) i.sig
        ≡ ok tt
    pub stored_at :
        c.artifact_key
        ≡ build_artifact_key env fails i.lab_id c.key.user_id (file_names i) c.content_hash

  check_lab_inv :
      (i : SubmitInput) (labs : Dict (List ℕ)) (m : Manifest)
      → check_lab env fails i labs ≡ ok m
      → (raw : List ℕ) × (lookup i.lab_id labs ≡ some raw)
        × (env.parse_manifest raw ≡ some m)
        × (lab_open m.schedule env.opened ≡ true)
        × (validate_files env.floats m.submit.files m.submit.max_size i.files ≡ ok tt)
  unfolding check_lab
  check_lab_inv i labs m e = elim (Option-cases (lookup i.lab_id labs)) [
    | inl h ↦ ground arith
    | inr (raw, h) ↦ elim (Option-cases (env.parse_manifest raw)) [
      | inl g ↦ ground arith
      | inr (m', g) ↦
          let same : m' ≡ m = ground arith in
          (raw, h, g ∙ ap some same, rw (sym same) (ground arith), rw (sym same) (ground arith))
    ]
  ]

  check_signed_inv :
      (i : SubmitInput) (m : Manifest) (key : UserKey) (c : Checked)
      → check_signed env fails i m key ≡ ok c
      → (c.manifest ≡ m)
        × (c.key ≡ key)
        × (public_key : List ℕ) × (env.codec.parse c.key.public_key ≡ some public_key)
        × (archive_of env.packer i.files ≡ some (c.archive, c.content_hash))
        × (verify_signature env.crypto env.verified 0 public_key (payload i c.content_hash) i.sig
            ≡ ok tt)
        × (c.artifact_key
            ≡ build_artifact_key env fails i.lab_id c.key.user_id (file_names i) c.content_hash)
  unfolding check_signed
  check_signed_inv i m key c e = elim (Option-cases (env.codec.parse key.public_key)) [
    | inl h ↦ ground arith
    | inr (pk, h) ↦ elim (Option-cases (archive_of env.packer i.files)) [
      | inl g ↦ ground arith
      | inr ((packed, hash), g) ↦
          (ground arith, ground arith, pk, ground arith, ground arith, ground arith, ground arith)
    ]
  ]

module _ {F V : Type 0} (env : Env F) (fails : Call → Bool) where
  -- The world once the key is looked up, which may store its fingerprint.
  abbrev pub with_keys : SubmitInput → World V → World V
  with_keys i w = record w {
    keys = (get_user_key env.codec (fails Call.set_key) i.key_fingerprint w.keys).1;
  }

  intake_checked :
      (i : SubmitInput) (w w' : World V) (res : Receipt)
      → intake env fails i w ≡ (ok res, w')
      → (m : Manifest) × (key : UserKey) × (c : Checked) × (check_lab env fails i w.labs ≡ ok m)
        × ((get_user_key env.codec (fails Call.set_key) i.key_fingerprint w.keys).0 ≡ some key)
        × (check_signed env fails i m key ≡ ok c)
        × (submit env fails i c (with_keys i w) ≡ (ok res, w'))
  unfolding intake
  intake_checked i w w' res e = elim (Result-cases (check_lab env fails i w.labs)) [
    | inr (x, h) ↦ ground arith
    | inl (m, h) ↦
        elim (Option-cases
          (get_user_key env.codec (fails Call.set_key) i.key_fingerprint w.keys).0) [
            | inl g ↦ ground arith
            | inr (key, g) ↦ elim (Result-cases (check_signed env fails i m key)) [
              | inr (x, k) ↦ ground arith
              | inl (c, k) ↦ (m, key, c, h, g, k, ground arith)
            ]
          ]
  ]

  -- An accepted request passed every check of Intake and is recorded as a whole: the key is the one
  -- of the fingerprint, the lab is open, the files are the manifest's, the key signed the payload
  -- with the archive's hash, the nonce was new; and afterwards the row, its queued job and the nonce
  -- are in the tables, the archive is stored, and the answer is that of the new row.
  pub intake-IsAccepted :
      (i : SubmitInput) (w w' : World V) (res : Receipt)
      → intake env fails i w ≡ (ok res, w')
      → (c : Checked) × IsChecked env fails i c w.labs
        × ((get_user_key env.codec (fails Call.set_key) i.key_fingerprint w.keys).0 ≡ some c.key)
        × IsAccepted env fails i c res (with_keys i w) w'
  intake-IsAccepted i w w' res e =
      let (m, key, c, l, k, s, done) = intake_checked i w w' res e in
      let (raw, a1, a2, a3, a4) = check_lab_inv env fails i w.labs m l in
      let (same, same_key, pk, b1, b2, b3, b4) = check_signed_inv env fails i m key c s in
      (
        c,
        record {
          raw = raw;
          lab_found = a1;
          parsed = a2 ∙ ap some (sym same);
          opened = rw same a3;
          files = rw same a4;
          public_key = pk;
          key_parsed = b1;
          archived = b2;
          signed = b3;
          stored_at = b4;
        },
        k ∙ ap some (sym same_key),
        submit_ok env fails i c (with_keys i w) w' res done,
      )
