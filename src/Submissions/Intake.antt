-- ===== src/Submissions/Intake.antt =====
-- Service.Intake: apps/api/internal/service/submissions/service.go. The checks are `checked`, the
-- transaction up to the save of the artifact is `reserve_quota`, the rest up to the commit is
-- `record_submission`, and the deferred calls are in `finish`.
use lab_kit.Prelude.{
  ℕ, suc, String, Option, none, some, List, Bool, true, false, map, if◌then◌else◌,
}
use lab_kit.Prelude.Int.{pos, leb_ℤ}
use lab_kit.Prelude.Dict.{Dict, lookup, insert, delete}
use lab_kit.Prelude.Results.{Result, ok, err, ◌>>=◌, ◌>>◌, guard}
use lab_kit.Manifest.{Manifest}
use lab_kit.Auth as Auth
use lab_kit.Auth.{Crypto, Payload, new_payload, with_content_hash, verify_signature}
use lab_kit.Db.{UserKey, State, Submission, SubmissionStatus}
use lab_kit.Db.Submissions.{
  CreateParams, create_submission, create_bonus_submission, count_quota_usage,
}
use lab_kit.Db.Jobs.{create_job}
use lab_kit.Db.Bonus.{consume_bonus}
use lab_kit.Db.Board.{reserve_nonce}
use lab_kit.Submissions.{lab_open}
use lab_kit.Submissions.Quota.{Location, quota_window, QuotaSummary, build_quota_summary}
use lab_kit.Submissions.Files.{UploadFile, FileError, Floats, validate_files}
use lab_kit.Submissions.Archive.{Packer, archive_of}
use lab_kit.Submissions.Keys.{KeyCodec, get_user_key}

-- The calls that may fail.
pub data Call : Type 0 where
  get_lab get_key set_key begin lock_quota count_quota consume save nonce insert_row insert_job
        commit :
      Call
  remove : Call

pub data Error : Type 0 where
  lab_not_found lab_closed bad_manifest no_key bad_key archive_failed nonce_replayed : Error
  daily_quota_exceeded unique_violation : Error
  bad_files : FileError → Error
  signature : Auth.Error → Error
  driver : Call → Error
  joined : Error → Call → Error

-- SubmitInput
pub record SubmitInput : Type 0 where
  pub lab_id : String
  pub key_fingerprint : String
  pub timestamp : ℕ
  pub nonce : String
  pub sig : List ℕ
  pub files : List UploadFile

-- What the service is given: the decoder of a stored manifest, the codec of keys, float64, the
-- writer of archives with its hash, the signature check, the text of buildArtifactKey, the time zone
-- of the quota; and of this call the readings of the clock, NOW() and the fresh ids.
pub record Env (F : Type 0) : Type 0 where
  pub parse_manifest : List ℕ → Option Manifest
  pub codec : KeyCodec
  pub floats : Floats F
  pub packer : Packer
  pub crypto : Crypto
  pub artifact_text : String → ℕ → List String → String → String
  pub location : Location
  pub opened : ℕ
  pub verified : ℕ
  pub counted : ℕ
  pub now : ℕ
  pub submission_id : ℕ
  pub job_id : ℕ

-- The tables and the artifact store.
pub record World (V : Type 0) : Type 0 where
  pub labs : Dict (List ℕ)
  pub keys : List UserKey
  pub db : State V
  pub artifacts : Dict (List ℕ)

-- Submission, the answer.
pub record Receipt : Type 0 where
  pub id : ℕ
  pub status : SubmissionStatus
  pub artifact_key : String
  pub content_hash : String
  pub quota : Option QuotaSummary

-- What the checks before the transaction leave.
pub record Checked : Type 0 where
  pub manifest : Manifest
  pub key : UserKey
  pub archive : List ℕ
  pub content_hash : String
  pub artifact_key : String

-- What the transaction knows before the artifact is saved: usedBefore, bonusUsed and
-- bonusRemainingAfter.
pub record Reserved : Type 0 where
  pub used : ℕ
  pub bonus_used : Bool
  pub bonus_left : ℕ

abbrev pub call : (Call → Bool) → Call → Result Error (Unit {0})
call fails c = if fails c then err (driver c) else ok tt

abbrev pub file_names : SubmitInput → List String
file_names i = map (λ f. f.name) i.files

-- The payload that the signature is of.
abbrev pub payload : SubmitInput → String → Payload
payload i hash = with_content_hash hash (new_payload i.lab_id i.timestamp i.nonce (file_names i))

abbrev pub create_params : Checked → String → CreateParams
create_params c lab = record {
  user_id = c.key.user_id;
  lab_id = lab;
  key_id = c.key.id;
  artifact_key = c.artifact_key;
  content_hash = c.content_hash;
  status = SubmissionStatus.queued;
}

abbrev pub found_key : Option UserKey → Result Error UserKey
found_key none = err no_key
found_key (some key) = ok key

module _ {F : Type 0} (env : Env F) (fails : Call → Bool) where
  -- GetLab, parseManifest, labOpen and validateFiles.
  unfoldable pub check_lab : SubmitInput → Dict (List ℕ) → Result Error Manifest
  check_lab i labs = do
    call fails Call.get_lab
    raw ← elim (lookup i.lab_id labs) [ none ↦ err lab_not_found | some raw ↦ ok raw ]
    m ← elim (env.parse_manifest raw) [ none ↦ err bad_manifest | some m ↦ ok m ]
    guard (lab_open m.schedule env.opened) lab_closed
    elim (validate_files env.floats m.submit.files m.submit.max_size i.files) [
      | err e ↦ err (bad_files e)
      | ok _ ↦ ok m
    ]

  -- buildArtifactKey
  unfoldable pub build_artifact_key : String → ℕ → List String → String → String
  build_artifact_key lab_id user_id names hash =
      env.artifact_text lab_id user_id (Auth.sort names) hash

  -- parseAuthorizedKey, storage.Archive and VerifySignature.
  unfoldable pub check_signed : SubmitInput → Manifest → UserKey → Result Error Checked
  check_signed i m key = do
    public_key ← elim (env.codec.parse key.public_key) [ none ↦ err bad_key | some k ↦ ok k ]
    (packed, hash) ← elim (archive_of env.packer i.files) [
      | none ↦ err archive_failed
      | some a ↦ ok a
    ]
    elim (verify_signature env.crypto env.verified 0 public_key (payload i hash) i.sig) [
      | err e ↦ err (signature e)
      | ok _ ↦ ok (record {
        manifest = m;
        key = key;
        archive = packed;
        content_hash = hash;
        artifact_key = build_artifact_key i.lab_id key.user_id (file_names i) hash;
      })
    ]

  abbrev pub create_row : Checked → String → Bool → List Submission → Submission × List Submission
  create_row c lab bonus_used rows =
      if bonus_used
      then create_bonus_submission env.submission_id env.now (create_params c lab) rows
      else create_submission env.submission_id env.now (create_params c lab) rows

  abbrev pub receipt : Checked → Reserved → Submission → Receipt
  receipt c r row = record {
    id = row.id;
    status = row.status;
    artifact_key = row.artifact_key;
    content_hash = row.content_hash;
    quota =
        build_quota_summary (some c.manifest) (pos (if r.bonus_used then r.used else suc r.used))
          (pos r.bonus_left) env.location;
  }

module _ {F V : Type 0} (env : Env F) (fails : Call → Bool) where
  -- checkDailyQuota
  unfoldable pub check_daily_quota : Manifest → ℕ → String → State V → Result Error (ℕ × Bool)
  check_daily_quota m user lab st =
      if leb_ℤ m.quota.daily (pos 0)
      then ok (0, false)
      else if fails Call.count_quota
      then err (driver Call.count_quota)
      else (let used =
            count_quota_usage user lab (quota_window env.counted env.location).0
              (quota_window env.counted env.location).1 st.submissions in
          ok (used, leb_ℤ m.quota.daily (pos used)))

  -- ConsumeBonusQuota when the day's quota is used up.
  unfoldable pub spend_bonus : Checked → String → ℕ → State V → Result Error (Reserved × State V)
  spend_bonus c lab used st = do
    call fails Call.consume
    elim (consume_bonus c.key.user_id lab st.bonus) [
      | none ↦ err daily_quota_exceeded
      | some (left, bonus) ↦ ok (
        record { used = used; bonus_used = true; bonus_left = left },
        record st { bonus = bonus },
      )
    ]

  -- From BeginTx to the save.
  unfoldable pub reserve_quota : Checked → String → State V → Result Error (Reserved × State V)
  reserve_quota c lab st = do
    call fails Call.begin
    call fails Call.lock_quota
    (used, exhausted) ← check_daily_quota c.manifest c.key.user_id lab st
    if exhausted
        then spend_bonus c lab used st
        else ok (record { used = used; bonus_used = false; bonus_left = 0 }, st)

  -- From the save to the commit.
  unfoldable pub record_submission :
      Checked → SubmitInput → Bool → State V → Result Error (Submission × State V)
  record_submission c i bonus_used st = do
    call fails Call.nonce
    guard (reserve_nonce i.nonce st.nonces).0 nonce_replayed
    call fails Call.insert_row
    call fails Call.insert_job
    jobs ← elim (create_job env.job_id env.submission_id env.now st.jobs) [
      | none ↦ err unique_violation
      | some (_, jobs) ↦ ok jobs
    ]
    call fails Call.commit
    ok (
      (create_row env fails c i.lab_id bonus_used st.submissions).0,
      record st {
        nonces = (reserve_nonce i.nonce st.nonces).1;
        submissions = (create_row env fails c i.lab_id bonus_used st.submissions).1;
        jobs = jobs;
      },
    )

  -- The end of the call once the artifact is saved, with the deferred calls: the transaction is
  -- rolled back and the artifact deleted if there is no commit.
  unfoldable pub finish :
      Checked
      → Reserved
      → World V
      → Result Error (Submission × State V)
      → Result Error Receipt × World V
  finish c r w (ok (row, db')) = (ok (receipt env fails c r row), record w { db = db' })
  finish c r w (err e) =
      if fails Call.remove
      then (err (joined e Call.remove), w)
      else (err e, record w { artifacts = delete c.artifact_key w.artifacts })

  -- From BeginTx on. A save that fails leaves the store as it was.
  unfoldable pub submit : SubmitInput → Checked → World V → Result Error Receipt × World V
  submit i c w = elim (reserve_quota c i.lab_id w.db) [
    | err e ↦ (err e, w)
    | ok (r, db') ↦
        if fails Call.save
        then (err (driver Call.save), w)
        else finish c r (record w { artifacts = insert c.artifact_key c.archive w.artifacts })
            (record_submission c i r.bonus_used db')
  ]

  -- Service.Intake
  unfoldable pub intake : SubmitInput → World V → Result Error Receipt × World V
  intake i w = elim (check_lab env fails i w.labs) [
    | err e ↦ (err e, w)
    | ok m ↦
        if fails Call.get_key
        then (err (driver Call.get_key), w)
        else (let looked = get_user_key env.codec (fails Call.set_key) i.key_fingerprint w.keys in
            let w' = record w { keys = looked.1 } in
            elim (found_key looked.0 >>= check_signed env fails i m) [
              | err e ↦ (err e, w')
              | ok c ↦ submit i c w'
            ])
  ]
