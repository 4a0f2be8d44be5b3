-- ===== src/Admin.antt =====
-- The administration of a lab: apps/api/internal/service/admin/service.go, without the export of
-- grades, the queue's listing and the JSON of a manifest. `fails` says which calls of the driver
-- return an error, `labs` are the rows of the labs, and the ids of new rows are given by their
-- number.
pub mod Copies
pub mod Reevaluated
pub mod Adjusted
mod Tests
use lab_kit.Prelude.{
  ℕ, suc, ◌-◌, ◌%◌, ◌^◌, String, Option, none, some, List, [], ◌∷◌, Bool, true, false, ◌==◌, ltb,
  length, if◌then◌else◌,
}
use lab_kit.Prelude.Int.{ℤ, pos, negsuc}
use lab_kit.Prelude.Text.{trim_space}
use lab_kit.Prelude.Results.{Result, ok, err, ◌>>=◌, ◌>>◌}
use lab_kit.Db.{State, Submission, SubmissionStatus, BoardRow}
use lab_kit.Db.Labs as Labs
use lab_kit.Db.Labs.{LabRow}
use lab_kit.Db.Submissions.{CreateParams, create_free_submission, get_submission, admin_reset_quota}
use lab_kit.Db.Jobs as Jobs
use lab_kit.Db.Board.{list_leaderboard}
use lab_kit.Db.Bonus as Bonus
use lab_kit.Db.Bonus.{participants, adjust_bonus}
use lab_kit.Submissions.Quota.{Location, quota_window}

-- The driver's calls that may fail.
pub data Call : Type 0 where
  get_lab reset_quota count_users adjust reset_bonus begin list_board commit : Call
  load_submission create_submission create_job : ℕ → Call

pub data Error : Type 0 where
  lab_not_found zero_delta : Error
  driver : Call → Error

-- AdjustBonusQuotaResult
pub record BonusResult : Type 0 where
  pub lab_id : String
  pub delta : ℤ
  pub users_affected : ℕ
  pub lab_participants : ℕ
  pub is_reset : Bool
  pub is_dry_run : Bool

-- The conversion int32(delta).
abbrev pub of_residue : ℕ → ℤ
of_residue n = if ltb n (2 ^ 31) then pos n else negsuc (2 ^ 32 - n - 1)

abbrev pub int32 : ℤ → ℤ
int32 (pos n) = of_residue (n % 2 ^ 32)
int32 (negsuc n) = of_residue (2 ^ 32 - 1 - n % 2 ^ 32)

-- The parameters that Reevaluate copies from a submission.
abbrev pub copy_params : Submission → CreateParams
copy_params s = record {
  user_id = s.user_id;
  lab_id = s.lab_id;
  key_id = s.key_id;
  artifact_key = s.artifact_key;
  content_hash = s.content_hash;
  status = SubmissionStatus.queued;
}

-- An answer, or the tables as they were.
abbrev pub or_back :
    {A V : Type 0} → State V → Result Error (A × State V) → Result Error A × State V
or_back st (err e) = (err e, st)
or_back st (ok (a, st')) = (ok a, st')

abbrev pub found_lab : Option LabRow → Result Error LabRow
found_lab none = err lab_not_found
found_lab (some lab) = ok lab

abbrev pub is_zero_int : ℤ → Bool
is_zero_int (pos n) = n == 0
is_zero_int (negsuc n) = false

abbrev pub bonus_result : String → ℤ → ℕ → ℕ → Bool → Bool → BonusResult
bonus_result id delta affected users is_reset is_dry_run = record {
  lab_id = id;
  delta = delta;
  users_affected = affected;
  lab_participants = users;
  is_reset = is_reset;
  is_dry_run = is_dry_run;
}

abbrev pub nonzero : ℤ → Result Error (Unit {0})
nonzero delta = if is_zero_int delta then err zero_delta else ok tt

module _ (fails : Call → Bool) where
  abbrev pub call : {A : Type 0} → Call → A → Result Error A
  call c a = if fails c then err (driver c) else ok a

  -- pgx.ErrNoRows is an error of the call.
  abbrev pub call_row : {A : Type 0} → Call → Option A → Result Error A
  call_row c none = err (driver c)
  call_row c (some a) = call c a

  -- loadLabRow
  unfoldable pub load_lab_row : String → List LabRow → Result Error LabRow
  unfolding trim_space
  load_lab_row id labs = do
    found ← call Call.get_lab (Labs.get_lab (trim_space id) labs)
    found_lab found

module _ {V : Type 0} (fails : Call → Bool) where
  -- ResetLabQuota
  unfoldable pub reset_lab_quota : Location → ℕ → String → State V → Result Error ℕ × State V
  reset_lab_quota location now id st =
      let (n, rows) = admin_reset_quota id (quota_window now location).0 st.submissions in
      or_back st (call fails Call.reset_quota (n, record st { submissions = rows }))

  -- CountLabParticipants
  abbrev pub count_participants : String → State V → Result Error ℕ
  count_participants id st = call fails Call.count_users (length (participants id st.submissions))

  -- AdjustBonusQuota
  unfoldable pub adjust_bonus_quota :
      String → ℤ → Bool → List LabRow → State V → Result Error BonusResult × State V
  adjust_bonus_quota id delta dry_run labs st = or_back st (do
    lab ← load_lab_row fails id labs
    done ← nonzero delta
    users ← count_participants id st
    if dry_run
        then ok (bonus_result id delta users users false true, st)
        else call fails Call.adjust (
          bonus_result id delta users users false false,
          record st { bonus = adjust_bonus id (int32 delta) st.submissions st.bonus },
        ))

  -- ResetBonusQuota
  unfoldable pub reset_bonus_quota :
      String → Bool → List LabRow → State V → Result Error BonusResult × State V
  reset_bonus_quota id dry_run labs st = or_back st (do
    lab ← load_lab_row fails id labs
    users ← count_participants id st
    let (affected, bonus) = Bonus.reset_bonus id st.bonus in
        if dry_run
        then ok (bonus_result id (pos 0) users users true true, st)
        else call fails Call.reset_bonus
            (bonus_result id (pos 0) affected users true false, record st { bonus = bonus }))

  module _ (submission_id job_id : ℕ → ℕ) (now : ℕ) where
    -- The two inserts for one row of the leaderboard, the `n`-th.
    unfoldable pub requeue_copy : ℕ → Submission → State V → Result Error (State V)
    requeue_copy n row st =
        let (copy, rows) =
          create_free_submission (submission_id n) now (copy_params row) st.submissions in
        do
          inserted ← call fails (Call.create_submission n) (record st { submissions = rows })
          (job, jobs) ←
              call_row fails (Call.create_job n)
                (Jobs.create_job (job_id n) copy.id now inserted.jobs)
          ok (record inserted { jobs = jobs })

    -- The loop of Reevaluate: GetSubmission reads outside the transaction, from the tables `seen`.
    unfoldable pub requeue_rows :
        List Submission → ℕ → List BoardRow → State V → Result Error (ℕ × State V)
    requeue_rows seen created [] st = ok (created, st)
    requeue_rows seen created (r ∷ rows) st = do
      row ← call_row fails (Call.load_submission created) (get_submission r.submission_id seen)
      st' ← requeue_copy created row st
      requeue_rows seen (suc created) rows st'

    -- The transaction of Reevaluate, with the load of the lab.
    unfoldable pub requeue_lab : String → List LabRow → State V → Result Error (ℕ × State V)
    requeue_lab id labs st = do
      lab ← load_lab_row fails id labs
      started ← call fails Call.begin st
      rows ← call fails Call.list_board (list_leaderboard lab.id started.board)
      done ← requeue_rows st.submissions 0 rows started
      call fails Call.commit done

    -- Reevaluate: without the commit the transaction is rolled back.
    unfoldable pub reevaluate : String → List LabRow → State V → Result Error ℕ × State V
    reevaluate id labs st = or_back st (requeue_lab id labs st)
