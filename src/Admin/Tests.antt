-- ===== src/Admin/Tests.antt =====
-- A reevaluation of a lab with one row on its board, and one after a failed commit:
-- apps/api/internal/service/admin/service.go.
use lab_kit.Prelude.{length, ℕ, ◌+◌, ◌≡◌, refl, some, [], ◌∷◌, Bool, true, false}
use lab_kit.Prelude.Int.{pos}
use lab_kit.Prelude.Results.{ok, err}
use lab_kit.Db.{State, Submission, QuotaState, SubmissionStatus}
use lab_kit.Db.Labs.{LabRow, get_lab}
use lab_kit.Db.Submissions.{new_submission, get_submission, create_free_submission}
use lab_kit.Db.Jobs.{create_job}
use lab_kit.Db.Board.{list_leaderboard, insert_recent}
use lab_kit.Db.Bonus.{participants, get_bonus}
use lab_kit.Admin.{
  Call, driver, commit, load_lab_row, requeue_copy, requeue_rows, requeue_lab, reevaluate,
  adjust_bonus_quota, zero_delta, bonus_result, int32,
}
use lab_kit.Admin.Adjusted.{adjusted, adjust_bonus_quota-adjusted}
use lab_kit.Admin.Reevaluated.{IsReevaluated, reevaluate-IsReevaluated}

abbrev malloc : LabRow
malloc = record {
  id = "malloc";
  name = "Malloc";
  manifest = "{}";
  manifest_updated_at = 1;
  created_at = 1;
}

abbrev judged : Submission
judged =
    record (new_submission 7 5001 QuotaState.charged (record {
      user_id = 4;
      lab_id = "malloc";
      key_id = 3;
      artifact_key = "key";
      content_hash = "hash";
      status = SubmissionStatus.done;
    })) { verdict = some "scored" }

abbrev tables : State ℕ
tables = record {
  submissions = judged ∷ [];
  jobs = [];
  bonus = [];
  scores = [];
  board = record { user_id = 4; lab_id = "malloc"; submission_id = 7; updated_at = 5300 } ∷ [];
  nonces = [];
}

abbrev up : Call → Bool
up c = false

abbrev cannot_commit : Call → Bool
cannot_commit commit = true
cannot_commit c = false

abbrev new_id : ℕ → ℕ
new_id n = 100 + n

one_copy : (reevaluate up new_id new_id 6000 " malloc " (malloc ∷ []) tables).0 ≡ ok 1
unfolding reevaluate requeue_lab load_lab_row get_lab list_leaderboard insert_recent requeue_rows
    requeue_copy get_submission create_free_submission create_job
one_copy = refl

rolled_back :
    reevaluate cannot_commit new_id new_id 6000 "malloc" (malloc ∷ []) tables
    ≡ (err (driver commit), tables)
unfolding reevaluate requeue_lab load_lab_row get_lab list_leaderboard insert_recent requeue_rows
    requeue_copy get_submission create_free_submission create_job
rolled_back = refl

no_delta :
    adjust_bonus_quota up "malloc" (pos 0) false (malloc ∷ []) tables ≡ (err zero_delta, tables)
unfolding adjust_bonus_quota load_lab_row get_lab
no_delta = refl

reevaluate-IsReevaluated_example :
    IsReevaluated " malloc "
      (malloc ∷ [])
      1
      tables
      (reevaluate up new_id new_id 6000 " malloc " (malloc ∷ []) tables).1
reevaluate-IsReevaluated_example =
    reevaluate-IsReevaluated up new_id new_id 6000 " malloc " (malloc ∷ []) tables 1 one_copy

two_more :
    (adjust_bonus_quota up "malloc" (pos 2) false (malloc ∷ []) tables).0
    ≡ ok (bonus_result "malloc" (pos 2) 1 1 false false)
unfolding adjust_bonus_quota load_lab_row get_lab participants
two_more = refl

adjust_bonus_quota-adjusted_example :
    (1 ≡ length (participants "malloc" tables.submissions))
    × (get_bonus 4 "malloc"
          (adjust_bonus_quota up "malloc" (pos 2) false (malloc ∷ []) tables).1.bonus
        ≡ adjusted "malloc"
            (int32 (pos 2))
            tables.submissions
            4
            "malloc"
            (get_bonus 4 "malloc" tables.bonus))
adjust_bonus_quota-adjusted_example =
    adjust_bonus_quota-adjusted up "malloc" (pos 2) false (malloc ∷ []) tables
      (bonus_result "malloc" (pos 2) 1 1 false false) 4 "malloc" two_more
