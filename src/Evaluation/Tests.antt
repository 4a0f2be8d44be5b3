-- ===== src/Evaluation/Tests.antt =====
-- A bonus submission whose build fails: apps/worker/internal/service/evaluation.
use lab_kit.Prelude.{ℕ, ◌↔◌, ◌≡◌, refl, Option, none, some, [], ◌∷◌, Bool, false, String}
use lab_kit.Prelude.Int.{pos}
use lab_kit.Prelude.Results.{ok, err}
use lab_kit.Manifest.{Manifest, MetricSort}
use lab_kit.Evaluator.{Verdict, Outcome, Detail, validate_result}
use lab_kit.Db.{State, Submission, QuotaState, SubmissionStatus}
use lab_kit.Db.Submissions.{new_submission, get_submission, update_result, update_quota_state}
use lab_kit.Db.Bonus.{refund_bonus}
use lab_kit.Evaluation.{
  Call, PersistInput, persist, transaction, store_result, settle_quota, new_quota_state,
  publish_scores,
}
use lab_kit.Evaluator as Ev
use lab_kit.Evaluation.{invalid_output}
use lab_kit.Evaluation.Total.{persist-validate_result}
use lab_kit.Evaluation.Quota.{Settles}
use lab_kit.Evaluation.Settled.{persist-Settles}
use lab_kit.Evaluation.Effects.{IsStored, persist-IsStored}
use lab_kit.Evaluation.Refund.{persist-bonus, persist-twice, refunded}

abbrev lab : Manifest
lab = record {
  lab = record { id = "malloc"; name = "Malloc"; tags = [] };
  submit = record { files = "mm.c" ∷ []; max_size = "1MB" };
  eval = record { image = "labkit/malloc"; timeout = pos 300 };
  quota = record { daily = pos 2; free = "build_failed" ∷ [] };
  metrics = record { id = "score"; name = "Score"; sort = MetricSort.desc; unit = "" } ∷ [];
  board = record { rank_by = "score"; pick = false; rank_all = none };
  schedule = record { visible = 100; opens = 100; closes = 9000 };
}

abbrev row : Submission
row = new_submission 7 5001 QuotaState.bonus (record {
  user_id = 4;
  lab_id = "malloc";
  key_id = 3;
  artifact_key = "key";
  content_hash = "hash";
  status = SubmissionStatus.running;
})

abbrev build_failure : Outcome ℕ
build_failure = record { verdict = Verdict.build_failed; scores = []; detail = none; message = "" }

abbrev input : PersistInput ℕ
input = record {
  manifest = some lab;
  submission = row;
  result = build_failure;
  image_digest = "sha";
  started_at = 5100;
  finished_at = 5200;
}

abbrev same : ℕ → ℕ
same v = v

abbrev no_text : Detail → Option String
no_text d = none

abbrev up : Call → Bool
up c = false

abbrev start : State ℕ
start = record {
  submissions = row ∷ [];
  jobs = [];
  bonus = record { user_id = 4; lab_id = "malloc"; remaining = 0 } ∷ [];
  scores = [];
  board = [];
  nonces = [];
}

abbrev settled_row : Submission
settled_row = record row {
  status = SubmissionStatus.done;
  verdict = some "build_failed";
  image_digest = some "sha";
  started_at = some 5100;
  finished_at = some 5200;
  quota_state = QuotaState.free;
}

abbrev stored : State ℕ
stored = record start {
  submissions = settled_row ∷ [];
  bonus = record { user_id = 4; lab_id = "malloc"; remaining = 1 } ∷ [];
}

persists : persist same no_text up 5300 input start ≡ (ok tt, stored)
unfolding persist transaction store_result settle_quota new_quota_state publish_scores
    validate_result update_result update_quota_state refund_bonus get_submission
persists = refl

persists_again : persist same no_text up 5400 input stored ≡ (ok tt, stored)
unfolding persist transaction store_result settle_quota new_quota_state publish_scores
    validate_result update_result update_quota_state refund_bonus get_submission
persists_again = refl

loaded : get_submission 7 start.submissions ≡ some row
unfolding get_submission
loaded = refl

persist-IsStored_example : IsStored same no_text up 5300 input row start stored
persist-IsStored_example =
    persist-IsStored same no_text up 5300 input row start stored tt loaded refl persists

persist-bonus_example : stored.bonus ≡ refunded same no_text up input row start.bonus
persist-bonus_example = persist-bonus same no_text up 5300 input row start stored tt loaded persists

persist-twice_example : stored.bonus ≡ stored.bonus
persist-twice_example =
    persist-twice same no_text up up 5300 5400 input row start stored stored tt loaded refl persists
      persists_again

persist-Settles_example :
    (after : Submission) × (get_submission 7 stored.submissions ≡ some after)
    × Settles (some lab) Verdict.build_failed QuotaState.bonus after.quota_state
persist-Settles_example =
    persist-Settles same no_text up 5300 input row start stored tt loaded refl persists

persist-validate_result_example :
    (((persist same no_text up 5300 input start).0 ≡ ok tt)
      ↔ (validate_result input.manifest input.result ≡ ok tt))
    × ((e : Ev.Error)
        → validate_result input.manifest input.result ≡ err e
        → persist same no_text up 5300 input start ≡ (err (invalid_output e), start))
persist-validate_result_example =
    persist-validate_result same no_text up (λ c. refl) 5300 input start
