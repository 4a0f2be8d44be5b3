-- ===== src/Submissions/Tests.antt =====
-- Small requests: apps/api/internal/service/submissions.
use lab_kit.Prelude.{
  ℕ, ◌+◌, ◌*◌, ◌/◌, ◌≤◌, ◌≡◌, refl, ◌↔◌, ◌⊎◌, none, some, List, [], ◌∷◌, Bool, true, false, ◌==◌,
  arith,
}
use lab_kit.Prelude.Int.{pos}
use lab_kit.Prelude.Text.{trim_space, contains_code}
use lab_kit.Prelude.Dict.{lookup}
use lab_kit.Prelude.Results.{ok, err}
use lab_kit.Manifest.{Manifest, MetricSort}
use lab_kit.Auth.{verify_signature}
use lab_kit.Db.{UserKey, State, Submission, QuotaState, SubmissionStatus}
use lab_kit.Db.Submissions.{create_submission, count_quota_usage, new_submission}
use lab_kit.Db.Jobs.{create_job}
use lab_kit.Db.Bonus.{consume_bonus}
use lab_kit.Db.Board.{reserve_nonce}
use lab_kit.Submissions.{lab_open}
use lab_kit.Submissions.Quota.{
  Location, quota_window, build_quota_summary, quota_location_name, QuotaSummary, count_usage,
}
use lab_kit.Submissions.Files.{
  Floats, validate_files, parse_max_size, check_files, require_all, check_file, bad_name, size_in,
  size_of,
}
use lab_kit.Submissions.Archive.{archive_of}
use lab_kit.Submissions.Keys.{KeyCodec, get_user_key}
use lab_kit.Submissions.Upload.{IsUpload, validate_files_iff}
use lab_kit.Submissions.Intake.{
  Call, Env, World, SubmitInput, Receipt, Checked, Error, intake, check_lab, check_signed,
  check_daily_quota, reserve_quota, record_submission, finish, submit, build_artifact_key,
}
use lab_kit.Submissions.Accept.{IsAccepted}
use lab_kit.Submissions.Entry.{IsChecked, intake-IsAccepted, with_keys}
use lab_kit.Submissions.Refused.{intake-err, submit-replayed}
use lab_kit.Submissions.Limits.{intake-once, intake-quota, counted}
use lab_kit.Submissions.Usage.{count_usage-count_quota_usage}

abbrev lab : Manifest
lab = record {
  lab = record { id = "malloc"; name = "Malloc"; tags = [] };
  submit = record { files = "mm.c" ∷ []; max_size = "5B" };
  eval = record { image = "labkit/malloc"; timeout = pos 300 };
  quota = record { daily = pos 2; free = [] };
  metrics = record { id = "score"; name = "Score"; sort = MetricSort.desc; unit = "" } ∷ [];
  board = record { rank_by = "score"; pick = false; rank_all = none };
  schedule = record { visible = 100; opens = 100; closes = 9000 };
}

abbrev zone : Location
zone = record { name = "Asia/Shanghai"; day_start = λ t. t / 1000 * 1000; next_day = λ t. t + 1000 }

-- A number is its first digit.
abbrev digits : Floats ℕ
digits = record {
  upper = λ c. c;
  parse = λ s. elim s [ [] ↦ none | ◌∷◌ c _ ↦ some (c * 1) ];
  not_positive = λ f. f == 0;
  times = λ f scale. f * scale;
  too_large = λ f. false;
  to_int = λ f. f;
}

abbrev key_bytes : List ℕ
key_bytes =
    0 ∷ 0 ∷ 0 ∷ 0 ∷ 0 ∷ 0 ∷ 0 ∷ 0 ∷ 0 ∷ 0 ∷ 0 ∷ 0 ∷ 0 ∷ 0 ∷ 0 ∷ 0 ∷ 0 ∷ 0 ∷ 0 ∷ 0 ∷ 0 ∷ 0 ∷ 0 ∷ 0
    ∷ 0 ∷ 0 ∷ 0 ∷ 0 ∷ 0 ∷ 0 ∷ 0 ∷ 0 ∷ []

abbrev any_key : KeyCodec
any_key = record { parse = λ s. some key_bytes; fingerprint = λ k. "print" }

abbrev env : Env ℕ
env = record {
  parse_manifest = λ raw. some lab;
  codec = any_key;
  floats = digits;
  packer = record { pack = λ files. some (1 ∷ 2 ∷ []); digest = λ bytes. "hash" };
  crypto = record { marshal = λ view. some []; verify = λ k m s. true; epoch = 0 };
  artifact_text = λ lab user names hash. hash;
  location = zone;
  opened = 5000;
  verified = 5000;
  counted = 5000;
  now = 5001;
  submission_id = 7;
  job_id = 8;
}

abbrev up : Call → Bool
up c = false

abbrev request : SubmitInput
request = record {
  lab_id = "malloc";
  key_fingerprint = "print";
  timestamp = 5000;
  nonce = "n1";
  sig = [];
  files = record { name = "mm.c"; content = 1 ∷ [] } ∷ [];
}

abbrev user_key : UserKey
user_key = record {
  id = 3;
  user_id = 4;
  public_key = "ssh-ed25519";
  device_name = "laptop";
  is_revoked = false;
  fingerprint = some "print";
}

abbrev empty_db : State ℕ
empty_db = record { submissions = []; jobs = []; bonus = []; scores = []; board = []; nonces = [] }

abbrev world : World ℕ
world = record { labs = ("malloc", []) ∷ []; keys = user_key ∷ []; db = empty_db; artifacts = [] }

abbrev answer : Receipt
answer = record {
  id = 7;
  status = SubmissionStatus.queued;
  artifact_key = "hash";
  content_hash = "hash";
  quota = some (record {
    daily = pos 2;
    used = pos 1;
    left = pos 1;
    hint = "00:00 Asia/Shanghai";
    bonus = none;
  });
}

accepts : intake env up request world ≡ (ok answer, (intake env up request world).1)
unfolding intake archive_of check_lab check_signed get_user_key verify_signature submit
    reserve_quota check_daily_quota record_submission finish validate_files parse_max_size
    check_files check_file require_all reserve_nonce create_submission create_job
    build_quota_summary quota_location_name lab_open lookup quota_window count_quota_usage
    build_artifact_key trim_space contains_code bad_name size_in size_of
accepts = refl

intake-IsAccepted_example :
    (c : Checked) × IsChecked env up request c world.labs
    × ((get_user_key env.codec (up Call.set_key) request.key_fingerprint world.keys).0 ≡ some c.key)
    × IsAccepted env up request c answer
        (with_keys env up request world)
        (intake env up request world).1
intake-IsAccepted_example =
    intake-IsAccepted env up request world (intake env up request world).1 answer accepts

intake-once_example : ¬ ((intake env up request (intake env up request world).1).0 ≡ ok answer)
intake-once_example =
    intake-once env env up up request request world (intake env up request world).1 answer accepts
      refl answer

looked_up :
    (get_user_key env.codec (up Call.set_key) request.key_fingerprint world.keys).0 ≡ some user_key
unfolding get_user_key trim_space
looked_up = refl

found_lab : lookup request.lab_id world.labs ≡ some []
unfolding lookup
found_lab = refl

intake-quota_example :
    let w' = (intake env up request world).1 in
    ((counted env up 4 "malloc" w'.db ≤ 2) × (w'.db.bonus ≡ []))
    ⊎ ((2 ≤ counted env up 4 "malloc" empty_db)
        × (counted env up 4 "malloc" w'.db ≡ counted env up 4 "malloc" empty_db)
        × (left : ℕ) × (consume_bonus 4 "malloc" [] ≡ some (left, w'.db.bonus)))
intake-quota_example =
    intake-quota env up request answer world (intake env up request world).1 [] lab user_key 2
      accepts found_lab refl looked_up refl (ground arith)

abbrev no_labs : World ℕ
no_labs = record world { labs = [] }

no_lab : (intake env up request no_labs).0 ≡ err Error.lab_not_found
unfolding intake check_lab lookup
no_lab = refl

intake-err_example :
    ((intake env up request no_labs).1.db ≡ empty_db)
    × ((intake env up request no_labs).1.labs ≡ [])
intake-err_example = intake-err env up request no_labs Error.lab_not_found no_lab

abbrev accepted : Checked
accepted = record {
  manifest = lab;
  key = user_key;
  archive = 1 ∷ 2 ∷ [];
  content_hash = "hash";
  artifact_key = "hash";
}

-- The world after an earlier submission of the same content.
abbrev before : World ℕ
before = record world {
  db = record empty_db { nonces = "n1" ∷ [] };
  artifacts = ("hash", 1 ∷ 2 ∷ []) ∷ [];
}

reserved :
    reserve_quota env up accepted "malloc" before.db
    ≡ ok (record { used = 0; bonus_used = false; bonus_left = 0 }, before.db)
unfolding reserve_quota check_daily_quota count_quota_usage
reserved = refl

submit-replayed_example :
    ((submit env up request accepted before).0 ≡ err Error.nonce_replayed)
    × ((submit env up request accepted before).1.db ≡ before.db)
    × (lookup "hash" (submit env up request accepted before).1.artifacts ≡ none)
submit-replayed_example =
    submit-replayed env up request accepted before
      (record { used = 0; bonus_used = false; bonus_left = 0 }) before.db reserved refl refl refl
      refl

abbrev rows : List Submission
rows =
    new_submission 7 5001 QuotaState.pending (record {
      user_id = 4;
      lab_id = "malloc";
      key_id = 3;
      artifact_key = "hash";
      content_hash = "hash";
      status = SubmissionStatus.queued;
    })
    ∷ []

count_usage-count_quota_usage_example :
    count_usage rows 5000 6000 ≡ count_quota_usage 4 "malloc" 5000 6000 rows
count_usage-count_quota_usage_example =
    count_usage-count_quota_usage 4 "malloc" 5000 6000 rows ((refl, refl), tt)

checked_quota :
    check_daily_quota env up lab 4 "malloc" (record empty_db { submissions = rows }) ≡ ok (1, false)
unfolding check_daily_quota count_quota_usage quota_window
checked_quota = refl

abbrev summary : QuotaSummary
summary = record {
  daily = pos 2;
  used = pos 1;
  left = pos 1;
  hint = "00:00 Asia/Shanghai";
  bonus = none;
}

summed : build_quota_summary (some lab) (pos 1) (pos 0) zone ≡ some summary
unfolding build_quota_summary quota_location_name trim_space
summed = refl

validate_files_iff_example : (validate_files digits ("mm.c" ∷ []) "5B" request.files ≡ ok tt) ↔ (
    (limit : ℕ) × (parse_max_size digits "5B" ≡ some limit)
    × IsUpload ("mm.c" ∷ []) limit request.files)
validate_files_iff_example = validate_files_iff digits ("mm.c" ∷ []) "5B" request.files
