-- ===== src/Devices.antt =====
-- The authorisation of devices and the web login: apps/api/internal/service/auth, device_flow.go and
-- web_login.go. The OAuth provider, the fingerprint of a key and the random tokens are parameters;
-- `fails` says which calls of the database return an error; `clock` is the service's clock and `now`
-- the NOW() of the statement. A fingerprint is never empty.
pub mod Flow
pub mod Final
pub mod History
pub mod Bind
mod Tests
use lab_kit.Prelude.{
  ℕ, ◌+◌, String, Option, none, some, List, Bool, true, false, not, ◌||◌, ltb, ◌==◌, if◌then◌else◌,
  str_eq,
}
use lab_kit.Prelude.Text.{is_empty, trim_space}
use lab_kit.Prelude.Results.{Result, ok, err, ◌>>=◌, ◌>>◌, guard}
use lab_kit.Db.{Request, RequestStatus, UserKey, User}
use lab_kit.Db.Devices.{
  Accounts, is_pending, create_request, request_by_device_code, pending_by_user_code,
  pending_by_oauth_state, key_by_public_key, CompleteParams, Completed, complete_request,
  upsert_user,
}

pub data Call : Type 0 where
  new_token insert get_request get_key finish upsert : Call

pub data Error : Type 0 where
  invalid_state invalid_code invalid_request provider_not_configured identity_failed bad_url : Error
  unique_violation : Error
  driver : Call → Error

-- Provider: the URL of a state, and the student of a code (ExchangeCode with FetchIdentity).
pub record Provider : Type 0 where
  pub build_authorize_url : String → Option String
  pub exchange_code : String → Option String
  pub fetch_identity : String → Option String

pub record Env : Type 0 where
  pub provider : Option Provider
  pub fingerprint_of : String → Option String

abbrev pub default_device_auth_ttl : ℕ
default_device_auth_ttl = 600_000_000_000

abbrev pub is_blank : String → Bool
is_blank s = is_empty (trim_space s)

abbrev pub or_unknown : String → String
or_unknown name = if is_empty name then "unknown" else name

-- CreateDeviceAuthRequestInput
pub record CreateInput : Type 0 where
  pub public_key : String
  pub device_name : String

-- The tokens and the id that a new request gets.
pub record Tokens : Type 0 where
  pub id : ℕ
  pub device_code : String
  pub user_code : String
  pub state : String

abbrev pub new_request : CreateInput → Tokens → ℕ → ℕ → Request
new_request i t clock ttl = record {
  id = t.id;
  device_code = t.device_code;
  user_code = t.user_code;
  public_key = i.public_key;
  device_name = or_unknown (trim_space i.device_name);
  student_id = none;
  oauth_state = some t.state;
  status = RequestStatus.pending;
  expires_at = clock + (if ttl == 0 then default_device_auth_ttl else ttl);
}

-- PollDeviceAuthRequestResult
pub record PollResult : Type 0 where
  pub device_code : String
  pub user_code : String
  pub status : RequestStatus
  pub student_id : String
  pub key_id : ℕ

-- `status == pending && now.After(expires_at)`
abbrev pub polled_status : ℕ → Request → RequestStatus
polled_status clock r =
    if is_pending r.status
    then (if ltb r.expires_at clock then RequestStatus.expired else r.status)
    else r.status

abbrev pub is_approved : RequestStatus → Bool
is_approved RequestStatus.approved = true
is_approved _ = false

abbrev pub text_or_empty : Option String → String
text_or_empty none = ""
text_or_empty (some s) = s

abbrev pub id_or_zero : Option UserKey → ℕ
id_or_zero none = 0
id_or_zero (some k) = k.id

abbrev pub found {ℓ} : {A : Type ℓ} → Error → Option A → Result Error A
found e none = err e
found e (some a) = ok a

-- The three tests of a request that is to be completed: pending, not expired, and the state is there.
abbrev pub is_open : ℕ → Request → Bool
is_open clock r = if is_pending r.status then not (ltb r.expires_at clock) else false

module _ (fails : Call → Bool) where
  abbrev pub call : Call → Result Error (Unit {0})
  call c = if fails c then err (driver c) else ok tt

  -- CreateDeviceAuthorizationRequest
  unfoldable pub create :
      CreateInput → Tokens → ℕ → ℕ → List Request → Result Error Request × List Request
  create i t clock ttl rows =
      if is_blank i.public_key
      then (err invalid_request, rows)
      else if fails Call.new_token
      then (err (driver Call.new_token), rows)
      else if fails Call.insert
      then (err (driver Call.insert), rows)
      else (elim (create_request (new_request i t clock ttl) rows) [
        | none ↦ (err unique_violation, rows)
        | some rows' ↦ (ok (new_request i t clock ttl), rows')
      ])

  -- PollDeviceAuthorizationRequest
  unfoldable pub poll : String → ℕ → Accounts → Result Error PollResult
  poll code clock a = do
    guard (not (is_blank code)) invalid_request
    call Call.get_request
    r ← found invalid_request (request_by_device_code code a.requests)
    if is_approved (polled_status clock r) then call Call.get_key else ok tt
    ok (record {
      device_code = r.device_code;
      user_code = r.user_code;
      status = polled_status clock r;
      student_id = text_or_empty r.student_id;
      key_id =
          if is_approved (polled_status clock r)
          then id_or_zero (key_by_public_key r.public_key a.keys)
          else 0;
    })

module _ (env : Env) (fails : Call → Bool) where
  abbrev pub provider : Result Error Provider
  provider = found provider_not_configured env.provider

  -- BeginDeviceVerification
  unfoldable pub begin_verification : String → ℕ → List Request → Result Error String
  begin_verification user_code clock rows = do
    guard (not (is_blank user_code)) invalid_request
    call fails Call.get_request
    r ← found invalid_request (pending_by_user_code (trim_space user_code) rows)
    guard (is_open clock r) invalid_request
    guard (not (is_blank (text_or_empty r.oauth_state))) invalid_state
    p ← provider
    found bad_url (p.build_authorize_url (text_or_empty r.oauth_state))

  -- The student that a code stands for.
  unfoldable pub identify : String → Result Error String
  identify code = do
    p ← provider
    token ← found invalid_code (p.exchange_code code)
    student ← found identity_failed (p.fetch_identity token)
    guard (not (is_blank student)) invalid_code
    ok (trim_space student)

  -- The checks of DevBindDeviceAuthorizationRequest, to the parameters of the statement.
  unfoldable pub check_bind :
      String → String → String → ℕ → ℕ → ℕ → List Request → Result Error CompleteParams
  check_bind code student name new_user new_key clock rows = do
    guard (not (is_blank code || is_blank student)) invalid_request
    call fails Call.get_request
    r ← found invalid_request (request_by_device_code (trim_space code) rows)
    guard (is_open clock r) invalid_request
    guard (not (is_blank (text_or_empty r.oauth_state))) invalid_state
    fingerprint ← found invalid_request (env.fingerprint_of r.public_key)
    ok (record {
      device_code = r.device_code;
      oauth_state = text_or_empty r.oauth_state;
      student_id = trim_space student;
      fingerprint = fingerprint;
      device_name =
          if is_empty (trim_space name)
          then or_unknown (trim_space r.device_name)
          else trim_space name;
      new_user = new_user;
      new_key = new_key;
    })

  -- The checks of HandleOAuthCallback. The request is found by its state, so that it has one.
  unfoldable pub check_callback :
      String → String → ℕ → ℕ → ℕ → List Request → Result Error CompleteParams
  check_callback state code new_user new_key clock rows = do
    guard (not (is_blank state || is_blank code)) invalid_state
    call fails Call.get_request
    r ← found invalid_state (pending_by_oauth_state state rows)
    guard (is_open clock r) invalid_state
    student ← identify code
    fingerprint ← found invalid_request (env.fingerprint_of r.public_key)
    ok (record {
      device_code = r.device_code;
      oauth_state = state;
      student_id = student;
      fingerprint = fingerprint;
      device_name = or_unknown (trim_space r.device_name);
      new_user = new_user;
      new_key = new_key;
    })

  -- CompleteDeviceAuthRequest: pgx.ErrNoRows is the error that is given.
  unfoldable pub complete :
      Error → CompleteParams → ℕ → Accounts → Result Error Completed × Accounts
  complete no_rows arg now a =
      if fails Call.finish
      then (err (driver Call.finish), a)
      else (elim (complete_request arg now a) [
        | none ↦ (err unique_violation, a)
        | some (row, a') ↦ (found no_rows row, a')
      ])

  -- What follows the checks.
  abbrev pub complete_checked :
      Error → Result Error CompleteParams → ℕ → Accounts → Result Error Completed × Accounts
  complete_checked no_rows (err e) now a = (err e, a)
  complete_checked no_rows (ok arg) now a = complete no_rows arg now a

  -- DevBindDeviceAuthorizationRequest
  unfoldable pub dev_bind :
      String → String → String → ℕ → ℕ → ℕ → ℕ → Accounts → Result Error Completed × Accounts
  dev_bind code student name new_user new_key clock now a =
      complete_checked invalid_request
        (check_bind code student name new_user new_key clock a.requests) now a

  -- HandleOAuthCallback
  unfoldable pub handle_callback :
      String → String → ℕ → ℕ → ℕ → ℕ → Accounts → Result Error Completed × Accounts
  handle_callback state code new_user new_key clock now a =
      complete_checked invalid_state (check_callback state code new_user new_key clock a.requests)
        now a

  -- HandleWebLoginCallback
  unfoldable pub handle_web_login : String → ℕ → Accounts → Result Error User × Accounts
  handle_web_login code new_user a =
      if is_blank code then (err invalid_code, a) else (elim (identify code) [
        | err e ↦ (err e, a)
        | ok student ↦ if fails Call.upsert then (err (driver Call.upsert), a) else (
          ok (upsert_user new_user student a.users).0,
          record a { users = (upsert_user new_user student a.users).1 },
        )
      ])
