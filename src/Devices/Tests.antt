-- ===== src/Devices/Tests.antt =====
-- A device on small tables: apps/api/internal/service/auth/device_flow.go and web_login.go.
use lab_kit.Prelude.{◌≡◌, refl, ap, sym, none, some, [], ◌∷◌, Bool, false, In, ◌&&◌, find}
use lab_kit.Prelude.Text.{trim_space}
use lab_kit.Prelude.Results.{ok, err}
use lab_kit.Db.{Request, RequestStatus, User, UserKey}
use lab_kit.Db.Devices.{
  Accounts, CompleteParams, approve, belongs, complete_request, create_request, has_fingerprint,
  insert_key, is_pending, key_by_public_key, pending_by_oauth_state, request_by_device_code,
  upsert_user,
}
use lab_kit.Devices.{
  Call, Env, CreateInput, Tokens, check_callback, complete, create, handle_callback, identify,
  invalid_state, new_request, poll,
}
use lab_kit.Devices.Flow.{IsCompleted}
use lab_kit.Devices.Final.{AreValid}
use lab_kit.Devices.History.{Reach-AreValid, here, next, called_back}
use lab_kit.Devices.Bind.{IsChecked, handle_callback-IsCompleted, handle_callback-foreign_key}

abbrev up : Call → Bool
up c = false

abbrev school : Env
school = record {
  provider = some (record {
    build_authorize_url = λ s. some s;
    exchange_code = λ c. some c;
    fetch_identity = λ t. some t;
  });
  fingerprint_of = λ key. some key;
}

abbrev tokens : Tokens
tokens = record { id = 1; device_code = "dc"; user_code = "UC"; state = "st" }

abbrev input : CreateInput
input = record { public_key = "ssh"; device_name = " laptop " }

abbrev waiting : Request
waiting = new_request input tokens 100 50

abbrev empty : Accounts
empty = record { requests = []; users = []; keys = [] }

abbrev asked : Accounts
asked = record { requests = waiting ∷ []; users = []; keys = [] }

abbrev student : User
student = record { id = 7; student_id = "s1"; nickname = "匿名" }

abbrev key : UserKey
key = record {
  id = 9;
  user_id = 7;
  public_key = "ssh";
  device_name = "laptop";
  is_revoked = false;
  fingerprint = some "ssh";
}

abbrev bound_to : Accounts
bound_to = record { requests = approve "s1" waiting ∷ []; users = student ∷ []; keys = key ∷ [] }

creates : create up input tokens 100 50 [] ≡ (ok waiting, waiting ∷ [])
unfolding create create_request trim_space
creates = refl

binds :
    handle_callback school up "st" "s1" 7 9 120 120 asked
    ≡ (ok (record { user_id = 7; user_key_id = 9; student_id = "s1" }), bound_to)
unfolding handle_callback check_callback complete complete_request insert_key identify
    pending_by_oauth_state upsert_user trim_space
binds = refl

polls_approved :
    poll up "dc" 130 bound_to
    ≡ ok (record {
      device_code = "dc";
      user_code = "UC";
      status = RequestStatus.approved;
      student_id = "s1";
      key_id = 9;
    })
unfolding poll request_by_device_code key_by_public_key trim_space
polls_approved = refl

too_late : handle_callback school up "st" "s1" 7 9 151 151 asked ≡ (err invalid_state, asked)
unfolding handle_callback check_callback complete complete_request insert_key identify
    pending_by_oauth_state upsert_user trim_space
too_late = refl

asked-AreValid : AreValid asked.requests
asked-AreValid = (refl, tt, tt)

handle_callback-IsCompleted_example :
    (arg : CompleteParams) × (r : Request) × IsChecked school up "st" "s1" 120 asked.requests arg r
    × IsCompleted arg 120
        (record { user_id = 7; user_key_id = 9; student_id = "s1" })
        r
        asked
        bound_to
handle_callback-IsCompleted_example =
    handle_callback-IsCompleted school up "st" "s1" 7 9 120 120 asked bound_to
      (record { user_id = 7; user_key_id = 9; student_id = "s1" }) asked-AreValid binds

Reach-AreValid_example :
    AreValid bound_to.requests
    × ((r : Request) → In r asked.requests → is_pending r.status ≡ false → In r bound_to.requests)
Reach-AreValid_example =
    Reach-AreValid asked-AreValid
      (next here (called_back school up "st" "s1" 7 9 120 120 (ap (λ x. x.1) (sym binds))))

-- Another student's device with the same key.
abbrev other : UserKey
other = record {
  id = 5;
  user_id = 6;
  public_key = "ssh";
  device_name = "desk";
  is_revoked = false;
  fingerprint = some "ssh";
}

abbrev taken : Accounts
taken = record { requests = waiting ∷ []; users = student ∷ []; keys = other ∷ [] }

abbrev arg : CompleteParams
arg = record {
  device_code = "dc";
  oauth_state = "st";
  student_id = "s1";
  fingerprint = "ssh";
  device_name = "laptop";
  new_user = 8;
  new_key = 9;
}

checks : check_callback school up "st" "s1" 8 9 120 taken.requests ≡ ok arg
unfolding check_callback identify pending_by_oauth_state trim_space
checks = refl

not_theirs :
    find
      (λ j.
        has_fingerprint arg.fingerprint j && belongs (upsert_user 8 "s1" taken.users).0.id "ssh" j)
      taken.keys
    ≡ none
unfolding upsert_user
not_theirs = refl

handle_callback-foreign_key_example :
    ((handle_callback school up "st" "s1" 8 9 120 120 taken).0 ≡ err invalid_state)
    × In (approve "s1" waiting) (handle_callback school up "st" "s1" 8 9 120 120 taken).1.requests
    × ((handle_callback school up "st" "s1" 8 9 120 120 taken).1.keys ≡ taken.keys)
handle_callback-foreign_key_example =
    handle_callback-foreign_key school up "st" "s1" 8 9 120 120 taken arg waiting other checks refl
      refl refl not_theirs

-- The device that asks is told that it is approved, with the other student's key.
polls_foreign :
    poll up "dc" 130 (handle_callback school up "st" "s1" 8 9 120 120 taken).1
    ≡ ok (record {
      device_code = "dc";
      user_code = "UC";
      status = RequestStatus.approved;
      student_id = "s1";
      key_id = 5;
    })
unfolding poll request_by_device_code key_by_public_key handle_callback check_callback complete
    complete_request insert_key identify pending_by_oauth_state upsert_user trim_space
polls_foreign = refl
