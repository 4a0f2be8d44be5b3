-- ===== src/Db/Devices.antt =====
-- The queries on `users`, `user_keys` and `device_auth_requests`: packages/go/db/sqlc/auth.sql.go.
-- The ids of new rows are given. `none` for a statement is the violation of a unique index.
use lab_kit.Prelude.{
  ℕ, String, Option, none, some, List, [], ◌∷◌, ◌++◌, Bool, true, false, ◌&&◌, ◌||◌, not, any, find,
  map, ◌==◌, ltb, if◌then◌else◌, str_eq,
}
use lab_kit.Db.Rows.{User, UserKey, Request, RequestStatus}
use lab_kit.Db.Jobs.{text_is}

-- The three tables.
pub record Accounts : Type 0 where
  pub requests : List Request
  pub users : List User
  pub keys : List UserKey

abbrev pub is_pending : RequestStatus → Bool
is_pending RequestStatus.pending = true
is_pending _ = false

-- UNIQUE (device_code), UNIQUE (oauth_state), and UNIQUE (user_code) among the pending rows.
abbrev pub clashes : Request → Request → Bool
clashes r q =
    str_eq q.device_code r.device_code
    || (elim r.oauth_state [ none ↦ false | some state ↦ text_is q.oauth_state state ])
    || (is_pending q.status && is_pending r.status && str_eq q.user_code r.user_code)

-- CreateDeviceAuthRequest
unfoldable pub create_request : Request → List Request → Option (List Request)
create_request r rows = if any (clashes r) rows then none else some (rows ++ r ∷ [])

-- GetDeviceAuthRequestByDeviceCode
unfoldable pub request_by_device_code : String → List Request → Option Request
request_by_device_code code = find (λ r. str_eq r.device_code code)

-- GetPendingDeviceAuthRequestByUserCode
unfoldable pub pending_by_user_code : String → List Request → Option Request
pending_by_user_code code = find (λ r. str_eq r.user_code code && is_pending r.status)

-- GetPendingDeviceAuthRequestByOAuthState
unfoldable pub pending_by_oauth_state : String → List Request → Option Request
pending_by_oauth_state state = find (λ r. text_is r.oauth_state state && is_pending r.status)

-- ExpireDeviceAuthRequests
unfoldable pub expire_requests : ℕ → List Request → List Request
expire_requests now = map (λ r.
    if is_pending r.status && ltb r.expires_at now
    then record r { status = RequestStatus.expired }
    else r)

-- UpsertUser: the row of the student, which is new or as it was.
unfoldable pub upsert_user : ℕ → String → List User → User × List User
upsert_user id student users = elim (find (λ u. str_eq u.student_id student) users) [
  | some u ↦ (u, users)
  | none ↦
      let u : User = record { id = id; student_id = student; nickname = "匿名" } in
      (u, users ++ u ∷ [])
]

-- An active key with a fingerprint.
abbrev pub has_fingerprint : String → UserKey → Bool
has_fingerprint fingerprint k = text_is k.fingerprint fingerprint && not k.is_revoked

abbrev pub is_active_key : String → UserKey → Bool
is_active_key public_key k = str_eq k.public_key public_key && not k.is_revoked

-- GetUserKeyByPublicKey
unfoldable pub key_by_public_key : String → List UserKey → Option UserKey
key_by_public_key public_key = find (is_active_key public_key)

abbrev pub belongs : ℕ → String → UserKey → Bool
belongs user public_key k = k.user_id == user && str_eq k.public_key public_key

-- INSERT INTO user_keys … ON CONFLICT (fingerprint) DO UPDATE … WHERE: the id of the row that was
-- inserted or updated, if there is one.
unfoldable pub insert_key : UserKey → String → List UserKey → Option (Option ℕ × List UserKey)
insert_key new fingerprint keys = elim (find (has_fingerprint fingerprint) keys) [
  | some k ↦
      if belongs new.user_id new.public_key k
      then some (
        some k.id,
        map (λ j. if j.id == k.id then record j { device_name = new.device_name } else j) keys,
      )
      else some (none, keys)
  | none ↦
      if any (is_active_key new.public_key) keys then none else some (some new.id, keys ++ new ∷ [])
]

-- The key that the statement returns: the inserted one, or else one of the snapshot.
abbrev pub resolve_key : Option ℕ → ℕ → String → String → List UserKey → Option ℕ
resolve_key (some id) user public_key fingerprint keys = some id
resolve_key none user public_key fingerprint keys =
    elim (find (λ k. has_fingerprint fingerprint k && belongs user public_key k) keys) [
      | none ↦ none
      | some k ↦ some k.id
    ]

-- CompleteDeviceAuthRequestParams, with the ids that new rows get.
pub record CompleteParams : Type 0 where
  pub device_code : String
  pub oauth_state : String
  pub student_id : String
  pub fingerprint : String
  pub device_name : String
  pub new_user : ℕ
  pub new_key : ℕ

-- CompleteDeviceAuthRequestRow
pub record Completed : Type 0 where
  pub user_id : ℕ
  pub user_key_id : ℕ
  pub student_id : String

-- The WHERE clause of `completed_request`.
abbrev pub can_complete : CompleteParams → ℕ → Request → Bool
can_complete arg now r =
    str_eq r.device_code arg.device_code
    && text_is r.oauth_state arg.oauth_state
    && is_pending r.status
    && ltb now r.expires_at

abbrev pub approve : String → Request → Request
approve student r = record r { student_id = some student; status = RequestStatus.approved }

abbrev pub new_key_row : CompleteParams → ℕ → String → UserKey
new_key_row arg user public_key = record {
  id = arg.new_key;
  user_id = user;
  public_key = public_key;
  device_name = arg.device_name;
  is_revoked = false;
  fingerprint = some arg.fingerprint;
}

-- The row of the outer SELECT.
abbrev pub completed_row : User → Option ℕ → Option Completed
completed_row u none = none
completed_row u (some key) =
    some (record { user_id = u.id; user_key_id = key; student_id = u.student_id })

-- CompleteDeviceAuthRequest: the updates of a WITH clause are made whatever the outer SELECT finds.
-- The row, and the tables.
unfoldable pub complete_request :
    CompleteParams → ℕ → Accounts → Option (Option Completed × Accounts)
complete_request arg now a = elim (find (can_complete arg now) a.requests) [
  | none ↦ some (none, a)
  | some r ↦
      let (u, users) = upsert_user arg.new_user arg.student_id a.users in
      elim (insert_key (new_key_row arg u.id r.public_key) arg.fingerprint a.keys) [
        | none ↦ none
        | some (id, keys) ↦ some (
          completed_row u (resolve_key id u.id r.public_key arg.fingerprint a.keys),
          record {
            requests =
                map (λ q. if can_complete arg now q then approve arg.student_id q else q)
                  a.requests;
            users = users;
            keys = keys;
          },
        )
      ]
]
