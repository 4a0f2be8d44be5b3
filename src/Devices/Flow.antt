-- ===== src/Devices/Flow.antt =====
-- One statement that completes a request, and what the calls before it leave:
-- apps/api/internal/service/auth/device_flow.go.
use lab_kit.Prelude.{
  ℕ, ◌≡◌, refl, String, Option, none, some, List, [], ◌∷◌, ◌++◌, true, false, ◌&&◌, arith, map,
  find, ◌==◌, if◌then◌else◌, str_eq, eq_iff, Option-cases, Bool-cases, inl, inr, In, sym, ap,
  ==_iff, ◌⊎◌,
}
use lab_kit.Prelude.Members.{find-In, In-snoc, In-map}
use lab_kit.Db.{Request, User, UserKey}
use lab_kit.Db.Devices.{
  Accounts, upsert_user, insert_key, resolve_key, has_fingerprint, belongs, CompleteParams,
  Completed, can_complete, approve, new_key_row, completed_row, complete_request,
}
use lab_kit.Db.Jobs.{text_is}

abbrev new_user : ℕ → String → User
new_user id student = record { id = id; student_id = student; nickname = "匿名" }

upsert_user_cases :
    (id : ℕ) (student : String) (users : List User)
    → (upsert_user id student users ≡ (new_user id student, users ++ new_user id student ∷ []))
      ⊎ ((u : User) × (find (λ v. str_eq v.student_id student) users ≡ some u)
          × (upsert_user id student users ≡ (u, users)))
unfolding upsert_user
upsert_user_cases id student users =
    elim (Option-cases (find (λ u. str_eq u.student_id student) users)) [
      | inl e ↦ inl (ground arith)
      | inr (u, e) ↦ inr (u, e, ground arith)
    ]

-- The row of an upsert stands in the table and is the student's.
pub upsert_user-In :
    (id : ℕ) (student : String) (users : List User)
    → In (upsert_user id student users).0 (upsert_user id student users).1
      × ((upsert_user id student users).0.student_id ≡ student)
upsert_user-In id student users = elim (upsert_user_cases id student users) [
  | inl e ↦ rw e (In-snoc (new_user id student) users, refl)
  | inr (u, f, e) ↦
      let (m, t) = find-In (λ (v : User). str_eq v.student_id student) users u f in
      rw e (m, (eq_iff u.student_id student).0 t)
]

-- An active key with the fingerprint and the text of the request, of the user.
pub record IsBound (user : ℕ) (public_key fingerprint : String) (id : ℕ) (k : UserKey)
    : Type 0 where
  pub its_id : k.id ≡ id
  pub owner : k.user_id ≡ user
  pub text : k.public_key ≡ public_key
  pub active : k.is_revoked ≡ false
  pub print : k.fingerprint ≡ some fingerprint

IsBound-key :
    (user : ℕ) (public_key fingerprint : String) (k : UserKey)
    → has_fingerprint fingerprint k ≡ true
    → belongs user public_key k ≡ true
    → IsBound user public_key fingerprint k.id k
IsBound-key user public_key fingerprint k h b = record {
  its_id = refl;
  owner = ground (arith, eq_iff k.public_key public_key);
  text = ground (arith, eq_iff k.public_key public_key);
  active = ground arith;
  print = print_of k.fingerprint (ground arith);
}
  where
    print_of : (o : Option String) → text_is o fingerprint ≡ true → o ≡ some fingerprint
    print_of none e = cc
    print_of (some s) e = ap some ((eq_iff s fingerprint).0 e)

-- The updated row of a conflict.
abbrev renamed : UserKey → ℕ → UserKey → UserKey
renamed new id j = if j.id == id then record j { device_name = new.device_name } else j

renamed-IsBound :
    (new : UserKey) (user : ℕ) (public_key fingerprint : String) (k : UserKey)
    → IsBound user public_key fingerprint k.id k
    → IsBound user public_key fingerprint k.id (renamed new k.id k)
renamed-IsBound new user public_key fingerprint k b =
    rw ((==_iff k.id k.id).1 refl)
      (record { its_id = refl; owner = b.owner; text = b.text; active = b.active; print = b.print })

-- What the key's statement did, by the row that it met.
insert_key_inv :
    (new : UserKey) (fingerprint : String) (keys keys' : List UserKey) (id : Option ℕ)
    → insert_key new fingerprint keys ≡ some (id, keys')
    → ((id ≡ some new.id) × (keys' ≡ keys ++ new ∷ []))
      ⊎ ((k : UserKey) × (find (has_fingerprint fingerprint) keys ≡ some k)
          × (belongs new.user_id new.public_key k ≡ true)
          × (id ≡ some k.id)
          × (keys' ≡ map (renamed new k.id) keys))
      ⊎ ((id ≡ none) × (keys' ≡ keys))
unfolding insert_key
insert_key_inv new fingerprint keys keys' id e =
    elim (Option-cases (find (has_fingerprint fingerprint) keys)) [
      | inl h ↦ inl (ground arith, ground arith)
      | inr (k, h) ↦ elim (Bool-cases (belongs new.user_id new.public_key k)) [
        | inl b ↦ inr (inl (k, h, b, ground arith, ground arith))
        | inr b ↦ inr (inr (ground arith, ground arith))
      ]
    ]

-- The key that the statement returns is one of the table that it leaves.
pub resolved_key :
    (new : UserKey) (fingerprint : String) (keys keys' : List UserKey) (id : Option ℕ) (key : ℕ)
    → new.fingerprint ≡ some fingerprint
    → new.is_revoked ≡ false
    → insert_key new fingerprint keys ≡ some (id, keys')
    → resolve_key id new.user_id new.public_key fingerprint keys ≡ some key
    → (k : UserKey) × In k keys' × IsBound new.user_id new.public_key fingerprint key k
resolved_key new fingerprint keys keys' id key p q e r =
    elim (insert_key_inv new fingerprint keys keys' id e) [
      | inl (i, after) ↦
          let same : new.id ≡ key = ground arith in
          (
            new,
            rw after (In-snoc new keys),
            record { its_id = same; owner = refl; text = refl; active = q; print = p },
          )
      | inr (inl (k, h, b, i, after)) ↦
          let (m, t) = find-In (has_fingerprint fingerprint) keys k h in
          let same : k.id ≡ key = ground arith in
          (
            renamed new k.id k,
            rw after (In-map (renamed new k.id) k keys m),
            rw (sym same) (
                renamed-IsBound new new.user_id new.public_key fingerprint k
                  (IsBound-key new.user_id new.public_key fingerprint k t b)),
          )
      | inr (inr (i, after)) ↦ let (k, m, b) = fallback key (rw i at r) in (k, rw after m, b)
    ]
  where
    fallback :
        (n : ℕ)
        → resolve_key none new.user_id new.public_key fingerprint keys ≡ some n
        → (k : UserKey) × In k keys × IsBound new.user_id new.public_key fingerprint n k
    fallback n h =
        elim (Option-cases (
          find (λ k. has_fingerprint fingerprint k && belongs new.user_id new.public_key k) keys)) [
            | inl g ↦ ground arith
            | inr (k, g) ↦
                let (m, t) =
                  find-In
                    (λ (j : UserKey).
                      has_fingerprint fingerprint j && belongs new.user_id new.public_key j)
                    keys k g in
                let same : k.id ≡ n = ground arith in
                (
                  k,
                  m,
                  rw (sym same) (
                      IsBound-key new.user_id new.public_key fingerprint k (ground arith)
                        (ground arith)),
                )
          ]

-- A statement that returns a row: the request, the user and the key that it leaves.
pub record IsCompleted (arg : CompleteParams) (now : ℕ) (c : Completed) (r : Request)
    (a a' : Accounts) : Type 0 where
  pub listed : In r a.requests
  pub can : can_complete arg now r ≡ true
  pub approved : In (approve arg.student_id r) a'.requests
  pub student : c.student_id ≡ arg.student_id
  pub user : User
  pub user_listed : In user a'.users
  pub user_of : user.student_id ≡ arg.student_id
  pub user_id : user.id ≡ c.user_id
  pub key : UserKey
  pub key_listed : In key a'.keys
  pub key_bound : IsBound c.user_id r.public_key arg.fingerprint c.user_key_id key

-- The request, once the statement is made.
abbrev pub after_request : CompleteParams → ℕ → Request → Request
after_request arg now q = if can_complete arg now q then approve arg.student_id q else q

-- The parts of a statement that is made: the request, the key's statement and the tables.
pub record Statement (arg : CompleteParams) (now : ℕ) (row : Option Completed) (a a' : Accounts)
    : Type 0 where
  pub request : Request
  pub chosen : find (can_complete arg now) a.requests ≡ some request
  pub id : Option ℕ
  pub inserted :
      insert_key
        (new_key_row arg (upsert_user arg.new_user arg.student_id a.users).0.id request.public_key)
        arg.fingerprint
        a.keys
      ≡ some (id, a'.keys)
  pub result :
      row
      ≡ completed_row (upsert_user arg.new_user arg.student_id a.users).0 (
          resolve_key id
            (upsert_user arg.new_user arg.student_id a.users).0.id
            request.public_key
            arg.fingerprint
            a.keys)
  pub requests : a'.requests ≡ map (after_request arg now) a.requests
  pub users : a'.users ≡ (upsert_user arg.new_user arg.student_id a.users).1

pub complete_request_inv :
    (arg : CompleteParams) (now : ℕ) (row : Option Completed) (a a' : Accounts)
    → complete_request arg now a ≡ some (row, a')
    → ((row ≡ none) × (a' ≡ a) × (find (can_complete arg now) a.requests ≡ none))
      ⊎ Statement arg now row a a'
unfolding complete_request
complete_request_inv arg now row a a' e =
    elim (Option-cases (find (can_complete arg now) a.requests)) [
      | inl h ↦ inl (ground arith, ground arith, h)
      | inr (r, h) ↦
          elim (Option-cases (
            insert_key
              (new_key_row arg (upsert_user arg.new_user arg.student_id a.users).0.id r.public_key)
              arg.fingerprint a.keys)) [
                | inl g ↦ ground arith
                | inr ((id, keys), g) ↦ inr (record {
                  request = r;
                  chosen = h;
                  id = id;
                  inserted = ground arith;
                  result = ground arith;
                  requests = ground arith;
                  users = ground arith;
                })
              ]
    ]
