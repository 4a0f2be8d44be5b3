-- ===== src/Devices/Bind.antt =====
-- What an authorised device leaves in the tables:
-- apps/api/internal/service/auth/device_flow.go.
use lab_kit.Prelude.{
  ℕ, ◌≡◌, refl, String, Option, none, some, List, Bool, true, false, ◌&&◌, arith, find, eq_iff,
  Option-cases, inl, inr, In, sym, ◌∙◌, ◌⊎◌,
}
use lab_kit.Prelude.Members.{find-In, In-map, none-find}
use lab_kit.Prelude.Results.{Result, ok, err, Result-cases}
use lab_kit.Db.{Request, User, UserKey}
use lab_kit.Db.Jobs.{text_is}
use lab_kit.Db.Devices.{
  Accounts, is_pending, upsert_user, insert_key, resolve_key, has_fingerprint, belongs,
  CompleteParams, Completed, can_complete, approve, new_key_row, completed_row, complete_request,
  pending_by_oauth_state,
}
use lab_kit.Devices.{
  Call, Error, invalid_state, Env, is_open, complete, check_callback, handle_callback, identify,
  found,
}
use lab_kit.Devices.Final.{AreValid, same_request}
use lab_kit.Devices.Flow.{
  IsCompleted, Statement, complete_request_inv, resolved_key, upsert_user-In, after_request,
}

completed_row_inv :
    (u : User) (id : Option ℕ) (c : Completed)
    → some c ≡ completed_row u id
    → (key : ℕ) × (id ≡ some key)
      × (c.user_id ≡ u.id)
      × (c.user_key_id ≡ key)
      × (c.student_id ≡ u.student_id)
completed_row_inv u none c e = cc
completed_row_inv u (some key) c e = (key, refl, ground arith, ground arith, ground arith)

Statement-IsCompleted :
    (arg : CompleteParams) (now : ℕ) (c : Completed) (a a' : Accounts)
    → Statement arg now (some c) a a'
    → (r : Request) × IsCompleted arg now c r a a'
Statement-IsCompleted arg now c a a' s =
    let u = (upsert_user arg.new_user arg.student_id a.users).0 in
    let (key, resolved, user_id, key_id, student) = completed_row_inv u _ c s.result in
    let (listed, can) = find-In (can_complete arg now) a.requests s.request s.chosen in
    let (u_listed, u_student) = upsert_user-In arg.new_user arg.student_id a.users in
    let (k, k_listed, bound) =
      resolved_key (new_key_row arg u.id s.request.public_key) arg.fingerprint a.keys a'.keys s.id
        key refl refl s.inserted resolved in
    let image : after_request arg now s.request ≡ approve arg.student_id s.request = ground arith in
    (
      s.request,
      record {
        listed = listed;
        can = can;
        approved =
            rw s.requests
              (rw image at (In-map (after_request arg now) s.request a.requests listed));
        student = student ∙ u_student;
        user = u;
        user_listed = rw s.users u_listed;
        user_of = u_student;
        user_id = sym user_id;
        key = k;
        key_listed = k_listed;
        key_bound = rw (user_id, key_id) bound;
      },
    )

complete_ok :
    (env : Env) (fails : Call → Bool) (e : Error) (arg : CompleteParams) (now : ℕ) (a a' : Accounts)
    (c : Completed)
    → complete env fails e arg now a ≡ (ok c, a')
    → complete_request arg now a ≡ some (some c, a')
unfolding complete
complete_ok env fails e arg now a a' c h = elim (Option-cases (complete_request arg now a)) [
  | inl g ↦ ground arith
  | inr ((none, b), g) ↦ ground arith
  | inr ((some row, b), g) ↦ ground arith
]

-- What the checks of a callback found.
pub record IsChecked (env : Env) (fails : Call → Bool) (state code : String) (clock : ℕ)
    (rows : List Request) (arg : CompleteParams) (r : Request) : Type 0 where
  pub waiting : pending_by_oauth_state state rows ≡ some r
  pub unexpired : is_open clock r ≡ true
  pub identified : identify env fails code ≡ ok arg.student_id
  pub print : env.fingerprint_of r.public_key ≡ some arg.fingerprint
  pub code_of : arg.device_code ≡ r.device_code
  pub state_of : arg.oauth_state ≡ state

check_callback_inv :
    (env : Env) (fails : Call → Bool) (state code : String) (new_user new_key clock : ℕ)
    (rows : List Request) (arg : CompleteParams)
    → check_callback env fails state code new_user new_key clock rows ≡ ok arg
    → (r : Request) × IsChecked env fails state code clock rows arg r
unfolding check_callback
check_callback_inv env fails state code new_user new_key clock rows arg e =
    elim (Option-cases (pending_by_oauth_state state rows)) [
      | inl h ↦ ground arith
      | inr (r, h) ↦ elim (Result-cases (identify env fails code)) [
        | inr (x, g) ↦ ground arith
        | inl (student, g) ↦ elim (Option-cases (env.fingerprint_of r.public_key)) [
          | inl p ↦ ground arith
          | inr (print, p) ↦ (
            r,
            record {
              waiting = h;
              unexpired = ground arith;
              identified = ground arith;
              print = ground arith;
              code_of = ground arith;
              state_of = ground arith;
            },
          )
        ]
      ]
    ]

-- A callback that succeeds has bound the device: a pending request with the state was there, neither
-- the service's clock nor the database's was past its end, the provider named the student for the
-- code; the request is approved for this student, and the answer's user is the student's and its key
-- an active one, with the text and the fingerprint of the request's key, of that user.
pub handle_callback-IsCompleted :
    (env : Env) (fails : Call → Bool) (state code : String) (new_user new_key clock now : ℕ)
    (a a' : Accounts) (c : Completed)
    → AreValid a.requests
    → handle_callback env fails state code new_user new_key clock now a ≡ (ok c, a')
    → (arg : CompleteParams) × (r : Request) × IsChecked env fails state code clock a.requests arg r
      × IsCompleted arg now c r a a'
unfolding handle_callback pending_by_oauth_state
handle_callback-IsCompleted env fails state code new_user new_key clock now a a' c v e =
    elim (Result-cases (check_callback env fails state code new_user new_key clock a.requests)) [
      | inr (x, h) ↦ absurd (no_error x (rw h at e))
      | inl (arg, h) ↦
          let (r, checked) =
            check_callback_inv env fails state code new_user new_key clock a.requests arg h in
          let done = complete_ok env fails invalid_state arg now a a' c (rw h at e) in
          by_statement arg r checked (complete_request_inv arg now (some c) a a' done)
    ]
  where
    no_error : (x : Error) → ◌≡◌ {A = Result Error Completed × Accounts} (err x, a) (ok c, a') → ⊥
    no_error x h = ground arith

    by_statement :
        (arg : CompleteParams) (r : Request)
        → IsChecked env fails state code clock a.requests arg r
        → (◌≡◌ {A = Option Completed} (some c) none
            × (a' ≡ a)
            × (find (can_complete arg now) a.requests ≡ none))
          ⊎ Statement arg now (some c) a a'
        → (arg' : CompleteParams) × (r' : Request) × IsChecked env fails state code clock a.requests
            arg' r'
          × IsCompleted arg' now c r' a a'
    by_statement arg r checked (inl (h, _, _)) = cc
    by_statement arg r checked (inr s) =
        let (q, done) = Statement-IsCompleted arg now c a a' s in with_request arg r q checked done
      where
        code_same :
            (x : CompleteParams) (q : Request)
            → can_complete x now q ≡ true
            → x.device_code ≡ q.device_code
        code_same x q h = ground (arith, eq_iff q.device_code x.device_code)

        with_request :
            (x : CompleteParams) (p q : Request)
            → IsChecked env fails state code clock a.requests x p
            → IsCompleted x now c q a a'
            → (arg' : CompleteParams) × (r' : Request) × IsChecked env fails state code clock
                a.requests arg' r'
              × IsCompleted arg' now c r' a a'
        with_request x p q found done =
            let (listed, _) =
              find-In (λ (y : Request). text_is y.oauth_state state && is_pending y.status)
                a.requests p found.waiting in
            let codes : p.device_code ≡ q.device_code =
              sym found.code_of ∙ code_same x q done.can in
            let same : p ≡ q = same_request p q a.requests v listed done.listed codes in
            (x, q, rw same at found, done)

-- When the fingerprint of the request's key is on an active key, and no active key with it is both of
-- the student's user and of the same text, a callback that gets as far as the statement answers that
-- its state is not valid, and yet it leaves the request approved for the student; no key is added.
pub handle_callback-foreign_key :
    (env : Env) (fails : Call → Bool) (state code : String) (new_user new_key clock now : ℕ)
    (a : Accounts) (arg : CompleteParams) (r : Request) (k : UserKey)
    → check_callback env fails state code new_user new_key clock a.requests ≡ ok arg
    → fails Call.finish ≡ false
    → find (can_complete arg now) a.requests ≡ some r
    → find (has_fingerprint arg.fingerprint) a.keys ≡ some k
    → find
        (λ j.
          has_fingerprint arg.fingerprint j
          && belongs (upsert_user arg.new_user arg.student_id a.users).0.id r.public_key j)
        a.keys
      ≡ none
    → ((handle_callback env fails state code new_user new_key clock now a).0 ≡ err invalid_state)
      × In
          (approve arg.student_id r)
          (handle_callback env fails state code new_user new_key clock now a).1.requests
      × ((handle_callback env fails state code new_user new_key clock now a).1.keys ≡ a.keys)
unfolding handle_callback complete complete_request insert_key
handle_callback-foreign_key env fails state code new_user new_key clock now a arg r k checked up
      chosen print free =
    let user = (upsert_user arg.new_user arg.student_id a.users).0.id in
    let (k_listed, k_print) = find-In (has_fingerprint arg.fingerprint) a.keys k print in
    let other : belongs user r.public_key k ≡ false = ground (
      arith,
      none-find (λ (j : UserKey). has_fingerprint arg.fingerprint j && belongs user r.public_key j)
          a.keys k free k_listed,
    ) in
    let (r_listed, r_can) = find-In (can_complete arg now) a.requests r chosen in
    let image : after_request arg now r ≡ approve arg.student_id r = rw r_can in
    let moved = rw image at (In-map (after_request arg now) r a.requests r_listed) in
    let nothing : resolve_key none user r.public_key arg.fingerprint a.keys ≡ none = ground arith in
    rw (checked, up, chosen, print, other, nothing) (refl, moved, refl)
