-- ===== src/Devices/History.antt =====
-- Requests under any sequence of calls: apps/api/internal/service/auth/device_flow.go.
use lab_kit.Prelude.{
  ℕ, ◌≡◌, refl, String, Option, some, List, [], ◌∷◌, ◌++◌, Bool, false, arith, any, Option-cases,
  Bool-cases, inl, inr, In,
}
use lab_kit.Prelude.Members.{In-append}
use lab_kit.Prelude.Results.{Result, ok, err, Result-cases}
use lab_kit.Db.{Request}
use lab_kit.Db.Devices.{
  Accounts, is_pending, clashes, create_request, expire_requests, CompleteParams, Completed,
  complete_request,
}
use lab_kit.Devices.{
  Call, Error, Env, CreateInput, Tokens, new_request, create, complete, complete_checked, dev_bind,
  handle_callback, handle_web_login, check_bind, check_callback, identify, invalid_request,
  invalid_state,
}
use lab_kit.Devices.Flow.{complete_request_inv, after_request}
use lab_kit.Devices.Final.{
  AreValid, Keeps, Keeps-refl, update-Keeps, after_request-IsUpdate, expire_one,
  expire_one-IsUpdate, clash_alone, AreValid-snoc,
}

create-Keeps :
    (fails : Call → Bool) (i : CreateInput) (t : Tokens) (clock ttl : ℕ) (rows : List Request)
    → AreValid rows
    → Keeps rows (create fails i t clock ttl rows).1
unfolding create create_request
create-Keeps fails i t clock ttl rows v =
    elim (Bool-cases (any (clashes (new_request i t clock ttl)) rows)) [
      | inl c ↦ ground (arith, Keeps-refl rows v)
      | inr c ↦
          let grown : Keeps rows (rows ++ new_request i t clock ttl ∷ []) = (
            AreValid-snoc (new_request i t clock ttl) t.state rows refl refl
                (clash_alone (new_request i t clock ttl) rows c) v,
            λ r m p. In-append r rows (new_request i t clock ttl ∷ []) m,
          ) in
          ground (arith, Keeps-refl rows v, grown)
    ]

statement-Keeps :
    (arg : CompleteParams) (now : ℕ) (row : Option Completed) (a a' : Accounts)
    → AreValid a.requests
    → complete_request arg now a ≡ some (row, a')
    → Keeps a.requests a'.requests
statement-Keeps arg now row a a' v e = elim (complete_request_inv arg now row a a' e) [
  | inl (_, same, _) ↦ rw same (Keeps-refl a.requests v)
  | inr s ↦
      rw s.requests
        (update-Keeps (after_request arg now) (after_request-IsUpdate arg now) a.requests v)
]

complete-Keeps :
    (env : Env) (fails : Call → Bool) (e : Error) (arg : CompleteParams) (now : ℕ) (a : Accounts)
    → AreValid a.requests
    → Keeps a.requests (complete env fails e arg now a).1.requests
unfolding complete
complete-Keeps env fails e arg now a v = elim (Option-cases (complete_request arg now a)) [
  | inl h ↦ ground (arith, Keeps-refl a.requests v)
  | inr ((row, a'), h) ↦
      ground (arith, Keeps-refl a.requests v, statement-Keeps arg now row a a' v h)
]

checked-Keeps :
    (env : Env) (fails : Call → Bool) (e : Error) (arg : Result Error CompleteParams) (now : ℕ)
    (a : Accounts)
    → AreValid a.requests
    → Keeps a.requests (complete_checked env fails e arg now a).1.requests
checked-Keeps env fails e (ok arg) now a v = complete-Keeps env fails e arg now a v
checked-Keeps env fails e (err x) now a v = Keeps-refl a.requests v

login-Keeps :
    (env : Env) (fails : Call → Bool) (code : String) (new_user : ℕ) (a : Accounts)
    → (handle_web_login env fails code new_user a).1.requests ≡ a.requests
unfolding handle_web_login
login-Keeps env fails code new_user a = elim (Result-cases (identify env fails code)) [
  | inl (s, e) ↦ ground arith
  | inr (x, e) ↦ ground arith
]

-- One call of the service, or the statement that expires requests, with any arguments, clocks and
-- failures.
pub data Step (a a' : Accounts) : Type 0 where
  created :
      (fails : Call → Bool) (i : CreateInput) (t : Tokens) (clock ttl : ℕ)
      → a' ≡ record a { requests = (create fails i t clock ttl a.requests).1 }
      → Step a a'
  bound :
      (env : Env) (fails : Call → Bool) (code student name : String)
      (new_user new_key clock now : ℕ)
      → a' ≡ (dev_bind env fails code student name new_user new_key clock now a).1
      → Step a a'
  called_back :
      (env : Env) (fails : Call → Bool) (state code : String) (new_user new_key clock now : ℕ)
      → a' ≡ (handle_callback env fails state code new_user new_key clock now a).1
      → Step a a'
  logged_in :
      (env : Env) (fails : Call → Bool) (code : String) (new_user : ℕ)
      → a' ≡ (handle_web_login env fails code new_user a).1
      → Step a a'
  expired_by : (now : ℕ) → a' ≡ record a { requests = expire_requests now a.requests } → Step a a'

pub data Reach (a : Accounts) : Accounts → Type 0 where
  here : Reach a a
  next : {b c : Accounts} → Reach a b → Step b c → Reach a c

Step-Keeps : {a a' : Accounts} → Step a a' → AreValid a.requests → Keeps a.requests a'.requests
unfolding dev_bind handle_callback expire_requests
Step-Keeps {a} (created fails i t clock ttl e) v =
    rw e (create-Keeps fails i t clock ttl a.requests v)
Step-Keeps {a} (bound env fails code student name new_user new_key clock now e) v = rw e (
    checked-Keeps env fails invalid_request
      (check_bind env fails code student name new_user new_key clock a.requests) now a v)
Step-Keeps {a} (called_back env fails state code new_user new_key clock now e) v = rw e (
    checked-Keeps env fails invalid_state
      (check_callback env fails state code new_user new_key clock a.requests) now a v)
Step-Keeps {a} (logged_in env fails code new_user e) v =
    rw (e, login-Keeps env fails code new_user a) (Keeps-refl a.requests v)
Step-Keeps {a} (expired_by now e) v =
    rw e (update-Keeps (expire_one now) (expire_one-IsUpdate now) a.requests v)

-- Whatever calls follow one another, with any arguments, clocks and failures: device codes and states
-- stay unique, exactly the approved requests have a student, and a request that was approved or has
-- expired is never changed again.
pub Reach-AreValid :
    {a a' : Accounts}
    → AreValid a.requests
    → Reach a a'
    → AreValid a'.requests
      × ((r : Request) → In r a.requests → is_pending r.status ≡ false → In r a'.requests)
Reach-AreValid {a} v here = (v, λ r m p. m)
Reach-AreValid v (next reach step) =
    let (v', before) = Reach-AreValid v reach in
    let (v'', after) = Step-Keeps step v' in (v'', λ r m p. after r (before r m p) p)
