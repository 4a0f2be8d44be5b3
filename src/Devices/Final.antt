-- ===== src/Devices/Final.antt =====
-- What the tables of requests keep under every call: apps/api/internal/service/auth/device_flow.go.
use lab_kit.Prelude.{
  ℕ, ◌≡◌, ◌≢◌, String, Option, none, some, List, [], ◌∷◌, ◌++◌, false, ◌&&◌, arith, map, any, All,
  All-append, if◌then◌else◌, eq_iff, inl, inr, In, sym, ap, ◌∙◌, ltb, is_some,
}
use lab_kit.Prelude.Members.{In-map}
use lab_kit.Db.{Request, RequestStatus}
use lab_kit.Db.Jobs.{text_is}
use lab_kit.Db.Devices.{is_pending, clashes, CompleteParams}
use lab_kit.Devices.{is_approved}
use lab_kit.Devices.Flow.{after_request}

-- No other request has the device code or the state.
abbrev pub IsAlone : Request → List Request → Type 0
IsAlone r rows =
    All
      (λ q.
        (q.device_code ≢ r.device_code) × (q.oauth_state ≡ r.oauth_state → q.oauth_state ≡ none))
      rows

-- Exactly the approved requests have a student.
abbrev pub IsSound : Request → Type 0
IsSound r = is_some r.student_id ≡ is_approved r.status

-- Device codes and states are unique, and exactly the approved requests have a student.
abbrev pub AreValid : List Request → Type 0
AreValid [] = Unit
AreValid (r ∷ rows) = IsSound r × IsAlone r rows × AreValid rows

-- The request with a device code is one.
pub same_request :
    (r q : Request) (rows : List Request)
    → AreValid rows
    → In r rows
    → In q rows
    → r.device_code ≡ q.device_code
    → r ≡ q
same_request r q (x ∷ rows) v (inl e) (inl e') same = e ∙ sym e'
same_request r q (x ∷ rows) v (inl e) (inr m) same =
    absurd (alone q rows m v.1 (sym same ∙ ap (λ (y : Request). y.device_code) e))
  where
    alone :
        (y : Request) (ys : List Request)
        → In y ys
        → IsAlone x ys
        → y.device_code ≡ x.device_code
        → ⊥
    alone y (z ∷ zs) (inl f) h g = h.0.0 (ap (λ (w : Request). w.device_code) (sym f) ∙ g)
    alone y (z ∷ zs) (inr n) h g = alone y zs n h.1 g
    alone y [] n h g = absurd n
same_request r q (x ∷ rows) v (inr m) (inl e') same =
    absurd (alone r rows m v.1 (same ∙ ap (λ (y : Request). y.device_code) e'))
  where
    alone :
        (y : Request) (ys : List Request)
        → In y ys
        → IsAlone x ys
        → y.device_code ≡ x.device_code
        → ⊥
    alone y (z ∷ zs) (inl f) h g = h.0.0 (ap (λ (w : Request). w.device_code) (sym f) ∙ g)
    alone y (z ∷ zs) (inr n) h g = alone y zs n h.1 g
    alone y [] n h g = absurd n
same_request r q (x ∷ rows) v (inr m) (inr n) same = same_request r q rows v.2 m n same
same_request r q [] v m n same = absurd m

-- What one call may do to the requests: they stay valid, and one that is not pending stays as it is.
abbrev pub Keeps : List Request → List Request → Type 0
Keeps rows rows' =
    AreValid rows' × ((r : Request) → In r rows → is_pending r.status ≡ false → In r rows')

pub Keeps-refl : (rows : List Request) → AreValid rows → Keeps rows rows
Keeps-refl rows v = (v, λ r m p. m)

-- An update that keeps the keys, soundness, and the requests that are not pending.
pub record IsUpdate (f : Request → Request) : Type 0 where
  pub codes : (r : Request) → (f r).device_code ≡ r.device_code
  pub states : (r : Request) → (f r).oauth_state ≡ r.oauth_state
  pub sound : (r : Request) → IsSound r → IsSound (f r)
  pub final : (r : Request) → is_pending r.status ≡ false → f r ≡ r

module _ (f : Request → Request) (u : IsUpdate f) where
  IsAlone-map : (r : Request) (rows : List Request) → IsAlone r rows → IsAlone (f r) (map f rows)
  IsAlone-map r [] h = tt
  IsAlone-map r (q ∷ rows) ((a, b), t) =
      (rw (u.codes r, u.codes q, u.states r, u.states q) (a, b), IsAlone-map r rows t)

  AreValid-map : (rows : List Request) → AreValid rows → AreValid (map f rows)
  AreValid-map [] v = tt
  AreValid-map (r ∷ rows) (s, a, v) = (u.sound r s, IsAlone-map r rows a, AreValid-map rows v)

  pub update-Keeps : (rows : List Request) → AreValid rows → Keeps rows (map f rows)
  update-Keeps rows v = (AreValid-map rows v, λ r m p. rw (u.final r p) at (In-map f r rows m))

pub after_request-IsUpdate : (arg : CompleteParams) (now : ℕ) → IsUpdate (after_request arg now)
after_request-IsUpdate arg now = record {
  codes = λ r. ground arith;
  states = λ r. ground arith;
  sound = λ r s. ground arith;
  final = λ r p. ground arith;
}

abbrev pub expire_one : ℕ → Request → Request
expire_one now r =
    if is_pending r.status && ltb r.expires_at now
    then record r { status = RequestStatus.expired }
    else r

pub expire_one-IsUpdate : (now : ℕ) → IsUpdate (expire_one now)
expire_one-IsUpdate now = record {
  codes = λ r. ground arith;
  states = λ r. ground arith;
  sound = λ r s. ground arith;
  final = λ r p. ground arith;
}

pub clash_alone :
    (r : Request) (rows : List Request)
    → any (clashes r) rows ≡ false
    → All (λ q. clashes r q ≡ false) rows
clash_alone r [] e = tt
clash_alone r (q ∷ rows) e = (ground arith, clash_alone r rows (ground arith))

not_text : (o : Option String) (s : String) → text_is o s ≡ false → o ≢ some s
not_text none s e h = cc
not_text (some t) s e h = ground (arith, eq_iff t s)

IsAlone-snoc :
    (q r : Request) (state : String) (rows : List Request)
    → r.oauth_state ≡ some state
    → clashes r q ≡ false
    → IsAlone q rows
    → IsAlone q (rows ++ r ∷ [])
IsAlone-snoc q r state rows e c h = All-append _ rows (r ∷ []) h (
  (
    (λ same. ground (arith, eq_iff q.device_code r.device_code)),
    λ same. absurd (not_text q.oauth_state state (ground arith) (sym same ∙ e)),
  ),
  tt,
)

pub AreValid-snoc :
    (r : Request) (state : String) (rows : List Request)
    → r.oauth_state ≡ some state
    → IsSound r
    → All (λ q. clashes r q ≡ false) rows
    → AreValid rows
    → AreValid (rows ++ r ∷ [])
AreValid-snoc r state [] e s c v = (s, tt, tt)
AreValid-snoc r state (q ∷ rows) e s (c, cs) (t, a, v) =
    (t, IsAlone-snoc q r state rows e c a, AreValid-snoc r state rows e s cs v)
