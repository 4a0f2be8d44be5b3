-- ===== src/Admin/Adjusted.antt =====
-- What AdjustBonusQuota of apps/api/internal/service/admin/service.go does to the bonus of each
-- user.
use lab_kit.Prelude.{
  ℕ, ◌≡◌, ◌==◌, refl, sym, ap, ◌∙◌, String, Option, none, some, List, [], ◌∷◌, Bool, true, false,
  ◌&&◌, ◌||◌, ==_iff, arith, length, any, inl, inr, Bool-cases, if◌then◌else◌, str_eq, eq_iff,
}
use lab_kit.Prelude.Results.{ok, Result-cases}
use lab_kit.Db.Labs.{LabRow}
use lab_kit.Admin.{Call, BonusResult, int32, is_zero_int, load_lab_row, adjust_bonus_quota}
use lab_kit.Prelude.Int.{ℤ, pos, ◌+ℤ◌}
use lab_kit.Db.{State, Submission, BonusQuota}
use lab_kit.Db.Bonus.{
  is_of, get_bonus, at_least_zero, participants, adjust_one, adjust_all, adjust_bonus,
}

-- What is left of a bonus after the change; no row counts as 0.
abbrev pub changed : ℤ → Option ℕ → ℕ
changed delta none = at_least_zero delta
changed delta (some n) = at_least_zero (pos n +ℤ delta)

is_of-own :
    (user : ℕ) (lab : String) (n : ℕ)
    → is_of user lab (record { user_id = user; lab_id = lab; remaining = n }) ≡ true
is_of-own user lab n = let e : str_eq lab lab ≡ true = (eq_iff lab lab).1 refl in ground (arith, e)

adjust_one-same :
    (lab : String) (delta : ℤ) (user : ℕ) (bs : List BonusQuota)
    → get_bonus user lab (adjust_one lab delta user bs)
      ≡ some (changed delta (get_bonus user lab bs))
unfolding get_bonus
adjust_one-same lab delta user [] = rw (is_of-own user lab (at_least_zero delta)) refl
adjust_one-same lab delta user (b ∷ bs) = elim (Bool-cases (is_of user lab b)) [
  | inl h ↦ rw (h, h) refl
  | inr h ↦ rw (h, h) (adjust_one-same lab delta user bs)
]

-- No row of `other` in `lab'` is one of `user` in `lab`.
abbrev IsApart : ℕ → String → ℕ → String → Type 0
IsApart user lab other lab' =
    (b : BonusQuota) → is_of user lab b ≡ true → is_of other lab' b ≡ false

adjust_one-other :
    (lab lab' : String) (delta : ℤ) (user other : ℕ) (bs : List BonusQuota)
    → IsApart user lab other lab'
    → get_bonus other lab' (adjust_one lab delta user bs) ≡ get_bonus other lab' bs
unfolding get_bonus
adjust_one-other lab lab' delta user other [] apart =
    let new : BonusQuota = record {
      user_id = user;
      lab_id = lab;
      remaining = at_least_zero delta;
    } in
    rw (apart new (is_of-own user lab (at_least_zero delta))) refl
adjust_one-other lab lab' delta user other (b ∷ bs) apart =
    let rest = adjust_one-other lab lab' delta user other bs apart in
    elim (Bool-cases (is_of user lab b)) [
      | inl mine ↦ rw (mine, apart b mine) refl
      | inr not_mine ↦ elim (Bool-cases (is_of other lab' b)) [
        | inl t ↦ rw (not_mine, t) refl
        | inr t ↦ rw (not_mine, t) rest
      ]
    ]

users-IsApart :
    (lab : String) (user other : ℕ) → (user == other) ≡ false → IsApart user lab other lab
users-IsApart lab user other h b mine = ground arith

labs-IsApart :
    (lab lab' : String) (user other : ℕ) → str_eq lab lab' ≡ false → IsApart user lab other lab'
labs-IsApart lab lab' user other h b mine =
    let its : str_eq b.lab_id lab ≡ true = ground (arith, mine) in
    let same : b.lab_id ≡ lab = (eq_iff b.lab_id lab).0 its in
    let off : str_eq b.lab_id lab' ≡ false = rw same h in ground (arith, off)

-- No user stands twice.
abbrev AreDistinct : List ℕ → Type 0
AreDistinct [] = Unit
AreDistinct (u ∷ us) = (any (λ v. v == u) us ≡ false) × AreDistinct us

adjust_all-other :
    (lab lab' : String) (delta : ℤ) (other : ℕ) (us : List ℕ) (bs : List BonusQuota)
    → str_eq lab lab' ≡ false
    → get_bonus other lab' (adjust_all lab delta us bs) ≡ get_bonus other lab' bs
adjust_all-other lab lab' delta other [] bs h = refl
adjust_all-other lab lab' delta other (u ∷ us) bs h =
    adjust_all-other lab lab' delta other us (adjust_one lab delta u bs) h
    ∙ adjust_one-other lab lab' delta u other bs (labs-IsApart lab lab' u other h)

adjust_all-absent :
    (lab : String) (delta : ℤ) (user : ℕ) (us : List ℕ) (bs : List BonusQuota)
    → any (λ u. u == user) us ≡ false
    → get_bonus user lab (adjust_all lab delta us bs) ≡ get_bonus user lab bs
adjust_all-absent lab delta user [] bs h = refl
adjust_all-absent lab delta user (u ∷ us) bs h =
    let head : (u == user) ≡ false = ground arith in
    let tail : any (λ v. v == user) us ≡ false = ground arith in
    adjust_all-absent lab delta user us (adjust_one lab delta u bs) tail
    ∙ adjust_one-other lab lab delta u user bs (users-IsApart lab u user head)

adjust_all-present :
    (lab : String) (delta : ℤ) (user : ℕ) (us : List ℕ) (bs : List BonusQuota)
    → AreDistinct us
    → any (λ u. u == user) us ≡ true
    → get_bonus user lab (adjust_all lab delta us bs) ≡ some (changed delta (get_bonus user lab bs))
adjust_all-present lab delta user [] bs d h = cc
adjust_all-present lab delta user (u ∷ us) bs (fresh, d) h = elim (Bool-cases (u == user)) [
  | inl e ↦
      let same : u ≡ user = (==_iff u user).0 e in
      let gone : any (λ v. v == user) us ≡ false = rw (sym same) fresh in
      adjust_all-absent lab delta user us (adjust_one lab delta u bs) gone
      ∙ rw same (adjust_one-same lab delta user bs)
  | inr e ↦
      let later : any (λ v. v == user) us ≡ true = ground arith in
      adjust_all-present lab delta user us (adjust_one lab delta u bs) d later
      ∙ ap (λ n. some (changed delta n))
          (adjust_one-other lab lab delta u user bs (users-IsApart lab u user e))
]

-- The test for a submission of a user to a lab.
abbrev pub submitted : ℕ → String → Submission → Bool
submitted user lab row = str_eq row.lab_id lab && row.user_id == user

any-participants :
    (lab : String) (user : ℕ) (rows : List Submission)
    → any (λ u. u == user) (participants lab rows) ≡ any (submitted user lab) rows
unfolding participants
any-participants lab user [] = refl
any-participants lab user (row ∷ rows) =
    let rest = any-participants lab user rows in
    elim (Bool-cases (str_eq row.lab_id lab)) [
      | inr off ↦ rw off rest
      | inl on ↦ elim (Bool-cases (any (λ u. u == row.user_id) (participants lab rows))) [
        | inr new ↦ rw (on, new) (ap (λ t. row.user_id == user || t) rest)
        | inl old ↦ elim (Bool-cases (row.user_id == user)) [
          | inl e ↦
              let same : row.user_id ≡ user = (==_iff row.user_id user).0 e in
              let listed : any (λ u. u == user) (participants lab rows) ≡ true = rw same at old in
              rw (on, old, e) listed
          | inr e ↦ rw (on, old, e) rest
        ]
      ]
    ]

participants-AreDistinct :
    (lab : String) (rows : List Submission) → AreDistinct (participants lab rows)
unfolding participants
participants-AreDistinct lab [] = tt
participants-AreDistinct lab (row ∷ rows) =
    let rest = participants-AreDistinct lab rows in
    elim (Bool-cases (str_eq row.lab_id lab)) [
      | inr off ↦ rw off rest
      | inl on ↦ elim (Bool-cases (any (λ u. u == row.user_id) (participants lab rows))) [
        | inl old ↦ rw (on, old) rest
        | inr new ↦ rw (on, new) (new, rest)
      ]
    ]

-- The bonus of a user in a lab after an adjustment of the lab `id`, from the one before.
abbrev pub adjusted : String → ℤ → List Submission → ℕ → String → Option ℕ → Option ℕ
adjusted id delta rows user lab before =
    if str_eq id lab && any (submitted user id) rows then some (changed delta before) else before

adjust_bonus-adjusted :
    (id : String) (delta : ℤ) (rows : List Submission) (bs : List BonusQuota) (user : ℕ)
    (lab : String)
    → get_bonus user lab (adjust_bonus id delta rows bs)
      ≡ adjusted id delta rows user lab (get_bonus user lab bs)
unfolding adjust_bonus
adjust_bonus-adjusted id delta rows bs user lab = elim (Bool-cases (str_eq id lab)) [
  | inr off ↦ rw off (adjust_all-other id lab delta user (participants id rows) bs off)
  | inl on ↦
      let same : id ≡ lab = (eq_iff id lab).0 on in
      elim (Bool-cases (any (submitted user id) rows)) [
        | inl h ↦
            rw (on, h, sym same)
              (adjust_all-present id delta user (participants id rows) bs
                (participants-AreDistinct id rows) (any-participants id user rows ∙ h))
        | inr h ↦
            rw (on, h, sym same)
              (adjust_all-absent id delta user (participants id rows) bs
                (any-participants id user rows ∙ h))
      ]
]

module _ {V : Type 0} (fails : Call → Bool) where
  -- An adjustment that succeeds adds the delta, as an int32, to the bonus of each user with a
  -- submission to the lab, at least to 0, and to no other bonus, or with a dry run to none, and the
  -- answer has the number of these users.
  pub adjust_bonus_quota-adjusted :
      (id : String) (delta : ℤ) (dry_run : Bool) (labs : List LabRow) (st : State V)
      (r : BonusResult) (user : ℕ) (lab : String)
      → (adjust_bonus_quota fails id delta dry_run labs st).0 ≡ ok r
      → (r.users_affected ≡ length (participants id st.submissions))
        × (get_bonus user lab (adjust_bonus_quota fails id delta dry_run labs st).1.bonus ≡ (
            if dry_run
            then get_bonus user lab st.bonus
            else adjusted id (int32 delta) st.submissions user lab (get_bonus user lab st.bonus)))
  unfolding adjust_bonus_quota
  adjust_bonus_quota-adjusted id delta true labs st r user lab e =
      elim (Result-cases (load_lab_row fails id labs)) [
        | inr (x, h) ↦ absurd (ground arith)
        | inl (row, h) ↦ elim (Bool-cases (is_zero_int delta)) [
          | inl z ↦ absurd (ground arith)
          | inr z ↦ elim (Bool-cases (fails Call.count_users)) [
            | inl c ↦ absurd (ground arith)
            | inr c ↦ rw (h, z, c) (ground arith, refl)
          ]
        ]
      ]
  adjust_bonus_quota-adjusted id delta false labs st r user lab e =
      elim (Result-cases (load_lab_row fails id labs)) [
        | inr (x, h) ↦ absurd (ground arith)
        | inl (row, h) ↦ elim (Bool-cases (is_zero_int delta)) [
          | inl z ↦ absurd (ground arith)
          | inr z ↦ elim (Bool-cases (fails Call.count_users)) [
            | inl c ↦ absurd (ground arith)
            | inr c ↦ elim (Bool-cases (fails Call.adjust)) [
              | inl a ↦ absurd (ground arith)
              | inr a ↦
                  rw (h, z, c, a)
                    (
                      ground arith,
                      adjust_bonus-adjusted id (int32 delta) st.submissions st.bonus user lab,
                    )
            ]
          ]
        ]
      ]
