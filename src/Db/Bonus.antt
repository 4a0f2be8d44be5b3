-- ===== src/Db/Bonus.antt =====
-- The queries on `user_lab_bonus_quota`: packages/go/db/sqlc/bonus_quota.sql.go.
use lab_kit.Prelude.{
  ℕ, ◌+◌, ◌-◌, String, Option, none, some, List, [], ◌∷◌, Bool, true, false, ◌&&◌, map, ◌==◌, ltb,
  if◌then◌else◌, count, any, str_eq, not,
}
use lab_kit.Prelude.Int.{ℤ, pos, ◌+ℤ◌, pos_part}
use lab_kit.Db.Rows.{BonusQuota, Submission, QuotaState}
use lab_kit.Db.Submissions.{get_submission, update_quota_state}

abbrev pub is_of : ℕ → String → BonusQuota → Bool
is_of user lab b = b.user_id == user && str_eq b.lab_id lab

-- GetBonusQuota; `none` is no row.
unfoldable pub get_bonus : ℕ → String → List BonusQuota → Option ℕ
get_bonus user lab [] = none
get_bonus user lab (b ∷ bs) = if is_of user lab b then some b.remaining else get_bonus user lab bs

-- ConsumeBonusQuota: the primary key (user_id, lab_id) makes the row unique; `none` is no row that
-- has some left.
unfoldable pub consume_bonus : ℕ → String → List BonusQuota → Option (ℕ × List BonusQuota)
consume_bonus user lab [] = none
consume_bonus user lab (b ∷ bs) =
    let rest = consume_bonus user lab bs in
    if is_of user lab b && ltb 0 b.remaining
    then some (b.remaining - 1, record b { remaining = b.remaining - 1 } ∷ bs)
    else elim rest [ none ↦ none | some (left, bs') ↦ some (left, b ∷ bs') ]

abbrev pub add_one : ℕ → String → List BonusQuota → List BonusQuota
add_one user lab =
    map (λ b. if is_of user lab b then record b { remaining = b.remaining + 1 } else b)

abbrev pub is_bonus : QuotaState → Bool
is_bonus QuotaState.bonus = true
is_bonus _ = false

-- RefundBonusSubmission: both tables in one statement.
unfoldable pub refund_bonus :
    ℕ → List Submission → List BonusQuota → List Submission × List BonusQuota
refund_bonus id rows bs = elim (get_submission id rows) [
  | none ↦ (rows, bs)
  | some row ↦
      if is_bonus row.quota_state
      then (update_quota_state id QuotaState.free rows, add_one row.user_id row.lab_id bs)
      else (rows, bs)
]

-- GREATEST(0, n)
abbrev pub at_least_zero : ℤ → ℕ
at_least_zero z = pos_part z

-- The distinct users of a lab's submissions.
unfoldable pub participants : String → List Submission → List ℕ
participants lab [] = []
participants lab (row ∷ rows) =
    let rest = participants lab rows in
    if str_eq row.lab_id lab && not (any (λ u. u == row.user_id) rest)
    then row.user_id ∷ rest
    else rest

-- INSERT … ON CONFLICT (user_id, lab_id) DO UPDATE for one user; a sum outside the range of
-- int4 is an error of the statement.
abbrev pub adjust_one : String → ℤ → ℕ → List BonusQuota → List BonusQuota
adjust_one lab delta user [] =
    record { user_id = user; lab_id = lab; remaining = at_least_zero delta } ∷ []
adjust_one lab delta user (b ∷ bs) =
    if is_of user lab b
    then record b { remaining = at_least_zero (pos b.remaining +ℤ delta) } ∷ bs
    else b ∷ adjust_one lab delta user bs

abbrev pub adjust_all : String → ℤ → List ℕ → List BonusQuota → List BonusQuota
adjust_all lab delta [] bs = bs
adjust_all lab delta (u ∷ us) bs = adjust_all lab delta us (adjust_one lab delta u bs)

-- AdjustBonusQuotaForLab
unfoldable pub adjust_bonus : String → ℤ → List Submission → List BonusQuota → List BonusQuota
unfolding participants
adjust_bonus lab delta rows = adjust_all lab delta (participants lab rows)

-- ResetBonusQuotaForLab, with the number of rows affected.
unfoldable pub reset_bonus : String → List BonusQuota → ℕ × List BonusQuota
reset_bonus lab bs = (
  count (λ b. str_eq b.lab_id lab && ltb 0 b.remaining) bs,
  map (λ b. if str_eq b.lab_id lab && ltb 0 b.remaining then record b { remaining = 0 } else b) bs,
)
