-- ===== src/Submissions/Usage.antt =====
-- The two counts of quota usage, and what a summary promises: apps/api/internal/service/submissions,
-- quota.go and service.go.
use lab_kit.Prelude.{
  ℕ, ◌≡◌, refl, ◌↔◌, String, some, List, [], ◌∷◌, Bool, true, arith, All, if◌then◌else◌, eq_iff,
}
use lab_kit.Prelude.Int.{ℤ, pos, negsuc, ◌-ℤ◌, ltb_ℤ, leb_ℤ}
use lab_kit.Prelude.Results.{ok}
use lab_kit.Manifest.{Manifest}
use lab_kit.Db.{State, Submission}
use lab_kit.Db.Submissions.{count_quota_usage}
use lab_kit.Submissions.Quota.{Location, count_usage, build_quota_summary, QuotaSummary}
use lab_kit.Submissions.Intake.{Call, Env, check_daily_quota}

-- CountQuotaUsage in Go and the SQL count agree on the rows of one user and lab.
pub count_usage-count_quota_usage :
    (user : ℕ) (lab : String) (start end : ℕ) (rows : List Submission)
    → All (λ row. (row.user_id ≡ user) × (row.lab_id ≡ lab)) rows
    → count_usage rows start end ≡ count_quota_usage user lab start end rows
unfolding count_usage count_quota_usage
count_usage-count_quota_usage user lab start end [] h = refl
count_usage-count_quota_usage user lab start end (row ∷ rows) ((u, l), t) =
    ground (arith, eq_iff row.lab_id lab, count_usage-count_quota_usage user lab start end rows t)

-- The sign of `daily - used`.
left_sign :
    (daily : ℤ) (used : ℕ)
    → (leb_ℤ daily (pos used) ≡ true)
      ↔ ((if ltb_ℤ (daily -ℤ pos used) (pos 0) then pos 0 else daily -ℤ pos used) ≡ pos 0)
left_sign (pos d) used = (λ h. ground arith, λ h. ground arith)
left_sign (negsuc d) used = (λ h. ground arith, λ h. ground arith)

-- The check of Intake and the summary that a client sees agree: for a lab with a daily quota the
-- check says that the day is used up exactly if the summary of the same count has nothing left.
pub check_daily_quota-build_quota_summary :
    {F V : Type 0} (env : Env F) (fails : Call → Bool)
    → (m : Manifest) (user used : ℕ) (lab : String) (st : State V) (bonus : ℤ) (full : Bool)
      (l : Location) (q : QuotaSummary)
    → check_daily_quota env fails m user lab st ≡ ok (used, full)
    → build_quota_summary (some m) (pos used) bonus l ≡ some q
    → ((full ≡ true) ↔ (q.left ≡ pos 0))
unfolding check_daily_quota build_quota_summary
check_daily_quota-build_quota_summary env fails m user used lab st bonus full l q c e =
    let (there, back) = left_sign m.quota.daily used in (λ h. ground arith, λ h. ground arith)
