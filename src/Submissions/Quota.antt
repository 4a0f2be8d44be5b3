-- ===== src/Submissions/Quota.antt =====
-- Quota windows and summaries: apps/api/internal/service/submissions/quota.go, and
-- quotaWindowForTime of service.go.
use lab_kit.Prelude.{
  ℕ, suc, ◌≤◌, ◌<◌, ◌≡◌, String, Option, none, some, List, [], ◌∷◌, Bool, false, ◌&&◌, not, ltb,
  if◌then◌else◌,
}
use Prim.Native.String.{◌++◌ as append}
use lab_kit.Prelude.Int.{ℤ, pos, ◌-ℤ◌, ltb_ℤ, leb_ℤ}
use lab_kit.Prelude.Text.{is_empty, trim_space}
use lab_kit.Manifest.{Manifest}
use lab_kit.Db.{Submission}
use lab_kit.Db.Submissions.{is_charging}

-- A time.Location, as the source uses it: its name, and the start of the day of a time and of the
-- day behind it (time.Date at midnight, AddDate(0, 0, 1)).
pub record Location : Type 0 where
  pub name : String
  pub day_start : ℕ → ℕ
  pub next_day : ℕ → ℕ

-- What the time package documents: midnight is not after the time, the next midnight is, and all
-- times of one day have the same midnight.
pub record IsCalendar (l : Location) : Type 0 where
  pub start_le : (t : ℕ) → l.day_start t ≤ t
  pub before_next : (t : ℕ) → t < l.next_day (l.day_start t)
  pub same_day :
      (t u : ℕ) → l.day_start t ≤ u → u < l.next_day (l.day_start t) → l.day_start u ≡ l.day_start t

-- quotaWindowForTime
unfoldable pub quota_window : ℕ → Location → ℕ × ℕ
quota_window now l = (l.day_start now, l.next_day (l.day_start now))

-- quotaLocationName; a nil location is none.
unfoldable pub quota_location_name : Option Location → String
unfolding trim_space
quota_location_name none = "Asia/Shanghai"
quota_location_name (some l) = if is_empty (trim_space l.name) then "Asia/Shanghai" else l.name

-- ResetHintForLocation
abbrev pub reset_hint : Location → String
reset_hint l = append "00:00 " (quota_location_name (some l))

pub record QuotaSummary : Type 0 where
  pub daily : ℤ
  pub used : ℤ
  pub left : ℤ
  pub hint : String
  pub bonus : Option ℤ

-- BuildQuotaSummaryWithBonus; a nil manifest or summary is none.
unfoldable pub build_quota_summary : Option Manifest → ℤ → ℤ → Location → Option QuotaSummary
build_quota_summary none used bonus l = none
build_quota_summary (some m) used bonus l =
    if leb_ℤ m.quota.daily (pos 0)
    then none
    else some (record {
      daily = m.quota.daily;
      used = used;
      left = if ltb_ℤ (m.quota.daily -ℤ used) (pos 0) then pos 0 else m.quota.daily -ℤ used;
      hint = reset_hint l;
      bonus = if ltb_ℤ (pos 0) bonus then some bonus else none;
    })

-- withinQuotaWindow; a NULL time is none.
abbrev pub within_window : Option ℕ → ℕ → ℕ → Bool
within_window none start end = false
within_window (some t) start end = not (ltb t start) && ltb t end

-- CountQuotaUsage, the count in Go of rows that are loaded.
unfoldable pub count_usage : List Submission → ℕ → ℕ → ℕ
count_usage [] start end = 0
count_usage (row ∷ rows) start end =
    let rest = count_usage rows start end in
    if not (is_charging row.quota_state)
    then rest
    else if not (within_window (some row.created_at) start end)
    then rest
    else suc rest
