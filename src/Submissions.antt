-- ===== src/Submissions.antt =====
-- Taking a submission in: apps/api/internal/service/submissions/service.go and quota.go. What the
-- service is given (the artifact store, the archive and its hash, the parser of keys, the signature
-- check, the clock, the day of a time zone, float64) is the record `Env`; `fails` says which calls
-- of the database and the store return an error.
pub mod Quota
pub mod Files
pub mod Archive
pub mod Upload
pub mod Keys
pub mod Intake
pub mod Accept
pub mod Entry
pub mod Refused
pub mod Limits
pub mod Usage
mod Tests
use lab_kit.Prelude.{
  ℕ, ◌+◌, ◌≤◌, ◌<◌, String, Option, none, some, List, Bool, ◌==◌, leb, ltb, if◌then◌else◌, not,
  ◌&&◌, true, false,
}
use lab_kit.Manifest.{ScheduleSection, is_zero}

-- labOpen
unfoldable pub lab_open : ScheduleSection → ℕ → Bool
lab_open s now =
    if not (is_zero s.opens) && ltb now s.opens
    then false
    else if not (is_zero s.closes) && ltb s.closes now
    then false
    else true
