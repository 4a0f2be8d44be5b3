-- ===== src/Worker/Loop.antt =====
-- The loop of a worker: apps/worker/internal/runtime/loop.go, with runOneShot of
-- apps/worker/cmd/labkit-worker/main.go. A round is one pass of the loop with what it meets (the
-- rows that others hold, the clocks, the calls that fail); a context that is canceled is the end of
-- the rounds, or an error of a round that `canceled` recognises.
use lab_kit.Prelude.{ℕ, String, Option, none, some, List, [], ◌∷◌, Bool, if◌then◌else◌}
use lab_kit.Prelude.Text.{is_empty, trim_space}
use lab_kit.Prelude.Results.{Result, ok, err}
use lab_kit.Db.{State, Job}
use lab_kit.Jobs as Queue
use lab_kit.Jobs.{claim}
use lab_kit.Worker.Handler.{Env, Faults, Times, Error, queue, handle}

pub record Round : Type 0 where
  pub locked : ℕ → Bool
  pub now : ℕ
  pub clock : ℕ
  pub claim_fails : Queue.Call → Bool
  pub faults : Faults
  pub times : Times

-- What one pass of the loop comes to.
pub data Passed (V : Type 0) : Type 0 where
  idle handled : State V → Passed V
  failed : Error → State V → Passed V

module _ {F V : Type 0} (env : Env F V) (worker : String) where
  -- Claim, and Handle if there is a job.
  abbrev pub handled_by : Result Error (Unit {0}) × State V → Passed V
  handled_by (ok done, st) = handled st
  handled_by (err e, st) = failed e st

  abbrev pub claimed : Round → State V → Result Queue.Error (Option Job) × List Job → Passed V
  claimed r st (err e, jobs) = failed (queue e) (record st { jobs = jobs })
  claimed r st (ok none, jobs) = idle (record st { jobs = jobs })
  claimed r st (ok (some job), jobs) =
      handled_by (handle env r.faults r.times worker job (record st { jobs = jobs }))

  unfoldable pub pass : Round → State V → Passed V
  pass r st = claimed r st (claim r.claim_fails r.locked r.now r.clock worker st.jobs)

  abbrev pub stop : (Error → Bool) → Error → State V → Result Error (Unit {0}) × State V
  stop canceled e st = (if canceled e then ok tt else err e, st)

  -- What follows a pass.
  abbrev pub go_on :
      (State V → Result Error (Unit {0}) × State V)
      → (Error → Bool)
      → Passed V
      → Result Error (Unit {0}) × State V
  go_on rest canceled (idle st) = rest st
  go_on rest canceled (handled st) = rest st
  go_on rest canceled (failed e st) = stop canceled e st

  -- The loop of Run.
  unfoldable pub rounds : (Error → Bool) → List Round → State V → Result Error (Unit {0}) × State V
  rounds canceled [] st = (ok tt, st)
  rounds canceled (r ∷ rs) st = go_on (rounds canceled rs) canceled (pass r st)

  -- Loop.Run
  unfoldable pub run : (Error → Bool) → List Round → State V → Result Error (Unit {0}) × State V
  run canceled rs st =
      if is_empty (trim_space worker)
      then (err (queue Queue.Error.invalid_worker_id), st)
      else rounds canceled rs st

  abbrev pub once : Passed V → Result Error (Unit {0}) × State V
  once (idle st) = (ok tt, st)
  once (handled st) = (ok tt, st)
  once (failed e st) = (err e, st)

  -- runOneShot
  unfoldable pub run_one_shot : Round → State V → Result Error (Unit {0}) × State V
  run_one_shot r st =
      if is_empty (trim_space worker)
      then (err (queue Queue.Error.invalid_worker_id), st)
      else once (pass r st)
