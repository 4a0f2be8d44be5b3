-- ===== src/Worker/Container.antt =====
-- Running an evaluator in a container: apps/worker/internal/runtime/docker_runner.go. The docker
-- command is a parameter; containers are removed in the end, which is not modelled.
use lab_kit.Prelude.{
  ℕ, suc, ◌*◌, ◌-◌, ◌%◌, ◌==◌, ◌||◌, leb, String, Option, none, some, List, [], ◌∷◌, Bool, not,
  if◌then◌else◌,
}
use lab_kit.Prelude.Int.{ℤ, pos, negsuc}
use lab_kit.Prelude.Text.{is_empty, trim_space}
use lab_kit.Prelude.Dict.{Dict}
use lab_kit.Prelude.Results.{Result, ok, err, ◌>>=◌, ◌>>◌, guard}
use lab_kit.Manifest.{Manifest}
use lab_kit.Evaluator as Ev
use lab_kit.Evaluator.{Outcome, parse_result}
use lab_kit.Worker.Workspace.{Call, FileError, Node, stage_submission_dir}

-- What `docker start -a` ends with: the states of the context and of the error, and the output.
pub record Started : Type 0 where
  pub is_canceled : Bool
  pub is_timed_out : Bool
  pub is_failed : Bool
  pub stdout : List ℕ

-- The docker command: `create` with its arguments gives its output, `cp` copies a directory into
-- the container and `start` runs the container for a number of nanoseconds.
pub record Docker : Type 0 where
  pub create : List String → Option String
  pub cp : String → Dict Node → Bool
  pub start : String → Dict Node → ℕ → Started

pub data RunError : Type 0 where
  image_required create_container empty_container_id copy_submission : RunError
  interrupted timed_out exited_abnormally : RunError
  stage : FileError → RunError
  parse : Ev.Error → RunError

abbrev pub default_eval_timeout : ℕ
default_eval_timeout = 300_000_000_000

-- `time.Duration(timeout) * time.Second` as 64 bits, by Go's wrap-around.
abbrev pub word : ℕ
word = 18_446_744_073_709_551_616

abbrev pub seconds : ℤ → ℕ
seconds (pos n) = (n * 1_000_000_000) % word
seconds (negsuc n) = (word - (suc n * 1_000_000_000) % word) % word

-- `timeout <= 0` of the signed word.
unfoldable pub timeout_of : ℤ → ℕ
timeout_of timeout =
    if seconds timeout == 0 || leb 9_223_372_036_854_775_808 (seconds timeout)
    then default_eval_timeout
    else seconds timeout

-- DockerRunner: Memory and CPUs.
pub record Limits : Type 0 where
  pub memory : String
  pub cpus : String

abbrev pub value_or_default : String → String → String
value_or_default value fallback = if is_empty value then fallback else value

-- createArgs
unfoldable pub create_args : Limits → String → List String
create_args l image =
    "create"
    ∷ "--network=none"
    ∷ "--memory"
    ∷ value_or_default l.memory "512m"
    ∷ "--cpus"
    ∷ value_or_default l.cpus "2"
    ∷ image
    ∷ []

-- createContainer
unfoldable pub create_container_with : Docker → Limits → String → Result RunError String
unfolding create_args
create_container_with d l image = elim (d.create (create_args l image)) [
  | none ↦ err create_container
  | some stdout ↦
      if is_empty (trim_space stdout) then err empty_container_id else ok (trim_space stdout)
]

abbrev pub staged : {A : Type 0} → Result FileError A → Result RunError A
staged (err e) = err (stage e)
staged (ok a) = ok a

abbrev pub parsed : {A : Type 0} → Result Ev.Error A → Result RunError A
parsed (err e) = err (parse e)
parsed (ok a) = ok a

-- What follows startContainer.
unfoldable pub outcome_of :
    {F : Type 0} → (List ℕ → Option (Outcome F)) → Manifest → Started → Result RunError (Outcome F)
outcome_of decode m s =
    if s.is_canceled
    then err interrupted
    else if s.is_timed_out
    then err timed_out
    else if s.is_failed
    then err exited_abnormally
    else parsed (parse_result decode (some m) s.stdout)

-- DockerRunner.Evaluate, of a manifest and a directory that are given.
unfoldable pub run_evaluator :
    {F : Type 0}
    → (List ℕ → Option (Outcome F))
    → Docker
    → Limits
    → (Call → Bool)
    → Manifest
    → Dict Node
    → Result RunError (Outcome F)
run_evaluator decode d l fails m dir = do
  guard (not (is_empty m.eval.image)) image_required
  files ← staged (stage_submission_dir fails dir m.submit.files)
  id ← create_container_with d l m.eval.image
  guard (d.cp id files) copy_submission
  outcome_of decode m (d.start id files (timeout_of m.eval.timeout))
