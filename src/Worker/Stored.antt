-- ===== src/Worker/Stored.antt =====
-- A job that is handled without an error: apps/worker/cmd/labkit-worker/runtime_handler.go.

use lab_kit.Prelude.{
  ℕ, ◌≡◌, refl, sym, ap, ◌∙◌, String, Option, none, some, List, [], ◌∷◌, true, not, arith, ◌==◌,
  ==_iff, Option-cases, inl, inr,
}
use lab_kit.Prelude.Members.{find-In}
use lab_kit.Prelude.Dict.{Dict}
use lab_kit.Prelude.Text.{is_empty}
use lab_kit.Prelude.Results.{Result, ok, Result-cases, guard, >>=-eq-ok}
use lab_kit.Manifest.{Manifest}
use lab_kit.Manifest.Validate.{Problem, validate}
use lab_kit.Evaluator.{Outcome, parse_result, extract_last_line, validate_result}
use lab_kit.Db.{State, Submission, SubmissionStatus, Job}
use lab_kit.Db.Submissions.{get_submission, update_running}
use lab_kit.Db.Lookup.{get-update_running, with_running}
use lab_kit.Db.Jobs.{is_held, finish_job}
use lab_kit.Jobs.{text_value}
use lab_kit.Jobs.Valid.{IsValid, get_job}
use lab_kit.Evaluation.{mark_running, time_value}
use lab_kit.Evaluation.Publish.{HasKeysOnce}
use lab_kit.Evaluation.Effects.{IsStored, persist-IsStored}
use lab_kit.Worker.Container.{
  run_evaluator, outcome_of, Started, staged, create_container_with, copy_submission,
  image_required,
}
use lab_kit.Worker.Workspace as Files
use lab_kit.Worker.Workspace.{Node, FileError, extract_archive, stage_submission_dir}
use lab_kit.Worker.Handler.{
  Env, Faults, Times, LoadError, load_submission, evaluate, outcome_or_error, persist_input,
  job_status, last_error_of, handle, in_files, workspace, extract, found, valid_manifest,
  no_submission, no_lab, undecodable,
}
use lab_kit.Worker.Handled.{handle-Steps, acknowledge_ok}

parse_result_decoded :
    {F : Type 0} (decode : List ℕ → Option (Outcome F)) (m : Option Manifest) (stdout : List ℕ)
    (o : Outcome F)
    → parse_result decode m stdout ≡ ok o
    → (line : List ℕ) × (decode line ≡ some o)
unfolding parse_result
parse_result_decoded decode m stdout o e =
    let (line, _, rest) = >>=-eq-ok (extract_last_line stdout) _ e in
    elim (Option-cases (decode line)) [
      | inl h ↦ ground arith
      | inr (r, h) ↦
          let after = rw h at rest in
          let (_, _, same) = >>=-eq-ok (validate_result m r) _ after in (line, ground arith)
    ]

module _ {F V : Type 0} (env : Env F V) (faults : Faults) where
  -- Every result that the decoder gives has one value for a metric.
  abbrev pub DecodesOnce : Type 0
  DecodesOnce =
      (line : List ℕ) (o : Outcome F) → env.decode_result line ≡ some o → HasKeysOnce o.scores

  module _ (once : DecodesOnce) where
    outcome_of-HasKeysOnce :
        (m : Manifest) (s : Started) (o : Outcome F)
        → outcome_of env.decode_result m s ≡ ok o
        → HasKeysOnce o.scores
    unfolding outcome_of
    outcome_of-HasKeysOnce m s o e =
        elim (Result-cases (parse_result env.decode_result (some m) s.stdout)) [
          | inr (x, h) ↦ ground arith
          | inl (r, h) ↦
              let (line, d) = parse_result_decoded env.decode_result (some m) s.stdout r h in
              let same : r ≡ o = ground arith in rw (sym same) (once line r d)
        ]

    run_evaluator-HasKeysOnce :
        (m : Manifest) (dir : Dict Node) (o : Outcome F)
        → run_evaluator env.decode_result env.docker env.limits faults.files m dir ≡ ok o
        → HasKeysOnce o.scores
    unfolding run_evaluator
    run_evaluator-HasKeysOnce m dir o e =
        let (_, _, e1) = >>=-eq-ok (guard (not (is_empty m.eval.image)) image_required) _ e in
        let (files, _, e2) =
          >>=-eq-ok (staged (stage_submission_dir faults.files dir m.submit.files)) _ e1 in
        let (id, _, e3) =
          >>=-eq-ok (create_container_with env.docker env.limits m.eval.image) _ e2 in
        let (_, _, e4) = >>=-eq-ok (guard (env.docker.cp id files) copy_submission) _ e3 in
        outcome_of-HasKeysOnce m _ o e4

    evaluated-HasKeysOnce :
        (s : Submission) (m : Manifest) (o : Outcome F)
        → evaluate env faults s m ≡ ok o
        → HasKeysOnce o.scores
    unfolding evaluate
    evaluated-HasKeysOnce s m o e = elim (Option-cases (env.artifact s.artifact_key)) [
      | inl h ↦ ground arith
      | inr (archive, h) ↦
          let (_, _, e1) =
            >>=-eq-ok (in_files workspace (Files.call faults.files Files.Call.create_workspace)) _
              (rw (h, evaluate) at e) in
          let (_, _, e2) =
            >>=-eq-ok (in_files workspace (Files.call faults.files Files.Call.make_dir)) _ e1 in
          let (dir, _, e3) =
            >>=-eq-ok (in_files extract (extract_archive faults.files (env.unpack archive))) _ e2 in
          elim (Result-cases
            (run_evaluator env.decode_result env.docker env.limits faults.files m dir)) [
              | inr (x, g) ↦ ground arith
              | inl (r, g) ↦
                  let same : r ≡ o = ground arith in
                  rw (sym same) (run_evaluator-HasKeysOnce m dir r g)
            ]
    ]

    evaluate-HasKeysOnce :
        (s : Submission) (m : Manifest)
        → HasKeysOnce (outcome_or_error env faults (evaluate env faults s m)).scores
    evaluate-HasKeysOnce s m = elim (Result-cases (evaluate env faults s m)) [
      | inr (x, h) ↦ rw h tt
      | inl (o, h) ↦ rw h (evaluated-HasKeysOnce s m o h)
    ]

  -- What was loaded: the submission, and a correct manifest of its lab.
  pub record IsLoaded (id : ℕ) (rows : List Submission) (s : Submission) (m : Manifest)
      : Type 0 where
    pub row : get_submission id rows ≡ some s
    pub raw : String
    pub stored : env.stored_manifest s.lab_id ≡ some raw
    pub decoded : env.decode_manifest raw ≡ some m
    pub correct : validate m ≡ []

  valid_manifest_inv :
      (d m : Manifest) (ps : List Problem) → valid_manifest d ps ≡ ok m → (d ≡ m) × (ps ≡ [])
  valid_manifest_inv d m [] e = (ground arith, refl)
  valid_manifest_inv d m (p ∷ ps) e = absurd (ground arith)

  found_inv {ℓ} :
      {A : Type ℓ} (x : LoadError) (o : Option A) (a : A) → found x o ≡ ok a → o ≡ some a
  found_inv x none a e = absurd (ground arith)
  found_inv x (some b) a e = ground arith

  load_submission-IsLoaded :
      (id : ℕ) (rows : List Submission) (s : Submission) (m : Manifest)
      → load_submission env faults id rows ≡ ok (s, m)
      → IsLoaded id rows s m
  unfolding load_submission
  load_submission-IsLoaded id rows s m e =
      let (_, _, e1) = >>=-eq-ok (guard (not faults.get_submission) no_submission) _ e in
      let (s', h, e2) = >>=-eq-ok (found no_submission (get_submission id rows)) _ e1 in
      let (_, _, e3) = >>=-eq-ok (guard (not faults.get_lab) no_lab) _ e2 in
      let (raw, h3, e4) = >>=-eq-ok (found no_lab (env.stored_manifest s'.lab_id)) _ e3 in
      let (d, h4, e5) = >>=-eq-ok (found undecodable (env.decode_manifest raw)) _ e4 in
      let (m', h5, e6) = >>=-eq-ok (valid_manifest d (validate d)) _ e5 in
      let (same_d, no_problem) = valid_manifest_inv d m' (validate d) h5 in
      of_parts s' d m' raw e6 (found_inv no_submission _ s' h) (found_inv no_lab _ raw h3)
        (found_inv undecodable _ d h4) same_d no_problem
    where
      of_parts :
          (s' : Submission) (d m' : Manifest) (raw : String)
          → ◌≡◌ {A = Result LoadError (Submission × Manifest)} (ok (s', m')) (ok (s, m))
          → get_submission id rows ≡ some s'
          → env.stored_manifest s'.lab_id ≡ some raw
          → env.decode_manifest raw ≡ some d
          → d ≡ m'
          → validate d ≡ []
          → IsLoaded id rows s m
      of_parts s' d m' raw e h h3 h4 same_d no_problem =
          let same_s : s' ≡ s = ground arith in
          let same_m : d ≡ m = same_d ∙ ground arith in
          record {
            row = rw same_s at h;
            raw = raw;
            stored = rw same_s at h3;
            decoded = rw same_m at h4;
            correct = rw same_m at no_problem;
          }

  -- The tables after a job that was handled: the result of the evaluation, or the verdict error, is
  -- stored for the submission of the job, and the worker's job is finished accordingly.
  pub record IsHandled (t : Times) (worker : String) (job row : Job) (st st' : State V)
      : Type 0 where
    pub submission : Submission
    pub manifest : Manifest
    pub loaded : IsLoaded job.submission_id st.submissions submission manifest
    pub started : State V
    pub running :
        get_submission job.submission_id started.submissions
        ≡ some (with_running SubmissionStatus.running (time_value t.started_at) submission)
    pub after : State V
    pub stored :
        IsStored env.narrow env.encode faults.store t.stored_at
          (persist_input env faults t submission manifest)
          (with_running SubmissionStatus.running (time_value t.started_at) submission)
          started
          after
    pub others : st' ≡ record after { jobs = st'.jobs }
    pub held : is_held job.id worker row ≡ true
    pub finished :
        get_job job.id st'.jobs
        ≡ some (
            finish_job
              (job_status env faults
                (outcome_or_error env faults (evaluate env faults submission manifest)).verdict)
              (text_value (
                last_error_of env faults
                  (outcome_or_error env faults (evaluate env faults submission manifest))))
              t.acknowledged_at
              row)

  loaded_id :
      (id : ℕ) (rows : List Submission) (s : Submission)
      → get_submission id rows ≡ some s
      → s.id ≡ id
  unfolding get_submission
  loaded_id id rows s e =
      let (_, same) = find-In (λ (x : Submission). x.id == id) rows s e in (==_iff s.id id).0 same

  mark_running_inv :
      (id started_at : ℕ) (st st' : State V)
      → mark_running env.narrow env.encode faults.store id started_at st ≡ (ok tt, st')
      → st' ≡ record st {
        submissions =
            update_running id SubmissionStatus.running (time_value started_at) st.submissions;
      }
  unfolding mark_running
  mark_running_inv id started_at st st' e = ground arith

  running_row :
      (id : ℕ) (started_at : Option ℕ) (rows : List Submission) (s : Submission)
      → get_submission id rows ≡ some s
      → get_submission id (update_running id SubmissionStatus.running started_at rows)
        ≡ some (with_running SubmissionStatus.running started_at s)
  running_row id started_at rows s e =
      rw
        (
          get-update_running id id SubmissionStatus.running started_at rows,
          (==_iff id id).1 refl,
          e,
        )
        refl

  -- A job that is handled without an error, on a table of jobs that is well formed: the submission of
  -- the job and a correct manifest of its lab were there; the row was first set to running; what is
  -- stored is the evaluator's result, or the verdict error when the evaluation failed; and the job,
  -- which runs under the worker's name, is finished as done, or as an error with the message exactly
  -- for the verdict error. Decoded results have one value for a metric.
  pub handle-IsHandled :
      (t : Times) (worker : String) (job row : Job) (st st' : State V)
      → DecodesOnce
      → IsValid st.jobs
      → get_job job.id st.jobs ≡ some row
      → handle env faults t worker job st ≡ (ok tt, st')
      → IsHandled t worker job row st st'
  handle-IsHandled t worker job row st st' once v listed e =
      let x = handle-Steps env faults t worker job st st' e in
      let loaded = load_submission-IsLoaded job.submission_id st.submissions x.s x.m x.loading in
      let its_id = loaded_id job.submission_id st.submissions x.s loaded.row in
      let begun = mark_running_inv x.s.id t.started_at st x.started x.starting in
      let running : get_submission x.s.id x.started.submissions
          ≡ some (with_running SubmissionStatus.running (time_value t.started_at) x.s) =
        ap (λ (y : State V). get_submission x.s.id y.submissions) begun
        ∙ running_row x.s.id (time_value t.started_at) st.submissions x.s
            (rw (sym its_id) at loaded.row) in
      let stored =
        persist-IsStored env.narrow env.encode faults.store t.stored_at
          (persist_input env faults t x.s x.m)
          (with_running SubmissionStatus.running (time_value t.started_at) x.s) x.started x.after
          (evaluate-HasKeysOnce once x.s x.m) running refl x.storing in
      let same_jobs : x.after.jobs ≡ st.jobs =
        stored.same_jobs ∙ ap (λ (y : State V). y.jobs) begun in
      let (held, finished) =
        acknowledge_ok faults.queue t.acknowledged_at job.id worker _ _ x.after.jobs x.jobs row
          (rw same_jobs v) (rw same_jobs listed) x.settling in
      record {
        submission = x.s;
        manifest = x.m;
        loaded = loaded;
        started = x.started;
        running = ap (λ (n : ℕ). get_submission n x.started.submissions) (sym its_id) ∙ running;
        after = x.after;
        stored = stored;
        others =
            x.ending
            ∙ ap (λ (js : List Job). record x.after { jobs = js })
                (sym (ap (λ (y : State V). y.jobs) x.ending));
        held = held;
        finished = ap (λ (y : State V). get_job job.id y.jobs) x.ending ∙ finished;
      }
