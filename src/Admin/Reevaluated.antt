-- ===== src/Admin/Reevaluated.antt =====
-- What Reevaluate of apps/api/internal/service/admin/service.go leaves in the tables.
use mathlib.Core.List.{append_assoc, append-nil}
use lab_kit.Prelude.{
  ℕ, suc, ◌+◌, ◌≡◌, refl, sym, ap, ◌∙◌, String, Option, none, some, List, [], ◌∷◌, ◌++◌, Bool,
  arith, length, count, count-append,
}
use lab_kit.Prelude.Text.{trim_space}
use lab_kit.Prelude.Results.{Result, ok, err, >>=-eq-ok}
use lab_kit.Db.{State, Submission, QuotaState, BoardRow}
use lab_kit.Db.Labs.{LabRow, get_lab}
use lab_kit.Db.Submissions.{
  get_submission, count_quota_usage, counts, create_free_submission, new_submission,
}
use lab_kit.Db.Jobs.{create_job, new_job}
use lab_kit.Db.Board.{list_leaderboard}
use lab_kit.Admin.Copies.{AreRequeued, AreCopies-uncounted, no_copies, one_more}
use lab_kit.Admin.{
  Call, Error, copy_params, call, call_row, load_lab_row, requeue_copy, requeue_rows, requeue_lab,
  reevaluate, or_back, found_lab,
}

-- The tables after a reevaluation of a lab that made `created` jobs.
pub record IsReevaluated {V : Type 0} (id : String) (labs : List LabRow) (created : ℕ)
    (st st' : State V) : Type 0 where
  pub lab : LabRow
  pub found : get_lab (trim_space id) labs ≡ some lab
  pub requeued : AreRequeued st.submissions (list_leaderboard lab.id st.board) st st'
  pub all_rows : created ≡ length (list_leaderboard lab.id st.board)
  pub same_usage :
      (user : ℕ) (lab_id : String) (from until : ℕ)
      → count_quota_usage user lab_id from until st'.submissions
        ≡ count_quota_usage user lab_id from until st.submissions

or_back_inv :
    {A V : Type 0} (st : State V) (r : Result Error (A × State V)) (a : A)
    → (or_back st r).0 ≡ ok a
    → r ≡ ok (a, (or_back st r).1)
or_back_inv st (err e) a h = cc
or_back_inv st (ok (b, st')) a h = ground arith

module _ (fails : Call → Bool) where
  call_inv : {A : Type 0} (c : Call) (a b : A) → call fails c a ≡ ok b → a ≡ b
  call_inv c a b e = ground arith

  call_row_inv :
      {A : Type 0} (c : Call) (a : Option A) (b : A) → call_row fails c a ≡ ok b → a ≡ some b
  call_row_inv c none b e = cc
  call_row_inv c (some a) b e = ap some (call_inv c a b e)

  found_row : (row : Option LabRow) (lab : LabRow) → found_lab row ≡ ok lab → row ≡ some lab
  found_row none lab e = cc
  found_row (some r) lab e = ground arith

  found_inv :
      (id : String) (labs : List LabRow) (lab : LabRow)
      → load_lab_row fails id labs ≡ ok lab
      → get_lab (trim_space id) labs ≡ some lab
  unfolding load_lab_row
  found_inv id labs lab e =
      let (row, got, e1) =
        >>=-eq-ok (call fails Call.get_lab (get_lab (trim_space id) labs)) found_lab e in
      let listed = call_inv Call.get_lab (get_lab (trim_space id) labs) row got in
      listed ∙ found_row row lab e1

module _ {V : Type 0} (fails : Call → Bool) (submission_id job_id : ℕ → ℕ) (now : ℕ) where
  abbrev with_copy : ℕ → Submission → State V → State V
  with_copy n old st = record st {
    submissions =
        st.submissions
        ++ new_submission (submission_id n) now QuotaState.free (copy_params old) ∷ [];
    jobs = st.jobs ++ new_job (job_id n) (submission_id n) now ∷ [];
  }

  requeue_copy_inv :
      (n : ℕ) (old : Submission) (st st' : State V)
      → requeue_copy fails submission_id job_id now n old st ≡ ok st'
      → with_copy n old st ≡ st'
  unfolding requeue_copy create_free_submission create_job
  requeue_copy_inv n old st st' e = ground arith

  requeue_rows-AreRequeued :
      (seen : List Submission) (rows : List BoardRow) (n m : ℕ) (st st' : State V)
      → requeue_rows fails submission_id job_id now seen n rows st ≡ ok (m, st')
      → AreRequeued seen rows st st' × (m ≡ n + length rows)
  unfolding requeue_rows
  requeue_rows-AreRequeued seen [] n m st st' e =
      let same : st ≡ st' = ground arith in
      let counted : n ≡ m = ground arith in
      (
        record {
          news = [];
          jobs = [];
          appended = ap (λ s. s.submissions) (sym same) ∙ sym (append-nil st.submissions);
          enqueued = ap (λ s. s.jobs) (sym same) ∙ sym (append-nil st.jobs);
          copies = no_copies;
          same_bonus = ap (λ s. s.bonus) (sym same);
          same_scores = ap (λ s. s.scores) (sym same);
          same_board = ap (λ s. s.board) (sym same);
          same_nonces = ap (λ s. s.nonces) (sym same);
        },
        omega (arith, counted),
      )
  requeue_rows-AreRequeued seen (r ∷ rows) n m st st' e =
      let (old, found, more) =
        >>=-eq-ok (call_row fails (Call.load_submission n) (get_submission r.submission_id seen)) _
          e in
      let (mid, put, rest) =
        >>=-eq-ok (requeue_copy fails submission_id job_id now n old st) _ more in
      let here = requeue_copy_inv n old st mid put in
      let (done, total) = requeue_rows-AreRequeued seen rows (suc n) m mid st' rest in
      let new = new_submission (submission_id n) now QuotaState.free (copy_params old) in
      let job = new_job (job_id n) (submission_id n) now in
      (
        record {
          news = new ∷ done.news;
          jobs = job ∷ done.jobs;
          appended =
              done.appended
              ∙ ap (λ s. s.submissions ++ done.news) (sym here)
              ∙ append_assoc st.submissions (new ∷ []) done.news;
          enqueued =
              done.enqueued
              ∙ ap (λ s. s.jobs ++ done.jobs) (sym here)
              ∙ append_assoc st.jobs (job ∷ []) done.jobs;
          copies =
              one_more r rows old new done.news job done.jobs
                (call_row_inv fails (Call.load_submission n) (get_submission r.submission_id seen)
                  old found)
                (record {
                  same_user = refl;
                  same_lab = refl;
                  same_key = refl;
                  same_artifact = refl;
                  same_hash = refl;
                  waits = refl;
                  unjudged = refl;
                  uncharged = refl;
                  of_copy = refl;
                  queued = refl;
                  unclaimed = refl;
                })
                done.copies;
          same_bonus = done.same_bonus ∙ ap (λ s. s.bonus) (sym here);
          same_scores = done.same_scores ∙ ap (λ s. s.scores) (sym here);
          same_board = done.same_board ∙ ap (λ s. s.board) (sym here);
          same_nonces = done.same_nonces ∙ ap (λ s. s.nonces) (sym here);
        },
        omega (arith, total),
      )

  done-IsReevaluated :
      (id : String) (labs : List LabRow) (lab : LabRow) (st : State V) (created : ℕ) (st' : State V)
      → get_lab (trim_space id) labs ≡ some lab
      → requeue_rows fails submission_id job_id now st.submissions 0
          (list_leaderboard lab.id st.board)
          st
        ≡ ok (created, st')
      → IsReevaluated id labs created st st'
  unfolding count_quota_usage
  done-IsReevaluated id labs lab st created st' found looped =
      let (done, total) =
        requeue_rows-AreRequeued st.submissions (list_leaderboard lab.id st.board) 0 created st st'
          looped in
      record {
        lab = lab;
        found = found;
        requeued = done;
        all_rows = omega (arith, total);
        same_usage = λ user lab_id from until.
            let free =
              AreCopies-uncounted st.submissions (list_leaderboard lab.id st.board) done.news
                done.jobs done.copies user lab_id from until in
            ap (count (counts user lab_id from until)) done.appended
            ∙ count-append (counts user lab_id from until) st.submissions done.news
            ∙ omega (arith, free);
      }

  requeue_lab-IsReevaluated :
      (id : String) (labs : List LabRow) (st : State V) (created : ℕ) (st' : State V)
      → requeue_lab fails submission_id job_id now id labs st ≡ ok (created, st')
      → IsReevaluated id labs created st st'
  unfolding requeue_lab
  requeue_lab-IsReevaluated id labs st created st' e =
      let (lab, found, e1) = >>=-eq-ok (load_lab_row fails id labs) _ e in
      let (started, begun, e2) = >>=-eq-ok (call fails Call.begin st) _ e1 in
      let (rows, listed, e3) =
        >>=-eq-ok (call fails Call.list_board (list_leaderboard lab.id started.board)) _ e2 in
      let (done, looped, e4) =
        >>=-eq-ok (requeue_rows fails submission_id job_id now st.submissions 0 rows started) _
          e3 in
      done-IsReevaluated id labs lab st created st' (found_inv fails id labs lab found) (
        ap
          (λ s.
            requeue_rows fails submission_id job_id now st.submissions 0
              (list_leaderboard lab.id s.board) s)
          (call_inv fails Call.begin st started begun)
        ∙ ap (λ rs. requeue_rows fails submission_id job_id now st.submissions 0 rs started)
            (call_inv fails Call.list_board (list_leaderboard lab.id started.board) rows listed)
        ∙ looped
        ∙ ap ok (call_inv fails Call.commit done (created, st') e4))

  -- A reevaluation that succeeds: the lab is listed, each row of its leaderboard has one new, free,
  -- waiting copy of its submission and one queued job for it, the answer is their number, and
  -- nothing else has changed, nor what counts against the quota of anyone.
  pub reevaluate-IsReevaluated :
      (id : String) (labs : List LabRow) (st : State V) (created : ℕ)
      → (reevaluate fails submission_id job_id now id labs st).0 ≡ ok created
      → IsReevaluated id labs created st (reevaluate fails submission_id job_id now id labs st).1
  unfolding reevaluate
  reevaluate-IsReevaluated id labs st created e =
      requeue_lab-IsReevaluated id labs st created _
        (or_back_inv st (requeue_lab fails submission_id job_id now id labs st) created e)
