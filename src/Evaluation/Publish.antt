-- ===== src/Evaluation/Publish.antt =====
-- The scores and the leaderboard entry that a Persist publishes:
-- apps/worker/internal/service/evaluation/leaderboard.go and service.go.
use lab_kit.Prelude.{
  ℕ, ◌≡◌, refl, ◌≢◌, String, Option, none, some, List, [], ◌∷◌, Bool, true, false, ◌&&◌, arith,
  ◌==◌, if◌then◌else◌, str_eq, eq_iff, Bool-cases, inl, inr, ◌∙◌, ap,
}
use lab_kit.Prelude.Dict.{Dict, lookup}
use lab_kit.Prelude.Results.{Result, ok, >>=-eq-ok}
use lab_kit.Evaluator.{Detail, is_scored}
use lab_kit.Db.{State, Submission, BoardRow, Score}
use lab_kit.Db.Board.{create_score, upsert_entry}
use lab_kit.Db.Lookup.{get_entry, get_entry-upsert, get_score, get_score-create}
use lab_kit.Evaluation.{
  Call, Error, PersistInput, call, persist_scores, refresh_leaderboard, publish_scores,
}

-- A Go map has one value for a key.
abbrev pub HasKeysOnce : {A : Type 0} → Dict A → Type 0
HasKeysOnce [] = Unit
HasKeysOnce ((k, _) ∷ d) = (lookup k d ≡ none) × HasKeysOnce d

module _ {F V : Type 0} (narrow : F → V) (encode : Detail → Option String)
    (fails : Call → Bool) where
  pub call_ok : (c : Call) (st st' : State V) → call narrow encode fails c st ≡ ok st' → st' ≡ st
  call_ok c st st' e = ground arith

  -- A score that is written hides the old one.
  abbrev pub override : Option F → Option V → Option V
  override none old = old
  override (some v) old = some (narrow v)

  record ScoresOnly (id : ℕ) (d : Dict F) (st st' : State V) : Type 0 where
    submissions : st'.submissions ≡ st.submissions
    jobs : st'.jobs ≡ st.jobs
    board : st'.board ≡ st.board
    nonces : st'.nonces ≡ st.nonces
    bonus : st'.bonus ≡ st.bonus
    written :
        (m : String) → get_score id m st'.scores ≡ override (lookup m d) (get_score id m st.scores)
    others : (k : ℕ) (m : String) → k ≢ id → get_score k m st'.scores ≡ get_score k m st.scores

  override_first :
      (m metric : String) (v : F) (rest : Dict F) (old new : Option V)
      → lookup metric rest ≡ none
      → new ≡ (if str_eq metric m then some (narrow v) else old)
      → override (lookup m rest) new ≡ override (lookup m ((metric, v) ∷ rest)) old
  unfolding lookup
  override_first m metric v rest old new once e = elim (Bool-cases (str_eq metric m)) [
    | inl same ↦
        let it : metric ≡ m = (eq_iff metric m).0 same in
        let free : lookup m rest ≡ none = rw it at once in rw (e, same, free)
    | inr other ↦ rw (e, other)
  ]

  scores_effect :
      (id : ℕ) (d : Dict F) (st st' : State V)
      → HasKeysOnce d
      → persist_scores narrow encode fails id d st ≡ ok st'
      → ScoresOnly id d st st'
  unfolding persist_scores lookup
  scores_effect id [] st st' once e =
      let same : st' ≡ st = ground arith in
      rw same (record {
        submissions = refl;
        jobs = refl;
        board = refl;
        nonces = refl;
        bonus = refl;
        written = λ m. refl;
        others = λ k m h. refl;
      })
  scores_effect id ((metric, value) ∷ d) st st' once e =
      let new : Score V = record { submission_id = id; metric_id = metric; value = narrow value } in
      let (st1, called, rest) =
        >>=-eq-ok
          (call narrow encode fails (Call.insert_score metric)
            (record st { scores = create_score new st.scores }))
          _ e in
      let it =
        call_ok (Call.insert_score metric) (record st { scores = create_score new st.scores }) st1
          called in
      let ih = scores_effect id d st1 st' once.1 rest in
      record {
        submissions = ih.submissions ∙ ap (λ (s : State V). s.submissions) it;
        jobs = ih.jobs ∙ ap (λ (s : State V). s.jobs) it;
        board = ih.board ∙ ap (λ (s : State V). s.board) it;
        nonces = ih.nonces ∙ ap (λ (s : State V). s.nonces) it;
        bonus = ih.bonus ∙ ap (λ (s : State V). s.bonus) it;
        written = λ m.
            ih.written m
            ∙ override_first m metric value d (get_score id m st.scores) (get_score id m st1.scores)
                once.0 (ap (λ (s : State V). get_score id m s.scores) it ∙ first m);
        others = λ k m h.
            ih.others k m h ∙ ap (λ (s : State V). get_score k m s.scores) it ∙ not_it k m h;
      }
    where
      new_score : Score V
      new_score = record { submission_id = id; metric_id = metric; value = narrow value }

      first :
          (m : String)
          → get_score id m (create_score new_score st.scores)
            ≡ (if str_eq metric m then some (narrow value) else get_score id m st.scores)
      first m = ground (arith, get_score-create id m new_score st.scores)

      not_it :
          (k : ℕ) (m : String)
          → k ≢ id
          → get_score k m (create_score new_score st.scores) ≡ get_score k m st.scores
      not_it k m h = ground (arith, get_score-create k m new_score st.scores)

  abbrev pub entry_of : ℕ → Submission → BoardRow
  entry_of now s = record {
    user_id = s.user_id;
    lab_id = s.lab_id;
    submission_id = s.id;
    updated_at = now;
  }

  -- The tables after the scores are published.
  pub record Published (now : ℕ) (i : PersistInput F) (st st' : State V) : Type 0 where
    pub submissions : st'.submissions ≡ st.submissions
    pub jobs : st'.jobs ≡ st.jobs
    pub nonces : st'.nonces ≡ st.nonces
    pub bonus : st'.bonus ≡ st.bonus
    pub entry :
        (user : ℕ) (lab : String)
        → get_entry user lab st'.board ≡ (
            if is_scored i.result.verdict
              && (i.submission.user_id == user && str_eq i.submission.lab_id lab)
            then some (entry_of now i.submission)
            else get_entry user lab st.board)
    pub written :
        (m : String)
        → get_score i.submission.id m st'.scores ≡ (
            if is_scored i.result.verdict
            then override (lookup m i.result.scores) (get_score i.submission.id m st.scores)
            else get_score i.submission.id m st.scores)
    pub others :
        (k : ℕ) (m : String)
        → k ≢ i.submission.id
        → get_score k m st'.scores ≡ get_score k m st.scores

  publish_scored :
      (now : ℕ) (i : PersistInput F) (st st1 st' : State V)
      → is_scored i.result.verdict ≡ true
      → ScoresOnly i.submission.id i.result.scores st st1
      → st' ≡ record st1 { board = upsert_entry (entry_of now i.submission) st1.board }
      → Published now i st st'
  publish_scored now i st st1 st' s one it = record {
    submissions = ap (λ (x : State V). x.submissions) it ∙ one.submissions;
    jobs = ap (λ (x : State V). x.jobs) it ∙ one.jobs;
    nonces = ap (λ (x : State V). x.nonces) it ∙ one.nonces;
    bonus = ap (λ (x : State V). x.bonus) it ∙ one.bonus;
    entry = λ user lab. rw s (
        ap (λ (x : State V). get_entry user lab x.board) it
        ∙ get_entry-upsert user lab (entry_of now i.submission) st1.board
        ∙ ap
            (λ (b : List BoardRow).
              if i.submission.user_id == user && str_eq i.submission.lab_id lab
              then some (entry_of now i.submission)
              else get_entry user lab b)
            one.board);
    written =
        λ m. rw s (ap (λ (x : State V). get_score i.submission.id m x.scores) it ∙ one.written m);
    others = λ k m h. ap (λ (x : State V). get_score k m x.scores) it ∙ one.others k m h;
  }

  publish_unscored :
      (now : ℕ) (i : PersistInput F) (st st' : State V)
      → is_scored i.result.verdict ≡ false
      → st' ≡ st
      → Published now i st st'
  publish_unscored now i st st' s it = record {
    submissions = ap (λ (x : State V). x.submissions) it;
    jobs = ap (λ (x : State V). x.jobs) it;
    nonces = ap (λ (x : State V). x.nonces) it;
    bonus = ap (λ (x : State V). x.bonus) it;
    entry = λ user lab. rw s (ap (λ (x : State V). get_entry user lab x.board) it);
    written = λ m. rw s (ap (λ (x : State V). get_score i.submission.id m x.scores) it);
    others = λ k m h. ap (λ (x : State V). get_score k m x.scores) it;
  }

  pub publish_effect :
      (now : ℕ) (i : PersistInput F) (st st' : State V)
      → HasKeysOnce i.result.scores
      → publish_scores narrow encode fails now i st ≡ ok st'
      → Published now i st st'
  unfolding publish_scores refresh_leaderboard
  publish_effect now i st st' once e = elim (Bool-cases (is_scored i.result.verdict)) [
    | inl s ↦
        let (st1, scored, refreshed) =
          >>=-eq-ok (persist_scores narrow encode fails i.submission.id i.result.scores st) _
            (rw s at e) in
        publish_scored now i st st1 st' s
          (scores_effect i.submission.id i.result.scores st st1 once scored)
          (call_ok Call.upsert _ st' refreshed)
    | inr s ↦ publish_unscored now i st st' s (same_state (rw s at e))
  ]
    where
      same_state : ◌≡◌ {A = Result Error (State V)} (ok st) (ok st') → st' ≡ st
      same_state h = cc
