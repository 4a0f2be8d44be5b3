-- ===== src/Evaluator/Protocol.antt =====
-- The contract that ValidateResult enforces: packages/go/evaluator/validate.go.
use lab_kit.Prelude.{
  ℕ, ◌≡◌, refl, ◌≢◌, ◌↔◌, ◌⊎◌, inl, inr, String, Option, none, some, List, [], ◌∷◌, true, false,
  any, All, In, arith, if◌then◌else◌, Bool-cases, str_eq, eq_iff, ap, ◌∙◌, Option-cases,
}
use lab_kit.Prelude.Dict.{Dict, has}
use lab_kit.Evaluator.Extract.{IsLastLine, extract_iff}
use lab_kit.Prelude.Results.{>>=-eq-ok, Result, ok, err, ◌>>=◌, ◌>>◌}
use lab_kit.Manifest.{Manifest, MetricSection}
use lab_kit.Evaluator.{
  Verdict, build_failed, rejected, scored, error, text, markdown, Detail, Outcome, Error,
  validate_verdict, validate_detail, require_metrics, allow_only, validate_scores, is_scored,
  no_scores, validate_result, parse_result, extract_last_line,
}

abbrev IsKnown : Verdict → Type 0
IsKnown v = (v ≡ build_failed) ⊎ (v ≡ rejected) ⊎ (v ≡ scored) ⊎ (v ≡ error)

-- A detail, where there is one, is text or Markdown.
abbrev HasFormat : Option Detail → Type 0
HasFormat none = Unit
HasFormat (some d) = (d.format ≡ text) ⊎ (d.format ≡ markdown)

any-In :
    (k : String) (ms : List MetricSection)
    → (any (λ m. str_eq m.id k) ms ≡ true) ↔ ((x : MetricSection) × In x ms × (x.id ≡ k))
any-In k [] = ((λ h. cc), λ (x, listed, _). absurd listed)
any-In k (m ∷ ms) =
    let (to, from) = any-In k ms in
    elim (Bool-cases (str_eq m.id k)) [
      | inl e ↦ rw e ((λ h. (m, inl refl, (eq_iff m.id k).0 e)), λ h. refl)
      | inr e ↦ rw e (
        (λ h. let (x, listed, same) = to h in (x, inr listed, same)),
        λ (x, listed, same). from (x, not_first x listed same e, same),
      )
    ]
  where
    not_first : (x : MetricSection) → In x (m ∷ ms) → x.id ≡ k → str_eq m.id k ≡ false → In x ms
    not_first x (inl it) same e = absurd (clash (ap (λ (y : MetricSection). y.id) it) same e)
      where
        clash : x.id ≡ m.id → x.id ≡ k → str_eq m.id k ≡ false → ⊥
        clash p q r = ground (arith, eq_iff m.id k)
    not_first x (inr listed) same e = listed

then_ok : (a b : Result Error (Unit {0})) → ((a >> b) ≡ ok tt) ↔ ((a ≡ ok tt) × (b ≡ ok tt))
then_ok (ok _) b = (λ h. (refl, h), λ h. h.1)
then_ok (err e) b = (λ h. cc, λ h. cc (h.0))

verdict_iff : (v : Verdict) → (validate_verdict v ≡ ok tt) ↔ IsKnown v
verdict_iff v = ground arith

detail_iff : (d : Option Detail) → (validate_detail d ≡ ok tt) ↔ HasFormat d
detail_iff d = ground arith

not_scored : (v : Verdict) → is_scored v ≡ false → v ≢ scored
not_scored v e h = ground arith

is_scored_eq : (v : Verdict) → is_scored v ≡ true → v ≡ scored
is_scored_eq v e = ground arith

Result-cases : (a : Result Error (Unit {0})) → (a ≡ ok tt) ⊎ ((e : Error) × (a ≡ err e))
Result-cases (ok _) = inl refl
Result-cases (err e) = inr (e, refl)

module _ {V : Type 0} where
  -- The metrics scored are those declared.
  pub record ScoresMatch (m : Manifest) (scores : Dict V) : Type 0 where
    pub present : scores ≢ []
    pub complete : All (λ k. has k.id scores ≡ true) m.metrics
    pub only : All (λ s. (k : MetricSection) × In k m.metrics × (k.id ≡ s.0)) scores

  pub record IsContract (m : Manifest) (r : Outcome V) : Type 0 where
    pub known : IsKnown r.verdict
    pub format : HasFormat r.detail
    pub when_scored : r.verdict ≡ scored → ScoresMatch m r.scores
    pub otherwise : r.verdict ≢ scored → r.scores ≡ []

  require_iff :
      (ms : List MetricSection) (scores : Dict V)
      → (require_metrics ms scores ≡ ok tt) ↔ All (λ k. has k.id scores ≡ true) ms
  unfolding require_metrics
  require_iff [] scores = (λ _. tt, λ _. refl)
  require_iff (m ∷ ms) scores =
      let (to, from) = require_iff ms scores in
      elim (Bool-cases (has m.id scores)) [
        | inl e ↦ rw e ((λ h. (refl, to h)), λ h. from h.1)
        | inr e ↦ rw e ((λ h. cc), λ h. cc (h.0))
      ]

  allow_iff :
      (ms : List MetricSection) (scores : Dict V)
      → (allow_only ms scores ≡ ok tt)
        ↔ All (λ s. (k : MetricSection) × In k ms × (k.id ≡ s.0)) scores
  unfolding allow_only
  allow_iff ms [] = (λ _. tt, λ _. refl)
  allow_iff ms ((k, v) ∷ scores) =
      let (to, from) = allow_iff ms scores in
      let (to_metric, from_metric) = any-In k ms in
      elim (Bool-cases (any (λ m. str_eq m.id k) ms)) [
        | inl e ↦ rw e ((λ h. (to_metric e, to h)), λ h. from h.1)
        | inr e ↦ rw e ((λ h. cc), λ h. cc (e, from_metric h.0))
      ]

  scores_iff :
      (m : Manifest) (scores : Dict V)
      → (validate_scores (some m) scores ≡ ok tt) ↔ ScoresMatch m scores
  unfolding validate_scores
  scores_iff m [] = ((λ h. cc), λ s. absurd (s.present refl))
  scores_iff m (s ∷ scores) =
      let (split, join) =
        then_ok (require_metrics m.metrics (s ∷ scores)) (allow_only m.metrics (s ∷ scores)) in
      let (all_there, there_all) = require_iff m.metrics (s ∷ scores) in
      let (none_else, else_none) = allow_iff m.metrics (s ∷ scores) in
      (
        (λ h.
            let (a, b) = split h in
            record { present = λ e. cc; complete = all_there a; only = none_else b }),
        λ c. join (there_all c.complete, else_none c.only),
      )

  no_scores_iff : (scores : Dict V) → (no_scores scores ≡ ok tt) ↔ (scores ≡ [])
  no_scores_iff scores = ground arith

  scoring_iff :
      (m : Manifest) (r : Outcome V)
      → ((if is_scored r.verdict then validate_scores (some m) r.scores else no_scores r.scores)
          ≡ ok tt)
        ↔ ((r.verdict ≡ scored → ScoresMatch m r.scores) × (r.verdict ≢ scored → r.scores ≡ []))
  scoring_iff m r = elim (Bool-cases (is_scored r.verdict)) [
    | inl e ↦
        let it = is_scored_eq r.verdict e in
        let (to, from) = scores_iff m r.scores in
        rw e ((λ h. ((λ _. to h), λ k. absurd (k it))), λ h. from (h.0 it))
    | inr e ↦
        let other_verdict = not_scored r.verdict e in
        let (to, from) = no_scores_iff r.scores in
        rw e ((λ h. ((λ k. absurd (other_verdict k)), λ _. to h)), λ h. from (h.1 other_verdict))
  ]

  -- With a manifest, ValidateResult accepts exactly the results that keep the contract: one of the
  -- four verdicts; a detail, where there is one, in one of the two formats; under `scored` at least
  -- one score, one for each declared metric and none besides; under any other verdict no score.
  pub validate_result_iff :
      (m : Manifest) (r : Outcome V) → (validate_result (some m) r ≡ ok tt) ↔ IsContract m r
  unfolding validate_result
  validate_result_iff m r =
      let rest =
        if is_scored r.verdict then validate_scores (some m) r.scores else no_scores r.scores in
      let (split, join) = then_ok (validate_verdict r.verdict) (validate_detail r.detail >> rest) in
      let (split', join') = then_ok (validate_detail r.detail) rest in
      let (known, from_known) = verdict_iff r.verdict in
      let (format, from_format) = detail_iff r.detail in
      let (scoring, from_scoring) = scoring_iff m r in
      (
        (λ h.
            let (a, b) = split h in
            let (c, d) = split' b in
            let (when_scored, otherwise) = scoring d in
            record {
              known = known a;
              format = format c;
              when_scored = when_scored;
              otherwise = otherwise;
            }),
        λ c. join (
          from_known c.known,
          join' (from_format c.format, from_scoring (c.when_scored, c.otherwise)),
        ),
      )

  -- ParseResult returns a result exactly if the last line of the output decodes to it and it keeps
  -- the manifest's contract.
  pub parse_result_iff :
      (decode : List ℕ → Option (Outcome V)) (m : Manifest) (stdout : List ℕ) (r : Outcome V)
      → (parse_result decode (some m) stdout ≡ ok r)
        ↔ ((line : List ℕ) × IsLastLine stdout line × (decode line ≡ some r) × IsContract m r)
  unfolding parse_result
  parse_result_iff decode m stdout r = (to, from)
    where
      accepted :
          (q : Outcome V)
          → (validate_result (some m) q >>= (λ _. ok q)) ≡ ok r
          → (q ≡ r) × (validate_result (some m) q ≡ ok tt)
      accepted q h = elim (Result-cases (validate_result (some m) q)) [
        | inl e ↦ ((ground arith), e)
        | inr (x, e) ↦ cc (rw e at h)
      ]

      to :
          parse_result decode (some m) stdout ≡ ok r
          → (line : List ℕ) × IsLastLine stdout line × (decode line ≡ some r) × IsContract m r
      to h =
          let (line, found, rest) = >>=-eq-ok (extract_last_line stdout) _ h in
          elim (Option-cases (decode line)) [
            | inl e ↦ cc (rw e at rest)
            | inr (q, e) ↦
                let (same, valid) = accepted q (rw e at rest) in
                (
                  line,
                  (extract_iff stdout line).0 found,
                  e ∙ ap some same,
                  (validate_result_iff m r).0 (rw same at valid),
                )
          ]

      from :
          ((line : List ℕ) × IsLastLine stdout line × (decode line ≡ some r) × IsContract m r)
          → parse_result decode (some m) stdout ≡ ok r
      from (line, last, decoded, contract) =
          rw ((extract_iff stdout line).1 last, decoded, (validate_result_iff m r).1 contract)
