-- ===== src/Manifest/Correct.antt =====
-- What Validate accepts, said without the code: packages/go/manifest/validate.go.
use lab_kit.Prelude.{
  ℕ, suc, ◌≤◌, ◌≡◌, refl, ◌≢◌, ◌↔◌, ◌⊎◌, inl, inr, String, List, [], ◌∷◌, true, false, ◌&&◌, not,
  any, All, arith, str_eq, eq_iff,
}
use lab_kit.Prelude.Int.{ℤ, pos, ◌<ℤ◌, leb_ℤ}
use lab_kit.Prelude.Text.{is_empty}
use lab_kit.Manifest.{Manifest, MetricSection, ScheduleSection, is_zero}
use lab_kit.Manifest.Validate.{
  lab_name_required, files_required, image_required, daily_not_positive, metrics_required,
  open_required, close_required, is_url_safe, free_problems, seen_ids, is_nil, lab_id_problems,
  rank_by_problems, schedule_problems, validate,
}
use lab_kit.Manifest.Metrics.{
  AreDistinct, IsMetric, Names, nil_append, append_nil, report_nil, nil_report, metrics_sound,
  metrics_complete, seen_named, named_seen, In-IsMetric, IsNew,
}

-- A complete and consistent manifest.
pub record IsCorrect (m : Manifest) : Type 0 where
  pub safe_id : is_url_safe m.lab.id ≡ true
  pub named : is_empty m.lab.name ≡ false
  pub has_files : m.submit.files ≢ []
  pub has_image : is_empty m.eval.image ≡ false
  pub daily : pos 0 <ℤ m.quota.daily
  pub free : All (λ v. (v ≡ "build_failed") ⊎ (v ≡ "rejected")) m.quota.free
  pub has_metrics : m.metrics ≢ []
  pub metrics : All IsMetric m.metrics
  pub distinct : AreDistinct m.metrics
  pub ranked : Names m.board.rank_by m.metrics
  pub opens : m.schedule.opens ≢ 0
  pub closes : m.schedule.closes ≢ 0
  pub open_first : m.schedule.opens ≤ m.schedule.closes
  pub visible_first : m.schedule.visible ≤ m.schedule.opens

free_iff :
    (i : ℕ) (vs : List String)
    → (free_problems i vs ≡ []) ↔ All (λ v. (v ≡ "build_failed") ⊎ (v ≡ "rejected")) vs
unfolding free_problems
free_iff i [] = (λ _. tt, λ _. refl)
free_iff i (v ∷ vs) =
    let (to, from) = free_iff (suc i) vs in
    (
      (λ e. let (here, rest) = nil_append _ _ e in (known (report_nil _ _ here), to rest)),
      λ h. append_nil _ _ (nil_report _ _ (unknown h.0)) (from h.1),
    )
  where
    known :
        (not (str_eq v "build_failed") && not (str_eq v "rejected")) ≡ false
        → (v ≡ "build_failed") ⊎ (v ≡ "rejected")
    known e = ground (arith, eq_iff v "build_failed", eq_iff v "rejected")

    unknown :
        (v ≡ "build_failed") ⊎ (v ≡ "rejected")
        → (not (str_eq v "build_failed") && not (str_eq v "rejected")) ≡ false
    unknown h = ground (arith, eq_iff v "build_failed", eq_iff v "rejected")

id_iff : (id : String) → (lab_id_problems id ≡ []) ↔ (is_url_safe id ≡ true)
unfolding is_url_safe
id_iff String.[] = ground arith
id_iff (String.◌∷◌ c s) = ground arith

schedule_iff :
    (s : ScheduleSection)
    → s.opens ≢ 0
    → s.closes ≢ 0
    → (schedule_problems s ≡ []) ↔ ((s.opens ≤ s.closes) × (s.visible ≤ s.opens))
schedule_iff s p q = ground arith

is_nil_iff {ℓ} : {A : Type ℓ} (xs : List A) → (is_nil xs ≡ false) ↔ (xs ≢ [])
is_nil_iff [] = (λ e. cc, λ h. absurd (h refl))
is_nil_iff (x ∷ xs) = (λ _ e. cc, λ _. refl)

daily_iff : (d : ℤ) → (leb_ℤ d (pos 0) ≡ false) ↔ (pos 0 <ℤ d)
daily_iff d = ground arith

zero_iff : (t : ℕ) → (is_zero t ≡ false) ↔ (t ≢ 0)
zero_iff t = ground arith

always-IsNew : (ms : List MetricSection) → All (IsNew []) ms
always-IsNew [] = tt
always-IsNew (m ∷ ms) = (refl, always-IsNew ms)

validate_sound : (m : Manifest) → validate m ≡ [] → IsCorrect m
unfolding validate
validate_sound m e =
    let (id, e1) = nil_append _ _ e in
    let (name, e2) = nil_append _ _ e1 in
    let (files, e3) = nil_append _ _ e2 in
    let (image, e4) = nil_append _ _ e3 in
    let (daily, e5) = nil_append _ _ e4 in
    let (free, e6) = nil_append _ _ e5 in
    let (some_metric, e7) = nil_append _ _ e6 in
    let (opens, e8) = nil_append _ _ e7 in
    let (closes, e9) = nil_append _ _ e8 in
    let (metrics, e10) = nil_append _ _ e9 in
    let (rank, schedule) = nil_append _ _ e10 in
    let (good, distinct, _) = metrics_sound 0 m.metrics [] metrics in
    let open_set = (zero_iff _).0 (report_nil (is_zero m.schedule.opens) open_required opens) in
    let close_set = (zero_iff _).0 (report_nil (is_zero m.schedule.closes) close_required closes) in
    let order = (schedule_iff m.schedule open_set close_set).0 schedule in
    record {
      safe_id = (id_iff m.lab.id).0 id;
      named = report_nil (is_empty m.lab.name) lab_name_required name;
      has_files = (is_nil_iff _).0 (report_nil (is_nil m.submit.files) files_required files);
      has_image = report_nil (is_empty m.eval.image) image_required image;
      daily = (daily_iff _).0 (report_nil (leb_ℤ m.quota.daily (pos 0)) daily_not_positive daily);
      free = (free_iff 0 _).0 free;
      has_metrics = (is_nil_iff _).0 (report_nil (is_nil m.metrics) metrics_required some_metric);
      metrics = good;
      distinct = distinct;
      ranked = ranked_of rank;
      opens = open_set;
      closes = close_set;
      open_first = order.0;
      visible_first = order.1;
    }
  where
    ranked_of :
        rank_by_problems m.board.rank_by (seen_ids m.metrics []) ≡ []
        → Names m.board.rank_by m.metrics
    ranked_of h = elim (seen_named m.board.rank_by m.metrics [] (ground arith)) [
      | inl impossible ↦ cc impossible
      | inr names ↦ names
    ]

validate_complete : (m : Manifest) → IsCorrect m → validate m ≡ []
unfolding validate
validate_complete m c =
    let (k, listed, same) = c.ranked in
    let rank_set : is_empty m.board.rank_by ≡ false =
      rw (← same) (In-IsMetric k m.metrics listed c.metrics) in
    let seen : any (str_eq m.board.rank_by) (seen_ids m.metrics []) ≡ true =
      named_seen m.board.rank_by m.metrics [] rank_set c.ranked in
    append_nil _ _ ((id_iff m.lab.id).1 c.safe_id) (
      append_nil _ _ (nil_report (is_empty m.lab.name) lab_name_required c.named) (
        append_nil _ _
          (nil_report (is_nil m.submit.files) files_required ((is_nil_iff _).1 c.has_files))
          (append_nil _ _ (nil_report (is_empty m.eval.image) image_required c.has_image) (
            append_nil _ _
              (nil_report (leb_ℤ m.quota.daily (pos 0)) daily_not_positive
                ((daily_iff _).1 c.daily))
              (append_nil _ _ ((free_iff 0 _).1 c.free) (
                append_nil _ _
                  (nil_report (is_nil m.metrics) metrics_required ((is_nil_iff _).1 c.has_metrics))
                  (append_nil _ _
                    (nil_report (is_zero m.schedule.opens) open_required ((zero_iff _).1 c.opens))
                    (append_nil _ _
                      (nil_report (is_zero m.schedule.closes) close_required
                        ((zero_iff _).1 c.closes))
                      (append_nil _ _
                        (metrics_complete 0 m.metrics [] c.metrics c.distinct
                          (always-IsNew m.metrics))
                        (append_nil (rank_by_problems m.board.rank_by (seen_ids m.metrics [])) _
                          (rw (rank_set, seen) refl)
                          ((schedule_iff m.schedule c.opens c.closes).1
                            (c.open_first, c.visible_first))))))))))))

-- Validate reports no problem exactly for a correct manifest: a URL-safe lab id, a name, files, an
-- image, a positive daily quota, only build_failed and rejected as free verdicts, at least one
-- metric, metrics with pairwise distinct non-empty ids and a direction, a rank_by that names one of
-- them, both dates set, and visible <= open <= close.
pub validate_iff : (m : Manifest) → (validate m ≡ []) ↔ IsCorrect m
validate_iff m = (validate_sound m, validate_complete m)
