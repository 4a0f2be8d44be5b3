-- ===== src/Labs/Structure.antt =====
-- What an update of a lab may not change: sameStructure of apps/api/internal/service/labs/service.go.
use lab_kit.Prelude.{
  suc, ◌≡◌, refl, ap, String, List, [], ◌∷◌, true, arith, ◌==◌, ==_iff, length, map, str_eq, eq_iff,
  ◌↔◌,
}
use lab_kit.Manifest.{Manifest, MetricSection}
use lab_kit.Labs.{sort_text, same_files, same_metrics, same_structure}

-- The files, their size, the metric that ranks, and the ids and directions of the metrics.
pub record Structure : Type 0 where
  pub max_size : String
  pub files : List String
  pub rank_by : String
  pub metrics : List (String × String)

abbrev pub metric_of : MetricSection → String × String
metric_of m = (m.id, sort_text m.sort)

abbrev pub structure_of : Manifest → Structure
structure_of m = record {
  max_size = m.submit.max_size;
  files = m.submit.files;
  rank_by = m.board.rank_by;
  metrics = map metric_of m.metrics;
}

files_equal : (fs gs : List String) → length fs ≡ length gs → same_files fs gs ≡ true → fs ≡ gs
unfolding same_files
files_equal [] [] n e = refl
files_equal [] (g ∷ gs) n e = absurd (ground arith)
files_equal (f ∷ fs) [] n e = absurd (ground arith)
files_equal (f ∷ fs) (g ∷ gs) n e =
    let rest = files_equal fs gs (ground arith) (ground arith) in
    let head : f ≡ g = (eq_iff f g).0 (ground arith) in rw (head, rest) refl

files_same : (fs : List String) → same_files fs fs ≡ true
unfolding same_files
files_same [] = refl
files_same (f ∷ fs) = rw ((eq_iff f f).1 refl) (files_same fs)

metrics_equal :
    (ms ns : List MetricSection)
    → length ms ≡ length ns
    → same_metrics ms ns ≡ true
    → map metric_of ms ≡ map metric_of ns
unfolding same_metrics
metrics_equal [] [] n e = refl
metrics_equal [] (g ∷ ns) n e = absurd (ground arith)
metrics_equal (m ∷ ms) [] n e = absurd (ground arith)
metrics_equal (m ∷ ms) (k ∷ ns) n e =
    let ids : str_eq m.id k.id ≡ true = ground arith in
    let sorts : str_eq (sort_text m.sort) (sort_text k.sort) ≡ true = ground arith in
    let rest = metrics_equal ms ns (ground arith) (ground arith) in
    rw ((eq_iff m.id k.id).0 ids, (eq_iff (sort_text m.sort) (sort_text k.sort)).0 sorts, rest) refl

metrics_same :
    (ms ns : List MetricSection)
    → map metric_of ms ≡ map metric_of ns
    → (length ms ≡ length ns) × (same_metrics ms ns ≡ true)
unfolding same_metrics
metrics_same [] [] e = (refl, refl)
metrics_same [] (k ∷ ns) e = absurd (ground arith)
metrics_same (m ∷ ms) [] e = absurd (ground arith)
metrics_same (m ∷ ms) (k ∷ ns) e =
    let ids : m.id ≡ k.id = ground arith in
    let sorts : sort_text m.sort ≡ sort_text k.sort = ground arith in
    let (n, rest) = metrics_same ms ns (ground arith) in
    (
      ap suc n,
      rw ((eq_iff m.id k.id).1 ids, (eq_iff (sort_text m.sort) (sort_text k.sort)).1 sorts) rest,
    )

-- sameStructure holds exactly of manifests with one structure: the same files in the same order, the
-- same size, the same metric to rank by, and metrics with the same ids and directions in the same order.
pub same_structure_iff :
    (a b : Manifest) → (same_structure a b ≡ true) ↔ (structure_of a ≡ structure_of b)
unfolding same_structure
same_structure_iff a b = (forth, back)
  where
    forth : same_structure a b ≡ true → structure_of a ≡ structure_of b
    forth e =
        let size : str_eq a.submit.max_size b.submit.max_size ≡ true = ground arith in
        let files = files_equal a.submit.files b.submit.files (ground arith) (ground arith) in
        let rank : str_eq a.board.rank_by b.board.rank_by ≡ true = ground arith in
        let metrics = metrics_equal a.metrics b.metrics (ground arith) (ground arith) in
        rw
          (
            (eq_iff a.submit.max_size b.submit.max_size).0 size,
            files,
            (eq_iff a.board.rank_by b.board.rank_by).0 rank,
            metrics,
          )
          refl

    back : structure_of a ≡ structure_of b → same_structure a b ≡ true
    back e =
        let size =
          (eq_iff a.submit.max_size b.submit.max_size).1 (ap (λ (s : Structure). s.max_size) e) in
        let files : a.submit.files ≡ b.submit.files = ap (λ (s : Structure). s.files) e in
        let rank =
          (eq_iff a.board.rank_by b.board.rank_by).1 (ap (λ (s : Structure). s.rank_by) e) in
        let (n, metrics) = metrics_same a.metrics b.metrics (ap (λ (s : Structure). s.metrics) e) in
        let long : (length a.submit.files == length b.submit.files) ≡ true =
          (==_iff _ _).1 (ap length files) in
        let all_files : same_files a.submit.files b.submit.files ≡ true =
          rw files (files_same b.submit.files) in
        rw (size, long, all_files, (==_iff (length a.metrics) (length b.metrics)).1 n, rank) metrics
