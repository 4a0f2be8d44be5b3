-- ===== src/Manifest/Metrics.antt =====
-- The loop of Validate over the metrics, and lists of problems: packages/go/manifest/validate.go.
use lab_kit.Prelude.{
  ℕ, suc, ◌≡◌, refl, ◌≢◌, ◌⊎◌, inl, inr, String, List, [], ◌∷◌, ◌++◌, Bool, true, false, ◌&&◌, not,
  any, All, All-imp, In, arith, str_eq, eq_iff, Bool-cases, sym, ap,
}
use lab_kit.Prelude.Text.{is_empty}
use lab_kit.Manifest.{MetricSort, asc, desc, MetricSection}
use lab_kit.Manifest.Validate.{Problem, report, is_sort, seen_with, metric_problems, seen_ids}

-- No two metrics share an id.
abbrev pub AreDistinct : List MetricSection → Type 0
AreDistinct [] = Unit
AreDistinct (m ∷ ms) = All (λ k. k.id ≢ m.id) ms × AreDistinct ms

abbrev pub IsMetric : MetricSection → Type 0
IsMetric m = (is_empty m.id ≡ false) × ((m.sort ≡ asc) ⊎ (m.sort ≡ desc))

pub nil_append {ℓ} : {A : Type ℓ} (xs ys : List A) → xs ++ ys ≡ [] → (xs ≡ []) × (ys ≡ [])
nil_append [] ys e = (refl, e)
nil_append (x ∷ xs) ys e = cc

pub append_nil {ℓ} : {A : Type ℓ} (xs ys : List A) → xs ≡ [] → ys ≡ [] → xs ++ ys ≡ []
append_nil xs ys p q = rw (p, q)

pub report_nil : (b : Bool) (p : Problem) → report b p ≡ [] → b ≡ false
report_nil true p e = cc
report_nil false p e = refl

pub nil_report : (b : Bool) (p : Problem) → b ≡ false → report b p ≡ []
nil_report b p e = rw e

-- The id of a metric is not among those seen.
abbrev pub IsNew : List String → MetricSection → Type 0
IsNew seen m = any (str_eq m.id) seen ≡ false

pub metrics_sound :
    (i : ℕ) (ms : List MetricSection) (seen : List String)
    → metric_problems i ms seen ≡ []
    → All IsMetric ms × AreDistinct ms × All (IsNew seen) ms
unfolding metric_problems
metrics_sound i [] seen e = (tt, tt, tt)
metrics_sound i (m ∷ ms) seen e =
    let (here, rest) = nil_append _ _ e in
    let (no_empty, others) = nil_append _ _ here in
    let (no_sort, no_twice) = nil_append _ _ others in
    let named = report_nil _ _ no_empty in
    let (good, distinct, new) = metrics_sound (suc i) ms (m.id ∷ seen) (rw named at rest) in
    (
      ((named, sorted m.sort (report_nil _ _ no_sort)), good),
      (All-imp (λ k h. other_id k h) ms new, distinct),
      (new_here named (report_nil _ _ no_twice), All-imp (λ k h. new_there k h) ms new),
    )
  where
    sorted : (s : MetricSort) → not (is_sort s) ≡ false → (s ≡ asc) ⊎ (s ≡ desc)
    sorted s h = ground arith

    other_id : (k : MetricSection) → IsNew (m.id ∷ seen) k → k.id ≢ m.id
    other_id k h = ground (arith, eq_iff k.id m.id)

    new_there : (k : MetricSection) → IsNew (m.id ∷ seen) k → IsNew seen k
    new_there k h = ground arith

    new_here :
        is_empty m.id ≡ false
        → (not (is_empty m.id) && any (str_eq m.id) seen) ≡ false
        → IsNew seen m
    new_here p q = ground arith

pub metrics_complete :
    (i : ℕ) (ms : List MetricSection) (seen : List String)
    → All IsMetric ms
    → AreDistinct ms
    → All (IsNew seen) ms
    → metric_problems i ms seen ≡ []
unfolding metric_problems
metrics_complete i [] seen good distinct new = refl
metrics_complete i (m ∷ ms) seen (here, good) (apart, distinct) (first, new) =
    let rest : metric_problems (suc i) ms (m.id ∷ seen) ≡ [] =
      metrics_complete (suc i) ms (m.id ∷ seen) good distinct (both ms apart new) in
    rw (here.0, sorted m.sort here.1, first) rest
  where
    sorted : (s : MetricSort) → (s ≡ asc) ⊎ (s ≡ desc) → is_sort s ≡ true
    sorted s h = ground arith

    both_one : (k : MetricSection) → k.id ≢ m.id → IsNew seen k → IsNew (m.id ∷ seen) k
    both_one k p q = ground (arith, eq_iff k.id m.id)

    both :
        (ks : List MetricSection)
        → All (λ k. k.id ≢ m.id) ks
        → All (IsNew seen) ks
        → All (IsNew (m.id ∷ seen)) ks
    both [] p q = tt
    both (k ∷ ks) p q = (both_one k p.0 q.0, both ks p.1 q.1)

abbrev pub Names : String → List MetricSection → Type 0
Names id ms = (k : MetricSection) × In k ms × (k.id ≡ id)

pub seen_named :
    (id : String) (ms : List MetricSection) (seen : List String)
    → any (str_eq id) (seen_ids ms seen) ≡ true
    → (any (str_eq id) seen ≡ true) ⊎ Names id ms
unfolding seen_ids
seen_named id [] seen e = inl e
seen_named id (m ∷ ms) seen e = elim (seen_named id ms (seen_with m seen) e) [
  | inl before ↦ elim (Bool-cases (is_empty m.id)) [
    | inl unnamed ↦ inl (rw unnamed at before)
    | inr named ↦ elim (Bool-cases (str_eq id m.id)) [
      | inl same ↦ inr (m, inl refl, sym ((eq_iff id m.id).0 same))
      | inr other ↦ inl (rw (named, other) at before)
    ]
  ]
  | inr (k, listed, same) ↦ inr (k, inr listed, same)
]

any-seen :
    (id : String) (ms : List MetricSection) (seen : List String)
    → any (str_eq id) seen ≡ true
    → any (str_eq id) (seen_ids ms seen) ≡ true
unfolding seen_ids
any-seen id [] seen e = e
any-seen id (m ∷ ms) seen e = any-seen id ms (seen_with m seen) (ground arith)

pub named_seen :
    (id : String) (ms : List MetricSection) (seen : List String)
    → is_empty id ≡ false
    → Names id ms
    → any (str_eq id) (seen_ids ms seen) ≡ true
unfolding seen_ids
named_seen id [] seen e (k, listed, same) = absurd listed
named_seen id (m ∷ ms) seen e (k, inl it, same) =
    any-seen id ms (seen_with m seen) (here (ap (λ (x : MetricSection). x.id) it))
  where
    here : k.id ≡ m.id → any (str_eq id) (seen_with m seen) ≡ true
    here p = ground (arith, eq_iff id m.id)
named_seen id (m ∷ ms) seen e (k, inr listed, same) =
    named_seen id ms (seen_with m seen) e (k, listed, same)

pub In-IsMetric :
    (k : MetricSection) (ms : List MetricSection)
    → In k ms
    → All IsMetric ms
    → is_empty k.id ≡ false
In-IsMetric k [] m h = absurd m
In-IsMetric k (x ∷ ms) (inl e) h = rw e h.0.0
In-IsMetric k (x ∷ ms) (inr m) h = In-IsMetric k ms m h.1
