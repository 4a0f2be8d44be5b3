-- ===== src/Grades/Plan.antt =====
-- The plan of the columns of an import: planColumns of apps/api/internal/service/grade/service.go.
use lab_kit.Prelude.{
  ℕ, suc, ◌+◌, ◌≤◌, ◌≡◌, refl, ap, ◌∙◌, String, Option, none, some, List, [], ◌∷◌, Bool, true,
  false, ◌&&◌, not, arith, count, length, if◌then◌else◌, str_eq, Bool-cases, inl, inr, ◌⊎◌,
}
use lab_kit.Prelude.Text.{is_empty, trim_space}
use lab_kit.Grades.{
  Texts, Role, ignored, student_key, headline, note, free_item, Taken, trim_mark, total_aliases,
  remark_aliases, listed, is_none, classify, plan_from, plan_columns,
}

abbrev pub is_headline : Role → Bool
is_headline headline = true
is_headline _ = false

abbrev pub is_note : Role → Bool
is_note note = true
is_note _ = false

abbrev pub or_else : Option ℕ → Option ℕ → Option ℕ
or_else none b = b
or_else (some a) b = some a

abbrev left : Bool → ℕ
left true = 0
left false = 1

module _ (texts : Texts) where
  abbrev pub key_of : String → String
  key_of raw = texts.lower (trim_mark (trim_space raw))

  -- The first column with the key `student_id`.
  pub first_key : ℕ → List String → Option ℕ
  first_key i [] = none
  first_key i (raw ∷ header) =
      let rest = first_key (suc i) header in
      if str_eq (key_of raw) "student_id" then some i else rest

  empty_not_key : (s : String) → is_empty s ≡ true → str_eq s "student_id" ≡ false
  empty_not_key String.[] e = refl
  empty_not_key (String.◌∷◌ c s) e = absurd (ground arith)

  not_taken : (b x : Bool) → (not b && x) ≡ true → b ≡ false
  not_taken false x e = refl
  not_taken true x e = absurd (ground arith)

  abbrev is_new_key : Taken → String → Bool
  is_new_key t key = str_eq key "student_id" && is_none t.student

  -- The five cases of the switch.
  classify_cases :
      (t : Taken) (i : ℕ) (label : String)
      → ((is_empty (texts.lower label) ≡ true) × (classify texts t i label ≡ (ignored, t)))
        ⊎ ((is_new_key t (texts.lower label) ≡ true)
            × (classify texts t i label ≡ (student_key, record t { student = some i })))
        ⊎ ((is_new_key t (texts.lower label) ≡ false)
            × (t.headline ≡ false)
            × (classify texts t i label ≡ (headline, record t { headline = true })))
        ⊎ ((is_new_key t (texts.lower label) ≡ false)
            × (t.note ≡ false)
            × (classify texts t i label ≡ (note, record t { note = true })))
        ⊎ ((is_new_key t (texts.lower label) ≡ false)
            × (classify texts t i label ≡ (free_item label, t)))
  classify_cases t i label = elim (Bool-cases (is_empty (texts.lower label))) [
    | inl e ↦ inl (e, rw e refl)
    | inr e ↦ elim (Bool-cases (is_new_key t (texts.lower label))) [
      | inl k ↦ inr (inl (k, rw (e, k) refl))
      | inr k ↦ elim (Bool-cases (not t.headline && listed total_aliases (texts.lower label))) [
        | inl h ↦ inr (inr (inl (k, not_taken t.headline _ h, rw (e, k, h) refl)))
        | inr h ↦ elim (Bool-cases (not t.note && listed remark_aliases (texts.lower label))) [
          | inl n ↦ inr (inr (inr (inl (k, not_taken t.note _ n, rw (e, k, h, n) refl))))
          | inr n ↦ inr (inr (inr (inr (k, rw (e, k, h, n) refl))))
        ]
      ]
    ]
  ]

  key_first :
      (old : Option ℕ) (b : Bool) (i : ℕ) (rest : Option ℕ)
      → (b && is_none old) ≡ true
      → or_else (some i) rest ≡ or_else old (if b then some i else rest)
  key_first none true i rest e = refl
  key_first none false i rest e = absurd (ground arith)
  key_first (some a) b i rest e = absurd (ground arith)

  key_later :
      (old : Option ℕ) (b : Bool) (i : ℕ) (rest : Option ℕ)
      → (b && is_none old) ≡ false
      → or_else old rest ≡ or_else old (if b then some i else rest)
  key_later none false i rest e = refl
  key_later none true i rest e = absurd (ground arith)
  key_later (some a) b i rest e = refl

  classify_student :
      (t : Taken) (i : ℕ) (label : String) (rest : Option ℕ)
      → or_else (classify texts t i label).1.student rest
        ≡ or_else t.student (if str_eq (texts.lower label) "student_id" then some i else rest)
  classify_student t i label rest =
      let b = str_eq (texts.lower label) "student_id" in
      elim (classify_cases t i label) [
        | inl (e, c) ↦ rw (c, empty_not_key (texts.lower label) e) refl
        | inr (inl (k, c)) ↦ rw c (key_first t.student b i rest k)
        | inr (inr (inl (k, _, c))) ↦ rw c (key_later t.student b i rest k)
        | inr (inr (inr (inl (k, _, c)))) ↦ rw c (key_later t.student b i rest k)
        | inr (inr (inr (inr (k, c)))) ↦ rw c (key_later t.student b i rest k)
      ]

  abbrev count_of : (Role → Bool) → Role → ℕ
  count_of p role = if p role then 1 else 0

  classify_counts :
      (t : Taken) (i : ℕ) (label : String)
      → (count_of is_headline (classify texts t i label).0
            + left (classify texts t i label).1.headline
          ≤ left t.headline)
        × (count_of is_note (classify texts t i label).0 + left (classify texts t i label).1.note
            ≤ left t.note)
  classify_counts t i label = elim (classify_cases t i label) [
    | inl (e, c) ↦ rw c (omega arith, omega arith)
    | inr (inl (k, c)) ↦ rw c (omega arith, omega arith)
    | inr (inr (inl (k, h, c))) ↦ rw (c, h) (omega arith, omega arith)
    | inr (inr (inr (inl (k, n, c)))) ↦ rw (c, n) (omega arith, omega arith)
    | inr (inr (inr (inr (k, c)))) ↦ rw c (omega arith, omega arith)
  ]

  counted_in :
      (b : Bool) (c l m : ℕ) → c ≤ l → (if b then 1 else 0) + l ≤ m → (if b then suc c else c) ≤ m
  counted_in true c l m h k = omega (arith, h, k)
  counted_in false c l m h k = omega (arith, h, k)

  -- What the plan of the remaining columns comes to.
  abbrev IsPlan : Taken → ℕ → List String → List Role × Option ℕ → Type 0
  IsPlan t i header r =
      (r.1 ≡ or_else t.student (first_key i header))
      × (length r.0 ≡ length header)
      × (count is_headline r.0 ≤ left t.headline)
      × (count is_note r.0 ≤ left t.note)

  plan_from-IsPlan :
      (t : Taken) (i : ℕ) (header : List String) → IsPlan t i header (plan_from texts t i header)
  unfolding plan_from first_key
  plan_from-IsPlan t i [] = (keep_key t.student, refl, omega arith, omega arith)
    where
      keep_key : (o : Option ℕ) → o ≡ or_else o none
      keep_key none = refl
      keep_key (some a) = refl
  plan_from-IsPlan t i (raw ∷ header) =
      let (key, len, heads, notes) =
        plan_from-IsPlan (classify texts t i (trim_mark (trim_space raw))).1 (suc i) header in
      let (h, n) = classify_counts t i (trim_mark (trim_space raw)) in
      (
        key ∙ classify_student t i (trim_mark (trim_space raw)) (first_key (suc i) header),
        ap suc len,
        counted_in (is_headline (classify texts t i (trim_mark (trim_space raw))).0) _ _ _ heads h,
        counted_in (is_note (classify texts t i (trim_mark (trim_space raw))).0) _ _ _ notes n,
      )

  -- The plan of a header: a role for each column, at most one headline and one note, and the column of
  -- the student's key is the first one whose trimmed header, without a byte order mark and in lower case,
  -- is `student_id`; there is no key exactly if there is no such column.
  pub plan_columns-first_key :
      (header : List String)
      → ((plan_columns texts header).1 ≡ first_key 0 header)
        × (length (plan_columns texts header).0 ≡ length header)
        × (count is_headline (plan_columns texts header).0 ≤ 1)
        × (count is_note (plan_columns texts header).0 ≤ 1)
  unfolding plan_columns
  plan_columns-first_key header =
      plan_from-IsPlan (record { student = none; headline = false; note = false }) 0 header
