-- ===== src/Grades/Import.antt =====
-- What an import of grades stores: apps/api/internal/service/grade/service.go.
use mathlib.Core.Option
use lab_kit.Prelude.{
  ℕ, suc, ◌+◌, ◌≡◌, refl, sym, ap, ◌∙◌, String, Option, none, some, List, [], ◌∷◌, Bool, false,
  ◌&&◌, arith, find, if◌then◌else◌, str_eq, eq_iff, Bool-cases, inl, inr,
}
use lab_kit.Prelude.Text.{is_empty, trim_space}
use lab_kit.Prelude.Results.{Result, ok, err, Result-cases}
use lab_kit.Db.Grades.{GradeRow, GradeParams, is_row, upsert_grade}
use lab_kit.Grades.{
  Call, Error, Texts, Role, row_of, import_records, import_after, import_grades, plan_columns,
  upsert, driver, invalid_lab, missing_student_id,
}

-- What a student is shown of a row, and whether.
pub record Shown : Type 0 where
  pub total : Option String
  pub remark : Option String
  pub items : String
  pub published_at : Option ℕ

abbrev pub shown : GradeRow → Shown
shown r = record {
  total = r.total;
  remark = r.remark;
  items = r.items;
  published_at = r.published_at;
}

abbrev pub get_row : String → String → List GradeRow → Option GradeRow
get_row lab student = find (is_row lab student)

abbrev pub get_shown : String → String → List GradeRow → Option Shown
get_shown lab student rows = Option.map shown (get_row lab student rows)

-- When a row was published, if it was.
abbrev pub publication : Option Shown → Option ℕ
publication none = none
publication (some s) = s.published_at

-- A row that is imported over an old one: the published time stays.
abbrev pub imported_over : Option Shown → GradeParams → Shown
imported_over old p = record {
  total = p.total;
  remark = p.remark;
  items = p.items;
  published_at = publication old;
}

abbrev pub is_of : String → String → GradeParams → Bool
is_of lab student p = str_eq p.lab_id lab && str_eq p.student_id student

-- An upsert changes the row of its student in its lab, and no other.
upsert_grade_row :
    (now : ℕ) (p : GradeParams) (lab student : String) (rows : List GradeRow)
    → get_shown lab student (upsert_grade now p rows) ≡ (
        if is_of lab student p
        then some (imported_over (get_shown lab student rows) p)
        else get_shown lab student rows)
unfolding upsert_grade
upsert_grade_row now p lab student [] = elim (Bool-cases (is_of lab student p)) [
  | inl h ↦ rw h refl
  | inr h ↦ rw h refl
]
upsert_grade_row now p lab student (r ∷ rows) = elim (Bool-cases (is_row p.lab_id p.student_id r)) [
  | inl mine ↦
      let labs : r.lab_id ≡ p.lab_id = (eq_iff r.lab_id p.lab_id).0 (ground arith) in
      let students : r.student_id ≡ p.student_id =
        (eq_iff r.student_id p.student_id).0 (ground arith) in
      elim (Bool-cases (is_of lab student p)) [
        | inl h ↦ rw (mine, h, labs, students, h) refl
        | inr h ↦ rw (mine, h, labs, students, h) refl
      ]
  | inr other ↦ elim (Bool-cases (is_row lab student r)) [
    | inr h ↦ rw (other, h) (upsert_grade_row now p lab student rows)
    | inl h ↦
        let labs : r.lab_id ≡ lab = (eq_iff r.lab_id lab).0 (ground arith) in
        let students : r.student_id ≡ student = (eq_iff r.student_id student).0 (ground arith) in
        let not_it : is_of lab student p ≡ false = ground (
          arith,
          eq_iff r.lab_id p.lab_id,
          eq_iff r.student_id p.student_id,
          eq_iff p.lab_id lab,
          eq_iff p.student_id student,
        ) in
        rw (other, h, not_it) refl
  ]
]

-- The row that a record stands for, for one student.
abbrev pub for_student : String → String → Result Error (Option GradeParams) → Option GradeParams
for_student lab student (err e) = none
for_student lab student (ok none) = none
for_student lab student (ok (some p)) = if is_of lab student p then some p else none

abbrev pub or_else : {A : Type 0} → Option A → Option A → Option A
or_else none b = b
or_else (some a) b = some a

abbrev pub counted : Result Error (Option GradeParams) → ℕ
counted (ok (some p)) = 1
counted (ok none) = 0
counted (err e) = 0

abbrev pub over : Option Shown → Option GradeParams → Option Shown
over old none = old
over old (some p) = some (imported_over old p)

over-over :
    (old : Option Shown) (a b : Option GradeParams) → over (over old a) b ≡ over old (or_else b a)
over-over old none none = refl
over-over old none (some q) = refl
over-over old (some p) none = refl
over-over old (some p) (some q) = refl

or_else-none : (a : Option GradeParams) → or_else a none ≡ a
or_else-none none = refl
or_else-none (some p) = refl

module _ (texts : Texts) (lab : String) (plan : List Role) (index : ℕ) where
  -- The last record of a student, and the number of records that have a row.
  pub last_record : String → String → List (List String) → Option GradeParams
  last_record l student [] = none
  last_record l student (fields ∷ records) =
      or_else (last_record l student records)
        (for_student l student (row_of texts lab plan index fields))

  pub rows_in : List (List String) → ℕ
  rows_in [] = 0
  rows_in (fields ∷ records) = counted (row_of texts lab plan index fields) + rows_in records

  module _ (fails : Call → Bool) (now : ℕ → ℕ) (ends : Bool) where
    -- What an import leaves of each student's row, and its answer.
    abbrev Imports : ℕ → List (List String) → List GradeRow → ℕ → List GradeRow → Type 0
    Imports n records rows total rows' =
        (total ≡ n + rows_in records)
        × ((l student : String)
            → get_shown l student rows'
              ≡ over (get_shown l student rows) (last_record l student records))

    stored_row :
        (n : ℕ) (p : GradeParams) (l student : String) (rows : List GradeRow)
        → get_shown l student (upsert_grade (now n) p rows)
          ≡ over (get_shown l student rows) (for_student l student (ok (some p)))
    stored_row n p l student rows =
        upsert_grade_row (now n) p l student rows
        ∙ (elim (Bool-cases (is_of l student p)) [ inl h ↦ rw h refl | inr h ↦ rw h refl ])

    import_records-Imports :
        (n : ℕ) (records : List (List String)) (rows : List GradeRow) (total : ℕ)
        (rows' : List GradeRow)
        → import_records texts fails now lab plan index ends n records rows ≡ (ok total, rows')
        → Imports n records rows total rows'
    unfolding import_records last_record rows_in
    import_records-Imports n [] rows total rows' e =
        let same : rows' ≡ rows = ground arith in
        (ground arith, λ l student. ap (get_shown l student) same)
    import_records-Imports n (fields ∷ records) rows total rows' e =
        elim (Result-cases (row_of texts lab plan index fields)) [
          | inr (x, h) ↦ absurd (failed x (rw (h, import_records) at e))
          | inl (none, h) ↦
              let (sum, rest) =
                import_records-Imports n records rows total rows' (rw (h, import_records) at e) in
              rw h (
                ground arith,
                λ l student.
                    rest l student
                    ∙ ap (over (get_shown l student rows))
                        (sym (or_else-none (last_record l student records))),
              )
          | inl (some p, h) ↦ elim (Bool-cases (fails (upsert p.student_id))) [
            | inl down ↦
                absurd (failed (driver (upsert p.student_id)) (rw (h, down, import_records) at e))
            | inr up ↦
                let (sum, rest) =
                  import_records-Imports (suc n) records (upsert_grade (now n) p rows) total rows'
                    (rw (h, up, import_records) at e) in
                rw h (
                  ground arith,
                  λ l student.
                      rest l student
                      ∙ ap (λ (old : Option Shown). over old (last_record l student records))
                          (stored_row n p l student rows)
                      ∙ over-over (get_shown l student rows) (for_student l student (ok (some p)))
                          (last_record l student records),
                )
          ]
        ]
      where
        failed :
            (x : Error)
            → ◌≡◌ {A = Result Error ℕ × List GradeRow} (err x, rows) (ok total, rows')
            → ⊥
        failed x h = ground arith

-- An import that succeeds: the header has a key, the answer is the number of records with a student,
-- and for every lab and student the row is that of the last such record of the student in this lab, or
-- as it was without one. A row that was published stays so, with its new contents.
pub import_grades-last :
    (texts : Texts) (fails : Call → Bool) (now : ℕ → ℕ) (lab : String) (ends : Bool)
    (header : List String) (records : List (List String)) (rows rows' : List GradeRow) (total : ℕ)
    → import_grades texts fails now lab ends (header ∷ records) rows ≡ (ok total, rows')
    → (plan : List Role) × (index : ℕ) × (plan_columns texts header ≡ (plan, some index))
      × (total ≡ rows_in texts (trim_space lab) plan index records)
      × ((l student : String)
          → get_shown l student rows'
            ≡ over
                (get_shown l student rows)
                (last_record texts (trim_space lab) plan index l student records))
unfolding import_grades import_after
import_grades-last texts fails now lab ends header records rows rows' total e =
    elim (Bool-cases (is_empty (trim_space lab))) [
      | inl blank ↦ absurd (failed invalid_lab (rw (blank, import_grades) at e))
      | inr named ↦ by_plan (plan_columns texts header) refl (rw (named, import_grades) at e)
    ]
  where
    failed :
        (x : Error) → ◌≡◌ {A = Result Error ℕ × List GradeRow} (err x, rows) (ok total, rows') → ⊥
    failed x h = ground arith

    by_plan :
        (c : List Role × Option ℕ)
        → plan_columns texts header ≡ c
        → import_after texts fails now (trim_space lab) c ends records rows ≡ (ok total, rows')
        → (plan : List Role) × (index : ℕ) × (plan_columns texts header ≡ (plan, some index))
          × (total ≡ rows_in texts (trim_space lab) plan index records)
          × ((l student : String)
              → get_shown l student rows'
                ≡ over
                    (get_shown l student rows)
                    (last_record texts (trim_space lab) plan index l student records))
    by_plan (plan, none) h g = absurd (failed missing_student_id g)
    by_plan (plan, some index) h g =
        let (sum, each) =
          import_records-Imports texts (trim_space lab) plan index fails now ends 0 records rows
            total rows' g in
        (plan, index, h, ground arith, each)
