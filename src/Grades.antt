-- ===== src/Grades.antt =====
-- Importing, publishing and showing final grades: apps/api/internal/service/grade/service.go. What
-- csv.Reader reads is given as a list of records, and whether it ends with io.EOF; strings.ToLower and
-- JSON are parameters. `fails` says which calls of the database return an error, and `now n` is NOW() of
-- the n-th row that an import stores.
pub mod Plan
pub mod Import
mod Tests
use Prim.Native.Char.{code}
use lab_kit.Prelude.{
  ℕ, zero, suc, ◌-◌, String, Option, none, some, List, [], ◌∷◌, ◌++◌, Bool, true, false, ◌&&◌, ◌||◌,
  not, any, ◌==◌, if◌then◌else◌, str_eq,
}
use lab_kit.Prelude.Text.{is_empty, trim_space}
use lab_kit.Prelude.Results.{Result, ok, err, ◌>>=◌, ◌>>◌, guard}
use lab_kit.Db.Grades.{
  GradeRow, GradeParams, upsert_grade, get_final_grade, list_published, publish_grades,
  delete_grades, summarize,
}

pub data Call : Type 0 where
  get list_rows publish delete status : Call
  upsert : String → Call

pub data Error : Type 0 where
  grade_not_found invalid_lab empty_csv malformed_csv missing_student_id marshal undecodable : Error
  driver : Call → Error

pub record GradeItem : Type 0 where
  pub label : String
  pub value : String

-- strings.ToLower, json.Marshal and json.Unmarshal.
pub record Texts : Type 0 where
  pub lower : String → String
  pub encode : List GradeItem → Option String
  pub decode : String → Option (List GradeItem)

-- Grade
pub record Grade : Type 0 where
  pub lab_id : String
  pub student_id : String
  pub total : String
  pub items : List GradeItem
  pub remark : String
  pub published_at : Option ℕ
  pub updated_at : ℕ

-- The roles of columns, with the label of a free column.
pub data Role : Type 0 where
  ignored student_key headline note : Role
  free_item : String → Role

abbrev pub total_aliases : List String
total_aliases = "total" ∷ "score" ∷ "grade" ∷ "总评" ∷ "总分" ∷ "成绩" ∷ []

abbrev pub remark_aliases : List String
remark_aliases = "remark" ∷ "note" ∷ "comment" ∷ "备注" ∷ "说明" ∷ []

abbrev pub listed : List String → String → Bool
listed names key = any (λ n. str_eq n key) names

-- strings.TrimPrefix of a byte order mark.
abbrev pub trim_mark : String → String
trim_mark String.[] = ""
trim_mark (String.◌∷◌ c s) = if code c == 0xfeff then s else String.◌∷◌ c s

-- What planColumns has taken: the column of the key, the headline and the note.
pub record Taken : Type 0 where
  pub student : Option ℕ
  pub headline : Bool
  pub note : Bool

abbrev pub is_none {ℓ} : {A : Type ℓ} → Option A → Bool
is_none none = true
is_none (some a) = false

module _ (texts : Texts) where
  -- The switch of planColumns.
  abbrev pub classify : Taken → ℕ → String → Role × Taken
  classify t i label =
      if is_empty (texts.lower label)
      then (ignored, t)
      else if str_eq (texts.lower label) "student_id" && is_none t.student
      then (student_key, record t { student = some i })
      else if not t.headline && listed total_aliases (texts.lower label)
      then (headline, record t { headline = true })
      else if not t.note && listed remark_aliases (texts.lower label)
      then (note, record t { note = true })
      else (free_item label, t)

  unfoldable pub plan_from : Taken → ℕ → List String → List Role × Option ℕ
  plan_from t i [] = ([], t.student)
  plan_from t i (raw ∷ header) =
      let (role, t') = classify t i (trim_mark (trim_space raw)) in
      let (plan, index) = plan_from t' (suc i) header in (role ∷ plan, index)

  -- planColumns; a missing key is none.
  unfoldable pub plan_columns : List String → List Role × Option ℕ
  unfolding plan_from
  plan_columns = plan_from (record { student = none; headline = false; note = false }) 0

  -- `cell`
  unfoldable pub cell : ℕ → List String → String
  unfolding trim_space
  cell i [] = ""
  cell zero (field ∷ record') = trim_space field
  cell (suc i) (field ∷ record') = cell i record'

  -- What the loop of buildGradeParams collects.
  pub record Filled : Type 0 where
    pub total : String
    pub remark : String
    pub items : List GradeItem

  abbrev pub fill_cell : Role → String → Filled → Filled
  fill_cell headline value f = record f { total = value }
  fill_cell note value f = record f { remark = value }
  fill_cell (free_item label) value f =
      if is_empty value
      then f
      else record f { items = f.items ++ record { label = label; value = value } ∷ [] }
  fill_cell _ value f = f

  unfoldable pub fill : List Role → ℕ → List String → Filled → Filled
  unfolding cell
  fill [] i fields f = f
  fill (role ∷ plan) i fields f = fill plan (suc i) fields (fill_cell role (cell i fields) f)

  -- optionalText
  abbrev pub optional_text : String → Option String
  optional_text s = if is_empty s then none else some s

  -- buildGradeParams; none is a blank student id.
  unfoldable pub build_grade_params :
      String → List Role → ℕ → List String → Result Error (Option GradeParams)
  unfolding fill cell
  build_grade_params lab plan index fields =
      if is_empty (cell index fields)
      then ok none
      else (let f = fill plan 0 fields (record { total = ""; remark = ""; items = [] }) in
          elim (texts.encode f.items) [
            | none ↦ err marshal
            | some items ↦ ok (
                some (record {
                  lab_id = lab;
                  student_id = cell index fields;
                  total = optional_text f.total;
                  remark = optional_text f.remark;
                  items = items;
                }))
          ])

  -- isBlankRecord
  unfoldable pub is_blank_record : List String → Bool
  unfolding trim_space
  is_blank_record [] = true
  is_blank_record (field ∷ fields) =
      if is_empty (trim_space field) then is_blank_record fields else false

  -- A record's row, if it has one.
  abbrev pub row_of : String → List Role → ℕ → List String → Result Error (Option GradeParams)
  row_of lab plan index fields =
      if is_blank_record fields then ok none else build_grade_params lab plan index fields

  module _ (fails : Call → Bool) where
    abbrev pub call : Call → Result Error (Unit {0})
    call c = if fails c then err (driver c) else ok tt

    -- The loop of ImportGrades: every upsert is committed by itself.
    unfoldable pub import_records :
        (ℕ → ℕ)
        → String
        → List Role
        → ℕ
        → Bool
        → ℕ
        → List (List String)
        → List GradeRow
        → Result Error ℕ × List GradeRow
    import_records now lab plan index ends n [] rows =
        (if ends then ok n else err malformed_csv, rows)
    import_records now lab plan index ends n (fields ∷ records) rows =
        elim (row_of lab plan index fields) [
          | err e ↦ (err e, rows)
          | ok found ↦ elim found [
            | none ↦ import_records now lab plan index ends n records rows
            | some p ↦ elim (fails (upsert p.student_id)) [
              | true ↦ (err (driver (upsert p.student_id)), rows)
              | false ↦
                  import_records now lab plan index ends (suc n) records
                    (upsert_grade (now n) p rows)
            ]
          ]
        ]

    -- What follows the header.
    unfoldable pub import_after :
        (ℕ → ℕ)
        → String
        → List Role × Option ℕ
        → Bool
        → List (List String)
        → List GradeRow
        → Result Error ℕ × List GradeRow
    import_after now lab (plan, none) ends records rows = (err missing_student_id, rows)
    import_after now lab (plan, some index) ends records rows =
        import_records now lab plan index ends 0 records rows

    -- ImportGrades
    unfoldable pub import_grades :
        (ℕ → ℕ)
        → String
        → Bool
        → List (List String)
        → List GradeRow
        → Result Error ℕ × List GradeRow
    import_grades now lab ends records rows =
        if is_empty (trim_space lab) then (err invalid_lab, rows) else (elim records [
          | [] ↦ (err (if ends then empty_csv else malformed_csv), rows)
          | ◌∷◌ header rest ↦ import_after now (trim_space lab) (plan_columns header) ends rest rows
        ])

    abbrev pub text_or_blank : Option String → String
    text_or_blank none = ""
    text_or_blank (some s) = trim_space s

    -- gradeFromRow
    unfoldable pub grade_from_row : GradeRow → Result Error Grade
    unfolding trim_space
    grade_from_row r = do
      items ←
          if is_empty r.items
          then ok []
          else (elim (texts.decode r.items) [ none ↦ err undecodable | some items ↦ ok items ])
      ok (record {
        lab_id = r.lab_id;
        student_id = r.student_id;
        total = text_or_blank r.total;
        items = items;
        remark = text_or_blank r.remark;
        published_at = r.published_at;
        updated_at = r.updated_at;
      })

    -- GetGrade
    unfoldable pub get_grade : ℕ → String → String → List GradeRow → Result Error Grade
    unfolding grade_from_row
    get_grade now lab student rows = do
      guard (not (is_empty (trim_space lab) || is_empty (trim_space student))) grade_not_found
      call get
      row ← elim (get_final_grade now (trim_space lab) (trim_space student) rows) [
        | none ↦ err grade_not_found
        | some r ↦ ok r
      ]
      grade_from_row row

    unfoldable pub grades_from_rows : List GradeRow → Result Error (List Grade)
    unfolding grade_from_row
    grades_from_rows [] = ok []
    grades_from_rows (r ∷ rows) = do
      grade ← grade_from_row r
      grades ← grades_from_rows rows
      ok (grade ∷ grades)

    -- ListGrades
    unfoldable pub list_grades : ℕ → String → List GradeRow → Result Error (List Grade)
    unfolding grades_from_rows
    list_grades now student rows =
        if is_empty (trim_space student)
        then ok []
        else call list_rows >> grades_from_rows (list_published now (trim_space student) rows)

    -- PublishGrades: the number of rows.
    unfoldable pub publish_lab : ℕ → String → List GradeRow → Result Error ℕ × List GradeRow
    publish_lab now lab rows =
        if is_empty (trim_space lab)
        then (err invalid_lab, rows)
        else if fails publish
        then (err (driver publish), rows)
        else (
          ok (publish_grades now (trim_space lab) rows).0,
          (publish_grades now (trim_space lab) rows).1,
        )

    -- DeleteGrades: the number of rows.
    unfoldable pub delete_lab : String → List GradeRow → Result Error ℕ × List GradeRow
    delete_lab lab rows =
        if is_empty (trim_space lab)
        then (err invalid_lab, rows)
        else if fails delete
        then (err (driver delete), rows)
        else (ok (delete_grades (trim_space lab) rows).0, (delete_grades (trim_space lab) rows).1)

    -- GradeStatus: all rows, the published and the unpublished ones, and the last update.
    unfoldable pub grade_status : String → List GradeRow → Result Error (ℕ × ℕ × ℕ × Option ℕ)
    grade_status lab rows = do
      guard (not (is_empty (trim_space lab))) invalid_lab
      call status
      let (total, published, latest) = summarize (trim_space lab) rows
      ok (total, published, total - published, latest)
