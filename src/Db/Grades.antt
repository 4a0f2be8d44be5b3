-- ===== src/Db/Grades.antt =====
-- The queries on `final_grades`: packages/go/db/sqlc/grades.sql.go.
use lab_kit.Prelude.{
  ℕ, suc, String, Option, none, some, List, [], ◌∷◌, Bool, true, false, ◌&&◌, not, find, map, keep,
  count, leb, ltb, if◌then◌else◌, str_eq,
}

-- FinalGrades; the items are the text of a JSON column.
pub record GradeRow : Type 0 where
  pub lab_id : String
  pub student_id : String
  pub total : Option String
  pub remark : Option String
  pub items : String
  pub published_at : Option ℕ
  pub updated_at : ℕ

-- UpsertFinalGradeParams
pub record GradeParams : Type 0 where
  pub lab_id : String
  pub student_id : String
  pub total : Option String
  pub remark : Option String
  pub items : String

-- PRIMARY KEY (lab_id, student_id)
abbrev pub is_row : String → String → GradeRow → Bool
is_row lab student r = str_eq r.lab_id lab && str_eq r.student_id student

abbrev pub new_grade : ℕ → GradeParams → GradeRow
new_grade now p = record {
  lab_id = p.lab_id;
  student_id = p.student_id;
  total = p.total;
  remark = p.remark;
  items = p.items;
  published_at = none;
  updated_at = now;
}

abbrev pub regrade : ℕ → GradeParams → GradeRow → GradeRow
regrade now p r = record r { total = p.total; remark = p.remark; items = p.items; updated_at = now }

-- UpsertFinalGrade
unfoldable pub upsert_grade : ℕ → GradeParams → List GradeRow → List GradeRow
upsert_grade now p [] = new_grade now p ∷ []
upsert_grade now p (r ∷ rows) =
    let rest = upsert_grade now p rows in
    if is_row p.lab_id p.student_id r then regrade now p r ∷ rows else r ∷ rest

abbrev pub is_published : ℕ → GradeRow → Bool
is_published now r = elim (r.published_at) [ none ↦ false | some t ↦ leb t now ]

-- GetFinalGrade
unfoldable pub get_final_grade : ℕ → String → String → List GradeRow → Option GradeRow
get_final_grade now lab student = find (λ r. is_row lab student r && is_published now r)

-- ORDER BY updated_at DESC
unfoldable pub insert_newest : GradeRow → List GradeRow → List GradeRow
insert_newest r [] = r ∷ []
insert_newest r (q ∷ rows) =
    if ltb r.updated_at q.updated_at then q ∷ insert_newest r rows else r ∷ q ∷ rows

unfoldable pub newest_first : List GradeRow → List GradeRow
unfolding insert_newest
newest_first [] = []
newest_first (r ∷ rows) = insert_newest r (newest_first rows)

-- ListPublishedFinalGradesByStudent
unfoldable pub list_published : ℕ → String → List GradeRow → List GradeRow
unfolding newest_first
list_published now student rows =
    newest_first (keep (λ r. str_eq r.student_id student && is_published now r) rows)

abbrev pub is_unpublished : String → GradeRow → Bool
is_unpublished lab r =
    if str_eq r.lab_id lab then (elim (r.published_at) [ none ↦ true | some t ↦ false ]) else false

-- PublishFinalGrades, with the number of rows.
unfoldable pub publish_grades : ℕ → String → List GradeRow → ℕ × List GradeRow
publish_grades now lab rows = (
  count (is_unpublished lab) rows,
  map
      (λ r.
        if is_unpublished lab r then record r { published_at = some now; updated_at = now } else r)
      rows,
)

-- DeleteFinalGradesByLab, with the number of rows.
unfoldable pub delete_grades : String → List GradeRow → ℕ × List GradeRow
delete_grades lab rows =
    (count (λ r. str_eq r.lab_id lab) rows, keep (λ r. not (str_eq r.lab_id lab)) rows)

abbrev pub later_of : ℕ → Option ℕ → Option ℕ
later_of t none = some t
later_of t (some u) = some (if ltb t u then u else t)

abbrev pub is_set : Option ℕ → Bool
is_set none = false
is_set (some t) = true

-- SummarizeFinalGrades: the count, the published ones, and MAX(updated_at).
unfoldable pub summarize : String → List GradeRow → ℕ × ℕ × Option ℕ
summarize lab [] = (0, 0, none)
summarize lab (r ∷ rows) =
    let (total, published, latest) = summarize lab rows in
    if str_eq r.lab_id lab
    then (
      suc total,
      (if is_set r.published_at then suc published else published),
      later_of r.updated_at latest,
    )
    else (total, published, latest)
