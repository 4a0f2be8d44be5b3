-- ===== src/Grades/Tests.antt =====
-- Grades of two students: apps/api/internal/service/grade/service.go.
use lab_kit.Prelude.{
  ℕ, ◌≤◌, ◌+◌, ◌≡◌, refl, String, none, some, List, [], ◌∷◌, Bool, false, true, count, length,
}
use lab_kit.Prelude.Text.{trim_space}
use lab_kit.Prelude.Results.{ok, err}
use lab_kit.Db.Grades.{GradeRow, upsert_grade, get_final_grade, summarize}
use lab_kit.Grades.{
  Call, Error, Texts, Role, import_grades, import_after, import_records, plan_columns,
  build_grade_params, is_blank_record, cell, get_grade, grade_from_row, grade_status,
}
use lab_kit.Grades.Plan.{plan_columns-first_key, first_key, is_headline, is_note}
use lab_kit.Grades.Import.{import_grades-last, get_shown, over, last_record, rows_in}

abbrev texts : Texts
texts = record { lower = λ s. s; encode = λ items. some "items"; decode = λ s. some [] }

abbrev up : Call → Bool
up c = false

abbrev header : List String
header = "name" ∷ " student_id " ∷ "total" ∷ "score" ∷ "note" ∷ []

abbrev csv : List (List String)
csv =
    ("A" ∷ "s1" ∷ "90" ∷ "7" ∷ [])
    ∷ ("" ∷ " " ∷ [])
    ∷ ("B" ∷ "s2" ∷ "80" ∷ "6" ∷ "late" ∷ [])
    ∷ ("A" ∷ "s1" ∷ "95" ∷ [])
    ∷ []

abbrev old : GradeRow
old = record {
  lab_id = "malloc";
  student_id = "s1";
  total = some "10";
  remark = none;
  items = "items";
  published_at = some 5;
  updated_at = 5;
}

abbrev first : GradeRow
first = record old { total = some "95"; updated_at = 102 }

abbrev second : GradeRow
second = record {
  lab_id = "malloc";
  student_id = "s2";
  total = some "80";
  remark = some "late";
  items = "items";
  published_at = none;
  updated_at = 101;
}

plans : plan_columns texts header ≡ (
  Role.free_item "name"
      ∷ Role.student_key
      ∷ Role.headline
      ∷ Role.free_item "score"
      ∷ Role.note
      ∷ [],
  some 1,
)
unfolding plan_columns trim_space
plans = refl

imports :
    import_grades texts up (λ n. 100 + n) " malloc " true (header ∷ csv) (old ∷ [])
    ≡ (ok 3, first ∷ second ∷ [])
unfolding import_grades import_after import_records plan_columns build_grade_params is_blank_record
    cell upsert_grade trim_space
imports = refl

-- The grade that was published before the import shows the new total at once.
shows_first :
    get_grade texts up 110 "malloc" "s1" (first ∷ second ∷ [])
    ≡ ok (record {
      lab_id = "malloc";
      student_id = "s1";
      total = "95";
      items = [];
      remark = "";
      published_at = some 5;
      updated_at = 102;
    })
unfolding get_grade get_final_grade grade_from_row trim_space
shows_first = refl

hides_second :
    get_grade texts up 110 "malloc" "s2" (first ∷ second ∷ []) ≡ err Error.grade_not_found
unfolding get_grade get_final_grade grade_from_row trim_space
hides_second = refl

counts : grade_status texts up "malloc" (first ∷ second ∷ []) ≡ ok (2, 1, 1, some 102)
unfolding grade_status summarize trim_space
counts = refl

plan_columns-first_key_example :
    ((plan_columns texts header).1 ≡ first_key texts 0 header)
    × (length (plan_columns texts header).0 ≡ length header)
    × (count is_headline (plan_columns texts header).0 ≤ 1)
    × (count is_note (plan_columns texts header).0 ≤ 1)
plan_columns-first_key_example = plan_columns-first_key texts header

import_grades-last_example :
    (plan : List Role) × (index : ℕ) × (plan_columns texts header ≡ (plan, some index))
    × (3 ≡ rows_in texts (trim_space " malloc ") plan index csv)
    × ((l student : String)
        → get_shown l student (first ∷ second ∷ [])
          ≡ over
              (get_shown l student (old ∷ []))
              (last_record texts (trim_space " malloc ") plan index l student csv))
import_grades-last_example =
    import_grades-last texts up (λ n. 100 + n) " malloc " true header csv (old ∷ [])
      (first ∷ second ∷ []) 3 imports
