-- ===== src/Db/Labs.antt =====
-- The queries on `labs`: packages/go/db/sqlc/labs.sql.go.
use lab_kit.Prelude.{
  ℕ, String, Option, none, some, List, [], ◌∷◌, ◌++◌, any, find, map, ltb, if◌then◌else◌, str_eq,
}

-- A row; the manifest is the text of the JSON column.
pub record LabRow : Type 0 where
  pub id : String
  pub name : String
  pub manifest : String
  pub manifest_updated_at : ℕ
  pub created_at : ℕ

-- CreateLab; `none` is the violation of the primary key.
unfoldable pub create_lab :
    ℕ → String → String → String → List LabRow → Option (LabRow × List LabRow)
create_lab now id name manifest rows =
    let row : LabRow = record {
      id = id;
      name = name;
      manifest = manifest;
      manifest_updated_at = now;
      created_at = now;
    } in
    if any (λ r. str_eq r.id id) rows then none else some (row, rows ++ row ∷ [])

-- GetLab
unfoldable pub get_lab : String → List LabRow → Option LabRow
get_lab id = find (λ r. str_eq r.id id)

-- ORDER BY created_at DESC; ties in the order of insertion.
unfoldable pub insert_latest : LabRow → List LabRow → List LabRow
insert_latest r [] = r ∷ []
insert_latest r (q ∷ rows) =
    if ltb r.created_at q.created_at then q ∷ insert_latest r rows else r ∷ q ∷ rows

-- ListLabs
unfoldable pub list_labs : List LabRow → List LabRow
unfolding insert_latest
list_labs [] = []
list_labs (r ∷ rows) = insert_latest r (list_labs rows)

abbrev pub rewrite_lab : ℕ → String → String → LabRow → LabRow
rewrite_lab now name manifest r = record r {
  name = name;
  manifest = manifest;
  manifest_updated_at = now;
}

-- UpdateLabManifest
unfoldable pub update_lab_manifest : ℕ → String → String → String → List LabRow → List LabRow
update_lab_manifest now id name manifest =
    map (λ r. if str_eq r.id id then rewrite_lab now name manifest r else r)
