-- ===== src/Labs.antt =====
-- Registering, updating and showing labs: apps/api/internal/service/labs/service.go. The decoders and
-- encoders of TOML and JSON are parameters; `fails` says which calls of the database return an error,
-- `now` is NOW() of the statement and `clock` the service's clock.
pub mod Structure
pub mod Rows
pub mod Stored
mod Tests
use lab_kit.Prelude.{
  ℕ, String, Option, none, some, List, [], ◌∷◌, Bool, true, false, not, ◌==◌, length, if◌then◌else◌,
  str_eq,
}
use lab_kit.Prelude.Results.{Result, ok, err, ◌>>=◌, ◌>>◌}
use lab_kit.Manifest.{Manifest, MetricSection, MetricSort}
use lab_kit.Manifest.Public.{public}
use lab_kit.Manifest.Validate.{ParseError, parse}
use lab_kit.Board.{is_visible}
use lab_kit.Db.Labs.{LabRow, create_lab, get_lab, list_labs, update_lab_manifest}

pub data Call : Type 0 where
  look_up create list update read_back : Call

pub data Error : Type 0 where
  lab_not_found lab_already_exists structural_update marshal undecodable no_rows : Error
  invalid_manifest : ParseError → Error
  driver : Call → Error

-- The decoders of Parse, json.Marshal and json.Unmarshal.
pub record Codec : Type 0 where
  pub toml : String → Option Manifest
  pub json : String → Option Manifest
  pub marshal : Manifest → Option String
  pub unmarshal : String → Option Manifest

-- Lab
pub record LabView : Type 0 where
  pub id : String
  pub name : String
  pub manifest : Manifest
  pub manifest_updated_at : ℕ

abbrev pub sort_text : MetricSort → String
sort_text MetricSort.asc = "asc"
sort_text MetricSort.desc = "desc"
sort_text (MetricSort.other s) = s

-- The loops of sameStructure, on lists of one length.
unfoldable pub same_files : List String → List String → Bool
same_files [] files = true
same_files (f ∷ files) [] = false
same_files (f ∷ files) (g ∷ files') = if str_eq f g then same_files files files' else false

unfoldable pub same_metrics : List MetricSection → List MetricSection → Bool
same_metrics [] metrics = true
same_metrics (m ∷ metrics) [] = false
same_metrics (m ∷ metrics) (n ∷ metrics') =
    if not (str_eq m.id n.id)
    then false
    else if not (str_eq (sort_text m.sort) (sort_text n.sort))
    then false
    else same_metrics metrics metrics'

-- sameStructure
unfoldable pub same_structure : Manifest → Manifest → Bool
same_structure c n =
    if not (str_eq c.submit.max_size n.submit.max_size)
    then false
    else if not (length c.submit.files == length n.submit.files)
    then false
    else if not (same_files c.submit.files n.submit.files)
    then false
    else if not (length c.metrics == length n.metrics)
    then false
    else if not (str_eq c.board.rank_by n.board.rank_by)
    then false
    else same_metrics c.metrics n.metrics

abbrev pub found {ℓ} : {A : Type ℓ} → Error → Option A → Result Error A
found e none = err e
found e (some a) = ok a

module _ (codec : Codec) where
  -- parseAndMarshalManifest
  unfoldable pub parse_and_marshal : String → Result Error (Manifest × String)
  parse_and_marshal raw = elim (parse codec.toml codec.json raw) [
    | err e ↦ err (invalid_manifest e)
    | ok m ↦ elim (codec.marshal m) [ none ↦ err marshal | some stored ↦ ok (m, stored) ]
  ]

  -- publicLabFromRow
  unfoldable pub public_lab : LabRow → Result Error LabView
  public_lab row = elim (codec.unmarshal row.manifest) [
    | none ↦ err undecodable
    | some m ↦ ok (record {
      id = row.id;
      name = row.name;
      manifest = public m;
      manifest_updated_at = row.manifest_updated_at;
    })
  ]

  module _ (fails : Call → Bool) (now : ℕ) where
    abbrev pub call : Call → Result Error (Unit {0})
    call c = if fails c then err (driver c) else ok tt

    -- CreateLab of the repository and what follows.
    abbrev pub create_row : Manifest × String → List LabRow → Result Error LabView × List LabRow
    create_row (m, stored) rows = elim (create_lab now m.lab.id m.lab.name stored rows) [
      | none ↦ (err lab_already_exists, rows)
      | some (row, rows') ↦ (public_lab row, rows')
    ]

    -- The checks of RegisterLab.
    unfoldable pub check_new : String → List LabRow → Result Error (Manifest × String)
    check_new raw rows = do
      parsed ← parse_and_marshal raw
      call look_up
      elim (get_lab parsed.0.lab.id rows) [ none ↦ ok tt | some row ↦ err lab_already_exists ]
      call create
      ok parsed

    abbrev pub create_checked :
        Result Error (Manifest × String) → List LabRow → Result Error LabView × List LabRow
    create_checked (err e) rows = (err e, rows)
    create_checked (ok parsed) rows = create_row parsed rows

    -- RegisterLab
    unfoldable pub register_lab : String → List LabRow → Result Error LabView × List LabRow
    register_lab raw rows = create_checked (check_new raw rows) rows

    -- The checks of UpdateLab.
    unfoldable pub check_update : String → String → List LabRow → Result Error (Manifest × String)
    check_update id raw rows = do
      parsed ← parse_and_marshal raw
      if str_eq parsed.0.lab.id id then ok tt else err structural_update
      call look_up
      row ← found lab_not_found (get_lab id rows)
      current ← found undecodable (codec.unmarshal row.manifest)
      if same_structure current parsed.0 then ok tt else err structural_update
      call update
      ok parsed

    -- GetLab after the update.
    unfoldable pub read_lab : String → List LabRow → Result Error LabView
    read_lab id rows = do call read_back; row ← found no_rows (get_lab id rows); public_lab row

    abbrev pub update_checked :
        String → Result Error (Manifest × String) → List LabRow → Result Error LabView × List LabRow
    update_checked id (err e) rows = (err e, rows)
    update_checked id (ok (m, stored)) rows =
        let rows' = update_lab_manifest now id m.lab.name stored rows in (read_lab id rows', rows')

    -- UpdateLab
    unfoldable pub update_lab : String → String → List LabRow → Result Error LabView × List LabRow
    update_lab id raw rows = update_checked id (check_update id raw rows) rows

    -- The loop of ListPublicLabs.
    unfoldable pub public_labs : ℕ → List LabRow → Result Error (List LabView)
    public_labs clock [] = ok []
    public_labs clock (row ∷ rows) = do
      lab ← public_lab row
      labs ← public_labs clock rows
      ok (if is_visible lab.manifest.schedule clock then lab ∷ labs else labs)

    -- ListPublicLabs
    unfoldable pub list_public_labs : ℕ → List LabRow → Result Error (List LabView)
    unfolding public_labs
    list_public_labs clock rows = call list >> public_labs clock (list_labs rows)

    -- GetPublicLab
    unfoldable pub get_public_lab : ℕ → String → List LabRow → Result Error LabView
    get_public_lab clock id rows = do
      call look_up
      row ← found lab_not_found (get_lab id rows)
      lab ← public_lab row
      if is_visible lab.manifest.schedule clock then ok lab else err lab_not_found
