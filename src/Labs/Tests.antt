-- ===== src/Labs/Tests.antt =====
-- A lab that is registered and updated: apps/api/internal/service/labs/service.go.
use lab_kit.Prelude.{
  ◌≡◌, refl, sym, ap, ◌∙◌, none, some, [], ◌∷◌, Bool, false, true, if◌then◌else◌, ◌↔◌, arith,
}
use lab_kit.Prelude.Int.{pos}
use lab_kit.Prelude.Results.{ok, err}
use lab_kit.Manifest.{Manifest, MetricSort, normalize}
use lab_kit.Manifest.Public.{public}
use lab_kit.Manifest.Validate.{parse}
use lab_kit.Manifest.Normal.{parse_iff}
use lab_kit.Board.{is_visible}
use lab_kit.Db.Labs.{LabRow, create_lab, get_lab}
use lab_kit.Labs.{
  Call, Codec, LabView, Error, register_lab, check_new, parse_and_marshal, public_lab,
  same_structure, same_files, get_public_lab,
}
use lab_kit.Labs.Structure.{structure_of, same_structure_iff}
use lab_kit.Labs.Rows.{AreLabs, KeepsStructures, ReadsBack}
use lab_kit.Labs.Stored.{Reach-AreLabs, here, next, registered}

abbrev lab : Manifest
lab = record {
  lab = record { id = "malloc"; name = "Malloc"; tags = [] };
  submit = record { files = "mm.c" ∷ []; max_size = "1MB" };
  eval = record { image = "labkit/malloc"; timeout = pos 300 };
  quota = record { daily = pos 2; free = "build_failed" ∷ [] };
  metrics = record { id = "score"; name = "Score"; sort = MetricSort.desc; unit = "" } ∷ [];
  board = record { rank_by = "score"; pick = false; rank_all = none };
  schedule = record { visible = 100; opens = 100; closes = 9000 };
}

abbrev other_files : Manifest
other_files = record lab { submit = record { files = "mm.h" ∷ []; max_size = "1MB" } }

-- A codec for this lab.
abbrev codec : Codec
codec = record {
  toml = λ raw. none;
  json = λ raw. some lab;
  marshal = λ m. some "lab";
  unmarshal = λ text. some lab;
}

abbrev up : Call → Bool
up c = false

abbrev row : LabRow
row = record {
  id = "malloc";
  name = "Malloc";
  manifest = "lab";
  manifest_updated_at = 50;
  created_at = 50;
}

abbrev view : LabView
view = record { id = "malloc"; name = "Malloc"; manifest = public lab; manifest_updated_at = 50 }

registers : register_lab codec up 50 "{}" [] ≡ (ok view, row ∷ [])
unfolding register_lab check_new parse_and_marshal parse public_lab create_lab get_lab normalize
registers = refl

registers_once : register_lab codec up 60 "{}" (row ∷ []) ≡ (err Error.lab_already_exists, row ∷ [])
unfolding register_lab check_new parse_and_marshal parse public_lab create_lab get_lab normalize
registers_once = refl

-- Before it is visible the lab is not found.
hides : get_public_lab codec up 50 99 "malloc" (row ∷ []) ≡ err Error.lab_not_found
unfolding get_public_lab get_lab public_lab is_visible public
hides = refl

refuses : same_structure lab other_files ≡ false
unfolding same_structure same_files
refuses = refl

normal : normalize lab ≡ lab
unfolding normalize
normal = refl

given_lab : (b : Bool) (m : Manifest) → (if b then some lab else none) ≡ some m → lab ≡ m
given_lab b m e = ground arith

reads_back : ReadsBack codec
reads_back raw m text e s =
    let (first, given, same, _, _) = (parse_iff codec.toml codec.json raw m).0 e in
    ap some (sym (same ∙ ap normalize (sym (given_lab _ first given)) ∙ normal))

same_structure_iff_example :
    (same_structure lab other_files ≡ true) ↔ (structure_of lab ≡ structure_of other_files)
same_structure_iff_example = same_structure_iff lab other_files

Reach-AreLabs_example :
    AreLabs codec (register_lab codec up 50 "{}" []).1
    × KeepsStructures codec [] (register_lab codec up 50 "{}" []).1
Reach-AreLabs_example = Reach-AreLabs codec reads_back tt (next here (registered up 50 "{}" refl))
