-- ===== src/Manifest/Tests.antt =====
-- A manifest of one metric: packages/go/manifest.
use lab_kit.Prelude.{◌≡◌, refl, ◌↔◌, Option, none, some, [], ◌∷◌, true, String, if◌then◌else◌}
use lab_kit.Prelude.Int.{pos}
use lab_kit.Prelude.Text.{trim_space}
use lab_kit.Prelude.Results.{ok}
use lab_kit.Manifest.{Manifest, MetricSort, normalize}
use lab_kit.Manifest.Validate.{validate, parse, starts_with_brace}
use lab_kit.Manifest.Correct.{IsCorrect, validate_iff}
use lab_kit.Manifest.Normal.{parse_iff}

-- Nothing that normalize fills in is given, except the metric's name.
abbrev raw_manifest : Manifest
raw_manifest = record {
  lab = record { id = "malloc-lab"; name = "Malloc"; tags = [] };
  submit = record { files = "mm.c" ∷ []; max_size = "" };
  eval = record { image = "labkit/malloc"; timeout = pos 0 };
  quota = record { daily = pos 2; free = "build_failed" ∷ [] };
  metrics = record { id = "score"; name = "Score"; sort = MetricSort.desc; unit = "" } ∷ [];
  board = record { rank_by = ""; pick = true; rank_all = none };
  schedule = record { visible = 0; opens = 100; closes = 900 };
}

abbrev small_manifest : Manifest
small_manifest = record raw_manifest {
  submit = record { files = "mm.c" ∷ []; max_size = "1MB" };
  eval = record { image = "labkit/malloc"; timeout = pos 300 };
  board = record { rank_by = "score"; pick = true; rank_all = some true };
  schedule = record { visible = 100; opens = 100; closes = 900 };
}

normal_form : normalize raw_manifest ≡ small_manifest
unfolding normalize
normal_form = refl

no_problem : validate small_manifest ≡ []
unfolding validate
no_problem = refl

abbrev json_of : String → Option Manifest
json_of _ = some raw_manifest

abbrev toml_of : String → Option Manifest
toml_of _ = none

parse_small : parse toml_of json_of " {}" ≡ ok small_manifest
unfolding parse
parse_small = refl

validate_iff_example : (validate small_manifest ≡ []) ↔ IsCorrect small_manifest
validate_iff_example = validate_iff small_manifest

small_manifest-IsCorrect : IsCorrect small_manifest
small_manifest-IsCorrect = (validate_iff small_manifest).0 no_problem

parse_iff_example : (parse toml_of json_of " {}" ≡ ok small_manifest) ↔ (
    (raw : Manifest) × ((if starts_with_brace (trim_space " {}")
        then json_of " {}"
        else toml_of " {}")
      ≡ some raw)
    × (small_manifest ≡ normalize raw)
    × IsCorrect small_manifest
    × (normalize small_manifest ≡ small_manifest))
parse_iff_example = parse_iff toml_of json_of " {}" small_manifest
