-- ===== src/Manifest/Validate.antt =====
-- Manifest.Validate: packages/go/manifest/validate.go, and Parse of manifest.go.
use Prim.Native.Char.{code}
use lab_kit.Prelude.{
  ℕ, suc, String, Option, none, some, List, [], ◌∷◌, ◌++◌, Bool, true, false, ◌&&◌, ◌||◌, not, any,
  ◌==◌, leb, ltb, if◌then◌else◌, str_eq,
}
use lab_kit.Prelude.Int.{pos, leb_ℤ}
use lab_kit.Prelude.Text.{is_empty, trim_space}
use lab_kit.Prelude.Results.{Result, ok, err}
use lab_kit.Manifest.{
  Manifest, MetricSort, asc, desc, MetricSection, ScheduleSection, normalize, is_zero,
}

-- The messages, in the order of the checks.
pub data Problem : Type 0 where
  lab_id_required lab_id_unsafe lab_name_required files_required image_required : Problem
  daily_not_positive metrics_required open_required close_required : Problem
  rank_by_required rank_by_unknown open_after_close visible_after_open : Problem
  free_invalid metric_id_required metric_sort_invalid : ℕ → Problem
  metric_duplicate : String → Problem

-- [A-Za-z0-9]
abbrev pub is_alnum : ℕ → Bool
is_alnum c = leb b'A' c && leb c b'Z' || leb b'a' c && leb c b'z' || leb b'0' c && leb c b'9'

-- [A-Za-z0-9_-]
abbrev pub is_id_char : ℕ → Bool
is_id_char c = is_alnum c || c == b'_' || c == b'-'

unfoldable pub all_id_chars : String → Bool
all_id_chars String.[] = true
all_id_chars (String.◌∷◌ c s) = is_id_char (code c) && all_id_chars s

-- `^[A-Za-z0-9][A-Za-z0-9_-]*$`
unfoldable pub is_url_safe : String → Bool
unfolding all_id_chars
is_url_safe String.[] = false
is_url_safe (String.◌∷◌ c s) = is_alnum (code c) && all_id_chars s

-- `if c { problems = append(problems, p) }`
abbrev pub report : Bool → Problem → List Problem
report true p = p ∷ []
report false p = []

unfoldable pub free_problems : ℕ → List String → List Problem
free_problems i [] = []
free_problems i (v ∷ vs) =
    report (not (str_eq v "build_failed") && not (str_eq v "rejected")) (free_invalid i)
    ++ free_problems (suc i) vs

abbrev pub is_sort : MetricSort → Bool
is_sort asc = true
is_sort desc = true
is_sort _ = false

abbrev pub seen_with : MetricSection → List String → List String
seen_with m seen = if is_empty m.id then seen else m.id ∷ seen

abbrev pub metric_problems_at : ℕ → MetricSection → List String → List Problem
metric_problems_at i m seen =
    report (is_empty m.id) (metric_id_required i)
    ++ (report (not (is_sort m.sort)) (metric_sort_invalid i)
        ++ report (not (is_empty m.id) && any (str_eq m.id) seen) (metric_duplicate m.id))

-- The loop over the metrics, with the set of ids seen before.
unfoldable pub metric_problems : ℕ → List MetricSection → List String → List Problem
metric_problems i [] seen = []
metric_problems i (m ∷ ms) seen =
    metric_problems_at i m seen ++ metric_problems (suc i) ms (seen_with m seen)

-- The set that the loop leaves behind.
unfoldable pub seen_ids : List MetricSection → List String → List String
seen_ids [] seen = seen
seen_ids (m ∷ ms) seen = seen_ids ms (seen_with m seen)

abbrev pub is_nil {ℓ} : {A : Type ℓ} → List A → Bool
is_nil [] = true
is_nil (_ ∷ _) = false

abbrev pub lab_id_problems : String → List Problem
lab_id_problems id =
    if is_empty id then lab_id_required ∷ [] else report (not (is_url_safe id)) lab_id_unsafe

abbrev pub rank_by_problems : String → List String → List Problem
rank_by_problems rank_by seen =
    if is_empty rank_by
    then rank_by_required ∷ []
    else report (not (any (str_eq rank_by) seen)) rank_by_unknown

-- The two checks of the order of times.
abbrev pub schedule_problems : ScheduleSection → List Problem
schedule_problems s =
    report (not (is_zero s.opens) && not (is_zero s.closes) && ltb s.closes s.opens)
      open_after_close
    ++ report (not (is_zero s.visible) && not (is_zero s.opens) && ltb s.opens s.visible)
        visible_after_open

-- Manifest.Validate: no error exactly if the list is empty.
unfoldable pub validate : Manifest → List Problem
unfolding free_problems metric_problems seen_ids is_url_safe
validate m =
    lab_id_problems m.lab.id
    ++ (report (is_empty m.lab.name) lab_name_required
        ++ (report (is_nil m.submit.files) files_required
            ++ (report (is_empty m.eval.image) image_required
                ++ (report (leb_ℤ m.quota.daily (pos 0)) daily_not_positive
                    ++ (free_problems 0 m.quota.free
                        ++ (report (is_nil m.metrics) metrics_required
                            ++ (report (is_zero m.schedule.opens) open_required
                                ++ (report (is_zero m.schedule.closes) close_required
                                    ++ (metric_problems 0 m.metrics []
                                        ++ (rank_by_problems m.board.rank_by (seen_ids m.metrics [])
                                            ++ schedule_problems m.schedule))))))))))

pub data ParseError : Type 0 where
  decode : ParseError
  invalid : List Problem → ParseError

abbrev pub checked : Manifest → Result ParseError Manifest
checked m = elim (validate m) [ [] ↦ ok m | ◌∷◌ p ps ↦ err (invalid (p ∷ ps)) ]

-- parseTOML and parseJSON, over the decoder.
abbrev pub parse_with : (String → Option Manifest) → String → Result ParseError Manifest
parse_with decoder text = elim (decoder text) [ none ↦ err decode | some m ↦ checked (normalize m) ]

abbrev pub starts_with_brace : String → Bool
starts_with_brace String.[] = false
starts_with_brace (String.◌∷◌ c s) = code c == b'{'

-- Parse
unfoldable pub parse : (toml json : String → Option Manifest) → String → Result ParseError Manifest
unfolding validate normalize trim_space
parse toml json text =
    if starts_with_brace (trim_space text) then parse_with json text else parse_with toml text
