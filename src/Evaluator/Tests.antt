-- ===== src/Evaluator/Tests.antt =====
-- Small outputs of an evaluator: packages/go/evaluator.
use lab_kit.Prelude.{ℕ, ◌≡◌, refl, ◌↔◌, Option, none, some, List, [], ◌∷◌, ◌++◌, false}
use lab_kit.Prelude.Int.{pos}
use lab_kit.Prelude.Results.{ok, err}
use lab_kit.Manifest.{Manifest, MetricSort}
use lab_kit.Evaluator.{Verdict, Outcome, Error, extract_last_line, validate_result, parse_result}
use lab_kit.Evaluator.Extract.{IsLastLine, extract_iff}
use lab_kit.Evaluator.Protocol.{IsContract, validate_result_iff, parse_result_iff}

-- "a\n{}\r\n"
abbrev small_output : List ℕ
small_output = 97 ∷ 10 ∷ 123 ∷ 125 ∷ 13 ∷ 10 ∷ []

abbrev braces : List ℕ
braces = 123 ∷ 125 ∷ []

abbrev one_metric : Manifest
one_metric = record {
  lab = record { id = "malloc-lab"; name = "Malloc"; tags = [] };
  submit = record { files = "mm.c" ∷ []; max_size = "1MB" };
  eval = record { image = "labkit/malloc"; timeout = pos 300 };
  quota = record { daily = pos 2; free = [] };
  metrics = record { id = "score"; name = "Score"; sort = MetricSort.desc; unit = "" } ∷ [];
  board = record { rank_by = "score"; pick = false; rank_all = none };
  schedule = record { visible = 100; opens = 100; closes = 900 };
}

abbrev scored_result : Outcome ℕ
scored_result = record {
  verdict = Verdict.scored;
  scores = ("score", 90) ∷ [];
  detail = none;
  message = "";
}

abbrev decode_all : List ℕ → Option (Outcome ℕ)
decode_all _ = some scored_result

extracts : extract_last_line small_output ≡ ok braces
unfolding extract_last_line
extracts = refl

refuses_two_terminators : extract_last_line (small_output ++ 10 ∷ []) ≡ err Error.last_line_empty
unfolding extract_last_line
refuses_two_terminators = refl

extract_iff_example : (extract_last_line small_output ≡ ok braces) ↔ IsLastLine small_output braces
extract_iff_example = extract_iff small_output braces

validate_result_iff_example :
    (validate_result (some one_metric) scored_result ≡ ok tt) ↔ IsContract one_metric scored_result
validate_result_iff_example = validate_result_iff one_metric scored_result

parse_result_iff_example :
    (parse_result decode_all (some one_metric) small_output ≡ ok scored_result) ↔ (
      (line : List ℕ) × IsLastLine small_output line
      × (decode_all line ≡ some scored_result)
      × IsContract one_metric scored_result)
parse_result_iff_example = parse_result_iff decode_all one_metric small_output scored_result
