-- ===== src/Evaluator.antt =====
-- The evaluator's protocol: packages/go/evaluator/result.go and validate.go. Standard output is a
-- list of bytes; a score is a value of a parameter type (float64); a Go map is the association
-- list in the order of one iteration. The JSON decoder is a parameter.
pub mod LastLine
pub mod Extract
pub mod Protocol
mod Tests
use lab_kit.Prelude.{
  ℕ, suc, String, Option, none, some, List, [], ◌∷◌, ◌++◌, Bool, true, false, ◌&&◌, ◌||◌, not, any,
  ◌==◌, if◌then◌else◌, str_eq,
}
use lab_kit.Prelude.Dict.{Dict, lookup, has}
use lab_kit.Prelude.Results.{Result, ok, err, ◌>>=◌, ◌>>◌}
use lab_kit.Manifest.{Manifest, MetricSection}

-- `type Verdict string`: any text can be decoded into it.
pub data Verdict : Type 0 where
  build_failed rejected scored error : Verdict
  other : String → Verdict

-- The text that a verdict is.
abbrev pub verdict_text : Verdict → String
verdict_text build_failed = "build_failed"
verdict_text rejected = "rejected"
verdict_text scored = "scored"
verdict_text error = "error"
verdict_text (other s) = s

pub data DetailFormat : Type 0 where
  text markdown : DetailFormat
  unknown : String → DetailFormat

pub record Detail : Type 0 where
  pub format : DetailFormat
  pub content : String

-- evaluator.Result
pub record Outcome (V : Type 0) : Type 0 where
  pub verdict : Verdict
  pub scores : Dict V
  pub detail : Option Detail
  pub message : String

pub data Error : Type 0 where
  stdout_empty last_line_empty json manifest_required : Error
  verdict_invalid : String → Error
  detail_invalid : String → Error
  scores_not_allowed scores_required : Error
  missing_score unexpected_metric : String → Error

abbrev pub newline : ℕ
newline = 10

abbrev pub carriage_return : ℕ
carriage_return = 13

-- `bytes[len(bytes)-1] == c` and `bytes[:len(bytes)-1]`, on a list that is not empty.
unfoldable pub ends_with : ℕ → List ℕ → Bool
ends_with c [] = false
ends_with c (b ∷ []) = b == c
ends_with c (_ ∷ b ∷ bs) = ends_with c (b ∷ bs)

unfoldable pub drop_last : List ℕ → List ℕ
drop_last [] = []
drop_last (b ∷ []) = []
drop_last (b ∷ c ∷ bs) = b ∷ drop_last (c ∷ bs)

abbrev pub cons_first : ℕ → List (List ℕ) → List (List ℕ)
cons_first b [] = (b ∷ []) ∷ []
cons_first b (l ∷ ls) = (b ∷ l) ∷ ls

-- bytes.Split(bytes, "\n")
unfoldable pub split_lines : List ℕ → List (List ℕ)
split_lines [] = [] ∷ []
split_lines (b ∷ bs) =
    let rest = split_lines bs in if b == newline then [] ∷ rest else cons_first b rest

unfoldable pub last_of : List (List ℕ) → List ℕ
last_of [] = []
last_of (l ∷ []) = l
last_of (_ ∷ l ∷ ls) = last_of (l ∷ ls)

abbrev pub last_segment : List ℕ → List ℕ
last_segment bs = last_of (split_lines bs)

-- bytes.TrimSuffix(line, "\r")
unfoldable pub trim_return : List ℕ → List ℕ
unfolding ends_with drop_last
trim_return line = if ends_with carriage_return line then drop_last line else line

abbrev pub is_nil : List ℕ → Bool
is_nil [] = true
is_nil (_ ∷ _) = false

-- ExtractLastLine, from the text with its one line terminator taken off.
abbrev pub last_line_of : List ℕ → Result Error (List ℕ)
last_line_of trimmed =
    if is_nil trimmed
    then err last_line_empty
    else let line = trim_return (last_segment trimmed) in
      if is_nil line then err last_line_empty else ok line

-- ExtractLastLine
unfoldable pub extract_last_line : List ℕ → Result Error (List ℕ)
unfolding ends_with drop_last split_lines last_of trim_return
extract_last_line stdout =
    if is_nil stdout
    then err stdout_empty
    else if ends_with newline stdout
    then (if ends_with newline (drop_last stdout)
        then err last_line_empty
        else last_line_of (drop_last stdout))
    else last_line_of stdout

-- validateVerdict
abbrev pub validate_verdict : Verdict → Result Error (Unit {0})
validate_verdict (other s) = err (verdict_invalid s)
validate_verdict _ = ok tt

-- validateDetail
abbrev pub validate_detail : Option Detail → Result Error (Unit {0})
validate_detail none = ok tt
validate_detail (some d) = elim (d.format) [
  | text ↦ ok tt
  | markdown ↦ ok tt
  | unknown s ↦ err (detail_invalid s)
]

abbrev pub is_scored : Verdict → Bool
is_scored scored = true
is_scored _ = false

module _ {V : Type 0} where
  -- The first loop of ValidateScores.
  unfoldable pub require_metrics : List MetricSection → Dict V → Result Error (Unit {0})
  require_metrics [] scores = ok tt
  require_metrics (m ∷ ms) scores =
      if has m.id scores then require_metrics ms scores else err (missing_score m.id)

  -- The second loop of ValidateScores.
  unfoldable pub allow_only : List MetricSection → Dict V → Result Error (Unit {0})
  allow_only metrics [] = ok tt
  allow_only metrics ((k, _) ∷ scores) =
      if any (λ m. str_eq m.id k) metrics
      then allow_only metrics scores
      else err (unexpected_metric k)

  -- ValidateScores
  unfoldable pub validate_scores : Option Manifest → Dict V → Result Error (Unit {0})
  unfolding require_metrics allow_only
  validate_scores none scores = err manifest_required
  validate_scores (some m) [] = err scores_required
  validate_scores (some m) (s ∷ scores) =
      require_metrics m.metrics (s ∷ scores) >> allow_only m.metrics (s ∷ scores)

  abbrev pub no_scores : Dict V → Result Error (Unit {0})
  no_scores [] = ok tt
  no_scores (_ ∷ _) = err scores_not_allowed

  -- ValidateResult
  unfoldable pub validate_result : Option Manifest → Outcome V → Result Error (Unit {0})
  unfolding validate_scores
  validate_result none r = err manifest_required
  validate_result (some m) r = do
    validate_verdict r.verdict
    validate_detail r.detail
    if is_scored r.verdict then validate_scores (some m) r.scores else no_scores r.scores

  -- ParseResult, over json.Unmarshal.
  unfoldable pub parse_result :
      (List ℕ → Option (Outcome V)) → Option Manifest → List ℕ → Result Error (Outcome V)
  unfolding extract_last_line validate_result
  parse_result decode m stdout = do
    line ← extract_last_line stdout
    elim (decode line) [ none ↦ err json | some r ↦ validate_result m r >> ok r ]
