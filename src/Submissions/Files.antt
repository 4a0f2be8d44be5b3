-- ===== src/Submissions/Files.antt =====
-- validateFiles and parseMaxSize: apps/api/internal/service/submissions/service.go.
use Prim.Native.Char.{code}
use mathlib.Core.Option
use lab_kit.Prelude.{
  ℕ, String, Option, none, some, List, [], ◌∷◌, Bool, true, false, ◌&&◌, ◌||◌, not, any, ◌==◌, ltb,
  if◌then◌else◌, str_eq, length, map,
}
use lab_kit.Prelude.Text.{is_empty, trim_space, contains_code, is_space}
use lab_kit.Prelude.Results.{Result, ok, err, ◌>>=◌, ◌>>◌}

-- UploadFile; the content is a list of bytes.
pub record UploadFile : Type 0 where
  pub name : String
  pub content : List ℕ

-- ErrMissingFiles, ErrInvalidSubmission and ErrSubmissionTooLarge.
pub data FileError : Type 0 where
  missing_files invalid_submission submission_too_large : FileError

-- What parseMaxSize uses of the standard library: unicode.ToUpper on a code point, and float64 with
-- strconv.ParseFloat, the test `value <= 0`, the product with a unit, the test `> math.MaxInt64`
-- and the conversion to int64.
pub record Floats (F : Type 0) : Type 0 where
  pub upper : ℕ → ℕ
  pub parse : List ℕ → Option F
  pub not_positive : F → Bool
  pub times : F → ℕ → F
  pub too_large : F → Bool
  pub to_int : F → ℕ

-- The code points of a text.
abbrev pub codes : String → List ℕ
codes String.[] = []
codes (String.◌∷◌ letter text) = code letter ∷ codes text

abbrev pub is_nil : List ℕ → Bool
is_nil [] = true
is_nil (_ ∷ _) = false

-- strings.TrimSpace on code points.
unfoldable pub trim_left_codes : List ℕ → List ℕ
trim_left_codes [] = []
trim_left_codes (c ∷ s) = if is_space c then trim_left_codes s else c ∷ s

unfoldable pub trim_right_codes : List ℕ → List ℕ
trim_right_codes [] = []
trim_right_codes (c ∷ s) =
    let rest = trim_right_codes s in if is_space c && is_nil rest then [] else c ∷ rest

unfoldable pub trim_codes : List ℕ → List ℕ
unfolding trim_left_codes trim_right_codes is_space
trim_codes s = trim_right_codes (trim_left_codes s)

unfoldable pub same_codes : List ℕ → List ℕ → Bool
same_codes [] [] = true
same_codes (a ∷ s) (b ∷ t) = a == b && same_codes s t
same_codes _ _ = false

-- strings.HasSuffix with strings.TrimSuffix: what stands before the suffix.
unfoldable pub strip_suffix : List ℕ → List ℕ → Option (List ℕ)
unfolding same_codes
strip_suffix suffix [] = if same_codes [] suffix then some [] else none
strip_suffix suffix (c ∷ s) =
    let rest = strip_suffix suffix s in
    if same_codes (c ∷ s) suffix then some [] else Option.map (λ r. c ∷ r) rest

-- The table of units, in the order of the tests.
abbrev pub units : List (List ℕ × ℕ)
units =
    (b'G' ∷ b'B' ∷ [], 1_000_000_000)
    ∷ (b'M' ∷ b'B' ∷ [], 1_000_000)
    ∷ (b'K' ∷ b'B' ∷ [], 1000)
    ∷ (b'B' ∷ [], 1)
    ∷ []

-- `strings.TrimSpace(name) != name`, the tests for an empty name and for separators.
unfoldable pub bad_name : String → Bool
unfolding trim_space contains_code
bad_name name =
    not (str_eq (trim_space name) name)
    || is_empty name
    || contains_code b'/' name
    || contains_code 92 name

abbrev pub listed : String → List String → Bool
listed name names = any (λ n. str_eq n name) names

-- One round of the loop over the uploaded files.
unfoldable pub check_file : List String → ℕ → List String → UploadFile → Result FileError (Unit {0})
check_file expected limit seen f =
    if bad_name f.name
    then err invalid_submission
    else if not (listed f.name expected)
    then err invalid_submission
    else if listed f.name seen
    then err invalid_submission
    else if ltb limit (length f.content)
    then err submission_too_large
    else ok tt

-- The loop, with the names seen so far.
unfoldable pub check_files :
    List String → ℕ → List String → List UploadFile → Result FileError (List String)
unfolding check_file
check_files expected limit seen [] = ok seen
check_files expected limit seen (f ∷ files) = do
  check_file expected limit seen f
  check_files expected limit (f.name ∷ seen) files

unfoldable pub require_all : List String → List String → Result FileError (Unit {0})
require_all [] seen = ok tt
require_all (r ∷ rest) seen = if listed r seen then require_all rest seen else err missing_files

module _ {F : Type 0} (fl : Floats F) where
  -- The size that a value part and a unit stand for.
  unfoldable pub size_of : List ℕ → ℕ → Option ℕ
  size_of value scale = if is_nil value then none else (elim (fl.parse value) [
    | none ↦ none
    | some f ↦
        if fl.not_positive f
        then none
        else if fl.too_large (fl.times f scale)
        then none
        else some (fl.to_int (fl.times f scale))
  ])

  unfoldable pub size_in : List (List ℕ × ℕ) → List ℕ → Option ℕ
  unfolding strip_suffix trim_codes
  size_in [] s = none
  size_in ((suffix, scale) ∷ rest) s = elim (strip_suffix suffix s) [
    | some value ↦ size_of (trim_codes value) scale
    | none ↦ size_in rest s
  ]

  -- parseMaxSize; an error is none.
  unfoldable pub parse_max_size : String → Option ℕ
  unfolding size_in size_of trim_codes
  parse_max_size raw =
      let s = map fl.upper (trim_codes (codes raw)) in if is_nil s then none else size_in units s

  -- validateFiles
  unfoldable pub validate_files :
      List String → String → List UploadFile → Result FileError (Unit {0})
  validate_files expected max_size [] = err missing_files
  validate_files expected max_size (f ∷ files) = elim (parse_max_size max_size) [
    | none ↦ err invalid_submission
    | some limit ↦ check_files expected limit [] (f ∷ files) >>= (λ seen. require_all expected seen)
  ]
