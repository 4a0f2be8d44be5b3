-- ===== src/Worker/Archived.antt =====
-- Two files on their way from an upload to the evaluator, in an archive format with the length before
-- each name and content: apps/api/internal/storage/artifacts.go and apps/worker.
use Prim.Native.Nat.{zero}
use Prim.Native.Char.{code}
use lab_kit.Prelude.{
  ℕ, suc, ◌≡◌, refl, sym, ◌*◌, ◌==◌, String, Option, none, some, List, [], ◌∷◌, ◌++◌, true, false,
  arith, length, map, In, if◌then◌else◌,
}
use lab_kit.Prelude.Text.{trim_space, contains_code}
use lab_kit.Prelude.Dict.{Dict, lookup}
use lab_kit.Prelude.Results.{ok}
use lab_kit.Submissions.Files.{
  Floats, UploadFile, validate_files, parse_max_size, check_files, check_file, require_all,
  bad_name, size_in, size_of,
}
use lab_kit.Submissions.Archive.{Packer, archive_of, sort_files}
use lab_kit.Submissions.Upload.{has_name}
use lab_kit.Worker.Workspace.{Archive, Entry, Node, extract_archive, stage_submission_dir}
use lab_kit.Worker.Directory.{entry_of}
use lab_kit.Worker.Staged.{stage-archive}

abbrev digits : Floats ℕ
digits = record {
  upper = λ c. c;
  parse = λ s. elim s [ [] ↦ none | ◌∷◌ c _ ↦ some (c * 1) ];
  not_positive = λ f. f == 0;
  times = λ f scale. f * scale;
  too_large = λ f. false;
  to_int = λ f. f;
}

abbrev codes : String → List ℕ
codes String.[] = []
codes (String.◌∷◌ c s) = code c ∷ codes s

abbrev letters : String
letters = "abcdefghijklmnopqrstuvwxyzABCDEFGHIJKLMNOPQRSTUVWXYZ0123456789._- "

-- The text of a code that is a letter, before another text.
abbrev letter_of : String → ℕ → String → String
letter_of String.[] n s = s
letter_of (String.◌∷◌ c rest) n s = if code c == n then String.◌∷◌ c s else letter_of rest n s

abbrev text_of : List ℕ → String
text_of [] = String.[]
text_of (n ∷ ns) = letter_of letters n (text_of ns)

abbrev pack_all : List UploadFile → List ℕ
pack_all [] = []
pack_all (f ∷ fs) =
    length (codes f.name) ∷ (codes f.name ++ (length f.content ∷ (f.content ++ pack_all fs)))

abbrev packer : Packer
packer = record { pack = λ fs. some (pack_all fs); digest = λ b. "h" }

abbrev first_of : ℕ → List ℕ → List ℕ
first_of zero bytes = []
first_of (suc n) [] = []
first_of (suc n) (b ∷ bytes) = b ∷ first_of n bytes

abbrev behind : ℕ → List ℕ → List ℕ
behind zero bytes = bytes
behind (suc n) [] = []
behind (suc n) (b ∷ bytes) = behind n bytes

-- The entries of an archive with at most so many of them.
abbrev entries_of : ℕ → List ℕ → List Entry
entries_of zero bytes = []
entries_of (suc k) [] = []
entries_of (suc k) (n ∷ bytes) = elim (behind n bytes) [
  | [] ↦ []
  | m ∷ rest ↦
      record { name = text_of (first_of n bytes); is_dir = false; content = some (first_of m rest) }
      ∷ entries_of k (behind m rest)
]

abbrev unpack_all : List ℕ → Option Archive
unpack_all bytes = some (record { entries = entries_of (length bytes) bytes; ends = true })

abbrev uploads : List UploadFile
uploads =
    record { name = "mm.c"; content = 9 ∷ 8 ∷ [] } ∷ record { name = "Makefile"; content = [] } ∷ []

abbrev packed : List ℕ
packed = pack_all (sort_files uploads)

reads_back :
    unpack_all packed ≡ some (record { entries = map entry_of (sort_files uploads); ends = true })
unfolding sort_files
reads_back = refl

only_packed :
    (b : List ℕ)
    → packer.pack (sort_files uploads) ≡ some b
    → unpack_all b ≡ some (record { entries = map entry_of (sort_files uploads); ends = true })
only_packed b e = let same : packed ≡ b = ground arith in rw (sym same) reads_back

accepts : validate_files digits ("mm.c" ∷ "Makefile" ∷ []) "5B" uploads ≡ ok tt
unfolding validate_files parse_max_size check_files check_file require_all bad_name size_in size_of
    trim_space contains_code
accepts = refl

packs : archive_of packer uploads ≡ some (packed, "h")
unfolding archive_of sort_files
packs = refl

stage-archive_example :
    (dir : Dict Node) × (staged : Dict Node) × (extract_archive (λ c. false) (unpack_all packed)
      ≡ ok dir)
    × (stage_submission_dir (λ c. false) dir ("mm.c" ∷ "Makefile" ∷ []) ≡ ok staged)
    × ((f : UploadFile) → In f uploads → lookup f.name staged ≡ some (Node.regular f.content))
    × ((n : String) → has_name n uploads ≡ false → lookup n staged ≡ none)
stage-archive_example =
    stage-archive (λ c. false) (λ c. refl) digits packer unpack_all ("mm.c" ∷ "Makefile" ∷ []) "5B"
      uploads packed "h" accepts ((refl, refl), ((refl, refl), tt)) packs only_packed
