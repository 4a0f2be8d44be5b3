-- ===== src/Worker/Workspace.antt =====
-- Directories of submitted files: extractArchiveToDir of
-- apps/worker/cmd/labkit-worker/runtime_handler.go and apps/worker/internal/runtime/tempdir.go. A
-- directory is the list of its entries in the order of os.ReadDir, by name. `fails` says which
-- calls of the file system return an error; tar with gzip is a parameter of the callers.
use lab_kit.Prelude.{
  ℕ, String, Option, none, some, List, [], ◌∷◌, Bool, true, false, not, any, if◌then◌else◌, str_eq,
}
use lab_kit.Prelude.Dict.{Dict, lookup}
use lab_kit.Prelude.Results.{Result, ok, err, ◌>>=◌, ◌>>◌, guard}
use lab_kit.Auth.{text_le}
use lab_kit.Worker.Paths.{clean, is_bad_entry}

-- A directory's entry by its mode.
pub data Node : Type 0 where
  regular : List ℕ → Node
  symlink directory : Node

-- A tar header with what io.Copy reads, none for an error.
pub record Entry : Type 0 where
  pub name : String
  pub is_dir : Bool
  pub content : Option (List ℕ)

-- An archive: its entries, and whether Next then says io.EOF.
pub record Archive : Type 0 where
  pub entries : List Entry
  pub ends : Bool

pub data Call : Type 0 where
  create_workspace make_dir stage_workspace stage_dir read_dir : Call
  create stat copy : String → Call

pub data FileError : Type 0 where
  not_gzip broken_archive files_required : FileError
  invalid_entry unreadable_entry symlink_entry unexpected missing not_regular : String → FileError
  io : Call → FileError

-- os.OpenFile with O_CREATE and O_TRUNC, and what is written.
unfoldable pub put : String → Node → Dict Node → Dict Node
put name node [] = (name, node) ∷ []
put name node ((key, old) ∷ dir) =
    if str_eq key name
    then (name, node) ∷ dir
    else if text_le name key
    then (name, node) ∷ (key, old) ∷ dir
    else (key, old) ∷ put name node dir

module _ (fails : Call → Bool) where
  abbrev pub call : Call → Result FileError (Unit {0})
  call c = if fails c then err (io c) else ok tt

  abbrev pub read_entry : String → Option (List ℕ) → Result FileError (List ℕ)
  read_entry name none = err (unreadable_entry name)
  read_entry name (some content) = ok content

  -- One round of the loop of extractArchiveToDir.
  unfoldable pub extract_entry : Entry → Dict Node → Result FileError (Dict Node)
  extract_entry e dir = if e.is_dir then ok dir else (do
    guard (not (is_bad_entry (clean e.name))) (invalid_entry e.name)
    call (create (clean e.name))
    content ← read_entry (clean e.name) e.content
    ok (put (clean e.name) (regular content) dir))

  unfoldable pub extract_entries : List Entry → Bool → Dict Node → Result FileError (Dict Node)
  extract_entries [] ends dir = if ends then ok dir else err broken_archive
  extract_entries (e ∷ entries) ends dir = do
    dir' ← extract_entry e dir
    extract_entries entries ends dir'

  -- extractArchiveToDir; none is an archive that gzip does not open.
  unfoldable pub extract_archive : Option Archive → Result FileError (Dict Node)
  unfolding extract_entries
  extract_archive none = err not_gzip
  extract_archive (some a) = extract_entries a.entries a.ends []

  -- contains
  abbrev pub contains : List String → String → Bool
  contains values want = any (λ value. str_eq value want) values

  abbrev pub check_kind : String → Node → Result FileError (Unit {0})
  check_kind name symlink = err (symlink_entry name)
  check_kind name _ = ok tt

  -- The loop over the entries of the directory.
  unfoldable pub check_listing : List String → Dict Node → Result FileError (Unit {0})
  check_listing declared [] = ok tt
  check_listing declared ((name, node) ∷ dir) = do
    check_kind name node
    guard (contains declared name) (unexpected name)
    check_listing declared dir

  abbrev pub regular_file : String → Option Node → Result FileError (List ℕ)
  regular_file name none = err (missing name)
  regular_file name (some (regular content)) = call (stat name) >> ok content
  regular_file name (some symlink) = call (stat name) >> err (not_regular name)
  regular_file name (some directory) = call (stat name) >> err (not_regular name)

  -- The loop over the declared files.
  unfoldable pub pick_declared : Dict Node → List String → Result FileError (Dict (List ℕ))
  unfolding lookup
  pick_declared dir [] = ok []
  pick_declared dir (name ∷ declared) = do
    content ← regular_file name (lookup name dir)
    rest ← pick_declared dir declared
    ok ((name, content) ∷ rest)

  abbrev pub is_nil {ℓ} : {A : Type ℓ} → List A → Bool
  is_nil [] = true
  is_nil (_ ∷ _) = false

  -- listSubmissionFiles
  unfoldable pub list_submission_files : Dict Node → List String → Result FileError (Dict (List ℕ))
  list_submission_files dir declared = do
    guard (not (is_nil declared)) files_required
    call read_dir
    check_listing declared dir
    pick_declared dir declared

  -- The loop of StageSubmissionDir over copyFile.
  unfoldable pub copy_files : Dict (List ℕ) → Dict Node → Result FileError (Dict Node)
  copy_files [] dir = ok dir
  copy_files ((name, content) ∷ files) dir = do
    call (copy name)
    copy_files files (put name (regular content) dir)

  -- StageSubmissionDir, with CreateWorkspace and EnsureSubmissionDir; the directory is new.
  unfoldable pub stage_submission_dir : Dict Node → List String → Result FileError (Dict Node)
  unfolding list_submission_files copy_files
  stage_submission_dir source declared = do
    call stage_workspace
    call stage_dir
    files ← list_submission_files source declared
    copy_files files []
