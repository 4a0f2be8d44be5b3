-- ===== src/Submissions/Archive.antt =====
-- Archive: apps/api/internal/storage/artifacts.go. The tar and gzip writers are one parameter, and
-- the hexadecimal SHA-256 another.
use mathlib.Core.Option
use lab_kit.Prelude.{ℕ, String, Option, List, [], ◌∷◌, if◌then◌else◌}
use lab_kit.Auth.{text_le}
use lab_kit.Submissions.Files.{UploadFile}

pub record Packer : Type 0 where
  pub pack : List UploadFile → Option (List ℕ)
  pub digest : List ℕ → String

unfoldable pub insert_file : UploadFile → List UploadFile → List UploadFile
insert_file f [] = f ∷ []
insert_file f (g ∷ files) = if text_le f.name g.name then f ∷ g ∷ files else g ∷ insert_file f files

-- slices.SortFunc by name.
unfoldable pub sort_files : List UploadFile → List UploadFile
unfolding insert_file
sort_files [] = []
sort_files (f ∷ files) = insert_file f (sort_files files)

-- Archive
unfoldable pub archive_of : Packer → List UploadFile → Option (List ℕ × String)
archive_of p files = Option.map (λ bytes. (bytes, p.digest bytes)) (p.pack (sort_files files))
