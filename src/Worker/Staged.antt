-- ===== src/Worker/Staged.antt =====
-- From an accepted upload to the directory that the evaluator gets: extractArchiveToDir of
-- apps/worker/cmd/labkit-worker/runtime_handler.go and StageSubmissionDir of
-- apps/worker/internal/runtime/tempdir.go.
use lab_kit.Prelude.{
  ℕ, ◌≡◌, ◌≢◌, refl, sym, ap, ◌∙◌, String, Option, none, some, List, [], ◌∷◌, Bool, true, false,
  arith, find, map, All, All-In, All-imp, In, if◌then◌else◌, str_eq, eq_iff, Bool-cases,
  Option-cases, inl, inr,
}
use lab_kit.Prelude.Members.{find-In}
use lab_kit.Prelude.Dict.{Dict, lookup}
use lab_kit.Prelude.Results.{ok}
use lab_kit.Submissions.Files.{UploadFile, Floats, listed, validate_files}
use lab_kit.Submissions.Archive.{Packer, sort_files, archive_of}
use lab_kit.Submissions.Upload.{has_name, fits, IsUpload, validate_files_iff}
use lab_kit.Worker.Workspace.{
  Call, Archive, Node, regular, extract_archive, stage_submission_dir, is_nil,
}
use lab_kit.Worker.Staging.{IsPlain, sort_files-In, In-sort_files, AreOne, IsDistinct-AreOne}
use lab_kit.Worker.Directory.{
  entry_of, puts, IsNamed, named_one, puts_listed, puts-IsDeclared, extract_all, listing_ok,
  pick_ok, copies_ok,
}

module _ (fails : Call → Bool) (up : (c : Call) → fails c ≡ false) where
  content_in : List UploadFile → String → List ℕ
  content_in files n = elim (find (λ f. str_eq f.name n) files) [ none ↦ [] | some f ↦ f.content ]

  content_in_listed :
      (f : UploadFile) (files : List UploadFile)
      → AreOne files
      → In f files
      → content_in files f.name ≡ f.content
  unfolding content_in
  content_in_listed f files one m = elim (Option-cases (find (λ g. str_eq g.name f.name) files)) [
    | inl h ↦ absurd (there files m h)
    | inr (g, h) ↦
        let (listed, named) = find-In (λ (x : UploadFile). str_eq x.name f.name) files g h in
        let it : g ≡ f = one g f listed m ((eq_iff g.name f.name).0 named) in
        rw (h, content_in) (ap (λ (x : UploadFile). x.content) it)
  ]
    where
      there : (fs : List UploadFile) → In f fs → find (λ g. str_eq g.name f.name) fs ≡ none → ⊥
      there (k ∷ fs) (inl e) h =
          let same : str_eq k.name f.name ≡ true =
            (eq_iff k.name f.name).1 (ap (λ (x : UploadFile). x.name) (sym e)) in
          ground arith
      there (k ∷ fs) (inr m) h = elim (Bool-cases (str_eq k.name f.name)) [
        | inl s ↦ ground arith
        | inr s ↦ there fs m (ground arith)
      ]
      there [] m h = absurd m

  sorted_all :
      (P : UploadFile → Type 0) (files : List UploadFile)
      → ((f : UploadFile) → In f files → P f)
      → All P files
  sorted_all P [] h = tt
  sorted_all P (f ∷ files) h = (h f (inl refl), sorted_all P files (λ g m. h g (inr m)))

  archive_packs :
      (p : Packer) (files : List UploadFile) (bytes : List ℕ) (hash : String)
      → archive_of p files ≡ some (bytes, hash)
      → p.pack (sort_files files) ≡ some bytes
  unfolding archive_of
  archive_packs p files bytes hash e = elim (Option-cases (p.pack (sort_files files))) [
    | inl h ↦ ground arith
    | inr (b, h) ↦ ground arith
  ]

  not_required :
      (n : String) (files : List UploadFile) (names : List String)
      → All (λ m. has_name m files ≡ true) names
      → has_name n files ≡ false
      → listed n names ≡ false
  not_required n files [] h none_there = refl
  not_required n files (m ∷ names) (h, t) none_there = elim (Bool-cases (str_eq m n)) [
    | inr other ↦ rw other (not_required n files names t none_there)
    | inl same ↦
        let it : m ≡ n = (eq_iff m n).0 same in
        let there : has_name n files ≡ true = rw it at h in absurd (ground arith)
  ]

  some_member : (fs : List UploadFile) → fs ≢ [] → (f : UploadFile) × In f fs
  some_member [] h = absurd (h refl)
  some_member (f ∷ fs) h = (f, inl refl)

  some_declared :
      (expected : List String) (n : String)
      → listed n expected ≡ true
      → is_nil fails expected ≡ false
  some_declared [] n h = absurd (ground arith)
  some_declared (e ∷ expected) n h = refl

  module _ (expected : List String) (limit : ℕ) (files : List UploadFile)
      (u : IsUpload expected limit files) (plain : All (λ f. IsPlain f.name) files) where
    fit : (f : UploadFile) → In f files → fits expected limit f ≡ true
    fit f m = All-In (λ g. fits expected limit g ≡ true) f files m u.all_fit

    named : (f : UploadFile) → In f (sort_files files) → IsNamed f
    named f m =
        let here = sort_files-In f files m in
        let fine = fit f here in
        (ground arith, All-In (λ (g : UploadFile). IsPlain g.name) f files here plain)

    declared : (f : UploadFile) → In f (sort_files files) → listed f.name expected ≡ true
    declared f m = let fine = fit f (sort_files-In f files m) in ground arith

    sorted_one : AreOne (sort_files files)
    sorted_one f g m n same =
        IsDistinct-AreOne files u.distinct f g (sort_files-In f files m) (sort_files-In g files n)
          same

    found_in :
        (n : String)
        → has_name n files ≡ true
        → lookup n (puts (sort_files files) []) ≡ some (regular (content_in files n))
    found_in n h =
        let (f, m, same) = named_one n files h in
        ap (λ (x : String). lookup x (puts (sort_files files) [])) (sym same)
        ∙ puts_listed f (sort_files files) [] sorted_one (In-sort_files f files m)
        ∙ ap (λ (c : List ℕ). some (regular c))
            (sym (content_in_listed f files (IsDistinct-AreOne files u.distinct) m))
        ∙ ap (λ (x : String). some (regular (content_in files x))) same

    stage_ok :
        (dir : Dict Node)
        → dir ≡ puts (sort_files files) []
        → (staged : Dict Node) × (stage_submission_dir fails dir expected ≡ ok staged)
          × ((n : String)
              → lookup n staged
                ≡ (if listed n expected then some (regular (content_in files n)) else none))
    unfolding stage_submission_dir lookup
    stage_ok dir same =
        let (f, m) = some_member files u.some_file in
        let nonempty = some_declared expected f.name (declared f (In-sort_files f files m)) in
        let listing = listing_ok fails up expected dir (
          rw same (
            puts-IsDeclared expected (sort_files files) []
              (sorted_all (λ g. listed g.name expected ≡ true) (sort_files files) declared) tt)) in
        let picks =
          pick_ok fails up (content_in files) dir expected
            (All-imp (λ n h. rw same (found_in n h)) expected u.all_there) in
        let (staged, copied, look) = copies_ok fails up (content_in files) expected [] in
        (
          staged,
          rw
              (
                up Call.stage_workspace,
                up Call.stage_dir,
                nonempty,
                up Call.read_dir,
                listing,
                picks,
              )
              copied,
          look,
        )

  -- An upload that validateFiles accepts, whose names are no dots, reaches the evaluator as it was
  -- sent: when the archive that is made of these files, sorted by name, is read back as regular files
  -- of their names and contents, and the file system answers, the worker extracts and stages it, and the staged directory has each of the files with its
  -- content, and nothing else.
  pub stage-archive :
      {F : Type 0} (fl : Floats F) (p : Packer) (unpack : List ℕ → Option Archive)
      (expected : List String) (max_size : String) (files : List UploadFile) (bytes : List ℕ)
      (hash : String)
      → validate_files fl expected max_size files ≡ ok tt
      → All (λ f. IsPlain f.name) files
      → archive_of p files ≡ some (bytes, hash)
      → ((b : List ℕ)
          → p.pack (sort_files files) ≡ some b
          → unpack b ≡ some (record { entries = map entry_of (sort_files files); ends = true }))
      → (dir : Dict Node) × (staged : Dict Node) × (extract_archive fails (unpack bytes) ≡ ok dir)
        × (stage_submission_dir fails dir expected ≡ ok staged)
        × ((f : UploadFile) → In f files → lookup f.name staged ≡ some (regular f.content))
        × ((n : String) → has_name n files ≡ false → lookup n staged ≡ none)
  unfolding extract_archive
  stage-archive fl p unpack expected max_size files bytes hash valid plain packed reads =
      let (limit, _, u) = (validate_files_iff fl expected max_size files).0 valid in
      let packs : p.pack (sort_files files) ≡ some bytes =
        archive_packs p files bytes hash packed in
      let dir = puts (sort_files files) [] in
      let (staged, done, look) = stage_ok expected limit files u plain dir refl in
      (
        dir,
        staged,
        rw (reads bytes packs) (
            extract_all fails up (sort_files files) []
              (sorted_all IsNamed (sort_files files) (named expected limit files u plain))),
        done,
        λ f m.
            look f.name
            ∙ rw (declared expected limit files u plain f (In-sort_files f files m)) (
                ap (λ (c : List ℕ). some (regular c))
                  (content_in_listed f files (IsDistinct-AreOne files u.distinct) m)),
        λ n h. look n ∙ rw (not_required n files expected u.all_there h) refl,
      )
