-- ===== src/Worker/Directory.antt =====
-- What the loops over an archive and a directory leave when nothing fails: extractArchiveToDir of
-- apps/worker/cmd/labkit-worker/runtime_handler.go and apps/worker/internal/runtime/tempdir.go.
use lab_kit.Prelude.{
  ℕ, ◌≡◌, refl, sym, ap, ◌∙◌, String, some, List, [], ◌∷◌, Bool, true, false, arith, map, All, In,
  if◌then◌else◌, str_eq, eq_iff, Bool-cases, inl, inr,
}
use lab_kit.Prelude.Dict.{Dict, lookup}
use lab_kit.Prelude.Results.{ok}
use lab_kit.Submissions.Files.{UploadFile, bad_name, listed}
use lab_kit.Submissions.Upload.{has_name}
use lab_kit.Worker.Workspace.{
  Call, Entry, Node, regular, put, extract_entry, extract_entries, check_listing, pick_declared,
  copy_files,
}
use lab_kit.Worker.Staging.{IsPlain, clean_plain, lookup-put, All-put, AreOne}

-- An uploaded file as the archive has it.
abbrev pub entry_of : UploadFile → Entry
entry_of f = record { name = f.name; is_dir = false; content = some f.content }

unfoldable pub puts : List UploadFile → Dict Node → Dict Node
puts [] dir = dir
puts (f ∷ files) dir = puts files (put f.name (regular f.content) dir)

-- What the checks of an upload say of a file's name.
abbrev pub IsNamed : UploadFile → Type 0
IsNamed f = (bad_name f.name ≡ false) × IsPlain f.name

puts_other :
    (n : String) (files : List UploadFile) (dir : Dict Node)
    → has_name n files ≡ false
    → lookup n (puts files dir) ≡ lookup n dir
unfolding puts
puts_other n [] dir h = refl
puts_other n (f ∷ files) dir h =
    puts_other n files (put f.name (regular f.content) dir) (ground arith)
    ∙ lookup-put n f.name (regular f.content) dir
    ∙ ground arith

pub named_one :
    (n : String) (files : List UploadFile)
    → has_name n files ≡ true
    → (g : UploadFile) × In g files × (g.name ≡ n)
named_one n (g ∷ files) h = elim (Bool-cases (str_eq g.name n)) [
  | inl same ↦ (g, inl refl, (eq_iff g.name n).0 same)
  | inr other ↦ let (k, m, e) = named_one n files (ground arith) in (k, inr m, e)
]
named_one n [] h = absurd (ground arith)

pub puts_listed :
    (f : UploadFile) (files : List UploadFile) (dir : Dict Node)
    → AreOne files
    → In f files
    → lookup f.name (puts files dir) ≡ some (regular f.content)
unfolding puts
puts_listed f [] dir one m = absurd m
puts_listed f (g ∷ files) dir one (inr m) =
    puts_listed f files (put g.name (regular g.content) dir)
      (λ x y i j s. one x y (inr i) (inr j) s) m
puts_listed f (g ∷ files) dir one (inl e) = elim (Bool-cases (has_name f.name files)) [
  | inr alone ↦
      let same_name : str_eq g.name f.name ≡ true =
        (eq_iff g.name f.name).1 (ap (λ (x : UploadFile). x.name) (sym e)) in
      puts_other f.name files (put g.name (regular g.content) dir) alone
      ∙ lookup-put f.name g.name (regular g.content) dir
      ∙ rw same_name (ap (λ (x : UploadFile). some (regular x.content)) (sym e))
  | inl again ↦
      let (k, m, named) = named_one f.name files again in
      let it : f ≡ k = one f k (inl e) (inr m) (sym named) in
      rw it (
        puts_listed k files (put g.name (regular g.content) dir)
          (λ x y i j s. one x y (inr i) (inr j) s) m)
]

-- A regular file that is declared.
abbrev pub IsDeclared : List String → String × Node → Type 0
IsDeclared declared entry =
    (listed entry.0 declared ≡ true) × ((content : List ℕ) × (entry.1 ≡ regular content))

pub puts-IsDeclared :
    (declared : List String) (files : List UploadFile) (dir : Dict Node)
    → All (λ f. listed f.name declared ≡ true) files
    → All (IsDeclared declared) dir
    → All (IsDeclared declared) (puts files dir)
unfolding puts
puts-IsDeclared declared [] dir h d = d
puts-IsDeclared declared (f ∷ files) dir (h, t) d =
    puts-IsDeclared declared files (put f.name (regular f.content) dir) t
      (All-put (IsDeclared declared) f.name (regular f.content) dir (h, (f.content, refl)) d)

module _ (fails : Call → Bool) (up : (c : Call) → fails c ≡ false) where
  extract_one :
      (f : UploadFile) (dir : Dict Node)
      → IsNamed f
      → extract_entry fails (entry_of f) dir ≡ ok (put f.name (regular f.content) dir)
  unfolding extract_entry
  extract_one f dir (good, plain) =
      let (same, fine) = clean_plain f.name good plain in
      rw (same, fine, up (Call.create f.name)) refl

  pub extract_all :
      (files : List UploadFile) (dir : Dict Node)
      → All IsNamed files
      → extract_entries fails (map entry_of files) true dir ≡ ok (puts files dir)
  unfolding extract_entries puts
  extract_all [] dir h = refl
  extract_all (f ∷ files) dir (h, t) =
      rw (extract_one f dir h) (extract_all files (put f.name (regular f.content) dir) t)

  pub listing_ok :
      (declared : List String) (dir : Dict Node)
      → All (IsDeclared declared) dir
      → check_listing fails declared dir ≡ ok tt
  unfolding check_listing
  listing_ok declared [] h = refl
  listing_ok declared ((name, node) ∷ dir) ((there, (content, kind)), t) =
      rw (kind, there) (listing_ok declared dir t)

  module _ (content_of : String → List ℕ) where
    abbrev pair_of : String → String × List ℕ
    pair_of n = (n, content_of n)

    pub pick_ok :
        (dir : Dict Node) (declared : List String)
        → All (λ n. lookup n dir ≡ some (regular (content_of n))) declared
        → pick_declared fails dir declared ≡ ok (map pair_of declared)
    unfolding pick_declared
    pick_ok dir [] h = refl
    pick_ok dir (n ∷ declared) (h, t) = rw (h, up (Call.stat n), pick_ok dir declared t) refl

    pub copies_ok :
        (names : List String) (dir : Dict Node)
        → (dir' : Dict Node) × (copy_files fails (map pair_of names) dir ≡ ok dir')
          × ((n : String)
              → lookup n dir'
                ≡ (if listed n names then some (regular (content_of n)) else lookup n dir))
    unfolding copy_files
    copies_ok [] dir = (dir, refl, λ n. refl)
    copies_ok (x ∷ names) dir =
        let (dir', e, h) = copies_ok names (put x (regular (content_of x)) dir) in
        (
          dir',
          rw (up (Call.copy x)) e,
          λ n. ground (arith, h n, lookup-put n x (regular (content_of x)) dir, eq_iff x n),
        )
