-- ===== src/Worker/Staging.antt =====
-- The names and the tables of a staged submission: extractArchiveToDir of
-- apps/worker/cmd/labkit-worker/runtime_handler.go and apps/worker/internal/runtime/tempdir.go, on
-- uploads that apps/api/internal/service/submissions accepts.
use lab_kit.Prelude.{
  ◌≡◌, refl, sym, ap, ◌∙◌, String, some, List, [], ◌∷◌, true, false, arith, All, In, if◌then◌else◌,
  str_eq, eq_iff, Bool-cases, inl, inr, ◌⊎◌,
}
use lab_kit.Prelude.Text.{is_empty, contains_code}
use lab_kit.Prelude.Dict.{Dict, lookup}
use lab_kit.Auth.{text_le}
use lab_kit.Submissions.Files.{UploadFile, bad_name}
use lab_kit.Submissions.Archive.{insert_file, sort_files}
use lab_kit.Submissions.Upload.{IsDistinct, has_name}
use lab_kit.Worker.Paths.{is_abs, starts_dots, split, clean, is_bad_entry}
use lab_kit.Worker.Workspace.{Node, put}

split_plain : (s : String) → contains_code b'/' s ≡ false → split s ≡ s ∷ []
unfolding split contains_code
split_plain String.[] e = refl
split_plain (String.◌∷◌ c s) e = ground (arith, split_plain s (ground arith))

abs_slash : (s : String) → contains_code b'/' s ≡ false → is_abs s ≡ false
unfolding contains_code
abs_slash String.[] e = refl
abs_slash (String.◌∷◌ c s) e = ground arith

dots : (s : String) → starts_dots s ≡ false → str_eq s ".." ≡ false
dots s e = elim (Bool-cases (str_eq s "..")) [
  | inr h ↦ h
  | inl h ↦ absurd (two ((eq_iff s "..").0 h))
]
  where
    two : s ≡ ".." → ⊥
    two same = differ (rw same at e)
      where
        differ : true ≡ false → ⊥
        differ p = ground arith

-- A name of one part that is neither `.` nor begins with `..`.
abbrev pub IsPlain : String → Type 0
IsPlain name = (str_eq name "." ≡ false) × (starts_dots name ≡ false)

pub clean_plain :
    (name : String)
    → bad_name name ≡ false
    → IsPlain name
    → (clean name ≡ name) × (is_bad_entry name ≡ false)
unfolding clean bad_name is_bad_entry
clean_plain name good (dot, up) =
    let slash : contains_code b'/' name ≡ false = ground arith in
    let some_letter : is_empty name ≡ false = ground arith in
    let relative = abs_slash name slash in
    let other = dots name up in
    (
      rw (split_plain name slash, relative, some_letter, dot, other, some_letter) refl,
      rw (dot, relative, slash, up) refl,
    )

pub lookup-put :
    (asked key : String) (node : Node) (dir : Dict Node)
    → lookup asked (put key node dir) ≡ (if str_eq key asked then some node else lookup asked dir)
unfolding lookup put
lookup-put asked key node [] = refl
lookup-put asked key node ((name, old) ∷ dir) =
    ground
      (arith, lookup-put asked key node dir, eq_iff name key, eq_iff name asked, eq_iff key asked)

pub All-put :
    (P : String × Node → Type 0) (key : String) (node : Node) (dir : Dict Node)
    → P (key, node)
    → All P dir
    → All P (put key node dir)
unfolding put
All-put P key node [] p h = (p, tt)
All-put P key node ((name, old) ∷ dir) p (h, t) = elim (Bool-cases (str_eq name key)) [
  | inl same ↦ rw same (p, t)
  | inr other ↦ elim (Bool-cases (text_le key name)) [
    | inl le ↦ rw (other, le) (p, (h, t))
    | inr gt ↦ rw (other, gt) (h, All-put P key node dir p t)
  ]
]

-- Sorting keeps the files.
insert_file-In :
    (f g : UploadFile) (files : List UploadFile) → In f (insert_file g files) → (f ≡ g) ⊎ In f files
unfolding insert_file
insert_file-In f g [] m = m
insert_file-In f g (h ∷ files) m = elim (Bool-cases (text_le g.name h.name)) [
  | inl le ↦ rw le at m
  | inr gt ↦ later (insert_file-In f g files) (rw gt at m)
]
  where
    later :
        (In f (insert_file g files) → (f ≡ g) ⊎ In f files)
        → In f (h ∷ insert_file g files)
        → (f ≡ g) ⊎ In f (h ∷ files)
    later rest (inl e) = inr (inl e)
    later rest (inr n) = elim (rest n) [ inl e ↦ inl e | inr k ↦ inr (inr k) ]

In-insert_file :
    (f g : UploadFile) (files : List UploadFile) → (f ≡ g) ⊎ In f files → In f (insert_file g files)
unfolding insert_file
In-insert_file f g [] m = m
In-insert_file f g (h ∷ files) m = elim (Bool-cases (text_le g.name h.name)) [
  | inl le ↦ rw le m
  | inr gt ↦ rw gt (later (In-insert_file f g files) m)
]
  where
    later :
        ((f ≡ g) ⊎ In f files → In f (insert_file g files))
        → (f ≡ g) ⊎ In f (h ∷ files)
        → In f (h ∷ insert_file g files)
    later rest (inl e) = inr (rest (inl e))
    later rest (inr (inl e)) = inl e
    later rest (inr (inr n)) = inr (rest (inr n))

pub sort_files-In :
    (f : UploadFile) (files : List UploadFile) → In f (sort_files files) → In f files
unfolding sort_files
sort_files-In f [] m = m
sort_files-In f (g ∷ files) m = elim (insert_file-In f g (sort_files files) m) [
  | inl e ↦ inl e
  | inr n ↦ inr (sort_files-In f files n)
]

pub In-sort_files :
    (f : UploadFile) (files : List UploadFile) → In f files → In f (sort_files files)
unfolding sort_files
In-sort_files f (g ∷ files) (inl e) = In-insert_file f g (sort_files files) (inl e)
In-sort_files f (g ∷ files) (inr n) =
    In-insert_file f g (sort_files files) (inr (In-sort_files f files n))
In-sort_files f [] m = absurd m

-- Files of one name are one file.
abbrev pub AreOne : List UploadFile → Type 0
AreOne files = (f g : UploadFile) → In f files → In g files → f.name ≡ g.name → f ≡ g

pub has_name-In :
    (n : String) (files : List UploadFile) (f : UploadFile)
    → In f files
    → f.name ≡ n
    → has_name n files ≡ true
has_name-In n (g ∷ files) f (inl e) same =
    let it : g.name ≡ n = ap (λ (x : UploadFile). x.name) (sym e) ∙ same in
    ground (arith, eq_iff g.name n)
has_name-In n (g ∷ files) f (inr m) same = ground (arith, has_name-In n files f m same)
has_name-In n [] f m same = absurd m

pub IsDistinct-AreOne : (files : List UploadFile) → IsDistinct files → AreOne files
IsDistinct-AreOne (h ∷ files) (alone, rest) f g (inl e) (inl e') same = e ∙ sym e'
IsDistinct-AreOne (h ∷ files) (alone, rest) f g (inl e) (inr m) same = absurd (
    differ
      (sym (has_name-In h.name files g m (sym same ∙ ap (λ (x : UploadFile). x.name) e)) ∙ alone))
  where
    differ : true ≡ false → ⊥
    differ p = ground arith
IsDistinct-AreOne (h ∷ files) (alone, rest) f g (inr m) (inl e) same =
    absurd (
      differ
        (sym (has_name-In h.name files f m (same ∙ ap (λ (x : UploadFile). x.name) e)) ∙ alone))
  where
    differ : true ≡ false → ⊥
    differ p = ground arith
IsDistinct-AreOne (h ∷ files) (alone, rest) f g (inr m) (inr n) same =
    IsDistinct-AreOne files rest f g m n same
IsDistinct-AreOne [] d f g m n same = absurd m
