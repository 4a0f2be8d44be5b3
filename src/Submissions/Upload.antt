-- ===== src/Submissions/Upload.antt =====
-- Which uploads validateFiles accepts: apps/api/internal/service/submissions/service.go.
use lab_kit.Prelude.{
  ℕ, ◌≡◌, refl, ◌↔◌, String, some, List, [], ◌∷◌, Bool, true, false, ◌&&◌, ◌||◌, not, any, arith,
  All, ltb, str_eq, eq_iff, length, sym, ◌≢◌, Option-cases, inl, inr,
}
use lab_kit.Prelude.Results.{ok, Result-cases}
use lab_kit.Submissions.Files.{
  UploadFile, Floats, bad_name, listed, check_file, check_files, require_all, parse_max_size,
  validate_files,
}

-- A file with a clean name that the manifest lists, and of at most the given size.
abbrev pub fits : List String → ℕ → UploadFile → Bool
fits expected limit f =
    not (bad_name f.name) && listed f.name expected && not (ltb limit (length f.content))

abbrev pub has_name : String → List UploadFile → Bool
has_name n files = any (λ f. str_eq f.name n) files

abbrev pub IsDistinct : List UploadFile → Type 0
IsDistinct [] = Unit
IsDistinct (f ∷ files) = (has_name f.name files ≡ false) × IsDistinct files

-- None of the files has a name that was seen.
abbrev IsNew : List String → List UploadFile → Type 0
IsNew seen [] = Unit
IsNew seen (f ∷ files) = (listed f.name seen ≡ false) × IsNew seen files

IsNew-cons :
    (n : String) (seen : List String) (files : List UploadFile)
    → IsNew (n ∷ seen) files
    → (has_name n files ≡ false) × IsNew seen files
IsNew-cons n seen [] h = (refl, tt)
IsNew-cons n seen (f ∷ files) (h, t) =
    let (a, b) = IsNew-cons n seen files t in
    (ground (arith, eq_iff n f.name, eq_iff f.name n), (ground arith, b))

nothing_seen : (files : List UploadFile) → IsNew [] files
nothing_seen [] = tt
nothing_seen (f ∷ files) = (refl, nothing_seen files)

cons-IsNew :
    (n : String) (seen : List String) (files : List UploadFile)
    → has_name n files ≡ false
    → IsNew seen files
    → IsNew (n ∷ seen) files
cons-IsNew n seen [] h t = tt
cons-IsNew n seen (f ∷ files) h (a, b) =
    (ground (arith, eq_iff n f.name, eq_iff f.name n), cons-IsNew n seen files (ground arith) b)

module _ (expected : List String) (limit : ℕ) where
  abbrev pub FitAll : List UploadFile → Type 0
  FitAll = All (λ f. fits expected limit f ≡ true)

  check_file_ok :
      (seen : List String) (f : UploadFile)
      → check_file expected limit seen f ≡ ok tt
      → (fits expected limit f ≡ true) × (listed f.name seen ≡ false)
  unfolding check_file
  check_file_ok seen f e = (ground arith, ground arith)

  ok_check_file :
      (seen : List String) (f : UploadFile)
      → fits expected limit f ≡ true
      → listed f.name seen ≡ false
      → check_file expected limit seen f ≡ ok tt
  unfolding check_file
  ok_check_file seen f g h = ground arith

  check_files_ok :
      (seen seen' : List String) (files : List UploadFile)
      → check_files expected limit seen files ≡ ok seen'
      → FitAll files
        × IsDistinct files
        × IsNew seen files
        × ((n : String) → listed n seen' ≡ (listed n seen || has_name n files))
  unfolding check_files
  check_files_ok seen seen' [] e = (tt, tt, tt, λ n. ground arith)
  check_files_ok seen seen' (f ∷ files) e = elim (Result-cases (check_file expected limit seen f)) [
    | inr (x, h) ↦ ground arith
    | inl (_, h) ↦
        let (a, b, c, d) = check_files_ok (f.name ∷ seen) seen' files (ground arith) in
        let (g, k) = check_file_ok seen f h in
        let (o, p) = IsNew-cons f.name seen files c in
        ((g, a), (o, b), (k, p), λ n. ground (arith, d n))
  ]

  ok_check_files :
      (seen : List String) (files : List UploadFile)
      → FitAll files
      → IsDistinct files
      → IsNew seen files
      → (seen' : List String) × (check_files expected limit seen files ≡ ok seen')
  unfolding check_files
  ok_check_files seen [] a b c = (seen, refl)
  ok_check_files seen (f ∷ files) (g, a) (o, b) (k, p) =
      let (seen', e) =
        ok_check_files (f.name ∷ seen) files a b (cons-IsNew f.name seen files o p) in
      (seen', rw (ok_check_file seen f g k) e)

AllListed : List String → (String → Bool) → Type 0
AllListed names test = All (λ n. test n ≡ true) names

require_all_ok :
    (names seen : List String)
    → require_all names seen ≡ ok tt
    → AllListed names (λ n. listed n seen)
unfolding require_all AllListed
require_all_ok [] seen e = tt
require_all_ok (n ∷ names) seen e = (ground arith, require_all_ok names seen (ground arith))

ok_require_all :
    (names seen : List String)
    → AllListed names (λ n. listed n seen)
    → require_all names seen ≡ ok tt
unfolding require_all AllListed
ok_require_all [] seen h = refl
ok_require_all (n ∷ names) seen (h, t) = rw h (ok_require_all names seen t)

same_listed :
    (names : List String) (p q : String → Bool)
    → ((n : String) → p n ≡ q n)
    → AllListed names p
    → AllListed names q
unfolding AllListed
same_listed [] p q e h = tt
same_listed (n ∷ names) p q e (h, t) = (ground (arith, e n), same_listed names p q e t)

-- What the manifest asks of an upload.
pub record IsUpload (expected : List String) (limit : ℕ) (files : List UploadFile) : Type 0 where
  pub some_file : files ≢ []
  pub all_fit : All (λ f. fits expected limit f ≡ true) files
  pub distinct : IsDistinct files
  pub all_there : All (λ n. has_name n files ≡ true) expected

module _ {F : Type 0} (fl : Floats F) (expected : List String) (max_size : String) where
  validate_all :
      (f : UploadFile) (files : List UploadFile) (limit : ℕ) (seen : List String)
      → parse_max_size fl max_size ≡ some limit
      → check_files expected limit [] (f ∷ files) ≡ ok seen
      → require_all expected seen ≡ ok tt
      → validate_files fl expected max_size (f ∷ files) ≡ ok tt
  unfolding validate_files
  validate_all f files limit seen h g r = ground arith

  -- validateFiles accepts exactly the uploads that have a file, whose files have clean names of the
  -- manifest's list, each once and all of them there, and sizes within the limit that max_size
  -- stands for.
  pub validate_files_iff :
      (files : List UploadFile)
      → (validate_files fl expected max_size files ≡ ok tt ↔ (
          (limit : ℕ) × (parse_max_size fl max_size ≡ some limit) × IsUpload expected limit files))
  unfolding validate_files AllListed
  validate_files_iff [] = (λ e. ground arith, λ (l, _, u). elim (u.some_file refl) [ ])
  validate_files_iff (f ∷ files) = (
    (λ e. elim (Option-cases (parse_max_size fl max_size)) [
      | inl h ↦ ground arith
      | inr (limit, h) ↦ elim (Result-cases (check_files expected limit [] (f ∷ files))) [
        | inr (x, g) ↦ ground arith
        | inl (seen, g) ↦
            let (a, b, c, d) = check_files_ok expected limit [] seen (f ∷ files) g in
            (
              limit,
              h,
              record {
                some_file = λ x. cc;
                all_fit = a;
                distinct = b;
                all_there =
                    same_listed expected (λ n. listed n seen) (λ n. has_name n (f ∷ files)) d
                      (require_all_ok expected seen (ground arith));
              },
            )
      ]
    ]),
    λ (limit, h, u).
        let (seen, g) =
          ok_check_files expected limit [] (f ∷ files) u.all_fit u.distinct
            (nothing_seen (f ∷ files)) in
        let (_, _, _, d) = check_files_ok expected limit [] seen (f ∷ files) g in
        let r = ok_require_all expected seen (
          same_listed expected (λ n. has_name n (f ∷ files)) (λ n. listed n seen) (λ n. sym (d n))
            u.all_there) in
        validate_all f files limit seen h g r,
  )
