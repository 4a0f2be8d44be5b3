-- ===== src/Worker/Paths.antt =====
-- path.Clean, as extractArchiveToDir uses it: apps/worker/cmd/labkit-worker/runtime_handler.go.
use Prim.Native.Char.{Char, code}
use Prim.Native.String.{◌++◌ as append}
use lab_kit.Prelude.{String, List, [], ◌∷◌, Bool, false, ◌||◌, ◌==◌, if◌then◌else◌, str_eq}
use lab_kit.Prelude.Text.{is_empty, contains_code}

abbrev pub is_slash : Char → Bool
is_slash c = code c == b'/'

-- path.IsAbs
abbrev pub is_abs : String → Bool
is_abs String.[] = false
is_abs (String.◌∷◌ c s) = is_slash c

-- strings.HasPrefix(s, "..")
abbrev pub starts_dots : String → Bool
starts_dots String.[] = false
starts_dots (String.◌∷◌ c String.[]) = false
starts_dots (String.◌∷◌ c (String.◌∷◌ d s)) = if code c == b'.' then code d == b'.' else false

abbrev pub push_letter : Char → List String → List String
push_letter c [] = String.◌∷◌ c "" ∷ []
push_letter c (p ∷ parts) = String.◌∷◌ c p ∷ parts

-- What stands between the slashes.
unfoldable pub split : String → List String
split String.[] = "" ∷ []
split (String.◌∷◌ c s) = let rest = split s in if is_slash c then "" ∷ rest else push_letter c rest

-- One part of the path, onto the parts that are kept, the last one first.
abbrev pub step_up : Bool → List String → List String
step_up rooted [] = if rooted then [] else ".." ∷ []
step_up rooted (k ∷ kept) = if str_eq k ".." then ".." ∷ k ∷ kept else kept

abbrev pub keep_part : Bool → List String → String → List String
keep_part rooted kept part =
    if is_empty part || str_eq part "."
    then kept
    else if str_eq part ".."
    then step_up rooted kept
    else part ∷ kept

unfoldable pub clean_parts : Bool → List String → List String → List String
clean_parts rooted kept [] = kept
clean_parts rooted kept (part ∷ parts) = clean_parts rooted (keep_part rooted kept part) parts

-- The kept parts with slashes between them, before a text.
unfoldable pub join_parts : List String → String → String
join_parts [] tail = tail
join_parts (k ∷ kept) tail =
    join_parts kept (if is_empty tail then k else append k (append "/" tail))

unfoldable pub clean : String → String
unfolding clean_parts join_parts split
clean s =
    let joined = join_parts (clean_parts (is_abs s) [] (split s)) "" in
    if is_abs s then append "/" joined else if is_empty joined then "." else joined

-- The test of extractArchiveToDir on a cleaned name.
unfoldable pub is_bad_entry : String → Bool
unfolding contains_code
is_bad_entry name = str_eq name "." || is_abs name || contains_code b'/' name || starts_dots name
