-- ===== src/Prelude/Text.antt =====
-- Go's `strings.TrimSpace` and its relatives over texts as sequences of code points.
use Prim.Native.Nat.{ℕ}
use Prim.Native.Char.{code}
use Prim.Native.String.{String, [], ◌∷◌}
use mathlib.Core.Bool.{Bool, true, false, ◌||◌, ◌&&◌}
use lab_kit.Prelude.Tests.{leb, ◌==◌, if◌then◌else◌}

abbrev pub is_empty : String → Bool
is_empty [] = true
is_empty (_ ∷ _) = false

-- `unicode.IsSpace`.
unfoldable pub is_space : ℕ → Bool
is_space c =
    leb 9 c && leb c 13
    || c == 32
    || c == 0x85
    || c == 0xa0
    || c == 0x1680
    || leb 0x2000 c && leb c 0x200a
    || c == 0x2028
    || c == 0x2029
    || c == 0x202f
    || c == 0x205f
    || c == 0x3000

unfoldable pub trim_left : String → String
unfolding is_space
trim_left [] = []
trim_left (c ∷ s) = if is_space (code c) then trim_left s else c ∷ s

unfoldable pub trim_right : String → String
unfolding is_space
trim_right [] = []
trim_right (c ∷ s) =
    let rest = trim_right s in if is_space (code c) && is_empty rest then [] else c ∷ rest

-- `strings.TrimSpace`.
unfoldable pub trim_space : String → String
unfolding trim_left trim_right
trim_space s = trim_right (trim_left s)

-- The test that a text holds a code point, `strings.Contains` of a one-letter text.
unfoldable pub contains_code : ℕ → String → Bool
contains_code n [] = false
contains_code n (c ∷ s) = code c == n || contains_code n s
