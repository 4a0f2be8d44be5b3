-- ===== src/Evaluator/LastLine.antt =====
-- What ExtractLastLine returns: packages/go/evaluator/validate.go.
use lab_kit.Prelude.{
  ℕ, ◌≡◌, refl, ◌⊎◌, inl, inr, List, [], ◌∷◌, ◌++◌, true, false, any, arith, ◌==◌, Bool-cases, sym,
  ◌∙◌, ap,
}
use mathlib.Core.List.{append_assoc}
use lab_kit.Evaluator.{newline, ends_with, drop_last, split_lines, last_of, last_segment}

-- A byte at the end.
pub ends_with-snoc : (c d : ℕ) (xs : List ℕ) → ends_with c (xs ++ d ∷ []) ≡ (d == c)
unfolding ends_with
ends_with-snoc c d [] = refl
ends_with-snoc c d (x ∷ []) = refl
ends_with-snoc c d (x ∷ y ∷ xs) = ends_with-snoc c d (y ∷ xs)

pub drop_last-snoc : (d : ℕ) (xs : List ℕ) → drop_last (xs ++ d ∷ []) ≡ xs
unfolding drop_last
drop_last-snoc d [] = refl
drop_last-snoc d (x ∷ []) = refl
drop_last-snoc d (x ∷ y ∷ xs) = ap (λ (l : List ℕ). x ∷ l) (drop_last-snoc d (y ∷ xs))

pub snoc_of_ends : (c : ℕ) (xs : List ℕ) → ends_with c xs ≡ true → xs ≡ drop_last xs ++ c ∷ []
unfolding ends_with drop_last
snoc_of_ends c [] e = cc
snoc_of_ends c (x ∷ []) e = ground arith
snoc_of_ends c (x ∷ y ∷ xs) e = ap (λ (l : List ℕ). x ∷ l) (snoc_of_ends c (y ∷ xs) e)

abbrev pub HasNoNewline : List ℕ → Type 0
HasNoNewline xs = any (λ b. b == newline) xs ≡ false

-- What stands before a line: nothing, or bytes that end with a line terminator.
abbrev pub IsStart : List ℕ → Type 0
IsStart before = (before ≡ []) ⊎ (ends_with newline before ≡ true)

-- A text with no terminator is its own last segment.
split_one : (xs : List ℕ) → HasNoNewline xs → split_lines xs ≡ xs ∷ []
unfolding split_lines
split_one [] h = refl
split_one (x ∷ xs) h =
    let tail : HasNoNewline xs = ground arith in
    let other : (x == newline) ≡ false = ground arith in rw (other, split_one xs tail)

split_lines_cons : (xs : List ℕ) → (l : List ℕ) × (ls : List (List ℕ)) × (split_lines xs ≡ l ∷ ls)
unfolding split_lines
split_lines_cons [] = ([], [], refl)
split_lines_cons (x ∷ xs) =
    let (l, ls, e) = split_lines_cons xs in
    elim (Bool-cases (x == newline)) [
      | inl nl ↦ ([], l ∷ ls, rw (nl, e))
      | inr other ↦ (x ∷ l, ls, rw (other, e))
    ]

-- Behind a terminator the last segment is that of what follows.
last_after :
    (xs l : List ℕ)
    → ((a b : List ℕ) × (ls : List (List ℕ)) × (split_lines (xs ++ newline ∷ l) ≡ a ∷ b ∷ ls)
        × (last_of (b ∷ ls) ≡ last_segment l))
unfolding split_lines last_of
last_after [] l = let (a, ls, e) = split_lines_cons l in ([], a, ls, rw e, rw e)
last_after (x ∷ xs) l =
    let (a, b, ls, e, same) = last_after xs l in
    elim (Bool-cases (x == newline)) [
      | inl nl ↦ ([], a, b ∷ ls, rw (nl, e), same)
      | inr other ↦ (x ∷ a, b, ls, rw (other, e), same)
    ]

last_segment_after : (xs l : List ℕ) → HasNoNewline l → last_segment (xs ++ newline ∷ l) ≡ l
unfolding last_of
last_segment_after xs l h =
    let (a, b, ls, e, same) = last_after xs l in rw e (same ∙ ap last_of (split_one l h))

last_segment_alone : (l : List ℕ) → HasNoNewline l → last_segment l ≡ l
unfolding last_of
last_segment_alone l h = ap last_of (split_one l h)

-- Any text is what stands before its last line, and that line.
last_line_apart :
    (xs : List ℕ)
    → HasNoNewline xs
      ⊎ ((before line : List ℕ) × (xs ≡ before ++ newline ∷ line) × HasNoNewline line)
last_line_apart [] = inl refl
last_line_apart (x ∷ xs) = elim (last_line_apart xs) [
  | inl alone ↦ elim (Bool-cases (x == newline)) [
    | inl nl ↦ inr ([], xs, ap (λ (b : ℕ). b ∷ xs) (ground arith), alone)
    | inr other ↦ inl (rw (other, alone) refl)
  ]
  | inr (before, line, e, one) ↦ inr (x ∷ before, line, ap (λ (l : List ℕ). x ∷ l) e, one)
]

pub last_segment_parts :
    (xs : List ℕ)
    → (before : List ℕ) × (xs ≡ before ++ last_segment xs)
      × IsStart before
      × HasNoNewline (last_segment xs)
last_segment_parts xs = elim (last_line_apart xs) [
  | inl alone ↦
      ([], sym (last_segment_alone xs alone), inl refl, rw (last_segment_alone xs alone) alone)
  | inr (before, line, e, one) ↦
      let found : last_segment xs ≡ line = rw e (last_segment_after before line one) in
      (
        before ++ newline ∷ [],
        e
            ∙ sym (append_assoc before (newline ∷ []) line)
            ∙ ap (λ (l : List ℕ). (before ++ newline ∷ []) ++ l) (sym found),
        inr (ends_with-snoc newline newline before),
        rw found one,
      )
]

pub last_segment_unique :
    (before line : List ℕ)
    → IsStart before
    → HasNoNewline line
    → last_segment (before ++ line) ≡ line
last_segment_unique before line (inl e) one = rw e (last_segment_alone line one)
last_segment_unique before line (inr e) one =
    let apart : before ++ line ≡ drop_last before ++ newline ∷ line =
      ap (λ (l : List ℕ). l ++ line) (snoc_of_ends newline before e)
      ∙ append_assoc (drop_last before) (newline ∷ []) line in
    rw apart (last_segment_after (drop_last before) line one)
