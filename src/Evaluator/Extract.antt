-- ===== src/Evaluator/Extract.antt =====
-- ExtractLastLine against a description of the last line: packages/go/evaluator/validate.go.
use lab_kit.Prelude.{
  ℕ, ◌≡◌, refl, ◌≢◌, ◌↔◌, ◌⊎◌, inl, inr, List, [], ◌∷◌, ◌++◌, Bool, true, false, arith,
  if◌then◌else◌, Bool-cases, sym, ◌∙◌, ap,
}
use mathlib.Core.List.{append-nil}
use lab_kit.Prelude.Results.{ok}
use lab_kit.Evaluator.{
  newline, carriage_return, ends_with, drop_last, last_segment, trim_return, is_nil, last_line_of,
  extract_last_line,
}
use lab_kit.Evaluator.LastLine.{
  ends_with-snoc, drop_last-snoc, snoc_of_ends, HasNoNewline, IsStart, last_segment_parts,
  last_segment_unique,
}

abbrev pub return_bytes : Bool → List ℕ
return_bytes cr = if cr then carriage_return ∷ [] else []

abbrev pub newline_bytes : Bool → List ℕ
newline_bytes nl = if nl then newline ∷ [] else []

-- `line` is the last line of the text: not empty, with no terminator inside, at the start of the
-- text or behind a terminator, and followed by at most one carriage return (which is then no part
-- of it) and at most one terminator.
pub record IsLastLine (stdout line : List ℕ) : Type 0 where
  pub before : List ℕ
  pub returned : Bool
  pub ended : Bool
  pub whole : stdout ≡ (before ++ (line ++ return_bytes returned)) ++ newline_bytes ended
  pub starts : IsStart before
  pub single : HasNoNewline line
  pub nonempty : line ≢ []
  pub exact : (returned ≡ true) ⊎ (ends_with carriage_return line ≡ false)

-- The same for a text with its terminator taken off.
record IsTrimmedLine (text line : List ℕ) : Type 0 where
  before : List ℕ
  returned : Bool
  whole : text ≡ before ++ (line ++ return_bytes returned)
  starts : IsStart before
  single : HasNoNewline line
  nonempty : line ≢ []
  exact : (returned ≡ true) ⊎ (ends_with carriage_return line ≡ false)

no_newline-append : (xs ys : List ℕ) → HasNoNewline (xs ++ ys) → HasNoNewline xs
no_newline-append [] ys h = refl
no_newline-append (x ∷ xs) ys h = ground (arith, no_newline-append xs ys)

no_newline_both : (xs ys : List ℕ) → HasNoNewline xs → HasNoNewline ys → HasNoNewline (xs ++ ys)
no_newline_both [] ys h k = k
no_newline_both (x ∷ xs) ys h k = ground (arith, no_newline_both xs ys)

is_nil-false : (xs : List ℕ) → is_nil xs ≡ false → xs ≢ []
is_nil-false [] e h = cc
is_nil-false (x ∷ xs) e h = cc

not_nil : (xs : List ℕ) → xs ≢ [] → is_nil xs ≡ false
not_nil [] h = absurd (h refl)
not_nil (x ∷ xs) h = refl

last_line_sound : (text line : List ℕ) → last_line_of text ≡ ok line → IsTrimmedLine text line
unfolding trim_return
last_line_sound text line e =
    let (before, whole, starts, single) = last_segment_parts text in
    let segment = last_segment text in
    elim (Bool-cases (ends_with carriage_return segment)) [
      | inl cr ↦
          let same : line ≡ drop_last segment = ground arith in
          let full : segment ≡ line ++ carriage_return ∷ [] =
            snoc_of_ends carriage_return segment cr
            ∙ ap (λ (l : List ℕ). l ++ carriage_return ∷ []) (sym same) in
          record {
            before = before;
            returned = true;
            whole = whole ∙ ap (λ (l : List ℕ). before ++ l) full;
            starts = starts;
            single = no_newline-append line (carriage_return ∷ []) (rw full at single);
            nonempty = is_nil-false line (ground arith);
            exact = inl refl;
          }
      | inr plain ↦
          let same : line ≡ segment = ground arith in
          record {
            before = before;
            returned = false;
            whole = whole ∙ ap (λ (l : List ℕ). before ++ l) (sym same ∙ sym (append-nil line));
            starts = starts;
            single = rw same single;
            nonempty = is_nil-false line (ground arith);
            exact = inr (rw same plain);
          }
    ]

append-ne-nil : (xs ys : List ℕ) → ys ≢ [] → xs ++ ys ≢ []
append-ne-nil [] ys h e = h e
append-ne-nil (x ∷ xs) ys h e = cc

append-ne-nil_left : (xs ys : List ℕ) → xs ≢ [] → xs ++ ys ≢ []
append-ne-nil_left [] ys h e = absurd (h refl)
append-ne-nil_left (x ∷ xs) ys h e = cc

-- The last byte of a text is that of its non-empty end.
ends_with-append : (c : ℕ) (xs ys : List ℕ) → ys ≢ [] → ends_with c (xs ++ ys) ≡ ends_with c ys
unfolding ends_with
ends_with-append c [] ys h = refl
ends_with-append c (x ∷ []) [] h = absurd (h refl)
ends_with-append c (x ∷ []) (y ∷ ys) h = refl
ends_with-append c (x ∷ z ∷ xs) ys h = ends_with-append c (z ∷ xs) ys h

no_newline_end : (xs : List ℕ) → HasNoNewline xs → ends_with newline xs ≡ false
unfolding ends_with
no_newline_end [] h = refl
no_newline_end (x ∷ []) h = ground arith
no_newline_end (x ∷ y ∷ xs) h = no_newline_end (y ∷ xs) (ground arith)

returned_single :
    (line : List ℕ) (cr : Bool) → HasNoNewline line → HasNoNewline (line ++ return_bytes cr)
returned_single line true h = no_newline_both line (carriage_return ∷ []) h refl
returned_single line false h = no_newline_both line [] h refl

end_nonempty : (line : List ℕ) (cr : Bool) → line ≢ [] → line ++ return_bytes cr ≢ []
end_nonempty line cr h = append-ne-nil_left line (return_bytes cr) h

trimmed_end : (text line : List ℕ) → IsTrimmedLine text line → ends_with newline text ≡ false
trimmed_end text line t =
    let end = line ++ return_bytes t.returned in
    ap (ends_with newline) t.whole
    ∙ ends_with-append newline t.before end (end_nonempty line t.returned t.nonempty)
    ∙ no_newline_end end (returned_single line t.returned t.single)

trimmed_nonempty : (text line : List ℕ) → IsTrimmedLine text line → is_nil text ≡ false
trimmed_nonempty text line t = not_nil text (λ e.
    append-ne-nil t.before (line ++ return_bytes t.returned)
      (end_nonempty line t.returned t.nonempty) (sym t.whole ∙ e))

trim_back :
    (line : List ℕ) (cr : Bool)
    → (cr ≡ true) ⊎ (ends_with carriage_return line ≡ false)
    → trim_return (line ++ return_bytes cr) ≡ line
unfolding trim_return
trim_back line true h =
    rw (ends_with-snoc carriage_return carriage_return line) (drop_last-snoc carriage_return line)
trim_back line false (inl e) = cc
trim_back line false (inr e) = rw (append-nil line, e)

last_line_complete : (text line : List ℕ) → IsTrimmedLine text line → last_line_of text ≡ ok line
last_line_complete text line t =
    let segment : last_segment text ≡ line ++ return_bytes t.returned =
      ap (λ (l : List ℕ). last_segment l) t.whole
      ∙ last_segment_unique t.before (line ++ return_bytes t.returned) t.starts
          (returned_single line t.returned t.single) in
    let trimmed : trim_return (last_segment text) ≡ line =
      ap trim_return segment ∙ trim_back line t.returned t.exact in
    rw (trimmed_nonempty text line t, trimmed, not_nil line t.nonempty)

with_end :
    (ended : Bool) {text line : List ℕ} {stdout : List ℕ}
    → stdout ≡ text ++ newline_bytes ended
    → IsTrimmedLine text line
    → IsLastLine stdout line
with_end ended e t = record {
  before = t.before;
  returned = t.returned;
  ended = ended;
  whole = e ∙ ap (λ (l : List ℕ). l ++ newline_bytes ended) t.whole;
  starts = t.starts;
  single = t.single;
  nonempty = t.nonempty;
  exact = t.exact;
}

extract_sound : (stdout line : List ℕ) → extract_last_line stdout ≡ ok line → IsLastLine stdout line
unfolding extract_last_line
extract_sound stdout line e = elim (Bool-cases (ends_with newline stdout)) [
  | inl nl ↦
      with_end true (snoc_of_ends newline stdout nl)
        (last_line_sound (drop_last stdout) line (ground arith))
  | inr open_end ↦
      with_end false (sym (append-nil stdout)) (last_line_sound stdout line (ground arith))
]

extract_text :
    (text line : List ℕ) (ended : Bool)
    → IsTrimmedLine text line
    → extract_last_line (text ++ newline_bytes ended) ≡ ok line
unfolding extract_last_line
extract_text text line true t =
    rw
      (
        not_nil (text ++ newline ∷ []) (append-ne-nil text (newline ∷ []) (λ e. cc)),
        ends_with-snoc newline newline text,
        drop_last-snoc newline text,
        trimmed_end text line t,
      )
      (last_line_complete text line t)
extract_text text line false t =
    let full = trimmed_nonempty text line t in
    rw (append-nil text, full, trimmed_end text line t)
      (rw full at (last_line_complete text line t))

-- ExtractLastLine returns a line exactly if it is the last line of the output: not empty, behind
-- the last terminator but one closing terminator, and without the carriage return that closes it.
pub extract_iff :
    (stdout line : List ℕ) → (extract_last_line stdout ≡ ok line) ↔ IsLastLine stdout line
extract_iff stdout line = (
  extract_sound stdout line,
  λ l. rw (l.whole) (
      extract_text (l.before ++ (line ++ return_bytes l.returned)) line l.ended (record {
        before = l.before;
        returned = l.returned;
        whole = refl;
        starts = l.starts;
        single = l.single;
        nonempty = l.nonempty;
        exact = l.exact;
      })),
)
