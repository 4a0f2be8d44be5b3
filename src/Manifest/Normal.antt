-- ===== src/Manifest/Normal.antt =====
-- What Parse returns is normal and correct: packages/go/manifest/manifest.go.
use lab_kit.Prelude.{
  ◌≡◌, ◌↔◌, refl, String, Option, some, List, [], ◌∷◌, arith, map, Bool-cases, Option-cases,
  if◌then◌else◌, ◌∙◌, ap, sym, ◌⊎◌, inl, inr,
}
use lab_kit.Prelude.Text.{is_empty, trim_space}
use lab_kit.Prelude.Results.{Result, ok}
use lab_kit.Manifest.{Manifest, MetricSection, normalize, name_metric}
use lab_kit.Manifest.Validate.{
  validate, parse, parse_with, checked, ParseError, Problem, starts_with_brace,
}
use lab_kit.Manifest.Correct.{IsCorrect, validate_iff}

name_metric_idem : (m : MetricSection) → name_metric (name_metric m) ≡ name_metric m
name_metric_idem m = elim (Bool-cases (is_empty m.name)) [
  | inl e ↦ elim (Bool-cases (is_empty m.id)) [ inl f ↦ rw (e, f) refl | inr f ↦ rw (e, f) refl ]
  | inr e ↦ rw (e, e) refl
]

names_idem : (ms : List MetricSection) → map name_metric (map name_metric ms) ≡ map name_metric ms
names_idem [] = refl
names_idem (m ∷ ms) = cc (name_metric_idem m, names_idem ms)

-- Normalising a second time changes nothing.
pub normalize_idem : (m : Manifest) → normalize (normalize m) ≡ normalize m
unfolding normalize
normalize_idem m = ground (arith, names_idem m.metrics)

checked_iff : (n m : Manifest) → (checked n ≡ ok m) ↔ ((m ≡ n) × (validate n ≡ []))
checked_iff n m = elim (List-cases (validate n)) [
  | inl none_left ↦ rw none_left (ground arith)
  | inr (p, ps, e) ↦ rw e (ground arith)
]
  where
    List-cases :
        (ps : List Problem) → (ps ≡ []) ⊎ ((q : Problem) × (qs : List Problem) × (ps ≡ q ∷ qs))
    List-cases [] = inl refl
    List-cases (q ∷ qs) = inr (q, qs, refl)

parse_with_iff :
    (decoder : String → Option Manifest) (text : String) (m : Manifest)
    → (parse_with decoder text ≡ ok m)
      ↔ ((raw : Manifest) × (decoder text ≡ some raw) × (m ≡ normalize raw) × IsCorrect m)
parse_with_iff decoder text m = elim (Option-cases (decoder text)) [
  | inl e ↦ ((λ h. cc (rw (e, parse_with) at h)), λ h. cc (e, h.1))
  | inr (raw, e) ↦
      let (to, from) = checked_iff (normalize raw) m in
      (
        (λ h.
            let (same, valid) = to (rw (e, parse_with) at h) in
            (raw, e, same, rw same ((validate_iff _).0 valid))),
        λ (raw', e', same, correct).
            let it : raw' ≡ raw = cc (e, e') in
            let same' : m ≡ normalize raw = rw (← it) same in
            rw (e, parse_with) (from (same', (validate_iff _).1 (rw same' at correct))),
      )
]

-- Parse chooses the JSON decoder exactly for a text whose first non-space character is '{', and
-- returns a manifest exactly if that decoder gives one whose normal form is correct: the manifest is
-- this normal form, and normalising it again changes nothing.
pub parse_iff :
    (toml json : String → Option Manifest) (text : String) (m : Manifest)
    → (parse toml json text ≡ ok m) ↔ (
        (raw : Manifest) × ((if starts_with_brace (trim_space text) then json text else toml text)
          ≡ some raw)
        × (m ≡ normalize raw)
        × IsCorrect m
        × (normalize m ≡ m))
unfolding parse
parse_iff toml json text m = elim (Bool-cases (starts_with_brace (trim_space text))) [
  | inl e ↦ rw e (with_normal (parse_with_iff json text m))
  | inr e ↦ rw e (with_normal (parse_with_iff toml text m))
]
  where
    with_normal :
        {o : Option Manifest} {r : Result ParseError Manifest}
        → (r ≡ ok m) ↔ ((raw : Manifest) × (o ≡ some raw) × (m ≡ normalize raw) × IsCorrect m)
        → (r ≡ ok m) ↔ (
            (raw : Manifest) × (o ≡ some raw)
            × (m ≡ normalize raw)
            × IsCorrect m
            × (normalize m ≡ m))
    with_normal (to, from) = (
      (λ h.
          let (raw, e, same, correct) = to h in
          (raw, e, same, correct, ap normalize same ∙ normalize_idem raw ∙ sym same)),
      λ (raw, e, same, correct, _). from (raw, e, same, correct),
    )
