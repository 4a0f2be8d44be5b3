-- ===== src/Prelude/Dict.antt =====
-- A Go map with text keys, as an association list whose first entry for a key counts.
use Prim.Native.String.{String}
use mathlib.Core.Path.{◌≡◌, refl}
use mathlib.Core.Bool.{Bool}
use mathlib.Core.Option.{Option, none, some}
use mathlib.Core.List.{List, [], ◌∷◌}
use native.Mathlib.Omega.{arith}
use text.Mathlib.Text.{◌==◌ as str_eq}
use text.Mathlib.TextEquality.{eq_iff}
use lab_kit.Prelude.Tests.{if◌then◌else◌, is_some}

abbrev pub Dict {ℓ} : Type ℓ → Type ℓ
Dict A = List (String × A)

module _ {ℓ} {A : Type ℓ} where
  unfoldable pub lookup : String → Dict A → Option A
  lookup key [] = none
  lookup key ((name, value) ∷ entries) = if str_eq name key then some value else lookup key entries

  -- `_, ok := m[key]`
  abbrev pub has : String → Dict A → Bool
  has key entries = is_some (lookup key entries)

  -- `delete(m, key)`, of every entry with the key.
  unfoldable pub delete : String → Dict A → Dict A
  delete key [] = []
  delete key ((name, value) ∷ entries) =
      if str_eq name key then delete key entries else (name, value) ∷ delete key entries

  pub lookup-delete :
      (key asked : String) (entries : Dict A)
      → lookup asked (delete key entries)
        ≡ (if str_eq key asked then none else lookup asked entries)
  unfolding lookup delete
  lookup-delete key asked [] = ground arith
  lookup-delete key asked ((name, value) ∷ entries) =
      ground (
        arith,
        lookup-delete key asked entries,
        eq_iff name key,
        eq_iff name asked,
        eq_iff key asked,
      )

  -- `m[key] = value`
  unfoldable pub insert : String → A → Dict A → Dict A
  insert key value [] = (key, value) ∷ []
  insert key value ((name, old) ∷ entries) =
      if str_eq name key then (key, value) ∷ entries else (name, old) ∷ insert key value entries

  pub lookup-insert :
      (asked key : String) (value : A) (entries : Dict A)
      → lookup asked (insert key value entries)
        ≡ (if str_eq key asked then some value else lookup asked entries)
  unfolding lookup insert
  lookup-insert asked key value [] = refl
  lookup-insert asked key value ((name, old) ∷ entries) = ground (
    arith,
    lookup-insert asked key value entries,
    eq_iff name key,
    eq_iff name asked,
    eq_iff key asked,
  )
