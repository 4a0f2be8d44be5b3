-- ===== src/Prelude/Members.antt =====
-- Members of a list: what a search finds, and the members of images and of longer lists.
use Prim.Native.String.{String}
use text.Mathlib.Text.{◌==◌ as str_eq}
use text.Mathlib.TextEquality.{eq_iff}
use mathlib.Core.Path.{◌≡◌, refl, ap, sym}
use mathlib.Core.Logic.{◌↔◌, inl, inr}
use mathlib.Core.Bool.{Bool, true, false}
use mathlib.Core.List.{List, [], ◌∷◌, ◌++◌, map}
use mathlib.Core.Option.{none, some}
use native.Mathlib.Omega.{arith}
use lab_kit.Prelude.Tests.{Bool-cases}
use lab_kit.Prelude.Lists.{In, find, any, All}

module _ {A : Type 0} where
  pub find-In : (p : A → Bool) (xs : List A) (x : A) → find p xs ≡ some x → In x xs × (p x ≡ true)
  find-In p [] x e = cc
  find-In p (y ∷ ys) x e = elim (Bool-cases (p y)) [
    | inl h ↦ (inl (ground arith), ground arith)
    | inr h ↦ let (m, t) = find-In p ys x (rw h at e) in (inr m, t)
  ]

  pub In-append : (x : A) (xs ys : List A) → In x xs → In x (xs ++ ys)
  In-append x [] ys m = absurd m
  In-append x (y ∷ xs) ys (inl e) = inl e
  In-append x (y ∷ xs) ys (inr m) = inr (In-append x xs ys m)

  pub In-snoc : (x : A) (xs : List A) → In x (xs ++ x ∷ [])
  In-snoc x [] = inl refl
  In-snoc x (y ∷ xs) = inr (In-snoc x xs)

  pub In-map : {B : Type 0} (f : A → B) (x : A) (xs : List A) → In x xs → In (f x) (map f xs)
  In-map f x [] m = absurd m
  In-map f x (y ∷ xs) (inl e) = inl (ap f e)
  In-map f x (y ∷ xs) (inr m) = inr (In-map f x xs m)

  -- A test that holds of no member finds none.
  pub find-none : (p : A → Bool) (xs : List A) → All (λ x. p x ≡ false) xs → find p xs ≡ none
  find-none p [] h = refl
  find-none p (x ∷ xs) (h, t) = rw h (find-none p xs t)

  -- What is not found is not listed.
  pub none-find : (p : A → Bool) (xs : List A) (x : A) → find p xs ≡ none → In x xs → p x ≡ false
  none-find p [] x e m = absurd m
  none-find p (y ∷ xs) x e (inl same) = elim (Bool-cases (p y)) [
    | inl h ↦ ground arith
    | inr h ↦ rw same h
  ]
  none-find p (y ∷ xs) x e (inr m) = elim (Bool-cases (p y)) [
    | inl h ↦ ground arith
    | inr h ↦ none-find p xs x (rw h at e) m
  ]

-- A text is listed exactly if the search for it by equality finds it.
pub any_iff : (s : String) (xs : List String) → (any (λ x. str_eq x s) xs ≡ true) ↔ In s xs
any_iff s [] = (λ h. cc, λ h. absurd h)
any_iff s (x ∷ xs) =
    let rest = any_iff s xs in
    elim (Bool-cases (str_eq x s)) [
      | inl same ↦ (λ h. inl (sym ((eq_iff x s).0 same)), λ h. ground arith)
      | inr other ↦ (
        λ h. inr (rest.0 (rw other at h)),
        λ h. elim h [ inl e ↦ absurd (differ other e) | inr m ↦ rw other (rest.1 m) ],
      )
    ]
  where
    differ : str_eq x s ≡ false → s ≡ x → ⊥
    differ h e = let same : str_eq x s ≡ true = (eq_iff x s).1 (sym e) in ground arith
