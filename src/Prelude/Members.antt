-- ===== src/Prelude/Members.antt =====
-- The entries of a list, and Rust's `any` over a slice.
use mathlib.Core.Path.{◌≡◌, refl, sym, ap, ◌∙◌}
use mathlib.Core.Logic.{◌⊎◌, inl, inr}
use mathlib.Core.Bool.{Bool, true, false, ◌||◌}
use mathlib.Core.List.{List, [], ◌∷◌, ◌++◌}
use native.Mathlib.Omega.{arith}
use angzarr_router.Prelude.Tests.{Bool-cases}

module _ {A : Type 0} where
  abbrev pub Member : A → List A → Type 0
  Member x [] = ⊥
  Member x (y ∷ ys) = (x ≡ y) ⊎ Member x ys

  pub Member-append : (x : A) (xs ys : List A) → Member x xs ⊎ Member x ys → Member x (xs ++ ys)
  Member-append x [] ys (inl m) = absurd m
  Member-append x [] ys (inr m) = m
  Member-append x (z ∷ xs) ys (inl (inl same)) = inl same
  Member-append x (z ∷ xs) ys (inl (inr m)) = inr (Member-append x xs ys (inl m))
  Member-append x (z ∷ xs) ys (inr m) = inr (Member-append x xs ys (inr m))

  pub append-Member : (x : A) (xs ys : List A) → Member x (xs ++ ys) → Member x xs ⊎ Member x ys
  append-Member x [] ys m = inr m
  append-Member x (z ∷ xs) ys (inl same) = inl (inl same)
  append-Member x (z ∷ xs) ys (inr m) = elim (append-Member x xs ys m) [
    | inl first ↦ inl (inr first)
    | inr second ↦ inr second
  ]

  module _ (test : A → Bool) where
    abbrev pub any : List A → Bool
    any [] = false
    any (x ∷ xs) = test x || any xs

    pub any-Member : (xs : List A) → any xs ≡ true → (x : A) × Member x xs × (test x ≡ true)
    any-Member [] h = absurd (ground arith)
    any-Member (x ∷ xs) h = elim (Bool-cases (test x)) [
      | inl here ↦ (x, inl refl, here)
      | inr past ↦ let (y, member, holds) = any-Member xs (ground arith) in (y, inr member, holds)
    ]

    pub Member-any : (x : A) (xs : List A) → Member x xs → test x ≡ true → any xs ≡ true
    Member-any x [] m h = absurd m
    Member-any x (y ∷ ys) (inl same) h =
        let here : test y ≡ true = ap test (sym same) ∙ h in ground arith
    Member-any x (y ∷ ys) (inr m) h =
        let below = Member-any x ys m h in ground (arith, Bool-cases (test y))

    pub any-eq-false : (xs : List A) → any xs ≡ false → (x : A) → Member x xs → test x ≡ false
    any-eq-false [] h x m = absurd m
    any-eq-false (y ∷ ys) h x (inl same) = ap test same ∙ ground arith
    any-eq-false (y ∷ ys) h x (inr m) = any-eq-false ys (ground arith) x m
