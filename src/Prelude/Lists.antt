-- ===== src/Prelude/Lists.antt =====
-- Lists measured by native numbers, under the library's names, and the last element of a slice.
use Prim.Native.Nat.{ℕ, zero, suc, ◌+◌}
use Prim.Native.String.{String}
use mathlib.Core.Path.{◌≡◌, refl, ap}
use mathlib.Core.Bool.{Bool, true, false, ◌&&◌, ◌||◌}
use mathlib.Core.List.{List, [], ◌∷◌, ◌++◌}
use mathlib.Core.Option.{Option, none, some}
use native.Mathlib.Omega.{arith}
use text.Mathlib.Text.{◌==◌}
use rysh_cli_shared.Prelude.Tests.{if◌then◌else◌}

module _ {ℓ} {A : Type ℓ} where
  abbrev pub length : List A → ℕ
  length [] = 0
  length (x ∷ xs) = suc (length xs)

  abbrev pub all : (A → Bool) → List A → Bool
  all p [] = true
  all p (x ∷ xs) = p x && all p xs

  abbrev pub count_if : (A → Bool) → List A → ℕ
  count_if p [] = 0
  count_if p (x ∷ xs) = (if p x then 1 else 0) + count_if p xs

  -- s[n:]
  abbrev pub drop_first : ℕ → List A → List A
  drop_first zero xs = xs
  drop_first (suc n) [] = []
  drop_first (suc n) (x ∷ xs) = drop_first n xs

  -- s[:n]
  abbrev pub keep_first : ℕ → List A → List A
  keep_first zero xs = []
  keep_first (suc n) [] = []
  keep_first (suc n) (x ∷ xs) = x ∷ keep_first n xs

  -- `s[len(s)-1]`, if there is one
  abbrev pub last? : List A → Option A
  last? [] = none
  last? (x ∷ []) = some x
  last? (x ∷ y ∷ ys) = last? (y ∷ ys)

  -- a write through `&s[len(s)-1]`
  abbrev pub update_last : (A → A) → List A → List A
  update_last f [] = []
  update_last f (x ∷ []) = f x ∷ []
  update_last f (x ∷ y ∷ ys) = x ∷ update_last f (y ∷ ys)

  pub length-append : (xs ys : List A) → length (xs ++ ys) ≡ length xs + length ys
  length-append [] ys = omega arith
  length-append (x ∷ xs) ys = omega (arith, length-append xs ys)

  pub append-nil : (xs : List A) → xs ++ [] ≡ xs
  append-nil [] = refl
  append-nil (x ∷ xs) = ap (λ ys. x ∷ ys) (append-nil xs)

  pub length-update_last : (f : A → A) (xs : List A) → length (update_last f xs) ≡ length xs
  length-update_last f [] = refl
  length-update_last f (x ∷ []) = refl
  length-update_last f (x ∷ y ∷ ys) = ap suc (length-update_last f (y ∷ ys))

  pub last?-append_one : (xs : List A) (a : A) → last? (xs ++ a ∷ []) ≡ some a
  last?-append_one [] a = refl
  last?-append_one (x ∷ []) a = refl
  last?-append_one (x ∷ y ∷ ys) a = last?-append_one (y ∷ ys) a

  pub last?-update_last :
      (f : A → A) (xs : List A) {a : A} → last? xs ≡ some a → last? (update_last f xs) ≡ some (f a)
  last?-update_last f [] h = ground arith
  last?-update_last f (x ∷ []) h = ground arith
  last?-update_last f (x ∷ y ∷ []) h = ground arith
  last?-update_last f (x ∷ y ∷ z ∷ zs) h = last?-update_last f (y ∷ z ∷ zs) h

module _ {ℓ} {A : Type ℓ} where
  pub update_last-id : (xs : List A) → update_last (λ x. x) xs ≡ xs
  update_last-id [] = refl
  update_last-id (x ∷ []) = refl
  update_last-id (x ∷ y ∷ ys) = ap (λ zs. x ∷ zs) (update_last-id (y ∷ ys))

-- slices.Contains, on strings
abbrev pub contains : List String → String → Bool
contains [] a = false
contains (x ∷ xs) a = x == a || contains xs a

-- slices.Equal, on strings
abbrev pub equal : List String → List String → Bool
equal [] [] = true
equal (x ∷ xs) (y ∷ ys) = x == y && equal xs ys
equal _ _ = false

module _ {ℓ} {A : Type ℓ} where
  abbrev pub any : (A → Bool) → List A → Bool
  any p [] = false
  any p (x ∷ xs) = p x || any p xs
