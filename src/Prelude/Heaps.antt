-- ===== src/Prelude/Heaps.antt =====
-- Objects that several pointers share: a list of them, and a pointer is a place in it.
use Prim.Native.Nat.{ℕ, zero, suc, ◌<◌}
use mathlib.Core.Path.{◌≡◌, refl}
use mathlib.Core.Logic.{◌≢◌}
use mathlib.Core.List.{List, [], ◌∷◌, ◌++◌}
use mathlib.Core.Option.{Option, none, some}
use native.Mathlib.Omega.{arith}
use rysh_cli_shared.Prelude.Lists.{length}

module _ {ℓ} {A : Type ℓ} where
  -- what the pointer i points at
  abbrev pub get_elem? : List A → ℕ → Option A
  get_elem? [] i = none
  get_elem? (x ∷ xs) zero = some x
  get_elem? (x ∷ xs) (suc i) = get_elem? xs i

  -- a write through the pointer i
  abbrev pub update_at : ℕ → (A → A) → List A → List A
  update_at i f [] = []
  update_at zero f (x ∷ xs) = f x ∷ xs
  update_at (suc i) f (x ∷ xs) = x ∷ update_at i f xs

  pub get_elem?-new : (xs : List A) (a : A) → get_elem? (xs ++ a ∷ []) (length xs) ≡ some a
  get_elem?-new [] a = refl
  get_elem?-new (x ∷ xs) a = get_elem?-new xs a

  pub get_elem?-old :
      (xs : List A) (a : A) (i : ℕ) {x : A}
      → get_elem? xs i ≡ some x
      → get_elem? (xs ++ a ∷ []) i ≡ some x
  get_elem?-old [] a i h = ground arith
  get_elem?-old (y ∷ ys) a zero h = h
  get_elem?-old (y ∷ ys) a (suc i) h = get_elem?-old ys a i h

  pub get_elem?-update_at :
      (xs : List A) (f : A → A) (i : ℕ) {x : A}
      → get_elem? xs i ≡ some x
      → get_elem? (update_at i f xs) i ≡ some (f x)
  get_elem?-update_at [] f i h = ground arith
  get_elem?-update_at (y ∷ ys) f zero h = ground arith
  get_elem?-update_at (y ∷ ys) f (suc i) h = get_elem?-update_at ys f i h

  pub get_elem?-update_other :
      (xs : List A) (f : A → A) (i j : ℕ) → i ≢ j → get_elem? (update_at i f xs) j ≡ get_elem? xs j
  get_elem?-update_other [] f i j h = refl
  get_elem?-update_other (y ∷ ys) f zero zero h = absurd (h refl)
  get_elem?-update_other (y ∷ ys) f zero (suc j) h = refl
  get_elem?-update_other (y ∷ ys) f (suc i) zero h = refl
  get_elem?-update_other (y ∷ ys) f (suc i) (suc j) h =
      get_elem?-update_other ys f i j (λ e. h (ground (arith, e)))

  pub get_elem?-bounded : (xs : List A) (i : ℕ) {x : A} → get_elem? xs i ≡ some x → i < length xs
  get_elem?-bounded [] i h = absurd (ground arith)
  get_elem?-bounded (y ∷ ys) zero h = omega arith
  get_elem?-bounded (y ∷ ys) (suc i) h = omega (arith, get_elem?-bounded ys i h)
