-- ===== src/Prelude/Counts.antt =====
-- Counting the values of a map.
use Prim.Native.Nat.{ℕ, ◌+◌}
use Prim.Native.String.{String}
use mathlib.Core.Path.{◌≡◌, refl}
use mathlib.Core.Bool.{Bool, true, false}
use mathlib.Core.List.{[], ◌∷◌}
use mathlib.Core.Option.{none, some}
use native.Mathlib.Omega.{arith}
use rysh_cli_shared.Prelude.Lists.{count_if}
use rysh_cli_shared.Prelude.Maps.{Map, lookup, insert, map_values, values}

abbrev pub bit : Bool → ℕ
bit true = 1
bit false = 0

module _ {ℓ} {V : Type ℓ} where
  abbrev pub count_values : (V → Bool) → Map V → ℕ
  count_values p m = count_if p (values m)

  -- A write at a key that is there exchanges one value for another.
  pub count-insert :
      (p : V → Bool) (k : String) (v w : V) (m : Map V)
      → lookup k m ≡ some w
      → count_values p (insert k v m) + bit (p w) ≡ count_values p m + bit (p v)
  unfolding lookup insert values
  count-insert p k v w [] h = ground arith
  count-insert p k v w ((j, u) ∷ m) h = ground (arith, count-insert p k v w m)

  -- A write at a new key adds a value.
  pub count-insert_new :
      (p : V → Bool) (k : String) (v : V) (m : Map V)
      → lookup k m ≡ none
      → count_values p (insert k v m) ≡ count_values p m + bit (p v)
  unfolding lookup insert values
  count-insert_new p k v [] h = ground arith
  count-insert_new p k v ((j, u) ∷ m) h = ground (arith, count-insert_new p k v m)

  pub count-map_values :
      (p : V → Bool) (f : V → V) (m : Map V)
      → ((v : V) → p (f v) ≡ p v)
      → count_values p (map_values f m) ≡ count_values p m
  unfolding map_values values
  count-map_values p f [] h = refl
  count-map_values p f ((j, u) ∷ m) h = ground (arith, h u, count-map_values p f m h)
