-- ===== src/Prelude/Keys.antt =====
-- A map has each key once; what this gives for a `range` over it.
use Prim.Native.String.{String}
use mathlib.Core.Path.{◌≡◌, refl}
use mathlib.Core.Logic.{◌≢◌, ◌⊎◌, inl, inr}
use mathlib.Core.Bool.{Bool, true}
use mathlib.Core.List.{[], ◌∷◌}
use mathlib.Core.Option.{none, some}
use native.Mathlib.Omega.{arith}
use text.Mathlib.TextEquality.{eq_iff}
use text.Mathlib.TextPositions.{eq_refl}
use rysh_cli_shared.Prelude.Tests.{Option-cases}
use rysh_cli_shared.Prelude.Maps.{
  Map, lookup, insert, map_values, find_entry, lookup-insert, lookup-map_values,
}

module _ {ℓ} {V : Type ℓ} where
  abbrev pub IsMap : Map V → Type ℓ
  IsMap [] = Unit
  IsMap ((k, v) ∷ m) = (lookup k m ≡ none) × IsMap m

  pub find_entry-lookup :
      (p : V → Bool) (m : Map V) {k : String} {v : V}
      → IsMap m
      → find_entry p m ≡ some (k, v)
      → (lookup k m ≡ some v) × (p v ≡ true)
  unfolding find_entry lookup
  find_entry-lookup p [] u h = ground arith
  find_entry-lookup p ((j, w) ∷ m) {k} {v} u h =
      ground (arith, find_entry-lookup p m {k = k} {v = v} u.1, eq_iff j k, eq_refl k)

  pub IsMap-insert : (k : String) (v : V) (m : Map V) → IsMap m → IsMap (insert k v m)
  unfolding insert lookup
  IsMap-insert k v [] u = (refl, tt)
  IsMap-insert k v ((j, w) ∷ m) u =
      ground (arith, IsMap-insert k v m u.1, lookup-insert j k v m, eq_iff j k, eq_iff k j)

  pub IsMap-map_values : (f : V → V) (m : Map V) → IsMap m → IsMap (map_values f m)
  unfolding map_values
  IsMap-map_values f [] u = tt
  IsMap-map_values f ((j, w) ∷ m) u =
      ground (arith, lookup-map_values j f m, IsMap-map_values f m u.1)

  -- Where an entry of a changed map comes from.
  pub lookup-insert_cases :
      (j k : String) (v : V) (m : Map V) {w : V}
      → lookup j (insert k v m) ≡ some w
      → ((k ≡ j) × (w ≡ v)) ⊎ ((k ≢ j) × (lookup j m ≡ some w))
  lookup-insert_cases j k v m h = ground (arith, lookup-insert j k v m, eq_iff k j)

  pub lookup-map_values_cases :
      (j : String) (f : V → V) (m : Map V) {w : V}
      → lookup j (map_values f m) ≡ some w
      → (v : V) × (lookup j m ≡ some v) × (w ≡ f v)
  lookup-map_values_cases j f m h = elim (Option-cases (lookup j m)) [
    | inl e ↦ absurd (ground (arith, lookup-map_values j f m))
    | inr (v, e) ↦ (v, e, ground (arith, lookup-map_values j f m))
  ]
