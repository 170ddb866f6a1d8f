-- ===== src/Tools/Registry/Clones.antt =====
-- What a clone of a registry answers (tools/registry.go).
use rysh_cli_shared.Prelude.{
  String, [], ◌∷◌, ◌≡◌, refl, ◌∙◌, Map, IsMap, lookup, insert, ◌==◌, if◌then◌else◌, lookup-insert,
  lookup-map_values, eq_iff, arith, Bool-cases, inl, inr,
}
use mathlib.Core.Option
use rysh_cli_shared.Tools.Registry.{
  Executors, ToolRegistry, root_registry, child_registry, or_parent, get, chain, copied,
  copy_executors_into, copy_chain, clone, set_work_dir, moved,
}

module _ {ℓ} {E : Type ℓ} where
  -- Each map of the chain has a key once.
  abbrev pub AllMaps : ToolRegistry E → Type ℓ
  AllMaps (root_registry m) = IsMap m
  AllMaps (child_registry m p) = IsMap m × AllMaps p

  copy_executors_into-lookup :
      (x : Executors E) (k : String) (m dst : Map E)
      → IsMap m
      → lookup k (copy_executors_into x m dst)
        ≡ or_parent (Option.map (copied x) (lookup k m)) (lookup k dst)
  unfolding copy_executors_into lookup
  copy_executors_into-lookup x k [] dst u = refl
  copy_executors_into-lookup x k ((j, e) ∷ m) dst (n, u) =
      copy_executors_into-lookup x k m (insert j (copied x e) dst) u
      ∙ ground (arith, eq_iff j k, n, lookup-insert k j (copied x e) dst)

  copy_chain-lookup :
      (x : Executors E) (k : String) (r : ToolRegistry E)
      → AllMaps r
      → lookup k (copy_chain x (chain r)) ≡ Option.map (copied x) (get k r)
  unfolding copy_chain chain get lookup
  copy_chain-lookup x k (root_registry m) u = copy_executors_into-lookup x k m [] u ∙ ground arith
  copy_chain-lookup x k (child_registry m p) (u, v) =
      copy_executors_into-lookup x k m (copy_chain x (chain p)) u
      ∙ ground (arith, copy_chain-lookup x k p v)

  -- After Clone and SetWorkDir, the copy finds under each name what the registry finds there through
  -- its ancestors, copied if it has a CloneTool, and moved to the directory if that is not blank.
  pub get-set_work_dir_clone :
      (x : Executors E) (name dir : String) (r : ToolRegistry E)
      → AllMaps r
      → get name (set_work_dir x dir (clone x r))
        ≡ Option.map (λ e. if dir == "" then copied x e else moved x dir (copied x e)) (get name r)
  unfolding get set_work_dir clone
  get-set_work_dir_clone x name dir r u = elim (Bool-cases (dir == "")) [
    | inl e ↦ rw e (copy_chain-lookup x name r u)
    | inr e ↦ rw e (
        ground (
          arith,
          lookup-map_values name (moved x dir) (copy_chain x (chain r)),
          copy_chain-lookup x name r u,
          e,
        ))
  ]
