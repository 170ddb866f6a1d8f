-- ===== src/Tools/Registry.antt =====
-- ToolRegistry (tools/registry.go). A registry is the chain of its own executors and its parent's, as
-- it stands at the time of a call, since the parent is read live.
pub mod Clones
use rysh_cli_shared.Prelude.{
  String, Bool, true, false, Option, none, some, List, [], ◌∷◌, Map, lookup, insert, delete,
  map_values, ◌==◌, if◌then◌else◌,
}

module _ {ℓ} (E : Type ℓ) where
  -- The interfaces that an executor may implement: Spec().Name; CloneTool, for one that must be
  -- copied; and SetWorkDir, for one with a working directory.
  pub record Executors : Type ℓ where
    pub spec_name : E → String
    pub clone_tool : E → Option E
    pub set_work_dir : String → E → Option E

pub data ToolRegistry {ℓ} (E : Type ℓ) : Type ℓ where
  root_registry : Map E → ToolRegistry E
  child_registry : Map E → ToolRegistry E → ToolRegistry E

module _ {ℓ} {E : Type ℓ} where
  -- NewToolRegistry
  abbrev pub new_tool_registry : ToolRegistry E
  new_tool_registry = root_registry []

  -- NewChildRegistry
  abbrev pub new_child_registry : Option (ToolRegistry E) → ToolRegistry E
  new_child_registry none = root_registry []
  new_child_registry (some p) = child_registry [] p

  -- The registry's own map.
  abbrev pub executors_of : ToolRegistry E → Map E
  executors_of (root_registry m) = m
  executors_of (child_registry m p) = m

  -- ToolRegistry.SetParent
  unfoldable pub set_parent : Option (ToolRegistry E) → ToolRegistry E → ToolRegistry E
  set_parent none r = root_registry (executors_of r)
  set_parent (some p) r = child_registry (executors_of r) p

  -- ToolRegistry.Register
  unfoldable pub register_tool : String → E → ToolRegistry E → ToolRegistry E
  register_tool name e (root_registry m) = root_registry (insert name e m)
  register_tool name e (child_registry m p) = child_registry (insert name e m) p

  abbrev pub is_held : Option E → Bool
  is_held none = false
  is_held (some e) = true

  abbrev pub remove : String → ToolRegistry E → ToolRegistry E
  remove name (root_registry m) = root_registry (delete name m)
  remove name (child_registry m p) = child_registry (delete name m) p

  -- ToolRegistry.Unregister
  unfoldable pub unregister : String → ToolRegistry E → Bool × ToolRegistry E
  unregister name r =
      if is_held (lookup name (executors_of r)) then (true, remove name r) else (false, r)

  abbrev pub or_parent : Option E → Option E → Option E
  or_parent (some e) p = some e
  or_parent none p = p

  -- ToolRegistry.Get
  unfoldable pub get : String → ToolRegistry E → Option E
  get name (root_registry m) = lookup name m
  get name (child_registry m p) = or_parent (lookup name m) (get name p)

  -- The loop of Clone that collects a registry and its ancestors.
  unfoldable pub chain : ToolRegistry E → List (Map E)
  chain (root_registry m) = m ∷ []
  chain (child_registry m p) = m ∷ chain p

  abbrev pub or_shared : E → Option E → E
  or_shared e none = e
  or_shared e (some c) = c

  -- The test of copyExecutorsInto: an executor that must be copied is.
  abbrev pub copied : Executors E → E → E
  copied x e = or_shared e (x.clone_tool e)

  -- copyExecutorsInto
  unfoldable pub copy_executors_into : Executors E → Map E → Map E → Map E
  copy_executors_into x [] dst = dst
  copy_executors_into x ((k, e) ∷ m) dst = copy_executors_into x m (insert k (copied x e) dst)

  -- The loop of Clone that copies, the last of the chain first.
  unfoldable pub copy_chain : Executors E → List (Map E) → Map E
  copy_chain x [] = []
  copy_chain x (m ∷ ms) = copy_executors_into x m (copy_chain x ms)

  -- ToolRegistry.Clone
  unfoldable pub clone : Executors E → ToolRegistry E → ToolRegistry E
  clone x r = root_registry (copy_chain x (chain r))

  -- The body of the loop of SetWorkDir.
  abbrev pub moved : Executors E → String → E → E
  moved x dir e = or_shared e (x.set_work_dir dir e)

  abbrev pub move_own : (E → E) → ToolRegistry E → ToolRegistry E
  move_own f (root_registry m) = root_registry (map_values f m)
  move_own f (child_registry m p) = child_registry (map_values f m) p

  -- ToolRegistry.SetWorkDir
  unfoldable pub set_work_dir : Executors E → String → ToolRegistry E → ToolRegistry E
  set_work_dir x dir r = if dir == "" then r else move_own (moved x dir) r

  unfoldable pub register_all : Executors E → List E → ToolRegistry E → ToolRegistry E
  register_all x [] r = r
  register_all x (e ∷ es) r = register_all x es (register_tool (x.spec_name e) e r)

  -- DefaultRegistry
  unfoldable pub default_registry : Executors E → List E → ToolRegistry E
  default_registry x es = register_all x es new_tool_registry
