-- ===== src/Tools/Tests.antt =====
-- The theorems on tools/registry.go at small registries.
use rysh_cli_shared.Prelude.{String, some, [], ◌∷◌, ◌≡◌, refl, lookup}
use rysh_cli_shared.Tools.Registry.{
  Executors, ToolRegistry, root_registry, child_registry, get, clone, set_work_dir,
}
use rysh_cli_shared.Tools.Registry.Clones.{get-set_work_dir_clone}

-- An executor is its name and its directory; bash has one and is copied.
abbrev executors : Executors (String × String)
executors = record {
  spec_name = λ e. e.0;
  clone_tool = λ e. some e;
  set_work_dir = λ dir e. some (e.0, dir);
}

abbrev scopes : ToolRegistry (String × String)
scopes =
    child_registry (("bash", ("bash", "/pane")) ∷ [])
      (root_registry (("bash", ("bash", "/shared")) ∷ ("grep", ("grep", "/shared")) ∷ []))

get-set_work_dir_clone_example :
    get "grep" (set_work_dir executors "/cwd" (clone executors scopes)) ≡ some ("grep", "/cwd")
unfolding get lookup
get-set_work_dir_clone_example =
    get-set_work_dir_clone executors "grep" "/cwd" scopes ((refl, tt), (refl, (refl, tt)))
