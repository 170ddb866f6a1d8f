-- ===== src/Agentic/ApprovalMemory.antt =====
-- ApprovalMemory (agentic/approval_memory.go): the keys that a human has approved for good. A nil
-- memory is `none`, and a nil map of keys is an empty one.
pub mod Answers
use rysh_cli_shared.Prelude.{
  ℕ, String, Bool, true, false, Option, none, some, List, [], ◌∷◌, Map, lookup, insert, length,
  if◌then◌else◌, ◌==◌,
}

pub record ApprovalMemory : Type 0 where
  pub keys : Map Bool

-- NewApprovalMemory
abbrev pub new_approval_memory : ApprovalMemory
new_approval_memory = record { keys = [] }

-- m[k], on a map into bool
abbrev pub flag : Option Bool → Bool
flag none = false
flag (some b) = b

-- ApprovalMemory.Approved
unfoldable pub approved : String → Option ApprovalMemory → Bool
approved key none = false
approved key (some m) = flag (lookup key m.keys)

-- ApprovalMemory.Approve
unfoldable pub approve : String → Option ApprovalMemory → Option ApprovalMemory
approve key none = none
approve key (some m) = some (if key == "" then m else record { keys = insert key true m.keys })

-- ApprovalMemory.Len
abbrev pub count_keys : Option ApprovalMemory → ℕ
count_keys none = 0
count_keys (some m) = length m.keys

-- The loop of ApprovalMemoryFrom.
unfoldable pub seed_keys : Map Bool → Map Bool → Map Bool
seed_keys [] keys = keys
seed_keys ((k, v) ∷ seed) keys = seed_keys seed (if v then insert k true keys else keys)

-- ApprovalMemoryFrom
unfoldable pub approval_memory_from : Map Bool → Option ApprovalMemory
approval_memory_from seed = some (record { keys = seed_keys seed [] })
