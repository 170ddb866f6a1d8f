-- ===== src/Agentic/ApprovalMemory/Answers.antt =====
-- What an ApprovalMemory answers (agentic/approval_memory.go).
use rysh_cli_shared.Prelude.{
  String, Bool, true, false, ◌&&◌, ◌||◌, not, Option, some, List, [], ◌∷◌, ◌≡◌, refl, ap, ◌∙◌, Map,
  IsMap, lookup, insert, if◌then◌else◌, ◌==◌, contains, lookup-insert, eq_iff, arith, Bool-cases,
  inl, inr,
}
use rysh_cli_shared.Agentic.ApprovalMemory.{
  ApprovalMemory, flag, approved, approve, seed_keys, approval_memory_from,
}

abbrev pub approve_all : List String → Option ApprovalMemory → Option ApprovalMemory
approve_all [] m = m
approve_all (k ∷ ks) m = approve_all ks (approve k m)

approved-approve :
    (j k : String) (m : ApprovalMemory)
    → approved k (approve j (some m)) ≡ (((j == k) && not (k == "")) || approved k (some m))
unfolding approved approve
approved-approve j k m = elim (Bool-cases (j == "")) [
  | inl e ↦ rw e (ground (arith, eq_iff j k, eq_iff j "", eq_iff k ""))
  | inr e ↦
      rw e (ground (arith, eq_iff j k, eq_iff j "", eq_iff k "", lookup-insert k j true m.keys))
]

or_swap : (a b c d : Bool) → ((a && b) || ((c && b) || d)) ≡ (((c || a) && b) || d)
or_swap a b c d = ground arith

or_false : (b : Bool) → (b || false) ≡ b
or_false b = ground arith

-- A memory answers yes for a key exactly if the key is not empty and has been approved, or if it
-- answered yes for it before.
pub approved-approve_all :
    (ks : List String) (k : String) (m : ApprovalMemory)
    → approved k (approve_all ks (some m))
      ≡ ((contains ks k && not (k == "")) || approved k (some m))
unfolding approve
approved-approve_all [] k m = refl
approved-approve_all (j ∷ ks) k m =
    approved-approve_all ks k (if j == "" then m else record { keys = insert j true m.keys })
    ∙ ap (λ b. (contains ks k && not (k == "")) || b) (approved-approve j k m)
    ∙ or_swap (contains ks k) (not (k == "")) (j == k) (approved k (some m))

seed_keys-lookup :
    (k : String) (seed keys : Map Bool)
    → IsMap seed
    → flag (lookup k (seed_keys seed keys)) ≡ (flag (lookup k seed) || flag (lookup k keys))
unfolding seed_keys lookup
seed_keys-lookup k [] keys u = refl
seed_keys-lookup k ((j, false) ∷ seed) keys (n, u) =
    seed_keys-lookup k seed keys u ∙ ground (arith, eq_iff j k, n)
seed_keys-lookup k ((j, true) ∷ seed) keys (n, u) =
    seed_keys-lookup k seed (insert j true keys) u
    ∙ ground (arith, eq_iff j k, n, lookup-insert k j true keys)

-- A memory that is built from a map answers as the map does.
pub approved-approval_memory_from :
    (k : String) (seed : Map Bool)
    → IsMap seed
    → approved k (approval_memory_from seed) ≡ flag (lookup k seed)
unfolding approved approval_memory_from lookup
approved-approval_memory_from k seed u =
    seed_keys-lookup k seed [] u ∙ or_false (flag (lookup k seed))
