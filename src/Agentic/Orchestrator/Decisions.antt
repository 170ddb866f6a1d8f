-- ===== src/Agentic/Orchestrator/Decisions.antt =====
-- Which calls are blocked and which ask (agentic/orchestrator.go): detectLoop, decideApproval and the
-- keys of approvals.
pub mod Repeats
pub mod Approval
use rysh_cli_shared.Prelude.{
  ℕ, ◌-◌, String, Bool, true, false, ◌&&◌, ◌||◌, not, Option, none, some, List, [], ◌∷◌, ◌++◌,
  if◌then◌else◌, ◌==◌, ◌<>◌, length, count_if, drop_first, ltb, leb, eqb, first_field,
}
use rysh_cli_shared.Agentic.ApprovalMemory.{ApprovalMemory, approved, approve}
use rysh_cli_shared.Agentic.Policy.{
  PolicyDecision, policy_default, policy_auto_approve, policy_gate, eval_approval_policy,
}
use rysh_cli_shared.Agentic.PatchParse.{or_blank}
use rysh_cli_shared.Agentic.Orchestrator.State.{Env, LoopEntry, Desk}

abbrev pub threshold : Env → ℕ
threshold e = if eqb e.loop_threshold 0 then 3 else e.loop_threshold

-- The key of a call.
abbrev pub call_hash : Env → String → String → String
call_hash e name params = name <> (":" <> e.sha256_hex params)

-- The last 20 entries.
unfoldable pub recent : List LoopEntry → List LoopEntry
recent xs = if ltb 20 (length xs) then drop_first (length xs - 20) xs else xs

abbrev pub same_call : String → LoopEntry → Bool
same_call hash x = x.params_hash == hash

-- The history after a call.
abbrev pub history : Env → String → String → List LoopEntry → List LoopEntry
history e name params xs =
    recent (xs ++ record { tool_name = name; params_hash = call_hash e name params } ∷ [])

-- detectLoop
unfoldable pub detect_loop : Env → String → String → Desk → Bool × Desk
detect_loop e name params d =
    let xs = history e name params d.call_history in
    (
      leb (threshold e) (count_if (same_call (call_hash e name params)) xs),
      record d { call_history = xs },
    )

-- buildAlwaysKey
abbrev pub build_always_key : String → String → String
build_always_key name params = name

abbrev pub key_with : String → String → String
key_with name part = if part == "" then name else name <> (":" <> part)

-- buildApprovalKey
unfoldable pub build_approval_key : Env → String → String → String
build_approval_key e name params =
    if name == "edit" || name == "file_write" || name == "file_read"
    then key_with name (or_blank (e.params.text_field "file_path" params))
    else if name == "bash"
    then key_with name (first_field (or_blank (e.params.text_field "command" params)))
    else name

-- An answer was given for this context or for the whole tool.
abbrev pub remembered : Env → Option ApprovalMemory → String → String → Bool
remembered e m name params =
    approved (build_approval_key e name params) m || approved (build_always_key name params) m

-- The part of decideApproval that a gate suppresses.
abbrev pub settle : Env → Option ApprovalMemory → String → String → Bool → Bool
settle e m name params needs =
    if e.auto_approve_all then false else if needs then not (remembered e m name params) else false

abbrev pub decide :
    Env → Option ApprovalMemory → String → String → Bool → PolicyDecision × String → Bool × String
decide e m name params needs (policy_default, rule) = (settle e m name params needs, "")
decide e m name params needs (policy_auto_approve, rule) = (settle e m name params false, rule)
decide e m name params needs (policy_gate, rule) = (true, rule)

-- decideApproval
unfoldable pub decide_approval :
    Env → Option ApprovalMemory → String → String → Bool → Bool × String
decide_approval e m name params classifier =
    decide e m name params classifier (eval_approval_policy e.policy name params)

-- approveAlways
unfoldable pub approve_always : String → String → Desk → Desk
approve_always name params d = record d {
  auto_approved = approve (build_always_key name params) d.auto_approved;
}

-- withPolicyRule
abbrev pub with_policy_rule : String → String → String
with_policy_rule desc rule =
    if rule == "" then desc else desc <> (" [gated by policy rule " <> (rule <> "]"))
