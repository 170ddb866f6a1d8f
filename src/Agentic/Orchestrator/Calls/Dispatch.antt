-- ===== src/Agentic/Orchestrator/Calls/Dispatch.antt =====
-- The order of the checks of executeTool, and handleSubAgent (agentic/orchestrator.go).
use rysh_cli_shared.Prelude.{
  ℕ, String, Bool, true, false, ◌&&◌, ◌||◌, not, Option, none, some, ◌++◌, if◌then◌else◌, ◌==◌,
  ◌<>◌, Result, ok, err, leb, show_int,
}
use rysh_cli_shared.Tools.{ToolOutput, plain_output, err_output}
use rysh_cli_shared.Tools.Registry.{get, is_held}
use rysh_cli_shared.Provider.Turns.{ToolCallRequest}
use rysh_cli_shared.Agentic.Permissions.{PermDecision, perm_ask, perm_allow, perm_deny, permit}
use rysh_cli_shared.Agentic.PatchParse.{extract_file_paths}
use rysh_cli_shared.Agentic.Grounding.{
  grounding_tool_name, grounding_allowed_call, grounding_blocked_message,
}
use rysh_cli_shared.Agentic.Orchestrator.State.{
  Env, Desk, Tool, ChildEnd, child_failed, child_done, tick,
}
use rysh_cli_shared.Agentic.Orchestrator.Decisions.{detect_loop, decide_approval}
use rysh_cli_shared.Agentic.Orchestrator.Calls.{
  sanitized, shaped, is_stale_checked_tool, check_paths, update_read_tracker_on_success, escalate,
  handle_grounding_report,
}
use rysh_cli_shared.Agentic.Orchestrator.Calls.Approvals.{
  failed_text, run_tool, execute_with_pre_approval, execute_with_preview,
}

abbrev pub sub_agent_tool_name : String
sub_agent_tool_name = "sub_agent"

abbrev pub max_sub_agent_depth : ℕ
max_sub_agent_depth = 2

-- hasTool
unfoldable pub has_tool : Env → String → Bool
has_tool e name = is_held (get name e.tools)

abbrev pub child_output : ChildEnd → Desk → ToolOutput × Desk
child_output (child_failed kind m) d = (err_output kind m, d)
child_output (child_done out files) d = (out, record d { files_changed = d.files_changed ++ files })

-- handleSubAgent, with the run of the child as an answer of the world
unfoldable pub handle_sub_agent : Env → ToolCallRequest → Desk → ToolOutput × Desk
handle_sub_agent e c d =
    if leb max_sub_agent_depth e.sub_agent_depth
    then (
      err_output "validation" (
          "sub_agent depth limit reached (max "
          <> (show_int max_sub_agent_depth <> "). Handle the remaining work inline.")),
      d,
    )
    else child_output (e.child d.clock c) (tick d)

-- The end of executeTool, for an output that is not returned early.
unfoldable pub finish_call : Env → ToolCallRequest → ToolOutput × Desk → ToolOutput × Desk
finish_call e c (out, d) =
    (out, update_read_tracker_on_success e c.name c.input out (escalate out d))

-- The call without an approval; an error is returned early.
abbrev pub direct_output :
    Env → ToolCallRequest → Result String ToolOutput × Desk → ToolOutput × Desk
direct_output e c (err m, d) = (sanitized e d (err_output "internal" (failed_text c m)), d)
direct_output e c (ok out, d) = finish_call e c (sanitized e d (shaped e out), d)

-- needsApproval
unfoldable pub run_decided : Env → ToolCallRequest → Tool → Bool × String → Desk → ToolOutput × Desk
run_decided e c t (false, rule) d = direct_output e c (run_tool e c t d)
run_decided e c t (true, rule) d =
    if c.name == "edit" || c.name == "file_write"
    then finish_call e c (execute_with_preview e c t rule d)
    else finish_call e c (execute_with_pre_approval e c t rule d)

abbrev pub run_known : Env → ToolCallRequest → Option Tool → Desk → ToolOutput × Desk
run_known e c none d = (plain_output "" ("unknown tool: " <> c.name), d)
run_known e c (some t) d =
    run_decided e c t
      (decide_approval e d.auto_approved c.name c.input (t.requires_approval c.input)) d

abbrev pub run_fresh : Env → ToolCallRequest → Option ToolOutput × Desk → ToolOutput × Desk
run_fresh e c (some stale, d) = (stale, d)
run_fresh e c (none, d) = run_known e c (get c.name e.tools) d

abbrev pub check_stale : Env → ToolCallRequest → Desk → Option ToolOutput × Desk
check_stale e c d =
    if is_stale_checked_tool c.name
    then check_paths e (extract_file_paths e.params c.name c.input) d
    else (none, d)

-- The switch on the policy of permissions.
unfoldable pub run_permitted : Env → ToolCallRequest → PermDecision → Desk → ToolOutput × Desk
run_permitted e c perm_deny d =
    (err_output "permission_denied" ("denied by permission policy: " <> c.name), d)
run_permitted e c perm_allow d = run_fresh e c (check_stale e c d)
run_permitted e c perm_ask d = run_fresh e c (check_stale e c d)

-- The gate of the grounding protocol is closed to the call.
unfoldable pub is_locked : Env → ToolCallRequest → Desk → Bool
is_locked e c d =
    d.grounding && not (grounding_allowed_call (e.params.text_field "action") c.name c.input)

unfoldable pub run_ungated : Env → ToolCallRequest → Desk → ToolOutput × Desk
run_ungated e c d =
    if c.name == sub_agent_tool_name && has_tool e c.name
    then handle_sub_agent e c d
    else run_permitted e c (permit e.matching e.permissions c.name c.input) d

abbrev pub loop_text : Env → ToolCallRequest → String
loop_text e c =
    "Loop detected: tool "
    <> (c.name
        <> (" has been called with the same parameters "
            <> (show_int e.loop_threshold <> " times. Try a different approach.")))

unfoldable pub run_unrepeated : Env → ToolCallRequest → Desk → ToolOutput × Desk
run_unrepeated e c d =
    if c.name == grounding_tool_name && has_tool e c.name
    then handle_grounding_report e c d
    else if is_locked e c d
    then (err_output "permission_denied" (grounding_blocked_message c.name), d)
    else run_ungated e c d

-- executeTool
unfoldable pub execute_tool : Env → ToolCallRequest → Desk → ToolOutput × Desk
execute_tool e c d =
    let (looped, d1) = detect_loop e c.name c.input d in
    if looped then (err_output "loop_blocked" (loop_text e c), d1) else run_unrepeated e c d1
