-- ===== src/Agentic/Orchestrator/Calls/Approvals.antt =====
-- executeWithPreview and executeWithPreApproval (agentic/orchestrator.go).
use rysh_cli_shared.Prelude.{
  String, Option, some, [], ◌∷◌, ◌++◌, if◌then◌else◌, ◌==◌, ◌<>◌, Result, ok, err, lookup,
}
use rysh_cli_shared.Tools.{ToolOutput, plain_output}
use rysh_cli_shared.Provider.Turns.{ToolCallRequest}
use rysh_cli_shared.Agentic.PatchParse.{or_blank}
use rysh_cli_shared.Agentic.Orchestrator.State.{
  Env, Desk, Tool, ApprovalDecision, yes_once, yes_always, no_once, no_with_explanation,
  choice_selected, other_decision, ApprovalResponse, act, enter, asked, previewed, ran, executing,
  waiting_approval,
}
use rysh_cli_shared.Agentic.Orchestrator.Decisions.{approve_always}
use rysh_cli_shared.Agentic.Orchestrator.Calls.{
  nat_restore_input, sanitized, shaped, interrupted_reason, wait_for_approval,
  interrupted_approval_output, unmatched_choice, no_approval, apply_approved_change,
}

-- "tool %s failed: %v"
abbrev pub failed_text : ToolCallRequest → String → String
failed_text c m = "tool " <> (c.name <> (" failed: " <> m))

-- executor.Execute
unfoldable pub run_tool : Env → ToolCallRequest → Tool → Desk → Result String ToolOutput × Desk
run_tool e c t d = (t.execute d.clock (nat_restore_input e.nat c.input), act (ran c.name c.input) d)

-- The request for an approval, and the wait.
unfoldable pub ask : Env → ToolCallRequest → String → Desk → ApprovalResponse × Desk
ask e c rule d = wait_for_approval e (act (asked c.name c.input rule) (enter waiting_approval d))

-- The two answers that reject, and the two that are no answer.
abbrev pub refuse : String → String → ApprovalResponse → ApprovalDecision → ToolOutput
refuse done wanting r no_once =
    plain_output ("User rejected this " <> (done <> ".")) "rejected by user"
refuse done wanting r no_with_explanation =
    plain_output
      ((if done == "change"
          then "User rejected this change. Reason: "
          else "User rejected. Reason: ")
        <> r.reason)
      "rejected by user"
refuse done wanting r choice_selected = unmatched_choice r.choice_idx
refuse done wanting r (other_decision s) = no_approval wanting
refuse done wanting r yes_once = no_approval wanting
refuse done wanting r yes_always = no_approval wanting

-- The output of a command that was approved.
abbrev pub command_output : Env → ToolCallRequest → Desk → Result String ToolOutput → ToolOutput
command_output e c d (err m) = sanitized e d (plain_output "" (failed_text c m))
command_output e c d (ok out) = sanitized e d (shaped e out)

abbrev pub run_command : Env → ToolCallRequest → Tool → Desk → ToolOutput × Desk
run_command e c t d =
    let (r, d1) = run_tool e c t (enter executing d) in (command_output e c d1 r, d1)

-- The switch on the decision in executeWithPreApproval.
unfoldable pub answer_command :
    Env → ToolCallRequest → Tool → ApprovalResponse → ApprovalDecision → Desk → ToolOutput × Desk
answer_command e c t r yes_once d = run_command e c t d
answer_command e c t r yes_always d = run_command e c t (approve_always c.name c.input d)
answer_command e c t r no_once d =
    (refuse "action" "No approval received." r no_once, enter executing d)
answer_command e c t r no_with_explanation d =
    (refuse "action" "No approval received." r no_with_explanation, enter executing d)
answer_command e c t r choice_selected d =
    (refuse "action" "No approval received." r choice_selected, enter executing d)
answer_command e c t r (other_decision s) d =
    (refuse "action" "No approval received." r (other_decision s), enter executing d)

-- executeWithPreApproval
unfoldable pub execute_with_pre_approval :
    Env → ToolCallRequest → Tool → String → Desk → ToolOutput × Desk
execute_with_pre_approval e c t rule d =
    let (r, d1) = ask e c rule d in
    if r.reason == interrupted_reason
    then (interrupted_approval_output, d1)
    else answer_command e c t r r.decision d1

-- previewFileChange
unfoldable pub preview_file_change :
    Env → ToolCallRequest → Tool → Desk → Result String ToolOutput × Desk
preview_file_change e c t d =
    if t.has_preview
    then (t.preview d.clock (nat_restore_input e.nat c.input), act (previewed c.name c.input) d)
    else run_tool e c t d

abbrev pub add_changed : String → Desk → Desk
add_changed path d =
    if path == "" then d else record d { files_changed = d.files_changed ++ path ∷ [] }

abbrev pub to_option : Result String ToolOutput → Result String (Option ToolOutput)
to_option (err m) = err m
to_option (ok out) = ok (some out)

-- What was applied, where the tool can preview.
abbrev pub applied_change : Env → String → ToolOutput → Desk → ToolOutput × Desk
applied_change e path out d =
    let applied = sanitized e d out in
    if out.error == "" then (shaped e applied, add_changed path d) else (shaped e applied, d)

abbrev pub settle_change : Env → String → Result String ToolOutput × Desk → ToolOutput × Desk
settle_change e path (r, d) = applied_change e path (apply_approved_change (to_option r)) d

-- Only now does a change that was previewed reach the disk.
unfoldable pub apply_change :
    Env → ToolCallRequest → Tool → String → ToolOutput → Desk → ToolOutput × Desk
apply_change e c t path out d =
    if t.has_preview
    then settle_change e path (run_tool e c t d)
    else (shaped e out, add_changed path d)

-- The switch on the decision in executeWithPreview.
unfoldable pub answer_change :
    Env
    → ToolCallRequest
    → Tool
    → ToolOutput
    → ApprovalResponse
    → ApprovalDecision
    → Desk
    → ToolOutput × Desk
answer_change e c t out r yes_once d =
    apply_change e c t (or_blank (lookup "file_path" out.metadata)) out (enter executing d)
answer_change e c t out r yes_always d =
    apply_change e c t (or_blank (lookup "file_path" out.metadata)) out
      (enter executing (approve_always c.name c.input d))
answer_change e c t out r no_once d =
    (refuse "change" "No approval received, change not applied." r no_once, enter executing d)
answer_change e c t out r no_with_explanation d = (
  refuse "change" "No approval received, change not applied." r no_with_explanation,
  enter executing d,
)
answer_change e c t out r choice_selected d = (
  refuse "change" "No approval received, change not applied." r choice_selected,
  enter executing d,
)
answer_change e c t out r (other_decision s) d = (
  refuse "change" "No approval received, change not applied." r (other_decision s),
  enter executing d,
)

-- The approval of a change that was previewed.
unfoldable pub ask_change :
    Env → ToolCallRequest → Tool → String → ToolOutput → Desk → ToolOutput × Desk
ask_change e c t rule out d =
    let (r, d1) = ask e c rule d in
    if r.reason == interrupted_reason
    then (interrupted_approval_output, d1)
    else answer_change e c t out r r.decision d1

abbrev pub offer_change :
    Env → ToolCallRequest → Tool → String → Result String ToolOutput → Desk → ToolOutput × Desk
offer_change e c t rule (err m) d = (sanitized e d (plain_output "" (failed_text c m)), d)
offer_change e c t rule (ok out) d =
    if out.error == ""
    then ask_change e c t rule (sanitized e d out) d
    else (shaped e (sanitized e d out), d)

-- executeWithPreview
unfoldable pub execute_with_preview :
    Env → ToolCallRequest → Tool → String → Desk → ToolOutput × Desk
execute_with_preview e c t rule d =
    let (r, d1) = preview_file_change e c t d in offer_change e c t rule r d1
