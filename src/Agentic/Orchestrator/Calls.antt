-- ===== src/Agentic/Orchestrator/Calls.antt =====
-- executeTool (agentic/orchestrator.go) and what it calls. Outputs that are only displayed and the
-- metrics are left out.
pub mod Approvals
pub mod Dispatch
pub mod Steps
pub mod Asking
pub mod Consent
pub mod History
pub mod Blocked
use rysh_cli_shared.Prelude.{
  ℕ, suc, ◌+◌, ◌%◌, String, Bool, true, false, ◌&&◌, ◌||◌, not, Option, none, some, List, [], ◌∷◌,
  ◌++◌, if◌then◌else◌, ◌==◌, ◌<>◌, Result, ok, err, lookup, two_64, show_int, trim_space,
  join_texts,
}
use rysh_cli_shared.Tools.{ToolOutput, plain_output, err_output}
use rysh_cli_shared.Provider.Turns.{ToolCallRequest}
use rysh_cli_shared.Agentic.ReadTracker.{
  ReadTracker, StaleRead, missing, changed, record_file, refresh, forget, stale_check,
}
use rysh_cli_shared.Agentic.OutputShape.{shape_tool_output}
use rysh_cli_shared.Agentic.PatchParse.{
  PatchTarget, PatchKind, patch_modify, patch_create, patch_delete, parse_patch_targets,
  extract_file_path,
}
use rysh_cli_shared.Agentic.Grounding.{GroundingReportParams, parse_grounding_report}
use rysh_cli_shared.Agentic.Orchestrator.State.{
  Env, Desk, Tool, SessionHandle, WaitEnd, subscribe_failed, wait_timed_out, wait_cancelled,
  responded, ApprovalResponse, no_once, tick, act, answered,
}

-- natRestoreInput
abbrev pub nat_restore_input : Option SessionHandle → String → String
nat_restore_input none input = input
nat_restore_input (some n) input = if n.enabled then n.restore_json input else input

-- natSanitizeOutput
abbrev pub nat_sanitize_output : Option SessionHandle → ℕ → ToolOutput → ToolOutput
nat_sanitize_output none time out = out
nat_sanitize_output (some n) time out =
    if n.enabled
    then record out { content = n.sanitize time out.content; error = n.sanitize time out.error }
    else out

-- o.natSanitizeOutput, at the time of the desk
abbrev pub sanitized : Env → Desk → ToolOutput → ToolOutput
sanitized e d out = nat_sanitize_output e.nat d.clock out

abbrev pub shaped : Env → ToolOutput → ToolOutput
shaped e out = shape_tool_output e.slice out

abbrev pub interrupted_reason : String
interrupted_reason = "__interrupted__"

abbrev pub no_with : String → ApprovalResponse
no_with reason = record { decision = no_once; reason = reason; choice_idx = 0 }

-- The result of waitForApproval.
abbrev pub response_of : WaitEnd → ApprovalResponse
response_of subscribe_failed = no_with ""
response_of wait_timed_out = no_with "timeout"
response_of wait_cancelled = no_with interrupted_reason
response_of (responded r) = r

-- waitForApproval
unfoldable pub wait_for_approval : Env → Desk → ApprovalResponse × Desk
wait_for_approval e d = let r = response_of (e.answer d.clock) in (r, act (answered r.decision) d)

-- interruptedApprovalOutput
abbrev pub interrupted_approval_output : ToolOutput
interrupted_approval_output =
    err_output "cancelled"
      "interrupted while waiting for approval — the action was NOT applied; re-issue it after resume if still needed"

-- unmatchedApprovalDecision, for choice_selected and for the rest
abbrev pub unmatched_choice : ℕ → ToolOutput
unmatched_choice idx =
    plain_output
      ("The approval was answered with choice_selected (option "
        <> (show_int ((idx + 1) % two_64)
            <> "), but this action offered no choices, so it was not run."))
      "invalid approval decision: choice_selected"

abbrev pub no_approval : String → ToolOutput
no_approval text = plain_output text "no approval"

-- applyApprovedChange, on what Execute returns; a nil output is `none`
unfoldable pub apply_approved_change : Result String (Option ToolOutput) → ToolOutput
apply_approved_change (err m) = err_output "internal" ("apply failed after approval: " <> m)
apply_approved_change (ok none) = err_output "internal" "apply failed after approval: no output"
apply_approved_change (ok (some out)) = out

-- isStaleCheckedTool
abbrev pub is_stale_checked_tool : String → Bool
is_stale_checked_tool name = name == "edit" || name == "apply_patch"

-- The output of a stale check.
abbrev pub stale_output : String → StaleRead → ToolOutput
stale_output path missing = err_output "stale_read" (
    "stale read protection: "
    <> (path
        <> " was read earlier but is now missing — re-read or recreate the file before editing"))
stale_output path (changed size now) = err_output "stale_read" (
    "stale read protection: "
    <> (path
        <> (" has changed on disk since you read it (size "
            <> (show_int size
                <> ("→"
                    <> (show_int now <> "). Re-read the file with file_read before editing."))))))

abbrev pub first_stale :
    String → Option StaleRead → Desk → Option ToolOutput × Desk → Option ToolOutput × Desk
first_stale path none d rest = rest
first_stale path (some s) d rest = (some (stale_output path s), d)

-- The loop of the stale check.
unfoldable pub check_paths : Env → List String → Desk → Option ToolOutput × Desk
check_paths e [] d = (none, d)
check_paths e (p ∷ ps) d =
    let (stale, t) = stale_check (e.files d.clock) p d.read_tracker in
    let d1 = record (tick d) { read_tracker = t } in first_stale p stale d1 (check_paths e ps d1)

abbrev pub track_target : Env → Desk → PatchKind → String → Option ReadTracker → Option ReadTracker
track_target e d patch_modify p t = refresh (e.files d.clock) p t
track_target e d patch_create p t = refresh (e.files d.clock) p t
track_target e d patch_delete p t = forget (e.files d.clock) p t

abbrev pub track_targets : Env → Desk → List PatchTarget → Option ReadTracker → Option ReadTracker
track_targets e d [] t = t
track_targets e d (x ∷ xs) t = track_targets e d xs (track_target e d x.kind x.path t)

abbrev pub track_patch :
    Env → Desk → Result String (List PatchTarget) → Option ReadTracker → Option ReadTracker
track_patch e d (err m) t = t
track_patch e d (ok xs) t = track_targets e d xs t

abbrev pub track_params : Env → Desk → Option String → Option ReadTracker → Option ReadTracker
track_params e d none t = t
track_params e d (some patch) t = track_patch e d (parse_patch_targets patch) t

-- updateReadTrackerOnSuccess
unfoldable pub update_read_tracker_on_success : Env → String → String → ToolOutput → Desk → Desk
update_read_tracker_on_success e name params out d =
    let path = extract_file_path e.params params in
    let w = e.files d.clock in
    if not (out.error == "")
    then d
    else if name == "file_read"
    then record (tick d) { read_tracker = record_file w path d.read_tracker }
    else if name == "edit" || name == "file_write"
    then record (tick d) { read_tracker = refresh w path d.read_tracker }
    else if name == "apply_patch"
    then record (tick d) {
      read_tracker = track_params e d (e.params.text_field "patch" params) d.read_tracker;
    }
    else d

abbrev pub question_of : Option String → String
question_of none = ""
question_of (some q) = trim_space q

abbrev pub is_set : Option String → Bool
is_set none = false
is_set (some s) = s == "true"

-- The escalation of a question whose tool timed out.
unfoldable pub escalate : ToolOutput → Desk → Desk
escalate out d =
    let q = question_of (lookup "question" out.metadata) in
    if is_set (lookup "pause_on_timeout" out.metadata) && not (q == "")
    then record d { pending_question = q }
    else d

abbrev pub question_text : GroundingReportParams → String
question_text p = let q = trim_space p.question in if q == "" then trim_space p.missing_info else q

abbrev pub accept_report : GroundingReportParams → Desk → ToolOutput × Desk
accept_report p d =
    let out =
      plain_output "Grounding accepted — all tools are now unlocked. Proceed with the task." "" in
    if d.grounding
    then (
      record out { metadata = ("grounded_files", join_texts "," p.relevant_files) ∷ [] },
      record d { grounding = false },
    )
    else (plain_output "Grounding noted. Proceed with the task." "", d)

abbrev pub raise_question : String → Desk → ToolOutput × Desk
raise_question q d =
    if q == ""
    then (
      err_output "validation"
          "grounding_report with understood=false requires a `question` (or `missing_info`) describing what to ask the user",
      d,
    )
    else (
      plain_output
          "Question surfaced to the user. The session will pause until they reply; their answer will arrive as the next user message — do not repeat the question."
          "",
      record d { pending_question = q },
    )

abbrev pub take_report : Result String GroundingReportParams → Desk → ToolOutput × Desk
take_report (err m) d = (err_output "validation" m, d)
take_report (ok p) d =
    if p.understood then accept_report p d else raise_question (question_text p) d

-- handleGroundingReport
unfoldable pub handle_grounding_report : Env → ToolCallRequest → Desk → ToolOutput × Desk
handle_grounding_report e c d = take_report (parse_grounding_report e.decoder c.input) d
