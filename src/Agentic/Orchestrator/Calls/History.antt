-- ===== src/Agentic/Orchestrator/Calls/History.antt =====
-- The history of the calls in executeTool (agentic/orchestrator.go): detectLoop alone writes it.
use rysh_cli_shared.Prelude.{
  suc, String, Bool, true, false, ◌&&◌, ◌||◌, not, Option, none, some, List, [], ◌∷◌, ◌≡◌, refl,
  ◌∙◌, ◌==◌, if◌then◌else◌, Result, ok, err, leb,
}
use rysh_cli_shared.Tools.{ToolOutput, err_output}
use rysh_cli_shared.Tools.Registry.{get}
use rysh_cli_shared.Provider.Turns.{ToolCallRequest}
use rysh_cli_shared.Agentic.Permissions.{PermDecision, perm_ask, perm_allow, perm_deny, permit}
use rysh_cli_shared.Agentic.ReadTracker.{StaleRead}
use rysh_cli_shared.Agentic.Grounding.{
  GroundingReportParams, parse_grounding_report, grounding_tool_name,
}
use rysh_cli_shared.Agentic.Orchestrator.State.{
  Env, Desk, Tool, ApprovalDecision, yes_once, yes_always, no_once, no_with_explanation,
  choice_selected, other_decision, ApprovalResponse, ChildEnd, child_failed, child_done, LoopEntry,
  enter, executing,
}
use rysh_cli_shared.Agentic.Orchestrator.Decisions.{approve_always, detect_loop, history}
use rysh_cli_shared.Agentic.Orchestrator.Calls.{
  response_of, apply_approved_change, sanitized, shaped, wait_for_approval, interrupted_reason,
  is_stale_checked_tool, first_stale, take_report, question_text, check_paths,
  handle_grounding_report, update_read_tracker_on_success, escalate,
}
use rysh_cli_shared.Agentic.Orchestrator.Calls.Approvals.{
  run_tool, ask, answer_command, execute_with_pre_approval, preview_file_change, answer_change,
  ask_change, execute_with_preview, apply_change, settle_change, add_changed, to_option,
  offer_change,
}
use rysh_cli_shared.Agentic.Orchestrator.Calls.Dispatch.{
  finish_call, direct_output, run_decided, run_known, run_fresh, check_stale, run_permitted,
  is_locked, run_ungated, run_unrepeated, execute_tool, handle_sub_agent, has_tool,
  sub_agent_tool_name, child_output, max_sub_agent_depth, loop_text,
}

if-desk :
    (b : Bool) (x y : Desk) {h : List LoopEntry}
    → x.call_history ≡ h
    → y.call_history ≡ h
    → (if b then x else y).call_history ≡ h
if-desk true x y p q = p
if-desk false x y p q = q

if-result :
    {A : Type 0} (b : Bool) (x y : A × Desk) {h : List LoopEntry}
    → x.1.call_history ≡ h
    → y.1.call_history ≡ h
    → (if b then x else y).1.call_history ≡ h
if-result true x y p q = p
if-result false x y p q = q

tracked-history :
    (e : Env) (name params : String) (out : ToolOutput) (d : Desk)
    → (update_read_tracker_on_success e name params out d).call_history ≡ d.call_history
unfolding update_read_tracker_on_success
tracked-history e name params out d = if-desk (not (out.error == "")) _ _ refl (
    if-desk (name == "file_read") _ _ refl (
      if-desk (name == "edit" || name == "file_write") _ _ refl
        (if-desk (name == "apply_patch") _ _ refl refl)))

escalate-history : (out : ToolOutput) (d : Desk) → (escalate out d).call_history ≡ d.call_history
unfolding escalate
escalate-history out d = if-desk _ _ _ refl refl

finish_call-history :
    (e : Env) (c : ToolCallRequest) (p : ToolOutput × Desk)
    → (finish_call e c p).1.call_history ≡ p.1.call_history
unfolding finish_call
finish_call-history e c (out, d) =
    tracked-history e c.name c.input out (escalate out d) ∙ escalate-history out d

answer_command-history :
    (e : Env) (c : ToolCallRequest) (t : Tool) (r : ApprovalResponse) (a : ApprovalDecision)
    (d : Desk)
    → (answer_command e c t r a d).1.call_history ≡ d.call_history
unfolding answer_command approve_always run_tool
answer_command-history e c t r yes_once d = refl
answer_command-history e c t r yes_always d = refl
answer_command-history e c t r no_once d = refl
answer_command-history e c t r no_with_explanation d = refl
answer_command-history e c t r choice_selected d = refl
answer_command-history e c t r (other_decision s) d = refl

execute_with_pre_approval-history :
    (e : Env) (c : ToolCallRequest) (t : Tool) (rule : String) (d : Desk)
    → (execute_with_pre_approval e c t rule d).1.call_history ≡ d.call_history
unfolding execute_with_pre_approval ask wait_for_approval
execute_with_pre_approval-history e c t rule d =
    let r = response_of (e.answer (suc d.clock)) in
    if-result (r.reason == interrupted_reason) _ _ refl
      (answer_command-history e c t r r.decision _)

add_changed-history :
    (path : String) (d : Desk) → (add_changed path d).call_history ≡ d.call_history
add_changed-history path d = if-desk (path == "") _ _ refl refl

settle_change-history :
    (e : Env) (path : String) (p : Result String ToolOutput × Desk)
    → (settle_change e path p).1.call_history ≡ p.1.call_history
settle_change-history e path (r, d) =
    if-result ((apply_approved_change (to_option r)).error == "") _ _ (add_changed-history path d)
      refl

apply_change-history :
    (e : Env) (c : ToolCallRequest) (t : Tool) (path : String) (out : ToolOutput) (d : Desk)
    → (apply_change e c t path out d).1.call_history ≡ d.call_history
unfolding apply_change run_tool
apply_change-history e c t path out d =
    if-result t.has_preview _ _ (settle_change-history e path _) (add_changed-history path d)

answer_change-history :
    (e : Env) (c : ToolCallRequest) (t : Tool) (out : ToolOutput) (r : ApprovalResponse)
    (a : ApprovalDecision) (d : Desk)
    → (answer_change e c t out r a d).1.call_history ≡ d.call_history
unfolding answer_change approve_always
answer_change-history e c t out r yes_once d = apply_change-history e c t _ out (enter executing d)
answer_change-history e c t out r yes_always d =
    apply_change-history e c t _ out (enter executing (approve_always c.name c.input d))
answer_change-history e c t out r no_once d = refl
answer_change-history e c t out r no_with_explanation d = refl
answer_change-history e c t out r choice_selected d = refl
answer_change-history e c t out r (other_decision s) d = refl

ask_change-history :
    (e : Env) (c : ToolCallRequest) (t : Tool) (rule : String) (out : ToolOutput) (d : Desk)
    → (ask_change e c t rule out d).1.call_history ≡ d.call_history
unfolding ask_change ask wait_for_approval
ask_change-history e c t rule out d =
    let r = response_of (e.answer (suc d.clock)) in
    if-result (r.reason == interrupted_reason) _ _ refl
      (answer_change-history e c t out r r.decision _)

offer_change-history :
    (e : Env) (c : ToolCallRequest) (t : Tool) (rule : String) (r : Result String ToolOutput)
    (d : Desk)
    → (offer_change e c t rule r d).1.call_history ≡ d.call_history
offer_change-history e c t rule (err m) d = refl
offer_change-history e c t rule (ok out) d =
    if-result (out.error == "") _ _ (ask_change-history e c t rule (sanitized e d out) d) refl

preview_file_change-history :
    (e : Env) (c : ToolCallRequest) (t : Tool) (d : Desk)
    → (preview_file_change e c t d).1.call_history ≡ d.call_history
unfolding preview_file_change run_tool
preview_file_change-history e c t d = if-result t.has_preview _ _ refl refl

execute_with_preview-history :
    (e : Env) (c : ToolCallRequest) (t : Tool) (rule : String) (d : Desk)
    → (execute_with_preview e c t rule d).1.call_history ≡ d.call_history
unfolding execute_with_preview
execute_with_preview-history e c t rule d =
    let p = preview_file_change e c t d in
    offer_change-history e c t rule p.0 p.1 ∙ preview_file_change-history e c t d

direct_output-history :
    (e : Env) (c : ToolCallRequest) (r : Result String ToolOutput) (d : Desk)
    → (direct_output e c (r, d)).1.call_history ≡ d.call_history
direct_output-history e c (err m) d = refl
direct_output-history e c (ok out) d = finish_call-history e c (sanitized e d (shaped e out), d)

run_decided-history :
    (e : Env) (c : ToolCallRequest) (t : Tool) (v : Bool × String) (d : Desk)
    → (run_decided e c t v d).1.call_history ≡ d.call_history
unfolding run_decided run_tool
run_decided-history e c t (false, rule) d = direct_output-history e c _ _
run_decided-history e c t (true, rule) d =
    if-result (c.name == "edit" || c.name == "file_write") _ _
      (finish_call-history e c (execute_with_preview e c t rule d)
        ∙ execute_with_preview-history e c t rule d)
      (finish_call-history e c (execute_with_pre_approval e c t rule d)
        ∙ execute_with_pre_approval-history e c t rule d)

run_known-history :
    (e : Env) (c : ToolCallRequest) (o : Option Tool) (d : Desk)
    → (run_known e c o d).1.call_history ≡ d.call_history
run_known-history e c none d = refl
run_known-history e c (some t) d = run_decided-history e c t _ d

first_stale-history :
    (p : String) (s : Option StaleRead) (d : Desk) (rest : Option ToolOutput × Desk)
    → rest.1.call_history ≡ d.call_history
    → (first_stale p s d rest).1.call_history ≡ d.call_history
first_stale-history p none d rest h = h
first_stale-history p (some s) d rest h = refl

check_paths-history :
    (e : Env) (ps : List String) (d : Desk) → (check_paths e ps d).1.call_history ≡ d.call_history
unfolding check_paths
check_paths-history e [] d = refl
check_paths-history e (p ∷ ps) d = first_stale-history p _ _ _ (check_paths-history e ps _)

check_stale-history :
    (e : Env) (c : ToolCallRequest) (d : Desk) → (check_stale e c d).1.call_history ≡ d.call_history
check_stale-history e c d =
    if-result (is_stale_checked_tool c.name) _ _ (check_paths-history e _ d) refl

run_fresh-history :
    (e : Env) (c : ToolCallRequest) (p : Option ToolOutput × Desk)
    → (run_fresh e c p).1.call_history ≡ p.1.call_history
run_fresh-history e c (some stale, d) = refl
run_fresh-history e c (none, d) = run_known-history e c (get c.name e.tools) d

run_checked-history :
    (e : Env) (c : ToolCallRequest) (d : Desk)
    → (run_fresh e c (check_stale e c d)).1.call_history ≡ d.call_history
run_checked-history e c d = run_fresh-history e c (check_stale e c d) ∙ check_stale-history e c d

run_permitted-history :
    (e : Env) (c : ToolCallRequest) (v : PermDecision) (d : Desk)
    → (run_permitted e c v d).1.call_history ≡ d.call_history
unfolding run_permitted
run_permitted-history e c perm_deny d = refl
run_permitted-history e c perm_allow d = run_checked-history e c d
run_permitted-history e c perm_ask d = run_checked-history e c d

child_output-history :
    (x : ChildEnd) (d : Desk) → (child_output x d).1.call_history ≡ d.call_history
child_output-history (child_failed kind m) d = refl
child_output-history (child_done out files) d = refl

handle_sub_agent-history :
    (e : Env) (c : ToolCallRequest) (d : Desk)
    → (handle_sub_agent e c d).1.call_history ≡ d.call_history
unfolding handle_sub_agent
handle_sub_agent-history e c d =
    if-result (leb max_sub_agent_depth e.sub_agent_depth) _ _ refl (child_output-history _ _)

take_report-history :
    (r : Result String GroundingReportParams) (d : Desk)
    → (take_report r d).1.call_history ≡ d.call_history
take_report-history (err m) d = refl
take_report-history (ok p) d =
    if-result p.understood _ _ (if-result d.grounding _ _ refl refl)
      (if-result (question_text p == "") _ _ refl refl)

run_unrepeated-history :
    (e : Env) (c : ToolCallRequest) (d : Desk)
    → (run_unrepeated e c d).1.call_history ≡ d.call_history
unfolding run_unrepeated run_ungated handle_grounding_report
run_unrepeated-history e c d =
    if-result (c.name == grounding_tool_name && has_tool e c.name) _ _
      (take_report-history (parse_grounding_report e.decoder c.input) d)
      (if-result (is_locked e c d) _ _ refl (
        if-result (c.name == sub_agent_tool_name && has_tool e c.name) _ _
          (handle_sub_agent-history e c d)
          (run_permitted-history e c (permit e.matching e.permissions c.name c.input) d)))

-- Whatever becomes of a call, it is entered in the history once, and nothing else happens to that.
pub execute_tool-history :
    (e : Env) (c : ToolCallRequest) (d : Desk)
    → (execute_tool e c d).1.call_history ≡ history e c.name c.input d.call_history
unfolding execute_tool detect_loop
execute_tool-history e c d =
    let l = detect_loop e c.name c.input d in
    if-result l.0 (err_output "loop_blocked" (loop_text e c), l.1) (run_unrepeated e c l.1) refl
      (run_unrepeated-history e c l.1)
