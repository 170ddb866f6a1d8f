-- ===== src/Agentic/Orchestrator/Calls/Consent.antt =====
-- executeTool follows the step relation of its effects (agentic/orchestrator.go).
use rysh_cli_shared.Prelude.{
  String, Bool, true, false, ◌&&◌, ◌||◌, not, Option, none, some, List, [], ◌∷◌, ◌≡◌, refl, sym,
  subst, ◌∙◌, ◌==◌, if◌then◌else◌, Result, ok, err, and-eq_true, arith, leb,
}
use rysh_cli_shared.Tools.{ToolOutput, err_output}
use rysh_cli_shared.Tools.Registry.{get}
use rysh_cli_shared.Provider.Turns.{ToolCallRequest}
use rysh_cli_shared.Agentic.ApprovalMemory.{ApprovalMemory}
use rysh_cli_shared.Agentic.Permissions.{PermDecision, perm_ask, perm_allow, perm_deny}
use rysh_cli_shared.Agentic.Policy.{
  PolicyDecision, policy_default, policy_auto_approve, policy_gate, is_gate, eval_approval_policy,
}
use rysh_cli_shared.Agentic.ReadTracker.{StaleRead}
use rysh_cli_shared.Agentic.Grounding.{
  GroundingReportParams, parse_grounding_report, grounding_tool_name,
}
use rysh_cli_shared.Agentic.Orchestrator.State.{
  Env, Desk, Tool, ChildEnd, child_failed, child_done, Effect,
}
use rysh_cli_shared.Agentic.Orchestrator.Decisions.{decide, decide_approval, detect_loop}
use rysh_cli_shared.Agentic.Orchestrator.Calls.{
  is_stale_checked_tool, first_stale, take_report, question_text, check_paths,
  handle_grounding_report, shaped, sanitized, update_read_tracker_on_success, escalate,
}
use rysh_cli_shared.Agentic.Orchestrator.Calls.Approvals.{
  run_tool, execute_with_pre_approval, execute_with_preview,
}
use rysh_cli_shared.Agentic.Orchestrator.Calls.Dispatch.{
  finish_call, direct_output, run_decided, run_known, run_fresh, check_stale, run_permitted,
  is_locked, run_ungated, run_unrepeated, execute_tool, handle_sub_agent, has_tool,
  sub_agent_tool_name, child_output, max_sub_agent_depth, loop_text,
}
use rysh_cli_shared.Agentic.Orchestrator.Calls.Steps.{is_gated, Steps, stay}
use rysh_cli_shared.Agentic.Orchestrator.Calls.Asking.{
  if-Steps, if-effects, run_tool-Steps, execute_with_pre_approval-Steps, execute_with_preview-Steps,
}

tracked-effects :
    (e : Env) (name params : String) (out : ToolOutput) (d : Desk)
    → (update_read_tracker_on_success e name params out d).effects ≡ d.effects
unfolding update_read_tracker_on_success
tracked-effects e name params out d = if-effects (not (out.error == "")) _ _ refl (
    if-effects (name == "file_read") _ _ refl (
      if-effects (name == "edit" || name == "file_write") _ _ refl
        (if-effects (name == "apply_patch") _ _ refl refl)))

escalate-effects : (out : ToolOutput) (d : Desk) → (escalate out d).effects ≡ d.effects
unfolding escalate
escalate-effects out d = if-effects _ _ _ refl refl

finish_call-effects :
    (e : Env) (c : ToolCallRequest) (p : ToolOutput × Desk)
    → (finish_call e c p).1.effects ≡ p.1.effects
unfolding finish_call
finish_call-effects e c (out, d) =
    tracked-effects e c.name c.input out (escalate out d) ∙ escalate-effects out d

finish_call-Steps :
    (e : Env) (c : ToolCallRequest) {es : List Effect} (p : ToolOutput × Desk)
    → Steps e es p.1.effects
    → Steps e es (finish_call e c p).1.effects
finish_call-Steps e c {es} p h = subst (λ xs. Steps e es xs) (sym (finish_call-effects e c p)) h

direct_output-Steps :
    {es : List Effect} (e : Env) (c : ToolCallRequest) (r : Result String ToolOutput) (d : Desk)
    → Steps e es d.effects
    → Steps e es (direct_output e c (r, d)).1.effects
direct_output-Steps e c (err m) d h = h
direct_output-Steps e c (ok out) d h = finish_call-Steps e c (sanitized e d (shaped e out), d) h

run_decided-Steps :
    (e : Env) (c : ToolCallRequest) (t : Tool) (v : Bool × String) (d : Desk)
    → get c.name e.tools ≡ some t
    → (is_gated e c.name c.input ≡ true → v.0 ≡ true)
    → Steps e d.effects (run_decided e c t v d).1.effects
unfolding run_decided
run_decided-Steps e c t (false, rule) d k g =
    direct_output-Steps e c (run_tool e c t d).0 (run_tool e c t d).1
      (run_tool-Steps e c t d (λ h. absurd (ground (arith, g h))))
run_decided-Steps e c t (true, rule) d k g =
    if-Steps (c.name == "edit" || c.name == "file_write") _ _
      (λ w.
        finish_call-Steps e c (execute_with_preview e c t rule d)
          (execute_with_preview-Steps e c t rule d (record { known = k; changes = w })))
      (λ w.
        finish_call-Steps e c (execute_with_pre_approval e c t rule d)
          (execute_with_pre_approval-Steps e c t rule d))

gate-decides :
    (e : Env) (m : Option ApprovalMemory) (name input : String) (classifier : Bool)
    (v : PolicyDecision × String)
    → is_gate v.0 ≡ true
    → (decide e m name input classifier v).0 ≡ true
gate-decides e m name input classifier (policy_gate, rule) g = refl
gate-decides e m name input classifier (policy_default, rule) g = absurd (ground arith)
gate-decides e m name input classifier (policy_auto_approve, rule) g = absurd (ground arith)

is_gated-needs :
    (e : Env) (m : Option ApprovalMemory) (name input : String) (classifier : Bool)
    → is_gated e name input ≡ true
    → (decide_approval e m name input classifier).0 ≡ true
unfolding is_gated decide_approval
is_gated-needs e m name input classifier g =
    gate-decides e m name input classifier (eval_approval_policy e.policy name input)
      (and-eq_true g).0

run_known-Steps :
    (e : Env) (c : ToolCallRequest) (o : Option Tool) (d : Desk)
    → get c.name e.tools ≡ o
    → Steps e d.effects (run_known e c o d).1.effects
run_known-Steps e c none d k = stay
run_known-Steps e c (some t) d k =
    run_decided-Steps e c t _ d k (is_gated-needs e d.auto_approved c.name c.input _)

if-pair :
    {A : Type 0} {es : List Effect} (b : Bool) (x y : A × Desk)
    → x.1.effects ≡ es
    → y.1.effects ≡ es
    → (if b then x else y).1.effects ≡ es
if-pair true x y p q = p
if-pair false x y p q = q

first_stale-effects :
    {es : List Effect} (p : String) (s : Option StaleRead) (d : Desk)
    (rest : Option ToolOutput × Desk)
    → d.effects ≡ es
    → rest.1.effects ≡ es
    → (first_stale p s d rest).1.effects ≡ es
first_stale-effects p none d rest h k = k
first_stale-effects p (some s) d rest h k = h

check_paths-effects :
    (e : Env) (ps : List String) (d : Desk) → (check_paths e ps d).1.effects ≡ d.effects
unfolding check_paths
check_paths-effects e [] d = refl
check_paths-effects e (p ∷ ps) d = first_stale-effects p _ _ _ refl (check_paths-effects e ps _)

check_stale-effects :
    (e : Env) (c : ToolCallRequest) (d : Desk) → (check_stale e c d).1.effects ≡ d.effects
check_stale-effects e c d =
    if-pair (is_stale_checked_tool c.name) _ _ (check_paths-effects e _ d) refl

run_fresh-Steps :
    (e : Env) (c : ToolCallRequest) (p : Option ToolOutput × Desk)
    → Steps e p.1.effects (run_fresh e c p).1.effects
run_fresh-Steps e c (some stale, d) = stay
run_fresh-Steps e c (none, d) = run_known-Steps e c (get c.name e.tools) d refl

run_checked-Steps :
    (e : Env) (c : ToolCallRequest) (d : Desk)
    → Steps e d.effects (run_fresh e c (check_stale e c d)).1.effects
run_checked-Steps e c d =
    subst (λ es. Steps e es (run_fresh e c (check_stale e c d)).1.effects)
      (check_stale-effects e c d) (run_fresh-Steps e c (check_stale e c d))

run_permitted-Steps :
    (e : Env) (c : ToolCallRequest) (v : PermDecision) (d : Desk)
    → Steps e d.effects (run_permitted e c v d).1.effects
unfolding run_permitted
run_permitted-Steps e c perm_deny d = stay
run_permitted-Steps e c perm_allow d = run_checked-Steps e c d
run_permitted-Steps e c perm_ask d = run_checked-Steps e c d

child_output-effects : (x : ChildEnd) (d : Desk) → (child_output x d).1.effects ≡ d.effects
child_output-effects (child_failed kind m) d = refl
child_output-effects (child_done out files) d = refl

handle_sub_agent-effects :
    (e : Env) (c : ToolCallRequest) (d : Desk) → (handle_sub_agent e c d).1.effects ≡ d.effects
unfolding handle_sub_agent
handle_sub_agent-effects e c d =
    if-pair (leb max_sub_agent_depth e.sub_agent_depth) _ _ refl (child_output-effects _ _)

take_report-effects :
    (r : Result String GroundingReportParams) (d : Desk) → (take_report r d).1.effects ≡ d.effects
take_report-effects (err m) d = refl
take_report-effects (ok p) d =
    if-pair p.understood _ _ (if-pair d.grounding _ _ refl refl)
      (if-pair (question_text p == "") _ _ refl refl)

handle_grounding_report-effects :
    (e : Env) (c : ToolCallRequest) (d : Desk)
    → (handle_grounding_report e c d).1.effects ≡ d.effects
unfolding handle_grounding_report
handle_grounding_report-effects e c d =
    take_report-effects (parse_grounding_report e.decoder c.input) d

run_unrepeated-Steps :
    (e : Env) (c : ToolCallRequest) (d : Desk) → Steps e d.effects (run_unrepeated e c d).1.effects
unfolding run_unrepeated run_ungated
run_unrepeated-Steps e c d =
    if-Steps (c.name == grounding_tool_name && has_tool e c.name) _ _
      (λ g. subst (λ xs. Steps e d.effects xs) (sym (handle_grounding_report-effects e c d)) stay)
      (λ g.
        if-Steps (is_locked e c d) _ _ (λ l. stay)
          (λ l.
            if-Steps (c.name == sub_agent_tool_name && has_tool e c.name) _ _
              (λ s. subst (λ xs. Steps e d.effects xs) (sym (handle_sub_agent-effects e c d)) stay)
              (λ s. run_permitted-Steps e c _ d)))

-- A tool call only does what the step relation allows.
pub execute_tool-Steps :
    (e : Env) (c : ToolCallRequest) (d : Desk) → Steps e d.effects (execute_tool e c d).1.effects
unfolding execute_tool detect_loop
execute_tool-Steps e c d =
    let l = detect_loop e c.name c.input d in
    if-Steps l.0 (err_output "loop_blocked" (loop_text e c), l.1) (run_unrepeated e c l.1)
      (λ b. stay) (λ b. run_unrepeated-Steps e c l.1)
