-- ===== src/Agentic/Orchestrator/Calls/Asking.antt =====
-- executeWithPreview and executeWithPreApproval follow the step relation of the effects of a call
-- (agentic/orchestrator.go).
use rysh_cli_shared.Prelude.{
  suc, String, Bool, true, false, ◌||◌, some, List, ◌∷◌, ◌≡◌, refl, sym, subst, ◌==◌, if◌then◌else◌,
  Result, ok, err, Bool-cases, inl, inr, eq_refl, arith,
}
use rysh_cli_shared.Tools.{ToolOutput}
use rysh_cli_shared.Tools.Registry.{get}
use rysh_cli_shared.Provider.Turns.{ToolCallRequest}
use rysh_cli_shared.Agentic.Orchestrator.State.{
  Env, Desk, Tool, ApprovalDecision, yes_once, yes_always, no_once, no_with_explanation,
  choice_selected, other_decision, ApprovalResponse, Effect, asked, answered, enter, executing,
}
use rysh_cli_shared.Agentic.Orchestrator.Decisions.{approve_always}
use rysh_cli_shared.Agentic.Orchestrator.Calls.{
  response_of, apply_approved_change, sanitized, wait_for_approval, interrupted_reason,
}
use rysh_cli_shared.Agentic.Orchestrator.Calls.Approvals.{
  run_tool, ask, answer_command, execute_with_pre_approval, preview_file_change, answer_change,
  ask_change, execute_with_preview, apply_change, applied_change, settle_change, add_changed,
  to_option, offer_change,
}
use rysh_cli_shared.Agentic.Orchestrator.Calls.Steps.{
  is_gated, writes_first, approves, Steps, stay, asks, answers, previews, runs, Steps-trans,
}

-- The call may be run with these effects behind it.
abbrev pub MayRun : Env → ToolCallRequest → List Effect → Type 0
MayRun e c es = is_gated e c.name c.input ≡ true → approves c.name c.input es ≡ true

pub if-Steps :
    {A : Type 0} {e : Env} {es : List Effect} (b : Bool) (x y : A × Desk)
    → (b ≡ true → Steps e es x.1.effects)
    → (b ≡ false → Steps e es y.1.effects)
    → Steps e es (if b then x else y).1.effects
if-Steps true x y p q = p refl
if-Steps false x y p q = q refl

pub if-effects :
    (b : Bool) (x y : Desk) {es : List Effect}
    → x.effects ≡ es
    → y.effects ≡ es
    → (if b then x else y).effects ≡ es
if-effects true x y p q = p
if-effects false x y p q = q

pub run_tool-Steps :
    (e : Env) (c : ToolCallRequest) (t : Tool) (d : Desk)
    → MayRun e c d.effects
    → Steps e d.effects (run_tool e c t d).1.effects
unfolding run_tool
run_tool-Steps e c t d h = runs h stay

self_approves :
    (c : ToolCallRequest) (rule : String) (es : List Effect)
    → approves c.name c.input (answered yes_once ∷ asked c.name c.input rule ∷ es) ≡ true
self_approves c rule es = ground (arith, eq_refl c.name, eq_refl c.input)

answer_command-Steps :
    (e : Env) (c : ToolCallRequest) (t : Tool) (rule : String) (r : ApprovalResponse)
    (a : ApprovalDecision) (d : Desk) (es : List Effect)
    → d.effects ≡ answered a ∷ asked c.name c.input rule ∷ es
    → Steps e d.effects (answer_command e c t r a d).1.effects
unfolding answer_command approve_always run_tool
answer_command-Steps e c t rule r yes_once d es h =
    runs (λ g. subst (λ x. approves c.name c.input x ≡ true) (sym h) (self_approves c rule es)) stay
answer_command-Steps e c t rule r yes_always d es h =
    runs (λ g. subst (λ x. approves c.name c.input x ≡ true) (sym h) (self_approves c rule es)) stay
answer_command-Steps e c t rule r no_once d es h = stay
answer_command-Steps e c t rule r no_with_explanation d es h = stay
answer_command-Steps e c t rule r choice_selected d es h = stay
answer_command-Steps e c t rule r (other_decision s) d es h = stay

pub execute_with_pre_approval-Steps :
    (e : Env) (c : ToolCallRequest) (t : Tool) (rule : String) (d : Desk)
    → Steps e d.effects (execute_with_pre_approval e c t rule d).1.effects
unfolding execute_with_pre_approval ask wait_for_approval
execute_with_pre_approval-Steps e c t rule d =
    let r = response_of (e.answer (suc d.clock)) in
    if-Steps (r.reason == interrupted_reason) _ _ (λ i. answers (asks stay))
      (λ i.
        Steps-trans (answers (asks stay))
          (answer_command-Steps e c t rule r r.decision _ d.effects refl))

applied_change-effects :
    (e : Env) (path : String) (out : ToolOutput) (d : Desk)
    → (applied_change e path out d).1.effects ≡ d.effects
applied_change-effects e path out d = elim (Bool-cases (out.error == "")) [
  | inl h ↦ elim (Bool-cases (path == "")) [ inl p ↦ rw (h, p) refl | inr p ↦ rw (h, p) refl ]
  | inr h ↦ rw h refl
]

add_changed-effects : (path : String) (d : Desk) → (add_changed path d).effects ≡ d.effects
add_changed-effects path d = if-effects (path == "") _ _ refl refl

settle_change-Steps :
    (e : Env) (path : String) (es : List Effect) (p : Result String ToolOutput × Desk)
    → Steps e es p.1.effects
    → Steps e es (settle_change e path p).1.effects
settle_change-Steps e path es (r, d) h =
    subst (λ xs. Steps e es xs)
      (sym (applied_change-effects e path (apply_approved_change (to_option r)) d)) h

apply_change-Steps :
    (e : Env) (c : ToolCallRequest) (t : Tool) (path : String) (out : ToolOutput) (d : Desk)
    → MayRun e c d.effects
    → Steps e d.effects (apply_change e c t path out d).1.effects
unfolding apply_change
apply_change-Steps e c t path out d h =
    if-Steps t.has_preview _ _
      (λ p. settle_change-Steps e path d.effects (run_tool e c t d) (run_tool-Steps e c t d h))
      (λ p. subst (λ xs. Steps e d.effects xs) (sym (add_changed-effects path d)) stay)

answer_change-Steps :
    (e : Env) (c : ToolCallRequest) (t : Tool) (rule : String) (out : ToolOutput)
    (r : ApprovalResponse) (a : ApprovalDecision) (d : Desk) (es : List Effect)
    → d.effects ≡ answered a ∷ asked c.name c.input rule ∷ es
    → Steps e d.effects (answer_change e c t out r a d).1.effects
unfolding answer_change approve_always
answer_change-Steps e c t rule out r yes_once d es h =
    apply_change-Steps e c t _ out (enter executing d)
      (λ g. subst (λ x. approves c.name c.input x ≡ true) (sym h) (self_approves c rule es))
answer_change-Steps e c t rule out r yes_always d es h =
    apply_change-Steps e c t _ out (enter executing (approve_always c.name c.input d))
      (λ g. subst (λ x. approves c.name c.input x ≡ true) (sym h) (self_approves c rule es))
answer_change-Steps e c t rule out r no_once d es h = stay
answer_change-Steps e c t rule out r no_with_explanation d es h = stay
answer_change-Steps e c t rule out r choice_selected d es h = stay
answer_change-Steps e c t rule out r (other_decision s) d es h = stay

ask_change-Steps :
    (e : Env) (c : ToolCallRequest) (t : Tool) (rule : String) (out : ToolOutput) (d : Desk)
    → Steps e d.effects (ask_change e c t rule out d).1.effects
unfolding ask_change ask wait_for_approval
ask_change-Steps e c t rule out d =
    let r = response_of (e.answer (suc d.clock)) in
    if-Steps (r.reason == interrupted_reason) _ _ (λ i. answers (asks stay))
      (λ i.
        Steps-trans (answers (asks stay))
          (answer_change-Steps e c t rule out r r.decision _ d.effects refl))

offer_change-Steps :
    (e : Env) (c : ToolCallRequest) (t : Tool) (rule : String) (r : Result String ToolOutput)
    (d : Desk)
    → Steps e d.effects (offer_change e c t rule r d).1.effects
offer_change-Steps e c t rule (err m) d = stay
offer_change-Steps e c t rule (ok out) d =
    if-Steps (out.error == "") _ _ (λ i. ask_change-Steps e c t rule (sanitized e d out) d)
      (λ i. stay)

-- The tool that the registry has for the call changes files.
pub record IsChange (e : Env) (c : ToolCallRequest) (t : Tool) : Type 0 where
  pub known : get c.name e.tools ≡ some t
  pub changes : (c.name == "edit" || c.name == "file_write") ≡ true

MayRun-unpreviewed :
    (e : Env) (c : ToolCallRequest) (t : Tool) (es : List Effect)
    → IsChange e c t
    → t.has_preview ≡ false
    → MayRun e c es
unfolding is_gated
MayRun-unpreviewed e c t es k p g =
    let w : writes_first e c.name ≡ true = rw (k.changes, k.known, p) refl in
    absurd (ground (arith, w, g))

preview_file_change-Steps :
    (e : Env) (c : ToolCallRequest) (t : Tool) (d : Desk)
    → IsChange e c t
    → Steps e d.effects (preview_file_change e c t d).1.effects
unfolding preview_file_change
preview_file_change-Steps e c t d k =
    if-Steps t.has_preview _ _ (λ p. previews stay)
      (λ p. run_tool-Steps e c t d (MayRun-unpreviewed e c t d.effects k p))

pub execute_with_preview-Steps :
    (e : Env) (c : ToolCallRequest) (t : Tool) (rule : String) (d : Desk)
    → IsChange e c t
    → Steps e d.effects (execute_with_preview e c t rule d).1.effects
unfolding execute_with_preview
execute_with_preview-Steps e c t rule d k =
    Steps-trans (preview_file_change-Steps e c t d k) (
      offer_change-Steps e c t rule (preview_file_change e c t d).0 (preview_file_change e c t d).1)
