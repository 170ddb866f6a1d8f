-- ===== src/Agentic/Orchestrator/Calls/Steps.antt =====
-- The effects of tool calls as a step relation (agentic/orchestrator.go).
use rysh_cli_shared.Prelude.{
  String, Bool, true, false, ◌&&◌, ◌||◌, not, Option, none, some, List, ◌∷◌, ◌≡◌, ◌==◌,
}
use rysh_cli_shared.Tools.Registry.{get}
use rysh_cli_shared.Agentic.Policy.{is_gate, eval_approval_policy}
use rysh_cli_shared.Agentic.Orchestrator.State.{
  Env, Tool, ApprovalDecision, yes_once, yes_always, Effect, asked, answered, previewed, ran,
}

abbrev pub lacks_preview : Option Tool → Bool
lacks_preview none = false
lacks_preview (some t) = not t.has_preview

-- A tool that changes files and cannot preview the change: it is run before the approval is asked for.
abbrev pub writes_first : Env → String → Bool
writes_first e name = (name == "edit" || name == "file_write") && lacks_preview (get name e.tools)

-- The policy has a gate for the call, and the tool is none that is run before the approval.
unfoldable pub is_gated : Env → String → String → Bool
is_gated e name input =
    is_gate (eval_approval_policy e.policy name input).0 && not (writes_first e name)

abbrev pub is_yes : ApprovalDecision → Bool
is_yes yes_once = true
is_yes yes_always = true
is_yes _ = false

-- The last effect is a yes, and the one before it the request for this very call.
abbrev pub approves : String → String → List Effect → Bool
approves name input (answered a ∷ asked n i rule ∷ es) = is_yes a && n == name && i == input
approves name input _ = false

-- What a tool call may do, from the effects that are there.
pub data Steps (e : Env) (start : List Effect) : List Effect → Type 0 where
  stay : Steps e start start
  asks :
      {es : List Effect} {name input rule : String}
      → Steps e start es
      → Steps e start (asked name input rule ∷ es)
  answers :
      {es : List Effect} {a : ApprovalDecision} → Steps e start es → Steps e start (answered a ∷ es)
  previews :
      {es : List Effect} {name input : String}
      → Steps e start es
      → Steps e start (previewed name input ∷ es)
  runs :
      {es : List Effect} {name input : String}
      → (is_gated e name input ≡ true → approves name input es ≡ true)
      → Steps e start es
      → Steps e start (ran name input ∷ es)

pub Steps-trans : {e : Env} {xs ys zs : List Effect} → Steps e xs ys → Steps e ys zs → Steps e xs zs
Steps-trans p stay = p
Steps-trans p (asks q) = asks (Steps-trans p q)
Steps-trans p (answers q) = answers (Steps-trans p q)
Steps-trans p (previews q) = previews (Steps-trans p q)
Steps-trans p (runs h q) = runs h (Steps-trans p q)
