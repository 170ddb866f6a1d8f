-- ===== src/Provider/Pairing.antt =====
-- HealToolPairing and ValidateToolPairing (provider/toolpairing.go). The inner loop over the tool
-- turns that follow an assistant's calls is the state `answering`: the assistant turn, and the ids
-- that have been answered. A set of ids is a list.
pub mod Paired
pub mod Repair
pub mod Unchanged
pub mod Kept
use rysh_cli_shared.Prelude.{
  ℕ, String, Bool, true, false, ◌&&◌, not, List, [], ◌∷◌, ◌++◌, ◌==◌, if◌then◌else◌, contains, ◌<>◌,
}
use rysh_cli_shared.Provider.Turns.{ConversationTurn, ToolCallRequest, no_calls}

abbrev pub healed_tool_result_note : String
healed_tool_result_note =
    "[error kind=unavailable] result missing — the run was interrupted or earlier history was compacted; re-issue the call if still needed"

pub data Scan : Type 0 where
  outside : Scan
  answering : ConversationTurn → List String → Scan

abbrev pub has_calls : List ToolCallRequest → Bool
has_calls [] = false
has_calls (c ∷ cs) = true

-- t.Role == "assistant" && len(t.ToolCalls) > 0
unfoldable pub calls_tools : ConversationTurn → Bool
calls_tools t = t.role == "assistant" && has_calls t.tool_calls

-- t.Role == "tool"
unfoldable pub is_tool : ConversationTurn → Bool
is_tool t = t.role == "tool"

-- wanted[id]
unfoldable pub wanted : List ToolCallRequest → String → Bool
wanted [] id = false
wanted (c ∷ cs) id = if c.id == id then true else wanted cs id

-- The turn that is written for a call without a result.
abbrev pub synthesized : ConversationTurn → ToolCallRequest → ConversationTurn
synthesized t c = record {
  role = "tool";
  content = healed_tool_result_note;
  content_blocks = [];
  tool_calls = [];
  tool_call_id = c.id;
  is_error = true;
  category = "system";
  origin = "";
  summary = "";
  timestamp_ms = t.timestamp_ms;
  thinking = [];
  provider_name = "";
  model = "";
  sub_agent_calls = no_calls;
}

-- The loop over the calls that nothing has answered.
unfoldable pub missing :
    ConversationTurn → List String → List ToolCallRequest → List ConversationTurn
missing t answered [] = []
missing t answered (c ∷ cs) =
    let rest = missing t answered cs in
    if contains answered c.id then rest else synthesized t c ∷ rest

unfoldable pub heal : Scan → List ConversationTurn → List ConversationTurn
heal outside [] = []
heal (answering o answered) [] = missing o answered o.tool_calls
heal outside (t ∷ ts) =
    let called = t ∷ heal (answering t []) ts in
    let rest = heal outside ts in
    if calls_tools t then called else if is_tool t then rest else t ∷ rest
heal (answering o answered) (t ∷ ts) =
    let kept = t ∷ heal (answering o (t.tool_call_id ∷ answered)) ts in
    let dropped = heal (answering o answered) ts in
    let called = t ∷ heal (answering t []) ts in
    let plain = t ∷ heal outside ts in
    if is_tool t
    then if wanted o.tool_calls t.tool_call_id && not (contains answered t.tool_call_id)
      then kept
      else dropped
    else missing o answered o.tool_calls ++ (if calls_tools t then called else plain)

-- HealToolPairing
unfoldable pub heal_tool_pairing : List ConversationTurn → List ConversationTurn
heal_tool_pairing ts = heal outside ts

-- The loop over the calls that nothing has answered, in ValidateToolPairing.
unfoldable pub unanswered : List String → List ToolCallRequest → List String
unanswered answered [] = []
unanswered answered (c ∷ cs) =
    let rest = unanswered answered cs in
    if contains answered c.id then rest else ("unanswered tool_use " <> c.id) ∷ rest

unfoldable pub validate : Scan → List ConversationTurn → List String
validate outside [] = []
validate (answering o answered) [] = unanswered answered o.tool_calls
validate outside (t ∷ ts) =
    let called = validate (answering t []) ts in
    let rest = validate outside ts in
    if calls_tools t
    then called
    else if is_tool t
    then ("orphaned tool_result " <> t.tool_call_id) ∷ rest
    else rest
validate (answering o answered) (t ∷ ts) =
    let next = validate (answering o (t.tool_call_id ∷ answered)) ts in
    let called = validate (answering t []) ts in
    let rest = validate outside ts in
    if is_tool t
    then next
    else unanswered answered o.tool_calls ++ (if calls_tools t then called else rest)

-- ValidateToolPairing
unfoldable pub validate_tool_pairing : List ConversationTurn → List String
validate_tool_pairing ts = validate outside ts
