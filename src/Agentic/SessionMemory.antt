-- ===== src/Agentic/SessionMemory.antt =====
-- SessionMemory and CloseDanglingToolCalls (agentic/session_memory.go), with the window of
-- boundConversation (agentic/llm_prompt_execution_actor.go), HealConversationHead and CategorizeTurn
-- (provider/agentic_provider.go). A key-value store is what it holds under the two keys.
pub mod Healing
pub mod CutOff
use rysh_cli_shared.Prelude.{
  ℕ, ◌-◌, String, Bool, true, false, ◌&&◌, ◌||◌, not, Option, none, some, List, [], ◌∷◌, ◌++◌, ◌==◌,
  if◌then◌else◌, contains, length, ltb, leb, eqb, drop_first, map, ◌<>◌,
}
use rysh_cli_shared.Provider.Pairing.{has_calls}
use rysh_cli_shared.Provider.Turns.{ConversationTurn, ContentBlock, ToolCallRequest, no_calls}

-- A turn with these fields; the others are zero.
abbrev pub simple_turn : String → String → String → String → String → ℕ → ConversationTurn
simple_turn role content category origin summary time = record {
  role = role;
  content = content;
  content_blocks = [];
  tool_calls = [];
  tool_call_id = "";
  is_error = false;
  category = category;
  origin = origin;
  summary = summary;
  timestamp_ms = time;
  thinking = [];
  provider_name = "";
  model = "";
  sub_agent_calls = no_calls;
}

-- CategorizeTurn
unfoldable pub categorize_turn : ConversationTurn → String
categorize_turn t =
    if not (t.category == "")
    then t.category
    else if t.role == "user"
    then "user"
    else if t.role == "assistant"
    then "ai"
    else if t.role == "tool"
    then "tool"
    else "system"

-- The scan of CloseDanglingToolCalls from the end for the last assistant turn with calls: the turns
-- seen so far have no user or assistant turn, or end the search, or have the turn with what follows.
pub data Last : Type 0 where
  unseen closed : Last
  found : ConversationTurn → List ConversationTurn → Last

abbrev pub look : ConversationTurn → List ConversationTurn → Last → Last
look t ts (found u us) = found u us
look t ts closed = closed
look t ts unseen =
    if t.role == "assistant"
    then if has_calls t.tool_calls then found t ts else closed
    else if t.role == "user"
    then closed
    else unseen

unfoldable pub last_calls : List ConversationTurn → Last
last_calls [] = unseen
last_calls (t ∷ ts) = look t ts (last_calls ts)

-- The ids that are answered after the turn.
unfoldable pub answered_ids : List ConversationTurn → List String
answered_ids [] = []
answered_ids (t ∷ ts) =
    let rest = answered_ids ts in
    if t.role == "tool" && not (t.tool_call_id == "") then t.tool_call_id ∷ rest else rest

-- The packages around: stepTitle, a text that is only displayed, and the clock.
pub record Context : Type 0 where
  pub step_title : String → String → String
  pub now : ℕ

-- cancelledResultPrefix + " " + note
abbrev pub cancelled_note : String → String
cancelled_note note = "[error kind=cancelled] " <> note

-- The synthetic result of a call.
abbrev pub interrupted_turn : Context → String → ToolCallRequest → ConversationTurn
interrupted_turn k note c =
    let t =
      simple_turn "tool" (cancelled_note note) "tool" c.name
        (k.step_title c.name c.input <> " — interrupted") k.now in
    record t { tool_call_id = c.id; is_error = true }

-- The loop that closes the calls.
unfoldable pub dangling :
    Context → String → List String → List ToolCallRequest → List ConversationTurn
dangling k note answered [] = []
dangling k note answered (c ∷ cs) =
    let rest = dangling k note answered cs in
    if contains answered c.id then rest else interrupted_turn k note c ∷ rest

abbrev pub closing_turns : Context → String → Last → List ConversationTurn
closing_turns k note unseen = []
closing_turns k note closed = []
closing_turns k note (found t ts) = dangling k note (answered_ids ts) t.tool_calls

-- CloseDanglingToolCalls
unfoldable pub close_dangling_tool_calls :
    Context → String → List ConversationTurn → List ConversationTurn
close_dangling_tool_calls k note ts = ts ++ closing_turns k note (last_calls ts)

abbrev pub or_whole : List ConversationTurn → List ConversationTurn → List ConversationTurn
or_whole ts [] = ts
or_whole ts (u ∷ us) = u ∷ us

-- The loop of HealConversationHead: what is left from the first user turn on.
unfoldable pub from_user : List ConversationTurn → List ConversationTurn
from_user [] = []
from_user (t ∷ ts) = let rest = from_user ts in if t.role == "user" then t ∷ ts else rest

-- HealConversationHead
unfoldable pub heal_conversation_head : List ConversationTurn → List ConversationTurn
heal_conversation_head ts = or_whole ts (from_user ts)

abbrev pub max_conversation_turns : ℕ
max_conversation_turns = 200

abbrev pub max_conversation_turns_hard : ℕ
max_conversation_turns_hard = 300

-- boundConversation
unfoldable pub bound_conversation : List ConversationTurn → List ConversationTurn
bound_conversation ts = heal_conversation_head (
    if ltb max_conversation_turns_hard (length ts)
    then drop_first (length ts - max_conversation_turns) ts
    else ts)

pub record SessionMemoryState : Type 0 where
  pub version : ℕ
  pub turns : List ConversationTurn
  pub paused : Bool
  pub paused_reason : String
  pub grounding_override : String
  pub updated_ms : ℕ

-- What the key-value store has under the wrapper's key and under the legacy key, where the JSON of it
-- decodes.
pub record KeyValues : Type 0 where
  pub session : Option SessionMemoryState
  pub legacy : Option (List ConversationTurn)

pub record SessionMemory : Type 0 where
  pub kv : Option KeyValues
  pub turns : List ConversationTurn
  pub paused : Bool
  pub paused_reason : String
  pub grounding_override : String
  pub last_write : ℕ
  pub min_write_interval : ℕ

-- NewSessionMemory; times are in milliseconds
abbrev pub new_session_memory : Option KeyValues → SessionMemory
new_session_memory kv = record {
  kv = kv;
  turns = [];
  paused = false;
  paused_reason = "";
  grounding_override = "";
  last_write = 0;
  min_write_interval = 2000;
}

-- AppendUserTurn
abbrev pub append_user_turn : ℕ → String → List ContentBlock → SessionMemory → SessionMemory
append_user_turn now content blocks s =
    let t = simple_turn "user" content "user" "" "" now in
    record s { turns = s.turns ++ record t { content_blocks = blocks } ∷ [] }

-- if t.Category == "" { t.Category = CategorizeTurn(t) }
abbrev pub categorized : ConversationTurn → ConversationTurn
categorized t = record t { category = categorize_turn t }

-- Append
unfoldable pub append_turn : ℕ → ConversationTurn → SessionMemory → SessionMemory
append_turn now t s =
    let time = if eqb t.timestamp_ms 0 then now else t.timestamp_ms in
    record s {
      turns = s.turns ++ record t { timestamp_ms = time; category = categorize_turn t } ∷ [];
    }

-- Replace
unfoldable pub replace_turns : List ConversationTurn → SessionMemory → SessionMemory
replace_turns ts s = record s { turns = map categorized ts }

-- Bound
unfoldable pub bound_memory : Context → SessionMemory → SessionMemory
bound_memory k s = record s {
  turns =
      bound_conversation (close_dangling_tool_calls k "interrupted — no result recorded" s.turns);
}

-- Pause
abbrev pub pause_session : String → SessionMemory → SessionMemory
pause_session reason s = record s { paused = true; paused_reason = reason }

-- ClearPause
abbrev pub clear_pause : SessionMemory → SessionMemory
clear_pause s = record s { paused = false; paused_reason = "" }

-- SetGroundingOverride
abbrev pub set_grounding_override : String → SessionMemory → SessionMemory
set_grounding_override mode s = record s { grounding_override = mode }

-- The state that Persist writes.
abbrev pub saved : ℕ → SessionMemory → KeyValues
saved now s = record {
  session = some (record {
    version = 1;
    turns = s.turns;
    paused = s.paused;
    paused_reason = s.paused_reason;
    grounding_override = s.grounding_override;
    updated_ms = now;
  });
  legacy = some s.turns;
}

abbrev pub is_there : Option KeyValues → Bool
is_there none = false
is_there (some kv) = true

-- Persist, where both writes succeed
unfoldable pub persist : ℕ → Bool → SessionMemory → SessionMemory
persist now force s =
    if is_there s.kv && (force || leb s.min_write_interval (now - s.last_write))
    then record s { kv = some (saved now s); last_write = now }
    else s

-- Restore from the wrapper, and whether it had turns.
abbrev pub restore_turns :
    SessionMemoryState → List ConversationTurn → SessionMemory → Bool × SessionMemory
restore_turns st [] s = (false, s)
restore_turns st (t ∷ ts) s = (
  true,
  record (replace_turns (t ∷ ts) s) { paused = st.paused; paused_reason = st.paused_reason },
)

-- Restore from the legacy key.
abbrev pub restore_legacy :
    Option (List ConversationTurn) → Bool × SessionMemory → Bool × SessionMemory
restore_legacy none (restored, s) = (restored, s)
restore_legacy (some []) (restored, s) = (restored, s)
restore_legacy (some (t ∷ ts)) (restored, s) = (true, replace_turns (t ∷ ts) s)

abbrev pub restore_rest :
    Option (List ConversationTurn) → Bool → Bool × SessionMemory → Bool × SessionMemory
restore_rest legacy overridden (true, s) = (true, s)
restore_rest legacy overridden (false, s) = restore_legacy legacy (overridden, s)

abbrev pub restore_session :
    KeyValues → Option SessionMemoryState → SessionMemory → Bool × SessionMemory
restore_session kv none s = restore_legacy kv.legacy (false, s)
restore_session kv (some st) s =
    restore_rest kv.legacy (not (st.grounding_override == ""))
      (restore_turns st st.turns (record s { grounding_override = st.grounding_override }))

abbrev pub restore_kv : Option KeyValues → SessionMemory → Bool × SessionMemory
restore_kv none s = (false, s)
restore_kv (some kv) s = restore_session kv kv.session s

-- Restore
unfoldable pub restore_memory : SessionMemory → Bool × SessionMemory
restore_memory s = restore_kv s.kv s
