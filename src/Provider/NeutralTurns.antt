-- ===== src/Provider/NeutralTurns.antt =====
-- The neutral turns and their conversion from and to ConversationTurn (provider/turns.go). A pointer
-- to a payload is an Option; a nil slice is the empty list.
pub mod Emissions
pub mod RoundTrip
use rysh_cli_shared.Prelude.{
  ℕ, String, Bool, true, false, ◌&&◌, not, Option, none, some, List, [], ◌∷◌, ◌++◌, ◌==◌,
  if◌then◌else◌, map,
}
use rysh_cli_shared.Provider.Turns.{
  ConversationTurn, ContentBlock, ImageSource, ThinkingBlock, ToolCallRequest, no_calls,
}

pub record ToolCall : Type 0 where
  pub id : String
  pub name : String
  pub params_json : String

pub record ToolResult : Type 0 where
  pub call_id : String
  pub content : String
  pub is_error : Bool

-- A Block, by its kind; an image may have no source.
pub data Block : Type 0 where
  text_block : String → Block
  thinking_block : Option ThinkingBlock → Block
  tool_call_block : Option ToolCall → Block
  tool_result_block : Option ToolResult → Block
  image_block : Option ImageSource → Block

pub record Turn : Type 0 where
  pub role : String
  pub blocks : List Block
  pub category : String
  pub origin : String
  pub summary : String
  pub timestamp_ms : ℕ

-- blockFromContentBlock
abbrev pub block_from_content_block : ContentBlock → Block
block_from_content_block cb =
    if cb.kind == "image" then image_block cb.source else text_block cb.text

abbrev pub thinking_of : ThinkingBlock → Block
thinking_of b = thinking_block (some b)

abbrev pub call_of : ToolCallRequest → Block
call_of c = tool_call_block (some (record { id = c.id; name = c.name; params_json = c.input }))

-- The block of a turn's Content.
unfoldable pub content_blocks_of : ConversationTurn → List Block
content_blocks_of t =
    if t.role == "tool"
    then tool_result_block
        (some (record { call_id = t.tool_call_id; content = t.content; is_error = t.is_error }))
      ∷ []
    else if t.content == ""
    then []
    else text_block t.content ∷ []

-- TurnFromConversation
unfoldable pub turn_from_conversation : ConversationTurn → Turn
turn_from_conversation t = record {
  role = t.role;
  blocks =
      map thinking_of t.thinking
      ++ (content_blocks_of t
          ++ (map call_of t.tool_calls ++ map block_from_content_block t.content_blocks));
  category = t.category;
  origin = t.origin;
  summary = t.summary;
  timestamp_ms = t.timestamp_ms;
}

-- TurnsFromConversation
unfoldable pub turns_from_conversation : List ConversationTurn → List Turn
turns_from_conversation ts = map turn_from_conversation ts

-- A turn with the role and the bookkeeping of a neutral turn.
abbrev pub blank_turn : Turn → String → ConversationTurn
blank_turn t role = record {
  role = role;
  content = "";
  content_blocks = [];
  tool_calls = [];
  tool_call_id = "";
  is_error = false;
  category = t.category;
  origin = t.origin;
  summary = t.summary;
  timestamp_ms = t.timestamp_ms;
  thinking = [];
  provider_name = "";
  model = "";
  sub_agent_calls = no_calls;
}

-- The loop's variables: the turns emitted before the carrier, the carrier, firstHasResult and
-- promotable. The carrier is the first turn if none was emitted before it.
pub record Emitting : Type 0 where
  pub emitted : List ConversationTurn
  pub carrier : ConversationTurn
  pub first_has_result : Bool
  pub promotable : Bool

abbrev pub is_first : List ConversationTurn → Bool
is_first [] = true
is_first (t ∷ ts) = false

-- A write to the first turn.
abbrev pub on_first :
    (ConversationTurn → ConversationTurn)
    → List ConversationTurn
    → ConversationTurn
    → List ConversationTurn × ConversationTurn
on_first f [] c = ([], f c)
on_first f (t ∷ ts) c = (f t ∷ ts, c)

abbrev pub add_thinking : Option ThinkingBlock → ConversationTurn → ConversationTurn
add_thinking none t = t
add_thinking (some b) t = record t { thinking = t.thinking ++ b ∷ [] }

abbrev pub add_call : Option ToolCall → ConversationTurn → ConversationTurn
add_call none t = t
add_call (some c) t = record t {
  tool_calls = t.tool_calls ++ record { id = c.id; name = c.name; input = c.params_json } ∷ [];
}

abbrev pub add_block : ContentBlock → ConversationTurn → ConversationTurn
add_block cb t = record t { content_blocks = t.content_blocks ++ cb ∷ [] }

abbrev pub or_empty : Option ToolResult → ToolResult
or_empty none = record { call_id = ""; content = ""; is_error = false }
or_empty (some r) = r

abbrev pub with_result : ToolResult → ConversationTurn → ConversationTurn
with_result r t = record t { tool_call_id = r.call_id; content = r.content; is_error = r.is_error }

-- The loop's body.
unfoldable pub emit : Turn → Block → Emitting → Emitting
emit t (thinking_block b) x = record x { carrier = add_thinking b x.carrier }
emit t (tool_call_block c) x = record x { promotable = false; carrier = add_call c x.carrier }
emit t (tool_result_block r) x =
    if t.role == "tool" && not x.first_has_result && is_first x.emitted
    then record x {
      promotable = false;
      carrier = with_result (or_empty r) x.carrier;
      first_has_result = true;
    }
    else record x {
      promotable = false;
      emitted = x.emitted ++ x.carrier ∷ [];
      carrier = with_result (or_empty r) (blank_turn t "tool");
    }
emit t (image_block s) x = record x {
  promotable = false;
  carrier = add_block (record { kind = "image"; text = ""; source = s }) x.carrier;
}
emit t (text_block s) x =
    let p = on_first (λ first. record first { content = s }) x.emitted x.carrier in
    if not (t.role == "tool") && x.promotable
    then record x { promotable = false; emitted = p.0; carrier = p.1 }
    else record x {
      promotable = false;
      carrier = add_block (record { kind = "text"; text = s; source = none }) x.carrier;
    }

-- The loop over the blocks.
unfoldable pub emit_all : Turn → List Block → Emitting → Emitting
emit_all t [] x = x
emit_all t (b ∷ bs) x = emit_all t bs (emit t b x)

-- conversationTurnsFromTurn
unfoldable pub conversation_turns_from_turn : Turn → List ConversationTurn
conversation_turns_from_turn t =
    let x = emit_all t t.blocks (record {
      emitted = [];
      carrier = blank_turn t t.role;
      first_has_result = false;
      promotable = true;
    }) in
    x.emitted ++ x.carrier ∷ []

-- ConversationFromTurns
unfoldable pub conversation_from_turns : List Turn → List ConversationTurn
conversation_from_turns [] = []
conversation_from_turns (t ∷ ts) = conversation_turns_from_turn t ++ conversation_from_turns ts
