-- ===== src/Provider/Tests.antt =====
-- The theorems on provider/toolpairing.go and provider/turns.go at small transcripts.
use rysh_cli_shared.Prelude.{
  String, Bool, true, false, ◌&&◌, map, arith, eq_iff, none, List, [], ◌∷◌, ◌≡◌, refl,
}
use rysh_cli_shared.Provider.Turns.{ConversationTurn, ToolCallRequest, no_calls}
use rysh_cli_shared.Provider.Pairing.{
  outside, calls_tools, is_tool, wanted, heal, heal_tool_pairing, missing, validate_tool_pairing,
}
use rysh_cli_shared.Provider.Pairing.Paired.{
  AllAnswered, Paired, finished, plain, calling, result, answered, distinct, distinct_calls,
  conversation,
}
use rysh_cli_shared.Provider.Pairing.Repair.{heal_tool_pairing-Paired, heal_tool_pairing_exact}
use rysh_cli_shared.Provider.Pairing.Unchanged.{validate_tool_pairing-heal_tool_pairing}
use rysh_cli_shared.Provider.NeutralTurns.{turns_from_conversation, conversation_from_turns}
use rysh_cli_shared.Provider.NeutralTurns.Emissions.{all_plain}
use rysh_cli_shared.Provider.NeutralTurns.RoundTrip.{
  AllCanonical, conversation_from_turns-turns_from_conversation,
}
use rysh_cli_shared.Provider.Pairing.Kept.{
  heal_tool_pairing-conversation, foreign_result_unreported,
}

abbrev turn : String → String → List ToolCallRequest → String → ConversationTurn
turn role content calls id = record {
  role = role;
  content = content;
  content_blocks = [];
  tool_calls = calls;
  tool_call_id = id;
  is_error = false;
  category = "";
  origin = "";
  summary = "";
  timestamp_ms = 7;
  thinking = [];
  provider_name = "";
  model = "";
  sub_agent_calls = no_calls;
}

abbrev call : String → ToolCallRequest
call id = record { id = id; name = "read"; input = "{}" }

abbrev question : ConversationTurn
question = turn "user" "why" [] ""

abbrev caller : ConversationTurn
caller = turn "assistant" "" (call "a" ∷ call "b" ∷ []) ""

abbrev reply : String → ConversationTurn
reply id = turn "tool" "done" [] id

-- Cut off after the first result, with an orphan, a duplicate and a foreign result.
abbrev broken : List ConversationTurn
broken = reply "x" ∷ question ∷ caller ∷ reply "a" ∷ reply "a" ∷ reply "z" ∷ question ∷ []

abbrev whole : List ConversationTurn
whole = question ∷ caller ∷ reply "b" ∷ reply "a" ∷ question ∷ []

broken-healed : map (λ t. t.tool_call_id) (heal_tool_pairing broken) ≡ "" ∷ "" ∷ "a" ∷ "b" ∷ "" ∷ []
unfolding heal_tool_pairing heal calls_tools is_tool wanted missing
broken-healed = refl

caller-AllAnswered : AllAnswered ("a" ∷ "b" ∷ []) caller
unfolding wanted
caller-AllAnswered id w = ground (arith, eq_iff "a" id, eq_iff "b" id)

off : (once : Bool) → (once && false) ≡ false
off true = refl
off false = refl

whole-Paired : (once : Bool) → Paired once outside whole
unfolding calls_tools is_tool wanted
whole-Paired once = plain refl refl (
    calling refl (
      result refl refl (off once)
        (result refl refl (off once) (answered caller-AllAnswered (plain refl refl finished)))))

heal_tool_pairing-Paired_example : Paired false outside (heal_tool_pairing broken)
heal_tool_pairing-Paired_example = heal_tool_pairing-Paired broken

heal_tool_pairing_exact_example : Paired true outside (heal_tool_pairing broken)
unfolding distinct_calls distinct wanted
heal_tool_pairing_exact_example = heal_tool_pairing_exact broken refl

validate_tool_pairing-heal_tool_pairing_example :
    validate_tool_pairing (heal_tool_pairing broken) ≡ []
validate_tool_pairing-heal_tool_pairing_example = validate_tool_pairing-heal_tool_pairing broken

heal_tool_pairing-conversation_example :
    conversation (heal_tool_pairing broken) ≡ conversation broken
heal_tool_pairing-conversation_example = heal_tool_pairing-conversation broken

foreign_result_unreported_example :
    (validate_tool_pairing (caller ∷ reply "z" ∷ reply "b" ∷ reply "a" ∷ [])
      ≡ validate_tool_pairing (caller ∷ reply "b" ∷ reply "a" ∷ []))
    × (heal_tool_pairing (caller ∷ reply "z" ∷ reply "b" ∷ reply "a" ∷ [])
        ≡ heal_tool_pairing (caller ∷ reply "b" ∷ reply "a" ∷ []))
    × ¬ Paired false outside (caller ∷ reply "z" ∷ reply "b" ∷ reply "a" ∷ [])
unfolding calls_tools is_tool wanted
foreign_result_unreported_example =
    foreign_result_unreported caller (reply "z") (reply "b" ∷ reply "a" ∷ []) refl refl refl

-- An assistant turn with a thought, a text and a call, and its result with an image.
abbrev thinking_turn : ConversationTurn
thinking_turn = record (turn "assistant" "let me look" (call "a" ∷ []) "") {
  thinking = record { text = "hm"; signature = "s" } ∷ [];
  provider_name = "claude";
  model = "m";
}

abbrev image_result : ConversationTurn
image_result = record (reply "a") {
  content_blocks = record { kind = "image"; text = ""; source = none } ∷ [];
}

exchange-AllCanonical : AllCanonical (thinking_turn ∷ image_result ∷ [])
unfolding all_plain
exchange-AllCanonical = (
  record { blocks = refl; apart = refl; answer = refl },
  (record { blocks = refl; apart = refl; answer = refl }, tt),
)

conversation_from_turns-turns_from_conversation_example :
    conversation_from_turns (turns_from_conversation (thinking_turn ∷ image_result ∷ []))
    ≡ record thinking_turn { provider_name = ""; model = "" } ∷ image_result ∷ []
conversation_from_turns-turns_from_conversation_example =
    conversation_from_turns-turns_from_conversation (thinking_turn ∷ image_result ∷ [])
      exchange-AllCanonical
