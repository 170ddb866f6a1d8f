-- ===== src/Provider/Turns.antt =====
-- ConversationTurn and its parts (provider/agentic_provider.go, provider/contentblock.go,
-- provider/thinking.go). Raw JSON is its text.
use rysh_cli_shared.Prelude.{ℕ, String, Bool, Option, List}

pub record ImageSource : Type 0 where
  pub kind : String
  pub media_type : String
  pub content : String
  pub url : String
  pub file_id : String

pub record ContentBlock : Type 0 where
  pub kind : String
  pub text : String
  pub source : Option ImageSource

pub record ThinkingBlock : Type 0 where
  pub text : String
  pub signature : String

pub record ToolCallRequest : Type 0 where
  pub id : String
  pub name : String
  pub input : String

mutual
  pub data SubAgentCall : Type 0 where
    sub_agent_call :
        (id name title : String) (is_error ended interrupted : Bool) (orchestrator_id : String)
        → SubAgentCalls
        → SubAgentCall

  pub data SubAgentCalls : Type 0 where
    no_calls : SubAgentCalls
    more_calls : SubAgentCall → SubAgentCalls → SubAgentCalls

pub record ConversationTurn : Type 0 where
  pub role : String
  pub content : String
  pub content_blocks : List ContentBlock
  pub tool_calls : List ToolCallRequest
  pub tool_call_id : String
  pub is_error : Bool
  pub category : String
  pub origin : String
  pub summary : String
  pub timestamp_ms : ℕ
  pub thinking : List ThinkingBlock
  pub provider_name : String
  pub model : String
  pub sub_agent_calls : SubAgentCalls
