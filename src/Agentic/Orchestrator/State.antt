-- ===== src/Agentic/Orchestrator/State.antt =====
-- What an OrchestratorActor is given, what it keeps, and what it does outside itself
-- (agentic/orchestrator.go). Whatever the world answers is a function of a clock that counts the
-- answers taken so far.
use rysh_cli_shared.Prelude.{ℕ, suc, String, Bool, Option, List, ◌∷◌, Result}
use rysh_cli_shared.Provider.Turns.{ConversationTurn, ToolCallRequest, ThinkingBlock, SubAgentCalls}
use rysh_cli_shared.Tools.{ToolOutput}
use rysh_cli_shared.Tools.Registry.{ToolRegistry}
use rysh_cli_shared.Agentic.ApprovalMemory.{ApprovalMemory}
use rysh_cli_shared.Agentic.ReadTracker.{ReadTracker, World}
use rysh_cli_shared.Agentic.Permissions.{PermissionPolicy, Matching}
use rysh_cli_shared.Agentic.Policy.{ApprovalPolicyFunc}
use rysh_cli_shared.Agentic.PatchParse.{Params}
use rysh_cli_shared.Agentic.Grounding.{Decoder}
use rysh_cli_shared.Agentic.OutputShape.{Slice}

-- msg.ApprovalDecision
pub data ApprovalDecision : Type 0 where
  yes_once yes_always no_once no_with_explanation choice_selected : ApprovalDecision
  other_decision : String → ApprovalDecision

-- MsgApprovalResponse
pub record ApprovalResponse : Type 0 where
  pub decision : ApprovalDecision
  pub reason : String
  pub choice_idx : ℕ

-- How a wait for an approval ends.
pub data WaitEnd : Type 0 where
  subscribe_failed wait_timed_out wait_cancelled : WaitEnd
  responded : ApprovalResponse → WaitEnd

-- A ToolExecutor, which answers with an output if it returns no error; Preview only counts where the
-- tool implements Previewer.
pub record Tool : Type 0 where
  pub requires_approval : String → Bool
  pub has_preview : Bool
  pub preview : ℕ → String → Result String ToolOutput
  pub execute : ℕ → String → Result String ToolOutput

-- secretnat.SessionHandle
pub record SessionHandle : Type 0 where
  pub enabled : Bool
  pub restore_json : String → String
  pub sanitize : ℕ → String → String

pub data StopReason : Type 0 where
  end_turn tool_use max_tokens stop_sequence : StopReason
  other_stop : String → StopReason

pub record Usage : Type 0 where
  pub input_tokens : ℕ
  pub output_tokens : ℕ
  pub cache_read_input_tokens : ℕ
  pub cache_creation_input_tokens : ℕ

pub record AgenticResponse : Type 0 where
  pub text_blocks : List String
  pub tool_calls : List ToolCallRequest
  pub thinking_blocks : List ThinkingBlock
  pub stop_reason : StopReason
  pub usage : Usage

-- An error of a provider, with what IsInvalidRequestErr and IsAuthErr say of it.
pub record ProviderError : Type 0 where
  pub message : String
  pub is_invalid_request : Bool
  pub is_auth : Bool

-- What a child orchestrator reports, or why there is none.
pub data ChildEnd : Type 0 where
  child_failed : String → String → ChildEnd
  child_done : ToolOutput → List String → ChildEnd

pub data Phase : Type 0 where
  planning executing waiting_approval evaluating phase_done phase_error compacting paused
        grounding_phase :
      Phase

pub record Env : Type 0 where
  -- the settings of the run
  pub loop_threshold : ℕ
  pub auto_approve_all : Bool
  pub permissions : Option PermissionPolicy
  pub policy : Option ApprovalPolicyFunc
  pub tools : ToolRegistry Tool
  pub nat : Option SessionHandle
  pub grounding_mode : String
  pub max_iterations : ℕ
  pub max_duration : ℕ
  pub max_context_tokens : ℕ
  pub context_token_limit : ℕ
  pub sub_agent_depth : ℕ
  pub provider_name : String
  pub model : String
  -- packages that are only called
  pub params : Params
  pub decoder : Decoder
  pub sub_agent_calls : String → Option SubAgentCalls
  pub matching : Matching
  pub sha256_hex : String → String
  pub slice : Slice
  -- texts that are only displayed: stepTitle and toolResultSummary
  pub step_title : String → String → String
  pub result_summary : ToolOutput → String
  -- the world
  pub is_cancelled : ℕ → Bool
  pub elapsed : ℕ → ℕ
  pub now : ℕ → ℕ
  pub note_time : ℕ → ℕ → ℕ
  pub files : ℕ → World
  pub answer : ℕ → WaitEnd
  pub child : ℕ → ToolCallRequest → ChildEnd
  pub complete : ℕ → Option String
  pub reply : ℕ → Result ProviderError AgenticResponse

-- What the run does outside itself.
pub data Effect : Type 0 where
  requested : List ConversationTurn → Effect
  summarized : List ConversationTurn → Effect
  asked : String → String → String → Effect
  answered : ApprovalDecision → Effect
  previewed : String → String → Effect
  ran : String → String → Effect

pub record LoopEntry : Type 0 where
  pub tool_name : String
  pub params_hash : String

-- The part of the state that a tool call reads and writes, with the effects, the last one first.
pub record Desk : Type 0 where
  pub call_history : List LoopEntry
  pub grounding : Bool
  pub auto_approved : Option ApprovalMemory
  pub read_tracker : Option ReadTracker
  pub pending_question : String
  pub files_changed : List String
  pub phase : Phase
  pub clock : ℕ
  pub effects : List Effect

pub record Orchestrator : Type 0 where
  pub desk : Desk
  pub conversation : List ConversationTurn
  pub iteration : ℕ
  pub grounding_iters : ℕ
  pub errors : List String
  pub interrupted : Bool
  pub stopped_reason : String
  pub last_input_tokens : ℕ
  pub tokens_used : ℕ
  pub cache_read_tokens : ℕ
  pub cache_write_tokens : ℕ
  pub fresh_input_tokens : ℕ

abbrev pub tick : Desk → Desk
tick d = record d { clock = suc d.clock }

-- An effect, and the answer of the world to it.
abbrev pub act : Effect → Desk → Desk
act x d = record d { clock = suc d.clock; effects = x ∷ d.effects }

abbrev pub enter : Phase → Desk → Desk
enter p d = record d { phase = p }
