-- ===== src/Agentic/OrchestratorTests.antt =====
-- The theorems on agentic/orchestrator.go and agentic/session_memory.go at small runs.
use rysh_cli_shared.Prelude.{
  ℕ, zero, suc, true, false, none, some, List, [], ◌∷◌, ◌≡◌, refl, Result, ok, err, arith, ◌<>◌,
}
use rysh_cli_shared.Tools.{plain_output}
use rysh_cli_shared.Tools.Registry.{root_registry}
use rysh_cli_shared.Provider.Turns.{ConversationTurn, ToolCallRequest}
use rysh_cli_shared.Provider.Pairing.{outside, calls_tools, is_tool, wanted}
use rysh_cli_shared.Provider.Pairing.Paired.{Paired, finished, plain}
use rysh_cli_shared.Agentic.ApprovalMemory.{new_approval_memory}
use rysh_cli_shared.Agentic.Policy.{policy_gate, eval_approval_policy}
use rysh_cli_shared.Agentic.Grounding.{empty_report, grounding_allowed, grounding_allowed_call}
use rysh_cli_shared.Agentic.SessionMemory.{simple_turn, Context, close_dangling_tool_calls}
use rysh_cli_shared.Agentic.SessionMemory.CutOff.{close_dangling_tool_calls-cut_off}
use rysh_cli_shared.Provider.Pairing.{synthesized, missing, heal, heal_tool_pairing}
use rysh_cli_shared.Agentic.TurnModel.{
  TurnAttribution, stamp_attribution, model_switch_note, is_attributed, insert_model_switch_notes,
}
use rysh_cli_shared.Agentic.TurnModel.Notes.{
  producer, hands_over, noted, insert_model_switch_notes-noted,
}
use rysh_cli_shared.Agentic.TurnModel.Handover.{insert_model_switch_notes-separates}
use rysh_cli_shared.Agentic.SessionMemory.Healing.{named_calls, all_named, IsReplayable}
use rysh_cli_shared.Agentic.Orchestrator.State.{
  Env, Desk, Orchestrator, Tool, AgenticResponse, ProviderError, end_turn, responded, yes_once,
  child_failed, executing,
}
use rysh_cli_shared.Agentic.Orchestrator.Decisions.{decide_approval}
use rysh_cli_shared.Agentic.Orchestrator.Decisions.Approval.{decide_approval_lem}
use rysh_cli_shared.Agentic.Orchestrator.Calls.Blocked.{
  TurnedAway, handled, execute_tool-repeated, execute_tool-locked,
}
use rysh_cli_shared.Agentic.Orchestrator.Calls.Dispatch.{execute_tool}
use rysh_cli_shared.Agentic.Orchestrator.Rounds.{run_loop}
use rysh_cli_shared.Agentic.Orchestrator.Rounds.Outcomes.{NamedReplies}
use rysh_cli_shared.Agentic.Orchestrator.Rounds.Ending.{run_loop-ends}
use rysh_cli_shared.Agentic.Orchestrator.Rounds.Pairing.{run_loop-Paired}

abbrev bash : Tool
bash = record {
  requires_approval = λ input. true;
  has_preview = false;
  preview = λ time input. err "no preview";
  execute = λ time input. ok (plain_output "a.txt" "");
}

abbrev listing : ToolCallRequest
listing = record { id = "t1"; name = "bash"; input = "{\"command\":\"ls\"}" }

abbrev reply_with : List ToolCallRequest → AgenticResponse
reply_with calls = record {
  text_blocks = "ok" ∷ [];
  tool_calls = calls;
  thinking_blocks = [];
  stop_reason = end_turn;
  usage = record {
    input_tokens = 10;
    output_tokens = 5;
    cache_read_input_tokens = 0;
    cache_creation_input_tokens = 0;
  };
}

-- The first reply has a call; the others end the run.
abbrev replies : ℕ → Result ProviderError AgenticResponse
replies zero = ok (reply_with [])
replies (suc zero) = ok (reply_with (listing ∷ []))
replies (suc (suc n)) = ok (reply_with [])

-- The policy gates each call; the user says yes.
abbrev env : Env
env = record {
  loop_threshold = 3;
  auto_approve_all = false;
  permissions = none;
  policy = some (λ name input. (policy_gate, "bash.deny[1]"));
  tools = root_registry (("bash", bash) ∷ []);
  nat = none;
  grounding_mode = "off";
  max_iterations = 5;
  max_duration = 0;
  max_context_tokens = 0;
  context_token_limit = 1000;
  sub_agent_depth = 0;
  provider_name = "claude";
  model = "m";
  params = record { text_field = λ field params. some "ls" };
  decoder = λ input. ok empty_report;
  sub_agent_calls = λ s. none;
  matching = record {
    probe = λ params. none;
    path_match = λ pattern value. none;
    regexp_match = λ pattern value. none;
  };
  sha256_hex = λ s. "hash of " <> s;
  slice = λ s i j. s;
  step_title = λ name input. name;
  result_summary = λ out. "done";
  is_cancelled = λ time. false;
  elapsed = λ time. time;
  now = λ time. time;
  note_time = λ time place. time;
  files = λ time. record {
    absolute = λ p. some p;
    stat = λ p. none;
    read = λ p. none;
    sha256_hex = λ s. s;
  };
  answer = λ time. responded (record { decision = yes_once; reason = ""; choice_idx = 0 });
  child = λ time c. child_failed "internal" "none";
  complete = λ time. none;
  reply = replies;
}

abbrev desk : Desk
desk = record {
  call_history = [];
  grounding = false;
  auto_approved = some new_approval_memory;
  read_tracker = none;
  pending_question = "";
  files_changed = [];
  phase = executing;
  clock = 0;
  effects = [];
}

abbrev prompt : ConversationTurn
prompt = simple_turn "user" "list the files" "user" "" "" 1

abbrev initial : Orchestrator
initial = record {
  desk = desk;
  conversation = prompt ∷ [];
  iteration = 0;
  grounding_iters = 0;
  errors = [];
  interrupted = false;
  stopped_reason = "";
  last_input_tokens = 0;
  tokens_used = 0;
  cache_read_tokens = 0;
  cache_write_tokens = 0;
  fresh_input_tokens = 0;
}

replies_named : NamedReplies env
unfolding all_named
replies_named zero = refl
replies_named (suc zero) = refl
replies_named (suc (suc n)) = refl

initial-IsReplayable : IsReplayable initial.conversation
unfolding named_calls all_named calls_tools is_tool
initial-IsReplayable = record { rule = plain refl refl finished; named = refl }

run_loop-ends_example : (o' : Orchestrator) × (run_loop env initial ≡ some o')
run_loop-ends_example = run_loop-ends env initial

run_loop-Paired_example :
    (o' : Orchestrator) × (run_loop env initial ≡ some o') × Paired false outside o'.conversation
run_loop-Paired_example = run_loop-Paired env initial replies_named initial-IsReplayable

decide_approval_lem_example : (decide_approval env desk.auto_approved "bash" "{}" false).0 ≡ true
unfolding eval_approval_policy
decide_approval_lem_example = decide_approval_lem env desk.auto_approved "bash" "{}" false

abbrev other_listing : ToolCallRequest
other_listing = record { id = "t3"; name = "bash"; input = "[]" }

-- The same call twice, with another between them.
abbrev two_listings : List ToolCallRequest
two_listings = listing ∷ other_listing ∷ listing ∷ []

execute_tool-repeated_example :
    ((execute_tool env listing (handled env two_listings desk)).0.error_kind ≡ "loop_blocked")
    × ((execute_tool env listing (handled env two_listings desk)).1.effects
        ≡ (handled env two_listings desk).effects)
execute_tool-repeated_example =
    execute_tool-repeated env listing two_listings desk (omega arith) (omega arith)

abbrev edit : ToolCallRequest
edit = record { id = "t2"; name = "edit"; input = "{}" }

abbrev gated_desk : Desk
gated_desk = record desk { grounding = true }

execute_tool-locked_example : TurnedAway gated_desk (execute_tool env edit gated_desk)
unfolding grounding_allowed_call grounding_allowed
execute_tool-locked_example = execute_tool-locked env edit gated_desk refl refl refl

abbrev calling_turn : ConversationTurn
calling_turn = record (simple_turn "assistant" "" "ai" "" "" 2) {
  tool_calls = listing ∷ record { id = "t2"; name = "edit"; input = "{}" } ∷ [];
}

abbrev result_turn : ConversationTurn
result_turn = record (simple_turn "tool" "a.txt" "tool" "bash" "" 3) { tool_call_id = "t1" }

abbrev context : Context
context = record { step_title = λ name input. name; now = 4 }

-- A model that has called a tool, and the model that comes after it.
abbrev first_model : TurnAttribution
first_model = record { provider_name = "openai"; model = "gpt" }

abbrev second_model : TurnAttribution
second_model = record { provider_name = "claude"; model = "m" }

abbrev stamped_call : ConversationTurn
stamped_call = stamp_attribution first_model calling_turn

insert_model_switch_notes-noted_example :
    insert_model_switch_notes (λ place. place) (prompt ∷ stamped_call ∷ []) second_model
    ≡ prompt ∷ stamped_call ∷ model_switch_note 1 first_model second_model ∷ []
unfolding noted hands_over is_attributed producer
insert_model_switch_notes-noted_example =
    insert_model_switch_notes-noted (λ place. place) (prompt ∷ stamped_call ∷ []) second_model

abbrev stamped_text : ConversationTurn
stamped_text = stamp_attribution first_model (simple_turn "assistant" "hello" "ai" "" "" 2)

greeted-Paired : Paired false outside (prompt ∷ stamped_text ∷ [])
unfolding calls_tools is_tool
greeted-Paired = plain refl refl (plain refl refl finished)

insert_model_switch_notes-separates_example :
    (¬ Paired false outside
      (insert_model_switch_notes (λ place. place) (stamped_call ∷ result_turn ∷ []) second_model))
    × (heal_tool_pairing (
          insert_model_switch_notes (λ place. place) (stamped_call ∷ result_turn ∷ []) second_model)
        ≡ stamped_call
          ∷ synthesized stamped_call listing
          ∷ synthesized stamped_call (record { id = "t2"; name = "edit"; input = "{}" })
          ∷ model_switch_note 0 first_model second_model
          ∷ [])
unfolding calls_tools is_tool hands_over is_attributed producer missing noted heal_tool_pairing heal
insert_model_switch_notes-separates_example =
    insert_model_switch_notes-separates (λ place. place) second_model stamped_call result_turn []
      refl refl refl

close_dangling_tool_calls-cut_off_example :
    Paired false outside
      (close_dangling_tool_calls context "stopped" (prompt ∷ calling_turn ∷ result_turn ∷ []))
unfolding calls_tools is_tool wanted
close_dangling_tool_calls-cut_off_example =
    close_dangling_tool_calls-cut_off context "stopped" (prompt ∷ []) (result_turn ∷ [])
      calling_turn initial-IsReplayable.rule refl (refl, refl, tt)
