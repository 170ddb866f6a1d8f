-- ===== src/Agentic/Orchestrator/Rounds.antt =====
-- runLoop (agentic/orchestrator.go): its checks, the call of the provider, the round of tool calls,
-- the compaction of the conversation and what is done at the end. Token counts and iterations are
-- natural numbers, which a run does not overflow.
pub mod Transcript
pub mod Outcomes
pub mod Pairing
pub mod Producers
pub mod Handing
pub mod Effects
pub mod Conduct
pub mod Ending
use rysh_cli_shared.Prelude.{
  ℕ, zero, suc, ◌+◌, ◌-◌, ◌*◌, ◌/◌, String, len, Bool, true, false, ◌&&◌, ◌||◌, not, Option, none,
  some, List, [], ◌∷◌, ◌++◌, if◌then◌else◌, ◌==◌, ◌<>◌, Result, ok, err, length, leb, ltb, eqb,
  drop_first, keep_first, lookup, show_int, join_texts, trim_space, contains, strip_prefix,
}
use rysh_cli_shared.Tools.{ToolOutput}
use rysh_cli_shared.Provider.Turns.{ConversationTurn, ToolCallRequest, SubAgentCalls, no_calls}
use rysh_cli_shared.Provider.Pairing.{has_calls}
use rysh_cli_shared.Agentic.Grounding.{grounding_enforced, grounding_max_iterations}
use rysh_cli_shared.Agentic.SessionMemory.{simple_turn, Context, close_dangling_tool_calls}
use rysh_cli_shared.Agentic.TurnModel.{
  TurnAttribution, stamp_attribution, insert_model_switch_notes,
}
use rysh_cli_shared.Agentic.Orchestrator.State.{
  Env, Desk, Orchestrator, AgenticResponse, ProviderError, StopReason, end_turn, tool_use,
  max_tokens, stop_sequence, other_stop, Usage, Phase, paused, phase_done, phase_error, executing,
  compacting, grounding_phase, tick, act, enter, requested,
}
use rysh_cli_shared.Agentic.Orchestrator.Compaction.{compaction_due, compact_conversation}
use rysh_cli_shared.Agentic.Orchestrator.Calls.Dispatch.{sub_agent_tool_name, execute_tool}

-- surfaceToolResultContent
unfoldable pub surface_tool_result_content : ToolOutput → String
surface_tool_result_content out =
    let prefix =
      if out.error_kind == "" then "[error] " else "[error kind=" <> (out.error_kind <> "] ") in
    if out.error == ""
    then out.content
    else if out.content == ""
    then prefix <> out.error
    else prefix <> (out.error <> ("\n" <> out.content))

abbrev pub or_text : String → Option String → String
or_text s none = s
or_text s (some t) = if t == "" then s else t

abbrev pub or_calls : Option SubAgentCalls → SubAgentCalls
or_calls none = no_calls
or_calls (some cs) = cs

abbrev pub decoded_calls : Env → Option String → SubAgentCalls
decoded_calls e none = no_calls
decoded_calls e (some raw) = if raw == "" then no_calls else or_calls (e.sub_agent_calls raw)

abbrev pub sub_agent_summary : Env → ToolOutput → String → Option String → String
sub_agent_summary e out summary none = summary
sub_agent_summary e out summary (some title) =
    if title == "" then summary else title <> (" — " <> e.result_summary out)

-- buildToolResultTurn, without the screenshot
unfoldable pub build_tool_result_turn : Env → ℕ → ToolCallRequest → ToolOutput → ConversationTurn
build_tool_result_turn e time c out =
    let summary = e.step_title c.name c.input <> (" — " <> e.result_summary out) in
    let t =
      simple_turn "tool" (surface_tool_result_content out) "tool" c.name summary (e.now time) in
    let r = record t { tool_call_id = c.id; is_error = not (out.error == "") } in
    if c.name == sub_agent_tool_name
    then record r {
      category = "subagent";
      origin = or_text c.name (lookup "sub_agent_id" out.metadata);
      summary = sub_agent_summary e out summary (lookup "sub_agent_title" out.metadata);
      sub_agent_calls = decoded_calls e (lookup "sub_agent_tool_calls" out.metadata);
    }
    else r

-- The loop over the calls of a response: the results, and whether it was cancelled after one of them.
unfoldable pub run_calls : Env → List ToolCallRequest → Desk → List ConversationTurn × (Bool × Desk)
run_calls e [] d = ([], (false, d))
run_calls e (c ∷ cs) d =
    let (out, d1) = execute_tool e c d in
    let turn = build_tool_result_turn e d1.clock c out in
    let rest = run_calls e cs (tick d1) in
    if e.is_cancelled d1.clock then (turn ∷ [], (true, tick d1)) else (turn ∷ rest.0, rest.1)

-- markPaused
unfoldable pub mark_paused : String → Orchestrator → Orchestrator
mark_paused reason o =
    if o.interrupted
    then o
    else record o { desk = enter paused o.desk; interrupted = true; stopped_reason = reason }

-- maybeCompact, at the current size of the conversation
abbrev pub compacted : Env → Orchestrator → Orchestrator
compacted e o =
    if compaction_due e.context_token_limit o.last_input_tokens (length o.conversation)
    then compact_conversation e o
    else o

-- The budget of the grounding gate.
unfoldable pub spend_grounding : Orchestrator → Orchestrator
spend_grounding o =
    let n = suc o.grounding_iters in
    let d = o.desk in
    if d.grounding
    then record o {
      grounding_iters = n;
      desk = record d { grounding = not (ltb grounding_max_iterations n) };
    }
    else o

-- The iteration up to the call of the provider.
unfoldable pub prepare : Env → Orchestrator → Orchestrator
prepare e o =
    let o1 = compacted e (spend_grounding (record o { iteration = suc o.iteration })) in
    let d = o1.desk in
    record o1 { desk = enter (if d.grounding then grounding_phase else executing) d }

-- Usage.TotalInputTokens and Usage.NewTokens
abbrev pub total_input_tokens : Usage → ℕ
total_input_tokens u = u.input_tokens + u.cache_read_input_tokens + u.cache_creation_input_tokens

abbrev pub new_tokens : Usage → ℕ
new_tokens u = u.input_tokens + u.cache_creation_input_tokens + u.output_tokens

-- The record of the usage of a response.
unfoldable pub count_usage : Usage → Orchestrator → Orchestrator
count_usage u o = record o {
  last_input_tokens =
      if ltb 0 (total_input_tokens u) then total_input_tokens u else o.last_input_tokens;
  tokens_used = o.tokens_used + new_tokens u;
  cache_read_tokens = o.cache_read_tokens + u.cache_read_input_tokens;
  cache_write_tokens = o.cache_write_tokens + u.cache_creation_input_tokens;
  fresh_input_tokens = o.fresh_input_tokens + u.input_tokens;
}

-- The text blocks of a response, together.
abbrev pub assistant_text : AgenticResponse → String
assistant_text r = join_texts "" r.text_blocks

-- activeAttribution
abbrev pub active_attribution : Env → TurnAttribution
active_attribution e = record { provider_name = e.provider_name; model = e.model }

-- An assistant turn, with stampAttribution.
abbrev pub assistant_turn : Env → ℕ → AgenticResponse → ConversationTurn
assistant_turn e time r =
    let t = simple_turn "assistant" (assistant_text r) "ai" "" "" (e.now time) in
    stamp_attribution (active_attribution e)
      (record t { tool_calls = r.tool_calls; thinking = r.thinking_blocks })

-- The text of a response without calls is appended, unless there is none.
unfoldable pub append_text : Env → AgenticResponse → Orchestrator → Orchestrator
append_text e r o =
    let d = o.desk in
    if assistant_text r == ""
    then o
    else record o { conversation = o.conversation ++ assistant_turn e d.clock r ∷ [] }

-- A response without calls, and whether the run has ended.
unfoldable pub take_text : Env → AgenticResponse → StopReason → Orchestrator → Bool × Orchestrator
take_text e r end_turn o = (true, append_text e r (record o { desk = enter phase_done o.desk }))
take_text e r max_tokens o = (false, append_text e r o)
take_text e r tool_use o = (false, o)
take_text e r stop_sequence o = (false, o)
take_text e r (other_stop s) o = (false, o)

-- The end of a round of calls.
abbrev pub close_round : Bool → Orchestrator → Bool × Orchestrator
close_round true o = (true, mark_paused "cancelled" o)
close_round false o =
    let d = o.desk in
    if d.pending_question == "" then (false, o) else (true, mark_paused "awaiting_user_info" o)

-- A response with calls.
unfoldable pub take_calls : Env → AgenticResponse → Orchestrator → Bool × Orchestrator
take_calls e r o =
    let d = o.desk in
    let turn = assistant_turn e d.clock r in
    let (results, (cancelled, d1)) = run_calls e r.tool_calls d in
    close_round cancelled
      (record o { desk = d1; conversation = o.conversation ++ (turn ∷ results) })

-- An error of the provider, when the run is not cancelled.
unfoldable pub take_error : Env → ProviderError → Orchestrator → Bool × Orchestrator
take_error e x o =
    let o1 = record o { errors = o.errors ++ x.message ∷ [] } in
    if x.is_invalid_request || x.is_auth
    then (true, record o1 { desk = enter phase_error o1.desk })
    else if ltb o1.iteration e.max_iterations
    then (false, o1)
    else (true, record o1 { desk = enter phase_error o1.desk })

-- What the provider answers.
unfoldable pub take_reply :
    Env → Result ProviderError AgenticResponse → Orchestrator → Bool × Orchestrator
take_reply e (err x) o =
    let d = o.desk in
    let o1 = record o { desk = tick d } in
    if e.is_cancelled d.clock then (true, mark_paused "cancelled" o1) else take_error e x o1
take_reply e (ok r) o =
    let o1 = count_usage r.usage o in
    if has_calls r.tool_calls then take_calls e r o1 else take_text e r r.stop_reason o1

-- requestConversation, without the screenshot
unfoldable pub request_conversation : Env → ℕ → List ConversationTurn → List ConversationTurn
request_conversation e time ts =
    insert_model_switch_notes (e.note_time time) ts (active_attribution e)

-- The call of the provider.
unfoldable pub call_provider : Env → Orchestrator → Bool × Orchestrator
call_provider e o =
    let d = o.desk in
    take_reply e (e.reply d.clock)
      (record o { desk = act (requested (request_conversation e d.clock o.conversation)) d })

-- One round of the loop, and whether the run has ended.
unfoldable pub round : Env → Orchestrator → Bool × Orchestrator
round e o =
    let d = o.desk in
    let o1 = record o { desk = tick d } in
    if e.is_cancelled d.clock
    then (true, mark_paused "cancelled" o1)
    else if ltb 0 e.max_duration && leb e.max_duration (e.elapsed d.clock)
    then (true, mark_paused "max_duration" o1)
    else if ltb 0 e.max_context_tokens && leb e.max_context_tokens o1.tokens_used
    then (true, mark_paused "max_tokens" o1)
    else if leb e.max_iterations o1.iteration
    then (true, mark_paused "max_iterations" o1)
    else call_provider e (prepare e o1)

abbrev pub closing : Env → Orchestrator → Context
closing e o = let d = o.desk in record { step_title = e.step_title; now = e.now d.clock }

-- The deferred part that changes the state.
unfoldable pub close_run : Env → Orchestrator → Orchestrator
close_run e o =
    let closed =
      close_dangling_tool_calls (closing e o)
        "interrupted by user — the call did not run; re-issue it if still needed" o.conversation in
    if o.interrupted then record o { conversation = closed } else o

-- The loop, for at most so many rounds.
unfoldable pub run_rounds : Env → ℕ → Orchestrator → Option Orchestrator
run_rounds e zero o = none
run_rounds e (suc fuel) o =
    let rest = run_rounds e fuel (round e o).1 in
    if (round e o).0 then some (close_run e (round e o).1) else rest

-- The gate is closed at the start of a run in the enforced mode.
abbrev pub start : Env → Orchestrator → Orchestrator
start e o =
    let d = o.desk in
    if e.grounding_mode == grounding_enforced
    then record o { desk = record d { grounding = true } }
    else o

-- runLoop, with as many rounds as it can take
unfoldable pub run_loop : Env → Orchestrator → Option Orchestrator
run_loop e o = run_rounds e (suc e.max_iterations) (start e o)

abbrev pub is_done : Phase → Bool
is_done phase_done = true
is_done _ = false

abbrev pub has_none : List String → Bool
has_none [] = true
has_none (x ∷ xs) = false

-- Success, in MsgOrchestratorDone
unfoldable pub succeeded : Orchestrator → Bool
succeeded o = let d = o.desk in is_done d.phase && has_none o.errors
