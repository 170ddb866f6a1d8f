-- ===== src/Agentic/Orchestrator/Rounds/Handing.antt =====
-- Who has written the turns of a run (agentic/orchestrator.go), for the notes of
-- insertModelSwitchNotes (agentic/turn_model.go).
use rysh_cli_shared.Prelude.{
  ℕ, String, Bool, true, false, ◌&&◌, ◌||◌, List, [], ◌∷◌, ◌++◌, ◌≡◌, refl, ◌==◌, Result, ok, err,
  eq_refl, arith, if-holds, ltb, leb,
}
use rysh_cli_shared.Tools.{ToolOutput}
use rysh_cli_shared.Provider.Turns.{ConversationTurn, ToolCallRequest}
use rysh_cli_shared.Provider.Pairing.{has_calls}
use rysh_cli_shared.Agentic.TurnModel.{TurnAttribution, is_attributed}
use rysh_cli_shared.Agentic.Orchestrator.State.{
  Env, Desk, Orchestrator, AgenticResponse, ProviderError, StopReason, end_turn, tool_use,
  max_tokens, stop_sequence, other_stop, enter, tick, phase_done,
}
use rysh_cli_shared.Agentic.Orchestrator.Calls.Dispatch.{sub_agent_tool_name, execute_tool}
use rysh_cli_shared.Agentic.Orchestrator.Rounds.{
  active_attribution, build_tool_result_turn, run_calls, assistant_turn, assistant_text,
  mark_paused, append_text, take_text, close_round, take_calls, take_error, take_reply,
  call_provider, round, count_usage,
}
use rysh_cli_shared.Agentic.Orchestrator.Rounds.Outcomes.{mark_paused-conversation}
use rysh_cli_shared.Agentic.Orchestrator.Rounds.Producers.{
  IsSettled, own, settled-append, prepare-IsSettled,
}

-- A step leaves the transcript settled.
data Left (e : Env) : Bool × Orchestrator → Type 0 where
  left : {p : Bool × Orchestrator} → IsSettled e p.1.conversation → Left e p

built-unattributed :
    (e : Env) (time : ℕ) (c : ToolCallRequest) (out : ToolOutput)
    → is_attributed (build_tool_result_turn e time c out) ≡ false
unfolding build_tool_result_turn is_attributed
built-unattributed e time c out =
    if-holds {A = ConversationTurn} (λ t. is_attributed t ≡ false) (c.name == sub_agent_tool_name) _
      _ (λ s. refl) (λ s. refl)

own-none : (e : Env) → own (active_attribution e) [] ≡ true
unfolding own
own-none e = refl

own-plain :
    (active : TurnAttribution) (t : ConversationTurn) (ts : List ConversationTurn)
    → is_attributed t ≡ false
    → own active ts ≡ true
    → own active (t ∷ ts) ≡ true
unfolding own
own-plain active t ts k h = rw (k, h) refl

assistant_turn-own :
    (e : Env) (time : ℕ) (r : AgenticResponse) (ts : List ConversationTurn)
    → own (active_attribution e) ts ≡ true
    → own (active_attribution e) (assistant_turn e time r ∷ ts) ≡ true
unfolding own
assistant_turn-own e time r ts h = rw (eq_refl e.provider_name, eq_refl e.model, h) (ground arith)

module _ (e : Env) where
  run_calls-own :
      (cs : List ToolCallRequest) (d : Desk)
      → own (active_attribution e) (run_calls e cs d).0 ≡ true
  unfolding run_calls own
  run_calls-own [] d = refl
  run_calls-own (c ∷ cs) d =
      let d1 = (execute_tool e c d).1 in
      let k = built-unattributed e d1.clock c (execute_tool e c d).0 in
      if-holds {A = List ConversationTurn × (Bool × Desk)}
        (λ p. own (active_attribution e) p.0 ≡ true) (e.is_cancelled d1.clock) _ _
        (λ h. own-plain (active_attribution e) _ [] k refl)
        (λ h. own-plain (active_attribution e) _ _ k (run_calls-own cs (tick d1)))

  paused-Left :
      (reason : String) (o : Orchestrator)
      → IsSettled e o.conversation
      → Left e (true, mark_paused reason o)
  paused-Left reason o s = left (rw (mark_paused-conversation reason o) s)

  append_text-IsSettled :
      (r : AgenticResponse) (o : Orchestrator)
      → IsSettled e o.conversation
      → IsSettled e (append_text e r o).conversation
  unfolding append_text
  append_text-IsSettled r o s =
      if-holds {A = Orchestrator} (λ x. IsSettled e x.conversation) (assistant_text r == "") _ _
        (λ i. s)
        (λ i.
          settled-append (active_attribution e) o.conversation _ s
            (assistant_turn-own e _ r [] (own-none e)))

  take_text-Left :
      (r : AgenticResponse) (x : StopReason) (o : Orchestrator)
      → IsSettled e o.conversation
      → Left e (take_text e r x o)
  unfolding take_text
  take_text-Left r end_turn o s =
      left (append_text-IsSettled r (record o { desk = enter phase_done o.desk }) s)
  take_text-Left r max_tokens o s = left (append_text-IsSettled r o s)
  take_text-Left r tool_use o s = left s
  take_text-Left r stop_sequence o s = left s
  take_text-Left r (other_stop x) o s = left s

  close_round-Left :
      (cancelled : Bool) (o : Orchestrator)
      → IsSettled e o.conversation
      → Left e (close_round cancelled o)
  close_round-Left true o s = paused-Left "cancelled" o s
  close_round-Left false o s =
      if-holds (Left e) (o.desk.pending_question == "") _ _ (λ h. left s)
        (λ h. paused-Left "awaiting_user_info" o s)

  take_calls-Left :
      (r : AgenticResponse) (o : Orchestrator)
      → IsSettled e o.conversation
      → Left e (take_calls e r o)
  unfolding take_calls
  take_calls-Left r o s =
      let p = run_calls e r.tool_calls o.desk in
      close_round-Left p.1.0
        (record o {
          desk = p.1.1;
          conversation = o.conversation ++ (assistant_turn e o.desk.clock r ∷ p.0);
        })
        (settled-append (active_attribution e) o.conversation _ s
          (assistant_turn-own e o.desk.clock r p.0 (run_calls-own r.tool_calls o.desk)))

  take_error-Left :
      (x : ProviderError) (o : Orchestrator)
      → IsSettled e o.conversation
      → Left e (take_error e x o)
  unfolding take_error
  take_error-Left x o s =
      if-holds (Left e) (x.is_invalid_request || x.is_auth) _ _ (λ h. left s)
        (λ h. if-holds (Left e) (ltb o.iteration e.max_iterations) _ _ (λ k. left s) (λ k. left s))

  take_reply-Left :
      (r : Result ProviderError AgenticResponse) (o : Orchestrator)
      → IsSettled e o.conversation
      → Left e (take_reply e r o)
  unfolding take_reply count_usage
  take_reply-Left (err x) o s =
      if-holds (Left e) (e.is_cancelled o.desk.clock) _ _ (λ h. paused-Left "cancelled" _ s)
        (λ h. take_error-Left x (record o { desk = tick o.desk }) s)
  take_reply-Left (ok r) o s =
      if-holds (Left e) (has_calls r.tool_calls) _ _
        (λ h. take_calls-Left r (count_usage r.usage o) s)
        (λ h. take_text-Left r r.stop_reason (count_usage r.usage o) s)

  round-Left : (o : Orchestrator) → IsSettled e o.conversation → Left e (round e o)
  unfolding round call_provider
  round-Left o s =
      if-holds (Left e) (e.is_cancelled o.desk.clock) _ _ (λ h. paused-Left "cancelled" _ s)
        (λ h.
          if-holds (Left e) (ltb 0 e.max_duration && leb e.max_duration (e.elapsed o.desk.clock)) _
            _ (λ h. paused-Left "max_duration" _ s)
            (λ h.
              if-holds (Left e)
                (ltb 0 e.max_context_tokens && leb e.max_context_tokens o.tokens_used) _ _
                (λ h. paused-Left "max_tokens" _ s)
                (λ h.
                  if-holds (Left e) (leb e.max_iterations o.iteration) _ _
                    (λ h. paused-Left "max_iterations" _ s)
                    (λ h.
                      take_reply-Left (e.reply _) _
                        (prepare-IsSettled e (record o { desk = tick o.desk }) s)))))

IsSettled-Left : (e : Env) (p : Bool × Orchestrator) → Left e p → IsSettled e p.1.conversation
IsSettled-Left e p (left s) = s

pub round-IsSettled :
    (e : Env) (o : Orchestrator)
    → IsSettled e o.conversation
    → IsSettled e (round e o).1.conversation
round-IsSettled e o s = IsSettled-Left e (round e o) (round-Left e o s)
