-- ===== src/Agentic/Orchestrator/Rounds/Outcomes.antt =====
-- How each round leaves the transcript (agentic/orchestrator.go).
use rysh_cli_shared.Prelude.{
  ℕ, suc, String, Bool, true, false, ◌&&◌, ◌||◌, List, [], ◌∷◌, ◌++◌, ◌≡◌, refl, sym, subst, ◌∙◌,
  ◌==◌, Result, ok, err, arith, append-nil, if-holds, length, ltb, leb,
}
use rysh_cli_shared.Provider.Turns.{ConversationTurn}
use rysh_cli_shared.Provider.Pairing.{outside, answering, has_calls, calls_tools, is_tool}
use rysh_cli_shared.Provider.Pairing.Paired.{Paired, finished, plain, calling, answered}
use rysh_cli_shared.Agentic.SessionMemory.Healing.{all_named, named_calls, IsReplayable}
use rysh_cli_shared.Agentic.SessionMemory.CutOff.{AllResults, results-Paired, IsReplayable-append}
use rysh_cli_shared.Agentic.Orchestrator.State.{
  Env, Desk, Orchestrator, AgenticResponse, ProviderError, StopReason, end_turn, tool_use,
  max_tokens, stop_sequence, other_stop, enter, tick, phase_done,
}
use rysh_cli_shared.Agentic.Orchestrator.Compaction.{compaction_due}
use rysh_cli_shared.Agentic.Orchestrator.Compaction.Window.{compact_conversation-IsReplayable}
use rysh_cli_shared.Agentic.Orchestrator.Rounds.{
  run_calls, assistant_turn, assistant_text, mark_paused, append_text, take_text, close_round,
  take_calls, take_error, take_reply, call_provider, round, prepare, spend_grounding, count_usage,
}
use rysh_cli_shared.Agentic.Orchestrator.Rounds.Transcript.{Written, run_calls-Written}

-- What a round leaves: a transcript that can be replayed, or at the end of an interrupted run, one
-- that the round of calls has left in its middle.
pub data Outcome : Bool × Orchestrator → Type 0 where
  whole : {p : Bool × Orchestrator} → IsReplayable p.1.conversation → Outcome p
  cut_off :
      (o : Orchestrator) (ts rs : List ConversationTurn) (t : ConversationTurn)
      → o.interrupted ≡ true
      → o.conversation ≡ ts ++ t ∷ rs
      → Paired false outside ts
      → calls_tools t ≡ true
      → AllResults t rs
      → Outcome (true, o)

pub mark_paused-conversation :
    (reason : String) (o : Orchestrator) → (mark_paused reason o).conversation ≡ o.conversation
unfolding mark_paused
mark_paused-conversation reason o =
    if-holds {A = Orchestrator} (λ x. x.conversation ≡ o.conversation) o.interrupted _ _ (λ h. refl)
      (λ h. refl)

mark_paused-interrupted :
    (reason : String) (o : Orchestrator) → (mark_paused reason o).interrupted ≡ true
unfolding mark_paused
mark_paused-interrupted reason o =
    if-holds {A = Orchestrator} (λ x. x.interrupted ≡ true) o.interrupted _ _ (λ h. h) (λ h. refl)

pub paused_whole :
    (reason : String) (o : Orchestrator)
    → IsReplayable o.conversation
    → Outcome (true, mark_paused reason o)
paused_whole reason o p = whole (rw (mark_paused-conversation reason o) p)

plain_turn :
    (e : Env) (time : ℕ) (r : AgenticResponse)
    → has_calls r.tool_calls ≡ false
    → all_named r.tool_calls ≡ true
    → IsReplayable (assistant_turn e time r ∷ [])
unfolding calls_tools is_tool named_calls
plain_turn e time r h n = record { rule = plain h refl finished; named = ground (arith, n) }

append_text-IsReplayable :
    (e : Env) (r : AgenticResponse) (o : Orchestrator)
    → has_calls r.tool_calls ≡ false
    → all_named r.tool_calls ≡ true
    → IsReplayable o.conversation
    → IsReplayable (append_text e r o).conversation
unfolding append_text
append_text-IsReplayable e r o h n p =
    if-holds {A = Orchestrator} (λ x. IsReplayable x.conversation) (assistant_text r == "") _ _
      (λ i. p) (λ i. IsReplayable-append p (plain_turn e _ r h n))

take_text-Outcome :
    (e : Env) (r : AgenticResponse) (s : StopReason) (o : Orchestrator)
    → has_calls r.tool_calls ≡ false
    → all_named r.tool_calls ≡ true
    → IsReplayable o.conversation
    → Outcome (take_text e r s o)
unfolding take_text
take_text-Outcome e r end_turn o h n p =
    whole (append_text-IsReplayable e r (record o { desk = enter phase_done o.desk }) h n p)
take_text-Outcome e r max_tokens o h n p = whole (append_text-IsReplayable e r o h n p)
take_text-Outcome e r tool_use o h n p = whole p
take_text-Outcome e r stop_sequence o h n p = whole p
take_text-Outcome e r (other_stop s) o h n p = whole p

-- An assistant turn with calls, and what the round has written for them.
calling_turn :
    (e : Env) (time : ℕ) (r : AgenticResponse) (p : List ConversationTurn × (Bool × Desk))
    → has_calls r.tool_calls ≡ true
    → all_named r.tool_calls ≡ true
    → Written (assistant_turn e time r) r.tool_calls p
    → p.1.0 ≡ false
    → IsReplayable (assistant_turn e time r ∷ p.0)
unfolding calls_tools named_calls
calling_turn e time r p h n w f = record {
  rule = calling h (
      subst (λ us. Paired false (answering (assistant_turn e time r) []) us) (append-nil p.0)
        (results-Paired (assistant_turn e time r) [] p.0 [] w.results
          (answered (λ id k. w.complete [] id f k) finished)));
  named = ground (arith, n, w.named);
}

close_round-Outcome :
    (e : Env) (time : ℕ) (r : AgenticResponse) (o : Orchestrator) (ts : List ConversationTurn)
    (p : List ConversationTurn × (Bool × Desk))
    → has_calls r.tool_calls ≡ true
    → all_named r.tool_calls ≡ true
    → IsReplayable ts
    → Written (assistant_turn e time r) r.tool_calls p
    → o.conversation ≡ ts ++ (assistant_turn e time r ∷ p.0)
    → Outcome (close_round p.1.0 o)
unfolding calls_tools
close_round-Outcome e time r o ts (rs, (true, d)) h n p w q =
    cut_off _ ts rs (assistant_turn e time r) (mark_paused-interrupted "cancelled" o)
      (mark_paused-conversation "cancelled" o ∙ q) p.rule h w.results
close_round-Outcome e time r o ts (rs, (false, d)) h n p w q =
    let kept : IsReplayable o.conversation =
      rw q (IsReplayable-append p (calling_turn e time r (rs, (false, d)) h n w refl)) in
    if-holds Outcome (o.desk.pending_question == "") _ _ (λ i. whole kept)
      (λ i. paused_whole "awaiting_user_info" o kept)

take_calls-Outcome :
    (e : Env) (r : AgenticResponse) (o : Orchestrator)
    → has_calls r.tool_calls ≡ true
    → all_named r.tool_calls ≡ true
    → IsReplayable o.conversation
    → Outcome (take_calls e r o)
unfolding take_calls
take_calls-Outcome e r o h n p =
    close_round-Outcome e o.desk.clock r _ o.conversation (run_calls e r.tool_calls o.desk) h n p
      (run_calls-Written e (assistant_turn e o.desk.clock r) r.tool_calls o.desk (λ id w. w)) refl

take_error-Outcome :
    (e : Env) (x : ProviderError) (o : Orchestrator)
    → IsReplayable o.conversation
    → Outcome (take_error e x o)
unfolding take_error
take_error-Outcome e x o p =
    if-holds Outcome (x.is_invalid_request || x.is_auth) _ _ (λ h. whole p)
      (λ h. if-holds Outcome (ltb o.iteration e.max_iterations) _ _ (λ k. whole p) (λ k. whole p))

-- The calls of a reply have ids that are not empty.
abbrev pub IsNamed : Result ProviderError AgenticResponse → Type 0
IsNamed (ok r) = all_named r.tool_calls ≡ true
IsNamed (err x) = Unit

take_reply-Outcome :
    (e : Env) (r : Result ProviderError AgenticResponse) (o : Orchestrator)
    → IsNamed r
    → IsReplayable o.conversation
    → Outcome (take_reply e r o)
unfolding take_reply count_usage
take_reply-Outcome e (err x) o n p =
    if-holds Outcome (e.is_cancelled o.desk.clock) _ _ (λ h. paused_whole "cancelled" _ p)
      (λ h. take_error-Outcome e x _ p)
take_reply-Outcome e (ok r) o n p =
    if-holds Outcome (has_calls r.tool_calls) _ _ (λ h. take_calls-Outcome e r _ h n p)
      (λ h. take_text-Outcome e r r.stop_reason _ h n p)

pub spend_grounding-conversation :
    (o : Orchestrator) → (spend_grounding o).conversation ≡ o.conversation
unfolding spend_grounding
spend_grounding-conversation o =
    if-holds {A = Orchestrator} (λ x. x.conversation ≡ o.conversation) o.desk.grounding _ _
      (λ h. refl) (λ h. refl)

pub prepare-IsReplayable :
    (e : Env) (o : Orchestrator)
    → IsReplayable o.conversation
    → IsReplayable (prepare e o).conversation
unfolding prepare
prepare-IsReplayable e o p =
    let o1 : Orchestrator = spend_grounding (record o { iteration = suc o.iteration }) in
    let q : IsReplayable o1.conversation =
      subst (λ ts. IsReplayable ts)
        (sym (spend_grounding-conversation (record o { iteration = suc o.iteration }))) p in
    if-holds {A = Orchestrator} (λ x. IsReplayable x.conversation)
      (compaction_due e.context_token_limit o1.last_input_tokens (length o1.conversation)) _ _
      (λ h. compact_conversation-IsReplayable e o1 q) (λ h. q)

-- The provider's replies have calls with ids that are not empty.
abbrev pub NamedReplies : Env → Type 0
NamedReplies e = (time : ℕ) → IsNamed (e.reply time)

pub round-Outcome :
    (e : Env) (o : Orchestrator)
    → NamedReplies e
    → IsReplayable o.conversation
    → Outcome (round e o)
unfolding round call_provider
round-Outcome e o n p =
    if-holds Outcome (e.is_cancelled o.desk.clock) _ _ (λ h. paused_whole "cancelled" _ p)
      (λ h.
        if-holds Outcome (ltb 0 e.max_duration && leb e.max_duration (e.elapsed o.desk.clock)) _ _
          (λ h. paused_whole "max_duration" _ p)
          (λ h.
            if-holds Outcome (ltb 0 e.max_context_tokens && leb e.max_context_tokens o.tokens_used)
              _ _ (λ h. paused_whole "max_tokens" _ p)
              (λ h.
                if-holds Outcome (leb e.max_iterations o.iteration) _ _
                  (λ h. paused_whole "max_iterations" _ p)
                  (λ h.
                    take_reply-Outcome e (e.reply _) _ (n _)
                      (prepare-IsReplayable e (record o { desk = tick o.desk }) p)))))
