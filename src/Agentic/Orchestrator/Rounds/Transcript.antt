-- ===== src/Agentic/Orchestrator/Rounds/Transcript.antt =====
-- The transcript of a run and the pairing rule (agentic/orchestrator.go).
use rysh_cli_shared.Prelude.{
  ℕ, String, Bool, true, false, List, [], ◌∷◌, ◌≡◌, refl, ◌==◌, Bool-cases, inl, inr, arith,
  contains, if-holds,
}
use rysh_cli_shared.Tools.{ToolOutput}
use rysh_cli_shared.Provider.Turns.{ConversationTurn, ToolCallRequest}
use rysh_cli_shared.Provider.Pairing.{is_tool, wanted}
use rysh_cli_shared.Provider.Pairing.Repair.{wanted_self, wanted-tail}
use rysh_cli_shared.Agentic.SessionMemory.Healing.{all_named, named_calls}
use rysh_cli_shared.Agentic.SessionMemory.CutOff.{AllResults, after_results, after_results-old}
use rysh_cli_shared.Agentic.Orchestrator.State.{Env, Desk, tick}
use rysh_cli_shared.Agentic.Orchestrator.Calls.Dispatch.{execute_tool, sub_agent_tool_name}
use rysh_cli_shared.Agentic.Orchestrator.Rounds.{build_tool_result_turn, run_calls}

-- The turn is the result of the call.
abbrev IsResult : ToolCallRequest → ConversationTurn → Type 0
IsResult c t = (is_tool t ≡ true) × (t.tool_call_id ≡ c.id) × (t.tool_calls ≡ [])

built-IsResult :
    (e : Env) (time : ℕ) (c : ToolCallRequest) (out : ToolOutput)
    → IsResult c (build_tool_result_turn e time c out)
unfolding build_tool_result_turn is_tool
built-IsResult e time c out =
    if-holds (IsResult c) (c.name == sub_agent_tool_name) _ _ (λ s. (refl, refl, refl))
      (λ s. (refl, refl, refl))

-- What a round of calls has written: results of the assistant turn's calls, and unless it was
-- cancelled, one for each.
pub record Written (o : ConversationTurn) (cs : List ToolCallRequest)
    (p : List ConversationTurn × (Bool × Desk)) : Type 0 where
  pub results : AllResults o p.0
  pub named : named_calls p.0 ≡ true
  pub complete :
      (ids : List String) (id : String)
      → p.1.0 ≡ false
      → wanted cs id ≡ true
      → contains (after_results p.0 ids) id ≡ true

named-none : named_calls [] ≡ true
unfolding named_calls
named-none = refl

result-wanted :
    (o t : ConversationTurn) (c : ToolCallRequest) (cs : List ToolCallRequest)
    → ((id : String) → wanted (c ∷ cs) id ≡ true → wanted o.tool_calls id ≡ true)
    → IsResult c t
    → wanted o.tool_calls t.tool_call_id ≡ true
result-wanted o t c cs a (w, i, n) = rw i (a c.id (wanted_self c cs))

named-result :
    (c : ToolCallRequest) (t : ConversationTurn) (ts : List ConversationTurn)
    → IsResult c t
    → named_calls ts ≡ true
    → named_calls (t ∷ ts) ≡ true
unfolding named_calls all_named
named-result c t ts (w, i, n) h = rw n h

complete-cons :
    (c : ToolCallRequest) (t : ConversationTurn) (cs : List ToolCallRequest)
    (ts : List ConversationTurn) (ids : List String) (id : String)
    → IsResult c t
    → (wanted cs id ≡ true → contains (after_results ts (t.tool_call_id ∷ ids)) id ≡ true)
    → wanted (c ∷ cs) id ≡ true
    → contains (after_results (t ∷ ts) ids) id ≡ true
unfolding wanted
complete-cons c t cs ts ids id (q, i, n) h w = elim (Bool-cases (c.id == id)) [
  | inl k ↦ after_results-old ts (t.tool_call_id ∷ ids) id (rw (i, k) refl)
  | inr k ↦ h (ground (arith, w, k))
]

pub run_calls-Written :
    (e : Env) (o : ConversationTurn) (cs : List ToolCallRequest) (d : Desk)
    → ((id : String) → wanted cs id ≡ true → wanted o.tool_calls id ≡ true)
    → Written o cs (run_calls e cs d)
unfolding run_calls wanted
run_calls-Written e o [] d a = record {
  results = tt;
  named = named-none;
  complete = λ ids id f w. absurd (ground (arith, w));
}
run_calls-Written e o (c ∷ cs) d a =
    let d1 = (execute_tool e c d).1 in
    let t = build_tool_result_turn e d1.clock c (execute_tool e c d).0 in
    let b = built-IsResult e d1.clock c (execute_tool e c d).0 in
    let q = run_calls-Written e o cs (tick d1) (λ id w. a id (wanted-tail c cs id w)) in
    if-holds (Written o (c ∷ cs)) (e.is_cancelled d1.clock) _ _
      (λ h. record {
        results = (b.0, result-wanted o t c cs a b, tt);
        named = named-result c t [] b named-none;
        complete = λ ids id f w. absurd (ground (arith, f));
      })
      (λ h. record {
        results = (b.0, result-wanted o t c cs a b, q.results);
        named = named-result c t _ b q.named;
        complete = λ ids id f w.
            complete-cons c t cs (run_calls e cs (tick d1)).0 ids id b
              (λ k. q.complete (t.tool_call_id ∷ ids) id f k) w;
      })
