-- ===== src/Agentic/Orchestrator/Calls/Blocked.antt =====
-- Calls that executeTool turns away (agentic/orchestrator.go).
use rysh_cli_shared.Prelude.{
  suc, ◌+◌, ◌≤◌, Bool, true, false, ◌&&◌, List, [], ◌∷◌, ◌++◌, ◌≡◌, refl, sym, ap, ◌∙◌, ◌==◌, arith,
  if-holds, inl, inr, ◌⊎◌, length, count_if, length-append, append_assoc, append-nil,
}
use rysh_cli_shared.Tools.{ToolOutput, err_output}
use rysh_cli_shared.Provider.Turns.{ToolCallRequest}
use rysh_cli_shared.Agentic.Grounding.{grounding_tool_name, grounding_allowed_call}
use rysh_cli_shared.Agentic.Orchestrator.State.{Env, Desk, LoopEntry}
use rysh_cli_shared.Agentic.Orchestrator.Decisions.{threshold, call_hash, same_call, detect_loop}
use rysh_cli_shared.Agentic.Orchestrator.Decisions.Repeats.{entry, history-ends, detect_loop-ends}
use rysh_cli_shared.Agentic.Orchestrator.Calls.History.{execute_tool-history}
use rysh_cli_shared.Agentic.Orchestrator.Calls.Dispatch.{
  execute_tool, run_unrepeated, is_locked, has_tool, loop_text,
}

-- A call was turned away: it has an error of one of these kinds, has done nothing, and has left the
-- gate of the grounding protocol as it was.
pub record TurnedAway (d : Desk) (p : ToolOutput × Desk) : Type 0 where
  pub kind : (p.0.error_kind ≡ "loop_blocked") ⊎ (p.0.error_kind ≡ "permission_denied")
  pub no_effects : p.1.effects ≡ d.effects
  pub gate : p.1.grounding ≡ d.grounding

-- The desk after some calls.
unfoldable pub handled : Env → List ToolCallRequest → Desk → Desk
handled e [] d = d
handled e (c ∷ cs) d = handled e cs (execute_tool e c d).1

-- The two calls have the same tool and parameters, going by their hashes.
abbrev pub same_as : Env → ToolCallRequest → ToolCallRequest → Bool
same_as e c x = same_call (call_hash e c.name c.input) (entry e x.name x.input)

abbrev entries : Env → List ToolCallRequest → List LoopEntry
entries e [] = []
entries e (c ∷ cs) = entry e c.name c.input ∷ entries e cs

length-entries : (e : Env) (cs : List ToolCallRequest) → length (entries e cs) ≡ length cs
length-entries e [] = refl
length-entries e (c ∷ cs) = ap suc (length-entries e cs)

count_if-entries :
    (e : Env) (c : ToolCallRequest) (cs : List ToolCallRequest)
    → count_if (same_call (call_hash e c.name c.input)) (entries e cs) ≡ count_if (same_as e c) cs
count_if-entries e c [] = refl
count_if-entries e c (x ∷ cs) = rw (count_if-entries e c cs) refl

-- The history after some calls ends in their entries.
handled-history :
    (e : Env) (cs : List ToolCallRequest) (xs zs : List LoopEntry) (d : Desk)
    → length zs + length cs ≤ 20
    → d.call_history ≡ xs ++ zs
    → (ys : List LoopEntry) × ((handled e cs d).call_history ≡ ys ++ (zs ++ entries e cs))
unfolding handled
handled-history e [] xs zs d h q = (xs, q ∙ ap (λ us. xs ++ us) (sym (append-nil zs)))
handled-history e (c ∷ cs) xs zs d h q =
    let x = entry e c.name c.input in
    let r = history-ends e c.name c.input xs zs d.call_history (omega (arith, h)) q in
    let s =
      handled-history e cs r.0 (zs ++ x ∷ []) (execute_tool e c d).1
        (omega (arith, h, length-append zs (x ∷ []))) (execute_tool-history e c d ∙ r.1) in
    (s.0, s.1 ∙ ap (λ us. s.0 ++ us) (append_assoc zs (x ∷ []) (entries e cs)))

blocked-looped :
    (e : Env) (c : ToolCallRequest) (d : Desk)
    → (detect_loop e c.name c.input d).0 ≡ true
    → ((execute_tool e c d).0.error_kind ≡ "loop_blocked")
      × ((execute_tool e c d).1.effects ≡ d.effects)
unfolding execute_tool detect_loop
blocked-looped e c d h = rw h (refl, refl)

-- After any calls, fewer than 20, that executeTool has handled, and of which as many as the threshold
-- less one, or more, have the tool and the parameters of the next call, that call is blocked as a loop
-- and does nothing. Nothing is asked of the calls handled before, or of what became of them.
pub execute_tool-repeated :
    (e : Env) (c : ToolCallRequest) (cs : List ToolCallRequest) (d : Desk)
    → threshold e ≤ suc (count_if (same_as e c) cs)
    → suc (length cs) ≤ 20
    → ((execute_tool e c (handled e cs d)).0.error_kind ≡ "loop_blocked")
      × ((execute_tool e c (handled e cs d)).1.effects ≡ (handled e cs d).effects)
execute_tool-repeated e c cs d t h =
    let r =
      handled-history e cs d.call_history [] d (omega (arith, h))
        (sym (append-nil d.call_history)) in
    blocked-looped e c (handled e cs d) (
      detect_loop-ends e c.name c.input r.0 (entries e cs) (handled e cs d)
        (omega (arith, t, count_if-entries e c cs)) (omega (arith, h, length-entries e cs)) r.1)

run_unrepeated-locked :
    (e : Env) (c : ToolCallRequest) (d : Desk)
    → is_locked e c d ≡ true
    → (c.name == grounding_tool_name) ≡ false
    → TurnedAway d (run_unrepeated e c d)
unfolding run_unrepeated
run_unrepeated-locked e c d l n =
    if-holds (TurnedAway d) (c.name == grounding_tool_name && has_tool e c.name) _ _
      (λ h. absurd (ground (arith, h, n)))
      (λ h.
        if-holds (TurnedAway d) (is_locked e c d) _ _
          (λ k. record { kind = inr refl; no_effects = refl; gate = refl })
          (λ k. absurd (ground (arith, k, l))))

-- While the gate of the grounding protocol is closed, a call that the protocol does not allow is
-- turned away, except for the report that opens the gate.
pub execute_tool-locked :
    (e : Env) (c : ToolCallRequest) (d : Desk)
    → d.grounding ≡ true
    → grounding_allowed_call (e.params.text_field "action") c.name c.input ≡ false
    → (c.name == grounding_tool_name) ≡ false
    → TurnedAway d (execute_tool e c d)
unfolding execute_tool is_locked detect_loop
execute_tool-locked e c d g a n =
    let l = detect_loop e c.name c.input d in
    let locked : is_locked e c l.1 ≡ true = rw (g, a) refl in
    let q = run_unrepeated-locked e c l.1 locked n in
    if-holds (TurnedAway d) l.0 (err_output "loop_blocked" (loop_text e c), l.1)
      (run_unrepeated e c l.1) (λ h. record { kind = inl refl; no_effects = refl; gate = refl })
      (λ h. record { kind = q.kind; no_effects = q.no_effects; gate = q.gate })
