-- ===== src/Agentic/Orchestrator/Rounds/Pairing.antt =====
-- The transcript at the end of a run (agentic/orchestrator.go).
use rysh_cli_shared.Prelude.{suc, Bool, false, some, ◌≡◌, refl, sym, subst, arith, if-holds, ◌==◌}
use rysh_cli_shared.Provider.Pairing.{outside}
use rysh_cli_shared.Provider.Pairing.Paired.{Paired}
use rysh_cli_shared.Agentic.Grounding.{grounding_enforced}
use rysh_cli_shared.Agentic.SessionMemory.Healing.{IsReplayable, close_dangling_tool_calls-Paired}
use rysh_cli_shared.Agentic.SessionMemory.CutOff.{close_dangling_tool_calls-cut_off}
use rysh_cli_shared.Agentic.Orchestrator.State.{Env, Orchestrator}
use rysh_cli_shared.Agentic.Orchestrator.Rounds.{round, close_run, closing, start, run_loop}
use rysh_cli_shared.Agentic.Orchestrator.Rounds.Outcomes.{
  Outcome, whole, cut_off, NamedReplies, round-Outcome,
}
use rysh_cli_shared.Agentic.Orchestrator.Rounds.Ending.{run_rounds-rule}

pub kept : (p : Bool × Orchestrator) → Outcome p → p.0 ≡ false → IsReplayable p.1.conversation
kept p (whole q) f = q
kept _ (cut_off o ts rs t i q p c a) f = absurd (ground (arith, f))

close_run-Paired :
    (e : Env) (p : Bool × Orchestrator)
    → Outcome p
    → Paired false outside (close_run e p.1).conversation
unfolding close_run
close_run-Paired e p (whole q) =
    if-holds {A = Orchestrator} (λ x. Paired false outside x.conversation) p.1.interrupted _ _
      (λ i.
        rw (close_dangling_tool_calls-Paired (closing e p.1) _ p.1.conversation q.rule q.named)
          q.rule)
      (λ i. q.rule)
close_run-Paired e _ (cut_off o ts rs t i q p c a) =
    rw (i, q) (close_dangling_tool_calls-cut_off (closing e o) _ ts rs t p c a)

pub start-conversation : (e : Env) (o : Orchestrator) → (start e o).conversation ≡ o.conversation
start-conversation e o =
    if-holds {A = Orchestrator} (λ x. x.conversation ≡ o.conversation)
      (e.grounding_mode == grounding_enforced) _ _ (λ h. refl) (λ h. refl)

-- If the transcript at the start obeys the pairing rule, and the calls in it and in the provider's
-- replies have ids that are not empty, then the run ends with a transcript that obeys the pairing
-- rule, whether it is done, has failed, or has been interrupted before or between the calls of a round.
pub run_loop-Paired :
    (e : Env) (o : Orchestrator)
    → NamedReplies e
    → IsReplayable o.conversation
    → (o' : Orchestrator) × (run_loop e o ≡ some o') × Paired false outside o'.conversation
unfolding run_loop
run_loop-Paired e o n p =
    run_rounds-rule e (λ x. IsReplayable x.conversation) (λ x. Paired false outside x.conversation)
      (λ x i b. kept (round e x) (round-Outcome e x n i) b)
      (λ x i b. close_run-Paired e (round e x) (round-Outcome e x n i)) (suc e.max_iterations)
      (start e o) (omega arith) (subst (λ ts. IsReplayable ts) (sym (start-conversation e o)) p)
