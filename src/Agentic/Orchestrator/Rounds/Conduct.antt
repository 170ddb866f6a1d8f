-- ===== src/Agentic/Orchestrator/Rounds/Conduct.antt =====
-- What a whole run does outside itself (agentic/orchestrator.go).
use rysh_cli_shared.Prelude.{ℕ, suc, ◌<◌, ◌≤◌, Bool, true, List, ◌∷◌, ◌≡◌}
use rysh_cli_shared.Agentic.SessionMemory.Healing.{IsReplayable}
use rysh_cli_shared.Provider.Turns.{ConversationTurn}
use rysh_cli_shared.Provider.Pairing.Paired.{Paired}
use rysh_cli_shared.Agentic.Orchestrator.State.{Env, Orchestrator, Effect, summarized}
use rysh_cli_shared.Agentic.Orchestrator.Rounds.Producers.{IsSettled}
use rysh_cli_shared.Agentic.Orchestrator.Rounds.Effects.{Lawful}

-- A state with the effects that are behind another.
abbrev HasEffects : List Effect → Orchestrator → Type 0
HasEffects es o = o.desk.effects ≡ es

-- The effects where the provider is asked: as they were, or with a request for a summary.
data Prepared (e : Env) (n : ℕ) : List Effect → Type 0 where
  unsummarized : {es : List Effect} → Lawful e n es → Prepared e n es
  after_summary :
      {es : List Effect} {us : List ConversationTurn}
      → Lawful e n es
      → Prepared e n (summarized us ∷ es)

-- A round ends the run with no further request for a reply, or makes one while an iteration is left.
data RoundLaw (e : Env) (n : ℕ) : Bool × Orchestrator → Type 0 where
  early : {o : Orchestrator} → Lawful e n o.desk.effects → RoundLaw e n (true, o)
  late :
      {p : Bool × Orchestrator}
      → n < e.max_iterations
      → Lawful e (suc n) p.1.desk.effects
      → RoundLaw e n p

-- What the loop keeps.
record Kept (e : Env) (o : Orchestrator) : Type 0 where
  replayable : IsReplayable o.conversation
  handed : IsSettled e o.conversation
  lawful : Lawful e o.iteration o.desk.effects
  within : o.iteration ≤ e.max_iterations
