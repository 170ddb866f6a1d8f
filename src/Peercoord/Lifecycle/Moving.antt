-- ===== src/Peercoord/Lifecycle/Moving.antt =====
-- A `Move` against the graph, and against what `IsSound` says of its task.
use rysh_cli_shared.Prelude.{
  String, true, false, ◌≡◌, ◌≢◌, sym, subst, inl, inr, ok, arith, Map, Bool-cases,
}
use rysh_cli_shared.Peercoord.Types.{
  Env, Agent, Task, Leadership, Attempt, TaskState, cancel_requested, result_submitted, completed,
  is_terminal, is_active,
}
use rysh_cli_shared.Peercoord.Text.{token_matches}
use rysh_cli_shared.Peercoord.Transition.{Transition, secret}
use rysh_cli_shared.Peercoord.Registry.{is_waiting}
use rysh_cli_shared.Peercoord.Tasks.{is_completed, is_submitted, is_claimed, is_cancel_requested}
use rysh_cli_shared.Peercoord.Work.{check_claim}
use rysh_cli_shared.Peercoord.Effects.Shape.{
  secrets_of, Holds, Report, started, works, blocks, waits, submits, fails, stops, loses, Move,
  claims, reviews, drops, recalls, resolves, retries, adopts, reports,
}
use rysh_cli_shared.Peercoord.Lifecycle.Graph
use rysh_cli_shared.Peercoord.Lifecycle.Graph.{◌⟶◌, Follows, rests, steps}

-- The empty credential is held by nobody.
token_matches-nil : (env : Env) (s : String) → token_matches env s "" ≢ true
unfolding token_matches
token_matches-nil env s h = ground arith

Holds-ne : (x : Transition) (at : Attempt) → Holds x at → secret at.id (secrets_of x) ≢ ""
Holds-ne x at h e =
    token_matches-nil x.env x.auth.execution_token
      (subst (λ v. token_matches x.env x.auth.execution_token v ≡ true) e h)

-- A task that is neither waiting nor finished nor submitted is in work.
pub active_of :
    (s : TaskState)
    → is_waiting s ≡ false
    → is_terminal s ≡ false
    → is_submitted s ≡ false
    → is_active s ≡ true
unfolding is_waiting is_terminal is_submitted is_active
active_of s w t u = ground arith

active-not_waiting : (s : TaskState) → is_active s ≡ true → is_waiting s ≢ true
unfolding is_waiting is_active
active-not_waiting s a w = ground arith

submitted_is : (s : TaskState) → is_submitted s ≡ true → s ≡ result_submitted
unfolding is_submitted
submitted_is s h = ground arith

recalled_is : (s : TaskState) → is_cancel_requested s ≡ true → s ≡ cancel_requested
unfolding is_cancel_requested
recalled_is s h = ground arith

not_recalled : (s : TaskState) → is_cancel_requested s ≡ false → s ≢ cancel_requested
unfolding is_cancel_requested
not_recalled s h e = ground arith

not_completed : (s : TaskState) → is_completed s ≡ false → s ≢ completed
unfolding is_completed
not_completed s h e = ground arith

claimed_live : (s : TaskState) → is_claimed s ≡ true → s ≢ cancel_requested
unfolding is_claimed
claimed_live s h e = ground arith

to_state : {r s s' : TaskState} → s' ≡ s → r ⟶ s → r ⟶ s'
to_state {r} e h = subst (λ s. r ⟶ s) (sym e) h

from_state : {r r' s : TaskState} → r ≡ r' → r' ⟶ s → r ⟶ s
from_state {s = s} e h = subst (λ r. r ⟶ s) (sym e) h

Report-⟶ : (s t : TaskState) → is_active s ≡ true → Report s t → s ⟶ t
Report-⟶ s _ a (started h) = Graph.run a (claimed_live s h)
Report-⟶ s _ a (works h) = Graph.run a (not_recalled s h)
Report-⟶ s _ a (blocks h) = Graph.block a (not_recalled s h)
Report-⟶ s _ a (waits h) = Graph.wait a (not_recalled s h)
Report-⟶ s _ a (submits h) = Graph.submit a (not_recalled s h)
Report-⟶ s _ a fails = Graph.give_up a
Report-⟶ s _ a (stops h) = from_state (recalled_is s h) Graph.stop
Report-⟶ s _ a loses = Graph.lose a

claim_waiting :
    (x : Transition) (t : Task) (at : Attempt) (a : Agent)
    → check_claim a t at x ≡ ok tt
    → is_waiting t.state ≡ true
unfolding check_claim
claim_waiting x t at a h = ground arith

module _ (x : Transition) (t : Task) (at : Attempt) (t' : Task) (m : Map String)
    (unclaimed : is_waiting t.state ≡ true → secret at.id (secrets_of x) ≡ "") where
  -- Who holds the credential works on a task that has been claimed.
  pub holder_waits_not : Holds x at → is_waiting t.state ≡ false
  holder_waits_not h = elim (Bool-cases (is_waiting t.state)) [
    | inl w ↦ absurd (Holds-ne x at h (unclaimed w))
    | inr w ↦ w
  ]

  pub Move-Follows : {l l' : Leadership} → Move x t at t' m → Follows l l' t t'
  Move-Follows (claims a text own c e f) =
      steps (to_state (ground arith) (Graph.claim (claim_waiting x t at a c))) (ground arith)
  Move-Follows (reviews s text sub (inl p) e f) =
      steps (to_state (ground arith) (from_state (submitted_is t.state sub) Graph.accept))
        (ground arith)
  Move-Follows (reviews s text sub (inr p) e f) =
      steps (to_state (ground arith) (from_state (submitted_is t.state sub) Graph.reject))
        (ground arith)
  Move-Follows (drops text (inl w) e f) =
      steps (to_state (ground arith) (Graph.drop w)) (ground arith)
  Move-Follows (drops text (inr sub) e f) =
      steps (to_state (ground arith) (from_state (submitted_is t.state sub) Graph.withdraw))
        (ground arith)
  Move-Follows (recalls text w sub ter e f) =
      steps (to_state (ground arith) (Graph.recall (active_of t.state w ter sub))) (ground arith)
  Move-Follows (resolves text a e f) =
      steps (to_state (ground arith) (Graph.give_up a)) (ground arith)
  Move-Follows (retries target text ter open_work room e f) =
      steps (to_state (ground arith) (Graph.retry ter (not_completed t.state open_work)))
        (ground arith)
  Move-Follows (adopts f keeps holds act e g) =
      rests (ground arith) (ground arith) (λ w. absurd (active-not_waiting t.state act w))
  Move-Follows (reports s f text keeps holds ter sub r e g) =
      steps
        (to_state (ground arith)
          (Report-⟶ t.state s (active_of t.state (holder_waits_not holds) ter sub) r))
        (ground arith)
