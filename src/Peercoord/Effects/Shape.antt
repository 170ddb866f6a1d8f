-- ===== src/Peercoord/Effects/Shape.antt =====
-- The shapes in which an operation of peercoord/engine.go may change the tasks and the credentials of
-- their executions.
use rysh_cli_shared.Prelude.{
  String, Bool, true, false, ◌≡◌, ◌⊎◌, ◌<◌, some, List, Map, lookup, insert, delete, map_values,
  length, ok,
}
use rysh_cli_shared.Peercoord.Types.{
  Peer, Agent, Attempt, Task, TaskState, claimed, running, blocked, waiting_local_input,
  cancel_requested, needs_reconciliation, result_submitted, completed, failed, cancelled, offered,
  current, is_terminal, is_active,
}
use rysh_cli_shared.Peercoord.Text.{token_matches}
use rysh_cli_shared.Peercoord.Transition.{Transition, secret, own_agent}
use rysh_cli_shared.Peercoord.Registry.{is_waiting, hand_over}
use rysh_cli_shared.Peercoord.Board.{beat_task}
use rysh_cli_shared.Peercoord.Tasks.{
  changed, new_task, is_completed, is_submitted, is_claimed, is_cancel_requested,
}
use rysh_cli_shared.Peercoord.Work.{with_current, reassigned, check_claim, take_claim}

abbrev pub tasks_of : Transition → Map Task
tasks_of x = x.store.state.tasks

abbrev pub secrets_of : Transition → Map String
secrets_of x = x.store.execution_secrets

-- The caller holds the credential of the attempt's execution.
abbrev pub Holds : Transition → Attempt → Type 0
Holds x at = token_matches x.env x.auth.execution_token (secret at.id (secrets_of x)) ≡ true

-- The states to which the holder of a running execution may move its task.
pub data Report (s : TaskState) : TaskState → Type 0 where
  started : is_claimed s ≡ true → Report s running
  works : is_cancel_requested s ≡ false → Report s running
  blocks : is_cancel_requested s ≡ false → Report s blocked
  waits : is_cancel_requested s ≡ false → Report s waiting_local_input
  submits : is_cancel_requested s ≡ false → Report s result_submitted
  fails : Report s failed
  stops : is_cancel_requested s ≡ true → Report s cancelled
  loses : Report s needs_reconciliation

-- A write to the current attempt that keeps its identity.
pub record KeepsId (f : Attempt → Attempt) : Type 0 where
  pub id : (a : Attempt) → (f a).id ≡ a.id
  pub state : (a : Attempt) → (f a).state ≡ a.state
  pub agent : (a : Attempt) → (f a).agent_id ≡ a.agent_id

-- From a task and its current attempt: the new task, and the new credentials.
pub data Move (x : Transition) (t : Task) (at : Attempt) (t' : Task) (m : Map String) : Type 0 where
  claims :
      (a : Agent) (text : String)
      → own_agent x ≡ ok a
      → check_claim a t at x ≡ ok tt
      → t' ≡ changed claimed text x.now (with_current (take_claim x) t)
      → m ≡ insert at.id (x.env.sha256_hex x.auth.execution_token) (secrets_of x)
      → Move x t at t' m
  reviews :
      (s : TaskState) (text : String)
      → is_submitted t.state ≡ true
      → (s ≡ completed) ⊎ (s ≡ failed)
      → t' ≡ changed s text x.now t
      → m ≡ secrets_of x
      → Move x t at t' m
  drops :
      (text : String)
      → (is_waiting t.state ≡ true) ⊎ (is_submitted t.state ≡ true)
      → t' ≡ changed cancelled text x.now t
      → m ≡ secrets_of x
      → Move x t at t' m
  recalls :
      (text : String)
      → is_waiting t.state ≡ false
      → is_submitted t.state ≡ false
      → is_terminal t.state ≡ false
      → t' ≡ changed cancel_requested text x.now t
      → m ≡ secrets_of x
      → Move x t at t' m
  resolves :
      (text : String)
      → is_active t.state ≡ true
      → t' ≡ changed failed text x.now t
      → m ≡ delete at.id (secrets_of x)
      → Move x t at t' m
  retries :
      (target : Agent) (text : String)
      → is_terminal t.state ≡ true
      → is_completed t.state ≡ false
      → length t.attempts < 20
      → t' ≡ changed offered text x.now (reassigned target x t)
      → m ≡ delete at.id (secrets_of x)
      → Move x t at t' m
  adopts :
      (f : Attempt → Attempt)
      → KeepsId f
      → Holds x at
      → is_active t.state ≡ true
      → t' ≡ with_current f t
      → m ≡ secrets_of x
      → Move x t at t' m
  reports :
      (s : TaskState) (f : Attempt → Attempt) (text : String)
      → KeepsId f
      → Holds x at
      → is_terminal t.state ≡ false
      → is_submitted t.state ≡ false
      → Report t.state s
      → t' ≡ changed s text x.now (with_current f t)
      → m ≡ secrets_of x
      → Move x t at t' m

pub data Effect (x y : Transition) : Type 0 where
  untouched : tasks_of y ≡ tasks_of x → secrets_of y ≡ secrets_of x → Effect x y
  handed :
      tasks_of y
        ≡ map_values
            (hand_over y.store.state.leadership.agent_id y.store.state.leadership.term x.now)
            (tasks_of x)
      → secrets_of y ≡ secrets_of x
      → Effect x y
  beaten :
      (p : Peer) (z : Transition)
      → tasks_of y ≡ map_values (beat_task p z) (tasks_of x)
      → secrets_of y ≡ secrets_of x
      → Effect x y
  added :
      (boss target : Agent) (deps : List String) (ready : Bool)
      → (t : Task) → t ≡ new_task boss target deps ready x
      → tasks_of y ≡ insert t.id t (tasks_of x)
      → secrets_of y ≡ secrets_of x
      → Effect x y
  moved :
      (k : String) (t : Task) (at : Attempt) (t' : Task) (m : Map String)
      → lookup k (tasks_of x) ≡ some t
      → current t ≡ some at
      → Move x t at t' m
      → tasks_of y ≡ insert k t' (tasks_of x)
      → secrets_of y ≡ m
      → Effect x y
