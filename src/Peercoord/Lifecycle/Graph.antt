-- ===== src/Peercoord/Lifecycle/Graph.antt =====
-- The states of a task and the steps between them, with all else left out.
use rysh_cli_shared.Prelude.{true, ◌≡◌, refl, ◌≢◌, arith, inc64}
use rysh_cli_shared.Peercoord.Types.{
  Task, Leadership, TaskState, offered, claimed, running, blocked, waiting_local_input,
  cancel_requested, needs_reconciliation, result_submitted, completed, failed, cancelled,
  is_terminal, is_active,
}
use rysh_cli_shared.Peercoord.Registry.{is_waiting}

infix 40 ◌⟶◌ ◌⟶*◌
pub data ◌⟶◌ : TaskState → TaskState → Type 0 where
  claim : {s : TaskState} → is_waiting s ≡ true → s ⟶ claimed
  run : {s : TaskState} → is_active s ≡ true → s ≢ cancel_requested → s ⟶ running
  block : {s : TaskState} → is_active s ≡ true → s ≢ cancel_requested → s ⟶ blocked
  wait : {s : TaskState} → is_active s ≡ true → s ≢ cancel_requested → s ⟶ waiting_local_input
  submit : {s : TaskState} → is_active s ≡ true → s ≢ cancel_requested → s ⟶ result_submitted
  lose : {s : TaskState} → is_active s ≡ true → s ⟶ needs_reconciliation
  give_up : {s : TaskState} → is_active s ≡ true → s ⟶ failed
  recall : {s : TaskState} → is_active s ≡ true → s ⟶ cancel_requested
  drop : {s : TaskState} → is_waiting s ≡ true → s ⟶ cancelled
  withdraw : result_submitted ⟶ cancelled
  stop : cancel_requested ⟶ cancelled
  accept : result_submitted ⟶ completed
  reject : result_submitted ⟶ failed
  retry : {s : TaskState} → is_terminal s ≡ true → s ≢ completed → s ⟶ offered

pub data ◌⟶*◌ : TaskState → TaskState → Type 0 where
  here : {s : TaskState} → s ⟶* s
  then : {s t u : TaskState} → s ⟶ t → t ⟶* u → s ⟶* u

pub ⟶*-trans : {s t u : TaskState} → s ⟶* t → t ⟶* u → s ⟶* u
⟶*-trans here k = k
⟶*-trans (then e h) k = then e (⟶*-trans h k)

-- No step leaves `completed`.
pub completed_final : {s t : TaskState} → s ≡ completed → s ⟶ t → ⊥
unfolding is_waiting is_active is_terminal
completed_final e (claim h) = ground arith
completed_final e (run h n) = ground arith
completed_final e (block h n) = ground arith
completed_final e (wait h n) = ground arith
completed_final e (submit h n) = ground arith
completed_final e (lose h) = ground arith
completed_final e (give_up h) = ground arith
completed_final e (recall h) = ground arith
completed_final e (drop h) = ground arith
completed_final e withdraw = ground arith
completed_final e stop = ground arith
completed_final e accept = ground arith
completed_final e reject = ground arith
completed_final e (retry h n) = ground arith

-- A terminal state is left by a retry alone.
pub terminal_step :
    {s t : TaskState} → is_terminal s ≡ true → s ⟶ t → (t ≡ offered) × (s ≢ completed)
unfolding is_waiting is_active is_terminal
terminal_step e (claim h) = ground arith
terminal_step e (run h n) = ground arith
terminal_step e (block h n) = ground arith
terminal_step e (wait h n) = ground arith
terminal_step e (submit h n) = ground arith
terminal_step e (lose h) = ground arith
terminal_step e (give_up h) = ground arith
terminal_step e (recall h) = ground arith
terminal_step e (drop h) = ground arith
terminal_step e withdraw = ground arith
terminal_step e stop = ground arith
terminal_step e accept = ground arith
terminal_step e reject = ground arith
terminal_step e (retry h n) = (refl, n)

-- What one accepted request, between these leaderships, does to a task: nothing, or a write that
-- leaves its state and its version (a lease), which is not enough for a waiting task where the term
-- moves; the new leadership for a waiting task; or a step of the graph with the next version.
pub data Follows (l l' : Leadership) (t t' : Task) : Type 0 where
  rests :
      t'.state ≡ t.state
      → t'.version ≡ t.version
      → (is_waiting t.state ≡ true → l'.term ≡ l.term)
      → Follows l l' t t'
  reoffered :
      is_waiting t.state ≡ true
      → t'.state ≡ t.state
      → t'.version ≡ inc64 t.version
      → t'.leader_id ≡ l'.agent_id
      → t'.leader_term ≡ l'.term
      → Follows l l' t t'
  steps : t.state ⟶ t'.state → t'.version ≡ inc64 t.version → Follows l l' t t'
