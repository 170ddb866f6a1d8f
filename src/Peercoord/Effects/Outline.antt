-- ===== src/Peercoord/Effects/Outline.antt =====
-- What an accepted operation does besides the tasks: the leader's term, the events, and whether the
-- store has been set up.
use rysh_cli_shared.Prelude.{
  String, Bool, true, false, List, [], ◌∷◌, ◌≡◌, inl, inr, ok, some, arith, Result-cases,
  Option-cases, Bool-cases, ◌==◌, inc64,
}
use rysh_cli_shared.Peercoord.Types.{Peer, Agent, Task, TaskState, Attempt, Event, current}
use rysh_cli_shared.Peercoord.Transition.{Transition, event, peer, resolve_task}
use rysh_cli_shared.Peercoord.Registry.{
  join, join_as, rejoin, add_peer, register, register_as, add_agent, appoint,
}
use rysh_cli_shared.Peercoord.Board.{
  register_op, join_op, init_op, heartbeat, leave, as_leader, enabled_by,
}
use rysh_cli_shared.Peercoord.Leaders.{handover, standbys, acquire, pause, message}
use rysh_cli_shared.Peercoord.Tasks.{change, assign}
use rysh_cli_shared.Peercoord.Work.{
  TaskOp, claim, review, cancel, resolve, retry, adopt, claim_task, review_task, cancel_task,
  resolve_attempt, retry_task, execution,
}
use rysh_cli_shared.Peercoord.Execution.{
  adopt_task, start_task, progress_task, submit_result, run_execution, execute, run_task, task,
}
use rysh_cli_shared.Peercoord.Engine.{Op, run_op, run_enabled, run_authenticated, run_board}

-- No event, or one that carries the request's id.
abbrev pub IsOwn : String → List Event → Type 0
IsOwn id [] = Unit
IsOwn id (e ∷ []) = e.id ≡ id
IsOwn id (e ∷ f ∷ es) = ⊥

-- The operations that appoint a leader.
unfoldable pub appoints : Op → Bool
appoints Op.init = true
appoints Op.handover_op = true
appoints Op.acquire_op = true
appoints _ = false

pub record Outline (moves : Bool) (x y : Transition) : Type 0 where
  pub nil : y.store.state.peers_nil ≡ x.store.state.peers_nil
  pub moved : moves ≡ true → y.store.state.leadership.term ≡ inc64 x.store.state.leadership.term
  pub stayed :
      moves ≡ false
      → (y.store.state.leadership.agent_id ≡ x.store.state.leadership.agent_id)
        × (y.store.state.leadership.term ≡ x.store.state.leadership.term)
  pub own : IsOwn x.request.id y.events

-- Joining and registering leave these alone, and emit nothing.
pub record Same (x y : Transition) : Type 0 where
  pub nil : y.store.state.peers_nil ≡ x.store.state.peers_nil
  pub leadership : y.store.state.leadership ≡ x.store.state.leadership
  pub events : y.events ≡ x.events
  pub id : y.request.id ≡ x.request.id

join-Same : (x : Transition) {p : Peer} {y : Transition} → join x ≡ ok (p, y) → Same x y
unfolding join join_as rejoin add_peer
join-Same x h = ground arith

register-Same :
    (p : Peer) (x : Transition) {a : Agent} {y : Transition} → register p x ≡ ok (a, y) → Same x y
unfolding register register_as add_agent
register-Same p x h = ground arith

appoint-Outline :
    (x z : Transition) (a : Agent) {y : Transition}
    → z.events ≡ []
    → z.request.id ≡ x.request.id
    → z.store.state.peers_nil ≡ x.store.state.peers_nil
    → z.store.state.leadership ≡ x.store.state.leadership
    → y ≡ appoint a z
    → Outline true x y
unfolding appoint event
appoint-Outline x z a q i n l h = ground arith

change-Outline :
    (k : String) (t : Task) (s : TaskState) (kind to text : String) (x : Transition)
    {y : Transition}
    → x.events ≡ []
    → change k t s kind to text x ≡ ok y
    → Outline false x y
unfolding change event
change-Outline k t s kind to text x q h = ground arith

module _ (x : Transition) {y : Transition} (quiet : x.events ≡ []) where
  init-Outline : init_op x ≡ ok y → Outline true x y
  unfolding init_op
  init-Outline h = elim (Result-cases (join x)) [
    | inr (e, p) ↦ absurd (ground arith)
    | inl ((q, z), p) ↦ elim (Result-cases (register q (as_leader z))) [
      | inr (e, r) ↦ absurd (ground arith)
      | inl ((a, w), r) ↦
          let s = join-Same x {p = q} {y = z} p in
          let t = register-Same q (as_leader z) {a = a} {y = w} r in
          appoint-Outline x (enabled_by q a w) a (ground (arith, s, t)) (ground (arith, s, t))
            (ground (arith, s, t)) (ground (arith, s, t)) (ground arith)
    ]
  ]

  join-Outline : join_op x ≡ ok y → Outline false x y
  unfolding join_op event
  join-Outline h = elim (Result-cases (join x)) [
    | inr (e, p) ↦ absurd (ground arith)
    | inl ((q, z), p) ↦
        let z' = record z { response = record z.response { peer = some q } } in
        let s = join-Same x {p = q} {y = z} p in
        elim (Bool-cases (z.request.name == "")) [
          | inl e ↦ ground (arith, s)
          | inr e ↦ elim (Result-cases (register q z')) [
            | inr (c, r) ↦ absurd (ground arith)
            | inl ((a, w), r) ↦ ground (arith, s, register-Same q z' {a = a} {y = w} r)
          ]
        ]
  ]

  register-Outline : (p : Peer) → register_op p x ≡ ok y → Outline false x y
  unfolding register_op event
  register-Outline p h = elim (Result-cases (register p x)) [
    | inr (e, r) ↦ absurd (ground arith)
    | inl ((a, z), r) ↦ ground (arith, register-Same p x {a = a} {y = z} r)
  ]

  heartbeat-Outline : (p : Peer) → y ≡ heartbeat p x → Outline false x y
  unfolding heartbeat
  heartbeat-Outline p h = ground arith

  leave-Outline : (p : Peer) → leave p x ≡ ok y → Outline false x y
  unfolding leave event
  leave-Outline p h = ground arith

  handover-Outline : handover x ≡ ok y → Outline true x y
  unfolding handover appoint event
  handover-Outline h = ground arith

  standbys-Outline : standbys x ≡ ok y → Outline false x y
  unfolding standbys event
  standbys-Outline h = ground arith

  acquire-Outline : acquire x ≡ ok y → Outline true x y
  unfolding acquire appoint event
  acquire-Outline h = ground arith

  pause-Outline : pause x ≡ ok y → Outline false x y
  unfolding pause event
  pause-Outline h = ground arith

  message-Outline : (b : Bool) → message b x ≡ ok y → Outline false x y
  unfolding message event
  message-Outline b h = ground arith

  assign-Outline : assign x ≡ ok y → Outline false x y
  unfolding assign event
  assign-Outline h = ground arith

  claim-Outline :
      (k : String) (t : Task) (at : Attempt) → claim_task k t at x ≡ ok y → Outline false x y
  unfolding claim_task change event
  claim-Outline k t at h = ground arith

  review-Outline : (k : String) (t : Task) → review_task k t x ≡ ok y → Outline false x y
  unfolding review_task change event
  review-Outline k t h = ground arith

  cancel-Outline : (k : String) (t : Task) → cancel_task k t x ≡ ok y → Outline false x y
  unfolding cancel_task change event
  cancel-Outline k t h = ground arith

  resolve-Outline :
      (k : String) (t : Task) (at : Attempt) → resolve_attempt k t at x ≡ ok y → Outline false x y
  unfolding resolve_attempt change event
  resolve-Outline k t at h = ground arith

  retry-Outline :
      (k : String) (t : Task) (at : Attempt) → retry_task k t at x ≡ ok y → Outline false x y
  unfolding retry_task change event
  retry-Outline k t at h = ground arith

  run_execution-Outline :
      (op : TaskOp) (k : String) (t : Task) (at : Attempt)
      → run_execution op k t at x ≡ ok y
      → Outline false x y
  unfolding run_execution adopt_task start_task progress_task submit_result change event
  run_execution-Outline adopt k t at h = ground arith
  run_execution-Outline _ k t at h = ground arith

  execute-Outline :
      (op : TaskOp) (k : String) (t : Task) → execute op k t x ≡ ok y → Outline false x y
  unfolding execute
  execute-Outline op k t h = elim (Result-cases (execution op t x)) [
    | inr (e, p) ↦ absurd (ground arith)
    | inl (at, p) ↦ run_execution-Outline op k t at (ground arith)
  ]

  run_task-Outline :
      (op : TaskOp) (k : String) (t : Task) (at : Attempt)
      → run_task op k t at x ≡ ok y
      → Outline false x y
  unfolding run_task
  run_task-Outline claim k t at h = claim-Outline k t at h
  run_task-Outline review k t at h = review-Outline k t h
  run_task-Outline cancel k t at h = cancel-Outline k t h
  run_task-Outline resolve k t at h = resolve-Outline k t at h
  run_task-Outline retry k t at h = retry-Outline k t at h
  run_task-Outline op k t at h = execute-Outline op k t h

  task-Outline : (op : TaskOp) → task op x ≡ ok y → Outline false x y
  unfolding task
  task-Outline op h = elim (Result-cases (resolve_task x.store.state x.request.task_id)) [
    | inr (e, p) ↦ absurd (ground arith)
    | inl ((k, t), p) ↦ elim (Option-cases (current t)) [
      | inl e ↦ absurd (ground arith)
      | inr (at, c) ↦ run_task-Outline op k t at (ground arith)
    ]
  ]

  run_board-Outline : (op : Op) (p : Peer) → run_board op p x ≡ ok y → Outline (appoints op) x y
  unfolding run_board appoints
  run_board-Outline Op.register p h = register-Outline p h
  run_board-Outline Op.heartbeat_op p h = heartbeat-Outline p (ground arith)
  run_board-Outline Op.leave_op p h = leave-Outline p h
  run_board-Outline Op.handover_op p h = handover-Outline h
  run_board-Outline Op.standbys_op p h = standbys-Outline h
  run_board-Outline Op.acquire_op p h = acquire-Outline h
  run_board-Outline Op.pause_op p h = pause-Outline h
  run_board-Outline Op.send p h = message-Outline false h
  run_board-Outline Op.objective p h = message-Outline true h
  run_board-Outline Op.assign_op p h = assign-Outline h
  run_board-Outline (Op.task_op op) p h = task-Outline op h
  run_board-Outline _ p h = absurd (ground arith)

  run_authenticated-Outline : (op : Op) → run_authenticated op x ≡ ok y → Outline (appoints op) x y
  unfolding run_authenticated
  run_authenticated-Outline op h = elim (Result-cases (peer x)) [
    | inr (e, p) ↦ absurd (ground arith)
    | inl (q, p) ↦ run_board-Outline op q (ground arith)
  ]

  run_enabled-Outline : (op : Op) → run_enabled op x ≡ ok y → Outline (appoints op) x y
  unfolding run_enabled appoints
  run_enabled-Outline Op.join h = join-Outline h
  run_enabled-Outline op h = run_authenticated-Outline op h

  -- Every accepted operation has this outline.
  pub run_op-Outline : (op : Op) → run_op op x ≡ ok y → Outline (appoints op) x y
  unfolding run_op appoints
  run_op-Outline Op.init h = init-Outline h
  run_op-Outline op h = run_enabled-Outline op (ground arith)
