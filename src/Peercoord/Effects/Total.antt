-- ===== src/Peercoord/Effects/Total.antt =====
-- The shape of `Effect` of an accepted request (peercoord/engine.go).
use rysh_cli_shared.Prelude.{
  String, Bool, ◌≡◌, map_values, refl, sym, ap, inl, inr, [], true, false, Bool-cases, ok, some,
  arith, IsMap, lookup, find_entry-lookup, Result-cases, Option-cases, ◌==◌,
}
use rysh_cli_shared.Peercoord.Types.{Peer, Agent, Task, current}
use rysh_cli_shared.Peercoord.Transition.{
  Transition, event, peer, own_agent, leader, resolve_agent, resolve_task, equal_fold, task_label,
}
use rysh_cli_shared.Peercoord.Registry.{join, register, appoint, hand_over}
use rysh_cli_shared.Peercoord.Board.{
  register_op, join_op, init_op, heartbeat, leave, as_leader, enabled_by,
}
use rysh_cli_shared.Peercoord.Leaders.{handover, standbys, acquire, pause, message}
use rysh_cli_shared.Peercoord.Tasks.{assign, collect_dependencies, new_task}
use rysh_cli_shared.Peercoord.Work.{TaskOp}
use rysh_cli_shared.Peercoord.Execution.{task}
use rysh_cli_shared.Peercoord.Engine.{Op, run_op, run_enabled, run_authenticated, run_board}
use rysh_cli_shared.Peercoord.Effects.Outline.{appoints}
use rysh_cli_shared.Peercoord.Effects.Frame.{
  SameWork, SameWork-refl, join-SameWork, register-SameWork,
}
use rysh_cli_shared.Peercoord.Effects.Shape.{
  tasks_of, secrets_of, Effect, untouched, handed, beaten, added, moved,
}
use rysh_cli_shared.Peercoord.Effects.Moves.{run_task-Moved}

-- A reference to a task is resolved to the entry at the key that is returned.
pub resolve_task-lookup :
    (x : Transition) (ref : String) {k : String} {t : Task}
    → IsMap (tasks_of x)
    → resolve_task x.store.state ref ≡ ok (k, t)
    → lookup k (tasks_of x) ≡ some t
unfolding resolve_task
resolve_task-lookup x ref {k} {t} u h = ground (
  arith,
  find_entry-lookup (λ (v : Task). equal_fold (task_label v) ref) (tasks_of x) {k = k} {v = t} u,
)

-- Each task is handed over to the leader that is appointed, and no credential changes.
pub record Handed (x y : Transition) : Type 0 where
  pub tasks :
      tasks_of y
      ≡ map_values
          (hand_over y.store.state.leadership.agent_id y.store.state.leadership.term x.now)
          (tasks_of x)
  pub secrets : secrets_of y ≡ secrets_of x

Handed-Effect : {x y : Transition} → Handed x y → Effect x y
Handed-Effect h = handed h.tasks h.secrets

appoint-Handed :
    (x z : Transition) (a : Agent) {y : Transition} → SameWork x z → y ≡ appoint a z → Handed x y
unfolding appoint event
appoint-Handed x z a same h = record { tasks = ground arith; secrets = ground arith }

-- A join that registers an endpoint, where the request names one.
join_op-SameWork : (x : Transition) {y : Transition} → join_op x ≡ ok y → SameWork x y
unfolding join_op event
join_op-SameWork x {y} h = elim (Result-cases (join x)) [
  | inr (e, p) ↦ absurd (ground arith)
  | inl ((q, z), p) ↦
      let z' = record z { response = record z.response { peer = some q } } in
      let joined = join-SameWork x {p = q} {y = z} p in
      elim (Bool-cases (z.request.name == "")) [
        | inl e ↦ ground (arith, joined)
        | inr e ↦ elim (Result-cases (register q z')) [
          | inr (c, r) ↦ absurd (ground arith)
          | inl ((a, w), r) ↦ ground (arith, joined, register-SameWork q z' {a = a} {y = w} r)
        ]
      ]
]

module _ (x : Transition) {y : Transition} where
  init_op-Handed : init_op x ≡ ok y → Handed x y
  unfolding init_op
  init_op-Handed h = elim (Result-cases (join x)) [
    | inr (e, p) ↦ absurd (ground arith)
    | inl ((q, z), p) ↦ elim (Result-cases (register q (as_leader z))) [
      | inr (e, r) ↦ absurd (ground arith)
      | inl ((a, w), r) ↦
          let joined = join-SameWork x {p = q} {y = z} p in
          let listed = register-SameWork q (as_leader z) {a = a} {y = w} r in
          appoint-Handed x (enabled_by q a w) a (ground (arith, joined, listed)) (ground arith)
    ]
  ]

  join_op-Effect : join_op x ≡ ok y → Effect x y
  join_op-Effect h = let same = join_op-SameWork x {y = y} h in untouched same.tasks same.secrets

  pause-Effect : pause x ≡ ok y → Effect x y
  unfolding pause event
  pause-Effect h = untouched (ground arith) (ground arith)

  message-Effect : (b : Bool) → message b x ≡ ok y → Effect x y
  unfolding message event
  message-Effect b h = untouched (ground arith) (ground arith)

  standbys-Effect : standbys x ≡ ok y → Effect x y
  unfolding standbys event
  standbys-Effect h = untouched (ground arith) (ground arith)

  handover-Handed : handover x ≡ ok y → Handed x y
  unfolding handover
  handover-Handed h = elim (Result-cases (resolve_agent x.store.state x.request.target)) [
    | inr (e, p) ↦ absurd (ground arith)
    | inl (a, p) ↦ appoint-Handed x x a (SameWork-refl x) (ground arith)
  ]

  acquire-Handed : acquire x ≡ ok y → Handed x y
  unfolding acquire
  acquire-Handed h = elim (Result-cases (own_agent x)) [
    | inr (e, p) ↦ absurd (ground arith)
    | inl (a, p) ↦ appoint-Handed x x a (SameWork-refl x) (ground arith)
  ]

  register_op-Effect : (p : Peer) → register_op p x ≡ ok y → Effect x y
  unfolding register_op event
  register_op-Effect p h = elim (Result-cases (register p x)) [
    | inr (e, r) ↦ absurd (ground arith)
    | inl ((a, z), r) ↦
        let same = register-SameWork p x {a = a} {y = z} r in
        untouched (ground (arith, same)) (ground (arith, same))
  ]

  leave-Effect : (p : Peer) → leave p x ≡ ok y → Effect x y
  unfolding leave event
  leave-Effect p h = untouched (ground arith) (ground arith)

  heartbeat-Effect : (p : Peer) → heartbeat p x ≡ y → Effect x y
  unfolding heartbeat
  heartbeat-Effect p h = beaten p _ (sym (ap tasks_of h)) (sym (ap secrets_of h))

  assign-Effect : assign x ≡ ok y → Effect x y
  unfolding assign event
  assign-Effect h = elim (Result-cases (leader x)) [
    | inr (e, p) ↦ absurd (ground arith)
    | inl (boss, p) ↦ elim (Result-cases (resolve_agent x.store.state x.request.target)) [
      | inr (e, q) ↦ absurd (ground arith)
      | inl (target, q) ↦
          elim (Result-cases (collect_dependencies x.store.state [] true x.request.dependencies)) [
            | inr (e, r) ↦ absurd (ground arith)
            | inl ((deps, ready), r) ↦
                added boss target deps ready (new_task boss target deps ready x) refl (ground arith)
                  (ground arith)
          ]
    ]
  ]

  task-Effect : (op : TaskOp) → IsMap (tasks_of x) → task op x ≡ ok y → Effect x y
  unfolding task
  task-Effect op u h = elim (Result-cases (resolve_task x.store.state x.request.task_id)) [
    | inr (e, p) ↦ absurd (ground arith)
    | inl ((k, t), p) ↦ elim (Option-cases (current t)) [
      | inl e ↦ absurd (ground arith)
      | inr (at, c) ↦
          let m = run_task-Moved x k t at {y = y} op c (ground arith) in
          moved k t at m.task m.secrets (resolve_task-lookup x x.request.task_id u p) c m.move
            m.tasks_eq m.secrets_eq
    ]
  ]

  run_board-Effect :
      (op : Op) (p : Peer) → IsMap (tasks_of x) → run_board op p x ≡ ok y → Effect x y
  unfolding run_board
  run_board-Effect Op.register p u h = register_op-Effect p h
  run_board-Effect Op.heartbeat_op p u h = heartbeat-Effect p (ground arith)
  run_board-Effect Op.leave_op p u h = leave-Effect p h
  run_board-Effect Op.handover_op p u h = Handed-Effect (handover-Handed h)
  run_board-Effect Op.standbys_op p u h = standbys-Effect h
  run_board-Effect Op.acquire_op p u h = Handed-Effect (acquire-Handed h)
  run_board-Effect Op.pause_op p u h = pause-Effect h
  run_board-Effect Op.send p u h = message-Effect false h
  run_board-Effect Op.objective p u h = message-Effect true h
  run_board-Effect Op.assign_op p u h = assign-Effect h
  run_board-Effect (Op.task_op op) p u h = task-Effect op u h
  run_board-Effect _ p u h = absurd (ground arith)

  run_authenticated-Effect :
      (op : Op) → IsMap (tasks_of x) → run_authenticated op x ≡ ok y → Effect x y
  unfolding run_authenticated
  run_authenticated-Effect op u h = elim (Result-cases (peer x)) [
    | inr (e, p) ↦ absurd (ground arith)
    | inl (q, p) ↦ run_board-Effect op q u (ground arith)
  ]

  run_enabled-Effect : (op : Op) → IsMap (tasks_of x) → run_enabled op x ≡ ok y → Effect x y
  unfolding run_enabled
  run_enabled-Effect Op.join u h = join_op-Effect h
  run_enabled-Effect op u h = run_authenticated-Effect op u h

  -- Every accepted operation has one of the shapes of `Effect`.
  pub run_op-Effect : (op : Op) → IsMap (tasks_of x) → run_op op x ≡ ok y → Effect x y
  unfolding run_op
  run_op-Effect Op.init u h = Handed-Effect (init_op-Handed h)
  run_op-Effect op u h = run_enabled-Effect op u (ground arith)

  -- An accepted operation that appoints a leader hands each task over.
  pub run_op-Handed : (op : Op) → appoints op ≡ true → run_op op x ≡ ok y → Handed x y
  unfolding run_op run_enabled run_authenticated run_board appoints
  run_op-Handed Op.init m h = init_op-Handed h
  run_op-Handed Op.handover_op m h = elim (Result-cases (peer x)) [
    | inr (e, p) ↦ absurd (ground arith)
    | inl (q, p) ↦ handover-Handed (ground arith)
  ]
  run_op-Handed Op.acquire_op m h = elim (Result-cases (peer x)) [
    | inr (e, p) ↦ absurd (ground arith)
    | inl (q, p) ↦ acquire-Handed (ground arith)
  ]
  run_op-Handed _ m h = absurd (ground arith)
