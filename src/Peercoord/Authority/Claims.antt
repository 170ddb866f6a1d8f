-- ===== src/Peercoord/Authority/Claims.antt =====
-- "task.claim" of peercoord/engine.go: what must hold when a worker takes a task, and what it gets.
use rysh_cli_shared.Prelude.{
  ℕ, ◌+◌, ◌<◌, String, true, false, ◌≡◌, refl, sym, subst, ok, some, inl, inr, arith, lookup,
  insert, lookup-insert, eq_refl, Result-cases, Option-cases, str_eq→eq, all, inc64, count_values,
  slt,
}
use rysh_cli_shared.Peercoord.Types.{
  Peer, Agent, Attempt, Task, claimed, Store, Request, Auth, Env, current, lease_duration,
}
use rysh_cli_shared.Peercoord.Transition.{Transition, own_agent, peer, resolve_task, is_ready}
use rysh_cli_shared.Peercoord.Registry.{is_waiting}
use rysh_cli_shared.Peercoord.Tasks.{changed, close_attempt}
use rysh_cli_shared.Peercoord.Work.{
  claim, check_claim, check_worker, claim_task, is_done, take_claim, with_current, works_for,
  set_secrets,
}
use rysh_cli_shared.Peercoord.Execution.{task, run_task}
use rysh_cli_shared.Peercoord.Engine.{
  Op, transact, run_op, run_enabled, run_authenticated, run_board, op_of, begin, working_copy,
}
use rysh_cli_shared.Peercoord.Effects.Shape.{tasks_of}
use rysh_cli_shared.Peercoord.Effects.Moves.{change-ok}
use rysh_cli_shared.Peercoord.Effects.Total.{resolve_task-lookup}
use rysh_cli_shared.Peercoord.Lifecycle.Sound.{WellFormed}
use rysh_cli_shared.Peercoord.Lifecycle.Identity.{current-changed_with}
use rysh_cli_shared.Peercoord.Lifecycle.Requests.{transact-runs}

-- The worker's peer is ready, and its lease has not run out.
pub record IsLive (x : Transition) (a : Agent) : Type 0 where
  pub peer : Peer
  pub found : lookup a.peer_id x.store.state.peers ≡ some peer
  pub ready : is_ready peer.state ≡ true
  pub in_lease : x.now < peer.lease_until

check_worker-IsLive :
    (x : Transition) (a : Agent) → check_worker a x.store.state x.now ≡ ok tt → IsLive x a
unfolding check_worker
check_worker-IsLive x a h = elim (Option-cases (lookup a.peer_id x.store.state.peers)) [
  | inl e ↦ absurd (ground arith)
  | inr (p, e) ↦ record { peer = p; found = e; ready = ground arith; in_lease = ground arith }
]

pub record MayClaim (x : Transition) (a : Agent) (t : Task) (at : Attempt) : Type 0 where
  pub worker : t.agent_id ≡ a.id
  pub attempt : x.request.attempt_id ≡ at.id
  pub unpaused : x.store.state.paused ≡ false
  pub agent_ready : a.ready ≡ true
  pub live : IsLive x a
  pub waits : is_waiting t.state ≡ true
  pub version : t.version ≡ x.request.task_version
  pub term : t.leader_term ≡ x.store.state.leadership.term
  pub leader_lease : x.now < x.store.state.leadership.lease_until
  pub dependencies : all (λ id. is_done (lookup id (tasks_of x))) t.dependencies ≡ true
  pub room : slt (count_values (works_for a.id) (tasks_of x)) a.max_active ≡ true

check_claim-MayClaim :
    (x : Transition) (a : Agent) (t : Task) (at : Attempt)
    → check_claim a t at x ≡ ok tt
    → MayClaim x a t at
unfolding check_claim
check_claim-MayClaim x a t at h = record {
  worker = str_eq→eq _ _ (ground arith);
  attempt = str_eq→eq _ _ (ground arith);
  unpaused = unfold check_worker in ground arith;
  agent_ready = unfold check_worker in ground arith;
  live = check_worker-IsLive x a (ground arith);
  waits = ground arith;
  version = ground arith;
  term = ground arith;
  leader_lease = ground arith;
  dependencies = ground arith;
  room = ground arith;
}

claim_runs :
    (x : Transition) {z : Transition} → run_op (Op.task_op claim) x ≡ ok z → task claim x ≡ ok z
unfolding run_op run_enabled run_authenticated run_board
claim_runs x h = elim (Result-cases (peer x)) [
  | inr (e, p) ↦ absurd (ground arith)
  | inl (q, p) ↦ ground arith
]

-- A task that was claimed, by whom, and what it became.
pub record Claimed (x y : Transition) : Type 0 where
  pub key : String
  pub task : Task
  pub attempt : Attempt
  pub worker : Agent
  pub found : lookup key (tasks_of x) ≡ some task
  pub is_current : current task ≡ some attempt
  pub own : own_agent x ≡ ok worker
  pub may : MayClaim x worker task attempt
  pub task' : Task
  pub stored : lookup key (tasks_of y) ≡ some task'
  pub state : task'.state ≡ claimed
  pub bumped : task'.version ≡ inc64 task.version
  pub attempt' : Attempt
  pub is_current' : current task' ≡ some attempt'
  pub leased : attempt'.lease_until ≡ x.now + lease_duration
  pub execution : attempt'.execution_id ≡ x.request.execution_id

module _ (x : Transition) (k : String) (t : Task) (at : Attempt) {z : Transition} where
  claim_task-Claimed :
      lookup k (tasks_of x) ≡ some t
      → current t ≡ some at
      → claim_task k t at x ≡ ok z
      → Claimed x z
  unfolding claim_task
  claim_task-Claimed l c h = elim (Result-cases (own_agent x)) [
    | inr (e, p) ↦ absurd (ground arith)
    | inl (a, p) ↦
        let m = insert at.id (x.env.sha256_hex x.auth.execution_token) x.store.execution_secrets in
        let t' = changed claimed "Assignment claimed" x.now (with_current (take_claim x) t) in
        let wrote =
          change-ok k (with_current (take_claim x) t) claimed "task.claimed"
            x.store.state.leadership.agent_id "Assignment claimed" (set_secrets m x) {y = z} in
        record {
          key = k;
          task = t;
          attempt = at;
          worker = a;
          found = l;
          is_current = c;
          own = p;
          may = check_claim-MayClaim x a t at (ground arith);
          task' = t';
          stored = ground (arith, wrote, lookup-insert k k t' (tasks_of x), eq_refl k);
          state = refl;
          bumped = refl;
          attempt' = close_attempt claimed "Assignment claimed" x.now (take_claim x at);
          is_current' =
              current-changed_with t at (take_claim x) claimed "Assignment claimed" x.now c;
          leased = refl;
          execution = refl;
        }
  ]

task-Claimed :
    (x : Transition) {z : Transition} → WellFormed x.store → task claim x ≡ ok z → Claimed x z
unfolding task run_task
task-Claimed x sound h = elim (Result-cases (resolve_task x.store.state x.request.task_id)) [
  | inr (e, p) ↦ absurd (ground arith)
  | inl ((k, t), p) ↦ elim (Option-cases (current t)) [
    | inl e ↦ absurd (ground arith)
    | inr (at, c) ↦
        claim_task-Claimed x k t at (resolve_task-lookup x x.request.task_id sound.keys p) c
          (ground arith)
  ]
]

-- An accepted claim takes a task that waits, in the version that the request names, for the worker
-- that it was assigned to; this worker is the caller's endpoint, is ready under a live peer and has
-- room for it; the offer is of the leader's current term and within its lease; the board is not
-- paused; every dependency is completed. The task is then claimed, in the next version, under the
-- request's execution id, with a lease from now on.
pub transact-Claimed :
    (env : Env) (s : Store) (a : Auth) (r : Request) (now : ℕ) {y : Transition}
    → WellFormed (working_copy s)
    → op_of r.op ≡ Op.task_op claim
    → transact env s a r now ≡ ok y
    → Claimed (begin env s a r now) y
transact-Claimed env s a r now {y} sound op h =
    let (z, p, e) = transact-runs env s a r now h in
    let x = begin env s a r now in
    let c = task-Claimed x sound (claim_runs x (subst (λ o. run_op o x ≡ ok z) op p)) in
    subst (λ w. Claimed x w) (sym e)
      (record {
        key = c.key;
        task = c.task;
        attempt = c.attempt;
        worker = c.worker;
        found = c.found;
        is_current = c.is_current;
        own = c.own;
        may = c.may;
        task' = c.task';
        stored = c.stored;
        state = c.state;
        bumped = c.bumped;
        attempt' = c.attempt';
        is_current' = c.is_current';
        leased = c.leased;
        execution = c.execution;
      })
