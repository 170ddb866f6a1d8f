-- ===== src/Peercoord/Fixture.antt =====
-- The board of peercoord/engine_test.go: a leader's peer, a worker's peer, and requests of both.
use rysh_cli_shared.Prelude.{
  ℕ, String, true, false, none, some, Map, [], ◌∷◌, ◌<>◌, show_int, lookup, insert, delete,
  map_values, values, find_entry,
}
use rysh_cli_shared.Peercoord.Types.{
  Peer, ready, Agent, Task, TaskState, offered, claimed, running, result_submitted, completed,
  Attempt, Store, Request, Auth, Env, new_store, current, is_terminal, is_active,
}
use rysh_cli_shared.Peercoord.Text.{
  runes, valid_name, valid_id, token_matches, valid_label, valid_text, is_admin,
}
use rysh_cli_shared.Peercoord.Transition.{
  event, is_revoked, is_ready, check_peer, peer, check_agent, own_agent, leader, find_label,
  resolve_agent, task_label, equal_fold, resolve_task,
}
use rysh_cli_shared.Peercoord.Registry.{
  rejoin, add_peer, join_as, join, same_profile, add_agent, register_as, valid_profile, register,
  is_waiting, hand_over, appoint,
}
use rysh_cli_shared.Peercoord.Board.{
  register_op, join_op, init_op, keeps_lease, beat_task, heartbeat, holds_attempt, leave,
}
use rysh_cli_shared.Peercoord.Leaders.{
  leader_or_admin, handover, collect_standbys, standbys, live_peer, can_stand, choose, acquire,
  pause, message_task, message,
}
use rysh_cli_shared.Peercoord.Tasks.{
  is_completed, is_submitted, is_claimed, is_cancel_requested, is_ended, change,
  collect_dependencies, valid_assignment, assign,
}
use rysh_cli_shared.Peercoord.Work.{
  check_worker, check_claim, claim_task, review_task, cancel_task, resolve_attempt, retry_task,
  check_execution, execution,
}
use rysh_cli_shared.Peercoord.Execution.{
  progress_state, adopt_task, start_task, progress_task, submit_result, run_execution, execute,
  run_task, task,
}
use rysh_cli_shared.Peercoord.Engine.{
  op_of, run_board, run_authenticated, run_enabled, run_op, apply, check_request, transact,
  apply_request, verify_peer,
}

abbrev token : String → String
token c =
    let c4 = c <> (c <> (c <> c)) in
    let c16 = c4 <> (c4 <> (c4 <> c4)) in c16 <> (c16 <> (c16 <> c16))

-- Texts that are no UUIDs are refused; the hash of a token of 64 characters is the token.
abbrev pub env : String → Env
env name = record {
  parse_uuid = λ s. some s;
  new_uuid = λ n. (name <> "-") <> show_int n;
  sha1_uuid = λ s n. s <> ("/" <> show_int n);
  sha256_hex = λ s. s;
  summary = λ s. some s;
}

abbrev pub blank : Request
blank = record {
  schema_version = 1;
  id = "r";
  op = "";
  peer_id = "";
  agent_id = "";
  session_id = "";
  session_name = "";
  incarnation = "";
  name = "";
  role = "";
  runner = "";
  projects = [];
  capabilities = [];
  max_active = 0;
  ready = false;
  active_agents = [];
  running = [];
  confirm_stopped = false;
  target = "";
  term = 0;
  task_id = "";
  attempt_id = "";
  task_version = 0;
  execution_id = "";
  pane_id = "";
  text = "";
  criteria = "";
  project = "";
  base = "";
  dependencies = [];
  max_runtime_seconds = 0;
  result = "";
  standbys = [];
  auto_failover = false;
  paused = false;
}

abbrev pub owner : Auth
owner = record {
  user_id = "ann";
  workspace_role = "owner";
  peer_token = token "a";
  execution_token = "";
}

abbrev pub member : Auth
member = record {
  user_id = "bob";
  workspace_role = "member";
  peer_token = token "b";
  execution_token = token "e";
}

abbrev pub init_request : Request
init_request = record blank {
  op = "init";
  session_id = "s1";
  session_name = "dev";
  incarnation = "i1";
  name = "leader";
  runner = "claude";
}

abbrev pub join_request : Request
join_request = record blank {
  op = "join";
  session_id = "s2";
  session_name = "remote";
  incarnation = "i2";
  name = "backend";
  role = "worker";
  runner = "codex";
  projects = "api" ∷ [];
  max_active = 1;
}

-- requests of the leader "L-1" and of the worker "W-1"
abbrev pub by_leader : Request
by_leader = record blank { peer_id = "L-0"; agent_id = "L-1"; incarnation = "i1"; term = 1 }

abbrev pub by_worker : Request
by_worker = record blank { peer_id = "W-0"; agent_id = "W-1"; incarnation = "i2" }

abbrev pub beat : Request → Request
beat r = record r { op = "heartbeat"; ready = true; active_agents = r.agent_id ∷ [] }

abbrev pub assign_request : Request
assign_request = record by_leader {
  op = "task.assign";
  target = "W-1";
  text = "build it";
  criteria = "tests pass";
  project = "api";
  runner = "codex";
  max_runtime_seconds = 60;
}

abbrev pub claim_request : Request
claim_request = record by_worker {
  op = "task.claim";
  task_id = "t-1";
  attempt_id = "T-1";
  task_version = 1;
  execution_id = "x1";
}

abbrev pub of_execution : Request
of_execution = record by_worker { task_id = "t-1"; attempt_id = "T-1"; execution_id = "x1" }

abbrev pub start_request : Request
start_request = record of_execution { op = "task.start"; pane_id = "pane" }

abbrev pub result_request : Request
result_request = record of_execution { op = "task.result"; result = "done" }

abbrev pub review_request : Request
review_request = record by_leader {
  op = "task.review";
  task_id = "t-1";
  task_version = 4;
  ready = true;
}

abbrev pub handover_request : Request
handover_request = record by_leader { op = "leader.handover"; target = "dev/leader" }

abbrev leader_peer : Peer
leader_peer = record {
  id = "L-0";
  user_id = "ann";
  session_id = "s1";
  session_name = "dev";
  incarnation = "i1";
  last_seen = 1000;
  lease_until = 30000001000;
  state = ready;
}

abbrev worker_peer : Peer
worker_peer = record {
  id = "W-0";
  user_id = "bob";
  session_id = "s2";
  session_name = "remote";
  incarnation = "i2";
  last_seen = 1000;
  lease_until = 30000001000;
  state = ready;
}

abbrev leader_agent : Agent
leader_agent = record {
  id = "L-1";
  peer_id = "L-0";
  name = "leader";
  label = "dev/leader";
  role = "leader";
  runner = "claude";
  projects = [];
  capabilities = [];
  max_active = 1;
  ready = true;
}

abbrev worker_agent : Agent
worker_agent = record {
  id = "W-1";
  peer_id = "W-0";
  name = "backend";
  label = "remote/backend";
  role = "worker";
  runner = "codex";
  projects = "api" ∷ [];
  capabilities = [];
  max_active = 1;
  ready = true;
}

-- The board with both endpoints ready.
abbrev board : ℕ → Map Task → Map String → Store
board n tasks secrets = record {
  state = record {
    schema_version = 1;
    enabled = true;
    paused = false;
    operator_id = "ann";
    leadership = record {
      agent_id = "L-1";
      term = 1;
      lease_until = 30000001000;
      standbys = [];
      auto_failover = false;
    };
    peers_nil = false;
    peers = ("L-0", leader_peer) ∷ ("W-0", worker_peer) ∷ [];
    agents = ("L-1", leader_agent) ∷ ("W-1", worker_agent) ∷ [];
    tasks = tasks;
    next_task = n;
    server_time = 1000;
  };
  peer_secrets = ("L-0", token "a") ∷ ("W-0", token "b") ∷ [];
  execution_secrets = secrets;
}

abbrev first_attempt : Attempt
first_attempt = record {
  id = "T-1";
  number = 1;
  agent_id = "W-1";
  execution_id = "";
  incarnation = "";
  state = offered;
  lease_until = 0;
  pane_id = "";
  started_at = none;
  ended_at = none;
  result = "";
  detail = "";
}

abbrev taken_attempt : Attempt
taken_attempt = record first_attempt {
  execution_id = "x1";
  incarnation = "i2";
  state = claimed;
  lease_until = 30000001000;
  detail = "Assignment claimed";
}

abbrev started_attempt : Attempt
started_attempt = record taken_attempt {
  state = running;
  pane_id = "pane";
  started_at = some 1000;
  detail = "Task agent started";
}

abbrev submitted_attempt : Attempt
submitted_attempt = record started_attempt {
  state = result_submitted;
  ended_at = some 1000;
  result = "done";
  detail = "done";
}

abbrev first_task : TaskState → ℕ → Attempt → Task
first_task state version at = record {
  id = "T-0";
  number = 1;
  thread_id = "r";
  objective = "build it";
  criteria = "tests pass";
  project = "api";
  base = "";
  runner = "codex";
  agent_id = "W-1";
  leader_id = "L-1";
  leader_term = 1;
  version = version;
  state = state;
  dependencies = [];
  max_runtime_seconds = 60;
  created_at = 1000;
  updated_at = 1000;
  attempts = at ∷ [];
}

abbrev held : Map String
held = ("T-1", token "e") ∷ []

abbrev one_task : Task → Map Task
one_task t = ("T-0", t) ∷ []

abbrev pub ready_board : Store
ready_board = board 0 [] []

abbrev pub assigned : Store
assigned = board 1 (one_task (first_task offered 1 first_attempt)) []

abbrev pub claimed_board : Store
claimed_board = board 1 (one_task (first_task claimed 2 taken_attempt)) held

abbrev pub started_board : Store
started_board = board 1 (one_task (first_task running 3 started_attempt)) held

abbrev pub submitted_board : Store
submitted_board = board 1 (one_task (first_task result_submitted 4 submitted_attempt)) held

abbrev pub done_board : Store
done_board =
    board 1
      (one_task
        (first_task completed 5 (record submitted_attempt { state = completed; detail = "" })))
      held

-- The store after a request, at the time 1000.
unfoldable pub step : String → Auth → Request → Store → Store
step name a r s = (apply_request (env name) s a r 1000).store

-- To unfold this is to unfold the whole engine.
unfoldable pub engine : Unit {0}
unfolding lookup insert delete map_values values find_entry show_int new_store current is_terminal
    is_active runes valid_name valid_id token_matches valid_label valid_text is_admin event
    is_revoked is_ready check_peer peer check_agent own_agent leader find_label resolve_agent
    task_label equal_fold resolve_task rejoin add_peer join_as join same_profile add_agent
    register_as valid_profile register is_waiting hand_over appoint register_op join_op init_op
    keeps_lease beat_task heartbeat holds_attempt leave leader_or_admin handover collect_standbys
    standbys live_peer can_stand choose acquire pause message_task message is_completed is_submitted
    is_claimed is_cancel_requested is_ended change collect_dependencies valid_assignment assign
    check_worker check_claim claim_task review_task cancel_task resolve_attempt retry_task
    check_execution execution progress_state adopt_task start_task progress_task submit_result
    run_execution execute run_task task op_of run_board run_authenticated run_enabled run_op apply
    check_request transact apply_request verify_peer step
engine = tt
