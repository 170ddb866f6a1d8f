-- ===== src/Peercoord/Engine.antt =====
-- transition.apply, Apply and VerifyPeer of peercoord/engine.go.
use rysh_cli_shared.Prelude.{
  ℕ, String, Bool, not, Option, none, some, List, [], ◌∷◌, Map, lookup, eqb, ◌==◌, ◌||◌,
  if◌then◌else◌, err, ok, ◌>>=◌, ◌>>◌, fail_if,
}
use text.Mathlib.Text.{starts_with}
use rysh_cli_shared.Peercoord.Types.{
  Peer, Store, Request, Auth, Event, Response, Env, Code, bad_version, invalid, forbidden,
  not_found, version, new_store,
}
use rysh_cli_shared.Peercoord.Text.{valid_id}
use rysh_cli_shared.Peercoord.Transition.{Transition, Outcome, with_state, peer}
use rysh_cli_shared.Peercoord.Board.{register_op, join_op, init_op, heartbeat, leave}
use rysh_cli_shared.Peercoord.Leaders.{handover, standbys, acquire, pause, message}
use rysh_cli_shared.Peercoord.Tasks.{assign}
use rysh_cli_shared.Peercoord.Work.{
  TaskOp, claim, review, cancel, resolve, retry, adopt, start, progress, result, fail, cancelled_op,
  uncertain, unknown_task_op,
}
use rysh_cli_shared.Peercoord.Execution.{task}

pub data Op : Type 0 where
  init join register heartbeat_op leave_op handover_op standbys_op acquire_op pause_op : Op
  send objective assign_op unknown_op : Op
  task_op : TaskOp → Op

abbrev ops : Map Op
ops =
    ("init", init)
    ∷ ("join", join)
    ∷ ("register", register)
    ∷ ("heartbeat", heartbeat_op)
    ∷ ("leave", leave_op)
    ∷ ("leader.handover", handover_op)
    ∷ ("leader.standbys", standbys_op)
    ∷ ("leader.acquire", acquire_op)
    ∷ ("board.pause", pause_op)
    ∷ ("send", send)
    ∷ ("objective", objective)
    ∷ ("task.assign", assign_op)
    ∷ ("task.claim", task_op claim)
    ∷ ("task.review", task_op review)
    ∷ ("task.cancel", task_op cancel)
    ∷ ("task.resolve", task_op resolve)
    ∷ ("task.retry", task_op retry)
    ∷ ("task.adopt", task_op adopt)
    ∷ ("task.start", task_op start)
    ∷ ("task.progress", task_op progress)
    ∷ ("task.result", task_op result)
    ∷ ("task.fail", task_op fail)
    ∷ ("task.cancelled", task_op cancelled_op)
    ∷ ("task.uncertain", task_op uncertain)
    ∷ []

or_unknown : String → Option Op → Op
or_unknown s none = if starts_with s "task." then task_op unknown_task_op else unknown_op
or_unknown s (some op) = op

-- The operation that a request's Op names.
unfoldable pub op_of : String → Op
unfolding or_unknown lookup
op_of s = or_unknown s (lookup s ops)

-- The switch of transition.apply behind the check of the peer's credential.
unfoldable pub run_board : Op → Peer → Transition → Outcome Transition
run_board register p x = register_op p x
run_board heartbeat_op p x = ok (heartbeat p x)
run_board leave_op p x = leave p x
run_board handover_op p x = handover x
run_board standbys_op p x = standbys x
run_board acquire_op p x = acquire x
run_board pause_op p x = pause x
run_board send p x = message Bool.false x
run_board objective p x = message Bool.true x
run_board assign_op p x = assign x
run_board (task_op op) p x = task op x
run_board _ p x = err invalid

unfoldable pub run_authenticated : Op → Transition → Outcome Transition
run_authenticated op x = do p ← peer x; run_board op p x

unfoldable pub run_enabled : Op → Transition → Outcome Transition
run_enabled join x = join_op x
run_enabled op x = run_authenticated op x

unfoldable pub run_op : Op → Transition → Outcome Transition
run_op init x = init_op x
run_op op x = do fail_if (not x.store.state.enabled) not_found; run_enabled op x

-- transition.apply
unfoldable pub apply : Transition → Outcome Transition
apply x = run_op (op_of x.request.op) x

pub record Answer : Type 0 where
  pub store : Store
  pub response : Response
  pub events : List Event
  pub error : Option Code

abbrev empty_response : ℕ → Response
empty_response now = record {
  schema_version = version;
  peer = none;
  agent = none;
  task = none;
  leadership = none;
  event = none;
  server_time = now;
}

abbrev pub working_copy : Store → Store
working_copy original = if original.state.peers_nil then new_store else original

abbrev pub begin : Env → Store → Auth → Request → ℕ → Transition
begin env original a r now = record {
  env = env;
  store = working_copy original;
  auth = a;
  request = r;
  now = now;
  response = empty_response now;
  events = [];
  minted = 0;
}

abbrev pub finish : ℕ → Transition → Transition
finish now y = with_state (record y.store.state { server_time = now }) y

unfoldable pub check_request : Env → Auth → Request → Outcome (Unit {0})
check_request env a r = do
  fail_if (not (eqb r.schema_version version)) bad_version
  fail_if (not (valid_id env r.id)) invalid
  fail_if (a.user_id == "" || a.workspace_role == "" || a.workspace_role == "observer") forbidden

-- The accepted path of Apply.
unfoldable pub transact : Env → Store → Auth → Request → ℕ → Outcome Transition
transact env original a r now = do
  check_request env a r
  y ← apply (begin env original a r now)
  ok (finish now y)

answer : Store → ℕ → Outcome Transition → Answer
answer original now (ok y) = record {
  store = y.store;
  response = y.response;
  events = y.events;
  error = none;
}
answer original now (err e) = record {
  store = original;
  response = empty_response now;
  events = [];
  error = some e;
}

-- Apply
unfoldable pub apply_request : Env → Store → Auth → Request → ℕ → Answer
unfolding answer
apply_request env original a r now = answer original now (transact env original a r now)

-- VerifyPeer, which takes no time and no events
unfoldable pub verify_peer : Env → Store → Auth → Request → Option Code
verify_peer env store a r = elim (peer (record (begin env store a r 0) { store = store })) [
  | ok p ↦ none
  | err e ↦ some e
]
