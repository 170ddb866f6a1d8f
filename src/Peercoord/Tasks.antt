-- ===== src/Peercoord/Tasks.antt =====
-- assign, execution, task and change of peercoord/engine.go.
use rysh_cli_shared.Prelude.{
  ℕ, ◌+◌, String, len, Bool, true, false, ◌&&◌, ◌||◌, not, none, some, List, [], ◌∷◌, ◌++◌, insert,
  values, length, count_if, update_last, leb, ltb, slt, inc64, ◌==◌, if◌then◌else◌, contains, ◌<>◌,
  ok, ◌>>=◌, ◌>>◌, fail_if,
}
use rysh_cli_shared.Peercoord.Types.{
  Agent, Task, TaskState, queued, offered, claimed, cancel_requested, result_submitted, completed,
  Attempt, State, Request, invalid, capacity, max_pending_tasks, max_text, is_terminal,
}
use rysh_cli_shared.Peercoord.Text.{valid_name, valid_text}
use rysh_cli_shared.Peercoord.Transition.{
  Transition, Outcome, with_state, event, leader, resolve_agent, resolve_task, task_label,
}
use rysh_cli_shared.Peercoord.Registry.{fresh}

unfoldable pub is_completed : TaskState → Bool
is_completed completed = true
is_completed _ = false

unfoldable pub is_submitted : TaskState → Bool
is_submitted result_submitted = true
is_submitted _ = false

unfoldable pub is_claimed : TaskState → Bool
is_claimed claimed = true
is_claimed _ = false

unfoldable pub is_cancel_requested : TaskState → Bool
is_cancel_requested cancel_requested = true
is_cancel_requested _ = false

-- Terminal(state) || state == "result_submitted"
unfoldable pub is_ended : TaskState → Bool
unfolding is_terminal is_submitted
is_ended s = is_terminal s || is_submitted s

abbrev pub close_attempt : TaskState → String → ℕ → Attempt → Attempt
close_attempt state text now at = record at {
  state = state;
  detail = text;
  ended_at = if is_ended state then some now else at.ended_at;
}

abbrev pub changed : TaskState → String → ℕ → Task → Task
changed state text now t = record t {
  state = state;
  version = inc64 t.version;
  updated_at = now;
  attempts = update_last (close_attempt state text now) t.attempts;
}

abbrev pub put_task : String → Task → Transition → Transition
put_task k t x = with_state (record x.store.state { tasks = insert k t x.store.state.tasks }) x

-- transition.change, on the task that stands at key k
unfoldable pub change :
    String → Task → TaskState → String → String → String → Transition → Outcome Transition
change k t state kind to text x = do
  fail_if (ltb max_text (len text)) invalid
  let t' = changed state text x.now t
  let y = put_task k t' x
  ok (
      event kind to t'.id t'.thread_id (task_label t' <> (": " <> text))
        (record y { response = record y.response { task = some t' } }))

-- The loop over the requested dependencies: the ids so far, and whether all are completed.
unfoldable pub collect_dependencies :
    State → List String → Bool → List String → Outcome (List String × Bool)
collect_dependencies s deps ready [] = ok (deps, ready)
collect_dependencies s deps ready (ref ∷ refs) = do
  (k, t) ← resolve_task s ref
  collect_dependencies s (if contains deps t.id then deps else deps ++ t.id ∷ [])
      (if is_completed t.state then ready else false) refs

abbrev is_pending : Task → Bool
is_pending t = not (is_terminal t.state)

unfoldable pub valid_assignment : Request → Bool
valid_assignment r =
    valid_text r.text
    && valid_text r.criteria
    && valid_name r.project
    && leb (len r.base) 256
    && not (slt r.max_runtime_seconds 30)
    && not (slt 86400 r.max_runtime_seconds)
    && leb (length r.dependencies) 100

abbrev pub offer : String → ℕ → String → TaskState → Attempt
offer id number agent state = record {
  id = id;
  number = number;
  agent_id = agent;
  execution_id = "";
  incarnation = "";
  state = state;
  lease_until = 0;
  pane_id = "";
  started_at = none;
  ended_at = none;
  result = "";
  detail = "";
}

-- The first call of uuid.NewString names the task, the second its attempt.
abbrev pub new_task : Agent → Agent → List String → Bool → Transition → Task
new_task boss target deps ready x =
    let state = if ready then offered else queued in
    record {
      id = fresh x;
      number = inc64 x.store.state.next_task;
      thread_id = x.request.id;
      objective = x.request.text;
      criteria = x.request.criteria;
      project = x.request.project;
      base = x.request.base;
      runner = x.request.runner;
      agent_id = target.id;
      leader_id = boss.id;
      leader_term = x.store.state.leadership.term;
      version = 1;
      state = state;
      dependencies = deps;
      max_runtime_seconds = x.request.max_runtime_seconds;
      created_at = x.now;
      updated_at = x.now;
      attempts = offer (x.env.new_uuid (x.minted + 1)) 1 target.id state ∷ [];
    }

abbrev pub with_task : Task → Transition → Transition
with_task t x =
    let s = x.store.state in
    let y =
      with_state (record s { next_task = inc64 s.next_task; tasks = insert t.id t s.tasks }) x in
    record y { minted = y.minted + 2; response = record y.response { task = some t } }

-- transition.assign
unfoldable pub assign : Transition → Outcome Transition
assign x = do
  boss ← leader x
  let r = x.request
  let s = x.store.state
  target ← resolve_agent s r.target
  fail_if
      (not (target.role == "worker")
        || not (r.runner == target.runner)
        || not (contains target.projects r.project))
      invalid
  fail_if (not (valid_assignment r)) invalid
  fail_if (leb max_pending_tasks (count_if is_pending (values s.tasks))) capacity
  (deps, ready) ← collect_dependencies s [] true r.dependencies
  let t = new_task boss target deps ready x
  ok (
      event "task.assigned" target.id t.id t.thread_id
        (boss.label
          <> (" assigned "
              <> (task_label t <> (" to " <> (target.label <> (": " <> t.objective))))))
        (with_task t x))
