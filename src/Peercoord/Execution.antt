-- ===== src/Peercoord/Execution.antt =====
-- The last switch of transition.task, and transition.task itself (peercoord/engine.go).
use rysh_cli_shared.Prelude.{
  ◌+◌, String, len, ◌||◌, not, Option, none, some, eqb, ltb, ◌==◌, if◌then◌else◌, err, ok, ◌>>=◌,
  ◌>>◌, fail_if,
}
use rysh_cli_shared.Peercoord.Types.{
  Task, TaskState, running, blocked, waiting_local_input, needs_reconciliation, result_submitted,
  failed, cancelled, Attempt, invalid, stale, conflict, lease_duration, max_text, current,
  is_terminal, is_active,
}
use rysh_cli_shared.Peercoord.Text.{valid_id, valid_text}
use rysh_cli_shared.Peercoord.Transition.{Transition, Outcome, resolve_task}
use rysh_cli_shared.Peercoord.Tasks.{
  change, put_task, is_submitted, is_claimed, is_cancel_requested,
}
use rysh_cli_shared.Peercoord.Work.{
  TaskOp, claim, review, cancel, resolve, retry, adopt, start, progress, result, fail, cancelled_op,
  uncertain, claim_task, review_task, cancel_task, resolve_attempt, retry_task, execution,
  with_current,
}

abbrev reported : TaskState → Option TaskState
reported running = some running
reported blocked = some blocked
reported waiting_local_input = some waiting_local_input
reported _ = none

-- The state that "task.progress" reports: the request's name, or the task's own state.
unfoldable pub progress_state : String → TaskState → Option TaskState
progress_state name state =
    if name == ""
    then reported state
    else if name == "running"
    then some running
    else if name == "blocked"
    then some blocked
    else if name == "waiting_local_input"
    then some waiting_local_input
    else none

abbrev pub or_invalid : {A : Type 0} → Option A → Outcome A
or_invalid none = err invalid
or_invalid (some a) = ok a

-- case "task.adopt"
unfoldable pub adopt_task : String → Task → Transition → Outcome Transition
adopt_task k t x = do
  fail_if (not (is_active t.state)) conflict
  let t' =
      with_current
        (λ at. record at {
          incarnation = x.request.incarnation;
          lease_until = x.now + lease_duration;
        })
        t
  let y = put_task k t' x
  ok (record y { response = record y.response { task = some t' } })

-- case "task.start"
unfoldable pub start_task : String → Task → Attempt → Transition → Outcome Transition
start_task k t at x = do
  fail_if
      (not (is_claimed t.state)
        || not (ltb x.now at.lease_until)
        || not (valid_id x.env x.request.pane_id))
      conflict
  let begin = λ (a : Attempt). record a { pane_id = x.request.pane_id; started_at = some x.now }
  change k (with_current begin t) running "task.started" x.store.state.leadership.agent_id
      "Task agent started" x

-- case "task.progress"
unfoldable pub progress_task : String → Task → Attempt → Transition → Outcome Transition
progress_task k t at x = do
  fail_if (is_cancel_requested t.state) conflict
  fail_if (not (ltb x.now at.lease_until)) stale
  state ← or_invalid (progress_state x.request.name t.state)
  fail_if (not (valid_text x.request.text)) invalid
  change k t state "task.progress" x.store.state.leadership.agent_id x.request.text x

-- case "task.result"
unfoldable pub submit_result : String → Task → Attempt → Transition → Outcome Transition
submit_result k t at x = do
  fail_if (is_cancel_requested t.state || not (ltb x.now at.lease_until)) stale
  fail_if (eqb (len x.request.result) 0 || ltb max_text (len x.request.result)) invalid
  summary ← or_invalid (x.env.summary x.request.result)
  fail_if (not (valid_text summary)) invalid
  change k (with_current (λ a. record a { result = x.request.result }) t) result_submitted
      "task.result" x.store.state.leadership.agent_id summary x

-- The switch of transition.task behind the check of the execution's credential.
unfoldable pub run_execution : TaskOp → String → Task → Attempt → Transition → Outcome Transition
run_execution adopt k t at x = adopt_task k t x
run_execution start k t at x = start_task k t at x
run_execution progress k t at x = progress_task k t at x
run_execution result k t at x = submit_result k t at x
run_execution fail k t at x = do
  fail_if (not (valid_text x.request.text)) invalid
  change k t failed "task.failed" x.store.state.leadership.agent_id x.request.text x
run_execution cancelled_op k t at x = do
  fail_if (not (is_cancel_requested t.state)) conflict
  change k t cancelled "task.cancelled" x.store.state.leadership.agent_id
      "Local runner confirmed stopped" x
run_execution uncertain k t at x =
    change k t needs_reconciliation "task.uncertain" x.store.state.leadership.agent_id
      x.request.text x
run_execution _ k t at x = err invalid

unfoldable pub execute : TaskOp → String → Task → Transition → Outcome Transition
execute op k t x = do
  at ← execution op t x
  fail_if (is_terminal t.state || is_submitted t.state) conflict
  run_execution op k t at x

unfoldable pub run_task : TaskOp → String → Task → Attempt → Transition → Outcome Transition
run_task claim k t at x = claim_task k t at x
run_task review k t at x = review_task k t x
run_task cancel k t at x = cancel_task k t x
run_task resolve k t at x = resolve_attempt k t at x
run_task retry k t at x = retry_task k t at x
run_task op k t at x = execute op k t x

or_conflict : Option Attempt → Outcome Attempt
or_conflict none = err conflict
or_conflict (some at) = ok at

-- transition.task
unfoldable pub task : TaskOp → Transition → Outcome Transition
unfolding or_conflict
task op x = do
  (k, t) ← resolve_task x.store.state x.request.task_id
  at ← or_conflict (current t)
  run_task op k t at x
