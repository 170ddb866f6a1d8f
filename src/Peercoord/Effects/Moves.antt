-- ===== src/Peercoord/Effects/Moves.antt =====
-- The shape of `Move` of each operation on a task (peercoord/engine.go).
use rysh_cli_shared.Prelude.{
  ◌+◌, String, false, ◌≡◌, refl, ◌⊎◌, inl, inr, Result-cases, Option-cases, List, ap, sym, subst,
  update_last-id, ok, some, arith, Map, insert, delete, Bool-cases, if◌then◌else◌, ◌<>◌, ◌||◌,
}
use rysh_cli_shared.Peercoord.Types.{
  Attempt, Task, TaskState, claimed, running, blocked, waiting_local_input, cancel_requested,
  result_submitted, needs_reconciliation, completed, failed, cancelled, offered, current,
  is_terminal, lease_duration,
}
use rysh_cli_shared.Peercoord.Transition.{Transition, event, own_agent, resolve_agent, task_label}
use rysh_cli_shared.Peercoord.Registry.{is_waiting}
use rysh_cli_shared.Peercoord.Tasks.{change, changed, is_submitted, is_cancel_requested}
use rysh_cli_shared.Peercoord.Work.{
  TaskOp, claim, review, cancel, resolve, retry, adopt, start, progress, result, fail, cancelled_op,
  uncertain, claim_task, review_task, cancel_task, resolve_attempt, retry_task, take_claim,
  execution, with_current, reassigned, set_secrets,
}
use rysh_cli_shared.Peercoord.Execution.{
  adopt_task, start_task, progress_task, progress_state, submit_result, run_execution, execute,
  run_task,
}
use rysh_cli_shared.Peercoord.Effects.Shape.{
  tasks_of, secrets_of, Holds, Report, started, works, blocks, waits, submits, fails, stops, loses,
  KeepsId, Move, claims, reviews, drops, recalls, resolves, retries, adopts, reports,
}

-- What `change` writes.
pub change-ok :
    (k : String) (t : Task) (s : TaskState) (kind to text : String) (x : Transition)
    {y : Transition}
    → change k t s kind to text x ≡ ok y
    → (tasks_of y ≡ insert k (changed s text x.now t) (tasks_of x)) × (secrets_of y ≡ secrets_of x)
unfolding change event
change-ok k t s kind to text x h = ground arith

pub record Moved (x y : Transition) (k : String) (t : Task) (at : Attempt) : Type 0 where
  pub task : Task
  pub secrets : Map String
  pub move : Move x t at task secrets
  pub tasks_eq : tasks_of y ≡ insert k task (tasks_of x)
  pub secrets_eq : secrets_of y ≡ secrets

module _ (x : Transition) (k : String) (t : Task) (at : Attempt) {y : Transition} where
  claim-Moved : claim_task k t at x ≡ ok y → Moved x y k t at
  unfolding claim_task
  claim-Moved h = elim (Result-cases (own_agent x)) [
    | inr (e, p) ↦ absurd (ground arith)
    | inl (a, p) ↦
        let m = insert at.id (x.env.sha256_hex x.auth.execution_token) (secrets_of x) in
        let t1 = with_current (take_claim x) t in
        let wrote =
          change-ok k t1 claimed "task.claimed" x.store.state.leadership.agent_id
            "Assignment claimed" (set_secrets m x) {y = y} in
        record {
          task = changed claimed "Assignment claimed" x.now t1;
          secrets = m;
          move = claims a "Assignment claimed" p (ground arith) refl refl;
          tasks_eq = ground (arith, wrote);
          secrets_eq = ground (arith, wrote);
        }
  ]

  review-Moved : review_task k t x ≡ ok y → Moved x y k t at
  unfolding review_task
  review-Moved h =
      let s = if x.request.ready then completed else failed in
      let wrote = change-ok k t s "task.reviewed" t.agent_id x.request.text x {y = y} in
      record {
        task = changed s x.request.text x.now t;
        secrets = secrets_of x;
        move = reviews s x.request.text (ground arith) (ground arith) refl refl;
        tasks_eq = ground (arith, wrote);
        secrets_eq = ground (arith, wrote);
      }

  cancel-Moved : cancel_task k t x ≡ ok y → Moved x y k t at
  unfolding cancel_task
  cancel-Moved h =
      let s = if is_waiting t.state || is_submitted t.state then cancelled else cancel_requested in
      let wrote = change-ok k t s "task.cancel" t.agent_id x.request.text x {y = y} in
      elim (Bool-cases (is_waiting t.state || is_submitted t.state)) [
        | inl early ↦ record {
          task = changed cancelled x.request.text x.now t;
          secrets = secrets_of x;
          move = drops x.request.text (ground arith) refl refl;
          tasks_eq = ground (arith, wrote);
          secrets_eq = ground (arith, wrote);
        }
        | inr late ↦ record {
          task = changed cancel_requested x.request.text x.now t;
          secrets = secrets_of x;
          move = recalls x.request.text (ground arith) (ground arith) (ground arith) refl refl;
          tasks_eq = ground (arith, wrote);
          secrets_eq = ground (arith, wrote);
        }
      ]

  resolve-Moved : resolve_attempt k t at x ≡ ok y → Moved x y k t at
  unfolding resolve_attempt
  resolve-Moved h =
      let m = delete at.id (secrets_of x) in
      let text = "Operator confirmed execution stopped: " <> x.request.text in
      let wrote =
        change-ok k t failed "task.resolved" x.store.state.leadership.agent_id text
          (set_secrets m x) {y = y} in
      record {
        task = changed failed text x.now t;
        secrets = m;
        move = resolves text (ground arith) refl refl;
        tasks_eq = ground (arith, wrote);
        secrets_eq = ground (arith, wrote);
      }

  retry-Moved : retry_task k t at x ≡ ok y → Moved x y k t at
  unfolding retry_task
  retry-Moved h = elim (Result-cases (resolve_agent x.store.state x.request.target)) [
    | inr (e, p) ↦ absurd (ground arith)
    | inl (target, p) ↦
        let m = delete at.id (secrets_of x) in
        let text = "Explicit retry of " <> task_label t in
        let z = set_secrets m x in
        let wrote =
          change-ok k (reassigned target x t) offered "task.assigned" target.id text
            (record z { minted = z.minted + 1 }) {y = y} in
        record {
          task = changed offered text x.now (reassigned target x t);
          secrets = m;
          move = retries target text (ground arith) (ground arith) (ground arith) refl refl;
          tasks_eq = ground (arith, wrote);
          secrets_eq = ground (arith, wrote);
        }
  ]

  -- A report by the holder of the execution's credential.
  holder-Moved :
      (s : TaskState) (f : Attempt → Attempt) (kind to text : String)
      → KeepsId f
      → Holds x at
      → is_terminal t.state ≡ false
      → is_submitted t.state ≡ false
      → Report t.state s
      → change k (with_current f t) s kind to text x ≡ ok y
      → Moved x y k t at
  holder-Moved s f kind to text keeps holds unfinished unsubmitted r h =
      let wrote = change-ok k (with_current f t) s kind to text x {y = y} h in
      record {
        task = changed s text x.now (with_current f t);
        secrets = secrets_of x;
        move = reports s f text keeps holds unfinished unsubmitted r refl refl;
        tasks_eq = wrote.0;
        secrets_eq = wrote.1;
      }

-- The three states that a progress report may name.
progress_cases :
    (s state : TaskState) (name : String)
    → progress_state name state ≡ some s
    → (s ≡ running) ⊎ ((s ≡ blocked) ⊎ (s ≡ waiting_local_input))
unfolding progress_state
progress_cases s state name h = ground arith

progress-Report :
    (s state : TaskState) (name : String)
    → is_cancel_requested state ≡ false
    → progress_state name state ≡ some s
    → Report state s
progress-Report s state name c h = elim (progress_cases s state name h) [
  | inl e ↦ subst (Report state) (sym e) (works c)
  | inr (inl e) ↦ subst (Report state) (sym e) (blocks c)
  | inr (inr e) ↦ subst (Report state) (sym e) (waits c)
]

-- A report that writes nothing to the attempt itself.
abbrev unchanged : Attempt → Attempt
unchanged a = a

unchanged-KeepsId : KeepsId unchanged
unchanged-KeepsId = record { id = λ a. refl; state = λ a. refl; agent = λ a. refl }

with_current-unchanged : (t : Task) → t ≡ with_current unchanged t
with_current-unchanged t =
    ap (λ (l : List Attempt). record t { attempts = l }) (sym (update_last-id t.attempts))

module _ (x : Transition) (k : String) (t : Task) (at : Attempt) {y : Transition}
    (holds : Holds x at) (unfinished : is_terminal t.state ≡ false)
    (unsubmitted : is_submitted t.state ≡ false) where
  start-Moved : start_task k t at x ≡ ok y → Moved x y k t at
  unfolding start_task
  start-Moved h =
      holder-Moved x k t at running
        (λ a. record a { pane_id = x.request.pane_id; started_at = some x.now }) "task.started"
        x.store.state.leadership.agent_id "Task agent started"
        (record { id = λ a. refl; state = λ a. refl; agent = λ a. refl }) holds unfinished
        unsubmitted (started (ground arith)) (ground arith)

  plain-Moved :
      (s : TaskState) (kind to text : String)
      → Report t.state s
      → change k t s kind to text x ≡ ok y
      → Moved x y k t at
  plain-Moved s kind to text r h =
      holder-Moved x k t at s unchanged kind to text unchanged-KeepsId holds unfinished unsubmitted
        r (subst (λ (u : Task). change k u s kind to text x ≡ ok y) (with_current-unchanged t) h)

  adopt-Moved : adopt_task k t x ≡ ok y → Moved x y k t at
  unfolding adopt_task
  adopt-Moved h =
      let f = λ (a : Attempt). record a {
        incarnation = x.request.incarnation;
        lease_until = x.now + lease_duration;
      } in
      record {
        task = with_current f t;
        secrets = secrets_of x;
        move =
            adopts f (record { id = λ a. refl; state = λ a. refl; agent = λ a. refl }) holds
              (ground arith) refl refl;
        tasks_eq = ground arith;
        secrets_eq = ground arith;
      }

  submit-Moved : submit_result k t at x ≡ ok y → Moved x y k t at
  unfolding submit_result
  submit-Moved h = elim (Option-cases (x.env.summary x.request.result)) [
    | inl p ↦ absurd (ground arith)
    | inr (text, p) ↦
        holder-Moved x k t at result_submitted (λ a. record a { result = x.request.result })
          "task.result" x.store.state.leadership.agent_id text
          (record { id = λ a. refl; state = λ a. refl; agent = λ a. refl }) holds unfinished
          unsubmitted (submits (ground arith)) (ground arith)
  ]

  progress-Moved : progress_task k t at x ≡ ok y → Moved x y k t at
  unfolding progress_task
  progress-Moved h = elim (Option-cases (progress_state x.request.name t.state)) [
    | inl p ↦ absurd (ground arith)
    | inr (s, p) ↦
        plain-Moved s "task.progress" x.store.state.leadership.agent_id x.request.text
          (progress-Report s t.state x.request.name (ground arith) p) (ground arith)
  ]

  run_execution-Moved : (op : TaskOp) → run_execution op k t at x ≡ ok y → Moved x y k t at
  unfolding run_execution
  run_execution-Moved adopt h = adopt-Moved h
  run_execution-Moved start h = start-Moved h
  run_execution-Moved progress h = progress-Moved h
  run_execution-Moved result h = submit-Moved h
  run_execution-Moved fail h =
      plain-Moved failed "task.failed" x.store.state.leadership.agent_id x.request.text fails
        (ground arith)
  run_execution-Moved cancelled_op h =
      plain-Moved cancelled "task.cancelled" x.store.state.leadership.agent_id
        "Local runner confirmed stopped" (stops (ground arith)) (ground arith)
  run_execution-Moved uncertain h =
      plain-Moved needs_reconciliation "task.uncertain" x.store.state.leadership.agent_id
        x.request.text loses h
  run_execution-Moved _ h = absurd (ground arith)

-- The check of the credential finds the current attempt, and proves that the caller holds it.
execution-Holds :
    (op : TaskOp) (t : Task) (x : Transition) {at : Attempt}
    → execution op t x ≡ ok at
    → (current t ≡ some at) × Holds x at
unfolding execution
execution-Holds op t x {at} h = elim (Option-cases (current t)) [
  | inl e ↦ absurd (ground arith)
  | inr (b, e) ↦ ground arith
]

module _ (x : Transition) (k : String) (t : Task) (at : Attempt) {y : Transition} where
  execute-Moved : (op : TaskOp) → current t ≡ some at → execute op k t x ≡ ok y → Moved x y k t at
  unfolding execute
  execute-Moved op c h = elim (Result-cases (execution op t x)) [
    | inr (e, p) ↦ absurd (ground arith)
    | inl (b, p) ↦
        let same : b ≡ at = ground (arith, execution-Holds op t x {at = b}) in
        run_execution-Moved x k t at (ground (arith, execution-Holds op t x {at = b}))
          (ground arith) (ground arith) op (ground arith)
  ]

  -- Every accepted operation on a task moves it in one of the ways of `Move`.
  pub run_task-Moved :
      (op : TaskOp) → current t ≡ some at → run_task op k t at x ≡ ok y → Moved x y k t at
  unfolding run_task
  run_task-Moved claim c h = claim-Moved x k t at h
  run_task-Moved review c h = review-Moved x k t at h
  run_task-Moved cancel c h = cancel-Moved x k t at h
  run_task-Moved resolve c h = resolve-Moved x k t at h
  run_task-Moved retry c h = retry-Moved x k t at h
  run_task-Moved op c h = execute-Moved op c h
