-- ===== src/Peercoord/Work.antt =====
-- transition.task of peercoord/engine.go: what workers and leaders do with a task that stands at key
-- k and whose current attempt is `at`.
use rysh_cli_shared.Prelude.{
  ℕ, ◌+◌, String, len, Bool, true, false, ◌&&◌, ◌||◌, not, Option, none, some, [], ◌∷◌, ◌++◌, Map,
  lookup, insert, delete, values, length, all, count_if, update_last, eqb, leb, ltb, slt, ◌==◌,
  if◌then◌else◌, contains, ◌<>◌, err, ok, ◌>>=◌, ◌>>◌, fail_if,
}
use rysh_cli_shared.Peercoord.Types.{
  Peer, Agent, Task, offered, cancel_requested, claimed, completed, failed, cancelled, Attempt,
  State, invalid, forbidden, stale, conflict, capacity, unavailable, nil_dereference,
  lease_duration, current, is_terminal, is_active,
}
use rysh_cli_shared.Peercoord.Text.{valid_id, token_matches, is_admin}
use rysh_cli_shared.Peercoord.Transition.{
  Transition, Outcome, secret, is_ready, own_agent, leader, resolve_agent, task_label,
}
use rysh_cli_shared.Peercoord.Registry.{is_waiting}
use rysh_cli_shared.Peercoord.Leaders.{leader_or_admin}
use rysh_cli_shared.Peercoord.Tasks.{change, offer, is_completed, is_submitted}

pub data TaskOp : Type 0 where
  claim review cancel resolve retry : TaskOp
  adopt start progress result fail cancelled_op uncertain unknown_task_op : TaskOp

abbrev pub is_adopt : TaskOp → Bool
is_adopt adopt = true
is_adopt _ = false

abbrev pub is_done : Option Task → Bool
is_done none = false
is_done (some t) = is_completed t.state

abbrev pub works_for : String → Task → Bool
works_for agent t = t.agent_id == agent && is_active t.state

abbrev pub set_secrets : Map String → Transition → Transition
set_secrets m x = record x { store = record x.store { execution_secrets = m } }

abbrev pub with_current : (Attempt → Attempt) → Task → Task
with_current f t = record t { attempts = update_last f t.attempts }

worker_live : ℕ → Option Peer → Outcome Bool
worker_live now none = err nil_dereference
worker_live now (some p) = ok (is_ready p.state && ltb now p.lease_until)

-- p := s.Peers[a.PeerID], and the test whether the worker is ready. Go tests s.Paused and a.Ready
-- before it reads through p.
unfoldable pub check_worker : Agent → State → ℕ → Outcome (Unit {0})
unfolding worker_live
check_worker a s now = do
  fail_if (s.paused || not a.ready) unavailable
  live ← worker_live now (lookup a.peer_id s.peers)
  fail_if (not live) unavailable

-- The tests of "task.claim", in the order of the source.
unfoldable pub check_claim : Agent → Task → Attempt → Transition → Outcome (Unit {0})
unfolding check_worker
check_claim a t at x = do
  let r = x.request
  let s = x.store.state
  fail_if (not (t.agent_id == a.id) || not (r.attempt_id == at.id)) forbidden
  check_worker a s x.now
  fail_if (not (eqb t.version r.task_version) || not (is_waiting t.state)) conflict
  fail_if (not (eqb t.leader_term s.leadership.term) || not (ltb x.now s.leadership.lease_until))
      stale
  fail_if (not (all (λ id. is_done (lookup id s.tasks)) t.dependencies)) unavailable
  fail_if (not (slt (count_if (works_for a.id) (values s.tasks)) a.max_active)) capacity
  fail_if
      (not (valid_id x.env r.execution_id)
        || ltb (len x.auth.execution_token) 32
        || ltb 256 (len x.auth.execution_token))
      invalid

abbrev pub take_claim : Transition → Attempt → Attempt
take_claim x at = record at {
  execution_id = x.request.execution_id;
  incarnation = x.request.incarnation;
  lease_until = x.now + lease_duration;
}

-- "task.claim"
unfoldable pub claim_task : String → Task → Attempt → Transition → Outcome Transition
claim_task k t at x = do
  a ← own_agent x
  check_claim a t at x
  let secrets = insert at.id (x.env.sha256_hex x.auth.execution_token) x.store.execution_secrets
  change k (with_current (take_claim x) t) claimed "task.claimed" x.store.state.leadership.agent_id
      "Assignment claimed" (set_secrets secrets x)

-- case "task.review"
unfoldable pub review_task : String → Task → Transition → Outcome Transition
review_task k t x = do
  _ ← leader x
  fail_if (not (is_submitted t.state) || not (eqb t.version x.request.task_version)) conflict
  change k t (if x.request.ready then completed else failed) "task.reviewed" t.agent_id
      x.request.text x

-- case "task.cancel"
unfoldable pub cancel_task : String → Task → Transition → Outcome Transition
cancel_task k t x = do
  leader_or_admin x
  fail_if (is_terminal t.state) conflict
  change k t (if is_waiting t.state || is_submitted t.state then cancelled else cancel_requested)
      "task.cancel" t.agent_id x.request.text x

-- case "task.resolve"
unfoldable pub resolve_attempt : String → Task → Attempt → Transition → Outcome Transition
resolve_attempt k t at x = do
  fail_if (not (is_admin x.auth) || not x.request.confirm_stopped) forbidden
  fail_if (not (is_active t.state)) conflict
  change k t failed "task.resolved" x.store.state.leadership.agent_id
      ("Operator confirmed execution stopped: " <> x.request.text)
      (set_secrets (delete at.id x.store.execution_secrets) x)

abbrev pub reassigned : Agent → Transition → Task → Task
reassigned target x t = record t {
  agent_id = target.id;
  leader_id = x.store.state.leadership.agent_id;
  leader_term = x.store.state.leadership.term;
  attempts =
      t.attempts ++ offer (x.env.new_uuid x.minted) (length t.attempts + 1) target.id offered ∷ [];
}

-- case "task.retry"
unfoldable pub retry_task : String → Task → Attempt → Transition → Outcome Transition
retry_task k t at x = do
  _ ← leader x
  fail_if (not (is_terminal t.state) || is_completed t.state) conflict
  target ← resolve_agent x.store.state x.request.target
  fail_if
      (not (target.role == "worker")
        || not (target.runner == t.runner)
        || not (contains target.projects t.project))
      invalid
  fail_if (leb 20 (length t.attempts)) capacity
  let y = set_secrets (delete at.id x.store.execution_secrets) x
  change k (reassigned target x t) offered "task.assigned" target.id
      ("Explicit retry of " <> task_label t) (record y { minted = y.minted + 1 })

unfoldable pub check_execution : TaskOp → Agent → Transition → Option Attempt → Outcome Attempt
check_execution op a x none = err forbidden
check_execution op a x (some at) = do
  fail_if
      (not (at.id == x.request.attempt_id)
        || not (at.agent_id == a.id)
        || not (at.execution_id == x.request.execution_id)
        || not
            (token_matches x.env x.auth.execution_token (secret at.id x.store.execution_secrets)))
      forbidden
  fail_if (not (at.incarnation == x.request.incarnation) && not (is_adopt op)) stale
  ok at

-- transition.execution
unfoldable pub execution : TaskOp → Task → Transition → Outcome Attempt
unfolding check_execution
execution op t x = do a ← own_agent x; check_execution op a x (current t)
