-- ===== src/Peercoord/Leaders.antt =====
-- The operations "leader.*", "board.pause", "send" and "objective" of transition.apply
-- (peercoord/engine.go).
use rysh_cli_shared.Prelude.{
  ℕ, String, Bool, true, false, ◌&&◌, ◌||◌, not, Option, none, some, List, [], ◌∷◌, ◌++◌, lookup,
  length, ltb, ◌==◌, if◌then◌else◌, contains, ◌<>◌, ok, ◌>>=◌, ◌>>◌, fail_if,
}
use rysh_cli_shared.Peercoord.Types.{
  Peer, Agent, Task, State, invalid, conflict, forbidden, stale, current,
}
use rysh_cli_shared.Peercoord.Text.{valid_text, is_admin}
use rysh_cli_shared.Peercoord.Transition.{
  Transition, Outcome, with_state, event, is_revoked, is_ready, own_agent, leader, resolve_agent,
  resolve_task,
}
use rysh_cli_shared.Peercoord.Registry.{appoint}

-- Only an administrator may act in the leader's place.
unfoldable pub leader_or_admin : Transition → Outcome (Unit {0})
leader_or_admin x = if is_admin x.auth then ok tt else do _ ← leader x; ok tt

abbrev unenrolled : Option Peer → Bool
unenrolled none = true
unenrolled (some owner) = is_revoked owner.state

-- case "leader.handover"
unfoldable pub handover : Transition → Outcome Transition
handover x = do
  leader_or_admin x
  a ← resolve_agent x.store.state x.request.target
  fail_if (not (a.role == "leader") || unenrolled (lookup a.peer_id x.store.state.peers)) invalid
  ok (appoint a x)

-- The loop over the requested standbys, with the ids collected so far.
unfoldable pub collect_standbys : State → List String → List String → Outcome (List String)
collect_standbys s ids [] = ok ids
collect_standbys s ids (ref ∷ refs) = do
  a ← resolve_agent s ref
  fail_if (not (a.role == "leader")) invalid
  collect_standbys s (if contains ids a.id then ids else ids ++ a.id ∷ []) refs

abbrev pub with_standbys : List String → Transition → Transition
with_standbys ids x =
    let l = record x.store.state.leadership {
      standbys = ids;
      auto_failover = x.request.auto_failover;
    } in
    let x' = with_state (record x.store.state { leadership = l }) x in
    record x' { response = record x'.response { leadership = some l } }

-- case "leader.standbys"
unfoldable pub standbys : Transition → Outcome Transition
standbys x = do
  fail_if (not (is_admin x.auth)) forbidden
  fail_if (ltb 10 (length x.request.standbys)) invalid
  ids ← collect_standbys x.store.state [] x.request.standbys
  ok (
      event "leader.standbys" "" "" "" "Approved leader standby policy updated"
        (with_standbys ids x))

unfoldable pub live_peer : ℕ → Option Peer → Bool
live_peer now none = false
live_peer now (some p) = is_ready p.state && ltb now p.lease_until

unfoldable pub can_stand : ℕ → State → Option Agent → Bool
can_stand now s none = false
can_stand now s (some a) = a.ready && live_peer now (lookup a.peer_id s.peers)

-- The first standby that is ready under a live peer; "" if there is none.
unfoldable pub choose : ℕ → State → List String → String
choose now s [] = ""
choose now s (id ∷ ids) = if can_stand now s (lookup id s.agents) then id else choose now s ids

-- case "leader.acquire"
unfoldable pub acquire : Transition → Outcome Transition
acquire x = do
  a ← own_agent x
  let s = x.store.state
  fail_if (not s.leadership.auto_failover || ltb x.now s.leadership.lease_until) conflict
  let chosen = choose x.now s s.leadership.standbys
  fail_if (chosen == "" || not (chosen == a.id)) forbidden
  ok (appoint a x)

abbrev show_bool : Bool → String
show_bool true = "true"
show_bool false = "false"

-- case "board.pause"
unfoldable pub pause : Transition → Outcome Transition
pause x = do
  fail_if (not (is_admin x.auth)) forbidden
  ok (
      event "board.paused" "" "" "" ("Board admissions paused=" <> show_bool x.request.paused)
        (with_state (record x.store.state { paused = x.request.paused }) x))

is_current : String → Task → Bool
is_current id t = elim (current t) [ none ↦ false | some at ↦ at.id == id ]

-- The task that a message is about, and its thread.
unfoldable pub message_task : Agent → Transition → Outcome (String × String)
unfolding is_current
message_task a x = if x.request.task_id == "" then ok ("", "") else do
  (k, t) ← resolve_task x.store.state x.request.task_id
  fail_if (not (t.agent_id == a.id) && not (x.store.state.leadership.agent_id == a.id)) forbidden
  fail_if (not (x.request.attempt_id == "") && not (is_current x.request.attempt_id t)) stale
  ok (t.id, t.thread_id)

-- case "send", "objective"
unfoldable pub message : Bool → Transition → Outcome Transition
message objective x = do
  a ← own_agent x
  target ← resolve_agent x.store.state x.request.target
  fail_if (not (valid_text x.request.text)) invalid
  (task, thread) ← message_task a x
  fail_if (objective && not (target.id == x.store.state.leadership.agent_id)) invalid
  ok (
      event (if objective then "objective" else "message") target.id task thread
        (a.label <> (": " <> x.request.text)) x)
