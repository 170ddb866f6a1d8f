-- ===== src/Peercoord/Board.antt =====
-- The operations of transition.apply that are about peers, leadership and messages
-- (peercoord/engine.go). Each takes the caller's peer where apply has looked it up.
use rysh_cli_shared.Prelude.{
  ℕ, ◌+◌, Bool, true, false, ◌&&◌, not, Option, none, some, lookup, insert, delete, map_values,
  values, eqb, ltb, ◌==◌, if◌then◌else◌, contains, ◌<>◌, ok, ◌>>=◌, ◌>>◌, fail_if,
}
use rysh_cli_shared.Peercoord.Types.{
  Peer, ready, paused, revoked, Agent, Attempt, Task, Request, lease_duration, conflict, forbidden,
  current, is_active,
}
use rysh_cli_shared.Prelude.{any, update_last}
use rysh_cli_shared.Peercoord.Text.{is_admin}
use rysh_cli_shared.Peercoord.Transition.{Transition, Outcome, with_state, event}
use rysh_cli_shared.Peercoord.Registry.{join, register, appoint}

-- case "register"
unfoldable pub register_op : Peer → Transition → Outcome Transition
register_op p x = do
  (a, y) ← register p x
  ok (
      event "agent.registered" "" "" "" (a.label <> (" registered as " <> a.role))
        (record y { response = record y.response { agent = some a } }))

-- r.Op == "join"
unfoldable pub join_op : Transition → Outcome Transition
join_op x = do
  (p, y) ← join x
  let y' = record y { response = record y.response { peer = some p } }
  z ←
      (if y'.request.name == "" then ok y' else do
        (a, w) ← register p y'
        ok (record w { response = record w.response { agent = some a } }))
  ok (event "peer.joined" "" "" "" (p.session_name <> " joined the peer board") z)

-- The profile that "init" gives to the first leader.
abbrev pub as_leader : Transition → Transition
as_leader y = record y { request = record y.request { role = "leader"; max_active = 1 } }

abbrev pub enabled_by : Peer → Agent → Transition → Transition
enabled_by p a z =
    let z' = with_state (record z.store.state { enabled = true; operator_id = z.auth.user_id }) z in
    record z' { response = record z'.response { peer = some p; agent = some a } }

-- r.Op == "init"
unfoldable pub init_op : Transition → Outcome Transition
init_op x = do
  fail_if (not (is_admin x.auth)) forbidden
  fail_if x.store.state.enabled conflict
  (p, y) ← join x
  (a, z) ← register p (as_leader y)
  ok (appoint a (enabled_by p a z))

abbrev pub beat_peer : Transition → Peer → Peer
beat_peer x p = record p {
  last_seen = x.now;
  lease_until = x.now + lease_duration;
  state = if x.request.ready then ready else paused;
}

abbrev pub beat_agent : Peer → Request → Agent → Agent
beat_agent p r a =
    if a.peer_id == p.id then record a { ready = r.ready && contains r.active_agents a.id } else a

abbrev leads_as : Peer → ℕ → ℕ → Option Agent → Bool
leads_as p term current_term none = false
leads_as p term current_term (some a) = a.peer_id == p.id && a.ready && eqb term current_term

abbrev owned_by : Peer → Option Agent → Bool
owned_by p none = false
owned_by p (some a) = a.peer_id == p.id

-- The attempt runs under this incarnation, is reported as running, and its lease still holds.
unfoldable pub keeps_lease : Peer → Transition → Task → Attempt → Bool
keeps_lease p x t at =
    is_active t.state
    && at.incarnation == p.incarnation
    && owned_by p (lookup at.agent_id x.store.state.agents)
    && contains x.request.running at.execution_id
    && ltb x.now at.lease_until

abbrev pub extend_lease : ℕ → Attempt → Attempt
extend_lease now at = record at { lease_until = now + lease_duration }

unfoldable pub beat_task : Peer → Transition → Task → Task
beat_task p x t = elim (current t) [
  | none ↦ t
  | some at ↦
      if keeps_lease p x t at
      then record t { attempts = update_last (extend_lease x.now) t.attempts }
      else t
]

-- case "heartbeat"; p stands at the key that the request names
unfoldable pub heartbeat : Peer → Transition → Transition
heartbeat p x =
    let s = x.store.state in
    let p' = beat_peer x p in
    let agents' = map_values (beat_agent p x.request) s.agents in
    let l =
      (if leads_as p x.request.term s.leadership.term (lookup s.leadership.agent_id agents')
        then record s.leadership { lease_until = x.now + lease_duration }
        else s.leadership) in
    let x' =
      with_state
        (record s { peers = insert x.request.peer_id p' s.peers; agents = agents'; leadership = l })
        x in
    let y = with_state (record x'.store.state { tasks = map_values (beat_task p x') s.tasks }) x' in
    record y { response = record y.response { peer = some p'; leadership = some l } }

-- A task in work by an endpoint of the peer.
unfoldable pub holds_attempt : Peer → Transition → Task → Bool
holds_attempt p x t = elim (current t) [
  | none ↦ false
  | some at ↦ is_active t.state && owned_by p (lookup at.agent_id x.store.state.agents)
]

abbrev retire_agent : Peer → Agent → Agent
retire_agent p a = if a.peer_id == p.id then record a { ready = false } else a

abbrev retired : Peer → Transition → Transition
retired p x =
    let s = x.store.state in
    let agents' = map_values (retire_agent p) s.agents in
    record x {
      store = record {
        state = record s {
          peers =
              insert x.request.peer_id (record p { state = revoked; lease_until = x.now }) s.peers;
          agents = agents';
          leadership =
              (if owned_by p (lookup s.leadership.agent_id agents')
                then record s.leadership { lease_until = x.now }
                else s.leadership);
        };
        peer_secrets = delete p.id x.store.peer_secrets;
        execution_secrets = x.store.execution_secrets;
      };
    }

-- case "leave"
unfoldable pub leave : Peer → Transition → Outcome Transition
leave p x = do
  fail_if (any (holds_attempt p x) (values x.store.state.tasks)) conflict
  ok (event "peer.left" "" "" "" (p.session_name <> " left the peer board") (retired p x))
