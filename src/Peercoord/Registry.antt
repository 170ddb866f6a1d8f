-- ===== src/Peercoord/Registry.antt =====
-- join, register and appoint of peercoord/engine.go.
use rysh_cli_shared.Prelude.{
  ℕ, ◌+◌, String, Bool, true, false, ◌&&◌, ◌||◌, not, Option, none, some, ◌++◌, insert, map_values,
  find_entry, length, all, inc64, slt, leb, ltb, eqb, ◌==◌, if◌then◌else◌, len, equal, ◌<>◌,
  show_int, ok, ◌>>◌, fail_if,
}
use rysh_cli_shared.Peercoord.Types.{
  Peer, registered, Agent, Leadership, Task, TaskState, offered, queued, Request, lease_duration,
  max_agents, invalid, conflict, capacity,
}
use rysh_cli_shared.Peercoord.Text.{valid_name, valid_id, valid_label, token_matches}
use rysh_cli_shared.Peercoord.Transition.{
  Transition, Outcome, with_state, secret, event, is_revoked,
}

-- uuid.NewString
abbrev pub fresh : Transition → String
fresh x = x.env.new_uuid x.minted

abbrev relabel : Peer → Agent → Agent
relabel p a =
    if a.peer_id == p.id
    then record a { label = p.session_name <> ("/" <> a.name); ready = false }
    else a

-- A session that comes back takes its registration over.
unfoldable pub rejoin : String → Peer → Transition → Peer × Transition
rejoin k p x =
    let p' = record p {
      incarnation = x.request.incarnation;
      session_name = x.request.session_name;
      state = registered;
      last_seen = x.now;
      lease_until = x.now + lease_duration;
    } in
    let s = x.store.state in
    (
      p',
      with_state
          (record s { peers = insert k p' s.peers; agents = map_values (relabel p') s.agents }) x,
    )

abbrev new_peer : Transition → Peer
new_peer x = record {
  id = fresh x;
  user_id = x.auth.user_id;
  session_id = x.request.session_id;
  session_name = x.request.session_name;
  incarnation = x.request.incarnation;
  last_seen = x.now;
  lease_until = x.now + lease_duration;
  state = registered;
}

unfoldable pub add_peer : Transition → Peer × Transition
add_peer x =
    let p = new_peer x in
    let s = x.store.state in
    (
      p,
      record x {
        store = record {
          state = record s { peers = insert p.id p s.peers };
          peer_secrets = insert p.id (x.env.sha256_hex x.auth.peer_token) x.store.peer_secrets;
          execution_secrets = x.store.execution_secrets;
        };
        minted = x.minted + 1;
      },
    )

-- The peer that `range` finds for this user and session, or a new one.
unfoldable pub join_as : Option (String × Peer) → Transition → Outcome (Peer × Transition)
join_as (some (k, p)) x = do
  fail_if
      (is_revoked p.state
        || not (token_matches x.env x.auth.peer_token (secret p.id x.store.peer_secrets)))
      conflict
  ok (rejoin k p x)
join_as none x = do fail_if (leb 100 (length x.store.state.peers)) capacity; ok (add_peer x)

abbrev pub same_session : Transition → Peer → Bool
same_session x p = p.user_id == x.auth.user_id && p.session_id == x.request.session_id

-- transition.join
unfoldable pub join : Transition → Outcome (Peer × Transition)
unfolding join_as
join x = do
  fail_if
      (ltb (len x.auth.peer_token) 32
        || ltb 256 (len x.auth.peer_token)
        || not (valid_id x.env x.request.session_id)
        || not (valid_id x.env x.request.incarnation)
        || not (valid_label x.request.session_name))
      invalid
  join_as (find_entry (same_session x) x.store.state.peers) x

-- The endpoint of this name is registered already: its profile must be the same.
unfoldable pub same_profile : Request → Agent → Bool
same_profile r a =
    a.role == r.role
    && a.runner == r.runner
    && equal a.projects r.projects
    && equal a.capabilities r.capabilities
    && eqb a.max_active r.max_active

abbrev new_agent : Peer → Transition → Agent
new_agent p x = record {
  id = fresh x;
  peer_id = p.id;
  name = x.request.name;
  label = p.session_name <> ("/" <> x.request.name);
  role = x.request.role;
  runner = x.request.runner;
  projects = x.request.projects;
  capabilities = x.request.capabilities;
  max_active = x.request.max_active;
  ready = false;
}

unfoldable pub add_agent : Peer → Transition → Agent × Transition
add_agent p x =
    let a = new_agent p x in
    let s = x.store.state in
    (
      a,
      record (with_state (record s { agents = insert a.id a s.agents }) x) {
        minted = x.minted + 1;
      },
    )

unfoldable pub register_as :
    Peer → Option (String × Agent) → Transition → Outcome (Agent × Transition)
register_as p (some (k, a)) x = do fail_if (not (same_profile x.request a)) conflict; ok (a, x)
register_as p none x = do
  fail_if (leb max_agents (length x.store.state.agents)) capacity
  ok (add_agent p x)

unfoldable pub valid_profile : Request → Bool
valid_profile r =
    valid_name r.name
    && (r.role == "worker" || r.role == "leader")
    && (r.runner == "claude" || r.runner == "codex")
    && not (slt r.max_active 1)
    && not (slt 16 r.max_active)
    && leb (length r.projects) 32
    && leb (length r.capabilities) 32

abbrev pub same_endpoint : Peer → Request → Agent → Bool
same_endpoint p r a = a.peer_id == p.id && a.name == r.name

-- transition.register
unfoldable pub register : Peer → Transition → Outcome (Agent × Transition)
unfolding register_as
register p x = do
  fail_if (not (valid_profile x.request)) invalid
  fail_if (not (all valid_name (x.request.projects ++ x.request.capabilities))) invalid
  register_as p (find_entry (same_endpoint p x.request) x.store.state.agents) x

-- A task that no worker has claimed.
unfoldable pub is_waiting : TaskState → Bool
is_waiting queued = true
is_waiting offered = true
is_waiting _ = false

-- A waiting task passes to the new leader.
unfoldable pub hand_over : String → ℕ → ℕ → Task → Task
unfolding is_waiting
hand_over leader term now t =
    if is_waiting t.state
    then record t {
      leader_id = leader;
      leader_term = term;
      version = inc64 t.version;
      updated_at = now;
    }
    else t

abbrev pub appointed : Agent → Transition → Leadership
appointed a x = record x.store.state.leadership {
  agent_id = a.id;
  term = inc64 x.store.state.leadership.term;
  lease_until = x.now + lease_duration;
}

-- transition.appoint
unfoldable pub appoint : Agent → Transition → Transition
appoint a x =
    let l = appointed a x in
    let s = x.store.state in
    let x' =
      with_state
        (record s { leadership = l; tasks = map_values (hand_over a.id l.term x.now) s.tasks }) x in
    event "leader.changed" a.id "" "" (a.label <> (" is leader (term " <> (show_int l.term <> ")")))
      (record x' { response = record x'.response { leadership = some l } })
