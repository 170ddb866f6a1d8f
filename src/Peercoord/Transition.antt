-- ===== src/Peercoord/Transition.antt =====
-- `transition` of peercoord/engine.go: the copy of the store that one request works on, events, and
-- the lookups and credential checks that the operations share. A check that refuses returns a code.
use rysh_cli_shared.Prelude.{
  ℕ, ◌+◌, ◌-◌, String, Bool, true, false, ◌&&◌, ◌||◌, not, Option, none, some, List, [], ◌∷◌, ◌++◌,
  map, Map, lookup, values, find_entry, length, eqb, ltb, leb, ◌==◌, if◌then◌else◌, ◌<>◌, show_int,
  Result, ok, err, ◌>>=◌, ◌>>◌, fail_if,
}
use rysh_cli_shared.Peercoord.Types.{
  Peer, PeerState, ready, revoked, Agent, Task, State, Store, Request, Auth, Event, Response, Code,
  forbidden, stale, not_found, ambiguous, Env, current, version,
}
use rysh_cli_shared.Peercoord.Text.{runes, token_matches}

-- `minted` counts the calls of uuid.NewString.
pub record Transition : Type 0 where
  pub env : Env
  pub store : Store
  pub auth : Auth
  pub request : Request
  pub now : ℕ
  pub response : Response
  pub events : List Event
  pub minted : ℕ

abbrev pub Outcome : Type 0 → Type 0
Outcome A = Result Code A

abbrev pub with_state : State → Transition → Transition
with_state s x = record x { store = record x.store { state = s } }

-- s[k], with the zero value for a missing key
abbrev pub secret : String → Map String → String
secret k m = elim (lookup k m) [ none ↦ "" | some v ↦ v ]

abbrev pub attempt_id_of : Option Task → String
attempt_id_of none = ""
attempt_id_of (some t) = elim (current t) [ none ↦ "" | some a ↦ a.id ]

abbrev pub event_id : Env → String → List Event → String
event_id env id [] = id
event_id env id (e ∷ es) = env.sha1_uuid id (length (e ∷ es))

-- transition.event
unfoldable pub event : String → String → String → String → String → Transition → Transition
event kind to task thread text x =
    let id = event_id x.env x.request.id x.events in
    let e : Event = record {
      schema_version = version;
      id = id;
      kind = kind;
      sender_id = x.request.agent_id;
      recipient_id = to;
      task_id = task;
      attempt_id = attempt_id_of (lookup task x.store.state.tasks);
      thread_id = if thread == "" then id else thread;
      text = text;
      created_at = x.now;
    } in
    record x { events = x.events ++ e ∷ []; response = record x.response { event = some e } }

unfoldable pub is_revoked : PeerState → Bool
is_revoked revoked = true
is_revoked _ = false

unfoldable pub is_ready : PeerState → Bool
is_ready ready = true
is_ready _ = false

unfoldable pub check_peer : Transition → Option Peer → Outcome Peer
check_peer x none = err forbidden
check_peer x (some p) = do
  fail_if
      (not (p.user_id == x.auth.user_id)
        || not (token_matches x.env x.auth.peer_token (secret p.id x.store.peer_secrets))
        || is_revoked p.state)
      forbidden
  fail_if (not (x.request.incarnation == p.incarnation)) stale
  ok p

-- transition.peer
unfoldable pub peer : Transition → Outcome Peer
unfolding check_peer
peer x = check_peer x (lookup x.request.peer_id x.store.state.peers)

unfoldable pub check_agent : Peer → Option Agent → Outcome Agent
check_agent p none = err forbidden
check_agent p (some a) = do fail_if (not (a.peer_id == p.id)) forbidden; ok a

-- transition.ownAgent
unfoldable pub own_agent : Transition → Outcome Agent
unfolding check_agent
own_agent x = do p ← peer x; check_agent p (lookup x.request.agent_id x.store.state.agents)

-- transition.leader
unfoldable pub leader : Transition → Outcome Agent
leader x = do
  a ← own_agent x
  let s = x.store.state
  let l = s.leadership
  fail_if
      (not (a.id == l.agent_id)
        || not (eqb x.request.term l.term)
        || not (ltb x.now l.lease_until)
        || s.paused)
      stale
  ok a

-- The loop of State.ResolveAgent over the agents' labels, with what it has found.
unfoldable pub find_label : String → Option Agent → List Agent → Outcome Agent
find_label ref none [] = err not_found
find_label ref (some a) [] = ok a
find_label ref none (a ∷ as') = find_label ref (if a.label == ref then some a else none) as'
find_label ref (some b) (a ∷ as') =
    let rest = find_label ref (some b) as' in if a.label == ref then err ambiguous else rest

or_by_label : String → List Agent → Option Agent → Outcome Agent
unfolding find_label
or_by_label ref agents none = find_label ref none agents
or_by_label ref agents (some a) = ok a

-- State.ResolveAgent
unfoldable pub resolve_agent : State → String → Outcome Agent
unfolding or_by_label
resolve_agent s ref = or_by_label ref (values s.agents) (lookup ref s.agents)

-- Task.Label
unfoldable pub task_label : Task → String
task_label t = "T-" <> show_int t.number

abbrev lower : ℕ → ℕ
lower c = if leb b'A' c && leb c b'Z' then b'a' + (c - b'A') else c

runes_equal : List ℕ → List ℕ → Bool
runes_equal [] [] = true
runes_equal (c ∷ cs) (d ∷ ds) = eqb c d && runes_equal cs ds
runes_equal _ _ = false

-- strings.EqualFold, where one side is ASCII and has no k and no s, as a task's label
unfoldable pub equal_fold : String → String → Bool
unfolding runes runes_equal
equal_fold s t = runes_equal (map lower (runes s)) (map lower (runes t))

or_by_number : String → Map Task → Option Task → Outcome (String × Task)
unfolding equal_fold task_label
or_by_number ref tasks (some t) = ok (ref, t)
or_by_number ref tasks none = elim (find_entry (λ t. equal_fold (task_label t) ref) tasks) [
  | none ↦ err not_found
  | some (k, t) ↦ ok (k, t)
]

-- State.ResolveTask, with the key at which the task stands
unfoldable pub resolve_task : State → String → Outcome (String × Task)
unfolding or_by_number
resolve_task s ref = or_by_number ref s.tasks (lookup ref s.tasks)
