-- ===== src/Peercoord/Types.antt =====
-- peercoord/types.go: the board's state, the requests and the answers. Times are nanoseconds. An
-- `int` or `int64` is its bit pattern. The states of peers and tasks are strings in the source; here
-- they are the values that the package writes or tests. Go's `nil` map entries, which the package
-- never writes, are not represented.
use rysh_cli_shared.Prelude.{ℕ, ◌*◌, String, Bool, true, false, Option, List, [], Map, last?}

abbrev pub version : ℕ
version = 1

abbrev pub lease_duration : ℕ
lease_duration = 30 * 1000000000

abbrev pub max_agents : ℕ
max_agents = 100

abbrev pub max_pending_tasks : ℕ
max_pending_tasks = 500

abbrev pub max_text : ℕ
max_text = 16384

pub data PeerState : Type 0 where
  registered ready paused revoked : PeerState

pub record Peer : Type 0 where
  pub id : String
  pub user_id : String
  pub session_id : String
  pub session_name : String
  pub incarnation : String
  pub last_seen : ℕ
  pub lease_until : ℕ
  pub state : PeerState

pub record Agent : Type 0 where
  pub id : String
  pub peer_id : String
  pub name : String
  pub label : String
  pub role : String
  pub runner : String
  pub projects : List String
  pub capabilities : List String
  pub max_active : ℕ
  pub ready : Bool

pub record Leadership : Type 0 where
  pub agent_id : String
  pub term : ℕ
  pub lease_until : ℕ
  pub standbys : List String
  pub auto_failover : Bool

pub data TaskState : Type 0 where
  queued offered claimed starting running blocked waiting_local_input : TaskState
  cancel_requested needs_reconciliation result_submitted : TaskState
  completed failed cancelled expired : TaskState

pub record Attempt : Type 0 where
  pub id : String
  pub number : ℕ
  pub agent_id : String
  pub execution_id : String
  pub incarnation : String
  pub state : TaskState
  pub lease_until : ℕ
  pub pane_id : String
  pub started_at : Option ℕ
  pub ended_at : Option ℕ
  pub result : String
  pub detail : String

pub record Task : Type 0 where
  pub id : String
  pub number : ℕ
  pub thread_id : String
  pub objective : String
  pub criteria : String
  pub project : String
  pub base : String
  pub runner : String
  pub agent_id : String
  pub leader_id : String
  pub leader_term : ℕ
  pub version : ℕ
  pub state : TaskState
  pub dependencies : List String
  pub max_runtime_seconds : ℕ
  pub created_at : ℕ
  pub updated_at : ℕ
  pub attempts : List Attempt

-- Task.Current
unfoldable pub current : Task → Option Attempt
current t = last? t.attempts

unfoldable pub is_terminal : TaskState → Bool
is_terminal completed = true
is_terminal failed = true
is_terminal cancelled = true
is_terminal expired = true
is_terminal _ = false

unfoldable pub is_active : TaskState → Bool
is_active claimed = true
is_active starting = true
is_active running = true
is_active blocked = true
is_active waiting_local_input = true
is_active cancel_requested = true
is_active needs_reconciliation = true
is_active _ = false

-- `peers_nil` says that the map Peers is nil, as in the zero Store.
pub record State : Type 0 where
  pub schema_version : ℕ
  pub enabled : Bool
  pub paused : Bool
  pub operator_id : String
  pub leadership : Leadership
  pub peers_nil : Bool
  pub peers : Map Peer
  pub agents : Map Agent
  pub tasks : Map Task
  pub next_task : ℕ
  pub server_time : ℕ

pub record Store : Type 0 where
  pub state : State
  pub peer_secrets : Map String
  pub execution_secrets : Map String

abbrev no_leadership : Leadership
no_leadership = record {
  agent_id = "";
  term = 0;
  lease_until = 0;
  standbys = [];
  auto_failover = false;
}

-- NewStore
unfoldable pub new_store : Store
new_store = record {
  state = record {
    schema_version = version;
    enabled = false;
    paused = false;
    operator_id = "";
    leadership = no_leadership;
    peers_nil = false;
    peers = [];
    agents = [];
    tasks = [];
    next_task = 0;
    server_time = 0;
  };
  peer_secrets = [];
  execution_secrets = [];
}

pub record Request : Type 0 where
  pub schema_version : ℕ
  pub id : String
  pub op : String
  pub peer_id : String
  pub agent_id : String
  pub session_id : String
  pub session_name : String
  pub incarnation : String
  pub name : String
  pub role : String
  pub runner : String
  pub projects : List String
  pub capabilities : List String
  pub max_active : ℕ
  pub ready : Bool
  pub active_agents : List String
  pub running : List String
  pub confirm_stopped : Bool
  pub target : String
  pub term : ℕ
  pub task_id : String
  pub attempt_id : String
  pub task_version : ℕ
  pub execution_id : String
  pub pane_id : String
  pub text : String
  pub criteria : String
  pub project : String
  pub base : String
  pub dependencies : List String
  pub max_runtime_seconds : ℕ
  pub result : String
  pub standbys : List String
  pub auto_failover : Bool
  pub paused : Bool

pub record Auth : Type 0 where
  pub user_id : String
  pub workspace_role : String
  pub peer_token : String
  pub execution_token : String

pub record Event : Type 0 where
  pub schema_version : ℕ
  pub id : String
  pub kind : String
  pub sender_id : String
  pub recipient_id : String
  pub task_id : String
  pub attempt_id : String
  pub thread_id : String
  pub text : String
  pub created_at : ℕ

pub record Response : Type 0 where
  pub schema_version : ℕ
  pub peer : Option Peer
  pub agent : Option Agent
  pub task : Option Task
  pub leadership : Option Leadership
  pub event : Option Event
  pub server_time : ℕ

-- The codes that the package gives to Fail, and `nil_dereference` for a panic on a missing peer. The
-- text of an error is not represented.
pub data Code : Type 0 where
  bad_version invalid forbidden stale conflict capacity not_found unavailable ambiguous : Code
  nil_dereference : Code

-- What the package takes from packages that are not in the repository, while one request runs:
-- github.com/google/uuid (`parse_uuid` gives the canonical text of a UUID, `new_uuid n` is the n-th
-- answer of NewString, `sha1_uuid` is NewSHA1 on a printed number), crypto/sha256 with encoding/hex,
-- and encoding/json (`summary` is the summary of a result that is valid JSON and decodes).
pub record Env : Type 0 where
  pub parse_uuid : String → Option String
  pub new_uuid : ℕ → String
  pub sha1_uuid : String → ℕ → String
  pub sha256_hex : String → String
  pub summary : String → Option String
