-- ===== src/Peercoord/Lifecycle/Sound.antt =====
-- What holds of the tasks and of the execution credentials between two requests.
use rysh_cli_shared.Prelude.{ℕ, String, true, ◌≡◌, ◌≢◌, some, none, Map, IsMap, lookup}
use rysh_cli_shared.Peercoord.Types.{Task, Attempt, Store, Env, current}
use rysh_cli_shared.Peercoord.Transition.{secret}
use rysh_cli_shared.Peercoord.Registry.{is_waiting}

pub record IsSound (tasks : Map Task) (secrets : Map String) : Type 0 where
  -- each key stands once
  pub keys : IsMap tasks
  -- a task stands under its id
  pub named : (k : String) (t : Task) → lookup k tasks ≡ some t → t.id ≡ k
  -- a task has a current attempt, which is in the task's state
  pub in_step :
      (k : String) (t : Task)
      → lookup k tasks ≡ some t
      → (at : Attempt) × (current t ≡ some at) × (at.state ≡ t.state)
  -- there is no credential for a task that nobody has claimed
  pub unclaimed :
      (k : String) (t : Task) (at : Attempt)
      → lookup k tasks ≡ some t
      → current t ≡ some at
      → is_waiting t.state ≡ true
      → secret at.id secrets ≡ ""
  -- the id of a current attempt names its task
  pub apart :
      (k j : String) (t u : Task) (a b : Attempt)
      → lookup k tasks ≡ some t
      → lookup j tasks ≡ some u
      → current t ≡ some a
      → current u ≡ some b
      → a.id ≡ b.id
      → k ≡ j

abbrev pub WellFormed : Store → Type 0
WellFormed s = IsSound s.state.tasks s.execution_secrets

-- uuid.NewString gives a UUID that nothing in the store has yet, and never one twice.
pub record IsFresh (env : Env) (tasks : Map Task) (secrets : Map String) : Type 0 where
  pub no_task : (n : ℕ) → lookup (env.new_uuid n) tasks ≡ none
  pub no_attempt :
      (n : ℕ) (k : String) (t : Task) (at : Attempt)
      → lookup k tasks ≡ some t
      → current t ≡ some at
      → at.id ≢ env.new_uuid n
  pub no_secret : (n : ℕ) → secret (env.new_uuid n) secrets ≡ ""
