-- ===== src/Peercoord/Lifecycle/Identity.antt =====
-- What a `Move` does to the identity of its task, to its attempts and to the credentials of their
-- executions.
use rysh_cli_shared.Prelude.{
  ℕ, String, true, false, ◌≡◌, ◌≢◌, refl, ap, ◌∙◌, ◌⊎◌, inl, inr, some, arith, Map, lookup-insert,
  lookup-delete, eq_iff, last?-update_last, last?-append_one, length, ◌+◌,
}
use rysh_cli_shared.Peercoord.Types.{
  Agent, Task, Attempt, TaskState, offered, claimed, failed, cancelled, cancel_requested, current,
  is_active,
}
use rysh_cli_shared.Peercoord.Transition.{Transition, secret}
use rysh_cli_shared.Peercoord.Registry.{is_waiting}
use rysh_cli_shared.Peercoord.Tasks.{changed, close_attempt, offer}
use rysh_cli_shared.Peercoord.Work.{with_current, take_claim, reassigned}
use rysh_cli_shared.Peercoord.Effects.Shape.{
  secrets_of, Report, started, works, blocks, waits, submits, fails, stops, loses, KeepsId, Move,
  claims, reviews, drops, recalls, resolves, retries, adopts, reports,
}

-- The current attempt after a move, from the one before.
pub record Stands (x : Transition) (at : Attempt) (t' : Task) : Type 0 where
  pub attempt : Attempt
  pub is_current : current t' ≡ some attempt
  pub in_step : attempt.state ≡ t'.state
  pub same_id : (attempt.id ≡ at.id) ⊎ (attempt.id ≡ x.env.new_uuid x.minted)
  pub waiting_new : is_waiting t'.state ≡ true → attempt.id ≡ x.env.new_uuid x.minted

module _ (t : Task) (at : Attempt) (c : current t ≡ some at) where
  pub current-with_current : (f : Attempt → Attempt) → current (with_current f t) ≡ some (f at)
  unfolding current
  current-with_current f = last?-update_last f t.attempts c

  current-changed :
      (s : TaskState) (text : String) (now : ℕ)
      → current (changed s text now t) ≡ some (close_attempt s text now at)
  unfolding current
  current-changed s text now = last?-update_last (close_attempt s text now) t.attempts c

pub current-changed_with :
    (t : Task) (at : Attempt) (f : Attempt → Attempt) (s : TaskState) (text : String) (now : ℕ)
    → current t ≡ some at
    → current (changed s text now (with_current f t)) ≡ some (close_attempt s text now (f at))
current-changed_with t at f s text now c =
    current-changed (with_current f t) (f at) (current-with_current t at c f) s text now

Report-not_waiting : (s t : TaskState) → Report s t → is_waiting t ≡ false
unfolding is_waiting
Report-not_waiting s _ (started h) = refl
Report-not_waiting s _ (works h) = refl
Report-not_waiting s _ (blocks h) = refl
Report-not_waiting s _ (waits h) = refl
Report-not_waiting s _ (submits h) = refl
Report-not_waiting s _ fails = refl
Report-not_waiting s _ (stops h) = refl
Report-not_waiting s _ loses = refl

active-not_waiting : (s : TaskState) → is_active s ≡ true → is_waiting s ≡ false
unfolding is_waiting is_active
active-not_waiting s h = ground arith

current-reassigned :
    (x : Transition) (t : Task) (target : Agent)
    → current (reassigned target x t)
      ≡ some (offer (x.env.new_uuid x.minted) (length t.attempts + 1) target.id offered)
unfolding current
current-reassigned x t target = last?-append_one t.attempts _

module _ (x : Transition) (t : Task) (at : Attempt) (t' : Task) (m : Map String) where
  -- What a change to a state that is not waiting leaves.
  changed-Stands :
      (s : TaskState) (text : String) (f : Attempt → Attempt)
      → KeepsId f
      → current t ≡ some at
      → is_waiting s ≡ false
      → t' ≡ changed s text x.now (with_current f t)
      → Stands x at t'
  changed-Stands s text f keeps c w e = record {
    attempt = close_attempt s text x.now (f at);
    is_current = ap current e ∙ current-changed_with t at f s text x.now c;
    in_step = ground arith;
    same_id = inl (keeps.id at);
    waiting_new = λ h. ground arith;
  }

  pub Move-id : Move x t at t' m → t'.id ≡ t.id
  Move-id (claims a text own c e f) = ground arith
  Move-id (reviews s text sub p e f) = ground arith
  Move-id (drops text w e f) = ground arith
  Move-id (recalls text w sub ter e f) = ground arith
  Move-id (resolves text a e f) = ground arith
  Move-id (retries target text ter n room e f) = ground arith
  Move-id (adopts f keeps holds act e g) = ground arith
  Move-id (reports s f text keeps holds ter sub r e g) = ground arith

  plain-Stands :
      (s : TaskState) (text : String)
      → current t ≡ some at
      → is_waiting s ≡ false
      → t' ≡ changed s text x.now t
      → Stands x at t'
  plain-Stands s text c w e = record {
    attempt = close_attempt s text x.now at;
    is_current = ap current e ∙ current-changed t at c s text x.now;
    in_step = ground arith;
    same_id = inl refl;
    waiting_new = λ h. ground arith;
  }

  pub Move-Stands : current t ≡ some at → at.state ≡ t.state → Move x t at t' m → Stands x at t'
  unfolding is_waiting
  Move-Stands c s (claims a text own k e f) =
      changed-Stands claimed text (take_claim x)
        (record { id = λ b. refl; state = λ b. refl; agent = λ b. refl }) c refl e
  Move-Stands c s (reviews r text sub p e f) = plain-Stands r text c (ground arith) e
  Move-Stands c s (drops text w e f) = plain-Stands cancelled text c refl e
  Move-Stands c s (recalls text w sub ter e f) = plain-Stands cancel_requested text c refl e
  Move-Stands c s (resolves text a e f) = plain-Stands failed text c refl e
  Move-Stands c s (retries target text ter n room e f) =
      let new = offer (x.env.new_uuid x.minted) (length t.attempts + 1) target.id offered in
      record {
        attempt = close_attempt offered text x.now new;
        is_current =
            ap current e
            ∙ current-changed (reassigned target x t) new (current-reassigned x t target) offered
                text x.now;
        in_step = ground arith;
        same_id = inr refl;
        waiting_new = λ h. refl;
      }
  Move-Stands c s (adopts f keeps holds act e g) = record {
    attempt = f at;
    is_current = ap current e ∙ current-with_current t at c f;
    in_step = ground (arith, keeps.state at);
    same_id = inl (keeps.id at);
    waiting_new = λ h. absurd (ground (arith, active-not_waiting t.state act));
  }
  Move-Stands c s (reports r f text keeps holds ter sub p e g) =
      changed-Stands r text f keeps c (Report-not_waiting t.state r p) e

  -- No other credential is touched.
  pub Move-secret :
      (i : String) → i ≢ at.id → Move x t at t' m → secret i m ≡ secret i (secrets_of x)
  Move-secret i n (claims a text own k e f) =
      ap (secret i) f
      ∙ ground (
        arith,
        lookup-insert i at.id (x.env.sha256_hex x.auth.execution_token) (secrets_of x),
        eq_iff at.id i,
      )
  Move-secret i n (reviews s text sub p e f) = ap (secret i) f
  Move-secret i n (drops text w e f) = ap (secret i) f
  Move-secret i n (recalls text w sub ter e f) = ap (secret i) f
  Move-secret i n (resolves text a e f) =
      ap (secret i) f ∙ ground (arith, lookup-delete i at.id (secrets_of x), eq_iff at.id i)
  Move-secret i n (retries target text ter k room e f) =
      ap (secret i) f ∙ ground (arith, lookup-delete i at.id (secrets_of x), eq_iff at.id i)
  Move-secret i n (adopts f keeps holds act e g) = ap (secret i) g
  Move-secret i n (reports s f text keeps holds ter sub r e g) = ap (secret i) g
