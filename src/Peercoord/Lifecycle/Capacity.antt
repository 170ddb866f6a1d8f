-- ===== src/Peercoord/Lifecycle/Capacity.antt =====
-- How many tasks a worker has in work (peercoord/engine.go).
use rysh_cli_shared.Prelude.{
  ℕ, ◌+◌, ◌≤◌, String, List, Bool, true, false, ◌≡◌, sym, ap, ◌∙◌, subst, ◌⊎◌, inl, inr, ok, some,
  arith, Map, lookup, insert, count_values, bit, count-insert, count-insert_new, count-map_values,
  slt, ◌==◌, str_eq→eq, Bool-cases, Option-cases,
}
use rysh_cli_shared.Peercoord.Types.{
  Peer, Agent, Task, Leadership, TaskState, Attempt, Store, Request, Auth, Env, current, is_active,
}
use rysh_cli_shared.Peercoord.Transition.{Transition, own_agent}
use rysh_cli_shared.Peercoord.Registry.{is_waiting, hand_over}
use rysh_cli_shared.Peercoord.Board.{beat_task}
use rysh_cli_shared.Peercoord.Tasks.{new_task}
use rysh_cli_shared.Peercoord.Work.{works_for, check_claim}
use rysh_cli_shared.Peercoord.Engine.{transact, op_of, begin, working_copy}
use rysh_cli_shared.Peercoord.Effects.Shape.{
  tasks_of, secrets_of, Move, claims, reviews, drops, recalls, resolves, retries, adopts, reports,
  Effect, untouched, handed, beaten, added, moved,
}
use rysh_cli_shared.Peercoord.Effects.Total.{run_op-Effect}
use rysh_cli_shared.Peercoord.Lifecycle.Sound.{IsSound, WellFormed, IsFresh}
use rysh_cli_shared.Peercoord.Lifecycle.Moving.{holder_waits_not, active_of}
use rysh_cli_shared.Peercoord.Lifecycle.Requests.{transact-runs, FreshFor}

-- The number of tasks that an endpoint has in work.
abbrev pub in_work : String → Map Task → ℕ
in_work g m = count_values (works_for g) m

hand_over-works :
    (g l : String) (term now : ℕ) (t : Task) → works_for g (hand_over l term now t) ≡ works_for g t
unfolding hand_over
hand_over-works g l term now t = ground arith

beat_task-works :
    (g : String) (p : Peer) (z : Transition) (t : Task)
    → works_for g (beat_task p z t) ≡ works_for g t
unfolding beat_task
beat_task-works g p z t = ground arith

new_task-idle :
    (boss target : Agent) (deps : List String) (ready : Bool) (x : Transition) (g : String)
    → works_for g (new_task boss target deps ready x) ≡ false
unfolding is_active
new_task-idle boss target deps ready x g = ground arith

-- What "task.claim" has checked of the number of tasks.
claim_room :
    (x : Transition) (a : Agent) (t : Task) (at : Attempt)
    → check_claim a t at x ≡ ok tt
    → (t.agent_id ≡ a.id)
      × (is_waiting t.state ≡ true)
      × (slt (in_work a.id (tasks_of x)) a.max_active ≡ true)
unfolding check_claim
claim_room x a t at h = (str_eq→eq _ _ (ground arith), ground arith, ground arith)

own_agent-lookup :
    (x : Transition) {a : Agent}
    → own_agent x ≡ ok a
    → lookup x.request.agent_id x.store.state.agents ≡ some a
unfolding own_agent
own_agent-lookup x {a} h = elim (Option-cases (lookup x.request.agent_id x.store.state.agents)) [
  | inl e ↦ absurd (ground arith)
  | inr (b, e) ↦ ground arith
]

-- The caller's endpoint has taken one more task, and had room for it.
pub record Took (x y : Transition) (g : String) : Type 0 where
  pub agent : Agent
  pub found : lookup x.request.agent_id x.store.state.agents ≡ some agent
  pub is_own : agent.id ≡ g
  pub room : slt (in_work g (tasks_of x)) agent.max_active ≡ true
  pub one_more : in_work g (tasks_of y) ≡ in_work g (tasks_of x) + 1

waiting-not_active : (s : TaskState) → is_waiting s ≡ true → is_active s ≡ false
unfolding is_waiting is_active
waiting-not_active s h = ground arith

module _ (x y : Transition) (g : String) (sound : IsSound (tasks_of x) (secrets_of x))
    (new : IsFresh x.env (tasks_of x) (secrets_of x)) where
  abbrev NoMore : Type 0
  NoMore = in_work g (tasks_of y) ≤ in_work g (tasks_of x)

  module _ (k : String) (t : Task) (at : Attempt) (t' : Task) (m : Map String)
      (l : lookup k (tasks_of x) ≡ some t) (c : current t ≡ some at)
      (wrote : tasks_of y ≡ insert k t' (tasks_of x)) where
    counted :
        in_work g (tasks_of y) + bit (works_for g t) ≡ in_work g (tasks_of x) + bit (works_for g t')
    counted =
        ap (λ (n : Map Task). in_work g n + bit (works_for g t)) wrote
        ∙ count-insert (works_for g) k t' t (tasks_of x) l

    claims-capacity :
        (a : Agent)
        → own_agent x ≡ ok a
        → check_claim a t at x ≡ ok tt
        → t'.agent_id ≡ t.agent_id
        → is_active t'.state ≡ true
        → NoMore ⊎ Took x y g
    claims-capacity a own h e act =
        let (same, waits, room) = claim_room x a t at h in
        elim (Bool-cases (t.agent_id == g)) [
          | inl p ↦
              let q = str_eq→eq t.agent_id g p in
              inr (record {
                agent = a;
                found = own_agent-lookup x own;
                is_own = sym same ∙ q;
                room =
                    subst (λ i. slt (in_work i (tasks_of x)) a.max_active ≡ true) (sym same ∙ q)
                      room;
                one_more =
                    ground (arith, counted, waiting-not_active t.state waits, ap (λ i. i == g) e);
              })
          | inr p ↦ inl (ground (arith, counted, ap (λ i. i == g) e))
        ]

    unmoved-capacity :
        t'.agent_id ≡ t.agent_id
        → (is_active t.state ≡ true) ⊎ (is_active t'.state ≡ false)
        → NoMore
    unmoved-capacity e act = ground (arith, counted, ap (λ i. i == g) e)

    idle-capacity : is_active t'.state ≡ false → NoMore
    idle-capacity act = ground (arith, counted)

    Move-capacity : Move x t at t' m → NoMore ⊎ Took x y g
    unfolding is_active
    Move-capacity (claims a text own h e f) = claims-capacity a own h (ground arith) (ground arith)
    Move-capacity (reviews s text sub p e f) = inl (idle-capacity (ground arith))
    Move-capacity (drops text w e f) = inl (idle-capacity (ground arith))
    Move-capacity (recalls text w sub ter e f) =
        inl (unmoved-capacity (ground arith) (inl (active_of t.state w ter sub)))
    Move-capacity (resolves text a e f) = inl (idle-capacity (ground arith))
    Move-capacity (retries target text ter n room e f) = inl (idle-capacity (ground arith))
    Move-capacity (adopts f keeps holds act e h) = inl (unmoved-capacity (ground arith) (inl act))
    Move-capacity (reports s f text keeps holds ter sub r e h) = inl (
        unmoved-capacity (ground arith) (
          inl (
            active_of t.state (holder_waits_not x t at t' m (sound.unclaimed k t at l c) holds) ter
              sub)))

  abbrev after : Leadership
  after = y.store.state.leadership

  -- An operation gives a worker one more task only by its own claim.
  Effect-capacity : Effect x y → NoMore ⊎ Took x y g
  Effect-capacity (untouched e f) = inl (ground (arith, ap (in_work g) e))
  Effect-capacity (handed e f) = inl (
      ground (
        arith,
        ap (in_work g) e,
        count-map_values (works_for g) (hand_over after.agent_id after.term x.now) (tasks_of x)
            (hand_over-works g after.agent_id after.term x.now),
      ))
  Effect-capacity (beaten p z e f) = inl (
      ground (
        arith,
        ap (in_work g) e,
        count-map_values (works_for g) (beat_task p z) (tasks_of x) (beat_task-works g p z),
      ))
  Effect-capacity (added boss target deps ready t q e f) = inl (
      ground (
        arith,
        ap (in_work g) e,
        count-insert_new (works_for g) t.id t (tasks_of x)
            (ap (λ (u : Task). lookup u.id (tasks_of x)) q ∙ new.no_task x.minted),
        new_task-idle boss target deps ready x g,
        ap (works_for g) q,
      ))
  Effect-capacity (moved k t at t' m l c move e f) = Move-capacity k t at t' m l c e move

-- An accepted request leaves the number of tasks in work for an endpoint, or lowers it, except that
-- the endpoint itself may claim one task more, if it had fewer than its capacity.
pub transact-capacity :
    (env : Env) (s : Store) (a : Auth) (r : Request) (now : ℕ) (g : String) {y : Transition}
    → WellFormed (working_copy s)
    → FreshFor env (working_copy s)
    → transact env s a r now ≡ ok y
    → (in_work g y.store.state.tasks ≤ in_work g (working_copy s).state.tasks)
      ⊎ Took (begin env s a r now) y g
transact-capacity env s a r now g {y} sound new h =
    let (z, p, e) = transact-runs env s a r now h in
    let x = begin env s a r now in
    let effect = run_op-Effect x (op_of r.op) sound.keys p in
    elim (Effect-capacity x z g sound new effect) [
      | inl q ↦ inl (rw e q)
      | inr t ↦ inr (record {
        agent = t.agent;
        found = t.found;
        is_own = t.is_own;
        room = t.room;
        one_more = rw e t.one_more;
      })
    ]
