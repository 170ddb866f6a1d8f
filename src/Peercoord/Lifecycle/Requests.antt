-- ===== src/Peercoord/Lifecycle/Requests.antt =====
-- The life of a task over whole requests, and over a log of them.
use rysh_cli_shared.Prelude.{
  ℕ, String, [], Bool-cases, false, ◌≡◌, refl, sym, inl, inr, ok, some, arith, lookup, Result-cases,
  subst,
}
use rysh_cli_shared.Peercoord.Types.{Task, Store, Request, Auth, Env}
use rysh_cli_shared.Peercoord.Transition.{Transition}
use rysh_cli_shared.Peercoord.Engine.{
  Op, transact, apply, apply_request, run_op, op_of, begin, finish, working_copy,
}
use rysh_cli_shared.Peercoord.Effects.Total.{run_op-Effect, run_op-Handed}
use rysh_cli_shared.Peercoord.Effects.Outline.{appoints, run_op-Outline}
use rysh_cli_shared.Peercoord.Lifecycle.Graph.{Follows, rests}
use rysh_cli_shared.Peercoord.Lifecycle.Sound.{WellFormed, IsFresh}
use rysh_cli_shared.Peercoord.Lifecycle.Operations.{Goes, handed-Goes, Effect-Goes, Effect-IsSound}

-- What an accepted request has run.
pub transact-runs :
    (env : Env) (s : Store) (a : Auth) (r : Request) (now : ℕ) {y : Transition}
    → transact env s a r now ≡ ok y
    → (z : Transition) × (run_op (op_of r.op) (begin env s a r now) ≡ ok z) × (y ≡ finish now z)
unfolding transact apply
transact-runs env s a r now h = elim (Result-cases (run_op (op_of r.op) (begin env s a r now))) [
  | inr (e, p) ↦ absurd (ground arith)
  | inl (z, p) ↦ (z, p, ground arith)
]

run_op-Goes :
    (x z : Transition)
    → WellFormed x.store
    → IsFresh x.env x.store.state.tasks x.store.execution_secrets
    → x.events ≡ []
    → (op : Op) → run_op op x ≡ ok z
    → Goes x.store.state.leadership z.store.state.leadership x.store.state.tasks z.store.state.tasks
run_op-Goes x z sound new e op p = elim (Bool-cases (appoints op)) [
  | inl m ↦ handed-Goes x z sound new (run_op-Handed x {y = z} op m p).tasks
  | inr m ↦
      Effect-Goes x z sound new ((run_op-Outline x {y = z} e op p).stayed m).1
        (run_op-Effect x {y = z} op sound.keys p)
]

abbrev pub FreshFor : Env → Store → Type 0
FreshFor env s = IsFresh env s.state.tasks s.execution_secrets

module _ (env : Env) (s : Store) (a : Auth) (r : Request) (now : ℕ)
    (live : s.state.peers_nil ≡ false) (sound : WellFormed s) (new : FreshFor env s) where
  copy : working_copy s ≡ s
  copy = ground arith

  effect_of :
      {y : Transition}
      → transact env s a r now ≡ ok y
      → Goes s.state.leadership y.store.state.leadership s.state.tasks y.store.state.tasks
        × WellFormed y.store
  effect_of {y} h =
      let (z, p, e) = transact-runs env s a r now h in
      let x = begin env s a r now in
      let sound' : WellFormed x.store = rw copy sound in
      let new' : FreshFor env x.store = rw copy new in
      let effect = run_op-Effect x (op_of r.op) sound'.keys p in
      let goes : Goes s.state.leadership z.store.state.leadership s.state.tasks
          z.store.state.tasks =
        subst
          (λ (u : Store).
            Goes u.state.leadership z.store.state.leadership u.state.tasks z.store.state.tasks)
          copy (run_op-Goes x z sound' new' refl (op_of r.op) p) in
      (
        subst
            (λ (w : Transition).
              Goes s.state.leadership w.store.state.leadership s.state.tasks w.store.state.tasks)
            (sym e) goes,
        rw e (Effect-IsSound x z sound' new' effect),
      )

  -- Whatever the request and whether it is accepted, each task that stood under a key still stands
  -- there, and what became of it is nothing, a write that leaves its state and its version, the leader
  -- and the term that are current after the request with the next version for a task that waits, or
  -- one step of the graph with the next version. A task that waits is not left alone where the request
  -- moves the term.
  pub apply_request-Follows :
      (k : String) (t : Task)
      → lookup k s.state.tasks ≡ some t
      → (t' : Task) × (lookup k (apply_request env s a r now).store.state.tasks ≡ some t')
        × Follows s.state.leadership (apply_request env s a r now).store.state.leadership t t'
  unfolding apply_request
  apply_request-Follows k t l = elim (Result-cases (transact env s a r now)) [
    | inr (e, p) ↦ rw p (t, l, rests refl refl (λ w. refl))
    | inl (y, p) ↦ rw p ((effect_of p).0 k t l)
  ]

  -- Whatever the request and whether it is accepted, the store stays well formed.
  pub apply_request-WellFormed : WellFormed (apply_request env s a r now).store
  unfolding apply_request
  apply_request-WellFormed = elim (Result-cases (transact env s a r now)) [
    | inr (e, p) ↦ rw p sound
    | inl (y, p) ↦ rw p (effect_of p).1
  ]
