-- ===== src/Peercoord/Lifecycle/Logs.antt =====
-- The life of a task over a log of requests.
use rysh_cli_shared.Prelude.{
  ℕ, String, List, [], ◌∷◌, false, ◌≡◌, refl, sym, ◌∙◌, inl, inr, some, arith, lookup, Result-cases,
  subst,
}
use rysh_cli_shared.Peercoord.Types.{Task, Leadership, completed, Store, Request, Auth, Env}
use rysh_cli_shared.Peercoord.Registry.{is_waiting}
use rysh_cli_shared.Peercoord.Engine.{transact, apply_request, begin, op_of}
use rysh_cli_shared.Peercoord.Effects.Outline.{run_op-Outline}
use rysh_cli_shared.Peercoord.Lifecycle.Graph.{
  ◌⟶*◌, here, then, ⟶*-trans, completed_final, Follows, rests, reoffered, steps,
}
use rysh_cli_shared.Peercoord.Lifecycle.Sound.{WellFormed}
use rysh_cli_shared.Peercoord.Lifecycle.Requests.{
  transact-runs, FreshFor, apply_request-Follows, apply_request-WellFormed,
}

-- A request with its credentials and its time, and what the outside answers while it runs.
pub record Call : Type 0 where
  pub env : Env
  pub auth : Auth
  pub request : Request
  pub now : ℕ

abbrev pub next : Store → Call → Store
next s c = (apply_request c.env s c.auth c.request c.now).store

-- The store after the calls of a log.
unfoldable pub serve : Store → List Call → Store
serve s [] = s
serve s (c ∷ cs) = serve (next s c) cs

-- Each call's UUIDs are new where it runs.
abbrev pub FreshRun : Store → List Call → Type 0
FreshRun s [] = Unit
FreshRun s (c ∷ cs) = FreshFor c.env s × FreshRun (next s c) cs

pub live_next :
    (s : Store) (c : Call) → s.state.peers_nil ≡ false → (next s c).state.peers_nil ≡ false
unfolding apply_request
live_next s c live = elim (Result-cases (transact c.env s c.auth c.request c.now)) [
  | inr (e, p) ↦ rw (p, next) live
  | inl (y, p) ↦
      let (z, q, f) = transact-runs c.env s c.auth c.request c.now p in
      let x = begin c.env s c.auth c.request c.now in
      rw (p, next) (ground (arith, run_op-Outline x {y = z} refl (op_of c.request.op) q))
]

path_of : {l l' : Leadership} {t t' : Task} → Follows l l' t t' → t.state ⟶* t'.state
path_of {l} {l'} {t} (rests s v u) = subst (λ u. t.state ⟶* u) (sym s) here
path_of {l} {l'} {t} (reoffered w s v a b) = subst (λ u. t.state ⟶* u) (sym s) here
path_of (steps e v) = then e here

-- Over any log, a task stays in the store, and its states follow the graph.
pub serve-path :
    (s : Store) (cs : List Call) (k : String) (t : Task)
    → s.state.peers_nil ≡ false
    → WellFormed s
    → FreshRun s cs
    → lookup k s.state.tasks ≡ some t
    → (t' : Task) × (lookup k (serve s cs).state.tasks ≡ some t') × (t.state ⟶* t'.state)
unfolding serve
serve-path s [] k t live sound new l = (t, l, here)
serve-path s (c ∷ cs) k t live sound new l =
    let (u, m, f) = apply_request-Follows c.env s c.auth c.request c.now live sound new.0 k t l in
    let (v, n, g) =
      serve-path (next s c) cs k u (live_next s c live)
        (apply_request-WellFormed c.env s c.auth c.request c.now live sound new.0) new.1 m in
    (v, n, ⟶*-trans (path_of f) g)

completed_rests :
    {l l' : Leadership} {t t' : Task}
    → t.state ≡ completed
    → Follows l l' t t'
    → (t'.state ≡ completed) × (t'.version ≡ t.version)
unfolding is_waiting
completed_rests e (rests s v u) = (s ∙ e, v)
completed_rests e (reoffered w s v a b) = absurd (ground arith)
completed_rests e (steps h v) = absurd (completed_final e h)

-- Over any log, a completed task stays completed, in the same version.
pub serve-completed :
    (s : Store) (cs : List Call) (k : String) (t : Task)
    → s.state.peers_nil ≡ false
    → WellFormed s
    → FreshRun s cs
    → lookup k s.state.tasks ≡ some t
    → t.state ≡ completed
    → (t' : Task) × (lookup k (serve s cs).state.tasks ≡ some t')
      × (t'.state ≡ completed)
      × (t'.version ≡ t.version)
unfolding serve
serve-completed s [] k t live sound new l e = (t, l, e, refl)
serve-completed s (c ∷ cs) k t live sound new l e =
    let (u, m, f) = apply_request-Follows c.env s c.auth c.request c.now live sound new.0 k t l in
    let (d, same) = completed_rests {t = t} {t' = u} e f in
    let (v, n, g, w) =
      serve-completed (next s c) cs k u (live_next s c live)
        (apply_request-WellFormed c.env s c.auth c.request c.now live sound new.0) new.1 m d in
    (v, n, g, w ∙ same)
