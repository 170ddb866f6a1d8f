-- ===== src/Peercoord/Authority/Events.antt =====
-- The events of a request.
use rysh_cli_shared.Prelude.{ℕ, refl, inl, inr, Result-cases}
use rysh_cli_shared.Peercoord.Types.{Store, Request, Auth, Env}
use rysh_cli_shared.Peercoord.Engine.{transact, apply_request, op_of, begin}
use rysh_cli_shared.Peercoord.Effects.Outline.{IsOwn, run_op-Outline}
use rysh_cli_shared.Peercoord.Lifecycle.Requests.{transact-runs}

-- A request emits at most one event, which carries the request's own id: the ids derived by
-- uuid.NewSHA1 for further events are never used.
pub apply_request-IsOwn :
    (env : Env) (s : Store) (a : Auth) (r : Request) (now : ℕ)
    → IsOwn r.id (apply_request env s a r now).events
unfolding apply_request
apply_request-IsOwn env s a r now = elim (Result-cases (transact env s a r now)) [
  | inr (e, p) ↦ rw p tt
  | inl (y, p) ↦
      let (z, q, f) = transact-runs env s a r now p in
      let o = run_op-Outline (begin env s a r now) {y = z} refl (op_of r.op) q in rw (p, f) o.own
]
