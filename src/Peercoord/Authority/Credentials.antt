-- ===== src/Peercoord/Authority/Credentials.antt =====
-- The credential of the calling peer, and VerifyPeer.
use rysh_cli_shared.Prelude.{
  ℕ, Bool, true, false, ◌≡◌, ◌≢◌, ok, some, none, arith, inl, inr, lookup, Result-cases,
  Option-cases, ◌≤◌, len, str_eq→eq,
}
use rysh_cli_shared.Peercoord.Types.{Peer, revoked, Store, Request, Auth, Env, new_store}
use rysh_cli_shared.Peercoord.Text.{token_matches}
use rysh_cli_shared.Peercoord.Transition.{Transition, peer, check_peer, secret, is_revoked}
use rysh_cli_shared.Peercoord.Engine.{
  Op, transact, run_op, run_enabled, run_authenticated, op_of, begin, verify_peer,
}
use rysh_cli_shared.Peercoord.Lifecycle.Requests.{transact-runs}

-- The operations that take a new registration.
unfoldable pub registers : Op → Bool
registers Op.init = true
registers Op.join = true
registers _ = false

run_op-peer :
    (x : Transition) (op : Op) {y : Transition}
    → registers op ≡ false
    → run_op op x ≡ ok y
    → (x.store.state.enabled ≡ true) × ((p : Peer) × (peer x ≡ ok p))
unfolding registers run_op run_enabled run_authenticated
run_op-peer x op g h = elim (Result-cases (peer x)) [
  | inl (p, e) ↦ (ground arith, (p, e))
  | inr (c, e) ↦ absurd (ground arith)
]

-- Every request that is accepted and is no "init" or "join" passes VerifyPeer on the same store.
pub transact-verify_peer :
    (env : Env) (s : Store) (a : Auth) (r : Request) (now : ℕ) {y : Transition}
    → registers (op_of r.op) ≡ false
    → transact env s a r now ≡ ok y
    → verify_peer env s a r ≡ none
unfolding verify_peer peer check_peer new_store
transact-verify_peer env s a r now g h =
    let (z, p, e) = transact-runs env s a r now h in
    ground (arith, run_op-peer (begin env s a r now) (op_of r.op) {y = z} g p)

-- What VerifyPeer accepts: the request names a registration of the caller's user that is not
-- revoked, in the incarnation that owns it, and the caller's token has at least 32 bytes and the
-- hash that is kept for the registration.
pub verify_peer_sound :
    (env : Env) (s : Store) (a : Auth) (r : Request)
    → verify_peer env s a r ≡ none
    → (p : Peer) × (lookup r.peer_id s.state.peers ≡ some p)
      × (p.user_id ≡ a.user_id)
      × (p.state ≢ revoked)
      × (r.incarnation ≡ p.incarnation)
      × (32 ≤ len a.peer_token)
      × (env.sha256_hex a.peer_token ≡ secret p.id s.peer_secrets)
unfolding verify_peer peer check_peer token_matches is_revoked
verify_peer_sound env s a r h = elim (Option-cases (lookup r.peer_id s.state.peers)) [
  | inl e ↦ absurd (ground arith)
  | inr (p, e) ↦ (
    p,
    e,
    str_eq→eq _ _ (ground arith),
    (λ q. ground arith),
    str_eq→eq _ _ (ground arith),
    ground arith,
    str_eq→eq _ _ (ground arith),
  )
]
