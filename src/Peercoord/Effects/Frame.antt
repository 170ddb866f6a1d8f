-- ===== src/Peercoord/Effects/Frame.antt =====
-- Joining and registering, and the parts of the store that they are not about (peercoord/engine.go).
use rysh_cli_shared.Prelude.{◌≡◌, ok, some, none, Option, String, arith, find_entry}
use rysh_cli_shared.Peercoord.Types.{Peer, Agent}
use rysh_cli_shared.Peercoord.Transition.{Transition}
use rysh_cli_shared.Peercoord.Registry.{
  join, join_as, rejoin, add_peer, same_session, register, register_as, add_agent, same_endpoint,
}

pub record SameWork (x y : Transition) : Type 0 where
  pub env : y.env ≡ x.env
  pub auth : y.auth ≡ x.auth
  pub now : y.now ≡ x.now
  pub tasks : y.store.state.tasks ≡ x.store.state.tasks
  pub secrets : y.store.execution_secrets ≡ x.store.execution_secrets
  pub leadership : y.store.state.leadership ≡ x.store.state.leadership
  pub next_task : y.store.state.next_task ≡ x.store.state.next_task

pub SameWork-refl : (x : Transition) → SameWork x x
SameWork-refl x = ground arith

pub SameWork-trans : {x y z : Transition} → SameWork x y → SameWork y z → SameWork x z
SameWork-trans h k = ground arith

join_as-SameWork :
    (x : Transition) (o : Option (String × Peer)) {p : Peer} {y : Transition}
    → join_as o x ≡ ok (p, y)
    → SameWork x y
unfolding join_as rejoin add_peer
join_as-SameWork x none h = ground arith
join_as-SameWork x (some (k, q)) h = ground arith

pub join-SameWork : (x : Transition) {p : Peer} {y : Transition} → join x ≡ ok (p, y) → SameWork x y
unfolding join
join-SameWork x {p} {y} h =
    ground
      (arith, join_as-SameWork x (find_entry (same_session x) x.store.state.peers) {p = p} {y = y})

register_as-SameWork :
    (p : Peer) (x : Transition) (o : Option (String × Agent)) {a : Agent} {y : Transition}
    → register_as p o x ≡ ok (a, y)
    → SameWork x y
unfolding register_as add_agent
register_as-SameWork p x none h = ground arith
register_as-SameWork p x (some (k, q)) h = ground arith

pub register-SameWork :
    (p : Peer) (x : Transition) {a : Agent} {y : Transition}
    → register p x ≡ ok (a, y)
    → SameWork x y
unfolding register
register-SameWork p x {a} {y} h = ground (
  arith,
  register_as-SameWork p x (find_entry (same_endpoint p x.request) x.store.state.agents) {a = a}
      {y = y},
)
