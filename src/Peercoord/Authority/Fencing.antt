-- ===== src/Peercoord/Authority/Fencing.antt =====
-- The leader's term as a fencing token (peercoord/engine.go).
use rysh_cli_shared.Prelude.{
  ℕ, Bool, not, true, false, ◌≡◌, ◌≢◌, refl, sym, ◌∙◌, ok, err, some, arith, inl, inr, lookup,
  Result-cases, Bool-cases, inc64, two_64, suc, ◌+◌, ◌<◌, str_eq→eq, Option-cases, List, [], ◌∷◌,
  length, subst,
}
use rysh_cli_shared.Peercoord.Types.{Peer, Agent, revoked, Code, Store, Request, Auth, Env}
use rysh_cli_shared.Peercoord.Text.{token_matches, is_admin}
use rysh_cli_shared.Peercoord.Transition.{
  Transition, peer, check_peer, check_agent, secret, is_revoked, own_agent, leader,
}
use rysh_cli_shared.Peercoord.Leaders.{leader_or_admin, handover}
use rysh_cli_shared.Peercoord.Tasks.{assign}
use rysh_cli_shared.Peercoord.Work.{review, retry, cancel, review_task, retry_task, cancel_task}
use rysh_cli_shared.Peercoord.Execution.{task, run_task}
use rysh_cli_shared.Peercoord.Engine.{
  Op, transact, apply_request, run_op, run_enabled, run_authenticated, run_board, op_of, begin,
  working_copy,
}
use rysh_cli_shared.Peercoord.Effects.Outline.{appoints, run_op-Outline}
use rysh_cli_shared.Peercoord.Lifecycle.Requests.{transact-runs}
use rysh_cli_shared.Peercoord.Lifecycle.Logs.{Call, next, serve, live_next}
use rysh_cli_shared.Peercoord.Authority.Terms.{
  Ahead, Ahead-inc64, Ahead-rests, Ahead-moves, Ahead-ne,
}

-- The operations that the caller may run in the leader's name alone: two of them are open to an
-- administrator as well.
unfoldable pub for_leader : Auth → Op → Bool
for_leader a Op.assign_op = true
for_leader a (Op.task_op review) = true
for_leader a (Op.task_op retry) = true
for_leader a (Op.task_op cancel) = not (is_admin a)
for_leader a Op.handover_op = not (is_admin a)
for_leader a _ = false

-- What `leader` has checked: the peer that the request names is the caller's own, in the incarnation
-- that owns it and with its token, and the endpoint of the request is that peer's, and leads.
pub record Leads (x : Transition) : Type 0 where
  pub owner : Peer
  pub owner_found : lookup x.request.peer_id x.store.state.peers ≡ some owner
  pub user : owner.user_id ≡ x.auth.user_id
  pub enrolled : owner.state ≢ revoked
  pub incarnation : x.request.incarnation ≡ owner.incarnation
  pub token : token_matches x.env x.auth.peer_token (secret owner.id x.store.peer_secrets) ≡ true
  pub agent : Agent
  pub found : lookup x.request.agent_id x.store.state.agents ≡ some agent
  pub owned : agent.peer_id ≡ owner.id
  pub is_leader : agent.id ≡ x.store.state.leadership.agent_id
  pub term : x.request.term ≡ x.store.state.leadership.term
  pub in_lease : x.now < x.store.state.leadership.lease_until
  pub unpaused : x.store.state.paused ≡ false

leader-Leads :
    (x : Transition) {a : Agent} (p : Peer) (b : Agent)
    → lookup x.request.peer_id x.store.state.peers ≡ some p
    → lookup x.request.agent_id x.store.state.agents ≡ some b
    → leader x ≡ ok a
    → Leads x
unfolding leader own_agent peer check_peer check_agent is_revoked
leader-Leads x p b d e h = record {
  owner = p;
  owner_found = d;
  user = str_eq→eq _ _ (ground arith);
  enrolled = λ q. ground arith;
  incarnation = str_eq→eq _ _ (ground arith);
  token = ground arith;
  agent = b;
  found = e;
  owned = str_eq→eq _ _ (ground arith);
  is_leader = str_eq→eq _ _ (ground arith);
  term = ground arith;
  in_lease = ground arith;
  unpaused = ground arith;
}

leader-caller :
    (x : Transition) {a : Agent}
    → leader x ≡ ok a
    → ((p : Peer) × (lookup x.request.peer_id x.store.state.peers ≡ some p))
      × ((b : Agent) × (lookup x.request.agent_id x.store.state.agents ≡ some b))
unfolding leader own_agent peer check_peer check_agent
leader-caller x {a} h = elim (Option-cases (lookup x.request.peer_id x.store.state.peers)) [
  | inl e ↦ absurd (ground arith)
  | inr (p, d) ↦ elim (Option-cases (lookup x.request.agent_id x.store.state.agents)) [
    | inl e ↦ absurd (ground arith)
    | inr (b, e) ↦ ((p, d), (b, e))
  ]
]

refused_without_leader :
    (x : Transition) (op : Op) {y : Transition} {e : Code}
    → leader x ≡ err e
    → for_leader x.auth op ≡ true
    → run_op op x ≢ ok y
unfolding for_leader run_op run_enabled run_authenticated run_board assign task run_task review_task
    retry_task cancel_task handover leader_or_admin
refused_without_leader x Op.assign_op p f h = ground arith
refused_without_leader x (Op.task_op review) p f h = ground arith
refused_without_leader x (Op.task_op retry) p f h = ground arith
refused_without_leader x (Op.task_op cancel) p f h = ground arith
refused_without_leader x Op.handover_op p f h = ground arith
refused_without_leader x _ p f h = ground arith

run_op-Leads :
    (x : Transition) (op : Op) {y : Transition}
    → for_leader x.auth op ≡ true
    → run_op op x ≡ ok y
    → Leads x
run_op-Leads x op f h = elim (Result-cases (leader x)) [
  | inl (a, p) ↦
      let (owner, agent) = leader-caller x p in leader-Leads x owner.0 agent.0 owner.1 agent.1 p
  | inr (e, p) ↦ absurd (refused_without_leader x op p f h)
]

-- A request to assign, review or retry a task, or one to cancel a task or to hand the leadership over
-- by who is no administrator, is accepted only from the user of a registration that is not revoked,
-- with its token and in the incarnation that owns it, and only for an endpoint of that registration
-- that leads, in its current term, before its lease has run out, and while the board is not paused.
pub transact-Leads :
    (env : Env) (s : Store) (a : Auth) (r : Request) (now : ℕ) {y : Transition}
    → for_leader a (op_of r.op) ≡ true
    → transact env s a r now ≡ ok y
    → Leads (begin env s a r now)
transact-Leads env s a r now f h =
    let (z, p, e) = transact-runs env s a r now h in
    run_op-Leads (begin env s a r now) (op_of r.op) f p

-- The term after an accepted request: the next one if the operation appoints a leader; otherwise
-- the leader and the term are as before.
pub transact-term :
    (env : Env) (s : Store) (a : Auth) (r : Request) (now : ℕ) {y : Transition}
    → s.state.peers_nil ≡ false
    → transact env s a r now ≡ ok y
    → (appoints (op_of r.op) ≡ true → y.store.state.leadership.term ≡ inc64 s.state.leadership.term)
      × (appoints (op_of r.op) ≡ false
          → (y.store.state.leadership.agent_id ≡ s.state.leadership.agent_id)
            × (y.store.state.leadership.term ≡ s.state.leadership.term))
transact-term env s a r now live h =
    let (z, p, e) = transact-runs env s a r now h in
    let x = begin env s a r now in
    let o = run_op-Outline x {y = z} refl (op_of r.op) p in
    (λ m. ground (arith, o.moved m), λ m. ground (arith, o.stayed m))

-- An accepted request leaves a store that is set up.
pub transact-live :
    (env : Env) (s : Store) (a : Auth) (r : Request) (now : ℕ) {y : Transition}
    → s.state.peers_nil ≡ false
    → transact env s a r now ≡ ok y
    → y.store.state.peers_nil ≡ false
transact-live env s a r now live h =
    let (z, p, e) = transact-runs env s a r now h in
    ground (arith, run_op-Outline (begin env s a r now) {y = z} refl (op_of r.op) p)

current_term :
    (x : Transition) (s : Store) (r : Request)
    → s.state.peers_nil ≡ false
    → x.request ≡ r
    → x.store ≡ working_copy s
    → Leads x
    → r.term ≡ s.state.leadership.term
current_term x s r live e f leads = ground (arith, leads.term)

-- The term after a request is the one before or the one after that.
next-Ahead :
    (t n : ℕ) (s : Store) (c : Call)
    → s.state.peers_nil ≡ false
    → Ahead t s.state.leadership.term n
    → Ahead t (next s c).state.leadership.term (suc n)
unfolding apply_request
next-Ahead t n s c live a = elim (Result-cases (transact c.env s c.auth c.request c.now)) [
  | inr (e, p) ↦ rw (p, next) (Ahead-rests t _ _ n refl a)
  | inl (y, p) ↦
      let q = transact-term c.env s c.auth c.request c.now {y = y} live p in
      let ahead : Ahead t y.store.state.leadership.term (suc n) =
        elim (Bool-cases (appoints (op_of c.request.op))) [
          | inl m ↦ Ahead-moves t _ _ n (q.0 m) a
          | inr m ↦ Ahead-rests t _ _ n (q.1 m).1 a
        ] in
      rw (p, next) ahead
]

serve-Ahead :
    (t n : ℕ) (s : Store) (cs : List Call)
    → s.state.peers_nil ≡ false
    → Ahead t s.state.leadership.term n
    → Ahead t (serve s cs).state.leadership.term (n + length cs)
      × ((serve s cs).state.peers_nil ≡ false)
unfolding serve
serve-Ahead t n s [] live a =
    let q : n ≡ n + 0 = omega arith in (subst (λ k. Ahead t s.state.leadership.term k) q a, live)
serve-Ahead t n s (c ∷ cs) live a =
    let (b, l) =
      serve-Ahead t (suc n) (next s c) cs (live_next s c live) (next-Ahead t n s c live a) in
    let q : suc n + length cs ≡ n + length (c ∷ cs) = omega arith in
    (subst (λ k. Ahead t (serve (next s c) cs).state.leadership.term k) q b, l)

-- Once a request has appointed a leader and after any log of further requests, accepted or not and
-- fewer than 2 ^ 64 - 1, no request in the term before the appointment to assign, review or retry a
-- task is accepted, and none by who is no administrator to cancel a task or to hand the leadership
-- over, whoever sends it and at whatever time.
pub deposed_leader_refused :
    (env env' : Env) (s : Store) (a a' : Auth) (r r' : Request) (now now' : ℕ) (cs : List Call)
    {y y' : Transition}
    → s.state.peers_nil ≡ false
    → transact env s a r now ≡ ok y
    → appoints (op_of r.op) ≡ true
    → 1 + length cs < two_64
    → r'.term ≡ s.state.leadership.term
    → for_leader a' (op_of r'.op) ≡ true
    → transact env' (serve y.store cs) a' r' now' ≢ ok y'
deposed_leader_refused env env' s a a' r r' now now' cs {y} {y'} live h m few t f h' =
    let old = s.state.leadership.term in
    let w = serve y.store cs in
    let appointed : Ahead old y.store.state.leadership.term 1 =
      subst (λ u. Ahead old u 1) (sym ((transact-term env s a r now live h).0 m))
        (Ahead-inc64 old) in
    let (ahead, live') =
      serve-Ahead old 1 y.store cs (transact-live env s a r now live h) appointed in
    let leads = transact-Leads env' w a' r' now' {y = y'} f h' in
    let same = current_term (begin env' w a' r' now') w r' live' refl refl leads in
    Ahead-ne old _ (1 + length cs) few ahead (sym same ∙ t)
