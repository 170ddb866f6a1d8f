-- ===== src/Peercoord/Tests.antt =====
-- The theorems on peercoord/engine.go at the board of its test.
use text.Mathlib.Text.{starts_with}
use text.Mathlib.TextPositions.{starts_with-append}
use rysh_cli_shared.Prelude.{
  ℕ, ◌≤◌, String, List, [], ◌∷◌, true, false, ◌≡◌, ◌≢◌, ◌⊎◌, refl, ok, err, some, none, ◌<>◌,
  show_int, lookup, subst, arith, inc64, len, Map, eq_iff, sym, ap, ◌∙◌,
}
use rysh_cli_shared.Peercoord.Types.{
  Peer, revoked, Task, Attempt, completed, Store, Auth, Request, current, new_store,
}
use rysh_cli_shared.Peercoord.Transition.{Transition, Outcome, secret}
use rysh_cli_shared.Peercoord.Fixture.{
  step, beat, init_request, join_request, env, owner, member, by_leader, by_worker, assign_request,
  claim_request, start_request, result_request, review_request, handover_request, ready_board,
  assigned, claimed_board, started_board, submitted_board, done_board, engine,
}
use rysh_cli_shared.Peercoord.Engine.{apply_request, transact, begin, op_of, verify_peer}
use rysh_cli_shared.Peercoord.Lifecycle.Graph.{◌⟶*◌, Follows}
use rysh_cli_shared.Peercoord.Lifecycle.Sound.{WellFormed, IsFresh}
use rysh_cli_shared.Peercoord.Lifecycle.Requests.{
  FreshFor, apply_request-Follows, apply_request-WellFormed,
}
use rysh_cli_shared.Peercoord.Lifecycle.Logs.{Call, serve, FreshRun, serve-path, serve-completed}
use rysh_cli_shared.Peercoord.Lifecycle.Capacity.{in_work, Took, transact-capacity}
use rysh_cli_shared.Peercoord.Authority.Fencing.{
  Leads, for_leader, transact-Leads, transact-term, deposed_leader_refused,
}
use rysh_cli_shared.Peercoord.Effects.Outline.{appoints}
use rysh_cli_shared.Peercoord.Authority.Credentials.{
  registers, transact-verify_peer, verify_peer_sound,
}
use rysh_cli_shared.Peercoord.Authority.Claims.{Claimed, transact-Claimed}

-- The boards follow from one another by the requests.
boards_lem :
    (step "B" member (beat by_worker) (
        step "A" owner
          (beat by_leader)
          (step "W" member join_request (step "L" owner init_request new_store)))
      ≡ ready_board)
    × (step "T" owner assign_request ready_board ≡ assigned)
    × (step "C" member claim_request assigned ≡ claimed_board)
    × (step "D" member start_request claimed_board ≡ started_board)
    × (step "E" member result_request started_board ≡ submitted_board)
    × (step "F" owner review_request submitted_board ≡ done_board)
unfolding engine
boards_lem = (refl, refl, refl, refl, refl, refl)

-- A text with another beginning is another text.
prefix_ne : (p s t : String) → starts_with t p ≡ false → p <> s ≢ t
prefix_ne p s t h e = cc (subst (λ u. starts_with u p ≡ true) e (starts_with-append p s))

ready_board-WellFormed : WellFormed ready_board
unfolding engine
ready_board-WellFormed = record {
  keys = tt;
  named = λ k t h. ground arith;
  in_step = λ k t h. absurd (ground arith);
  unclaimed = λ k t at h c w. absurd (ground arith);
  apart = λ k j t u a b h g c d e. absurd (ground arith);
}

ready_fresh : FreshFor (env "T") ready_board
unfolding engine
ready_fresh = record {
  no_task = λ n. refl;
  no_attempt = λ n k t at h c. absurd (ground arith);
  no_secret = λ n. refl;
}

assigned-WellFormed : WellFormed assigned
unfolding engine
assigned-WellFormed =
    apply_request-WellFormed (env "T") ready_board owner assign_request 1000 refl
      ready_board-WellFormed ready_fresh

-- UUIDs with another beginning are new to a board with one task.
one_task-IsFresh :
    (name : String) (t : Task) (at : Attempt) (secrets : Map String)
    → current t ≡ some at
    → starts_with at.id (name <> "-") ≡ false
    → starts_with "T-0" (name <> "-") ≡ false
    → ((n : ℕ) → secret ((name <> "-") <> show_int n) secrets ≡ "")
    → IsFresh (env name) (("T-0", t) ∷ []) secrets
unfolding lookup
one_task-IsFresh name t at secrets c p q r = record {
  no_task = λ n.
      let ne = prefix_ne (name <> "-") (show_int n) "T-0" q in
      ground (
        arith,
        eq_iff "T-0" ((name <> "-") <> show_int n),
        λ (e : "T-0" ≡ ((name <> "-") <> show_int n)). ne (sym e),
      );
  no_attempt = λ n k u b h d e.
      let same : b ≡ at = ground arith in
      prefix_ne (name <> "-") (show_int n) at.id p (sym e ∙ ap (λ (a : Attempt). a.id) same);
  no_secret = r;
}

-- No credential stands under a UUID with another beginning than the attempt's id.
one_secret :
    (name v : String)
    → starts_with "T-1" (name <> "-") ≡ false
    → (n : ℕ) → secret ((name <> "-") <> show_int n) (("T-1", v) ∷ []) ≡ ""
unfolding lookup
one_secret name v q n =
    let ne = prefix_ne (name <> "-") (show_int n) "T-1" q in
    ground (
      arith,
      eq_iff "T-1" ((name <> "-") <> show_int n),
      λ (e : "T-1" ≡ ((name <> "-") <> show_int n)). ne (sym e),
    )

assigned_fresh : FreshFor (env "C") assigned
unfolding engine
assigned_fresh = one_task-IsFresh "C" _ _ [] refl refl refl (λ n. refl)

claimed_fresh : FreshFor (env "D") claimed_board
unfolding engine
claimed_fresh = one_task-IsFresh "D" _ _ _ refl refl refl (one_secret "D" _ refl)

started_fresh : FreshFor (env "E") started_board
unfolding engine
started_fresh = one_task-IsFresh "E" _ _ _ refl refl refl (one_secret "E" _ refl)

submitted_fresh : FreshFor (env "F") submitted_board
unfolding engine
submitted_fresh = one_task-IsFresh "F" _ _ _ refl refl refl (one_secret "F" _ refl)

done_fresh : FreshFor (env "G") done_board
unfolding engine
done_fresh = one_task-IsFresh "G" _ _ _ refl refl refl (one_secret "G" _ refl)

claimed_board-WellFormed : WellFormed claimed_board
unfolding engine
claimed_board-WellFormed =
    apply_request-WellFormed (env "C") assigned member claim_request 1000 refl assigned-WellFormed
      assigned_fresh

started_board-WellFormed : WellFormed started_board
unfolding engine
started_board-WellFormed =
    apply_request-WellFormed (env "D") claimed_board member start_request 1000 refl
      claimed_board-WellFormed claimed_fresh

submitted_board-WellFormed : WellFormed submitted_board
unfolding engine
submitted_board-WellFormed =
    apply_request-WellFormed (env "E") started_board member result_request 1000 refl
      started_board-WellFormed started_fresh

apply_request-WellFormed_example :
    WellFormed (apply_request (env "F") submitted_board owner review_request 1000).store
unfolding engine
apply_request-WellFormed_example =
    apply_request-WellFormed (env "F") submitted_board owner review_request 1000 refl
      submitted_board-WellFormed submitted_fresh

done_board-WellFormed : WellFormed done_board
unfolding engine
done_board-WellFormed =
    apply_request-WellFormed (env "F") submitted_board owner review_request 1000 refl
      submitted_board-WellFormed submitted_fresh

abbrev no_task : Task
no_task = record {
  id = "";
  number = 0;
  thread_id = "";
  objective = "";
  criteria = "";
  project = "";
  base = "";
  runner = "";
  agent_id = "";
  leader_id = "";
  leader_term = 0;
  version = 0;
  state = completed;
  dependencies = [];
  max_runtime_seconds = 0;
  created_at = 0;
  updated_at = 0;
  attempts = [];
}

-- The only task of a board of the fixture.
abbrev the_task : Store → Task
the_task s = elim (lookup "T-0" s.state.tasks) [ none ↦ no_task | some t ↦ t ]

apply_request-Follows_example :
    (t' : Task) × (lookup "T-0"
        (apply_request (env "C") assigned member claim_request 1000).store.state.tasks
      ≡ some t')
    × Follows assigned.state.leadership
        (apply_request (env "C") assigned member claim_request 1000).store.state.leadership
        (the_task assigned)
        t'
unfolding engine
apply_request-Follows_example =
    apply_request-Follows (env "C") assigned member claim_request 1000 refl assigned-WellFormed
      assigned_fresh "T-0" (the_task assigned) refl

-- The claim, the start and the result.
abbrev work_log : List Call
work_log =
    record { env = env "C"; auth = member; request = claim_request; now = 1000 }
    ∷ record { env = env "D"; auth = member; request = start_request; now = 1000 }
    ∷ record { env = env "E"; auth = member; request = result_request; now = 1000 }
    ∷ []

work_fresh : FreshRun assigned work_log
unfolding engine
work_fresh = (assigned_fresh, (claimed_fresh, (started_fresh, tt)))

serve-path_example :
    (t' : Task) × (lookup "T-0" (serve assigned work_log).state.tasks ≡ some t')
    × ((the_task assigned).state ⟶* t'.state)
unfolding engine
serve-path_example =
    serve-path assigned work_log "T-0" (the_task assigned) refl assigned-WellFormed work_fresh refl

abbrev late_log : List Call
late_log = record { env = env "G"; auth = owner; request = review_request; now = 1000 } ∷ []

serve-completed_example :
    (t' : Task) × (lookup "T-0" (serve done_board late_log).state.tasks ≡ some t')
    × (t'.state ≡ completed)
    × (t'.version ≡ (the_task done_board).version)
unfolding engine
serve-completed_example =
    serve-completed done_board late_log "T-0" (the_task done_board) refl done_board-WellFormed
      (done_fresh, tt) refl refl

-- The transition that an accepted request ends in.
abbrev done : Transition → Outcome Transition → Transition
done d r = elim r [ ok y ↦ y | err e ↦ d ]

abbrev run : String → Store → Auth → Request → Transition
run name s a r = done (begin (env name) s a r 1000) (transact (env name) s a r 1000)

transact-capacity_example :
    (in_work "W-1" (run "C" assigned member claim_request).store.state.tasks
      ≤ in_work "W-1" assigned.state.tasks)
    ⊎ Took
        (begin (env "C") assigned member claim_request 1000)
        (run "C" assigned member claim_request)
        "W-1"
unfolding engine
transact-capacity_example =
    transact-capacity (env "C") assigned member claim_request 1000 "W-1"
      {y = run "C" assigned member claim_request} assigned-WellFormed assigned_fresh refl

transact-Claimed_example :
    Claimed
      (begin (env "C") assigned member claim_request 1000)
      (run "C" assigned member claim_request)
unfolding engine
transact-Claimed_example =
    transact-Claimed (env "C") assigned member claim_request 1000
      {y = run "C" assigned member claim_request} assigned-WellFormed refl refl

transact-Leads_example : Leads (begin (env "T") ready_board owner assign_request 1000)
unfolding engine for_leader
transact-Leads_example =
    transact-Leads (env "T") ready_board owner assign_request 1000
      {y = run "T" ready_board owner assign_request} refl refl

transact-term_example :
    (appoints (op_of handover_request.op) ≡ true
      → (run "H" done_board owner handover_request).store.state.leadership.term
        ≡ inc64 done_board.state.leadership.term)
    × (appoints (op_of handover_request.op) ≡ false
        → ((run "H" done_board owner handover_request).store.state.leadership.agent_id
            ≡ done_board.state.leadership.agent_id)
          × ((run "H" done_board owner handover_request).store.state.leadership.term
              ≡ done_board.state.leadership.term))
unfolding engine
transact-term_example =
    transact-term (env "H") done_board owner handover_request 1000
      {y = run "H" done_board owner handover_request} refl refl

-- The leadership is handed over once more.
abbrev handover_log : List Call
handover_log = record { env = env "I"; auth = owner; request = handover_request; now = 1500 } ∷ []

deposed_leader_refused_example :
    transact
      (env "T")
      (serve (run "H" done_board owner handover_request).store handover_log)
      owner
      assign_request
      2000
    ≢ ok (begin (env "T") done_board owner assign_request 2000)
unfolding engine for_leader appoints
deposed_leader_refused_example =
    deposed_leader_refused (env "H") (env "T") done_board owner owner handover_request
      assign_request 1000 2000 handover_log {y = run "H" done_board owner handover_request} refl
      refl refl (omega arith) refl refl

transact-verify_peer_example : verify_peer (env "T") ready_board owner assign_request ≡ none
unfolding engine registers
transact-verify_peer_example =
    transact-verify_peer (env "T") ready_board owner assign_request 1000
      {y = run "T" ready_board owner assign_request} refl refl

verify_peer_sound_example :
    (p : Peer) × (lookup "L-0" ready_board.state.peers ≡ some p)
    × (p.user_id ≡ "ann")
    × (p.state ≢ revoked)
    × ("i1" ≡ p.incarnation)
    × (32 ≤ len owner.peer_token)
    × (owner.peer_token ≡ secret p.id ready_board.peer_secrets)
unfolding engine
verify_peer_sound_example = verify_peer_sound (env "T") ready_board owner assign_request refl
