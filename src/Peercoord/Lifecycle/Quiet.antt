-- ===== src/Peercoord/Lifecycle/Quiet.antt =====
-- What appoint and a heartbeat do to each task.
use rysh_cli_shared.Prelude.{
  ℕ, String, true, false, ◌≡◌, refl, ap, ◌∙◌, ◌⊎◌, inl, inr, some, arith, Bool-cases,
}
use rysh_cli_shared.Peercoord.Types.{Peer, Task, Attempt, Leadership, current}
use rysh_cli_shared.Peercoord.Transition.{Transition}
use rysh_cli_shared.Peercoord.Registry.{is_waiting, hand_over}
use rysh_cli_shared.Peercoord.Board.{beat_task, keeps_lease, extend_lease}
use rysh_cli_shared.Peercoord.Work.{with_current}
use rysh_cli_shared.Peercoord.Lifecycle.Identity.{current-with_current}
use rysh_cli_shared.Peercoord.Lifecycle.Graph.{Follows, rests, reoffered}
use rysh_cli_shared.Peercoord.Lifecycle.Keeping.{IsQuiet}

module _ (leader : String) (term now : ℕ) where
  hand_over-attempts : (t : Task) → (hand_over leader term now t).attempts ≡ t.attempts
  unfolding hand_over
  hand_over-attempts t = ground arith

  pub hand_over-IsQuiet : IsQuiet (hand_over leader term now)
  unfolding hand_over current
  hand_over-IsQuiet = record {
    id = λ t. ground arith;
    state = λ t. ground arith;
    attempt = λ t at c. (at, ground (arith, hand_over-attempts t), refl, refl);
  }

  pub hand_over-Follows :
      (l l' : Leadership) (t : Task)
      → l'.agent_id ≡ leader
      → l'.term ≡ term
      → Follows l l' t (hand_over leader term now t)
  unfolding hand_over
  hand_over-Follows l l' t e f = elim (Bool-cases (is_waiting t.state)) [
    | inl w ↦ reoffered w (ground arith) (ground arith) (ground arith) (ground arith)
    | inr w ↦ rests (ground arith) (ground arith) (λ v. absurd (ground arith))
  ]

module _ (p : Peer) (x : Transition) where
  beat_task-fields :
      (t : Task)
      → ((beat_task p x t).id ≡ t.id)
        × ((beat_task p x t).state ≡ t.state)
        × ((beat_task p x t).version ≡ t.version)
  unfolding beat_task
  beat_task-fields t = ground arith

  beat_task-keeps :
      (t : Task) (at : Attempt)
      → current t ≡ some at
      → keeps_lease p x t at ≡ true
      → beat_task p x t ≡ with_current (extend_lease x.now) t
  unfolding beat_task
  beat_task-keeps t at c h = ground arith

  beat_task-rests :
      (t : Task) (at : Attempt)
      → current t ≡ some at
      → keeps_lease p x t at ≡ false
      → beat_task p x t ≡ t
  unfolding beat_task
  beat_task-rests t at c h = ground arith

  beat_task-current :
      (t : Task) (at : Attempt)
      → current t ≡ some at
      → (current (beat_task p x t) ≡ some at)
        ⊎ (current (beat_task p x t) ≡ some (extend_lease x.now at))
  beat_task-current t at c = elim (Bool-cases (keeps_lease p x t at)) [
    | inl h ↦
        inr
          (ap current (beat_task-keeps t at c h) ∙ current-with_current t at c (extend_lease x.now))
    | inr h ↦ inl (ap current (beat_task-rests t at c h) ∙ c)
  ]

  pub beat_task-IsQuiet : IsQuiet (beat_task p x)
  beat_task-IsQuiet = record {
    id = λ t. (beat_task-fields t).0;
    state = λ t. (beat_task-fields t).1;
    attempt = λ t at c. elim (beat_task-current t at c) [
      | inl e ↦ (at, e, refl, refl)
      | inr e ↦ (extend_lease x.now at, e, refl, refl)
    ];
  }

  pub beat_task-Follows :
      (l l' : Leadership) (t : Task) → l'.term ≡ l.term → Follows l l' t (beat_task p x t)
  beat_task-Follows l l' t e = rests (beat_task-fields t).1 (beat_task-fields t).2 (λ w. e)
