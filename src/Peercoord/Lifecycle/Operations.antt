-- ===== src/Peercoord/Lifecycle/Operations.antt =====
-- The shapes of `Effect` against the graph and `IsSound`.
use rysh_cli_shared.Prelude.{
  String, List, Bool, ◌≡◌, refl, sym, ap, ◌∙◌, subst, inl, inr, some, arith, Map, lookup, insert,
  map_values, lookup-insert, lookup-map_values, eq_iff, ◌==◌, if◌then◌else◌, ◌+◌, Bool-cases,
}
use rysh_cli_shared.Peercoord.Types.{Agent, Task, Leadership, offered, queued, Attempt, current}
use rysh_cli_shared.Peercoord.Transition.{Transition, secret}
use rysh_cli_shared.Peercoord.Registry.{hand_over}
use rysh_cli_shared.Peercoord.Tasks.{new_task, offer}
use rysh_cli_shared.Peercoord.Effects.Shape.{
  tasks_of, secrets_of, Move, Effect, untouched, handed, beaten, added, moved,
}
use rysh_cli_shared.Peercoord.Lifecycle.Graph.{Follows, rests}
use rysh_cli_shared.Peercoord.Lifecycle.Sound.{IsSound, IsFresh}
use rysh_cli_shared.Peercoord.Lifecycle.Moving.{Move-Follows}
use rysh_cli_shared.Peercoord.Lifecycle.Identity.{Move-id, Move-Stands, Move-secret}
use rysh_cli_shared.Peercoord.Lifecycle.Keeping.{IsSound-insert, IsSound-map_values}
use rysh_cli_shared.Peercoord.Lifecycle.Quiet.{
  hand_over-IsQuiet, hand_over-Follows, beat_task-IsQuiet, beat_task-Follows,
}

Follows-refl : {l l' : Leadership} (t : Task) → l'.term ≡ l.term → Follows l l' t t
Follows-refl t e = rests refl refl (λ w. e)

abbrev pub Goes : Leadership → Leadership → Map Task → Map Task → Type 0
Goes a b old new =
    (k : String) (t : Task)
    → lookup k old ≡ some t
    → (t' : Task) × (lookup k new ≡ some t') × Follows a b t t'

Goes-same : (a b : Leadership) (m m' : Map Task) → b.term ≡ a.term → m' ≡ m → Goes a b m m'
Goes-same a b m m' s e k t h = (t, ap (lookup k) e ∙ h, Follows-refl t s)

Goes-map :
    (a b : Leadership) (m m' : Map Task) (f : Task → Task)
    → ((t : Task) → Follows a b t (f t))
    → m' ≡ map_values f m
    → Goes a b m m'
Goes-map a b m m' f step e k t h =
    (f t, ap (lookup k) e ∙ ground (arith, lookup-map_values k f m), step t)

Goes-insert :
    (a b : Leadership) (m m' : Map Task) (j : String) (u : Task)
    → b.term ≡ a.term
    → ((t : Task) → lookup j m ≡ some t → Follows a b t u)
    → m' ≡ insert j u m
    → Goes a b m m'
Goes-insert a b m m' j u s step e k t h = elim (Bool-cases (j == k)) [
  | inl same ↦ (
    u,
    ap (lookup k) e ∙ ground (arith, lookup-insert k j u m),
    step t (subst (λ i. lookup i m ≡ some t) (sym ((eq_iff j k).0 same)) h),
  )
  | inr other ↦ (t, ap (lookup k) e ∙ ground (arith, lookup-insert k j u m), Follows-refl t s)
]

module _ (x y : Transition) (sound : IsSound (tasks_of x) (secrets_of x))
    (new : IsFresh x.env (tasks_of x) (secrets_of x)) where
  abbrev before : Leadership
  before = x.store.state.leadership

  abbrev after : Leadership
  after = y.store.state.leadership

  pub handed-Goes :
      tasks_of y ≡ map_values (hand_over after.agent_id after.term x.now) (tasks_of x)
      → Goes before after (tasks_of x) (tasks_of y)
  handed-Goes e =
      Goes-map before after (tasks_of x) (tasks_of y) _
        (λ t. hand_over-Follows after.agent_id after.term x.now before after t refl refl) e

  -- The other shapes, where the term stays.
  pub Effect-Goes :
      after.term ≡ before.term → Effect x y → Goes before after (tasks_of x) (tasks_of y)
  Effect-Goes s (untouched e f) = Goes-same before after (tasks_of x) (tasks_of y) s e
  Effect-Goes s (handed e f) = handed-Goes e
  Effect-Goes s (beaten p z e f) =
      Goes-map before after (tasks_of x) (tasks_of y) _
        (λ t. beat_task-Follows p z before after t s) e
  Effect-Goes s (added boss target deps ready t q e f) =
      Goes-insert before after (tasks_of x) (tasks_of y) t.id t s
        (λ u h. absurd (ground (arith, new.no_task x.minted))) e
  Effect-Goes s (moved k t at t' m l c move e f) =
      Goes-insert before after (tasks_of x) (tasks_of y) k t' s
        (λ u h.
          let same : some t ≡ some u = sym l ∙ h in
          subst (λ v. Follows before after v t') (cc)
            (Move-Follows x t at t' m (sound.unclaimed k t at l c) move))
        e

  moved-IsSound :
      (k : String) (t : Task) (at : Attempt) (t' : Task) (m : Map String)
      → lookup k (tasks_of x) ≡ some t
      → current t ≡ some at
      → Move x t at t' m
      → IsSound (insert k t' (tasks_of x)) m
  moved-IsSound k t at t' m l c move =
      let (at', c', s) = sound.in_step k t l in
      let both : some at' ≡ some at = sym c' ∙ c in
      let same : at' ≡ at = cc in
      let step : at.state ≡ t.state = subst (λ (a : Attempt). a.state ≡ t.state) same s in
      let stands = Move-Stands x t at t' m c step move in
      IsSound-insert (tasks_of x) (secrets_of x) m k t' stands.attempt sound
        (Move-id x t at t' m move ∙ sound.named k t l) stands.is_current stands.in_step
        (λ j u b h d e. elim stands.same_id [
          | inl p ↦ sound.apart k j t u at b l h c d (sym p ∙ e)
          | inr p ↦ absurd (new.no_attempt x.minted j u b h d (sym e ∙ p))
        ])
        (λ j u b h d n.
          Move-secret x t at t' m b.id (λ e. n (sound.apart k j t u at b l h c d (sym e))) move)
        (λ w.
          ap (λ i. secret i m) (stands.waiting_new w)
          ∙ (Move-secret x t at t' m (x.env.new_uuid x.minted)
                (λ e. new.no_attempt x.minted k t at l c (sym e)) move
              ∙ new.no_secret x.minted))

  added-IsSound :
      (boss target : Agent) (deps : List String) (ready : Bool) (t : Task)
      → t ≡ new_task boss target deps ready x
      → IsSound (insert t.id t (tasks_of x)) (secrets_of x)
  added-IsSound boss target deps ready t q =
      let own =
        offer (x.env.new_uuid (x.minted + 1)) 1 target.id (if ready then offered else queued) in
      IsSound-insert (tasks_of x) (secrets_of x) (secrets_of x) t.id t own sound refl
        (ap current q ∙ unfold current in refl) (ground arith)
        (λ j u b h d e. absurd (new.no_attempt (x.minted + 1) j u b h d (sym e)))
        (λ j u b h d n. refl) (λ w. new.no_secret (x.minted + 1))

  -- Every accepted operation keeps the tasks sound.
  pub Effect-IsSound : Effect x y → IsSound (tasks_of y) (secrets_of y)
  Effect-IsSound (untouched e f) = rw (e, f) sound
  Effect-IsSound (handed e f) =
      rw (e, f)
        (IsSound-map_values (tasks_of x) (secrets_of x) _ sound
          (hand_over-IsQuiet after.agent_id after.term x.now))
  Effect-IsSound (beaten p z e f) =
      rw (e, f) (IsSound-map_values (tasks_of x) (secrets_of x) _ sound (beat_task-IsQuiet p z))
  Effect-IsSound (added boss target deps ready t q e f) =
      rw (e, f) (added-IsSound boss target deps ready t q)
  Effect-IsSound (moved k t at t' m l c move e f) = rw (e, f) (moved-IsSound k t at t' m l c move)
