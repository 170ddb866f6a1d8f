-- ===== src/Peercoord/Lifecycle/Keeping.antt =====
-- How `IsSound` survives a write to one task, and a write to all of them.
use rysh_cli_shared.Prelude.{
  String, true, ◌≡◌, ◌≢◌, sym, ap, ◌∙◌, subst, inl, inr, some, arith, Map, lookup, insert,
  map_values, IsMap-insert, IsMap-map_values, lookup-insert_cases, lookup-map_values_cases,
}
use rysh_cli_shared.Peercoord.Types.{Task, Attempt, current}
use rysh_cli_shared.Peercoord.Transition.{secret}
use rysh_cli_shared.Peercoord.Registry.{is_waiting}
use rysh_cli_shared.Peercoord.Lifecycle.Sound.{IsSound}

-- A write of `new` at key k, whose current attempt is `own`.
module _ (tasks : Map Task) (m m' : Map String) (k : String) (new : Task) (own : Attempt)
    (sound : IsSound tasks m) (id : new.id ≡ k) (is_current : current new ≡ some own)
    (state : own.state ≡ new.state)
    (mine : (j : String) (u : Task) (b : Attempt)
      → lookup j tasks ≡ some u
      → current u ≡ some b
      → own.id ≡ b.id
      → k ≡ j)
    (others : (j : String) (u : Task) (b : Attempt)
      → lookup j tasks ≡ some u
      → current u ≡ some b
      → k ≢ j
      → secret b.id m' ≡ secret b.id m)
    (idle : is_waiting new.state ≡ true → secret own.id m' ≡ "") where
  named : (j : String) (u : Task) → lookup j (insert k new tasks) ≡ some u → u.id ≡ j
  named j u h = elim (lookup-insert_cases j k new tasks h) [
    | inl (e, f) ↦ ap (λ (t : Task). t.id) f ∙ (id ∙ e)
    | inr (n, g) ↦ sound.named j u g
  ]

  in_step :
      (j : String) (u : Task)
      → lookup j (insert k new tasks) ≡ some u
      → (at : Attempt) × (current u ≡ some at) × (at.state ≡ u.state)
  in_step j u h = elim (lookup-insert_cases j k new tasks h) [
    | inl (e, f) ↦ (own, ap current f ∙ is_current, state ∙ ap (λ (t : Task). t.state) (sym f))
    | inr (n, g) ↦ sound.in_step j u g
  ]

  same_own : (u : Task) (b : Attempt) → u ≡ new → current u ≡ some b → b ≡ own
  same_own u b f c = let e : some b ≡ some own = sym c ∙ (ap current f ∙ is_current) in cc

  unclaimed :
      (j : String) (u : Task) (b : Attempt)
      → lookup j (insert k new tasks) ≡ some u
      → current u ≡ some b
      → is_waiting u.state ≡ true
      → secret b.id m' ≡ ""
  unclaimed j u b h c w = elim (lookup-insert_cases j k new tasks h) [
    | inl (e, f) ↦
        ap (λ (a : Attempt). secret a.id m') (same_own u b f c)
        ∙ idle (subst (λ (t : Task). is_waiting t.state ≡ true) f w)
    | inr (n, g) ↦ others j u b g c n ∙ sound.unclaimed j u b g c w
  ]

  apart :
      (i j : String) (t u : Task) (a b : Attempt)
      → lookup i (insert k new tasks) ≡ some t
      → lookup j (insert k new tasks) ≡ some u
      → current t ≡ some a
      → current u ≡ some b
      → a.id ≡ b.id
      → i ≡ j
  apart i j t u a b h g c d e = elim (lookup-insert_cases i k new tasks h) [
    | inl (p, q) ↦ elim (lookup-insert_cases j k new tasks g) [
      | inl (r, s) ↦ sym p ∙ r
      | inr (n, s) ↦
          sym p ∙ mine j u b s d (ap (λ (z : Attempt). z.id) (sym (same_own t a q c)) ∙ e)
    ]
    | inr (n, p) ↦ elim (lookup-insert_cases j k new tasks g) [
      | inl (r, s) ↦
          sym (mine i t a p c (ap (λ (z : Attempt). z.id) (sym (same_own u b s d)) ∙ sym e)) ∙ r
      | inr (o, s) ↦ sound.apart i j t u a b p s c d e
    ]
  ]

  pub IsSound-insert : IsSound (insert k new tasks) m'
  IsSound-insert = record {
    keys = IsMap-insert k new tasks sound.keys;
    named = named;
    in_step = in_step;
    unclaimed = unclaimed;
    apart = apart;
  }

-- A write to each task that keeps its id, its state, and the id and state of its attempt.
pub record IsQuiet (f : Task → Task) : Type 0 where
  pub id : (t : Task) → (f t).id ≡ t.id
  pub state : (t : Task) → (f t).state ≡ t.state
  pub attempt :
      (t : Task) (at : Attempt)
      → current t ≡ some at
      → (b : Attempt) × (current (f t) ≡ some b) × (b.id ≡ at.id) × (b.state ≡ at.state)

module _ (tasks : Map Task) (m : Map String) (f : Task → Task) (sound : IsSound tasks m)
    (quiet : IsQuiet f) where
  -- The entry, and its attempt, from which an entry of the new map comes.
  source :
      (j : String) (u : Task) (b : Attempt)
      → lookup j (map_values f tasks) ≡ some u
      → current u ≡ some b
      → (t : Task) × (at : Attempt) × (lookup j tasks ≡ some t)
        × (current t ≡ some at)
        × (b.id ≡ at.id)
        × (u.state ≡ t.state)
  source j u b h c =
      let (t, l, e) = lookup-map_values_cases j f tasks h in
      let (at, d, s) = sound.in_step j t l in
      let (b', c', i, s') = quiet.attempt t at d in
      let same : some b ≡ some b' = sym c ∙ (ap current e ∙ c') in
      (t, at, l, d, ground arith, ap (λ (v : Task). v.state) e ∙ quiet.state t)

  pub IsSound-map_values : IsSound (map_values f tasks) m
  IsSound-map_values = record {
    keys = IsMap-map_values f tasks sound.keys;
    named = λ j u h.
        let (t, l, e) = lookup-map_values_cases j f tasks h in
        ap (λ (v : Task). v.id) e ∙ (quiet.id t ∙ sound.named j t l);
    in_step = λ j u h.
        let (t, l, e) = lookup-map_values_cases j f tasks h in
        let (at, d, s) = sound.in_step j t l in
        let (b, c, i, s') = quiet.attempt t at d in
        (
          b,
          ap current e ∙ c,
          s' ∙ (s ∙ (sym (quiet.state t) ∙ ap (λ (v : Task). v.state) (sym e))),
        );
    unclaimed = λ j u b h c w.
        let (t, at, l, d, i, s) = source j u b h c in
        ap (λ v. secret v m) i ∙ sound.unclaimed j t at l d (subst (λ v. is_waiting v ≡ true) s w);
    apart = λ i j t u a b h g c d e.
        let (t1, a1, l1, c1, i1, s1) = source i t a h c in
        let (t2, a2, l2, c2, i2, s2) = source j u b g d in
        sound.apart i j t1 t2 a1 a2 l1 l2 c1 c2 (sym i1 ∙ (e ∙ i2));
  }
