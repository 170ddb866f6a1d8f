-- ===== src/Agentic/TurnModel/Notes.antt =====
-- Where insertModelSwitchNotes writes its notes (agentic/turn_model.go), turn by turn.
use rysh_cli_shared.Prelude.{
  ℕ, suc, ◌<◌, ◌≤◌, Bool, true, false, ◌&&◌, ◌||◌, not, none, some, List, [], ◌∷◌, ◌≡◌, refl, ap,
  sym, ◌∙◌, if◌then◌else◌, Bool-cases, inl, inr, eqb, arith,
}
use rysh_cli_shared.Provider.Turns.{ConversationTurn}
use rysh_cli_shared.Agentic.TurnModel.{
  TurnAttribution, is_empty, same_producer, attribution_of, model_switch_note, is_attributed,
  attributed_runs, next_of, switch_notes, note_at, with_notes, write_notes,
  insert_model_switch_notes,
}

-- The producer of the first attributed turn, or the active model.
unfoldable pub producer : TurnAttribution → List ConversationTurn → TurnAttribution
producer active [] = active
producer active (t ∷ ts) =
    let rest = producer active ts in if is_attributed t then attribution_of t else rest

-- What follows the turn is another's, who is known.
unfoldable pub hands_over : TurnAttribution → ConversationTurn → List ConversationTurn → Bool
hands_over active t ts =
    let next = producer active ts in
    is_attributed t && not (same_producer next (attribution_of t) || is_empty next)

-- The transcript with a note directly after each turn that hands over.
unfoldable pub noted : (ℕ → ℕ) → TurnAttribution → ℕ → List ConversationTurn → List ConversationTurn
noted now active i [] = []
noted now active i (t ∷ ts) =
    let rest = noted now active (suc i) ts in
    if hands_over active t ts
    then t ∷ model_switch_note (now i) (attribution_of t) (producer active ts) ∷ rest
    else t ∷ rest

next_of-producer :
    (active : TurnAttribution) (i : ℕ) (ts : List ConversationTurn)
    → next_of active (attributed_runs i ts) ≡ producer active ts
unfolding attributed_runs producer
next_of-producer active i [] = refl
next_of-producer active i (t ∷ ts) = elim (Bool-cases (is_attributed t)) [
  | inl h ↦ rw h refl
  | inr h ↦ rw h (next_of-producer active (suc i) ts)
]

module _ (now : ℕ → ℕ) (active : TurnAttribution) where
  abbrev notes_from : ℕ → List ConversationTurn → List (ℕ × ConversationTurn)
  notes_from i ts = switch_notes now active (attributed_runs i ts)

  -- What a turn adds to the notes of the rest.
  notes_from-quiet :
      (i : ℕ) (t : ConversationTurn) (ts : List ConversationTurn)
      → hands_over active t ts ≡ false
      → notes_from i (t ∷ ts) ≡ notes_from (suc i) ts
  unfolding hands_over attributed_runs switch_notes
  notes_from-quiet i t ts h = elim (Bool-cases (is_attributed t)) [
    | inr k ↦ rw k refl
    | inl k ↦
        let q : (same_producer (producer active ts) (attribution_of t)
              || is_empty (producer active ts))
            ≡ true =
          ground (arith, h, k) in
        rw (k, next_of-producer active (suc i) ts, q) refl
  ]

  notes_from-handed :
      (i : ℕ) (t : ConversationTurn) (ts : List ConversationTurn)
      → hands_over active t ts ≡ true
      → notes_from i (t ∷ ts)
        ≡ (i, model_switch_note (now i) (attribution_of t) (producer active ts))
          ∷ notes_from (suc i) ts
  unfolding hands_over attributed_runs switch_notes
  notes_from-handed i t ts h =
      let k : is_attributed t ≡ true = ground (arith, h) in
      let q : (same_producer (producer active ts) (attribution_of t)
            || is_empty (producer active ts))
          ≡ false =
        ground (arith, h, k) in
      rw (k, next_of-producer active (suc i) ts, q) refl

  -- No note stands at an earlier place.
  note_at-earlier :
      (k i : ℕ) (ts : List ConversationTurn) → k < i → note_at k (notes_from i ts) ≡ none
  unfolding note_at attributed_runs switch_notes
  note_at-earlier k i [] h = refl
  note_at-earlier k i (t ∷ ts) h =
      let rest : note_at k (notes_from (suc i) ts) ≡ none =
        note_at-earlier k (suc i) ts (omega (arith, h)) in
      elim (Bool-cases (hands_over active t ts)) [
        | inr q ↦ ap (note_at k) (notes_from-quiet i t ts q) ∙ rest
        | inl q ↦
            let apart : eqb i k ≡ false = ground (arith, h) in
            ap (note_at k) (notes_from-handed i t ts q) ∙ rw apart rest
      ]

  -- The notes at the places from i on are those of the turns from there.
  abbrev Covers : List (ℕ × ConversationTurn) → ℕ → List ConversationTurn → Type 0
  Covers ns i ts = (k : ℕ) → i ≤ k → note_at k ns ≡ note_at k (notes_from i ts)

  with_notes-noted :
      (ns : List (ℕ × ConversationTurn)) (i : ℕ) (ts : List ConversationTurn)
      → Covers ns i ts
      → with_notes ns i ts ≡ noted now active i ts
  unfolding with_notes noted note_at
  with_notes-noted ns i [] c = refl
  with_notes-noted ns i (t ∷ ts) c = elim (Bool-cases (hands_over active t ts)) [
    | inr q ↦
        let here : note_at i ns ≡ none =
          c i (omega arith)
          ∙ ap (note_at i) (notes_from-quiet i t ts q)
          ∙ note_at-earlier i (suc i) ts (omega arith) in
        rw (here, q)
          (ap (λ us. t ∷ us)
            (with_notes-noted ns (suc i) ts
              (λ k h. c k (omega (arith, h)) ∙ ap (note_at k) (notes_from-quiet i t ts q))))
    | inl q ↦
        let same : eqb i i ≡ true = ground arith in
        let note = model_switch_note (now i) (attribution_of t) (producer active ts) in
        let here : note_at i ns ≡ some note =
          c i (omega arith) ∙ ap (note_at i) (notes_from-handed i t ts q) ∙ rw same refl in
        rw (here, q)
          (ap (λ us. t ∷ note ∷ us)
            (with_notes-noted ns (suc i) ts (λ k h.
              let apart : eqb i k ≡ false = ground (arith, h) in
              c k (omega (arith, h))
              ∙ ap (note_at k) (notes_from-handed i t ts q)
              ∙ rw apart refl)))
  ]

unwritten : (i : ℕ) (ts : List ConversationTurn) → with_notes [] i ts ≡ ts
unfolding with_notes note_at
unwritten i [] = refl
unwritten i (t ∷ ts) = ap (λ us. t ∷ us) (unwritten (suc i) ts)

write_notes-with_notes :
    (ns : List (ℕ × ConversationTurn)) (ts : List ConversationTurn)
    → write_notes ns ts ≡ with_notes ns 0 ts
write_notes-with_notes [] ts = sym (unwritten 0 ts)
write_notes-with_notes (n ∷ ns) ts = refl

-- insertModelSwitchNotes writes a note directly after each assistant turn that names its producer and
-- is followed by another: by the next such turn, or by the active model where none is left. It writes
-- no other note, and changes nothing if there is none to write.
pub insert_model_switch_notes-noted :
    (now : ℕ → ℕ) (ts : List ConversationTurn) (active : TurnAttribution)
    → insert_model_switch_notes now ts active ≡ noted now active 0 ts
unfolding insert_model_switch_notes
insert_model_switch_notes-noted now ts active =
    write_notes-with_notes (switch_notes now active (attributed_runs 0 ts)) ts
    ∙ with_notes-noted now active (switch_notes now active (attributed_runs 0 ts)) 0 ts
        (λ k h. refl)
