-- ===== src/Agentic/Orchestrator/Rounds/Producers.antt =====
-- Who has written the turns of a transcript (agentic/turn_model.go), and the compaction of it
-- (agentic/orchestrator.go).
use rysh_cli_shared.Prelude.{
  ℕ, zero, suc, ◌-◌, Bool, true, false, ◌&&◌, ◌||◌, not, List, [], ◌∷◌, ◌++◌, ◌≡◌, refl, ap, sym,
  subst, ◌∙◌, Bool-cases, inl, inr, and-eq_true, str_eq→eq, arith, if-holds, length, leb,
  drop_first,
}
use rysh_cli_shared.Provider.Turns.{ConversationTurn}
use rysh_cli_shared.Agentic.TurnModel.{
  TurnAttribution, same_producer, attribution_of, is_attributed,
}
use rysh_cli_shared.Agentic.TurnModel.Notes.{producer, hands_over}
use rysh_cli_shared.Agentic.TurnModel.Handover.{settled}
use rysh_cli_shared.Agentic.Orchestrator.State.{Env, Desk, Orchestrator}
use rysh_cli_shared.Agentic.Orchestrator.Compaction.{
  compaction_due, safe_compaction_cut_index, keep_recent, summary_turn, compact_at,
  compact_conversation,
}
use rysh_cli_shared.Agentic.Orchestrator.Rounds.{active_attribution, prepare, spend_grounding}
use rysh_cli_shared.Agentic.Orchestrator.Rounds.Outcomes.{spend_grounding-conversation}

-- No turn with calls is followed by another producer.
abbrev pub IsSettled : Env → List ConversationTurn → Type 0
IsSettled e ts = settled (active_attribution e) ts ≡ true

-- The turns that name a producer name the active one.
unfoldable pub own : TurnAttribution → List ConversationTurn → Bool
own active [] = true
own active (t ∷ ts) =
    (not (is_attributed t) || same_producer active (attribution_of t)) && own active ts

and_true : (b : Bool) → b ≡ true → (b && true) ≡ true
and_true b h = ground (arith, h)

module _ (active : TurnAttribution) where
  same_producer-eq : (a b : TurnAttribution) → same_producer a b ≡ true → a ≡ b
  same_producer-eq a b h =
      ap (λ n. record { provider_name = n; model = a.model })
        (str_eq→eq a.provider_name b.provider_name (and-eq_true h).0)
      ∙ ap (λ m. record { provider_name = b.provider_name; model = m })
          (str_eq→eq a.model b.model (and-eq_true h).1)

  producer-own : (ts : List ConversationTurn) → own active ts ≡ true → producer active ts ≡ active
  unfolding own producer
  producer-own [] h = refl
  producer-own (t ∷ ts) h = elim (Bool-cases (is_attributed t)) [
    | inl k ↦ rw k (sym (same_producer-eq active (attribution_of t) (ground (arith, h, k))))
    | inr k ↦ rw k (producer-own ts (and-eq_true h).1)
  ]

  producer-append :
      (ts us : List ConversationTurn)
      → own active us ≡ true
      → producer active (ts ++ us) ≡ producer active ts
  unfolding producer
  producer-append [] us h = producer-own us h
  producer-append (t ∷ ts) us h = rw (producer-append ts us h) refl

  own-stays :
      (t : ConversationTurn) (ts : List ConversationTurn)
      → own active (t ∷ ts) ≡ true
      → producer active ts ≡ active
      → hands_over active t ts ≡ false
  unfolding own hands_over
  own-stays t ts h n = elim (Bool-cases (is_attributed t)) [
    | inr k ↦ rw k refl
    | inl k ↦
        let q : same_producer active (attribution_of t) ≡ true = ground (arith, h, k) in
        rw (k, n, q) refl
  ]

  settled-own : (ts : List ConversationTurn) → own active ts ≡ true → settled active ts ≡ true
  unfolding own settled
  settled-own [] h = refl
  settled-own (t ∷ ts) h =
      let stays : hands_over active t ts ≡ false =
        own-stays t ts h (producer-own ts (and-eq_true h).1) in
      rw stays (settled-own ts (and-eq_true h).1)

  pub settled-append :
      (ts us : List ConversationTurn)
      → settled active ts ≡ true
      → own active us ≡ true
      → settled active (ts ++ us) ≡ true
  unfolding settled hands_over
  settled-append [] us s h = settled-own us h
  settled-append (t ∷ ts) us s h =
      let rest : settled active (ts ++ us) ≡ true = settled-append ts us (and-eq_true s).1 h in
      rw (producer-append ts us h, rest) (and_true _ (and-eq_true s).0)

  settled-drop_first :
      (n : ℕ) (ts : List ConversationTurn)
      → settled active ts ≡ true
      → settled active (drop_first n ts) ≡ true
  unfolding settled
  settled-drop_first zero ts s = s
  settled-drop_first (suc n) [] s = s
  settled-drop_first (suc n) (t ∷ ts) s = settled-drop_first n ts (and-eq_true s).1

summary_turn-unattributed :
    (e : Env) (d : Desk) (n : ℕ) (t : ConversationTurn) (ts : List ConversationTurn)
    → is_attributed (summary_turn e d n t ts) ≡ false
unfolding is_attributed
summary_turn-unattributed e d n t ts = refl

settled-plain :
    (active : TurnAttribution) (t : ConversationTurn) (ts : List ConversationTurn)
    → is_attributed t ≡ false
    → settled active ts ≡ true
    → settled active (t ∷ ts) ≡ true
unfolding settled hands_over
settled-plain active t ts k s = rw (k, s) refl

compact_at-IsSettled :
    (e : Env) (d : Desk) (n : ℕ) (ts : List ConversationTurn)
    → IsSettled e ts
    → IsSettled e (compact_at e d n ts)
compact_at-IsSettled e d n [] s = s
compact_at-IsSettled e d n (t ∷ ts) s =
    settled-plain (active_attribution e) _ _ (summary_turn-unattributed e d n t (t ∷ ts))
      (settled-drop_first (active_attribution e) n (t ∷ ts) s)

compact_conversation-IsSettled :
    (e : Env) (o : Orchestrator)
    → IsSettled e o.conversation
    → IsSettled e (compact_conversation e o).conversation
unfolding compact_conversation
compact_conversation-IsSettled e o s =
    let cut = safe_compaction_cut_index (length o.conversation - keep_recent) o.conversation in
    if-holds {A = Orchestrator} (λ x. IsSettled e x.conversation) (leb cut 0) _ _ (λ z. s)
      (λ z. compact_at-IsSettled e o.desk cut o.conversation s)

pub prepare-IsSettled :
    (e : Env) (o : Orchestrator)
    → IsSettled e o.conversation
    → IsSettled e (prepare e o).conversation
unfolding prepare
prepare-IsSettled e o s =
    let o1 : Orchestrator = spend_grounding (record o { iteration = suc o.iteration }) in
    let q : IsSettled e o1.conversation =
      subst (IsSettled e)
        (sym (spend_grounding-conversation (record o { iteration = suc o.iteration }))) s in
    if-holds {A = Orchestrator} (λ x. IsSettled e x.conversation)
      (compaction_due e.context_token_limit o1.last_input_tokens (length o1.conversation)) _ _
      (λ h. compact_conversation-IsSettled e o1 q) (λ h. q)
