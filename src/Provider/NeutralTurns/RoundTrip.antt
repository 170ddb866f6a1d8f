-- ===== src/Provider/NeutralTurns/RoundTrip.antt =====
-- What the conversion to neutral turns and back keeps (provider/turns.go).
use rysh_cli_shared.Prelude.{
  String, Bool, true, false, ◌&&◌, ◌||◌, not, List, [], ◌∷◌, ◌++◌, ◌≡◌, refl, ap, sym, ◌∙◌, ◌==◌,
  map, Bool-cases, inl, inr, and-eq_true, str_eq→eq, arith,
}
use rysh_cli_shared.Provider.Turns.{ConversationTurn, no_calls}
use rysh_cli_shared.Provider.NeutralTurns.{
  Turn, Emitting, content_blocks_of, turn_from_conversation, turns_from_conversation, emit,
  emit_all, conversation_turns_from_turn, conversation_from_turns, blank_turn,
}
use rysh_cli_shared.Provider.NeutralTurns.Emissions.{
  all_plain, starts_with_text, no_requests, at_first, emit_all-whole,
}

-- The shapes that come back as they were: plain blocks, no text block at the place of an empty
-- content, and an answer only in a tool turn.
pub record IsCanonical (t : ConversationTurn) : Type 0 where
  pub blocks : all_plain t.content_blocks ≡ true
  pub apart :
      ((t.role == "tool")
        || not (t.content == "")
        || not (no_requests t.tool_calls)
        || not (starts_with_text t.content_blocks))
      ≡ true
  pub answer : ((t.role == "tool") || ((t.tool_call_id == "") && not t.is_error)) ≡ true

-- What a neutral turn has no place for is left out.
abbrev pub without_producer : ConversationTurn → ConversationTurn
without_producer t = record t { provider_name = ""; model = ""; sub_agent_calls = no_calls }

-- The turn at the end of the loop.
abbrev result_of : Emitting → List ConversationTurn
result_of x = x.emitted ++ x.carrier ∷ []

-- The first turn after the thinking blocks.
abbrev thought : ConversationTurn → ConversationTurn
thought t = record (blank_turn (turn_from_conversation t) t.role) { thinking = t.thinking }

tool_content :
    (n : Turn) (t c : ConversationTurn)
    → (t.role == "tool") ≡ true
    → (n.role == "tool") ≡ true
    → emit_all n (content_blocks_of t) (at_first c false true)
      ≡ at_first
          (record c { content = t.content; tool_call_id = t.tool_call_id; is_error = t.is_error })
          true
          false
unfolding content_blocks_of emit_all emit
tool_content n t c w v = rw (w, v) refl

no_content :
    (n : Turn) (t c : ConversationTurn)
    → (t.role == "tool") ≡ false
    → (t.content == "") ≡ true
    → emit_all n (content_blocks_of t) (at_first c false true) ≡ at_first c false true
unfolding content_blocks_of emit_all
no_content n t c w e = rw (w, e) refl

text_content :
    (n : Turn) (t c : ConversationTurn)
    → (t.role == "tool") ≡ false
    → (n.role == "tool") ≡ false
    → (t.content == "") ≡ false
    → emit_all n (content_blocks_of t) (at_first c false true)
      ≡ at_first (record c { content = t.content }) false false
unfolding content_blocks_of emit_all emit
text_content n t c w v e = rw (w, e, v) refl

-- A turn without an answer.
abbrev plain_turn : String → String → Bool → ConversationTurn → ConversationTurn
plain_turn content id is_error t = record (without_producer t) {
  content = content;
  tool_call_id = id;
  is_error = is_error;
}

unanswering :
    (t : ConversationTurn)
    → ((t.tool_call_id == "") && not t.is_error) ≡ true
    → plain_turn t.content "" false t ≡ without_producer t
unanswering t h =
    let f : false ≡ t.is_error = sym (ground (arith, h)) in
    ap (λ id. plain_turn t.content id false t) (sym (str_eq→eq t.tool_call_id "" (and-eq_true h).0))
    ∙ ap (λ b. plain_turn t.content t.tool_call_id b t) f

tool_back :
    (t : ConversationTurn)
    → IsCanonical t
    → (t.role == "tool") ≡ true
    → conversation_turns_from_turn (turn_from_conversation t) ≡ without_producer t ∷ []
unfolding conversation_turns_from_turn turn_from_conversation
tool_back t h w = ap result_of (
    emit_all-whole (turn_from_conversation t) t
      (record (thought t) {
        content = t.content;
        tool_call_id = t.tool_call_id;
        is_error = t.is_error;
      })
      true false (content_blocks_of t) h.blocks (rw w refl)
      (tool_content (turn_from_conversation t) t (thought t) w w))

empty_back :
    (t : ConversationTurn)
    → IsCanonical t
    → (t.role == "tool") ≡ false
    → (t.content == "") ≡ true
    → conversation_turns_from_turn (turn_from_conversation t) ≡ plain_turn "" "" false t ∷ []
unfolding conversation_turns_from_turn turn_from_conversation
empty_back t h w e =
    let a = h.apart in
    ap result_of (
      emit_all-whole (turn_from_conversation t) t (thought t) false true (content_blocks_of t)
        h.blocks (ground (arith, a, w, e))
        (no_content (turn_from_conversation t) t (thought t) w e))

written_back :
    (t : ConversationTurn)
    → IsCanonical t
    → (t.role == "tool") ≡ false
    → (t.content == "") ≡ false
    → conversation_turns_from_turn (turn_from_conversation t) ≡ plain_turn t.content "" false t ∷ []
unfolding conversation_turns_from_turn turn_from_conversation
written_back t h w e = ap result_of (
    emit_all-whole (turn_from_conversation t) t (record (thought t) { content = t.content }) false
      false (content_blocks_of t) h.blocks (ground (arith, w))
      (text_content (turn_from_conversation t) t (thought t) w w e))

turn_back :
    (t : ConversationTurn)
    → IsCanonical t
    → conversation_turns_from_turn (turn_from_conversation t) ≡ without_producer t ∷ []
turn_back t h = elim (Bool-cases (t.role == "tool")) [
  | inl w ↦ tool_back t h w
  | inr w ↦
      let b = h.answer in
      let q : ((t.tool_call_id == "") && not t.is_error) ≡ true = ground (arith, b, w) in
      elim (Bool-cases (t.content == "")) [
        | inr e ↦ written_back t h w e ∙ ap (λ x. x ∷ []) (unanswering t q)
        | inl e ↦
            empty_back t h w e
            ∙ ap (λ s. plain_turn s "" false t ∷ []) (sym (str_eq→eq t.content "" e))
            ∙ ap (λ x. x ∷ []) (unanswering t q)
      ]
]

abbrev pub AllCanonical : List ConversationTurn → Type 0
AllCanonical [] = Unit
AllCanonical (t ∷ ts) = IsCanonical t × AllCanonical ts

-- Each turn of a canonical shape comes back from its neutral turn as it was, but for the names of its
-- provider and model and the calls of a sub-agent, which are lost: a turn is canonical if its content
-- blocks are texts without a source or images without a text, if no text block leads where content
-- and calls are empty, and if it only has an answer's id and error mark in the role of a tool.
pub conversation_from_turns-turns_from_conversation :
    (ts : List ConversationTurn)
    → AllCanonical ts
    → conversation_from_turns (turns_from_conversation ts) ≡ map without_producer ts
unfolding conversation_from_turns turns_from_conversation
conversation_from_turns-turns_from_conversation [] h = refl
conversation_from_turns-turns_from_conversation (t ∷ ts) (h, hs) =
    ap (λ us. us ++ conversation_from_turns (turns_from_conversation ts)) (turn_back t h)
    ∙ ap (λ us. without_producer t ∷ us) (conversation_from_turns-turns_from_conversation ts hs)
