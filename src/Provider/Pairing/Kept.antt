-- ===== src/Provider/Pairing/Kept.antt =====
-- What HealToolPairing keeps of a transcript, and what ValidateToolPairing passes over
-- (provider/toolpairing.go).
use rysh_cli_shared.Prelude.{
  String, true, false, ◌&&◌, ◌||◌, not, List, [], ◌∷◌, ◌++◌, ◌≡◌, refl, ap, ◌==◌, inl, inr,
  contains, Bool-cases, subst, append-nil,
}
use text.Mathlib.TextEquality.{eq_iff}
use native.Mathlib.Omega.{arith}
use rysh_cli_shared.Provider.Turns.{ConversationTurn, ToolCallRequest}
use rysh_cli_shared.Provider.Pairing.{
  Scan, outside, answering, calls_tools, is_tool, wanted, missing, heal, heal_tool_pairing,
  unanswered, validate, validate_tool_pairing,
}
use rysh_cli_shared.Provider.Pairing.Paired.{Paired, plain, calling, result, answered, conversation}
use rysh_cli_shared.Provider.Pairing.Repair.{synthesized-is_tool, wanted_self, wanted-tail}
use rysh_cli_shared.Provider.Pairing.Unchanged.{calls_tools-plain}

conversation-missing :
    (t : ConversationTurn) (ids : List String) (cs : List ToolCallRequest)
    (rest : List ConversationTurn)
    → conversation (missing t ids cs ++ rest) ≡ conversation rest
unfolding missing conversation
conversation-missing t ids [] rest = refl
conversation-missing t ids (c ∷ cs) rest = elim (Bool-cases (contains ids c.id)) [
  | inl h ↦ rw h (conversation-missing t ids cs rest)
  | inr h ↦ rw (h, synthesized-is_tool t c) (conversation-missing t ids cs rest)
]

kept_turns : (s : Scan) (ts : List ConversationTurn) → conversation (heal s ts) ≡ conversation ts
unfolding heal conversation
kept_turns outside [] = refl
kept_turns (answering o ids) [] =
    subst (λ us. conversation us ≡ []) (append-nil (missing o ids o.tool_calls))
      (conversation-missing o ids o.tool_calls [])
kept_turns outside (t ∷ ts) = elim (Bool-cases (calls_tools t)) [
  | inl c ↦ rw (c, calls_tools-plain t c) (ap (λ us. t ∷ us) (kept_turns (answering t []) ts))
  | inr c ↦ elim (Bool-cases (is_tool t)) [
    | inl w ↦ rw (c, w) (kept_turns outside ts)
    | inr w ↦ rw (c, w, w) (ap (λ us. t ∷ us) (kept_turns outside ts))
  ]
]
kept_turns (answering o ids) (t ∷ ts) = elim (Bool-cases (is_tool t)) [
  | inl w ↦
      elim (Bool-cases (wanted o.tool_calls t.tool_call_id && not (contains ids t.tool_call_id))) [
        | inl k ↦ rw (w, k, w) (kept_turns (answering o (t.tool_call_id ∷ ids)) ts)
        | inr k ↦ rw (w, k) (kept_turns (answering o ids) ts)
      ]
  | inr w ↦ elim (Bool-cases (calls_tools t)) [
    | inl c ↦
        rw (w, c, conversation-missing o ids o.tool_calls (t ∷ heal (answering t []) ts), w)
          (ap (λ us. t ∷ us) (kept_turns (answering t []) ts))
    | inr c ↦
        rw (w, c, conversation-missing o ids o.tool_calls (t ∷ heal outside ts), w)
          (ap (λ us. t ∷ us) (kept_turns outside ts))
  ]
]

-- HealToolPairing keeps every turn that is not a result, in order, and adds none.
pub heal_tool_pairing-conversation :
    (ts : List ConversationTurn) → conversation (heal_tool_pairing ts) ≡ conversation ts
unfolding heal_tool_pairing
heal_tool_pairing-conversation ts = kept_turns outside ts

-- Sets of ids that agree on the ids that the calls have.
abbrev Agree : List ToolCallRequest → List String → List String → Type 0
Agree cs a b = (id : String) → wanted cs id ≡ true → contains a id ≡ contains b id

unanswered-Agree :
    (cs : List ToolCallRequest) (a b : List String)
    → Agree cs a b
    → unanswered a cs ≡ unanswered b cs
unfolding unanswered
unanswered-Agree [] a b h = refl
unanswered-Agree (c ∷ cs) a b h =
    rw (h c.id (wanted_self c cs), unanswered-Agree cs a b (λ id w. h id (wanted-tail c cs id w)))
      refl

validate-Agree :
    (o : ConversationTurn) (a b : List String) (ts : List ConversationTurn)
    → Agree o.tool_calls a b
    → validate (answering o a) ts ≡ validate (answering o b) ts
unfolding validate
validate-Agree o a b [] h = unanswered-Agree o.tool_calls a b h
validate-Agree o a b (t ∷ ts) h = elim (Bool-cases (is_tool t)) [
  | inl w ↦ rw w (
      validate-Agree o (t.tool_call_id ∷ a) (t.tool_call_id ∷ b) ts
        (λ id k. ap (λ x. t.tool_call_id == id || x) (h id k)))
  | inr w ↦ rw (w, unanswered-Agree o.tool_calls a b h) refl
]

foreign_result_breaks :
    (t x : ConversationTurn) (ts : List ConversationTurn)
    → calls_tools t ≡ true
    → is_tool x ≡ true
    → wanted t.tool_calls x.tool_call_id ≡ false
    → ¬ Paired false outside (t ∷ x ∷ ts)
foreign_result_breaks t x ts c w k (plain d v p) = ground arith
foreign_result_breaks t x ts c w k (calling d (result v j f p)) = ground arith
foreign_result_breaks t x ts c w k (calling d (answered a (plain e v p))) = ground arith
foreign_result_breaks t x ts c w k (calling d (answered a (calling e p))) =
    ground (arith, calls_tools-plain x e)

-- A result after an assistant's calls whose id is none of theirs breaks the pairing rule and is
-- dropped by HealToolPairing, but ValidateToolPairing reports the same as without it.
pub foreign_result_unreported :
    (t x : ConversationTurn) (ts : List ConversationTurn)
    → calls_tools t ≡ true
    → is_tool x ≡ true
    → wanted t.tool_calls x.tool_call_id ≡ false
    → (validate_tool_pairing (t ∷ x ∷ ts) ≡ validate_tool_pairing (t ∷ ts))
      × (heal_tool_pairing (t ∷ x ∷ ts) ≡ heal_tool_pairing (t ∷ ts))
      × ¬ Paired false outside (t ∷ x ∷ ts)
unfolding validate_tool_pairing validate heal_tool_pairing heal
foreign_result_unreported t x ts c w k = (
  rw (c, w)
      (validate-Agree t (x.tool_call_id ∷ []) [] ts
        (λ id e. ground (arith, eq_iff x.tool_call_id id))),
  rw (c, w, k) refl,
  foreign_result_breaks t x ts c w k,
)
