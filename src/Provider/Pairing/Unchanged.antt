-- ===== src/Provider/Pairing/Unchanged.antt =====
-- What HealToolPairing keeps, and what ValidateToolPairing sees (provider/toolpairing.go).
use rysh_cli_shared.Prelude.{
  String, Bool, true, false, ◌&&◌, List, [], ◌∷◌, ◌≡◌, refl, ◌∙◌, ap, contains, and-eq_true,
  str_eq→eq,
}
use native.Mathlib.Omega.{arith}
use rysh_cli_shared.Provider.Turns.{ConversationTurn, ToolCallRequest}
use rysh_cli_shared.Provider.Pairing.{
  Scan, outside, answering, calls_tools, is_tool, wanted, missing, heal, heal_tool_pairing,
  unanswered, validate, validate_tool_pairing,
}
use rysh_cli_shared.Provider.Pairing.Paired.{
  Paired, finished, plain, calling, result, answered, distinct_calls,
}
use rysh_cli_shared.Provider.Pairing.Repair.{
  wanted_self, wanted-tail, heal_tool_pairing-Paired, heal_tool_pairing_exact,
}

pub calls_tools-plain : (t : ConversationTurn) → calls_tools t ≡ true → is_tool t ≡ false
unfolding calls_tools is_tool
calls_tools-plain t h = rw (str_eq→eq t.role "assistant" (and-eq_true h).0) refl

missing-none :
    (t : ConversationTurn) (ids : List String) (cs : List ToolCallRequest)
    → ((id : String) → wanted cs id ≡ true → contains ids id ≡ true)
    → missing t ids cs ≡ []
unfolding missing
missing-none t ids [] h = refl
missing-none t ids (c ∷ cs) h =
    rw (h c.id (wanted_self c cs)) (missing-none t ids cs (λ id w. h id (wanted-tail c cs id w)))

unanswered-none :
    (ids : List String) (cs : List ToolCallRequest)
    → ((id : String) → wanted cs id ≡ true → contains ids id ≡ true)
    → unanswered ids cs ≡ []
unfolding unanswered
unanswered-none ids [] h = refl
unanswered-none ids (c ∷ cs) h =
    rw (h c.id (wanted_self c cs)) (unanswered-none ids cs (λ id w. h id (wanted-tail c cs id w)))

unseen : (a b : Bool) → a ≡ true → (a && b) ≡ false → b ≡ false
unseen a b h f = ground arith

-- The run of results ends where none follows.
leave-heal :
    (once : Bool) (o : ConversationTurn) (ids : List String) (ts : List ConversationTurn)
    → Paired once outside ts
    → missing o ids o.tool_calls ≡ []
    → heal (answering o ids) ts ≡ heal outside ts
unfolding heal
leave-heal once o ids [] finished m = m
leave-heal once o ids (t ∷ ts) (plain c w p) m = rw (w, m, c) refl
leave-heal once o ids (t ∷ ts) (calling c p) m = rw (calls_tools-plain t c, m, c) refl

leave-validate :
    (once : Bool) (o : ConversationTurn) (ids : List String) (ts : List ConversationTurn)
    → Paired once outside ts
    → unanswered ids o.tool_calls ≡ []
    → validate (answering o ids) ts ≡ validate outside ts
unfolding validate
leave-validate once o ids [] finished m = m
leave-validate once o ids (t ∷ ts) (plain c w p) m = rw (w, m, c) refl
leave-validate once o ids (t ∷ ts) (calling c p) m = rw (calls_tools-plain t c, m, c) refl

fixed :
    (once : Bool) (s : Scan) (ts : List ConversationTurn)
    → once ≡ true
    → Paired once s ts
    → heal s ts ≡ ts
unfolding heal
fixed once _ _ h finished = refl
fixed once _ _ h (plain {t} {ts} c w p) = rw (c, w) (ap (λ us. t ∷ us) (fixed once outside ts h p))
fixed once _ _ h (calling {t} {ts} c p) =
    rw c (ap (λ us. t ∷ us) (fixed once (answering t []) ts h p))
fixed once _ _ h (result {o} {t} {ids} {ts} w k f p) =
    rw (w, k, unseen once (contains ids t.tool_call_id) h f)
      (ap (λ us. t ∷ us) (fixed once (answering o (t.tool_call_id ∷ ids)) ts h p))
fixed once _ _ h (answered {o} {ids} {ts} a p) =
    leave-heal once o ids ts p (missing-none o ids o.tool_calls a) ∙ fixed once outside ts h p

-- HealToolPairing returns a transcript unchanged that obeys the pairing rule with one result for
-- each call.
pub heal_tool_pairing_fixed :
    (ts : List ConversationTurn) → Paired true outside ts → heal_tool_pairing ts ≡ ts
unfolding heal_tool_pairing
heal_tool_pairing_fixed ts p = fixed true outside ts refl p

-- If the ids of each assistant turn's calls are distinct, healing twice is healing once.
pub heal_tool_pairing_idempotent :
    (ts : List ConversationTurn)
    → distinct_calls ts ≡ true
    → heal_tool_pairing (heal_tool_pairing ts) ≡ heal_tool_pairing ts
heal_tool_pairing_idempotent ts d =
    heal_tool_pairing_fixed (heal_tool_pairing ts) (heal_tool_pairing_exact ts d)

accepted :
    (once : Bool) (s : Scan) (ts : List ConversationTurn) → Paired once s ts → validate s ts ≡ []
unfolding validate
accepted once _ _ finished = refl
accepted once _ _ (plain {t} {ts} c w p) = rw (c, w) (accepted once outside ts p)
accepted once _ _ (calling {t} {ts} c p) = rw c (accepted once (answering t []) ts p)
accepted once _ _ (result {o} {t} {ids} {ts} w k f p) =
    rw w (accepted once (answering o (t.tool_call_id ∷ ids)) ts p)
accepted once _ _ (answered {o} {ids} {ts} a p) =
    leave-validate once o ids ts p (unanswered-none ids o.tool_calls a) ∙ accepted once outside ts p

-- ValidateToolPairing reports nothing for a transcript that obeys the pairing rule.
pub validate_tool_pairing-Paired :
    (ts : List ConversationTurn) → Paired false outside ts → validate_tool_pairing ts ≡ []
unfolding validate_tool_pairing
validate_tool_pairing-Paired ts p = accepted false outside ts p

-- ValidateToolPairing reports nothing for the output of HealToolPairing, for every transcript.
pub validate_tool_pairing-heal_tool_pairing :
    (ts : List ConversationTurn) → validate_tool_pairing (heal_tool_pairing ts) ≡ []
validate_tool_pairing-heal_tool_pairing ts =
    validate_tool_pairing-Paired (heal_tool_pairing ts) (heal_tool_pairing-Paired ts)
