-- ===== src/Agentic/SessionMemory/Healing.antt =====
-- The pairing rule across the tail that CloseDanglingToolCalls heals (agentic/session_memory.go) and
-- the window that boundConversation cuts.
use rysh_cli_shared.Prelude.{
  String, Bool, true, false, ◌&&◌, not, List, [], ◌∷◌, ◌≡◌, refl, ◌⊎◌, inl, inr, ◌==◌, contains,
  Bool-cases, and-eq_true, append-nil, eq_iff, arith, str_eq→eq,
}
use rysh_cli_shared.Provider.Turns.{ConversationTurn, ToolCallRequest}
use rysh_cli_shared.Provider.Pairing.{
  Scan, outside, answering, has_calls, calls_tools, is_tool, wanted,
}
use rysh_cli_shared.Provider.Pairing.Paired.{
  Paired, finished, plain, calling, result, answered, AllAnswered,
}
use rysh_cli_shared.Provider.Pairing.Repair.{wanted_self, wanted-tail}
use rysh_cli_shared.Agentic.SessionMemory.{
  Last, unseen, closed, found, look, last_calls, answered_ids, Context, dangling, closing_turns,
  close_dangling_tool_calls,
}

-- Each call of the turns has an id that is not empty.
unfoldable pub all_named : List ToolCallRequest → Bool
all_named [] = true
all_named (c ∷ cs) = not (c.id == "") && all_named cs

unfoldable pub named_calls : List ConversationTurn → Bool
named_calls [] = true
named_calls (t ∷ ts) = all_named t.tool_calls && named_calls ts

-- The transcript obeys the pairing rule, and its calls have ids that are not empty.
pub record IsReplayable (ts : List ConversationTurn) : Type 0 where
  pub rule : Paired false outside ts
  pub named : named_calls ts ≡ true

wanted-named :
    (cs : List ToolCallRequest) (id : String)
    → all_named cs ≡ true
    → wanted cs id ≡ true
    → (id == "") ≡ false
unfolding all_named wanted
wanted-named [] id n w = ground arith
wanted-named (c ∷ cs) id n w =
    ground (arith, wanted-named cs id, eq_iff c.id id, eq_iff c.id "", eq_iff id "")

dangling-none :
    (k : Context) (note : String) (ids : List String) (cs : List ToolCallRequest)
    → ((id : String) → wanted cs id ≡ true → contains ids id ≡ true)
    → dangling k note ids cs ≡ []
unfolding dangling
dangling-none k note ids [] h = refl
dangling-none k note ids (c ∷ cs) h =
    rw (h c.id (wanted_self c cs))
      (dangling-none k note ids cs (λ id w. h id (wanted-tail c cs id w)))

-- What the scan finds in the rest of a transcript: the calls it finds are answered after them; if it
-- finds none, those that were open are answered.
abbrev Answers : Scan → List ConversationTurn → Last → Type 0
Answers s ts closed = Unit
Answers s ts (found t us) =
    (id : String) → wanted t.tool_calls id ≡ true → contains (answered_ids us) id ≡ true
Answers outside ts unseen = Unit
Answers (answering o ids) ts unseen =
    (id : String)
    → wanted o.tool_calls id ≡ true
    → (id == "") ≡ false
    → (contains ids id ≡ true) ⊎ (contains (answered_ids ts) id ≡ true)

look-plain :
    (t : ConversationTurn) (ts : List ConversationTurn) (l : Last)
    → calls_tools t ≡ false
    → Answers outside ts l
    → Answers outside (t ∷ ts) (look t ts l)
unfolding calls_tools
look-plain t ts closed c h = tt
look-plain t ts (found u us) c h = h
look-plain t ts unseen c h = elim (Bool-cases (t.role == "assistant")) [
  | inl a ↦
      let none_called : has_calls t.tool_calls ≡ false = ground (arith, a, c) in
      rw (a, none_called) tt
  | inr a ↦ elim (Bool-cases (t.role == "user")) [ inl u ↦ rw (a, u) tt | inr u ↦ rw (a, u) tt ]
]

answered_later :
    (id : String) (ids : List String)
    → (contains [] id ≡ true) ⊎ (contains ids id ≡ true)
    → contains ids id ≡ true
answered_later id ids (inr h) = h
answered_later id ids (inl h) = absurd (ground arith)

look-calling :
    (t : ConversationTurn) (ts : List ConversationTurn) (l : Last)
    → calls_tools t ≡ true
    → all_named t.tool_calls ≡ true
    → Answers (answering t []) ts l
    → Answers outside (t ∷ ts) (look t ts l)
unfolding calls_tools
look-calling t ts closed c n h = tt
look-calling t ts (found u us) c n h = h
look-calling t ts unseen c n h =
    let by_model : (t.role == "assistant") ≡ true = (and-eq_true c).0 in
    let called : has_calls t.tool_calls ≡ true = (and-eq_true c).1 in
    rw (by_model, called)
      (λ id w. answered_later id (answered_ids ts) (h id w (wanted-named t.tool_calls id n w)))

pub tool_apart :
    (t : ConversationTurn)
    → is_tool t ≡ true
    → ((t.role == "assistant") ≡ false) × ((t.role == "user") ≡ false)
unfolding is_tool
tool_apart t w = rw (str_eq→eq t.role "tool" w) (refl, refl)

look-result :
    (o t : ConversationTurn) (ids : List String) (ts : List ConversationTurn) (l : Last)
    → is_tool t ≡ true
    → Answers (answering o (t.tool_call_id ∷ ids)) ts l
    → Answers (answering o ids) (t ∷ ts) (look t ts l)
unfolding is_tool answered_ids
look-result o t ids ts closed w h = tt
look-result o t ids ts (found u us) w h = h
look-result o t ids ts unseen w h =
    rw ((tool_apart t w).0, (tool_apart t w).1)
      (λ id k n.
        ground
          (arith, h id k n, eq_iff t.tool_call_id id, eq_iff t.tool_call_id "", eq_iff id "", w))

left-Answers :
    (o : ConversationTurn) (ids : List String) (ts : List ConversationTurn) (l : Last)
    → AllAnswered ids o
    → Answers outside ts l
    → Answers (answering o ids) ts l
left-Answers o ids ts closed a h = tt
left-Answers o ids ts (found u us) a h = h
left-Answers o ids ts unseen a h = λ id w n. inl (a id w)

scan-Answers :
    (s : Scan) (ts : List ConversationTurn)
    → Paired false s ts
    → named_calls ts ≡ true
    → Answers s ts (last_calls ts)
unfolding last_calls named_calls
scan-Answers _ _ finished n = tt
scan-Answers _ _ (plain {t} {ts} c w p) n =
    look-plain t ts (last_calls ts) c (scan-Answers outside ts p (and-eq_true n).1)
scan-Answers _ _ (calling {t} {ts} c p) n =
    look-calling t ts (last_calls ts) c (and-eq_true n).0
      (scan-Answers (answering t []) ts p (and-eq_true n).1)
scan-Answers _ _ (result {o} {t} {ids} {ts} w k f p) n =
    look-result o t ids ts (last_calls ts) w
      (scan-Answers (answering o (t.tool_call_id ∷ ids)) ts p (and-eq_true n).1)
scan-Answers _ _ (answered {o} {ids} {ts} a p) n =
    left-Answers o ids ts (last_calls ts) a (scan-Answers outside ts p n)

closing-none :
    (k : Context) (note : String) (ts : List ConversationTurn) (l : Last)
    → Answers outside ts l
    → closing_turns k note l ≡ []
closing-none k note ts unseen h = refl
closing-none k note ts closed h = refl
closing-none k note ts (found t us) h = dangling-none k note (answered_ids us) t.tool_calls h

-- CloseDanglingToolCalls returns a transcript unchanged that obeys the pairing rule and whose calls
-- have ids that are not empty.
pub close_dangling_tool_calls-Paired :
    (k : Context) (note : String) (ts : List ConversationTurn)
    → Paired false outside ts
    → named_calls ts ≡ true
    → close_dangling_tool_calls k note ts ≡ ts
unfolding close_dangling_tool_calls
close_dangling_tool_calls-Paired k note ts p n =
    rw (closing-none k note ts (last_calls ts) (scan-Answers outside ts p n)) (append-nil ts)
