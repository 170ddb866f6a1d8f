-- ===== src/Agentic/SessionMemory/CutOff.antt =====
-- A round of tool calls that was cut off, after CloseDanglingToolCalls (agentic/session_memory.go).
use rysh_cli_shared.Prelude.{
  String, Bool, true, false, List, [], ◌∷◌, ◌++◌, ◌≡◌, refl, ◌⊎◌, inl, inr, ◌==◌, contains,
  Bool-cases, and-eq_true, eq_iff, eq_refl, arith, append_assoc,
}
use rysh_cli_shared.Provider.Turns.{ConversationTurn, ToolCallRequest}
use rysh_cli_shared.Provider.Pairing.{
  Scan, outside, answering, has_calls, calls_tools, is_tool, wanted,
}
use rysh_cli_shared.Provider.Pairing.Paired.{Paired, finished, plain, calling, result, answered}
use rysh_cli_shared.Provider.Pairing.Repair.{wanted_self, wanted-tail}
use rysh_cli_shared.Agentic.SessionMemory.{
  unseen, found, last_calls, answered_ids, Context, dangling, close_dangling_tool_calls,
}
use rysh_cli_shared.Agentic.SessionMemory.Healing.{tool_apart, all_named, named_calls, IsReplayable}

pub Paired-append :
    {once : Bool} {s : Scan} {ts us : List ConversationTurn}
    → Paired once s ts
    → Paired once outside us
    → Paired once s (ts ++ us)
Paired-append finished q = q
Paired-append (plain c w p) q = plain c w (Paired-append p q)
Paired-append (calling c p) q = calling c (Paired-append p q)
Paired-append (result w k f p) q = result w k f (Paired-append p q)
Paired-append (answered a p) q = answered a (Paired-append p q)

named-append :
    (ts us : List ConversationTurn)
    → named_calls ts ≡ true
    → named_calls us ≡ true
    → named_calls (ts ++ us) ≡ true
unfolding named_calls
named-append [] us h k = k
named-append (t ∷ ts) us h k =
    let first : all_named t.tool_calls ≡ true = ground (arith, h) in
    let rest : named_calls ts ≡ true = ground (arith, h) in
    rw (first, named-append ts us rest k) refl

pub IsReplayable-append :
    {ts us : List ConversationTurn} → IsReplayable ts → IsReplayable us → IsReplayable (ts ++ us)
IsReplayable-append {ts} {us} p q = record {
  rule = Paired-append p.rule q.rule;
  named = named-append ts us p.named q.named;
}

-- The turns are results of the assistant turn's calls.
abbrev pub AllResults : ConversationTurn → List ConversationTurn → Type 0
AllResults o [] = Unit
AllResults o (t ∷ ts) =
    (is_tool t ≡ true) × (wanted o.tool_calls t.tool_call_id ≡ true) × AllResults o ts

-- The ids that have been answered after these results.
abbrev pub after_results : List ConversationTurn → List String → List String
after_results [] ids = ids
after_results (t ∷ ts) ids = after_results ts (t.tool_call_id ∷ ids)

pub results-Paired :
    (o : ConversationTurn) (ids : List String) (rs rest : List ConversationTurn)
    → AllResults o rs
    → Paired false (answering o (after_results rs ids)) rest
    → Paired false (answering o ids) (rs ++ rest)
results-Paired o ids [] rest a p = p
results-Paired o ids (t ∷ rs) rest (w, k, a) p =
    result {o = o} {ids = ids} w k refl (results-Paired o (t.tool_call_id ∷ ids) rs rest a p)

pub after_results-old :
    (rs : List ConversationTurn) (ids : List String) (id : String)
    → contains ids id ≡ true
    → contains (after_results rs ids) id ≡ true
after_results-old [] ids id h = h
after_results-old (t ∷ rs) ids id h =
    after_results-old rs (t.tool_call_id ∷ ids) id (ground (arith, h))

answered_ids-after_results :
    (rs : List ConversationTurn) (ids : List String) (id : String)
    → contains (answered_ids rs) id ≡ true
    → contains (after_results rs ids) id ≡ true
unfolding answered_ids
answered_ids-after_results [] ids id h = absurd (ground arith)
answered_ids-after_results (t ∷ rs) ids id h = elim (Bool-cases (t.tool_call_id == id)) [
  | inl e ↦ after_results-old rs (t.tool_call_id ∷ ids) id (ground (arith, e))
  | inr e ↦ answered_ids-after_results rs (t.tool_call_id ∷ ids) id (ground (arith, e, h))
]

-- What stands between the loop over the calls that are left and the ids that the results answer.
dangling-Paired :
    (k : Context) (note : String) (o : ConversationTurn) (before ids : List String)
    (cs : List ToolCallRequest)
    → ((id : String) → wanted cs id ≡ true → wanted o.tool_calls id ≡ true)
    → ((id : String)
        → wanted o.tool_calls id ≡ true
        → (contains ids id ≡ true) ⊎ (wanted cs id ≡ true))
    → ((id : String) → contains before id ≡ true → contains ids id ≡ true)
    → Paired false (answering o ids) (dangling k note before cs)
unfolding dangling is_tool wanted
dangling-Paired k note o before ids [] a c b = answered (λ id w. ground (arith, c id w)) finished
dangling-Paired k note o before ids (x ∷ cs) a c b = elim (Bool-cases (contains before x.id)) [
  | inl h ↦ rw h (
      dangling-Paired k note o before ids cs (λ id w. a id (wanted-tail x cs id w))
        (λ id w. ground (arith, c id w, b id, eq_iff x.id id)) b)
  | inr h ↦ rw h (
      result (eq_refl "tool") (a x.id (wanted_self x cs)) refl (
        dangling-Paired k note o before (x.id ∷ ids) cs (λ id w. a id (wanted-tail x cs id w))
          (λ id w. ground (arith, c id w, eq_iff x.id id)) (λ id w. ground (arith, b id w))))
]

results-unseen :
    (o : ConversationTurn) (rs : List ConversationTurn) → AllResults o rs → last_calls rs ≡ unseen
unfolding last_calls
results-unseen o [] a = refl
results-unseen o (t ∷ rs) (w, k, a) =
    rw (results-unseen o rs a, (tool_apart t w).0, (tool_apart t w).1) refl

last_calls-found :
    (ts us rs : List ConversationTurn) (o : ConversationTurn)
    → last_calls us ≡ found o rs
    → last_calls (ts ++ us) ≡ found o rs
unfolding last_calls
last_calls-found [] us rs o h = h
last_calls-found (t ∷ ts) us rs o h = rw (last_calls-found ts us rs o h) refl

last_calls-run :
    (ts rs : List ConversationTurn) (o : ConversationTurn)
    → calls_tools o ≡ true
    → AllResults o rs
    → last_calls (ts ++ o ∷ rs) ≡ found o rs
unfolding last_calls calls_tools
last_calls-run ts rs o c a =
    let by_model : (o.role == "assistant") ≡ true = (and-eq_true c).0 in
    let called : has_calls o.tool_calls ≡ true = (and-eq_true c).1 in
    last_calls-found ts (o ∷ rs) rs o (rw (results-unseen o rs a, by_model, called) refl)

-- If a transcript obeys the pairing rule, and an assistant turn with calls and the results of some of
-- them follow it, then CloseDanglingToolCalls makes the whole obey the pairing rule.
pub close_dangling_tool_calls-cut_off :
    (k : Context) (note : String) (ts rs : List ConversationTurn) (o : ConversationTurn)
    → Paired false outside ts
    → calls_tools o ≡ true
    → AllResults o rs
    → Paired false outside (close_dangling_tool_calls k note (ts ++ o ∷ rs))
unfolding close_dangling_tool_calls
close_dangling_tool_calls-cut_off k note ts rs o p c a =
    rw
      (
        last_calls-run ts rs o c a,
        append_assoc ts (o ∷ rs) (dangling k note (answered_ids rs) o.tool_calls),
      )
      (Paired-append p (
        calling c (
          results-Paired o [] rs _ a (
            dangling-Paired k note o (answered_ids rs) (after_results rs []) o.tool_calls
              (λ id w. w) (λ id w. inr w) (λ id w. answered_ids-after_results rs [] id w)))))
