-- ===== src/Agentic/Orchestrator/Compaction/Window.antt =====
-- The cut of compactConversation and the pairing rule (agentic/orchestrator.go).
use rysh_cli_shared.Prelude.{
  ℕ, zero, suc, ◌<◌, Bool, true, false, List, [], ◌∷◌, ◌≡◌, refl, ap, ◌∙◌, ◌==◌, Bool-cases, inl,
  inr, and-eq_true, arith, leb, length, drop_first, if-holds, ◌-◌,
}
use rysh_cli_shared.Provider.Turns.{ConversationTurn}
use rysh_cli_shared.Provider.Pairing.{Scan, outside, calls_tools, is_tool}
use rysh_cli_shared.Provider.Pairing.Paired.{Paired, finished, plain, calling, result, answered}
use rysh_cli_shared.Agentic.SessionMemory.Healing.{all_named, named_calls, IsReplayable}
use rysh_cli_shared.Agentic.Orchestrator.State.{Env, Desk, Orchestrator}
use rysh_cli_shared.Agentic.Orchestrator.Compaction.{
  skip_results, safe_compaction_cut_index, summary_turn, compact_at, compact_conversation,
  keep_recent,
}

abbrev starts_with_result : List ConversationTurn → Bool
starts_with_result [] = false
starts_with_result (t ∷ ts) = is_tool t

-- The rest of a transcript from any turn on that is no result.
drop_first-Paired :
    {once : Bool} {s : Scan} (ts : List ConversationTurn) (n : ℕ)
    → Paired once s ts
    → starts_with_result (drop_first n ts) ≡ false
    → Paired once outside (drop_first n ts)
drop_first-Paired _ zero finished h = finished
drop_first-Paired _ (suc n) finished h = finished
drop_first-Paired _ zero (plain c w p) h = plain c w p
drop_first-Paired _ (suc n) (plain {ts = ts} c w p) h = drop_first-Paired ts n p h
drop_first-Paired _ zero (calling c p) h = calling c p
drop_first-Paired _ (suc n) (calling {ts = ts} c p) h = drop_first-Paired ts n p h
drop_first-Paired _ zero (result w k f p) h = absurd (ground (arith, w, h))
drop_first-Paired _ (suc n) (result {ts = ts} w k f p) h = drop_first-Paired ts n p h
drop_first-Paired _ n (answered {ts = ts} a p) h = drop_first-Paired ts n p h

drop_first-named :
    (n : ℕ) (ts : List ConversationTurn)
    → named_calls ts ≡ true
    → named_calls (drop_first n ts) ≡ true
unfolding named_calls
drop_first-named zero ts h = h
drop_first-named (suc n) [] h = h
drop_first-named (suc n) (t ∷ ts) h = drop_first-named n ts (and-eq_true h).1

abbrev rest_of : List ConversationTurn → List ConversationTurn
rest_of [] = []
rest_of (t ∷ ts) = ts

drop_first-suc :
    (n : ℕ) (ts : List ConversationTurn) → drop_first (suc n) ts ≡ rest_of (drop_first n ts)
drop_first-suc zero [] = refl
drop_first-suc zero (t ∷ ts) = refl
drop_first-suc (suc n) [] = refl
drop_first-suc (suc n) (t ∷ ts) = drop_first-suc n ts

-- The loop stops at a turn that is no result.
skip_results-plain :
    (us ts : List ConversationTurn) (k : ℕ)
    → drop_first k us ≡ ts
    → 0 < skip_results k ts
    → starts_with_result (drop_first (skip_results k ts) us) ≡ false
unfolding skip_results is_tool
skip_results-plain us [] k e h = absurd (ground (arith, h))
skip_results-plain us (t ∷ ts) k e h = elim (Bool-cases (t.role == "tool")) [
  | inl w ↦ rw w (skip_results-plain us ts (suc k) (drop_first-suc k us ∙ ap rest_of e) (rw w at h))
  | inr w ↦ rw (w, e) w
]

cut-plain :
    (ts : List ConversationTurn) (desired : ℕ)
    → 0 < safe_compaction_cut_index desired ts
    → starts_with_result (drop_first (safe_compaction_cut_index desired ts) ts) ≡ false
unfolding safe_compaction_cut_index
cut-plain ts desired h = elim (Bool-cases (leb desired 0)) [
  | inl z ↦ absurd (ground (arith, h, z))
  | inr z ↦ rw z (skip_results-plain ts (drop_first desired ts) desired refl (rw z at h))
]

summary_turn-plain :
    (e : Env) (d : Desk) (n : ℕ) (t : ConversationTurn) (ts : List ConversationTurn)
    → (calls_tools (summary_turn e d n t ts) ≡ false) × (is_tool (summary_turn e d n t ts) ≡ false)
unfolding calls_tools is_tool
summary_turn-plain e d n t ts = (refl, refl)

compact_at-Paired :
    (e : Env) (d : Desk) (n : ℕ) (ts : List ConversationTurn)
    → Paired false outside (drop_first n ts)
    → Paired false outside (compact_at e d n ts)
compact_at-Paired e d n [] p = finished
compact_at-Paired e d n (t ∷ ts) p = let s = summary_turn-plain e d n t (t ∷ ts) in plain s.0 s.1 p

compact_at-named :
    (e : Env) (d : Desk) (n : ℕ) (ts : List ConversationTurn)
    → named_calls (drop_first n ts) ≡ true
    → named_calls (compact_at e d n ts) ≡ true
unfolding named_calls all_named
compact_at-named e d n [] p = refl
compact_at-named e d n (t ∷ ts) p = p

-- If a transcript obeys the pairing rule, and its calls have ids that are not empty, then both hold
-- after compactConversation.
pub compact_conversation-IsReplayable :
    (e : Env) (o : Orchestrator)
    → IsReplayable o.conversation
    → IsReplayable (compact_conversation e o).conversation
unfolding compact_conversation
compact_conversation-IsReplayable e o p =
    let ts = o.conversation in
    let cut = safe_compaction_cut_index (length ts - keep_recent) ts in
    if-holds {A = Orchestrator} (λ x. IsReplayable x.conversation) (leb cut 0) _ _ (λ z. p)
      (λ z. record {
        rule =
            compact_at-Paired e o.desk cut ts
              (drop_first-Paired ts cut p.rule (cut-plain ts _ (ground (arith, z))));
        named = compact_at-named e o.desk cut ts (drop_first-named cut ts p.named);
      })
