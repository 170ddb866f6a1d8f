-- ===== src/Agentic/TurnModel/Handover.antt =====
-- The notes of insertModelSwitchNotes (agentic/turn_model.go) and the pairing rule of a request.
use rysh_cli_shared.Prelude.{
  ℕ, suc, Bool, true, false, ◌&&◌, not, List, [], ◌∷◌, ◌++◌, ◌≡◌, refl, ap, sym, ◌∙◌, subst,
  Bool-cases, inl, inr, and-eq_true, arith, contains,
}
use rysh_cli_shared.Provider.Turns.{ConversationTurn, ToolCallRequest}
use rysh_cli_shared.Provider.Pairing.{
  Scan, outside, has_calls, calls_tools, is_tool, wanted, missing, heal, heal_tool_pairing,
}
use rysh_cli_shared.Provider.Pairing.Paired.{
  Paired, finished, plain, calling, result, answered, AllAnswered,
}
use rysh_cli_shared.Provider.Pairing.Repair.{wanted_self}
use rysh_cli_shared.Agentic.SessionMemory.Healing.{tool_apart}
use rysh_cli_shared.Agentic.TurnModel.{
  TurnAttribution, attribution_of, model_switch_note, is_attributed, insert_model_switch_notes,
}
use rysh_cli_shared.Agentic.TurnModel.Notes.{
  producer, hands_over, noted, insert_model_switch_notes-noted,
}

-- No turn that calls tools hands over.
unfoldable pub settled : TurnAttribution → List ConversationTurn → Bool
settled active [] = true
settled active (t ∷ ts) = not (hands_over active t ts && calls_tools t) && settled active ts

note-plain :
    (time : ℕ) (a b : TurnAttribution)
    → (calls_tools (model_switch_note time a b) ≡ false)
      × (is_tool (model_switch_note time a b) ≡ false)
unfolding calls_tools is_tool
note-plain time a b = (refl, refl)

result-stays :
    (active : TurnAttribution) (t : ConversationTurn) (ts : List ConversationTurn)
    → is_tool t ≡ true
    → hands_over active t ts ≡ false
unfolding hands_over is_attributed
result-stays active t ts w = rw (tool_apart t w).0 refl

called-stays :
    (active : TurnAttribution) (t : ConversationTurn) (ts : List ConversationTurn)
    → not (hands_over active t ts && calls_tools t) ≡ true
    → calls_tools t ≡ true
    → hands_over active t ts ≡ false
called-stays active t ts h c = ground (arith, h, c)

noted-Paired :
    {once : Bool} {s : Scan} (now : ℕ → ℕ) (active : TurnAttribution) (i : ℕ)
    (ts : List ConversationTurn)
    → Paired once s ts
    → settled active ts ≡ true
    → Paired once s (noted now active i ts)
unfolding noted settled
noted-Paired now active i _ finished h = finished
noted-Paired now active i _ (plain {t} {ts} c w p) h =
    let rest = noted-Paired now active (suc i) ts p (and-eq_true h).1 in
    let n = note-plain (now i) (attribution_of t) (producer active ts) in
    elim (Bool-cases (hands_over active t ts)) [
      | inl q ↦ rw q (plain c w (plain n.0 n.1 rest))
      | inr q ↦ rw q (plain c w rest)
    ]
noted-Paired now active i _ (calling {t} {ts} c p) h =
    let rest = noted-Paired now active (suc i) ts p (and-eq_true h).1 in
    rw (called-stays active t ts (and-eq_true h).0 c) (calling c rest)
noted-Paired now active i _ (result {t = t} {ts = ts} w k f p) h =
    let rest = noted-Paired now active (suc i) ts p (and-eq_true h).1 in
    rw (result-stays active t ts w) (result w k f rest)
noted-Paired now active i _ (answered {ts = ts} a p) h =
    answered a (noted-Paired now active i ts p h)

-- If a transcript obeys the pairing rule, and no assistant turn in it that calls tools is followed by
-- another producer, then it obeys the rule with the notes of insertModelSwitchNotes.
pub insert_model_switch_notes-Paired :
    (once : Bool) (now : ℕ → ℕ) (active : TurnAttribution) (ts : List ConversationTurn)
    → Paired once outside ts
    → settled active ts ≡ true
    → Paired once outside (insert_model_switch_notes now ts active)
insert_model_switch_notes-Paired once now active ts p h =
    subst (Paired once outside) (sym (insert_model_switch_notes-noted now ts active))
      (noted-Paired now active 0 ts p h)

unmet :
    (t : ConversationTurn) (cs : List ToolCallRequest)
    → t.tool_calls ≡ cs
    → has_calls cs ≡ true
    → ¬ AllAnswered [] t
unmet t [] q h a = ground (arith, h)
unmet t (c ∷ cs) q h a =
    let w : wanted t.tool_calls c.id ≡ true = rw q (wanted_self c cs) in
    let k : contains [] c.id ≡ true = a c.id w in ground (arith, k)

result_calls : (r : ConversationTurn) → is_tool r ≡ true → calls_tools r ≡ false
unfolding calls_tools
result_calls r w = rw (tool_apart r w).0 refl

separated :
    (t n : ConversationTurn) (ts : List ConversationTurn)
    → calls_tools t ≡ true
    → is_tool n ≡ false
    → ¬ Paired false outside (t ∷ n ∷ ts)
unfolding calls_tools
separated t n ts c w (plain d v p) = ground (arith, c, d)
separated t n ts c w (calling d (result v k f p)) = ground (arith, w, v)
separated t n ts c w (calling d (answered a p)) = unmet t t.tool_calls refl (and-eq_true c).1 a

healed :
    (t n r : ConversationTurn) (ts : List ConversationTurn)
    → calls_tools t ≡ true
    → (calls_tools n ≡ false) × (is_tool n ≡ false)
    → (calls_tools r ≡ false) × (is_tool r ≡ true)
    → heal_tool_pairing (t ∷ n ∷ r ∷ ts)
      ≡ t ∷ (missing t [] t.tool_calls ++ (n ∷ heal_tool_pairing ts))
unfolding heal_tool_pairing heal
healed t n r ts c (a, b) (d, w) = rw (c, b, a, d, w) refl

-- If another producer follows an assistant turn whose call has a result directly behind it, then the
-- note of insertModelSwitchNotes stands between the two: the request does not obey the pairing rule,
-- and HealToolPairing drops the result and writes for each call that its result is missing.
pub insert_model_switch_notes-separates :
    (now : ℕ → ℕ) (active : TurnAttribution) (t r : ConversationTurn) (ts : List ConversationTurn)
    → calls_tools t ≡ true
    → is_tool r ≡ true
    → hands_over active t (r ∷ ts) ≡ true
    → (¬ Paired false outside (insert_model_switch_notes now (t ∷ r ∷ ts) active))
      × (heal_tool_pairing (insert_model_switch_notes now (t ∷ r ∷ ts) active)
          ≡ t
            ∷ (missing t [] t.tool_calls
                ++ (model_switch_note (now 0) (attribution_of t) (producer active (r ∷ ts))
                    ∷ heal_tool_pairing (noted now active 2 ts))))
unfolding noted
insert_model_switch_notes-separates now active t r ts c w h =
    let n = model_switch_note (now 0) (attribution_of t) (producer active (r ∷ ts)) in
    let k = note-plain (now 0) (attribution_of t) (producer active (r ∷ ts)) in
    let q : insert_model_switch_notes now (t ∷ r ∷ ts) active ≡ t ∷ n ∷ r ∷ noted now active 2 ts =
      insert_model_switch_notes-noted now (t ∷ r ∷ ts) active
      ∙ rw (h, result-stays active r ts w) refl in
    (
      λ p. separated t n (r ∷ noted now active 2 ts) c k.1 (subst (Paired false outside) q p),
      ap heal_tool_pairing q ∙ healed t n r (noted now active 2 ts) c k (result_calls r w, w),
    )
