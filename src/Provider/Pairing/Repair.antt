-- ===== src/Provider/Pairing/Repair.antt =====
-- The output of HealToolPairing against the pairing rule (provider/toolpairing.go).
use rysh_cli_shared.Prelude.{
  String, Bool, true, false, ◌&&◌, not, List, [], ◌∷◌, ◌++◌, ◌≡◌, refl, ◌⊎◌, inl, inr, contains,
  Bool-cases, and-eq_true, append-nil, subst,
}
use text.Mathlib.TextEquality.{eq_iff}
use text.Mathlib.TextPositions.{eq_refl}
use native.Mathlib.Omega.{arith}
use rysh_cli_shared.Provider.Turns.{ConversationTurn, ToolCallRequest}
use rysh_cli_shared.Provider.Pairing.{
  Scan, outside, answering, calls_tools, is_tool, wanted, synthesized, missing, heal,
  heal_tool_pairing,
}
use rysh_cli_shared.Provider.Pairing.Paired.{
  Paired, finished, plain, calling, result, answered, distinct, distinct_calls,
}

pub synthesized-is_tool :
    (t : ConversationTurn) (c : ToolCallRequest) → is_tool (synthesized t c) ≡ true
unfolding is_tool
synthesized-is_tool t c = eq_refl "tool"

pub wanted_self : (c : ToolCallRequest) (cs : List ToolCallRequest) → wanted (c ∷ cs) c.id ≡ true
unfolding wanted
wanted_self c cs = ground (arith, eq_refl c.id)

pub wanted-tail :
    (c : ToolCallRequest) (cs : List ToolCallRequest) (id : String)
    → wanted cs id ≡ true
    → wanted (c ∷ cs) id ≡ true
unfolding wanted
wanted-tail c cs id h = ground arith

and-off : (a b : Bool) → (a ≡ true → b ≡ false) → (a && b) ≡ false
and-off true b h = h refl
and-off false b h = refl

taken : (a b : Bool) → not b ≡ true → (a && b) ≡ false
taken a b h = ground arith

-- What stands between the loop over the calls `cs` that are left, with the ids `before` answered by
-- the transcript, and the ids `ids` that the output has answered.
record Left (once : Bool) (o : ConversationTurn) (before ids : List String)
    (cs : List ToolCallRequest) : Type 0 where
  asked : (id : String) → wanted cs id ≡ true → wanted o.tool_calls id ≡ true
  covered :
      (id : String)
      → wanted o.tool_calls id ≡ true
      → (contains ids id ≡ true) ⊎ (wanted cs id ≡ true)
  kept : (id : String) → contains before id ≡ true → contains ids id ≡ true
  unused :
      (id : String)
      → once ≡ true
      → wanted cs id ≡ true
      → contains before id ≡ false
      → contains ids id ≡ false
  differ : once ≡ true → distinct cs ≡ true

Left-skip :
    {once : Bool} {o : ConversationTurn} {before ids : List String} {c : ToolCallRequest}
    {cs : List ToolCallRequest}
    → contains before c.id ≡ true
    → Left once o before ids (c ∷ cs)
    → Left once o before ids cs
unfolding wanted distinct
Left-skip {c = c} {cs = cs} h l = record {
  asked = λ id w. l.asked id (wanted-tail c cs id w);
  covered = λ id w. ground (arith, l.covered id w, l.kept id, eq_iff c.id id);
  kept = l.kept;
  unused = λ id e w. l.unused id e (wanted-tail c cs id w);
  differ = λ e. ground (arith, l.differ e);
}

Left-add :
    {once : Bool} {o : ConversationTurn} {before ids : List String} {c : ToolCallRequest}
    {cs : List ToolCallRequest}
    → Left once o before ids (c ∷ cs)
    → Left once o before (c.id ∷ ids) cs
unfolding wanted distinct
Left-add {c = c} {cs = cs} l = record {
  asked = λ id w. l.asked id (wanted-tail c cs id w);
  covered = λ id w. ground (arith, l.covered id w, eq_iff c.id id);
  kept = λ id w. ground (arith, l.kept id w);
  unused = λ id e w f.
      ground (arith, l.unused id e (wanted-tail c cs id w) f, l.differ e, eq_iff c.id id);
  differ = λ e. ground (arith, l.differ e);
}

-- The results that are written for the calls left complete the run of results.
missing-Paired :
    (once : Bool) (o : ConversationTurn) (before ids : List String) (cs : List ToolCallRequest)
    (rest : List ConversationTurn)
    → Left once o before ids cs
    → Paired once outside rest
    → Paired once (answering o ids) (missing o before cs ++ rest)
unfolding missing wanted
missing-Paired once o before ids [] rest l p = answered (λ id w. ground (arith, l.covered id w)) p
missing-Paired once o before ids (c ∷ cs) rest l p = elim (Bool-cases (contains before c.id)) [
  | inl h ↦ rw h (missing-Paired once o before ids cs rest (Left-skip h l) p)
  | inr h ↦ rw h (
      result (synthesized-is_tool o c) (l.asked c.id (wanted_self c cs))
        (and-off once (contains ids c.id) (λ e. l.unused c.id e (wanted_self c cs) h))
        (missing-Paired once o before (c.id ∷ ids) cs rest (Left-add l) p))
]

Left-all :
    {once : Bool} (o : ConversationTurn) (ids : List String)
    → (once ≡ true → distinct o.tool_calls ≡ true)
    → Left once o ids ids o.tool_calls
Left-all o ids d = record {
  asked = λ id w. w;
  covered = λ id w. inr w;
  kept = λ id w. w;
  unused = λ id e w f. f;
  differ = d;
}

abbrev IsDistinct : Bool → Scan → Type 0
IsDistinct once outside = Unit
IsDistinct once (answering o ids) = once ≡ true → distinct o.tool_calls ≡ true

-- In the run of results that follows an assistant's calls, and outside of one.
heal_run-Paired :
    (once : Bool) (s : Scan) (ts : List ConversationTurn)
    → (once ≡ true → distinct_calls ts ≡ true)
    → IsDistinct once s
    → Paired once s (heal s ts)
unfolding heal distinct_calls
heal_run-Paired once outside [] d i = finished
heal_run-Paired once (answering o ids) [] d i =
    subst (λ us. Paired once (answering o ids) us) (append-nil (missing o ids o.tool_calls))
      (missing-Paired once o ids ids o.tool_calls [] (Left-all o ids i) finished)
heal_run-Paired once outside (t ∷ ts) d i =
    let e = λ (h : once ≡ true). and-eq_true (d h) in
    elim (Bool-cases (calls_tools t)) [
      | inl c ↦
          rw c (calling c (heal_run-Paired once (answering t []) ts (λ h. (e h).1) (λ h. (e h).0)))
      | inr c ↦ elim (Bool-cases (is_tool t)) [
        | inl w ↦ rw (c, w) (heal_run-Paired once outside ts (λ h. (e h).1) tt)
        | inr w ↦ rw (c, w) (plain c w (heal_run-Paired once outside ts (λ h. (e h).1) tt))
      ]
    ]
heal_run-Paired once (answering o ids) (t ∷ ts) d i =
    let e = λ (h : once ≡ true). and-eq_true (d h) in
    elim (Bool-cases (is_tool t)) [
      | inl w ↦
          elim (Bool-cases
            (wanted o.tool_calls t.tool_call_id && not (contains ids t.tool_call_id))) [
              | inl k ↦
                  rw (w, k)
                    (result {o = o} {ids = ids} w (and-eq_true k).0
                      (taken once (contains ids t.tool_call_id) (and-eq_true k).1)
                      (heal_run-Paired once (answering o (t.tool_call_id ∷ ids)) ts (λ h. (e h).1)
                        i))
              | inr k ↦ rw (w, k) (heal_run-Paired once (answering o ids) ts (λ h. (e h).1) i)
            ]
      | inr w ↦ elim (Bool-cases (calls_tools t)) [
        | inl c ↦
            rw (w, c)
              (missing-Paired once o ids ids o.tool_calls _ (Left-all o ids i) (
                calling c (heal_run-Paired once (answering t []) ts (λ h. (e h).1) (λ h. (e h).0))))
        | inr c ↦
            rw (w, c)
              (missing-Paired once o ids ids o.tool_calls _ (Left-all o ids i)
                (plain c w (heal_run-Paired once outside ts (λ h. (e h).1) tt)))
      ]
    ]

-- The output of HealToolPairing obeys the pairing rule, for every transcript.
pub heal_tool_pairing-Paired :
    (ts : List ConversationTurn) → Paired false outside (heal_tool_pairing ts)
unfolding heal_tool_pairing
heal_tool_pairing-Paired ts = heal_run-Paired false outside ts (λ h. ground arith) tt

-- If the ids of each assistant turn's calls are distinct, the output of HealToolPairing has exactly
-- one result for each call.
pub heal_tool_pairing_exact :
    (ts : List ConversationTurn)
    → distinct_calls ts ≡ true
    → Paired true outside (heal_tool_pairing ts)
unfolding heal_tool_pairing
heal_tool_pairing_exact ts d = heal_run-Paired true outside ts (λ h. d) tt
