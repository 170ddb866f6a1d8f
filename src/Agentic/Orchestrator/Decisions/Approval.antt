-- ===== src/Agentic/Orchestrator/Decisions/Approval.antt =====
-- When a call asks for an approval (agentic/orchestrator.go).
use rysh_cli_shared.Prelude.{
  String, Bool, true, false, ◌&&◌, ◌||◌, not, Option, some, List, ◌∷◌, ◌≡◌, ◌∙◌, ◌==◌, arith,
  eq_refl,
}
use rysh_cli_shared.Agentic.ApprovalMemory.{ApprovalMemory, approved, approve}
use rysh_cli_shared.Agentic.ApprovalMemory.Answers.{approve_all, approved-approve_all}
use rysh_cli_shared.Agentic.Policy.{
  PolicyDecision, policy_default, policy_auto_approve, policy_gate, is_gate, eval_approval_policy,
}
use rysh_cli_shared.Agentic.Orchestrator.State.{Env, Desk}
use rysh_cli_shared.Agentic.Orchestrator.Decisions.{
  remembered, decide, decide_approval, approve_always,
}

abbrev pub is_auto : PolicyDecision → Bool
is_auto policy_auto_approve = true
is_auto policy_gate = false
is_auto policy_default = false

decided :
    (e : Env) (m : Option ApprovalMemory) (name params : String) (classifier : Bool)
    (v : PolicyDecision × String)
    → (decide e m name params classifier v).0 ≡ (
        is_gate v.0
        || (not e.auto_approve_all
            && (not (is_auto v.0) && (classifier && not (remembered e m name params)))))
decided e m name params classifier (policy_default, rule) = ground arith
decided e m name params classifier (policy_auto_approve, rule) = ground arith
decided e m name params classifier (policy_gate, rule) = ground arith

-- A call asks for an approval exactly if the policy gates it, or if the run does not approve
-- everything, the policy does not approve the call, its tool requires an approval, and no answer is
-- remembered for it.
pub decide_approval_lem :
    (e : Env) (m : Option ApprovalMemory) (name params : String) (classifier : Bool)
    → (decide_approval e m name params classifier).0 ≡ (
        is_gate (eval_approval_policy e.policy name params).0
        || (not e.auto_approve_all
            && (not (is_auto (eval_approval_policy e.policy name params).0)
                && (classifier && not (remembered e m name params)))))
unfolding decide_approval
decide_approval_lem e m name params classifier =
    decided e m name params classifier (eval_approval_policy e.policy name params)

always_remembered :
    (name : String) (ks : List String) (m : ApprovalMemory)
    → (name == "") ≡ false
    → approved name (approve_all ks (approve name (some m))) ≡ true
always_remembered name ks m n =
    approved-approve_all (name ∷ ks) name m ∙ ground (arith, eq_refl name, n)

off_gate : (g a u c r : Bool) → r ≡ true → (g || (not a && (not u && (c && not r)))) ≡ g
off_gate g a u c r h = ground arith

or_true : (a b : Bool) → b ≡ true → (a || b) ≡ true
or_true a b h = ground arith

-- After a yes for always to one call of a tool, and any further such answers, a call of the tool asks
-- for an approval exactly if the policy gates it, whatever its parameters.
pub decide_approval-approve_always :
    (e : Env) (d : Desk) (m : ApprovalMemory) (name first params : String) (classifier : Bool)
    (ks : List String)
    → (name == "") ≡ false
    → d.auto_approved ≡ some m
    → (decide_approval e
        (approve_all ks (approve_always name first d).auto_approved)
        name
        params
        classifier).0
      ≡ is_gate (eval_approval_policy e.policy name params).0
unfolding approve_always
decide_approval-approve_always e d m name first params classifier ks n q =
    let am = approve_all ks (approve name d.auto_approved) in
    let k : approved name am ≡ true = rw q (always_remembered name ks m n) in
    decide_approval_lem e am name params classifier
    ∙ off_gate _ e.auto_approve_all _ classifier (remembered e am name params)
        (or_true _ (approved name am) k)
