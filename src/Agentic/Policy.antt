-- ===== src/Agentic/Policy.antt =====
-- The hook of the policy that is written as code (agentic/approval_policy.go). The global variable is
-- an argument; the function that is installed in it is a parameter.
use rysh_cli_shared.Prelude.{String, Bool, true, false, Option, none, some}

pub data PolicyDecision : Type 0 where
  policy_default policy_auto_approve policy_gate : PolicyDecision

-- dec == PolicyGate
abbrev pub is_gate : PolicyDecision → Bool
is_gate policy_gate = true
is_gate policy_auto_approve = false
is_gate policy_default = false

-- ApprovalPolicyFunc
abbrev pub ApprovalPolicyFunc : Type 0
ApprovalPolicyFunc = String → String → PolicyDecision × String

-- SetApprovalPolicy
abbrev pub set_approval_policy :
    Option ApprovalPolicyFunc → Option ApprovalPolicyFunc → Option ApprovalPolicyFunc
set_approval_policy none installed = none
set_approval_policy (some f) installed = some f

-- evalApprovalPolicy
unfoldable pub eval_approval_policy :
    Option ApprovalPolicyFunc → String → String → PolicyDecision × String
eval_approval_policy none tool input = (policy_default, "")
eval_approval_policy (some f) tool input = f tool input
