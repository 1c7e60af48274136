-- ===== src/Approvals.antt =====
-- src/anse_harness/approvals/gate.py: approval requests, decisions and the two supplied resolvers.
-- `ApprovalGate.request` is not implemented in the source; what calls it takes it as a function.
use ai_native_sweng.Prelude.{String, Bool, Option, List, [], ◌∷◌}
use ai_native_sweng.Json.Value.{Dict, str, bool, dict, strings, optional}

pub data ApprovalDecision : Type 0 where
  approved rejected approved_with_conditions expired escalated : ApprovalDecision

unfoldable pub decision_value : ApprovalDecision → String
decision_value approved = "approved"
decision_value rejected = "rejected"
decision_value approved_with_conditions = "approved_with_conditions"
decision_value expired = "expired"
decision_value escalated = "escalated"

pub record ApprovalRequest : Type 0 where
  pub action : String
  pub reason : String
  pub affected_paths : List String
  pub risk : String
  pub diff : Option String
  pub validation_ok : Option Bool

-- ApprovalRequest.to_payload
unfoldable pub request_payload : ApprovalRequest → Dict
request_payload r = dict (
    ("action", str r.action)
    ∷ ("reason", str r.reason)
    ∷ ("affected_paths", strings r.affected_paths)
    ∷ ("risk", str r.risk)
    ∷ ("diff", optional str r.diff)
    ∷ ("validation_ok", optional bool r.validation_ok)
    ∷ [])

unfoldable pub reject_all : ApprovalRequest → ApprovalDecision
reject_all request = rejected

unfoldable pub approve_all : ApprovalRequest → ApprovalDecision
approve_all request = approved
