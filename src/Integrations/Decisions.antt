-- ===== src/Integrations/Decisions.antt =====
-- src/anse_harness/integrations/contracts.py: the audit record of an external action and the
-- protocol-decision record.
pub mod Accepted
use ai_native_sweng.Prelude.{
  strip, ◌==◌, String, Bool, true, false, Option, List, [], ◌∷◌, Result, ok, value_error, contains,
  concat, guard, not, ◌||◌, ◌>>=◌, ◌>>◌, if◌then◌else◌,
}
use ai_native_sweng.Json.Value.{ℤ, Json, bool, int, str, Dict, dict, array, optional}
use ai_native_sweng.Json.Convert.{
  Builtins, index, get, get_or, iterate, as_str, as_int, truthy, optional_of,
}

-- AUDIT_OUTCOMES
abbrev pub audit_outcomes : List String
audit_outcomes = "completed" ∷ "deduplicated" ∷ "rejected" ∷ "cancelled" ∷ "failed" ∷ []

-- `idempotency_key` is read unconverted.
pub record ExternalActionAudit : Type 0 where
  pub action : String
  pub method : String
  pub path : String
  pub idempotency_key : Json
  pub approved : Bool
  pub outcome : String
  pub status : Option ℤ
  pub detail : String

-- ExternalActionAudit.__post_init__, as a constructor that may raise
unfoldable pub checked_audit : ExternalActionAudit → Result ExternalActionAudit
checked_audit a = do guard (contains audit_outcomes a.outcome) value_error; ok a

abbrev pub protocol_options : List String
protocol_options =
    "direct_function_call" ∷ "local_process" ∷ "rest_api" ∷ "mcp" ∷ "agent_to_agent" ∷ []

abbrev pub local_protocol_options : List String
local_protocol_options = "direct_function_call" ∷ "local_process" ∷ []

abbrev pub protocol_justifications : List String
protocol_justifications =
    "process_isolation" ∷ "independent_deployment" ∷ "external_ownership" ∷ "technology_boundary"
    ∷ "ecosystem_interoperability" ∷ "reusable_capability_discovery" ∷ []

-- The justifications and the alternatives are read unconverted.
pub record ProtocolDecisionRecord : Type 0 where
  pub capability : String
  pub chosen : String
  pub justifications : List Json
  pub rejected_alternatives : List Json
  pub rationale : String

-- value in options: of the JSON values only a text can be
unfoldable pub known : List String → Json → Bool
unfolding contains
known options (str s) = contains options s
known options _ = false

-- every value is one of the options
unfoldable pub all_known : List String → List Json → Bool
unfolding known
all_known options [] = true
all_known options (x ∷ xs) = if known options x then all_known options xs else false

-- bool(xs)
abbrev pub is_given : List Json → Bool
is_given [] = false
is_given (x ∷ xs) = true

-- not text.strip()
unfoldable pub blank : String → Bool
unfolding strip
blank s = strip s == ""

-- ProtocolDecisionRecord.validate
unfoldable pub validate : ProtocolDecisionRecord → Result (Unit {0})
validate r = do
  guard (contains protocol_options r.chosen) value_error
  guard (all_known protocol_options r.rejected_alternatives) value_error
  guard (all_known protocol_justifications r.justifications) value_error
  guard (contains local_protocol_options r.chosen || is_given r.justifications) value_error
  guard (not (blank r.rationale)) value_error

-- a record that is validated before it is returned
unfoldable pub checked_decision : ProtocolDecisionRecord → Result ProtocolDecisionRecord
checked_decision r = do validate r; ok r

-- ProtocolDecisionRecord.to_payload
unfoldable pub protocol_payload : ProtocolDecisionRecord → Dict
protocol_payload r = dict (
    ("artifact_type", str "protocol_decision_record")
    ∷ ("capability", str r.capability)
    ∷ ("chosen", str r.chosen)
    ∷ ("justifications", array r.justifications)
    ∷ ("rejected_alternatives", array r.rejected_alternatives)
    ∷ ("rationale", str r.rationale)
    ∷ [])

module _ (py : Builtins) where
  -- audit_artifact_id
  unfoldable pub audit_artifact_id : String → Json → String
  audit_artifact_id action key =
      concat ("audit-" ∷ action ∷ "-" ∷ (if truthy key then as_str py key else "read") ∷ [])

  -- ExternalActionAudit.to_payload
  unfoldable pub audit_payload : ExternalActionAudit → Dict
  audit_payload a = dict (
      ("artifact_type", str "external_action_audit")
      ∷ ("artifact_id", str (audit_artifact_id a.action a.idempotency_key))
      ∷ ("action", str a.action)
      ∷ ("method", str a.method)
      ∷ ("path", str a.path)
      ∷ ("idempotency_key", a.idempotency_key)
      ∷ ("approved", bool a.approved)
      ∷ ("outcome", str a.outcome)
      ∷ ("status", optional int a.status)
      ∷ ("detail", str a.detail)
      ∷ [])

  -- ExternalActionAudit.from_payload
  unfoldable pub external_action_audit : Dict → Result ExternalActionAudit
  external_action_audit d = do
    action_raw ← index d "action"
    method_raw ← index d "method"
    path_raw ← index d "path"
    idempotency_key ← index d "idempotency_key"
    approved_raw ← index d "approved"
    outcome_raw ← index d "outcome"
    status ← optional_of (as_int py) (get d "status")
    checked_audit (record {
      action = as_str py action_raw;
      method = as_str py method_raw;
      path = as_str py path_raw;
      idempotency_key = idempotency_key;
      approved = truthy approved_raw;
      outcome = as_str py outcome_raw;
      status = status;
      detail = as_str py (get_or d "detail" (str ""));
    })

  -- ProtocolDecisionRecord.from_payload
  unfoldable pub protocol_decision_record : Dict → Result ProtocolDecisionRecord
  protocol_decision_record d = do
    capability_raw ← index d "capability"
    chosen_raw ← index d "chosen"
    justifications ← iterate (get_or d "justifications" (array []))
    rejected_alternatives ← iterate (get_or d "rejected_alternatives" (array []))
    checked_decision (record {
      capability = as_str py capability_raw;
      chosen = as_str py chosen_raw;
      justifications = justifications;
      rejected_alternatives = rejected_alternatives;
      rationale = as_str py (get_or d "rationale" (str ""));
    })
