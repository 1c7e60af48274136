-- ===== src/Integrations/Mcp.antt =====
-- src/anse_harness/integrations/mcp_client.py: `gated_tools_call`. The approval gate and the client
-- are arguments: functions from the request to the decision, and from the call to the reply.
pub mod Gate
use ai_native_sweng.Prelude.{
  String, Bool, false, none, List, [], ◌∷◌, ◌++◌, Result, ok, err, permission_error, if◌then◌else◌,
  ◌==◌, concat, leb,
}
use ai_native_sweng.Json.Value.{ℤ, pos, negsuc, Json, null, bool, int, str, obj, Dict, dict}
use ai_native_sweng.Json.Convert.{has, int_text}
use ai_native_sweng.Approvals.{ApprovalDecision, approved, decision_value, ApprovalRequest}
use ai_native_sweng.Tracing.Recorder.{Recorder, emit}

pub record McpToolCapability : Type 0 where
  pub tool_name : String
  pub side_effect_class : ℤ

-- The recorder, and the calls that have reached the server.
pub record Session : Type 0 where
  pub recorder : Recorder
  pub calls : List (String × Dict)

abbrev pub Exec : Type 0 → Type 0
Exec A = Session → Result A × Session

unfoldable pub and_then : {A B : Type 0} → Result A × Session → (A → Exec B) → Result B × Session
and_then (ok a, s) f = f a s
and_then (err e, s) f = (err e, s)

infixl 5 ◌>>=◌ ◌>>◌
unfoldable pub ◌>>=◌ : {A B : Type 0} → Exec A → (A → Exec B) → Exec B
unfolding and_then
◌>>=◌ m f s = and_then (m s) f

abbrev pub ◌>>◌ : {A B : Type 0} → Exec A → Exec B → Exec B
m >> k = m >>= λ _. k

abbrev pub pure : {A : Type 0} → A → Exec A
pure a s = (ok a, s)

abbrev pub raise : {A : Type 0} → Exec A
raise s = (err permission_error, s)

-- one `recorder.emit`, with the keyword arguments that this module uses
unfoldable pub record_event : String → Dict → String → Json → Exec String
unfolding emit
record_event event_type payload status parent s =
    let (r, recorder') =
      emit
        (record {
          event_type = event_type;
          component = "integration.mcp";
          payload = payload;
          status = status;
          parent = parent;
          sensitive_keys = [];
        })
        s.recorder in
    (r, record s { recorder = recorder' })

-- capability.side_effect_class >= 3
unfoldable pub requires_approval : McpToolCapability → Bool
requires_approval c = elim c.side_effect_class [ pos n ↦ leb 3 n | negsuc n ↦ false ]

module _ (request : ApprovalRequest → ApprovalDecision)
    (tools_call : String → Dict → Result Dict) where
  abbrev approval_request : McpToolCapability → String → ApprovalRequest
  approval_request capability server_id = record {
    action = concat ("mcp:" ∷ capability.tool_name ∷ []);
    reason = concat ("call " ∷ capability.tool_name ∷ " on " ∷ server_id ∷ []);
    affected_paths = [];
    risk = concat ("external (class " ∷ int_text capability.side_effect_class ∷ ")" ∷ []);
    diff = none;
    validation_ok = none;
  }

  -- the approval boundary, which a call of class 3 and above has to pass
  unfoldable pub pass_gate : McpToolCapability → String → Exec (Unit {0})
  pass_gate capability server_id = do
    record_event "approval_requested"
        (dict (
          ("action", str (concat ("mcp:" ∷ capability.tool_name ∷ [])))
          ∷ ("server", str server_id)
          ∷ []))
        "ok" null
    let decision = request (approval_request capability server_id)
    record_event "approval_resolved" (dict (("decision", str (decision_value decision)) ∷ []))
        (decision_value decision) null
    if decision_value decision == decision_value approved then pure tt else do
      record_event "tool_failed"
          (dict
            (("tool", str capability.tool_name) ∷ ("decision", str (decision_value decision)) ∷ []))
          "rejected" null
      raise

  -- client.tools_call(...): what the server is asked is kept
  unfoldable pub call_server : String → Dict → Exec Dict
  call_server name arguments s =
      (tools_call name arguments, record s { calls = s.calls ++ (name, arguments) ∷ [] })

  -- the call itself, past the boundary
  unfoldable pub serve : McpToolCapability → Dict → String → Exec Dict
  serve capability arguments server_id = do
    request_id ←
        record_event "tool_requested"
          (dict (
            ("server", str server_id)
            ∷ ("tool", str capability.tool_name)
            ∷ ("arguments", obj arguments)
            ∷ []))
          "requested" null
    reply ← call_server capability.tool_name arguments
    record_event "tool_completed"
        (dict (
          ("server", str server_id)
          ∷ ("tool", str capability.tool_name)
          ∷ ("is_error", bool (has reply "error"))
          ∷ []))
        "ok" (str request_id)
    pure reply

  unfoldable pub gated_tools_call : McpToolCapability → Dict → String → Exec Dict
  gated_tools_call capability arguments server_id = do
    record_event "policy_evaluated"
        (dict (
          ("server", str server_id)
          ∷ ("tool", str capability.tool_name)
          ∷ ("side_effect_class", int capability.side_effect_class)
          ∷ ("decision", str (if requires_approval capability then "require_approval" else "allow"))
          ∷ []))
        "ok" null
    if requires_approval capability then pass_gate capability server_id else pure tt
    serve capability arguments server_id
