-- ===== src/Integrations/Mcp/Gate.antt =====
-- What the approval boundary guarantees of a gated MCP call.
use ai_native_sweng.Prelude.{
  ltb, leb, Error, concat, String, Bool, true, false, [], ◌∷◌, ◌++◌, ◌≡◌, refl, Result, ok, err,
  permission_error, if◌then◌else◌, sym, append-nil, ◌==◌, arith, contains, not, ◌||◌, ap,
}
use ai_native_sweng.Json.Value.{ℤ, pos, negsuc, dict, int, Json, null, str, Dict}
use ai_native_sweng.Tracing.Event.{event_types}
use ai_native_sweng.Tracing.Recorder.{Call, event_id}
use ai_native_sweng.Tracing.Recorder.Success.{emitted, emit-ok}
use ai_native_sweng.Approvals.{ApprovalDecision, approved, decision_value, ApprovalRequest}
use ai_native_sweng.Integrations.Mcp.{
  serve, McpToolCapability, Session, record_event, requires_approval, approval_request,
  gated_tools_call, pass_gate, call_server, ◌>>=◌, and_then, pure, Exec,
}

abbrev call_of : String → Dict → String → Json → Call
call_of t payload status parent = record {
  event_type = t;
  component = "integration.mcp";
  payload = payload;
  status = status;
  parent = parent;
  sensitive_keys = [];
}

-- the session after one event
noted : String → Dict → String → Json → Session → Session
noted t payload status parent s = record s {
  recorder = emitted (call_of t payload status parent) s.recorder;
}

-- Recording an event of a known type never raises, and it asks the server nothing.
record_event-ok :
    (t : String)
    → contains event_types t ≡ true
    → (payload : Dict) (status : String) (parent : Json) (s : Session)
    → record_event t payload status parent s
      ≡ (ok (event_id s.recorder.prefix s.recorder.seq), noted t payload status parent s)
unfolding record_event noted
record_event-ok t known payload status parent s =
    rw (emit-ok t "integration.mcp" (call_of t payload status parent) s.recorder known)

-- a side-effect class of 3 or above
abbrev pub consequential : ℤ → Bool
consequential (pos n) = not (ltb n 3)
consequential (negsuc n) = false

requires_approval-consequential :
    (c : McpToolCapability) → requires_approval c ≡ consequential c.side_effect_class
unfolding requires_approval
requires_approval-consequential c = by_class c.side_effect_class
  where
    by_class : (k : ℤ) → elim k [ pos n ↦ leb 3 n | negsuc n ↦ false ] ≡ consequential k
    by_class (pos n) = ground arith
    by_class (negsuc n) = refl

-- The statement that follows an event runs with its id, in the session that the event leaves.
after_event :
    {B : Type 0} (t : String)
    → contains event_types t ≡ true
    → (payload : Dict) (status : String) (parent : Json) (k : String → Exec B) (s : Session)
    → (record_event t payload status parent >>= k) s
      ≡ k (event_id s.recorder.prefix s.recorder.seq) (noted t payload status parent s)
unfolding ◌>>=◌
after_event t known payload status parent k s =
    ap (λ p. and_then p k) (record_event-ok t known payload status parent s)

after_result :
    {A B : Type 0} (m : Exec A) (k : A → Exec B) (s s' : Session) (a : A)
    → m s ≡ (ok a, s')
    → (m >>= k) s ≡ k a s'
unfolding ◌>>=◌
after_result m k s s' a h = ap (λ p. and_then p k) h

after_error :
    {A B : Type 0} (m : Exec A) (k : A → Exec B) (s s' : Session) (e : Error)
    → m s ≡ (err e, s')
    → (m >>= k) s ≡ (err e, s')
unfolding ◌>>=◌
after_error m k s s' e h = ap (λ p. and_then p k) h

module _ (request : ApprovalRequest → ApprovalDecision) (tools_call : String → Dict → Result Dict)
    (c : McpToolCapability) (server_id : String) where
  -- the decision on the call, where one is asked for
  abbrev pub decision : String
  decision = decision_value (request (approval_request request tools_call c server_id))

  abbrev pub approves : Bool
  approves = decision == decision_value approved

  resolved : Session → Session
  resolved s = noted "approval_resolved" (dict (("decision", str decision) ∷ [])) decision null (
      noted "approval_requested"
        (dict
          (("action", str (concat ("mcp:" ∷ c.tool_name ∷ []))) ∷ ("server", str server_id) ∷ []))
        "ok" null s)

  refused : Session → Session
  refused s =
      noted "tool_failed" (dict (("tool", str c.tool_name) ∷ ("decision", str decision) ∷ []))
        "rejected" null (resolved s)

  pass_gate-approved :
      (s : Session)
      → approves ≡ true
      → pass_gate request tools_call c server_id s ≡ (ok tt, resolved s)
  unfolding pass_gate contains resolved
  pass_gate-approved s h =
      simp (after_event "approval_requested" refl, after_event "approval_resolved" refl, h)

  pass_gate-refused :
      (s : Session)
      → approves ≡ false
      → pass_gate request tools_call c server_id s ≡ (err permission_error, refused s)
  unfolding pass_gate contains resolved refused
  pass_gate-refused s h = simp (
    after_event "approval_requested" refl,
    after_event "approval_resolved" refl,
    h,
    after_event "tool_failed" refl,
  )

  evaluated : Bool → Session → Session
  evaluated gated s =
      noted "policy_evaluated"
        (dict (
          ("server", str server_id)
          ∷ ("tool", str c.tool_name)
          ∷ ("side_effect_class", int c.side_effect_class)
          ∷ ("decision", str (if gated then "require_approval" else "allow"))
          ∷ []))
        "ok" null s

  module _ (arguments : Dict) where
    -- A call of class 3 or above that is not approved raises, and leaves the trace with the refusal as
    -- its last event and the server unasked.
    refused_lem :
        (s : Session)
        → requires_approval c ≡ true
        → approves ≡ false
        → gated_tools_call request tools_call c arguments server_id s
          ≡ (err permission_error, refused (evaluated true s))
    unfolding gated_tools_call contains evaluated
    refused_lem s g h =
        simp (g, after_event "policy_evaluated" refl)
          (after_error _ _ _ _ _ (pass_gate-refused (evaluated true s) h))

    approved_lem :
        (s : Session)
        → requires_approval c ≡ true
        → approves ≡ true
        → gated_tools_call request tools_call c arguments server_id s
          ≡ serve request tools_call c arguments server_id (resolved (evaluated true s))
    unfolding gated_tools_call contains evaluated
    approved_lem s g h =
        simp (g, after_event "policy_evaluated" refl)
          (after_result _ _ _ _ _ (pass_gate-approved (evaluated true s) h))

    ungated_lem :
        (s : Session)
        → requires_approval c ≡ false
        → gated_tools_call request tools_call c arguments server_id s
          ≡ serve request tools_call c arguments server_id (evaluated false s)
    unfolding gated_tools_call contains evaluated
    ungated_lem s g =
        simp (g, after_event "policy_evaluated" refl) (after_result (pure tt) _ _ _ tt refl)

    replied :
        (s : Session) (reply : Result Dict)
        → tools_call c.tool_name arguments ≡ reply
        → ((serve request tools_call c arguments server_id s).1.calls
            ≡ s.calls ++ (c.tool_name, arguments) ∷ [])
          × ((serve request tools_call c arguments server_id s).0 ≡ reply)
    unfolding serve contains call_server ◌>>=◌ noted
    replied s (ok reply) e =
        simp (record_event-ok "tool_requested" refl, e, record_event-ok "tool_completed" refl)
          (refl, refl)
    replied s (err x) e = simp (record_event-ok "tool_requested" refl, e) (refl, refl)

    -- A call of a class below 3, or that the gate approves.
    abbrev pub permitted : Bool
    permitted = not (consequential c.side_effect_class) || approves

    -- The server is asked exactly when the call is permitted: a side-effect class below 3, or an
    -- approval. A permitted call reaches the server once, with the caller's arguments, and the
    -- outcome is the server's; any other raises `PermissionError` and reaches nothing.
    pub gated_tools_call_lem :
        (s : Session)
        → ((gated_tools_call request tools_call c arguments server_id s).1.calls
            ≡ s.calls ++ (if permitted then (c.tool_name, arguments) ∷ [] else []))
          × ((gated_tools_call request tools_call c arguments server_id s).0
              ≡ (if permitted then tools_call c.tool_name arguments else err permission_error))
    unfolding evaluated noted resolved refused
    gated_tools_call_lem s =
        rw (← requires_approval-consequential c) (by_class (requires_approval c) refl approves refl)
      where
        Outcome : Bool → Type 0
        Outcome p =
            ((gated_tools_call request tools_call c arguments server_id s).1.calls
              ≡ s.calls ++ (if p then (c.tool_name, arguments) ∷ [] else []))
            × ((gated_tools_call request tools_call c arguments server_id s).0
                ≡ (if p then tools_call c.tool_name arguments else err permission_error))

        by_class :
            (b : Bool) → requires_approval c ≡ b → (a : Bool) → approves ≡ a → Outcome (not b || a)
        by_class true g true p =
            rw (approved_lem s g p) (replied (resolved (evaluated true s)) _ refl)
        by_class true g false p = rw (refused_lem s g p) (sym (append-nil s.calls), refl)
        by_class false g a p = rw (ungated_lem s g) (replied (evaluated false s) _ refl)
