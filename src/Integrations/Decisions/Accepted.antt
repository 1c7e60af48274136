-- ===== src/Integrations/Decisions/Accepted.antt =====
-- The records that the readers accept: what the gate has checked of them, and their round trips.
use ai_native_sweng.Prelude.{true, false, ◌≡◌, ok, contains, ◌||◌, arith, ◌∙◌}
use ai_native_sweng.Json.Value.{Dict, items_list-items}
use ai_native_sweng.Json.Convert.{Builtins, reading, optional_int}
use ai_native_sweng.Integrations.Decisions.{
  ExternalActionAudit, ProtocolDecisionRecord, checked_audit, protocol_options,
  local_protocol_options, protocol_justifications, all_known, is_given, validate, blank,
  checked_decision, protocol_payload, audit_payload, external_action_audit,
  protocol_decision_record,
}

module _ (py : Builtins) where
  audit_reading_back :
      (a : ExternalActionAudit) → external_action_audit py (audit_payload py a) ≡ checked_audit a
  unfolding external_action_audit audit_payload reading
  audit_reading_back a = simp (optional_int py)

  -- An audit record that its constructor accepts is read back from its payload unchanged.
  pub external_action_audit-audit_payload :
      (a : ExternalActionAudit)
      → checked_audit a ≡ ok a
      → external_action_audit py (audit_payload py a) ≡ ok a
  external_action_audit-audit_payload a h = audit_reading_back a ∙ h

  decision_reading_back :
      (r : ProtocolDecisionRecord)
      → protocol_decision_record py (protocol_payload r) ≡ checked_decision r
  unfolding protocol_decision_record protocol_payload reading
  decision_reading_back r = simp items_list-items

  checked_decision_idem :
      (r r' : ProtocolDecisionRecord) → checked_decision r ≡ ok r' → checked_decision r' ≡ ok r'
  unfolding checked_decision
  checked_decision_idem r r' h = ground arith

  checked-protocol_decision_record :
      (d : Dict) (r : ProtocolDecisionRecord)
      → protocol_decision_record py d ≡ ok r
      → checked_decision r ≡ ok r
  unfolding protocol_decision_record
  checked-protocol_decision_record d r h = grind (arith, checked_decision_idem)

  checked_decision_lem :
      (r : ProtocolDecisionRecord)
      → checked_decision r ≡ ok r
      → (contains protocol_options r.chosen ≡ true)
        × (all_known protocol_options r.rejected_alternatives ≡ true)
        × (all_known protocol_justifications r.justifications ≡ true)
        × (contains local_protocol_options r.chosen || is_given r.justifications ≡ true)
        × (blank r.rationale ≡ false)
  unfolding checked_decision validate
  checked_decision_lem r h = ground arith

  -- Whatever dict the reader accepts, the record that it returns has passed the gate (a known
  -- option, known alternatives and justifications, a justification unless the option is local,
  -- a rationale), and it is read back from its payload unchanged.
  pub protocol_decision_record-protocol_payload :
      (d : Dict) (r : ProtocolDecisionRecord)
      → protocol_decision_record py d ≡ ok r
      → (contains protocol_options r.chosen ≡ true)
        × (all_known protocol_options r.rejected_alternatives ≡ true)
        × (all_known protocol_justifications r.justifications ≡ true)
        × (contains local_protocol_options r.chosen || is_given r.justifications ≡ true)
        × (blank r.rationale ≡ false)
        × (protocol_decision_record py (protocol_payload r) ≡ ok r)
  protocol_decision_record-protocol_payload d r h =
      let c = checked-protocol_decision_record d r h in
      let (chosen, rejected, justified, local, rationale) = checked_decision_lem r c in
      (chosen, rejected, justified, local, rationale, decision_reading_back r ∙ c)
