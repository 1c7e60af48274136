-- ===== src/Reliability/Escalation/RoundTrip.antt =====
-- The records of an escalation are read back as they were written.
use ai_native_sweng.Prelude.{◌≡◌, refl, ok, traverse-map}
use ai_native_sweng.Json.Value.{items_list-items}
use ai_native_sweng.Json.Convert.{Builtins, as_strings-strings, optional_float, reading}
use ai_native_sweng.Reliability.Escalation.{
  EscalationRequest, AbortedRunReport, StageFailure, escalation_payload, escalation_request,
  aborted_payload, aborted_run_report, stage_failure, stage_failure_payload,
}

module _ (py : Builtins) where
  -- An escalation request is read back from its payload unchanged.
  pub escalation_request-escalation_payload :
      (r : EscalationRequest) → escalation_request py (escalation_payload r) ≡ ok r
  unfolding escalation_request escalation_payload reading
  escalation_request-escalation_payload r = simp (as_strings-strings py)

  stage_failure-stage_failure_payload :
      (e : StageFailure) → stage_failure py (stage_failure_payload e) ≡ ok e
  unfolding stage_failure stage_failure_payload reading
  stage_failure-stage_failure_payload e = refl

  -- An aborted-run report is read back from its payload unchanged, its failure history included.
  pub aborted_run_report-aborted_payload :
      (r : AbortedRunReport) → aborted_run_report py (aborted_payload r) ≡ ok r
  unfolding aborted_run_report aborted_payload reading
  aborted_run_report-aborted_payload r = simp (
    as_strings-strings py,
    items_list-items,
    optional_float py,
    traverse-map (stage_failure py) stage_failure_payload stage_failure-stage_failure_payload,
  )
