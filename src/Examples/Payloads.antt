-- ===== src/Examples/Payloads.antt =====
-- A workflow state and a reviewer at concrete values.
use ai_native_sweng.Prelude.{◌≡◌, refl, ok}
use ai_native_sweng.Workflow.State.{WorkflowState, initial_workflow_state}
use ai_native_sweng.Workflow.State.Payload.{to_payload}
use ai_native_sweng.Workflow.State.Reading.{from_payload}
use ai_native_sweng.Workflow.State.RoundTrip.{
  from_payload-to_payload, from_payload-to_payload-from_payload,
}
use ai_native_sweng.Examples.Boundary.{strict}

abbrev started : WorkflowState
started = initial_workflow_state "wf-1" "issue_to_patch" "1" "task-1" "default" "reject"

from_payload-to_payload-from_payload_example : from_payload strict (to_payload started) ≡ ok started
unfolding initial_workflow_state
from_payload-to_payload-from_payload_example =
    from_payload-to_payload-from_payload strict (to_payload started) started
      (from_payload-to_payload strict started refl)
