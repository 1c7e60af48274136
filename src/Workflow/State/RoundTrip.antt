-- ===== src/Workflow/State/RoundTrip.antt =====
-- What `to_payload` writes, `from_payload` reads back.
use ai_native_sweng.Prelude.{arith, ◌≡◌, refl, sym, ok, traverse-map}
use ai_native_sweng.Json.Value.{Dict, items_list-items}
use ai_native_sweng.Json.Convert.{Builtins, reading, as_strings-strings}
use ai_native_sweng.Workflow.State.{
  WorkflowStatus, WorkflowState, pending, running, awaiting_approval, completed, failed, cancelled,
  escalated, FailureEvent, ApprovalRecord, WorkerInvocation, workflow_state_schema_version,
}
use ai_native_sweng.Workflow.State.Payload.{
  status_value, to_payload, failure_payload, approval_payload, invocation_payload,
}
use ai_native_sweng.Workflow.State.Reading.{
  workflow_status, from_payload, failure_event, approval_record, worker_invocation,
}

pub workflow_status-status_value : (s : WorkflowStatus) → workflow_status (status_value s) ≡ ok s
unfolding workflow_status reading
workflow_status-status_value pending = refl
workflow_status-status_value running = refl
workflow_status-status_value awaiting_approval = refl
workflow_status-status_value completed = refl
workflow_status-status_value failed = refl
workflow_status-status_value cancelled = refl
workflow_status-status_value escalated = refl

module _ (py : Builtins) where
  failure_event-failure_payload : (e : FailureEvent) → failure_event py (failure_payload e) ≡ ok e
  unfolding failure_event failure_payload reading
  failure_event-failure_payload e = refl

  approval_record-approval_payload :
      (r : ApprovalRecord) → approval_record py (approval_payload r) ≡ ok r
  unfolding approval_record approval_payload reading
  approval_record-approval_payload r = refl

  worker_invocation-invocation_payload :
      (inv : WorkerInvocation) → worker_invocation py (invocation_payload inv) ≡ ok inv
  unfolding worker_invocation invocation_payload reading
  worker_invocation-invocation_payload inv = refl

  -- A state of the current schema version is read back from its payload unchanged, whatever the
  -- builtins do outside their own types.
  pub from_payload-to_payload :
      (s : WorkflowState)
      → s.schema_version ≡ workflow_state_schema_version
      → from_payload py (to_payload s) ≡ ok s
  unfolding from_payload to_payload reading
  from_payload-to_payload s h =
      simp
        (
          h,
          workflow_status-status_value s.status.state,
          as_strings-strings py,
          items_list-items,
          traverse-map (failure_event py) failure_payload failure_event-failure_payload,
          traverse-map (approval_record py) approval_payload approval_record-approval_payload,
          traverse-map (worker_invocation py) invocation_payload
              worker_invocation-invocation_payload,
        )
        (λ i. ok (record s { schema_version = sym h i }))

  schema_version-from_payload :
      (d : Dict) (s : WorkflowState)
      → from_payload py d ≡ ok s
      → s.schema_version ≡ workflow_state_schema_version
  unfolding from_payload
  schema_version-from_payload d s h = ground arith

  -- Whatever dict `from_payload` accepts, the payload of the state that it returns is read back as
  -- that same state: one reading normalises a payload.
  pub from_payload-to_payload-from_payload :
      (d : Dict) (s : WorkflowState)
      → from_payload py d ≡ ok s
      → from_payload py (to_payload s) ≡ ok s
  from_payload-to_payload-from_payload d s h =
      from_payload-to_payload s (schema_version-from_payload d s h)
