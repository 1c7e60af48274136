-- ===== src/Workflow/State/Payload.antt =====
-- src/anse_harness/workflows/state.py: `to_payload`.
use ai_native_sweng.Prelude.{String, [], ◌∷◌, map}
use ai_native_sweng.Json.Value.{Json, int, float, str, Dict, dict, object, array, strings}
use ai_native_sweng.Workflow.State.{
  WorkflowStatus, pending, running, awaiting_approval, completed, failed, cancelled, escalated,
  WorkerInvocation, ApprovalRecord, FailureEvent, WorkflowState,
}

unfoldable pub status_value : WorkflowStatus → String
status_value pending = "pending"
status_value running = "running"
status_value awaiting_approval = "awaiting_approval"
status_value completed = "completed"
status_value failed = "failed"
status_value cancelled = "cancelled"
status_value escalated = "escalated"

unfoldable pub approval_payload : ApprovalRecord → Json
approval_payload r =
    object (("action", str r.action) ∷ ("stage", str r.stage) ∷ ("decision", str r.decision) ∷ [])

unfoldable pub invocation_payload : WorkerInvocation → Json
invocation_payload inv = object (
    ("run_id", str inv.run_id)
    ∷ ("worker_type", str inv.worker_type)
    ∷ ("stage", str inv.stage)
    ∷ ("status", str inv.status)
    ∷ [])

unfoldable pub failure_payload : FailureEvent → Json
failure_payload event = object (("stage", str event.stage) ∷ ("reason", str event.reason) ∷ [])

-- WorkflowState.to_payload
unfoldable pub to_payload : WorkflowState → Dict
unfolding status_value
to_payload s = dict (
    ("schema_version", str s.schema_version)
    ∷ ("workflow_id", str s.workflow_id)
    ∷ ("workflow_type", str s.workflow_type)
    ∷ ("workflow_version", str s.workflow_version)
    ∷ (
      "task",
      object (
          ("task_id", str s.task.task_id)
          ∷ ("specification_artifact_id", s.task.specification_artifact_id)
          ∷ []),
    )
    ∷ (
      "status",
      object (
          ("state", str (status_value s.status.state))
          ∷ ("current_stage", str s.status.current_stage)
          ∷ ("termination_reason", s.status.termination_reason)
          ∷ []),
    )
    ∷ (
      "policies",
      object (
          ("termination_policy", str s.policies.termination_policy)
          ∷ ("approval_policy", str s.policies.approval_policy)
          ∷ []),
    )
    ∷ (
      "artifacts",
      object (
          ("plan", s.artifacts.plan)
          ∷ ("patches", strings s.artifacts.patches)
          ∷ ("validation_reports", strings s.artifacts.validation_reports)
          ∷ ("review_findings", strings s.artifacts.review_findings)
          ∷ ("consolidated_review", s.artifacts.consolidated_review)
          ∷ ("pull_request", s.artifacts.pull_request)
          ∷ []),
    )
    ∷ (
      "workers",
      object (("invocations", array (map invocation_payload s.workers.invocations)) ∷ []),
    )
    ∷ (
      "budgets",
      object (
          ("monetary_used", float s.budgets.monetary_used)
          ∷ ("token_used", int s.budgets.token_used)
          ∷ ("elapsed_seconds", float s.budgets.elapsed_seconds)
          ∷ ("worker_count", int s.budgets.worker_count)
          ∷ ("retry_count", int s.budgets.retry_count)
          ∷ []),
    )
    ∷ (
      "approvals",
      object (
          ("pending", array (map approval_payload s.approvals.pending))
          ∷ ("resolved", array (map approval_payload s.approvals.resolved))
          ∷ []),
    )
    ∷ ("failures", object (("events", array (map failure_payload s.failures.events)) ∷ []))
    ∷ ("checkpoints", object (("latest", s.checkpoints.latest) ∷ []))
    ∷ [])
