-- ===== src/Workflow/State/Reading.antt =====
-- src/anse_harness/workflows/state.py: `from_payload`.
use ai_native_sweng.Prelude.{
  String, List, [], ◌∷◌, Result, ok, member, state_schema_error, ◌>>=◌, ◌>>◌, guard, traverse, ◌==◌,
}
use ai_native_sweng.Json.Value.{Json, Dict, array}
use ai_native_sweng.Json.Convert.{
  Builtins, index, get, get_or, index_any, iterate, as_str, as_int, as_float, as_dict, as_strings,
}
use ai_native_sweng.Workflow.State.{
  WorkflowStatus, pending, running, awaiting_approval, completed, failed, cancelled, escalated,
  TaskRef, StatusBlock, PoliciesBlock, ArtifactsBlock, WorkerInvocation, BudgetsBlock,
  ApprovalRecord, FailureEvent, WorkflowState, workflow_state_schema_version,
}
use ai_native_sweng.Workflow.State.Payload.{status_value}

abbrev workflow_statuses : List WorkflowStatus
workflow_statuses =
    pending ∷ running ∷ awaiting_approval ∷ completed ∷ failed ∷ cancelled ∷ escalated ∷ []

-- WorkflowStatus(value)
unfoldable pub workflow_status : String → Result WorkflowStatus
unfolding member status_value
workflow_status = member status_value workflow_statuses

module _ (py : Builtins) where
  unfoldable pub approval_record : Json → Result ApprovalRecord
  approval_record item = do
    action ← index_any item "action"
    stage ← index_any item "stage"
    decision ← index_any item "decision"
    ok (record {
      action = as_str py action;
      stage = as_str py stage;
      decision = as_str py decision;
    })

  unfoldable pub worker_invocation : Json → Result WorkerInvocation
  worker_invocation item = do
    run_id ← index_any item "run_id"
    worker_type ← index_any item "worker_type"
    stage ← index_any item "stage"
    status ← index_any item "status"
    ok (record {
      run_id = as_str py run_id;
      worker_type = as_str py worker_type;
      stage = as_str py stage;
      status = as_str py status;
    })

  unfoldable pub failure_event : Json → Result FailureEvent
  failure_event item = do
    stage ← index_any item "stage"
    reason ← index_any item "reason"
    ok (record { stage = as_str py stage; reason = as_str py reason })

  -- the group d[k], as `dict(d[k])`
  unfoldable pub group : Dict → String → Result Dict
  group d k = do v ← index d k; as_dict py v

  unfoldable pub task_of : Dict → Result TaskRef
  task_of task = do
    task_id ← index task "task_id"
    ok (record {
      task_id = as_str py task_id;
      specification_artifact_id = get task "specification_artifact_id";
    })

  unfoldable pub status_of : Dict → Result StatusBlock
  status_of status = do
    raw_state ← index status "state"
    state ← workflow_status (as_str py raw_state)
    current_stage ← index status "current_stage"
    ok (record {
      state = state;
      current_stage = as_str py current_stage;
      termination_reason = get status "termination_reason";
    })

  unfoldable pub policies_of : Dict → Result PoliciesBlock
  policies_of policies = do
    termination_policy ← index policies "termination_policy"
    approval_policy ← index policies "approval_policy"
    ok (record {
      termination_policy = as_str py termination_policy;
      approval_policy = as_str py approval_policy;
    })

  unfoldable pub artifacts_of : Dict → Result ArtifactsBlock
  artifacts_of artifacts = do
    patches ← as_strings py (get_or artifacts "patches" (array []))
    validation_reports ← as_strings py (get_or artifacts "validation_reports" (array []))
    review_findings ← as_strings py (get_or artifacts "review_findings" (array []))
    ok (record {
      plan = get artifacts "plan";
      patches = patches;
      validation_reports = validation_reports;
      review_findings = review_findings;
      consolidated_review = get artifacts "consolidated_review";
      pull_request = get artifacts "pull_request";
    })

  unfoldable pub budgets_of : Dict → Result BudgetsBlock
  budgets_of budgets = do
    raw_monetary ← index budgets "monetary_used"
    monetary_used ← as_float py raw_monetary
    raw_tokens ← index budgets "token_used"
    token_used ← as_int py raw_tokens
    raw_elapsed ← index budgets "elapsed_seconds"
    elapsed_seconds ← as_float py raw_elapsed
    raw_workers ← index budgets "worker_count"
    worker_count ← as_int py raw_workers
    raw_retries ← index budgets "retry_count"
    retry_count ← as_int py raw_retries
    ok (record {
      monetary_used = monetary_used;
      token_used = token_used;
      elapsed_seconds = elapsed_seconds;
      worker_count = worker_count;
      retry_count = retry_count;
    })

  -- [f(item) for item in d.get(k, [])]
  unfoldable pub each : {A : Type 0} → (Json → Result A) → Dict → String → Result (List A)
  each f d k = do raw ← iterate (get_or d k (array [])); traverse f raw

  -- WorkflowState.from_payload
  unfoldable pub from_payload : Dict → Result WorkflowState
  unfolding task_of status_of policies_of artifacts_of budgets_of each group
  from_payload data' = do
    guard (as_str py (get data' "schema_version") == workflow_state_schema_version)
        state_schema_error
    task_dict ← group data' "task"
    status_dict ← group data' "status"
    policies_dict ← group data' "policies"
    artifacts_dict ← group data' "artifacts"
    workers_dict ← group data' "workers"
    budgets_dict ← group data' "budgets"
    approvals_dict ← group data' "approvals"
    failures_dict ← group data' "failures"
    checkpoints_dict ← group data' "checkpoints"
    workflow_id ← index data' "workflow_id"
    workflow_type ← index data' "workflow_type"
    workflow_version ← index data' "workflow_version"
    task ← task_of task_dict
    status ← status_of status_dict
    policies ← policies_of policies_dict
    artifacts ← artifacts_of artifacts_dict
    invocations ← each worker_invocation workers_dict "invocations"
    budgets ← budgets_of budgets_dict
    pending_records ← each approval_record approvals_dict "pending"
    resolved_records ← each approval_record approvals_dict "resolved"
    events ← each failure_event failures_dict "events"
    ok (record {
      workflow_id = as_str py workflow_id;
      workflow_type = as_str py workflow_type;
      workflow_version = as_str py workflow_version;
      task = task;
      status = status;
      policies = policies;
      artifacts = artifacts;
      workers = record { invocations = invocations };
      budgets = budgets;
      approvals = record { pending = pending_records; resolved = resolved_records };
      failures = record { events = events };
      checkpoints = record { latest = get checkpoints_dict "latest" };
      schema_version = workflow_state_schema_version;
    })
