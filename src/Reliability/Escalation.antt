-- ===== src/Reliability/Escalation.antt =====
-- src/anse_harness/reliability/controller.py: the escalation request and the aborted-run report.
pub mod RoundTrip
use ai_native_sweng.Prelude.{String, Option, List, [], ◌∷◌, map, Result, ok, ◌>>=◌, traverse}
use ai_native_sweng.Json.Value.{
  ℤ, Float, Json, int, float, str, Dict, dict, object, array, strings, optional,
}
use ai_native_sweng.Json.Convert.{
  Builtins, index, get, index_any, iterate, as_str, as_int, as_float, as_dict, as_strings,
  optional_of,
}

pub record EscalationRequest : Type 0 where
  pub workflow_id : String
  pub task_id : String
  pub requested_action : String
  pub repository : String
  pub revision : String
  pub artifact : String
  pub risk_classification : String
  pub validation_status : String
  pub cost_impact_usd : Float
  pub reason : String
  pub expiration_policy : String
  pub failure_history : List String
  pub evidence_artifacts : List String
  pub trace_files : List String

-- one (stage, reason) pair of `failure_events`
pub record StageFailure : Type 0 where
  pub stage : String
  pub reason : String

pub record AbortedRunReport : Type 0 where
  pub workflow_id : String
  pub task_id : String
  pub terminal_stage : String
  pub termination_reason : String
  pub failure_events : List StageFailure
  pub monetary_used : Float
  pub token_used : ℤ
  pub elapsed_seconds : Float
  pub worker_count : ℤ
  pub retry_count : ℤ
  pub surviving_artifacts : List String
  pub unaccounted_attempt_cost_usd : Option Float

-- EscalationRequest.to_payload
unfoldable pub escalation_payload : EscalationRequest → Dict
escalation_payload r = dict (
    ("artifact_type", str "escalation_request")
    ∷ ("workflow_id", str r.workflow_id)
    ∷ ("task_id", str r.task_id)
    ∷ ("requested_action", str r.requested_action)
    ∷ ("repository", str r.repository)
    ∷ ("revision", str r.revision)
    ∷ ("artifact", str r.artifact)
    ∷ ("risk_classification", str r.risk_classification)
    ∷ ("validation_status", str r.validation_status)
    ∷ ("cost_impact_usd", float r.cost_impact_usd)
    ∷ ("reason", str r.reason)
    ∷ ("expiration_policy", str r.expiration_policy)
    ∷ ("failure_history", strings r.failure_history)
    ∷ ("evidence_artifacts", strings r.evidence_artifacts)
    ∷ ("trace_files", strings r.trace_files)
    ∷ [])

unfoldable pub stage_failure_payload : StageFailure → Json
stage_failure_payload e = object (("stage", str e.stage) ∷ ("reason", str e.reason) ∷ [])

-- AbortedRunReport.to_payload
unfoldable pub aborted_payload : AbortedRunReport → Dict
unfolding stage_failure_payload
aborted_payload r = dict (
    ("artifact_type", str "aborted_run_report")
    ∷ ("workflow_id", str r.workflow_id)
    ∷ ("task_id", str r.task_id)
    ∷ ("terminal_stage", str r.terminal_stage)
    ∷ ("termination_reason", str r.termination_reason)
    ∷ ("failure_events", array (map stage_failure_payload r.failure_events))
    ∷ (
      "budgets",
      object (
          ("monetary_used", float r.monetary_used)
          ∷ ("token_used", int r.token_used)
          ∷ ("elapsed_seconds", float r.elapsed_seconds)
          ∷ ("worker_count", int r.worker_count)
          ∷ ("retry_count", int r.retry_count)
          ∷ []),
    )
    ∷ ("surviving_artifacts", strings r.surviving_artifacts)
    ∷ ("unaccounted_attempt_cost_usd", optional float r.unaccounted_attempt_cost_usd)
    ∷ [])

module _ (py : Builtins) where
  -- EscalationRequest.from_payload
  unfoldable pub escalation_request : Dict → Result EscalationRequest
  escalation_request d = do
    workflow_id_raw ← index d "workflow_id"
    task_id_raw ← index d "task_id"
    requested_action_raw ← index d "requested_action"
    repository_raw ← index d "repository"
    revision_raw ← index d "revision"
    artifact_raw ← index d "artifact"
    risk_classification_raw ← index d "risk_classification"
    validation_status_raw ← index d "validation_status"
    cost_impact_usd_raw ← index d "cost_impact_usd"
    cost_impact_usd ← as_float py cost_impact_usd_raw
    reason_raw ← index d "reason"
    expiration_policy_raw ← index d "expiration_policy"
    failure_history_raw ← index d "failure_history"
    failure_history ← as_strings py failure_history_raw
    evidence_artifacts_raw ← index d "evidence_artifacts"
    evidence_artifacts ← as_strings py evidence_artifacts_raw
    trace_files_raw ← index d "trace_files"
    trace_files ← as_strings py trace_files_raw
    ok (record {
      workflow_id = as_str py workflow_id_raw;
      task_id = as_str py task_id_raw;
      requested_action = as_str py requested_action_raw;
      repository = as_str py repository_raw;
      revision = as_str py revision_raw;
      artifact = as_str py artifact_raw;
      risk_classification = as_str py risk_classification_raw;
      validation_status = as_str py validation_status_raw;
      cost_impact_usd = cost_impact_usd;
      reason = as_str py reason_raw;
      expiration_policy = as_str py expiration_policy_raw;
      failure_history = failure_history;
      evidence_artifacts = evidence_artifacts;
      trace_files = trace_files;
    })

  unfoldable pub stage_failure : Json → Result StageFailure
  stage_failure item = do
    stage_raw ← index_any item "stage"
    reason_raw ← index_any item "reason"
    ok (record { stage = as_str py stage_raw; reason = as_str py reason_raw })

  -- AbortedRunReport.from_payload
  unfoldable pub aborted_run_report : Dict → Result AbortedRunReport
  unfolding stage_failure
  aborted_run_report d = do
    budgets_raw ← index d "budgets"
    budgets ← as_dict py budgets_raw
    workflow_id_raw ← index d "workflow_id"
    task_id_raw ← index d "task_id"
    terminal_stage_raw ← index d "terminal_stage"
    termination_reason_raw ← index d "termination_reason"
    failure_events_raw ← index d "failure_events"
    failure_events_items ← iterate failure_events_raw
    failure_events ← traverse stage_failure failure_events_items
    monetary_used_raw ← index budgets "monetary_used"
    monetary_used ← as_float py monetary_used_raw
    token_used_raw ← index budgets "token_used"
    token_used ← as_int py token_used_raw
    elapsed_seconds_raw ← index budgets "elapsed_seconds"
    elapsed_seconds ← as_float py elapsed_seconds_raw
    worker_count_raw ← index budgets "worker_count"
    worker_count ← as_int py worker_count_raw
    retry_count_raw ← index budgets "retry_count"
    retry_count ← as_int py retry_count_raw
    surviving_artifacts_raw ← index d "surviving_artifacts"
    surviving_artifacts ← as_strings py surviving_artifacts_raw
    unaccounted_attempt_cost_usd ← optional_of (as_float py) (get d "unaccounted_attempt_cost_usd")
    ok (record {
      workflow_id = as_str py workflow_id_raw;
      task_id = as_str py task_id_raw;
      terminal_stage = as_str py terminal_stage_raw;
      termination_reason = as_str py termination_reason_raw;
      failure_events = failure_events;
      monetary_used = monetary_used;
      token_used = token_used;
      elapsed_seconds = elapsed_seconds;
      worker_count = worker_count;
      retry_count = retry_count;
      surviving_artifacts = surviving_artifacts;
      unaccounted_attempt_cost_usd = unaccounted_attempt_cost_usd;
    })
