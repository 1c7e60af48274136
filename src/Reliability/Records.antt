-- ===== src/Reliability/Records.antt =====
-- src/anse_harness/reliability/classify.py, policy.py: the failure and retry-decision records.
pub mod RoundTrip
use ai_native_sweng.Prelude.{String, Bool, Option, List, [], ◌∷◌, Result, ok, member, ◌>>=◌}
use ai_native_sweng.Json.Value.{ℤ, Float, bool, int, float, str, obj, Dict, dict, optional}
use ai_native_sweng.Json.Convert.{
  Builtins, index, get, truthy, as_str, as_int, as_float, as_dict, optional_of,
}
use ai_native_sweng.Prelude.{concat}

pub data RetryMode : Type 0 where
  same_input revised_context replan fallback_model escalate : RetryMode

unfoldable pub mode_value : RetryMode → String
mode_value same_input = "same-input retry"
mode_value revised_context = "revised-context retry"
mode_value replan = "replanning"
mode_value fallback_model = "alternative model"
mode_value escalate = "human escalation"

abbrev retry_modes : List RetryMode
retry_modes = same_input ∷ revised_context ∷ replan ∷ fallback_model ∷ escalate ∷ []

-- RetryMode(value)
unfoldable pub retry_mode : String → Result RetryMode
unfolding member mode_value
retry_mode = member mode_value retry_modes

pub record FailureClassification : Type 0 where
  pub failure_class : String
  pub boundary : String
  pub retryable : Bool
  pub detail : String

-- FailureClassification.describe
unfoldable pub describe : FailureClassification → String
unfolding concat
describe c = concat (c.failure_class ∷ " at the " ∷ c.boundary ∷ " boundary: " ∷ c.detail ∷ [])

pub record FailureRecord : Type 0 where
  pub workflow_id : String
  pub task_id : String
  pub stage : String
  pub attempt : ℤ
  pub classification : FailureClassification

pub record RetryDecision : Type 0 where
  pub action : String
  pub mode : RetryMode
  pub failure_class : String
  pub boundary : String
  pub failed_attempt : ℤ
  pub next_attempt : Option ℤ
  pub reason : String
  pub observed_attempt_cost_usd : Option Float

-- FailureClassification.to_payload
unfoldable pub classification_payload : FailureClassification → Dict
classification_payload r = dict (
    ("failure_class", str r.failure_class)
    ∷ ("boundary", str r.boundary)
    ∷ ("retryable", bool r.retryable)
    ∷ ("detail", str r.detail)
    ∷ [])

-- FailureRecord.to_payload
unfoldable pub failure_payload : FailureRecord → Dict
unfolding classification_payload describe
failure_payload r = dict (
    ("artifact_type", str "failure_classification")
    ∷ ("workflow_id", str r.workflow_id)
    ∷ ("task_id", str r.task_id)
    ∷ ("stage", str r.stage)
    ∷ ("attempt", int r.attempt)
    ∷ ("classification", obj (classification_payload r.classification))
    ∷ ("description", str (describe r.classification))
    ∷ [])

-- RetryDecision.to_payload
unfoldable pub decision_payload : RetryDecision → Dict
decision_payload r = dict (
    ("artifact_type", str "retry_decision")
    ∷ ("action", str r.action)
    ∷ ("mode", str (mode_value r.mode))
    ∷ ("failure_class", str r.failure_class)
    ∷ ("boundary", str r.boundary)
    ∷ ("failed_attempt", int r.failed_attempt)
    ∷ ("next_attempt", optional int r.next_attempt)
    ∷ ("reason", str r.reason)
    ∷ ("observed_attempt_cost_usd", optional float r.observed_attempt_cost_usd)
    ∷ [])

module _ (py : Builtins) where
  -- FailureClassification.from_payload
  unfoldable pub failure_classification : Dict → Result FailureClassification
  failure_classification d = do
    failure_class_raw ← index d "failure_class"
    boundary_raw ← index d "boundary"
    retryable_raw ← index d "retryable"
    detail_raw ← index d "detail"
    ok (record {
      failure_class = as_str py failure_class_raw;
      boundary = as_str py boundary_raw;
      retryable = truthy retryable_raw;
      detail = as_str py detail_raw;
    })

  -- FailureRecord.from_payload
  unfoldable pub failure_record : Dict → Result FailureRecord
  unfolding failure_classification
  failure_record d = do
    workflow_id_raw ← index d "workflow_id"
    task_id_raw ← index d "task_id"
    stage_raw ← index d "stage"
    attempt_raw ← index d "attempt"
    attempt ← as_int py attempt_raw
    classification_raw ← index d "classification"
    classification_dict ← as_dict py classification_raw
    classification ← failure_classification classification_dict
    ok (record {
      workflow_id = as_str py workflow_id_raw;
      task_id = as_str py task_id_raw;
      stage = as_str py stage_raw;
      attempt = attempt;
      classification = classification;
    })

  -- RetryDecision.from_payload
  unfoldable pub retry_decision : Dict → Result RetryDecision
  retry_decision d = do
    action_raw ← index d "action"
    mode_raw ← index d "mode"
    mode ← retry_mode (as_str py mode_raw)
    failure_class_raw ← index d "failure_class"
    boundary_raw ← index d "boundary"
    failed_attempt_raw ← index d "failed_attempt"
    failed_attempt ← as_int py failed_attempt_raw
    next_attempt ← optional_of (as_int py) (get d "next_attempt")
    reason_raw ← index d "reason"
    observed_attempt_cost_usd ← optional_of (as_float py) (get d "observed_attempt_cost_usd")
    ok (record {
      action = as_str py action_raw;
      mode = mode;
      failure_class = as_str py failure_class_raw;
      boundary = as_str py boundary_raw;
      failed_attempt = failed_attempt;
      next_attempt = next_attempt;
      reason = as_str py reason_raw;
      observed_attempt_cost_usd = observed_attempt_cost_usd;
    })
