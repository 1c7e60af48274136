-- ===== src/Workers/Contract.antt =====
-- src/anse_harness/workers/contract.py: the worker contracts and the invocation record, as data.
-- `context_packet_id`, `result` and `parent_worker` are copied unconverted, so they are `Json`.
pub mod RoundTrip
pub mod Roles
pub mod Separation
use ai_native_sweng.Prelude.{String, List, [], ◌∷◌, Result, ok, ◌>>=◌}
use ai_native_sweng.Json.Value.{
  ℤ, Float, Json, int, float, str, obj, Dict, dict, object, array, strings,
}
use ai_native_sweng.Json.Convert.{
  Builtins, index, get, get_or, as_str, as_int, as_float, as_dict, as_strings,
}

pub record ContextRequirements : Type 0 where
  pub required : List String
  pub excluded : List String

pub record WorkerContract : Type 0 where
  pub worker_type : String
  pub purpose : String
  pub input_schema : List String
  pub output_schema : List String
  pub context : ContextRequirements
  pub allowed_capabilities : List String
  pub prohibited_capabilities : List String
  pub model_policy : String
  pub time_budget_seconds : ℤ
  pub cost_budget_usd : Float
  pub iteration_limit : ℤ
  pub success_criteria : List String
  pub failure_criteria : List String
  pub escalation_conditions : List String
  pub trace_requirements : String

pub record WorkerInvocationRecord : Type 0 where
  pub worker_invocation_id : String
  pub worker_type : String
  pub assigned_task : String
  pub model_configuration : String
  pub context_packet_id : Json
  pub available_capabilities : List String
  pub status : String
  pub result : Json
  pub cost : Float
  pub duration_seconds : Float
  pub parent_workflow : String
  pub parent_worker : Json

-- ContextRequirements.to_payload
unfoldable pub requirements_payload : ContextRequirements → Dict
requirements_payload r =
    dict (("required", strings r.required) ∷ ("excluded", strings r.excluded) ∷ [])

-- WorkerContract.to_payload
unfoldable pub contract_payload : WorkerContract → Dict
unfolding requirements_payload
contract_payload r = dict (
    ("artifact_type", str "worker_contract")
    ∷ ("worker_type", str r.worker_type)
    ∷ ("purpose", str r.purpose)
    ∷ ("input_schema", strings r.input_schema)
    ∷ ("output_schema", strings r.output_schema)
    ∷ ("context", obj (requirements_payload r.context))
    ∷ (
      "capabilities",
      object (
          ("allowed", strings r.allowed_capabilities)
          ∷ ("prohibited", strings r.prohibited_capabilities)
          ∷ []),
    )
    ∷ ("model_policy", str r.model_policy)
    ∷ (
      "limits",
      object (
          ("time_budget_seconds", int r.time_budget_seconds)
          ∷ ("cost_budget_usd", float r.cost_budget_usd)
          ∷ ("iteration_limit", int r.iteration_limit)
          ∷ []),
    )
    ∷ ("success_criteria", strings r.success_criteria)
    ∷ ("failure_criteria", strings r.failure_criteria)
    ∷ ("escalation_conditions", strings r.escalation_conditions)
    ∷ ("trace_requirements", str r.trace_requirements)
    ∷ [])

-- WorkerInvocationRecord.to_payload
unfoldable pub invocation_record_payload : WorkerInvocationRecord → Dict
invocation_record_payload r = dict (
    ("artifact_type", str "worker_invocation_record")
    ∷ ("worker_invocation_id", str r.worker_invocation_id)
    ∷ ("worker_type", str r.worker_type)
    ∷ ("assigned_task", str r.assigned_task)
    ∷ ("model_configuration", str r.model_configuration)
    ∷ ("context_packet_id", r.context_packet_id)
    ∷ ("available_capabilities", strings r.available_capabilities)
    ∷ ("status", str r.status)
    ∷ ("result", r.result)
    ∷ ("cost", float r.cost)
    ∷ ("duration_seconds", float r.duration_seconds)
    ∷ ("parent_workflow", str r.parent_workflow)
    ∷ ("parent_worker", r.parent_worker)
    ∷ [])

module _ (py : Builtins) where
  -- ContextRequirements.from_payload
  unfoldable pub context_requirements : Dict → Result ContextRequirements
  context_requirements d = do
    required ← as_strings py (get_or d "required" (array []))
    excluded ← as_strings py (get_or d "excluded" (array []))
    ok (record { required = required; excluded = excluded })

  -- WorkerContract.from_payload
  unfoldable pub worker_contract : Dict → Result WorkerContract
  unfolding context_requirements
  worker_contract d = do
    capabilities ← as_dict py (get_or d "capabilities" (object []))
    limits ← as_dict py (get_or d "limits" (object []))
    worker_type_raw ← index d "worker_type"
    purpose_raw ← index d "purpose"
    input_schema ← as_strings py (get_or d "input_schema" (array []))
    output_schema ← as_strings py (get_or d "output_schema" (array []))
    context_dict ← as_dict py (get_or d "context" (object []))
    context ← context_requirements context_dict
    allowed_capabilities ← as_strings py (get_or capabilities "allowed" (array []))
    prohibited_capabilities ← as_strings py (get_or capabilities "prohibited" (array []))
    model_policy_raw ← index d "model_policy"
    time_budget_seconds_raw ← index limits "time_budget_seconds"
    time_budget_seconds ← as_int py time_budget_seconds_raw
    cost_budget_usd_raw ← index limits "cost_budget_usd"
    cost_budget_usd ← as_float py cost_budget_usd_raw
    iteration_limit_raw ← index limits "iteration_limit"
    iteration_limit ← as_int py iteration_limit_raw
    success_criteria ← as_strings py (get_or d "success_criteria" (array []))
    failure_criteria ← as_strings py (get_or d "failure_criteria" (array []))
    escalation_conditions ← as_strings py (get_or d "escalation_conditions" (array []))
    trace_requirements_raw ← index d "trace_requirements"
    ok (record {
      worker_type = as_str py worker_type_raw;
      purpose = as_str py purpose_raw;
      input_schema = input_schema;
      output_schema = output_schema;
      context = context;
      allowed_capabilities = allowed_capabilities;
      prohibited_capabilities = prohibited_capabilities;
      model_policy = as_str py model_policy_raw;
      time_budget_seconds = time_budget_seconds;
      cost_budget_usd = cost_budget_usd;
      iteration_limit = iteration_limit;
      success_criteria = success_criteria;
      failure_criteria = failure_criteria;
      escalation_conditions = escalation_conditions;
      trace_requirements = as_str py trace_requirements_raw;
    })

  -- WorkerInvocationRecord.from_payload
  unfoldable pub invocation_record : Dict → Result WorkerInvocationRecord
  invocation_record d = do
    worker_invocation_id_raw ← index d "worker_invocation_id"
    worker_type_raw ← index d "worker_type"
    assigned_task_raw ← index d "assigned_task"
    model_configuration_raw ← index d "model_configuration"
    available_capabilities ← as_strings py (get_or d "available_capabilities" (array []))
    status_raw ← index d "status"
    cost_raw ← index d "cost"
    cost ← as_float py cost_raw
    duration_seconds_raw ← index d "duration_seconds"
    duration_seconds ← as_float py duration_seconds_raw
    parent_workflow_raw ← index d "parent_workflow"
    ok (record {
      worker_invocation_id = as_str py worker_invocation_id_raw;
      worker_type = as_str py worker_type_raw;
      assigned_task = as_str py assigned_task_raw;
      model_configuration = as_str py model_configuration_raw;
      context_packet_id = get d "context_packet_id";
      available_capabilities = available_capabilities;
      status = as_str py status_raw;
      result = get d "result";
      cost = cost;
      duration_seconds = duration_seconds;
      parent_workflow = as_str py parent_workflow_raw;
      parent_worker = get d "parent_worker";
    })
