-- ===== src/Workflow/State.antt =====
-- src/anse_harness/workflows/state.py: the workflow state and its blocks.
-- `from_payload` copies six fields with no conversion (`termination_reason`, `plan`, ...); they are
-- held as the values that they are, so a field of `str | None` is a `Json` here.
pub mod Payload
pub mod Reading
pub mod RoundTrip
use ai_native_sweng.Prelude.{String, List, []}
use ai_native_sweng.Json.Value.{ℤ, pos, Float, Json, null}

pub data WorkflowStatus : Type 0 where
  pending running awaiting_approval completed failed cancelled escalated : WorkflowStatus

pub record TaskRef : Type 0 where
  pub task_id : String
  pub specification_artifact_id : Json

pub record StatusBlock : Type 0 where
  pub state : WorkflowStatus
  pub current_stage : String
  pub termination_reason : Json

pub record PoliciesBlock : Type 0 where
  pub termination_policy : String
  pub approval_policy : String

pub record ArtifactsBlock : Type 0 where
  pub plan : Json
  pub patches : List String
  pub validation_reports : List String
  pub review_findings : List String
  pub consolidated_review : Json
  pub pull_request : Json

pub record WorkerInvocation : Type 0 where
  pub run_id : String
  pub worker_type : String
  pub stage : String
  pub status : String

pub record BudgetsBlock : Type 0 where
  pub monetary_used : Float
  pub token_used : ℤ
  pub elapsed_seconds : Float
  pub worker_count : ℤ
  pub retry_count : ℤ

pub record ApprovalRecord : Type 0 where
  pub action : String
  pub stage : String
  pub decision : String

pub record ApprovalsBlock : Type 0 where
  pub pending : List ApprovalRecord
  pub resolved : List ApprovalRecord

pub record FailureEvent : Type 0 where
  pub stage : String
  pub reason : String

-- `WorkersBlock`, `FailuresBlock` and `CheckpointsBlock` have one field each.
pub record WorkersBlock : Type 0 where
  pub invocations : List WorkerInvocation

pub record FailuresBlock : Type 0 where
  pub events : List FailureEvent

pub record CheckpointsBlock : Type 0 where
  pub latest : Json

pub record WorkflowState : Type 0 where
  pub workflow_id : String
  pub workflow_type : String
  pub workflow_version : String
  pub task : TaskRef
  pub status : StatusBlock
  pub policies : PoliciesBlock
  pub artifacts : ArtifactsBlock
  pub workers : WorkersBlock
  pub budgets : BudgetsBlock
  pub approvals : ApprovalsBlock
  pub failures : FailuresBlock
  pub checkpoints : CheckpointsBlock
  pub schema_version : String

abbrev pub workflow_state_schema_version : String
workflow_state_schema_version = "1"

unfoldable pub initial_workflow_state :
    (workflow_id workflow_type workflow_version task_id termination_policy approval_policy : String)
    → WorkflowState
initial_workflow_state workflow_id workflow_type workflow_version task_id termination_policy
      approval_policy =
    record {
      workflow_id = workflow_id;
      workflow_type = workflow_type;
      workflow_version = workflow_version;
      task = record { task_id = task_id; specification_artifact_id = null };
      status = record {
        state = WorkflowStatus.pending;
        current_stage = "intake";
        termination_reason = null;
      };
      policies = record {
        termination_policy = termination_policy;
        approval_policy = approval_policy;
      };
      artifacts = record {
        plan = null;
        patches = [];
        validation_reports = [];
        review_findings = [];
        consolidated_review = null;
        pull_request = null;
      };
      workers = record { invocations = [] };
      -- 0.0 is the float whose bits are all 0
      budgets = record {
        monetary_used = 0;
        token_used = pos 0;
        elapsed_seconds = 0;
        worker_count = pos 0;
        retry_count = pos 0;
      };
      approvals = record { pending = []; resolved = [] };
      failures = record { events = [] };
      checkpoints = record { latest = null };
      schema_version = workflow_state_schema_version;
    }
