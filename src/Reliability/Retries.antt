-- ===== src/Reliability/Retries.antt =====
-- src/anse_harness/reliability/classify.py and policy.py: the canonical failure classes, the rules on
-- termination reasons, the default retry policy and the names of the artifacts.
pub mod Taxonomy
use ai_native_sweng.Prelude.{
  ℕ, String, Option, none, some, List, [], ◌∷◌, concat, ◌==◌, if◌then◌else◌,
}
use ai_native_sweng.Json.Value.{ℤ}
use ai_native_sweng.Json.Convert.{int_text}
use ai_native_sweng.Reliability.Records.{
  RetryMode, same_input, revised_context, replan, fallback_model, escalate,
}

unfoldable pub canonical_failure_classes : List String
canonical_failure_classes =
    "transient infrastructure failure" ∷ "model-provider failure" ∷ "malformed output"
    ∷ "tool failure" ∷ "policy denial" ∷ "context failure" ∷ "planning failure"
    ∷ "implementation failure" ∷ "validation failure" ∷ "review failure" ∷ "integration conflict"
    ∷ "budget exhaustion" ∷ "approval timeout" ∷ "insufficient evidence"
    ∷ "persistent unknown failure" ∷ []

-- One rule on the termination reason of a run: a part of it, the class and the boundary.
pub record OutcomeRule : Type 0 where
  pub reason_part : String
  pub failure_class : String
  pub boundary : String

abbrev outcome_rule : String → String → String → OutcomeRule
outcome_rule part failure_class boundary = record {
  reason_part = part;
  failure_class = failure_class;
  boundary = boundary;
}

unfoldable pub outcome_rules : List OutcomeRule
outcome_rules =
    outcome_rule "planning produced no steps" "malformed output" "model"
    ∷ outcome_rule "validation_failed" "validation failure" "validation"
    ∷ outcome_rule "plan_rejected" "policy denial" "approval"
    ∷ outcome_rule "patch_approval_rejected" "policy denial" "approval"
    ∷ outcome_rule "budget exhausted" "budget exhaustion" "budgets"
    ∷ outcome_rule "no progress" "review failure" "review"
    ∷ outcome_rule "conflicting findings" "review failure" "review"
    ∷ outcome_rule "conflict" "integration conflict" "integration"
    ∷ outcome_rule "review/fix loop stopped" "budget exhaustion" "budgets"
    ∷ outcome_rule "implementation did not reach validation" "implementation failure" "worker"
    ∷ []

pub record RetryRule : Type 0 where
  pub mode : RetryMode
  pub max_attempts : ℕ

abbrev retry_rule : String → RetryMode → ℕ → String × RetryRule
retry_rule name mode max_attempts = (name, record { mode = mode; max_attempts = max_attempts })

unfoldable pub default_retry_policy : List (String × RetryRule)
default_retry_policy =
    retry_rule "transient infrastructure failure" same_input 3
    ∷ retry_rule "model-provider failure" same_input 3
    ∷ retry_rule "malformed output" fallback_model 2
    ∷ retry_rule "tool failure" revised_context 2
    ∷ retry_rule "context failure" revised_context 2
    ∷ retry_rule "planning failure" replan 2
    ∷ retry_rule "implementation failure" replan 2
    ∷ retry_rule "validation failure" revised_context 2
    ∷ retry_rule "policy denial" escalate 0
    ∷ retry_rule "review failure" escalate 0
    ∷ retry_rule "integration conflict" escalate 0
    ∷ retry_rule "budget exhaustion" escalate 0
    ∷ retry_rule "approval timeout" escalate 0
    ∷ retry_rule "insufficient evidence" escalate 0
    ∷ retry_rule "persistent unknown failure" escalate 0
    ∷ []

-- policy.get(failure_class)
unfoldable pub rule_for : String → List (String × RetryRule) → Option RetryRule
rule_for name [] = none
rule_for name ((k, r) ∷ rest) = if k == name then some r else rule_for name rest

-- failure_artifact_id
unfoldable pub failure_artifact_id : String → ℤ → String
unfolding concat int_text
failure_artifact_id task_id index = concat ("failure-" ∷ task_id ∷ "-" ∷ int_text index ∷ [])

-- retry_artifact_id
unfoldable pub retry_artifact_id : String → ℤ → String
unfolding concat int_text
retry_artifact_id task_id index = concat ("retry-decision-" ∷ task_id ∷ "-" ∷ int_text index ∷ [])

-- escalation_artifact_id
unfoldable pub escalation_artifact_id : String → String
unfolding concat
escalation_artifact_id task_id = concat ("escalation-request-" ∷ task_id ∷ [])

-- aborted_run_artifact_id
unfoldable pub aborted_run_artifact_id : String → String
unfolding concat
aborted_run_artifact_id task_id = concat ("aborted-run-" ∷ task_id ∷ [])
