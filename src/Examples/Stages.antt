-- ===== src/Examples/Stages.antt =====
-- A run of the multi-worker workflow that fixes once.
use Prim.Native.String.{◌++◌}
use ai_native_sweng.Prelude.{◌+◌, ◌≡◌, refl}
use ai_native_sweng.Workflow.Orchestrator.{
  intake, fan_out, integrate, validate, review, consolidate, fix, prepare_result, completed,
  validate_multiworker_transition, multi_transitions, multi_terminal_stages, stage_in,
}
use ai_native_sweng.Workflow.Orchestrator.Paths.{Run, stop, move, entered, completed_run_counts}
use ai_native_sweng.Prelude.{ℕ, String, inl}
use ai_native_sweng.Workflow.Orchestrator.{stage_value}
use ai_native_sweng.Workflow.Orchestrator.Completion.{completed_in_reach}
use ai_native_sweng.Workflow.Orchestrator.Artifacts.Distinct.{artifact_ids-injective}

abbrev fixed_once : Run intake completed
unfolding validate_multiworker_transition multi_transitions multi_terminal_stages stage_in
fixed_once = move intake fan_out refl (
    move fan_out integrate refl (
      move integrate validate refl (
        move validate review refl (
          move review consolidate refl (
            move consolidate fix refl (
              move fix validate refl (
                move validate review refl (
                  move review consolidate refl (
                    move consolidate prepare_result refl
                      (move prepare_result completed refl stop))))))))))

completed_run_counts_example :
    (entered validate fixed_once ≡ entered fix fixed_once + 1)
    × (entered review fixed_once ≡ entered fix fixed_once + 1)
    × (entered consolidate fixed_once ≡ entered fix fixed_once + 1)
completed_run_counts_example = completed_run_counts fixed_once

completed_in_reach_example : (r : Run consolidate completed) × (entered fix r ≡ 0)
unfolding stage_in stage_value multi_terminal_stages
completed_in_reach_example = completed_in_reach consolidate refl

-- a worker with a hyphen in its name
artifact_ids-injective_example : (◌≡◌ {A = String} "a-1" ("a-" ++ "1")) × (◌≡◌ {A = ℕ} 2 (1 + 1))
artifact_ids-injective_example =
    artifact_ids-injective "task-1" "a-1" ("a-" ++ "1") 2 (1 + 1) (inl refl)
