-- ===== src/Workflow/Orchestrator/Completion.antt =====
-- The loop of the multi-worker workflow can always be left.
use ai_native_sweng.Prelude.{[], ◌∷◌, ◌≡◌, refl, false, arith, ok}
use ai_native_sweng.Workflow.Orchestrator.{
  MultiStage, intake, fan_out, integrate, validate, review, consolidate, fix, prepare_result,
  completed, failed, cancelled, escalated, multi_terminal_stages, stage_in,
  validate_multiworker_transition, multi_transitions, stage_value,
}
use ai_native_sweng.Workflow.Orchestrator.Paths.{Run, stop, move, entered}

Straight : MultiStage → Type 0
Straight s = (r : Run s completed) × (entered fix r ≡ 0)

-- one more transition, that does not enter a fix
then-Straight :
    (s t : MultiStage)
    → validate_multiworker_transition s t ≡ ok tt
    → stage_in fix (t ∷ []) ≡ false
    → Straight t
    → Straight s
unfolding Straight entered
then-Straight s t h k (r, e) = (move s t h r, rw k (omega (arith, e)))

from_prepare_result : Straight prepare_result
unfolding Straight entered stage_in stage_value validate_multiworker_transition multi_transitions
from_prepare_result = then-Straight prepare_result completed refl refl (stop, refl)

from_validate : Straight validate
unfolding stage_in stage_value validate_multiworker_transition multi_transitions
from_validate = then-Straight validate review refl refl (
    then-Straight review consolidate refl refl
      (then-Straight consolidate prepare_result refl refl from_prepare_result))

-- From every stage that is not terminal the guard lets the workflow complete, without a further fix.
pub completed_in_reach :
    (s : MultiStage)
    → stage_in s multi_terminal_stages ≡ false
    → (r : Run s completed) × (entered fix r ≡ 0)
unfolding Straight stage_in stage_value validate_multiworker_transition multi_transitions
    multi_terminal_stages
completed_in_reach intake h = then-Straight intake fan_out refl refl (
    then-Straight fan_out integrate refl refl
      (then-Straight integrate validate refl refl from_validate))
completed_in_reach fan_out h =
    then-Straight fan_out integrate refl refl
      (then-Straight integrate validate refl refl from_validate)
completed_in_reach integrate h = then-Straight integrate validate refl refl from_validate
completed_in_reach validate h = from_validate
completed_in_reach review h =
    then-Straight review consolidate refl refl
      (then-Straight consolidate prepare_result refl refl from_prepare_result)
completed_in_reach consolidate h =
    then-Straight consolidate prepare_result refl refl from_prepare_result
completed_in_reach fix h = then-Straight fix validate refl refl from_validate
completed_in_reach prepare_result h = from_prepare_result
completed_in_reach completed h = absurd (ground (arith, h))
completed_in_reach failed h = absurd (ground (arith, h))
completed_in_reach cancelled h = absurd (ground (arith, h))
completed_in_reach escalated h = absurd (ground (arith, h))
