-- ===== src/Workflow/Orchestrator.antt =====
-- src/anse_harness/workflows/orchestrator.py: the stages of the multi-worker workflow, their table
-- of transitions and its guard.
pub mod Paths
pub mod Completion
pub mod Artifacts
use ai_native_sweng.Prelude.{
  String, Bool, false, List, [], ◌∷◌, ◌==◌, ◌||◌, if◌then◌else◌, Result, ok, err,
  invalid_multi_transition_error,
}

pub data MultiStage : Type 0 where
  intake fan_out integrate validate review consolidate fix prepare_result : MultiStage
  completed failed cancelled escalated : MultiStage

unfoldable pub stage_value : MultiStage → String
stage_value intake = "intake"
stage_value fan_out = "fan_out"
stage_value integrate = "integrate"
stage_value validate = "validate"
stage_value review = "review"
stage_value consolidate = "consolidate"
stage_value fix = "fix"
stage_value prepare_result = "prepare_result"
stage_value completed = "completed"
stage_value failed = "failed"
stage_value cancelled = "cancelled"
stage_value escalated = "escalated"

-- MULTI_TERMINAL_STAGES
unfoldable pub multi_terminal_stages : List MultiStage
multi_terminal_stages = completed ∷ failed ∷ cancelled ∷ escalated ∷ []

-- MULTI_TRANSITIONS
unfoldable pub multi_transitions : MultiStage → List MultiStage
multi_transitions intake = fan_out ∷ cancelled ∷ []
multi_transitions fan_out = integrate ∷ failed ∷ escalated ∷ cancelled ∷ []
multi_transitions integrate = validate ∷ failed ∷ escalated ∷ cancelled ∷ []
multi_transitions validate = review ∷ failed ∷ cancelled ∷ []
multi_transitions review = consolidate ∷ failed ∷ escalated ∷ cancelled ∷ []
multi_transitions consolidate = fix ∷ prepare_result ∷ escalated ∷ cancelled ∷ []
multi_transitions fix = validate ∷ failed ∷ escalated ∷ cancelled ∷ []
multi_transitions prepare_result = completed ∷ failed ∷ cancelled ∷ []
multi_transitions completed = []
multi_transitions failed = []
multi_transitions cancelled = []
multi_transitions escalated = []

-- `stage in stages`: the members of a `StrEnum` are equal when their values are
unfoldable pub stage_in : MultiStage → List MultiStage → Bool
unfolding stage_value
stage_in s [] = false
stage_in s (t ∷ rest) = stage_value t == stage_value s || stage_in s rest

unfoldable pub validate_multiworker_transition : MultiStage → MultiStage → Result (Unit {0})
validate_multiworker_transition current target =
    if stage_in target (multi_transitions current)
    then ok tt
    else err invalid_multi_transition_error
