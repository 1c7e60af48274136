-- ===== src/Examples/Engine.antt =====
-- A run of the single-worker workflow, and two stages that share a trace file.
use ai_native_sweng.Workflow.Engine.StageTrace.Distinct.{HaveOwnIds, shared_trace-HaveOwnIds}
use ai_native_sweng.Prelude.{
  eq_iff, ◌≢◌, false, ◌==◌, ◌≤◌, ◌≡◌, ◌⊎◌, refl, true, String, List, [], ◌∷◌, arith,
}
use ai_native_sweng.Json.Value.{null}
use ai_native_sweng.Tracing.Event.{TraceEvent}
use ai_native_sweng.Models.Replay.{pair_interactions}
use ai_native_sweng.Workflow.Engine.{
  Stage, intake, investigate, plan, plan_approval, implement, validate, prepare_result, completed,
  terminal_stages, transitions, stage_in, stage_value,
}
use ai_native_sweng.Workflow.Engine.Ending.{Run, stop, move, steps, steps_bounds}
use ai_native_sweng.Workflow.Engine.StageTrace.Lookup.{StageRun, shared_trace, HaveNames}
use ai_native_sweng.Workflow.Engine.StageTrace.Pairing.{
  IsTextParent, HaveTextParents, pair_each, pair_interactions-shared_trace,
}
use ai_native_sweng.Examples.Boundary.{strict}
use ai_native_sweng.Examples.Conversations.{exchange}

abbrev all_stages : Run intake completed
unfolding transitions stage_in stage_value
all_stages = move intake investigate refl (
    move investigate plan refl (
      move plan plan_approval refl (
        move plan_approval implement refl (
          move implement validate refl
            (move validate prepare_result refl (move prepare_result completed refl stop))))))

steps_bounds_example :
    (steps all_stages ≤ 7)
    × ((stage_in completed terminal_stages ≡ true)
        ⊎ ((t : Stage) × (stage_in t (transitions completed) ≡ true)))
steps_bounds_example = steps_bounds all_stages

abbrev request : TraceEvent
request = record exchange.frame { event_id = "evt-0001"; parent_event_id = null }

abbrev two_runs : List StageRun
two_runs =
    record { run_id = "inv"; events = request ∷ [] }
    ∷ record { run_id = "plan"; events = request ∷ [] }
    ∷ []

apart : (s t : String) → (s == t) ≡ false → s ≢ t
apart s t h e = ground (arith, h, (eq_iff s t).1 e)

names : HaveNames two_runs
unfolding HaveNames
names = (
  (omega arith, (omega arith, (omega arith, tt))),
  (apart "inv" "plan" refl, tt),
  ((omega arith, (omega arith, (omega arith, (omega arith, tt)))), tt, tt),
)

pair_interactions-shared_trace_example :
    pair_interactions strict (shared_trace strict two_runs) ≡ pair_each strict two_runs
unfolding HaveTextParents IsTextParent
pair_interactions-shared_trace_example =
    pair_interactions-shared_trace strict two_runs names ((tt, tt), ((tt, tt), tt))

shared_trace-HaveOwnIds_example : HaveOwnIds (shared_trace strict two_runs)
unfolding HaveOwnIds
shared_trace-HaveOwnIds_example =
    shared_trace-HaveOwnIds strict two_runs names ((tt, tt), ((tt, tt), tt))
