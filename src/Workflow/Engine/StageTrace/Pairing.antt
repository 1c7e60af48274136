-- ===== src/Workflow/Engine/StageTrace/Pairing.antt =====
-- The stages of a workflow share one trace file, and a replay pairs it as it would pair the events
-- of each stage by themselves.
use ai_native_sweng.Prelude.{
  List, [], ◌∷◌, ◌++◌, ◌≡◌, refl, Result, ok, err, ◌>>=◌, map, All, arith, ap, ◌∙◌,
}
use ai_native_sweng.Json.Value.{Json, null, bool, int, float, str, arr, obj}
use ai_native_sweng.Json.Convert.{Builtins, as_str}
use ai_native_sweng.Tracing.Event.{TraceEvent}
use ai_native_sweng.Models.Replay.{
  Interaction, parent_request, interaction, interaction_with, pair_from, pair_interactions,
}
use ai_native_sweng.Workflow.Engine.StageTrace.{stage_parent, staged}
use ai_native_sweng.Workflow.Engine.StageTrace.Lookup.{
  StageRun, shared_trace, Agrees, HaveNames, all-Agrees,
}

-- `parent_event_id: str | None`
unfoldable pub IsTextParent : Json → Type 0
IsTextParent null = Unit
IsTextParent (str s) = Unit
IsTextParent _ = ⊥

unfoldable pub HaveTextParents : List StageRun → Type 0
HaveTextParents runs = All (λ run. All (λ e. IsTextParent e.parent_event_id) run.events) runs

module _ (py : Builtins) where
  -- the interactions of each stage by itself, in order
  unfoldable pub pair_each : List StageRun → Result (List Interaction)
  pair_each [] = ok []
  pair_each (run ∷ runs) = do
    first ← pair_interactions py run.events
    later ← pair_each runs
    ok (first ++ later)

module _ (py : Builtins) (all : List TraceEvent) (run : StageRun) (agrees : Agrees py all run) where
  -- a request of the stage, as the shared file has it
  handed_on : Result TraceEvent → Result TraceEvent
  handed_on m = do r ← m; ok (staged py run.run_id r)

  parent_request-staged :
      (parent : Json)
      → IsTextParent parent
      → parent_request (stage_parent py run.run_id parent) all
        ≡ handed_on (parent_request parent run.events)
  unfolding parent_request stage_parent handed_on IsTextParent as_str Agrees
  parent_request-staged null h = refl
  parent_request-staged (str id) h = ground (arith, agrees id)
  parent_request-staged (bool b) h = absurd h
  parent_request-staged (int n) h = absurd h
  parent_request-staged (float f) h = absurd h
  parent_request-staged (arr xs) h = absurd h
  parent_request-staged (obj d) h = absurd h

  interaction-staged :
      (e : TraceEvent)
      → IsTextParent e.parent_event_id
      → interaction py all (staged py run.run_id e) ≡ interaction py run.events e
  unfolding interaction staged handed_on
  interaction-staged e h =
      ap (λ m. m >>= λ r. interaction_with py r.payload e.payload)
        (parent_request-staged e.parent_event_id h)
      ∙ same_payload (parent_request e.parent_event_id run.events)
    where
      same_payload :
          (m : Result TraceEvent)
          → (handed_on m >>= λ r. interaction_with py r.payload e.payload)
            ≡ (m >>= λ r. interaction_with py r.payload e.payload)
      same_payload (ok r) = refl
      same_payload (err x) = refl

  pair_from-staged :
      (es : List TraceEvent)
      → All (λ e. IsTextParent e.parent_event_id) es
      → pair_from py all (map (staged py run.run_id) es) ≡ pair_from py run.events es
  unfolding pair_from staged
  pair_from-staged [] h = refl
  pair_from-staged (e ∷ es) h = rw (interaction-staged e h.0, pair_from-staged es h.1) refl

module _ (py : Builtins) where
  pair_from-append :
      (all xs ys : List TraceEvent)
      → pair_from py all (xs ++ ys)
        ≡ (do is ← pair_from py all xs; js ← pair_from py all ys; ok (is ++ js))
  unfolding pair_from
  pair_from-append all [] ys = ground arith
  pair_from-append all (x ∷ xs) ys = ground (arith, pair_from-append all xs ys)

  pair_from-shared :
      (all : List TraceEvent) (runs : List StageRun)
      → All (Agrees py all) runs
      → HaveTextParents runs
      → pair_from py all (shared_trace py runs) ≡ pair_each py runs
  unfolding shared_trace pair_each pair_interactions HaveTextParents pair_from
  pair_from-shared all [] a h = refl
  pair_from-shared all (run ∷ runs) a h =
      rw
        (
          pair_from-append all (map (staged py run.run_id) run.events) (shared_trace py runs),
          pair_from-staged py all run a.0 run.events h.0,
          pair_from-shared all runs a.1 h.1,
        )
        refl

  -- Runs whose names have no colon and differ, with parents that are texts or absent, keep apart
  -- in one trace file, whatever identifiers their loops assign: pairing the shared file gives the
  -- interactions of every stage by itself, in order, and raises where a stage's own pairing does.
  pub pair_interactions-shared_trace :
      (runs : List StageRun)
      → HaveNames runs
      → HaveTextParents runs
      → pair_interactions py (shared_trace py runs) ≡ pair_each py runs
  unfolding pair_interactions
  pair_interactions-shared_trace runs h t =
      pair_from-shared (shared_trace py runs) runs (all-Agrees py runs h) t
