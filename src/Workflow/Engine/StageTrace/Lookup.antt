-- ===== src/Workflow/Engine/StageTrace/Lookup.antt =====
-- A request is found in the shared trace file just as in the events of its own stage.
use ai_native_sweng.Prelude.{
  String, some, none, List, [], ◌∷◌, ◌++◌, ◌≡◌, ◌≢◌, refl, map, All, arith, sym,
}
use mathlib.Core.Option
use ai_native_sweng.Json.Convert.{Builtins}
use ai_native_sweng.Tracing.Event.{TraceEvent}
use ai_native_sweng.Models.Replay.{request_with_id}
use ai_native_sweng.Workflow.Engine.StageTrace.{stage_id, staged}
use ai_native_sweng.Workflow.Engine.StageTrace.Names.{IsColonFree, stage_id-eq, stage_id-ne}

-- The events of one stage, as its loop writes them, and the name of its run.
pub record StageRun : Type 0 where
  pub run_id : String
  pub events : List TraceEvent

module _ (py : Builtins) where
  -- the events that the stages hand on to the shared file, stage after stage
  unfoldable pub shared_trace : List StageRun → List TraceEvent
  shared_trace [] = []
  shared_trace (run ∷ runs) = map (staged py run.run_id) run.events ++ shared_trace runs

  request_with_id-staged :
      (p id : String) (es : List TraceEvent)
      → request_with_id (stage_id p id) (map (staged py p) es)
        ≡ Option.map (staged py p) (request_with_id id es)
  unfolding request_with_id staged
  request_with_id-staged p id [] = refl
  request_with_id-staged p id (e ∷ es) =
      ground (arith, request_with_id-staged p id es, stage_id-eq p e.event_id id)

  request_with_id-other :
      (p q id : String) (es : List TraceEvent)
      → IsColonFree p
      → IsColonFree q
      → p ≢ q
      → request_with_id (stage_id q id) (map (staged py p) es) ≡ none
  unfolding request_with_id staged
  request_with_id-other p q id [] hp hq ne = refl
  request_with_id-other p q id (e ∷ es) hp hq ne =
      ground
        (arith, request_with_id-other p q id es hp hq ne, stage_id-ne p q e.event_id id hp hq ne)

request_with_id-append :
    (id : String) (es fs : List TraceEvent)
    → request_with_id id (es ++ fs)
      ≡ elim (request_with_id id fs) [ some x ↦ some x | none ↦ request_with_id id es ]
unfolding request_with_id
request_with_id-append id [] fs = ground arith
request_with_id-append id (e ∷ es) fs = ground (arith, request_with_id-append id es fs)

-- The requests of a stage are found in the shared file just as in the stage's own events.
unfoldable pub Agrees : Builtins → List TraceEvent → StageRun → Type 0
Agrees py all run =
    (id : String)
    → request_with_id (stage_id run.run_id id) all
      ≡ Option.map (staged py run.run_id) (request_with_id id run.events)

-- The names of the runs have no colon and differ from one another.
unfoldable pub HaveNames : List StageRun → Type 0
HaveNames [] = Unit
HaveNames (run ∷ runs) =
    IsColonFree run.run_id × All (λ r. run.run_id ≢ r.run_id) runs × HaveNames runs

module _ (py : Builtins) where
  not_in_later :
      (p id : String) (runs : List StageRun)
      → IsColonFree p
      → All (λ r. p ≢ r.run_id) runs
      → HaveNames runs
      → request_with_id (stage_id p id) (shared_trace py runs) ≡ none
  unfolding shared_trace request_with_id HaveNames
  not_in_later p id [] hp ne h = refl
  not_in_later p id (run ∷ runs) hp ne h = ground (
    arith,
    request_with_id-append (stage_id p id) (map (staged py run.run_id) run.events)
        (shared_trace py runs),
    not_in_later p id runs hp ne.1 h.2,
    request_with_id-other py run.run_id p id run.events h.0 hp (λ e. ne.0 (sym e)),
  )

  Agrees-first :
      (run : StageRun) (runs : List StageRun)
      → HaveNames (run ∷ runs)
      → Agrees py (shared_trace py (run ∷ runs)) run
  unfolding shared_trace Agrees HaveNames
  Agrees-first run runs h id = ground (
    arith,
    request_with_id-append (stage_id run.run_id id) (map (staged py run.run_id) run.events)
        (shared_trace py runs),
    not_in_later run.run_id id runs h.0 h.1 h.2,
    request_with_id-staged py run.run_id id run.events,
  )

  Agrees-later :
      (run r : StageRun) (runs : List StageRun)
      → IsColonFree run.run_id
      → IsColonFree r.run_id
      → run.run_id ≢ r.run_id
      → Agrees py (shared_trace py runs) r
      → Agrees py (shared_trace py (run ∷ runs)) r
  unfolding shared_trace Agrees
  Agrees-later run r runs hp hq ne h id = ground (
    arith,
    request_with_id-append (stage_id r.run_id id) (map (staged py run.run_id) run.events)
        (shared_trace py runs),
    h id,
    request_with_id-other py run.run_id r.run_id id run.events hp hq ne,
  )

  all_later :
      (run : StageRun) (runs rs : List StageRun)
      → IsColonFree run.run_id
      → All (λ r. run.run_id ≢ r.run_id) rs
      → HaveNames rs
      → All (Agrees py (shared_trace py runs)) rs
      → All (Agrees py (shared_trace py (run ∷ runs))) rs
  unfolding HaveNames
  all_later run runs [] hp ne h a = tt
  all_later run runs (r ∷ rs) hp ne h a =
      (Agrees-later run r runs hp h.0 ne.0 a.0, all_later run runs rs hp ne.1 h.2 a.1)

  pub all-Agrees :
      (runs : List StageRun) → HaveNames runs → All (Agrees py (shared_trace py runs)) runs
  unfolding HaveNames
  all-Agrees [] h = tt
  all-Agrees (run ∷ runs) h =
      (Agrees-first run runs h, all_later run runs runs h.0 h.1 h.2 (all-Agrees runs h.2))
