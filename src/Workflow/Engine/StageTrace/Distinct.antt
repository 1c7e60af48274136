-- ===== src/Workflow/Engine/StageTrace/Distinct.antt =====
-- The identifiers in a shared trace file differ, if those of every stage do.
use ai_native_sweng.Prelude.{String, List, [], ◌∷◌, ◌++◌, ◌≢◌, map, All, eq_iff, arith}
use ai_native_sweng.Json.Convert.{Builtins}
use ai_native_sweng.Tracing.Event.{TraceEvent}
use ai_native_sweng.Workflow.Engine.StageTrace.{stage_id, staged}
use ai_native_sweng.Workflow.Engine.StageTrace.Names.{IsColonFree, stage_id-eq, stage_id-ne}
use ai_native_sweng.Workflow.Engine.StageTrace.Lookup.{StageRun, shared_trace, HaveNames}

-- No identifier stands twice in the trace.
unfoldable pub HaveOwnIds : List TraceEvent → Type 0
HaveOwnIds [] = Unit
HaveOwnIds (e ∷ es) = All (λ (f : TraceEvent). e.event_id ≢ f.event_id) es × HaveOwnIds es

module _ {ℓ} {A : Type ℓ} (P : A → Type 0) where
  All-append : (xs ys : List A) → All P xs → All P ys → All P (xs ++ ys)
  All-append [] ys h k = k
  All-append (x ∷ xs) ys h k = (h.0, All-append xs ys h.1 k)

module _ (py : Builtins) where
  differs_within :
      (p id : String) (es : List TraceEvent)
      → All (λ (f : TraceEvent). id ≢ f.event_id) es
      → All (λ (f : TraceEvent). stage_id p id ≢ f.event_id) (map (staged py p) es)
  unfolding staged
  differs_within p id [] h = tt
  differs_within p id (f ∷ fs) h = (
    λ e. ground (
      arith,
      h.0,
      (eq_iff (stage_id p id) (stage_id p f.event_id)).1 e,
      stage_id-eq p id f.event_id,
      eq_iff id f.event_id,
    ),
    differs_within p id fs h.1,
  )

  differs_from_stage :
      (p q id : String) (es : List TraceEvent)
      → IsColonFree p
      → IsColonFree q
      → p ≢ q
      → All (λ (f : TraceEvent). stage_id p id ≢ f.event_id) (map (staged py q) es)
  unfolding staged
  differs_from_stage p q id [] hp hq ne = tt
  differs_from_stage p q id (f ∷ fs) hp hq ne = (
    λ e. ground (
      arith,
      (eq_iff (stage_id p id) (stage_id q f.event_id)).1 e,
      stage_id-ne p q id f.event_id hp hq ne,
    ),
    differs_from_stage p q id fs hp hq ne,
  )

  differs_later :
      (p id : String) (runs : List StageRun)
      → IsColonFree p
      → All (λ r. p ≢ r.run_id) runs
      → HaveNames runs
      → All (λ (f : TraceEvent). stage_id p id ≢ f.event_id) (shared_trace py runs)
  unfolding shared_trace HaveNames
  differs_later p id [] hp ne h = tt
  differs_later p id (run ∷ runs) hp ne h =
      All-append (λ (f : TraceEvent). stage_id p id ≢ f.event_id)
        (map (staged py run.run_id) run.events) (shared_trace py runs)
        (differs_from_stage p run.run_id id run.events hp h.0 ne.0)
        (differs_later p id runs hp ne.1 h.2)

  HaveOwnIds-append :
      (p : String) (es rest : List TraceEvent)
      → HaveOwnIds es
      → ((id : String) → All (λ (f : TraceEvent). stage_id p id ≢ f.event_id) rest)
      → HaveOwnIds rest
      → HaveOwnIds (map (staged py p) es ++ rest)
  unfolding HaveOwnIds staged
  HaveOwnIds-append p [] rest h away k = k
  HaveOwnIds-append p (e ∷ es) rest h away k = (
    All-append (λ (f : TraceEvent). stage_id p e.event_id ≢ f.event_id) (map (staged py p) es) rest
        (differs_within p e.event_id es h.0) (away e.event_id),
    HaveOwnIds-append p es rest h.1 away k,
  )

  -- Runs whose names have no colon and differ, in each of which no identifier stands twice, leave a
  -- shared trace file in which none does.
  pub shared_trace-HaveOwnIds :
      (runs : List StageRun)
      → HaveNames runs
      → All (λ run. HaveOwnIds run.events) runs
      → HaveOwnIds (shared_trace py runs)
  unfolding shared_trace HaveNames HaveOwnIds
  shared_trace-HaveOwnIds [] names own = tt
  shared_trace-HaveOwnIds (run ∷ runs) names own =
      HaveOwnIds-append run.run_id run.events (shared_trace py runs) own.0
        (λ id. differs_later run.run_id id runs names.0 names.1 names.2)
        (shared_trace-HaveOwnIds runs names.2 own.1)
