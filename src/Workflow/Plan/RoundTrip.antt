-- ===== src/Workflow/Plan/RoundTrip.antt =====
-- The plan artifact is read back as it was written.
use ai_native_sweng.Prelude.{◌≡◌, ok}
use ai_native_sweng.Json.Convert.{Builtins, as_strings-strings, reading}
use ai_native_sweng.Workflow.Plan.{PlanArtifact, plan_payload, plan_artifact}

module _ (py : Builtins) where
  -- A plan is read back from its payload unchanged.
  pub plan_artifact-plan_payload : (r : PlanArtifact) → plan_artifact py (plan_payload r) ≡ ok r
  unfolding plan_artifact plan_payload reading
  plan_artifact-plan_payload r = simp (as_strings-strings py)
