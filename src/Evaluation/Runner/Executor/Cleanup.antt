-- ===== src/Evaluation/Runner/Executor/Cleanup.antt =====
-- The sandbox of an attempt does not outlive it.
use ai_native_sweng.Prelude.{Result, Error, ok, err, ◌≡◌, ◌⊎◌, inl, inr, refl}
use ai_native_sweng.Json.Value.{ℤ, Float}
use ai_native_sweng.Workflow.Integration.{Sandbox}
use ai_native_sweng.Evaluation.Runner.Executor.{
  AttemptRequest, Runtime, Step, after_step, finally, cleaned, attempt, outcome_of, execute,
}

module _ (W : Type 0) {Adapter Tracer Registry : Type 0} (rt : Runtime W Adapter Tracer Registry)
    (max_iterations : ℤ) (max_cost_usd : Float) (request : AttemptRequest) where
  finally_ends :
      {A : Type 0} (P : W → Type 0) (clean_up : Step W (Unit {0}))
      → ((w : W) → P (clean_up w).1)
      → (o : Result A × W) → P (finally W o clean_up).1
  unfolding finally cleaned
  finally_ends P clean_up h (r, w) = by_clean_up (clean_up w) (h w)
    where
      by_clean_up : (c : Result (Unit {0}) × W) → P c.1 → P (cleaned W r c).1
      by_clean_up (ok u, w2) p = p
      by_clean_up (err x, w2) p = p

  returned_ends :
      {A B : Type 0} (P : W → Type 0) (f : A → B) (o : Result A × W)
      → P o.1
      → P (after_step W o (λ a w. (ok (f a), w))).1
  unfolding after_step
  returned_ends P f (ok a, w) p = p
  returned_ends P f (err x, w) p = p

  -- Either the sandbox cannot be created, and the executor raises what its creation raised and does
  -- nothing else; or what holds whenever a sandbox was destroyed holds of it when the executor ends,
  -- whether by returning or by raising.
  pub execute-cleaned :
      (Gone : Sandbox → W → Type 0)
      → ((sandbox : Sandbox) (w : W) → Gone sandbox (rt.destroy sandbox w).1)
      → (w : W)
      → ((x : Error) × (w1 : W) × (rt.create request.target_root request.run_id w ≡ (err x, w1))
          × (execute W rt max_iterations max_cost_usd request w ≡ (err x, w1)))
        ⊎ ((sandbox : Sandbox) × (w1 : W) × (rt.create request.target_root request.run_id w
              ≡ (ok sandbox, w1))
            × Gone sandbox (execute W rt max_iterations max_cost_usd request w).1)
  unfolding execute after_step
  execute-cleaned Gone destroyed w =
      by_created (rt.create request.target_root request.run_id w) refl
    where
      by_created :
          (o : Result Sandbox × W)
          → rt.create request.target_root request.run_id w ≡ o
          → ((x : Error) × (w1 : W) × (rt.create request.target_root request.run_id w ≡ (err x, w1))
              × (execute W rt max_iterations max_cost_usd request w ≡ (err x, w1)))
            ⊎ ((sandbox : Sandbox) × (w1 : W) × (rt.create request.target_root request.run_id w
                  ≡ (ok sandbox, w1))
                × Gone sandbox (execute W rt max_iterations max_cost_usd request w).1)
      by_created (err x, w1) e = inl (x, w1, e, rw e refl)
      by_created (ok sandbox, w1) e = inr (
        sandbox,
        w1,
        e,
        rw e (
            returned_ends (Gone sandbox) outcome_of _ (
              finally_ends (Gone sandbox) (rt.destroy sandbox) (destroyed sandbox)
                (attempt W rt max_iterations max_cost_usd request sandbox w1))),
      )
