-- ===== src/Evaluation/Runner/Executor.antt =====
-- src/anse_harness/evaluation/runner.py: `write_task_executor`, `fresh_clone` and the constructor of
-- `EvaluationRunner`. The sandbox manager, the tool registry, the trace file, the adapters and the
-- write loop are arguments, over a world that each of their calls may change and may leave by raising.
pub mod Cleanup
pub mod Clones
use ai_native_sweng.Prelude.{
  ℕ, suc, String, Bool, true, false, Option, some, List, [], ◌∷◌, Result, ok, err, evaluation_error,
  called_process_error, guard, ◌>>◌, contains, concat, decimal, ◌==◌,
}
use ai_native_sweng.Json.Value.{ℤ, Float}
use ai_native_sweng.Workflow.Integration.{Sandbox}
use ai_native_sweng.Validation.{ValidationCheck}
use ai_native_sweng.Tools.Contracts.{
  HarnessTool, list_files, search_text, read_file, inspect_git_status, create_file, replace_text,
  delete_file, inspect_diff, run_validation_command,
}
use ai_native_sweng.Evaluation.Runner.{EvalTask, EvalConfiguration}

pub record AttemptRequest : Type 0 where
  pub task : EvalTask
  pub configuration : EvalConfiguration
  pub repetition : ℤ
  pub target_root : String
  pub trace_path : String
  pub run_id : String
  pub workflow_id : String

pub record AttemptOutcome : Type 0 where
  pub completed : Bool
  pub patch : Option String
  pub termination_reason : Option String

-- the tools of a write task, in the order of their registration
abbrev pub canonical_tools : List HarnessTool
canonical_tools =
    list_files ∷ search_text ∷ read_file ∷ inspect_git_status ∷ create_file ∷ replace_text
    ∷ delete_file ∷ inspect_diff ∷ run_validation_command ∷ []

-- ValidationCheck(f"check-{index}", command), for the commands from this index on
unfoldable pub checks_from : ℕ → List (List String) → List ValidationCheck
unfolding concat decimal
checks_from index [] = []
checks_from index (command ∷ rest) =
    record { name = concat ("check-" ∷ decimal index ∷ []); command = command }
    ∷ checks_from (suc index) rest

-- What the executor reads of the result: the value of the final status and the patch.
pub record TaskEnd : Type 0 where
  pub status : String
  pub patch : Option String

-- AttemptOutcome(...), where `COMPLETED` is "completed"
unfoldable pub outcome_of : TaskEnd → AttemptOutcome
outcome_of e = record {
  completed = e.status == "completed";
  patch = e.patch;
  termination_reason = some e.status;
}

module _ (W : Type 0) where
  -- A call that may raise, and that may change the world in either case.
  abbrev pub Step {ℓ} : Type ℓ → Type ℓ
  Step A = W → Result A × W

  unfoldable pub after_step : {A B : Type 0} → Result A × W → (A → Step B) → Result B × W
  after_step (ok a, w) rest = rest a w
  after_step (err x, w) rest = (err x, w)

  -- What a clean-up that ended so makes of the result: its own exception replaces it.
  unfoldable pub cleaned : {A : Type 0} → Result A → Result (Unit {0}) × W → Result A × W
  cleaned r (ok _, w) = (r, w)
  cleaned r (err x, w) = (err x, w)

  -- try: body finally: clean_up
  unfoldable pub finally : {A : Type 0} → Result A × W → Step (Unit {0}) → Result A × W
  unfolding cleaned
  finally (r, w) clean_up = cleaned r (clean_up w)

  -- the arguments of `run_write_task` that the executor computes
  pub record TaskRun (Adapter Tracer Registry : Type 0) : Type 0 where
    pub prompt : String
    pub adapter : Adapter
    pub sandbox : Sandbox
    pub registry : Registry
    pub checks : List ValidationCheck
    pub tracer : Tracer
    pub run_id : String
    pub workflow_id : String
    pub max_iterations : ℤ
    pub max_cost_usd : Float

  pub record Runtime (Adapter Tracer Registry : Type 0) : Type 0 where
    -- SandboxManager(target_root).create(run_id), and .destroy(sandbox)
    pub create : String → String → Step Sandbox
    pub destroy : Sandbox → Step (Unit {0})
    -- ToolRegistry(), and .register of a tool on the worktree
    pub empty_registry : Registry
    pub register : Sandbox → HarnessTool → Registry → Step Registry
    -- TraceWriter(path), and its close
    pub open_trace : String → Step Tracer
    pub close_trace : Tracer → Step (Unit {0})
    -- template.format(description=description)
    pub format : String → String → Result String
    -- adapter_factory(request)
    pub adapter_factory : AttemptRequest → Step Adapter
    pub run_write_task : TaskRun Adapter Tracer Registry → Step TaskEnd

  module _ {Adapter Tracer Registry : Type 0} (rt : Runtime Adapter Tracer Registry)
      (max_iterations : ℤ) (max_cost_usd : Float) (request : AttemptRequest) where
    unfoldable pub register_all : Sandbox → List HarnessTool → Registry → Step Registry
    unfolding after_step
    register_all sandbox [] registry w = (ok registry, w)
    register_all sandbox (tool ∷ rest) registry w =
        after_step (rt.register sandbox tool registry w) (register_all sandbox rest)

    -- EvalConfiguration.render_task
    unfoldable pub render_task : EvalConfiguration → EvalTask → Result String
    render_task configuration task = rt.format configuration.prompt_template task.description

    -- the body of the `with`
    unfoldable pub run_traced : Sandbox → Registry → Tracer → Step TaskEnd
    unfolding after_step render_task checks_from
    run_traced sandbox registry tracer w =
        after_step (render_task request.configuration request.task, w)
          (λ prompt w1. after_step (rt.adapter_factory request w1) (λ adapter.
            rt.run_write_task (record {
              prompt = prompt;
              adapter = adapter;
              sandbox = sandbox;
              registry = registry;
              checks = checks_from 1 request.task.validation_commands;
              tracer = tracer;
              run_id = request.run_id;
              workflow_id = request.workflow_id;
              max_iterations = max_iterations;
              max_cost_usd = max_cost_usd;
            })))

    -- with TraceWriter(...) as tracer
    unfoldable pub run_with_trace : Sandbox → Registry → Step TaskEnd
    unfolding after_step finally run_traced
    run_with_trace sandbox registry w =
        after_step (rt.open_trace request.trace_path w)
          (λ tracer w1. finally (run_traced sandbox registry tracer w1) (rt.close_trace tracer))

    -- the body of the `try`
    unfoldable pub attempt : Sandbox → Step TaskEnd
    unfolding after_step register_all run_with_trace
    attempt sandbox w =
        after_step (register_all sandbox canonical_tools rt.empty_registry w)
          (run_with_trace sandbox)

    -- execute
    unfoldable pub execute : Step AttemptOutcome
    unfolding after_step finally attempt outcome_of
    execute w = after_step (rt.create request.target_root request.run_id w) (λ sandbox w1.
        after_step (finally (attempt sandbox w1) (rt.destroy sandbox))
          (λ e w2. (ok (outcome_of e), w2)))

  -- what `fresh_clone` uses of the file system and of git
  pub record Disk : Type 0 where
    -- dest.exists(), shutil.rmtree(dest), dest.parent.mkdir(parents=True, exist_ok=True)
    pub exists : String → W → Bool
    pub rmtree : String → Step (Unit {0})
    pub make_parent : String → Step (Unit {0})
    -- git clone -q --no-hardlinks source dest
    pub clone : String → String → Step (Unit {0})

  -- except subprocess.CalledProcessError: raise EvaluationError
  unfoldable pub clone_result : String → Result (Unit {0}) × W → Result String × W
  clone_result dest (ok _, w) = (ok dest, w)
  clone_result dest (err called_process_error, w) = (err evaluation_error, w)
  clone_result dest (err x, w) = (err x, w)

  module _ (disk : Disk) (source dest : String) where
    -- what is at `dest` is removed
    unfoldable pub removed : Step (Unit {0})
    removed w = elim (disk.exists dest w) [ true ↦ disk.rmtree dest w | false ↦ (ok tt, w) ]

    -- fresh_clone
    unfoldable pub fresh_clone : Step String
    unfolding after_step removed clone_result
    fresh_clone w = after_step (removed w) (λ _ w1.
        after_step (disk.make_parent dest w1)
          (λ _ w2. clone_result dest (disk.clone source dest w2)))

-- EvaluationRunner.__init__: the graders are told by their ids
unfoldable pub graders_supplied : List String → List EvalTask → Result (Unit {0})
unfolding contains
graders_supplied graders [] = ok tt
graders_supplied graders (task ∷ rest) = do
  guard (contains graders task.grader_id) evaluation_error
  graders_supplied graders rest
