-- ===== src/Workflow/Plan/Texts.antt =====
-- src/anse_harness/workflows/plan.py: the texts that a plan is read from and rendered to.
pub mod Steps
use ai_native_sweng.Prelude.{
  ℕ, suc, String, List, [], ◌∷◌, ◌++◌, map, ◌==◌, nonempty, concat, join, decimal, strip, rstrip,
  splitlines, if◌then◌else◌,
}
use ai_native_sweng.Workflow.Plan.{PlanArtifact}

-- the lines that are not blank, stripped
unfoldable pub stripped_steps : List String → List String
unfolding strip
stripped_steps [] = []
stripped_steps (line ∷ rest) =
    let others = stripped_steps rest in if strip line == "" then others else strip line ∷ others

-- plan_steps_from_text
unfoldable pub plan_steps_from_text : String → List String
unfolding stripped_steps splitlines
plan_steps_from_text text = stripped_steps (splitlines text)

-- a heading with its items, unless there are none
unfoldable pub section_lines : String × List String → List String
unfolding concat
section_lines (heading, items) =
    if nonempty items
    then "" ∷ concat (heading ∷ ":" ∷ []) ∷ map (λ item. concat ("- " ∷ item ∷ [])) items
    else []

unfoldable pub sections_lines : List (String × List String) → List String
unfolding section_lines
sections_lines [] = []
sections_lines (section ∷ rest) = section_lines section ++ sections_lines rest

-- PlanArtifact.render
unfoldable pub render_plan : PlanArtifact → String
unfolding concat join sections_lines
render_plan p = join "\n" (
    concat ("Plan " ∷ p.plan_id ∷ " for task " ∷ p.task_id ∷ [])
    ∷ ""
    ∷ concat ("Goal: " ∷ p.goal ∷ [])
    ∷ sections_lines (
        ("Assumptions", p.assumptions)
        ∷ ("Steps", p.steps)
        ∷ ("Validation strategy", p.validation_strategy)
        ∷ ("Risks", p.risks)
        ∷ ("Expected artifacts", p.expected_artifacts)
        ∷ ("Stop conditions", p.stop_conditions)
        ∷ []))

-- f"{i}. {criterion}", from this number on
unfoldable pub numbered : ℕ → List String → List String
unfolding concat decimal
numbered i [] = []
numbered i (criterion ∷ rest) = concat (decimal i ∷ ". " ∷ criterion ∷ []) ∷ numbered (suc i) rest

-- the lines on the acceptance criteria, if there are any
unfoldable pub criteria_lines : List String → List String
unfolding numbered
criteria_lines criteria =
    if nonempty criteria then "" ∷ "Acceptance criteria:" ∷ numbered 1 criteria else []

-- render_plan_request
unfoldable pub render_plan_request : String → String → List String → String → String
unfolding concat join criteria_lines rstrip
render_plan_request task_id description criteria investigation_answer = join "\n" (
    concat ("Task " ∷ task_id ∷ ": " ∷ description ∷ [])
    ∷ (criteria_lines criteria
        ++ (""
            ∷ "Investigation findings:"
            ∷ rstrip investigation_answer
            ∷ ""
            ∷ "Reply with a numbered implementation plan, one step per line."
            ∷ [])))

-- render_implementation_task
unfoldable pub render_implementation_task : String → List String → PlanArtifact → String
unfolding join criteria_lines
render_implementation_task description criteria plan = join "\n" (
    description
    ∷ (criteria_lines criteria
        ++ (""
            ∷ "Approved plan:"
            ∷ (plan.steps
                ++ (""
                    ∷ "Work only inside your sandbox worktree, follow the approved plan, inspect your diff before finishing, and finish with a short summary of the change you propose."
                    ∷ [])))))
