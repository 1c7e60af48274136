-- ===== src/Workers/Tasks.antt =====
-- src/anse_harness/workers/runner.py: the tasks of the workers as texts, and the head revision.
-- The functions that run a worker raise in the source.
use ai_native_sweng.Prelude.{
  String, List, [], ◌∷◌, map, nonempty, concat, join, strip, if◌then◌else◌, Result, ok, err,
  worker_error, ◌>>=◌, none,
}
use ai_native_sweng.Workflow.Graph.{TaskNode}
use ai_native_sweng.Workflow.Integration.{Git, CompletedProcess, is_zero}
use ai_native_sweng.Review.Findings.{ReviewFinding}

-- "".join(f"- {item}\n" for item in items)
unfoldable pub bullets : List String → String
unfolding concat
bullets items = concat (map (λ item. concat ("- " ∷ item ∷ "\n" ∷ [])) items)

-- render_worker_task
unfoldable pub render_worker_task : TaskNode → String → String
unfolding concat bullets
render_worker_task node investigation_answer = concat (
    "Sub-task "
    ∷ node.worker_id
    ∷ ": "
    ∷ node.description
    ∷ "\n"
    ∷ "Acceptance criteria:\n"
    ∷ bullets node.acceptance_criteria
    ∷ "Owned paths (change only these):\n"
    ∷ bullets node.owned_paths
    ∷ "Investigation summary:\n"
    ∷ investigation_answer
    ∷ "\n"
    ∷ [])

-- render_review_task
unfoldable pub render_review_task : String → String → List String → String → String → String
unfolding concat bullets
render_review_task concern description criteria integrated_diff validation_summary = concat (
    "Review the integrated change for "
    ∷ concern
    ∷ " defects. You are a fresh reviewer: you have no implementer history, and your job is evidence, not reassurance.\n"
    ∷ "Feature under review: "
    ∷ description
    ∷ "\n"
    ∷ "Acceptance criteria:\n"
    ∷ bullets criteria
    ∷ "Deterministic validation results:\n"
    ∷ validation_summary
    ∷ "\n"
    ∷ "Integrated diff (already applied to this worktree):\n"
    ∷ integrated_diff
    ∷ "\n"
    ∷ "Report each defect you can support with evidence as one line:\n"
    ∷ "FINDING: {\"category\": \"...\", \"severity\": \"...\", \"confidence\": \"...\", \"summary\": \"...\", \"evidence\": {\"files\": [], \"lines\": [], \"tests\": [], \"reasoning\": \"...\"}, \"impact\": \"...\", \"recommended_action\": \"...\", \"deduplication_key\": \"...\"}\n"
    ∷ "Do not report style preferences as defects. Finish with exactly one line:\n"
    ∷ "CONCLUSION: approved | changes_required | insufficient_evidence\n"
    ∷ [])

-- ", ".join(items) if items else "(none)"
unfoldable pub listed : List String → String
unfolding join
listed items = if nonempty items then join ", " items else "(none)"

unfoldable pub finding_block : ReviewFinding → String
unfolding concat listed
finding_block f = concat (
    "Finding "
    ∷ f.finding_id
    ∷ " ("
    ∷ f.category
    ∷ ", severity "
    ∷ f.severity
    ∷ "):\n"
    ∷ "  "
    ∷ f.summary
    ∷ "\n"
    ∷ "  Evidence files: "
    ∷ listed f.evidence.files
    ∷ "\n"
    ∷ "  Evidence lines: "
    ∷ listed f.evidence.lines
    ∷ "\n"
    ∷ "  Evidence reasoning: "
    ∷ f.evidence.reasoning
    ∷ "\n"
    ∷ "  Recommended action: "
    ∷ f.recommended_action
    ∷ "\n"
    ∷ [])

-- render_fix_task
unfoldable pub render_fix_task : List ReviewFinding → List String → String
unfolding concat bullets finding_block
render_fix_task findings criteria = concat (
    "Resolve the following accepted review findings on the current integrated change. You receive the findings and their evidence only - not the review conversation.\n"
    ∷ concat (map finding_block findings)
    ∷ "Acceptance criteria for the feature:\n"
    ∷ bullets criteria
    ∷ "Make the smallest change that resolves the findings; do not modify unrelated code.\n"
    ∷ [])

-- the output of `git rev-parse HEAD`
unfoldable pub revision_of : CompletedProcess → Result String
unfolding strip
revision_of proc = if is_zero proc.returncode then ok (strip proc.stdout) else err worker_error

-- head_revision
unfoldable pub head_revision : Git → Result String
unfolding revision_of
head_revision git = git ("git" ∷ "rev-parse" ∷ "HEAD" ∷ []) none >>= revision_of
