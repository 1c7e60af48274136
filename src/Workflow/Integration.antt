-- ===== src/Workflow/Integration.antt =====
-- src/anse_harness/workflows/integration.py: the paths that a diff changes, the calls of git and the
-- records of an integration. A call of git is an argument: it gives the process that it ended in.
pub mod Changed
pub mod Headers
use ai_native_sweng.Prelude.{
  String, Bool, false, Option, some, none, List, [], ◌∷◌, ◌++◌, map, not, ◌&&◌, ◌==◌, nonempty,
  if◌then◌else◌, Result, ok, err, patch_integration_error, contains, splitlines, eqb, ◌>>=◌,
}
use ai_native_sweng.Json.Value.{ℤ, pos, bool, str, obj, Dict, dict, array, strings}
use ai_native_sweng.Review.Findings.Parse.{after_prefix}

pub data OverlapClass : Type 0 where
  safe review_required prohibited : OverlapClass

abbrev pub overlap_value : OverlapClass → String
overlap_value safe = "safe"
overlap_value review_required = "review_required"
overlap_value prohibited = "prohibited"

pub record OverlapPolicy : Type 0 where
  pub safe_suffixes : List String
  pub prohibited_paths : List String

pub record WorkerPatch : Type 0 where
  pub worker_id : String
  pub patch : String
  pub base_revision : String

pub record PatchOverlap : Type 0 where
  pub first_worker : String
  pub second_worker : String
  pub paths : List String
  pub classification : OverlapClass

pub record ConflictRecord : Type 0 where
  pub worker_id : String
  pub error : String
  pub conflicted_paths : List String

pub record IntegrationStep : Type 0 where
  pub worker_id : String
  pub integrated_diff : String

-- src/anse_harness/runtime/sandbox.py
pub record Sandbox : Type 0 where
  pub target_root : String
  pub worktree : String
  pub branch : String
  pub base_revision : String

pub record IntegrationResult : Type 0 where
  pub sandbox : Sandbox
  pub base_revision : String
  pub applied : List String
  pub rejected : List ConflictRecord
  pub steps : List IntegrationStep
  pub integrated_diff : String

-- PatchOverlap.to_payload
unfoldable pub patch_overlap_payload : PatchOverlap → Dict
patch_overlap_payload r = dict (
    ("first_worker", str r.first_worker)
    ∷ ("second_worker", str r.second_worker)
    ∷ ("paths", strings r.paths)
    ∷ ("classification", str (overlap_value r.classification))
    ∷ [])

-- ConflictRecord.to_payload
unfoldable pub conflict_payload : ConflictRecord → Dict
conflict_payload r = dict (
    ("worker_id", str r.worker_id)
    ∷ ("error", str r.error)
    ∷ ("conflicted_paths", strings r.conflicted_paths)
    ∷ [])

-- IntegrationResult.ok
unfoldable pub result_ok : IntegrationResult → Bool
result_ok r = not (nonempty r.rejected)

-- IntegrationResult.to_payload
unfoldable pub integration_payload : IntegrationResult → Dict
unfolding conflict_payload result_ok
integration_payload r = dict (
    ("artifact_type", str "integration_report")
    ∷ ("base_revision", str r.base_revision)
    ∷ ("applied", strings r.applied)
    ∷ ("rejected", array (map (λ c. obj (conflict_payload c)) r.rejected))
    ∷ ("integrated_diff", str r.integrated_diff)
    ∷ ("ok", bool (result_ok r))
    ∷ [])

-- the path of a header line
unfoldable pub header_path : String → Option String
unfolding after_prefix
header_path line = elim (after_prefix "+++ b/" line) [
  | some path ↦ some path
  | none ↦ after_prefix "--- a/" line
]

-- what the loop of `changed_paths` keeps; `seen` is a set
pub record Found : Type 0 where
  pub paths : List String
  pub seen : List String

-- one round of the loop
unfoldable pub add_path : Found → Option String → Found
unfolding contains
add_path found none = found
add_path found (some path) =
    if not (path == "/dev/null") && not (contains found.seen path)
    then record { paths = found.paths ++ path ∷ []; seen = path ∷ found.seen }
    else found

unfoldable pub add_paths : Found → List String → Found
unfolding add_path header_path
add_paths found [] = found
add_paths found (line ∷ rest) = add_paths (add_path found (header_path line)) rest

-- changed_paths
unfoldable pub changed_paths : String → List String
unfolding add_paths splitlines
changed_paths diff = (add_paths (record { paths = []; seen = [] }) (splitlines diff)).paths

-- subprocess.CompletedProcess
pub record CompletedProcess : Type 0 where
  pub returncode : ℤ
  pub stdout : String
  pub stderr : String

-- The arguments and the input of a call; the call itself may raise (`TimeoutExpired`).
abbrev pub Git : Type 0
Git = List String → Option String → Result CompletedProcess

abbrev pub is_zero : ℤ → Bool
is_zero (pos n) = eqb n 0
is_zero _ = false

module _ (git : Git) where
  -- apply_patch
  unfoldable pub apply_patch : String → Bool → Result CompletedProcess
  apply_patch patch three_way =
      git ("git" ∷ "apply" ∷ "--index" ∷ (if three_way then "--3way" ∷ [] else [])) (some patch)

  -- the output of a call that must exit with 0
  unfoldable pub output_of : CompletedProcess → Result String
  output_of proc = if is_zero proc.returncode then ok proc.stdout else err patch_integration_error

  -- staged_diff
  unfoldable pub staged_diff : Result String
  unfolding output_of
  staged_diff =
      git ("git" ∷ "diff" ∷ "--cached" ∷ "--full-index" ∷ "--no-color" ∷ []) none >>= output_of

  unfoldable pub not_blank : List String → List String
  not_blank [] = []
  not_blank (line ∷ rest) =
      let others = not_blank rest in if line == "" then others else line ∷ others

  -- unmerged_paths
  unfoldable pub unmerged_paths : Result (List String)
  unfolding output_of not_blank
  unmerged_paths = do
    out ← git ("git" ∷ "diff" ∷ "--name-only" ∷ "--diff-filter=U" ∷ []) none >>= output_of
    ok (not_blank (splitlines out))
