-- ===== src/Evaluation/Dataset.antt =====
-- src/anse_harness/evaluation/dataset.py: task manifests and dataset descriptors. Reading the files
-- is left out.
pub mod Accepted
use ai_native_sweng.Prelude.{
  String, Bool, true, false, List, [], ◌∷◌, not, ◌&&◌, nonempty, contains, Result, ok,
  dataset_error, guard, traverse, ◌>>=◌, ◌>>◌, if◌then◌else◌, ◌==◌,
}
use ai_native_sweng.Json.Value.{Json, str, Dict, dict, strings}
use ai_native_sweng.Json.Convert.{Builtins, index, iterate, as_str, as_strings, as_dict, get}

abbrev pub partitions : List String
partitions = "practice" ∷ "development" ∷ "held-out" ∷ []

pub record TaskManifest : Type 0 where
  pub task_id : String
  pub title : String
  pub category : String
  pub partition : String
  pub modules : List String
  pub repository : String
  pub starting_revision : String
  pub description : String
  pub baseline_configuration : String
  pub hidden_validation : String
  pub visible_validation : List Dict
  pub raw : Dict

-- TaskManifest.__post_init__, as a constructor that may raise
unfoldable pub checked_manifest : TaskManifest → Result TaskManifest
unfolding contains
checked_manifest m = do guard (contains partitions m.partition) dataset_error; ok m

-- entry.get("kind") == "command"
unfoldable pub is_command : Json → Bool
is_command (str s) = s == "command"
is_command _ = false

module _ (py : Builtins) where
  -- TaskManifest.visible_commands
  unfoldable pub visible_commands_of : List Dict → Result (List String)
  unfolding is_command index get
  visible_commands_of [] = ok []
  visible_commands_of (entry ∷ rest) =
      let later = visible_commands_of rest in
      if is_command (get entry "kind")
      then (do command ← index entry "command"; commands ← later; ok (as_str py command ∷ commands))
      else later

  unfoldable pub visible_commands : TaskManifest → Result (List String)
  unfolding visible_commands_of
  visible_commands m = visible_commands_of m.visible_validation

  -- TaskManifest.from_payload
  unfoldable pub task_manifest : Dict → Result TaskManifest
  task_manifest d = do
    task_id ← index d "id"
    title ← index d "title"
    category ← index d "category"
    partition ← index d "partition"
    modules_raw ← index d "modules"
    modules ← as_strings py modules_raw
    repository ← index d "repository"
    starting_revision ← index d "starting_revision"
    description ← index d "description"
    baseline_configuration ← index d "baseline_configuration"
    hidden_validation ← index d "hidden_validation"
    visible_raw ← index d "visible_validation"
    visible_items ← iterate visible_raw
    visible_validation ← traverse (as_dict py) visible_items
    checked_manifest (record {
      task_id = as_str py task_id;
      title = as_str py title;
      category = as_str py category;
      partition = as_str py partition;
      modules = modules;
      repository = as_str py repository;
      starting_revision = as_str py starting_revision;
      description = as_str py description;
      baseline_configuration = as_str py baseline_configuration;
      hidden_validation = as_str py hidden_validation;
      visible_validation = visible_validation;
      raw = d;
    })

pub record DatasetDescriptor : Type 0 where
  pub dataset_id : String
  pub description : String
  pub task_ids : List String
  pub expected_partition : String

-- len(set(xs)) == len(xs)
unfoldable pub all_different : List String → Bool
unfolding contains
all_different [] = true
all_different (x ∷ xs) = not (contains xs x) && all_different xs

-- DatasetDescriptor.__post_init__
unfoldable pub checked_descriptor : DatasetDescriptor → Result DatasetDescriptor
unfolding contains all_different
checked_descriptor r = do
  guard (contains partitions r.expected_partition) dataset_error
  guard (nonempty r.task_ids) dataset_error
  guard (all_different r.task_ids) dataset_error
  ok r

-- DatasetDescriptor.to_payload
unfoldable pub descriptor_payload : DatasetDescriptor → Dict
descriptor_payload r = dict (
    ("dataset_id", str r.dataset_id)
    ∷ ("description", str r.description)
    ∷ ("task_ids", strings r.task_ids)
    ∷ ("expected_partition", str r.expected_partition)
    ∷ [])

-- DatasetDescriptor.from_payload
module _ (py : Builtins) where
  unfoldable pub dataset_descriptor : Dict → Result DatasetDescriptor
  dataset_descriptor d = do
    dataset_id ← index d "dataset_id"
    description ← index d "description"
    task_ids_raw ← index d "task_ids"
    task_ids ← as_strings py task_ids_raw
    expected_partition ← index d "expected_partition"
    checked_descriptor (record {
      dataset_id = as_str py dataset_id;
      description = as_str py description;
      task_ids = task_ids;
      expected_partition = as_str py expected_partition;
    })
