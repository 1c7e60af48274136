-- ===== src/Workflow/Graph.antt =====
-- src/anse_harness/workflows/graph.py: the decomposition of a task, as data.
pub mod RoundTrip
use ai_native_sweng.Prelude.{String, Option, List, [], ◌∷◌, map, Result, ok, ◌>>=◌, traverse}
use ai_native_sweng.Json.Value.{str, obj, Dict, dict, array, strings, optional}
use ai_native_sweng.Json.Convert.{
  Builtins, index, get, get_or, iterate, as_str, as_dict, as_strings, optional_of,
}

pub record TaskNode : Type 0 where
  pub worker_id : String
  pub description : String
  pub acceptance_criteria : List String
  pub owned_paths : List String
  pub depends_on : List String
  pub search_terms : Option (List String)

pub record OwnershipOverlap : Type 0 where
  pub first_worker : String
  pub second_worker : String
  pub paths : List String

pub record TaskGraph : Type 0 where
  pub task_id : String
  pub nodes : List TaskNode

-- TaskNode.graph_payload
unfoldable pub node_payload : TaskNode → Dict
node_payload r = dict (
    ("worker_id", str r.worker_id)
    ∷ ("description", str r.description)
    ∷ ("acceptance_criteria", strings r.acceptance_criteria)
    ∷ ("owned_paths", strings r.owned_paths)
    ∷ ("depends_on", strings r.depends_on)
    ∷ ("search_terms", optional strings r.search_terms)
    ∷ [])

-- OwnershipOverlap.graph_payload
unfoldable pub overlap_payload : OwnershipOverlap → Dict
overlap_payload r = dict (
    ("first_worker", str r.first_worker)
    ∷ ("second_worker", str r.second_worker)
    ∷ ("paths", strings r.paths)
    ∷ [])

-- TaskGraph.graph_payload
unfoldable pub graph_payload : TaskGraph → Dict
unfolding node_payload
graph_payload r = dict (
    ("artifact_type", str "task_graph")
    ∷ ("task_id", str r.task_id)
    ∷ ("nodes", array (map (λ x. obj (node_payload x)) r.nodes))
    ∷ [])

module _ (py : Builtins) where
  -- TaskNode.task_graph
  unfoldable pub task_node : Dict → Result TaskNode
  task_node d = do
    worker_id_raw ← index d "worker_id"
    description_raw ← index d "description"
    acceptance_criteria ← as_strings py (get_or d "acceptance_criteria" (array []))
    owned_paths ← as_strings py (get_or d "owned_paths" (array []))
    depends_on ← as_strings py (get_or d "depends_on" (array []))
    search_terms ← optional_of (as_strings py) (get d "search_terms")
    ok (record {
      worker_id = as_str py worker_id_raw;
      description = as_str py description_raw;
      acceptance_criteria = acceptance_criteria;
      owned_paths = owned_paths;
      depends_on = depends_on;
      search_terms = search_terms;
    })

  -- TaskGraph.task_graph
  unfoldable pub task_graph : Dict → Result TaskGraph
  unfolding task_node
  task_graph d = do
    task_id_raw ← index d "task_id"
    nodes_items ← iterate (get_or d "nodes" (array []))
    nodes ← traverse (λ item. as_dict py item >>= task_node) nodes_items
    ok (record { task_id = as_str py task_id_raw; nodes = nodes })
