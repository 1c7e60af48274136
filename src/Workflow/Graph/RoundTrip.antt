-- ===== src/Workflow/Graph/RoundTrip.antt =====
-- The task graph is read back as it was written.
use ai_native_sweng.Prelude.{String, Option, none, some, List, ◌≡◌, refl, ok, ◌>>=◌, traverse-map}
use ai_native_sweng.Json.Value.{obj, items_list-items, strings, optional}
use ai_native_sweng.Json.Convert.{
  Builtins, as_dict, as_strings, as_strings-strings, optional_of, reading,
}
use ai_native_sweng.Workflow.Graph.{
  TaskNode, TaskGraph, node_payload, task_node, graph_payload, task_graph,
}

module _ (py : Builtins) where
  optional-strings :
      (o : Option (List String)) → optional_of (as_strings py) (optional strings o) ≡ ok o
  unfolding optional_of
  optional-strings none = refl
  optional-strings (some xs) = rw (as_strings-strings py xs)

  -- Reading what was written gives it back.
  pub task_node-node_payload : (r : TaskNode) → task_node py (node_payload r) ≡ ok r
  unfolding task_node node_payload reading
  task_node-node_payload r = simp (as_strings-strings py, optional-strings)

  -- A task graph, with all its nodes, is read back from its payload unchanged.
  pub task_graph-graph_payload : (g : TaskGraph) → task_graph py (graph_payload g) ≡ ok g
  unfolding task_graph graph_payload reading
  task_graph-graph_payload g = simp (
    items_list-items,
    traverse-map (λ item. as_dict py item >>= task_node py) (λ x. obj (node_payload x))
        task_node-node_payload,
  )
