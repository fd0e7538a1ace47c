-- ===== src/Forecast/Cycles.antt =====
-- forecast.py: `_reject_cycles`. The set `visiting` is the path from the node that the search started
-- from, since a node leaves the set when its visit ends. The depth of the search is bounded by fuel,
-- one more than the nodes and edges of the graph; `none` stands for fuel that was not enough.
pub mod Judged
pub mod Rejected
use free_model_orchestrator.Base.{
  ℕ, suc, zero, String, Bool, true, false, Option, none, some, List, [], ◌∷◌, ◌++◌, contains,
  string_eq, if◌then◌else◌, length,
}
use free_model_orchestrator.Base.Dict.{Dict, lookup, insert, get_or, keys}
use free_model_orchestrator.Effects.{Outcome, return, raise, raise_value_error}

abbrev pub Graph : Type 0
Graph = Dict String (List String)

-- `graph.setdefault(source, []).append(target)` for each edge; the calls of an edge do not count.
unfoldable pub graph_of : Graph → List (String × String) → Graph
unfolding lookup insert
graph_of graph [] = graph
graph_of graph ((source, target) ∷ edges) =
    graph_of (insert source (get_or source [] graph ++ target ∷ []) graph) edges

abbrev pub Visit : Type 0
Visit = Option (Outcome (List String))

abbrev pub cycle_found : Outcome (List String)
cycle_found = raise_value_error "shared-role dependency cycle"

abbrev pub then_visit : Visit → (List String → Visit) → Visit
then_visit none f = none
then_visit (some (raise e)) f = some (raise e)
then_visit (some (return visited)) f = f visited

-- `for node in nodes: visit(node)`, from the set `visited`
unfoldable pub visit_each : (String → List String → Visit) → List String → List String → Visit
visit_each visit [] visited = some (return visited)
visit_each visit (node ∷ nodes) visited = then_visit (visit node visited) (visit_each visit nodes)

abbrev pub mark_visited : String → List String → Visit
mark_visited node visited = some (return (node ∷ visited))

-- `visit`
unfoldable pub visit : ℕ → Graph → (visiting : List String) → String → List String → Visit
unfolding visit_each lookup
visit zero graph visiting node visited = none
visit (suc fuel) graph visiting node visited =
    let children = visit_each (visit fuel graph (node ∷ visiting)) (get_or node [] graph) visited in
    if contains visiting node
    then some cycle_found
    else if contains visited node
    then some (return visited)
    else then_visit children (mark_visited node)

-- The nodes that an edge starts from or leads to, with repetitions
unfoldable pub nodes_of : Graph → List String
nodes_of [] = []
nodes_of ((node, children) ∷ graph) = node ∷ (children ++ nodes_of graph)

-- `_reject_cycles`: what was visited, the last first
unfoldable pub reject_cycles : List (String × String) → Visit
unfolding graph_of visit nodes_of keys
reject_cycles edges =
    let graph = graph_of [] edges in
    visit_each (visit (suc (length (nodes_of graph))) graph []) (keys graph) []
