-- ===== src/Planning/Graph.antt =====
-- apps/orchestrator/src/main.py, `_run_managed_custody_graph`: the positions of a lot, from the rows of
-- the graph query.
pub mod Kept
pub mod Once
use full_shelf.Prelude.{
  ℕ, ◌+◌, String, Bool, true, false, ◌&&◌, ◌||◌, not, ◌==◌, Option, none, some, List, [], ◌∷◌, ◌++◌,
  map, select, first, update_where, ltb, nat_eq, sum_by, length, if◌then◌else◌,
}
use full_shelf.Prelude.Errors.{Result, ok, err, value_error, lookup_error, ◌>>=◌, ◌>>◌, raise_if}
use full_shelf.Prelude.Sorting.{sort_by, ltb_text}

-- A node with what it holds.
pub record Position : Type 0 where
  pub node_id : String
  pub node_type : String
  pub name : String
  pub on_hand_cases : ℕ
  pub acknowledgment_status : String
  pub path_depth : ℕ

-- A row of the query: the root of the path, and the node at its end.
pub record GraphRow : Type 0 where
  pub source : Position
  pub node : Position

pub record CustodyGraph : Type 0 where
  pub current_positions : List Position
  pub unique_current_cases : ℕ
  pub confirmed_cases : ℕ
  pub unconfirmed_cases : ℕ
  pub unconfirmed_positions : List Position
  pub max_path_depth : ℕ
  pub node_count : ℕ

unfoldable pub find_node : String → List Position → Option Position
find_node k nodes = first (select (λ p. p.node_id == k) nodes)

-- `nodes[node_id] = node`, where the key is new and where it is there.
unfoldable pub put_node : Position → Option Position → List Position → List Position
put_node node none nodes = nodes ++ (node ∷ [])
put_node node (some prior) nodes =
    if ltb node.path_depth prior.path_depth
    then update_where (λ p. p.node_id == node.node_id) (λ p. node) nodes
    else nodes

pub disagrees : Position → Option Position → Bool
disagrees node none = false
disagrees node (some prior) =
    not (nat_eq prior.on_hand_cases node.on_hand_cases)
    || not (prior.acknowledgment_status == node.acknowledgment_status)

unfoldable pub add_row : Position → List Position → GraphRow → Result (List Position)
unfolding put_node disagrees find_node
add_row root nodes row = do
  raise_if
      (not (row.source.node_id == root.node_id)
        || (not (nat_eq row.source.on_hand_cases root.on_hand_cases)
            || not (row.source.acknowledgment_status == root.acknowledgment_status)))
      (value_error "INCONSISTENT_GRAPH_ROOT")
  raise_if (disagrees row.node (find_node row.node.node_id nodes))
      (value_error "INCONSISTENT_GRAPH_NODE")
  ok (put_node row.node (find_node row.node.node_id nodes) nodes)

unfoldable pub add_rows : Position → List Position → List GraphRow → Result (List Position)
unfolding add_row
add_rows root nodes [] = ok nodes
add_rows root nodes (row ∷ rows) = do nodes' ← add_row root nodes row; add_rows root nodes' rows

unfoldable pub nearer : Position → Position → Bool
nearer a b =
    ltb a.path_depth b.path_depth
    || nat_eq a.path_depth b.path_depth && ltb_text a.node_id b.node_id

-- `max(path["path_depth"] for path in paths)`
unfoldable pub greatest_depth : List GraphRow → ℕ
greatest_depth [] = 0
greatest_depth (row ∷ rows) =
    let rest = greatest_depth rows in
    if ltb rest row.node.path_depth then row.node.path_depth else rest

unfoldable pub cases_with : String → List Position → ℕ
cases_with status positions =
    sum_by (λ p. if p.acknowledgment_status == status then p.on_hand_cases else 0) positions

unfoldable pub summarize : List GraphRow → List Position → CustodyGraph
unfolding nearer greatest_depth cases_with
summarize rows nodes =
    let positions = sort_by nearer nodes in
    record {
      current_positions = positions;
      unique_current_cases = sum_by (λ p. p.on_hand_cases) positions;
      confirmed_cases = cases_with "CONFIRMED" positions;
      unconfirmed_cases = cases_with "UNCONFIRMED" positions;
      unconfirmed_positions = select (λ p. p.acknowledgment_status == "UNCONFIRMED") positions;
      max_path_depth = greatest_depth rows;
      node_count = length positions;
    }

-- The query itself is the database's: its rows are the argument.
unfoldable pub run_managed_custody_graph : List GraphRow → Result CustodyGraph
unfolding add_rows summarize
run_managed_custody_graph [] = err (lookup_error "GRAPH_TOPOLOGY_NOT_FOUND")
run_managed_custody_graph (row ∷ rows) =
    let root = record row.source { path_depth = 0 } in
    do nodes ← add_rows root (root ∷ []) (row ∷ rows); ok (summarize (row ∷ rows) nodes)
