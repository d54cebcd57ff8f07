-- ===== src/Tests/Custody.antt =====
-- A lot that two paths bring to one pantry.
use full_shelf.Prelude.{String, ◌≤◌, ◌+◌, refl, List, [], ◌∷◌, All}
use full_shelf.Planning.Graph.{
  Position, GraphRow, CustodyGraph, run_managed_custody_graph, summarize, find_node,
}
use full_shelf.Planning.Graph.Kept.{entries}
use full_shelf.Planning.Graph.Once.{IsCounted, run_managed_custody_graph-once}

abbrev warehouse : Position
warehouse = record {
  node_id = "NODE-0";
  node_type = "WAREHOUSE";
  name = "Warehouse";
  on_hand_cases = 40;
  acknowledgment_status = "CONFIRMED";
  path_depth = 0;
}

abbrev pantry : Position
pantry = record {
  node_id = "NODE-1";
  node_type = "PARTNER";
  name = "Pantry";
  on_hand_cases = 12;
  acknowledgment_status = "UNCONFIRMED";
  path_depth = 2;
}

abbrev rows : List GraphRow
rows =
    record { source = warehouse; node = pantry }
    ∷ record { source = warehouse; node = record pantry { path_depth = 1 } }
    ∷ []

abbrev graph : CustodyGraph
graph = summarize rows (warehouse ∷ record pantry { path_depth = 1 } ∷ [])

run_managed_custody_graph-once_example :
    ((k : String) → entries k graph.current_positions ≤ 1)
    × All (IsCounted graph.current_positions) rows
    × (graph.confirmed_cases + graph.unconfirmed_cases ≤ graph.unique_current_cases)
unfolding run_managed_custody_graph find_node
run_managed_custody_graph-once_example = run_managed_custody_graph-once rows graph refl
