-- ===== src/Policy/Reconciliation.antt =====
-- packages/domain/full_shelf_domain/reconciliation.py
pub mod Totals
use full_shelf.Prelude.{String, Bool, ◌&&◌, List, [], ◌∷◌, ◌==◌, contains, any, if◌then◌else◌}
use full_shelf.Prelude.Int.{ℤ, pos, ◌+ℤ◌, is_zero}
use full_shelf.Policy.Models.{CustodyNode, CustodyEdge}

pub record RecallReconciliationResult : Type 0 where
  pub recalled_lot_id : String
  pub total_unique_physical_cases : ℤ
  pub node_breakdown : List (String × ℤ)
  pub contains_sub_distribution : Bool
  pub sub_distributed_unconfirmed_cases : ℤ
  pub is_fully_contained : Bool
  pub terminal_status : String

-- `breakdown[name] = cases`: a name that is there keeps its place and takes the new value.
unfoldable pub put : String → ℤ → List (String × ℤ) → List (String × ℤ)
put k v [] = (k, v) ∷ []
put k v ((j, w) ∷ m) = if j == k then (k, v) ∷ m else (j, w) ∷ put k v m

-- The loop over the nodes: the breakdown and the running total.
unfoldable pub map_nodes : List CustodyNode → List (String × ℤ) → ℤ → List (String × ℤ) × ℤ
unfolding put
map_nodes [] breakdown total = (breakdown, total)
map_nodes (node ∷ nodes) breakdown total =
    map_nodes nodes (put node.name node.on_hand_cases breakdown) (total +ℤ node.on_hand_cases)

abbrev pub is_unconfirmed : List String → CustodyEdge → Bool
is_unconfirmed sites edge = edge.is_sub_distribution && contains edge.target_node_id sites

-- The loop over the edges.
unfoldable pub count_unconfirmed : List String → List CustodyEdge → ℤ → ℤ
count_unconfirmed sites [] cases = cases
count_unconfirmed sites (edge ∷ edges) cases =
    count_unconfirmed sites edges
      (if is_unconfirmed sites edge then cases +ℤ edge.case_count else cases)

unfoldable pub reconcile_recall_graph :
    List CustodyNode → List CustodyEdge → String → List String → RecallReconciliationResult
reconcile_recall_graph nodes edges recalled_lot_id unconfirmed_subsite_ids =
    let (breakdown, total) = map_nodes nodes [] (pos 0) in
    let unconfirmed = count_unconfirmed unconfirmed_subsite_ids edges (pos 0) in
    record {
      recalled_lot_id = recalled_lot_id;
      total_unique_physical_cases = total;
      node_breakdown = breakdown;
      contains_sub_distribution = any (λ (e : CustodyEdge). e.is_sub_distribution) edges;
      sub_distributed_unconfirmed_cases = unconfirmed;
      is_fully_contained = is_zero unconfirmed;
      terminal_status = if is_zero unconfirmed then "CONTAINED" else "PARTIALLY_CONTAINED";
    }
