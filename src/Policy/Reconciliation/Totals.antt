-- ===== src/Policy/Reconciliation/Totals.antt =====
-- What the recall reconciliation of reconciliation.py reports about its nodes and edges.
use full_shelf.Prelude.{
  String, true, false, ◌≡◌, refl, sym, ◌∙◌, ◌↔◌, List, [], ◌∷◌, All, ◌==◌, contains, distinct,
  arith, eq_iff, if◌then◌else◌, Bool-cases, inl, inr,
}
use full_shelf.Prelude.Int.{ℤ, pos, ◌+ℤ◌, ◌≤ℤ◌, is_zero, int_laws, +ℤ_parts, eq_of_parts}
use full_shelf.Policy.Models.{CustodyNode, CustodyEdge}
use full_shelf.Policy.Reconciliation.{
  put, map_nodes, is_unconfirmed, count_unconfirmed, reconcile_recall_graph,
}

-- The cases on hand, summed over the nodes.
abbrev pub on_hand : List CustodyNode → ℤ
on_hand [] = pos 0
on_hand (n ∷ nodes) = n.on_hand_cases +ℤ on_hand nodes

abbrev pub breakdown_total : List (String × ℤ) → ℤ
breakdown_total [] = pos 0
breakdown_total ((k, v) ∷ m) = v +ℤ breakdown_total m

-- No edge records a negative number of cases.
abbrev pub IsCounted : CustodyEdge → Type 0
IsCounted e = pos 0 ≤ℤ e.case_count

abbrev pub IsConfirmed : List String → CustodyEdge → Type 0
IsConfirmed sites e = is_unconfirmed sites e ≡ true → e.case_count ≡ pos 0

count_unconfirmed-le :
    (sites : List String) (edges : List CustodyEdge) (acc : ℤ)
    → All IsCounted edges
    → acc ≤ℤ count_unconfirmed sites edges acc
unfolding count_unconfirmed
count_unconfirmed-le sites [] acc h = omega arith
count_unconfirmed-le sites (e ∷ edges) acc h = ground (
  arith,
  +ℤ_parts acc e.case_count,
  count_unconfirmed-le sites edges (acc +ℤ e.case_count) h.1,
  count_unconfirmed-le sites edges acc h.1,
)

none_unconfirmed :
    (sites : List String) (edges : List CustodyEdge) (acc : ℤ)
    → All IsCounted edges
    → count_unconfirmed sites edges acc ≤ℤ acc
    → All (IsConfirmed sites) edges
unfolding count_unconfirmed
none_unconfirmed sites [] acc h le = tt
none_unconfirmed sites (e ∷ edges) acc h le = ground (
  arith,
  eq_of_parts e.case_count (pos 0),
  +ℤ_parts acc e.case_count,
  count_unconfirmed-le sites edges (acc +ℤ e.case_count) h.1,
  none_unconfirmed sites edges (acc +ℤ e.case_count) h.1,
  none_unconfirmed sites edges acc h.1,
)

add_zero : (a : ℤ) → a +ℤ pos 0 ≡ a
add_zero a = omega int_laws

no_more_cases :
    (sites : List String) (edges : List CustodyEdge) (acc : ℤ)
    → All (IsConfirmed sites) edges
    → count_unconfirmed sites edges acc ≡ acc
unfolding count_unconfirmed
no_more_cases sites [] acc h = refl
no_more_cases sites (e ∷ edges) acc h = ground (
  arith,
  h.0,
  add_zero acc,
  no_more_cases sites edges (acc +ℤ e.case_count) h.1,
  no_more_cases sites edges acc h.1,
)

le_of_zero : (a : ℤ) → a ≡ pos 0 → a ≤ℤ pos 0
le_of_zero a e = rw e (omega arith)

zero_iff : (a : ℤ) → (is_zero a ≡ true) ↔ (a ≡ pos 0)
zero_iff a = (λ h. ground arith, λ h. ground arith)

-- When no edge records a negative count, a recall is reported as fully contained exactly when every
-- sub-distribution edge into an unconfirmed site carries no case; the terminal status says the same.
pub contained_iff :
    (nodes : List CustodyNode) (edges : List CustodyEdge) (lot : String) (sites : List String)
    → All IsCounted edges
    → let r = reconcile_recall_graph nodes edges lot sites in
      ((r.is_fully_contained ≡ true) ↔ All (IsConfirmed sites) edges)
      × (r.terminal_status ≡ (if r.is_fully_contained then "CONTAINED" else "PARTIALLY_CONTAINED"))
unfolding reconcile_recall_graph
contained_iff nodes edges lot sites h = (
  (
    λ z. none_unconfirmed sites edges (pos 0) h (le_of_zero _ ((zero_iff _).0 z)),
    λ c. (zero_iff _).1 (no_more_cases sites edges (pos 0) c),
  ),
  refl,
)

abbrev keys : List (String × ℤ) → List String
keys [] = []
keys ((k, v) ∷ m) = k ∷ keys m

abbrev pub names : List CustodyNode → List String
names [] = []
names (n ∷ nodes) = n.name ∷ names nodes

put-total :
    (k : String) (v : ℤ) (m : List (String × ℤ))
    → contains k (keys m) ≡ false
    → breakdown_total (put k v m) ≡ breakdown_total m +ℤ v
unfolding put
put-total k v [] h = omega int_laws
put-total k v ((j, w) ∷ m) h = elim (Bool-cases (j == k)) [
  | inl e ↦ ground (arith, eq_iff j k, eq_iff k j)
  | inr e ↦ rw (e, put-total k v m (ground arith)) (omega int_laws)
]

contains-put :
    (x k : String) (v : ℤ) (m : List (String × ℤ))
    → (x == k) ≡ false
    → contains x (keys m) ≡ false
    → contains x (keys (put k v m)) ≡ false
unfolding put
contains-put x k v [] n h = ground arith
contains-put x k v ((j, w) ∷ m) n h =
    ground (arith, eq_iff j k, eq_iff x j, eq_iff x k, contains-put x k v m n)

-- No node's name is in the breakdown yet.
abbrev AreFresh : List (String × ℤ) → List CustodyNode → Type 0
AreFresh m = All (λ n. contains n.name (keys m) ≡ false)

put-AreFresh :
    (k : String) (v : ℤ) (m : List (String × ℤ)) (nodes : List CustodyNode)
    → contains k (names nodes) ≡ false
    → AreFresh m nodes
    → AreFresh (put k v m) nodes
put-AreFresh k v m [] c h = tt
put-AreFresh k v m (n ∷ nodes) c h = (
  contains-put n.name k v m (ground (arith, eq_iff n.name k, eq_iff k n.name)) h.0,
  put-AreFresh k v m nodes (ground arith) h.1,
)

map_nodes-breakdown :
    (nodes : List CustodyNode) (m : List (String × ℤ)) (total : ℤ)
    → distinct (names nodes) ≡ true
    → AreFresh m nodes
    → breakdown_total (map_nodes nodes m total).0 ≡ breakdown_total m +ℤ on_hand nodes
unfolding map_nodes
map_nodes-breakdown [] m total d h = omega int_laws
map_nodes-breakdown (n ∷ nodes) m total d h =
    rw
      (
        map_nodes-breakdown nodes (put n.name n.on_hand_cases m) (total +ℤ n.on_hand_cases)
            (ground arith) (put-AreFresh n.name n.on_hand_cases m nodes (ground arith) h.1),
        put-total n.name n.on_hand_cases m h.0,
      )
      (omega int_laws)

none-AreFresh : (nodes : List CustodyNode) → AreFresh [] nodes
none-AreFresh [] = tt
none-AreFresh (n ∷ nodes) = (refl, none-AreFresh nodes)

map_nodes-total :
    (nodes : List CustodyNode) (breakdown : List (String × ℤ)) (total : ℤ)
    → (map_nodes nodes breakdown total).1 ≡ total +ℤ on_hand nodes
unfolding map_nodes
map_nodes-total [] breakdown total = omega int_laws
map_nodes-total (n ∷ nodes) breakdown total =
    rw (map_nodes-total nodes (put n.name n.on_hand_cases breakdown) (total +ℤ n.on_hand_cases))
      (omega int_laws)

-- When no two nodes share a name, the reported total is the sum of the cases on hand over all the
-- nodes, and the breakdown by name adds up to the same number.
pub breakdown_sums :
    (nodes : List CustodyNode) (edges : List CustodyEdge) (lot : String) (sites : List String)
    → distinct (names nodes) ≡ true
    → let r = reconcile_recall_graph nodes edges lot sites in
      (r.total_unique_physical_cases ≡ on_hand nodes)
      × (breakdown_total r.node_breakdown ≡ r.total_unique_physical_cases)
unfolding reconcile_recall_graph
breakdown_sums nodes edges lot sites d = (
  rw (map_nodes-total nodes [] (pos 0)) (omega int_laws),
  map_nodes-breakdown nodes [] (pos 0) d (none-AreFresh nodes)
      ∙ sym (map_nodes-total nodes [] (pos 0)),
)
