-- ===== src/Planning/Graph/Once.antt =====
-- A node that several paths reach is one position: its cases are counted once.
use full_shelf.Prelude.{
  ◌+◌, ◌≤◌, ◌≡◌, refl, sym, subst, ◌∙◌, String, false, ◌||◌, not, ◌==◌, eq_iff, List, [], ◌∷◌,
  sum_by, All, nat_eq, Bool-cases, inl, inr, arith, if◌then◌else◌,
}
use full_shelf.Prelude.Errors.{ok, >>=-ok, raise_if_passed, ok-injective, err-ok}
use full_shelf.Prelude.Sorting.{sort_by, sum_by-sort_by}
use full_shelf.Planning.Graph.{
  Position, GraphRow, CustodyGraph, find_node, disagrees, add_row, add_rows, nearer, summarize,
  cases_with, run_managed_custody_graph,
}
use full_shelf.Planning.Graph.Kept.{entries, cases_of, IsKept, IsKept-trans, put_node-IsKept}

-- A row whose node is one position with the cases that the row gives.
abbrev pub IsCounted : List Position → GraphRow → Type 0
IsCounted nodes r =
    (entries r.node.node_id nodes ≡ 1) × (cases_of r.node.node_id nodes ≡ r.node.on_hand_cases)

add_row-IsCounted :
    (root : Position) (nodes after : List Position) (row : GraphRow)
    → add_row root nodes row ≡ ok after
    → ((k : String) → entries k nodes ≤ 1)
    → IsKept nodes after × IsCounted after row
unfolding add_row
add_row-IsCounted root nodes after row h once =
    let (_, h1) =
      raise_if_passed
        (not (row.source.node_id == root.node_id)
          || (not (nat_eq row.source.on_hand_cases root.on_hand_cases)
              || not (row.source.acknowledgment_status == root.acknowledgment_status)))
        _ _ h in
    let (agree, h2) =
      raise_if_passed (disagrees row.node (find_node row.node.node_id nodes)) _ _ h1 in
    let put = put_node-IsKept row.node nodes (find_node row.node.node_id nodes) refl agree once in
    subst (λ n. IsKept nodes n × IsCounted n row) (ok-injective h2) (put.0, (put.1, put.2))

add_rows-IsCounted :
    (root : Position) (nodes after : List Position) (rows : List GraphRow)
    → add_rows root nodes rows ≡ ok after
    → ((k : String) → entries k nodes ≤ 1)
    → IsKept nodes after × All (IsCounted after) rows
unfolding add_rows IsKept
add_rows-IsCounted root nodes after [] h once =
    (subst (IsKept nodes) (ok-injective h) (λ k. (omega arith, once k, λ _. refl)), tt)
add_rows-IsCounted root nodes after (row ∷ rows) h once =
    let (mid, e, h1) = >>=-ok (add_row root nodes row) _ h in
    let (kept, counted) = add_row-IsCounted root nodes mid row e once in
    let (kept_on, rest) = add_rows-IsCounted root mid after rows h1 (λ k. (kept k).1) in
    let still = kept_on row.node.node_id in
    (
      IsKept-trans nodes mid after kept kept_on,
      ((omega (arith, still.0, still.1, counted.0), still.2 (counted.0) ∙ counted.1), rest),
    )

split_cases :
    (nodes : List Position)
    → sum_by (λ p. if p.acknowledgment_status == "CONFIRMED" then p.on_hand_cases else 0) nodes
        + sum_by
            (λ p. if p.acknowledgment_status == "UNCONFIRMED" then p.on_hand_cases else 0)
            nodes
      ≤ sum_by (λ p. p.on_hand_cases) nodes
split_cases [] = omega arith
split_cases (p ∷ nodes) = elim (Bool-cases (p.acknowledgment_status == "CONFIRMED")) [
  | inl confirmed ↦
      let e = (eq_iff p.acknowledgment_status "CONFIRMED").0 confirmed in
      let settled : (p.acknowledgment_status == "UNCONFIRMED") ≡ false =
        subst (λ s. (s == "UNCONFIRMED") ≡ false) (sym e) refl in
      rw (confirmed, settled) (omega (arith, split_cases nodes))
  | inr open_ ↦ rw open_ (ground (arith, split_cases nodes))
]

sort-IsCounted :
    (nodes : List Position) (rows : List GraphRow)
    → All (IsCounted nodes) rows
    → All (IsCounted (sort_by nearer nodes)) rows
sort-IsCounted nodes [] h = tt
sort-IsCounted nodes (r ∷ rows) (here, rest) = (
  (
    sum_by-sort_by nearer (λ p. if p.node_id == r.node.node_id then 1 else 0) nodes ∙ here.0,
    sum_by-sort_by nearer (λ p. if p.node_id == r.node.node_id then p.on_hand_cases else 0) nodes
        ∙ here.1,
  ),
  sort-IsCounted nodes rows rest,
)

abbrev IsOnce : List GraphRow → CustodyGraph → Type 0
IsOnce rows g =
    ((k : String) → entries k g.current_positions ≤ 1)
    × All (IsCounted g.current_positions) rows
    × (g.confirmed_cases + g.unconfirmed_cases ≤ g.unique_current_cases)

summarize-IsOnce :
    (rows : List GraphRow) (nodes : List Position)
    → ((k : String) → entries k nodes ≤ 1)
    → All (IsCounted nodes) rows
    → IsOnce rows (summarize rows nodes)
unfolding summarize cases_with
summarize-IsOnce rows nodes once counted = (
  λ k. omega (arith, sum_by-sort_by nearer (λ p. if p.node_id == k then 1 else 0) nodes, once k),
  sort-IsCounted nodes rows counted,
  split_cases (sort_by nearer nodes),
)

-- A graph that is accepted has no node twice; every row's node is one position, with the cases
-- that the row gives, however many paths reach it; and what is confirmed and what is unconfirmed
-- together are at most the cases that are counted.
pub run_managed_custody_graph-once :
    (rows : List GraphRow) (g : CustodyGraph)
    → run_managed_custody_graph rows ≡ ok g
    → ((k : String) → entries k g.current_positions ≤ 1)
      × All (IsCounted g.current_positions) rows
      × (g.confirmed_cases + g.unconfirmed_cases ≤ g.unique_current_cases)
unfolding run_managed_custody_graph IsKept
run_managed_custody_graph-once [] g h = err-ok h
run_managed_custody_graph-once (row ∷ rows) g h =
    let root = record row.source { path_depth = 0 } in
    let (nodes, e, h1) = >>=-ok (add_rows root (root ∷ []) (row ∷ rows)) _ h in
    let (kept, counted) =
      add_rows-IsCounted root (root ∷ []) nodes (row ∷ rows) e (λ k. ground arith) in
    subst (IsOnce (row ∷ rows)) (ok-injective h1)
      (summarize-IsOnce (row ∷ rows) nodes (λ k. (kept k).1) counted)
