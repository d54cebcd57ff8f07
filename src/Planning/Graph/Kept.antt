-- ===== src/Planning/Graph/Kept.antt =====
-- What a row of the custody graph changes: it counts a new node once, and leaves the others.
use full_shelf.Prelude.{
  ℕ, ◌≤◌, ◌≡◌, refl, subst, ap, ◌∙◌, String, false, ◌==◌, any, update_where-none, eq_iff, eq_refl,
  Option, none, some, some-injective, List, [], ◌∷◌, ◌++◌, update_where, sum_by, sum_by-append, ltb,
  nat_eq→eq, Bool-cases, inl, inr, arith, if◌then◌else◌,
}
use full_shelf.Planning.Graph.{Position, find_node, put_node, disagrees}

-- How many positions a node has, and the cases that are counted for it.
abbrev pub entries : String → List Position → ℕ
entries k = sum_by (λ p. if p.node_id == k then 1 else 0)

abbrev pub cases_of : String → List Position → ℕ
cases_of k = sum_by (λ p. if p.node_id == k then p.on_hand_cases else 0)

find_node-none :
    (k : String) (nodes : List Position)
    → find_node k nodes ≡ none
    → (entries k nodes ≡ 0) × (cases_of k nodes ≡ 0)
unfolding find_node
find_node-none k [] h = (refl, refl)
find_node-none k (p ∷ nodes) h = ground (arith, find_node-none k nodes)

entries-cases_of : (k : String) (nodes : List Position) → entries k nodes ≡ 0 → cases_of k nodes ≡ 0
entries-cases_of k [] h = refl
entries-cases_of k (p ∷ nodes) h = ground (arith, entries-cases_of k nodes)

entries-any :
    (k : String) (nodes : List Position)
    → entries k nodes ≡ 0
    → any (λ (p : Position). p.node_id == k) nodes ≡ false
entries-any k [] h = refl
entries-any k (p ∷ nodes) h = ground (arith, entries-any k nodes)

find_node-some :
    (k : String) (nodes : List Position) (prior : Position)
    → find_node k nodes ≡ some prior
    → entries k nodes ≤ 1
    → (entries k nodes ≡ 1) × (cases_of k nodes ≡ prior.on_hand_cases)
unfolding find_node
find_node-some k [] prior h once = cc
find_node-some k (p ∷ nodes) prior h once = elim (Bool-cases (p.node_id == k)) [
  | inl hit ↦
      let here : p ≡ prior = some-injective (rw hit at h) in
      let alone : entries k nodes ≡ 0 = ground (arith, once, hit) in
      rw hit (
        omega (arith, alone),
        omega (arith, entries-cases_of k nodes alone, ap (λ q. q.on_hand_cases) here),
      )
  | inr miss ↦
      let rest = find_node-some k nodes prior (rw miss at h) (ground (arith, once)) in
      rw miss (omega (arith, rest.0), omega (arith, rest.1))
]

update_entries :
    (k : String) (node : Position) (nodes : List Position)
    → entries k (update_where (λ p. p.node_id == node.node_id) (λ p. node) nodes) ≡ entries k nodes
update_entries k node [] = refl
update_entries k node (p ∷ nodes) =
    ground (arith, update_entries k node nodes, eq_iff p.node_id node.node_id)

update_cases :
    (k : String) (node prior : Position) (nodes : List Position)
    → find_node node.node_id nodes ≡ some prior
    → entries node.node_id nodes ≤ 1
    → prior.on_hand_cases ≡ node.on_hand_cases
    → cases_of k (update_where (λ p. p.node_id == node.node_id) (λ p. node) nodes)
      ≡ cases_of k nodes
unfolding find_node
update_cases k node prior [] h once agree = cc
update_cases k node prior (p ∷ nodes) h once agree = elim (Bool-cases (p.node_id == node.node_id)) [
  | inl hit ↦
      let here : p ≡ prior = some-injective (rw hit at h) in
      let alone : entries node.node_id nodes ≡ 0 = ground (arith, once, hit) in
      let same_id = (eq_iff p.node_id node.node_id).0 hit in
      let same_cases : p.on_hand_cases ≡ node.on_hand_cases =
        ap (λ q. q.on_hand_cases) here ∙ agree in
      rw
        (
          hit,
          update_where-none (λ p. p.node_id == node.node_id) (λ p. node) nodes
              (entries-any node.node_id nodes alone),
          same_id,
          same_cases,
        )
        refl
  | inr miss ↦
      let rest = update_cases k node prior nodes (rw miss at h) (ground (arith, once)) agree in
      rw miss (omega (arith, rest))
]

-- The nodes so far: none twice, and the cases of each settled.
unfoldable pub IsKept : List Position → List Position → Type 0
IsKept before after =
    (k : String)
    → (entries k before ≤ entries k after)
      × (entries k after ≤ 1)
      × (entries k before ≡ 1 → cases_of k after ≡ cases_of k before)

append_kept :
    (k : String) (node : Position) (nodes : List Position)
    → entries node.node_id nodes ≡ 0
    → entries k nodes ≤ 1
    → (entries k nodes ≤ entries k (nodes ++ (node ∷ [])))
      × (entries k (nodes ++ (node ∷ [])) ≤ 1)
      × (entries k nodes ≡ 1 → cases_of k (nodes ++ (node ∷ [])) ≡ cases_of k nodes)
append_kept k node nodes absent once =
    let e = sum_by-append (λ p. if p.node_id == k then 1 else 0) nodes (node ∷ []) in
    let c = sum_by-append (λ p. if p.node_id == k then p.on_hand_cases else 0) nodes (node ∷ []) in
    elim (Bool-cases (node.node_id == k)) [
      | inl here ↦
          let gone : entries k nodes ≡ 0 =
            subst (λ j. entries j nodes ≡ 0) ((eq_iff node.node_id k).0 here) absent in
          (
            omega (arith, gone),
            rw e (ground (arith, gone, here)),
            λ one. absurd (omega (arith, gone, one)),
          )
      | inr there ↦ (
        omega (arith, e),
        rw e (ground (arith, there, once)),
        λ one. rw c (ground (arith, there)),
      )
    ]

pub put_node-IsKept :
    (node : Position) (nodes : List Position) (o : Option Position)
    → find_node node.node_id nodes ≡ o
    → disagrees node o ≡ false
    → ((k : String) → entries k nodes ≤ 1)
    → IsKept nodes (put_node node o nodes)
      × (entries node.node_id (put_node node o nodes) ≡ 1)
      × (cases_of node.node_id (put_node node o nodes) ≡ node.on_hand_cases)
unfolding put_node disagrees IsKept
put_node-IsKept node nodes none e agree once =
    let absent = find_node-none node.node_id nodes e in
    (
      (λ k. append_kept k node nodes (absent.0) (once k)),
      ground (
        arith,
        sum_by-append (λ p. if p.node_id == node.node_id then 1 else 0) nodes (node ∷ []),
        absent,
        eq_refl node.node_id,
      ),
      ground (
        arith,
        sum_by-append (λ p. if p.node_id == node.node_id then p.on_hand_cases else 0) nodes
            (node ∷ []),
        absent,
        eq_refl node.node_id,
      ),
    )
put_node-IsKept node nodes (some prior) e agree once =
    let same_cases : prior.on_hand_cases ≡ node.on_hand_cases =
      nat_eq→eq _ _ (ground (arith, agree)) in
    let there = find_node-some node.node_id nodes prior e (once node.node_id) in
    elim (Bool-cases (ltb node.path_depth prior.path_depth)) [
      | inr farther ↦
          rw farther ((λ k. (omega arith, once k, λ _. refl)), there.0, there.1 ∙ same_cases)
      | inl nearer_ ↦
          let kept = update_cases node.node_id node prior nodes e (once node.node_id) same_cases in
          rw nearer_ (
            (λ k. (
              omega (arith, update_entries k node nodes),
              omega (arith, update_entries k node nodes, once k),
              λ _. update_cases k node prior nodes e (once node.node_id) same_cases,
            )),
            update_entries node.node_id node nodes ∙ there.0,
            kept ∙ (there.1 ∙ same_cases),
          )
    ]

pub IsKept-trans : (a b c : List Position) → IsKept a b → IsKept b c → IsKept a c
unfolding IsKept
IsKept-trans a b c f g = λ k. (
  omega (arith, (f k).0, (g k).0),
  (g k).1,
  λ one. (g k).2 (omega (arith, one, (f k).0, (f k).1)) ∙ (f k).2 one,
)
