-- ===== src/Planning/Recovery/Conservation.antt =====
-- No case is invented or lost between the safe lots, the allocations and the shortfalls.
use full_shelf.Prelude.{
  ℕ, ◌+◌, ◌-◌, ◌≡◌, refl, String, false, ◌&&◌, ◌||◌, ◌⊎◌, inl, inr, List, [], ◌∷◌, ◌++◌, ◌==◌,
  sum_by, sum_by-append, arith, if◌then◌else◌, nat_eq, ◌<◌,
}
use full_shelf.Ledger.Commands.{Environment}
use full_shelf.Planning.Recovery.{
  SafeLot, AffectedOrder, DerivedAllocation, DerivedShortfall, least, draw_lots, short_of,
  recover_orders, is_empty,
}

-- Cases in all, and cases of one lot.
abbrev pub lot_stock : List SafeLot → ℕ
lot_stock = sum_by (λ l. l.cases)

abbrev pub allocated : List DerivedAllocation → ℕ
allocated = sum_by (λ a. a.cases)

abbrev pub short : List DerivedShortfall → ℕ
short = sum_by (λ s. s.cases)

abbrev pub demanded : List AffectedOrder → ℕ
demanded = sum_by (λ o. o.cases)

abbrev pub stock_of : String → List SafeLot → ℕ
stock_of k = sum_by (λ l. if l.lot_id == k then l.cases else 0)

abbrev pub allocated_from : String → List DerivedAllocation → ℕ
allocated_from k = sum_by (λ a. if a.lot_id == k then a.cases else 0)

zero_sum : (m n : ℕ) → (nat_eq m 0 && nat_eq n 0) ≡ nat_eq (m + n) 0
zero_sum m n = ground arith

is_empty-append {ℓ} :
    {A : Type ℓ} (xs ys : List A) → is_empty (xs ++ ys) ≡ (is_empty xs && is_empty ys)
is_empty-append [] ys = refl
is_empty-append (x ∷ xs) ys = refl

module _ (x : Environment) (incident_id : String) where
  -- One order: what it draws and lacks is what it asks for, and what it draws is what the lots lose.
  draw_lots-sums :
      (o : AffectedOrder) (unmet : ℕ) (lots : List SafeLot)
      → let d = draw_lots x incident_id o unmet lots in
        (allocated d.taken + d.unmet ≡ unmet)
        × (allocated d.taken + lot_stock d.left ≡ lot_stock lots)
        × ((d.unmet ≡ 0) ⊎ (lot_stock d.left ≡ 0))
  unfolding draw_lots least
  draw_lots-sums o unmet [] = ground arith
  draw_lots-sums o unmet (l ∷ lots) =
      ground (arith, draw_lots-sums o (unmet - least unmet l.cases) lots)

  draw_lots-stock_of :
      (k : String) (o : AffectedOrder) (unmet : ℕ) (lots : List SafeLot)
      → let d = draw_lots x incident_id o unmet lots in
        allocated_from k d.taken + stock_of k d.left ≡ stock_of k lots
  unfolding draw_lots least
  draw_lots-stock_of k o unmet [] = refl
  draw_lots-stock_of k o unmet (l ∷ lots) =
      ground (arith, draw_lots-stock_of k o (unmet - least unmet l.cases) lots)

  -- Nothing is allocated exactly when the allocations are none.
  draw_lots-is_empty :
      (o : AffectedOrder) (unmet : ℕ) (lots : List SafeLot)
      → let d = draw_lots x incident_id o unmet lots in
        is_empty d.taken ≡ nat_eq (allocated d.taken) 0
  unfolding draw_lots least
  draw_lots-is_empty o unmet [] = refl
  draw_lots-is_empty o unmet (l ∷ lots) =
      ground (arith, draw_lots-is_empty o (unmet - least unmet l.cases) lots)

  short_of-short : (o : AffectedOrder) (unmet : ℕ) → short (short_of x incident_id o unmet) ≡ unmet
  unfolding short_of
  short_of-short o unmet = ground arith

  short_of-is_empty :
      (o : AffectedOrder) (unmet : ℕ) → is_empty (short_of x incident_id o unmet) ≡ nat_eq unmet 0
  unfolding short_of
  short_of-is_empty o unmet = ground arith

  pub recover_orders-sums :
      (orders : List AffectedOrder) (lots : List SafeLot)
      → let r = recover_orders x incident_id orders lots in
        (allocated r.allocations + short r.shortfalls ≡ demanded orders)
        × (allocated r.allocations + lot_stock r.remaining ≡ lot_stock lots)
        × ((short r.shortfalls ≡ 0) ⊎ (lot_stock r.remaining ≡ 0))
  unfolding recover_orders
  recover_orders-sums [] lots = ground arith
  recover_orders-sums (o ∷ orders) lots =
      let d = draw_lots x incident_id o o.cases lots in
      let r = recover_orders x incident_id orders d.left in
      let here = draw_lots-sums o o.cases lots in
      let rest = recover_orders-sums orders d.left in
      let a = sum_by-append (λ a. a.cases) d.taken r.allocations in
      let s = sum_by-append (λ s. s.cases) (short_of x incident_id o d.unmet) r.shortfalls in
      let u = short_of-short o d.unmet in
      (
        omega (arith, a, s, u, here.0, rest.0),
        omega (arith, a, here.1, rest.1),
        elim (rest.2) [
          | inr spent ↦ inr spent
          | inl whole ↦ elim (here.2) [
            | inl met ↦ inl (omega (arith, s, u))
            | inr spent ↦ inr (omega (arith, rest.1))
          ]
        ],
      )

  pub recover_orders-stock_of :
      (k : String) (orders : List AffectedOrder) (lots : List SafeLot)
      → let r = recover_orders x incident_id orders lots in
        allocated_from k r.allocations + stock_of k r.remaining ≡ stock_of k lots
  unfolding recover_orders
  recover_orders-stock_of k [] lots = omega arith
  recover_orders-stock_of k (o ∷ orders) lots =
      let d = draw_lots x incident_id o o.cases lots in
      let r = recover_orders x incident_id orders d.left in
      omega (
        arith,
        draw_lots-stock_of k o o.cases lots,
        recover_orders-stock_of k orders d.left,
        sum_by-append (λ a. if a.lot_id == k then a.cases else 0) d.taken r.allocations,
      )

  recover_orders-is_empty :
      (orders : List AffectedOrder) (lots : List SafeLot)
      → let r = recover_orders x incident_id orders lots in
        (is_empty r.allocations ≡ nat_eq (allocated r.allocations) 0)
        × (is_empty r.shortfalls ≡ nat_eq (short r.shortfalls) 0)
  unfolding recover_orders
  recover_orders-is_empty [] lots = (refl, refl)
  recover_orders-is_empty (o ∷ orders) lots =
      let d = draw_lots x incident_id o o.cases lots in
      let r = recover_orders x incident_id orders d.left in
      let rest = recover_orders-is_empty orders d.left in
      (
        rw
            (
              is_empty-append d.taken r.allocations,
              draw_lots-is_empty o o.cases lots,
              rest.0,
              sum_by-append (λ a. a.cases) d.taken r.allocations,
            )
            (zero_sum (allocated d.taken) (allocated r.allocations)),
        rw
            (
              is_empty-append (short_of x incident_id o d.unmet) r.shortfalls,
              short_of-is_empty o d.unmet,
              rest.1,
              sum_by-append (λ s. s.cases) (short_of x incident_id o d.unmet) r.shortfalls,
              short_of-short o d.unmet,
            )
            (zero_sum d.unmet (short r.shortfalls)),
      )

  -- Success: stock goes out and does not suffice.
  pub accepts :
      (orders : List AffectedOrder) (lots : List SafeLot)
      → let r = recover_orders x incident_id orders lots in
        (is_empty r.allocations || is_empty r.shortfalls) ≡ false
        → (0 < lot_stock lots) × (lot_stock lots < demanded orders) × (lot_stock r.remaining ≡ 0)
  accepts orders lots e =
      let r = recover_orders x incident_id orders lots in
      let sums = recover_orders-sums orders lots in
      let empties = recover_orders-is_empty orders lots in ground (arith, sums, empties)

  pub refuses :
      (orders : List AffectedOrder) (lots : List SafeLot)
      → 0 < lot_stock lots
      → lot_stock lots < demanded orders
      → let r = recover_orders x incident_id orders lots in
        (is_empty r.allocations || is_empty r.shortfalls) ≡ false
  refuses orders lots some_ less =
      let sums = recover_orders-sums orders lots in
      let empties = recover_orders-is_empty orders lots in ground (arith, sums, empties)
