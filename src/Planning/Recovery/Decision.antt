-- ===== src/Planning/Recovery/Decision.antt =====
-- When a partial recovery is derived, and what it gives out.
use full_shelf.Prelude.{◌+◌, ◌≤◌, ◌<◌, ◌≡◌, ◌↔◌, refl, subst, String, ◌||◌, List, [], ◌∷◌, arith}
use full_shelf.Prelude.Errors.{ok, ok-injective, raise_if_passed}
use full_shelf.Ledger.Commands.{Environment}
use full_shelf.Planning.Recovery.{
  SafeLot, AffectedOrder, DerivedAllocation, DerivedShortfall, recover_orders, derive_safe_recovery,
  is_empty,
}
use full_shelf.Planning.Recovery.Conservation.{
  lot_stock, allocated, short, demanded, stock_of, allocated_from, accepts, refuses,
  recover_orders-sums, recover_orders-stock_of,
}

lot_within : (k : String) (lots : List SafeLot) → stock_of k lots ≤ lot_stock lots
lot_within k [] = omega arith
lot_within k (l ∷ lots) = ground (arith, lot_within k lots)

module _ (x : Environment) (incident_id : String) (lots : List SafeLot)
    (orders : List AffectedOrder) where
  -- What a derived recovery amounts to.
  abbrev IsRecovery : List DerivedAllocation × List DerivedShortfall → Type 0
  IsRecovery (allocations, shortfalls) =
      (allocated allocations ≡ lot_stock lots)
      × (allocated allocations + short shortfalls ≡ demanded orders)
      × ((k : String) → allocated_from k allocations ≡ stock_of k lots)

  -- A recovery that is derived gives out the whole safe stock, of each lot exactly what it holds, and
  -- with the shortfalls it adds up to what the affected orders ask for.
  pub derive_safe_recovery-ok :
      (allocations : List DerivedAllocation) (shortfalls : List DerivedShortfall)
      → derive_safe_recovery x incident_id lots orders ≡ ok (allocations, shortfalls)
      → (allocated allocations ≡ lot_stock lots)
        × (allocated allocations + short shortfalls ≡ demanded orders)
        × ((k : String) → allocated_from k allocations ≡ stock_of k lots)
  unfolding derive_safe_recovery
  derive_safe_recovery-ok allocations shortfalls h =
      let r = recover_orders x incident_id orders lots in
      let (passed, e) = raise_if_passed (is_empty r.allocations || is_empty r.shortfalls) _ _ h in
      let spent = (accepts x incident_id orders lots passed).2 in
      let sums = recover_orders-sums x incident_id orders lots in
      subst IsRecovery (ok-injective e) (
        omega (arith, sums.1, spent),
        sums.0,
        λ k. omega (
          arith,
          recover_orders-stock_of x incident_id k orders lots,
          lot_within k r.remaining,
          spent,
        ),
      )

  -- It is derived exactly when there is safe stock and it does not suffice; the incident itself does
  -- not matter.
  pub derive_safe_recovery_iff :
      ((r : List DerivedAllocation × List DerivedShortfall) × (derive_safe_recovery x incident_id
            lots orders
          ≡ ok r))
      ↔ ((0 < lot_stock lots) × (lot_stock lots < demanded orders))
  unfolding derive_safe_recovery
  derive_safe_recovery_iff =
      let r = recover_orders x incident_id orders lots in
      (
        (λ (_, h).
            let (passed, e) =
              raise_if_passed (is_empty r.allocations || is_empty r.shortfalls) _ _ h in
            let a = accepts x incident_id orders lots passed in (a.0, a.1)),
        (λ (some_, less). (
          (r.allocations, r.shortfalls),
          rw (refuses x incident_id orders lots some_ less) refl,
        )),
      )
