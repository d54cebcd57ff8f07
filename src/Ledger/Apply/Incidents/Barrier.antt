-- ===== src/Ledger/Apply/Incidents/Barrier.antt =====
-- A movement barrier takes its lot out of what ALLOCATE_SAFE_STOCK may use.
use full_shelf.Prelude.{
  ℕ, String, true, false, ◌&&◌, ◌≡◌, refl, sym, ap, inl, inr, List, [], ◌∷◌, ◌==◌, nat_eq, any,
  first, select, update_where, count_where, Bool-cases, eq_iff, not-both,
}
use full_shelf.Prelude.Errors.{ok, err, Error, >>=-ok, ok-injective, guard_passed, Result-cases}
use full_shelf.Ledger.Rows.{LotRow}
use full_shelf.Ledger.Database.{Database}
use full_shelf.Ledger.Commit.{Transaction}
use full_shelf.Ledger.Payloads.{
  ActivateMovementBarrierPayload, AllocateSafeStockPayload, RecoveryAllocationPayload,
}
use full_shelf.Ledger.Commands.{LedgerCommand, Environment}
use full_shelf.Ledger.Queries.{incident_exists}
use full_shelf.Ledger.Apply.Incidents.{is_lot, recall_lot, apply_barrier}
use full_shelf.Ledger.Apply.Recovery.{find_lot, is_safe_lot, check_lots, apply_allocate}

recalled-first :
    (tenant_id lot_id : String) (lots : List LotRow)
    → is_safe_lot (
        first (
          select
            (λ (l : LotRow). l.tenant_id == tenant_id && l.lot_id == lot_id)
            (update_where
              (is_lot tenant_id lot_id)
              (λ (l : LotRow). record l { hazard_status = "RECALLED" })
              lots)))
      ≡ false
recalled-first tenant_id lot_id [] = refl
recalled-first tenant_id lot_id (l ∷ lots) = elim (Bool-cases (is_lot tenant_id lot_id l)) [
  | inl hit ↦ rw (hit, hit) refl
  | inr miss ↦ rw (miss, miss) (recalled-first tenant_id lot_id lots)
]

recall-unsafe :
    (tenant_id lot_id : String) (db : Database)
    → is_safe_lot (find_lot (recall_lot tenant_id lot_id db) tenant_id lot_id) ≡ false
unfolding find_lot recall_lot
recall-unsafe tenant_id lot_id db = recalled-first tenant_id lot_id db.lots

-- The lots that were let through are safe.
check_lots-safe :
    (db : Database) (tenant_id lot_id : String) (allocations : List RecoveryAllocationPayload)
    {u : Unit {0}}
    → check_lots db tenant_id allocations ≡ ok u
    → any (λ (a : RecoveryAllocationPayload). a.lot_id == lot_id) allocations ≡ true
    → is_safe_lot (find_lot db tenant_id lot_id) ≡ true
unfolding check_lots
check_lots-safe db tenant_id lot_id [] h k = cc
check_lots-safe db tenant_id lot_id (a ∷ allocations) h k =
    let (safe, rest) = guard_passed (is_safe_lot (find_lot db tenant_id a.lot_id)) _ _ h in
    elim (Bool-cases (a.lot_id == lot_id)) [
      | inl same ↦ rw (sym ((eq_iff a.lot_id lot_id).0 same)) safe
      | inr other ↦ check_lots-safe db tenant_id lot_id allocations rest (rw other at k)
    ]

pub apply_allocate-safe :
    (c : LedgerCommand) (q : AllocateSafeStockPayload) (t t' : Transaction) (n : ℕ)
    (lot_id : String)
    → apply_allocate c q t ≡ ok (n, t')
    → any (λ (a : RecoveryAllocationPayload). a.lot_id == lot_id) q.allocations ≡ true
    → is_safe_lot (find_lot t.db c.tenant_id lot_id) ≡ true
unfolding apply_allocate
apply_allocate-safe c q t t' n lot_id h k =
    let (scope, h1) = guard_passed (q.incident_id == c.incident_id) _ _ h in
    let (there, h2) = guard_passed (incident_exists t.db c.tenant_id q.incident_id) _ _ h1 in
    let (u, e, f) = >>=-ok (check_lots t.db c.tenant_id q.allocations) _ h2 in
    check_lots-safe t.db c.tenant_id lot_id q.allocations e k

find_lot-lots :
    (db db' : Database) (tenant_id lot_id : String)
    → db.lots ≡ db'.lots
    → find_lot db tenant_id lot_id ≡ find_lot db' tenant_id lot_id
unfolding find_lot
find_lot-lots db db' tenant_id lot_id h = rw h refl

module _ (x : Environment) where
  -- Once a movement barrier on a lot is activated, an allocation of safe stock by the same tenant
  -- that names this lot raises an error, for as long as the lots stay as the barrier left them.
  pub apply_allocate-barrier :
      (c : LedgerCommand) (p : ActivateMovementBarrierPayload) (t t' : Transaction) (n : ℕ)
      → apply_barrier x c p t ≡ ok (n, t')
      → (d : LedgerCommand) (q : AllocateSafeStockPayload) (later : Transaction)
      → d.tenant_id ≡ c.tenant_id
      → later.db.lots ≡ t'.db.lots
      → any (λ (a : RecoveryAllocationPayload). a.lot_id == p.lot_id) q.allocations ≡ true
      → (e : Error) × (apply_allocate d q later ≡ err e)
  unfolding apply_barrier
  apply_allocate-barrier c p t t' n h d q later same kept named =
      let (scope, h1) = guard_passed (p.incident_id == c.incident_id) _ _ h in
      let (there, h2) = guard_passed (incident_exists t.db c.tenant_id p.incident_id) _ _ h1 in
      let (one, h3) =
        guard_passed (nat_eq (count_where (is_lot c.tenant_id p.lot_id) t.db.lots) 1) _ _ h2 in
      let db = ap (λ q. q.1.db) (ok-injective h3) in
      elim (Result-cases (apply_allocate d q later)) [
        | inl ((m, u), e) ↦
            let safe = apply_allocate-safe d q later u m p.lot_id e named in
            let lots = find_lot-lots later.db t'.db d.tenant_id p.lot_id kept in
            let unsafe = recall-unsafe c.tenant_id p.lot_id t.db in
            not-both (is_safe_lot (find_lot t'.db c.tenant_id p.lot_id)) (rw (lots, same) at safe)
              (rw db at unsafe)
        | inr failed ↦ failed
      ]
