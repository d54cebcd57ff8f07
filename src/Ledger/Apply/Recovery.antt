-- ===== src/Ledger/Apply/Recovery.antt =====
-- ledger_executor.py, `_apply`: ALLOCATE_SAFE_STOCK.
use full_shelf.Prelude.{
  ℕ, String, Bool, false, ◌&&◌, ◌||◌, Option, none, some, List, [], ◌∷◌, map, ◌==◌, first, select,
}
use full_shelf.Prelude.Errors.{Result, ok, value_error, ◌>>◌, guard}
use full_shelf.Ledger.Rows.{LotRow, RecoveryAllocationRow, RecoveryShortfallRow}
use full_shelf.Ledger.Database.{Database, insert_recovery_allocations, insert_recovery_shortfalls}
use full_shelf.Ledger.Commit.{Transaction, buffered}
use full_shelf.Ledger.Payloads.{
  AllocateSafeStockPayload, RecoveryAllocationPayload, RecoveryShortfallPayload,
}
use full_shelf.Ledger.Commands.{LedgerCommand}
use full_shelf.Ledger.Queries.{incident_exists}

-- The lot that `SELECT hazard_status FROM Lots WHERE …` finds.
unfoldable pub find_lot : Database → String → String → Option LotRow
find_lot db tenant_id lot_id =
    first (select (λ (l : LotRow). l.tenant_id == tenant_id && l.lot_id == lot_id) db.lots)

-- `hazard_status in {"SAFE", "CLEAR_SAFE"}`
abbrev pub is_safe_lot : Option LotRow → Bool
is_safe_lot none = false
is_safe_lot (some l) = l.hazard_status == "SAFE" || l.hazard_status == "CLEAR_SAFE"

-- The loop over the lots of the allocations. The source goes through them once each, in order of
-- their names; every failure is the same error.
unfoldable pub check_lots : Database → String → List RecoveryAllocationPayload → Result (Unit {0})
check_lots db tenant_id [] = ok tt
check_lots db tenant_id (a ∷ allocations) = do
  guard (is_safe_lot (find_lot db tenant_id a.lot_id))
      (value_error "REPLACEMENT_LOT_NOT_CONFIRMED_SAFE")
  check_lots db tenant_id allocations

abbrev pub allocation_row : String → String → RecoveryAllocationPayload → RecoveryAllocationRow
allocation_row tenant_id incident_id a = record {
  tenant_id = tenant_id;
  allocation_id = a.allocation_id;
  incident_id = incident_id;
  agency_id = a.agency_id;
  lot_id = a.lot_id;
  cases = a.cases;
  status = "ALLOCATED";
}

abbrev pub shortfall_row : String → String → RecoveryShortfallPayload → RecoveryShortfallRow
shortfall_row tenant_id incident_id s = record {
  tenant_id = tenant_id;
  shortfall_id = s.shortfall_id;
  incident_id = incident_id;
  agency_id = s.agency_id;
  cases = s.cases;
  status = "OPEN";
}

unfoldable pub apply_allocate :
    LedgerCommand → AllocateSafeStockPayload → Transaction → Result (ℕ × Transaction)
apply_allocate c p t = do
  guard (p.incident_id == c.incident_id) (value_error "INCIDENT_SCOPE_MISMATCH")
  guard (incident_exists t.db c.tenant_id p.incident_id) (value_error "INCIDENT_NOT_FOUND")
  check_lots t.db c.tenant_id p.allocations
  ok (
    2,
    buffered
        (insert_recovery_shortfalls (map (shortfall_row c.tenant_id p.incident_id) p.shortfalls))
        (buffered
          (insert_recovery_allocations
            (map (allocation_row c.tenant_id p.incident_id) p.allocations))
          t),
  )
