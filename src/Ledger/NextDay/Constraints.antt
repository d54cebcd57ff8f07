-- ===== src/Ledger/NextDay/Constraints.antt =====
-- ledger_executor.py: the constraints of a next-day draft, as `_apply` writes them and as
-- `_next_day_draft_matches_authority` expects to find them.
use full_shelf.Prelude.{
  ℕ, suc, ◌+◌, String, Bool, true, false, ◌&&◌, Option, none, some, List, [], ◌∷◌, ◌++◌, map, ◌==◌,
  leb, nat_eq, length, option_eq, first, select, if◌then◌else◌,
}
use full_shelf.Ledger.Json.{num, text, obj, end, field}
use full_shelf.Ledger.Rows.{PlanConstraintRow, CoordinatorRow, ReceiptRow}
use full_shelf.Ledger.Database.{Database}
use full_shelf.Ledger.Payloads.{
  NextDayBarrierPayload, NextDayShortfallPayload, NextDayAcknowledgmentHoldPayload,
  NextDayUnassignedDemandPayload, CreateNextDayDraftPayload,
}
use full_shelf.Ledger.Commands.{LedgerCommand, Environment}
use full_shelf.Ledger.Queries.{plan_status}

-- `(constraint_type, subject_id, details, priority)`
pub record Constraint : Type 0 where
  pub constraint_type : String
  pub subject_id : String
  pub details : String
  pub priority : ℕ

-- `priority` counts up from its first value.
unfoldable pub numbered : ℕ → List (String × String × String) → List Constraint
numbered n [] = []
numbered n ((kind, subject, details) ∷ rest) =
    record { constraint_type = kind; subject_id = subject; details = details; priority = n }
    ∷ numbered (suc n) rest

unfoldable pub row_of : LedgerCommand → CreateNextDayDraftPayload → Constraint → PlanConstraintRow
row_of c p k = record {
  tenant_id = c.tenant_id;
  plan_id = p.plan_id;
  revision = p.revision;
  constraint_type = k.constraint_type;
  subject_id = k.subject_id;
  details = k.details;
  priority = k.priority;
}

unfoldable pub constraint_of : PlanConstraintRow → Constraint
constraint_of r = record {
  constraint_type = r.constraint_type;
  subject_id = r.subject_id;
  details = r.details;
  priority = r.priority;
}

unfoldable pub constraint_eq : Constraint → Constraint → Bool
constraint_eq a b =
    a.constraint_type == b.constraint_type
    && (a.subject_id == b.subject_id && (a.details == b.details && nat_eq a.priority b.priority))

unfoldable pub constraints_eq : List Constraint → List Constraint → Bool
constraints_eq [] [] = true
constraints_eq [] (b ∷ bs) = false
constraints_eq (a ∷ as') [] = false
constraints_eq (a ∷ as') (b ∷ bs) = constraint_eq a b && constraints_eq as' bs

-- `ORDER BY priority`
unfoldable pub insert_sorted : Constraint → List Constraint → List Constraint
insert_sorted a [] = a ∷ []
insert_sorted a (b ∷ bs) = if leb a.priority b.priority then a ∷ b ∷ bs else b ∷ insert_sorted a bs

unfoldable pub sort_by_priority : List Constraint → List Constraint
sort_by_priority [] = []
sort_by_priority (a ∷ as') = insert_sorted a (sort_by_priority as')

module _ (x : Environment) where
  barrier_constraint : NextDayBarrierPayload → String × String × String
  barrier_constraint b = (
    "LOT_MOVEMENT_BARRIER",
    b.lot_id,
    x.dumps (obj (field "barrier_id" (text b.barrier_id) (field "status" (text "ACTIVE") end))),
  )

  shortfall_constraint : NextDayShortfallPayload → String × String × String
  shortfall_constraint s = (
    "RECOVERY_PRIORITY",
    s.agency_id,
    x.dumps (
        obj (
          field "cases" (num s.cases)
            (field "shortfall_id" (text s.shortfall_id) (field "status" (text "OPEN") end)))),
  )

  hold_constraint : NextDayAcknowledgmentHoldPayload → String × String × String
  hold_constraint h = (
    "ACKNOWLEDGMENT_HOLD",
    h.site_id,
    x.dumps (
        obj (
          field "hold_incident_id" (text h.hold_incident_id) (
            field "status" (text "ACKNOWLEDGMENT_HOLD_ACTIVE")
              (field "unconfirmed_cases" (num h.unconfirmed_cases) end)))),
  )

  -- The three loops, with `priority` from 1.
  unfoldable pub expected_constraints : CreateNextDayDraftPayload → List Constraint
  unfolding barrier_constraint shortfall_constraint hold_constraint
  expected_constraints p = numbered 1 (
      map barrier_constraint p.barriers
      ++ (map shortfall_constraint p.shortfalls ++ map hold_constraint p.acknowledgment_holds))

  demand_constraint : NextDayUnassignedDemandPayload → String × String × String
  demand_constraint d = (
    "UNASSIGNED_DEMAND",
    d.agency_id,
    x.dumps (
        obj (
          field "agency_id" (text d.agency_id) (
            field "cases" (num d.cases)
              (field "reason" (text d.reason) (field "shortfall_id" (text d.shortfall_id) end))))),
  )

  -- `unassigned_rows`, whose priorities follow those of the constraints.
  unfoldable pub unassigned_constraints : CreateNextDayDraftPayload → List Constraint
  unfolding demand_constraint
  unassigned_constraints p =
      numbered (length (expected_constraints p) + 1) (map demand_constraint p.unassigned_demand)

  -- `SELECT … FROM PlanConstraints WHERE … ORDER BY priority`
  unfoldable pub actual_constraints :
      Database → LedgerCommand → CreateNextDayDraftPayload → List Constraint
  actual_constraints db c p = sort_by_priority (
      map constraint_of (
        select
          (λ (r : PlanConstraintRow).
            r.tenant_id == c.tenant_id && (r.plan_id == p.plan_id && r.revision == p.revision))
          db.plan_constraints))

  -- `coordinator is not None and tuple(coordinator) == (…)`
  abbrev pub awaits_approval : CreateNextDayDraftPayload → Option CoordinatorRow → Bool
  awaits_approval p none = false
  awaits_approval p (some r) =
      r.state == "DRAFT_WITH_CONSTRAINTS"
      && (r.checkpoint == "HUMAN_APPROVAL_REQUIRED" && r.active_plan_revision == p.revision)

  -- `_next_day_draft_matches_authority`
  unfoldable pub draft_matches_authority :
      Database → LedgerCommand → CreateNextDayDraftPayload → ReceiptRow → Bool
  draft_matches_authority db c p r =
      (r.action_type == "CREATE_NEXT_DAY_DRAFT"
        && (r.status == "SUCCESS" && r.plan_revision_id == p.revision))
      && (option_eq (plan_status db c.tenant_id p.plan_id p.revision) (some p.status)
          && (constraints_eq (actual_constraints db c p) (expected_constraints p)
              && awaits_approval p (
                  first (
                    select
                      (λ (k : CoordinatorRow).
                        k.tenant_id == c.tenant_id && k.coordinator_id == p.coordinator_id)
                      db.coordinators))))
