-- ===== src/Ledger/Apply/Repair/Actives.antt =====
-- How many plan revisions of a tenant are ACTIVE: before and after an activation or invalidation.
use full_shelf.Prelude.{
  count-update, ℕ, ◌+◌, String, Bool, true, false, ◌≡◌, refl, sym, ap, none, some, List, [], ◌∷◌,
  map, ◌==◌, arith, nat_eq, nat_eq→eq, count_where, first, select, eq_refl, option_eq,
}
use full_shelf.Prelude.Errors.{ok, >>=-ok, ok-injective, guard_passed}
use full_shelf.Ledger.Rows.{OrderRow, PlanRevisionRow}
use full_shelf.Ledger.Database.{Database, insert_orders, insert_plan_revisions, insert_rows}
use full_shelf.Ledger.Commit.{Transaction, commit, apply_all, apply_mutation}
use full_shelf.Ledger.Payloads.{ActivateApprovedRepairPlanPayload, InvalidatePlanPayload}
use full_shelf.Ledger.Commands.{LedgerCommand, Environment}
use full_shelf.Ledger.Queries.{is_active_of, active_revision}
use full_shelf.Ledger.Apply.Repair.{
  is_active_plan, set_status, check_activation, proposed_row, proposed_order, apply_activate,
  apply_invalidate,
}

unfoldable pub active_count : Database → String → ℕ
active_count db tenant_id = count_where (is_active_of tenant_id) db.plan_revisions

retired :
    (tenant_id plan_id revision status : String)
    → (status == "ACTIVE") ≡ false
    → (r : PlanRevisionRow) → is_active_plan tenant_id plan_id revision r ≡ true
    → (is_active_of tenant_id r ≡ true)
      × (is_active_of tenant_id (record r { status = status }) ≡ false)
retired tenant_id plan_id revision status h r k = ground arith

set_status-count :
    (tenant_id plan_id revision status : String) (db : Database)
    → (status == "ACTIVE") ≡ false
    → nat_eq (count_where (is_active_plan tenant_id plan_id revision) db.plan_revisions) 1 ≡ true
    → 1
        + (active_count
            (set_status status (is_active_plan tenant_id plan_id revision) db)
            tenant_id)
      ≡ active_count db tenant_id
unfolding set_status active_count
set_status-count tenant_id plan_id revision status db h k =
    let e =
      count-update (is_active_of tenant_id) (is_active_plan tenant_id plan_id revision)
        (λ (r : PlanRevisionRow). record r { status = status })
        (retired tenant_id plan_id revision status h) db.plan_revisions in
    let f = nat_eq→eq _ _ k in omega arith

first-none {ℓ} :
    {A : Type ℓ} (p : A → Bool) (xs : List A) → count_where p xs ≡ 0 → first (select p xs) ≡ none
first-none p [] h = refl
first-none p (a ∷ xs) h = ground (arith, first-none p xs)

no-actives :
    (tenant_id : String) (db : Database)
    → active_count db tenant_id ≡ 0
    → active_revision db tenant_id ≡ none
unfolding active_count active_revision
no-actives tenant_id db h = rw (first-none (is_active_of tenant_id) db.plan_revisions h) refl

-- An invalidation that succeeds makes one ACTIVE revision of the tenant fewer; where there was
-- one, the tenant has no active revision any more.
pub apply_invalidate-actives :
    (c : LedgerCommand) (p : InvalidatePlanPayload) (t t' : Transaction) (n : ℕ)
    → apply_invalidate c p t ≡ ok (n, t')
    → (1 + (active_count t'.db c.tenant_id) ≡ active_count t.db c.tenant_id)
      × (active_count t.db c.tenant_id ≡ 1 → active_revision t'.db c.tenant_id ≡ none)
unfolding apply_invalidate
apply_invalidate-actives c p t t' n h =
    let is_target = is_active_plan c.tenant_id p.plan_id p.revision in
    let (named, g) = guard_passed (option_eq c.expected_plan_revision (some p.revision)) _ _ h in
    let (one, i) = guard_passed (nat_eq (count_where is_target t.db.plan_revisions) 1) _ _ g in
    let e = set_status-count c.tenant_id p.plan_id p.revision "INVALIDATED_RECALL" t.db refl one in
    let d = ap (λ q. q.1.db) (ok-injective i) in
    let less : 1 + (active_count t'.db c.tenant_id) ≡ active_count t.db c.tenant_id =
      rw (sym d) e in
    (less, λ single. no-actives c.tenant_id t'.db (omega arith))

module _ (x : Environment) where
  -- The commit of an activation writes the proposed revision and the orders.
  commit-activation :
      (r : PlanRevisionRow) (orders : List OrderRow) (db db' : Database)
      → commit
          (record { db = db; buffer = insert_plan_revisions (r ∷ []) ∷ insert_orders orders ∷ [] })
        ≡ ok db'
      → db'.plan_revisions ≡ r ∷ db.plan_revisions
  unfolding commit apply_all apply_mutation insert_rows
  commit-activation r orders db db' h = ground arith

  -- An activation that commits leaves as many ACTIVE revisions of the tenant as there were, and
  -- the proposed revision is the one that `_active_revision` now finds.
  pub apply_activate-actives :
      (c : LedgerCommand) (p : ActivateApprovedRepairPlanPayload) (db db' : Database)
      (t' : Transaction) (n : ℕ)
      → apply_activate x c p (record { db = db; buffer = [] }) ≡ ok (n, t')
      → commit t' ≡ ok db'
      → (active_count db' c.tenant_id ≡ active_count db c.tenant_id)
        × (active_revision db' c.tenant_id ≡ some p.proposed_revision)
  unfolding apply_activate active_revision active_count
  apply_activate-actives c p db db' t' n h k =
      let (checked, e, f) = >>=-ok (check_activation x c p db) _ h in
      let is_source = is_active_plan c.tenant_id p.plan_id p.source_revision in
      let (one, g) = guard_passed (nat_eq (count_where is_source db.plan_revisions) 1) _ _ f in
      let i = sym (ap (λ q. q.1) (ok-injective g)) in
      let mid = set_status "SUPERSEDED" is_source db in
      let less =
        set_status-count c.tenant_id p.plan_id p.source_revision "SUPERSEDED" db refl one in
      let rows =
        commit-activation (proposed_row x c p) (map (proposed_order x c p) checked.1) mid db'
          (rw i at k) in
      rw (rows, eq_refl c.tenant_id) (less, refl)
