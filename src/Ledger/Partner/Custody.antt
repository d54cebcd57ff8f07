-- ===== src/Ledger/Partner/Custody.antt =====
-- What the decision on partner evidence does to the custody rows and the work items.
use full_shelf.Prelude.{
  ℕ, ◌+◌, String, true, false, ◌≡◌, refl, sym, ◌∙◌, ap, map, ◌&&◌, ◌==◌, [], ◌∷◌, ◌++◌, arith,
  nat_eq, nat_eq→eq, count_where, count-update, map-update, and-true,
}
use full_shelf.Prelude.Errors.{ok, >>=-ok, ok-injective, guard_passed}
use full_shelf.Evidence.{Authority, Verdict, applied, denied, verify_partner_custody_proposal}
use full_shelf.Evidence.Decision.{IsSupported, applied_iff}
use full_shelf.Ledger.Rows.{CustodyNodeRow, PartnerEvidenceRow, WorkItemRow}
use full_shelf.Ledger.Database.{Database, insert_partner_evidence}
use full_shelf.Ledger.Commit.{Transaction}
use full_shelf.Ledger.Payloads.{ProcessPartnerEvidencePayload}
use full_shelf.Ledger.Commands.{LedgerCommand, Environment}
use full_shelf.Ledger.Partner.{
  is_open_item, Found, find_authority, is_confirmable, is_completable, confirm_custody, decide,
  apply_partner_evidence, verdict_text, evidence_row,
}

-- The open confirmations of the incident.
unfoldable pub open_items : LedgerCommand → Database → ℕ
open_items c db =
    count_where
      (λ (r : WorkItemRow).
        r.tenant_id == c.tenant_id
        && (r.incident_id == c.incident_id
            && (r.work_type == "PARTNER_CUSTODY_CONFIRMATION" && r.status == "OPEN")))
      db.work_items

module _ (x : Environment) (c : LedgerCommand) (p : ProcessPartnerEvidencePayload) where
  -- What an applied decision does.
  abbrev pub IsConfirmed : Database → Database → Type 0
  IsConfirmed db db' =
      (1 + open_items c db' ≡ open_items c db)
      × (map (λ (r : CustodyNodeRow). r.on_hand_cases) db'.custody_nodes
          ≡ map (λ (r : CustodyNodeRow). r.on_hand_cases) db.custody_nodes)
      × (db' ≡ record db { custody_nodes = db'.custody_nodes; work_items = db'.work_items })

  completed :
      (i : String) (r : WorkItemRow)
      → is_completable x c p i r ≡ true
      → (is_open_item c r ≡ true) × (is_open_item c (record r { status = "COMPLETED" }) ≡ false)
  completed i r h = ((and-true (is_open_item c r) (r.work_item_id == i) h).0, ground arith)

  confirm_custody-IsConfirmed :
      (a : Authority) (db db' : Database) → confirm_custody x c p a db ≡ ok db' → IsConfirmed db db'
  unfolding confirm_custody open_items
  confirm_custody-IsConfirmed a db db' h =
      let d = a.details in
      let (one, h1) =
        guard_passed (nat_eq (count_where (is_confirmable x c p d) db.custody_nodes) 1) _ _ h in
      let (item, h2) =
        guard_passed (nat_eq (count_where (is_completable x c p a.work_item_id) db.work_items) 1) _
          _ h1 in
      let fewer =
        count-update (is_open_item c) (is_completable x c p a.work_item_id)
          (λ (r : WorkItemRow). record r { status = "COMPLETED" }) (completed a.work_item_id)
          db.work_items in
      let single = nat_eq→eq _ _ item in
      let cases =
        map-update (λ (r : CustodyNodeRow). r.on_hand_cases) (is_confirmable x c p d)
          (λ (r : CustodyNodeRow). record r {
            acknowledgment_status = d.requested_acknowledgment_status;
          })
          (λ r. refl) db.custody_nodes in
      rw (sym (ok-injective h2)) (omega arith, cases, refl)

  denied-done :
      (a : Authority) (db : Database) (done : ℕ × Database)
      → decide x c p denied a db ≡ ok done
      → (n : ℕ) (db' : Database) → done.0 ≡ n
      → done.1 ≡ db'
      → (n ≡ 0) × (db' ≡ db)
  denied-done a db done h n db' e f =
      (sym e ∙ sym (ap (λ q. q.0) (ok-injective h)), sym f ∙ sym (ap (λ q. q.1) (ok-injective h)))

  applied-done :
      (a : Authority) (db : Database) (done : ℕ × Database)
      → decide x c p applied a db ≡ ok done
      → (done.0 ≡ 2) × IsConfirmed db done.1
  applied-done a db done h =
      let (db', e, f) = >>=-ok (confirm_custody x c p a db) _ h in
      let q = sym (ok-injective f) in
      (ap (λ q. q.0) q, rw q (confirm_custody-IsConfirmed a db db' e))

  -- The evidence event that records a decision and the number of domain mutations that it made.
  abbrev pub IsRecorded : String → Verdict → ℕ → PartnerEvidenceRow → Type 0
  IsRecorded receipt_id v n row =
      (row.tenant_id ≡ c.tenant_id)
      × (row.source_event_id ≡ p.source_event_id)
      × (row.incident_id ≡ c.incident_id)
      × (row.source_text ≡ p.source_text)
      × (row.receipt_id ≡ receipt_id)
      × (row.policy_decision ≡ verdict_text x c p v)
      × (row.domain_mutations_applied ≡ n)
      × (row.evidence_mutations_applied ≡ 1)

  -- Partner evidence that is processed gets the decision of the policy on what the transaction
  -- read, and either way one evidence event is buffered that records that decision. A denial
  -- updates no row; an application is of evidence that supports the proposal, closes exactly one
  -- open confirmation of the incident, changes no quantity of any custody node, and updates no
  -- table but the nodes and the work items.
  pub apply_partner_evidence-custody :
      (receipt_id : String) (t t' : Transaction) (v : Verdict) (n : ℕ)
      → apply_partner_evidence x c p receipt_id t ≡ ok (v, n, t')
      → (found : Found) × (find_authority x c p receipt_id t.db ≡ ok found)
        × (v ≡ (verify_partner_custody_proposal p.proposal found.authority).decision)
        × ((row : PartnerEvidenceRow) × IsRecorded receipt_id v n row
            × (t'.buffer ≡ t.buffer ++ (insert_partner_evidence (row ∷ []) ∷ [])))
        × (v ≡ denied → (n ≡ 0) × (t'.db ≡ t.db))
        × (v ≡ applied → (n ≡ 2) × IsSupported p.proposal found.authority × IsConfirmed t.db t'.db)
  unfolding apply_partner_evidence evidence_row
  apply_partner_evidence-custody receipt_id t t' v n h =
      let (found, e, h1) = >>=-ok (find_authority x c p receipt_id t.db) _ h in
      let d = (verify_partner_custody_proposal p.proposal found.authority).decision in
      let (done, f, h2) = >>=-ok (decide x c p d found.authority t.db) _ h1 in
      let q = ok-injective h2 in
      let dv : d ≡ v = ap (λ q. q.0) q in
      let dn : done.0 ≡ n = ap (λ q. q.1) q in
      let db : done.1 ≡ t'.db = ap (λ q. q.2.db) q in
      (
        found,
        e,
        sym dv,
        (
          evidence_row x c p receipt_id (verify_partner_custody_proposal p.proposal found.authority)
              done.0,
          (refl, refl, refl, refl, refl, ap (verdict_text x c p) dv, dn, refl),
          sym (ap (λ q. q.2.buffer) q),
        ),
        (λ no. denied-done found.authority t.db done (rw (dv ∙ no) at f) n t'.db dn db),
        λ yes.
            let (two, done_db) = applied-done found.authority t.db done (rw (dv ∙ yes) at f) in
            (sym dn ∙ two, (applied_iff p.proposal found.authority).0 (dv ∙ yes), rw db at done_db),
      )
