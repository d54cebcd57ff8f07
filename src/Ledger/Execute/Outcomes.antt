-- ===== src/Ledger/Execute/Outcomes.antt =====
-- How a run of `transaction_body` ends, and what its commit does to the receipts.
use full_shelf.Prelude.{
  ℕ, String, ◌≡◌, refl, sym, ◌∙◌, Option, List, [], ◌∷◌, ◌++◌, ◌==◌, arith, Bool-cases, inl, inr,
}
use full_shelf.Prelude.Errors.{ok, >>=-ok}
use full_shelf.Ledger.Rows.{ReceiptRow}
use full_shelf.Ledger.Database.{Database, Mutation, insert_receipts, insert_rows}
use full_shelf.Ledger.Commit.{Transaction, apply_mutation, apply_all}
use full_shelf.Ledger.Commands.{
  Payload, save_plan_revision, record_refusal, process_partner_evidence, LedgerCommand, Identity,
  Environment, CommandExecutionResult,
}
use full_shelf.Ledger.Digests.{stable_receipt_id}
use full_shelf.Ledger.Partner.{apply_partner_evidence}
use full_shelf.Ledger.Execute.{
  make_receipt, finish, deny, apply, dispatch, first_run, allowed_role, revision_holds,
}

-- The commit of a buffer with one mutation more.
pub apply_all-snoc :
    (ms : List Mutation) (m : Mutation) (db db' : Database)
    → apply_all (ms ++ m ∷ []) db ≡ ok db'
    → (mid : Database) × (apply_all ms db ≡ ok mid) × (apply_mutation m mid ≡ ok db')
unfolding apply_all
apply_all-snoc [] m db db' h = let (d, e, f) = >>=-ok (apply_mutation m db) _ h in (db, refl, e ∙ f)
apply_all-snoc (k ∷ ms) m db db' h =
    let (d, e, f) = >>=-ok (apply_mutation k db) _ h in
    let (mid, g, i) = apply_all-snoc ms m d db' f in (mid, rw e g, i)

-- One receipt goes in front of the others.
pub insert_receipt_lem :
    (r : ReceiptRow) (db db' : Database)
    → apply_mutation (insert_receipts (r ∷ [])) db ≡ ok db'
    → db' ≡ record db { receipts = r ∷ db.receipts }
unfolding apply_mutation insert_rows
insert_receipt_lem r db db' h = ground arith

module _ (x : Environment) where
  -- A run ends in `finish`, with a receipt of the command.
  pub record IsFinished (c : LedgerCommand) (caller : Identity)
      (o : CommandExecutionResult × Transaction) : Type 0 where
    pub revision : String
    pub status : String
    pub mutations : ℕ
    pub evidence : Option ℕ
    pub message : String
    pub additional : ℕ
    pub before : Transaction
    pub finished :
        ok o
        ≡ finish x c caller
            (make_receipt x c revision status mutations evidence message)
            additional
            before

  dispatch-IsFinished :
      (c : LedgerCommand) (caller : Identity) (p : Payload) (t : Transaction)
      {o : CommandExecutionResult × Transaction}
      → dispatch x c caller p t ≡ ok o
      → IsFinished c caller o
  unfolding dispatch deny
  dispatch-IsFinished c caller (record_refusal p) t h = record {
    revision = _;
    status = _;
    mutations = _;
    evidence = _;
    message = _;
    additional = _;
    before = _;
    finished = sym h;
  }
  dispatch-IsFinished c caller (process_partner_evidence p) t h =
      let ((verdict, n, t'), e, f) =
        >>=-ok (apply_partner_evidence x c p (stable_receipt_id x c) t) _ h in
      record {
        revision = _;
        status = _;
        mutations = _;
        evidence = _;
        message = _;
        additional = _;
        before = _;
        finished = sym f;
      }
  dispatch-IsFinished c caller (save_plan_revision p) t h =
      let (done, e, f) = >>=-ok (apply x c _ _ t) _ h in
      record {
        revision = _;
        status = _;
        mutations = _;
        evidence = _;
        message = _;
        additional = _;
        before = _;
        finished = sym f;
      }
  dispatch-IsFinished c caller _ t h =
      let (done, e, f) = >>=-ok (apply x c _ _ t) _ h in
      record {
        revision = _;
        status = _;
        mutations = _;
        evidence = _;
        message = _;
        additional = _;
        before = _;
        finished = sym f;
      }

  pub first_run-IsFinished :
      (c : LedgerCommand) (caller : Identity) (t : Transaction)
      {o : CommandExecutionResult × Transaction}
      → first_run x c caller t ≡ ok o
      → IsFinished c caller o
  unfolding first_run deny
  first_run-IsFinished c caller t h = elim (Bool-cases (c.agent_role == allowed_role c.payload)) [
    | inl role ↦ elim (Bool-cases (revision_holds t.db c)) [
      | inl holds ↦ dispatch-IsFinished c caller c.payload t (rw (role, holds) at h)
      | inr holds ↦ record {
        revision = _;
        status = _;
        mutations = _;
        evidence = _;
        message = _;
        additional = _;
        before = _;
        finished = sym (rw (role, holds) at h);
      }
    ]
    | inr role ↦ record {
      revision = _;
      status = _;
      mutations = _;
      evidence = _;
      message = _;
      additional = _;
      before = _;
      finished = sym (rw role at h);
    }
  ]
