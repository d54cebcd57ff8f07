-- ===== src/Ledger/Execute/Replay.antt =====
-- A command that is sent again: what `execute` answers from the receipt of the first time.
use full_shelf.Prelude.{
  String, true, false, ◌≡◌, refl, sym, ◌∙◌, ap, none, some, List, [], ◌∷◌, ◌==◌, arith,
  Option-cases, inl, inr, eq_refl, contains,
}
use full_shelf.Prelude.Errors.{
  ok, err, >>=-ok, ok-injective, guard_passed, permission_error, collision,
}
use full_shelf.Ledger.Rows.{ReceiptRow}
use full_shelf.Ledger.Database.{Database}
use full_shelf.Ledger.Commit.{commit}
use full_shelf.Ledger.Commands.{
  Payload, create_next_day_draft, process_partner_evidence, LedgerCommand, Identity, Environment,
  Receipt, CommandExecutionResult,
}
use full_shelf.Ledger.Digests.{request_fingerprint}
use full_shelf.Ledger.Queries.{find_receipt, receipt_of_row}
use full_shelf.Ledger.Validators.{validated_payload}
use full_shelf.Ledger.Execute.{
  make_receipt, receipt_row, finish, first_run, replay, replay_of, replay_error, is_next_day,
  transact, execute,
}
use full_shelf.Ledger.Execute.Outcomes.{apply_all-snoc, insert_receipt_lem, first_run-IsFinished}

-- The command as a retry sends it: with a command identifier and a trace identifier of its own.
abbrev pub resent : String → String → LedgerCommand → LedgerCommand
resent command_id trace_id c = record c { command_id = command_id; trace_id = trace_id }

-- The answer to it: the first receipt, with its caller.
abbrev pub replayed : LedgerCommand → Identity → CommandExecutionResult → CommandExecutionResult
replayed c caller r = record {
  receipt = record r.receipt { caller = some (caller.subject, caller.email, c.agent_role) };
  idempotent_replay = true;
  additional_mutations = 0;
}

pub not-fresh {ℓ} :
    {A : Type ℓ} (a r : CommandExecutionResult)
    → a ≡ r
    → a.idempotent_replay ≡ true
    → r.idempotent_replay ≡ false
    → A
not-fresh a r e h k = cc

module _ (x : Environment) where
  -- The fingerprint does not depend on the two identifiers.
  fingerprint-resent :
      (i t : String) (c : LedgerCommand) (p : Payload)
      → request_fingerprint x (resent i t (record c { payload = p }))
        ≡ request_fingerprint x (record c { payload = p })
  unfolding request_fingerprint
  fingerprint-resent i t c (process_partner_evidence p) = refl
  fingerprint-resent i t c _ = refl

  -- A receipt with the fingerprint of the command answers it.
  replay_of-match :
      (c : LedgerCommand) (p : Payload) (db : Database) (r : ReceiptRow) (f : String)
      → request_fingerprint x c ≡ f
      → replay_of x db c p r (some f) ≡ true
  unfolding replay_of
  replay_of-match c (create_next_day_draft p) db r f h = rw (h, eq_refl f)
  replay_of-match c _ db r f h = rw (h, eq_refl f)

  find_receipt-head :
      (c : LedgerCommand) (db : Database) (r : ReceiptRow)
      → r.tenant_id ≡ c.tenant_id
      → r.idempotency_key ≡ c.idempotency_key
      → find_receipt (record db { receipts = r ∷ db.receipts }) c ≡ some r
  unfolding find_receipt
  find_receipt-head c db r h k = rw (h, k, eq_refl c.tenant_id, eq_refl c.idempotency_key)

  -- A first run that commits leaves its receipt in front.
  pub first_run-receipt :
      (c : LedgerCommand) (caller : Identity) (db db' : Database) (r : CommandExecutionResult)
      → transact x c caller db none ≡ ok (r, db')
      → (mid : Database) × (db'
          ≡ record mid { receipts = receipt_row x c caller r.receipt ∷ mid.receipts })
        × (r.receipt.tenant_id ≡ c.tenant_id)
  unfolding commit finish make_receipt
  first_run-receipt c caller db db' r h =
      let (done, e, f) = >>=-ok (first_run x c caller (record { db = db; buffer = [] })) _ h in
      let (db'', g, k) = >>=-ok (commit done.1) _ f in
      let fin = first_run-IsFinished x c caller _ e in
      let o = ok-injective fin.finished in
      let (mid, i, j) =
        apply_all-snoc fin.before.buffer _ fin.before.db db'' (rw (ap (λ d. d.1) o) at g) in
      let l = insert_receipt_lem _ mid db'' j in
      let m = ok-injective k in
      let q = sym (ap (λ d. d.0.receipt) o) ∙ ap (λ d. d.0.receipt) m in
      (
        mid,
        sym (ap (λ d. d.1) m)
            ∙ l
            ∙ ap (λ a. record mid { receipts = receipt_row x c caller a ∷ mid.receipts }) q,
        ap (λ (a : Receipt). a.tenant_id) (sym q),
      )

  -- With the receipt of the same request there, `execute` only reads.
  replay-receipt :
      (i t : String) (c : LedgerCommand) (p : Payload) (caller again : Identity) (db : Database)
      (r : CommandExecutionResult)
      → r.receipt.tenant_id ≡ c.tenant_id
      → let d = record c { payload = p } in
        let db' = record db { receipts = receipt_row x d caller r.receipt ∷ db.receipts } in
        transact x (resent i t d) again db' (find_receipt db' (resent i t d))
        ≡ ok (replayed c caller r, db')
  unfolding replay receipt_row receipt_of_row
  replay-receipt i t c p caller again db r h =
      let d = record c { payload = p } in
      let row = receipt_row x d caller r.receipt in
      let db' = record db { receipts = row ∷ db.receipts } in
      rw
        (
          find_receipt-head (resent i t d) db row h refl,
          replay_of-match (resent i t d) p db' row _ (fingerprint-resent i t c p),
        )
        refl

  -- An answer from a receipt says that it is a replay.
  pub replay-flag :
      (c : LedgerCommand) (row : ReceiptRow) (db : Database) (r : CommandExecutionResult)
      → replay x c row db ≡ ok r
      → r.idempotent_replay ≡ true
  unfolding replay replay_error
  replay-flag c row db r h = ground arith

  -- A run of `execute` is a run of the transaction on the validated command.
  pub execute-run :
      (allowed : List String) (c : LedgerCommand) (caller : Identity) (db : Database) (p : Payload)
      → validated_payload x c.payload ≡ ok p
      → {o : CommandExecutionResult × Database} → execute x allowed c caller db ≡ ok o
      → let d = record c { payload = p } in
        (contains c.tenant_id allowed ≡ true) × (transact x d caller db (find_receipt db d) ≡ ok o)
  unfolding execute
  execute-run allowed c caller db p valid h =
      guard_passed (contains c.tenant_id allowed) (permission_error "TENANT_SCOPE_NOT_AUTHORIZED") _
        (rw valid at h)

  -- The receipt that a run leaves which is not a replay.
  pub fresh-receipt :
      (d : LedgerCommand) (caller : Identity) (db db' : Database) (r : CommandExecutionResult)
      → transact x d caller db (find_receipt db d) ≡ ok (r, db')
      → r.idempotent_replay ≡ false
      → (mid : Database) × (db'
          ≡ record mid { receipts = receipt_row x d caller r.receipt ∷ mid.receipts })
        × (r.receipt.tenant_id ≡ d.tenant_id)
  fresh-receipt d caller db db' r run fresh = elim (Option-cases (find_receipt db d)) [
    | inl none_there ↦ first_run-receipt d caller db db' r (rw none_there at run)
    | inr (row, there) ↦
        let (answer, e, f) = >>=-ok (replay x d row db) _ (rw there at run) in
        not-fresh answer r (ap (λ o. o.0) (ok-injective f)) (replay-flag d row db answer e) fresh
  ]

  -- A command that was carried out or denied, and is sent again with the same idempotency key and
  -- the same request, though with other identifiers and perhaps by another caller: `execute`
  -- changes nothing, and answers with the first receipt and its caller, marked as a replay.
  pub resend-execute :
      (allowed : List String) (c : LedgerCommand) (caller : Identity) (db db' : Database)
      (r : CommandExecutionResult)
      → execute x allowed c caller db ≡ ok (r, db')
      → r.idempotent_replay ≡ false
      → (i t : String) (again : Identity)
      → execute x allowed (resent i t c) again db' ≡ ok (replayed c caller r, db')
  unfolding execute
  resend-execute allowed c caller db db' r h fresh i t again =
      let (p, valid, _) =
        >>=-ok (validated_payload x c.payload) _
          (guard_passed (contains c.tenant_id allowed)
            (permission_error "TENANT_SCOPE_NOT_AUTHORIZED") _ h).1 in
      let (scope, run) = execute-run allowed c caller db p valid h in
      let (mid, e, f) = fresh-receipt (record c { payload = p }) caller db db' r run fresh in
      rw (scope, valid, e) (replay-receipt i t c p caller again mid r f)

  replay_of-mismatch :
      (c : LedgerCommand) (p : Payload) (db : Database) (r : ReceiptRow) (f : String)
      → is_next_day p ≡ false
      → (f == request_fingerprint x c) ≡ false
      → replay_of x db c p r (some f) ≡ false
  unfolding replay_of
  replay_of-mismatch c (create_next_day_draft p) db r f n h = cc
  replay_of-mismatch c _ db r f n h = h

  -- After a valid command was carried out or denied, another valid request of the tenant with the
  -- same idempotency key and another fingerprint, which is not a next-day draft, is refused as a
  -- collision.
  pub collision-execute :
      (allowed : List String) (c : LedgerCommand) (caller : Identity) (db db' : Database)
      (r : CommandExecutionResult)
      → execute x allowed c caller db ≡ ok (r, db')
      → r.idempotent_replay ≡ false
      → (other : LedgerCommand) (p q : Payload) (again : Identity) → other.tenant_id ≡ c.tenant_id
      → other.idempotency_key ≡ c.idempotency_key
      → validated_payload x c.payload ≡ ok p
      → validated_payload x other.payload ≡ ok q
      → is_next_day q ≡ false
      → (request_fingerprint x (record c { payload = p })
          == request_fingerprint x (record other { payload = q }))
        ≡ false
      → execute x allowed other again db' ≡ err (collision "FINGERPRINT_MISMATCH")
  unfolding execute replay receipt_row replay_error
  collision-execute allowed c caller db db' r h fresh other p q again te ke vp vq nd ne =
      let d = record c { payload = p } in
      let o = record other { payload = q } in
      let (scope, run) = execute-run allowed c caller db p vp h in
      let (mid, e, f) = fresh-receipt d caller db db' r run fresh in
      let row = receipt_row x d caller r.receipt in
      let db'' = record mid { receipts = row ∷ mid.receipts } in
      let scope' : contains other.tenant_id allowed ≡ true = rw te scope in
      rw
        (
          scope',
          vq,
          e,
          find_receipt-head o mid row (f ∙ sym te) (sym ke),
          replay_of-mismatch o q db'' row _ nd ne,
        )
        refl
