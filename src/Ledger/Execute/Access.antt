-- ===== src/Ledger/Execute/Access.antt =====
-- Who may write: the role and revision checks of `transaction_body`, and what a denial leaves.
use full_shelf.Prelude.{
  String, Bool, true, false, not, ◌≡◌, refl, sym, ◌∙◌, ap, none, List, [], ◌∷◌, ◌==◌, arith,
  Bool-cases, Option-cases, inl, inr, ◌&&◌, ◌||◌, contains, any, first, select, eq_iff,
}
use full_shelf.Prelude.Errors.{ok, >>=-ok, ok-injective}
use full_shelf.Ledger.Rows.{ReceiptRow}
use full_shelf.Ledger.Database.{Database, insert_receipts, insert_rows, has_tenant}
use full_shelf.Ledger.Commit.{Transaction, buffered, apply_mutation, apply_all, commit, receipt_key}
use full_shelf.Ledger.Commands.{
  Payload, record_refusal, LedgerCommand, Identity, Environment, Receipt, CommandExecutionResult,
}
use full_shelf.Ledger.Digests.{stable_receipt_id}
use full_shelf.Ledger.Queries.{find_receipt, is_receipt_of}
use full_shelf.Ledger.Validators.{validated_payload}
use full_shelf.Ledger.Execute.{
  allowed_role, revision_holds, make_receipt, receipt_row, finish, deny, dispatch, first_run,
  replay, transact, execute,
}
use full_shelf.Ledger.Execute.Replay.{not-fresh, replay-flag, execute-run}

abbrev pub is_refusal : Payload → Bool
is_refusal (record_refusal p) = true
is_refusal _ = false

-- The role of the command is the one of its type, and it names the revision that it needs.
unfoldable pub is_authorized : Database → LedgerCommand → Bool
is_authorized db c = c.agent_role == allowed_role c.payload && revision_holds db c

-- The receipt of a denial.
abbrev pub denial : Environment → LedgerCommand → String → String → Receipt
denial x c revision message = make_receipt x c revision "DENIED" 0 none message

-- A row that the unique keys of the table keep beside no receipt of the command.
abbrev pub clashes : Environment → LedgerCommand → ReceiptRow → Bool
clashes x c r =
    c.tenant_id == r.tenant_id
    && (stable_receipt_id x c == r.receipt_id || c.idempotency_key == r.idempotency_key)

is_receipt_of-clashes :
    (x : Environment) (c : LedgerCommand) (r : ReceiptRow)
    → is_receipt_of c r ≡ true
    → clashes x c r ≡ true
is_receipt_of-clashes x c r h = ground (
  arith,
  eq_iff r.tenant_id c.tenant_id,
  eq_iff c.tenant_id r.tenant_id,
  eq_iff r.idempotency_key c.idempotency_key,
  eq_iff c.idempotency_key r.idempotency_key,
)

first-select-none :
    {A : Type 0} (p q : A → Bool)
    → ((a : A) → p a ≡ true → q a ≡ true)
    → (xs : List A) → any q xs ≡ false
    → first (select p xs) ≡ none
first-select-none p q h [] e = refl
first-select-none p q h (a ∷ xs) e = ground (arith, h a, first-select-none p q h xs)

not-denied {ℓ} : {A : Type ℓ} (s : String) → "DENIED" ≡ s → (s == "DENIED") ≡ false → A
not-denied s e ne = let absurd = rw (sym e) at ne in cc

module _ (x : Environment) where
  refused :
      (c : LedgerCommand) (caller : Identity) (p : Payload) (t : Transaction)
      → not (is_refusal p) ≡ false
      → (revision message : String) × (dispatch x c caller p t
          ≡ finish x c caller (denial x c revision message) 0 t)
  unfolding dispatch deny
  refused c caller (record_refusal p) t h = (_, _, refl)
  refused c caller _ t h = cc

  first_run-denied :
      (c : LedgerCommand) (caller : Identity) (t : Transaction)
      → (is_authorized t.db c && not (is_refusal c.payload)) ≡ false
      → (revision message : String) × (first_run x c caller t
          ≡ finish x c caller (denial x c revision message) 0 t)
  unfolding is_authorized first_run deny
  first_run-denied c caller t h = elim (Bool-cases (c.agent_role == allowed_role c.payload)) [
    | inl role ↦ elim (Bool-cases (revision_holds t.db c)) [
      | inl holds ↦ rw (role, holds) (refused c caller c.payload t (rw (role, holds) at h))
      | inr holds ↦ rw (role, holds) (_, _, refl)
    ]
    | inr role ↦ rw role (_, _, refl)
  ]

  -- The commit of a transaction that only wrote a receipt.
  commit-receipt :
      (db : Database) (r : ReceiptRow)
      → any (receipt_key r) db.receipts ≡ false
      → has_tenant db r.tenant_id ≡ true
      → commit (buffered (insert_receipts (r ∷ [])) (record { db = db; buffer = [] }))
        ≡ ok (record db { receipts = r ∷ db.receipts })
  unfolding commit apply_all apply_mutation insert_rows
  commit-receipt db r fresh parent = rw (fresh, parent) refl

  -- A receipt of the command would have clashed.
  no-clash :
      (c : LedgerCommand) (db : Database)
      → any (clashes x c) db.receipts ≡ false
      → find_receipt db c ≡ none
  unfolding find_receipt
  no-clash c db h =
      first-select-none (is_receipt_of c) (clashes x c) (is_receipt_of-clashes x c) db.receipts h

  -- A valid command whose receipt would clash with none that is there, of a tenant that is there
  -- and that the caller may use, whose role or revision is not the right one, or which records a
  -- refusal: `execute` returns a denial without mutations, and the database has the receipt of it
  -- in addition and is otherwise as it was.
  pub denied-execute :
      (allowed : List String) (c : LedgerCommand) (caller : Identity) (db : Database) (p : Payload)
      → contains c.tenant_id allowed ≡ true
      → validated_payload x c.payload ≡ ok p
      → let d = record c { payload = p } in
        any (clashes x d) db.receipts ≡ false
        → has_tenant db c.tenant_id ≡ true
        → (is_authorized db d && not (is_refusal p)) ≡ false
        → (revision message : String) × (execute x allowed c caller db
            ≡ ok (
              record {
                receipt = denial x d revision message;
                idempotent_replay = false;
                additional_mutations = 0;
              },
              record db {
                receipts = receipt_row x d caller (denial x d revision message) ∷ db.receipts;
              },
            ))
  unfolding execute finish receipt_row make_receipt
  denied-execute allowed c caller db p scope valid fresh parent h =
      let d = record c { payload = p } in
      let (revision, message, e) = first_run-denied d caller (record { db = db; buffer = [] }) h in
      let row = receipt_row x d caller (denial x d revision message) in
      let f = commit-receipt db row fresh parent in
      (revision, message, rw (scope, valid, no-clash d db fresh, e, f) refl)

  -- A first run that commits and is no denial was authorized, and was no refusal.
  success-first_run :
      (d : LedgerCommand) (caller : Identity) (db db' : Database) (r : CommandExecutionResult)
      → transact x d caller db none ≡ ok (r, db')
      → (r.receipt.status == "DENIED") ≡ false
      → (is_authorized db d && not (is_refusal d.payload)) ≡ true
  unfolding finish make_receipt
  success-first_run d caller db db' r h ne =
      elim (Bool-cases (is_authorized db d && not (is_refusal d.payload))) [
        | inl allowed ↦ allowed
        | inr other ↦
            let t : Transaction = record { db = db; buffer = [] } in
            let (revision, message, e) = first_run-denied d caller t other in
            let (done, f, g) = >>=-ok (first_run x d caller t) _ h in
            let (db'', i, j) = >>=-ok (commit done.1) _ g in
            let k = ap (λ o. o.0.receipt.status) (ok-injective (sym e ∙ f)) in
            let l = ap (λ o. o.0.receipt.status) (ok-injective j) in not-denied _ (k ∙ l) ne
      ]

  -- A valid command that was carried out now, and did not end in a denial, came with the role of its
  -- type and the revision that it needs, and was not a refusal; its tenant is one of the caller's.
  pub success-execute :
      (allowed : List String) (c : LedgerCommand) (caller : Identity) (db db' : Database)
      (p : Payload) (r : CommandExecutionResult)
      → validated_payload x c.payload ≡ ok p
      → execute x allowed c caller db ≡ ok (r, db')
      → r.idempotent_replay ≡ false
      → (r.receipt.status == "DENIED") ≡ false
      → let d = record c { payload = p } in
        (contains c.tenant_id allowed ≡ true) × ((is_authorized db d && not (is_refusal p)) ≡ true)
  success-execute allowed c caller db db' p r valid h fresh ne =
      let d = record c { payload = p } in
      let (scope, run) = execute-run x allowed c caller db p valid h in
      elim (Option-cases (find_receipt db d)) [
        | inl none_there ↦ (scope, success-first_run d caller db db' r (rw none_there at run) ne)
        | inr (row, there) ↦
            let (answer, e, f) = >>=-ok (replay x d row db) _ (rw there at run) in
            not-fresh answer r (ap (λ o. o.0) (ok-injective f)) (replay-flag x d row db answer e)
              fresh
      ]
