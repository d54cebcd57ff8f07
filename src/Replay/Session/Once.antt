-- ===== src/Replay/Session/Once.antt =====
-- One approval, and the same receipt for every repetition of the request.
use full_shelf.Prelude.{
  ℕ, String, ◌≡◌, refl, subst, ap, ◌∙◌, true, false, not, ◌==◌, Option, none, some, is_none, leb,
  ltb, Bool-cases, Option-cases, inl, inr, eq_refl,
}
use full_shelf.Ledger.Json.{Json, obj, get, get_text}
use full_shelf.Replay.Events.{last_sequence, branch_named, branch_min_sequence, by_sequence}
use full_shelf.Replay.Binding.{binding_matches}
use full_shelf.Replay.Session.{
  Session, Reply, granted, ApprovalReceipt, advance, autoplay_step, start, pause, mode_eq, playing,
  complete, commit_next, commit_locked, emit, complete_if_last, next_permitted_locked,
}
use full_shelf.Replay.Session.Approval.{
  Approved, approve, approve_keyed, approve_locked, approve_again,
}
use full_shelf.Replay.Session.Branches.{enter_branch, open_branch, exit_branch, close}
use full_shelf.Replay.Session.Steps.{
  Step, advancing, starting, pausing, ticking, approving, entering, leaving, closing, Later, same,
  after,
}
use full_shelf.Replay.Session.Playing.{tick_reply-fst}
use full_shelf.Replay.Session.Signing.{Answer, rejected, repeated, recorded, approve-Answer, again}

commit_next-approval :
    (now : String) (s : Session) (n : Option ℕ) → (commit_next now s n).0.approval ≡ s.approval
unfolding commit_next complete_if_last commit_locked emit
commit_next-approval now s none = refl
commit_next-approval now s (some n) = elim (Option-cases (by_sequence n)) [
  | inl missing ↦ rw missing refl
  | inr (e, found) ↦ rw found refl
]

advance-approval : (now : String) (s : Session) → (advance now s).0.approval ≡ s.approval
unfolding advance
advance-approval now s = elim (Bool-cases (not (is_none s.branch))) [
  | inl shown ↦ rw shown refl
  | inr canonical ↦ rw canonical (elim (Bool-cases (leb last_sequence s.cursor)) [
    | inl over ↦ rw over refl
    | inr before ↦ rw before (commit_next-approval now s (next_permitted_locked s))
  ])
]

autoplay_step-approval :
    (now : String) (s : Session) → (autoplay_step now s).0.approval ≡ s.approval
unfolding autoplay_step
autoplay_step-approval now s = elim (Bool-cases (not (mode_eq s.mode playing))) [
  | inl still ↦ rw still refl
  | inr plays ↦ rw plays (elim (Bool-cases (leb last_sequence s.cursor)) [
    | inl over ↦ rw over refl
    | inr before ↦
        rw (before, tick_reply-fst (commit_next now s (next_permitted_locked s)))
          (commit_next-approval now s (next_permitted_locked s))
  ])
]

Answer-approval :
    {hash receipt_id now : String} {request : Json} {s : Session} {r : Session × Reply Approved}
    {prior : ApprovalReceipt}
    → Answer hash receipt_id now request s r
    → s.approval ≡ some prior
    → r.0.approval ≡ some prior
Answer-approval (rejected status code) held = held
Answer-approval (repeated _ _ _ _ _) held = held
Answer-approval (recorded receipt frame canonical ninth unsigned gate bound keyed filled named)
      held =
    cc

start-approval : (s : Session) → (start s).0.approval ≡ s.approval
unfolding start
start-approval s = elim (Bool-cases (mode_eq s.mode complete)) [
  | inl over ↦ rw over refl
  | inr goes ↦ rw goes refl
]

enter_branch-approval :
    (name now : String) (s : Session) → (enter_branch name now s).0.approval ≡ s.approval
unfolding enter_branch open_branch
enter_branch-approval name now s = elim (Option-cases (branch_named name)) [
  | inl unknown ↦ rw unknown refl
  | inr (spec, known) ↦ rw known (elim (Bool-cases (ltb s.cursor branch_min_sequence)) [
    | inl early ↦ rw early refl
    | inr late ↦ rw late refl
  ])
]

Step-approval :
    {hash : String} {s t : Session} {prior : ApprovalReceipt}
    → Step hash s t
    → s.approval ≡ some prior
    → t.approval ≡ some prior
unfolding pause exit_branch close
Step-approval (advancing now s) held = advance-approval now s ∙ held
Step-approval (starting s) held = start-approval s ∙ held
Step-approval (pausing s) held = held
Step-approval (ticking now s) held = autoplay_step-approval now s ∙ held
Step-approval {hash} (approving receipt_id now request s) held =
    Answer-approval (approve-Answer hash receipt_id now request s) held
Step-approval (entering name now s) held = enter_branch-approval name now s ∙ held
Step-approval (leaving s) held = held
Step-approval (closing s) held = held

Later-approval :
    {hash : String} {s t : Session} {prior : ApprovalReceipt}
    → Later hash s t
    → s.approval ≡ some prior
    → t.approval ≡ some prior
Later-approval same held = held
Later-approval (after step rest) held = Later-approval rest (Step-approval step held)

granted-injective : {a b : Approved} → granted a ≡ granted b → a ≡ b
granted-injective h = cc

module _ (hash receipt_id now : String) (request : Json) where
  -- A receipt that the session holds and that the request names.
  abbrev IsAnswer : Session → ApprovalReceipt → Type 0
  IsAnswer t receipt =
      (t.approval ≡ some receipt)
      × (binding_matches hash request ≡ true)
      × (get_text "idempotency_key" request ≡ some receipt.idempotency_key)
      × ((receipt.idempotency_key == "") ≡ false)

  transfer : {s t : Session} {a b : ApprovalReceipt} → s ≡ t → a ≡ b → IsAnswer s a → IsAnswer t b
  transfer {s} {t} {a} {b} here same_answer h =
      subst (λ u. IsAnswer u b) here (subst (λ c. IsAnswer s c) same_answer h)

  -- What an answer of `approve` tells of the request and of the session.
  Answer-granted :
      {s t : Session} {r : Session × Reply Approved} {answer : Approved}
      → Answer hash receipt_id now request s r
      → r ≡ (t, granted answer)
      → IsAnswer t answer.receipt
  Answer-granted (rejected status code) e = cc
  Answer-granted {t} {answer} (repeated prior held bound keyed filled) e =
      let here = ap (λ p. p.0) e in
      let same_answer = ap (λ a. a.receipt) (granted-injective (ap (λ p. p.1) e)) in
      transfer here same_answer (held, bound, keyed, filled)
  Answer-granted {t} {answer}
        (recorded receipt frame canonical ninth unsigned gate bound keyed filled named) e =
      let here = ap (λ p. p.0) e in
      let same_answer = ap (λ a. a.receipt) (granted-injective (ap (λ p. p.1) e)) in
      transfer here same_answer (refl, bound, keyed, filled)

again_lem :
    (s : Session) (prior : ApprovalReceipt)
    → approve_again prior.idempotency_key true prior s ≡ (s, granted (again s prior))
unfolding approve_again
again_lem s prior = rw (eq_refl prior.idempotency_key) refl

-- A request under the key of the receipt that binds the repair gets that receipt.
approve-again :
    (hash receipt_id now : String) (request : Json) (s : Session) (prior : ApprovalReceipt)
    → s.approval ≡ some prior
    → binding_matches hash request ≡ true
    → get_text "idempotency_key" request ≡ some prior.idempotency_key
    → (prior.idempotency_key == "") ≡ false
    → approve hash receipt_id now request s ≡ (s, granted (again s prior))
unfolding approve approve_keyed approve_locked approve_again get_text get
approve-again hash receipt_id now (obj fields) s prior held bound keyed filled =
    rw (keyed, filled, bound)
      (ap (approve_locked hash receipt_id now prior.idempotency_key true s) held
        ∙ again_lem s prior)
approve-again hash receipt_id now _ s prior held bound keyed filled = cc

-- Once a request is answered with a receipt, the same request, sent again after any other calls,
-- changes nothing and is answered with the same receipt, as a duplicate.
pub approve-resent :
    (hash receipt_id now later_id later_now : String) (request : Json) (s : Session) {t u : Session}
    {answer : Approved}
    → approve hash receipt_id now request s ≡ (t, granted answer)
    → Later hash t u
    → approve hash later_id later_now request u ≡ (u, granted (again u answer.receipt))
approve-resent hash receipt_id now later_id later_now request s {u} {answer} e later =
    let h =
      Answer-granted hash receipt_id now request (approve-Answer hash receipt_id now request s) e in
    approve-again hash later_id later_now request u answer.receipt (Later-approval later (h.0))
      (h.1) (h.2) (h.3)
