-- ===== src/Ledger/Apply/Incidents/Closing.antt =====
-- SET_INCIDENT_STATUS: what a change of the status of an incident presupposes, and what it changes.
use full_shelf.Prelude.{
  ℕ, String, Bool, true, false, ◌||◌, ◌≡◌, refl, sym, ap, Option, none, some, ◌==◌, nat_eq,
  nat_eq→eq, count_where, eq_iff, arith, eq_refl, ◌∙◌, ◌&&◌, ◌+◌, some-injective, not-both, subst,
  Bool-cases, inl, inr, update_where, count-update, count-gain,
}
use full_shelf.Prelude.Errors.{ok, >>=-ok, ok-injective, guard_passed, raise_if-ok, err-ok}
use full_shelf.Policy.Models.{
  IncidentStatus, detected, scoping, containment_in_progress, partially_contained, contained,
  closed, active, resolved,
}
use full_shelf.Policy.Lifecycle.{can_transition, parse_status}
use full_shelf.Ledger.Rows.{IncidentRow}
use full_shelf.Ledger.Database.{Database}
use full_shelf.Ledger.Commit.{Transaction}
use full_shelf.Ledger.Payloads.{SetIncidentStatusPayload}
use full_shelf.Ledger.Commands.{LedgerCommand}
use full_shelf.Ledger.Apply.Incidents.{
  known_status, check_unconfirmed, terminal_state_of, is_incident_at, move_incident, apply_status,
  not_all_confirmed,
}

-- The stored word claims that every case is accounted for.
abbrev pub claims_all : String → Bool
claims_all s = s == "CONTAINED" || s == "CLOSED"

known : (o : Option IncidentStatus) {s : IncidentStatus} → known_status o ≡ ok s → o ≡ some s
known none h = err-ok h
known (some s) h = ap some (ok-injective h)

all_confirmed : (o : Option ℕ) → not_all_confirmed o ≡ false → o ≡ some 0
all_confirmed none h = cc
all_confirmed (some n) h = ap some (nat_eq→eq n 0 (ground arith))

check-all :
    (s : IncidentStatus) (cases : Option ℕ) {u : Unit {0}}
    → check_unconfirmed s cases ≡ ok u
    → claims_all (terminal_state_of s) ≡ true
    → cases ≡ some 0
unfolding check_unconfirmed terminal_state_of
check-all contained cases h k = all_confirmed cases (raise_if-ok _ _ h)
check-all closed cases h k = all_confirmed cases (raise_if-ok _ _ h)
check-all _ cases h k = cc

-- No permitted transition of a recall stays where it is.
moves_on : (s : IncidentStatus) → can_transition "FOOD_SAFETY_RECALL" s s ≡ false
unfolding can_transition
moves_on detected = refl
moves_on scoping = refl
moves_on containment_in_progress = refl
moves_on partially_contained = refl
moves_on contained = refl
moves_on closed = refl
moves_on active = refl
moves_on resolved = refl

words_differ :
    (old new : String) (before after : IncidentStatus)
    → parse_status old ≡ some before
    → parse_status new ≡ some after
    → can_transition "FOOD_SAFETY_RECALL" before after ≡ true
    → (old == new) ≡ false
words_differ old new before after e f moves = elim (Bool-cases (old == new)) [
  | inr apart ↦ apart
  | inl same ↦
      let q : before ≡ after =
        some-injective (sym e ∙ (ap parse_status ((eq_iff old new).0 same) ∙ f)) in
      not-both (can_transition "FOOD_SAFETY_RECALL" after after)
        (subst (λ s. can_transition "FOOD_SAFETY_RECALL" s after ≡ true) q moves) (moves_on after)
]

-- The rows of one incident with one status, and the same row with another.
abbrev pub count_at : String → String → String → Database → ℕ
count_at tenant_id incident_id status db =
    count_where
      (λ (r : IncidentRow).
        r.tenant_id == tenant_id && (r.incident_id == incident_id && r.status == status))
      db.incidents

module _ (tenant_id incident_id old new terminal : String) (apart : (old == new) ≡ false) where
  moved_off :
      (r : IncidentRow)
      → is_incident_at tenant_id incident_id old r ≡ true
      → (is_incident_at tenant_id incident_id old r ≡ true)
        × (is_incident_at tenant_id incident_id old
              (record r { status = new; terminal_state = terminal })
            ≡ false)
  moved_off r h = (h, ground (arith, apart, eq_iff old new, eq_iff new old))

  moved_onto :
      (r : IncidentRow)
      → is_incident_at tenant_id incident_id old r ≡ true
      → (is_incident_at tenant_id incident_id new r ≡ false)
        × (is_incident_at tenant_id incident_id new
              (record r { status = new; terminal_state = terminal })
            ≡ true)
  moved_onto r h = (
    ground (arith, apart, h, eq_iff r.status old, eq_iff r.status new, eq_iff old new),
    ground (arith, h, eq_refl new),
  )

-- An incident that changes its status moves along a permitted transition of a recall, between two
-- known statuses; the terminal state that is stored is the one of the new status, and says
-- CONTAINED or CLOSED only with no unconfirmed cases. One row of that incident in that tenant had the
-- expected status before, and none has it after; one row more has the new status. The change sets the
-- status and the terminal state of that row, changes no other row and no other table, and buffers
-- nothing.
pub apply_status-ok :
    (c : LedgerCommand) (p : SetIncidentStatusPayload) (t t' : Transaction) (n : ℕ)
    → apply_status c p t ≡ ok (n, t')
    → (before after : IncidentStatus) × (parse_status p.expected_status ≡ some before)
      × (parse_status p.new_status ≡ some after)
      × (can_transition "FOOD_SAFETY_RECALL" before after ≡ true)
      × (p.terminal_state ≡ terminal_state_of after)
      × (claims_all p.terminal_state ≡ true → p.unconfirmed_cases ≡ some 0)
      × (count_at c.tenant_id p.incident_id p.expected_status t.db ≡ 1)
      × (count_at c.tenant_id p.incident_id p.expected_status t'.db ≡ 0)
      × (count_at c.tenant_id p.incident_id p.new_status t'.db
          ≡ count_at c.tenant_id p.incident_id p.new_status t.db + 1)
      × (t' ≡ record t {
        db = record t.db {
          incidents =
              update_where
                (λ (r : IncidentRow).
                  r.tenant_id == c.tenant_id
                  && (r.incident_id == p.incident_id && r.status == p.expected_status))
                (λ (r : IncidentRow). record r {
                  status = p.new_status;
                  terminal_state = p.terminal_state;
                })
                t.db.incidents;
        };
      })
unfolding apply_status move_incident
apply_status-ok c p t t' n h =
    let (scope, h1) = guard_passed (p.incident_id == c.incident_id) _ _ h in
    let (before, e2, h2) = >>=-ok (known_status (parse_status p.expected_status)) _ h1 in
    let (after, e3, h3) = >>=-ok (known_status (parse_status p.new_status)) _ h2 in
    let (moves, h4) = guard_passed (can_transition "FOOD_SAFETY_RECALL" before after) _ _ h3 in
    let (u, e5, h5) = >>=-ok (check_unconfirmed after p.unconfirmed_cases) _ h4 in
    let (terminal, h6) = guard_passed (p.terminal_state == terminal_state_of after) _ _ h5 in
    let (one, h7) =
      guard_passed
        (nat_eq
          (count_where (is_incident_at c.tenant_id p.incident_id p.expected_status) t.db.incidents)
          1)
        _ _ h6 in
    let same = (eq_iff p.terminal_state (terminal_state_of after)).0 terminal in
    let single = nat_eq→eq _ _ one in
    let made = sym (ap (λ q. q.1) (ok-injective h7)) in
    let apart =
      words_differ p.expected_status p.new_status before after (known _ e2) (known _ e3) moves in
    let at = is_incident_at c.tenant_id p.incident_id p.expected_status in
    let gone =
      count-update at at
        (λ (r : IncidentRow). record r { status = p.new_status; terminal_state = p.terminal_state })
        (moved_off c.tenant_id p.incident_id p.expected_status p.new_status p.terminal_state apart)
        t.db.incidents in
    let come =
      count-gain (is_incident_at c.tenant_id p.incident_id p.new_status) at
        (λ (r : IncidentRow). record r { status = p.new_status; terminal_state = p.terminal_state })
        (moved_onto c.tenant_id p.incident_id p.expected_status p.new_status p.terminal_state apart)
        t.db.incidents in
    (
      before,
      after,
      known _ e2,
      known _ e3,
      moves,
      same,
      (λ claims. check-all after p.unconfirmed_cases e5 (rw same at claims)),
      single,
      ap (λ u. count_at c.tenant_id p.incident_id p.expected_status u.db) made
          ∙ (omega (arith, gone)),
      ap (λ u. count_at c.tenant_id p.incident_id p.new_status u.db) made
          ∙ (omega (arith, come, single)),
      made,
    )
