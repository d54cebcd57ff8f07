-- ===== src/Policy/Lifecycle/Chains.antt =====
-- The order that the incident state machine of state_machines.py imposes on a recall.
use full_shelf.Prelude.{ℕ, zero, suc, ◌+◌, ◌≡◌, true, arith}
use full_shelf.Policy.Models.{
  IncidentStatus, detected, scoping, containment_in_progress, partially_contained, contained,
  closed, resolved,
}
use full_shelf.Policy.Lifecycle.{can_transition}

-- The place of a status in the documented chain DETECTED, SCOPING, …, CLOSED.
abbrev pub rank : IncidentStatus → ℕ
rank detected = 0
rank scoping = 1
rank containment_in_progress = 2
rank partially_contained = 3
rank contained = 4
rank closed = 5
rank IncidentStatus.active = 6
rank resolved = 6

-- `n` permitted transitions lead a recall from `s` to the last index.
pub data Chain (s : IncidentStatus) : IncidentStatus → ℕ → Type 0 where
  here : Chain s s zero
  next :
      {t u : IncidentStatus} {n : ℕ}
      → Chain s t n
      → can_transition "FOOD_SAFETY_RECALL" t u ≡ true
      → Chain s u (suc n)

transition-rank :
    (s t : IncidentStatus) → can_transition "FOOD_SAFETY_RECALL" s t ≡ true → rank t ≡ suc (rank s)
unfolding can_transition
transition-rank s t h = ground arith

-- A chain of permitted transitions of a recall moves one place down the documented order with
-- each step: it skips no status and returns to none.
pub Chain-rank : {s t : IncidentStatus} {n : ℕ} → Chain s t n → rank t ≡ rank s + n
Chain-rank here = omega arith
Chain-rank (next {t = t} {u = u} c h) = omega (arith, Chain-rank c, transition-rank t u h)
