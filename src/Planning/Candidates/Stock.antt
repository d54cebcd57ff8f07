-- ===== src/Planning/Candidates/Stock.antt =====
-- What the schedule takes from each safe lot.
use full_shelf.Prelude.{
  ℕ, ◌+◌, ◌-◌, ◌≤◌, ◌≡◌, refl, subst, ap, ◌∙◌, String, true, false, ◌==◌, eq_iff, eq_refl, not-both,
  any, update_where-none, Option, none, some, some-injective, List, [], ◌∷◌, map, select, first,
  sum_by, distinct, contains, map-update, Bool-cases, inl, inr, ◌⊎◌, arith, if◌then◌else◌, leb,
  leb→le, nat_eq,
}
use full_shelf.Prelude.Sorting.{sort_by, insert_by}
use full_shelf.Ledger.Rows.{LotRow, RecoveryShortfallRow, VehicleRow}
use full_shelf.Ledger.Payloads.{NextDayCandidateStopPayload}
use full_shelf.Planning.Candidates.{
  WorkVehicle, Schedule, vehicle_first, lot_first, choose_lot, choose_vehicle, draw_lot, make_stop,
  place, assign, assign_all, initial_schedule, sort_demand, candidate_assignments,
}
use full_shelf.Planning.Candidates.Totals.{
  total, total_planned, planned-total, load_first-total, initial-total,
}

abbrev Lots : Type 0
Lots = List (String × ℕ)

-- The stock of a lot, and the cases that a stop takes from it.
abbrev pub stock_at : String → Lots → ℕ
stock_at k = sum_by (λ l. if l.0 == k then l.1 else 0)

abbrev pub taken_at : String → NextDayCandidateStopPayload → ℕ
taken_at k s = if s.lot_id == k then s.cases else 0

Among : (String × ℕ) → Lots → Type 0
Among l [] = ⊥
Among l (m ∷ lots) = (m ≡ l) ⊎ Among l lots

Among-insert :
    (l m : String × ℕ) (lots : Lots) → Among l (insert_by lot_first m lots) → (m ≡ l) ⊎ Among l lots
unfolding Among insert_by
Among-insert l m [] h = h
Among-insert l m (n ∷ lots) h = elim (Bool-cases (lot_first n m)) [
  | inr first_ ↦
      subst (Among l) (ap (λ b. if b then n ∷ insert_by lot_first m lots else m ∷ n ∷ lots) first_)
        h
  | inl after_ ↦
      elim (subst (Among l)
        (ap (λ b. if b then n ∷ insert_by lot_first m lots else m ∷ n ∷ lots) after_) h) [
          | inl here ↦ inr (inl here)
          | inr later ↦ elim (Among-insert l m lots later) [
            | inl here ↦ inl here
            | inr deep ↦ inr (inr deep)
          ]
        ]
]

Among-sort : (l : String × ℕ) (lots : Lots) → Among l (sort_by lot_first lots) → Among l lots
unfolding Among sort_by
Among-sort l [] h = h
Among-sort l (m ∷ lots) h = elim (Among-insert l m (sort_by lot_first lots) h) [
  | inl here ↦ inl here
  | inr later ↦ inr (Among-sort l lots later)
]

first-Among :
    (cases : ℕ) (lots : Lots) (l : String × ℕ)
    → first (select (λ l. leb cases l.1) lots) ≡ some l
    → Among l lots × (cases ≤ l.1)
unfolding Among
first-Among cases [] l h = cc
first-Among cases (m ∷ lots) l h = elim (Bool-cases (leb cases m.1)) [
  | inl fits ↦
      let same : m ≡ l = some-injective (rw fits at h) in
      (inl same, subst (λ n. cases ≤ n.1) same (leb→le cases m.1 fits))
  | inr less ↦ let rest = first-Among cases lots l (rw less at h) in (inr (rest.0), rest.1)
]

-- The lot that is found is there, with enough cases.
choose_lot_lem :
    (cases : ℕ) (lots : Lots) (l : String × ℕ)
    → choose_lot cases lots ≡ some l
    → Among l lots × (cases ≤ l.1)
unfolding choose_lot
choose_lot_lem cases lots l h =
    let found = first-Among cases (sort_by lot_first lots) l h in
    (Among-sort l lots (found.0), found.1)

absent_lot :
    (lot : String) (lots : Lots) (n : ℕ)
    → contains lot (map (λ l. l.0) lots) ≡ false
    → Among (lot, n) lots
    → ⊥
unfolding Among
absent_lot lot [] n h among = among
absent_lot lot (m ∷ lots) n h (inl here) =
    not-both (lot == m.0) (rw (ap (λ l. l.0) here) (eq_refl lot)) (ground arith)
absent_lot lot (m ∷ lots) n h (inr later) = absent_lot lot lots n (ground arith) later

rest_absent :
    (lot : String) (lots : Lots)
    → contains lot (map (λ l. l.0) lots) ≡ false
    → any (λ (l : String × ℕ). l.0 == lot) lots ≡ false
rest_absent lot [] h = refl
rest_absent lot (m ∷ lots) h = ground (arith, rest_absent lot lots, eq_iff m.0 lot, eq_iff lot m.0)

draw_lot-stock_at :
    (k lot : String) (n cases : ℕ) (lots : Lots)
    → distinct (map (λ l. l.0) lots) ≡ true
    → Among (lot, n) lots
    → cases ≤ n
    → stock_at k (draw_lot lot cases lots) + (if lot == k then cases else 0) ≡ stock_at k lots
unfolding Among draw_lot
draw_lot-stock_at k lot n cases [] apart among fits = absurd among
draw_lot-stock_at k lot n cases (m ∷ lots) apart among fits = elim (Bool-cases (m.0 == lot)) [
  | inl same ↦
      let e = (eq_iff m.0 lot).0 same in
      let gone : contains lot (map (λ l. l.0) lots) ≡ false =
        subst (λ a. contains a (map (λ l. l.0) lots) ≡ false) e (ground arith) in
      let size : m.1 ≡ n = elim among [
        | inl here ↦ ap (λ l. l.1) here
        | inr later ↦ absurd (absent_lot lot lots n gone later)
      ] in
      rw
        (
          same,
          update_where-none (λ l. l.0 == lot) (λ l. (l.0, l.1 - cases)) lots
              (rest_absent lot lots gone),
          e,
        )
        (ground (arith, size))
  | inr other ↦
      let later : Among (lot, n) lots = elim among [
        | inl here ↦ absurd (not-both (m.0 == lot) (rw (ap (λ l. l.0) here) (eq_refl lot)) other)
        | inr later ↦ later
      ] in
      rw other (omega (arith, draw_lot-stock_at k lot n cases lots (ground arith) later fits))
]

draw_lot-ids :
    (lot : String) (cases : ℕ) (lots : Lots)
    → map (λ l. l.0) (draw_lot lot cases lots) ≡ map (λ l. l.0) lots
unfolding draw_lot
draw_lot-ids lot cases lots =
    map-update (λ l. l.0) (λ l. l.0 == lot) (λ l. (l.0, l.1 - cases)) (λ l. refl) lots

initial_ids :
    (safe_lots : List LotRow)
    → map (λ (l : String × ℕ). l.0) (map (λ l. (l.lot_id, l.total_cases)) safe_lots)
      ≡ map (λ l. l.lot_id) safe_lots
initial_ids [] = refl
initial_ids (l ∷ safe_lots) = ap (λ r. l.lot_id ∷ r) (initial_ids safe_lots)

initial_stock :
    (k : String) (safe_lots : List LotRow)
    → stock_at k (map (λ l. (l.lot_id, l.total_cases)) safe_lots)
      ≡ sum_by (λ l. if l.lot_id == k then l.total_cases else 0) safe_lots
initial_stock k [] = refl
initial_stock k (l ∷ safe_lots) = omega (arith, initial_stock k safe_lots)

module _ (plan_id : String) (agency_names : String → Option String) (k : String) where
  place-stock :
      (item : RecoveryShortfallRow) (s : Schedule) (lot : Option (String × ℕ))
      (vehicle : Option WorkVehicle)
      → choose_lot item.cases s.available ≡ lot
      → choose_vehicle item.cases s.vehicles ≡ vehicle
      → distinct (map (λ l. l.0) s.available) ≡ true
      → let t = place plan_id agency_names item s lot vehicle in
        (total (taken_at k) t.vehicles + stock_at k t.available
          ≡ total (taken_at k) s.vehicles + stock_at k s.available)
        × (map (λ l. l.0) t.available ≡ map (λ l. l.0) s.available)
  unfolding place choose_vehicle make_stop
  place-stock item s none vehicle e f apart = (refl, refl)
  place-stock item s (some lot) none e f apart = (refl, refl)
  place-stock item s (some lot) (some vehicle) e f apart = elim (Bool-cases (nat_eq item.cases 0)) [
    | inl nothing ↦ rw nothing (refl, refl)
    | inr some_ ↦
        let found = choose_lot_lem item.cases s.available lot e in
        rw some_ (
          omega (
            arith,
            load_first-total plan_id agency_names (taken_at k) item lot.0
                (if lot.0 == k then item.cases else 0) (λ v. leb item.cases v.remaining) s.vehicles
                (λ v. refl) f,
            draw_lot-stock_at k lot.0 lot.1 item.cases s.available apart (found.0) (found.1),
          ),
          draw_lot-ids lot.0 item.cases s.available,
        )
  ]

  assign_all-stock :
      (s : Schedule) (demand : List RecoveryShortfallRow)
      → distinct (map (λ l. l.0) s.available) ≡ true
      → let t = assign_all plan_id agency_names s demand in
        total (taken_at k) t.vehicles + stock_at k t.available
        ≡ total (taken_at k) s.vehicles + stock_at k s.available
  unfolding assign_all assign
  assign_all-stock s [] apart = refl
  assign_all-stock s (item ∷ demand) apart =
      let here =
        place-stock item s (choose_lot item.cases s.available)
          (choose_vehicle item.cases s.vehicles) refl refl apart in
      assign_all-stock (assign plan_id agency_names s item) demand (ap distinct (here.1) ∙ apart)
      ∙ here.0

-- From no safe lot does the schedule take more cases than the lot holds.
pub candidate_assignments-stock :
    (plan_id : String) (agency_names : String → Option String)
    (shortfalls : List RecoveryShortfallRow) (safe_lots : List LotRow) (fleet : List VehicleRow)
    (k : String)
    → distinct (map (λ l. l.lot_id) safe_lots) ≡ true
    → total_planned
        (taken_at k)
        (candidate_assignments plan_id agency_names shortfalls safe_lots fleet).0
      ≤ sum_by (λ l. if l.lot_id == k then l.total_cases else 0) safe_lots
unfolding candidate_assignments initial_schedule
candidate_assignments-stock plan_id agency_names shortfalls safe_lots fleet k apart =
    let s = initial_schedule safe_lots fleet in
    let t = assign_all plan_id agency_names s (sort_demand shortfalls) in
    omega (
      arith,
      planned-total (taken_at k) t.vehicles,
      assign_all-stock plan_id agency_names k s (sort_demand shortfalls)
          (rw (initial_ids safe_lots) apart),
      initial-total (taken_at k) (sort_by vehicle_first fleet),
      initial_stock k safe_lots,
    )
