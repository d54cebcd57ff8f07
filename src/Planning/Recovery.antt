-- ===== src/Planning/Recovery.antt =====
-- apps/orchestrator/src/main.py, `_derive_safe_recovery`: safe stock for the orders of a recalled lot.
pub mod Conservation
pub mod Decision
use full_shelf.Prelude.{
  ℕ, ◌-◌, String, Bool, true, false, ◌&&◌, ◌||◌, not, List, [], ◌∷◌, ◌++◌, leb, nat_eq, concat,
  if◌then◌else◌,
}
use full_shelf.Prelude.Errors.{Result, ok, http_error, ◌>>=◌, ◌>>◌, raise_if}
use full_shelf.Ledger.Commands.{Environment}

-- A row of the safe lots, and what is left of it.
pub record SafeLot : Type 0 where
  pub lot_id : String
  pub cases : ℕ

-- A row of the orders that the recall affects.
pub record AffectedOrder : Type 0 where
  pub order_id : String
  pub agency_id : String
  pub cases : ℕ

pub record DerivedAllocation : Type 0 where
  pub allocation_id : String
  pub agency_id : String
  pub lot_id : String
  pub cases : ℕ

pub record DerivedShortfall : Type 0 where
  pub shortfall_id : String
  pub agency_id : String
  pub cases : ℕ

-- What the loops carry: the allocations, the shortfalls and the lots with what is left.
pub record Recovery : Type 0 where
  pub allocations : List DerivedAllocation
  pub shortfalls : List DerivedShortfall
  pub remaining : List SafeLot

-- `min(a, b)`
unfoldable pub least : ℕ → ℕ → ℕ
least a b = if leb a b then a else b

abbrev pub is_empty {ℓ} : {A : Type ℓ} → List A → Bool
is_empty [] = true
is_empty (x ∷ xs) = false

-- What one order draws: its allocations, the lots after it and what it still lacks.
pub record Drawn : Type 0 where
  pub taken : List DerivedAllocation
  pub left : List SafeLot
  pub unmet : ℕ

module _ (x : Environment) (incident_id : String) where
  -- `hexdigest()[:20].upper()`
  abbrev digest_20 : String → String
  digest_20 material = x.upper (x.prefix 20 (x.sha256_hex material))

  allocation_of : AffectedOrder → SafeLot → ℕ → DerivedAllocation
  allocation_of o l assigned = record {
    allocation_id = concat (
        "ALLOC-"
        ∷ digest_20 (concat (incident_id ∷ "\0" ∷ o.agency_id ∷ "\0" ∷ l.lot_id ∷ []))
        ∷ []);
    agency_id = o.agency_id;
    lot_id = l.lot_id;
    cases = assigned;
  }

  shortfall_of : AffectedOrder → ℕ → DerivedShortfall
  shortfall_of o unmet = record {
    shortfall_id = concat (
        "SHORT-"
        ∷ digest_20 (concat (incident_id ∷ "\0" ∷ o.agency_id ∷ "\0" ∷ o.order_id ∷ []))
        ∷ []);
    agency_id = o.agency_id;
    cases = unmet;
  }

  -- The loop over the lots, for one order.
  unfoldable pub draw_lots : AffectedOrder → ℕ → List SafeLot → Drawn
  unfolding least allocation_of
  draw_lots o unmet [] = record { taken = []; left = []; unmet = unmet }
  draw_lots o unmet (l ∷ lots) =
      let assigned = least unmet l.cases in
      let rest = draw_lots o (unmet - assigned) lots in
      if nat_eq unmet 0
      then record { taken = []; left = l ∷ lots; unmet = unmet }
      else if nat_eq assigned 0
      then record { taken = rest.taken; left = l ∷ rest.left; unmet = rest.unmet }
      else record {
        taken = allocation_of o l assigned ∷ rest.taken;
        left = record l { cases = l.cases - assigned } ∷ rest.left;
        unmet = rest.unmet;
      }

  unfoldable pub short_of : AffectedOrder → ℕ → List DerivedShortfall
  unfolding shortfall_of
  short_of o unmet = if nat_eq unmet 0 then [] else shortfall_of o unmet ∷ []

  -- The loop over the orders.
  unfoldable pub recover_orders : List AffectedOrder → List SafeLot → Recovery
  unfolding draw_lots short_of
  recover_orders [] lots = record { allocations = []; shortfalls = []; remaining = lots }
  recover_orders (o ∷ orders) lots =
      let drawn = draw_lots o o.cases lots in
      let rest = recover_orders orders drawn.left in
      record {
        allocations = drawn.taken ++ rest.allocations;
        shortfalls = short_of o drawn.unmet ++ rest.shortfalls;
        remaining = rest.remaining;
      }

  unfoldable pub derive_safe_recovery :
      List SafeLot → List AffectedOrder → Result (List DerivedAllocation × List DerivedShortfall)
  unfolding recover_orders
  derive_safe_recovery safe_lots affected_orders =
      let r = recover_orders affected_orders safe_lots in
      do
        raise_if (is_empty r.allocations || is_empty r.shortfalls)
            (http_error 409 "PARTIAL_RECOVERY_POLICY_INPUTS_REQUIRED")
        ok (r.allocations, r.shortfalls)
