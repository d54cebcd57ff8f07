-- ===== src/Evidence/Decision.antt =====
-- When partner evidence is applied.
use full_shelf.Prelude.{
  ℕ, String, ◌&&◌, is_none, sym, subst, not-both, Bool-cases, inl, inr, if◌then◌else◌, Bool, true,
  false, not, ◌≡◌, refl, ap, ◌↔◌, Option, none, some, List, [], ◌∷◌, ◌++◌, arith, eq_iff, str_nat,
  option_eq_iff, nat_eq→eq,
}
use full_shelf.Prelude.Errors.{ok, err, validation_error, ok-injective, err-ok}
use full_shelf.Evidence.{
  QuotedStringClaim, QuotedQuantityClaim, PartnerCustodyProposal, Authority, applied, denied,
  misses_claim, normalize_proposal, anchored, reason_if, mismatches, assess, assess_quantity,
  assess_time, reasons_of, verdict, verify_partner_custody_proposal,
}

-- A text claim that is there, anchored in the source, with the authoritative value.
abbrev pub Proves : String → Option QuotedStringClaim → String → Type 0
Proves source claim expected =
    (c : QuotedStringClaim) × (claim ≡ some c)
    × (anchored source c.quote c.value ≡ true)
    × (c.value ≡ expected)

abbrev pub ProvesQuantity : String → Option QuotedQuantityClaim → ℕ → Type 0
ProvesQuantity source claim expected =
    (c : QuotedQuantityClaim) × (claim ≡ some c)
    × (anchored source c.quote (str_nat c.value) ≡ true)
    × (c.value ≡ expected)

abbrev pub ProvesTime : String → Option QuotedStringClaim → Type 0
ProvesTime source claim =
    (c : QuotedStringClaim) × (claim ≡ some c) × (anchored source c.quote c.value ≡ true)

abbrev pub Targets : PartnerCustodyProposal → Authority → Type 0
Targets p a =
    (p.incident_id ≡ a.incident_id)
    × (p.partner_id ≡ a.details.partner_id)
    × (p.site_id ≡ a.details.site_id)
    × (p.custody_node_id ≡ a.details.custody_node_id)
    × (p.work_item_id ≡ a.work_item_id)
    × (p.expected_acknowledgment_status ≡ a.details.expected_acknowledgment_status)
    × (p.requested_acknowledgment_status ≡ a.details.requested_acknowledgment_status)

-- All that the policy asks of a proposal.
pub record IsSupported (p : PartnerCustodyProposal) (a : Authority) : Type 0 where
  pub asserts : p.abstain ≡ false
  pub requests : p.requested_mutation ≡ some "CONFIRM_CUSTODY"
  pub targets : Targets p a
  pub lot : Proves a.source_text p.lot a.details.lot_id
  pub quantity : ProvesQuantity a.source_text p.quantity a.details.expected_cases
  pub location : Proves a.source_text p.location a.node_name
  pub disposition : Proves a.source_text p.disposition "ISOLATED_IN_QUARANTINE"
  pub time : ProvesTime a.source_text p.confirmation_time
  pub node_agrees : a.details.expected_cases ≡ a.node_on_hand_cases
  pub edge_agrees : a.details.expected_cases ≡ a.incoming_edge_cases

append-eq-nil : (xs ys : List String) → xs ++ ys ≡ [] → (xs ≡ []) × (ys ≡ [])
append-eq-nil [] ys h = (refl, h)
append-eq-nil (x ∷ xs) ys h = cc

assess-nil :
    (name source : String) (claim : Option QuotedStringClaim) (expected : String)
    → (assess name source claim expected).1 ≡ []
    → Proves source claim expected
unfolding assess
assess-nil name source none expected h = cc
assess-nil name source (some c) expected h =
    (c, refl, ground arith, ground (arith, eq_iff c.value expected))

assess_quantity-nil :
    (source : String) (claim : Option QuotedQuantityClaim) (expected : ℕ)
    → (assess_quantity source claim expected).1 ≡ []
    → ProvesQuantity source claim expected
unfolding assess_quantity
assess_quantity-nil source none expected h = cc
assess_quantity-nil source (some c) expected h = (c, refl, ground arith, ground arith)

assess_time-nil :
    (source : String) (claim : Option QuotedStringClaim)
    → (assess_time source claim).1 ≡ []
    → ProvesTime source claim
unfolding assess_time
assess_time-nil source none h = cc
assess_time-nil source (some c) h = (c, refl, ground arith)

reason_if-nil : (b : Bool) (s : String) → reason_if (not b) s ≡ [] → b ≡ true
reason_if-nil true s h = refl
reason_if-nil false s h = cc

unless-nil : (b : Bool) (s : String) → reason_if b s ≡ [] → b ≡ false
unless-nil true s h = cc
unless-nil false s h = refl

assess_nil_of :
    (name source : String) (claim : Option QuotedStringClaim) (expected : String)
    → Proves source claim expected
    → (assess name source claim expected).1 ≡ []
unfolding assess
assess_nil_of name source claim expected (c, e, t, v) =
    rw e (ground (arith, eq_iff c.value expected))

assess_quantity_nil_of :
    (source : String) (claim : Option QuotedQuantityClaim) (expected : ℕ)
    → ProvesQuantity source claim expected
    → (assess_quantity source claim expected).1 ≡ []
unfolding assess_quantity
assess_quantity_nil_of source claim expected (c, e, t, v) = rw e (ground arith)

assess_time_nil_of :
    (source : String) (claim : Option QuotedStringClaim)
    → ProvesTime source claim
    → (assess_time source claim).1 ≡ []
unfolding assess_time
assess_time_nil_of source claim (c, e, t) = rw e (ground arith)

mismatches-nil :
    (p : PartnerCustodyProposal) (a : Authority)
    → (mismatches p a.work_item_id a.details a.incident_id ≡ []) ↔ Targets p a
unfolding mismatches
mismatches-nil p a = ground (
  arith,
  eq_iff p.incident_id a.incident_id,
  eq_iff p.partner_id a.details.partner_id,
  eq_iff p.site_id a.details.site_id,
  eq_iff p.custody_node_id a.details.custody_node_id,
  eq_iff p.work_item_id a.work_item_id,
  eq_iff p.expected_acknowledgment_status a.details.expected_acknowledgment_status,
  eq_iff p.requested_acknowledgment_status a.details.requested_acknowledgment_status,
)

supported : (p : PartnerCustodyProposal) (a : Authority) → reasons_of p a ≡ [] → IsSupported p a
unfolding reasons_of
supported p a h =
    let (h1, r1) = append-eq-nil _ _ h in
    let (h2, r2) = append-eq-nil _ _ r1 in
    let (h3, r3) = append-eq-nil _ _ r2 in
    let (h4, r4) = append-eq-nil _ _ r3 in
    let (h5, r5) = append-eq-nil _ _ r4 in
    let (h6, r6) = append-eq-nil _ _ r5 in
    let (h7, r7) = append-eq-nil _ _ r6 in
    let (h8, r8) = append-eq-nil _ _ r7 in
    let (h9, h10) = append-eq-nil _ _ r8 in
    record {
      asserts = unless-nil _ _ h1;
      requests = (option_eq_iff _ _).0 (reason_if-nil _ _ h2);
      targets = (mismatches-nil p a).0 h3;
      lot = assess-nil _ _ _ _ h4;
      quantity = assess_quantity-nil _ _ _ h5;
      location = assess-nil _ _ _ _ h6;
      disposition = assess-nil _ _ _ _ h7;
      time = assess_time-nil _ _ h8;
      node_agrees = nat_eq→eq _ _ (reason_if-nil _ _ h9);
      edge_agrees = nat_eq→eq _ _ (reason_if-nil _ _ h10);
    }

supported_back :
    (p : PartnerCustodyProposal) (a : Authority) → IsSupported p a → reasons_of p a ≡ []
unfolding reasons_of mismatches
supported_back p a s =
    rw
      (
        s.asserts,
        (option_eq_iff p.requested_mutation _).1 s.requests,
        (mismatches-nil p a).1 s.targets,
        assess_nil_of "LOT" _ _ _ s.lot,
        assess_quantity_nil_of _ _ _ s.quantity,
        assess_nil_of "LOCATION" _ _ _ s.location,
        assess_nil_of "DISPOSITION" _ _ _ s.disposition,
        assess_time_nil_of _ _ s.time,
      )
      (ground arith)

applied-nil : (rs : List String) → verdict rs ≡ applied → rs ≡ []
applied-nil [] h = refl
applied-nil (r ∷ rs) h = cc

-- The policy applies partner evidence exactly when the agent asserts it and requests the custody
-- confirmation, every target identifier is the authoritative one, each of the five claims is there
-- with a quote that stands in the source text and holds its value, the four values that have an
-- authoritative counterpart equal it, and the expected cases are those of the node and of the
-- incoming edge.
pub applied_iff :
    (p : PartnerCustodyProposal) (a : Authority)
    → ((verify_partner_custody_proposal p a).decision ≡ applied) ↔ IsSupported p a
unfolding verify_partner_custody_proposal
applied_iff p a = (λ h. supported p a (applied-nil _ h), λ s. ap verdict (supported_back p a s))

-- The five claims are there.
abbrev pub HasClaims : PartnerCustodyProposal → Type 0
HasClaims p =
    (is_none p.lot ≡ false)
    × (is_none p.quantity ≡ false)
    × (is_none p.location ≡ false)
    × (is_none p.disposition ≡ false)
    × (is_none p.confirmation_time ≡ false)

unasked : (o : Option String) (b : Bool) → b ≡ true → (b && not (is_none o)) ≡ false → o ≡ none
unasked none b f h = refl
unasked (some t) b f h = not-both (b && true) (ground (arith, f)) h

abbrev IsNormalised : PartnerCustodyProposal → Authority → PartnerCustodyProposal → Type 0
IsNormalised p a q =
    ((q.abstain ≡ false) ↔ ((p.abstain ≡ false) × HasClaims p))
    × (q.abstain ≡ true
        → (q.requested_mutation ≡ none) × ((verify_partner_custody_proposal q a).decision ≡ denied))

-- A proposal that is normalised without an error is left without abstention exactly when the agent
-- did not abstain and the lot, the quantity, the location, the disposition and the confirmation time
-- are all claimed; otherwise it requests no mutation, and the policy denies it under any authority.
pub normalize-denied :
    (p q : PartnerCustodyProposal) (a : Authority)
    → normalize_proposal p ≡ ok q
    → ((q.abstain ≡ false) ↔ ((p.abstain ≡ false) × HasClaims p))
      × (q.abstain ≡ true
          → (q.requested_mutation ≡ none)
            × ((verify_partner_custody_proposal q a).decision ≡ denied))
unfolding normalize_proposal verify_partner_custody_proposal reasons_of
normalize-denied p q a h = elim (Bool-cases (misses_claim p)) [
  | inl missing_ ↦
      let silent = record p { abstain = true; requested_mutation = none } in
      let e : silent ≡ q = ok-injective (rw missing_ at h) in
      (
        (
          λ f. not-both q.abstain (sym (ap (λ r. r.abstain) e)) f,
          λ (_, (lot, quantity, location, disposition, time)).
              not-both (misses_claim p) missing_
                (ground (arith, lot, quantity, location, disposition, time)),
        ),
        λ _. (
          sym (ap (λ r. r.requested_mutation) e),
          subst (λ r. (verify_partner_custody_proposal r a).decision ≡ denied) e refl,
        ),
      )
  | inr claimed ↦
      let passed : (if p.abstain && not (is_none p.requested_mutation)
            then err (validation_error "abstain=True forbids requested_mutation != None")
            else ok p)
          ≡ ok q =
        rw claimed at h in
      elim (Bool-cases (p.abstain && not (is_none p.requested_mutation))) [
        | inl refused ↦ err-ok (rw refused at passed)
        | inr allowed ↦
            let e : p ≡ q = ok-injective (rw allowed at passed) in
            subst (IsNormalised p a) e (
              (
                λ f. (
                  f,
                  (
                    ground (arith, claimed),
                    ground (arith, claimed),
                    ground (arith, claimed),
                    ground (arith, claimed),
                    ground (arith, claimed),
                  ),
                ),
                λ f. f.0,
              ),
              λ f. (unasked p.requested_mutation p.abstain f allowed, rw f refl),
            )
      ]
]
