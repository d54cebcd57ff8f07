-- ===== src/Evidence.antt =====
-- packages/domain/full_shelf_domain/partner_evidence.py: the advisory proposal about a partner's
-- custody, its normalisation, and the policy that recomputes every claim. The text fields that no
-- rule reads (rationale, confidence) are left out.
pub mod Decision
use full_shelf.Prelude.{
  ℕ, String, Bool, true, false, not, ◌&&◌, ◌||◌, Option, none, some, List, [], ◌∷◌, ◌++◌, ◌==◌,
  nat_eq, option_eq, is_none, concat, is_in, str_nat, if◌then◌else◌,
}
use full_shelf.Prelude.Errors.{Result, ok, err, validation_error}

pub record PartnerCustodyConfirmationDetails : Type 0 where
  pub schema_version : String
  pub partner_id : String
  pub site_id : String
  pub custody_node_id : String
  pub lot_id : String
  pub expected_cases : ℕ
  pub expected_acknowledgment_status : String
  pub requested_acknowledgment_status : String
  pub hold_incident_id : String
  pub operating_day : String
  pub source_task_name : String

-- `QuotedStringClaim`, and the disposition and time claims, whose values are texts too.
pub record QuotedStringClaim : Type 0 where
  pub value : String
  pub quote : String

pub record QuotedQuantityClaim : Type 0 where
  pub value : ℕ
  pub quote : String

pub record PartnerCustodyProposal : Type 0 where
  pub incident_id : String
  pub partner_id : String
  pub site_id : String
  pub custody_node_id : String
  pub work_item_id : String
  pub expected_acknowledgment_status : String
  pub requested_acknowledgment_status : String
  pub lot : Option QuotedStringClaim
  pub quantity : Option QuotedQuantityClaim
  pub location : Option QuotedStringClaim
  pub disposition : Option QuotedStringClaim
  pub confirmation_time : Option QuotedStringClaim
  pub requested_mutation : Option String
  pub abstain : Bool

-- `any(claim is None for claim in required_claims)`
abbrev pub misses_claim : PartnerCustodyProposal → Bool
misses_claim p =
    is_none p.lot
    || (is_none p.quantity
        || (is_none p.location || (is_none p.disposition || is_none p.confirmation_time)))

-- `missing_claims_force_recorded_abstention`
unfoldable pub normalize_proposal : PartnerCustodyProposal → Result PartnerCustodyProposal
normalize_proposal p =
    let q = if misses_claim p then record p { abstain = true; requested_mutation = none } else p in
    if q.abstain && not (is_none q.requested_mutation)
    then err (validation_error "abstain=True forbids requested_mutation != None")
    else ok q

pub data ClaimState : Type 0 where
  present missing conflicting : ClaimState

pub record ClaimResult : Type 0 where
  pub state : ClaimState
  pub reason : String

pub data Verdict : Type 0 where
  applied denied : Verdict

pub record PartnerEvidenceDecision : Type 0 where
  pub decision : Verdict
  pub reasons : List String
  pub claims : List (String × ClaimResult)

-- `_anchored` of a claim that is there: its quote stands in the source, and its value, as text, in
-- its quote.
unfoldable pub anchored : String → String → String → Bool
anchored source quote value = is_in quote source && is_in value quote

-- One round of the loop over the expected claims: the verdict, and the reason that it adds.
-- `expected` says whether the value is the authoritative one.
judge : String → Bool → Bool → ClaimResult × List String
judge name anchor expected =
    if not anchor
    then (
      record { state = conflicting; reason = "QUOTE_OR_VALUE_NOT_ANCHORED" },
      concat ("UNANCHORED_" ∷ name ∷ "_EVIDENCE" ∷ []) ∷ [],
    )
    else if not expected
    then (
      record { state = conflicting; reason = "AUTHORITATIVE_VALUE_MISMATCH" },
      concat ("CONFLICTING_" ∷ name ∷ "_EVIDENCE" ∷ []) ∷ [],
    )
    else (record { state = present; reason = "LITERAL_SOURCE_ANCHOR" }, [])

absent : String → ClaimResult × List String
absent name = (
  record { state = missing; reason = "CLAIM_NOT_PRESENT" },
  concat ("MISSING_" ∷ name ∷ "_EVIDENCE" ∷ []) ∷ [],
)

unfoldable pub assess :
    String → String → Option QuotedStringClaim → String → ClaimResult × List String
unfolding judge absent
assess name source none expected = absent name
assess name source (some c) expected =
    judge name (anchored source c.quote c.value) (c.value == expected)

unfoldable pub assess_quantity : String → Option QuotedQuantityClaim → ℕ → ClaimResult × List String
unfolding judge absent
assess_quantity source none expected = absent "QUANTITY"
assess_quantity source (some c) expected =
    judge "QUANTITY" (anchored source c.quote (str_nat c.value)) (nat_eq c.value expected)

-- The time claim has no authoritative value.
unfoldable pub assess_time : String → Option QuotedStringClaim → ClaimResult × List String
unfolding judge absent
assess_time source none = absent "CONFIRMATION_TIME"
assess_time source (some c) = judge "CONFIRMATION_TIME" (anchored source c.quote c.value) true

-- `reasons.append(reason)` under a test.
abbrev reason_if : Bool → String → List String
reason_if b reason = if b then reason ∷ [] else []

-- The loop over `expected_targets`.
unfoldable pub mismatches :
    PartnerCustodyProposal → String → PartnerCustodyConfirmationDetails → String → List String
mismatches p work_item_id d incident_id =
    reason_if (not (p.incident_id == incident_id)) "AUTHORITATIVE_INCIDENT_ID_MISMATCH"
    ++ (reason_if (not (p.partner_id == d.partner_id)) "AUTHORITATIVE_PARTNER_ID_MISMATCH"
        ++ (reason_if (not (p.site_id == d.site_id)) "AUTHORITATIVE_SITE_ID_MISMATCH"
            ++ (reason_if (not (p.custody_node_id == d.custody_node_id))
                  "AUTHORITATIVE_CUSTODY_NODE_ID_MISMATCH"
                ++ (reason_if (not (p.work_item_id == work_item_id))
                      "AUTHORITATIVE_WORK_ITEM_ID_MISMATCH"
                    ++ (reason_if
                          (not
                            (p.expected_acknowledgment_status == d.expected_acknowledgment_status))
                          "AUTHORITATIVE_EXPECTED_ACKNOWLEDGMENT_STATUS_MISMATCH"
                        ++ reason_if
                            (not (
                              p.requested_acknowledgment_status
                              == d.requested_acknowledgment_status))
                            "AUTHORITATIVE_REQUESTED_ACKNOWLEDGMENT_STATUS_MISMATCH")))))

-- What the caller passes to the verifier beside the proposal.
pub record Authority : Type 0 where
  pub source_text : String
  pub work_item_id : String
  pub details : PartnerCustodyConfirmationDetails
  pub incident_id : String
  pub node_on_hand_cases : ℕ
  pub node_name : String
  pub incoming_edge_cases : ℕ

-- `reasons` at the end of the function, in the order of its appends.
unfoldable pub reasons_of : PartnerCustodyProposal → Authority → List String
reasons_of p a =
    reason_if p.abstain "AGENT_ABSTAINED"
    ++ (reason_if (not (option_eq p.requested_mutation (some "CONFIRM_CUSTODY")))
          "NO_MUTATION_REQUESTED"
        ++ (mismatches p a.work_item_id a.details a.incident_id
            ++ ((assess "LOT" a.source_text p.lot a.details.lot_id).1
                ++ ((assess_quantity a.source_text p.quantity a.details.expected_cases).1
                    ++ ((assess "LOCATION" a.source_text p.location a.node_name).1
                        ++ ((assess "DISPOSITION" a.source_text p.disposition
                              "ISOLATED_IN_QUARANTINE").1
                            ++ ((assess_time a.source_text p.confirmation_time).1
                                ++ (reason_if
                                      (not (nat_eq a.details.expected_cases a.node_on_hand_cases))
                                      "WORK_ITEM_NODE_QUANTITY_MISMATCH"
                                    ++ reason_if
                                        (not
                                          (nat_eq a.details.expected_cases a.incoming_edge_cases))
                                        "WORK_ITEM_EDGE_QUANTITY_MISMATCH"))))))))

-- `"DENIED" if reasons else "APPLIED"`
abbrev pub verdict : List String → Verdict
verdict [] = applied
verdict (r ∷ rs) = denied

unfoldable pub verify_partner_custody_proposal :
    PartnerCustodyProposal → Authority → PartnerEvidenceDecision
verify_partner_custody_proposal p a =
    let source = a.source_text in
    record {
      decision = verdict (reasons_of p a);
      reasons = reasons_of p a;
      claims =
          ("lot", (assess "LOT" source p.lot a.details.lot_id).0)
          ∷ ("quantity", (assess_quantity source p.quantity a.details.expected_cases).0)
          ∷ ("location", (assess "LOCATION" source p.location a.node_name).0)
          ∷ ("disposition", (assess "DISPOSITION" source p.disposition "ISOLATED_IN_QUARANTINE").0)
          ∷ ("confirmation_time", (assess_time source p.confirmation_time).0)
          ∷ [];
    }
