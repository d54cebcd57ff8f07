-- ===== src/Replay/Events/Branches.antt =====
-- The isolated proof branches of tools/replay/events.py.
use full_shelf.Prelude.{String, Option, none, some, false, List, [], ◌∷◌, ◌==◌, if◌then◌else◌}
use full_shelf.Replay.Events.Types.{BranchEvent, Branch, branch_event, Validation, info, at}
use full_shelf.Replay.Events.Actors.{partner, armor, agent_partner_ops, policy}

abbrev pub accepted : Validation
accepted = record { status = "ACCEPTED"; reasons = [] }

vague_events : List BranchEvent
vague_events =
    branch_event "b1" "FS-PV1-PARTNER-CALLBACK-RECEIVED" "PARTNER_CALLBACK_RECEIVED" (at 10 15)
      partner
      (info "INFO" "Partner callback received"
        "Authenticated partner callback accepted in an isolated authority." false)
      (accepted)
    ∷ branch_event "b2" "FS-PV2-MODEL-ARMOR-PASSED" "MODEL_ARMOR_PASSED" (at 10 15) armor
        (info "INFO" "Safety screening passed" "No factual sufficiency implied." false) (accepted)
    ∷ branch_event "b3" "FS-PV3-PARTNER-EVIDENCE-PROPOSED" "PARTNER_EVIDENCE_PROPOSED" (at 10 16)
        agent_partner_ops
        (info "ATTENTION" "Partner evidence proposed"
          "Intent understood, but lot, quantity, location, and qualifying disposition remain unsupported."
          false)
        (accepted)
    ∷ branch_event "b4" "FS-PV4-PARTNER-EVIDENCE-DENIED" "PARTNER_EVIDENCE_DENIED" (at 10 16) policy
        (info "REFUSAL" "Partner evidence denied"
          "DENIED. Domain mutations 0, evidence mutations 1. Custody remains 88/96 and the WorkItem stays open."
          false)
        (record { status = "DENIED"; reasons = "INSUFFICIENT_PARTNER_EVIDENCE" ∷ [] })
    ∷ []

unfoldable pub vague_branch : Branch
unfolding vague_events
vague_branch = record {
  fixture_key = "partner_vague";
  label = "ISOLATED SELECTED PROOF";
  unique = 96;
  confirmed = 88;
  unconfirmed = 8;
  domain_mutations = 0;
  evidence_mutations = 1;
  events = vague_events;
}

complete_events : List BranchEvent
complete_events =
    branch_event "b1" "FS-PC1-PARTNER-CALLBACK-RECEIVED" "PARTNER_CALLBACK_RECEIVED" (at 10 18)
      partner
      (info "INFO" "Partner callback received"
        "Authenticated partner callback accepted in an isolated authority." false)
      (accepted)
    ∷ branch_event "b2" "FS-PC2-MODEL-ARMOR-PASSED" "MODEL_ARMOR_PASSED" (at 10 18) armor
        (info "INFO" "Safety screening passed" "No factual sufficiency implied." false) (accepted)
    ∷ branch_event "b3" "FS-PC3-PARTNER-EVIDENCE-PROPOSED" "PARTNER_EVIDENCE_PROPOSED" (at 10 19)
        agent_partner_ops
        (info "ATTENTION" "Partner evidence proposed"
          "Literal lot, quantity, location, disposition, and confirmation time support the open obligation."
          false)
        (accepted)
    ∷ branch_event "b4" "FS-PC4-PARTNER-EVIDENCE-APPLIED" "PARTNER_EVIDENCE_APPLIED" (at 10 19)
        policy
        (info "SUCCESS" "Partner evidence applied in isolation"
          "APPLIED in isolated authority. Domain mutations 2, evidence mutations 1. Branch custody 96/96. Canonical Friday history remains 88/96."
          false)
        (record { status = "ACCEPTED"; reasons = [] })
    ∷ []

unfoldable pub complete_branch : Branch
unfolding complete_events
complete_branch = record {
  fixture_key = "partner_complete";
  label = "ISOLATED SELECTED PROOF";
  unique = 96;
  confirmed = 96;
  unconfirmed = 0;
  domain_mutations = 2;
  evidence_mutations = 1;
  events = complete_events;
}

-- `BRANCHES.get(name)`
unfoldable pub branch_named : String → Option Branch
unfolding vague_branch complete_branch
branch_named name =
    if name == "vague"
    then some vague_branch
    else if name == "complete"
    then some complete_branch
    else none
