-- ===== src/Replay/Events/Actors.antt =====
-- The actors and the identifiers that the events of tools/replay/events.py name.
use full_shelf.Prelude.{String}
use full_shelf.Replay.Events.Types.{Actor, actor_of}

abbrev pub fleet_inc : String
fleet_inc = "INC-2210"

abbrev pub recall_inc : String
recall_inc = "INC-2231"

abbrev pub system : Actor
system = actor_of "SYSTEM" "full-shelf.orchestrator"

abbrev pub ledger : Actor
ledger = actor_of "SYSTEM" "full-shelf.plan-ledger"

abbrev pub scheduler : Actor
scheduler = actor_of "SYSTEM" "full-shelf.scheduler"

abbrev pub policy : Actor
policy = actor_of "SYSTEM" "full-shelf.deterministic-policy"

abbrev pub projection_service : Actor
projection_service = actor_of "SYSTEM" "full-shelf.projection"

abbrev pub telematics : Actor
telematics = actor_of "EXTERNAL" "fixture-fleet-telematics"

abbrev pub regulator : Actor
regulator = actor_of "EXTERNAL" "fixture-regulatory-feed"

abbrev pub armor : Actor
armor = actor_of "SYSTEM" "full-shelf.model-armor"

abbrev pub partner : Actor
partner = actor_of "EXTERNAL" "fixture-partner-callback"

abbrev pub synthetic_operator : Actor
synthetic_operator = actor_of "HUMAN" "fixture-synthetic-operations-director"

abbrev pub agent_incident_lead : Actor
agent_incident_lead = actor_of "AGENT" "full-shelf.incident-lead.v1"

abbrev pub agent_extraction : Actor
agent_extraction = actor_of "AGENT" "full-shelf.recall-intake-extraction.v2"

abbrev pub agent_custody : Actor
agent_custody = actor_of "AGENT" "full-shelf.network-custody.v2"

abbrev pub agent_fulfillment : Actor
agent_fulfillment = actor_of "AGENT" "full-shelf.fulfillment-planning-recovery.v2"

abbrev pub agent_partner_ops : Actor
agent_partner_ops = actor_of "AGENT" "full-shelf.partner-operations.v2"
