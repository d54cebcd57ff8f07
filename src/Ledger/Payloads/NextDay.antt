-- ===== src/Ledger/Payloads/NextDay.antt =====
-- ledger_commands.py: the payload of CREATE_NEXT_DAY_DRAFT.
use full_shelf.Prelude.{ℕ, String, List}

pub record NextDayBarrierPayload : Type 0 where
  pub barrier_id : String
  pub lot_id : String

pub record NextDayShortfallPayload : Type 0 where
  pub shortfall_id : String
  pub agency_id : String
  pub cases : ℕ

pub record NextDayAcknowledgmentHoldPayload : Type 0 where
  pub hold_incident_id : String
  pub site_id : String
  pub unconfirmed_cases : ℕ

pub record NextDayCandidateStopPayload : Type 0 where
  pub order_id : String
  pub agency_id : String
  pub agency_name : String
  pub cases : ℕ
  pub lot_id : String
  pub vehicle_id : String
  pub sequence : ℕ
  pub shortfall_id : String
  pub status : String

pub record NextDayCandidateVehiclePayload : Type 0 where
  pub vehicle_id : String
  pub capacity_cases : ℕ
  pub committed_load_cases : ℕ
  pub candidate_load_cases : ℕ
  pub stops : List NextDayCandidateStopPayload

pub record NextDayUnassignedDemandPayload : Type 0 where
  pub shortfall_id : String
  pub agency_id : String
  pub cases : ℕ
  pub reason : String

pub record CreateNextDayDraftPayload : Type 0 where
  pub source_event_id : String
  pub source_operating_day : String
  pub event_type : String
  pub operating_date : String
  pub plan_id : String
  pub revision : String
  pub status : String
  pub coordinator_id : String
  pub barriers : List NextDayBarrierPayload
  pub shortfalls : List NextDayShortfallPayload
  pub acknowledgment_holds : List NextDayAcknowledgmentHoldPayload
  pub candidate_vehicles : List NextDayCandidateVehiclePayload
  pub unassigned_demand : List NextDayUnassignedDemandPayload
