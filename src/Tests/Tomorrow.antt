-- ===== src/Tests/Tomorrow.antt =====
-- A day that leaves an open recall: the command for tomorrow's draft.
use full_shelf.Prelude.{ℕ, String, false, ◌⊎◌, ◌≡◌, refl, map, distinct, some, [], ◌∷◌}
use full_shelf.Prelude.Errors.{ok}
use full_shelf.Prelude.Sorting.{sort_by}
use full_shelf.Ledger.Json.{text, num, obj, end, field, get, get_text, get_num, find_field}
use full_shelf.Ledger.Database.{Database}
use full_shelf.Ledger.Commands.{Environment, LedgerCommand, create_next_day_draft}
use full_shelf.Ledger.Payloads.{CreateNextDayDraftPayload, NextDayShortfallPayload}
use full_shelf.Ledger.Validators.{validated_payload}
use full_shelf.Planning.Tomorrow.{read_continuity}
use full_shelf.Planning.Tomorrow.Draft.{next_day_command, generate_next_day_plan}
use full_shelf.Planning.Tomorrow.Complete.{Inherits, generate_next_day_plan-validated}
use full_shelf.Tests.Fixtures.{env, tenant, base, recall}

abbrev reading : Environment
reading = record env {
  loads = λ s. some (
      obj (
        field "parent_incident_id" (text "INC-1")
          (field "site_id" (text "SITE-1") (field "unconfirmed_cases" (num 8) end))));
}

abbrev evening : Database
evening = record base {
  incidents =
      recall
      ∷ record recall {
        incident_id = "HOLD-1";
        incident_type = "DEADLINE_HOLD";
        status = "ACKNOWLEDGMENT_HOLD_ACTIVE";
      }
      ∷ [];
  movement_barriers =
      record {
        tenant_id = tenant;
        barrier_id = "BAR-1";
        incident_id = "INC-1";
        lot_id = "LOT-1";
        status = "ACTIVE";
        reason = "recall";
      }
      ∷ [];
}

abbrev iso : ℕ → String
iso day = "2026-07-16"

abbrev command : LedgerCommand
command =
    next_day_command reading iso evening tenant "TRACE-1" "2026-07-15" "2026-07-16"
      (read_continuity reading evening tenant)

generate_next_day_plan-validated_example :
    (p : CreateNextDayDraftPayload) × (command.payload ≡ create_next_day_draft p)
    × (command.tenant_id ≡ tenant)
    × Inherits reading evening tenant p
    × ((distinct (map (λ (s : NextDayShortfallPayload). s.shortfall_id) p.shortfalls) ≡ false)
        ⊎ (validated_payload reading command.payload ≡ ok command.payload))
unfolding generate_next_day_plan read_continuity sort_by get_text get_num get find_field
generate_next_day_plan-validated_example =
    generate_next_day_plan-validated reading iso (λ c. ok tt) evening tenant "TRACE-1" "2026-07-15"
      command refl
