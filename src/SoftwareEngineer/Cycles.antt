-- ===== src/SoftwareEngineer/Cycles.antt =====
-- The records of two cycles that ship: a repaired test, and a policy change that the owner approved.
use nexus_agent_platform.Common.{All, ◌≡◌, refl, true, none, some, [], ◌∷◌, is_some, ok}
use nexus_agent_platform.SoftwareEngineer.Models.{CycleDecision, OwnerVerdict}
use nexus_agent_platform.SoftwareEngineer.Tests.{exceeded}
use nexus_agent_platform.SoftwareEngineer.Policy.{Evidence}
use nexus_agent_platform.SoftwareEngineer.Record.{
  CyclePhase, CycleRecord, validate_cycle, validate_ship,
}
use nexus_agent_platform.SoftwareEngineer.Policy.Gates.{IsNoFailure}
use nexus_agent_platform.SoftwareEngineer.Record.Shipped.{
  IsRecordOf, IsSolo, Ships-validate_ship, validate_cycle-IsSolo, validate_cycle-owner,
}
use nexus_agent_platform.SoftwareEngineer.Examples.{
  alone, asked, approval, policy, usage, budget, test_ships,
}

abbrev record_of : Evidence → CycleRecord
record_of e = record {
  cycle_id = 1;
  mode = policy.mode;
  started_at = 10;
  completed_at = 20;
  phase_reached = CyclePhase.closed;
  transitions =
      record {
        sequence = 1;
        source = CyclePhase.created;
        target = CyclePhase.observe;
        reason = "start";
        occurred_at = 10;
      }
      ∷ record {
        sequence = 2;
        source = CyclePhase.observe;
        target = CyclePhase.closed;
        reason = "end";
        occurred_at = 20;
      }
      ∷ [];
  signals = 5 ∷ [];
  candidates = record { candidate_id = 7; title = "repair"; signal_ids = 5 ∷ [] } ∷ [];
  ranking = 7 ∷ [];
  selected_candidate_id = some 7;
  abandoned_candidate_ids = [];
  risk = some e.risk;
  self_review = e.self_review;
  gates = e.gates;
  change = some "aa";
  decision = CycleDecision.ship;
  approval_request = e.request;
  owner_decision = e.owner_decision;
  budget = budget;
  usage = usage;
  failure = none;
}

alone-IsRecordOf : IsRecordOf policy alone (record_of alone)
alone-IsRecordOf = record {
  mode = refl;
  risk = refl;
  changed = refl;
  self_review = refl;
  reviewed = refl;
  gates = refl;
  owner_decision = refl;
  unfailed = refl;
}

alone_valid : validate_cycle (record_of alone) ≡ ok tt
unfolding validate_cycle exceeded
alone_valid = refl

asked_valid : validate_cycle (record_of asked) ≡ ok tt
unfolding validate_cycle exceeded
asked_valid = refl

Ships-validate_ship_example : validate_ship (record_of alone) ≡ ok tt
Ships-validate_ship_example =
    Ships-validate_ship policy alone (record_of alone) alone-IsRecordOf (_, test_ships, refl)

validate_cycle-IsSolo_example : IsSolo (record_of alone)
validate_cycle-IsSolo_example = validate_cycle-IsSolo (record_of alone) alone_valid refl refl

validate_cycle-owner_example :
    (approval.verdict ≡ OwnerVerdict.ship)
    × ((record_of asked).approval_request ≡ some approval.request_id)
    × (is_some (record_of asked).change ≡ true)
    × All IsNoFailure (record_of asked).gates
validate_cycle-owner_example = validate_cycle-owner (record_of asked) approval asked_valid refl refl
