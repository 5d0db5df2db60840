-- ===== src/SoftwareEngineer/Examples.antt =====
-- Changes under the ship policy: one that ships on its own, one that the owner ships, and one that
-- touches a governing path. Tests of the definitions, and the theorems at these inputs.
use nexus_agent_platform.Common.{
  ℕ, String, ◌≡◌, refl, ◌↔◌, true, false, Option, none, some, List, [], ◌∷◌, map, All, ok, err,
  codes,
}
use mathlib.Core.List.{Memᴰ}
use nexus_agent_platform.Atlas.Models.{human}
use nexus_agent_platform.SoftwareEngineer.Models.{
  Channel, ChangeCategory, CycleBudget, CycleDecision, CycleMode, CycleUsage, GateResult,
  GateStatus, OwnerDecision, OwnerVerdict, ReviewAnswer, ReviewItem, ReviewQuestion, RiskAssessment,
  RiskLevel, SelfReview, ValidationGate,
}
use nexus_agent_platform.SoftwareEngineer.Policy.{
  Evidence, ShipPolicy, decide, without_owner, Reason,
}
use nexus_agent_platform.SoftwareEngineer.Tests.{
  exceeded, gates_passed, is_nonempty, required_gates, requires_human, GateReason,
}
use nexus_agent_platform.SoftwareEngineer.Policy.Gates.{
  GatesHold, IsWithinCycle, exceeded_iff, gates_passed_iff, requires_human_iff,
}
use nexus_agent_platform.SoftwareEngineer.Policy.Shipping.{
  IsAutonomous, IsOwnerShip, Ships, Ships-after_owner_iff, Ships-alone_iff,
}
use nexus_agent_platform.SoftwareEngineer.Risk.{
  ChangeFacts, RiskFault, classify_change, path_risk, governing_path_prefixes,
}
use nexus_agent_platform.PatchForge.Paths.{repository_path}
use nexus_agent_platform.SoftwareEngineer.Paths.{
  path_matches, is_sensitive_path, is_evaluation_config_path,
}
use nexus_agent_platform.SoftwareEngineer.Risk.Assessment.{governing_never_alone}

abbrev pub budget : CycleBudget
budget = record {
  max_runtime_seconds = 3600;
  max_turns = 100;
  max_tool_calls = 200;
  max_model_calls = 50;
  max_input_tokens = 100000;
  max_output_tokens = 10000;
  max_cost_usd = some 2000000;
  max_changed_files = 5;
  max_diff_bytes = 20000;
}

abbrev pub usage : CycleUsage
usage = record {
  runtime_seconds = 90000000;
  turns = 12;
  tool_calls = 40;
  model_calls = 10;
  input_tokens = 50000;
  output_tokens = 2000;
  cost_usd = some 400000;
  changed_files = 1;
  diff_bytes = 900;
}

-- Paths in the example are in lower case already.
abbrev same_case : List ℕ → List ℕ
same_case cs = cs

abbrev facts_of : ChangeCategory → String → ChangeFacts
facts_of category path = record {
  category = category;
  paths = path ∷ [];
  additions = 12;
  deletions = 0;
  diff_bytes = 900;
  derived_from_untrusted_text = false;
}

abbrev test_facts : ChangeFacts
test_facts = facts_of ChangeCategory.test_repair "tests/unit/test_risk.py"

abbrev policy_facts : ChangeFacts
policy_facts = facts_of ChangeCategory.formatting "src/nexus/atlas/policy.py"

abbrev pub policy : ShipPolicy
policy = record { mode = CycleMode.autonomous_low_risk; budget = budget }

abbrev pass : ValidationGate → GateResult
pass gate = record {
  gate = gate;
  status = GateStatus.passed;
  summary = "passed";
  evidence_sha256 = some "digest";
}

abbrev clear_item : ReviewQuestion → ReviewItem
clear_item question = record { question = question; answer = ReviewAnswer.clear; note = "none" }

abbrev review : SelfReview
review = record {
  items = map clear_item (
      ReviewQuestion.root_cause ∷ ReviewQuestion.other_paths ∷ ReviewQuestion.public_behavior
      ∷ ReviewQuestion.invariant ∷ ReviewQuestion.test_weakened ∷ ReviewQuestion.race
      ∷ ReviewQuestion.nondeterminism ∷ ReviewQuestion.complexity ∷ ReviewQuestion.hidden_state
      ∷ ReviewQuestion.sensitive_data ∷ ReviewQuestion.prompt_injection ∷ ReviewQuestion.tests_cover
      ∷ ReviewQuestion.smaller ∷ ReviewQuestion.human_review ∷ []);
  reviewed_diff_sha256 = some "digest";
}

abbrev evidence_of : RiskAssessment → Option OwnerDecision → Evidence
evidence_of risk owner_decision = record {
  risk = risk;
  gates = map pass required_gates;
  self_review = some review;
  usage = usage;
  request = some 31;
  owner_decision = owner_decision;
  plan_only = false;
}

abbrev pub approval : OwnerDecision
approval = record {
  decision_id = 41;
  request_id = 31;
  verdict = OwnerVerdict.ship;
  decided_by = record { actor_type = human; actor_id = "owner" };
  reason = "Looks right";
  channel = Channel.cli;
  decided_at = 100;
}

abbrev test_risk : RiskAssessment
test_risk = record {
  level = RiskLevel.low;
  category_level = RiskLevel.low;
  path_level = RiskLevel.low;
  size_level = RiskLevel.low;
  uncertain = false;
  governing_paths = [];
}

abbrev policy_risk : RiskAssessment
policy_risk = record {
  level = RiskLevel.high;
  category_level = RiskLevel.low;
  path_level = RiskLevel.high;
  size_level = RiskLevel.low;
  uncertain = false;
  governing_paths = codes "src/nexus/atlas/policy.py" ∷ [];
}

test_assessed : classify_change same_case test_facts budget ≡ ok test_risk
unfolding classify_change path_risk path_matches is_evaluation_config_path is_sensitive_path
    repository_path
test_assessed = refl

policy_assessed : classify_change same_case policy_facts budget ≡ ok policy_risk
unfolding classify_change path_risk path_matches is_evaluation_config_path is_sensitive_path
    repository_path
policy_assessed = refl

-- A governing path that climbs is refused by the contract of the assessment.
climbing_refused :
    classify_change same_case (facts_of ChangeCategory.formatting "infra/../x") budget
    ≡ err RiskFault.bad_governing_path
unfolding classify_change path_risk path_matches is_evaluation_config_path is_sensitive_path
    repository_path
climbing_refused = refl

abbrev pub alone : Evidence
alone = evidence_of test_risk none

abbrev pub asked : Evidence
asked = evidence_of policy_risk (some approval)

abbrev governed : Evidence
governed = evidence_of policy_risk none

-- A repaired test ships on its own.
pub test_ships :
    decide policy alone
    ≡ ok (record {
      decision = CycleDecision.ship;
      reasons = Reason.gates GateReason.every_one_passed ∷ Reason.clean ∷ [];
    })
unfolding decide without_owner exceeded gates_passed requires_human
test_ships = refl

policy_governs : path_matches "src/nexus/atlas/policy.py" governing_path_prefixes ≡ true
unfolding path_matches
policy_governs = refl

Ships-alone_iff_example : Ships policy alone ↔ IsAutonomous policy alone
Ships-alone_iff_example = Ships-alone_iff policy alone refl

Ships-after_owner_iff_example : Ships policy asked ↔ IsOwnerShip policy asked approval
Ships-after_owner_iff_example = Ships-after_owner_iff policy asked approval refl

governing_never_alone_example : ¬ (Ships policy governed)
governing_never_alone_example =
    governing_never_alone same_case policy_facts budget "src/nexus/atlas/policy.py" policy governed
      (Memᴰ.head refl) policy_governs policy_assessed refl

gates_passed_iff_example :
    ((gates_passed (map pass required_gates) required_gates).0 ≡ true)
    ↔ GatesHold (map pass required_gates) required_gates
gates_passed_iff_example = gates_passed_iff (map pass required_gates) required_gates

exceeded_iff_example : (is_nonempty (exceeded usage budget) ≡ false) ↔ IsWithinCycle usage budget
exceeded_iff_example = exceeded_iff usage budget

requires_human_iff_example :
    (requires_human review ≡ false) ↔ All (λ item. item.answer ≡ ReviewAnswer.clear) review.items
requires_human_iff_example = requires_human_iff review
