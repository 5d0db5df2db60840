-- ===== src/SoftwareEngineer/Models.antt =====
-- Contracts of src/nexus/software_engineer/models.py that the ship policy and the risk
-- classification read. Floating-point amounts are only compared: times are in microseconds and
-- costs in millionths of a dollar.
use nexus_agent_platform.Common.{ℕ, String, Bool, true, false, Option, List, ltb, if◌then◌else◌}
use nexus_agent_platform.Atlas.Models.{ActorIdentity}

pub data RiskLevel : Type 0 where
  low : RiskLevel
  medium : RiskLevel
  high : RiskLevel

-- `RiskLevel.rank`
abbrev pub rank : RiskLevel → ℕ
rank RiskLevel.low = 0
rank RiskLevel.medium = 1
rank RiskLevel.high = 2

abbrev pub raised : RiskLevel → RiskLevel
raised RiskLevel.low = RiskLevel.medium
raised RiskLevel.medium = RiskLevel.high
raised RiskLevel.high = RiskLevel.high

-- `max` of two levels by rank
abbrev pub highest : RiskLevel → RiskLevel → RiskLevel
highest a b = if ltb (rank a) (rank b) then b else a

pub data ChangeCategory : Type 0 where
  documentation_correction : ChangeCategory
  test_repair : ChangeCategory
  micro_bug_fix : ChangeCategory
  defensive_check : ChangeCategory
  formatting : ChangeCategory
  type_annotation : ChangeCategory
  dead_code_removal : ChangeCategory
  micro_refactor : ChangeCategory
  behavior_change : ChangeCategory
  refactor : ChangeCategory
  dependency_update : ChangeCategory
  performance_change : ChangeCategory
  prompt_change : ChangeCategory
  tool_selection_change : ChangeCategory
  evaluator_change : ChangeCategory
  persistent_state_change : ChangeCategory
  model_behavior_change : ChangeCategory
  api_change : ChangeCategory
  authentication : ChangeCategory
  authorization : ChangeCategory
  secrets : ChangeCategory
  security_boundary : ChangeCategory
  data_migration : ChangeCategory
  schema_change : ChangeCategory
  infrastructure : ChangeCategory
  deployment_configuration : ChangeCategory
  spending_control : ChangeCategory
  data_deletion : ChangeCategory
  autonomy_limit : ChangeCategory
  approval_policy : ChangeCategory
  tool_access_expansion : ChangeCategory
  self_governance : ChangeCategory
  benchmark_threshold : ChangeCategory
  safety_control : ChangeCategory
  unknown : ChangeCategory

-- The low categories, then the medium ones; any other is high.
abbrev pub category_risk : ChangeCategory → RiskLevel
category_risk ChangeCategory.documentation_correction = RiskLevel.low
category_risk ChangeCategory.test_repair = RiskLevel.low
category_risk ChangeCategory.micro_bug_fix = RiskLevel.low
category_risk ChangeCategory.defensive_check = RiskLevel.low
category_risk ChangeCategory.formatting = RiskLevel.low
category_risk ChangeCategory.type_annotation = RiskLevel.low
category_risk ChangeCategory.dead_code_removal = RiskLevel.low
category_risk ChangeCategory.micro_refactor = RiskLevel.low
category_risk ChangeCategory.behavior_change = RiskLevel.medium
category_risk ChangeCategory.refactor = RiskLevel.medium
category_risk ChangeCategory.dependency_update = RiskLevel.medium
category_risk ChangeCategory.performance_change = RiskLevel.medium
category_risk ChangeCategory.prompt_change = RiskLevel.medium
category_risk ChangeCategory.tool_selection_change = RiskLevel.medium
category_risk ChangeCategory.evaluator_change = RiskLevel.medium
category_risk ChangeCategory.persistent_state_change = RiskLevel.medium
category_risk ChangeCategory.model_behavior_change = RiskLevel.medium
category_risk ChangeCategory.api_change = RiskLevel.medium
category_risk _ = RiskLevel.high

-- `RiskAssessment`, less the reasons, which are text for the owner
pub record RiskAssessment : Type 0 where
  pub level : RiskLevel
  pub category_level : RiskLevel
  pub path_level : RiskLevel
  pub size_level : RiskLevel
  pub uncertain : Bool
  pub governing_paths : List (List ℕ)

pub data CycleMode : Type 0 where
  dry_run : CycleMode
  propose : CycleMode
  autonomous_low_risk : CycleMode

pub data CycleDecision : Type 0 where
  no_work : CycleDecision
  ship : CycleDecision
  request_approval : CycleDecision
  abandon : CycleDecision
  blocked : CycleDecision

pub data ValidationGate : Type 0 where
  ruff_format : ValidationGate
  ruff_lint : ValidationGate
  mypy : ValidationGate
  pytest_targeted : ValidationGate
  pytest_full : ValidationGate
  e2e_gate : ValidationGate
  benchmark_gate : ValidationGate
  sentinel_gate : ValidationGate
  sentinel_review : ValidationGate
  scenarios : ValidationGate
  compose_config : ValidationGate

pub data GateStatus : Type 0 where
  passed : GateStatus
  failed : GateStatus
  error : GateStatus
  not_run : GateStatus

pub record GateResult : Type 0 where
  pub gate : ValidationGate
  pub status : GateStatus
  pub summary : String
  pub evidence_sha256 : Option String

pub data ReviewQuestion : Type 0 where
  root_cause : ReviewQuestion
  other_paths : ReviewQuestion
  public_behavior : ReviewQuestion
  invariant : ReviewQuestion
  test_weakened : ReviewQuestion
  race : ReviewQuestion
  nondeterminism : ReviewQuestion
  complexity : ReviewQuestion
  hidden_state : ReviewQuestion
  sensitive_data : ReviewQuestion
  prompt_injection : ReviewQuestion
  tests_cover : ReviewQuestion
  smaller : ReviewQuestion
  human_review : ReviewQuestion

-- `question in CRITICAL_REVIEW_QUESTIONS`
abbrev pub is_critical : ReviewQuestion → Bool
is_critical ReviewQuestion.invariant = true
is_critical ReviewQuestion.test_weakened = true
is_critical ReviewQuestion.sensitive_data = true
is_critical ReviewQuestion.prompt_injection = true
is_critical ReviewQuestion.human_review = true
is_critical _ = false

pub data ReviewAnswer : Type 0 where
  clear : ReviewAnswer
  concern : ReviewAnswer
  unknown : ReviewAnswer

pub record ReviewItem : Type 0 where
  pub question : ReviewQuestion
  pub answer : ReviewAnswer
  pub note : String

pub record SelfReview : Type 0 where
  pub items : List ReviewItem
  pub reviewed_diff_sha256 : Option String

pub data OwnerVerdict : Type 0 where
  ship : OwnerVerdict
  revise : OwnerVerdict
  reject : OwnerVerdict

pub data Channel : Type 0 where
  slack : Channel
  cli : Channel
  github : Channel

pub record OwnerDecision : Type 0 where
  pub decision_id : ℕ
  pub request_id : ℕ
  pub verdict : OwnerVerdict
  pub decided_by : ActorIdentity
  pub reason : String
  pub channel : Channel
  pub decided_at : ℕ

pub record CycleBudget : Type 0 where
  pub max_runtime_seconds : ℕ
  pub max_turns : ℕ
  pub max_tool_calls : ℕ
  pub max_model_calls : ℕ
  pub max_input_tokens : ℕ
  pub max_output_tokens : ℕ
  pub max_cost_usd : Option ℕ
  pub max_changed_files : ℕ
  pub max_diff_bytes : ℕ

pub record CycleUsage : Type 0 where
  pub runtime_seconds : ℕ
  pub turns : ℕ
  pub tool_calls : ℕ
  pub model_calls : ℕ
  pub input_tokens : ℕ
  pub output_tokens : ℕ
  pub cost_usd : Option ℕ
  pub changed_files : ℕ
  pub diff_bytes : ℕ
