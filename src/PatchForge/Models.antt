-- ===== src/PatchForge/Models.antt =====
-- Contracts of src/nexus/patchforge/models.py, and the kinds of transition of runtime.py: phases, tools, budgets, the records of tool calls and
-- executions, and results. Durations are in microseconds.
use nexus_agent_platform.Common.{ℕ, String, Bool, Option, none, some, List, ◌==◌}

pub data PatchForgePhase : Type 0 where
  created provisioning recon hypothesis reproduce implement targeted_validate full_validate
        self_review finalize reported cleanup closed :
      PatchForgePhase

abbrev pub phase_index : PatchForgePhase → ℕ
phase_index PatchForgePhase.created = 0
phase_index PatchForgePhase.provisioning = 1
phase_index PatchForgePhase.recon = 2
phase_index PatchForgePhase.hypothesis = 3
phase_index PatchForgePhase.reproduce = 4
phase_index PatchForgePhase.implement = 5
phase_index PatchForgePhase.targeted_validate = 6
phase_index PatchForgePhase.full_validate = 7
phase_index PatchForgePhase.self_review = 8
phase_index PatchForgePhase.finalize = 9
phase_index PatchForgePhase.reported = 10
phase_index PatchForgePhase.cleanup = 11
phase_index PatchForgePhase.closed = 12

-- `a is b` on phases
abbrev pub same_phase : PatchForgePhase → PatchForgePhase → Bool
same_phase a b = phase_index a == phase_index b

pub data PatchOutcome : Type 0 where
  patch_proposed partial aborted cancelled sandbox_failed policy_violation : PatchOutcome

pub data ToolName : Type 0 where
  list_tree search_code read_file_range inspect_symbol git_status git_diff inspect_diff write_patch
        create_file delete_file run_targeted_tests run_test_suite run_formatter run_linter
        run_typecheck inspect_test_failure advance_phase submit_report :
      ToolName

abbrev pub tool_index : ToolName → ℕ
tool_index ToolName.list_tree = 0
tool_index ToolName.search_code = 1
tool_index ToolName.read_file_range = 2
tool_index ToolName.inspect_symbol = 3
tool_index ToolName.git_status = 4
tool_index ToolName.git_diff = 5
tool_index ToolName.inspect_diff = 6
tool_index ToolName.write_patch = 7
tool_index ToolName.create_file = 8
tool_index ToolName.delete_file = 9
tool_index ToolName.run_targeted_tests = 10
tool_index ToolName.run_test_suite = 11
tool_index ToolName.run_formatter = 12
tool_index ToolName.run_linter = 13
tool_index ToolName.run_typecheck = 14
tool_index ToolName.inspect_test_failure = 15
tool_index ToolName.advance_phase = 16
tool_index ToolName.submit_report = 17

pub data ToolCallStatus : Type 0 where
  succeeded failed denied timed_out : ToolCallStatus

pub data CheckKind : Type 0 where
  reproduction targeted_tests full_test_suite formatter linter typecheck : CheckKind

abbrev pub kind_number : CheckKind → ℕ
kind_number CheckKind.reproduction = 0
kind_number CheckKind.targeted_tests = 1
kind_number CheckKind.full_test_suite = 2
kind_number CheckKind.formatter = 3
kind_number CheckKind.linter = 4
kind_number CheckKind.typecheck = 5

pub data ExecutionStatus : Type 0 where
  passed failed error timed_out : ExecutionStatus

pub data CheckStatus : Type 0 where
  passed failed error not_run : CheckStatus

pub data ReproductionStatus : Type 0 where
  fail_before_pass_after fail_before_no_pass pass_before not_practical : ReproductionStatus

pub data PatchForgeFailure : Type 0 where
  budget_exhausted policy_denied cancelled sandbox_error workspace_error engine_error
        validation_failed attestation_failed cleanup_failed :
      PatchForgeFailure

pub data FindingSeverity : Type 0 where
  info warning blocking : FindingSeverity

pub data RuntimeTransitionKind : Type 0 where
  progress retry failure report cleanup close : RuntimeTransitionKind

pub record PhaseBudget : Type 0 where
  pub max_tool_calls : ℕ
  pub max_duration_seconds : ℕ
  pub max_output_bytes : ℕ

pub record RunBudgets : Type 0 where
  pub provisioning : PhaseBudget
  pub recon : PhaseBudget
  pub hypothesis : PhaseBudget
  pub reproduce : PhaseBudget
  pub implement : PhaseBudget
  pub targeted_validate : PhaseBudget
  pub full_validate : PhaseBudget
  pub self_review : PhaseBudget
  pub finalization_reserve : PhaseBudget
  pub cleanup : PhaseBudget
  pub max_implementation_loops : ℕ
  pub max_total_tool_calls : ℕ
  pub max_total_duration_seconds : ℕ

-- `RunBudgets.for_phase`: a phase without a budget has `none`
abbrev pub for_phase : RunBudgets → PatchForgePhase → Option PhaseBudget
for_phase b PatchForgePhase.provisioning = some b.provisioning
for_phase b PatchForgePhase.recon = some b.recon
for_phase b PatchForgePhase.hypothesis = some b.hypothesis
for_phase b PatchForgePhase.reproduce = some b.reproduce
for_phase b PatchForgePhase.implement = some b.implement
for_phase b PatchForgePhase.targeted_validate = some b.targeted_validate
for_phase b PatchForgePhase.full_validate = some b.full_validate
for_phase b PatchForgePhase.self_review = some b.self_review
for_phase b PatchForgePhase.finalize = some b.finalization_reserve
for_phase b PatchForgePhase.cleanup = some b.cleanup
for_phase b _ = none

pub record ToolCallRecord : Type 0 where
  pub call_id : ℕ
  pub run_id : ℕ
  pub sequence : ℕ
  pub phase : PatchForgePhase
  pub tool_name : ToolName
  pub arguments_sha256 : String
  pub status : ToolCallStatus
  pub started_at : ℕ
  pub completed_at : ℕ
  pub output_bytes : ℕ
  pub output_truncated : Bool
  pub error_code : Option String

pub record AgentReport : Type 0 where
  pub summary : String
  pub hypothesis : String
  pub implementation : String
  pub limitations : List String
  pub evidence_references : List ℕ

pub record PhaseUsage : Type 0 where
  pub phase : PatchForgePhase
  pub tool_calls : ℕ
  pub duration_seconds : ℕ
  pub output_bytes : ℕ

pub record RunBudgetUsage : Type 0 where
  pub phases : List PhaseUsage
  pub total_tool_calls : ℕ
  pub total_duration_seconds : ℕ
  pub total_output_bytes : ℕ
  pub finalization_reserve_used : Bool
