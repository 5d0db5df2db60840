-- ===== src/PatchForge/Evidence.antt =====
-- The records of src/nexus/patchforge/models.py that make up the result of a run.
use nexus_agent_platform.Common.{ℕ, String, Option, List}
use nexus_agent_platform.Atlas.Models.{ArtifactReference, SourceRevision}
use nexus_agent_platform.PatchForge.Models.{
  AgentReport, CheckKind, CheckStatus, ExecutionStatus, FindingSeverity, PatchForgeFailure,
  PatchForgePhase, PatchOutcome, ReproductionStatus, RunBudgetUsage, ToolCallRecord,
}

pub record TestExecution : Type 0 where
  pub execution_id : ℕ
  pub run_id : ℕ
  pub tool_call_id : ℕ
  pub phase : PatchForgePhase
  pub check_kind : CheckKind
  pub command_name : String
  pub command_sha256 : String
  pub status : ExecutionStatus
  pub exit_code : Option ℕ
  pub started_at : ℕ
  pub completed_at : ℕ
  pub output_artifact : Option ArtifactReference
  pub passed_count : Option ℕ
  pub failed_count : Option ℕ
  pub skipped_count : Option ℕ

pub record ReproductionEvidence : Type 0 where
  pub status : ReproductionStatus
  pub before_execution : Option TestExecution
  pub after_execution : Option TestExecution
  pub rationale : String

pub record CheckResult : Type 0 where
  pub check_kind : CheckKind
  pub status : CheckStatus
  pub execution_id : Option ℕ
  pub summary : String

pub record DiffSummary : Type 0 where
  pub base_sha : String
  pub proposed_head_sha : String
  pub diff_sha256 : String
  pub patch_artifact : ArtifactReference
  pub changed_files : List String
  pub additions : ℕ
  pub deletions : ℕ
  pub binary_files : List String
  pub protected_path_violations : List String
  pub scope_violations : List String
  pub test_files_changed : List String

pub record PolicyFinding : Type 0 where
  pub finding_id : ℕ
  pub severity : FindingSeverity
  pub code : String
  pub detail : String
  pub path : Option String

pub record RunIdentity : Type 0 where
  pub run_id : ℕ
  pub task_id : ℕ
  pub atlas_job_id : ℕ
  pub atlas_execution_id : ℕ
  pub agent_id : String
  pub source : SourceRevision
  pub repository_profile_id : String
  pub repository_profile_sha256 : String
  pub task_sha256 : String
  pub engine_kind : String
  pub engine_version : String
  pub created_at : ℕ

pub record PatchResult : Type 0 where
  pub identity : RunIdentity
  pub outcome : PatchOutcome
  pub phase_reached : PatchForgePhase
  pub report : AgentReport
  pub tool_calls : List ToolCallRecord
  pub executions : List TestExecution
  pub reproduction : Option ReproductionEvidence
  pub checks : List CheckResult
  pub diff : Option DiffSummary
  pub policy_findings : List PolicyFinding
  pub budget_usage : RunBudgetUsage
  pub failure : Option PatchForgeFailure
  pub started_at : ℕ
  pub completed_at : ℕ
