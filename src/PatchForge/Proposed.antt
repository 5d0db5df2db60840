-- ===== src/PatchForge/Proposed.antt =====
-- A proposed patch with its evidence, which its contract accepts.
use nexus_agent_platform.Common.{ℕ, ◌≡◌, refl, true, false, not, none, some, [], ◌∷◌, any_of, ok}
use nexus_agent_platform.Atlas.Models
use nexus_agent_platform.Atlas.Models.{ArtifactReference, SourceRevision, Url}
use nexus_agent_platform.PatchForge.Models.{
  CheckKind, CheckStatus, ExecutionStatus, PatchForgePhase, PatchOutcome, ReproductionStatus,
  RunBudgetUsage, ToolCallRecord, ToolCallStatus, ToolName,
}
use nexus_agent_platform.PatchForge.Evidence.{
  CheckResult, DiffSummary, PatchResult, ReproductionEvidence, TestExecution,
}
use nexus_agent_platform.PatchForge.Results.{build_result, to_atlas_result}
use nexus_agent_platform.PatchForge.Results.Proposals.{
  IsVerified, build_result-IsVerified, to_atlas_result-checks,
}

abbrev source : SourceRevision
source = record {
  repository_url = record {
    scheme = "https";
    netloc = "github.com";
    path = "/nexus/platform";
    username = none;
    password = none;
    query = none;
    fragment = none;
  };
  commit_sha = "99";
  ref = none;
}

abbrev execution : ℕ → CheckKind → ExecutionStatus → ℕ → TestExecution
execution id kind status code = record {
  execution_id = id;
  run_id = 1;
  tool_call_id = 5;
  phase = PatchForgePhase.full_validate;
  check_kind = kind;
  command_name = "pytest";
  command_sha256 = "33";
  status = status;
  exit_code = some code;
  started_at = 10;
  completed_at = 20;
  output_artifact = none;
  passed_count = none;
  failed_count = none;
  skipped_count = none;
}

abbrev check : ℕ → CheckKind → CheckResult
check id kind = record {
  check_kind = kind;
  status = CheckStatus.passed;
  execution_id = some id;
  summary = "passed";
}

abbrev run_call : ToolCallRecord
run_call = record {
  call_id = 5;
  run_id = 1;
  sequence = 1;
  phase = PatchForgePhase.full_validate;
  tool_name = ToolName.run_test_suite;
  arguments_sha256 = "44";
  status = ToolCallStatus.succeeded;
  started_at = 10;
  completed_at = 20;
  output_bytes = 300;
  output_truncated = false;
  error_code = none;
}

abbrev usage : RunBudgetUsage
usage = record {
  phases =
      record {
        phase = PatchForgePhase.full_validate;
        tool_calls = 1;
        duration_seconds = 10;
        output_bytes = 300;
      }
      ∷ [];
  total_tool_calls = 1;
  total_duration_seconds = 10;
  total_output_bytes = 300;
  finalization_reserve_used = false;
}

abbrev diff : DiffSummary
diff = record {
  base_sha = source.commit_sha;
  proposed_head_sha = "55";
  diff_sha256 = "66";
  patch_artifact = record { artifact_type = "patch"; uri = "artifact"; sha256 = "66" };
  changed_files = "src/app.py" ∷ [];
  additions = 3;
  deletions = 1;
  binary_files = [];
  protected_path_violations = [];
  scope_violations = [];
  test_files_changed = [];
}

abbrev reproduced : ReproductionEvidence
reproduced = record {
  status = ReproductionStatus.fail_before_pass_after;
  before_execution = some (execution 20 CheckKind.reproduction ExecutionStatus.failed 1);
  after_execution = some (execution 21 CheckKind.targeted_tests ExecutionStatus.passed 0);
  rationale = "failed, then passed";
}

abbrev proposal : PatchResult
proposal = record {
  identity = record {
    run_id = 1;
    task_id = 2;
    atlas_job_id = 3;
    atlas_execution_id = 4;
    agent_id = "patchforge";
    source = source;
    repository_profile_id = "example";
    repository_profile_sha256 = "77";
    task_sha256 = "88";
    engine_kind = "scripted";
    engine_version = "1";
    created_at = 1;
  };
  outcome = PatchOutcome.patch_proposed;
  phase_reached = PatchForgePhase.closed;
  report = record {
    summary = "a fix";
    hypothesis = "an off-by-one";
    implementation = "a new bound";
    limitations = [];
    evidence_references = 5 ∷ 22 ∷ [];
  };
  tool_calls = run_call ∷ [];
  executions =
      execution 20 CheckKind.reproduction ExecutionStatus.failed 1
      ∷ execution 21 CheckKind.targeted_tests ExecutionStatus.passed 0
      ∷ execution 22 CheckKind.full_test_suite ExecutionStatus.passed 0
      ∷ [];
  reproduction = some reproduced;
  checks = check 21 CheckKind.targeted_tests ∷ check 22 CheckKind.full_test_suite ∷ [];
  diff = some diff;
  policy_findings = [];
  budget_usage = usage;
  failure = none;
  started_at = 5;
  completed_at = 30;
}

built : build_result proposal ≡ ok tt
unfolding build_result
built = refl

build_result-IsVerified_example : IsVerified proposal
build_result-IsVerified_example = build_result-IsVerified proposal built refl

abbrev atlas_result : Models.PatchResult
atlas_result = record {
  summary = "a fix";
  base_sha = source.commit_sha;
  proposed_head_sha = "55";
  patch_artifact = diff.patch_artifact;
  changed_files = "src/app.py" ∷ [];
  checks =
      record { name = "targeted_tests"; passed = true; summary = "passed" }
      ∷ record { name = "full_test_suite"; passed = true; summary = "passed" }
      ∷ [];
}

converted : to_atlas_result proposal ≡ ok atlas_result
unfolding to_atlas_result
converted = refl

to_atlas_result-checks_example :
    IsVerified proposal × (any_of (λ c. not c.passed) atlas_result.checks ≡ false)
to_atlas_result-checks_example = to_atlas_result-checks proposal atlas_result built converted
