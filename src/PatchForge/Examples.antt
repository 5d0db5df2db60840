-- ===== src/PatchForge/Examples.antt =====
-- A run with small budgets whose engine goes from phase to phase and reports.
use nexus_agent_platform.PatchForge.Lifecycle.Reachable.{
  begun, called, Reached, Reached-validate_transcript,
}
use nexus_agent_platform.PatchForge.Lifecycle.Snapshot.{validate_transcript}
use nexus_agent_platform.PatchForge.Spending.{IsMeasured}
use nexus_agent_platform.PatchForge.Lifecycle.{
  Call, call, record_transition, new_lifecycle, require_lifecycle_transition, TransitionError, Call,
  advance, Lifecycle,
}
use nexus_agent_platform.PatchForge.Reserve.{
  idle, worked, is_final_report, Worked, Worked-IsWithin, report_is_reserved, IsWithin,
}
use nexus_agent_platform.PatchForge.Invoke.{attempted, invoke}
use nexus_agent_platform.Common.{
  ◌<◌, any_of, Result, ◌+◌, ◌≤◌, ◌≡◌, refl, true, false, none, some, [], ◌∷◌, arith, ok, err,
}
use nexus_agent_platform.PatchForge.Invoke.{budget_usage}
use nexus_agent_platform.PatchForge.Results.{validate_usage}
use nexus_agent_platform.PatchForge.Usage.{budget_usage-validate_usage}
use nexus_agent_platform.PatchForge.Models.{
  phase_index, AgentReport, PatchForgePhase, PhaseBudget, RunBudgets, ToolName,
}
use nexus_agent_platform.PatchForge.Policy.{
  validate_totals_and_reserve, PatchForgePolicy, RepositoryProfile,
}
use nexus_agent_platform.PatchForge.Lifecycle.Visits.{Reached-has_entered, has_entered}
use nexus_agent_platform.PatchForge.Tools.{total, Arguments}
use nexus_agent_platform.PatchForge.Gateway.{
  microseconds, fresh_gateway, dispatch, GatewayResult, authorize, GatewayFault, check_budget,
  Gateway, Attempt, Binding, ToolOutput, Raised,
}
use nexus_agent_platform.PatchForge.RunState.{
  Diff, Run, RuntimeToolAction, World, FinalCaptureError,
}
use nexus_agent_platform.PatchForge.Runtime.Execution.{Execution, execute, new_run}
use nexus_agent_platform.PatchForge.Runtime.Ends.{
  IsClosed, enough_turns, execute-IsClosed, completed-has_entered,
}
use nexus_agent_platform.Atlas.Service.Requests.{aware}

abbrev small : PhaseBudget
small = record { max_tool_calls = 2; max_duration_seconds = 60; max_output_bytes = 4096 }

abbrev budgets : RunBudgets
budgets = record {
  provisioning = small;
  recon = small;
  hypothesis = small;
  reproduce = small;
  implement = small;
  targeted_validate = small;
  full_validate = small;
  self_review = small;
  finalization_reserve = small;
  cleanup = small;
  max_implementation_loops = 2;
  max_total_tool_calls = 20;
  max_total_duration_seconds = 600;
}

abbrev profile : RepositoryProfile
profile = record {
  profile_id = "example";
  profile_version = 1;
  commands = [];
  protected_paths = [];
  test_path_prefixes = "tests" ∷ [];
}

abbrev policy : PatchForgePolicy
policy = record {
  allowed_tools = ToolName.advance_phase ∷ ToolName.git_status ∷ ToolName.submit_report ∷ [];
  budgets = budgets;
  max_changed_files = 5;
  max_diff_bytes = 1000;
  allow_test_file_changes = false;
}

abbrev binding : Binding
binding = record {
  run_id = 1;
  casefold = λ c. c;
  profile = profile;
  policy = policy;
  scope_paths = "src" ∷ [];
  measure = λ output. 100;
  report_sha256 = λ r. "00";
}

abbrev summary : AgentReport
summary = record {
  summary = "done";
  hypothesis = "an off-by-one";
  implementation = "a new bound";
  limitations = [];
  evidence_references = [];
}

-- The engine's next action in each phase
abbrev next_in : PatchForgePhase → RuntimeToolAction
next_in PatchForgePhase.recon = record {
  tool_name = ToolName.advance_phase;
  arguments = Arguments.advance PatchForgePhase.hypothesis;
}
next_in PatchForgePhase.hypothesis = record {
  tool_name = ToolName.advance_phase;
  arguments = Arguments.advance PatchForgePhase.reproduce;
}
next_in PatchForgePhase.reproduce = record {
  tool_name = ToolName.advance_phase;
  arguments = Arguments.advance PatchForgePhase.implement;
}
next_in PatchForgePhase.implement = record {
  tool_name = ToolName.advance_phase;
  arguments = Arguments.advance PatchForgePhase.targeted_validate;
}
next_in PatchForgePhase.targeted_validate = record {
  tool_name = ToolName.advance_phase;
  arguments = Arguments.advance PatchForgePhase.full_validate;
}
next_in PatchForgePhase.full_validate = record {
  tool_name = ToolName.advance_phase;
  arguments = Arguments.advance PatchForgePhase.self_review;
}
next_in PatchForgePhase.self_review = record {
  tool_name = ToolName.advance_phase;
  arguments = Arguments.advance PatchForgePhase.finalize;
}
next_in _ = record { tool_name = ToolName.submit_report; arguments = Arguments.submit summary }

abbrev attempt : Attempt
attempt = record {
  call_id = 10;
  arguments_sha256 = "11";
  started = aware 1000;
  completed = aware 1500;
  verified = ok tt;
  is_ignored = false;
  worktree = ok (ToolOutput.observed "clean" false);
  sandbox = err (Raised.sandbox_error "none");
  inspection = ("", "", false);
}

abbrev clean : Diff
clean = record { diff_sha256 = "22"; changed_files = 0 }

abbrev world : World
world = record {
  start_time = 1;
  initial = some clean;
  turn = λ n. record {
    engine = λ t. ok (next_in t.phase);
    time = n + 2;
    renewed = true;
    before = some clean;
    after = some clean;
    attempt = attempt;
  };
  end_time = 50;
  proposal = err FinalCaptureError.no_changes;
  cleaned = true;
}

abbrev run_of : Execution → Run
run_of (Execution.completed r) = r
run_of (Execution.raised r) = r
run_of Execution.out_of_fuel = new_run binding

abbrev finished_run : Run
finished_run = run_of (execute binding world 24)

completed_run : execute binding world 24 ≡ Execution.completed finished_run
unfolding execute invoke check_budget attempted authorize dispatch
completed_run = refl

enough : enough_turns binding ≤ 24
enough = omega arith

alive : finished_run.lifecycle.failure ≡ none
unfolding execute invoke check_budget attempted authorize dispatch
alive = refl

execute-IsClosed_example : IsClosed binding (execute binding world 24)
execute-IsClosed_example = execute-IsClosed binding world 24 enough

completed-has_entered_example :
    has_entered PatchForgePhase.full_validate finished_run.lifecycle.transitions ≡ true
completed-has_entered_example =
    completed-has_entered binding world 24 finished_run PatchForgePhase.full_validate completed_run
      enough alive (omega arith)

-- The lifecycle after the first two advances
abbrev lifecycle_of : Result TransitionError Lifecycle → Lifecycle
lifecycle_of (ok l) = l
lifecycle_of (err e) = new_lifecycle 1 budgets

abbrev provisioned : Lifecycle
provisioned =
    lifecycle_of (call (Call.advance_to PatchForgePhase.provisioning) 1 (new_lifecycle 1 budgets))

abbrev surveyed : Lifecycle
surveyed = lifecycle_of (call (Call.advance_to PatchForgePhase.recon) 2 provisioned)

surveyed-Reached : Reached 1 budgets surveyed
unfolding call advance require_lifecycle_transition
surveyed-Reached =
    called (Call.advance_to PatchForgePhase.recon) 2
      (called (Call.advance_to PatchForgePhase.provisioning) 1 begun refl) refl

surveyed_alive : surveyed.failure ≡ none
unfolding call advance require_lifecycle_transition record_transition
surveyed_alive = refl

surveyed_phase : 1 ≤ phase_index surveyed.phase
unfolding call advance require_lifecycle_transition record_transition
surveyed_phase = omega arith

Reached-validate_transcript_example : validate_transcript surveyed ≡ ok tt
Reached-validate_transcript_example =
    Reached-validate_transcript 1 budgets surveyed (omega arith) surveyed-Reached

Reached-has_entered_example : has_entered PatchForgePhase.provisioning surveyed.transitions ≡ true
Reached-has_entered_example =
    Reached-has_entered PatchForgePhase.provisioning surveyed-Reached surveyed_alive (omega arith)
      surveyed_phase

-- A look at the worktree during the finalization, before the report
abbrev looked : Result GatewayFault (GatewayResult × Gateway)
looked =
    invoke binding ToolName.git_status Arguments.empty PatchForgePhase.finalize attempt
      fresh_gateway

abbrev gateway_of : Result GatewayFault (GatewayResult × Gateway) → Gateway
gateway_of (ok (r, g)) = g
gateway_of (err f) = fresh_gateway

abbrev looked_at : Gateway
looked_at = gateway_of looked

looked-Worked : Worked binding looked_at
unfolding invoke check_budget attempted authorize dispatch
looked-Worked =
    worked ToolName.git_status Arguments.empty PatchForgePhase.finalize attempt _ idle refl

measured : IsMeasured binding
measured = record { output_refusal = omega arith; duration_refusal = omega arith }

no_report_yet : any_of is_final_report looked_at.records ≡ false
unfolding invoke check_budget attempted authorize dispatch
no_report_yet = refl

time_left : total looked_at.phase_duration < microseconds budgets.max_total_duration_seconds
unfolding invoke check_budget attempted authorize dispatch
time_left = omega arith

budgets_valid : validate_totals_and_reserve budgets ≡ true
unfolding validate_totals_and_reserve
budgets_valid = refl

Worked-IsWithin_example : IsWithin binding looked_at
Worked-IsWithin_example = Worked-IsWithin binding measured looked-Worked

report_is_reserved_example :
    check_budget budgets ToolName.submit_report PatchForgePhase.finalize looked_at ≡ ok tt
report_is_reserved_example =
    report_is_reserved binding measured looked_at budgets_valid (omega arith) looked-Worked
      no_report_yet time_left

budget_usage-validate_usage_example : validate_usage (budget_usage looked_at) ≡ ok tt
budget_usage-validate_usage_example = budget_usage-validate_usage binding looked_at looked-Worked
