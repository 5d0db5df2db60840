-- ===== src/PatchForge/Invoke.antt =====
-- `ToolGateway.invoke` and `budget_usage` of src/nexus/patchforge/gateway.py.
use nexus_agent_platform.Common.{
  ◌==◌, ℕ, ◌+◌, ◌-◌, String, Bool, true, false, not, ◌||◌, Option, none, some, List, [], ◌∷◌, ◌++◌,
  map, ltb, if◌then◌else◌, length, any_of, Result, ok, err, ◌>>=◌, ◌>>◌, raise_if,
}
use nexus_agent_platform.PatchForge.Models.{
  PatchForgePhase, PhaseBudget, PhaseUsage, RunBudgetUsage, ToolCallRecord, ToolCallStatus,
  ToolName, for_phase,
}
use nexus_agent_platform.PatchForge.Policy.{sum_of}
use nexus_agent_platform.PatchForge.Tools.{
  amount, add_amount, total, requires_workspace, is_finalize, Arguments, fits_tool,
}
use nexus_agent_platform.PatchForge.Gateway.{
  Attempt, Binding, FailureCode, Gateway, GatewayFault, GatewayResult, Raised, SandboxExecution,
  SandboxStatus, ToolOutput, authorize, calls_in, check_budget, dispatch, microseconds,
  report_output_reserve,
}
use nexus_agent_platform.Atlas.Service.Requests.{Timestamp, aware}

-- What a call comes to before its budgets are charged
pub record Settled : Type 0 where
  pub output : ToolOutput
  pub sandbox_execution : Option SandboxExecution
  pub status : ToolCallStatus
  pub error_code : Option String

abbrev code_or : Option String → String → String
code_or none fallback = fallback
code_or (some code) fallback = code

-- `_status_for_execution`
abbrev status_for_execution : Option SandboxExecution → ToolCallStatus × Option String
status_for_execution none = (ToolCallStatus.succeeded, none)
status_for_execution (some e) = elim e.status [
  | SandboxStatus.succeeded ↦ (ToolCallStatus.succeeded, none)
  | SandboxStatus.timed_out ↦ (ToolCallStatus.timed_out, some "timeout")
  | _ ↦ (ToolCallStatus.failed, some (code_or e.error_code "sandbox_error"))
]

abbrev failed_with : FailureCode → String → ToolCallStatus → String → Settled
failed_with code detail status error_code = record {
  output = ToolOutput.failure code detail;
  sandbox_execution = none;
  status = status;
  error_code = some error_code;
}

-- The `try` of `invoke`: its result, or the failure for what was raised
abbrev pub settle : Result Raised (ToolOutput × Option SandboxExecution) → Settled
settle (ok (output, e)) = record {
  output = output;
  sandbox_execution = e;
  status = (status_for_execution e).0;
  error_code = (status_for_execution e).1;
}
settle (err (Raised.gateway_error detail)) =
    failed_with FailureCode.policy_denied detail ToolCallStatus.denied "policy_denied"
settle (err (Raised.sandbox_error detail)) =
    failed_with FailureCode.sandbox_error detail ToolCallStatus.failed "sandbox_error"
settle (err (Raised.workspace_error detail)) =
    failed_with FailureCode.tool_error detail ToolCallStatus.failed "tool_error"

unfoldable pub attempted :
    Binding
    → ToolName
    → Arguments
    → PatchForgePhase
    → Attempt
    → Gateway
    → Result Raised (ToolOutput × Option SandboxExecution)
attempted b tool arguments phase attempt g = do
  authorize b.policy tool phase
  if requires_workspace tool then attempt.verified else ok tt
  dispatch b tool arguments phase attempt g

-- `_output_is_truncated`
abbrev output_is_truncated : ToolOutput → Bool
output_is_truncated (ToolOutput.execution id status code out error truncated) = truncated
output_is_truncated (ToolOutput.observed content truncated) = truncated
output_is_truncated _ = false

-- A call with its output bytes and truncation
pub record Charged : Type 0 where
  pub settled : Settled
  pub output_bytes : ℕ
  pub output_truncated : Bool

abbrev pub over_output : String
over_output = "Tool output exceeded the remaining phase output budget."

abbrev pub over_duration : String
over_duration = "Tool execution exceeded the remaining phase duration budget."

-- The output that is over the phase's output budget gives way to a failure.
unfoldable pub charge_output : Binding → PhaseBudget → ℕ → ℕ → Settled → Charged
charge_output b budget used reserve s =
    let bytes = b.measure s.output in
    let refusal = ToolOutput.failure FailureCode.output_budget_exceeded over_output in
    if ltb budget.max_output_bytes (used + bytes + reserve)
    then record {
      settled = record s {
        output = refusal;
        status = ToolCallStatus.failed;
        error_code = some "output_budget_exceeded";
      };
      output_bytes = b.measure refusal;
      output_truncated = true;
    }
    else record {
      settled = s;
      output_bytes = bytes;
      output_truncated = output_is_truncated s.output;
    }

-- And so does that of a call that is over the phase's duration.
unfoldable pub charge_duration : Binding → PhaseBudget → ℕ → ℕ → Charged → Charged
charge_duration b budget used elapsed c =
    let refusal = ToolOutput.failure FailureCode.duration_budget_exceeded over_duration in
    if ltb (microseconds budget.max_duration_seconds) (used + elapsed)
    then record c {
      settled = record c.settled {
        output = refusal;
        status = ToolCallStatus.failed;
        error_code = some "duration_budget_exceeded";
      };
      output_bytes = b.measure refusal;
    }
    else c

-- `_now`
unfoldable pub now_of : Timestamp → Result GatewayFault ℕ
now_of (aware time) = ok time
now_of Timestamp.naive = err GatewayFault.request_refused

-- `self._executions[call_id] = execution`: the last execution under a key is kept, in the place of
-- the first
abbrev put_execution :
    ℕ → SandboxExecution → List (ℕ × SandboxExecution) → List (ℕ × SandboxExecution)
put_execution id e [] = (id, e) ∷ []
put_execution id e ((call, x) ∷ rest) =
    let more = put_execution id e rest in if call == id then (call, e) ∷ rest else (call, x) ∷ more

abbrev with_execution :
    ℕ → Option SandboxExecution → List (ℕ × SandboxExecution) → List (ℕ × SandboxExecution)
with_execution id none executions = executions
with_execution id (some e) executions = put_execution id e executions

-- The end of `invoke`: the record, whose contract wants its times in order, and the new state
unfoldable pub conclude :
    Binding
    → ToolName
    → PatchForgePhase
    → Attempt
    → ℕ
    → ℕ
    → Charged
    → Gateway
    → Result GatewayFault (GatewayResult × Gateway)
conclude b tool phase attempt started completed c g =
    let entry : ToolCallRecord = record {
      call_id = attempt.call_id;
      run_id = b.run_id;
      sequence = length g.records + 1;
      phase = phase;
      tool_name = tool;
      arguments_sha256 = attempt.arguments_sha256;
      status = c.settled.status;
      started_at = started;
      completed_at = completed;
      output_bytes = c.output_bytes;
      output_truncated = c.output_truncated;
      error_code = c.settled.error_code;
    } in
    do
      raise_if (ltb completed started) GatewayFault.bad_evidence
      ok (
        record {
          call = entry;
          output = c.settled.output;
          sandbox_execution = c.settled.sandbox_execution;
        },
        record {
          records = g.records ++ entry ∷ [];
          executions = with_execution attempt.call_id c.settled.sandbox_execution g.executions;
          phase_duration = add_amount phase (completed - started) g.phase_duration;
          phase_output = add_amount phase c.output_bytes g.phase_output;
        },
      )

-- The charged call of an attempt; `completed - started` stops at 0 as the source's `max` does
unfoldable pub charged :
    Binding
    → PhaseBudget
    → ToolName
    → Arguments
    → PatchForgePhase
    → Attempt
    → ℕ
    → ℕ
    → Gateway
    → Charged
unfolding charge_output charge_duration
charged b budget tool arguments phase attempt started completed g =
    charge_duration b budget (amount phase g.phase_duration) (completed - started) (
      charge_output b budget (amount phase g.phase_output) (report_output_reserve tool phase)
        (settle (attempted b tool arguments phase attempt g)))

-- `invoke`
unfoldable pub invoke :
    Binding
    → ToolName
    → Arguments
    → PatchForgePhase
    → Attempt
    → Gateway
    → Result GatewayFault (GatewayResult × Gateway)
unfolding charged conclude now_of
invoke b tool arguments phase attempt g = do
  raise_if (not (fits_tool tool arguments)) GatewayFault.request_refused
  check_budget b.policy.budgets tool phase g
  started ← now_of attempt.started
  completed ← now_of attempt.completed
  elim (for_phase b.policy.budgets phase) [
    | none ↦ err GatewayFault.request_refused
    | some budget ↦
        conclude b tool phase attempt started completed
          (charged b budget tool arguments phase attempt started completed g) g
  ]

abbrev pub every_phase : List PatchForgePhase
every_phase =
    PatchForgePhase.created ∷ PatchForgePhase.provisioning ∷ PatchForgePhase.recon
    ∷ PatchForgePhase.hypothesis ∷ PatchForgePhase.reproduce ∷ PatchForgePhase.implement
    ∷ PatchForgePhase.targeted_validate ∷ PatchForgePhase.full_validate
    ∷ PatchForgePhase.self_review ∷ PatchForgePhase.finalize ∷ PatchForgePhase.reported
    ∷ PatchForgePhase.cleanup ∷ PatchForgePhase.closed ∷ []

abbrev pub usage_of : Gateway → List PatchForgePhase → List PhaseUsage
usage_of g [] = []
usage_of g (phase ∷ rest) =
    let later = usage_of g rest in
    let calls = calls_in phase g.records in
    let duration = amount phase g.phase_duration in
    let output = amount phase g.phase_output in
    if ltb 0 calls || ltb 0 duration || ltb 0 output
    then record {
      phase = phase;
      tool_calls = calls;
      duration_seconds = duration;
      output_bytes = output;
    }
      ∷ later
    else later

-- `budget_usage`
unfoldable pub budget_usage : Gateway → RunBudgetUsage
budget_usage g = record {
  phases = usage_of g every_phase;
  total_tool_calls = length g.records;
  total_duration_seconds = total g.phase_duration;
  total_output_bytes = sum_of (map (λ r. r.output_bytes) g.records);
  finalization_reserve_used = any_of (λ r. is_finalize r.phase) g.records;
}
