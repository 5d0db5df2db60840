-- ===== src/PatchForge/Gateway.antt =====
-- ToolGateway of src/nexus/patchforge/gateway.py: what a call may spend, what it may do, and the
-- evidence that it leaves. A call's effects on the worktree and in the sandbox, its clock and its
-- identifiers are the Attempt. The length of an output's canonical JSON and the hash of a report
-- are functions of the Binding.
use nexus_agent_platform.Common.{
  ℕ, ◌+◌, ◌*◌, String, Bool, true, false, not, ◌&&◌, ◌||◌, Option, none, some, List, [], ◌∷◌, ltb,
  leb, ◌==◌, if◌then◌else◌, length, any_of, all_of, count_of, Result, ok, err, ◌>>=◌, ◌>>◌,
  raise_if,
}
use nexus_agent_platform.PatchForge.Models.{
  AgentReport, PatchForgePhase, PhaseBudget, RunBudgets, ToolCallRecord, ToolName, tool_index,
  same_phase, for_phase,
}
use nexus_agent_platform.PatchForge.Policy.{
  CommandPurpose, PatchForgePolicy, RepositoryProfile, WriteRefusal, authorize_write, command_of,
}
use nexus_agent_platform.PatchForge.Tools.{
  PhaseTable, amount, total, phases_by_tool, is_report, is_finalize, command_purpose_for, Arguments,
}
use nexus_agent_platform.Atlas.Service.Requests.{Timestamp}

pub data SandboxStatus : Type 0 where
  succeeded failed timed_out output_limit sandbox_error : SandboxStatus

-- SandboxExecution, whose run and call are those of its request
pub record SandboxExecution : Type 0 where
  pub execution_id : ℕ
  pub status : SandboxStatus
  pub exit_code : Option ℕ
  pub stdout : String
  pub stderr : String
  pub output_truncated : Bool
  pub error_code : Option String

pub data FailureCode : Type 0 where
  policy_denied sandbox_error tool_error output_budget_exceeded duration_budget_exceeded :
      FailureCode

-- The outputs; that of a reading or mutating tool is `observed`, with whether it is truncated
pub data ToolOutput : Type 0 where
  failure : FailureCode → String → ToolOutput
  execution : ℕ → SandboxStatus → Option ℕ → String → String → Bool → ToolOutput
  phase_request : PatchForgePhase → PatchForgePhase → ToolOutput
  report : String → List ℕ → ToolOutput
  observed : String → Bool → ToolOutput

-- The exceptions that `invoke` turns into failures: GatewayError, SandboxError, and WorkspaceError
-- with its like
pub data Raised : Type 0 where
  gateway_error sandbox_error workspace_error : String → Raised

-- The exceptions that leave `invoke`; `bad_evidence` is a record that its contract refuses
pub data GatewayFault : Type 0 where
  request_refused over_budget reserve_kept bad_evidence : GatewayFault

-- What the world gives one call: identifiers and times, whether the workspace is verified, whether
-- the path is ignored by Git, what a tool on the worktree returns and what the sandbox does
pub record Attempt : Type 0 where
  pub call_id : ℕ
  pub arguments_sha256 : String
  pub started : Timestamp
  pub completed : Timestamp
  pub verified : Result Raised (Unit {0})
  pub is_ignored : Bool
  pub worktree : Result Raised ToolOutput
  pub sandbox : Result Raised SandboxExecution
  pub inspection : String × String × Bool

pub record Binding : Type 0 where
  pub run_id : ℕ
  pub casefold : List ℕ → List ℕ
  pub profile : RepositoryProfile
  pub policy : PatchForgePolicy
  pub scope_paths : List String
  pub measure : ToolOutput → ℕ
  pub report_sha256 : AgentReport → String

pub record Gateway : Type 0 where
  pub records : List ToolCallRecord
  pub executions : List (ℕ × SandboxExecution)
  pub phase_duration : PhaseTable
  pub phase_output : PhaseTable

abbrev pub fresh_gateway : Gateway
fresh_gateway = record { records = []; executions = []; phase_duration = []; phase_output = [] }

pub record GatewayResult : Type 0 where
  pub call : ToolCallRecord
  pub output : ToolOutput
  pub sandbox_execution : Option SandboxExecution

abbrev pub microseconds : ℕ → ℕ
microseconds n = n * 1000000

-- MIN_RESULT_ENVELOPE_BYTES
abbrev pub min_result_envelope_bytes : ℕ
min_result_envelope_bytes = 512

-- `_report_output_reserve`
abbrev pub report_output_reserve : ToolName → PatchForgePhase → ℕ
report_output_reserve tool phase =
    if is_finalize phase && not (is_report tool) then min_result_envelope_bytes else 0

-- `sum(record.phase is phase for record in self._records)`
abbrev pub calls_in : PatchForgePhase → List ToolCallRecord → ℕ
calls_in phase = count_of (λ r. same_phase r.phase phase)

-- `_check_budget` where the phase has a budget. The differences of the source, which may be
-- negative, stand here as sums on the other side.
unfoldable pub check_phase_budget :
    RunBudgets → PhaseBudget → ToolName → PatchForgePhase → Gateway → Result GatewayFault (Unit {0})
check_phase_budget budgets budget tool phase g =
    let calls = calls_in phase g.records in
    let reserve = report_output_reserve tool phase in
    let held_calls = if is_finalize phase then 0 else budgets.finalization_reserve.max_tool_calls in
    let held_seconds =
      if is_finalize phase then 0 else budgets.finalization_reserve.max_duration_seconds in
    do
      raise_if (leb budget.max_tool_calls calls) GatewayFault.over_budget
      raise_if (ltb 0 reserve && leb budget.max_tool_calls (calls + 1)) GatewayFault.reserve_kept
      raise_if
          (ltb budget.max_output_bytes
            (amount phase g.phase_output + reserve + min_result_envelope_bytes))
          (if ltb 0 reserve then GatewayFault.reserve_kept else GatewayFault.over_budget)
      raise_if (leb budgets.max_total_tool_calls (length g.records + held_calls))
          GatewayFault.over_budget
      raise_if
          (leb (microseconds budgets.max_total_duration_seconds)
            (total g.phase_duration + microseconds held_seconds))
          GatewayFault.over_budget

-- `_check_budget`
unfoldable pub check_budget :
    RunBudgets → ToolName → PatchForgePhase → Gateway → Result GatewayFault (Unit {0})
unfolding check_phase_budget
check_budget budgets tool phase g = elim (for_phase budgets phase) [
  | none ↦ err GatewayFault.request_refused
  | some budget ↦ check_phase_budget budgets budget tool phase g
]

-- `_authorize`
unfoldable pub authorize : PatchForgePolicy → ToolName → PatchForgePhase → Result Raised (Unit {0})
authorize policy tool phase = do
  raise_if (not (any_of (λ t. tool_index t == tool_index tool) policy.allowed_tools))
      (Raised.gateway_error "Tool is not allowed by policy")
  raise_if (not (phases_by_tool tool phase))
      (Raised.gateway_error "Tool is not allowed during the phase")

abbrev pub raised_if : Bool → String → Result Raised (Unit {0})
raised_if test detail = raise_if test (Raised.gateway_error detail)

abbrev pub find_execution : ℕ → List (ℕ × SandboxExecution) → Option SandboxExecution
find_execution id [] = none
find_execution id ((call, e) ∷ rest) =
    let later = find_execution id rest in if call == id then some e else later

abbrev is_success : SandboxStatus → Bool
is_success SandboxStatus.succeeded = true
is_success _ = false

-- `known`: the calls of the records, then the executions
abbrev pub is_known : Gateway → ℕ → Bool
is_known g id =
    any_of (λ r. r.call_id == id) g.records
    || any_of (λ (call, e). e.execution_id == id) g.executions

abbrev of_write : Result WriteRefusal (Unit {0}) → Result Raised (Unit {0})
of_write (ok done) = ok tt
of_write (err refusal) = err (Raised.gateway_error "The path cannot be modified")

-- `_execute_command`
unfoldable pub execute_command :
    Binding → PatchForgePhase → Attempt → Gateway → CommandPurpose → Result Raised SandboxExecution
execute_command b phase attempt g purpose = elim (command_of purpose b.profile.commands) [
  | none ↦ err (Raised.gateway_error "Repository profile has no such command")
  | some command ↦ elim (for_phase b.policy.budgets phase) [
    | none ↦ err (Raised.gateway_error "Phase has no execution budget")
    | some budget ↦ do
      raised_if
          (ltb (microseconds budget.max_duration_seconds)
            (amount phase g.phase_duration + microseconds command.timeout_seconds))
          "Repository command does not fit the remaining phase duration"
      attempt.sandbox
  ]
]

abbrev shown : SandboxExecution → ToolOutput
shown e =
    ToolOutput.execution e.execution_id e.status e.exit_code e.stdout e.stderr e.output_truncated

-- `_inspect_test_failure`
unfoldable pub inspect_test_failure : Attempt → Gateway → ℕ → Result Raised ToolOutput
inspect_test_failure attempt g id = elim (find_execution id g.executions) [
  | none ↦ err (Raised.gateway_error "Referenced execution tool call is unknown")
  | some e ↦ do
    raised_if (is_success e.status) "Referenced execution did not fail"
    ok (
        ToolOutput.execution e.execution_id e.status e.exit_code attempt.inspection.0
          attempt.inspection.1 (e.output_truncated || attempt.inspection.2))
]

-- `_dispatch`
unfoldable pub dispatch :
    Binding
    → ToolName
    → Arguments
    → PatchForgePhase
    → Attempt
    → Gateway
    → Result Raised (ToolOutput × Option SandboxExecution)
unfolding execute_command inspect_test_failure
dispatch b tool Arguments.empty phase attempt g = elim (command_purpose_for tool phase) [
  | none ↦ do output ← attempt.worktree; ok (output, none)
  | some purpose ↦ do e ← execute_command b phase attempt g purpose; ok (shown e, some e)
]
dispatch b tool Arguments.inspection phase attempt g = do
  output ← attempt.worktree
  ok (output, none)
dispatch b tool (Arguments.mutation path) phase attempt g = do
  of_write (authorize_write b.casefold b.profile b.policy b.scope_paths path attempt.is_ignored)
  output ← attempt.worktree
  ok (output, none)
dispatch b tool (Arguments.test_failure id) phase attempt g = do
  output ← inspect_test_failure attempt g id
  ok (output, none)
dispatch b tool (Arguments.advance target) phase attempt g =
    ok (ToolOutput.phase_request phase target, none)
dispatch b tool (Arguments.submit r) phase attempt g = do
  raised_if (not (all_of (is_known g) r.evidence_references))
      "Report references unknown runtime evidence identifiers"
  ok (ToolOutput.report (b.report_sha256 r) r.evidence_references, none)
