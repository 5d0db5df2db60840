-- ===== src/PatchForge/Runtime.antt =====
-- PatchForgeRuntime of src/nexus/patchforge/runtime.py: one turn of a bounded run.
pub mod Execution
pub mod Progress
pub mod Turns
pub mod Calls
pub mod Closing
pub mod Ends
use nexus_agent_platform.Common.{
  ℕ, zero, suc, ◌+◌, ◌-◌, ◌*◌, ◌≤◌, ◌<◌, String, ◌≡◌, refl, sym, ap, ◌∙◌, subst, ◌≢◌, ◌↔◌, ◌⊎◌, inl,
  inr, Bool, true, false, not, ◌&&◌, ◌||◌, Option, none, some, List, [], ◌∷◌, ◌++◌, map, append-nil,
  append_assoc, arith, ℕ_discrete, ltb, leb, ◌==◌, if◌then◌else◌, ==_iff, ==_refl, Bool-cases,
  Option-cases, is_some, length, length-append, any_of, any_of-append, all_of, last_or,
  last_or-append, count_of, count_of-append, All, All-append, All-map, Result, ok, err, ◌>>=◌, ◌>>◌,
  raise_if, >>=-eq-ok, codes, is_lower, is_upper, is_digit, str_eq, str_eq_iff,
}
use nexus_agent_platform.PatchForge.Models.{
  AgentReport, PatchForgeFailure, PatchForgePhase, ToolName, same_phase,
}
use nexus_agent_platform.PatchForge.Lifecycle.{
  Lifecycle, TransitionError, advance, begin_cleanup, close, fail, fail_cleanup,
  finalization_failed, new_lifecycle, report, reserve_refused,
}
use nexus_agent_platform.PatchForge.Tools.{Arguments, is_finalize, is_report, requires_workspace}
use nexus_agent_platform.PatchForge.Gateway.{
  Attempt, Binding, FailureCode, Gateway, GatewayFault, GatewayResult, SandboxStatus, ToolOutput,
  fresh_gateway,
}
use nexus_agent_platform.PatchForge.Invoke.{invoke}
use nexus_agent_platform.PatchForge.RunState.{
  running, stopped, WorkspaceStateKind, Diff, WorkspaceStateRecord, FinalCaptureError,
  ReserveRefusalRecord, RuntimeToolAction, RuntimeTurn, EngineFault, TurnWorld, World, Run, Turned,
}

abbrev pub is_over : PatchForgePhase → Bool
is_over PatchForgePhase.reported = true
is_over PatchForgePhase.cleanup = true
is_over PatchForgePhase.closed = true
is_over _ = false

-- `_record_failure`
unfoldable pub record_failure : PatchForgeFailure → ℕ → Lifecycle → Result TransitionError Lifecycle
unfolding finalization_failed fail
record_failure f time l =
    if is_finalize l.phase
    then finalization_failed f time l
    else (if is_over l.phase then ok l else fail f time l)

-- A change of the lifecycle; one that raises leaves the loop.
abbrev pub with_lifecycle : Run → Result TransitionError Lifecycle → Turned
with_lifecycle r (ok l) = running (record r { lifecycle = l })
with_lifecycle r (err e) = stopped r

unfoldable pub failing : PatchForgeFailure → ℕ → Run → Turned
unfolding record_failure
failing f time r = with_lifecycle r (record_failure f time r.lifecycle)

-- STATE_TRACKED_TOOLS
abbrev pub is_tracked : ToolName → Bool
is_tracked ToolName.write_patch = true
is_tracked ToolName.create_file = true
is_tracked ToolName.delete_file = true
is_tracked ToolName.run_targeted_tests = true
is_tracked ToolName.run_test_suite = true
is_tracked ToolName.run_formatter = true
is_tracked ToolName.run_linter = true
is_tracked ToolName.run_typecheck = true
is_tracked _ = false

abbrev call_sequence : WorkspaceStateKind → Gateway → Option ℕ
call_sequence WorkspaceStateKind.initial g = none
call_sequence WorkspaceStateKind.before_call g = some (length g.records + 1)
call_sequence WorkspaceStateKind.after_call g = some (length g.records)

-- `_capture_state`, of a diff that was inspected
unfoldable pub capture_state : WorkspaceStateKind → ℕ → Diff → Run → Run
capture_state kind time diff r = record r {
  states =
      r.states
      ++ record {
        sequence = length r.states + 1;
        kind = kind;
        tool_call_sequence = call_sequence kind r.gateway;
        diff = diff;
        captured_at = time;
      }
        ∷ [];
}

-- `_classify_failure`
abbrev pub classify_failure : FailureCode → PatchForgeFailure
classify_failure FailureCode.output_budget_exceeded = PatchForgeFailure.budget_exhausted
classify_failure FailureCode.duration_budget_exceeded = PatchForgeFailure.budget_exhausted
classify_failure FailureCode.policy_denied = PatchForgeFailure.policy_denied
classify_failure FailureCode.sandbox_error = PatchForgeFailure.sandbox_error
classify_failure FailureCode.tool_error = PatchForgeFailure.workspace_error

-- The failure that an execution's status stands for
abbrev pub execution_failure : SandboxStatus → Option PatchForgeFailure
execution_failure SandboxStatus.timed_out = some PatchForgeFailure.budget_exhausted
execution_failure SandboxStatus.output_limit = some PatchForgeFailure.budget_exhausted
execution_failure SandboxStatus.sandbox_error = some PatchForgeFailure.sandbox_error
execution_failure _ = none

abbrev pub loop_failure : TransitionError → PatchForgeFailure
loop_failure TransitionError.loop_budget = PatchForgeFailure.budget_exhausted
loop_failure _ = PatchForgeFailure.policy_denied

-- `_accept_result` on a report: the report is kept before the lifecycle is asked
unfoldable pub accept_report :
    ToolName → Arguments → ℕ → Run → Run × Result TransitionError Lifecycle
unfolding report
accept_report tool (Arguments.submit given) time r =
    if is_report tool
    then (record r { report = some given }, report time r.lifecycle)
    else (r, err TransitionError.foreign_report)
accept_report tool _ time r = (r, err TransitionError.foreign_report)

-- `_accept_result`: the run, with what the lifecycle returns or raises
unfoldable pub accept_result :
    RuntimeToolAction → ToolOutput → ℕ → Run → Run × Result TransitionError Lifecycle
unfolding record_failure accept_report advance
accept_result action (ToolOutput.failure code detail) time r =
    (r, record_failure (classify_failure code) time r.lifecycle)
accept_result action (ToolOutput.execution id status code out error truncated) time r =
    elim (execution_failure status) [
      | none ↦ (r, ok r.lifecycle)
      | some f ↦ (r, record_failure f time r.lifecycle)
    ]
accept_result action (ToolOutput.phase_request current target) time r =
    if same_phase current r.lifecycle.phase
    then (r, advance target time r.lifecycle)
    else (r, err TransitionError.phase_mismatch)
accept_result action (ToolOutput.report sha references) time r =
    accept_report action.tool_name action.arguments time r
accept_result action (ToolOutput.observed content truncated) time r = (r, ok r.lifecycle)

-- A RuntimeTransitionError of the lifecycle is caught and classified.
unfoldable pub caught : ℕ → Run × Result TransitionError Lifecycle → Turned
unfolding failing
caught time (r, ok l) = running (record r { lifecycle = l })
caught time (r, err e) = failing (loop_failure e) time r

-- The result of the call, with RuntimeTransitionError caught
unfoldable pub accepted : RuntimeToolAction → GatewayResult → ℕ → Run → Turned
unfolding accept_result caught
accepted action result time r = caught time (accept_result action result.output time r)

-- After a call: the state of the worktree, then the result
unfoldable pub finish_call : TurnWorld → RuntimeToolAction → GatewayResult → Run → Turned
unfolding accepted failing capture_state
finish_call w action result r =
    if is_tracked action.tool_name
    then elim w.after [
      | none ↦ failing PatchForgeFailure.workspace_error w.time r
      | some diff ↦
          accepted action result w.time (capture_state WorkspaceStateKind.after_call w.time diff r)
    ]
    else accepted action result w.time r

abbrev pub refusal_of : TurnWorld → RuntimeToolAction → Run → ReserveRefusalRecord
refusal_of w action r = record {
  tool_name = action.tool_name;
  tool_call_sequence = length r.gateway.records + 1;
  occurred_at = w.time;
}

-- The call, with the exceptions of the gateway
unfoldable pub call_gateway : Binding → TurnWorld → RuntimeToolAction → Run → Turned
unfolding finish_call failing reserve_refused
call_gateway b w action r =
    elim (invoke b action.tool_name action.arguments r.lifecycle.phase w.attempt r.gateway) [
      | ok (result, g) ↦
          finish_call w action result (record r { gateway = g; results = r.results ++ result ∷ [] })
      | err GatewayFault.reserve_kept ↦
          if is_finalize r.lifecycle.phase
          then with_lifecycle (record r { reserve_refusal = some (refusal_of w action r) })
              (reserve_refused w.time r.lifecycle)
          else failing PatchForgeFailure.budget_exhausted w.time r
      | err GatewayFault.over_budget ↦ failing PatchForgeFailure.budget_exhausted w.time r
      | err GatewayFault.request_refused ↦ failing PatchForgeFailure.policy_denied w.time r
      | err GatewayFault.bad_evidence ↦ stopped r
    ]

-- Before a call: the state of the worktree
unfoldable pub begin_call : Binding → TurnWorld → RuntimeToolAction → Run → Turned
unfolding call_gateway failing capture_state
begin_call b w action r =
    if is_tracked action.tool_name
    then elim w.before [
      | none ↦ failing PatchForgeFailure.workspace_error w.time r
      | some diff ↦
          call_gateway b w action (capture_state WorkspaceStateKind.before_call w.time diff r)
    ]
    else call_gateway b w action r

-- `_renew_workspace`, for a tool that needs the workspace
unfoldable pub act : Binding → TurnWorld → RuntimeToolAction → Run → Turned
unfolding begin_call failing
act b w action r =
    if requires_workspace action.tool_name
    then (if w.renewed
        then begin_call b w action (record r { renewals = r.renewals + 1 })
        else failing PatchForgeFailure.workspace_error w.time r)
    else begin_call b w action r

abbrev last_result : List GatewayResult → Option GatewayResult
last_result [] = none
last_result (r ∷ rs) = some (last_or r rs)

abbrev turn_of : Run → RuntimeTurn
turn_of r = record {
  phase = r.lifecycle.phase;
  previous_result = last_result r.results;
  failure = r.lifecycle.failure;
  implementation_loops = r.lifecycle.implementation_loops;
  max_implementation_loops = r.lifecycle.max_implementation_loops;
}

-- One turn of the loop of `execute`
unfoldable pub turn : Binding → TurnWorld → Run → Turned
unfolding act failing finalization_failed
turn b w r = elim (w.engine (turn_of r)) [
  | err EngineFault.cancelled_engine ↦ failing PatchForgeFailure.cancelled w.time r
  | err EngineFault.failed_engine ↦ failing PatchForgeFailure.engine_error w.time r
  | ok action ↦
      if r.lifecycle.report_only && not (is_report action.tool_name)
      then with_lifecycle r
          (finalization_failed PatchForgeFailure.budget_exhausted w.time r.lifecycle)
      else act b w action r
]
