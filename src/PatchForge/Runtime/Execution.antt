-- ===== src/PatchForge/Runtime/Execution.antt =====
-- `execute` and `_finish_cleanup` of PatchForgeRuntime.
use nexus_agent_platform.Common.{ℕ, zero, suc, ◌+◌, true, false, none, some, [], if◌then◌else◌}
use nexus_agent_platform.PatchForge.Models.{PatchForgeFailure, PatchForgePhase, same_phase}
use nexus_agent_platform.PatchForge.Lifecycle.{
  advance, begin_cleanup, close, fail_cleanup, finalization_failed, new_lifecycle,
}
use nexus_agent_platform.PatchForge.Tools.{is_finalize}
use nexus_agent_platform.PatchForge.Gateway.{Binding, fresh_gateway}
use nexus_agent_platform.PatchForge.RunState.{Run, Turned, World, WorkspaceStateKind}
use nexus_agent_platform.PatchForge.Runtime.{with_lifecycle, failing, capture_state, turn, is_over}

-- How the loop ends: by its test, by an exception, or for want of fuel
pub data Ended : Type 0 where
  left thrown : Run → Ended
  exhausted : Ended

unfoldable pub run_loop : Binding → World → ℕ → ℕ → Run → Ended
unfolding turn
run_loop b world zero n r = Ended.exhausted
run_loop b world (suc fuel) n r = elim (is_over r.lifecycle.phase) [
  | true ↦ Ended.left r
  | false ↦ elim (turn b (world.turn n) r) [
    | Turned.running next ↦ run_loop b world fuel (n + 1) next
    | Turned.stopped last ↦ Ended.thrown last
  ]
]

-- `__init__`, of a gateway without records
abbrev pub new_run : Binding → Run
new_run b = record {
  lifecycle = new_lifecycle b.run_id b.policy.budgets;
  gateway = fresh_gateway;
  results = [];
  renewals = 0;
  report = none;
  states = [];
  final_capture = none;
  reserve_refusal = none;
  workspace_cleaned = false;
}

abbrev pub and_then : Turned → (Run → Turned) → Turned
and_then (Turned.running r) f = f r
and_then (Turned.stopped r) f = Turned.stopped r

-- A call of `advance` on the runtime's lifecycle
abbrev pub advancing : PatchForgePhase → ℕ → Run → Turned
advancing target time r = with_lifecycle r (advance target time r.lifecycle)

unfoldable pub capture_initial : World → Run → Turned
unfolding capture_state failing
capture_initial w r = elim w.initial [
  | none ↦ failing PatchForgeFailure.workspace_error w.start_time r
  | some diff ↦ Turned.running (capture_state WorkspaceStateKind.initial w.start_time diff r)
]

-- `execute` up to its loop
unfoldable pub prepare : Binding → World → Turned
unfolding capture_initial advance
prepare b w =
    and_then (advancing PatchForgePhase.provisioning w.start_time (new_run b))
      (λ r. and_then (advancing PatchForgePhase.recon w.start_time r) (capture_initial w))

-- The end of finalization without a report, where the run has come to it
unfoldable pub abandon : ℕ → Run → Turned
unfolding finalization_failed
abandon time r =
    if is_finalize r.lifecycle.phase
    then with_lifecycle r (finalization_failed PatchForgeFailure.engine_error time r.lifecycle)
    else Turned.running r

-- `_finish_cleanup` up to the test for the cleanup phase
unfoldable pub enter_cleanup : World → Run → Turned
unfolding abandon failing begin_cleanup
enter_cleanup w r =
    if same_phase r.lifecycle.phase PatchForgePhase.reported
    then with_lifecycle (record r { final_capture = some w.proposal })
        (begin_cleanup w.end_time r.lifecycle)
    else (if is_finalize r.lifecycle.phase
        then abandon w.end_time r
        else (if is_over r.lifecycle.phase
            then Turned.running r
            else and_then (failing PatchForgeFailure.engine_error w.end_time r)
                (abandon w.end_time)))

-- And from there on
unfoldable pub leave_cleanup : World → Run → Turned
unfolding close fail_cleanup
leave_cleanup w r =
    if same_phase r.lifecycle.phase PatchForgePhase.cleanup
    then (if w.cleaned
        then with_lifecycle (record r { workspace_cleaned = true }) (close w.end_time r.lifecycle)
        else with_lifecycle r (fail_cleanup w.end_time r.lifecycle))
    else Turned.running r

unfoldable pub finish_cleanup : World → Run → Turned
unfolding enter_cleanup leave_cleanup
finish_cleanup w r = and_then (enter_cleanup w r) (leave_cleanup w)

-- `execute` returns the run, or raises and leaves it behind.
pub data Execution : Type 0 where
  completed raised : Run → Execution
  out_of_fuel : Execution

abbrev finished : Turned → Execution
finished (Turned.running r) = Execution.completed r
finished (Turned.stopped r) = Execution.raised r

abbrev pub left_behind : Turned → Run
left_behind (Turned.running r) = r
left_behind (Turned.stopped r) = r

-- The `finally` of `execute`
unfoldable pub finally_clean : World → Ended → Execution
unfolding finish_cleanup
finally_clean w (Ended.left r) = finished (finish_cleanup w r)
finally_clean w (Ended.thrown r) = Execution.raised (left_behind (finish_cleanup w r))
finally_clean w Ended.exhausted = Execution.out_of_fuel

unfoldable pub loop_from : Binding → World → ℕ → Turned → Ended
unfolding run_loop
loop_from b w fuel (Turned.running r) = run_loop b w fuel 0 r
loop_from b w fuel (Turned.stopped r) = Ended.thrown r

unfoldable pub execute : Binding → World → ℕ → Execution
unfolding finally_clean loop_from prepare
execute b w fuel = finally_clean w (loop_from b w fuel (prepare b w))
