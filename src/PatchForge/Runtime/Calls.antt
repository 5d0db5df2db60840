-- ===== src/PatchForge/Runtime/Calls.antt =====
-- A turn with its call of the gateway: whatever the engine and the workspace do, it makes progress.
use nexus_agent_platform.Common.{
  if_cases, false, ℕ, ◌+◌, ◌<◌, ◌≡◌, inl, inr, false, not, ◌&&◌, some, arith, Bool-cases,
  Option-cases, Result-cases,
}
use nexus_agent_platform.PatchForge.Models.{PatchForgeFailure}
use nexus_agent_platform.PatchForge.Lifecycle.{
  Call, call, finalization_failed, reserve_refused, record_transition,
}
use nexus_agent_platform.PatchForge.Lifecycle.Reachable.{called}
use nexus_agent_platform.PatchForge.Tools.{is_finalize, is_report, requires_workspace}
use nexus_agent_platform.PatchForge.Gateway.{Binding, GatewayFault}
use nexus_agent_platform.PatchForge.Invoke.{invoke}
use nexus_agent_platform.PatchForge.RunState.{
  Run, TurnWorld, RuntimeToolAction, WorkspaceStateKind, EngineFault, ReserveRefusalRecord,
}
use nexus_agent_platform.PatchForge.Runtime.{
  refusal_of, is_over, with_lifecycle, is_tracked, call_gateway, begin_call, act, turn, turn_of,
}
use nexus_agent_platform.PatchForge.Runtime.Progress.{
  still_open, IsKept, IsProgress, with_lifecycle-IsProgress, failing-IsProgress, turns_left,
  rounds_left,
}
use nexus_agent_platform.PatchForge.Runtime.Turns.{
  accepted_call-IsKept, capture_state-IsKept, finish_call-IsProgress,
}

module _ (b : Binding) (time : ℕ) (r : Run) (k : IsKept b r) where
  reserve_refused-IsProgress :
      (refusal : ReserveRefusalRecord)
      → IsProgress b (turns_left b r) (
          with_lifecycle
            (record r { reserve_refusal = some refusal })
            (reserve_refused time r.lifecycle))
  unfolding reserve_refused record_transition call
  reserve_refused-IsProgress refusal =
      with_lifecycle-IsProgress b (turns_left b r) (record r { reserve_refusal = some refusal })
        (reserve_refused time r.lifecycle) (record { reached = k.reached; unclosed = k.unclosed })
        (λ m h. (
          record {
            reached = called Call.refuse_reserve time k.reached h;
            unclosed = ground (arith, h);
            few = k.few;
            evidence = k.evidence;
            refused = ground (arith, h);
            cleaning = ground (arith, h, k.cleaning);
            uncleaned = k.uncleaned;
          },
          let fewer : rounds_left m < rounds_left r.lifecycle = ground (arith, h) in
              omega (arith, fewer),
        ))

  finalization_failed-IsProgress :
      (f : PatchForgeFailure)
      → IsProgress b (turns_left b r) (with_lifecycle r (finalization_failed f time r.lifecycle))
  unfolding finalization_failed record_transition call
  finalization_failed-IsProgress f =
      with_lifecycle-IsProgress b (turns_left b r) r (finalization_failed f time r.lifecycle)
        (still_open k)
        (λ m h. (
          record {
            reached = called (Call.fail_finalization f) time k.reached h;
            unclosed = ground (arith, h);
            few = k.few;
            evidence = k.evidence;
            refused = ground (arith, h, k.refused);
            cleaning = ground (arith, h, k.cleaning);
            uncleaned = k.uncleaned;
          },
          let fewer : rounds_left m < rounds_left r.lifecycle = ground (arith, h) in
              omega (arith, fewer),
        ))

module _ (b : Binding) (w : TurnWorld) (action : RuntimeToolAction) where
  call_gateway-IsProgress :
      (r : Run)
      → IsKept b r
      → is_over r.lifecycle.phase ≡ false
      → IsProgress b (turns_left b r) (call_gateway b w action r)
  unfolding call_gateway
  call_gateway-IsProgress r k going =
      elim (Result-cases
        (invoke b action.tool_name action.arguments r.lifecycle.phase w.attempt r.gateway)) [
          | inl ((result, g), e) ↦
              let (kept, fewer) = accepted_call-IsKept b (turns_left b r) w action r result g k e in
              rw (e, call_gateway)
                (finish_call-IsProgress b (turns_left b r) w action result _ kept going fewer)
          | inr (GatewayFault.reserve_kept, e) ↦
              rw (e, call_gateway)
                (if_cases (IsProgress b (turns_left b r)) (is_finalize r.lifecycle.phase)
                  (λ _. reserve_refused-IsProgress b w.time r k (refusal_of w action r))
                  (λ _.
                    failing-IsProgress b (turns_left b r) PatchForgeFailure.budget_exhausted w.time
                      r k going (omega arith)))
          | inr (GatewayFault.over_budget, e) ↦
              rw (e, call_gateway)
                (failing-IsProgress b (turns_left b r) PatchForgeFailure.budget_exhausted w.time r k
                  going (omega arith))
          | inr (GatewayFault.request_refused, e) ↦
              rw (e, call_gateway)
                (failing-IsProgress b (turns_left b r) PatchForgeFailure.policy_denied w.time r k
                  going (omega arith))
          | inr (GatewayFault.bad_evidence, e) ↦ rw (e, call_gateway) (still_open k)
        ]

  begin_call-IsProgress :
      (r : Run)
      → IsKept b r
      → is_over r.lifecycle.phase ≡ false
      → IsProgress b (turns_left b r) (begin_call b w action r)
  unfolding begin_call
  begin_call-IsProgress r k going = elim (Bool-cases (is_tracked action.tool_name)) [
    | inr e ↦ rw (e, begin_call) (call_gateway-IsProgress r k going)
    | inl e ↦ elim (Option-cases w.before) [
      | inl a ↦
          rw (e, a, begin_call)
            (failing-IsProgress b (turns_left b r) PatchForgeFailure.workspace_error w.time r k
              going (omega arith))
      | inr (diff, a) ↦
          rw (e, a, begin_call)
            (call_gateway-IsProgress _
              (capture_state-IsKept b WorkspaceStateKind.before_call w.time diff r k) going)
    ]
  ]

  act-IsProgress :
      (r : Run)
      → IsKept b r
      → is_over r.lifecycle.phase ≡ false
      → IsProgress b (turns_left b r) (act b w action r)
  unfolding act
  act-IsProgress r k going = elim (Bool-cases (requires_workspace action.tool_name)) [
    | inr e ↦ rw (e, act) (begin_call-IsProgress r k going)
    | inl e ↦
        rw (e, act)
          (if_cases (IsProgress b (turns_left b r)) w.renewed
            (λ _.
              begin_call-IsProgress (record r { renewals = r.renewals + 1 })
                (record {
                  reached = k.reached;
                  unclosed = k.unclosed;
                  few = k.few;
                  evidence = k.evidence;
                  refused = k.refused;
                  cleaning = k.cleaning;
                  uncleaned = k.uncleaned;
                })
                going)
            (λ _.
              failing-IsProgress b (turns_left b r) PatchForgeFailure.workspace_error w.time r k
                going (omega arith)))
  ]

pub turn-IsProgress :
    (b : Binding) (w : TurnWorld) (r : Run)
    → IsKept b r
    → is_over r.lifecycle.phase ≡ false
    → IsProgress b (turns_left b r) (turn b w r)
unfolding turn
turn-IsProgress b w r k going = elim (Result-cases (w.engine (turn_of r))) [
  | inr (EngineFault.cancelled_engine, e) ↦
      rw (e, turn)
        (failing-IsProgress b (turns_left b r) PatchForgeFailure.cancelled w.time r k going
          (omega arith))
  | inr (EngineFault.failed_engine, e) ↦
      rw (e, turn)
        (failing-IsProgress b (turns_left b r) PatchForgeFailure.engine_error w.time r k going
          (omega arith))
  | inl (action, e) ↦
      rw (e, turn)
        (if_cases (IsProgress b (turns_left b r))
          (r.lifecycle.report_only && not (is_report action.tool_name))
          (λ _. finalization_failed-IsProgress b w.time r k PatchForgeFailure.budget_exhausted)
          (λ _. act-IsProgress b w action r k going))
]
