-- ===== src/PatchForge/Runtime/Turns.antt =====
-- Each turn of the runtime's loop leaves fewer turns, or ends the loop.
use nexus_agent_platform.PatchForge.Spending.{invoke-IsCall}
use nexus_agent_platform.Common.{
  ◌∙◌, map-append, length-append, ◌+◌, length, [], ◌∷◌, ◌++◌, ℕ, ◌<◌, ◌≡◌, refl, sym, ap, subst,
  inl, inr, false, Option, arith, Bool-cases, Option-cases, ok, err,
}
use nexus_agent_platform.PatchForge.Models.{
  PatchForgeFailure, RunBudgets, same_phase, AgentReport, ToolName,
}
use nexus_agent_platform.PatchForge.Lifecycle.{Changed, Lifecycle}
use nexus_agent_platform.PatchForge.Lifecycle.Reachable.{Reached}
use nexus_agent_platform.PatchForge.Tools.{Arguments, is_report}
use nexus_agent_platform.PatchForge.Gateway.{
  SandboxStatus, Gateway, check_phase_budget, Binding, GatewayResult, ToolOutput,
}
use nexus_agent_platform.PatchForge.RunState.{
  Diff, WorkspaceStateKind, TurnWorld, Run, RuntimeToolAction,
}
use nexus_agent_platform.PatchForge.Runtime.{
  invoke, is_tracked, finish_call, capture_state, caught, is_over, accept_result, accept_report,
  accepted, execution_failure, classify_failure, loop_failure,
}
use nexus_agent_platform.PatchForge.Runtime.Progress.{
  unmoved-IsStep, IsKept, IsStep, IsProgress, IsStep-IsKept, failing-IsProgress, turns_left,
  record_failure-IsStep, advance-IsStep, report-IsStep,
}

accept_report-run :
    (tool : ToolName) (arguments : Arguments) (time : ℕ) (r : Run)
    → (accept_report tool arguments time r).0
      ≡ record r { report = (accept_report tool arguments time r).0.report }
unfolding accept_report
accept_report-run tool (Arguments.submit given) time r = elim (Bool-cases (is_report tool)) [
  | inl e ↦ rw e refl
  | inr e ↦ rw e refl
]
accept_report-run tool _ time r = refl

accept_result-run :
    (action : RuntimeToolAction) (output : ToolOutput) (time : ℕ) (r : Run)
    → (accept_result action output time r).0
      ≡ record r { report = (accept_result action output time r).0.report }
unfolding accept_result accept_report
accept_result-run action (ToolOutput.failure code detail) time r = refl
accept_result-run action (ToolOutput.execution id SandboxStatus.succeeded code out error truncated)
      time r =
    refl
accept_result-run action (ToolOutput.execution id SandboxStatus.failed code out error truncated)
      time r =
    refl
accept_result-run action (ToolOutput.execution id SandboxStatus.timed_out code out error truncated)
      time r =
    refl
accept_result-run action
      (ToolOutput.execution id SandboxStatus.output_limit code out error truncated) time r =
    refl
accept_result-run action
      (ToolOutput.execution id SandboxStatus.sandbox_error code out error truncated) time r =
    refl
accept_result-run action (ToolOutput.phase_request current target) time r =
    elim (Bool-cases (same_phase current r.lifecycle.phase)) [
      | inl e ↦ rw e refl
      | inr e ↦ rw e refl
    ]
accept_result-run action (ToolOutput.report sha references) time r =
    accept_report-run action.tool_name action.arguments time r
accept_result-run action (ToolOutput.observed content truncated) time r = refl

accept_result-IsStep :
    {run_id : ℕ} {budgets : RunBudgets} (action : RuntimeToolAction) (output : ToolOutput)
    (time : ℕ) (r : Run) (m : Lifecycle)
    → Reached run_id budgets r.lifecycle
    → (accept_result action output time r).1 ≡ ok m
    → IsStep run_id budgets r.lifecycle m
unfolding accept_result accept_report
accept_result-IsStep action (ToolOutput.failure code detail) time r m k h =
    record_failure-IsStep time k (classify_failure code) h
accept_result-IsStep action (ToolOutput.execution id status code out error truncated) time r m k h =
    elim (Option-cases (execution_failure status)) [
      | inl e ↦ unmoved-IsStep k (ground (arith, e, h))
      | inr (f, e) ↦ record_failure-IsStep time k f (ground (arith, e, h))
    ]
accept_result-IsStep action (ToolOutput.phase_request current target) time r m k h =
    advance-IsStep time k target (ground (arith, h))
accept_result-IsStep action (ToolOutput.report sha references) time r m k h =
    report-IsStep time k (ground (arith, h))
accept_result-IsStep action (ToolOutput.observed content truncated) time r m k h =
    unmoved-IsStep k (ground (arith, h))

with_report-IsKept :
    (b : Binding) (o : Option AgentReport) (r : Run)
    → IsKept b r
    → IsKept b (record r { report = o })
with_report-IsKept b o r k = record {
  reached = k.reached;
  unclosed = k.unclosed;
  few = k.few;
  evidence = k.evidence;
  refused = k.refused;
  cleaning = k.cleaning;
  uncleaned = k.uncleaned;
}

module _ (b : Binding) (n : ℕ) (time : ℕ) where
  caught-IsProgress :
      (q : Run × Changed)
      → IsKept b q.0
      → is_over q.0.lifecycle.phase ≡ false
      → turns_left b q.0 < n
      → ((m : Lifecycle) → q.1 ≡ ok m → IsStep b.run_id b.policy.budgets q.0.lifecycle m)
      → IsProgress b n (caught time q)
  unfolding caught
  caught-IsProgress (r, ok m) k going most step =
      let s = step m refl in (IsStep-IsKept b r m k s, omega (arith, s.onward.rounds, most))
  caught-IsProgress (r, err e) k going most step =
      failing-IsProgress b n (loop_failure e) time r k going (omega (arith, most))

  accepted-IsProgress :
      (action : RuntimeToolAction) (result : GatewayResult) (r : Run)
      → IsKept b r
      → is_over r.lifecycle.phase ≡ false
      → turns_left b r < n
      → IsProgress b n (accepted action result time r)
  unfolding accepted
  accepted-IsProgress action result r k going most =
      let q = accept_result action result.output time r in
      let same = accept_result-run action result.output time r in
      let back : q.0.lifecycle ≡ r.lifecycle = ap (λ s. s.lifecycle) same in
      let called : q.0.gateway ≡ r.gateway = ap (λ s. s.gateway) same in
      caught-IsProgress q (subst (IsKept b) (sym same) (with_report-IsKept b q.0.report r k))
        (rw back going) (rw (back, called) most)
        (λ m h. rw back (accept_result-IsStep action result.output time r m k.reached h))

pub capture_state-IsKept :
    (b : Binding) (kind : WorkspaceStateKind) (time : ℕ) (diff : Diff) (r : Run)
    → IsKept b r
    → IsKept b (capture_state kind time diff r)
unfolding capture_state
capture_state-IsKept b kind time diff r k = record {
  reached = k.reached;
  unclosed = k.unclosed;
  few = k.few;
  evidence = k.evidence;
  refused = k.refused;
  cleaning = k.cleaning;
  uncleaned = k.uncleaned;
}

module _ (b : Binding) (n : ℕ) (w : TurnWorld) (action : RuntimeToolAction) where
  pub finish_call-IsProgress :
      (result : GatewayResult) (r : Run)
      → IsKept b r
      → is_over r.lifecycle.phase ≡ false
      → turns_left b r < n
      → IsProgress b n (finish_call w action result r)
  unfolding finish_call
  finish_call-IsProgress result r k going most = elim (Bool-cases (is_tracked action.tool_name)) [
    | inr e ↦ rw (e, finish_call) (accepted-IsProgress b n w.time action result r k going most)
    | inl e ↦ elim (Option-cases w.after) [
      | inl a ↦
          rw (e, a, finish_call)
            (failing-IsProgress b n PatchForgeFailure.workspace_error w.time r k going
              (omega (arith, most)))
      | inr (diff, a) ↦
          rw (e, a, finish_call)
            (accepted-IsProgress b n w.time action result _
              (capture_state-IsKept b WorkspaceStateKind.after_call w.time diff r k) going most)
    ]
  ]

  -- A call that its gateway accepted has room among the calls of the run and uses it.
  pub accepted_call-IsKept :
      (r : Run) (result : GatewayResult) (g : Gateway)
      → IsKept b r
      → invoke b action.tool_name action.arguments r.lifecycle.phase w.attempt r.gateway
        ≡ ok (result, g)
      → IsKept b (record r { gateway = g; results = r.results ++ result ∷ [] })
        × turns_left b (record r { gateway = g; results = r.results ++ result ∷ [] })
          < turns_left b r
  unfolding check_phase_budget
  accepted_call-IsKept r result g k h =
      let c =
        invoke-IsCall b action.tool_name action.arguments r.lifecycle.phase w.attempt r.gateway g
          result h in
      let room : length r.gateway.records < b.policy.budgets.max_total_tool_calls =
        ground (arith, c.checked) in
      let grown : length g.records ≡ length r.gateway.records + 1 =
        rw c.recorded (length-append r.gateway.records _) in
      (
        record {
          reached = k.reached;
          unclosed = k.unclosed;
          few = omega (arith, room, grown);
          evidence = map-append (λ x. x.call) r.results _ ∙ ground (arith, k.evidence, c.recorded);
          refused = k.refused;
          cleaning = k.cleaning;
          uncleaned = k.uncleaned;
        },
        omega (arith, room, grown),
      )
