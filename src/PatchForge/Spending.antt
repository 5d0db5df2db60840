-- ===== src/PatchForge/Spending.antt =====
-- What the calls of a gateway may spend at most, and what they leave for the report.
use nexus_agent_platform.Common.{
  ℕ, ◌+◌, ◌-◌, ◌≤◌, ◌≡◌, inl, inr, true, not, some, [], ◌∷◌, ◌++◌, arith, if◌then◌else◌, Bool-cases,
  Option-cases, length, ok, raise_if, >>=-eq-ok,
}
use nexus_agent_platform.PatchForge.Models.{
  PatchForgePhase, PhaseBudget, ToolName, for_phase, same_phase,
}
use nexus_agent_platform.PatchForge.Tools.{fits_tool, Arguments, PhaseTable, add_amount, amount}
use nexus_agent_platform.PatchForge.Gateway.{
  Attempt, Binding, FailureCode, Gateway, GatewayResult, ToolOutput, check_budget,
  check_phase_budget, min_result_envelope_bytes, report_output_reserve,
}
use nexus_agent_platform.PatchForge.Invoke.{
  Charged, Settled, attempted, charge_duration, charge_output, charged, conclude, invoke, now_of,
  over_duration, over_output, settle,
}

pub same_phase_sound : (a b : PatchForgePhase) → same_phase a b ≡ true → a ≡ b
same_phase_sound a b h = ground arith

pub amount-add_amount :
    (q p : PatchForgePhase) (n : ℕ) (t : PhaseTable)
    → amount q (add_amount p n t) ≡ amount q t + (if same_phase p q then n else 0)
amount-add_amount q p n [] = ground arith
amount-add_amount q p n ((r, m) ∷ rest) = elim (Bool-cases (same_phase r p)) [
  | inl e ↦ rw e (ground (arith, e))
  | inr e ↦ rw e (ground (arith, e, amount-add_amount q p n rest))
]

-- The two failures that stand for an output over budget are themselves within the envelope.
pub record IsMeasured (b : Binding) : Type 0 where
  pub output_refusal :
      b.measure (ToolOutput.failure FailureCode.output_budget_exceeded over_output)
      ≤ min_result_envelope_bytes
  pub duration_refusal :
      b.measure (ToolOutput.failure FailureCode.duration_budget_exceeded over_duration)
      ≤ min_result_envelope_bytes

charge_output-fits :
    (b : Binding) (budget : PhaseBudget) (used reserve : ℕ) (s : Settled)
    → IsMeasured b
    → used + reserve + min_result_envelope_bytes ≤ budget.max_output_bytes
    → used + (charge_output b budget used reserve s).output_bytes + reserve
      ≤ budget.max_output_bytes
unfolding charge_output
charge_output-fits b budget used reserve s m room = ground (arith, m.output_refusal)

charge_duration-fits :
    (b : Binding) (budget : PhaseBudget) (used elapsed : ℕ) (c : Charged) (before reserve : ℕ)
    → IsMeasured b
    → before + reserve + min_result_envelope_bytes ≤ budget.max_output_bytes
    → before + c.output_bytes + reserve ≤ budget.max_output_bytes
    → before + (charge_duration b budget used elapsed c).output_bytes + reserve
      ≤ budget.max_output_bytes
unfolding charge_duration
charge_duration-fits b budget used elapsed c before reserve m room fits =
    ground (arith, m.duration_refusal)

-- What an accepted call has been checked for, and what it leaves
pub record IsCall (b : Binding) (tool : ToolName) (phase : PatchForgePhase) (g : Gateway)
    (r : GatewayResult) (h : Gateway) : Type 0 where
  pub budget : PhaseBudget
  pub budgeted : for_phase b.policy.budgets phase ≡ some budget
  pub checked : check_phase_budget b.policy.budgets budget tool phase g ≡ ok tt
  pub in_phase : r.call.phase ≡ phase
  pub by_tool : r.call.tool_name ≡ tool
  pub recorded : h.records ≡ g.records ++ r.call ∷ []
  pub charge : h.phase_output ≡ add_amount phase r.call.output_bytes g.phase_output
  pub sequence : r.call.sequence ≡ length g.records + 1
  pub fits :
      IsMeasured b
      → amount phase g.phase_output + r.call.output_bytes + report_output_reserve tool phase
        ≤ budget.max_output_bytes

charged-fits :
    (b : Binding) (budget : PhaseBudget) (tool : ToolName) (arguments : Arguments)
    (phase : PatchForgePhase) (attempt : Attempt) (started completed : ℕ) (g : Gateway)
    → check_phase_budget b.policy.budgets budget tool phase g ≡ ok tt
    → IsMeasured b
    → amount phase g.phase_output
        + (charged b budget tool arguments phase attempt started completed g).output_bytes
        + report_output_reserve tool phase
      ≤ budget.max_output_bytes
unfolding charged check_phase_budget
charged-fits b budget tool arguments phase attempt started completed g checked m =
    let room : amount phase g.phase_output
          + report_output_reserve tool phase
          + min_result_envelope_bytes
        ≤ budget.max_output_bytes =
      ground (arith, checked) in
    charge_duration-fits b budget (amount phase g.phase_duration) (completed - started) _
      (amount phase g.phase_output) (report_output_reserve tool phase) m room
      (charge_output-fits b budget (amount phase g.phase_output) (report_output_reserve tool phase)
        (settle (attempted b tool arguments phase attempt g)) m room)

-- The parts of an accepted call
invoke-conclude :
    (b : Binding) (tool : ToolName) (arguments : Arguments) (phase : PatchForgePhase)
    (attempt : Attempt) (g h : Gateway) (r : GatewayResult)
    → invoke b tool arguments phase attempt g ≡ ok (r, h)
    → (budget : PhaseBudget) × (started : ℕ) × (completed : ℕ) × (for_phase b.policy.budgets phase
        ≡ some budget)
      × (check_phase_budget b.policy.budgets budget tool phase g ≡ ok tt)
      × (conclude b tool phase attempt started completed
            (charged b budget tool arguments phase attempt started completed g)
            g
          ≡ ok (r, h))
unfolding invoke check_budget
invoke-conclude b tool arguments phase attempt g h r e =
    let (_, _, e1) = >>=-eq-ok (raise_if (not (fits_tool tool arguments)) _) _ e in
    let (_, checked, e2) = >>=-eq-ok (check_budget b.policy.budgets tool phase g) _ e1 in
    let (started, _, e3) = >>=-eq-ok (now_of attempt.started) _ e2 in
    let (completed, _, e4) = >>=-eq-ok (now_of attempt.completed) _ e3 in
    elim (Option-cases (for_phase b.policy.budgets phase)) [
      | inl f ↦ absurd (ground (arith, f, e4))
      | inr (budget, f) ↦
          (budget, started, completed, f, ground (arith, f, checked), ground (arith, f, e4))
    ]

pub invoke-IsCall :
    (b : Binding) (tool : ToolName) (arguments : Arguments) (phase : PatchForgePhase)
    (attempt : Attempt) (g h : Gateway) (r : GatewayResult)
    → invoke b tool arguments phase attempt g ≡ ok (r, h)
    → IsCall b tool phase g r h
unfolding conclude
invoke-IsCall b tool arguments phase attempt g h r e =
    let (budget, started, completed, f, checked, done) =
      invoke-conclude b tool arguments phase attempt g h r e in
    let bytes : (charged b budget tool arguments phase attempt started completed g).output_bytes
        ≡ r.call.output_bytes =
      ground (arith, done) in
    record {
      budget = budget;
      budgeted = f;
      checked = checked;
      in_phase = ground (arith, done);
      by_tool = ground (arith, done);
      recorded = ground (arith, done);
      charge = ground (arith, done);
      sequence = ground (arith, done);
      fits = λ m.
          rw (← bytes)
            (charged-fits b budget tool arguments phase attempt started completed g checked m);
    }
