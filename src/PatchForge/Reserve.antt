-- ===== src/PatchForge/Reserve.antt =====
-- The budgets over a whole run of a gateway: no phase is overspent, and the last call and the last
-- bytes of the finalization stay for the report.
use nexus_agent_platform.Common.{
  ◌+◌, ◌≤◌, ◌<◌, ◌≡◌, refl, ap, inl, inr, Bool, true, false, ◌&&◌, some, List, [], ◌∷◌, ◌++◌, arith,
  if◌then◌else◌, Bool-cases, length, length-append, any_of, any_of-append, count_of-append, ok,
}
use nexus_agent_platform.PatchForge.Models.{
  PatchForgePhase, PhaseBudget, ToolCallRecord, ToolName, for_phase, same_phase,
}
use nexus_agent_platform.PatchForge.Policy.{validate_totals_and_reserve}
use nexus_agent_platform.PatchForge.Tools.{Arguments, amount, total, is_finalize, is_report}
use nexus_agent_platform.PatchForge.Gateway.{
  Attempt, Binding, Gateway, GatewayResult, calls_in, check_budget, check_phase_budget,
  fresh_gateway, microseconds, min_result_envelope_bytes, report_output_reserve,
}
use nexus_agent_platform.PatchForge.Invoke.{invoke}
use nexus_agent_platform.PatchForge.Spending.{
  same_phase_sound, IsCall, IsMeasured, amount-add_amount, invoke-IsCall,
}

-- The calls that a gateway has accepted; a refused one changes nothing.
pub data Worked (b : Binding) : Gateway → Type 0 where
  idle : Worked b fresh_gateway
  worked :
      {g h : Gateway} (tool : ToolName) (arguments : Arguments) (phase : PatchForgePhase)
      (attempt : Attempt) (r : GatewayResult)
      → Worked b g
      → invoke b tool arguments phase attempt g ≡ ok (r, h)
      → Worked b h

-- A call of submit_report during the finalization
abbrev pub is_final_report : ToolCallRecord → Bool
is_final_report r = is_report r.tool_name && is_finalize r.phase

calls_in-append :
    (q : PatchForgePhase) (rs : List ToolCallRecord) (r : ToolCallRecord)
    → calls_in q (rs ++ r ∷ []) ≡ calls_in q rs + (if same_phase r.phase q then 1 else 0)
calls_in-append q rs r = count_of-append (λ c. same_phase c.phase q) rs r

pub record IsWithin (b : Binding) (g : Gateway) : Type 0 where
  pub output :
      (phase : PatchForgePhase) (budget : PhaseBudget)
      → for_phase b.policy.budgets phase ≡ some budget
      → amount phase g.phase_output ≤ budget.max_output_bytes
  pub calls :
      (phase : PatchForgePhase) (budget : PhaseBudget)
      → for_phase b.policy.budgets phase ≡ some budget
      → calls_in phase g.records ≤ budget.max_tool_calls
  pub total_calls : length g.records ≤ b.policy.budgets.max_total_tool_calls

record IsHeld (b : Binding) (g : Gateway) : Type 0 where
  spare :
      length g.records + b.policy.budgets.finalization_reserve.max_tool_calls
      ≤ b.policy.budgets.max_total_tool_calls + calls_in PatchForgePhase.finalize g.records
  last_call :
      any_of is_final_report g.records ≡ false
      → calls_in PatchForgePhase.finalize g.records + 1
        ≤ b.policy.budgets.finalization_reserve.max_tool_calls
  last_bytes :
      any_of is_final_report g.records ≡ false
      → amount PatchForgePhase.finalize g.phase_output + min_result_envelope_bytes
        ≤ b.policy.budgets.finalization_reserve.max_output_bytes

module _ (b : Binding) (measured : IsMeasured b) where
  same_budget :
      {tool : ToolName} {phase q : PatchForgePhase} {g h : Gateway} {r : GatewayResult}
      {budget : PhaseBudget} (c : IsCall b tool phase g r h)
      → phase ≡ q
      → for_phase b.policy.budgets q ≡ some budget
      → c.budget ≡ budget
  same_budget c p e = let found = c.budgeted in cc

  call-output :
      (tool : ToolName) (phase : PatchForgePhase) (g h : Gateway) (r : GatewayResult)
      (q : PatchForgePhase) (budget : PhaseBudget) (c : IsCall b tool phase g r h)
      → for_phase b.policy.budgets q ≡ some budget
      → amount q g.phase_output ≤ budget.max_output_bytes
      → amount q h.phase_output ≤ budget.max_output_bytes
  call-output tool phase g h r q budget c e w =
      rw (c.charge, amount-add_amount q phase r.call.output_bytes g.phase_output)
        (elim (Bool-cases (same_phase phase q)) [
          | inl s ↦
              let p = same_phase_sound phase q s in
              let same : c.budget.max_output_bytes ≡ budget.max_output_bytes =
                ap (λ (k : PhaseBudget). k.max_output_bytes) (same_budget c p e) in
              let here = ap (λ x. amount x g.phase_output) p in
              rw s (omega (arith, c.fits measured, same, here))
          | inr s ↦ rw s (omega (arith, w))
        ])

  call-calls :
      (tool : ToolName) (phase : PatchForgePhase) (g h : Gateway) (r : GatewayResult)
      (q : PatchForgePhase) (budget : PhaseBudget) (c : IsCall b tool phase g r h)
      → for_phase b.policy.budgets q ≡ some budget
      → calls_in q g.records ≤ budget.max_tool_calls
      → calls_in q h.records ≤ budget.max_tool_calls
  unfolding check_phase_budget
  call-calls tool phase g h r q budget c e w =
      let room : calls_in phase g.records < c.budget.max_tool_calls = ground (arith, c.checked) in
      rw (c.recorded, calls_in-append q g.records r.call, c.in_phase)
        (elim (Bool-cases (same_phase phase q)) [
          | inl s ↦
              let p = same_phase_sound phase q s in
              let same : c.budget.max_tool_calls ≡ budget.max_tool_calls =
                ap (λ (k : PhaseBudget). k.max_tool_calls) (same_budget c p e) in
              let here = ap (λ x. calls_in x g.records) p in rw s (omega (arith, room, same, here))
          | inr s ↦ rw s (omega (arith, w))
        ])

  call-IsWithin :
      (tool : ToolName) (phase : PatchForgePhase) (g h : Gateway) (r : GatewayResult)
      → IsCall b tool phase g r h
      → IsWithin b g
      → IsWithin b h
  unfolding check_phase_budget
  call-IsWithin tool phase g h r c w = record {
    output = λ q budget e. call-output tool phase g h r q budget c e (w.output q budget e);
    calls = λ q budget e. call-calls tool phase g h r q budget c e (w.calls q budget e);
    total_calls =
        rw (c.recorded, length-append g.records (r.call ∷ [])) (ground (arith, c.checked));
  }

  -- Where the failures for an output over budget have at most 512 bytes, after any accepted calls
  -- each budgeted phase is within its output bytes and its calls, and the run within its total of
  -- calls.
  pub Worked-IsWithin : {g : Gateway} → Worked b g → IsWithin b g
  Worked-IsWithin idle = record {
    output = λ q budget e. omega arith;
    calls = λ q budget e. omega arith;
    total_calls = omega arith;
  }
  Worked-IsWithin (worked {g} {h} tool arguments phase attempt r before e) =
      call-IsWithin tool phase g h r (invoke-IsCall b tool arguments phase attempt g h r e)
        (Worked-IsWithin before)

  not_reported :
      (rs : List ToolCallRecord) (r : ToolCallRecord)
      → any_of is_final_report (rs ++ r ∷ []) ≡ false
      → (any_of is_final_report rs ≡ false) × (is_final_report r ≡ false)
  not_reported rs r h = let split = any_of-append is_final_report rs r in ground (arith, split, h)

  reserved :
      (tool : ToolName) (phase : PatchForgePhase) (g h : Gateway) (r : GatewayResult)
      → IsCall b tool phase g r h
      → is_final_report r.call ≡ false
      → same_phase phase PatchForgePhase.finalize ≡ true
      → report_output_reserve tool phase ≡ min_result_envelope_bytes
  reserved tool phase g h r c other s =
      let quiet : (is_report tool && is_finalize phase) ≡ false =
        rw (← c.by_tool, ← c.in_phase) other in
      ground (arith, quiet, s)

  call-last_call :
      (tool : ToolName) (phase : PatchForgePhase) (g h : Gateway) (r : GatewayResult)
      → IsCall b tool phase g r h
      → is_final_report r.call ≡ false
      → calls_in PatchForgePhase.finalize g.records + 1
        ≤ b.policy.budgets.finalization_reserve.max_tool_calls
      → calls_in PatchForgePhase.finalize h.records + 1
        ≤ b.policy.budgets.finalization_reserve.max_tool_calls
  unfolding check_phase_budget
  call-last_call tool phase g h r c other w =
      rw (c.recorded, calls_in-append PatchForgePhase.finalize g.records r.call, c.in_phase)
        (elim (Bool-cases (same_phase phase PatchForgePhase.finalize)) [
          | inl s ↦
              let p = same_phase_sound phase PatchForgePhase.finalize s in
              let held = reserved tool phase g h r c other s in
              let room : calls_in phase g.records + 1 < c.budget.max_tool_calls =
                ground (arith, held, c.checked) in
              let same : c.budget.max_tool_calls
                  ≡ b.policy.budgets.finalization_reserve.max_tool_calls =
                ap (λ (k : PhaseBudget). k.max_tool_calls) (same_budget c p refl) in
              let here = ap (λ x. calls_in x g.records) p in rw s (omega (arith, room, same, here))
          | inr s ↦ rw s (omega (arith, w))
        ])

  call-last_bytes :
      (tool : ToolName) (phase : PatchForgePhase) (g h : Gateway) (r : GatewayResult)
      → IsCall b tool phase g r h
      → is_final_report r.call ≡ false
      → amount PatchForgePhase.finalize g.phase_output + min_result_envelope_bytes
        ≤ b.policy.budgets.finalization_reserve.max_output_bytes
      → amount PatchForgePhase.finalize h.phase_output + min_result_envelope_bytes
        ≤ b.policy.budgets.finalization_reserve.max_output_bytes
  call-last_bytes tool phase g h r c other w =
      rw
        (
          c.charge,
          amount-add_amount PatchForgePhase.finalize phase r.call.output_bytes g.phase_output,
        )
        (elim (Bool-cases (same_phase phase PatchForgePhase.finalize)) [
          | inl s ↦
              let p = same_phase_sound phase PatchForgePhase.finalize s in
              let held = reserved tool phase g h r c other s in
              let same : c.budget.max_output_bytes
                  ≡ b.policy.budgets.finalization_reserve.max_output_bytes =
                ap (λ (k : PhaseBudget). k.max_output_bytes) (same_budget c p refl) in
              let here = ap (λ x. amount x g.phase_output) p in
              rw s (omega (arith, c.fits measured, held, same, here))
          | inr s ↦ rw s (omega (arith, w))
        ])

  call-IsHeld :
      (tool : ToolName) (phase : PatchForgePhase) (g h : Gateway) (r : GatewayResult)
      → IsCall b tool phase g r h
      → IsHeld b g
      → IsHeld b h
  unfolding check_phase_budget
  call-IsHeld tool phase g h r c w = record {
    spare =
        rw
          (
            c.recorded,
            length-append g.records (r.call ∷ []),
            calls_in-append PatchForgePhase.finalize g.records r.call,
            c.in_phase,
          )
          (ground (arith, c.checked, w.spare));
    last_call = λ quiet.
        let (before, other) = not_reported g.records r.call (rw (← c.recorded) quiet) in
        call-last_call tool phase g h r c other (w.last_call before);
    last_bytes = λ quiet.
        let (before, other) = not_reported g.records r.call (rw (← c.recorded) quiet) in
        call-last_bytes tool phase g h r c other (w.last_bytes before);
  }

  Worked-IsHeld :
      {g : Gateway}
      → validate_totals_and_reserve b.policy.budgets ≡ true
      → min_result_envelope_bytes ≤ b.policy.budgets.finalization_reserve.max_output_bytes
      → Worked b g
      → IsHeld b g
  unfolding validate_totals_and_reserve
  Worked-IsHeld valid large idle = record {
    spare = ground (arith, valid);
    last_call = λ quiet. ground (arith, valid);
    last_bytes = λ quiet. omega (arith, large);
  }
  Worked-IsHeld valid large (worked {g} {h} tool arguments phase attempt r before e) =
      call-IsHeld tool phase g h r (invoke-IsCall b tool arguments phase attempt g h r e)
        (Worked-IsHeld valid large before)

  -- With budgets that their contract accepts and a finalization reserve of at least 512 output
  -- bytes, and where the failures for an output over budget have at most 512 bytes: after any
  -- accepted calls, as long as no report has been called for in the finalization and the duration
  -- of the run is not used up, the budget check lets the report through.
  pub report_is_reserved :
      (g : Gateway)
      → validate_totals_and_reserve b.policy.budgets ≡ true
      → min_result_envelope_bytes ≤ b.policy.budgets.finalization_reserve.max_output_bytes
      → Worked b g
      → any_of is_final_report g.records ≡ false
      → total g.phase_duration < microseconds b.policy.budgets.max_total_duration_seconds
      → check_budget b.policy.budgets ToolName.submit_report PatchForgePhase.finalize g ≡ ok tt
  unfolding check_budget check_phase_budget
  report_is_reserved g valid large w quiet time =
      let h = Worked-IsHeld valid large w in
      ground (arith, h.spare, h.last_call quiet, h.last_bytes quiet, time)
