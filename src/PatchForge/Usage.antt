-- ===== src/PatchForge/Usage.antt =====
-- The usage that a gateway reports passes the contract of RunBudgetUsage.
use nexus_agent_platform.Common.{
  repeats, ℕ, ◌+◌, ◌≡◌, refl, ap, ◌∙◌, Bool, false, List, [], ◌∷◌, ◌++◌, map, arith, ◌==◌,
  if◌then◌else◌, length, any_of, ok,
}
use nexus_agent_platform.PatchForge.Models.{
  RunBudgetUsage, PatchForgePhase, ToolCallRecord, phase_index, same_phase,
}
use nexus_agent_platform.PatchForge.Policy.{sum_of}
use nexus_agent_platform.PatchForge.Tools.{amount}
use nexus_agent_platform.PatchForge.Gateway.{Binding, Gateway, calls_in}
use nexus_agent_platform.PatchForge.Invoke.{budget_usage, every_phase, usage_of}
use nexus_agent_platform.PatchForge.Spending.{amount-add_amount, invoke-IsCall}
use nexus_agent_platform.PatchForge.Reserve.{Worked, idle, worked}
use nexus_agent_platform.PatchForge.Results.{validate_usage}

-- The output bytes of the calls in a phase
abbrev bytes_in : PatchForgePhase → List ToolCallRecord → ℕ
bytes_in phase [] = 0
bytes_in phase (r ∷ rs) =
    let rest = bytes_in phase rs in if same_phase r.phase phase then r.output_bytes + rest else rest

bytes_in-append :
    (phase : PatchForgePhase) (rs : List ToolCallRecord) (r : ToolCallRecord)
    → bytes_in phase (rs ++ r ∷ [])
      ≡ bytes_in phase rs + (if same_phase r.phase phase then r.output_bytes else 0)
bytes_in-append phase [] r = ground arith
bytes_in-append phase (s ∷ ss) r = ground (arith, bytes_in-append phase ss r)

-- The table of a gateway's outputs is that of its records.
Worked-bytes_in :
    (b : Binding) {g : Gateway} (phase : PatchForgePhase)
    → Worked b g
    → amount phase g.phase_output ≡ bytes_in phase g.records
Worked-bytes_in b phase idle = refl
Worked-bytes_in b phase (worked {g} {h} tool arguments at attempt r before e) =
    let c = invoke-IsCall b tool arguments at attempt g h r e in
    let table =
      ap (amount phase) c.charge ∙ amount-add_amount phase at r.call.output_bytes g.phase_output in
    let list = ap (bytes_in phase) c.recorded ∙ bytes_in-append phase g.records r.call in
    ground (arith, table, list, c.in_phase, Worked-bytes_in b phase before)

-- Sums over lists of phases
abbrev sum_over : (PatchForgePhase → ℕ) → List PatchForgePhase → ℕ
sum_over f ps = sum_of (map f ps)

sum_over-add :
    (f g h : PatchForgePhase → ℕ) (ps : List PatchForgePhase)
    → ((p : PatchForgePhase) → h p ≡ f p + g p)
    → sum_over h ps ≡ sum_over f ps + sum_over g ps
sum_over-add f g h [] same = refl
sum_over-add f g h (p ∷ ps) same = omega (arith, same p, sum_over-add f g h ps same)

sum_over_same :
    (f g : PatchForgePhase → ℕ) (ps : List PatchForgePhase)
    → ((p : PatchForgePhase) → f p ≡ g p)
    → sum_over f ps ≡ sum_over g ps
sum_over_same f g [] same = refl
sum_over_same f g (p ∷ ps) same = omega (arith, same p, sum_over_same f g ps same)

sum_over-one :
    (q : PatchForgePhase) (n : ℕ) → sum_over (λ p. if same_phase q p then n else 0) every_phase ≡ n
sum_over-one q n = ground arith

sum_over-calls_in :
    (rs : List ToolCallRecord) → sum_over (λ p. calls_in p rs) every_phase ≡ length rs
sum_over-calls_in [] = refl
sum_over-calls_in (r ∷ rs) =
    sum_over-add (λ p. if same_phase r.phase p then 1 else 0) (λ p. calls_in p rs)
      (λ p. calls_in p (r ∷ rs)) every_phase (λ p. ground arith)
    ∙ omega (arith, sum_over-one r.phase 1, sum_over-calls_in rs)

sum_over-bytes_in :
    (rs : List ToolCallRecord)
    → sum_over (λ p. bytes_in p rs) every_phase ≡ sum_of (map (λ r. r.output_bytes) rs)
sum_over-bytes_in [] = refl
sum_over-bytes_in (r ∷ rs) =
    sum_over-add (λ p. if same_phase r.phase p then r.output_bytes else 0) (λ p. bytes_in p rs)
      (λ p. bytes_in p (r ∷ rs)) every_phase (λ p. ground arith)
    ∙ omega (arith, sum_over-one r.phase r.output_bytes, sum_over-bytes_in rs)

-- A phase that the usage leaves out has no calls and no output.
usage_of-calls :
    (g : Gateway) (ps : List PatchForgePhase)
    → sum_of (map (λ u. u.tool_calls) (usage_of g ps)) ≡ sum_over (λ p. calls_in p g.records) ps
usage_of-calls g [] = refl
usage_of-calls g (p ∷ ps) = ground (arith, usage_of-calls g ps)

usage_of-bytes :
    (g : Gateway) (ps : List PatchForgePhase)
    → sum_of (map (λ u. u.output_bytes) (usage_of g ps))
      ≡ sum_over (λ p. amount p g.phase_output) ps
usage_of-bytes g [] = refl
usage_of-bytes g (p ∷ ps) = ground (arith, usage_of-bytes g ps)

abbrev numbered : ℕ → List ℕ → Bool
numbered n xs = any_of (λ y. n == y) xs

usage_of-numbered :
    (g : Gateway) (n : ℕ) (ps : List PatchForgePhase)
    → numbered n (map phase_index ps) ≡ false
    → numbered n (map (λ u. phase_index u.phase) (usage_of g ps)) ≡ false
usage_of-numbered g n [] h = refl
usage_of-numbered g n (p ∷ ps) h = ground (arith, h, usage_of-numbered g n ps (ground (arith, h)))

usage_of-repeats :
    (g : Gateway) (ps : List PatchForgePhase)
    → repeats (map phase_index ps) ≡ false
    → repeats (map (λ u. phase_index u.phase) (usage_of g ps)) ≡ false
usage_of-repeats g [] h = refl
usage_of-repeats g (p ∷ ps) h = ground (
  arith,
  h,
  usage_of-repeats g ps (ground (arith, h)),
  usage_of-numbered g (phase_index p) ps (ground (arith, h)),
)

validate_usage-accepts :
    (u : RunBudgetUsage)
    → repeats (map (λ p. phase_index p.phase) u.phases) ≡ false
    → sum_of (map (λ p. p.tool_calls) u.phases) ≡ u.total_tool_calls
    → sum_of (map (λ p. p.output_bytes) u.phases) ≡ u.total_output_bytes
    → validate_usage u ≡ ok tt
unfolding validate_usage
validate_usage-accepts u apart calls bytes = ground (arith, apart, calls, bytes)

-- The usage that a gateway reports after any accepted calls passes its contract: no phase repeats,
-- and the calls and output bytes of the phases sum to those of the run.
pub budget_usage-validate_usage :
    (b : Binding) (g : Gateway) → Worked b g → validate_usage (budget_usage g) ≡ ok tt
unfolding budget_usage
budget_usage-validate_usage b g w =
    let calls = usage_of-calls g every_phase ∙ sum_over-calls_in g.records in
    let bytes =
      usage_of-bytes g every_phase
      ∙ sum_over_same (λ p. amount p g.phase_output) (λ p. bytes_in p g.records) every_phase
          (λ p. Worked-bytes_in b p w)
      ∙ sum_over-bytes_in g.records in
    validate_usage-accepts (budget_usage g) (usage_of-repeats g every_phase refl) calls bytes
