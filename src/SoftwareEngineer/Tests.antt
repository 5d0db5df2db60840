-- ===== src/SoftwareEngineer/Tests.antt =====
-- What the ship policy tests: the usage and the self-review of src/nexus/software_engineer/models.py,
-- and the gates of policy.py.
use nexus_agent_platform.Common.{
  ℕ, ◌*◌, Bool, true, false, not, ◌&&◌, ◌||◌, Option, none, some, List, [], ◌∷◌, ltb, leb, ◌==◌,
  if◌then◌else◌, is_some, any_of,
}
use nexus_agent_platform.SoftwareEngineer.Models.{
  CycleBudget, CycleUsage, GateResult, GateStatus, ReviewAnswer, ReviewItem, SelfReview,
  ValidationGate, is_critical,
}

-- The dimensions of the hard budget
pub data Dimension : Type 0 where
  runtime_seconds : Dimension
  turns : Dimension
  tool_calls : Dimension
  model_calls : Dimension
  input_tokens : Dimension
  output_tokens : Dimension
  cost_usd : Dimension

-- A limit that may be absent, and its test in the loop of `exceeded`
abbrev pub over_limit : ℕ → Option ℕ → Bool
over_limit used none = false
over_limit used (some limit) = ltb limit used

-- `cost_usd or 0.0`
abbrev pub cost_or_zero : Option ℕ → ℕ
cost_or_zero none = 0
cost_or_zero (some cost) = cost

abbrev pub exceeding : List (Dimension × ℕ × Option ℕ) → List Dimension
exceeding [] = []
exceeding ((name, used, limit) ∷ pairs) =
    let rest = exceeding pairs in if over_limit used limit then name ∷ rest else rest

-- `CycleUsage.exceeded`
unfoldable pub exceeded : CycleUsage → CycleBudget → List Dimension
exceeded usage budget = exceeding (
    (Dimension.runtime_seconds, usage.runtime_seconds, some (budget.max_runtime_seconds * 1000000))
    ∷ (Dimension.turns, usage.turns, some budget.max_turns)
    ∷ (Dimension.tool_calls, usage.tool_calls, some budget.max_tool_calls)
    ∷ (Dimension.model_calls, usage.model_calls, some budget.max_model_calls)
    ∷ (Dimension.input_tokens, usage.input_tokens, some budget.max_input_tokens)
    ∷ (Dimension.output_tokens, usage.output_tokens, some budget.max_output_tokens)
    ∷ (Dimension.cost_usd, cost_or_zero usage.cost_usd, budget.max_cost_usd)
    ∷ [])

abbrev pub is_clear : ReviewAnswer → Bool
is_clear ReviewAnswer.clear = true
is_clear _ = false

-- `SelfReview.concerns`
abbrev pub concerns_of : List ReviewItem → List ReviewItem
concerns_of [] = []
concerns_of (item ∷ items) =
    let rest = concerns_of items in if is_clear item.answer then rest else item ∷ rest

-- `SelfReview.blocking`
abbrev pub is_blocking : SelfReview → Bool
is_blocking review =
    any_of (λ item. is_critical item.question && not (is_clear item.answer)) review.items

-- `bool(xs)` of a list
abbrev pub is_nonempty {ℓ} : {A : Type ℓ} → List A → Bool
is_nonempty [] = false
is_nonempty (x ∷ xs) = true

-- `SelfReview.requires_human`
unfoldable pub requires_human : SelfReview → Bool
requires_human review = is_blocking review || is_nonempty (concerns_of review.items)

-- The place of a gate among the gates' values in alphabetical order
abbrev pub gate_index : ValidationGate → ℕ
gate_index ValidationGate.benchmark_gate = 0
gate_index ValidationGate.compose_config = 1
gate_index ValidationGate.e2e_gate = 2
gate_index ValidationGate.mypy = 3
gate_index ValidationGate.pytest_full = 4
gate_index ValidationGate.pytest_targeted = 5
gate_index ValidationGate.ruff_format = 6
gate_index ValidationGate.ruff_lint = 7
gate_index ValidationGate.scenarios = 8
gate_index ValidationGate.sentinel_gate = 9
gate_index ValidationGate.sentinel_review = 10

abbrev pub insert_gate : ValidationGate → List ValidationGate → List ValidationGate
insert_gate g [] = g ∷ []
insert_gate g (h ∷ hs) =
    let rest = insert_gate g hs in
    if leb (gate_index g) (gate_index h) then g ∷ h ∷ hs else h ∷ rest

-- `sorted` of gates by value
abbrev pub sorted_gates : List ValidationGate → List ValidationGate
sorted_gates [] = []
sorted_gates (g ∷ gs) = insert_gate g (sorted_gates gs)

-- `status in {FAILED, ERROR}`
abbrev pub has_failed : GateStatus → Bool
has_failed GateStatus.failed = true
has_failed GateStatus.error = true
has_failed _ = false

abbrev pub failed_gates : List GateResult → List ValidationGate
failed_gates [] = []
failed_gates (r ∷ rs) =
    let rest = failed_gates rs in if has_failed r.status then r.gate ∷ rest else rest

-- `by_gate[gate].status`: the last result of a gate
abbrev pub status_of : ValidationGate → List GateResult → Option GateStatus
status_of gate [] = none
status_of gate (r ∷ rs) =
    let later = status_of gate rs in
    if is_some later
    then later
    else (if gate_index r.gate == gate_index gate then some r.status else none)

abbrev pub has_passed : Option GateStatus → Bool
has_passed (some GateStatus.passed) = true
has_passed _ = false

abbrev pub missing_gates : List GateResult → List ValidationGate → List ValidationGate
missing_gates gates [] = []
missing_gates gates (g ∷ gs) =
    let rest = missing_gates gates gs in if has_passed (status_of g gates) then rest else g ∷ rest

pub data GateReason : Type 0 where
  failed_ones : List ValidationGate → GateReason
  not_passed : List ValidationGate → GateReason
  every_one_passed : GateReason

unfoldable pub gates_passed : List GateResult → List ValidationGate → Bool × GateReason
gates_passed gates required =
    let failed = sorted_gates (failed_gates gates) in
    let missing = sorted_gates (missing_gates gates required) in
    if is_nonempty failed
    then (false, GateReason.failed_ones failed)
    else (if is_nonempty missing
        then (false, GateReason.not_passed missing)
        else (true, GateReason.every_one_passed))

-- REQUIRED_GATES_FOR_AUTONOMOUS_SHIP
abbrev pub required_gates : List ValidationGate
required_gates =
    ValidationGate.ruff_format ∷ ValidationGate.ruff_lint ∷ ValidationGate.mypy
    ∷ ValidationGate.pytest_full ∷ ValidationGate.sentinel_review ∷ []
