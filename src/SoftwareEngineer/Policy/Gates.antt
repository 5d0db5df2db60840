-- ===== src/SoftwareEngineer/Policy/Gates.antt =====
-- What the gates, the budget and a self-review must show: independent descriptions of the tests.
use nexus_agent_platform.Common.{
  ◌≢◌, ap, ◌++◌, ◌==◌, inl, inr, Option-cases, ℕ, ◌*◌, ◌≤◌, ◌≡◌, refl, ◌↔◌, true, false, not, ◌&&◌,
  Option, none, some, List, [], ◌∷◌, arith, any_of, All,
}
use nexus_agent_platform.SoftwareEngineer.Models.{
  is_critical, CycleBudget, CycleUsage, GateResult, GateStatus, ReviewAnswer, ReviewItem,
  SelfReview, ValidationGate,
}
use nexus_agent_platform.SoftwareEngineer.Tests.{
  is_clear, has_passed, concerns_of, exceeded, cost_or_zero, gates_passed, requires_human,
  is_nonempty, gate_index, status_of, has_failed, missing_gates, failed_gates, sorted_gates,
  insert_gate,
}

-- The last result of a gate is a pass: no result of that gate follows it.
pub record LastPassed (gates : List GateResult) (g : ValidationGate) : Type 0 where
  pub before : List GateResult
  pub result : GateResult
  pub after : List GateResult
  pub found : gates ≡ before ++ result ∷ after
  pub own : result.gate ≡ g
  pub passed : result.status ≡ GateStatus.passed
  pub last : All (λ r. r.gate ≢ g) after

abbrev pub IsNoFailure : GateResult → Type 0
IsNoFailure r = (r.status ≢ GateStatus.failed) × (r.status ≢ GateStatus.error)

-- No gate failed or broke off, and the last result of each required gate is a pass.
pub record GatesHold (gates : List GateResult) (required : List ValidationGate) : Type 0 where
  pub none_failed : All IsNoFailure gates
  pub each_passed : All (LastPassed gates) required

insert_gate_nonempty :
    (g : ValidationGate) (gs : List ValidationGate) → is_nonempty (insert_gate g gs) ≡ true
insert_gate_nonempty g [] = refl
insert_gate_nonempty g (h ∷ hs) = ground arith

sorted_gates_nonempty : (gs : List ValidationGate) → is_nonempty (sorted_gates gs) ≡ is_nonempty gs
sorted_gates_nonempty [] = refl
sorted_gates_nonempty (g ∷ gs) = insert_gate_nonempty g (sorted_gates gs)

failure_cases :
    (s : GateStatus) → (has_failed s ≡ false) ↔ (s ≢ GateStatus.failed) × (s ≢ GateStatus.error)
failure_cases s = ground arith

-- The results without a failure, as the policy and the record test them
pub no_failure :
    (gates : List GateResult)
    → All IsNoFailure gates
    → any_of (λ r. has_failed r.status) gates ≡ false
no_failure [] a = refl
no_failure (r ∷ rs) (here, there) = rw ((failure_cases r.status).1 here) (no_failure rs there)

pub any_failed-false :
    (gates : List GateResult)
    → any_of (λ r. has_failed r.status) gates ≡ false
    → All IsNoFailure gates
any_failed-false [] h = tt
any_failed-false (r ∷ rs) h =
    ((failure_cases r.status).0 (ground (arith, h)), any_failed-false rs (ground (arith, h)))

none_failed_iff :
    (gates : List GateResult) → (is_nonempty (failed_gates gates) ≡ false) ↔ All IsNoFailure gates
none_failed_iff [] = (λ h. tt, λ h. refl)
none_failed_iff (r ∷ rs) =
    let rest = none_failed_iff rs in
    let here = failure_cases r.status in
    (λ h. (here.0 (ground arith), rest.0 (ground arith)), λ h. rw (here.1 h.0) (rest.1 h.1))

same_gate_iff : (g h : ValidationGate) → (gate_index g == gate_index h ≡ true) ↔ (g ≡ h)
same_gate_iff g h = ground arith

-- There is no result of the gate exactly when its status is absent.
unreported_iff :
    (g : ValidationGate) (gates : List GateResult)
    → (status_of g gates ≡ none) ↔ All (λ r. r.gate ≢ g) gates
unreported_iff g [] = (λ h. tt, λ h. refl)
unreported_iff g (r ∷ rs) =
    let rest = unreported_iff g rs in
    let same = same_gate_iff r.gate g in
    (
      λ h. (λ e. absurd (ground (arith, h, same.1 e)), rest.0 (ground (arith, h))),
      λ h. ground (arith, same, h.0, rest.1 h.1),
    )

last_passed :
    (g : ValidationGate) (gates : List GateResult)
    → status_of g gates ≡ some GateStatus.passed
    → LastPassed gates g
last_passed g [] h = absurd (cc)
last_passed g (r ∷ rs) h = elim (Option-cases (status_of g rs)) [
  | inl e ↦ record {
    before = [];
    result = r;
    after = rs;
    found = refl;
    own = (same_gate_iff r.gate g).0 (ground (arith, h, e));
    passed = ground (arith, h, e);
    last = (unreported_iff g rs).0 e;
  }
  | inr (status, e) ↦
      let later = last_passed g rs (ground (arith, h, e)) in
      record {
        before = r ∷ later.before;
        result = later.result;
        after = later.after;
        found = ap (λ xs. r ∷ xs) later.found;
        own = later.own;
        passed = later.passed;
        last = later.last;
      }
]

-- A result that no result of its gate follows gives the gate's status.
status_of-last :
    (g : ValidationGate) (before : List GateResult) (r : GateResult) (after : List GateResult)
    → r.gate ≡ g
    → All (λ x. x.gate ≢ g) after
    → status_of g (before ++ r ∷ after) ≡ some r.status
status_of-last g [] r after own last =
    rw ((unreported_iff g after).1 last, (same_gate_iff r.gate g).1 own) refl
status_of-last g (b ∷ bs) r after own last = rw (status_of-last g bs r after own last) refl

LastPassed-iff :
    (gates : List GateResult) (g : ValidationGate)
    → (has_passed (status_of g gates) ≡ true) ↔ LastPassed gates g
LastPassed-iff gates g = (
  λ h. last_passed g gates (ground arith),
  λ p. rw (p.found, status_of-last g p.before p.result p.after p.own p.last, p.passed) refl,
)

each_passed_iff :
    (gates : List GateResult) (required : List ValidationGate)
    → (is_nonempty (missing_gates gates required) ≡ false) ↔ All (LastPassed gates) required
each_passed_iff gates [] = (λ h. tt, λ h. refl)
each_passed_iff gates (g ∷ gs) =
    let rest = each_passed_iff gates gs in
    let here = LastPassed-iff gates g in
    (λ h. (here.0 (ground arith), rest.0 (ground arith)), λ h. rw (here.1 h.0) (rest.1 h.1))

-- The gates pass exactly when no result has the status failed or error and, for each required
-- gate, a result of that gate that no result of it follows has the status passed.
pub gates_passed_iff :
    (gates : List GateResult) (required : List ValidationGate)
    → ((gates_passed gates required).0 ≡ true) ↔ GatesHold gates required
unfolding gates_passed
gates_passed_iff gates required =
    let failed = sorted_gates_nonempty (failed_gates gates) in
    let missing = sorted_gates_nonempty (missing_gates gates required) in
    (
      λ h. record {
        none_failed = (none_failed_iff gates).0 (ground arith);
        each_passed = (each_passed_iff gates required).0 (ground arith);
      },
      λ h. ground (
        arith,
        failed,
        missing,
        (none_failed_iff gates).1 h.none_failed,
        (each_passed_iff gates required).1 h.each_passed,
      ),
    )

abbrev pub WithinCost : Option ℕ → Option ℕ → Type 0
WithinCost used none = Unit
WithinCost used (some limit) = cost_or_zero used ≤ limit

pub record IsWithinCycle (usage : CycleUsage) (budget : CycleBudget) : Type 0 where
  pub runtime : usage.runtime_seconds ≤ budget.max_runtime_seconds * 1000000
  pub turns : usage.turns ≤ budget.max_turns
  pub tool_calls : usage.tool_calls ≤ budget.max_tool_calls
  pub model_calls : usage.model_calls ≤ budget.max_model_calls
  pub input_tokens : usage.input_tokens ≤ budget.max_input_tokens
  pub output_tokens : usage.output_tokens ≤ budget.max_output_tokens
  pub cost : WithinCost usage.cost_usd budget.max_cost_usd

-- The usage exceeds no hard dimension of the budget exactly when each of the seven is within its
-- limit, an absent cost counting as 0 and an absent cost limit as no limit.
pub exceeded_iff :
    (usage : CycleUsage) (budget : CycleBudget)
    → (is_nonempty (exceeded usage budget) ≡ false) ↔ IsWithinCycle usage budget
unfolding exceeded
exceeded_iff usage budget = by_cost budget.max_cost_usd refl
  where
    by_cost :
        (limit : Option ℕ)
        → budget.max_cost_usd ≡ limit
        → (is_nonempty (exceeded usage budget) ≡ false) ↔ IsWithinCycle usage budget
    by_cost none e = (
      λ h. ground (arith, e),
      λ h. ground (
        arith, e, h.runtime, h.turns, h.tool_calls, h.model_calls, h.input_tokens, h.output_tokens,
      ),
    )
    by_cost (some limit) e = (
      λ h. ground (arith, e),
      λ h. ground (
        arith, e, h.runtime, h.turns, h.tool_calls, h.model_calls, h.input_tokens, h.output_tokens,
        h.cost,
      ),
    )

All-clear :
    (items : List ReviewItem)
    → is_nonempty (concerns_of items) ≡ false
    → All (λ item. item.answer ≡ ReviewAnswer.clear) items
All-clear [] h = tt
All-clear (item ∷ items) h = (ground arith, All-clear items (ground arith))

no_concerns :
    (items : List ReviewItem)
    → All (λ item. item.answer ≡ ReviewAnswer.clear) items
    → is_nonempty (concerns_of items) ≡ false
no_concerns [] a = refl
no_concerns (item ∷ items) a = ground (arith, a.0, no_concerns items a.1)

not_blocking :
    (items : List ReviewItem)
    → All (λ item. item.answer ≡ ReviewAnswer.clear) items
    → any_of (λ item. is_critical item.question && not (is_clear item.answer)) items ≡ false
not_blocking [] a = refl
not_blocking (item ∷ items) a = ground (arith, a.0, not_blocking items a.1)

-- A self-review needs no human exactly when each of its answers is clear.
pub requires_human_iff :
    (review : SelfReview)
    → (requires_human review ≡ false) ↔ All (λ item. item.answer ≡ ReviewAnswer.clear) review.items
unfolding requires_human
requires_human_iff review = (
  λ h. All-clear review.items (ground arith),
  λ a. ground (arith, no_concerns review.items a, not_blocking review.items a),
)
