-- ===== src/PatchForge/Runtime/Progress.antt =====
-- What a turn of the runtime keeps, and what it uses up of the calls and phases that are left.
use nexus_agent_platform.PatchForge.Lifecycle.Reachable.{Reached, called}
use nexus_agent_platform.Common.{
  subst, inr, refl, is_some, inl, err, ◌+◌, Bool-cases, map, sym, ◌∙◌, length, ◌-◌, ℕ, ◌≤◌, ◌<◌,
  ◌≡◌, false, arith, if◌then◌else◌, ok,
}
use nexus_agent_platform.PatchForge.Models.{
  same_phase, RunBudgets, PatchForgeFailure, PatchForgePhase,
}
use nexus_agent_platform.PatchForge.Lifecycle.{
  Changed, Call, call, record_transition, require_lifecycle_transition, Lifecycle, advance, fail,
  finalization_failed, report,
}
use nexus_agent_platform.PatchForge.Tools.{is_finalize}
use nexus_agent_platform.PatchForge.RunState.{Run, Turned}
use nexus_agent_platform.PatchForge.Runtime.{
  with_lifecycle, failing, Binding, is_over, record_failure,
}

-- The rounds that a phase leaves once no call succeeds any more
abbrev pub rounds_left : Lifecycle → ℕ
rounds_left l =
    if is_over l.phase
    then 0
    else (if is_finalize l.phase then (if l.report_only then 1 else 2) else 3)

-- A change that leaves the marks of the lifecycle alone and goes no way back
pub record IsOnward (l m : Lifecycle) : Type 0 where
  pub report_only : m.report_only ≡ l.report_only
  pub cleanup_failed : m.cleanup_failed ≡ l.cleanup_failed
  pub rounds : rounds_left m ≤ rounds_left l
  pub unclosed :
      same_phase l.phase PatchForgePhase.closed ≡ false
      → same_phase m.phase PatchForgePhase.closed ≡ false

module _ (time : ℕ) (l m : Lifecycle) where
  pub advance-IsOnward : (target : PatchForgePhase) → advance target time l ≡ ok m → IsOnward l m
  unfolding advance record_transition require_lifecycle_transition
  advance-IsOnward target h = record {
    report_only = ground (arith, h);
    cleanup_failed = ground (arith, h);
    rounds = ground (arith, h);
    unclosed = λ n. ground (arith, h, n);
  }

  pub report-IsOnward : report time l ≡ ok m → IsOnward l m
  unfolding report record_transition
  report-IsOnward h = record {
    report_only = ground (arith, h);
    cleanup_failed = ground (arith, h);
    rounds = ground (arith, h);
    unclosed = λ n. ground (arith, h, n);
  }

  pub record_failure-IsOnward :
      (f : PatchForgeFailure) → record_failure f time l ≡ ok m → IsOnward l m
  unfolding record_failure fail finalization_failed record_transition
  record_failure-IsOnward f h = record {
    report_only = ground (arith, h);
    cleanup_failed = ground (arith, h);
    rounds = ground (arith, h);
    unclosed = λ n. ground (arith, h, n);
  }

  pub record_failure-rounds_left :
      (f : PatchForgeFailure)
      → is_over l.phase ≡ false
      → record_failure f time l ≡ ok m
      → rounds_left m < rounds_left l
  unfolding record_failure fail finalization_failed record_transition
  record_failure-rounds_left f n h = ground (arith, h, n)

-- A lifecycle's change, as a step of the run that made it
pub record IsStep (run_id : ℕ) (budgets : RunBudgets) (l m : Lifecycle) : Type 0 where
  pub reached : Reached run_id budgets m
  pub onward : IsOnward l m

module _ {run_id : ℕ} {budgets : RunBudgets} (time : ℕ) {l m : Lifecycle}
    (r : Reached run_id budgets l) where
  pub record_failure-IsStep :
      (f : PatchForgeFailure) → record_failure f time l ≡ ok m → IsStep run_id budgets l m
  unfolding record_failure call
  record_failure-IsStep f h = record {
    onward = record_failure-IsOnward time l m f h;
    reached = elim (Bool-cases (is_finalize l.phase)) [
      | inl e ↦ called (Call.fail_finalization f) time r (ground (arith, e, h))
      | inr e ↦ elim (Bool-cases (is_over l.phase)) [
        | inl o ↦ subst (Reached run_id budgets) (ground (arith, e, o, h)) r
        | inr o ↦ called (Call.fail_with f) time r (ground (arith, e, o, h))
      ]
    ];
  }

  pub advance-IsStep :
      (target : PatchForgePhase) → advance target time l ≡ ok m → IsStep run_id budgets l m
  unfolding call
  advance-IsStep target h = record {
    onward = advance-IsOnward time l m target h;
    reached = called (Call.advance_to target) time r h;
  }

  pub report-IsStep : report time l ≡ ok m → IsStep run_id budgets l m
  unfolding call
  report-IsStep h = record {
    onward = report-IsOnward time l m h;
    reached = called Call.report_run time r h;
  }

pub unmoved-IsStep :
    {run_id : ℕ} {budgets : RunBudgets} {l m : Lifecycle}
    → Reached run_id budgets l
    → l ≡ m
    → IsStep run_id budgets l m
unmoved-IsStep {run_id} {budgets} {l} r same = subst (IsStep run_id budgets l) same (record {
  reached = r;
  onward = record {
    report_only = refl;
    cleanup_failed = refl;
    rounds = omega arith;
    unclosed = λ n. n;
  };
})

-- What every turn keeps of a run whose workspace is not cleaned up yet
pub record IsKept (b : Binding) (r : Run) : Type 0 where
  pub reached : Reached b.run_id b.policy.budgets r.lifecycle
  pub unclosed : same_phase r.lifecycle.phase PatchForgePhase.closed ≡ false
  pub few : length r.gateway.records ≤ b.policy.budgets.max_total_tool_calls
  pub evidence : map (λ x. x.call) r.results ≡ r.gateway.records
  pub refused : is_some r.reserve_refusal ≡ r.lifecycle.report_only
  pub cleaning : r.lifecycle.cleanup_failed ≡ false
  pub uncleaned : r.workspace_cleaned ≡ false

-- The turns that a run has left at most
abbrev pub turns_left : Binding → Run → ℕ
turns_left b r =
    b.policy.budgets.max_total_tool_calls - length r.gateway.records + rounds_left r.lifecycle

-- A run that is not closed yet
pub record IsOpen (b : Binding) (r : Run) : Type 0 where
  pub reached : Reached b.run_id b.policy.budgets r.lifecycle
  pub unclosed : same_phase r.lifecycle.phase PatchForgePhase.closed ≡ false

abbrev pub still_open : {b : Binding} {r : Run} → IsKept b r → IsOpen b r
still_open k = record { reached = k.reached; unclosed = k.unclosed }

-- A turn leaves fewer turns, or an exception ends the loop.
abbrev pub IsProgress : Binding → ℕ → Turned → Type 0
IsProgress b n (Turned.running r) = IsKept b r × turns_left b r < n
IsProgress b n (Turned.stopped r) = IsOpen b r

module _ (b : Binding) where
  -- The run of an exception, or the run whose lifecycle has changed
  pub with_lifecycle-IsProgress :
      (n : ℕ) (r : Run) (x : Changed)
      → IsOpen b r
      → ((m : Lifecycle)
          → x ≡ ok m
          → IsKept b (record r { lifecycle = m }) × turns_left b (record r { lifecycle = m }) < n)
      → IsProgress b n (with_lifecycle r x)
  with_lifecycle-IsProgress n r (ok m) o good = good m refl
  with_lifecycle-IsProgress n r (err e) o good = o

  pub IsStep-IsKept :
      (r : Run) (m : Lifecycle)
      → IsKept b r
      → IsStep b.run_id b.policy.budgets r.lifecycle m
      → IsKept b (record r { lifecycle = m })
  IsStep-IsKept r m k s = record {
    reached = s.reached;
    unclosed = s.onward.unclosed k.unclosed;
    few = k.few;
    evidence = k.evidence;
    refused = k.refused ∙ sym s.onward.report_only;
    cleaning = s.onward.cleanup_failed ∙ k.cleaning;
    uncleaned = k.uncleaned;
  }

  pub failing-IsProgress :
      (n : ℕ) (f : PatchForgeFailure) (time : ℕ) (r : Run)
      → IsKept b r
      → is_over r.lifecycle.phase ≡ false
      → turns_left b r ≤ n
      → IsProgress b n (failing f time r)
  unfolding failing
  failing-IsProgress n f time r k going most =
      with_lifecycle-IsProgress n r (record_failure f time r.lifecycle) (still_open k) (λ m h. (
        IsStep-IsKept r m k (record_failure-IsStep time k.reached f h),
        omega (arith, record_failure-rounds_left time r.lifecycle m f going h, most),
      ))
