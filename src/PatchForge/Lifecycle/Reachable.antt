-- ===== src/PatchForge/Lifecycle/Reachable.antt =====
-- Every call keeps a lifecycle coherent, so that each one reached has a valid snapshot.
use nexus_agent_platform.Common.{
  true, is_some, sym, ℕ, ◌+◌, ◌≤◌, ◌<◌, ◌≡◌, refl, ap, ◌∙◌, subst, inl, inr, Bool, false, ◌&&◌,
  Option, none, some, arith, if◌then◌else◌, Bool-cases, Option-cases, ok,
}
use nexus_agent_platform.PatchForge.Models.{
  PatchForgePhase, PatchForgeFailure, RuntimeTransitionKind, phase_index, same_phase,
}
use nexus_agent_platform.PatchForge.Lifecycle.{
  new_lifecycle, Call, reserve_refused, finalization_failed, RunBudgets, begin_cleanup, close,
  fail_cleanup, call, Lifecycle, advance, fail, record_transition, report,
  require_lifecycle_transition, failure_target, is_retry,
}
use nexus_agent_platform.PatchForge.Lifecycle.Snapshot.{
  validate_transcript, check_transitions, is_retry_kind,
}
use nexus_agent_platform.PatchForge.Lifecycle.Coherence.{
  IsCoherent, moved, outcome_of, refusal_count,
}

-- A move from a coherent lifecycle, after the failure or the report-only mark has been set
module _ (l : Lifecycle) (c : IsCoherent l) (time : ℕ) where
  plain :
      (target : PatchForgePhase) (kind : RuntimeTransitionKind) (f : Option PatchForgeFailure)
      (failure : Option PatchForgeFailure) (cleanup_failed report_only : Bool)
      → is_retry_kind kind ≡ false
      → refusal_count report_only
        ≡ refusal_count l.report_only
          + (if same_phase l.phase PatchForgePhase.finalize
                && same_phase target PatchForgePhase.finalize
              then 1
              else 0)
      → phase_index l.phase + refusal_count l.report_only + 1
        ≤ phase_index target + refusal_count report_only
      → IsCoherent (
          record_transition target kind f time (record l {
            failure = failure;
            outcome = outcome_of failure;
            cleanup_failed = cleanup_failed;
            report_only = report_only;
          }))
  plain target kind f failure cleanup_failed report_only k r p =
      moved target kind f time
        (record l {
          failure = failure;
          outcome = outcome_of failure;
          cleanup_failed = cleanup_failed;
          report_only = report_only;
        })
        l.implementation_loops c.transcript (rw k refl) c.loops refl (rw c.refused (sym r))
        (omega (arith, c.bounded, p))

  retried :
      (target : PatchForgePhase)
      → same_phase l.phase PatchForgePhase.finalize ≡ false
      → phase_index l.phase ≤ phase_index target + 1
      → l.implementation_loops < l.max_implementation_loops
      → IsCoherent (
          record_transition target RuntimeTransitionKind.retry none time
            (record l { implementation_loops = l.implementation_loops + 1 }))
  retried target n p b =
      moved target RuntimeTransitionKind.retry none time
        (record l { implementation_loops = l.implementation_loops + 1 }) l.implementation_loops
        c.transcript refl (omega (arith, b)) c.outcome (rw n (omega (arith, c.refused)))
        (omega (arith, c.bounded, p))

module _ (l m : Lifecycle) (c : IsCoherent l) (time : ℕ) where
  advance-IsCoherent : (target : PatchForgePhase) → advance target time l ≡ ok m → IsCoherent m
  unfolding advance require_lifecycle_transition
  advance-IsCoherent target h = elim (Bool-cases (is_retry l.phase target)) [
    | inl e ↦
        let same : record_transition target RuntimeTransitionKind.retry none time
              (record l { implementation_loops = l.implementation_loops + 1 })
            ≡ m =
          ground (arith, e) in
        subst IsCoherent same
          (retried l c time target (ground (arith, e)) (ground (arith, e)) (ground (arith, e)))
    | inr e ↦
        let alive : l.failure ≡ none = ground (arith, e) in
        let same : record_transition target RuntimeTransitionKind.progress none time l ≡ m =
          ground (arith, e) in
        let marked : record l {
          failure = l.failure;
          outcome = outcome_of l.failure;
          cleanup_failed = l.cleanup_failed;
          report_only = l.report_only;
        }
            ≡ l =
          rw (← c.outcome) refl in
        subst IsCoherent
          (ap (record_transition target RuntimeTransitionKind.progress none time) marked ∙ same)
          (plain l c time target RuntimeTransitionKind.progress none l.failure l.cleanup_failed
            l.report_only refl (ground (arith, e)) (ground (arith, e)))
  ]

  fail-IsCoherent : (f : PatchForgeFailure) → fail f time l ≡ ok m → IsCoherent m
  unfolding fail
  fail-IsCoherent f h = elim (Option-cases (failure_target l.phase)) [
    | inl e ↦ absurd (ground (arith, e))
    | inr (target, e) ↦ subst IsCoherent (ground (arith, e)) (
        plain l c time target RuntimeTransitionKind.failure (some f) (some f) l.cleanup_failed
          l.report_only refl (ground (arith, e)) (ground (arith, e)))
  ]

  report-IsCoherent : report time l ≡ ok m → IsCoherent m
  unfolding report
  report-IsCoherent h = subst IsCoherent (ground (arith, c.outcome)) (
      plain l c time PatchForgePhase.reported RuntimeTransitionKind.report none l.failure
        l.cleanup_failed l.report_only refl (ground arith) (ground arith))

  reserve_refused-IsCoherent : reserve_refused time l ≡ ok m → IsCoherent m
  unfolding reserve_refused
  reserve_refused-IsCoherent h =
      let failure =
        if is_some l.failure then l.failure else some PatchForgeFailure.budget_exhausted in
      subst IsCoherent (ground (arith, c.outcome)) (
        plain l c time PatchForgePhase.finalize RuntimeTransitionKind.failure
          (some PatchForgeFailure.budget_exhausted) failure l.cleanup_failed true refl
          (ground arith) (ground arith))

  finalization_failed-IsCoherent :
      (f : PatchForgeFailure) → finalization_failed f time l ≡ ok m → IsCoherent m
  unfolding finalization_failed
  finalization_failed-IsCoherent f h =
      let failure = if is_some l.failure then l.failure else some f in
      subst IsCoherent (ground (arith, c.outcome)) (
        plain l c time PatchForgePhase.cleanup RuntimeTransitionKind.failure (some f) failure
          l.cleanup_failed l.report_only refl (ground arith) (ground arith))

  begin_cleanup-IsCoherent : begin_cleanup time l ≡ ok m → IsCoherent m
  unfolding begin_cleanup
  begin_cleanup-IsCoherent h = subst IsCoherent (ground (arith, c.outcome)) (
      plain l c time PatchForgePhase.cleanup RuntimeTransitionKind.cleanup none l.failure
        l.cleanup_failed l.report_only refl (ground arith) (ground arith))

  close-IsCoherent : close time l ≡ ok m → IsCoherent m
  unfolding close
  close-IsCoherent h = subst IsCoherent (ground (arith, c.outcome)) (
      plain l c time PatchForgePhase.closed RuntimeTransitionKind.close none l.failure
        l.cleanup_failed l.report_only refl (ground arith) (ground arith))

  fail_cleanup-IsCoherent : fail_cleanup time l ≡ ok m → IsCoherent m
  unfolding fail_cleanup
  fail_cleanup-IsCoherent h =
      let failure =
        if is_some l.failure then l.failure else some PatchForgeFailure.cleanup_failed in
      subst IsCoherent (ground (arith, c.outcome)) (
        plain l c time PatchForgePhase.closed RuntimeTransitionKind.failure
          (some PatchForgeFailure.cleanup_failed) failure true l.report_only refl (ground arith)
          (ground arith))

  call-IsCoherent : (k : Call) → call k time l ≡ ok m → IsCoherent m
  unfolding call
  call-IsCoherent (Call.advance_to target) = advance-IsCoherent target
  call-IsCoherent (Call.fail_with f) = fail-IsCoherent f
  call-IsCoherent Call.report_run = report-IsCoherent
  call-IsCoherent Call.refuse_reserve = reserve_refused-IsCoherent
  call-IsCoherent (Call.fail_finalization f) = finalization_failed-IsCoherent f
  call-IsCoherent Call.start_cleanup = begin_cleanup-IsCoherent
  call-IsCoherent Call.close_run = close-IsCoherent
  call-IsCoherent Call.fail_cleaning = fail_cleanup-IsCoherent

-- A refused call leaves the lifecycle as it is, so that only accepted calls are steps.
pub data Reached (run_id : ℕ) (budgets : RunBudgets) : Lifecycle → Type 0 where
  begun : Reached run_id budgets (new_lifecycle run_id budgets)
  called :
      {l m : Lifecycle} (k : Call) (time : ℕ)
      → Reached run_id budgets l
      → call k time l ≡ ok m
      → Reached run_id budgets m

pub Reached-IsCoherent :
    {run_id : ℕ} {budgets : RunBudgets} {l : Lifecycle} → Reached run_id budgets l → IsCoherent l
unfolding check_transitions
Reached-IsCoherent begun = ground arith
Reached-IsCoherent (called {l} {m} k time r h) = call-IsCoherent l m (Reached-IsCoherent r) time k h

call-max :
    (k : Call) (time : ℕ) (l m : Lifecycle)
    → call k time l ≡ ok m
    → m.max_implementation_loops ≡ l.max_implementation_loops
unfolding call advance fail report reserve_refused finalization_failed begin_cleanup close
    fail_cleanup record_transition
call-max k time l m h = ground arith

Reached-max :
    {run_id : ℕ} {budgets : RunBudgets} {l : Lifecycle}
    → Reached run_id budgets l
    → l.max_implementation_loops ≡ budgets.max_implementation_loops
Reached-max begun = refl
Reached-max (called {l} {m} k time r h) = call-max k time l m h ∙ Reached-max r

-- With at most 20 implementation loops allowed, the snapshot of a lifecycle that any calls have
-- reached passes its contract.
pub Reached-validate_transcript :
    (run_id : ℕ) (budgets : RunBudgets) (l : Lifecycle)
    → budgets.max_implementation_loops ≤ 20
    → Reached run_id budgets l
    → validate_transcript l ≡ ok tt
unfolding validate_transcript
Reached-validate_transcript run_id budgets l few r =
    let c = Reached-IsCoherent r in
    ground (arith, few, c.transcript, c.loops, c.outcome, c.refused, c.bounded, Reached-max r)
