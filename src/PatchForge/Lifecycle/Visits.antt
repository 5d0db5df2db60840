-- ===== src/PatchForge/Lifecycle/Visits.antt =====
-- The phases that a lifecycle without a failure has been through.
use nexus_agent_platform.Common.{
  ℕ, ◌+◌, ◌≤◌, ◌<◌, ◌≡◌, subst, inl, inr, Bool, true, ◌||◌, Option, none, List, arith, ℕ_discrete,
  ==_iff, Bool-cases, any_of, any_of-append, ok,
}
use nexus_agent_platform.PatchForge.Models.{
  PatchForgePhase, PatchForgeFailure, RunBudgets, RuntimeTransitionKind, phase_index, same_phase,
}
use nexus_agent_platform.PatchForge.Lifecycle.{
  Call, Lifecycle, RuntimeTransition, advance, begin_cleanup, call, close, fail, fail_cleanup,
  finalization_failed, record_transition, report, require_lifecycle_transition, reserve_refused,
  is_retry,
}
use nexus_agent_platform.PatchForge.Lifecycle.Reachable.{Reached, begun, called}

-- A transition of the transcript leads to this phase.
abbrev pub has_entered : PatchForgePhase → List RuntimeTransition → Bool
has_entered phase = any_of (λ t. same_phase t.target phase)

-- What a call does that leaves no failure: one transition, at most one phase further.
record IsStep (l m : Lifecycle) : Type 0 where
  alive : l.failure ≡ none
  entered :
      (phase : PatchForgePhase)
      → has_entered phase m.transitions
        ≡ (has_entered phase l.transitions || same_phase m.phase phase)
  next : phase_index m.phase ≤ phase_index l.phase + 1

record_transition-IsStep :
    (target : PatchForgePhase) (kind : RuntimeTransitionKind) (f : Option PatchForgeFailure)
    (time : ℕ) (l : Lifecycle)
    → l.failure ≡ none
    → phase_index target ≤ phase_index l.phase + 1
    → IsStep l (record_transition target kind f time l)
unfolding record_transition
record_transition-IsStep target kind f time l alive near = record {
  alive = alive;
  entered = λ phase. any_of-append (λ t. same_phase t.target phase) l.transitions _;
  next = near;
}

advance-IsStep :
    (target : PatchForgePhase) (time : ℕ) (l m : Lifecycle)
    → advance target time l ≡ ok m
    → IsStep l m
unfolding advance require_lifecycle_transition
advance-IsStep target time l m h = elim (Bool-cases (is_retry l.phase target)) [
  | inl e ↦
      let looped : Lifecycle = record l { implementation_loops = l.implementation_loops + 1 } in
      let s =
        record_transition-IsStep target RuntimeTransitionKind.retry none time looped
          (ground (arith, e)) (ground (arith, e)) in
      let same : record_transition target RuntimeTransitionKind.retry none time looped ≡ m =
        ground (arith, e) in
      subst (IsStep l) same (record { alive = s.alive; entered = s.entered; next = s.next })
  | inr e ↦ subst (IsStep l) (ground (arith, e)) (
      record_transition-IsStep target RuntimeTransitionKind.progress none time l (ground (arith, e))
        (ground (arith, e)))
]

call-IsStep :
    (k : Call) (time : ℕ) (l m : Lifecycle) → call k time l ≡ ok m → m.failure ≡ none → IsStep l m
unfolding call fail report reserve_refused finalization_failed begin_cleanup close fail_cleanup
    record_transition
call-IsStep (Call.advance_to target) time l m h alive = advance-IsStep target time l m h
call-IsStep (Call.fail_with f) time l m h alive = absurd (ground arith)
call-IsStep Call.report_run time l m h alive = subst (IsStep l) (ground arith) (
    record_transition-IsStep PatchForgePhase.reported RuntimeTransitionKind.report none time l
      (ground arith) (ground arith))
call-IsStep Call.refuse_reserve time l m h alive = absurd (ground arith)
call-IsStep (Call.fail_finalization f) time l m h alive = absurd (ground arith)
call-IsStep Call.start_cleanup time l m h alive = subst (IsStep l) (ground arith) (
    record_transition-IsStep PatchForgePhase.cleanup RuntimeTransitionKind.cleanup none time l
      (ground arith) (ground arith))
call-IsStep Call.close_run time l m h alive = subst (IsStep l) (ground arith) (
    record_transition-IsStep PatchForgePhase.closed RuntimeTransitionKind.close none time l
      (ground arith) (ground arith))
call-IsStep Call.fail_cleaning time l m h alive = absurd (ground arith)

same_phase-eq : (a b : PatchForgePhase) → phase_index a ≡ phase_index b → same_phase a b ≡ true
same_phase-eq a b e = (==_iff (phase_index a) (phase_index b)).1 e

-- A reached lifecycle without a failure has entered every phase after the first up to its own.
pub Reached-has_entered :
    {run_id : ℕ} {budgets : RunBudgets} {l : Lifecycle} (phase : PatchForgePhase)
    → Reached run_id budgets l
    → l.failure ≡ none
    → 0 < phase_index phase
    → phase_index phase ≤ phase_index l.phase
    → has_entered phase l.transitions ≡ true
Reached-has_entered phase begun alive above below = absurd (omega (arith, above, below))
Reached-has_entered phase (called {l} {m} k time r h) alive above below =
    let s = call-IsStep k time l m h alive in
    elim (ℕ_discrete (phase_index m.phase) (phase_index phase)) [
      | yes e ↦ ground (arith, s.entered phase, same_phase-eq m.phase phase e)
      | no n ↦
          let before =
            Reached-has_entered phase r s.alive above (omega (arith, n, s.next, below)) in
          ground (arith, s.entered phase, before)
    ]
