-- ===== src/PatchForge/Lifecycle/Coherence.antt =====
-- What the lifecycle keeps from its creation on, whatever calls are made and refused.
use nexus_agent_platform.Common.{
  count_of-append, ◌&&◌, length-append, ℕ, ◌+◌, ◌*◌, ◌≤◌, ◌≡◌, ◌∙◌, Bool, true, false, Option, none,
  some, List, [], ◌∷◌, ◌++◌, arith, if◌then◌else◌, length, ok, >>=-eq-ok,
}
use nexus_agent_platform.PatchForge.Models.{
  PatchForgePhase, PatchForgeFailure, PatchOutcome, RuntimeTransitionKind, phase_index,
}
use nexus_agent_platform.PatchForge.Lifecycle.{
  same_phase, Lifecycle, RuntimeTransition, outcome_for_failure, record_transition,
}
use nexus_agent_platform.PatchForge.Lifecycle.Snapshot.{
  Cursor, check_transition, check_transitions, is_refusal, is_retry_kind, refusals, start,
}

check_transitions-append :
    (run_id : ℕ) (c : Cursor) (ts : List RuntimeTransition) (t : RuntimeTransition) {d : Cursor}
    → check_transitions run_id c ts ≡ ok d
    → check_transitions run_id c (ts ++ t ∷ []) ≡ check_transition run_id d t
unfolding check_transitions check_transition
check_transitions-append run_id c [] t {d} h = ground arith
check_transitions-append run_id c (u ∷ us) t {d} h =
    let (e, here, there) = >>=-eq-ok (check_transition run_id c u) _ h in
    rw here (check_transitions-append run_id e us t there)

abbrev pub outcome_of : Option PatchForgeFailure → Option PatchOutcome
outcome_of none = none
outcome_of (some f) = some (outcome_for_failure f)

abbrev pub refusal_count : Bool → ℕ
refusal_count true = 1
refusal_count false = 0

pub record IsCoherent (l : Lifecycle) : Type 0 where
  pub transcript :
      check_transitions l.run_id start l.transitions
      ≡ ok (record {
        next = length l.transitions + 1;
        expected_source = l.phase;
        retry_count = l.implementation_loops;
      })
  pub loops : l.implementation_loops ≤ l.max_implementation_loops
  pub outcome : l.outcome ≡ outcome_of l.failure
  pub refused : refusals l.transitions ≡ refusal_count l.report_only
  pub bounded :
      length l.transitions
      ≤ phase_index l.phase + 2 * l.implementation_loops + refusal_count l.report_only

record_transition-transcript :
    (target : PatchForgePhase) (kind : RuntimeTransitionKind) (f : Option PatchForgeFailure)
    (time : ℕ) (l : Lifecycle) (n : ℕ)
    → check_transitions l.run_id start l.transitions
      ≡ ok (record { next = length l.transitions + 1; expected_source = l.phase; retry_count = n })
    → check_transitions l.run_id start (record_transition target kind f time l).transitions
      ≡ ok (record {
        next = length l.transitions + 2;
        expected_source = target;
        retry_count = if is_retry_kind kind then n + 1 else n;
      })
unfolding record_transition check_transition
record_transition-transcript target kind f time l n h =
    check_transitions-append l.run_id start l.transitions _ h ∙ ground arith

record_transition-refusals :
    (target : PatchForgePhase) (kind : RuntimeTransitionKind) (f : Option PatchForgeFailure)
    (time : ℕ) (l : Lifecycle)
    → refusals (record_transition target kind f time l).transitions
      ≡ refusals l.transitions
        + (if same_phase l.phase PatchForgePhase.finalize
              && same_phase target PatchForgePhase.finalize
            then 1
            else 0)
unfolding record_transition
record_transition-refusals target kind f time l = count_of-append is_refusal l.transitions _

record_transition-length :
    (target : PatchForgePhase) (kind : RuntimeTransitionKind) (f : Option PatchForgeFailure)
    (time : ℕ) (l : Lifecycle)
    → length (record_transition target kind f time l).transitions ≡ length l.transitions + 1
unfolding record_transition
record_transition-length target kind f time l = length-append l.transitions _

-- A transition from a lifecycle whose transcript is coherent up to its own effect on the loops
pub moved :
    (target : PatchForgePhase) (kind : RuntimeTransitionKind) (f : Option PatchForgeFailure)
    (time : ℕ) (l : Lifecycle) (n : ℕ)
    → check_transitions l.run_id start l.transitions
      ≡ ok (record { next = length l.transitions + 1; expected_source = l.phase; retry_count = n })
    → (if is_retry_kind kind then n + 1 else n) ≡ l.implementation_loops
    → l.implementation_loops ≤ l.max_implementation_loops
    → l.outcome ≡ outcome_of l.failure
    → refusals l.transitions
        + (if same_phase l.phase PatchForgePhase.finalize
              && same_phase target PatchForgePhase.finalize
            then 1
            else 0)
      ≡ refusal_count l.report_only
    → length l.transitions + 1
      ≤ phase_index target + 2 * l.implementation_loops + refusal_count l.report_only
    → IsCoherent (record_transition target kind f time l)
unfolding record_transition
moved target kind f time l n checked retries loops outcome refused bounded = record {
  transcript =
      record_transition-transcript target kind f time l n checked
      ∙ ground (arith, retries, record_transition-length target kind f time l);
  loops = loops;
  outcome = outcome;
  refused = record_transition-refusals target kind f time l ∙ refused;
  bounded = rw (record_transition-length target kind f time l) bounded;
}
