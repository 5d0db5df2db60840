-- ===== src/PatchForge/Lifecycle.antt =====
-- PatchForgeLifecycle of src/nexus/patchforge/runtime.py, with its transition table and the contract
-- of its snapshot. The clock's reading is an argument of each method.
pub mod Snapshot
pub mod Coherence
pub mod Reachable
pub mod Visits
use nexus_agent_platform.Common.{
  ℕ, zero, suc, ◌+◌, ◌-◌, ◌*◌, ◌≤◌, ◌<◌, String, ◌≡◌, refl, sym, ap, ◌∙◌, subst, ◌≢◌, ◌↔◌, ◌⊎◌, inl,
  inr, Bool, true, false, not, ◌&&◌, ◌||◌, Option, none, some, List, [], ◌∷◌, ◌++◌, map, append-nil,
  append_assoc, arith, ℕ_discrete, ltb, leb, ◌==◌, if◌then◌else◌, ==_iff, ==_refl, Bool-cases,
  Option-cases, is_some, length, length-append, any_of, all_of, last_or, last_or-append, All,
  All-append, All-map, Result, ok, err, ◌>>=◌, ◌>>◌, raise_if, >>=-eq-ok, codes, is_lower, is_upper,
  is_digit, str_eq, str_eq_iff,
}
use nexus_agent_platform.PatchForge.Models.{
  RuntimeTransitionKind, PatchForgePhase, PatchForgeFailure, PatchOutcome, RunBudgets, phase_index,
  same_phase,
}

-- LIFECYCLE_TRANSITIONS
abbrev pub lifecycle_transitions : PatchForgePhase → List PatchForgePhase
lifecycle_transitions PatchForgePhase.created = PatchForgePhase.provisioning ∷ []
lifecycle_transitions PatchForgePhase.provisioning = PatchForgePhase.recon ∷ []
lifecycle_transitions PatchForgePhase.recon = PatchForgePhase.hypothesis ∷ []
lifecycle_transitions PatchForgePhase.hypothesis = PatchForgePhase.reproduce ∷ []
lifecycle_transitions PatchForgePhase.reproduce = PatchForgePhase.implement ∷ []
lifecycle_transitions PatchForgePhase.implement = PatchForgePhase.targeted_validate ∷ []
lifecycle_transitions PatchForgePhase.targeted_validate =
    PatchForgePhase.implement ∷ PatchForgePhase.full_validate ∷ []
lifecycle_transitions PatchForgePhase.full_validate = PatchForgePhase.self_review ∷ []
lifecycle_transitions PatchForgePhase.self_review = PatchForgePhase.finalize ∷ []
lifecycle_transitions PatchForgePhase.finalize = PatchForgePhase.reported ∷ []
lifecycle_transitions PatchForgePhase.reported = PatchForgePhase.cleanup ∷ []
lifecycle_transitions PatchForgePhase.cleanup = PatchForgePhase.closed ∷ []
lifecycle_transitions PatchForgePhase.closed = []

-- _FAILURE_OUTCOMES, which `outcome_for_failure` looks up
abbrev pub outcome_for_failure : PatchForgeFailure → PatchOutcome
outcome_for_failure PatchForgeFailure.budget_exhausted = PatchOutcome.partial
outcome_for_failure PatchForgeFailure.policy_denied = PatchOutcome.policy_violation
outcome_for_failure PatchForgeFailure.cancelled = PatchOutcome.cancelled
outcome_for_failure PatchForgeFailure.sandbox_error = PatchOutcome.sandbox_failed
outcome_for_failure PatchForgeFailure.workspace_error = PatchOutcome.aborted
outcome_for_failure PatchForgeFailure.engine_error = PatchOutcome.aborted
outcome_for_failure PatchForgeFailure.validation_failed = PatchOutcome.partial
outcome_for_failure PatchForgeFailure.attestation_failed = PatchOutcome.aborted
outcome_for_failure PatchForgeFailure.cleanup_failed = PatchOutcome.aborted

pub record RuntimeTransition : Type 0 where
  pub run_id : ℕ
  pub sequence : ℕ
  pub source : PatchForgePhase
  pub target : PatchForgePhase
  pub kind : RuntimeTransitionKind
  pub implementation_loops : ℕ
  pub failure : Option PatchForgeFailure
  pub occurred_at : ℕ

-- The state of a PatchForgeLifecycle
pub record Lifecycle : Type 0 where
  pub run_id : ℕ
  pub max_implementation_loops : ℕ
  pub phase : PatchForgePhase
  pub implementation_loops : ℕ
  pub outcome : Option PatchOutcome
  pub failure : Option PatchForgeFailure
  pub cleanup_failed : Bool
  pub report_only : Bool
  pub transitions : List RuntimeTransition

-- `__init__`
abbrev pub new_lifecycle : ℕ → RunBudgets → Lifecycle
new_lifecycle run_id budgets = record {
  run_id = run_id;
  max_implementation_loops = budgets.max_implementation_loops;
  phase = PatchForgePhase.created;
  implementation_loops = 0;
  outcome = none;
  failure = none;
  cleanup_failed = false;
  report_only = false;
  transitions = [];
}

-- RuntimeTransitionError, one constructor for each message
pub data TransitionError : Type 0 where
  failed_runtime explicit_report explicit_cleanup : TransitionError
  invalid_transition : PatchForgePhase → PatchForgePhase → TransitionError
  loop_budget already_classified needs_cleanup_phase : TransitionError
  cannot_fail_from : PatchForgePhase → TransitionError
  not_finalizing already_report_only not_reported not_cleaning : TransitionError
  phase_mismatch foreign_report : TransitionError

abbrev pub Changed : Type 0
Changed = Result TransitionError Lifecycle

abbrev pub transition :
    PatchForgePhase
    → RuntimeTransitionKind
    → Option PatchForgeFailure
    → ℕ
    → Lifecycle
    → RuntimeTransition
transition target kind failure time l = record {
  run_id = l.run_id;
  sequence = length l.transitions + 1;
  source = l.phase;
  target = target;
  kind = kind;
  implementation_loops = l.implementation_loops;
  failure = failure;
  occurred_at = time;
}

-- `_record`
unfoldable pub record_transition :
    PatchForgePhase → RuntimeTransitionKind → Option PatchForgeFailure → ℕ → Lifecycle → Lifecycle
record_transition target kind failure time l = record l {
  phase = target;
  transitions = l.transitions ++ transition target kind failure time l ∷ [];
}

-- `self._failure = failure; self._outcome = _FAILURE_OUTCOMES[failure]`
abbrev pub classified : PatchForgeFailure → Lifecycle → Lifecycle
classified f l = record l { failure = some f; outcome = some (outcome_for_failure f) }

-- The same where no failure is primary yet
abbrev pub classified_once : PatchForgeFailure → Lifecycle → Lifecycle
classified_once f l = if is_some l.failure then l else classified f l

abbrev pub is_retry : PatchForgePhase → PatchForgePhase → Bool
is_retry source target =
    same_phase source PatchForgePhase.targeted_validate
    && same_phase target PatchForgePhase.implement

unfoldable pub require_lifecycle_transition :
    PatchForgePhase → PatchForgePhase → Result TransitionError (Unit {0})
require_lifecycle_transition current target =
    raise_if (not (any_of (same_phase target) (lifecycle_transitions current)))
      (TransitionError.invalid_transition current target)

unfoldable pub advance : PatchForgePhase → ℕ → Lifecycle → Changed
unfolding record_transition require_lifecycle_transition
advance target time l = do
  raise_if (is_some l.failure) TransitionError.failed_runtime
  raise_if (same_phase l.phase PatchForgePhase.finalize) TransitionError.explicit_report
  raise_if
      (same_phase l.phase PatchForgePhase.reported || same_phase l.phase PatchForgePhase.cleanup)
      TransitionError.explicit_cleanup
  require_lifecycle_transition l.phase target
  raise_if (is_retry l.phase target && not (ltb l.implementation_loops l.max_implementation_loops))
      TransitionError.loop_budget
  ok (
      if is_retry l.phase target
      then record_transition target RuntimeTransitionKind.retry none time
          (record l { implementation_loops = l.implementation_loops + 1 })
      else record_transition target RuntimeTransitionKind.progress none time l)

-- The target of a failure: _FAILURE_TO_FINALIZE, then finalization
abbrev pub failure_target : PatchForgePhase → Option PatchForgePhase
failure_target PatchForgePhase.finalize = some PatchForgePhase.cleanup
failure_target PatchForgePhase.reported = none
failure_target PatchForgePhase.cleanup = none
failure_target PatchForgePhase.closed = none
failure_target _ = some PatchForgePhase.finalize

abbrev pub is_cleanup_failure : PatchForgeFailure → Bool
is_cleanup_failure PatchForgeFailure.cleanup_failed = true
is_cleanup_failure _ = false

unfoldable pub fail : PatchForgeFailure → ℕ → Lifecycle → Changed
unfolding record_transition
fail f time l = do
  raise_if (is_some l.failure) TransitionError.already_classified
  raise_if (is_cleanup_failure f) TransitionError.needs_cleanup_phase
  elim (failure_target l.phase) [
    | none ↦ err (TransitionError.cannot_fail_from l.phase)
    | some target ↦
        ok (record_transition target RuntimeTransitionKind.failure (some f) time (classified f l))
  ]

unfoldable pub report : ℕ → Lifecycle → Changed
unfolding record_transition
report time l = do
  raise_if (not (same_phase l.phase PatchForgePhase.finalize)) TransitionError.not_finalizing
  ok (record_transition PatchForgePhase.reported RuntimeTransitionKind.report none time l)

unfoldable pub reserve_refused : ℕ → Lifecycle → Changed
unfolding record_transition
reserve_refused time l = do
  raise_if (not (same_phase l.phase PatchForgePhase.finalize)) TransitionError.not_finalizing
  raise_if l.report_only TransitionError.already_report_only
  ok (
      record_transition PatchForgePhase.finalize RuntimeTransitionKind.failure
        (some PatchForgeFailure.budget_exhausted) time
        (record (classified_once PatchForgeFailure.budget_exhausted l) { report_only = true }))

unfoldable pub finalization_failed : PatchForgeFailure → ℕ → Lifecycle → Changed
unfolding record_transition
finalization_failed f time l = do
  raise_if (not (same_phase l.phase PatchForgePhase.finalize)) TransitionError.not_finalizing
  ok (
      record_transition PatchForgePhase.cleanup RuntimeTransitionKind.failure (some f) time
        (classified_once f l))

unfoldable pub begin_cleanup : ℕ → Lifecycle → Changed
unfolding record_transition
begin_cleanup time l = do
  raise_if (not (same_phase l.phase PatchForgePhase.reported)) TransitionError.not_reported
  ok (record_transition PatchForgePhase.cleanup RuntimeTransitionKind.cleanup none time l)

unfoldable pub close : ℕ → Lifecycle → Changed
unfolding record_transition
close time l = do
  raise_if (not (same_phase l.phase PatchForgePhase.cleanup)) TransitionError.not_cleaning
  ok (record_transition PatchForgePhase.closed RuntimeTransitionKind.close none time l)

-- The method `cleanup_failed`
unfoldable pub fail_cleanup : ℕ → Lifecycle → Changed
unfolding record_transition
fail_cleanup time l = do
  raise_if (not (same_phase l.phase PatchForgePhase.cleanup)) TransitionError.not_cleaning
  ok (
      record_transition PatchForgePhase.closed RuntimeTransitionKind.failure
        (some PatchForgeFailure.cleanup_failed) time
        (record (classified_once PatchForgeFailure.cleanup_failed l) { cleanup_failed = true }))

-- The methods as data, for any sequence of calls
pub data Call : Type 0 where
  advance_to : PatchForgePhase → Call
  fail_with : PatchForgeFailure → Call
  report_run refuse_reserve : Call
  fail_finalization : PatchForgeFailure → Call
  start_cleanup close_run fail_cleaning : Call

unfoldable pub call : Call → ℕ → Lifecycle → Changed
unfolding advance fail report reserve_refused finalization_failed begin_cleanup close fail_cleanup
call (advance_to target) = advance target
call (fail_with f) = fail f
call report_run = report
call refuse_reserve = reserve_refused
call (fail_finalization f) = finalization_failed f
call start_cleanup = begin_cleanup
call close_run = close
call fail_cleaning = fail_cleanup
