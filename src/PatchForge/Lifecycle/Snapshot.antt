-- ===== src/PatchForge/Lifecycle/Snapshot.antt =====
-- The contract of RuntimeSnapshot and of RuntimeTransition, and the transcripts that satisfy it.
use nexus_agent_platform.Common.{
  count_of, ℕ, ◌+◌, Bool, true, false, not, ◌&&◌, ◌||◌, Option, none, some, List, [], ◌∷◌, ltb,
  ◌==◌, if◌then◌else◌, is_some, length, Result, ok, ◌>>=◌, ◌>>◌, raise_if,
}
use nexus_agent_platform.PatchForge.Models.{
  PatchForgePhase, PatchOutcome, RuntimeTransitionKind, same_phase,
}
use nexus_agent_platform.PatchForge.Lifecycle.{Lifecycle, RuntimeTransition}

pub data SnapshotFault : Type 0 where
  too_many_loops failure_and_outcome sequence_gap foreign_run not_contiguous phase_differs
        loops_differ report_only_differs too_many_transitions loop_bound :
      SnapshotFault

abbrev pub is_retry_kind : RuntimeTransitionKind → Bool
is_retry_kind RuntimeTransitionKind.retry = true
is_retry_kind _ = false

-- What the loop over the transcript keeps: the next sequence, the expected source, the retries
pub record Cursor : Type 0 where
  pub next : ℕ
  pub expected_source : PatchForgePhase
  pub retry_count : ℕ

unfoldable pub check_transition : ℕ → Cursor → RuntimeTransition → Result SnapshotFault Cursor
check_transition run_id c t = do
  raise_if (not (t.sequence == c.next)) SnapshotFault.sequence_gap
  raise_if (not (t.run_id == run_id)) SnapshotFault.foreign_run
  raise_if (not (same_phase t.source c.expected_source)) SnapshotFault.not_contiguous
  ok (record {
    next = c.next + 1;
    expected_source = t.target;
    retry_count = if is_retry_kind t.kind then c.retry_count + 1 else c.retry_count;
  })

unfoldable pub check_transitions : ℕ → Cursor → List RuntimeTransition → Result SnapshotFault Cursor
check_transitions run_id c [] = ok c
check_transitions run_id c (t ∷ ts) = do
  next ← check_transition run_id c t
  check_transitions run_id next ts

abbrev pub start : Cursor
start = record { next = 1; expected_source = PatchForgePhase.created; retry_count = 0 }

abbrev pub is_refusal : RuntimeTransition → Bool
is_refusal t =
    same_phase t.source PatchForgePhase.finalize && same_phase t.target PatchForgePhase.finalize

abbrev pub refusals : List RuntimeTransition → ℕ
refusals = count_of is_refusal

-- `outcome in {None, PATCH_PROPOSED}`
abbrev pub no_failed_outcome : Option PatchOutcome → Bool
no_failed_outcome none = true
no_failed_outcome (some PatchOutcome.patch_proposed) = true
no_failed_outcome _ = false

abbrev pub agree : Bool → Bool → Bool
agree true b = b
agree false b = not b

-- `validate_transcript`, with the bounds of the fields
unfoldable pub validate_transcript : Lifecycle → Result SnapshotFault (Unit {0})
unfolding check_transitions
validate_transcript l = do
  raise_if (ltb 20 l.implementation_loops || ltb 20 l.max_implementation_loops)
      SnapshotFault.loop_bound
  raise_if (ltb 100 (length l.transitions)) SnapshotFault.too_many_transitions
  raise_if (ltb l.max_implementation_loops l.implementation_loops) SnapshotFault.too_many_loops
  raise_if (not (agree (not (is_some l.failure)) (no_failed_outcome l.outcome)))
      SnapshotFault.failure_and_outcome
  c ← check_transitions l.run_id start l.transitions
  raise_if (not (same_phase c.expected_source l.phase)) SnapshotFault.phase_differs
  raise_if (not (c.retry_count == l.implementation_loops)) SnapshotFault.loops_differ
  raise_if
      (ltb 1 (refusals l.transitions) || not (agree l.report_only (ltb 0 (refusals l.transitions))))
      SnapshotFault.report_only_differs
