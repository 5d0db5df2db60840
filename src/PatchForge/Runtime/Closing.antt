-- ===== src/PatchForge/Runtime/Closing.antt =====
-- The cleanup of a run that its loop left or an exception ended.
use nexus_agent_platform.PatchForge.Runtime.Progress.{IsKept, IsOpen, record_failure-IsStep}
use nexus_agent_platform.PatchForge.Runtime.Execution.{
  finish_cleanup, leave_cleanup, enter_cleanup, and_then, abandon,
}
use nexus_agent_platform.Common.{
  sym, not, is_some, map, ◌≤◌, if_cases, length, Result, ◌∙◌, Option, ℕ, ◌<◌, ◌≡◌, refl, true, none,
  some, arith, ok,
}
use nexus_agent_platform.PatchForge.Models.{
  PatchForgeFailure, PatchForgePhase, RunBudgets, same_phase, phase_index, RuntimeTransitionKind,
}
use nexus_agent_platform.PatchForge.Lifecycle.{
  classified, classified_once, Call, call, advance, fail, report, reserve_refused,
  finalization_failed, begin_cleanup, close, fail_cleanup, record_transition,
  require_lifecycle_transition, Lifecycle, Changed,
}
use nexus_agent_platform.PatchForge.Lifecycle.Reachable.{Reached, begun, called}
use nexus_agent_platform.PatchForge.Tools.{is_finalize}
use nexus_agent_platform.PatchForge.Gateway.{Binding}
use nexus_agent_platform.PatchForge.RunState.{Diff, FinalCaptureError, World, Run, Turned}
use nexus_agent_platform.PatchForge.Runtime.{is_over, failing, with_lifecycle, record_failure}

call-alive :
    (k : Call) (time : ℕ) (l m : Lifecycle)
    → call k time l ≡ ok m
    → phase_index m.phase < 9
    → m.failure ≡ none
unfolding call advance fail report reserve_refused finalization_failed begin_cleanup close
    fail_cleanup record_transition require_lifecycle_transition
call-alive (Call.advance_to target) time l m h early = ground (arith, h, early)
call-alive (Call.fail_with f) time l m h early = absurd (ground (arith, h, early))
call-alive Call.report_run time l m h early = absurd (ground (arith, h, early))
call-alive Call.refuse_reserve time l m h early = absurd (ground (arith, h, early))
call-alive (Call.fail_finalization f) time l m h early = absurd (ground (arith, h, early))
call-alive Call.start_cleanup time l m h early = absurd (ground (arith, h, early))
call-alive Call.close_run time l m h early = absurd (ground (arith, h, early))
call-alive Call.fail_cleaning time l m h early = absurd (ground (arith, h, early))

-- A failure leads out of the phases before the finalization.
Reached-alive :
    {run_id : ℕ} {budgets : RunBudgets} {l : Lifecycle}
    → Reached run_id budgets l
    → phase_index l.phase < 9
    → l.failure ≡ none
Reached-alive begun early = refl
Reached-alive (called {l} {m} k time r h) early = call-alive k time l m h early

-- A lifecycle's change to a phase that leaves its marks alone
record IsMove (phase : PatchForgePhase) (l : Lifecycle) (x : Changed) : Type 0 where
  next : Lifecycle
  changed : x ≡ ok next
  phase_of : same_phase next.phase phase ≡ true
  report_only : next.report_only ≡ l.report_only
  cleanup_failed : next.cleanup_failed ≡ l.cleanup_failed

module _ (time : ℕ) (l : Lifecycle) where
  finalization_failed-IsMove :
      (f : PatchForgeFailure)
      → is_finalize l.phase ≡ true
      → IsMove PatchForgePhase.cleanup l (finalization_failed f time l)
  unfolding finalization_failed record_transition
  finalization_failed-IsMove f h = record {
    next =
        record_transition PatchForgePhase.cleanup RuntimeTransitionKind.failure (some f) time
          (classified_once f l);
    changed = ground (arith, h);
    phase_of = refl;
    report_only = ground arith;
    cleanup_failed = ground arith;
  }

  begin_cleanup-IsMove :
      same_phase l.phase PatchForgePhase.reported ≡ true
      → IsMove PatchForgePhase.cleanup l (begin_cleanup time l)
  unfolding begin_cleanup record_transition
  begin_cleanup-IsMove h = record {
    next = record_transition PatchForgePhase.cleanup RuntimeTransitionKind.cleanup none time l;
    changed = ground (arith, h);
    phase_of = refl;
    report_only = refl;
    cleanup_failed = refl;
  }

  record_failure-IsMove :
      phase_index l.phase < 9
      → l.failure ≡ none
      → IsMove PatchForgePhase.finalize l (record_failure PatchForgeFailure.engine_error time l)
  unfolding record_failure fail record_transition
  record_failure-IsMove early alive = record {
    next =
        record_transition PatchForgePhase.finalize RuntimeTransitionKind.failure
          (some PatchForgeFailure.engine_error) time (classified PatchForgeFailure.engine_error l);
    changed = ground (arith, early, alive);
    phase_of = refl;
    report_only = refl;
    cleanup_failed = refl;
  }

-- The same run, at a lifecycle that came to this phase
record IsEntered (b : Binding) (phase : PatchForgePhase) (r s : Run) : Type 0 where
  reached : Reached b.run_id b.policy.budgets s.lifecycle
  phase_of : same_phase s.lifecycle.phase phase ≡ true
  records : s.gateway ≡ r.gateway
  results : s.results ≡ r.results
  refusal : s.reserve_refusal ≡ r.reserve_refusal
  uncleaned : s.workspace_cleaned ≡ r.workspace_cleaned
  report_only : s.lifecycle.report_only ≡ r.lifecycle.report_only
  cleanup_failed : s.lifecycle.cleanup_failed ≡ r.lifecycle.cleanup_failed

unfoldable Entering : Binding → PatchForgePhase → Run → Turned → Type 0
Entering b phase r t = (s : Run) × (t ≡ Turned.running s) × IsEntered b phase r s

moved-Entering :
    (b : Binding) (phase : PatchForgePhase) (r : Run)
    (capture : Option (Result FinalCaptureError Diff)) (x : Changed)
    → ((m : Lifecycle) → x ≡ ok m → Reached b.run_id b.policy.budgets m)
    → IsMove phase r.lifecycle x
    → Entering b phase r (with_lifecycle (record r { final_capture = capture }) x)
unfolding Entering
moved-Entering b phase r capture x reached m = (
  record r { lifecycle = m.next; final_capture = capture },
  rw m.changed refl,
  record {
    reached = reached m.next m.changed;
    phase_of = m.phase_of;
    records = refl;
    results = refl;
    refusal = refl;
    uncleaned = refl;
    report_only = m.report_only;
    cleanup_failed = m.cleanup_failed;
  },
)

and_then-Entering :
    (b : Binding) (middle goal : PatchForgePhase) (r : Run) (t : Turned) (f : Run → Turned)
    → Entering b middle r t
    → ((s : Run) → IsEntered b middle r s → Entering b goal s (f s))
    → Entering b goal r (and_then t f)
unfolding Entering
and_then-Entering b middle goal r t f (s, e, here) there =
    let (u, g, later) = there s here in
    (
      u,
      rw e g,
      record {
        reached = later.reached;
        phase_of = later.phase_of;
        records = later.records ∙ here.records;
        results = later.results ∙ here.results;
        refusal = later.refusal ∙ here.refusal;
        uncleaned = later.uncleaned ∙ here.uncleaned;
        report_only = later.report_only ∙ here.report_only;
        cleanup_failed = later.cleanup_failed ∙ here.cleanup_failed;
      },
    )

module _ (b : Binding) where
  abandon-Entering :
      (time : ℕ) (r : Run)
      → Reached b.run_id b.policy.budgets r.lifecycle
      → is_finalize r.lifecycle.phase ≡ true
      → Entering b PatchForgePhase.cleanup r (abandon time r)
  unfolding abandon call
  abandon-Entering time r reached f =
      if_cases (Entering b PatchForgePhase.cleanup r) (is_finalize r.lifecycle.phase)
        (λ e.
          moved-Entering b PatchForgePhase.cleanup r r.final_capture
            (finalization_failed PatchForgeFailure.engine_error time r.lifecycle)
            (λ m h. called (Call.fail_finalization PatchForgeFailure.engine_error) time reached h)
            (finalization_failed-IsMove time r.lifecycle PatchForgeFailure.engine_error f))
        (λ e. absurd (ground (arith, e, f)))

  failing-Entering :
      (time : ℕ) (r : Run)
      → Reached b.run_id b.policy.budgets r.lifecycle
      → phase_index r.lifecycle.phase < 9
      → Entering b PatchForgePhase.finalize r (failing PatchForgeFailure.engine_error time r)
  unfolding failing
  failing-Entering time r reached early =
      moved-Entering b PatchForgePhase.finalize r r.final_capture _
        (λ m h. (record_failure-IsStep time reached PatchForgeFailure.engine_error h).reached)
        (record_failure-IsMove time r.lifecycle early (Reached-alive reached early))

  stayed-Entering :
      (r : Run)
      → Reached b.run_id b.policy.budgets r.lifecycle
      → same_phase r.lifecycle.phase PatchForgePhase.cleanup ≡ true
      → Entering b PatchForgePhase.cleanup r (Turned.running r)
  unfolding Entering
  stayed-Entering r reached here = (
    r,
    refl,
    record {
      reached = reached;
      phase_of = here;
      records = refl;
      results = refl;
      refusal = refl;
      uncleaned = refl;
      report_only = refl;
      cleanup_failed = refl;
    },
  )

  enter_cleanup-Entering :
      (w : World) (r : Run) → IsOpen b r → Entering b PatchForgePhase.cleanup r (enter_cleanup w r)
  unfolding enter_cleanup call
  enter_cleanup-Entering w r o =
      let P = Entering b PatchForgePhase.cleanup r in
      if_cases P (same_phase r.lifecycle.phase PatchForgePhase.reported)
        (λ e.
          moved-Entering b PatchForgePhase.cleanup r (some w.proposal)
            (begin_cleanup w.end_time r.lifecycle)
            (λ m h. called Call.start_cleanup w.end_time o.reached h)
            (begin_cleanup-IsMove w.end_time r.lifecycle e))
        (λ e.
          if_cases P (is_finalize r.lifecycle.phase)
            (λ f. abandon-Entering w.end_time r o.reached f)
            (λ f.
              if_cases P (is_over r.lifecycle.phase)
                (λ g. stayed-Entering r o.reached (ground (arith, e, g, o.unclosed)))
                (λ g.
                  and_then-Entering b PatchForgePhase.finalize PatchForgePhase.cleanup r
                    (failing PatchForgeFailure.engine_error w.end_time r) (abandon w.end_time)
                    (failing-Entering w.end_time r o.reached (ground (arith, f, g)))
                    (λ s here. abandon-Entering w.end_time s here.reached here.phase_of))))

-- A run that is closed: its marks agree with its records.
pub record IsFinished (b : Binding) (r : Run) : Type 0 where
  pub reached : Reached b.run_id b.policy.budgets r.lifecycle
  pub closed : same_phase r.lifecycle.phase PatchForgePhase.closed ≡ true
  pub few : length r.gateway.records ≤ b.policy.budgets.max_total_tool_calls
  pub evidence : map (λ x. x.call) r.results ≡ r.gateway.records
  pub refused : is_some r.reserve_refusal ≡ r.lifecycle.report_only
  pub cleaned : r.workspace_cleaned ≡ not r.lifecycle.cleanup_failed

-- The run of a turn that goes on is closed, and finished if the run before was kept.
unfoldable Closes : Binding → Run → Turned → Type 0
Closes b r t =
    (s : Run) × (t ≡ Turned.running s)
    × Reached b.run_id b.policy.budgets s.lifecycle
    × (same_phase s.lifecycle.phase PatchForgePhase.closed ≡ true)
    × (IsKept b r → IsFinished b s)

module _ (time : ℕ) (l : Lifecycle) (h : same_phase l.phase PatchForgePhase.cleanup ≡ true) where
  close-IsMove : IsMove PatchForgePhase.closed l (close time l)
  unfolding close record_transition
  close-IsMove = record {
    next = record_transition PatchForgePhase.closed RuntimeTransitionKind.close none time l;
    changed = ground (arith, h);
    phase_of = refl;
    report_only = refl;
    cleanup_failed = refl;
  }

  fail_cleanup-ok :
      (m : Lifecycle) × (fail_cleanup time l ≡ ok m)
      × (same_phase m.phase PatchForgePhase.closed ≡ true)
      × (m.cleanup_failed ≡ true)
      × (m.report_only ≡ l.report_only)
  unfolding fail_cleanup record_transition
  fail_cleanup-ok = (
    record_transition PatchForgePhase.closed RuntimeTransitionKind.failure
        (some PatchForgeFailure.cleanup_failed) time
        (record (classified_once PatchForgeFailure.cleanup_failed l) { cleanup_failed = true }),
    ground (arith, h),
    refl,
    refl,
    ground arith,
  )

module _ (b : Binding) (w : World) (s : Run)
    (reached : Reached b.run_id b.policy.budgets s.lifecycle)
    (here : same_phase s.lifecycle.phase PatchForgePhase.cleanup ≡ true) where
  cleaned-Closes :
      Closes b s
        (with_lifecycle (record s { workspace_cleaned = true }) (close w.end_time s.lifecycle))
  unfolding Closes call
  cleaned-Closes =
      let m = close-IsMove w.end_time s.lifecycle here in
      let reached_next = called Call.close_run w.end_time reached m.changed in
      (
        record s { lifecycle = m.next; workspace_cleaned = true },
        rw m.changed refl,
        reached_next,
        m.phase_of,
        λ k. record {
          reached = reached_next;
          closed = m.phase_of;
          few = k.few;
          evidence = k.evidence;
          refused = k.refused ∙ sym m.report_only;
          cleaned = rw (m.cleanup_failed, k.cleaning) refl;
        },
      )

  uncleaned-Closes : Closes b s (with_lifecycle s (fail_cleanup w.end_time s.lifecycle))
  unfolding Closes call
  uncleaned-Closes =
      let (m, changed, closed, marked, kept) = fail_cleanup-ok w.end_time s.lifecycle here in
      let reached_next = called Call.fail_cleaning w.end_time reached changed in
      (
        record s { lifecycle = m },
        rw changed refl,
        reached_next,
        closed,
        λ k. record {
          reached = reached_next;
          closed = closed;
          few = k.few;
          evidence = k.evidence;
          refused = k.refused ∙ sym kept;
          cleaned = k.uncleaned ∙ rw marked refl;
        },
      )

  leave_cleanup-Closes : Closes b s (leave_cleanup w s)
  unfolding leave_cleanup
  leave_cleanup-Closes =
      if_cases (Closes b s) (same_phase s.lifecycle.phase PatchForgePhase.cleanup)
        (λ _. if_cases (Closes b s) w.cleaned (λ _. cleaned-Closes) (λ _. uncleaned-Closes))
        (λ e. absurd (ground (arith, e, here)))

entered-IsKept :
    (b : Binding) (r s : Run) → IsEntered b PatchForgePhase.cleanup r s → IsKept b r → IsKept b s
entered-IsKept b r s e k = record {
  reached = e.reached;
  unclosed = ground (arith, e.phase_of);
  few = rw e.records k.few;
  evidence = rw (e.results, e.records) k.evidence;
  refused = rw (e.refusal, e.report_only) k.refused;
  cleaning = e.cleanup_failed ∙ k.cleaning;
  uncleaned = e.uncleaned ∙ k.uncleaned;
}

-- The cleanup of an open run never raises: it closes the run.
pub finish_cleanup-closed :
    (b : Binding) (w : World) (r : Run)
    → IsOpen b r
    → (s : Run) × (finish_cleanup w r ≡ Turned.running s)
      × Reached b.run_id b.policy.budgets s.lifecycle
      × (same_phase s.lifecycle.phase PatchForgePhase.closed ≡ true)
      × (IsKept b r → IsFinished b s)
unfolding finish_cleanup Entering Closes
finish_cleanup-closed b w r o =
    let (s, entered, e) = enter_cleanup-Entering b w r o in
    let (t, left, reached, closed, finished) = leave_cleanup-Closes b w s e.reached e.phase_of in
    (t, rw (entered, left) refl, reached, closed, λ k. finished (entered-IsKept b r s e k))
