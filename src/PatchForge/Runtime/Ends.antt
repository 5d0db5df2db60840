-- ===== src/PatchForge/Runtime/Ends.antt =====
-- How an execution ends: with enough fuel for its turns, always with a closed run.
use nexus_agent_platform.PatchForge.Lifecycle.Visits.{Reached-has_entered, has_entered}
use nexus_agent_platform.Common.{
  ℕ, zero, suc, ◌+◌, ◌≤◌, ◌<◌, ◌≡◌, refl, subst, ◌⊎◌, inl, inr, true, false, none, arith,
  Bool-cases, Option-cases,
}
use nexus_agent_platform.PatchForge.Models.{
  phase_index, PatchForgeFailure, PatchForgePhase, same_phase, RuntimeTransitionKind,
}
use nexus_agent_platform.PatchForge.Lifecycle.{
  Call, call, advance, record_transition, require_lifecycle_transition, Lifecycle, new_lifecycle,
}
use nexus_agent_platform.PatchForge.Lifecycle.Reachable.{Reached, begun, called}
use nexus_agent_platform.PatchForge.Gateway.{Binding}
use nexus_agent_platform.PatchForge.RunState.{Run, Turned, World, WorkspaceStateKind}
use nexus_agent_platform.PatchForge.Runtime.{capture_state, is_over, turn}
use nexus_agent_platform.PatchForge.Runtime.Execution.{
  Ended, Execution, capture_initial, execute, finally_clean, loop_from, new_run, prepare, run_loop,
}
use nexus_agent_platform.PatchForge.Runtime.Progress.{
  IsKept, IsOpen, IsProgress, failing-IsProgress, still_open, turns_left,
}
use nexus_agent_platform.PatchForge.Runtime.Turns.{capture_state-IsKept}
use nexus_agent_platform.PatchForge.Runtime.Calls.{turn-IsProgress}
use nexus_agent_platform.PatchForge.Runtime.Closing.{IsFinished, finish_cleanup-closed}

-- The turns that a run may take at most
abbrev pub enough_turns : Binding → ℕ
enough_turns b = b.policy.budgets.max_total_tool_calls + 4

abbrev entering : PatchForgePhase → ℕ → Lifecycle → Lifecycle
entering phase time l = record_transition phase RuntimeTransitionKind.progress none time l

abbrev at_recon : Binding → ℕ → Run
at_recon b time = record (new_run b) {
  lifecycle =
      entering PatchForgePhase.recon time
        (entering PatchForgePhase.provisioning time (new_lifecycle b.run_id b.policy.budgets));
}

at_recon-IsKept : (b : Binding) (time : ℕ) → IsKept b (at_recon b time)
unfolding call advance record_transition require_lifecycle_transition
at_recon-IsKept b time = record {
  reached =
      called (Call.advance_to PatchForgePhase.recon) time
        (called (Call.advance_to PatchForgePhase.provisioning) time begun refl) refl;
  unclosed = refl;
  few = omega arith;
  evidence = refl;
  refused = refl;
  cleaning = refl;
  uncleaned = refl;
}

capture_initial-IsProgress :
    (b : Binding) (n : ℕ) (w : World) (r : Run)
    → IsKept b r
    → is_over r.lifecycle.phase ≡ false
    → turns_left b r < n
    → IsProgress b n (capture_initial w r)
unfolding capture_initial capture_state
capture_initial-IsProgress b n w r k going few = elim (Option-cases w.initial) [
  | inl e ↦
      rw (e, capture_initial)
        (failing-IsProgress b n PatchForgeFailure.workspace_error w.start_time r k going
          (omega (arith, few)))
  | inr (diff, e) ↦
      rw (e, capture_initial)
        (capture_state-IsKept b WorkspaceStateKind.initial w.start_time diff r k, few)
]

prepare_lem : (b : Binding) (w : World) → prepare b w ≡ capture_initial w (at_recon b w.start_time)
unfolding prepare advance require_lifecycle_transition
prepare_lem b w = refl

prepare-IsProgress : (b : Binding) (w : World) → IsProgress b (enough_turns b) (prepare b w)
unfolding record_transition
prepare-IsProgress b w = rw (prepare_lem b w) (
    capture_initial-IsProgress b (enough_turns b) w (at_recon b w.start_time)
      (at_recon-IsKept b w.start_time) refl (omega arith))

-- A loop that ends by its test leaves a kept run that is over; one that raises, an open run.
abbrev IsEnded : Binding → Ended → Type 0
IsEnded b (Ended.left r) = IsKept b r
IsEnded b (Ended.thrown r) = IsOpen b r
IsEnded b Ended.exhausted = ⊥

Turned-cases :
    (t : Turned) → ((r : Run) × (t ≡ Turned.running r)) ⊎ ((r : Run) × (t ≡ Turned.stopped r))
Turned-cases (Turned.running r) = inl (r, refl)
Turned-cases (Turned.stopped r) = inr (r, refl)

run_loop-IsEnded :
    (b : Binding) (w : World) (fuel n : ℕ) (r : Run)
    → IsKept b r
    → turns_left b r < fuel
    → IsEnded b (run_loop b w fuel n r)
unfolding run_loop
run_loop-IsEnded b w zero n r k few = absurd (omega (arith, few))
run_loop-IsEnded b w (suc fuel) n r k few = elim (Bool-cases (is_over r.lifecycle.phase)) [
  | inl e ↦ rw (e, run_loop) k
  | inr e ↦
      let progress = turn-IsProgress b (w.turn n) r k e in
      elim (Turned-cases (turn b (w.turn n) r)) [
        | inl (s, t) ↦
            let (kept, fewer) = subst (IsProgress b (turns_left b r)) t progress in
            rw (e, t, run_loop)
              (run_loop-IsEnded b w fuel (n + 1) s kept (omega (arith, fewer, few)))
        | inr (s, t) ↦ rw (e, t, run_loop) (subst (IsProgress b (turns_left b r)) t progress)
      ]
]

loop_from-IsEnded :
    (b : Binding) (w : World) (fuel : ℕ) (t : Turned)
    → IsProgress b fuel t
    → IsEnded b (loop_from b w fuel t)
unfolding loop_from
loop_from-IsEnded b w fuel (Turned.running r) (k, few) = run_loop-IsEnded b w fuel 0 r k few
loop_from-IsEnded b w fuel (Turned.stopped r) o = o

-- What an execution leaves: the finished run that it returns, or the closed one of an exception
abbrev pub IsClosed : Binding → Execution → Type 0
IsClosed b (Execution.completed r) = IsFinished b r
IsClosed b (Execution.raised r) =
    Reached b.run_id b.policy.budgets r.lifecycle
    × (same_phase r.lifecycle.phase PatchForgePhase.closed ≡ true)
IsClosed b Execution.out_of_fuel = ⊥

finally_clean-IsClosed :
    (b : Binding) (w : World) (e : Ended) → IsEnded b e → IsClosed b (finally_clean w e)
unfolding finally_clean
finally_clean-IsClosed b w (Ended.left r) k =
    let (s, e, _, _, finished) = finish_cleanup-closed b w r (still_open k) in
    rw (e, finally_clean) (finished k)
finally_clean-IsClosed b w (Ended.thrown r) o =
    let (s, e, reached, closed, _) = finish_cleanup-closed b w r o in
    rw (e, finally_clean) (reached, closed)
finally_clean-IsClosed b w Ended.exhausted e = elim e [ ]

IsProgress-weaken :
    (b : Binding) (m n : ℕ) (t : Turned) → m ≤ n → IsProgress b m t → IsProgress b n t
IsProgress-weaken b m n (Turned.running r) fits (k, few) = (k, omega (arith, few, fits))
IsProgress-weaken b m n (Turned.stopped r) fits o = o

-- Whatever the engine, the workspace and the gateway do, with fuel for as many turns as the
-- budgets allow calls, and four, an execution does not run out of it, and the run is closed. A run
-- that is returned has at most as many records as the budgets allow calls, results that are its
-- records in order, a refusal record exactly if it is report-only, and a cleaned workspace exactly
-- if its cleanup did not fail.
pub execute-IsClosed :
    (b : Binding) (w : World) (fuel : ℕ) → enough_turns b ≤ fuel → IsClosed b (execute b w fuel)
unfolding execute
execute-IsClosed b w fuel enough = finally_clean-IsClosed b w (loop_from b w fuel (prepare b w)) (
    loop_from-IsEnded b w fuel (prepare b w)
      (IsProgress-weaken b (enough_turns b) fuel (prepare b w) enough (prepare-IsProgress b w)))

-- With fuel for as many turns as the budgets allow calls, and four, a run that is returned without
-- a failure has entered every phase after the first, both validations and the self-review among
-- them.
pub completed-has_entered :
    (b : Binding) (w : World) (fuel : ℕ) (r : Run) (phase : PatchForgePhase)
    → execute b w fuel ≡ Execution.completed r
    → enough_turns b ≤ fuel
    → r.lifecycle.failure ≡ none
    → 0 < phase_index phase
    → has_entered phase r.lifecycle.transitions ≡ true
completed-has_entered b w fuel r phase e enough alive above =
    let finished : IsFinished b r = subst (IsClosed b) e (execute-IsClosed b w fuel enough) in
    Reached-has_entered phase finished.reached alive above (ground (arith, finished.closed))
