-- ===== src/Atlas/Service/Steps/Authority.antt =====
-- Who may take a job where, and when: the exact conditions of the decisive methods.
use nexus_agent_platform.Common.{
  str_eq_iff, Option, ℕ, ◌+◌, ◌≤◌, String, ◌≡◌, refl, ◌≢◌, ◌↔◌, ◌⊎◌, true, none, some, arith, ok,
}
use nexus_agent_platform.Atlas.Models.{
  ActorIdentity, human, ApprovalDecision, ApprovalState, AuditData, AuditEventType, ExecutionLease,
  Job, JobStatus,
}
use nexus_agent_platform.Atlas.StateMachine.{require_transition}
use nexus_agent_platform.Atlas.Validate.{make_lease, make_approval, valid_short_text}
use nexus_agent_platform.Atlas.Validate.Lifecycle.{updated, validate_job_record, validate_lifecycle}
use nexus_agent_platform.Atlas.Policy.{Registry, require_assigned_agent, require_human}
use nexus_agent_platform.Atlas.Service.Requests.{
  Reading, Timestamp, aware, now, Platform, Operation,
}
use nexus_agent_platform.Atlas.Service.Change.{Change}
use nexus_agent_platform.Atlas.Service.Execution.{
  fail_body, queue_body, validate_body, start_body, recover_body, seconds, complete_body,
}
use nexus_agent_platform.Atlas.Service.Review.{review_body, submit_body, decide_body}
use nexus_agent_platform.Atlas.Service.Bodies.{body}
use nexus_agent_platform.Atlas.Service.Steps.Proper.{verdict_passed}

-- The clock reads an aware time that is not before the job's last change.
pub record IsClockFit (reading : Reading) (job : Job) : Type 0 where
  pub time : ℕ
  pub read : reading.clock ≡ aware time
  pub not_before : job.updated_at ≤ time

pub record IsApprovable (reason : String) (reading : Reading) (actor : ActorIdentity) (job : Job)
    : Type 0 where
  pub by_human : actor.actor_type ≡ human
  pub passed : verdict_passed job.review ≡ true
  pub awaiting : job.status ≡ JobStatus.awaiting_review
  pub clock : IsClockFit reading job
  pub reason_fits : valid_short_text reason ≡ true

approve-IsApprovable :
    (reason : String) (reading : Reading) (actor : ActorIdentity) (job : Job) (c : Change)
    → decide_body ApprovalDecision.approved reason reading actor job ≡ ok c
    → IsApprovable reason reading actor job
unfolding decide_body require_transition require_human make_approval now
approve-IsApprovable reason reading actor job c h = record {
  by_human = ground arith;
  passed = ground arith;
  awaiting = ground arith;
  clock = clock_fit reading.clock refl;
  reason_fits = ground arith;
}
  where
    clock_fit : (t : Timestamp) → reading.clock ≡ t → IsClockFit reading job
    clock_fit (aware time) e = record { time = time; read = e; not_before = ground (arith, e) }
    clock_fit Timestamp.naive e = absurd (ground (arith, e))

approve_succeeds :
    (reason : String) (reading : Reading) (actor : ActorIdentity) (job : Job)
    → validate_job_record job ≡ ok tt
    → IsApprovable reason reading actor job
    → (c : Change) × (decide_body ApprovalDecision.approved reason reading actor job ≡ ok c)
unfolding decide_body require_transition require_human make_approval now updated validate_job_record
    validate_lifecycle
approve_succeeds reason reading actor job valid a = (
  record {
    after = record job {
      status = JobStatus.approved;
      approval_state = ApprovalState.approved;
      approval = some (record {
        approval_id = reading.fresh_id;
        decision = ApprovalDecision.approved;
        decided_by = actor;
        reason = reason;
        decided_at = a.clock.time;
      });
      updated_at = a.clock.time;
      revision = job.revision + 1;
    };
    event_type = AuditEventType.job_approved;
    details = AuditData.approval reading.fresh_id ApprovalDecision.approved;
  },
  ground (arith, a.clock.read, a.clock.not_before, a.passed, a.awaiting, a.by_human, a.reason_fits),
)

-- A valid job is approved exactly when a human asks for it while the job awaits review with a
-- passed verdict, the clock is aware and not behind the job, and the reason has 1 to 500
-- characters.
pub approve_iff :
    (reason : String) (reading : Reading) (actor : ActorIdentity) (job : Job)
    → validate_job_record job ≡ ok tt
    → ((c : Change) × (decide_body ApprovalDecision.approved reason reading actor job ≡ ok c))
      ↔ IsApprovable reason reading actor job
approve_iff reason reading actor job valid = (
  λ h. approve-IsApprovable reason reading actor job h.0 h.1,
  approve_succeeds reason reading actor job valid,
)

-- The body of no method succeeds on a job that is completed or failed.
pub closed_refused :
    {T : Type 0} (platform : Platform T) (operation : Operation) (reading : Reading)
    (actor : ActorIdentity) (job : Job) (c : Change)
    → (job.status ≡ JobStatus.completed) ⊎ (job.status ≡ JobStatus.failed)
    → body platform operation reading actor job ≢ ok c
unfolding body require_transition validate_body queue_body start_body complete_body recover_body
    submit_body review_body decide_body fail_body
closed_refused platform Operation.validate reading actor job c h e = ground arith
closed_refused platform Operation.queue reading actor job c h e = ground arith
closed_refused platform Operation.start reading actor job c h e = ground arith
closed_refused platform Operation.complete reading actor job c h e = ground arith
closed_refused platform Operation.recover_expired reading actor job c h e = ground arith
closed_refused platform (Operation.submit_result r) reading actor job c h e = ground arith
closed_refused platform (Operation.record_review r) reading actor job c h e = ground arith
closed_refused platform (Operation.approve reason) reading actor job c h e = ground arith
closed_refused platform (Operation.reject reason) reading actor job c h e = ground arith
closed_refused platform (Operation.fail cl m r) reading actor job c h e = ground arith

-- A started job was queued, and its lease is the assigned agent's, for the job's own duration.
pub record IsLeased (job : Job) (c : Change) : Type 0 where
  pub was_queued : job.status ≡ JobStatus.queued
  pub lease : ExecutionLease
  pub held : c.after.active_execution ≡ some lease
  pub by_agent : lease.claimed_by ≡ job.agent_id
  pub bounded : lease.expires_at ≡ lease.started_at + seconds job.budget.max_duration_seconds
  pub not_before : job.updated_at ≤ lease.started_at

-- If starting succeeds, the job was queued, and the started job holds a lease of the assigned
-- agent that ends the job's own duration after a start not before the job's last change.
pub start_body-IsLeased :
    (registry : Registry) (reading : Reading) (actor : ActorIdentity) (job : Job) (c : Change)
    → start_body registry reading actor job ≡ ok c
    → IsLeased job c
unfolding start_body require_assigned_agent require_transition now make_lease updated
start_body-IsLeased registry reading actor job c h = leased reading.clock refl
  where
    leased : (t : Timestamp) → reading.clock ≡ t → IsLeased job c
    leased (aware time) e = record {
      was_queued = ground (arith, e);
      lease = record {
        execution_id = reading.fresh_id;
        claimed_by = actor.actor_id;
        started_at = time;
        expires_at = time + seconds job.budget.max_duration_seconds;
      };
      held = ground (arith, e);
      by_agent = (str_eq_iff actor.actor_id job.agent_id).0 (ground (arith, e));
      bounded = refl;
      not_before = ground (arith, e);
    }
    leased Timestamp.naive e = absurd (ground (arith, e))

-- A recovered job was running, on a lease that had expired by the clock, which it gives up.
pub record IsRecovered (reading : Reading) (job : Job) (c : Change) : Type 0 where
  pub was_running : job.status ≡ JobStatus.running
  pub lease : ExecutionLease
  pub held : job.active_execution ≡ some lease
  pub clock : IsClockFit reading job
  pub expired : lease.expires_at ≤ clock.time
  pub released : c.after.active_execution ≡ none
  pub recorded : c.after.last_execution_id ≡ some lease.execution_id

-- If recovery succeeds on a valid job, the job was running on a lease that had ended by the clock,
-- and the recovered job holds no lease and names the lost execution.
pub recover_body-IsRecovered :
    (reading : Reading) (actor : ActorIdentity) (job : Job) (c : Change)
    → validate_job_record job ≡ ok tt
    → recover_body reading actor job ≡ ok c
    → IsRecovered reading job c
unfolding recover_body require_transition now updated validate_job_record validate_lifecycle
recover_body-IsRecovered reading actor job c valid h =
    recovered reading.clock refl job.active_execution refl
  where
    recovered :
        (t : Timestamp)
        → reading.clock ≡ t
        → (l : Option ExecutionLease) → job.active_execution ≡ l
        → IsRecovered reading job c
    recovered (aware time) e (some lease) f = record {
      was_running = ground (arith, e, f);
      lease = lease;
      held = f;
      clock = record { time = time; read = e; not_before = ground (arith, e, f) };
      expired = ground (arith, e, f);
      released = ground (arith, e, f);
      recorded = ground (arith, e, f);
    }
    recovered (aware time) e none f = absurd (ground (arith, e, f))
    recovered Timestamp.naive e l f = absurd (ground (arith, e, f))
