-- ===== src/Atlas/Service/Execution.antt =====
-- The methods of AtlasControlPlane that move a job along, between `_prepare` and `_persist`:
-- validation, queueing, leases, completion, failure and recovery.
use nexus_agent_platform.Common.{
  ℕ, ◌+◌, ◌*◌, String, Bool, not, Option, none, some, ltb, ok, ◌>>=◌, ◌>>◌, raise_if,
}
use nexus_agent_platform.Atlas.Models.{
  ActorIdentity, agent, AuditData, AuditEventType, ExecutionLease, FailureClassification, Job,
  JobFailure, JobStatus,
}
use nexus_agent_platform.Atlas.StateMachine.{require_transition}
use nexus_agent_platform.Atlas.Validate.{make_lease, valid_short_text}
use nexus_agent_platform.Atlas.Validate.Lifecycle.{updated}
use nexus_agent_platform.Atlas.Policy.{
  Registry, validate_job, require_assigned_agent, require_operator, require_system,
}
use nexus_agent_platform.Atlas.Errors.{
  Outcome, validation, command, lease_not_expired, bad_short_text,
}
use nexus_agent_platform.Atlas.Service.Requests.{Reading, now}
use nexus_agent_platform.Atlas.Service.Change.{Change, change, transition, spec_of, require_lease}

unfoldable pub validate_body : Registry → Reading → ActorIdentity → Job → Outcome Change
unfolding transition
validate_body registry reading actor job = do
  require_operator actor
  spec ← spec_of job
  validate_job registry spec
  transition reading job JobStatus.validated AuditEventType.job_validated
      "Agent, reviewer, source, capabilities, and budget validated."

unfoldable pub queue_body : Reading → ActorIdentity → Job → Outcome Change
unfolding transition
queue_body reading actor job = do
  require_operator actor
  transition reading job JobStatus.queued AuditEventType.job_queued
      "Validated job explicitly queued."

-- `job.started_at or now`
abbrev first_start : Option ℕ → ℕ → ℕ
first_start none time = time
first_start (some t) time = t

-- Instants are in microseconds.
abbrev pub seconds : ℕ → ℕ
seconds n = n * 1000000

unfoldable pub start_body : Registry → Reading → ActorIdentity → Job → Outcome Change
start_body registry reading actor job = do
  require_assigned_agent registry job actor
  require_transition job.status JobStatus.running
  time ← now reading (some job)
  lease ←
      make_lease reading.fresh_id actor.actor_id time
        (time + seconds job.budget.max_duration_seconds)
  after ←
      updated
        (record job {
          status = JobStatus.running;
          active_execution = some lease;
          started_at = some (first_start job.started_at time);
        })
        time
  change AuditEventType.job_started
      (AuditData.transition "Assigned agent claimed a bounded execution lease.") after

unfoldable pub complete_body : Reading → ActorIdentity → Job → Outcome Change
complete_body reading actor job = do
  require_system actor
  time ← now reading (some job)
  require_transition job.status JobStatus.completed
  after ← updated (record job { status = JobStatus.completed; terminal_at = some time }) time
  change AuditEventType.job_completed
      (AuditData.transition "Approved reviewed result marked complete.") after

-- The actor of a failure: the assigned agent, or else the system
abbrev require_failing_actor : Registry → Job → ActorIdentity → Outcome Unit
require_failing_actor registry job actor = elim actor.actor_type [
  | agent ↦ require_assigned_agent registry job actor
  | _ ↦ require_system actor
]

-- The execution that a failure ends, or the last one
abbrev ended_execution : Option ExecutionLease → Option ℕ → Option ℕ
ended_execution none last = last
ended_execution (some lease) last = some lease.execution_id

-- JobFailure with the bounds of its message
unfoldable pub make_failure :
    FailureClassification → String → Bool → ActorIdentity → Outcome JobFailure
make_failure classification message retryable failed_by = do
  raise_if (not (valid_short_text message)) (validation bad_short_text)
  ok (record {
    classification = classification;
    message = message;
    retryable = retryable;
    failed_by = failed_by;
  })

unfoldable pub fail_body :
    Registry
    → FailureClassification
    → String
    → Bool
    → Reading
    → ActorIdentity
    → Job
    → Outcome Change
fail_body registry classification message retryable reading actor job = do
  require_failing_actor registry job actor
  require_transition job.status JobStatus.failed
  time ← now reading (some job)
  failure ← make_failure classification message retryable actor
  after ←
      updated
        (record job {
          status = JobStatus.failed;
          failure = some failure;
          active_execution = none;
          last_execution_id = ended_execution job.active_execution job.last_execution_id;
          terminal_at = some time;
        })
        time
  change AuditEventType.job_failed (AuditData.failure classification) after

unfoldable pub recover_body : Reading → ActorIdentity → Job → Outcome Change
recover_body reading actor job = do
  require_system actor
  require_transition job.status JobStatus.queued
  lease ← require_lease job.active_execution
  time ← now reading (some job)
  raise_if (ltb time lease.expires_at) (command lease_not_expired)
  after ←
      updated
        (record job {
          status = JobStatus.queued;
          active_execution = none;
          last_execution_id = some lease.execution_id;
        })
        time
  change AuditEventType.job_recovered (AuditData.recovery lease.execution_id) after
