-- ===== src/Atlas/Validate/Events.antt =====
-- `AuditEvent.validate_event_shape` of atlas/models.py.
use nexus_agent_platform.Common.{
  ℕ, ◌+◌, Bool, false, not, ◌&&◌, ◌||◌, Option, none, some, ◌==◌, is_some, ◌>>◌, raise_if,
}
use nexus_agent_platform.Atlas.Models.{AuditEvent, AuditEventType, AuditData, JobStatus}
use nexus_agent_platform.Atlas.StateMachine.{same_status}
use nexus_agent_platform.Atlas.Errors.{
  Outcome, validation, payload_mismatch, created_boundary, review_changes_status, no_state_change,
  sequence_mismatch,
}

pub data Kind : Type 0 where
  created transition result review approval failure recovery : Kind

abbrev kind_index : Kind → ℕ
kind_index Kind.created = 0
kind_index Kind.transition = 1
kind_index Kind.result = 2
kind_index Kind.review = 3
kind_index Kind.approval = 4
kind_index Kind.failure = 5
kind_index Kind.recovery = 6

-- The field `kind` of a payload
abbrev kind_of : AuditData → Kind
kind_of (AuditData.created sha256 key) = Kind.created
kind_of (AuditData.transition reason) = Kind.transition
kind_of (AuditData.result sha256 id) = Kind.result
kind_of (AuditData.review id verdict) = Kind.review
kind_of (AuditData.approval id decision) = Kind.approval
kind_of (AuditData.failure classification) = Kind.failure
kind_of (AuditData.recovery id) = Kind.recovery

-- The table `expected_kind`
abbrev expected_kind : AuditEventType → Kind
expected_kind AuditEventType.job_created = Kind.created
expected_kind AuditEventType.job_validated = Kind.transition
expected_kind AuditEventType.job_queued = Kind.transition
expected_kind AuditEventType.job_started = Kind.transition
expected_kind AuditEventType.result_recorded = Kind.result
expected_kind AuditEventType.review_recorded = Kind.review
expected_kind AuditEventType.job_approved = Kind.approval
expected_kind AuditEventType.job_rejected = Kind.approval
expected_kind AuditEventType.job_completed = Kind.transition
expected_kind AuditEventType.job_failed = Kind.failure
expected_kind AuditEventType.job_recovered = Kind.recovery

-- `from_status is status`
abbrev is_from : Option JobStatus → JobStatus → Bool
is_from none status = false
is_from (some s) status = same_status s status

check_boundary : AuditEventType → Option JobStatus → JobStatus → Outcome Unit
check_boundary AuditEventType.job_created source target =
    raise_if (is_some source || not (same_status target JobStatus.created))
      (validation created_boundary)
check_boundary AuditEventType.review_recorded source target =
    raise_if
      (not
        (is_from source JobStatus.awaiting_review && same_status target JobStatus.awaiting_review))
      (validation review_changes_status)
check_boundary _ source target =
    raise_if (not (is_some source) || is_from source target) (validation no_state_change)

unfoldable pub validate_event_shape : AuditEvent → Outcome Unit
unfolding check_boundary
validate_event_shape event = do
  raise_if (not (kind_index (kind_of event.details) == kind_index (expected_kind event.event_type)))
      (validation payload_mismatch)
  check_boundary event.event_type event.from_status event.to_status
  raise_if (not (event.sequence == event.job_revision + 1)) (validation sequence_mismatch)
