-- ===== src/Atlas/Validate/Lifecycle.antt =====
-- `Job.validate_lifecycle` of atlas/models.py, and `_updated` of service.py, which constructs the
-- next revision of a job through it.
use nexus_agent_platform.Common.{
  ℕ, ◌+◌, Bool, true, false, not, ◌&&◌, ◌||◌, Option, none, some, ltb, is_some, ok, ◌>>◌, raise_if,
}
use nexus_agent_platform.Atlas.Models.{
  Job, JobStatus, ApprovalState, ApprovalRecord, ApprovalDecision,
}
use nexus_agent_platform.Atlas.Capabilities.{validate_capabilities}
use nexus_agent_platform.Atlas.Errors.{
  Outcome, validation, update_precedes_creation, lease_without_running, result_presence,
  result_without_request, review_records_missing, approval_state_mismatch, approval_not_pending,
  early_review, early_approval, failure_mismatch, terminal_mismatch, completed_without_approval,
  rejected_without_rejection,
}

abbrev pub is_running : JobStatus → Bool
is_running JobStatus.running = true
is_running _ = false

abbrev pub is_failed : JobStatus → Bool
is_failed JobStatus.failed = true
is_failed _ = false

abbrev pub is_terminal : JobStatus → Bool
is_terminal JobStatus.completed = true
is_terminal JobStatus.failed = true
is_terminal _ = false

-- `result_states`
abbrev pub has_result : JobStatus → Bool
has_result JobStatus.awaiting_review = true
has_result JobStatus.approved = true
has_result JobStatus.rejected = true
has_result JobStatus.completed = true
has_result _ = false

-- `a != b` on conditions
abbrev pub differ : Bool → Bool → Bool
differ true b = not b
differ false b = b

abbrev is_not_requested : ApprovalState → Bool
is_not_requested ApprovalState.not_requested = true
is_not_requested _ = false

abbrev is_pending : ApprovalState → Bool
is_pending ApprovalState.pending = true
is_pending _ = false

abbrev is_state_approved : ApprovalState → Bool
is_state_approved ApprovalState.approved = true
is_state_approved _ = false

abbrev is_state_rejected : ApprovalState → Bool
is_state_rejected ApprovalState.rejected = true
is_state_rejected _ = false

abbrev pub same_decision : ApprovalDecision → ApprovalDecision → Bool
same_decision ApprovalDecision.approved ApprovalDecision.approved = true
same_decision ApprovalDecision.rejected ApprovalDecision.rejected = true
same_decision _ _ = false

-- There is an approval record, and it has this decision.
abbrev pub decides : ApprovalDecision → Option ApprovalRecord → Bool
decides d none = false
decides d (some a) = same_decision d a.decision

-- The branch for a status of `approval_states`, with the state that the table gives it.
reviewed_path : Job → Bool → Outcome Unit
reviewed_path j state_matches = do
  raise_if (not (is_some j.review) || not (is_some j.approval)) (validation review_records_missing)
  raise_if (not state_matches) (validation approval_state_mismatch)

unreviewed_path : Job → Outcome Unit
unreviewed_path j = do
  raise_if (is_some j.review || is_some j.approval) (validation early_review)
  raise_if (not (is_not_requested j.approval_state)) (validation early_approval)

-- The chain on `approval_states`, `AWAITING_REVIEW` and `FAILED`
check_approval : JobStatus → Job → Outcome Unit
unfolding reviewed_path unreviewed_path
check_approval JobStatus.approved j = reviewed_path j (is_state_approved j.approval_state)
check_approval JobStatus.rejected j = reviewed_path j (is_state_rejected j.approval_state)
check_approval JobStatus.completed j = reviewed_path j (is_state_approved j.approval_state)
check_approval JobStatus.awaiting_review j =
    raise_if (is_some j.approval || not (is_pending j.approval_state))
      (validation approval_not_pending)
check_approval JobStatus.failed j = ok tt
check_approval _ j = unreviewed_path j

-- The last two tests of the validator
check_decision : JobStatus → Job → Outcome Unit
check_decision JobStatus.completed j =
    raise_if (not (decides ApprovalDecision.approved j.approval))
      (validation completed_without_approval)
check_decision JobStatus.rejected j =
    raise_if (not (decides ApprovalDecision.rejected j.approval))
      (validation rejected_without_rejection)
check_decision _ j = ok tt

unfoldable pub validate_lifecycle : Job → Outcome Unit
unfolding check_approval check_decision
validate_lifecycle j = do
  raise_if (ltb j.updated_at j.created_at) (validation update_precedes_creation)
  raise_if (differ (is_running j.status) (is_some j.active_execution))
      (validation lease_without_running)
  raise_if (has_result j.status && not (is_some j.result)) (validation result_presence)
  raise_if (not (has_result j.status || is_failed j.status) && is_some j.result)
      (validation result_presence)
  raise_if (differ (is_some j.result) (is_some j.review_requested_at))
      (validation result_without_request)
  check_approval j.status j
  raise_if (differ (is_failed j.status) (is_some j.failure)) (validation failure_mismatch)
  raise_if (differ (is_terminal j.status) (is_some j.terminal_at)) (validation terminal_mismatch)
  check_decision j.status j

-- What constructing a Job checks.
unfoldable pub validate_job_record : Job → Outcome Unit
validate_job_record j = do validate_capabilities j.capabilities; validate_lifecycle j

-- `_updated`: the changes, the new time and revision, validated anew
unfoldable pub updated : Job → ℕ → Outcome Job
updated changed now =
    let after : Job = record changed { updated_at = now; revision = changed.revision + 1 } in
    do validate_job_record after; ok after
