-- ===== src/Atlas/Errors.antt =====
-- What the Atlas modules raise: pydantic's ValidationError for a contract, and the exception
-- classes of policy.py, state_machine.py, service.py and storage.py, a constructor per message.
use nexus_agent_platform.Common.{ℕ, String, Result, List}
use nexus_agent_platform.Atlas.Models.{JobStatus, Capability}

pub data Invalid : Type 0 where
  bad_command_id bad_short_text budget_out_of_range url_has_suffix : Invalid
  capability_count duplicate_capabilities capabilities_not_canonical : Invalid
  changed_file_count absolute_changed_file duplicate_changed_files : Invalid
  lease_window approval_not_human : Invalid
  update_precedes_creation lease_without_running result_presence result_without_request : Invalid
  review_records_missing approval_state_mismatch approval_not_pending : Invalid
  early_review early_approval failure_mismatch terminal_mismatch : Invalid
  completed_without_approval rejected_without_rejection : Invalid
  payload_mismatch created_boundary review_changes_status no_state_change sequence_mismatch :
      Invalid

pub data BudgetField : Type 0 where
  duration_seconds tool_calls input_tokens output_tokens artifact_bytes : BudgetField

pub data PolicyViolation : Type 0 where
  not_registered : String → PolicyViolation
  missing_capabilities : List Capability → PolicyViolation
  budget_exceeds : BudgetField → PolicyViolation
  repository_outside reviewer_cannot_submit not_assigned_agent not_assigned_reviewer :
      PolicyViolation
  not_human not_operator not_system patch_not_permitted review_identity : PolicyViolation

pub data CommandFault : Type 0 where
  negative_revision no_lease base_sha_mismatch not_awaiting_review already_reviewed : CommandFault
  review_window no_review review_not_passed lease_not_expired : CommandFault
  naive_clock clock_moved_backwards : CommandFault

pub data StorageFault : Type 0 where
  creation_revision update_revision identities_disagree revisions_disagree : StorageFault
  malformed_job job_index_disagrees malformed_event event_index_disagrees : StorageFault
  malformed_response response_index_disagrees history_disagrees transaction_failed : StorageFault

pub data Error : Type 0 where
  validation : Invalid → Error
  duplicate_policy : String → Error
  invalid_transition : JobStatus → JobStatus → Error
  policy : PolicyViolation → Error
  command : CommandFault → Error
  storage : StorageFault → Error
  job_not_found : ℕ → Error
  idempotency_conflict concurrency : Error

abbrev pub Outcome : Type 0 → Type 0
Outcome A = Result Error A
