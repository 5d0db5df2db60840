-- ===== src/Atlas/Service/Review.antt =====
-- The methods of AtlasControlPlane that bring a job through its review, between `_prepare` and
-- `_persist`: the result, the reviewer's verdict, the human decision.
use nexus_agent_platform.Common.{
  ℕ, String, Bool, true, false, not, ◌&&◌, ◌||◌, Option, none, some, ltb, is_some, ok, err, ◌>>=◌,
  ◌>>◌, raise_if, str_eq,
}
use nexus_agent_platform.Atlas.Models.{
  ActorIdentity, ApprovalDecision, ApprovalState, AuditData, AuditEventType, patch_create, Job,
  JobStatus, ReviewResult, ReviewVerdict, StructuredResult, generic, patch,
}
use nexus_agent_platform.Atlas.Capabilities.{contains}
use nexus_agent_platform.Atlas.StateMachine.{same_status, require_transition}
use nexus_agent_platform.Atlas.Validate.{make_approval}
use nexus_agent_platform.Atlas.Validate.Lifecycle.{updated}
use nexus_agent_platform.Atlas.Policy.{
  Registry, require_assigned_agent, require_reviewer, require_human,
}
use nexus_agent_platform.Atlas.Errors.{
  Outcome, policy, command, patch_not_permitted, base_sha_mismatch, not_awaiting_review,
  already_reviewed, review_identity, review_window, no_review, review_not_passed,
}
use nexus_agent_platform.Atlas.Service.Requests.{Platform, Reading, Hashed, now}
use nexus_agent_platform.Atlas.Service.Change.{Change, change, require_lease}

-- The checks of a PatchResult against the job
unfoldable pub check_result : Job → StructuredResult → Outcome Unit
check_result job (generic g) = ok tt
check_result job (patch p) = do
  raise_if (not (contains patch_create job.capabilities)) (policy patch_not_permitted)
  raise_if (not (str_eq p.base_sha job.source.commit_sha)) (command base_sha_mismatch)

module _ {T : Type 0} (platform : Platform T) where
  unfoldable pub submit_body : StructuredResult → Reading → ActorIdentity → Job → Outcome Change
  submit_body result reading actor job = do
    require_assigned_agent platform.registry job actor
    require_transition job.status JobStatus.awaiting_review
    lease ← require_lease job.active_execution
    check_result job result
    time ← now reading (some job)
    after ←
        updated
          (record job {
            status = JobStatus.awaiting_review;
            approval_state = ApprovalState.pending;
            result = some result;
            active_execution = none;
            last_execution_id = some lease.execution_id;
            review_requested_at = some time;
          })
          time
    change AuditEventType.result_recorded
        (AuditData.result (platform.canonical_sha256 (Hashed.result result)) lease.execution_id)
        after

-- `review.created_at > now or (… and review.created_at < job.review_requested_at)`
abbrev outside_window : ReviewResult → ℕ → Option ℕ → Bool
outside_window review time none = ltb time review.created_at
outside_window review time (some requested) =
    ltb time review.created_at || ltb review.created_at requested

unfoldable pub review_body :
    Registry → ReviewResult → Reading → ActorIdentity → Job → Outcome Change
review_body registry review reading actor job = do
  require_reviewer registry job actor
  raise_if (not (same_status job.status JobStatus.awaiting_review)) (command not_awaiting_review)
  raise_if (is_some job.review) (command already_reviewed)
  raise_if (not (str_eq review.reviewer_agent_id actor.actor_id)) (policy review_identity)
  time ← now reading (some job)
  raise_if (outside_window review time job.review_requested_at) (command review_window)
  after ← updated (record job { review = some review }) time
  change AuditEventType.review_recorded (AuditData.review review.review_id review.verdict) after

abbrev pub is_passed : ReviewVerdict → Bool
is_passed ReviewVerdict.passed = true
is_passed _ = false

abbrev pub is_approve : ApprovalDecision → Bool
is_approve ApprovalDecision.approved = true
is_approve ApprovalDecision.rejected = false

abbrev decision_status : ApprovalDecision → JobStatus
decision_status ApprovalDecision.approved = JobStatus.approved
decision_status ApprovalDecision.rejected = JobStatus.rejected

abbrev decision_state : ApprovalDecision → ApprovalState
decision_state ApprovalDecision.approved = ApprovalState.approved
decision_state ApprovalDecision.rejected = ApprovalState.rejected

abbrev decision_event : ApprovalDecision → AuditEventType
decision_event ApprovalDecision.approved = AuditEventType.job_approved
decision_event ApprovalDecision.rejected = AuditEventType.job_rejected

-- `if job.review is None: raise`
abbrev require_review : Option ReviewResult → Outcome ReviewResult
require_review none = err (command no_review)
require_review (some review) = ok review

-- `_decide`
unfoldable pub decide_body :
    ApprovalDecision → String → Reading → ActorIdentity → Job → Outcome Change
decide_body decision reason reading actor job = do
  require_human actor
  review ← require_review job.review
  raise_if (is_approve decision && not (is_passed review.verdict)) (command review_not_passed)
  require_transition job.status (decision_status decision)
  time ← now reading (some job)
  approval ← make_approval reading.fresh_id decision actor reason time
  after ←
      updated
        (record job {
          status = decision_status decision;
          approval_state = decision_state decision;
          approval = some approval;
        })
        time
  change (decision_event decision) (AuditData.approval approval.approval_id decision) after
