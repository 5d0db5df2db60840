-- ===== src/Atlas/Validate/WellFormed.antt =====
-- What a job holds in each status, written out status by status.
use nexus_agent_platform.Common.{◌↔◌, ◌≤◌, ◌≡◌, Option, none, some, arith, ok}
use nexus_agent_platform.Atlas.Models.{
  ApprovalDecision, ApprovalRecord, ApprovalState, Job, JobStatus,
}
use nexus_agent_platform.Atlas.Validate.Lifecycle.{validate_lifecycle}

abbrev pub Present : {A : Type 0} → Option A → Type 0
Present none = ⊥
Present (some x) = Unit

-- There is an approval record with this decision.
abbrev pub Decided : ApprovalDecision → Option ApprovalRecord → Type 0
Decided d none = ⊥
Decided d (some a) = a.decision ≡ d

-- Before any submission, with or without a lease
abbrev pub Unsubmitted : Job → Type 0
Unsubmitted j =
    (j.result ≡ none)
    × (j.review_requested_at ≡ none)
    × (j.failure ≡ none)
    × (j.terminal_at ≡ none)
    × (j.review ≡ none)
    × (j.approval ≡ none)
    × (j.approval_state ≡ ApprovalState.not_requested)

-- A submitted result that no lease works on any more
abbrev pub Submitted : Job → Type 0
Submitted j =
    (j.active_execution ≡ none)
    × Present j.result
    × Present j.review_requested_at
    × (j.failure ≡ none)

-- What a job holds in its status
abbrev pub Evidence : JobStatus → Job → Type 0
Evidence JobStatus.created j = (j.active_execution ≡ none) × Unsubmitted j
Evidence JobStatus.validated j = (j.active_execution ≡ none) × Unsubmitted j
Evidence JobStatus.queued j = (j.active_execution ≡ none) × Unsubmitted j
Evidence JobStatus.running j = Present j.active_execution × Unsubmitted j
Evidence JobStatus.awaiting_review j =
    Submitted j
    × (j.terminal_at ≡ none)
    × (j.approval ≡ none)
    × (j.approval_state ≡ ApprovalState.pending)
Evidence JobStatus.approved j =
    Submitted j
    × (j.terminal_at ≡ none)
    × Present j.review
    × Present j.approval
    × (j.approval_state ≡ ApprovalState.approved)
Evidence JobStatus.rejected j =
    Submitted j
    × (j.terminal_at ≡ none)
    × Present j.review
    × Decided ApprovalDecision.rejected j.approval
    × (j.approval_state ≡ ApprovalState.rejected)
Evidence JobStatus.completed j =
    Submitted j
    × Present j.terminal_at
    × Present j.review
    × Decided ApprovalDecision.approved j.approval
    × (j.approval_state ≡ ApprovalState.approved)
Evidence JobStatus.failed j =
    (j.active_execution ≡ none)
    × Present j.failure
    × Present j.terminal_at
    × (Present j.result ↔ Present j.review_requested_at)

pub record IsWellFormed (j : Job) : Type 0 where
  pub in_order : j.created_at ≤ j.updated_at
  pub evidence : Evidence j.status j

pub validate_lifecycle-IsWellFormed : (j : Job) → validate_lifecycle j ≡ ok tt → IsWellFormed j
unfolding validate_lifecycle
validate_lifecycle-IsWellFormed j h = ground arith

validate_lifecycle_complete : (j : Job) → IsWellFormed j → validate_lifecycle j ≡ ok tt
unfolding validate_lifecycle
validate_lifecycle_complete j h = ground arith

-- The lifecycle validator of a job accepts exactly the jobs that were not updated before their
-- creation and hold, in each of the nine statuses, the evidence of that status: the lease, the
-- result with its request for review, the review, the approval with its decision and state, the
-- failure and the end.
pub validate_lifecycle_iff : (j : Job) → (validate_lifecycle j ≡ ok tt) ↔ IsWellFormed j
validate_lifecycle_iff j = (validate_lifecycle-IsWellFormed j, validate_lifecycle_complete j)
