-- ===== src/Atlas/Models.antt =====
-- The contracts of src/nexus/atlas/models.py: the closed vocabularies and the records.
-- A UUID is its 128-bit number, an aware datetime its instant in microseconds, a URL the parts
-- that its parser found. Texts and identifiers are strings.
use nexus_agent_platform.Common.{ℕ, String, Option, Bool, List}

pub data JobStatus : Type 0 where
  created validated queued running awaiting_review approved rejected completed failed : JobStatus

pub JobStatus-discrete : Discrete JobStatus
JobStatus-discrete = hlevel

pub data ApprovalState : Type 0 where
  not_requested pending approved rejected : ApprovalState

pub data ApprovalDecision : Type 0 where
  approved rejected : ApprovalDecision

pub data ActorType : Type 0 where
  system human agent : ActorType

pub data Capability : Type 0 where
  source_read worktree_write test_execute patch_create review_read review_submit : Capability

pub data FailureClassification : Type 0 where
  validation_error permission_denied budget_exceeded timeout runtime_error review_failed cancelled
        persistence_error unknown :
      FailureClassification

pub data ReviewVerdict : Type 0 where
  passed failed inconclusive : ReviewVerdict

pub data AuditEventType : Type 0 where
  job_created job_validated job_queued job_started result_recorded review_recorded job_approved
        job_rejected job_completed job_failed job_recovered :
      AuditEventType

pub record ActorIdentity : Type 0 where
  pub actor_type : ActorType
  pub actor_id : String

pub record Url : Type 0 where
  pub scheme : String
  pub netloc : String
  pub path : String
  pub username : Option String
  pub password : Option String
  pub query : Option String
  pub fragment : Option String

pub record SourceRevision : Type 0 where
  pub repository_url : Url
  pub commit_sha : String
  pub ref : Option String

pub record ArtifactReference : Type 0 where
  pub artifact_type : String
  pub uri : String
  pub sha256 : String

pub record TaskRequest : Type 0 where
  pub task_type : String
  pub title : String
  pub instructions : String
  pub acceptance_criteria : List String
  pub inputs : List ArtifactReference

pub record ExecutionBudget : Type 0 where
  pub max_duration_seconds : ℕ
  pub max_tool_calls : ℕ
  pub max_input_tokens : ℕ
  pub max_output_tokens : ℕ
  pub max_artifact_bytes : ℕ

pub record CheckResult : Type 0 where
  pub name : String
  pub passed : Bool
  pub summary : String

pub record GenericJobResult : Type 0 where
  pub summary : String
  pub artifacts : List ArtifactReference
  pub checks : List CheckResult

pub record PatchResult : Type 0 where
  pub summary : String
  pub base_sha : String
  pub proposed_head_sha : String
  pub patch_artifact : ArtifactReference
  pub changed_files : List String
  pub checks : List CheckResult

-- The union discriminated by `result_type`.
pub data StructuredResult : Type 0 where
  generic : GenericJobResult → StructuredResult
  patch : PatchResult → StructuredResult

pub record ReviewResult : Type 0 where
  pub review_id : ℕ
  pub reviewer_agent_id : String
  pub verdict : ReviewVerdict
  pub summary : String
  pub evidence : List ArtifactReference
  pub created_at : ℕ

pub record ApprovalRecord : Type 0 where
  pub approval_id : ℕ
  pub decision : ApprovalDecision
  pub decided_by : ActorIdentity
  pub reason : String
  pub decided_at : ℕ

pub record JobFailure : Type 0 where
  pub classification : FailureClassification
  pub message : String
  pub retryable : Bool
  pub failed_by : ActorIdentity

pub record ExecutionLease : Type 0 where
  pub execution_id : ℕ
  pub claimed_by : String
  pub started_at : ℕ
  pub expires_at : ℕ

pub record JobSpec : Type 0 where
  pub agent_id : String
  pub reviewer_agent_id : String
  pub request : TaskRequest
  pub source : SourceRevision
  pub budget : ExecutionBudget
  pub capabilities : List Capability

pub record Job : Type 0 where
  pub job_id : ℕ
  pub create_idempotency_key : String
  pub agent_id : String
  pub reviewer_agent_id : String
  pub request : TaskRequest
  pub source : SourceRevision
  pub budget : ExecutionBudget
  pub capabilities : List Capability
  pub status : JobStatus
  pub approval_state : ApprovalState
  pub result : Option StructuredResult
  pub review : Option ReviewResult
  pub approval : Option ApprovalRecord
  pub failure : Option JobFailure
  pub active_execution : Option ExecutionLease
  pub last_execution_id : Option ℕ
  pub created_at : ℕ
  pub updated_at : ℕ
  pub started_at : Option ℕ
  pub review_requested_at : Option ℕ
  pub terminal_at : Option ℕ
  pub revision : ℕ

pub record AgentPolicy : Type 0 where
  pub agent_id : String
  pub runtime_kind : String
  pub runtime_version : String
  pub capabilities : List Capability
  pub max_budget : ExecutionBudget
  pub repository_prefixes : List Url

-- The payloads of audit events, one constructor for each `kind`.
pub data AuditData : Type 0 where
  created : String → String → AuditData
  transition : String → AuditData
  result : String → ℕ → AuditData
  review : ℕ → ReviewVerdict → AuditData
  approval : ℕ → ApprovalDecision → AuditData
  failure : FailureClassification → AuditData
  recovery : ℕ → AuditData

pub record AuditEvent : Type 0 where
  pub event_id : ℕ
  pub job_id : ℕ
  pub sequence : ℕ
  pub job_revision : ℕ
  pub event_type : AuditEventType
  pub actor : ActorIdentity
  pub command_id : String
  pub occurred_at : ℕ
  pub from_status : Option JobStatus
  pub to_status : JobStatus
  pub details : AuditData

pub record CommandRecord : Type 0 where
  pub command_id : String
  pub operation : String
  pub request_sha256 : String
  pub job_id : ℕ
  pub response_revision : ℕ
  pub created_at : ℕ
