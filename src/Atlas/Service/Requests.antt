-- ===== src/Atlas/Service/Requests.antt =====
-- What a command is made of, and what surrounds the control plane: its registry, the codec, the
-- digest, and the readings of the clock and of the id factory.
use nexus_agent_platform.Common.{
  ℕ, String, Bool, Option, none, some, ltb, ok, err, ◌>>◌, raise_if, ℤ,
}
use nexus_agent_platform.Atlas.Models.{
  ActorIdentity, FailureClassification, Job, JobSpec, ReviewResult, StructuredResult,
}
use nexus_agent_platform.Atlas.Policy.{Registry}
use nexus_agent_platform.Atlas.Storage.Tables.{Codec}
use nexus_agent_platform.Atlas.Errors.{Outcome, command, naive_clock, clock_moved_backwards}

-- The methods on an existing job, with the arguments that are their own.
pub data Operation : Type 0 where
  validate queue start complete recover_expired : Operation
  submit_result : StructuredResult → Operation
  record_review : ReviewResult → Operation
  approve reject : String → Operation
  fail : FailureClassification → String → Bool → Operation

-- The arguments that all of them share.
pub record Request : Type 0 where
  pub operation : Operation
  pub job_id : ℕ
  pub command_id : String
  pub expected_revision : ℤ
  pub actor : ActorIdentity

-- `operation` in each method
abbrev pub operation_name : Operation → String
operation_name Operation.validate = "job.validate"
operation_name Operation.queue = "job.queue"
operation_name Operation.start = "job.start"
operation_name Operation.complete = "job.complete"
operation_name Operation.recover_expired = "job.recover_expired"
operation_name (Operation.submit_result r) = "job.submit_result"
operation_name (Operation.record_review r) = "job.record_review"
operation_name (Operation.approve reason) = "job.approved"
operation_name (Operation.reject reason) = "job.rejected"
operation_name (Operation.fail c m r) = "job.fail"

-- What `canonical_sha256` is called on: the request with its operation, actor and payload
-- (`_request_hash`), a specification, or a result.
pub data Hashed : Type 0 where
  creation : ActorIdentity → JobSpec → Hashed
  request : String → Operation → ActorIdentity → ℕ → ℕ → Hashed
  spec : JobSpec → Hashed
  result : StructuredResult → Hashed

pub record Platform (T : Type 0) : Type 0 where
  pub registry : Registry
  pub codec : Codec T
  pub canonical_sha256 : Hashed → String
  -- `uuid5(NAMESPACE_URL, f"nexus.atlas:{job_id}:{sequence}:{command_id}")`
  pub event_uuid : ℕ → ℕ → String → ℕ

-- A datetime of the clock; `naive` is one without a timezone.
pub data Timestamp : Type 0 where
  aware : ℕ → Timestamp
  naive : Timestamp

-- What the clock and the id factory return in one command.
pub record Reading : Type 0 where
  pub clock : Timestamp
  pub fresh_id : ℕ

-- `_now`
unfoldable pub now : Reading → Option Job → Outcome ℕ
now reading job = elim reading.clock [
  | naive ↦ err (command naive_clock)
  | aware value ↦ elim job [
    | none ↦ ok value
    | some j ↦ do raise_if (ltb value j.updated_at) (command clock_moved_backwards); ok value
  ]
]
