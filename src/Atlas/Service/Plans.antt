-- ===== src/Atlas/Service/Plans.antt =====
-- `_prepare`, `_persist`, `_event`, `_command` and `create_job` of atlas/service.py: from a
-- request and the store to what the store is asked to write, and the commit of that.
use nexus_agent_platform.Common.{
  ℕ, ◌+◌, String, not, Option, none, some, ◌==◌, ok, err, ◌>>=◌, ◌>>◌, raise_if, pos, negsuc,
}
use nexus_agent_platform.Atlas.Models.{
  ActorIdentity, ApprovalState, AuditData, AuditEvent, AuditEventType, CommandRecord, Job, JobSpec,
  JobStatus,
}
use nexus_agent_platform.Atlas.Validate.{check_command_id}
use nexus_agent_platform.Atlas.Validate.Lifecycle.{validate_job_record}
use nexus_agent_platform.Atlas.Validate.Events.{validate_event_shape}
use nexus_agent_platform.Atlas.Policy.{require_operator}
use nexus_agent_platform.Atlas.Errors.{Error, Outcome, concurrency, negative_revision}
use nexus_agent_platform.Atlas.Storage.Tables.{Database}
use nexus_agent_platform.Atlas.Storage.Read.{lookup_command, get_job}
use nexus_agent_platform.Atlas.Storage.Write.{create, update}
use nexus_agent_platform.Atlas.Service.Requests.{
  operation_name, Request, Platform, Reading, Hashed, now,
}
use nexus_agent_platform.Atlas.Service.Change.{Change}
use nexus_agent_platform.Atlas.Service.Bodies.{body}

-- What a command asks of the store: the response of a command seen before, or a transaction. The
-- expected revision is that of the job's row, and `none` for a creation.
pub data Plan : Type 0 where
  replay : Job → Plan
  write : Option ℕ → Job → AuditEvent → CommandRecord → Plan

-- `_prepare`'s result: the prior response, or the fingerprint and the job
pub data Prepared : Type 0 where
  replayed : Job → Prepared
  fresh : String → ℕ → Job → Prepared

abbrev pub status_of : Option Job → Option JobStatus
status_of none = none
status_of (some job) = some job.status

module _ {T : Type 0} (platform : Platform T) where
  -- The fields that `_event` gives the event
  unfoldable pub event_record :
      Option Job → Job → AuditEventType → ActorIdentity → String → AuditData → AuditEvent
  event_record before after event_type actor command_id details = record {
    event_id = platform.event_uuid after.job_id (after.revision + 1) command_id;
    job_id = after.job_id;
    sequence = after.revision + 1;
    job_revision = after.revision;
    event_type = event_type;
    actor = actor;
    command_id = command_id;
    occurred_at = after.updated_at;
    from_status = status_of before;
    to_status = after.status;
    details = details;
  }

  -- `_event`, with the validator of AuditEvent
  unfoldable pub make_event :
      Option Job → Job → AuditEventType → ActorIdentity → String → AuditData → Outcome AuditEvent
  make_event before after event_type actor command_id details =
      let event : AuditEvent = event_record before after event_type actor command_id details in
      do validate_event_shape event; ok event

  -- `_command`
  unfoldable pub make_command : String → String → String → Job → ℕ → CommandRecord
  make_command command_id operation request_sha256 job created_at = record {
    command_id = command_id;
    operation = operation;
    request_sha256 = request_sha256;
    job_id = job.job_id;
    response_revision = job.revision;
    created_at = created_at;
  }

  -- `_prepare` at an expected revision that is no negative number. It reads twice: what the store
  -- holds when the command is looked up, and later when the job is read.
  unfoldable pub prepare_at : Request → ℕ → Database T → Database T → Outcome Prepared
  prepare_at request expected looked db =
      let name : String = operation_name request.operation in
      let fingerprint : String =
        platform.canonical_sha256
          (Hashed.request name request.operation request.actor request.job_id expected) in
      do
        prior ← lookup_command platform.codec request.command_id name fingerprint looked
        elim prior [
          | some job ↦ ok (replayed job)
          | none ↦ do
            job ← get_job platform.codec request.job_id db
            raise_if (not (job.revision == expected)) concurrency
            ok (fresh fingerprint expected job)
        ]

  -- `_prepare`
  unfoldable pub prepare : Request → Database T → Database T → Outcome Prepared
  unfolding prepare_at
  prepare request looked db = do
    check_command_id request.command_id
    elim request.expected_revision [
      | negsuc n ↦ err (Error.command negative_revision)
      | pos expected ↦ prepare_at request expected looked db
    ]

  -- `_persist` up to the store's transaction
  unfoldable pub persist_plan : Request → String → ℕ → Job → Change → Outcome Plan
  unfolding make_event make_command
  persist_plan request fingerprint expected before change = do
    event ←
        make_event (some before) change.after change.event_type request.actor request.command_id
          change.details
    ok (
        write (some expected) change.after event (
          make_command request.command_id (operation_name request.operation) fingerprint
            change.after change.after.updated_at))

  -- A method on an existing job, up to the store's transaction
  unfoldable pub plan_request : Reading → Request → Database T → Database T → Outcome Plan
  plan_request reading request looked db = do
    prepared ← prepare request looked db
    elim prepared [
      | replayed job ↦ ok (replay job)
      | fresh fingerprint expected job ↦ do
        change ← body platform request.operation reading request.actor job
        persist_plan request fingerprint expected job change
    ]

  -- The job of `create_job`, with the defaults of the contract
  unfoldable pub new_job : JobSpec → String → ℕ → ℕ → Job
  new_job spec command_id job_id time = record {
    job_id = job_id;
    create_idempotency_key = command_id;
    agent_id = spec.agent_id;
    reviewer_agent_id = spec.reviewer_agent_id;
    request = spec.request;
    source = spec.source;
    budget = spec.budget;
    capabilities = spec.capabilities;
    status = JobStatus.created;
    approval_state = ApprovalState.not_requested;
    result = none;
    review = none;
    approval = none;
    failure = none;
    active_execution = none;
    last_execution_id = none;
    created_at = time;
    updated_at = time;
    started_at = none;
    review_requested_at = none;
    terminal_at = none;
    revision = 0;
  }

  -- `create_job` from the reading of the clock on
  unfoldable pub creation_at :
      Reading → JobSpec → String → ActorIdentity → String → ℕ → Outcome Plan
  unfolding new_job make_event make_command
  creation_at reading spec command_id actor fingerprint time =
      let job : Job = new_job spec command_id reading.fresh_id time in
      do
        validate_job_record job
        event ←
            make_event none job AuditEventType.job_created actor command_id
              (AuditData.created (platform.canonical_sha256 (Hashed.spec spec)) command_id)
        ok (write none job event (make_command command_id "job.create" fingerprint job time))

  -- `create_job` up to the store's transaction
  unfoldable pub plan_creation :
      Reading → JobSpec → String → ActorIdentity → Database T → Outcome Plan
  unfolding creation_at
  plan_creation reading spec command_id actor db = do
    check_command_id command_id
    require_operator actor
    let fingerprint = platform.canonical_sha256 (Hashed.creation actor spec)
    prior ← lookup_command platform.codec command_id "job.create" fingerprint db
    elim prior [
      | some job ↦ ok (replay job)
      | none ↦ do
        time ← now reading none
        creation_at reading spec command_id actor fingerprint time
    ]

  -- The transaction of a plan
  unfoldable pub commit : Plan → Database T → Outcome (Job × Database T)
  unfolding create update
  commit (replay job) db = ok (job, db)
  commit (write none job event command) db = create platform.codec job event command db
  commit (write (some expected) job event command) db =
      update platform.codec expected job event command db

-- A command is a creation, or a method on an existing job.
pub data Command : Type 0 where
  create_job : JobSpec → String → ActorIdentity → Command
  on_job : Request → Command

-- A command up to the store's transaction: what the store holds at the first read and at the second
unfoldable pub plan :
    {T : Type 0} → Platform T → Reading → Command → Database T → Database T → Outcome Plan
unfolding plan_request plan_creation
plan platform reading (create_job spec command_id actor) looked db =
    plan_creation platform reading spec command_id actor looked
plan platform reading (on_job request) looked db = plan_request platform reading request looked db

-- A command with nothing in between: what the method returns or raises, and the store after it.
unfoldable pub execute :
    {T : Type 0} → Platform T → Reading → Command → Database T → Outcome (Job × Database T)
unfolding plan commit
execute platform reading request db = do
  planned ← plan platform reading request db db
  commit platform planned db
