-- ===== src/Atlas/Service/Pending.antt =====
-- What a plan promises of the tables that it is committed to, from its making on.
pub mod Lawful
pub mod Growth
pub mod Planning
pub mod Creation
use nexus_agent_platform.Common.{ℕ, ◌+◌, ◌≤◌, ◌≡◌, Option, none, some, ok}
use nexus_agent_platform.Atlas.Models.{
  ActorIdentity, AuditEvent, CommandRecord, Job, JobSpec, JobStatus,
}
use nexus_agent_platform.Atlas.Storage.Tables.{Codec, JobRow, Database, find_job}
use nexus_agent_platform.Atlas.Storage.Transaction.{IsLawful, Fits}
use nexus_agent_platform.Atlas.Storage.Read.{
  job_from_row, event_from_row, command_response, event_type_index,
}
use nexus_agent_platform.Atlas.Storage.Write.{job_row, event_row, command_row}
use nexus_agent_platform.Atlas.StateMachine.{same_status}
use nexus_agent_platform.Atlas.Storage.History.{Linked}
use nexus_agent_platform.Atlas.Validate.Lifecycle.{validate_job_record}
use nexus_agent_platform.Atlas.Validate.Events.{validate_event_shape}
use nexus_agent_platform.Atlas.Service.Plans.{Plan, replay, write, make_command}
use nexus_agent_platform.Atlas.Service.Steps.Proper.{IsProper}

-- What the store keeps of each job.
pub record IsSound (j : Job) : Type 0 where
  pub valid : validate_job_record j ≡ ok tt
  pub proper : IsProper j

-- Whose texts the canonical JSON keeps as they are: `canonical_json` puts them in NFC form.
pub record Normality : Type 1 where
  pub job : Job → Type 0
  pub event : AuditEvent → Type 0

-- The documented behaviour of the JSON codec: a valid job and a valid event whose texts are
-- normalised are read back as they were written.
pub record IsFaithful {T : Type 0} (codec : Codec T) (Normal : Normality) : Type 0 where
  pub job_round_trip :
      (j : Job)
      → Normal.job j
      → validate_job_record j ≡ ok tt
      → codec.load_job (codec.dump_job j) ≡ some j
  pub event_round_trip :
      (e : AuditEvent)
      → Normal.event e
      → validate_event_shape e ≡ ok tt
      → codec.load_event (codec.dump_event e) ≡ some e

module _ {T : Type 0} (codec : Codec T) where
  -- The row that a plan was made on, as far as the tables still hold it: its job has not gone
  -- back, and at the expected revision it has the status that the plan starts from.
  pub record IsBased (expected : ℕ) (source : JobStatus) (id : ℕ) (db : Database T) : Type 0 where
    pub row : JobRow T
    pub found : find_job id db.jobs ≡ some row
    pub not_before : expected ≤ row.revision
    pub agrees : row.revision ≡ expected → row.status ≡ source

  abbrev pub Base : Option ℕ → Job → AuditEvent → Database T → Type 0
  Base none after event db =
      (after.revision ≡ 0) × (event.from_status ≡ none) × (after.status ≡ JobStatus.created)
  Base (some expected) after event db =
      (source : JobStatus) × (after.revision ≡ expected + 1)
      × (event.from_status ≡ some source)
      × Linked (some source) after.status
      × IsBased expected source after.job_id db

  -- A plan in the hands of a control plane.
  abbrev pub Pending : Plan → Database T → Type 0
  Pending (replay job) db = Unit
  Pending (write expected after event command) db =
      (codec.load_job (codec.dump_job after) ≡ some after)
      × (codec.load_event (codec.dump_event event) ≡ some event)
      × IsSound after
      × (command.job_id ≡ after.job_id)
      × (command.response_revision ≡ after.revision)
      × (event.job_id ≡ after.job_id)
      × (event.job_revision ≡ after.revision)
      × (event.sequence ≡ after.revision + 1)
      × (event.to_status ≡ after.status)
      × Base expected after event db
