-- ===== src/Atlas/Storage/Tables.antt =====
-- The tables of the schema in `initialize`, and the JSON codec of the records in them.
use nexus_agent_platform.Common.{
  ℕ, String, Bool, Option, none, some, List, [], ◌∷◌, ◌==◌, if◌then◌else◌, str_eq,
}
use nexus_agent_platform.Atlas.Models.{Job, JobStatus, AuditEvent, AuditEventType}

-- `canonical_json` and `model_validate_json`: T is the JSON text. `none` stands for the
-- ValidationError of a text that is not a valid record.
pub record Codec (T : Type 0) : Type 0 where
  pub dump_job : Job → T
  pub load_job : T → Option Job
  pub dump_event : AuditEvent → T
  pub load_event : T → Option AuditEvent

-- A row of atlas_jobs
pub record JobRow (T : Type 0) : Type 0 where
  pub job_id : ℕ
  pub status : JobStatus
  pub revision : ℕ
  pub updated_at : ℕ
  pub record_json : T

-- A row of atlas_audit_events
pub record EventRow (T : Type 0) : Type 0 where
  pub event_id : ℕ
  pub job_id : ℕ
  pub sequence : ℕ
  pub event_type : AuditEventType
  pub occurred_at : ℕ
  pub event_json : T

-- A row of atlas_commands
pub record CommandRow (T : Type 0) : Type 0 where
  pub command_id : String
  pub operation : String
  pub request_sha256 : String
  pub job_id : ℕ
  pub response_revision : ℕ
  pub created_at : ℕ
  pub response_json : T

-- Rows stand in the order of their insertion.
pub record Database (T : Type 0) : Type 0 where
  pub jobs : List (JobRow T)
  pub events : List (EventRow T)
  pub commands : List (CommandRow T)

-- After `initialize` on a new file
abbrev pub empty_database : {T : Type 0} → Database T
empty_database = record { jobs = []; events = []; commands = [] }

module _ {T : Type 0} where
  -- `SELECT … FROM atlas_jobs WHERE job_id = ?`, `fetchone`
  unfoldable pub find_job : ℕ → List (JobRow T) → Option (JobRow T)
  find_job id [] = none
  find_job id (r ∷ rs) = if r.job_id == id then some r else find_job id rs

  -- `SELECT … FROM atlas_commands WHERE command_id = ?`, `fetchone`
  unfoldable pub find_command : String → List (CommandRow T) → Option (CommandRow T)
  find_command id [] = none
  find_command id (r ∷ rs) = if str_eq r.command_id id then some r else find_command id rs

  -- `SELECT … FROM atlas_audit_events WHERE job_id = ?`
  unfoldable pub events_of : ℕ → List (EventRow T) → List (EventRow T)
  events_of id [] = []
  events_of id (r ∷ rs) = if r.job_id == id then r ∷ events_of id rs else events_of id rs

-- `ORDER BY`, where `before a b` says that a may stand before b
module _ {A : Type 0} (before : A → A → Bool) where
  unfoldable pub insert_ordered : A → List A → List A
  insert_ordered a [] = a ∷ []
  insert_ordered a (b ∷ bs) = if before a b then a ∷ b ∷ bs else b ∷ insert_ordered a bs

  unfoldable pub order_by : List A → List A
  unfolding insert_ordered
  order_by [] = []
  order_by (a ∷ as') = insert_ordered a (order_by as')
