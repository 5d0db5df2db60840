-- ===== src/Atlas/Storage/Write.antt =====
-- The transactions of SQLiteAtlasStore. A result is the response and the tables after COMMIT.
use nexus_agent_platform.Common.{
  ℕ, suc, ◌+◌, Bool, not, ◌&&◌, ◌||◌, Option, none, some, List, [], ◌∷◌, ◌++◌, ◌==◌, if◌then◌else◌,
  is_some, any_of, ok, err, ◌>>=◌, ◌>>◌, raise_if,
}
use nexus_agent_platform.Atlas.Models.{Job, AuditEvent, CommandRecord}
use nexus_agent_platform.Atlas.Errors.{
  Outcome, storage, concurrency, creation_revision, update_revision, identities_disagree,
  revisions_disagree, transaction_failed,
}
use nexus_agent_platform.Atlas.Storage.Tables.{
  Codec, JobRow, EventRow, CommandRow, Database, find_job, find_command,
}
use nexus_agent_platform.Atlas.Storage.Read.{command_response}

module _ {T : Type 0} where
  -- `UPDATE atlas_jobs SET … WHERE job_id = ? AND revision = ?`
  unfoldable pub update_rows : JobRow T → ℕ → List (JobRow T) → List (JobRow T)
  update_rows new expected [] = []
  update_rows new expected (r ∷ rs) =
      (if r.job_id == new.job_id && r.revision == expected then new else r)
      ∷ update_rows new expected rs

  -- its `rowcount`
  unfoldable pub count_rows : ℕ → ℕ → List (JobRow T) → ℕ
  count_rows id expected [] = 0
  count_rows id expected (r ∷ rs) =
      if r.job_id == id && r.revision == expected
      then suc (count_rows id expected rs)
      else count_rows id expected rs

  -- The row breaks the PRIMARY KEY, or UNIQUE(job_id, sequence).
  abbrev pub event_clashes : EventRow T → EventRow T → Bool
  event_clashes new r =
      r.event_id == new.event_id || r.job_id == new.job_id && r.sequence == new.sequence

module _ {T : Type 0} (codec : Codec T) where
  unfoldable pub job_row : Job → JobRow T
  job_row job = record {
    job_id = job.job_id;
    status = job.status;
    revision = job.revision;
    updated_at = job.updated_at;
    record_json = codec.dump_job job;
  }

  unfoldable pub event_row : AuditEvent → EventRow T
  event_row event = record {
    event_id = event.event_id;
    job_id = event.job_id;
    sequence = event.sequence;
    event_type = event.event_type;
    occurred_at = event.occurred_at;
    event_json = codec.dump_event event;
  }

  unfoldable pub command_row : CommandRecord → Job → CommandRow T
  command_row command job = record {
    command_id = command.command_id;
    operation = command.operation;
    request_sha256 = command.request_sha256;
    job_id = command.job_id;
    response_revision = command.response_revision;
    created_at = command.created_at;
    response_json = codec.dump_job job;
  }

  -- The statement on atlas_jobs: INSERT for a creation, UPDATE with its rowcount otherwise
  unfoldable pub write_job : Option ℕ → Job → List (JobRow T) → Outcome (List (JobRow T))
  unfolding job_row
  write_job none job rows =
      if is_some (find_job job.job_id rows)
      then err (storage transaction_failed)
      else ok (rows ++ job_row job ∷ [])
  write_job (some expected) job rows =
      if count_rows job.job_id expected rows == 1
      then ok (update_rows (job_row job) expected rows)
      else err concurrency

  -- `INSERT INTO atlas_audit_events`, with the foreign key into the jobs
  unfoldable pub write_event :
      AuditEvent → List (JobRow T) → List (EventRow T) → Outcome (List (EventRow T))
  unfolding event_row
  write_event event jobs rows =
      if any_of (event_clashes (event_row event)) rows || not (is_some (find_job event.job_id jobs))
      then err (storage transaction_failed)
      else ok (rows ++ event_row event ∷ [])

  -- The statements of the transaction once the command is known to be new
  unfoldable pub write_all :
      Option ℕ → Job → AuditEvent → CommandRecord → Database T → Outcome (Database T)
  write_all expected job event command db = do
    jobs ← write_job expected job db.jobs
    events ← write_event event jobs db.events
    ok (record {
      jobs = jobs;
      events = events;
      commands = db.commands ++ command_row command job ∷ [];
    })

  -- `_persist`: a command seen before is answered from its record, and nothing is written
  unfoldable pub persist :
      Option ℕ → Job → AuditEvent → CommandRecord → Database T → Outcome (Job × Database T)
  persist expected job event command db = do
    raise_if (not (event.job_id == job.job_id) || not (command.job_id == job.job_id))
        (storage identities_disagree)
    raise_if
        (not (event.job_revision == job.revision)
          || not (command.response_revision == job.revision))
        (storage revisions_disagree)
    elim (find_command command.command_id db.commands) [
      | some row ↦ do
        response ← command_response codec row command.operation command.request_sha256
        ok (response, db)
      | none ↦ do db' ← write_all expected job event command db; ok (job, db')
    ]

  unfoldable pub create : Job → AuditEvent → CommandRecord → Database T → Outcome (Job × Database T)
  unfolding persist
  create job event command db = do
    raise_if (not (job.revision == 0) || not (event.sequence == 1) || not (event.job_revision == 0))
        (storage creation_revision)
    persist none job event command db

  unfoldable pub update :
      ℕ → Job → AuditEvent → CommandRecord → Database T → Outcome (Job × Database T)
  unfolding persist
  update expected job event command db = do
    raise_if (not (job.revision == expected + 1)) (storage update_revision)
    persist (some expected) job event command db
