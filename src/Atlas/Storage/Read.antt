-- ===== src/Atlas/Storage/Read.antt =====
-- The reads of SQLiteAtlasStore and `integrity_check`.
use nexus_agent_platform.Common.{
  ℕ, ◌+◌, String, Bool, not, ◌&&◌, ◌||◌, Option, none, some, List, [], ◌∷◌, map, ltb, leb, ◌==◌,
  if◌then◌else◌, length, last_or, ok, err, ◌>>=◌, ◌>>◌, raise_if, str_eq,
}
use nexus_agent_platform.Atlas.Models.{Job, AuditEvent, AuditEventType}
use nexus_agent_platform.Atlas.StateMachine.{same_status}
use nexus_agent_platform.Atlas.Errors.{
  Outcome, storage, job_not_found, idempotency_conflict, malformed_job, job_index_disagrees,
  malformed_event, event_index_disagrees, malformed_response, response_index_disagrees,
  history_disagrees,
}
use nexus_agent_platform.Atlas.Storage.Tables.{
  Codec, JobRow, EventRow, CommandRow, Database, find_job, find_command, events_of, order_by,
}

abbrev pub event_type_index : AuditEventType → ℕ
event_type_index AuditEventType.job_created = 0
event_type_index AuditEventType.job_validated = 1
event_type_index AuditEventType.job_queued = 2
event_type_index AuditEventType.job_started = 3
event_type_index AuditEventType.result_recorded = 4
event_type_index AuditEventType.review_recorded = 5
event_type_index AuditEventType.job_approved = 6
event_type_index AuditEventType.job_rejected = 7
event_type_index AuditEventType.job_completed = 8
event_type_index AuditEventType.job_failed = 9
event_type_index AuditEventType.job_recovered = 10

module _ {T : Type 0} where
  -- `ORDER BY updated_at, job_id`
  abbrev pub row_before : JobRow T → JobRow T → Bool
  row_before a b =
      ltb a.updated_at b.updated_at || a.updated_at == b.updated_at && leb a.job_id b.job_id

  -- `ORDER BY sequence`
  abbrev pub sequence_before : EventRow T → EventRow T → Bool
  sequence_before a b = leb a.sequence b.sequence

module _ {T : Type 0} (codec : Codec T) where
  -- `_job_from_row`
  unfoldable pub job_from_row : JobRow T → Outcome Job
  job_from_row row = elim (codec.load_job row.record_json) [
    | none ↦ err (storage malformed_job)
    | some job ↦
        if row.job_id == job.job_id
          && same_status row.status job.status
          && row.revision == job.revision
          && row.updated_at == job.updated_at
        then ok job
        else err (storage job_index_disagrees)
  ]

  unfoldable pub get_job : ℕ → Database T → Outcome Job
  get_job job_id db = elim (find_job job_id db.jobs) [
    | none ↦ err (job_not_found job_id)
    | some row ↦ job_from_row row
  ]

  abbrev pub jobs_from_rows : List (JobRow T) → Outcome (List Job)
  jobs_from_rows [] = ok []
  jobs_from_rows (row ∷ rows) = do
    job ← job_from_row row
    jobs ← jobs_from_rows rows
    ok (job ∷ jobs)

  unfoldable pub list_jobs : Database T → Outcome (List Job)
  list_jobs db = jobs_from_rows (order_by row_before db.jobs)

  -- One round of the loop in `list_audit_events`
  unfoldable pub event_from_row : EventRow T → Outcome AuditEvent
  event_from_row row = elim (codec.load_event row.event_json) [
    | none ↦ err (storage malformed_event)
    | some event ↦
        if row.event_id == event.event_id
          && row.job_id == event.job_id
          && row.sequence == event.sequence
          && event_type_index row.event_type == event_type_index event.event_type
          && row.occurred_at == event.occurred_at
        then ok event
        else err (storage event_index_disagrees)
  ]

  abbrev pub events_from_rows : List (EventRow T) → Outcome (List AuditEvent)
  events_from_rows [] = ok []
  events_from_rows (row ∷ rows) = do
    event ← event_from_row row
    events ← events_from_rows rows
    ok (event ∷ events)

  unfoldable pub list_audit_events : ℕ → Database T → Outcome (List AuditEvent)
  list_audit_events job_id db =
      events_from_rows (order_by sequence_before (events_of job_id db.events))

  -- `_command_response`
  unfoldable pub command_response : CommandRow T → String → String → Outcome Job
  command_response row operation request_sha256 = do
    raise_if
        (not (str_eq row.operation operation) || not (str_eq row.request_sha256 request_sha256))
        idempotency_conflict
    elim (codec.load_job row.response_json) [
      | none ↦ err (storage malformed_response)
      | some job ↦
          if job.job_id == row.job_id && job.revision == row.response_revision
          then ok job
          else err (storage response_index_disagrees)
    ]

  unfoldable pub lookup_command : String → String → String → Database T → Outcome (Option Job)
  lookup_command command_id operation request_sha256 db =
      elim (find_command command_id db.commands) [
        | none ↦ ok none
        | some row ↦ do job ← command_response row operation request_sha256; ok (some job)
      ]

  -- One round of the loop over the jobs in `integrity_check`
  unfoldable pub check_history : Database T → Job → Outcome Unit
  check_history db job = do
    events ← list_audit_events job.job_id db
    raise_if
        (length events == 0
          || not (length events == job.revision + 1)
          || not (last_or 0 (map (λ event. event.job_revision) events) == job.revision))
        (storage history_disagrees)

  abbrev pub check_histories : Database T → List Job → Outcome Unit
  check_histories db [] = ok tt
  check_histories db (job ∷ jobs) = do check_history db job; check_histories db jobs

  abbrev pub check_commands : List (CommandRow T) → Outcome Unit
  check_commands [] = ok tt
  check_commands (row ∷ rows) = do
    response ← command_response row row.operation row.request_sha256
    check_commands rows

  unfoldable pub integrity_check : Database T → Outcome Unit
  integrity_check db = do jobs ← list_jobs db; check_histories db jobs; check_commands db.commands
