-- ===== src/Atlas/Storage/Transaction.antt =====
-- A transaction that a command plans keeps the invariant of the tables.
use mathlib.Core.Path.{subst₂}
use nexus_agent_platform.Common.{
  ℕ, ◌+◌, ◌≡◌, sym, ap, ◌∙◌, subst, Option, none, some, [], ◌∷◌, ◌++◌, arith, ok,
}
use nexus_agent_platform.Atlas.Models.{AuditEvent, CommandRecord, Job, JobStatus}
use nexus_agent_platform.Atlas.Storage.Tables.{Codec, JobRow, Database, find_job, events_of}
use nexus_agent_platform.Atlas.Storage.Read.{
  job_from_row, event_from_row, events_from_rows, command_response,
}
use nexus_agent_platform.Atlas.Storage.Write.{job_row, event_row, command_row}
use nexus_agent_platform.Atlas.Storage.Rows.{find_job-id}
use nexus_agent_platform.Atlas.Storage.History.{Linked, Log, Log-append}
use nexus_agent_platform.Atlas.Storage.Invariant.{RowOk, CommandOk, logged-append}

module _ {T : Type 0} (codec : Codec T) (P : Job → Type 0) where
  -- How the event fits the row that the transaction meets, if it meets the expected revision.
  abbrev pub Fits : Option ℕ → Job → AuditEvent → Database T → Type 0
  Fits none after event db =
      (after.revision ≡ 0) × (event.from_status ≡ none) × (after.status ≡ JobStatus.created)
  Fits (some expected) after event db =
      (source : JobStatus) × (after.revision ≡ expected + 1)
      × (event.from_status ≡ some source)
      × Linked (some source) after.status
      × ((row : JobRow T)
          → find_job after.job_id db.jobs ≡ some row
          → row.revision ≡ expected
          → row.status ≡ source)

  -- What a plan promises of the records that it writes.
  pub record IsLawful (expected : Option ℕ) (after : Job) (event : AuditEvent)
      (command : CommandRecord) (db : Database T) : Type 0 where
    pub stored : job_from_row codec (job_row codec after) ≡ ok after
    pub recorded : event_from_row codec (event_row codec event) ≡ ok event
    pub answered :
        command_response codec
          (command_row codec command after)
          command.operation
          command.request_sha256
        ≡ ok after
    pub kept : P after
    pub same_job : event.job_id ≡ after.job_id
    pub at_revision : event.job_revision ≡ after.revision
    pub in_sequence : event.sequence ≡ after.revision + 1
    pub to_target : event.to_status ≡ after.status
    pub fits : Fits expected after event db

  pub answered_row :
      (expected : Option ℕ) (after : Job) (event : AuditEvent) (command : CommandRecord)
      (db : Database T)
      → IsLawful expected after event command db
      → CommandOk codec P (command_row codec command after)
  unfolding command_row
  answered_row expected after event command db l = record {
    response = after;
    readable = l.answered;
    kept = l.kept;
  }

  -- The row of a new job, whose history is its first event
  pub new_row :
      (after : Job) (event : AuditEvent) (command : CommandRecord) (db : Database T)
      → IsLawful none after event command db
      → events_of after.job_id db.events ≡ []
      → RowOk codec P (db.events ++ event_row codec event ∷ []) (job_row codec after)
  unfolding job_row event_row
  new_row after event command db l fresh = record {
    job = after;
    stored = l.stored;
    kept = l.kept;
    log = event ∷ [];
    logged =
        logged-append codec P after.job_id db.events (event_row codec event) [] event l.same_job
          (rw fresh) l.recorded;
    history = (
      record {
        in_sequence = omega (arith, l.in_sequence, l.fits.0);
        at_revision = omega (arith, l.at_revision, l.fits.0);
        from_source = l.fits.1;
        linked = l.to_target ∙ l.fits.2;
      },
      (omega (arith, l.fits.0), ap some l.to_target),
    );
  }

  -- The row of a job at its next revision, whose history grows by the event
  pub next_row :
      (expected : ℕ) (after : Job) (event : AuditEvent) (command : CommandRecord) (db : Database T)
      → IsLawful (some expected) after event command db
      → (old : JobRow T) → find_job after.job_id db.jobs ≡ some old
      → old.revision ≡ expected
      → RowOk codec P db.events old
      → RowOk codec P (db.events ++ event_row codec event ∷ []) (job_row codec after)
  unfolding job_row event_row
  next_row expected after event command db l old found due r =
      let own : old.job_id ≡ after.job_id = find_job-id after.job_id db.jobs found in
      let (source, up, from, linked, agrees) = l.fits in
      let here : old.status ≡ source = agrees old found due in
      let logged : events_from_rows codec (events_of after.job_id db.events) ≡ ok r.log =
        subst (λ id. events_from_rows codec (events_of id db.events) ≡ ok r.log) own r.logged in
      let grown : Log 0 none (r.log ++ event ∷ []) (old.revision + 1 + 1) (some event.to_status) =
        Log-append 0 none r.log (old.revision + 1) (some old.status) event r.history (record {
          in_sequence = omega (arith, l.in_sequence, up, due);
          at_revision = omega (arith, l.at_revision, up, due);
          from_source = from ∙ ap some (sym here);
          linked = subst₂ (λ s t. Linked (some s) t) (sym here) (sym l.to_target) linked;
        }) in
      record {
        job = after;
        stored = l.stored;
        kept = l.kept;
        log = r.log ++ event ∷ [];
        logged =
            logged-append codec P after.job_id db.events (event_row codec event) r.log event
              l.same_job logged l.recorded;
        history =
            subst₂ (λ m s. Log 0 none (r.log ++ event ∷ []) m (some s)) (omega (arith, up, due))
              l.to_target grown;
      }
