-- ===== src/Atlas/Storage/Preservation.antt =====
-- The transactions of the store keep the invariant of its tables.
use nexus_agent_platform.Common.{
  ℕ, ◌≡◌, sym, ◌∙◌, subst, Option, none, some, [], ◌∷◌, ◌++◌, arith, All-append, ok,
}
use nexus_agent_platform.Atlas.Models.{AuditEvent, CommandRecord, Job}
use nexus_agent_platform.Atlas.Storage.Tables.{Codec, JobRow, EventRow, Database, find_job}
use nexus_agent_platform.Atlas.Storage.Write.{
  job_row, event_row, command_row, update_rows, count_rows, write_job, write_event, write_all,
}
use nexus_agent_platform.Atlas.Storage.Rows.{
  update_rows-Distinct, append-Distinct, append-absent, update_rows-absent, events_of-append_ne,
}
use nexus_agent_platform.Atlas.Storage.Invariant.{Inv, frame-All, update_rows-RowOk}
use nexus_agent_platform.Atlas.Storage.Transaction.{IsLawful, answered_row, new_row, next_row}

module _ {T : Type 0} (codec : Codec T) (P : Job → Type 0) where
  -- A creation keeps the invariant.
  insert-Inv :
      (after : Job) (event : AuditEvent) (command : CommandRecord) (db : Database T)
      → IsLawful codec P none after event command db
      → find_job after.job_id db.jobs ≡ none
      → Inv codec P db
      → Inv codec P (record {
        jobs = db.jobs ++ job_row codec after ∷ [];
        events = db.events ++ event_row codec event ∷ [];
        commands = db.commands ++ command_row codec command after ∷ [];
      })
  unfolding job_row event_row
  insert-Inv after event command db l free v =
      let row : JobRow T = job_row codec after in
      let e : EventRow T = event_row codec event in
      record {
        distinct = append-Distinct row db.jobs v.distinct free;
        rows =
            All-append _ db.jobs (row ∷ [])
              (frame-All codec P db.events e db.jobs (rw l.same_job free) v.rows)
              (new_row codec P after event command db l (v.no_orphans after.job_id free), tt);
        no_orphans = λ id h.
            let (gone, ne) = append-absent id db.jobs row h in
            rw (events_of-append_ne id db.events e (λ q. ne (sym l.same_job ∙ q)))
              (v.no_orphans id gone);
        commands =
            All-append _ db.commands (command_row codec command after ∷ []) v.commands
              (answered_row codec P none after event command db l, tt);
      }

  -- An update at the expected revision keeps the invariant.
  update-Inv :
      (expected : ℕ) (after : Job) (event : AuditEvent) (command : CommandRecord) (db : Database T)
      → IsLawful codec P (some expected) after event command db
      → count_rows after.job_id expected db.jobs ≡ 1
      → Inv codec P db
      → Inv codec P (record {
        jobs = update_rows (job_row codec after) expected db.jobs;
        events = db.events ++ event_row codec event ∷ [];
        commands = db.commands ++ command_row codec command after ∷ [];
      })
  unfolding job_row event_row
  update-Inv expected after event command db l n v =
      let row : JobRow T = job_row codec after in
      let e : EventRow T = event_row codec event in
      record {
        distinct = update_rows-Distinct expected row db.jobs v.distinct;
        rows =
            update_rows-RowOk codec P db.events e row expected db.jobs l.same_job v.distinct n
              (next_row codec P expected after event command db l) v.rows;
        no_orphans = λ id h.
            let (gone, ne) = update_rows-absent id expected row db.jobs v.distinct n h in
            rw (events_of-append_ne id db.events e (λ q. ne (sym l.same_job ∙ q)))
              (v.no_orphans id gone);
        commands =
            All-append _ db.commands (command_row codec command after ∷ []) v.commands
              (answered_row codec P (some expected) after event command db l, tt);
      }

  -- The statements of a lawful transaction keep the invariant.
  pub write_all-Inv :
      (expected : Option ℕ) (after : Job) (event : AuditEvent) (command : CommandRecord)
      (db db' : Database T)
      → IsLawful codec P expected after event command db
      → write_all codec expected after event command db ≡ ok db'
      → Inv codec P db
      → Inv codec P db'
  unfolding write_all write_job write_event
  write_all-Inv none after event command db db' l h v =
      subst (Inv codec P) (ground arith) (insert-Inv after event command db l (ground arith) v)
  write_all-Inv (some expected) after event command db db' l h v =
      subst (Inv codec P) (ground arith)
        (update-Inv expected after event command db l (ground arith) v)
