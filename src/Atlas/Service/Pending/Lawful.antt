-- ===== src/Atlas/Service/Pending/Lawful.antt =====
-- A pending plan is lawful for the tables, whenever it is committed.
use nexus_agent_platform.Common.{ℕ, ◌≡◌, refl, subst, Option, none, some, arith, ok, str_eq_iff}
use nexus_agent_platform.Atlas.Models.{AuditEvent, CommandRecord, Job}
use nexus_agent_platform.Atlas.Storage.Tables.{Codec, JobRow, Database}
use nexus_agent_platform.Atlas.Storage.Transaction.{IsLawful, Fits}
use nexus_agent_platform.Atlas.Storage.Read.{job_from_row, event_from_row, command_response}
use nexus_agent_platform.Atlas.Storage.Write.{job_row, event_row, command_row}
use nexus_agent_platform.Atlas.Service.Plans.{write}
use nexus_agent_platform.Atlas.Service.Pending.{IsSound, Base, Pending}

module _ {T : Type 0} (codec : Codec T) where
  job_row-read :
      (job : Job)
      → codec.load_job (codec.dump_job job) ≡ some job
      → job_from_row codec (job_row codec job) ≡ ok job
  unfolding job_from_row job_row
  job_row-read job h = ground arith

  event_row-read :
      (event : AuditEvent)
      → codec.load_event (codec.dump_event event) ≡ some event
      → event_from_row codec (event_row codec event) ≡ ok event
  unfolding event_from_row event_row
  event_row-read event h = ground arith

  pub command_row-read :
      (command : CommandRecord) (job : Job)
      → codec.load_job (codec.dump_job job) ≡ some job
      → command.job_id ≡ job.job_id
      → command.response_revision ≡ job.revision
      → command_response codec
          (command_row codec command job)
          command.operation
          command.request_sha256
        ≡ ok job
  unfolding command_response command_row
  command_row-read command job h i r = rw h (
      ground (
        arith,
        (str_eq_iff command.operation command.operation).1 refl,
        (str_eq_iff command.request_sha256 command.request_sha256).1 refl,
      ))

  Base-Fits :
      (expected : Option ℕ) (after : Job) (event : AuditEvent) (db : Database T)
      → Base codec expected after event db
      → Fits codec IsSound expected after event db
  Base-Fits none after event db b = b
  Base-Fits (some expected) after event db b = (
    b.0,
    b.1,
    b.2,
    b.3,
    λ row found due.
        let same : b.4.row ≡ row = cc (b.4.found) in
        subst (λ (r : JobRow T). r.revision ≡ expected → r.status ≡ b.0) same b.4.agrees due,
  )

  pub Pending-IsLawful :
      (expected : Option ℕ) (after : Job) (event : AuditEvent) (command : CommandRecord)
      (db : Database T)
      → Pending codec (write expected after event command) db
      → IsLawful codec IsSound expected after event command db
  Pending-IsLawful expected after event command db p = record {
    stored = job_row-read after p.0;
    recorded = event_row-read event p.1;
    answered = command_row-read command after p.0 p.3 p.4;
    kept = p.2;
    same_job = p.5;
    at_revision = p.6;
    in_sequence = p.7;
    to_target = p.8;
    fits = Base-Fits expected after event db p.9;
  }
