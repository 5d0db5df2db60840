-- ===== src/Atlas/Examples/Guarantees.antt =====
-- The guarantees over whole stores, at the store of the example.
use nexus_agent_platform.Common.{◌+◌, ◌≡◌, refl, inl, false, none, some, List, [], ◌∷◌, ok, err}
use mathlib.Core.List.{Memᴰ}
use nexus_agent_platform.Atlas.Examples.{
  blank_job, job_of, any_text, Json, platform, platform-IsFaithful, approved_db, at, code,
  database_of, engineer, operator, runs, step_of, to_approval, to_start,
}
use nexus_agent_platform.Atlas.Errors.{Outcome, concurrency}
use nexus_agent_platform.Atlas.Models.{
  AuditData, AuditEventType, JobStatus, AuditEvent, CommandRecord, FailureClassification, Job,
}
use nexus_agent_platform.Atlas.Storage.Read.{get_job, integrity_check, list_audit_events}
use nexus_agent_platform.Atlas.Storage.History.{Log}
use nexus_agent_platform.Atlas.Storage.Tables.{Database, empty_database, find_command}
use nexus_agent_platform.Atlas.Validate.WellFormed.{IsWellFormed}
use nexus_agent_platform.Atlas.Service.Requests.{Operation}
use nexus_agent_platform.Atlas.Service.Plans.{
  make_command, event_record, Command, Plan, replay, write, commit, execute, plan,
}
use nexus_agent_platform.Atlas.Service.Pending.Planning.{IsNormalPlan}
use nexus_agent_platform.Atlas.Service.Pending.Growth.{Grows}
use nexus_agent_platform.Atlas.Service.Runs.{finish, Run, Reached, System, here, make, next}
use nexus_agent_platform.Atlas.Service.Runs.Guarantees.{
  IsApproved, Reached-IsApproved, Reached-IsWellFormed, Reached-append_only, Reached-history,
  Reached-integrity,
}
use nexus_agent_platform.Atlas.Service.Runs.Replay.{replayed_command}
use nexus_agent_platform.Atlas.Service.Runs.Conflict.{second_writer_refused}
use nexus_agent_platform.Atlas.Service.Runs.Sequential.{execute_all, execute_all-Run}

abbrev start : System Json
start = record { db = empty_database; plans = [] }

any_plan : (p : Plan) → IsNormalPlan any_text p
any_plan (replay job) = tt
any_plan (write expected after event command) = (tt, tt)

history :
    (plans : List Plan) × Run platform any_text start (record { db = approved_db; plans = plans })
history = execute_all-Run platform any_text any_plan to_approval start approved_db runs

abbrev final : System Json
final = record { db = approved_db; plans = history.0 }

abbrev approved_job : Job
approved_job = job_of (get_job platform.codec 7 approved_db)

stored : get_job platform.codec 7 approved_db ≡ ok approved_job
unfolding code execute_all
stored = refl

is_approved : approved_job.status ≡ JobStatus.approved
unfolding code execute_all
is_approved = refl

Reached-integrity_example : integrity_check platform.codec approved_db ≡ ok tt
Reached-integrity_example = Reached-integrity platform any_text platform-IsFaithful final history.1

Reached-history_example :
    (log : List AuditEvent) × (list_audit_events platform.codec 7 approved_db ≡ ok log)
    × Log 0 none log (approved_job.revision + 1) (some approved_job.status)
Reached-history_example =
    Reached-history platform any_text platform-IsFaithful final 7 approved_job history.1 stored

Reached-IsWellFormed_example : IsWellFormed approved_job
Reached-IsWellFormed_example =
    Reached-IsWellFormed platform any_text platform-IsFaithful final 7 approved_job history.1 stored

Reached-IsApproved_example : IsApproved approved_job
Reached-IsApproved_example =
    Reached-IsApproved platform any_text platform-IsFaithful final 7 approved_job history.1 stored
      (inl is_approved)

abbrev queued_db : Database Json
queued_db = database_of (execute_all platform to_start empty_database)

queued_runs : execute_all platform to_start empty_database ≡ ok queued_db
unfolding execute_all code
queued_runs = refl

queued_history :
    (plans : List Plan) × Run platform any_text start (record { db = queued_db; plans = plans })
queued_history = execute_all-Run platform any_text any_plan to_start start queued_db queued_runs

abbrev queued : System Json
queued = record { db = queued_db; plans = queued_history.0 }

-- Two plans on the queued job: its agent starts it, and the operator gives it up.
abbrev planned : Outcome Plan → Plan
planned (ok p) = p
planned (err e) = replay blank_job

abbrev after_of : Plan → Job
after_of (replay job) = job
after_of (write expected after event command) = after

abbrev event_of : Plan → AuditEvent
event_of (replay job) =
    event_record platform none blank_job AuditEventType.job_created operator ""
      (AuditData.transition "")
event_of (write expected after event command) = event

abbrev command_of : Plan → CommandRecord
command_of (replay job) = make_command platform "" "" "" blank_job 0
command_of (write expected after event command) = command

abbrev start_command : Command
start_command = step_of Operation.start "command-3" 2 engineer

abbrev fail_command : Command
fail_command =
    step_of (Operation.fail FailureClassification.cancelled "Not needed" false) "command-9" 2
      operator

abbrev start_plan : Plan
start_plan = planned (plan platform (at 40 8) start_command queued_db queued_db)

abbrev fail_plan : Plan
fail_plan = planned (plan platform (at 41 0) fail_command queued_db queued_db)

abbrev as_write : Plan → Plan
as_write p = write (some 2) (after_of p) (event_of p) (command_of p)

start_planned : plan platform (at 40 8) start_command queued_db queued_db ≡ ok (as_write start_plan)
unfolding code execute_all
start_planned = refl

fail_planned : plan platform (at 41 0) fail_command queued_db queued_db ≡ ok (as_write fail_plan)
unfolding code execute_all
fail_planned = refl

abbrev committed : Outcome (Job × Database Json) → Job × Database Json
committed (ok r) = r
committed (err e) = (blank_job, empty_database)

abbrev started : Job × Database Json
started = committed (commit platform (as_write start_plan) queued_db)

start_committed : commit platform (as_write start_plan) queued_db ≡ ok (started.0, started.1)
unfolding code execute_all
start_committed = refl

abbrev both : System Json
both = record { db = queued_db; plans = as_write fail_plan ∷ as_write start_plan ∷ queued.plans }

both-Reached : Reached platform any_text both
both-Reached =
    next
      (next queued_history.1
        (make here (at 40 8) start_command (as_write start_plan) start_planned (tt, tt)))
      (make here (at 41 0) fail_command (as_write fail_plan) fail_planned (tt, tt))

start_is_new : find_command (command_of start_plan).command_id queued_db.commands ≡ none
unfolding code execute_all
start_is_new = refl

-- Between its two reads a command is committed by another control plane: it is refused.
late_read : plan platform (at 40 8) start_command queued_db started.1 ≡ err concurrency
unfolding code execute_all
late_read = refl

fail_is_new : find_command (command_of fail_plan).command_id started.1.commands ≡ none
unfolding code execute_all
fail_is_new = refl

same_job : (after_of fail_plan).job_id ≡ (after_of start_plan).job_id
unfolding code execute_all
same_job = refl

Reached-append_only_example : Grows queued_db started.1
Reached-append_only_example =
    Reached-append_only platform any_text platform-IsFaithful both
      (record { db = started.1; plans = both.plans }) both-Reached
      (next here (
        finish (as_write start_plan) started.0 started.1 (Memᴰ.tail (Memᴰ.head refl))
          start_committed))

second_writer_refused_example : commit platform (as_write fail_plan) started.1 ≡ err concurrency
second_writer_refused_example =
    second_writer_refused platform any_text platform-IsFaithful both
      (record { db = started.1; plans = both.plans }) 2 (after_of start_plan) (after_of fail_plan)
      (event_of start_plan) (event_of fail_plan) (command_of start_plan) (command_of fail_plan)
      started.0 started.1 both-Reached (Memᴰ.tail (Memᴰ.head refl)) (Memᴰ.head refl) same_job
      start_is_new start_committed here fail_is_new

replayed_command_example :
    execute platform (at 99 0) start_command started.1 ≡ ok (started.0, started.1)
replayed_command_example =
    replayed_command platform any_text platform-IsFaithful queued queued
      (record { db = started.1; plans = as_write start_plan ∷ queued.plans }) (at 40 8) (at 99 0)
      start_command (as_write start_plan) started.0 started.1 queued_history.1 here start_planned
      (tt, tt) start_committed here
