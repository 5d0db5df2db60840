-- ===== src/Atlas/Examples/Conditions.antt =====
-- The conditions of the single methods, at jobs of the example.
use nexus_agent_platform.Common.{◌+◌, ◌≡◌, refl, ◌≢◌, ◌↔◌, inl, true, List, [], ◌∷◌, ◌++◌, ok, err}
use nexus_agent_platform.Atlas.Examples.{
  Url, platform, blank_job, job_of, at, code, database_of, engineer, operator, owner, step_of, task,
  to_approval, to_start, url,
}
use nexus_agent_platform.Atlas.Errors.{Outcome}
use nexus_agent_platform.Atlas.Models.{
  ApprovalDecision, AuditData, AuditEventType, Capability, patch_create, source_read, Job,
  JobStatus,
}
use nexus_agent_platform.Atlas.Capabilities.{
  canonicalize_capabilities, contains, validate_capabilities,
}
use nexus_agent_platform.Atlas.Capabilities.Canonical.{canonicalize-validate_capabilities}
use nexus_agent_platform.Atlas.StateMachine.{require_transition, valid_transitions}
use nexus_agent_platform.Atlas.StateMachine.Paths.{Visits, Walk, completed_walk, here, onward}
use nexus_agent_platform.Atlas.Policy.{repository_within, validate_job}
use nexus_agent_platform.Atlas.Policy.Repository.{Within, repository_within_iff}
use nexus_agent_platform.Atlas.Policy.Grants.{IsGranted, validate_job_iff}
use nexus_agent_platform.Atlas.Storage.Read.{get_job}
use nexus_agent_platform.Atlas.Storage.Tables.{empty_database}
use nexus_agent_platform.Atlas.Validate.Lifecycle.{validate_job_record, validate_lifecycle}
use nexus_agent_platform.Atlas.Validate.WellFormed.{IsWellFormed, validate_lifecycle_iff}
use nexus_agent_platform.Atlas.Service.Requests.{Operation, Reading}
use nexus_agent_platform.Atlas.Service.Change.{Change}
use nexus_agent_platform.Atlas.Service.Plans.{Command}
use nexus_agent_platform.Atlas.Service.Bodies.{body}
use nexus_agent_platform.Atlas.Service.Execution.{recover_body, seconds, start_body}
use nexus_agent_platform.Atlas.Service.Review.{decide_body}
use nexus_agent_platform.Atlas.Service.Steps.Proper.{IsNextJob, IsProper}
use nexus_agent_platform.Atlas.Service.Steps.Moves.{body-IsNextJob}
use nexus_agent_platform.Atlas.Service.Steps.Authority.{
  IsApprovable, IsLeased, IsRecovered, approve_iff, closed_refused, recover_body-IsRecovered,
  start_body-IsLeased,
}
use nexus_agent_platform.Atlas.Service.Runs.Sequential.{execute_all}

abbrev job_after : List (Reading × Command) → Job
job_after commands =
    job_of (get_job platform.codec 7 (database_of (execute_all platform commands empty_database)))

abbrev queued_job : Job
queued_job = job_after to_start

abbrev to_running : List (Reading × Command)
to_running = to_start ++ (at 40 8, step_of Operation.start "command-3" 2 engineer) ∷ []

abbrev running_job : Job
running_job = job_after to_running

abbrev but_last : List (Reading × Command) → List (Reading × Command)
but_last [] = []
but_last (c ∷ []) = []
but_last (c ∷ d ∷ cs) = c ∷ but_last (d ∷ cs)

abbrev reviewed_job : Job
reviewed_job = job_after (but_last to_approval)

abbrev completed_job : Job
completed_job =
    job_after (to_approval ++ (at 80 0, step_of Operation.complete "command-7" 6 operator) ∷ [])

abbrev change_of : Outcome Change → Change
change_of (ok c) = c
change_of (err e) = record {
  after = blank_job;
  event_type = AuditEventType.job_created;
  details = AuditData.transition "";
}

abbrev start_change : Change
start_change = change_of (start_body platform.registry (at 40 8) engineer queued_job)

start_done : start_body platform.registry (at 40 8) engineer queued_job ≡ ok start_change
unfolding code execute_all
start_done = refl

abbrev late : Reading
late = at (40 + seconds 60) 0

abbrev recover_change : Change
recover_change = change_of (recover_body late operator running_job)

recover_done : recover_body late operator running_job ≡ ok recover_change
unfolding code execute_all
recover_done = refl

running_valid : validate_job_record running_job ≡ ok tt
unfolding code execute_all
running_valid = refl

reviewed_valid : validate_job_record reviewed_job ≡ ok tt
unfolding code execute_all
reviewed_valid = refl

queued-IsProper : IsProper queued_job
unfolding code execute_all
queued-IsProper = record {
  by_reviewer = tt;
  by_human = tt;
  after_pass = λ h. absurd (cc);
  as_decided = λ h. absurd (cc);
}

body_done : body platform Operation.start (at 40 8) engineer queued_job ≡ ok start_change
unfolding code execute_all
body_done = refl

completed_closed : completed_job.status ≡ JobStatus.completed
unfolding code execute_all
completed_closed = refl

body-IsNextJob_example : IsNextJob queued_job start_change.after
body-IsNextJob_example =
    body-IsNextJob (at 40 8) engineer queued_job queued-IsProper platform Operation.start body_done

start_body-IsLeased_example : IsLeased queued_job start_change
start_body-IsLeased_example =
    start_body-IsLeased platform.registry (at 40 8) engineer queued_job start_change start_done

recover_body-IsRecovered_example : IsRecovered late running_job recover_change
recover_body-IsRecovered_example =
    recover_body-IsRecovered late operator running_job recover_change running_valid recover_done

approve_iff_example :
    ((c : Change) × (decide_body ApprovalDecision.approved "Good" (at 70 9) owner reviewed_job
        ≡ ok c))
    ↔ IsApprovable "Good" (at 70 9) owner reviewed_job
approve_iff_example = approve_iff "Good" (at 70 9) owner reviewed_job reviewed_valid

closed_refused_example :
    body platform Operation.start (at 90 1) engineer completed_job ≢ ok start_change
closed_refused_example =
    closed_refused platform Operation.start (at 90 1) engineer completed_job start_change
      (inl completed_closed)

validate_job_iff_example :
    (validate_job platform.registry task ≡ ok tt) ↔ IsGranted platform.registry task
validate_job_iff_example = validate_job_iff platform.registry task

validate_lifecycle_iff_example : (validate_lifecycle running_job ≡ ok tt) ↔ IsWellFormed running_job
validate_lifecycle_iff_example = validate_lifecycle_iff running_job

abbrev prefix : Url
prefix = record url { path = "/nexus/" }

repository_within_iff_example : (repository_within url prefix ≡ true) ↔ Within url prefix
repository_within_iff_example = repository_within_iff url prefix

abbrev mixed : List Capability
mixed = patch_create ∷ source_read ∷ []

abbrev list_of : Outcome (List Capability) → List Capability
list_of (ok l) = l
list_of (err e) = []

abbrev in_order : List Capability
in_order = list_of (canonicalize_capabilities mixed)

mixed_canonical : canonicalize_capabilities mixed ≡ ok in_order
unfolding code execute_all
mixed_canonical = refl

canonicalize-validate_capabilities_example :
    (validate_capabilities in_order ≡ ok tt)
    × ((c : Capability) → contains c in_order ≡ contains c mixed)
canonicalize-validate_capabilities_example =
    canonicalize-validate_capabilities mixed mixed_canonical

to_completion : Walk JobStatus.created JobStatus.completed
unfolding require_transition valid_transitions
to_completion =
    onward {t = JobStatus.approved} {u = JobStatus.completed}
      (onward {t = JobStatus.awaiting_review} {u = JobStatus.approved}
        (onward {t = JobStatus.running} {u = JobStatus.awaiting_review}
          (onward {t = JobStatus.queued} {u = JobStatus.running}
            (onward {t = JobStatus.validated} {u = JobStatus.queued}
              (onward {t = JobStatus.created} {u = JobStatus.validated} here refl) refl)
            refl)
          refl)
        refl)
      refl

completed_walk_example :
    Visits JobStatus.queued to_completion
    × Visits JobStatus.running to_completion
    × Visits JobStatus.awaiting_review to_completion
    × Visits JobStatus.approved to_completion
completed_walk_example = completed_walk to_completion
