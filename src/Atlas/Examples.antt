-- ===== src/Atlas/Examples.antt =====
-- A control plane at work: one agent, its reviewer, an operator and a human take a job from its
-- creation to its approval. Tests of the definitions, and the theorems at these inputs.
mod Guarantees
mod Conditions
use nexus_agent_platform.Atlas.Errors.{Outcome}
use nexus_agent_platform.Common.{
  ℕ, ◌+◌, ◌*◌, String, ◌≡◌, refl, Option, none, some, List, [], ◌∷◌, ◌++◌, ok, err, pos,
}
use nexus_agent_platform.Atlas.Service.Bodies.{body}
use nexus_agent_platform.Atlas.Service.Review.{check_result, decide_body, review_body, submit_body}
use nexus_agent_platform.Atlas.Service.Execution.{
  complete_body, fail_body, make_failure, queue_body, recover_body, start_body, validate_body,
}
use nexus_agent_platform.Atlas.Service.Change.{spec_of, transition}
use nexus_agent_platform.Atlas.Storage.Write.{
  write_all, write_job, write_event, command_row, count_rows, create, event_row, job_row, persist,
  update, update_rows,
}
use nexus_agent_platform.Atlas.Storage.Read.{
  lookup_command, command_response, get_job, job_from_row,
}
use nexus_agent_platform.Atlas.StateMachine.{require_transition, valid_transitions}
use nexus_agent_platform.Atlas.Policy.{
  require_operator, equal_or_below, find_policy, get, raise_missing, repository_within,
  require_assigned_agent, require_budget_within, require_human, require_reviewer, require_system,
  rstrip_slash, validate_job,
}
use nexus_agent_platform.Atlas.Capabilities.{
  validate_capabilities, has_duplicates, sorted, canonicalize_capabilities, missing,
}
use nexus_agent_platform.Atlas.Validate.Events.{validate_event_shape}
use nexus_agent_platform.Atlas.Validate.Lifecycle.{validate_job_record, validate_lifecycle, updated}
use nexus_agent_platform.Atlas.Validate.{
  check_command_id, valid_command_id, make_approval, make_lease, valid_short_text,
}
use nexus_agent_platform.Atlas.Models.{
  ActorIdentity, system, human, agent, AgentPolicy, AuditEvent, Capability, patch_create,
  source_read, review_submit, ExecutionBudget, Job, JobSpec, StructuredResult, generic,
  ReviewResult, ReviewVerdict, Url,
}
use nexus_agent_platform.Atlas.Storage.Tables.{Database, empty_database, find_command, find_job}
use nexus_agent_platform.Atlas.Service.Requests.{Operation, Platform, Reading, aware, now}
use nexus_agent_platform.Atlas.Service.Plans.{
  Command, create_job, on_job, commit, creation_at, event_record, execute, make_command, make_event,
  new_job, persist_plan, plan, plan_creation, plan_request, prepare, prepare_at,
}
use nexus_agent_platform.Atlas.Service.Pending.{Normality, IsFaithful}
use nexus_agent_platform.Atlas.Service.Runs.Sequential.{execute_all}

pub data Json : Type 0 where
  job : Job → Json
  event : AuditEvent → Json

abbrev pub read_job : Json → Option Job
read_job (job j) = some j
read_job (event e) = none

abbrev pub read_event : Json → Option AuditEvent
read_event (job j) = none
read_event (event e) = some e

abbrev pub url : Url
url = record {
  scheme = "https";
  netloc = "github.com";
  path = "/nexus/platform";
  username = none;
  password = none;
  query = none;
  fragment = none;
}

abbrev pub budget : ExecutionBudget
budget = record {
  max_duration_seconds = 60;
  max_tool_calls = 10;
  max_input_tokens = 100;
  max_output_tokens = 100;
  max_artifact_bytes = 1000;
}

abbrev pub policy_of : String → List Capability → AgentPolicy
policy_of name capabilities = record {
  agent_id = name;
  runtime_kind = "local";
  runtime_version = "1";
  capabilities = capabilities;
  max_budget = budget;
  repository_prefixes = record url { path = "/nexus/" } ∷ [];
}

abbrev pub platform : Platform Json
platform = record {
  registry =
      policy_of "engineer" (patch_create ∷ source_read ∷ [])
      ∷ policy_of "reviewer" (review_submit ∷ [])
      ∷ [];
  codec = record {
    dump_job = job;
    load_job = read_job;
    dump_event = event;
    load_event = read_event;
  };
  canonical_sha256 = λ h. "digest";
  event_uuid = λ id sequence command_id. 1000 * id + sequence;
}

abbrev pub any_text : Normality
any_text = record { job = λ j. Unit; event = λ e. Unit }

pub platform-IsFaithful : IsFaithful platform.codec any_text
platform-IsFaithful = record { job_round_trip = λ j n v. refl; event_round_trip = λ e n v. refl }

abbrev pub task : JobSpec
task = record {
  agent_id = "engineer";
  reviewer_agent_id = "reviewer";
  request = record {
    task_type = "bug";
    title = "Fix the parser";
    instructions = "Make the failing test pass";
    acceptance_criteria = [];
    inputs = [];
  };
  source = record { repository_url = url; commit_sha = "abc"; ref = none };
  budget = budget;
  capabilities = patch_create ∷ source_read ∷ [];
}

abbrev pub operator : ActorIdentity
operator = record { actor_type = system; actor_id = "operator" }

abbrev pub engineer : ActorIdentity
engineer = record { actor_type = agent; actor_id = "engineer" }

abbrev pub reviewer : ActorIdentity
reviewer = record { actor_type = agent; actor_id = "reviewer" }

abbrev pub owner : ActorIdentity
owner = record { actor_type = human; actor_id = "owner" }

abbrev pub at : ℕ → ℕ → Reading
at time id = record { clock = aware time; fresh_id = id }

abbrev pub step_of : Operation → String → ℕ → ActorIdentity → Command
step_of operation command_id revision actor = on_job (record {
  operation = operation;
  job_id = 7;
  command_id = command_id;
  expected_revision = pos revision;
  actor = actor;
})

abbrev pub outcome : StructuredResult
outcome = generic (record { summary = "Fixed"; artifacts = []; checks = [] })

abbrev pub verdict : ReviewResult
verdict = record {
  review_id = 50;
  reviewer_agent_id = "reviewer";
  verdict = ReviewVerdict.passed;
  summary = "Verified";
  evidence = [];
  created_at = 60;
}

abbrev pub to_start : List (Reading × Command)
to_start =
    (at 10 7, create_job task "command-0" operator)
    ∷ (at 20 0, step_of Operation.validate "command-1" 0 operator)
    ∷ (at 30 0, step_of Operation.queue "command-2" 1 operator)
    ∷ []

abbrev pub to_approval : List (Reading × Command)
to_approval =
    to_start
    ++ (at 40 8, step_of Operation.start "command-3" 2 engineer)
      ∷ (at 50 0, step_of (Operation.submit_result outcome) "command-4" 3 engineer)
      ∷ (at 60 0, step_of (Operation.record_review verdict) "command-5" 4 reviewer)
      ∷ (at 70 9, step_of (Operation.approve "Good") "command-6" 5 owner)
      ∷ []

abbrev pub database_of : Outcome (Database Json) → Database Json
database_of (ok db) = db
database_of (err e) = empty_database

abbrev pub approved_db : Database Json
approved_db = database_of (execute_all platform to_approval empty_database)

-- What a test unfolds to run the whole of the code.
pub code : ℕ
unfolding check_command_id valid_command_id make_approval make_lease valid_short_text
    validate_job_record validate_lifecycle updated validate_event_shape validate_capabilities
    has_duplicates sorted canonicalize_capabilities missing require_operator equal_or_below
    find_policy get raise_missing repository_within require_assigned_agent require_budget_within
    require_human require_reviewer require_system rstrip_slash validate_job require_transition
    valid_transitions find_command find_job lookup_command command_response get_job job_from_row
    write_all write_job write_event command_row count_rows create event_row job_row persist update
    update_rows now spec_of transition complete_body fail_body make_failure queue_body recover_body
    start_body validate_body check_result decide_body review_body submit_body body commit
    creation_at event_record execute make_command make_event new_job persist_plan plan plan_creation
    plan_request prepare prepare_at
code = 0

pub runs : execute_all platform to_approval empty_database ≡ ok approved_db
unfolding execute_all code
runs = refl

abbrev pub blank_job : Job
blank_job = new_job platform task "" 0 0

abbrev pub job_of : Outcome Job → Job
job_of (ok found) = found
job_of (err e) = blank_job
