-- ===== src/Atlas/Service/Change.antt =====
-- What the methods of AtlasControlPlane share: `_transition`, `_spec`, the lease test.
use nexus_agent_platform.Common.{String, Option, none, some, ok, err, ◌>>=◌, ◌>>◌}
use nexus_agent_platform.Atlas.Models.{
  AuditData, AuditEventType, ExecutionLease, Job, JobSpec, JobStatus,
}
use nexus_agent_platform.Atlas.Capabilities.{canonicalize_capabilities}
use nexus_agent_platform.Atlas.StateMachine.{require_transition}
use nexus_agent_platform.Atlas.Validate.Lifecycle.{updated}
use nexus_agent_platform.Atlas.Errors.{Outcome, command, no_lease}
use nexus_agent_platform.Atlas.Service.Requests.{Reading, now}

-- The next revision of the job with its audit event's type and payload.
pub record Change : Type 0 where
  pub after : Job
  pub event_type : AuditEventType
  pub details : AuditData

abbrev pub change : AuditEventType → AuditData → Job → Outcome Change
change event_type details after =
    ok (record { after = after; event_type = event_type; details = details })

-- `_transition`
unfoldable pub transition : Reading → Job → JobStatus → AuditEventType → String → Outcome Change
transition reading job target event_type reason = do
  require_transition job.status target
  time ← now reading (some job)
  after ← updated (record job { status = target }) time
  change event_type (AuditData.transition reason) after

-- `_spec`: the JobSpec contract puts the capabilities in order once more.
unfoldable pub spec_of : Job → Outcome JobSpec
spec_of job = do
  capabilities ← canonicalize_capabilities job.capabilities
  ok (record {
    agent_id = job.agent_id;
    reviewer_agent_id = job.reviewer_agent_id;
    request = job.request;
    source = job.source;
    budget = job.budget;
    capabilities = capabilities;
  })

-- `if job.active_execution is None: raise`
abbrev pub require_lease : Option ExecutionLease → Outcome ExecutionLease
require_lease none = err (command no_lease)
require_lease (some lease) = ok lease
