-- ===== src/Atlas/StateMachine.antt =====
-- The lifecycle of a job: VALID_TRANSITIONS and `require_transition` of atlas/state_machine.py.
pub mod Paths
use nexus_agent_platform.Common.{
  ℕ, Bool, true, false, not, List, [], ◌∷◌, any_of, ok, err, ◌==◌, if◌then◌else◌, raise_if,
}
use nexus_agent_platform.Atlas.Models.{JobStatus}
use nexus_agent_platform.Atlas.Errors.{Outcome, invalid_transition}

abbrev pub status_index : JobStatus → ℕ
status_index JobStatus.created = 0
status_index JobStatus.validated = 1
status_index JobStatus.queued = 2
status_index JobStatus.running = 3
status_index JobStatus.awaiting_review = 4
status_index JobStatus.approved = 5
status_index JobStatus.rejected = 6
status_index JobStatus.completed = 7
status_index JobStatus.failed = 8

-- `a is b`
abbrev pub same_status : JobStatus → JobStatus → Bool
same_status a b = status_index a == status_index b

-- VALID_TRANSITIONS
unfoldable pub valid_transitions : JobStatus → List JobStatus
valid_transitions JobStatus.created = JobStatus.validated ∷ JobStatus.failed ∷ []
valid_transitions JobStatus.validated = JobStatus.queued ∷ JobStatus.failed ∷ []
valid_transitions JobStatus.queued = JobStatus.running ∷ JobStatus.failed ∷ []
valid_transitions JobStatus.running =
    JobStatus.awaiting_review ∷ JobStatus.queued ∷ JobStatus.failed ∷ []
valid_transitions JobStatus.awaiting_review =
    JobStatus.approved ∷ JobStatus.rejected ∷ JobStatus.failed ∷ []
valid_transitions JobStatus.approved = JobStatus.completed ∷ JobStatus.failed ∷ []
valid_transitions JobStatus.rejected = JobStatus.failed ∷ []
valid_transitions JobStatus.completed = []
valid_transitions JobStatus.failed = []

abbrev pub permitted : JobStatus → JobStatus → Bool
unfolding valid_transitions
permitted current target = any_of (same_status target) (valid_transitions current)

unfoldable pub require_transition : JobStatus → JobStatus → Outcome Unit
unfolding valid_transitions
require_transition current target =
    raise_if (not (any_of (same_status target) (valid_transitions current)))
      (invalid_transition current target)
