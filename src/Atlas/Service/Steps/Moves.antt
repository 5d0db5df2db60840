-- ===== src/Atlas/Service/Steps/Moves.antt =====
-- Every method that returns leads to a next revision of its job.
use nexus_agent_platform.Atlas.Validate.{make_approval}
use nexus_agent_platform.Atlas.Service.Review.{submit_body, review_body, decide_body}
use nexus_agent_platform.Atlas.Service.Bodies.{body}
use nexus_agent_platform.Common.{str_eq_iff, Bool, String, ◌≡◌, arith, ok}
use nexus_agent_platform.Atlas.Models.{
  ReviewResult, StructuredResult, ApprovalDecision, FailureClassification, ActorIdentity, Job,
}
use nexus_agent_platform.Atlas.StateMachine.{require_transition}
use nexus_agent_platform.Atlas.Validate.Lifecycle.{updated}
use nexus_agent_platform.Atlas.Policy.{require_reviewer, Registry}
use nexus_agent_platform.Atlas.Service.Requests.{Operation, Platform, Reading}
use nexus_agent_platform.Atlas.Service.Change.{Change}
use nexus_agent_platform.Atlas.Service.Execution.{
  recover_body, fail_body, complete_body, validate_body, queue_body, start_body,
}
use nexus_agent_platform.Atlas.Service.Steps.Proper.{IsProper, IsNextJob}

module _ (reading : Reading) (actor : ActorIdentity) (job : Job) (p : IsProper job) where
  queue_body-IsNextJob : {c : Change} → queue_body reading actor job ≡ ok c → IsNextJob job c.after
  unfolding queue_body updated require_transition
  queue_body-IsNextJob {c} h = ground arith

  start_body-IsNextJob :
      (registry : Registry) {c : Change}
      → start_body registry reading actor job ≡ ok c
      → IsNextJob job c.after
  unfolding start_body updated require_transition
  start_body-IsNextJob registry {c} h = ground arith

  validate_body-IsNextJob :
      (registry : Registry) {c : Change}
      → validate_body registry reading actor job ≡ ok c
      → IsNextJob job c.after
  unfolding validate_body updated require_transition
  validate_body-IsNextJob registry {c} h = ground arith

  complete_body-IsNextJob :
      {c : Change} → complete_body reading actor job ≡ ok c → IsNextJob job c.after
  unfolding complete_body updated require_transition
  complete_body-IsNextJob {c} h = ground arith

  recover_body-IsNextJob :
      {c : Change} → recover_body reading actor job ≡ ok c → IsNextJob job c.after
  unfolding recover_body updated require_transition
  recover_body-IsNextJob {c} h = ground arith

  fail_body-IsNextJob :
      (registry : Registry) (classification : FailureClassification) (message : String)
      (retryable : Bool) {c : Change}
      → fail_body registry classification message retryable reading actor job ≡ ok c
      → IsNextJob job c.after
  unfolding fail_body updated require_transition
  fail_body-IsNextJob registry classification message retryable {c} h = ground arith

  submit_body-IsNextJob :
      {T : Type 0} (platform : Platform T) (result : StructuredResult) {c : Change}
      → submit_body platform result reading actor job ≡ ok c
      → IsNextJob job c.after
  unfolding submit_body updated require_transition
  submit_body-IsNextJob platform result {c} h = ground arith

  review_body-IsNextJob :
      (registry : Registry) (review : ReviewResult) {c : Change}
      → review_body registry review reading actor job ≡ ok c
      → IsNextJob job c.after
  unfolding review_body updated require_transition require_reviewer
  review_body-IsNextJob registry review {c} h = ground (
    arith,
    str_eq_iff review.reviewer_agent_id actor.actor_id,
    str_eq_iff actor.actor_id job.reviewer_agent_id,
  )

  decide_body-IsNextJob :
      (decision : ApprovalDecision) (reason : String) {c : Change}
      → decide_body decision reason reading actor job ≡ ok c
      → IsNextJob job c.after
  unfolding decide_body updated require_transition make_approval
  decide_body-IsNextJob decision reason {c} h = ground arith

  -- Whatever the method, if it succeeds on a proper job, the job that it returns is the same job
  -- at the next revision, one link of the lifecycle or a review further, valid and proper.
  pub body-IsNextJob :
      {T : Type 0} (platform : Platform T) (operation : Operation) {c : Change}
      → body platform operation reading actor job ≡ ok c
      → IsNextJob job c.after
  unfolding body
  body-IsNextJob platform Operation.validate h = validate_body-IsNextJob platform.registry h
  body-IsNextJob platform Operation.queue h = queue_body-IsNextJob h
  body-IsNextJob platform Operation.start h = start_body-IsNextJob platform.registry h
  body-IsNextJob platform Operation.complete h = complete_body-IsNextJob h
  body-IsNextJob platform Operation.recover_expired h = recover_body-IsNextJob h
  body-IsNextJob platform (Operation.submit_result r) h = submit_body-IsNextJob platform r h
  body-IsNextJob platform (Operation.record_review r) h =
      review_body-IsNextJob platform.registry r h
  body-IsNextJob platform (Operation.approve reason) h =
      decide_body-IsNextJob ApprovalDecision.approved reason h
  body-IsNextJob platform (Operation.reject reason) h =
      decide_body-IsNextJob ApprovalDecision.rejected reason h
  body-IsNextJob platform (Operation.fail cl m r) h = fail_body-IsNextJob platform.registry cl m r h
