-- ===== src/Atlas/Service/Bodies.antt =====
-- The body of each method on an existing job, by the operation of the request.
use nexus_agent_platform.Atlas.Models.{ActorIdentity, ApprovalDecision, Job}
use nexus_agent_platform.Atlas.Errors.{Outcome}
use nexus_agent_platform.Atlas.Service.Requests.{Operation, Platform, Reading}
use nexus_agent_platform.Atlas.Service.Change.{Change}
use nexus_agent_platform.Atlas.Service.Execution.{
  validate_body, queue_body, start_body, complete_body, fail_body, recover_body,
}
use nexus_agent_platform.Atlas.Service.Review.{submit_body, review_body, decide_body}

-- The body of the method that a request names
unfoldable pub body :
    {T : Type 0} → Platform T → Operation → Reading → ActorIdentity → Job → Outcome Change
body platform Operation.validate = validate_body platform.registry
body platform Operation.queue = queue_body
body platform Operation.start = start_body platform.registry
body platform Operation.complete = complete_body
body platform Operation.recover_expired = recover_body
body platform (Operation.submit_result result) = submit_body platform result
body platform (Operation.record_review review) = review_body platform.registry review
body platform (Operation.approve reason) = decide_body ApprovalDecision.approved reason
body platform (Operation.reject reason) = decide_body ApprovalDecision.rejected reason
body platform (Operation.fail classification message retryable) =
    fail_body platform.registry classification message retryable
