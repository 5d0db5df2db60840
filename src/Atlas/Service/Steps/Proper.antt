-- ===== src/Atlas/Service/Steps/Proper.antt =====
-- Who reviewed and who decided: what the contracts do not check and the control plane sees to.
use nexus_agent_platform.Common.{◌+◌, ◌≡◌, Bool, true, false, Option, none, some, ok}
use nexus_agent_platform.Atlas.Models.{ApprovalDecision, human, Job, JobStatus, ReviewResult}
use nexus_agent_platform.Atlas.Validate.Lifecycle.{decides, validate_job_record}
use nexus_agent_platform.Atlas.Service.Review.{is_passed}
use nexus_agent_platform.Atlas.Storage.History.{Linked}

abbrev pub OnSome : {A : Type 0} → (A → Type 0) → Option A → Type 0
OnSome P none = Unit
OnSome P (some a) = P a

abbrev pub verdict_passed : Option ReviewResult → Bool
verdict_passed none = false
verdict_passed (some r) = is_passed r.verdict

abbrev pub is_approved : JobStatus → Bool
is_approved JobStatus.approved = true
is_approved _ = false

pub record IsProper (j : Job) : Type 0 where
  pub by_reviewer : OnSome (λ r. r.reviewer_agent_id ≡ j.reviewer_agent_id) j.review
  pub by_human : OnSome (λ a. a.decided_by.actor_type ≡ human) j.approval
  pub after_pass :
      decides ApprovalDecision.approved j.approval ≡ true → verdict_passed j.review ≡ true
  pub as_decided : is_approved j.status ≡ true → decides ApprovalDecision.approved j.approval ≡ true

-- The next revision of a job: the same job, one link further, valid and proper.
pub record IsNextJob (before after : Job) : Type 0 where
  pub same_job : after.job_id ≡ before.job_id
  pub next_revision : after.revision ≡ before.revision + 1
  pub linked : Linked (some before.status) after.status
  pub valid : validate_job_record after ≡ ok tt
  pub proper : IsProper after
