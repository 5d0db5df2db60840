-- ===== src/Atlas/Policy/Grants.antt =====
-- What the validation of a job grants, and that it grants it exactly then.
use nexus_agent_platform.Common.{
  ◌↔◌, Option-cases, inl, inr, ◌≤◌, ◌≡◌, refl, ◌↔◌, inl, inr, true, some, List, [], ◌∷◌, arith,
  Option-cases, any_of, ok,
}
use nexus_agent_platform.Atlas.Models.{
  AgentPolicy, Capability, ExecutionBudget, JobSpec, review_submit,
}
use nexus_agent_platform.Atlas.Capabilities.{contains, missing}
use nexus_agent_platform.Atlas.Capabilities.Canonical.{missing-nil, missing-eq-nil}
use nexus_agent_platform.Atlas.Policy.{
  Registry, find_policy, get, require_budget_within, raise_missing, repository_within, validate_job,
}

pub record IsWithinBudget (requested maximum : ExecutionBudget) : Type 0 where
  pub duration : requested.max_duration_seconds ≤ maximum.max_duration_seconds
  pub tool_calls : requested.max_tool_calls ≤ maximum.max_tool_calls
  pub input_tokens : requested.max_input_tokens ≤ maximum.max_input_tokens
  pub output_tokens : requested.max_output_tokens ≤ maximum.max_output_tokens
  pub artifact_bytes : requested.max_artifact_bytes ≤ maximum.max_artifact_bytes

require_budget_within_iff :
    (requested maximum : ExecutionBudget)
    → (require_budget_within requested maximum ≡ ok tt) ↔ IsWithinBudget requested maximum
unfolding require_budget_within
require_budget_within_iff requested maximum = (λ h. ground arith, λ h. ground arith)

raise_missing_iff : (l : List Capability) → (raise_missing l ≡ ok tt) ↔ (l ≡ [])
unfolding raise_missing
raise_missing_iff [] = (λ h. refl, λ h. refl)
raise_missing_iff (c ∷ cs) = (λ h. cc, λ h. cc)

-- The policies of a job's agent and of its reviewer, and what they grant.
pub record IsGranted (registry : Registry) (spec : JobSpec) : Type 0 where
  pub assigned : AgentPolicy
  pub reviewer : AgentPolicy
  pub assigned_found : find_policy spec.agent_id registry ≡ some assigned
  pub reviewer_found : find_policy spec.reviewer_agent_id registry ≡ some reviewer
  pub held :
      (c : Capability)
      → contains c spec.capabilities ≡ true
      → contains c assigned.capabilities ≡ true
  pub within_budget : IsWithinBudget spec.budget assigned.max_budget
  pub inside :
      any_of (repository_within spec.source.repository_url) assigned.repository_prefixes ≡ true
  pub may_review : contains review_submit reviewer.capabilities ≡ true

validate_job-IsGranted :
    (registry : Registry) (spec : JobSpec)
    → validate_job registry spec ≡ ok tt
    → IsGranted registry spec
unfolding validate_job get
validate_job-IsGranted registry spec h = elim (Option-cases (find_policy spec.agent_id registry)) [
  | inl e ↦ absurd (ground (arith, e))
  | inr (a, e) ↦ elim (Option-cases (find_policy spec.reviewer_agent_id registry)) [
    | inl e' ↦ absurd (ground (arith, e, e'))
    | inr (r, e') ↦ record {
      assigned = a;
      reviewer = r;
      assigned_found = e;
      reviewer_found = e';
      held = missing-nil spec.capabilities a.capabilities (
          (raise_missing_iff (missing spec.capabilities a.capabilities)).0 (ground (arith, e, e')));
      within_budget =
          (require_budget_within_iff spec.budget a.max_budget).0 (ground (arith, e, e'));
      inside = ground (arith, e, e');
      may_review = ground (arith, e, e');
    }
  ]
]

validate_job_of_IsGranted :
    (registry : Registry) (spec : JobSpec)
    → IsGranted registry spec
    → validate_job registry spec ≡ ok tt
unfolding validate_job get
validate_job_of_IsGranted registry spec g = ground (
  arith,
  g.assigned_found,
  g.reviewer_found,
  g.inside,
  g.may_review,
  (require_budget_within_iff spec.budget g.assigned.max_budget).1 g.within_budget,
  (raise_missing_iff (missing spec.capabilities g.assigned.capabilities)).1
      (missing-eq-nil spec.capabilities g.assigned.capabilities g.held),
)

-- The policy grants a job exactly when agent and reviewer are registered, the agent holds every
-- capability asked for and has at least the budget in each of the five bounds, the repository is
-- within one of its prefixes, and the reviewer may submit reviews.
pub validate_job_iff :
    (registry : Registry) (spec : JobSpec)
    → (validate_job registry spec ≡ ok tt) ↔ IsGranted registry spec
validate_job_iff registry spec =
    (validate_job-IsGranted registry spec, validate_job_of_IsGranted registry spec)
