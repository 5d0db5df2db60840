-- ===== src/Atlas/Policy.antt =====
-- The agent registry and its checks: atlas/policy.py. `urlsplit` has run: a URL is its parts.
pub mod Repository
pub mod Grants
use nexus_agent_platform.Common.{
  ℕ, ◌+◌, String, Bool, true, false, not, ◌&&◌, ◌||◌, Option, none, some, List, [], ◌∷◌, ◌++◌, ltb,
  ◌==◌, if◌then◌else◌, is_some, any_of, ok, err, ◌>>=◌, ◌>>◌, raise_if, codes, str_eq,
}
use nexus_agent_platform.Atlas.Models.{
  ActorIdentity, ActorType, system, human, agent, AgentPolicy, Capability, patch_create,
  review_submit, ExecutionBudget, Job, JobSpec, Url,
}
use nexus_agent_platform.Atlas.Capabilities.{contains, missing}
use nexus_agent_platform.Atlas.Errors.{
  Error, Outcome, policy, duplicate_policy, not_registered, missing_capabilities, budget_exceeds,
  BudgetField, repository_outside, reviewer_cannot_submit, not_assigned_agent,
  not_assigned_reviewer, not_human, not_operator, not_system,
}

-- `AgentRegistry._policies`: the agents' policies by `agent_id`
abbrev pub Registry : Type 0
Registry = List AgentPolicy

unfoldable pub find_policy : String → Registry → Option AgentPolicy
find_policy agent_id [] = none
find_policy agent_id (p ∷ ps) =
    if str_eq p.agent_id agent_id then some p else find_policy agent_id ps

-- `AgentRegistry.__init__`, which refuses a second policy of one agent
unfoldable pub make_registry : List AgentPolicy → Registry → Outcome Registry
unfolding find_policy
make_registry [] policies = ok policies
make_registry (p ∷ ps) policies =
    let rest = make_registry ps (policies ++ p ∷ []) in
    if is_some (find_policy p.agent_id policies) then err (duplicate_policy p.agent_id) else rest

-- `AgentRegistry.get`
unfoldable pub get : Registry → String → Outcome AgentPolicy
get registry agent_id = elim (find_policy agent_id registry) [
  | some p ↦ ok p
  | none ↦ err (policy (not_registered agent_id))
]

-- `_require_budget_within`: the fields in the order of the model
unfoldable pub require_budget_within : ExecutionBudget → ExecutionBudget → Outcome Unit
require_budget_within requested maximum = do
  raise_if (ltb maximum.max_duration_seconds requested.max_duration_seconds)
      (policy (budget_exceeds BudgetField.duration_seconds))
  raise_if (ltb maximum.max_tool_calls requested.max_tool_calls)
      (policy (budget_exceeds BudgetField.tool_calls))
  raise_if (ltb maximum.max_input_tokens requested.max_input_tokens)
      (policy (budget_exceeds BudgetField.input_tokens))
  raise_if (ltb maximum.max_output_tokens requested.max_output_tokens)
      (policy (budget_exceeds BudgetField.output_tokens))
  raise_if (ltb maximum.max_artifact_bytes requested.max_artifact_bytes)
      (policy (budget_exceeds BudgetField.artifact_bytes))

-- `path.rstrip("/")`
abbrev drop_slash : ℕ → List ℕ → List ℕ
drop_slash c [] = if c == b'/' then [] else c ∷ []
drop_slash c (d ∷ cs) = c ∷ d ∷ cs

unfoldable pub rstrip_slash : List ℕ → List ℕ
rstrip_slash [] = []
rstrip_slash (c ∷ cs) = drop_slash c (rstrip_slash cs)

-- `text == prefix` and `text.startswith(prefix + "/")` in one scan of the code points
unfoldable pub equal_or_below : List ℕ → List ℕ → Bool
equal_or_below [] [] = true
equal_or_below [] (c ∷ cs) = c == b'/'
equal_or_below (p ∷ ps) [] = false
equal_or_below (p ∷ ps) (c ∷ cs) = c == p && equal_or_below ps cs

-- `_repository_within`
unfoldable pub repository_within : Url → Url → Bool
unfolding rstrip_slash equal_or_below
repository_within candidate allowed =
    str_eq candidate.scheme allowed.scheme
    && str_eq candidate.netloc allowed.netloc
    && equal_or_below (rstrip_slash (codes allowed.path)) (rstrip_slash (codes candidate.path))

unfoldable pub raise_missing : List Capability → Outcome Unit
raise_missing [] = ok tt
raise_missing (c ∷ cs) = err (policy (missing_capabilities (c ∷ cs)))

-- `AgentRegistry.validate_job`
unfoldable pub validate_job : Registry → JobSpec → Outcome Unit
validate_job registry spec = do
  assigned ← get registry spec.agent_id
  reviewer ← get registry spec.reviewer_agent_id
  raise_missing (missing spec.capabilities assigned.capabilities)
  require_budget_within spec.budget assigned.max_budget
  raise_if
      (not (any_of (repository_within spec.source.repository_url) assigned.repository_prefixes))
      (policy repository_outside)
  raise_if (not (contains review_submit reviewer.capabilities)) (policy reviewer_cannot_submit)

abbrev is_agent : ActorType → Bool
is_agent agent = true
is_agent _ = false

-- `require_assigned_agent`
unfoldable pub require_assigned_agent : Registry → Job → ActorIdentity → Outcome Unit
require_assigned_agent registry job actor = do
  raise_if (not (is_agent actor.actor_type) || not (str_eq actor.actor_id job.agent_id))
      (policy not_assigned_agent)
  found ← get registry actor.actor_id
  ok tt

-- `require_reviewer`
unfoldable pub require_reviewer : Registry → Job → ActorIdentity → Outcome Unit
require_reviewer registry job actor = do
  raise_if (not (is_agent actor.actor_type) || not (str_eq actor.actor_id job.reviewer_agent_id))
      (policy not_assigned_reviewer)
  found ← get registry actor.actor_id
  raise_if (not (contains review_submit found.capabilities)) (policy reviewer_cannot_submit)

unfoldable pub require_human : ActorIdentity → Outcome Unit
require_human actor = elim actor.actor_type [ human ↦ ok tt | _ ↦ err (policy not_human) ]

unfoldable pub require_operator : ActorIdentity → Outcome Unit
require_operator actor = elim actor.actor_type [ agent ↦ err (policy not_operator) | _ ↦ ok tt ]

unfoldable pub require_system : ActorIdentity → Outcome Unit
require_system actor = elim actor.actor_type [ system ↦ ok tt | _ ↦ err (policy not_system) ]
