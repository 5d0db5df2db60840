-- ===== src/PatchForge/Results.antt =====
-- PatchResult of src/nexus/patchforge/models.py, the record of a whole run, with the contracts of
-- its parts and the result that Atlas gets. Lengths and patterns of texts are not tested here.
pub mod Proposals
use nexus_agent_platform.Common.{
  repeats, is_range, ℕ, zero, suc, ◌+◌, ◌-◌, ◌*◌, ◌≤◌, ◌<◌, String, ◌≡◌, refl, sym, ap, ◌∙◌, subst,
  ◌≢◌, ◌↔◌, ◌⊎◌, inl, inr, Bool, true, false, not, ◌&&◌, ◌||◌, Option, none, some, List, [], ◌∷◌,
  ◌++◌, map, append-nil, append_assoc, arith, ℕ_discrete, ltb, leb, ◌==◌, if◌then◌else◌, ==_iff,
  ==_refl, Bool-cases, if_cases, Option-cases, is_some, length, length-append, map-append, any_of,
  any_of-append, all_of, last_or, last_or-append, count_of, count_of-append, All, All-append,
  All-map, Result, ok, err, ◌>>=◌, ◌>>◌, raise_if, >>=-eq-ok, Result-cases, codes, is_lower,
  is_upper, is_digit, str_eq, str_eq_iff,
}
use nexus_agent_platform.Atlas.Models
use nexus_agent_platform.Atlas.Models.{ArtifactReference, SourceRevision}
use nexus_agent_platform.PatchForge.Models.{
  AgentReport, CheckKind, CheckStatus, ExecutionStatus, FindingSeverity, PatchForgeFailure,
  PatchForgePhase, PatchOutcome, PhaseUsage, ReproductionStatus, RunBudgetUsage, ToolCallRecord,
  ToolCallStatus, kind_number, phase_index, same_phase,
}
use nexus_agent_platform.PatchForge.Policy.{sum_of}
use nexus_agent_platform.PatchForge.Evidence.{
  TestExecution, ReproductionEvidence, CheckResult, DiffSummary, PolicyFinding, RunIdentity,
  PatchResult,
}

-- A ValueError, one constructor for each message
pub data ResultFault : Type 0 where
  call_ends_first execution_ends_first result_ends_first : ResultFault
  successful_with_code unsuccessful_without_code : ResultFault
  passed_exit failed_exit timed_out_exit : ResultFault
  before_must_fail after_must_pass after_cannot_pass only_before_passes no_executions : ResultFault
  only_not_run paths_repeat diff_hash references_repeat : ResultFault
  phases_repeat usage_calls usage_output : ResultFault
  foreign_call foreign_execution sequence_gap : ResultFault
  calls_repeat executions_repeat kinds_repeat findings_repeat : ResultFault
  unknown_reference unknown_call unknown_execution other_kind other_status total_differs :
      ResultFault
  unknown_reproduction no_diff base_differs not_finalized blocking_finding no_reproduction :
      ResultFault
  missing_check unpassed_check no_failure not_proposed : ResultFault

abbrev pub Valid : Type 0
Valid = Result ResultFault (Unit {0})

abbrev repeats_text : List String → Bool
repeats_text [] = false
repeats_text (x ∷ xs) = any_of (str_eq x) xs || repeats_text xs

abbrev is_in : List ℕ → ℕ → Bool
is_in xs x = any_of (λ y. y == x) xs

-- `for x in xs: check(x)`
abbrev pub each : {A : Type 0} → (A → Valid) → List A → Valid
each check [] = ok tt
each check (x ∷ xs) = do check x; each check xs

abbrev has_succeeded : ToolCallStatus → Bool
has_succeeded ToolCallStatus.succeeded = true
has_succeeded _ = false

unfoldable pub validate_timing_and_status : ToolCallRecord → Valid
validate_timing_and_status c = do
  raise_if (ltb c.completed_at c.started_at) ResultFault.call_ends_first
  raise_if (has_succeeded c.status && is_some c.error_code) ResultFault.successful_with_code
  raise_if (not (has_succeeded c.status) && not (is_some c.error_code))
      ResultFault.unsuccessful_without_code

abbrev is_zero : Option ℕ → Bool
is_zero none = false
is_zero (some n) = n == 0

abbrev is_nonzero : Option ℕ → Bool
is_nonzero none = false
is_nonzero (some n) = not (n == 0)

unfoldable pub validate_execution : TestExecution → Valid
validate_execution e = do
  raise_if (ltb e.completed_at e.started_at) ResultFault.execution_ends_first
  elim e.status [
    | ExecutionStatus.passed ↦ raise_if (not (is_zero e.exit_code)) ResultFault.passed_exit
    | ExecutionStatus.failed ↦ raise_if (not (is_nonzero e.exit_code)) ResultFault.failed_exit
    | ExecutionStatus.timed_out ↦ raise_if (is_some e.exit_code) ResultFault.timed_out_exit
    | ExecutionStatus.error ↦ ok tt
  ]

abbrev has_passed : Option TestExecution → Bool
has_passed none = false
has_passed (some e) = elim e.status [ ExecutionStatus.passed ↦ true | _ ↦ false ]

abbrev has_failed : Option TestExecution → Bool
has_failed none = false
has_failed (some e) = elim e.status [ ExecutionStatus.failed ↦ true | _ ↦ false ]

unfoldable pub validate_evidence_shape : ReproductionEvidence → Valid
validate_evidence_shape r = elim r.status [
  | ReproductionStatus.fail_before_pass_after ↦ do
    raise_if (not (has_failed r.before_execution)) ResultFault.before_must_fail
    raise_if (not (has_passed r.after_execution)) ResultFault.after_must_pass
  | ReproductionStatus.fail_before_no_pass ↦ do
    raise_if (not (has_failed r.before_execution)) ResultFault.before_must_fail
    raise_if (has_passed r.after_execution) ResultFault.after_cannot_pass
  | ReproductionStatus.pass_before ↦
      raise_if (not (has_passed r.before_execution) || is_some r.after_execution)
        ResultFault.only_before_passes
  | ReproductionStatus.not_practical ↦
      raise_if (is_some r.before_execution || is_some r.after_execution) ResultFault.no_executions
]

abbrev is_not_run : CheckStatus → Bool
is_not_run CheckStatus.not_run = true
is_not_run _ = false

unfoldable pub validate_evidence_reference : CheckResult → Valid
validate_evidence_reference c =
    if is_not_run c.status
    then raise_if (is_some c.execution_id) ResultFault.only_not_run
    else raise_if (not (is_some c.execution_id)) ResultFault.only_not_run

unfoldable pub validate_diff : DiffSummary → Valid
validate_diff d = do
  raise_if
      (any_of repeats_text (
        d.changed_files ∷ d.binary_files ∷ d.protected_path_violations ∷ d.scope_violations
        ∷ d.test_files_changed ∷ []))
      ResultFault.paths_repeat
  raise_if (not (str_eq d.diff_sha256 d.patch_artifact.sha256)) ResultFault.diff_hash

unfoldable pub require_unique_evidence_references : AgentReport → Valid
require_unique_evidence_references r =
    raise_if (repeats r.evidence_references) ResultFault.references_repeat

unfoldable pub validate_usage : RunBudgetUsage → Valid
validate_usage u = do
  raise_if (repeats (map (λ p. phase_index p.phase) u.phases)) ResultFault.phases_repeat
  raise_if (not (sum_of (map (λ p. p.tool_calls) u.phases) == u.total_tool_calls))
      ResultFault.usage_calls
  raise_if (not (sum_of (map (λ p. p.output_bytes) u.phases) == u.total_output_bytes))
      ResultFault.usage_output

-- `executions_by_id[id]`: of two with one id, the later
abbrev pub execution_by_id : ℕ → List TestExecution → Option TestExecution
execution_by_id id [] = none
execution_by_id id (e ∷ es) =
    let later = execution_by_id id es in
    if is_some later then later else (if e.execution_id == id then some e else none)

-- `execution.status in expected_status[check.status]`
abbrev pub is_expected : CheckStatus → ExecutionStatus → Bool
is_expected CheckStatus.passed ExecutionStatus.passed = true
is_expected CheckStatus.failed ExecutionStatus.failed = true
is_expected CheckStatus.error ExecutionStatus.error = true
is_expected CheckStatus.error ExecutionStatus.timed_out = true
is_expected _ _ = false

unfoldable pub check_against : List TestExecution → CheckResult → Valid
check_against executions c = elim c.execution_id [
  | none ↦ ok tt
  | some id ↦ elim (execution_by_id id executions) [
    | none ↦ err ResultFault.unknown_execution
    | some e ↦ do
      raise_if (not (kind_number e.check_kind == kind_number c.check_kind)) ResultFault.other_kind
      raise_if (not (is_expected c.status e.status)) ResultFault.other_status
  ]
]

abbrev is_unknown : List ℕ → Option ℕ → Bool
is_unknown known none = false
is_unknown known (some id) = not (is_in known id)

abbrev id_of : Option TestExecution → Option ℕ
id_of none = none
id_of (some e) = some e.execution_id

abbrev unknown_reproduction_in : List ℕ → Option ReproductionEvidence → Bool
unknown_reproduction_in known none = false
unknown_reproduction_in known (some r) =
    is_unknown known (id_of r.before_execution) || is_unknown known (id_of r.after_execution)

abbrev is_finalized : PatchForgePhase → Bool
is_finalized PatchForgePhase.finalize = true
is_finalized PatchForgePhase.reported = true
is_finalized PatchForgePhase.cleanup = true
is_finalized PatchForgePhase.closed = true
is_finalized _ = false

abbrev is_blocking_finding : PolicyFinding → Bool
is_blocking_finding f = elim f.severity [ FindingSeverity.blocking ↦ true | _ ↦ false ]

abbrev pub is_passed_check : CheckResult → Bool
is_passed_check c = elim c.status [ CheckStatus.passed ↦ true | _ ↦ false ]

abbrev pub has_kind : CheckKind → List CheckResult → Bool
has_kind kind = any_of (λ c. kind_number c.check_kind == kind_number kind)

-- The part of `validate_result` for a proposed patch
unfoldable pub validate_proposal : PatchResult → Valid
validate_proposal r = elim r.diff [
  | none ↦ err ResultFault.no_diff
  | some diff ↦ do
    raise_if (is_some r.failure) ResultFault.no_diff
    raise_if (not (str_eq diff.base_sha r.identity.source.commit_sha)) ResultFault.base_differs
    raise_if (not (is_finalized r.phase_reached)) ResultFault.not_finalized
    raise_if (any_of is_blocking_finding r.policy_findings) ResultFault.blocking_finding
    raise_if (not (is_some r.reproduction)) ResultFault.no_reproduction
    raise_if
        (not (
          has_kind CheckKind.targeted_tests r.checks
          && has_kind CheckKind.full_test_suite r.checks))
        ResultFault.missing_check
    raise_if (any_of (λ c. not (is_passed_check c)) r.checks) ResultFault.unpassed_check
]

abbrev pub is_proposed : PatchOutcome → Bool
is_proposed PatchOutcome.patch_proposed = true
is_proposed _ = false

-- The part on the evidence's links
unfoldable pub validate_links : PatchResult → Valid
unfolding check_against
validate_links r =
    let calls = map (λ c. c.call_id) r.tool_calls in
    let executions = map (λ e. e.execution_id) r.executions in
    let findings = map (λ f. f.finding_id) r.policy_findings in
    do
      raise_if (not (is_range 1 (map (λ c. c.sequence) r.tool_calls))) ResultFault.sequence_gap
      raise_if (repeats calls) ResultFault.calls_repeat
      raise_if (repeats executions) ResultFault.executions_repeat
      raise_if (repeats (map (λ c. kind_number c.check_kind) r.checks)) ResultFault.kinds_repeat
      raise_if (repeats findings) ResultFault.findings_repeat
      raise_if (not (all_of (is_in (calls ++ executions ++ findings)) r.report.evidence_references))
          ResultFault.unknown_reference
      raise_if (any_of (λ e. not (is_in calls e.tool_call_id)) r.executions)
          ResultFault.unknown_call
      raise_if (any_of (λ c. is_unknown executions c.execution_id) r.checks)
          ResultFault.unknown_execution
      each (check_against r.executions) r.checks
      raise_if (not (r.budget_usage.total_tool_calls == length r.tool_calls))
          ResultFault.total_differs
      raise_if (unknown_reproduction_in executions r.reproduction) ResultFault.unknown_reproduction

unfoldable pub validate_result : PatchResult → Valid
unfolding validate_links validate_proposal
validate_result r = do
  raise_if (ltb r.completed_at r.started_at) ResultFault.result_ends_first
  raise_if (any_of (λ c. not (c.run_id == r.identity.run_id)) r.tool_calls) ResultFault.foreign_call
  raise_if (any_of (λ e. not (e.run_id == r.identity.run_id)) r.executions)
      ResultFault.foreign_execution
  validate_links r
  (if is_proposed r.outcome
      then validate_proposal r
      else raise_if (not (is_some r.failure)) ResultFault.no_failure)

abbrev optionally : {A : Type 0} → (A → Valid) → Option A → Valid
optionally check none = ok tt
optionally check (some x) = check x

-- A PatchResult as it is built: its parts are validated before it is.
unfoldable pub build_result : PatchResult → Valid
unfolding validate_result require_unique_evidence_references validate_timing_and_status
    validate_execution validate_evidence_shape validate_evidence_reference validate_diff
    validate_usage
build_result r = do
  require_unique_evidence_references r.report
  each validate_timing_and_status r.tool_calls
  each validate_execution r.executions
  optionally validate_evidence_shape r.reproduction
  each validate_evidence_reference r.checks
  optionally validate_diff r.diff
  validate_usage r.budget_usage
  validate_result r

-- `item.check_kind.value`
abbrev kind_value : CheckKind → String
kind_value CheckKind.reproduction = "reproduction"
kind_value CheckKind.targeted_tests = "targeted_tests"
kind_value CheckKind.full_test_suite = "full_test_suite"
kind_value CheckKind.formatter = "formatter"
kind_value CheckKind.linter = "linter"
kind_value CheckKind.typecheck = "typecheck"

abbrev atlas_check : CheckResult → Models.CheckResult
atlas_check c = record {
  name = kind_value c.check_kind;
  passed = is_passed_check c;
  summary = c.summary;
}

-- `to_atlas_result`, up to the validator of Atlas' own contract
unfoldable pub to_atlas_result : PatchResult → Result ResultFault Models.PatchResult
to_atlas_result r =
    if is_proposed r.outcome
    then elim r.diff [
      | none ↦ err ResultFault.not_proposed
      | some diff ↦ ok (record {
        summary = r.report.summary;
        base_sha = diff.base_sha;
        proposed_head_sha = diff.proposed_head_sha;
        patch_artifact = diff.patch_artifact;
        changed_files = diff.changed_files;
        checks = map atlas_check r.checks;
      })
    ]
    else err ResultFault.not_proposed
