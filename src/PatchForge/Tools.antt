-- ===== src/PatchForge/Tools.antt =====
-- The tools of src/nexus/patchforge/gateway.py: which tool a phase permits, what a tool's arguments
-- are, and the dicts from phases to amounts.
use nexus_agent_platform.Common.{
  ℕ, ◌+◌, String, Bool, true, false, ◌||◌, Option, none, some, List, [], ◌∷◌, ◌==◌, if◌then◌else◌,
}
use nexus_agent_platform.PatchForge.Models.{
  AgentReport, PatchForgePhase, ToolName, tool_index, same_phase,
}
use nexus_agent_platform.PatchForge.Policy.{CommandPurpose}

-- Dicts from phases to amounts: `d.get(phase, 0)`, `d[phase] = d.get(phase, 0) + n`, and
-- `sum(d.values())`
abbrev pub PhaseTable : Type 0
PhaseTable = List (PatchForgePhase × ℕ)

abbrev pub amount : PatchForgePhase → PhaseTable → ℕ
amount phase [] = 0
amount phase ((p, n) ∷ rest) =
    let later = amount phase rest in if same_phase p phase then n else later

abbrev pub add_amount : PatchForgePhase → ℕ → PhaseTable → PhaseTable
add_amount phase more [] = (phase, more) ∷ []
add_amount phase more ((p, n) ∷ rest) =
    let later = (p, n) ∷ add_amount phase more rest in
    if same_phase p phase then (p, n + more) ∷ rest else later

abbrev pub total : PhaseTable → ℕ
total [] = 0
total ((p, n) ∷ rest) = n + total rest

abbrev read_phases : PatchForgePhase → Bool
read_phases PatchForgePhase.recon = true
read_phases PatchForgePhase.hypothesis = true
read_phases PatchForgePhase.reproduce = true
read_phases PatchForgePhase.implement = true
read_phases PatchForgePhase.targeted_validate = true
read_phases PatchForgePhase.full_validate = true
read_phases PatchForgePhase.self_review = true
read_phases _ = false

abbrev pub is_finalize : PatchForgePhase → Bool
is_finalize phase = same_phase phase PatchForgePhase.finalize

abbrev is_implement : PatchForgePhase → Bool
is_implement phase = same_phase phase PatchForgePhase.implement

abbrev is_validation : PatchForgePhase → Bool
is_validation PatchForgePhase.targeted_validate = true
is_validation PatchForgePhase.full_validate = true
is_validation _ = false

-- `phase in _PHASES_BY_TOOL[tool]`
abbrev pub phases_by_tool : ToolName → PatchForgePhase → Bool
phases_by_tool ToolName.list_tree phase = read_phases phase
phases_by_tool ToolName.search_code phase = read_phases phase
phases_by_tool ToolName.read_file_range phase = read_phases phase
phases_by_tool ToolName.inspect_symbol phase = read_phases phase
phases_by_tool ToolName.git_status phase = read_phases phase || is_finalize phase
phases_by_tool ToolName.git_diff phase = read_phases phase || is_finalize phase
phases_by_tool ToolName.inspect_diff phase = read_phases phase || is_finalize phase
phases_by_tool ToolName.write_patch phase = is_implement phase
phases_by_tool ToolName.create_file phase = is_implement phase
phases_by_tool ToolName.delete_file phase = is_implement phase
phases_by_tool ToolName.run_targeted_tests phase =
    same_phase phase PatchForgePhase.reproduce || same_phase phase PatchForgePhase.targeted_validate
phases_by_tool ToolName.run_test_suite phase = same_phase phase PatchForgePhase.full_validate
phases_by_tool ToolName.run_formatter phase = is_validation phase
phases_by_tool ToolName.run_linter phase = is_validation phase
phases_by_tool ToolName.run_typecheck phase = is_validation phase
phases_by_tool ToolName.inspect_test_failure phase =
    same_phase phase PatchForgePhase.reproduce || is_validation phase
phases_by_tool ToolName.advance_phase phase = read_phases phase
phases_by_tool ToolName.submit_report phase = is_finalize phase

-- `requires_workspace`: not in _WORKSPACE_FREE_TOOLS
abbrev pub requires_workspace : ToolName → Bool
requires_workspace ToolName.inspect_test_failure = false
requires_workspace ToolName.advance_phase = false
requires_workspace ToolName.submit_report = false
requires_workspace _ = true

abbrev pub is_report : ToolName → Bool
is_report tool = tool_index tool == tool_index ToolName.submit_report

-- `command_purpose_for`
abbrev pub command_purpose_for : ToolName → PatchForgePhase → Option CommandPurpose
command_purpose_for ToolName.run_targeted_tests phase =
    if same_phase phase PatchForgePhase.reproduce
    then some CommandPurpose.reproduction
    else some CommandPurpose.targeted_tests
command_purpose_for ToolName.run_test_suite phase = some CommandPurpose.full_test_suite
command_purpose_for ToolName.run_formatter phase = some CommandPurpose.formatter
command_purpose_for ToolName.run_linter phase = some CommandPurpose.linter
command_purpose_for ToolName.run_typecheck phase = some CommandPurpose.typecheck
command_purpose_for _ phase = none

-- The arguments that the gateway itself reads; those of the reading tools are `inspection`
pub data Arguments : Type 0 where
  empty inspection : Arguments
  mutation : String → Arguments
  test_failure : ℕ → Arguments
  advance : PatchForgePhase → Arguments
  submit : AgentReport → Arguments

-- Whether arguments have the type of _ARGUMENT_TYPES
abbrev pub fits_tool : ToolName → Arguments → Bool
fits_tool ToolName.list_tree Arguments.inspection = true
fits_tool ToolName.search_code Arguments.inspection = true
fits_tool ToolName.read_file_range Arguments.inspection = true
fits_tool ToolName.inspect_symbol Arguments.inspection = true
fits_tool ToolName.git_diff Arguments.inspection = true
fits_tool ToolName.git_status Arguments.empty = true
fits_tool ToolName.inspect_diff Arguments.empty = true
fits_tool ToolName.write_patch (Arguments.mutation path) = true
fits_tool ToolName.create_file (Arguments.mutation path) = true
fits_tool ToolName.delete_file (Arguments.mutation path) = true
fits_tool ToolName.run_targeted_tests Arguments.empty = true
fits_tool ToolName.run_test_suite Arguments.empty = true
fits_tool ToolName.run_formatter Arguments.empty = true
fits_tool ToolName.run_linter Arguments.empty = true
fits_tool ToolName.run_typecheck Arguments.empty = true
fits_tool ToolName.inspect_test_failure (Arguments.test_failure id) = true
fits_tool ToolName.advance_phase (Arguments.advance target) = true
fits_tool ToolName.submit_report (Arguments.submit report) = true
fits_tool _ _ = false
