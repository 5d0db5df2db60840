-- ===== src/PatchForge/Policy.antt =====
-- Operator-owned contracts of src/nexus/patchforge/policy.py, and the tests of paths of gateway.py
-- that depend on them. `casefold` stands for Python's `str.casefold` on code points.
use nexus_agent_platform.Common.{
  ℕ, ◌+◌, String, Bool, true, not, ◌&&◌, ◌||◌, Option, none, some, List, [], ◌∷◌, map, leb, ◌==◌,
  if◌then◌else◌, last_or, Result, ◌>>◌, raise_if, codes,
}
use nexus_agent_platform.SoftwareEngineer.Paths.{
  path_matches, is_sensitive_path, one_of, name_suffix,
}
use nexus_agent_platform.Atlas.Validate.{split_slash}
use nexus_agent_platform.PatchForge.Models.{PhaseBudget, RunBudgets, ToolName}

pub data CommandPurpose : Type 0 where
  reproduction targeted_tests full_test_suite formatter linter typecheck : CommandPurpose

abbrev pub purpose_index : CommandPurpose → ℕ
purpose_index CommandPurpose.reproduction = 0
purpose_index CommandPurpose.targeted_tests = 1
purpose_index CommandPurpose.full_test_suite = 2
purpose_index CommandPurpose.formatter = 3
purpose_index CommandPurpose.linter = 4
purpose_index CommandPurpose.typecheck = 5

pub record SandboxCommand : Type 0 where
  pub executable : String
  pub arguments : List String
  pub working_directory : String
  pub timeout_seconds : ℕ
  pub max_output_bytes : ℕ

pub record RepositoryProfile : Type 0 where
  pub profile_id : String
  pub profile_version : ℕ
  pub commands : List (CommandPurpose × SandboxCommand)
  pub protected_paths : List String
  pub test_path_prefixes : List String

pub record PatchForgePolicy : Type 0 where
  pub allowed_tools : List ToolName
  pub budgets : RunBudgets
  pub max_changed_files : ℕ
  pub max_diff_bytes : ℕ
  pub allow_test_file_changes : Bool

-- `profile.commands.get(purpose)`
abbrev pub command_of :
    CommandPurpose → List (CommandPurpose × SandboxCommand) → Option SandboxCommand
command_of purpose [] = none
command_of purpose ((p, c) ∷ rest) =
    let later = command_of purpose rest in
    if purpose_index p == purpose_index purpose then some c else later

abbrev budget_list : RunBudgets → List PhaseBudget
budget_list b =
    b.provisioning ∷ b.recon ∷ b.hypothesis ∷ b.reproduce ∷ b.implement ∷ b.targeted_validate
    ∷ b.full_validate ∷ b.self_review ∷ b.finalization_reserve ∷ b.cleanup ∷ []

abbrev pub sum_of : List ℕ → ℕ
sum_of [] = 0
sum_of (n ∷ ns) = n + sum_of ns

-- `validate_totals_and_reserve`
unfoldable pub validate_totals_and_reserve : RunBudgets → Bool
validate_totals_and_reserve b =
    leb (sum_of (map (λ p. p.max_tool_calls) (budget_list b))) b.max_total_tool_calls
    && leb (sum_of (map (λ p. p.max_duration_seconds) (budget_list b))) b.max_total_duration_seconds
    && leb 1 b.finalization_reserve.max_tool_calls
    && leb 1 b.finalization_reserve.max_output_bytes

-- `path_in_scope`
abbrev pub path_in_scope : String → List String → Bool
path_in_scope path [] = true
path_in_scope path (p ∷ ps) = path_matches path (p ∷ ps)

abbrev test_infrastructure_names : List String
test_infrastructure_names =
    "conftest.py" ∷ "pytest.ini" ∷ "tox.ini" ∷ "setup.cfg" ∷ "sitecustomize.py" ∷ "usercustomize.py"
    ∷ []

abbrev test_infrastructure_suffixes : List String
test_infrastructure_suffixes = ".pth" ∷ []

-- `path.rsplit("/", 1)[-1]`
unfoldable pub base_name : String → List ℕ
unfolding split_slash
base_name path = last_or [] (split_slash [] (codes path))

-- `is_test_path`
unfoldable pub is_test_path : String → RepositoryProfile → Bool
is_test_path path profile =
    path_matches path profile.test_path_prefixes
    || one_of test_infrastructure_names (base_name path)
    || one_of test_infrastructure_suffixes (name_suffix (base_name path))

-- GIT_CONTROL_FILES of workspace.py
abbrev git_control_files : List String
git_control_files = ".gitignore" ∷ ".gitattributes" ∷ []

pub data WriteRefusal : Type 0 where
  sensitive git_control protected out_of_scope test_file ignored : WriteRefusal

-- `_authorize_write`; the last argument is what `is_ignored` of the workspace answers
unfoldable pub authorize_write :
    (List ℕ → List ℕ)
    → RepositoryProfile
    → PatchForgePolicy
    → List String
    → String
    → Bool
    → Result WriteRefusal (Unit {0})
authorize_write casefold profile policy scope_paths path is_ignored = do
  raise_if (is_sensitive_path casefold path) WriteRefusal.sensitive
  raise_if (one_of git_control_files (base_name path)) WriteRefusal.git_control
  raise_if (path_matches path profile.protected_paths) WriteRefusal.protected
  raise_if (not (path_in_scope path scope_paths)) WriteRefusal.out_of_scope
  raise_if (not policy.allow_test_file_changes && is_test_path path profile) WriteRefusal.test_file
  raise_if is_ignored WriteRefusal.ignored
