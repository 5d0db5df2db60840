-- ===== src/SoftwareEngineer/Risk.antt =====
-- The risk classification of src/nexus/software_engineer/risk.py, with the contract of its
-- result. `casefold` stands for Python's `str.casefold` on code points.
pub mod Listed
pub mod Assessment
use nexus_agent_platform.SoftwareEngineer.Paths.{
  ends_with, is_sensitive_path, is_evaluation_config_path, path_matches,
}
use nexus_agent_platform.Common.{
  Result, ok, err, raise_if, ◌>>◌, ℕ, zero, suc, ◌+◌, ◌-◌, String, Bool, true, false, not, ◌&&◌,
  ◌||◌, Option, none, some, List, [], ◌∷◌, ◌++◌, ltb, ◌==◌, if◌then◌else◌, is_some, length, any_of,
  last_or, codes,
}
use nexus_agent_platform.PatchForge.Paths.{repository_paths}
use nexus_agent_platform.Atlas.Policy.{equal_or_below}
use nexus_agent_platform.Atlas.Validate.{split_slash}
use nexus_agent_platform.SoftwareEngineer.Models.{
  ChangeCategory, CycleBudget, RiskAssessment, RiskLevel, category_risk, highest, raised, rank,
}
use nexus_agent_platform.SoftwareEngineer.Tests.{is_nonempty}

abbrev pub governing_path_prefixes : List String
governing_path_prefixes =
    ".github" ∷ "AGENTS.md" ∷ "BRAIN.md" ∷ "CLAUDE.md" ∷ "CODEX_HANDOFF.md" ∷ "Dockerfile"
    ∷ "PROJECT_STATE.md" ∷ "ROADMAP.md" ∷ "alembic.ini" ∷ "compose.yaml" ∷ "docs/adr"
    ∷ "docs/experiments" ∷ "infra" ∷ "migrations" ∷ "src/nexus/atlas/policy.py"
    ∷ "src/nexus/atlas/service.py" ∷ "src/nexus/brain" ∷ "src/nexus/patchforge/attestor.py"
    ∷ "src/nexus/patchforge/gateway.py" ∷ "src/nexus/patchforge/policy.py"
    ∷ "src/nexus/patchforge/sandbox.py" ∷ "src/nexus/patchforge/workspace.py"
    ∷ "src/nexus/sentinelqa" ∷ "src/nexus/software_engineer" ∷ []

abbrev behavior_prefixes : List String
behavior_prefixes = "src" ∷ "lab" ∷ []

abbrev low_prefixes : List String
low_prefixes = "README.md" ∷ "CHANGELOG.md" ∷ "docs/runbooks" ∷ []

abbrev test_prefixes : List String
test_prefixes = "tests" ∷ []

-- `path_risk`: the level of a path, and whether it governs
unfoldable pub path_risk : (List ℕ → List ℕ) → String → ℕ → RiskLevel × Bool
path_risk casefold path deletions =
    if path_matches path governing_path_prefixes
    then (RiskLevel.high, true)
    else (if is_evaluation_config_path path
        then (RiskLevel.high, true)
        else (if is_sensitive_path casefold path
            then (RiskLevel.high, true)
            else (if path_matches path test_prefixes
                then (if ltb 0 deletions then (RiskLevel.medium, false) else (RiskLevel.low, false))
                else (if path_matches path low_prefixes
                      || (ends_with (codes ".md") (codes path)
                          && not (path_matches path behavior_prefixes))
                    then (RiskLevel.low, false)
                    else (if path_matches path behavior_prefixes
                        then (RiskLevel.medium, false)
                        else (RiskLevel.high, false))))))

-- What the loop over the paths has seen
pub record Seen : Type 0 where
  pub path_level : RiskLevel
  pub governing : List String
  pub uncertain : Bool

abbrev is_high : RiskLevel → Bool
is_high RiskLevel.high = true
is_high _ = false

-- One turn of the loop
abbrev see : Seen → String → RiskLevel × Bool → Seen
see seen path (level, is_governing) = record {
  path_level = highest seen.path_level level;
  governing = if is_governing then seen.governing ++ path ∷ [] else seen.governing;
  uncertain = seen.uncertain || (is_high level && not is_governing);
}

abbrev pub see_all : (List ℕ → List ℕ) → ℕ → Seen → List String → Seen
see_all casefold deletions seen [] = seen
see_all casefold deletions seen (path ∷ paths) =
    see_all casefold deletions (see seen path (path_risk casefold path deletions)) paths

abbrev is_unknown : ChangeCategory → Bool
is_unknown ChangeCategory.unknown = true
is_unknown _ = false

abbrev pub text_before : List ℕ → List ℕ → Bool
text_before [] ds = true
text_before (c ∷ cs) [] = false
text_before (c ∷ cs) (d ∷ ds) = let rest = text_before cs ds in if c == d then rest else ltb c d

abbrev insert_path : String → List String → List String
insert_path p [] = p ∷ []
insert_path p (q ∷ qs) =
    let rest = insert_path p qs in if text_before (codes p) (codes q) then p ∷ q ∷ qs else q ∷ rest

-- `sorted` of paths, by code points
abbrev pub sorted_paths : List String → List String
sorted_paths [] = []
sorted_paths (p ∷ ps) = insert_path p (sorted_paths ps)

-- `xs[:n]`
abbrev pub take_first : ℕ → List String → List String
take_first zero ps = []
take_first (suc n) [] = []
take_first (suc n) (p ∷ ps) = p ∷ take_first n ps

-- The measured change that is classified
pub record ChangeFacts : Type 0 where
  pub category : ChangeCategory
  pub paths : List String
  pub additions : ℕ
  pub deletions : ℕ
  pub diff_bytes : ℕ
  pub derived_from_untrusted_text : Bool

abbrev pub size_level_of : ChangeFacts → CycleBudget → RiskLevel
size_level_of facts budget =
    let large =
      ltb budget.max_changed_files (length facts.paths)
      || ltb budget.max_diff_bytes facts.diff_bytes in
    let shrinks = ltb facts.additions facts.deletions && ltb 50 facts.deletions in
    let size_level = if large then RiskLevel.medium else RiskLevel.low in
    if shrinks then highest size_level RiskLevel.medium else size_level

abbrev pub first_seen : ChangeFacts → Seen
first_seen facts =
    let declared = is_nonempty facts.paths in
    record {
      path_level = if declared then RiskLevel.low else RiskLevel.high;
      governing = [];
      uncertain = is_unknown facts.category || facts.derived_from_untrusted_text || not declared;
    }

-- `RiskAssessment.validate_monotonic`: whether the assessment is accepted
unfoldable pub validate_monotonic : RiskAssessment → Bool
validate_monotonic a =
    let floor = highest (highest a.category_level a.path_level) a.size_level in
    let raised_floor = if a.uncertain then raised floor else floor in
    not (ltb (rank a.level) (rank raised_floor))
    && not (is_nonempty a.governing_paths && not (is_high a.level))

-- Why the contract of an assessment refuses it.
pub data RiskFault : Type 0 where
  bad_governing_path below_its_parts : RiskFault

-- What constructing a RiskAssessment with these governing paths checks: the paths, then the rest
unfoldable pub make_assessment : List String → RiskAssessment → Result RiskFault RiskAssessment
unfolding validate_monotonic
make_assessment governing_paths a = elim (repository_paths governing_paths) [
  | none ↦ err RiskFault.bad_governing_path
  | some paths ↦
      let assessment : RiskAssessment = record a { governing_paths = paths } in
      do raise_if (not (validate_monotonic assessment)) RiskFault.below_its_parts; ok assessment
]

-- The governing paths that an assessment lists
abbrev pub listed_paths : Seen → List String
listed_paths seen = take_first 100 (sorted_paths seen.governing)

-- What `classify_change` has found, before its governing paths are read
abbrev pub measured : Seen → ChangeFacts → CycleBudget → RiskAssessment
measured seen facts budget =
    let category_level = category_risk facts.category in
    let size_level = size_level_of facts budget in
    let level = highest (highest category_level seen.path_level) size_level in
    let raised_level = if seen.uncertain then raised level else level in
    record {
      level = if is_nonempty seen.governing then RiskLevel.high else raised_level;
      category_level = category_level;
      path_level = seen.path_level;
      size_level = size_level;
      uncertain = seen.uncertain;
      governing_paths = [];
    }

-- `classify_change`, which raises what the contract of its result raises
unfoldable pub classify_change :
    (List ℕ → List ℕ) → ChangeFacts → CycleBudget → Result RiskFault RiskAssessment
unfolding make_assessment
classify_change casefold facts budget =
    let seen = see_all casefold facts.deletions (first_seen facts) facts.paths in
    make_assessment (listed_paths seen) (measured seen facts budget)
