-- ===== src/Atlas/Capabilities.antt =====
-- The capability vocabulary in its canonical order: `sorted(values, key=lambda value: value.value)`
-- and the uniqueness test, of JobSpec, Job and AgentPolicy in models.py.
pub mod Canonical
use nexus_agent_platform.Common.{
  ℕ, ◌≡◌, Bool, true, false, not, ◌||◌, List, [], ◌∷◌, length, any_of, all_of, leb, ltb, ◌==◌, ok,
  ◌>>◌, raise_if, if◌then◌else◌, ◌&&◌,
}
use nexus_agent_platform.Atlas.Models.{
  Capability, source_read, worktree_write, test_execute, patch_create, review_read, review_submit,
}
use nexus_agent_platform.Atlas.Errors.{
  Outcome, validation, duplicate_capabilities, capabilities_not_canonical, capability_count,
}

-- The place of a capability's value in the alphabetical order of the values: "patch.create",
-- "repository.source.read", "repository.worktree.write", "review.read", "review.submit",
-- "test.execute".
abbrev pub rank : Capability → ℕ
rank patch_create = 0
rank source_read = 1
rank worktree_write = 2
rank review_read = 3
rank review_submit = 4
rank test_execute = 5

abbrev pub contains : Capability → List Capability → Bool
contains a = any_of (λ b. rank a == rank b)

abbrev insert_sorted : Capability → List Capability → List Capability
insert_sorted a [] = a ∷ []
insert_sorted a (b ∷ bs) = if leb (rank a) (rank b) then a ∷ b ∷ bs else b ∷ insert_sorted a bs

unfoldable pub sorted : List Capability → List Capability
sorted [] = []
sorted (a ∷ as') = insert_sorted a (sorted as')

-- `len(set(values)) != len(values)`
unfoldable pub has_duplicates : List Capability → Bool
has_duplicates [] = false
has_duplicates (a ∷ as') = contains a as' || has_duplicates as'

abbrev pub same_list : List Capability → List Capability → Bool
same_list [] [] = true
same_list (a ∷ as') (b ∷ bs) = (rank a == rank b) && same_list as' bs
same_list _ _ = false

-- `Field(min_length=1, max_length=20)`
abbrev pub bad_count : List Capability → Bool
bad_count l = ltb (length l) 1 || ltb 20 (length l)

-- `set(wanted) - set(held)`, in the order of `wanted`
unfoldable pub missing : List Capability → List Capability → List Capability
missing [] held = []
missing (a ∷ as') held = if contains a held then missing as' held else a ∷ missing as' held

-- `canonicalize_capabilities` of JobSpec and of AgentPolicy
unfoldable pub canonicalize_capabilities : List Capability → Outcome (List Capability)
canonicalize_capabilities values = do
  raise_if (bad_count values) (validation capability_count)
  raise_if (has_duplicates values) (validation duplicate_capabilities)
  ok (sorted values)

-- `validate_capabilities` of Job
unfoldable pub validate_capabilities : List Capability → Outcome Unit
validate_capabilities values = do
  raise_if (bad_count values) (validation capability_count)
  raise_if (has_duplicates values) (validation duplicate_capabilities)
  raise_if (not (same_list values (sorted values))) (validation capabilities_not_canonical)
