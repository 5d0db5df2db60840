-- ===== src/PatchForge/Paths.antt =====
-- RepositoryPath of src/nexus/patchforge/models.py. What it reads is a text as its code points.
use nexus_agent_platform.Common.{
  ℕ, String, Bool, true, false, ◌&&◌, ◌||◌, Option, none, some, List, [], ◌∷◌, ltb, ◌==◌,
  if◌then◌else◌, length, any_of, codes,
}
use nexus_agent_platform.Atlas.Validate.{replace_backslashes, split_slash, starts_with_slash}

-- `part in {"", ".", ".."}`
abbrev is_dots : List ℕ → Bool
is_dots [] = true
is_dots (a ∷ []) = a == b'.'
is_dots (a ∷ b ∷ []) = a == b'.' && b == b'.'
is_dots _ = false

-- `normalized in {"", "."}`
abbrev is_here : List ℕ → Bool
is_here [] = true
is_here (a ∷ []) = a == b'.'
is_here _ = false

abbrev starts_with_tilde : List ℕ → Bool
starts_with_tilde [] = false
starts_with_tilde (c ∷ cs) = c == 126

-- `":" in parts[0]`
abbrev has_drive : List (List ℕ) → Bool
has_drive [] = false
has_drive (part ∷ parts) = any_of (λ c. c == 58) part

-- `_repository_path`, on a text of 1 to 500 characters: the path with slashes, or nothing where the
-- contract refuses it
unfoldable pub repository_path : String → Option (List ℕ)
unfolding split_slash
repository_path value =
    let normalized = replace_backslashes (codes value) in
    let parts = split_slash [] normalized in
    if ltb (length (codes value)) 1
      || ltb 500 (length (codes value))
      || is_here normalized
      || (starts_with_slash normalized || starts_with_tilde normalized)
      || has_drive parts
      || any_of is_dots parts
    then none
    else some normalized

-- A list of repository paths, as a contract reads it
abbrev pub repository_paths : List String → Option (List (List ℕ))
repository_paths [] = some []
repository_paths (value ∷ values) = elim (repository_path value) [
  | none ↦ none
  | some path ↦ elim (repository_paths values) [ none ↦ none | some paths ↦ some (path ∷ paths) ]
]
