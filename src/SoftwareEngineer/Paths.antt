-- ===== src/SoftwareEngineer/Paths.antt =====
-- Tests of repository paths: path_matches and is_sensitive_path of src/nexus/patchforge/gateway.py,
-- and is_evaluation_config_path of src/nexus/sentinelqa/models.py. `casefold` stands for Python's
-- `str.casefold` on code points.
use nexus_agent_platform.Common.{
  ℕ, String, Bool, true, false, not, ◌&&◌, ◌||◌, Option, none, some, List, [], ◌∷◌, ◌==◌,
  if◌then◌else◌, is_some, any_of, last_or, codes,
}
use nexus_agent_platform.Atlas.Policy.{equal_or_below}
use nexus_agent_platform.Atlas.Validate.{split_slash}
use nexus_agent_platform.SoftwareEngineer.Tests.{is_nonempty}

abbrev pub same_codes : List ℕ → List ℕ → Bool
same_codes [] [] = true
same_codes (c ∷ cs) (d ∷ ds) = c == d && same_codes cs ds
same_codes _ _ = false

abbrev pub starts_with : List ℕ → List ℕ → Bool
starts_with [] cs = true
starts_with (p ∷ ps) [] = false
starts_with (p ∷ ps) (c ∷ cs) = c == p && starts_with ps cs

-- `text.endswith(suffix)`
abbrev pub ends_with : List ℕ → List ℕ → Bool
ends_with suffix [] = same_codes suffix []
ends_with suffix (c ∷ cs) = same_codes suffix (c ∷ cs) || ends_with suffix cs

-- `text in names`
abbrev pub one_of : List String → List ℕ → Bool
one_of names text = any_of (λ name. same_codes (codes name) text) names

-- `path_matches`
unfoldable pub path_matches : String → List String → Bool
unfolding equal_or_below
path_matches path prefixes = any_of (λ p. equal_or_below (codes p) (codes path)) prefixes

-- What follows the last dot of a name, after at least one character: `rfind` from the right
abbrev pub after_dot : List ℕ → Option (List ℕ)
after_dot [] = none
after_dot (c ∷ cs) =
    let later = after_dot cs in
    if is_some later then later else (if c == b'.' then some cs else none)

abbrev pub suffix_of : Option (List ℕ) → List ℕ
suffix_of none = []
suffix_of (some rest) = if is_nonempty rest then b'.' ∷ rest else []

-- `Path(name).suffix` of a name without a slash: a dot in front is no suffix's, nor one at the end
abbrev pub name_suffix : List ℕ → List ℕ
name_suffix [] = []
name_suffix (c ∷ cs) = suffix_of (after_dot cs)

abbrev pub secret_names : List String
secret_names = "credentials" ∷ "credentials.json" ∷ "id_rsa" ∷ "id_ed25519" ∷ []

abbrev pub key_suffixes : List String
key_suffixes = ".key" ∷ ".pem" ∷ ".p12" ∷ ".pfx" ∷ []

-- `is_sensitive_path`
unfoldable pub is_sensitive_path : (List ℕ → List ℕ) → String → Bool
unfolding split_slash
is_sensitive_path casefold path =
    let parts = split_slash [] (casefold (codes path)) in
    let name = last_or [] parts in
    any_of (same_codes (codes ".git")) parts
    || (starts_with (codes ".env") name && not (same_codes (codes ".env.example") name))
    || one_of secret_names name
    || one_of key_suffixes (name_suffix name)

abbrev pub evaluation_config_names : List String
evaluation_config_names =
    "conftest.py" ∷ "pytest.ini" ∷ ".pytest.ini" ∷ "tox.ini" ∷ "setup.cfg" ∷ "pyproject.toml"
    ∷ "sitecustomize.py" ∷ "usercustomize.py" ∷ "pytest.py" ∷ "_pytest.py" ∷ "pluggy.py"
    ∷ "unittest.py" ∷ "doctest.py" ∷ []

abbrev pub evaluation_config_directories : List String
evaluation_config_directories =
    "_pytest" ∷ "pytest" ∷ "pluggy" ∷ "unittest" ∷ "site-packages" ∷ "__pypackages__" ∷ []

-- `[part for part in parts if part]`
abbrev pub nonempty_parts : List (List ℕ) → List (List ℕ)
nonempty_parts [] = []
nonempty_parts (p ∷ ps) = let rest = nonempty_parts ps in if is_nonempty p then p ∷ rest else rest

-- `parts[:-1]`
abbrev pub all_but_last : List (List ℕ) → List (List ℕ)
all_but_last [] = []
all_but_last (p ∷ []) = []
all_but_last (p ∷ q ∷ ps) = p ∷ all_but_last (q ∷ ps)

abbrev pub is_evaluation_config : List (List ℕ) → Bool
is_evaluation_config [] = false
is_evaluation_config (p ∷ ps) =
    let name = last_or p ps in
    one_of evaluation_config_names name
    || ends_with (codes ".pth") name
    || any_of (one_of evaluation_config_directories) (all_but_last (p ∷ ps))

-- `is_evaluation_config_path`
unfoldable pub is_evaluation_config_path : String → Bool
unfolding split_slash
is_evaluation_config_path path = is_evaluation_config (nonempty_parts (split_slash [] (codes path)))
