-- ===== src/Atlas/Validate.antt =====
-- What the pydantic contracts of atlas/models.py check when a value is constructed: the
-- constrained texts, and the field and model validators.
pub mod Lifecycle
pub mod WellFormed
pub mod Events
use nexus_agent_platform.Common.{
  ℕ, ◌+◌, ◌-◌, String, Bool, true, false, not, ◌&&◌, ◌||◌, List, [], ◌∷◌, ◌++◌, map, ltb, leb, ◌==◌,
  if◌then◌else◌, is_some, length, any_of, all_of, ok, ◌>>=◌, ◌>>◌, raise_if, codes, is_lower,
  is_upper, is_digit, str_eq,
}
use nexus_agent_platform.Atlas.Models.{
  ActorIdentity, ActorType, human, Url, ExecutionBudget, ExecutionLease, ApprovalRecord,
  ApprovalDecision,
}
use nexus_agent_platform.Atlas.Errors.{
  Outcome, validation, bad_command_id, bad_short_text, budget_out_of_range, url_has_suffix,
  absolute_changed_file, duplicate_changed_files, changed_file_count, lease_window,
  approval_not_human,
}

-- `[A-Za-z0-9_.:-]`
is_command_char : ℕ → Bool
is_command_char c =
    is_upper c || is_lower c || is_digit c || c == b'_' || c == b'.' || c == b':' || c == b'-'

-- CommandId: 8 to 200 characters of the class
unfoldable pub valid_command_id : String → Bool
unfolding is_command_char
valid_command_id s =
    leb 8 (length (codes s)) && leb (length (codes s)) 200 && all_of is_command_char (codes s)

-- `_command_id` of service.py
unfoldable pub check_command_id : String → Outcome Unit
check_command_id s = raise_if (not (valid_command_id s)) (validation bad_command_id)

-- ShortText: 1 to 500 characters
unfoldable pub valid_short_text : String → Bool
valid_short_text s = leb 1 (length (codes s)) && leb (length (codes s)) 500

-- ExecutionBudget's field ranges
unfoldable pub validate_budget : ExecutionBudget → Outcome Unit
validate_budget b =
    raise_if
      (not (
        leb 1 b.max_duration_seconds
        && leb b.max_duration_seconds 86400
        && leb b.max_tool_calls 10000
        && leb b.max_input_tokens 10000000
        && leb b.max_output_tokens 10000000
        && leb b.max_artifact_bytes 10000000000))
      (validation budget_out_of_range)

-- `reject_url_credentials_and_suffixes`, and the same test of a policy's prefixes
unfoldable pub reject_url_credentials_and_suffixes : Url → Outcome Unit
reject_url_credentials_and_suffixes u =
    raise_if (is_some u.username || is_some u.password || is_some u.query || is_some u.fragment)
      (validation url_has_suffix)

-- `value.replace("\\", "/")`
abbrev pub replace_backslashes : List ℕ → List ℕ
replace_backslashes = map (λ c. if c == 92 then b'/' else c)

-- `text.split("/")`: the current part, then the rest
unfoldable pub split_slash : List ℕ → List ℕ → List (List ℕ)
split_slash part [] = part ∷ []
split_slash part (c ∷ cs) =
    let next = split_slash [] cs in
    let more = split_slash (part ++ c ∷ []) cs in if c == b'/' then part ∷ next else more

is_parent : List ℕ → Bool
is_parent (a ∷ b ∷ []) = a == b'.' && b == b'.'
is_parent _ = false

abbrev pub starts_with_slash : List ℕ → Bool
starts_with_slash [] = false
starts_with_slash (c ∷ cs) = c == b'/'

-- The test of one path in `validate_relative_paths`
unfoldable pub escapes_repository : String → Bool
unfolding is_parent
escapes_repository value =
    let normalized = replace_backslashes (codes value) in
    starts_with_slash normalized || any_of is_parent (split_slash [] normalized)

has_duplicate_text : List String → Bool
has_duplicate_text [] = false
has_duplicate_text (x ∷ xs) = any_of (str_eq x) xs || has_duplicate_text xs

-- `validate_relative_paths` of PatchResult
unfoldable pub validate_relative_paths : List String → Outcome Unit
unfolding has_duplicate_text
validate_relative_paths values = do
  raise_if (ltb (length values) 1 || ltb 500 (length values)) (validation changed_file_count)
  raise_if (any_of escapes_repository values) (validation absolute_changed_file)
  raise_if (has_duplicate_text values) (validation duplicate_changed_files)

-- ExecutionLease with `validate_window`
unfoldable pub make_lease : ℕ → String → ℕ → ℕ → Outcome ExecutionLease
make_lease execution_id claimed_by started_at expires_at = do
  raise_if (leb expires_at started_at) (validation lease_window)
  ok (record {
    execution_id = execution_id;
    claimed_by = claimed_by;
    started_at = started_at;
    expires_at = expires_at;
  })

abbrev pub is_human : ActorType → Bool
is_human human = true
is_human _ = false

-- ApprovalRecord with its reason's bounds and `require_human_actor`
unfoldable pub make_approval :
    ℕ → ApprovalDecision → ActorIdentity → String → ℕ → Outcome ApprovalRecord
unfolding valid_short_text
make_approval approval_id decision decided_by reason decided_at = do
  raise_if (not (valid_short_text reason)) (validation bad_short_text)
  raise_if (not (is_human decided_by.actor_type)) (validation approval_not_human)
  ok (record {
    approval_id = approval_id;
    decision = decision;
    decided_by = decided_by;
    reason = reason;
    decided_at = decided_at;
  })
