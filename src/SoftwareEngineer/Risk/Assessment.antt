-- ===== src/SoftwareEngineer/Risk/Assessment.antt =====
-- What the classification promises: its result is accepted, and governing paths rule.
use nexus_agent_platform.Common.{
  ◌≢◌, ◌≤◌, ok, some, inl, inr, Option-cases, ℕ, String, ◌≡◌, refl, sym, ap, ◌∙◌, true, none, List,
  arith,
}
use mathlib.Core.List.{Memᴰ}
use nexus_agent_platform.SoftwareEngineer.Models.{CycleBudget, RiskAssessment, RiskLevel, rank}
use nexus_agent_platform.SoftwareEngineer.Policy.{ShipPolicy, Evidence}
use nexus_agent_platform.SoftwareEngineer.Tests.{is_nonempty}
use nexus_agent_platform.SoftwareEngineer.Policy.Shipping.{Ships, Ships-alone_iff}
use nexus_agent_platform.SoftwareEngineer.Risk.{
  ChangeFacts, see_all, first_seen, path_risk, classify_change, make_assessment,
  governing_path_prefixes, listed_paths, measured,
}
use nexus_agent_platform.SoftwareEngineer.Risk.Listed.{
  listed_nonempty, repository_paths-is_nonempty, see_governing,
}
use nexus_agent_platform.SoftwareEngineer.Paths.{path_matches}
use nexus_agent_platform.PatchForge.Paths.{repository_paths}

-- What an assessment's level answers for.
pub record IsMonotonic (a : RiskAssessment) : Type 0 where
  pub category : rank a.category_level ≤ rank a.level
  pub path : rank a.path_level ≤ rank a.level
  pub size : rank a.size_level ≤ rank a.level
  pub certain : a.uncertain ≡ true → a.level ≢ RiskLevel.low
  pub governed : is_nonempty a.governing_paths ≡ true → a.level ≡ RiskLevel.high

make_assessment-eq-ok :
    (listed : List String) (a made : RiskAssessment)
    → make_assessment listed a ≡ ok made
    → (paths : List (List ℕ)) × (repository_paths listed ≡ some paths)
      × (record a { governing_paths = paths } ≡ made)
unfolding make_assessment
make_assessment-eq-ok listed a made h = elim (Option-cases (repository_paths listed)) [
  | inl e ↦ absurd (ground (arith, h, e))
  | inr (paths, e) ↦ (paths, e, ground (arith, h, e))
]

-- A change with a path that governs, by its prefix, as evaluation configuration or as sensitive,
-- is of high risk and lists governing paths.
governing_high :
    (casefold : List ℕ → List ℕ) (facts : ChangeFacts) (budget : CycleBudget) (path : String)
    (a : RiskAssessment)
    → Memᴰ path facts.paths
    → (path_risk casefold path facts.deletions).1 ≡ true
    → classify_change casefold facts budget ≡ ok a
    → (a.level ≡ RiskLevel.high) × (is_nonempty a.governing_paths ≡ true)
unfolding classify_change
governing_high casefold facts budget path a m h made =
    let seen = see_all casefold facts.deletions (first_seen facts) facts.paths in
    let g = see_governing casefold facts.deletions (first_seen facts) facts.paths path m h in
    let (paths, read, same) =
      make_assessment-eq-ok (listed_paths seen) (measured seen facts budget) a made in
    let listed =
      repository_paths-is_nonempty (listed_paths seen) paths read
      ∙ listed_nonempty seen.governing
      ∙ g in
    (
      sym (ap (λ r. r.level) same) ∙ (rw g refl),
      sym (ap (λ r. is_nonempty r.governing_paths) same) ∙ listed,
    )

-- A change that touches a path at or below a governing prefix, assessed by classify_change, never
-- ships without an owner decision.
pub governing_never_alone :
    (casefold : List ℕ → List ℕ) (facts : ChangeFacts) (budget : CycleBudget) (path : String)
    (policy : ShipPolicy) (e : Evidence)
    → Memᴰ path facts.paths
    → path_matches path governing_path_prefixes ≡ true
    → classify_change casefold facts budget ≡ ok e.risk
    → e.owner_decision ≡ none
    → ¬ (Ships policy e)
unfolding path_risk
governing_never_alone casefold facts budget path policy e m match assessed alone s =
    let (high, listed) =
      governing_high casefold facts budget path e.risk m (rw match refl) assessed in
    let low = ((Ships-alone_iff policy e alone).0 s).low in ground (arith, high, low)
