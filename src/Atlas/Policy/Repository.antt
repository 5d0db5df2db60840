-- ===== src/Atlas/Policy/Repository.antt =====
-- A repository is within a prefix by whole path segments.
use nexus_agent_platform.Common.{
  ◌↔◌, ℕ, ◌≡◌, refl, true, List, [], ◌∷◌, ◌++◌, arith, ==_iff, codes, str_eq_iff,
}
use nexus_agent_platform.Atlas.Models.{Url}
use nexus_agent_platform.Atlas.Policy.{rstrip_slash, equal_or_below, repository_within}

-- What may follow a prefix: nothing, or a text that begins with a slash.
abbrev pub IsBelow : List ℕ → Type 0
IsBelow [] = Unit
IsBelow (c ∷ cs) = c ≡ b'/'

equal_or_below_sound :
    (ps cs : List ℕ)
    → equal_or_below ps cs ≡ true
    → (rest : List ℕ) × (cs ≡ ps ++ rest) × IsBelow rest
unfolding equal_or_below
equal_or_below_sound [] [] h = ([], refl, tt)
equal_or_below_sound [] (c ∷ cs) h = (c ∷ cs, refl, (==_iff c b'/').0 h)
equal_or_below_sound (p ∷ ps) [] h = cc
equal_or_below_sound (p ∷ ps) (c ∷ cs) h =
    let (rest, e, b) = equal_or_below_sound ps cs (ground arith) in (rest, ground (arith, e), b)

equal_or_below_complete : (ps rest : List ℕ) → IsBelow rest → equal_or_below ps (ps ++ rest) ≡ true
unfolding equal_or_below
equal_or_below_complete [] [] b = refl
equal_or_below_complete [] (c ∷ cs) b = (==_iff c b'/').1 b
equal_or_below_complete (p ∷ ps) rest b = ground (arith, equal_or_below_complete ps rest b)

-- What a prefix means: the scheme and host, and the path followed by nothing or by segments.
abbrev pub Within : Url → Url → Type 0
Within candidate allowed =
    (candidate.scheme ≡ allowed.scheme)
    × (candidate.netloc ≡ allowed.netloc)
    × ((rest : List ℕ) × (rstrip_slash (codes candidate.path)
          ≡ rstrip_slash (codes allowed.path) ++ rest)
        × IsBelow rest)

equal_or_below_of :
    (ps cs rest : List ℕ) → cs ≡ ps ++ rest → IsBelow rest → equal_or_below ps cs ≡ true
equal_or_below_of ps cs rest e b = rw e (equal_or_below_complete ps rest b)

-- A repository is within a prefix exactly when it has the prefix's scheme and host, and its path,
-- without trailing slashes, is the prefix's followed by nothing or by a text that begins with a
-- slash.
pub repository_within_iff :
    (candidate allowed : Url)
    → (repository_within candidate allowed ≡ true) ↔ Within candidate allowed
unfolding repository_within
repository_within_iff candidate allowed =
    let wanted : List ℕ = rstrip_slash (codes allowed.path) in
    let given : List ℕ = rstrip_slash (codes candidate.path) in
    (
      λ h. (
        (str_eq_iff candidate.scheme allowed.scheme).0 (ground arith),
        (str_eq_iff candidate.netloc allowed.netloc).0 (ground arith),
        equal_or_below_sound wanted given (ground arith),
      ),
      λ h. ground (
        arith,
        (str_eq_iff candidate.scheme allowed.scheme).1 h.0,
        (str_eq_iff candidate.netloc allowed.netloc).1 h.1,
        equal_or_below_of wanted given h.2.0 h.2.1 h.2.2,
      ),
    )
