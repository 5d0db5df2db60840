-- ===== src/Atlas/Capabilities/Canonical.antt =====
-- The canonical order is what the Job contract asks for.
use mathlib.Core.Path.{ap₂}
use nexus_agent_platform.Common.{
  ==_refl, suc, ◌==◌, any_of, ==_iff, ◌≡◌, refl, ap, ◌∙◌, ◌||◌, true, List, [], ◌∷◌, length, arith,
  ◌≤◌, ok, Bool-cases, inl, inr,
}
use nexus_agent_platform.Atlas.Models.{Capability}
use nexus_agent_platform.Atlas.Capabilities.{
  rank, contains, insert_sorted, sorted, has_duplicates, same_list, canonicalize_capabilities,
  validate_capabilities, missing,
}

abbrev IsSorted : List Capability → Type 0
IsSorted [] = Unit
IsSorted (a ∷ []) = Unit
IsSorted (a ∷ b ∷ l) = (rank a ≤ rank b) × IsSorted (b ∷ l)

insert_sorted-IsSorted :
    (a : Capability) (l : List Capability) → IsSorted l → IsSorted (insert_sorted a l)
insert_sorted-IsSorted a [] h = tt
insert_sorted-IsSorted a (b ∷ []) h = ground arith
insert_sorted-IsSorted a (b ∷ c ∷ l) h = ground (arith, insert_sorted-IsSorted a (c ∷ l) h.1)

sorted-IsSorted : (l : List Capability) → IsSorted (sorted l)
unfolding sorted
sorted-IsSorted [] = tt
sorted-IsSorted (a ∷ l) = insert_sorted-IsSorted a (sorted l) (sorted-IsSorted l)

sorted_of_IsSorted : (l : List Capability) → IsSorted l → sorted l ≡ l
unfolding sorted
sorted_of_IsSorted [] h = refl
sorted_of_IsSorted (a ∷ []) h = refl
sorted_of_IsSorted (a ∷ b ∷ l) h = rw (sorted_of_IsSorted (b ∷ l) h.1) (ground arith)

contains-insert_sorted :
    (c a : Capability) (l : List Capability) → contains c (insert_sorted a l) ≡ (contains c (a ∷ l))
contains-insert_sorted c a [] = refl
contains-insert_sorted c a (b ∷ l) = ground (arith, contains-insert_sorted c a l)

contains-sorted : (c : Capability) (l : List Capability) → contains c (sorted l) ≡ contains c l
unfolding sorted
contains-sorted c [] = refl
contains-sorted c (a ∷ l) =
    contains-insert_sorted c a (sorted l) ∙ ap (λ r. (rank c == rank a) || r) (contains-sorted c l)

insert_sorted-has_duplicates :
    (a : Capability) (l : List Capability)
    → has_duplicates (insert_sorted a l) ≡ has_duplicates (a ∷ l)
unfolding has_duplicates
insert_sorted-has_duplicates a [] = refl
insert_sorted-has_duplicates a (b ∷ l) =
    ground (arith, insert_sorted-has_duplicates a l, contains-insert_sorted b a l)

sorted-has_duplicates : (l : List Capability) → has_duplicates (sorted l) ≡ has_duplicates l
unfolding has_duplicates sorted
sorted-has_duplicates [] = refl
sorted-has_duplicates (a ∷ l) =
    insert_sorted-has_duplicates a (sorted l)
    ∙ ap₂ ◌||◌ (contains-sorted a l) (sorted-has_duplicates l)

length-insert_sorted :
    (a : Capability) (l : List Capability) → length (insert_sorted a l) ≡ suc (length l)
length-insert_sorted a [] = refl
length-insert_sorted a (b ∷ l) = ground (arith, length-insert_sorted a l)

length-sorted : (l : List Capability) → length (sorted l) ≡ length l
unfolding sorted
length-sorted [] = refl
length-sorted (a ∷ l) = length-insert_sorted a (sorted l) ∙ ap suc (length-sorted l)

same_list_refl : (l : List Capability) → same_list l l ≡ true
same_list_refl [] = refl
same_list_refl (a ∷ l) = ground (arith, same_list_refl l)

-- The canonical form of a list of capabilities, where there is one, passes the validation of the
-- Job contract and holds exactly the capabilities of the list.
pub canonicalize-validate_capabilities :
    (l : List Capability) {k : List Capability}
    → canonicalize_capabilities l ≡ ok k
    → (validate_capabilities k ≡ ok tt) × ((c : Capability) → contains c k ≡ contains c l)
unfolding canonicalize_capabilities validate_capabilities
canonicalize-validate_capabilities l {k} h =
    let e : k ≡ sorted l = ground arith in
    rw e (
      ground (
        arith,
        length-sorted l,
        sorted-has_duplicates l,
        same_list_refl (sorted l),
        sorted_of_IsSorted (sorted l) (sorted-IsSorted l),
      ),
      λ c. contains-sorted c l,
    )

contains_of_rank :
    (a c : Capability) (l : List Capability) → rank c ≡ rank a → contains c l ≡ contains a l
contains_of_rank a c l e = ap (λ r. any_of (λ b. r == rank b) l) e

pub missing-nil :
    (wanted held : List Capability)
    → missing wanted held ≡ []
    → (c : Capability) → contains c wanted ≡ true
    → contains c held ≡ true
unfolding missing
missing-nil [] held h c m = cc
missing-nil (a ∷ as') held h c m = elim (Bool-cases (contains a held)) [
  | inl e ↦ elim (Bool-cases (rank c == rank a)) [
    | inl q ↦ contains_of_rank a c held ((==_iff (rank c) (rank a)).0 q) ∙ e
    | inr q ↦ ground (arith, e, q, missing-nil as' held (ground (arith, e)) c)
  ]
  | inr e ↦ absurd (ground (arith, e))
]

pub missing-eq-nil :
    (wanted held : List Capability)
    → ((c : Capability) → contains c wanted ≡ true → contains c held ≡ true)
    → missing wanted held ≡ []
unfolding missing
missing-eq-nil [] held h = refl
missing-eq-nil (a ∷ as') held h =
    rw (h a (ground (arith, ==_refl (rank a))))
      (missing-eq-nil as' held (λ c m. h c (ground (arith, m))))
