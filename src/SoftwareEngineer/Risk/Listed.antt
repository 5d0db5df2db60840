-- ===== src/SoftwareEngineer/Risk/Listed.antt =====
-- The governing paths that an assessment lists: which they are, and how its contract reads them.
use nexus_agent_platform.Common.{
  some, zero, suc, All, inl, inr, Bool-cases, codes, ℕ, String, ◌≡◌, refl, sym, ap, ◌∙◌, Bool, true,
  false, List, [], ◌∷◌, ◌++◌, arith, if◌then◌else◌,
}
use mathlib.Core.List.{Memᴰ}
use nexus_agent_platform.SoftwareEngineer.Tests.{is_nonempty}
use nexus_agent_platform.SoftwareEngineer.Risk.{
  Seen, see, see_all, path_risk, text_before, sorted_paths, insert_path, take_first,
}
use nexus_agent_platform.PatchForge.Paths.{repository_path, repository_paths}

insert_path_nonempty : (p : String) (ps : List String) → is_nonempty (insert_path p ps) ≡ true
insert_path_nonempty p [] = refl
insert_path_nonempty p (q ∷ qs) = ground arith

pub listed_nonempty :
    (ps : List String) → is_nonempty (take_first 100 (sorted_paths ps)) ≡ is_nonempty ps
listed_nonempty [] = refl
listed_nonempty (p ∷ ps) =
    go (insert_path p (sorted_paths ps)) (insert_path_nonempty p (sorted_paths ps))
  where
    go : (qs : List String) → is_nonempty qs ≡ true → is_nonempty (take_first 100 qs) ≡ true
    go [] h = h
    go (q ∷ qs) h = refl

-- The texts that the contract of a path accepts
abbrev pub IsRepositoryPath : String → Type 0
IsRepositoryPath value = (path : List ℕ) × (repository_path value ≡ some path)

pub repository_paths_total :
    (ps : List String)
    → All IsRepositoryPath ps
    → (qs : List (List ℕ)) × (repository_paths ps ≡ some qs)
repository_paths_total [] a = ([], refl)
repository_paths_total (p ∷ ps) ((q, here), there) =
    let (qs, rest) = repository_paths_total ps there in
    (q ∷ qs, rw (here, rest, repository_paths) refl)

pub repository_paths-is_nonempty :
    (ps : List String) (qs : List (List ℕ))
    → repository_paths ps ≡ some qs
    → is_nonempty qs ≡ is_nonempty ps
repository_paths-is_nonempty [] qs h = ground (arith, h)
repository_paths-is_nonempty (p ∷ ps) qs h = ground (arith, h)

module _ (P : String → Type 0) where
  All-insert_path : (p : String) (ps : List String) → P p → All P ps → All P (insert_path p ps)
  All-insert_path p [] h a = (h, tt)
  All-insert_path p (q ∷ qs) h a = elim (Bool-cases (text_before (codes p) (codes q))) [
    | inl e ↦ rw e (h, a)
    | inr e ↦ rw e (a.0, All-insert_path p qs h a.1)
  ]

  pub All-sorted_paths : (ps : List String) → All P ps → All P (sorted_paths ps)
  All-sorted_paths [] a = tt
  All-sorted_paths (p ∷ ps) a = All-insert_path p (sorted_paths ps) a.0 (All-sorted_paths ps a.1)

  pub All-take_first : (n : ℕ) (ps : List String) → All P ps → All P (take_first n ps)
  All-take_first zero ps a = tt
  All-take_first (suc n) [] a = tt
  All-take_first (suc n) (p ∷ ps) a = (a.0, All-take_first n ps a.1)

  All-added : (gs : List String) (p : String) → All P gs → P p → All P (gs ++ p ∷ [])
  All-added [] p a h = (h, tt)
  All-added (g ∷ gs) p a h = (a.0, All-added gs p a.1 h)

  -- The governing paths are paths of the change.
  pub All-see_all :
      (casefold : List ℕ → List ℕ) (deletions : ℕ) (seen : Seen) (paths : List String)
      → All P seen.governing
      → All P paths
      → All P (see_all casefold deletions seen paths).governing
  All-see_all casefold deletions seen [] a b = a
  All-see_all casefold deletions seen (p ∷ ps) a b =
      All-see_all casefold deletions (see seen p (path_risk casefold p deletions)) ps
        (kept (path_risk casefold p deletions).1) b.1
    where
      kept : (g : Bool) → All P (if g then seen.governing ++ p ∷ [] else seen.governing)
      kept true = All-added seen.governing p a b.0
      kept false = a

module _ (casefold : List ℕ → List ℕ) (deletions : ℕ) where
  see_keeps :
      (seen : Seen) (paths : List String)
      → is_nonempty seen.governing ≡ true
      → is_nonempty (see_all casefold deletions seen paths).governing ≡ true
  see_keeps seen [] h = h
  see_keeps seen (p ∷ ps) h =
      see_keeps (see seen p (path_risk casefold p deletions)) ps
        (kept seen.governing (path_risk casefold p deletions).1 h)
    where
      kept :
          (gs : List String) (b : Bool)
          → is_nonempty gs ≡ true
          → is_nonempty (if b then gs ++ p ∷ [] else gs) ≡ true
      kept [] b h = absurd (cc)
      kept (g ∷ gs) true h = refl
      kept (g ∷ gs) false h = refl

  pub see_governing :
      (seen : Seen) (paths : List String) (path : String)
      → Memᴰ path paths
      → (path_risk casefold path deletions).1 ≡ true
      → is_nonempty (see_all casefold deletions seen paths).governing ≡ true
  see_governing seen [] path m h = elim m [ ]
  see_governing seen (p ∷ ps) path (Memᴰ.head same) h =
      see_keeps (see seen p (path_risk casefold p deletions)) ps
        (rw (ap (λ q. (path_risk casefold q deletions).1) (sym same) ∙ h) (added seen.governing))
    where
      added : (gs : List String) → is_nonempty (gs ++ p ∷ []) ≡ true
      added [] = refl
      added (g ∷ gs) = refl
  see_governing seen (p ∷ ps) path (Memᴰ.tail m) h =
      see_governing (see seen p (path_risk casefold p deletions)) ps path m h
