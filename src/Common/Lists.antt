-- ===== src/Common/Lists.antt =====
-- Lists measured by native numbers, with Boolean tests, and predicates by recursion.
use Prim.Native.Nat.{ℕ, suc, ◌+◌}
use mathlib.Core.Path.{ap, ◌≡◌, refl}
use mathlib.Core.Bool.{Bool, true, false, ◌&&◌, ◌||◌}
use mathlib.Core.List.{map, List, [], ◌∷◌, ◌++◌}
use native.Mathlib.Omega.{arith}
use nexus_agent_platform.Common.Tests.{◌==◌, if◌then◌else◌}

module _ {ℓ} {A : Type ℓ} where
  abbrev pub length : List A → ℕ
  length [] = 0
  length (x ∷ xs) = suc (length xs)

  pub length-append : (xs ys : List A) → length (xs ++ ys) ≡ length xs + length ys
  length-append [] ys = omega arith
  length-append (x ∷ xs) ys = omega (arith, length-append xs ys)

  -- Python's `any(test(x) for x in xs)` and `all(test(x) for x in xs)`
  abbrev pub any_of : (A → Bool) → List A → Bool
  any_of test [] = false
  any_of test (x ∷ xs) = test x || any_of test xs

  pub any_of-append :
      (test : A → Bool) (xs : List A) (y : A)
      → any_of test (xs ++ y ∷ []) ≡ (any_of test xs || test y)
  any_of-append test [] y = ground arith
  any_of-append test (x ∷ xs) y = ground (arith, any_of-append test xs y)

  abbrev pub all_of : (A → Bool) → List A → Bool
  all_of test [] = true
  all_of test (x ∷ xs) = test x && all_of test xs

  -- `sum(test(x) for x in xs)`
  abbrev pub count_of : (A → Bool) → List A → ℕ
  count_of test [] = 0
  count_of test (x ∷ xs) = let rest = count_of test xs in if test x then suc rest else rest

  pub count_of-append :
      (test : A → Bool) (xs : List A) (y : A)
      → count_of test (xs ++ y ∷ []) ≡ count_of test xs + (if test y then 1 else 0)
  count_of-append test [] y = ground arith
  count_of-append test (x ∷ xs) y = ground (arith, count_of-append test xs y)

  -- `xs[-1]`, when there is one
  abbrev pub last_or : A → List A → A
  last_or d [] = d
  last_or d (x ∷ xs) = last_or x xs

  pub last_or-append : (d x : A) (xs : List A) → last_or d (xs ++ x ∷ []) ≡ x
  last_or-append d x [] = refl
  last_or-append d x (y ∷ xs) = last_or-append y x xs

module _ {ℓ κ} {A : Type ℓ} (P : A → Type κ) where
  abbrev pub All : List A → Type κ
  All [] = Unit
  All (x ∷ xs) = P x × All xs

module _ {ℓ κ} {A : Type ℓ} (P : A → Type κ) where
  pub All-append : (xs ys : List A) → All P xs → All P ys → All P (xs ++ ys)
  All-append [] ys h k = k
  All-append (x ∷ xs) ys h k = (h.0, All-append xs ys h.1 k)

  pub All-map {μ} : (Q : A → Type μ) → ((x : A) → P x → Q x) → (xs : List A) → All P xs → All Q xs
  All-map Q f [] h = tt
  All-map Q f (x ∷ xs) h = (f x h.0, All-map Q f xs h.1)

pub map-append {ℓ κ} :
    {A : Type ℓ} {B : Type κ} (f : A → B) (xs ys : List A) → map f (xs ++ ys) ≡ map f xs ++ map f ys
map-append f [] ys = refl
map-append f (x ∷ xs) ys = ap (λ zs. f x ∷ zs) (map-append f xs ys)

-- `len(set(xs)) != len(xs)`
abbrev pub repeats : List ℕ → Bool
repeats [] = false
repeats (x ∷ xs) = any_of (λ y. x == y) xs || repeats xs

-- `xs == list(range(n, n + len(xs)))`
abbrev pub is_range : ℕ → List ℕ → Bool
is_range n [] = true
is_range n (x ∷ xs) = x == n && is_range (n + 1) xs
