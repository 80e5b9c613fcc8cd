-- ===== src/Base/Lists.antt =====
-- Families indexed by numbers, lists measured by native numbers, and lists without repetition.
use Prim.Native.Nat.{ℕ, suc, ◌+◌}
use mathlib.Core.Path.{◌≡◌, fun_ext}
use mathlib.Core.Logic.{◌≢◌}
use mathlib.Core.Bool.{Bool, true, false, ◌||◌}
use mathlib.Core.List.{List, [], ◌∷◌, ◌++◌}
use native.Mathlib.Omega.{arith}
use junior_os.Base.Tests.{◌==◌, if◌then◌else◌}

-- An array as a family: a write at one index.
abbrev pub update {ℓ} : {A : Type ℓ} → (ℕ → A) → ℕ → A → ℕ → A
update f i v j = if i == j then v else f j

pub update_self {ℓ} : {A : Type ℓ} (f : ℕ → A) (i : ℕ) (v : A) → update f i v i ≡ v
update_self f i v = ground arith

pub update_ne {ℓ} : {A : Type ℓ} (f : ℕ → A) (i : ℕ) (v : A) (j : ℕ) → i ≢ j → update f i v j ≡ f j
update_ne f i v j h = ground arith

pub update-update {ℓ} :
    {A : Type ℓ} (f : ℕ → A) (x : ℕ) (a b : A) → update (update f x a) x b ≡ update f x b
update-update f x a b = fun_ext λ i. ground arith

abbrev pub length {ℓ} : {A : Type ℓ} → List A → ℕ
length [] = 0
length (x ∷ xs) = suc (length xs)

abbrev pub has : ℕ → List ℕ → Bool
has a [] = false
has a (x ∷ xs) = (a == x) || has a xs

pub length-append : (xs ys : List ℕ) → length (xs ++ ys) ≡ length xs + length ys
length-append [] ys = omega arith
length-append (x ∷ xs) ys = omega (arith, length-append xs ys)

-- A predicate on all items, and the absence of repetitions, by recursion into a universe.
abbrev pub All {ℓ κ} : {A : Type ℓ} → (A → Type κ) → List A → Type κ
All P [] = Unit
All P (x ∷ xs) = P x × All P xs

abbrev pub Distinct : List ℕ → Type 0
Distinct [] = Unit
Distinct (x ∷ xs) = (has x xs ≡ false) × Distinct xs

pub All-has {κ} : (P : ℕ → Type κ) (xs : List ℕ) (a : ℕ) → All P xs → has a xs ≡ true → P a
All-has P [] a all h = absurd (ground arith)
All-has P (x ∷ xs) a all h = ground (arith, All-has P xs a all.1)
