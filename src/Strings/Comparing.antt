-- ===== src/Strings/Comparing.antt =====
-- strcmp and strncmp: the order of two strings by their first different bytes.
use junior_os.Base.{
  ℕ, zero, suc, ◌+◌, ◌<◌, ◌≡◌, ◌≢◌, ◌↔◌, refl, ◌==◌, if◌then◌else◌, some, List, [], ◌∷◌, length,
  arith,
}
use junior_os.Machine.{sub32}
use junior_os.Strings.{Memory, strcmp, strncmp}
use junior_os.Strings.Terminated.{IsString}

-- The bytes in which two strings first differ, where the end of a string counts as 0.
pub first_bytes : List ℕ → List ℕ → ℕ × ℕ
first_bytes [] [] = (0, 0)
first_bytes [] (y ∷ ys) = (0, y)
first_bytes (x ∷ xs) [] = (x, 0)
first_bytes (x ∷ xs) (y ∷ ys) = if x == y then first_bytes xs ys else (x, y)

abbrev pub take : ℕ → List ℕ → List ℕ
take zero xs = []
take (suc n) [] = []
take (suc n) (x ∷ xs) = x ∷ take n xs

abbrev pub difference : ℕ × ℕ → ℕ
difference (a, b) = sub32 a b

abbrev pub AreCharacters : List ℕ → Type 0
AreCharacters [] = Unit
AreCharacters (x ∷ xs) = (x ≢ 0) × (x < 256) × AreCharacters xs

strcmp_eq :
    (fuel : ℕ) (mem : Memory) (p q : ℕ) (xs ys : List ℕ)
    → IsString mem p xs
    → IsString mem q ys
    → length xs < fuel
    → strcmp fuel mem p q ≡ some (difference (first_bytes xs ys))
unfolding strcmp first_bytes
strcmp_eq zero mem p q xs ys hp hq small = absurd (omega arith)
strcmp_eq (suc fuel) mem p q [] [] hp hq small = ground arith
strcmp_eq (suc fuel) mem p q [] (y ∷ ys) hp hq small = ground arith
strcmp_eq (suc fuel) mem p q (x ∷ xs) [] hp hq small = ground arith
strcmp_eq (suc fuel) mem p q (x ∷ xs) (y ∷ ys) hp hq small =
    ground (arith, strcmp_eq fuel mem (p + 1) (q + 1) xs ys hp.2 hq.2)

strncmp_eq :
    (n : ℕ) (mem : Memory) (p q : ℕ) (xs ys : List ℕ)
    → IsString mem p xs
    → IsString mem q ys
    → strncmp mem p q n ≡ difference (first_bytes (take n xs) (take n ys))
unfolding strncmp first_bytes
strncmp_eq zero mem p q xs ys hp hq = ground arith
strncmp_eq (suc n) mem p q [] [] hp hq = ground arith
strncmp_eq (suc n) mem p q [] (y ∷ ys) hp hq = ground arith
strncmp_eq (suc n) mem p q (x ∷ xs) [] hp hq = ground arith
strncmp_eq (suc n) mem p q (x ∷ xs) (y ∷ ys) hp hq =
    ground (arith, strncmp_eq n mem (p + 1) (q + 1) xs ys hp.2 hq.2)

same_iff :
    (xs ys : List ℕ)
    → AreCharacters xs
    → AreCharacters ys
    → (difference (first_bytes xs ys) ≡ 0) ↔ (xs ≡ ys)
unfolding first_bytes
same_iff [] [] hx hy = (λ h. refl, λ h. ground arith)
same_iff [] (y ∷ ys) hx hy = (λ h. absurd (ground arith), λ h. absurd (cc))
same_iff (x ∷ xs) [] hx hy = (λ h. absurd (ground arith), λ h. absurd (cc))
same_iff (x ∷ xs) (y ∷ ys) hx hy =
    let rest = same_iff xs ys hx.2 hy.2 in (λ h. ground (arith, rest), λ h. ground (arith, rest))

IsString-AreCharacters :
    (mem : Memory) (s : ℕ) (xs : List ℕ)
    → ((i : ℕ) → mem i < 256)
    → IsString mem s xs
    → AreCharacters xs
IsString-AreCharacters mem s [] bytes str = tt
IsString-AreCharacters mem s (c ∷ cs) bytes str =
    (str.1, ground (arith, bytes s), IsString-AreCharacters mem (s + 1) cs bytes str.2)

-- With enough fuel, where memory holds bytes, strcmp of two strings returns the difference of the
-- first bytes in which they differ, which is 0 exactly when the strings are equal; strncmp returns
-- that of their first `n` characters.
pub strcmp-first_bytes :
    (fuel : ℕ) (mem : Memory) (p q : ℕ) (xs ys : List ℕ)
    → ((i : ℕ) → mem i < 256)
    → IsString mem p xs
    → IsString mem q ys
    → length xs < fuel
    → (strcmp fuel mem p q ≡ some (difference (first_bytes xs ys)))
      × ((strcmp fuel mem p q ≡ some 0) ↔ (xs ≡ ys))
      × ((n : ℕ) → strncmp mem p q n ≡ difference (first_bytes (take n xs) (take n ys)))
strcmp-first_bytes fuel mem p q xs ys bytes hp hq small =
    let e = strcmp_eq fuel mem p q xs ys hp hq small in
    let same =
      same_iff xs ys (IsString-AreCharacters mem p xs bytes hp)
        (IsString-AreCharacters mem q ys bytes hq) in
    (
      e,
      (λ h. ground (arith, same), λ h. ground (arith, same)),
      λ n. strncmp_eq n mem p q xs ys hp hq,
    )
