-- ===== src/Strings/Copying.antt =====
-- strcpy, strcat, strncpy and strlcpy: the strings that they leave, and the bytes that they touch.
use junior_os.Base.{
  ℕ, zero, suc, ◌+◌, ◌-◌, ◌<◌, ◌≤◌, ◌≡◌, ◌⊎◌, inl, ◌==◌, ltb, if◌then◌else◌, some, List, [], ◌∷◌,
  ◌++◌, length, update, arith, ◌∙◌, subst,
}
use junior_os.Strings.{Memory, strcpy, strcat, strncpy, strlcpy_loop, strlcpy}
use junior_os.Strings.Terminated.{IsString, strlen-length}
use junior_os.Strings.Blocks.{moved, in_block}

-- A byte below the string may change, or one behind it.
pub IsString-update :
    (mem : Memory) (s a b : ℕ) (xs : List ℕ)
    → (a < s) ⊎ (s + length xs < a)
    → IsString mem s xs
    → IsString (update mem a b) s xs
IsString-update mem s a b [] out str = ground arith
IsString-update mem s a b (c ∷ cs) out str =
    (ground arith, str.1, IsString-update mem (s + 1) a b cs (ground arith) str.2)

-- The same bytes elsewhere are the same string.
IsString-moved :
    (mem mem' : Memory) (s d : ℕ) (xs : List ℕ)
    → IsString mem s xs
    → ((k : ℕ) → k ≤ length xs → mem' (d + k) ≡ mem (s + k))
    → IsString mem' d xs
IsString-moved mem mem' s d [] str same = ground (arith, same 0)
IsString-moved mem mem' s d (c ∷ cs) str same = (
  ground (arith, same 0),
  str.1,
  IsString-moved mem mem' (s + 1) (d + 1) cs str.2 (λ k h. ground (arith, same (suc k))),
)

strcpy-moved :
    (fuel dst src : ℕ) (mem : Memory) (xs : List ℕ)
    → IsString mem src xs
    → length xs < fuel
    → (dst ≤ src) ⊎ (src + length xs < dst)
    → (mem' : Memory) × (strcpy fuel dst src mem ≡ some mem')
      × ((i : ℕ) → mem' i ≡ moved dst src (length xs + 1) mem i)
unfolding strcpy
strcpy-moved zero dst src mem xs str small off = absurd (omega arith)
strcpy-moved (suc fuel) dst src mem [] str small off =
    (update mem dst (mem src), ground arith, λ i. ground arith)
strcpy-moved (suc fuel) dst src mem (c ∷ cs) str small off =
    let next = IsString-update mem (src + 1) dst (mem src) cs (ground arith) str.2 in
    let (mem', run, at) =
      strcpy-moved fuel (dst + 1) (src + 1) (update mem dst (mem src)) cs next (omega arith)
        (ground arith) in
    (mem', ground (arith, run), λ i. at i ∙ ground arith)

-- With enough fuel, strcpy returns where the string is not overwritten before it is read; the string
-- then stands at the destination, and no other byte has changed.
pub strcpy-IsString :
    (fuel dst src : ℕ) (mem : Memory) (xs : List ℕ)
    → IsString mem src xs
    → length xs < fuel
    → (dst ≤ src) ⊎ (src + length xs < dst)
    → (mem' : Memory) × (strcpy fuel dst src mem ≡ some mem')
      × IsString mem' dst xs
      × ((i : ℕ) → (i < dst) ⊎ (dst + length xs < i) → mem' i ≡ mem i)
strcpy-IsString fuel dst src mem xs str small off =
    let (mem', run, at) = strcpy-moved fuel dst src mem xs str small off in
    (
      mem',
      run,
      IsString-moved mem mem' src dst xs str (λ k h. at (dst + k) ∙ ground arith),
      λ i out. at i ∙ ground arith,
    )

IsString-append :
    (mem : Memory) (s : ℕ) (mem' : Memory) (xs ys : List ℕ)
    → IsString mem s xs
    → ((i : ℕ) → i < s + length xs → mem' i ≡ mem i)
    → IsString mem' (s + length xs) ys
    → IsString mem' s (xs ++ ys)
IsString-append mem s mem' [] ys str same tail =
    let e : s + 0 ≡ s = omega arith in subst (λ a. IsString mem' a ys) e tail
IsString-append mem s mem' (c ∷ cs) ys str same tail =
    let e : s + suc (length cs) ≡ s + 1 + length cs = omega arith in
    (
      ground (arith, same s),
      str.1,
      IsString-append mem (s + 1) mem' cs ys str.2 (λ i h. same i (omega arith))
          (subst (λ a. IsString mem' a ys) e tail),
    )

-- With enough fuel, strcat returns where the second string is not overwritten before it is read;
-- the destination is then the concatenation of the two strings, and no byte outside the appended
-- part has changed.
pub strcat-IsString :
    (fuel dst src : ℕ) (mem : Memory) (xs ys : List ℕ)
    → IsString mem dst xs
    → IsString mem src ys
    → length xs < fuel
    → length ys < fuel
    → (dst + length xs ≤ src) ⊎ (src + length ys < dst + length xs)
    → (mem' : Memory) × (strcat fuel dst src mem ≡ some mem')
      × IsString mem' dst (xs ++ ys)
      × ((i : ℕ) → (i < dst + length xs) ⊎ (dst + length xs + length ys < i) → mem' i ≡ mem i)
unfolding strcat
strcat-IsString fuel dst src mem xs ys dest str hx hy off =
    let (mem', run, tail, same) = strcpy-IsString fuel (dst + length xs) src mem ys str hy off in
    (
      mem',
      rw (strlen-length fuel mem dst xs dest hx) run,
      IsString-append mem dst mem' xs ys dest (λ i h. same i (inl h)) tail,
      same,
    )

-- strncpy fills the whole block of `n` bytes: the string's characters, and then NULs.
pub strncpy_lem :
    (n dst src : ℕ) (mem : Memory) (xs : List ℕ) (i : ℕ)
    → IsString mem src xs
    → (dst + n ≤ src) ⊎ (src + length xs < dst)
    → strncpy n dst src mem i ≡ (
        if in_block dst n i
        then (if ltb (i - dst) (length xs) then mem (src + (i - dst)) else 0)
        else mem i)
unfolding strncpy
strncpy_lem zero dst src mem xs i str off = ground arith
strncpy_lem (suc n) dst src mem [] i str off =
    ground (arith, strncpy_lem n (dst + 1) src (update mem dst (mem src)) [] i (ground arith))
strncpy_lem (suc n) dst src mem (c ∷ cs) i str off =
    let next = IsString-update mem (src + 1) dst (mem src) cs (ground arith) str.2 in
    ground (arith, strncpy_lem n (dst + 1) (src + 1) (update mem dst (mem src)) cs i next)

-- The bytes that strlcpy copies.
abbrev pub copied : ℕ → List ℕ → ℕ
copied size xs = if ltb (length xs) size then length xs else size - 1

strlcpy_loop_eq :
    (rounds dst src n : ℕ) (mem : Memory) (xs : List ℕ)
    → IsString mem src xs
    → (dst + rounds < src) ⊎ (src + length xs < dst)
    → ((strlcpy_loop rounds dst src n mem).1 ≡ n + copied (suc rounds) xs)
      × ((i : ℕ)
          → (strlcpy_loop rounds dst src n mem).0 i ≡ (
              if i == dst + copied (suc rounds) xs
              then 0
              else moved dst src (copied (suc rounds) xs) mem i))
unfolding strlcpy
strlcpy_loop_eq zero dst src n mem [] str off = (ground arith, λ i. ground arith)
strlcpy_loop_eq zero dst src n mem (c ∷ cs) str off = (ground arith, λ i. ground arith)
strlcpy_loop_eq (suc rounds) dst src n mem [] str off = (ground arith, λ i. ground arith)
strlcpy_loop_eq (suc rounds) dst src n mem (c ∷ cs) str off =
    let next = IsString-update mem (src + 1) dst (mem src) cs (ground arith) str.2 in
    let (count, at) =
      strlcpy_loop_eq rounds (dst + 1) (src + 1) (n + 1) (update mem dst (mem src)) cs next
        (ground arith) in
    (ground (arith, count), λ i. ground (arith, at i))

-- strlcpy into a buffer of at least one byte that the string is not copied over copies the string,
-- or as much of it as leaves room for a NUL, puts a NUL behind it, changes no other byte, and
-- returns how many characters it has copied.
pub strlcpy_lem :
    (dst src size : ℕ) (mem : Memory) (xs : List ℕ)
    → IsString mem src xs
    → 0 < size
    → (dst + size ≤ src) ⊎ (src + length xs < dst)
    → ((strlcpy dst src size mem).1 ≡ copied size xs)
      × ((i : ℕ)
          → (strlcpy dst src size mem).0 i
            ≡ (if i == dst + copied size xs then 0 else moved dst src (copied size xs) mem i))
unfolding strlcpy
strlcpy_lem dst src zero mem xs str pos off = absurd (omega arith)
strlcpy_lem dst src (suc size) mem xs str pos off =
    let (count, at) = strlcpy_loop_eq size dst src 0 mem xs str (ground arith) in
    (ground (arith, count), at)
