-- ===== src/Strings/Terminated.antt =====
-- NUL-terminated strings: what memory holds at an address, and strlen, strnlen, strchr and strfind.
use junior_os.Base.{
  ℕ, zero, suc, ◌+◌, ◌<◌, ◌≤◌, ◌≡◌, ◌≢◌, refl, ◌==◌, ltb, if◌then◌else◌, Option, none, some, List,
  [], ◌∷◌, length, arith, Bool-cases, inl, inr,
}
use junior_os.Strings.{Memory, strlen_loop, strlen, strnlen_loop, strnlen, strchr, strfind}

-- At `s` stand the characters `xs`, none of them NUL, and then a NUL.
abbrev pub IsString : Memory → ℕ → List ℕ → Type 0
IsString mem s [] = mem s ≡ 0
IsString mem s (c ∷ cs) = (mem s ≡ c) × (c ≢ 0) × IsString mem (s + 1) cs

strlen_loop_eq :
    (fuel : ℕ) (mem : Memory) (s n : ℕ) (xs : List ℕ)
    → IsString mem s xs
    → length xs < fuel
    → strlen_loop fuel mem s n ≡ some (n + length xs)
unfolding strlen
strlen_loop_eq zero mem s n xs str small = absurd (omega arith)
strlen_loop_eq (suc fuel) mem s n [] str small = ground arith
strlen_loop_eq (suc fuel) mem s n (c ∷ cs) str small =
    ground (arith, strlen_loop_eq fuel mem (s + 1) (n + 1) cs)

-- With more fuel than characters, strlen returns the length of the string.
pub strlen-length :
    (fuel : ℕ) (mem : Memory) (s : ℕ) (xs : List ℕ)
    → IsString mem s xs
    → length xs < fuel
    → strlen fuel mem s ≡ some (length xs)
unfolding strlen
strlen-length fuel mem s xs str small = ground (arith, strlen_loop_eq fuel mem s 0 xs)

strnlen_loop_eq :
    (mem : Memory) (s size n : ℕ) (xs : List ℕ)
    → IsString mem s xs
    → strnlen_loop mem s size n ≡ n + (if ltb size (length xs) then size else length xs)
unfolding strnlen
strnlen_loop_eq mem s zero n [] str = ground arith
strnlen_loop_eq mem s zero n (c ∷ cs) str = ground arith
strnlen_loop_eq mem s (suc size) n [] str = ground arith
strnlen_loop_eq mem s (suc size) n (c ∷ cs) str =
    ground (arith, strnlen_loop_eq mem (s + 1) size (n + 1) cs)

pub strnlen-length :
    (mem : Memory) (s size : ℕ) (xs : List ℕ)
    → IsString mem s xs
    → strnlen mem s size ≡ (if ltb size (length xs) then size else length xs)
unfolding strnlen
strnlen-length mem s size xs str = ground (arith, strnlen_loop_eq mem s size 0 xs)

-- The first of the `n` bytes from `s` on that is `c`, or none of them.
abbrev pub FirstAt : Memory → ℕ → ℕ → ℕ → Option ℕ → Type 0
FirstAt mem s n c none = (i : ℕ) → i < n → mem (s + i) ≢ c
FirstAt mem s n c (some a) =
    (s ≤ a) × (a < s + n) × (mem a ≡ c) × ((i : ℕ) → s + i < a → mem (s + i) ≢ c)

abbrev pub or_end : ℕ → Option ℕ → ℕ
or_end e none = e
or_end e (some a) = a

before :
    (mem : Memory) (s c n : ℕ)
    → mem s ≢ c
    → ((i : ℕ) → i < n → mem (s + 1 + i) ≢ c)
    → (i : ℕ) → i < suc n
    → mem (s + i) ≢ c
before mem s c n first rest zero lt = ground arith
before mem s c n first rest (suc i) lt = ground (arith, rest i)

below :
    (mem : Memory) (s c a : ℕ)
    → mem s ≢ c
    → ((i : ℕ) → s + 1 + i < a → mem (s + 1 + i) ≢ c)
    → (i : ℕ) → s + i < a
    → mem (s + i) ≢ c
below mem s c a first rest zero lt = ground arith
below mem s c a first rest (suc i) lt = ground (arith, rest i)

FirstAt-suc :
    (mem : Memory) (s n c : ℕ) (r : Option ℕ)
    → mem s ≢ c
    → FirstAt mem (s + 1) n c r
    → FirstAt mem s (suc n) c r
FirstAt-suc mem s n c none first rest = before mem s c n first rest
FirstAt-suc mem s n c (some a) first (lo, hi, at, rest) =
    (omega arith, omega arith, at, below mem s c a first rest)

FirstAt-here : (mem : Memory) (s n c : ℕ) → mem s ≡ c → FirstAt mem s (suc n) c (some s)
FirstAt-here mem s n c at = (omega arith, omega arith, at, λ i lt. absurd (omega arith))

-- With enough fuel and a character other than NUL, strchr of a string returns the first address at
-- which the character stands, or NULL where it does not occur, and strfind the same address, or
-- that of the NUL.
pub strchr-FirstAt :
    (fuel : ℕ) (mem : Memory) (s c : ℕ) (xs : List ℕ)
    → IsString mem s xs
    → length xs < fuel
    → c ≢ 0
    → (r : Option ℕ) × (strchr fuel mem s c ≡ some r)
      × (strfind fuel mem s c ≡ some (or_end (s + length xs) r))
      × FirstAt mem s (length xs) c r
unfolding strchr strfind
strchr-FirstAt zero mem s c xs str small ne = absurd (omega arith)
strchr-FirstAt (suc fuel) mem s c [] str small ne =
    (none, ground arith, ground arith, λ i lt. absurd (omega arith))
strchr-FirstAt (suc fuel) mem s c (x ∷ xs) str small ne = elim (Bool-cases (mem s == c)) [
  | inl here ↦ (some s, ground arith, ground arith, FirstAt-here mem s (length xs) c (ground arith))
  | inr other ↦
      let (r, chr, find, first) = strchr-FirstAt fuel mem (s + 1) c xs str.2 (omega arith) ne in
      (
        r,
        ground (arith, chr),
        ground (arith, find, same_end r s (length xs)),
        FirstAt-suc mem s (length xs) c r (ground arith) first,
      )
]
  where
    same_end : (r : Option ℕ) (s n : ℕ) → or_end (s + 1 + n) r ≡ or_end (s + suc n) r
    same_end none s n = omega arith
    same_end (some a) s n = refl
