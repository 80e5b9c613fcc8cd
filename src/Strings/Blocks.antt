-- ===== src/Strings/Blocks.antt =====
-- memset, memmove, memcmp and memfind: what they leave at every address, and what they find.
use junior_os.Base.{
  ℕ, zero, suc, ◌+◌, ◌-◌, ◌*◌, ◌/◌, ◌%◌, ◌^◌, ◌<◌, ◌≤◌, ◌≡◌, ◌⊎◌, ◌↔◌, inl, inr, refl, Bool, true,
  false, ◌&&◌, ◌==◌, ltb, leb, if◌then◌else◌, update, arith, Bool-cases, bit_or, ◌∙◌, ap,
}
use junior_os.Base.Bits.{bit_or_field, zero-bit_or}
use junior_os.Strings.{
  Memory, stosb, stosl, store_word, four_times, memset, movsb_up, movsb_down, movsl_up, movsl_down,
  move_word, memmove, memcmp,
}

-- Is the address in the block?
abbrev pub in_block : ℕ → ℕ → ℕ → Bool
in_block at n i = leb at i && ltb i (at + n)

-- The bytes of one block, moved to another; everything else as it was.
abbrev pub moved : ℕ → ℕ → ℕ → Memory → Memory
moved dst src n mem i = if in_block dst n i then mem (src + (i - dst)) else mem i

-- Upwards: no byte is overwritten before it is read.
movsb_up_eq :
    (rounds di si : ℕ) (mem : Memory) (i : ℕ)
    → (di ≤ si) ⊎ (si + rounds ≤ di)
    → movsb_up rounds di si mem i ≡ moved di si rounds mem i
unfolding memmove
movsb_up_eq zero di si mem i h = ground arith
movsb_up_eq (suc rounds) di si mem i h =
    movsb_up_eq rounds (di + 1) (si + 1) (update mem di (mem si)) i (ground arith) ∙ ground arith

movsl_up_eq :
    (rounds di si : ℕ) (mem : Memory) (i : ℕ)
    → (di ≤ si) ⊎ (si + rounds * 4 ≤ di)
    → movsl_up rounds di si mem i ≡ moved di si (rounds * 4) mem i
unfolding memmove
movsl_up_eq zero di si mem i h = ground arith
movsl_up_eq (suc rounds) di si mem i h =
    movsl_up_eq rounds (di + 4) (si + 4) (move_word di si mem) i (ground arith) ∙ ground arith

-- Downwards, from the last byte or word of the blocks at `d` and `s`.
movsb_down_eq :
    (rounds di si d s : ℕ) (mem : Memory) (i : ℕ)
    → di ≡ d + rounds - 1
    → si ≡ s + rounds - 1
    → s ≤ d
    → movsb_down rounds di si mem i ≡ moved d s rounds mem i
unfolding memmove
movsb_down_eq zero di si d s mem i hd hs le = ground arith
movsb_down_eq (suc rounds) di si d s mem i hd hs le =
    movsb_down_eq rounds (di - 1) (si - 1) d s (update mem di (mem si)) i (omega arith)
      (omega arith) le
    ∙ ground arith

movsl_down_eq :
    (rounds di si d s : ℕ) (mem : Memory) (i : ℕ)
    → di ≡ d + rounds * 4 - 4
    → si ≡ s + rounds * 4 - 4
    → s ≤ d
    → movsl_down rounds di si mem i ≡ moved d s (rounds * 4) mem i
unfolding memmove
movsl_down_eq zero di si d s mem i hd hs le = ground arith
movsl_down_eq (suc rounds) di si d s mem i hd hs le =
    movsl_down_eq rounds (di - 4) (si - 4) d s (move_word di si mem) i (omega arith) (omega arith)
      le
    ∙ ground arith

whole_words : (n : ℕ) → (n % 4 == 0) ≡ true → n / 4 * 4 ≡ n
whole_words n h = ground arith

module _ (dst src n : ℕ) (mem : Memory) (i : ℕ) where
  overlapping :
      (ltb src dst && ltb dst (src + n)) ≡ true → memmove dst src n mem i ≡ moved dst src n mem i
  unfolding memmove
  overlapping h = elim (Bool-cases (((src + n) % 4 == 0 && (dst + n) % 4 == 0) && n % 4 == 0)) [
    | inl words ↦
        let e : n / 4 * 4 ≡ n = whole_words n (ground arith) in
        rw (h, words)
          (movsl_down_eq (n / 4) (dst + n - 4) (src + n - 4) dst src mem i (omega arith)
              (omega arith) (ground arith)
            ∙ ap (λ k. moved dst src k mem i) e)
    | inr bytes ↦
        rw (h, bytes)
          (movsb_down_eq n (dst + n - 1) (src + n - 1) dst src mem i refl refl (ground arith))
  ]

  apart :
      (ltb src dst && ltb dst (src + n)) ≡ false → memmove dst src n mem i ≡ moved dst src n mem i
  unfolding memmove
  apart h = elim (Bool-cases ((src % 4 == 0 && dst % 4 == 0) && n % 4 == 0)) [
    | inl words ↦
        let e : n / 4 * 4 ≡ n = whole_words n (ground arith) in
        rw (h, words)
          (movsl_up_eq (n / 4) dst src mem i (ground arith) ∙ ap (λ k. moved dst src k mem i) e)
    | inr bytes ↦ rw (h, bytes) (movsb_up_eq n dst src mem i (ground arith))
  ]

  -- memmove, by words or bytes, upwards or downwards, leaves at each address of the destination the
  -- byte that stood at the same place of the source before, however the two blocks overlap, and
  -- every other byte as it was.
  pub memmove_lem : memmove dst src n mem i ≡ moved dst src n mem i
  memmove_lem = elim (Bool-cases (ltb src dst && ltb dst (src + n))) [
    | inl h ↦ overlapping h
    | inr h ↦ apart h
  ]

-- The same byte at every address of the block.
abbrev pub filled : ℕ → ℕ → ℕ → Memory → Memory
filled v b n mem i = if in_block v n i then b else mem i

stosb_eq :
    (rounds di eax : ℕ) (mem : Memory) (i : ℕ)
    → stosb rounds di eax mem i ≡ filled di (eax % 256) rounds mem i
unfolding memset
stosb_eq zero di eax mem i = ground arith
stosb_eq (suc rounds) di eax mem i =
    stosb_eq rounds (di + 1) eax (update mem di (eax % 256)) i ∙ ground arith

stosl_eq :
    (rounds di eax b : ℕ) (mem : Memory) (i : ℕ)
    → b < 256
    → eax ≡ b * 16843009
    → stosl rounds di eax mem i ≡ filled di b (rounds * 4) mem i
unfolding memset
stosl_eq zero di eax b mem i small e = ground arith
stosl_eq (suc rounds) di eax b mem i small e =
    stosl_eq rounds (di + 4) eax b (store_word di eax mem) i small e ∙ ground arith

four_times_eq : (c : ℕ) → four_times c ≡ c % 256 * 16843009
four_times_eq c =
    let b = c % 256 in
    let e1 : b * 16777216 ≡ b * 2 ^ 24 + 0 = omega arith in
    let e2 : b * 2 ^ 24 + b * 65536 ≡ (b * 256 + b) * 2 ^ 16 + 0 = omega arith in
    let e3 : (b * 256 + b) * 2 ^ 16 + b * 256 ≡ (b * 65536 + b * 256 + b) * 2 ^ 8 + 0 =
      omega arith in
    let first = bit_or_field 24 b 0 (b * 65536) (omega arith) (omega arith) in
    let second = bit_or_field 16 (b * 256 + b) 0 (b * 256) (omega arith) (omega arith) in
    let third = bit_or_field 8 (b * 65536 + b * 256 + b) 0 b (omega arith) (omega arith) in
    ap (λ x. bit_or (bit_or (bit_or x (b * 65536)) (b * 256)) b) e1
    ∙ ap (λ x. bit_or (bit_or x (b * 256)) b) (omega (arith, first, zero-bit_or (b * 65536)) ∙ e2)
    ∙ ap (λ x. bit_or x b) (omega (arith, second, zero-bit_or (b * 256)) ∙ e3)
    ∙ omega (arith, third, zero-bit_or b)

-- memset, by words or bytes, leaves the low byte of its argument at each address of the block, and
-- every other byte as it was.
pub memset_lem :
    (v c n : ℕ) (mem : Memory) (i : ℕ) → memset v c n mem i ≡ filled v (c % 256) n mem i
unfolding memset
memset_lem v c n mem i = elim (Bool-cases (n == 0)) [
  | inl none ↦ rw none (ground arith)
  | inr some ↦ elim (Bool-cases (v % 4 == 0 && n % 4 == 0)) [
    | inl words ↦
        let e : n / 4 * 4 ≡ n = whole_words n (ground arith) in
        rw (some, words)
          (stosl_eq (n / 4) v (four_times c) (c % 256) mem i (omega arith) (four_times_eq c)
            ∙ ap (λ k. filled v (c % 256) k mem i) e)
    | inr bytes ↦ rw (some, bytes) (stosb_eq n v c mem i)
  ]
]

-- Every address holds a byte.
abbrev pub HoldsBytes : Memory → Type 0
HoldsBytes mem = (i : ℕ) → mem i < 256

same_bytes :
    (mem : Memory) (s1 s2 n k : ℕ)
    → HoldsBytes mem
    → memcmp mem s1 s2 n ≡ 0
    → k < n
    → mem (s1 + k) ≡ mem (s2 + k)
unfolding memcmp
same_bytes mem s1 s2 zero k bytes h lt = absurd (omega arith)
same_bytes mem s1 s2 (suc n) zero bytes h lt = ground (arith, bytes s1, bytes s2)
same_bytes mem s1 s2 (suc n) (suc k) bytes h lt =
    ground (arith, bytes s1, bytes s2, same_bytes mem (s1 + 1) (s2 + 1) n k bytes)

no_difference :
    (mem : Memory) (s1 s2 n : ℕ)
    → ((k : ℕ) → k < n → mem (s1 + k) ≡ mem (s2 + k))
    → memcmp mem s1 s2 n ≡ 0
unfolding memcmp
no_difference mem s1 s2 zero same = refl
no_difference mem s1 s2 (suc n) same =
    ground
      (arith, same 0, no_difference mem (s1 + 1) (s2 + 1) n (λ k lt. ground (arith, same (suc k))))

-- Where memory holds bytes, memcmp returns 0 exactly where the two blocks are the same.
pub memcmp-zero_iff :
    (mem : Memory) (s1 s2 n : ℕ)
    → HoldsBytes mem
    → (memcmp mem s1 s2 n ≡ 0) ↔ ((k : ℕ) → k < n → mem (s1 + k) ≡ mem (s2 + k))
memcmp-zero_iff mem s1 s2 n bytes =
    (λ h k lt. same_bytes mem s1 s2 n k bytes h lt, no_difference mem s1 s2 n)
