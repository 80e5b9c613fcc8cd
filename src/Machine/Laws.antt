-- ===== src/Machine/Laws.antt =====
-- Page table entries as words: address, flags and what the tests of single flags read.
use junior_os.Base.{ℕ, ◌+◌, ◌-◌, ◌*◌, ◌%◌, ◌<◌, ◌≡◌, true, false, arith, ap, bit_or}
use junior_os.Base.Bits.{zero-bit_or, bit_and-one, bit_or-one, bit_or_page}
use junior_os.Machine.{test}

pub test-present : (x : ℕ) → x % 2 ≡ 1 → test x 1 ≡ true
test-present x h = ground (arith, bit_and-one x)

pub test-absent : (x : ℕ) → x % 2 ≡ 0 → test x 1 ≡ false
test-absent x h = ground (arith, bit_and-one x)

-- `page | perm | PTE_P` for a page address and flags of twelve digits.
pub entry :
    (n perm : ℕ)
    → perm < 4096
    → bit_or (bit_or (n * 4096) perm) 1 ≡ n * 4096 + (perm + (1 - perm % 2))
entry n perm h =
    let e : n * 4096 ≡ n * 4096 + 0 = omega arith in
    omega (
      arith,
      ap (λ x. bit_or (bit_or x perm) 1) e,
      bit_or-one (bit_or (n * 4096 + 0) perm),
      bit_or_page n 0 perm (omega arith) h,
      zero-bit_or perm,
    )

-- The entry for a new page table: `page | PTE_P | PTE_U | PTE_W`.
pub table_entry : (n : ℕ) → bit_or (bit_or (bit_or (n * 4096) 1) 4) 2 ≡ n * 4096 + 7
table_entry n =
    let e : n * 4096 ≡ n * 4096 + 0 = omega arith in
    rw
      (
        e,
        bit_or_page n 0 1 (omega arith) (omega arith),
        bit_or_page n 1 4 (omega arith) (omega arith),
        bit_or_page n 5 2 (omega arith) (omega arith),
      )
      (omega arith)

-- The entry by which a directory maps itself: `page | PTE_P | PTE_U`.
pub directory_entry : (n : ℕ) → bit_or (bit_or (n * 4096) 1) 4 ≡ n * 4096 + 5
directory_entry n =
    let e : n * 4096 ≡ n * 4096 + 0 = omega arith in
    rw
      (
        e,
        bit_or_page n 0 1 (omega arith) (omega arith),
        bit_or_page n 1 4 (omega arith) (omega arith),
      )
      (omega arith)
