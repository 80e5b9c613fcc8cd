-- ===== src/Machine.antt =====
-- The machine's constants and address arithmetic: jos-lab4/inc/mmu.h, inc/memlayout.h, inc/types.h,
-- inc/env.h and inc/error.h. An address, a page table entry and an environment id are 32-bit words,
-- kept as numbers with the wrap-around written out.
pub mod Laws
use junior_os.Base.{ℕ, ◌+◌, ◌-◌, ◌*◌, ◌/◌, ◌%◌, ◌^◌, Bool, not, ◌==◌, ltb, bit_and, bit_or}

abbrev pub word : ℕ
word = 2 ^ 32

-- uint32_t addition and subtraction.
abbrev pub add32 : ℕ → ℕ → ℕ
add32 a b = (a + b) % word

abbrev pub sub32 : ℕ → ℕ → ℕ
sub32 a b = (a + word - b) % word

-- PGNUM, PDX and PTX: a shift is a division, a mask of low digits a remainder.
abbrev pub pgnum : ℕ → ℕ
pgnum la = la / 4096

abbrev pub pdx : ℕ → ℕ
pdx la = la / 0x400000 % 1024

abbrev pub ptx : ℕ → ℕ
ptx la = la / 4096 % 1024

-- PGADDR.
abbrev pub pgaddr : ℕ → ℕ → ℕ → ℕ
pgaddr d t o = bit_or (bit_or (d * 0x400000) (t * 4096)) o % word

-- PTE_ADDR, `pte & ~0xFFF`.
abbrev pub pte_addr : ℕ → ℕ
pte_addr pte = pte / 4096 * 4096

abbrev pub pte_p : ℕ
pte_p = 0x001

abbrev pub pte_w : ℕ
pte_w = 0x002

abbrev pub pte_u : ℕ
pte_u = 0x004

abbrev pub pte_pwt : ℕ
pte_pwt = 0x008

abbrev pub pte_pcd : ℕ
pte_pcd = 0x010

-- The complement in a word of PTE_SYSCALL, which is PTE_AVAIL, PTE_P, PTE_W and PTE_U.
abbrev pub not_pte_syscall : ℕ
not_pte_syscall = 0xFFFFF1F8

-- C's truth of `x & flag`.
abbrev pub test : ℕ → ℕ → Bool
test x flag = not (bit_and x flag == 0)

abbrev pub rounddown : ℕ → ℕ
rounddown a = a - a % 4096

abbrev pub roundup : ℕ → ℕ
roundup a = rounddown ((a + 4095) % word)

abbrev pub kernbase : ℕ
kernbase = 0xF0000000

-- ULIM, UTOP, UXSTACKTOP and USTACKTOP.
abbrev pub ulim : ℕ
ulim = 0xEF800000

abbrev pub utop : ℕ
utop = 0xEEC00000

abbrev pub uxstacktop : ℕ
uxstacktop = utop

abbrev pub ustacktop : ℕ
ustacktop = utop - 2 * 4096

abbrev pub mpentry_paddr : ℕ
mpentry_paddr = 0x7000

abbrev pub nenv : ℕ
nenv = 1024

-- ENVX, the slot of an environment id.
abbrev pub envx : ℕ → ℕ
envx envid = envid % 1024
