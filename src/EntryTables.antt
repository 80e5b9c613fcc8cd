-- ===== src/EntryTables.antt =====
-- The page tables of entry.S: jos-lab4/kern/entrypgdir.c. The address that the linker gives to the page
-- table is an argument.
use junior_os.Base.{
  ℕ, ◌+◌, ◌-◌, ◌*◌, ◌/◌, ◌%◌, ◌^◌, ◌<◌, ◌≤◌, ◌≡◌, refl, true, false, ◌||◌, ◌==◌, if◌then◌else◌,
  bit_or, arith, ap, Bool-cases, inl, inr,
}
use junior_os.Base.Bits.{bit_or_page}
use junior_os.Machine.{pdx, ptx, kernbase, pte_p, pte_w}
use junior_os.Kernel.{Kernel}
use junior_os.Vm.Walk.{pde}
use junior_os.Vm.Space.{entry_of}

unfoldable pub entry_pgdir : ℕ → ℕ → ℕ
entry_pgdir entry_pgtable d =
    if d == 0
    then entry_pgtable - kernbase + pte_p
    else if d == kernbase / 2 ^ 22
    then entry_pgtable - kernbase + pte_p + pte_w
    else 0

-- `0x001000 | PTE_P | PTE_W` at 1, and so on.
unfoldable pub entry_pgtable : ℕ → ℕ
entry_pgtable i = bit_or (bit_or (i * 4096) pte_p) pte_w

entry_pgtable_eq : (i : ℕ) → entry_pgtable i ≡ i * 4096 + 3
unfolding entry_pgtable
entry_pgtable_eq i =
    let e : i * 4096 ≡ i * 4096 + 0 = omega arith in
    rw
      (
        e,
        bit_or_page i 0 1 (omega arith) (omega arith),
        bit_or_page i 1 2 (omega arith) (omega arith),
      )
      (omega arith)

-- A slot of the directory, with its flags: the page table of entry.S, or nothing.
slot :
    (s : Kernel) (at directory va flags : ℕ)
    → kernbase ≤ at
    → at % 4096 ≡ 0
    → flags % 2 ≡ 1
    → flags < 4096
    → pde s directory va ≡ at - kernbase + flags
    → s.mem ((at - kernbase) / 4096) ≡ entry_pgtable
    → entry_of s directory va ≡ va % 2 ^ 22 / 4096 * 4096 + 3
unfolding entry_of
slot s at directory va flags low aligned odd small there leaf =
    let present : (pde s directory va % 2 == 1) ≡ true = ground arith in
    let table : pde s directory va / 4096 ≡ (at - kernbase) / 4096 = omega arith in
    let i : ptx va ≡ va % 2 ^ 22 / 4096 = omega arith in
    rw (present, table, leaf, i) (entry_pgtable_eq (va % 2 ^ 22 / 4096))

-- The slots of address 0 and of KERNBASE map the first 4 MB of
-- physical memory, one page behind the other, and no other address is mapped.
pub entry_of-entry_pgdir :
    (s : Kernel) (at directory va : ℕ)
    → kernbase ≤ at
    → at < 2 ^ 32
    → at % 4096 ≡ 0
    → s.mem directory ≡ entry_pgdir at
    → s.mem ((at - kernbase) / 4096) ≡ entry_pgtable
    → entry_of s directory va
      ≡ (if pdx va == 0 || pdx va == kernbase / 2 ^ 22 then va % 2 ^ 22 / 4096 * 4096 + 3 else 0)
unfolding entry_of entry_pgdir
entry_of-entry_pgdir s at directory va low high aligned root leaf =
    let value : pde s directory va ≡ entry_pgdir at (pdx va) =
      ap (λ (f : ℕ → ℕ). f (pdx va)) root in
    elim (Bool-cases (pdx va == 0))
      as (λ _. entry_of s directory va ≡ (
        if pdx va == 0 || pdx va == kernbase / 2 ^ 22 then va % 2 ^ 22 / 4096 * 4096 + 3 else 0)) [
          | inl low_slot ↦
              rw low_slot
                (slot s at directory va 1 low aligned refl (omega arith) (ground arith) leaf)
          | inr other ↦
              elim (Bool-cases (pdx va == 960))
                as (λ _. entry_of s directory va ≡ (
                  if pdx va == 0 || pdx va == kernbase / 2 ^ 22
                  then va % 2 ^ 22 / 4096 * 4096 + 3
                  else 0)) [
                    | inl high_slot ↦
                        rw (other, high_slot)
                          (slot s at directory va 3 low aligned refl (omega arith) (ground arith)
                            leaf)
                    | inr neither ↦
                        rw (other, neither)
                          (let off : (pde s directory va % 2 == 1) ≡ false = ground arith in
                            rw off refl)
                  ]
        ]
