-- ===== src/Vm/Remove.antt =====
-- page_lookup, page_remove and tlb_invalidate.
use junior_os.Base.{
  ℕ, subst, ◌*◌, ◌/◌, ◌%◌, ◌<◌, ◌≡◌, refl, false, some, ◌∷◌, if◌then◌else◌, arith, gt→leb,
}
use junior_os.Machine.{pdx, ptx}
use junior_os.Kernel.{Kernel, returns}
use junior_os.Pages.{page_decref}
use junior_os.Vm.{pte_at, page_lookup, page_remove, tlb_invalidate, translates_by}
use junior_os.Vm.Walk.{pde, walk_present, walk_absent}
use junior_os.Vm.Space.{stored}

-- The page table for the address, and its entry there.
abbrev pub table_of : Kernel → ℕ → ℕ → ℕ
table_of s pgdir va = s.mem pgdir (pdx va) / 4096

abbrev pub pte : Kernel → ℕ → ℕ → ℕ
pte s pgdir va = s.mem (table_of s pgdir va) (ptx va)

abbrev pub flushed : ℕ → ℕ → Kernel → Kernel
flushed pgdir va s = record s {
  invalidated = if translates_by s.curenv s.envs pgdir then va ∷ s.invalidated else s.invalidated;
}

pub tlb_invalidate_eq :
    (pgdir va : ℕ) (s : Kernel) → tlb_invalidate pgdir va s ≡ returns tt (flushed pgdir va s)
unfolding tlb_invalidate
tlb_invalidate_eq pgdir va s = ground arith

module _ (s : Kernel) (pgdir va : ℕ) (present : s.mem pgdir (pdx va) % 2 ≡ 1)
    (small : table_of s pgdir va < s.npages) (in_range : pte s pgdir va / 4096 < s.npages) where
  pub lookup_present :
      page_lookup pgdir va s
      ≡ returns (some (pte s pgdir va / 4096, pte_at (table_of s pgdir va) va)) s
  unfolding page_lookup
  lookup_present =
      let same : pte s pgdir va / 4096 * 4096 / 4096 ≡ pte s pgdir va / 4096 = omega arith in
      rw
        (
          walk_present s pgdir va false present small,
          same,
          gt→leb s.npages (pte s pgdir va / 4096) in_range,
        )
        refl

  pub lookup_page :
      (n : ℕ)
      → pte s pgdir va / 4096 ≡ n
      → page_lookup pgdir va s ≡ returns (some (n, pte_at (table_of s pgdir va) va)) s
  lookup_page n e =
      subst (λ k. page_lookup pgdir va s ≡ returns (some (k, pte_at (table_of s pgdir va) va)) s) e
        lookup_present

  -- The three effects of page_remove: the entry, the count, the TLB.
  pub remove_present :
      (u : Kernel)
      → page_decref (pte s pgdir va / 4096) (stored (table_of s pgdir va) (ptx va) 0 s)
        ≡ returns tt u
      → page_remove pgdir va s ≡ returns tt (flushed pgdir va u)
  unfolding page_remove
  remove_present u run = rw (lookup_present, run, tlb_invalidate_eq pgdir va u) refl

pub remove_absent :
    (s : Kernel) (pgdir va : ℕ) → pde s pgdir va ≡ 0 → page_remove pgdir va s ≡ returns tt s
unfolding page_remove page_lookup
remove_absent s pgdir va z = rw (walk_absent s pgdir va z) refl
