-- ===== src/Vm/Mapping.antt =====
-- What page_insert does to an address space, for each state that the address may be in.
use junior_os.Base.{ℕ, ◌/◌, ◌%◌, ◌<◌, ◌≡◌, ◌≢◌, ◌⊎◌, refl, true, false, some, List, [], has, arith}
use junior_os.Machine.{pdx}
use junior_os.Kernel.{Kernel, returns, ok, fails, e_no_mem}
use junior_os.Pages.{ref_plus}
use junior_os.Pages.FreeList.{Free}
use junior_os.Vm.{pte_at, page_lookup, page_insert}
use junior_os.Vm.Walk.{pde, walk_present, walk_no_memory}
use junior_os.Vm.Space.{self_map, Space, entry_of, Walked-refl, walk-Walked}
use junior_os.Vm.Remove.{table_of, pte}
use junior_os.Vm.Unmap.{table_present}
use junior_os.Vm.Insert.{
  Mapped, insert_fresh, insert_again, after-Mapped, after-lookup, referenced-Space,
}

entry_of-present :
    (t : Kernel) (pgdir va : ℕ)
    → t.mem pgdir (pdx va) % 2 ≡ 1
    → entry_of t pgdir va ≡ pte t pgdir va
unfolding entry_of
entry_of-present t pgdir va p = ground arith

module _ (s : Kernel) (pgdir pp va perm : ℕ) (xs : List ℕ) (space : Space pgdir xs s)
    (user : pdx va ≢ self_map) (in_range : pp < s.npages) where
  -- page_lookup finds the page at the address, if it is in range and the flags have twelve digits.
  abbrev pub Finds : Kernel → Type 0
  Finds u =
      perm < 4096 → page_lookup pgdir va u ≡ returns (some (pp, pte_at (table_of u pgdir va) va)) u

  -- In a sound address space, for an address outside the slot of UVPT and a page in range that is
  -- not free: if the address translates to nothing, its entry does not hold that page's number, and
  -- a page table is there or can be allocated, page_insert succeeds. The address then has the entry
  -- for the page and the flags, every other address translates as before, page_lookup finds the
  -- page if the flags have twelve digits, and the page has one reference more.
  pub page_insert_fresh :
      has pp xs ≡ false
      → (pde s pgdir va ≢ 0) ⊎ (xs ≢ [])
      → entry_of s pgdir va % 2 ≡ 0
      → entry_of s pgdir va / 4096 ≢ pp
      → (u : Kernel) × (page_insert pgdir pp va perm s ≡ returns ok u)
        × Mapped pgdir pp va perm xs s u
        × Finds u
        × ((u.page pp).pp_ref ≡ ref_plus (s.page pp).pp_ref)
  unfolding page_insert
  page_insert_fresh taken room absent other =
      let (t, ys, run, walked) = walk-Walked s pgdir va xs space user room in
      let at = entry_of-present t pgdir va walked.present in
      let np : t.npages ≡ s.npages = ground (arith, walked.same) in
      let free = referenced-Space t pgdir pp ys walked.space (walked.shrunk pp taken) in
      (
        _,
        rw
            (
              run,
              insert_fresh t pgdir pp va perm (ground (arith, walked.kept va user, at))
                  (ground (arith, walked.kept va user, at)),
            )
            refl,
        after-Mapped s t pgdir pp va perm xs ys walked user _ free.free (λ i ne. ground arith),
        after-lookup s t pgdir pp va perm xs ys walked user _ free.free (λ i ne. ground arith)
            in_range,
        ground (arith, walked.others pp taken),
      )

  -- In a sound address space, where an address outside the slot of UVPT already maps to a page in
  -- range, page_insert of that page replaces the flags: every other address translates as before,
  -- page_lookup finds the page if the flags have twelve digits, nothing is allocated, and the page
  -- array, the free list and the record of TLB invalidations are left as they are.
  pub page_insert_again :
      entry_of s pgdir va % 2 ≡ 1
      → entry_of s pgdir va / 4096 ≡ pp
      → (u : Kernel) × (page_insert pgdir pp va perm s ≡ returns ok u)
        × Mapped pgdir pp va perm xs s u
        × Finds u
        × (u.page ≡ s.page)
        × (u.page_free_list ≡ s.page_free_list)
  unfolding page_insert
  page_insert_again present same =
      let (table, at) = table_present s pgdir va present in
      let walked = Walked-refl s pgdir va xs space table in
      (
        _,
        rw
            (
              walk_present s pgdir va true table (ground (arith, space.slots (pdx va) user)),
              insert_again s pgdir pp va perm (ground arith),
            )
            refl,
        after-Mapped s s pgdir pp va perm xs xs walked user s.page space.free (λ i ne. refl),
        after-lookup s s pgdir pp va perm xs xs walked user s.page space.free (λ i ne. refl)
            in_range,
        refl,
        refl,
      )

-- Where there is no page table for the address and no free page for one, page_insert fails with
-- -E_NO_MEM and changes nothing.
pub page_insert_no_memory :
    (s : Kernel) (pgdir pp va perm : ℕ)
    → pde s pgdir va ≡ 0
    → Free s []
    → page_insert pgdir pp va perm s ≡ returns (fails e_no_mem) s
unfolding page_insert
page_insert_no_memory s pgdir pp va perm z free = rw (walk_no_memory s pgdir va z free) refl
