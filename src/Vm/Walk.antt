-- ===== src/Vm/Walk.antt =====
-- pgdir_walk: each of its branches, as an equation with the state that it leaves.
use junior_os.Base.{
  ℕ, ◌+◌, ◌*◌, ◌/◌, ◌%◌, ◌^◌, ◌≤◌, ◌<◌, ◌≡◌, ◌≢◌, refl, Bool, true, false, none, some, List, [],
  update-update, ◌∷◌, ◌==◌, update, arith, ap, eqb_refl, eqb_ne, gt→leb,
}
use junior_os.Machine.{pdx}
use junior_os.Machine.Laws.{test-present, test-absent, table_entry}
use junior_os.Kernel.{Kernel, PageInfo, returns}
use junior_os.Pages.FreeList.{Free}
use junior_os.Pages.Alloc.{page_alloc-cons, page_alloc-nil}
use junior_os.Vm.{pte_at, pgdir_walk}

-- The word of the page directory for the address.
abbrev pub pde : Kernel → ℕ → ℕ → ℕ
pde s pgdir va = s.mem pgdir (pdx va)

-- The state after the walk has entered page `x` as a new page table.
abbrev pub tabled : ℕ → ℕ → ℕ → Kernel → Kernel
tabled pgdir va x s = record s {
  page = update s.page x (record { pp_link = none; pp_ref = 1 });
  page_free_list = (s.page x).pp_link;
  mem =
      update (update s.mem x (λ _. 0)) pgdir
        (update (update s.mem x (λ _. 0) pgdir) (pdx va) (x * 4096 + 7));
}

module _ (s : Kernel) (pgdir va : ℕ) where
  pub walk_present :
      (create : Bool)
      → pde s pgdir va % 2 ≡ 1
      → pde s pgdir va / 4096 < s.npages
      → pgdir_walk pgdir va create s ≡ returns (some (pte_at (pde s pgdir va / 4096) va)) s
  unfolding pgdir_walk
  walk_present create p small =
      let ne : (pde s pgdir va == 0) ≡ false = eqb_ne (pde s pgdir va) 0 (omega arith) in
      let same : pde s pgdir va / 4096 * 4096 / 4096 ≡ pde s pgdir va / 4096 = omega arith in
      rw (ne, test-present (pde s pgdir va) p, same, gt→leb s.npages (pde s pgdir va / 4096) small)
        refl

  pub walk_absent : pde s pgdir va ≡ 0 → pgdir_walk pgdir va false s ≡ returns none s
  unfolding pgdir_walk
  walk_absent z = rw z refl

  -- An entry that is neither 0 nor present: the walk gives up, also where it may create.
  pub walk_stale :
      (create : Bool)
      → pde s pgdir va ≢ 0
      → pde s pgdir va % 2 ≡ 0
      → pgdir_walk pgdir va create s ≡ returns none s
  unfolding pgdir_walk
  walk_stale create nz p = rw (eqb_ne (pde s pgdir va) 0 nz, test-absent (pde s pgdir va) p) refl

  pub walk_no_memory : pde s pgdir va ≡ 0 → Free s [] → pgdir_walk pgdir va true s ≡ returns none s
  unfolding pgdir_walk
  walk_no_memory z free = rw (z, page_alloc-nil s 1 free) refl

  pub walk_creates :
      (x : ℕ) (xs : List ℕ)
      → pde s pgdir va ≡ 0
      → Free s (x ∷ xs)
      → s.npages ≤ 2 ^ 20
      → pgdir_walk pgdir va true s ≡ returns (some (pte_at x va)) (tabled pgdir va x s)
  unfolding pgdir_walk
  walk_creates x xs z free small =
      let pa : x * 4096 % 2 ^ 32 ≡ x * 4096 = omega arith in
      let back : (x * 4096 + 7) / 4096 * 4096 / 4096 ≡ x = omega arith in
      rw
        (
          z,
          page_alloc-cons s x xs free 1 small,
          pa,
          table_entry x,
          eqb_refl pgdir,
          eqb_refl (pdx va),
          back,
          gt→leb s.npages x free.free.0,
          eqb_refl x,
        )
        (ap
          (λ (p : ℕ → PageInfo).
            returns (some (pte_at x va)) (record (tabled pgdir va x s) { page = p }))
          (update-update s.page x _ _))
