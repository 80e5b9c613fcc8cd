-- ===== src/Vm.antt =====
-- Two-level page tables: jos-lab4/kern/pmap.c, pgdir_walk, boot_map_region, page_insert,
-- page_lookup, page_remove, tlb_invalidate, mmio_map_region, user_mem_check and check_va2pa.
-- A page directory is the number of the physical page that holds it.
pub mod Walk
pub mod Space
pub mod Insert
pub mod Mapping
pub mod Remove
pub mod Unmap
pub mod Replace
pub mod Tables
pub mod Separate
pub mod Contents
pub mod Regions
pub mod Access
use junior_os.Base.{
  ℕ, zero, suc, ◌+◌, ◌-◌, ◌*◌, ◌/◌, ◌%◌, Bool, true, false, not, ◌||◌, ◌&&◌, Option, none, some,
  ◌∷◌, ◌==◌, ltb, leb, if◌then◌else◌, update, bit_and, bit_or,
}
use junior_os.Machine.{
  word, add32, sub32, pdx, ptx, pte_addr, pte_p, pte_w, pte_u, pte_pwt, pte_pcd, test, rounddown,
  roundup, ulim,
}
use junior_os.Kernel.{
  Kernel, PageInfo, Env, PtePtr, Cmd, Status, Error, pure, ◌>>=◌, ◌>>◌, get, put, panic, deref,
  set_page, kaddr, read_pte, write_pte,
}
use junior_os.Pages.{page2pa, pa2page, page_alloc, page_decref, ref_plus}

abbrev pub pte_at : ℕ → ℕ → PtePtr
pte_at table va = record { table = table; index = ptx va }

abbrev pub pde_at : ℕ → ℕ → PtePtr
pde_at pgdir va = record { table = pgdir; index = pdx va }

-- The branch of pgdir_walk that enters a new page table.
walk_new : ℕ → ℕ → Option ℕ → Cmd (Option PtePtr)
walk_new pgdir va none = pure none
walk_new pgdir va (some pp) = do
  s ← get
  set_page pp (record (s.page pp) { pp_ref = ref_plus (s.page pp).pp_ref })
  write_pte (pde_at pgdir va) (bit_or (bit_or (bit_or (page2pa pp) pte_p) pte_u) pte_w)
  t ← get
  page_table ← kaddr (pte_addr (t.mem pgdir (pdx va)))
  pure (some (pte_at page_table va))

-- `!pde&PTE_P` is `(!pde) & PTE_P`: it holds when the whole entry is 0.
unfoldable pub pgdir_walk : ℕ → ℕ → Bool → Cmd (Option PtePtr)
unfolding walk_new
pgdir_walk pgdir va create = do
  s ← get
  if s.mem pgdir (pdx va) == 0 && not create
      then pure none
      else if test (s.mem pgdir (pdx va)) pte_p
      then (do
        page_table ← kaddr (pte_addr (s.mem pgdir (pdx va)))
        pure (some (pte_at page_table va)))
      else if s.mem pgdir (pdx va) == 0 && create
      then (do pp ← page_alloc 1; walk_new pgdir va pp)
      else pure none

-- `(pa + i * PGSIZE) | perm | PTE_P`, stored where the walk has led.
map_entry : ℕ → ℕ → Option PtePtr → Cmd (Unit {0})
map_entry pa perm none = panic
map_entry pa perm (some p) = write_pte p (bit_or (bit_or pa perm) pte_p)

-- `rounds` pages are left, from the `i`th on.
map_pages : ℕ → ℕ → ℕ → ℕ → ℕ → ℕ → Cmd (Unit {0})
unfolding map_entry
map_pages pgdir va pa perm zero i = pure tt
map_pages pgdir va pa perm (suc rounds) i = do
  p ← pgdir_walk pgdir (add32 va (i * 4096)) true
  map_entry (add32 pa (i * 4096)) perm p
  map_pages pgdir va pa perm rounds (i + 1)

pub boot_map_region : ℕ → ℕ → ℕ → ℕ → ℕ → Cmd (Unit {0})
unfolding map_pages
boot_map_region pgdir va size pa perm = map_pages pgdir va pa perm (size / 4096) 0

-- The page and the place of its entry. An entry of 0 is not told apart from one for page 0.
found_entry : Option PtePtr → Cmd (Option (ℕ × PtePtr))
found_entry none = pure none
found_entry (some p) = do s ← get; pp ← pa2page (pte_addr (read_pte s p)); pure (some (pp, p))

unfoldable pub page_lookup : ℕ → ℕ → Cmd (Option (ℕ × PtePtr))
unfolding found_entry
page_lookup pgdir va = do p ← pgdir_walk pgdir va false; found_entry p

-- `e == pgdir` for a pointer that may be NULL.
abbrev pub points_to : Option ℕ → ℕ → Bool
points_to none n = false
points_to (some p) n = p == n

-- `!curenv || curenv->env_pgdir == pgdir`
abbrev pub translates_by : Option ℕ → (ℕ → Env) → ℕ → Bool
translates_by none envs pgdir = true
translates_by (some e) envs pgdir = points_to (envs e).env_pgdir pgdir

unfoldable pub tlb_invalidate : ℕ → ℕ → Cmd (Unit {0})
tlb_invalidate pgdir va = do
  s ← get
  if translates_by s.curenv s.envs pgdir
      then put (record s { invalidated = va ∷ s.invalidated })
      else pure tt

remove_entry : ℕ → ℕ → Option (ℕ × PtePtr) → Cmd (Unit {0})
remove_entry pgdir va none = pure tt
remove_entry pgdir va (some (pp, p)) = do write_pte p 0; page_decref pp; tlb_invalidate pgdir va

unfoldable pub page_remove : ℕ → ℕ → Cmd (Unit {0})
unfolding remove_entry
page_remove pgdir va = do found ← page_lookup pgdir va; remove_entry pgdir va found

-- `PTE_ADDR(page2pa(pp)) | perm | PTE_P`
abbrev pub new_entry : ℕ → ℕ → ℕ
new_entry pp perm = bit_or (bit_or (pte_addr (page2pa pp)) perm) pte_p

pub insert_entry : ℕ → ℕ → ℕ → ℕ → Option PtePtr → Cmd Status
insert_entry pgdir pp va perm none = pure (Status.fails Error.e_no_mem)
insert_entry pgdir pp va perm (some p) = do
  s ← get
  if pte_addr (read_pte s p) == page2pa pp
      then (do write_pte p (new_entry pp perm); pure Status.ok)
      else do
        if test (read_pte s p) pte_p then page_remove pgdir va else pure tt
        write_pte p (new_entry pp perm)
        t ← get
        set_page pp (record (t.page pp) { pp_ref = ref_plus (t.page pp).pp_ref })
        pure Status.ok

unfoldable pub page_insert : ℕ → ℕ → ℕ → ℕ → Cmd Status
unfolding insert_entry
page_insert pgdir pp va perm = do p ← pgdir_walk pgdir va true; insert_entry pgdir pp va perm p

-- The start of the physical range and its length in whole pages.
abbrev pub mmio_size : ℕ → ℕ → ℕ
mmio_size pa size = sub32 (roundup (add32 pa size)) (rounddown pa)

pub mmio_map_region : ℕ → ℕ → Cmd ℕ
mmio_map_region pa size = do
  s ← get
  boot_map_region s.kern_pgdir s.mmio_base
      (sub32 (add32 s.mmio_base (mmio_size pa size)) s.mmio_base) (rounddown pa)
      (bit_or (bit_or pte_pcd pte_pwt) pte_w)
  t ← get
  put (record t { mmio_base = add32 s.mmio_base (mmio_size pa size) })
  pure (add32 s.mmio_base (pa % 4096))

-- Does the entry at `p` allow all of `perm`?
abbrev pub allows : Kernel → ℕ → Option PtePtr → Bool
allows s perm none = false
allows s perm (some p) = bit_and (read_pte s p) perm == perm

-- Record the first address that fails.
abbrev pub fault_at : ℕ → Cmd Status
fault_at va = do
  s ← get
  put (record s { user_mem_check_addr = va })
  pure (Status.fails Error.e_fault)

-- `rounds` pages are left, from address `i` on.
check_pages : ℕ → ℕ → ℕ → ℕ → Cmd Status
check_pages pgdir perm zero i = pure Status.ok
check_pages pgdir perm (suc rounds) i = do
  p ← pgdir_walk pgdir i false
  s ← get
  let rest = check_pages pgdir perm rounds (i + 4096)
  if ltb i ulim then fault_at i else if allows s perm p then rest else fault_at i

-- The loop runs for `i` from `ROUNDUP(va)` while it is below `ROUNDUP(va + len)`, in steps of a
-- page: both are multiples of PGSIZE, so it makes as many rounds as pages lie between them.
abbrev pub check_rounds : ℕ → ℕ → ℕ
check_rounds va len = (roundup (add32 va len) - roundup va) / 4096

unfoldable pub user_mem_check : ℕ → ℕ → ℕ → ℕ → Cmd Status
unfolding check_pages
user_mem_check env va len perm = do
  s ← get
  pgdir ← deref (s.envs env).env_pgdir
  p ← pgdir_walk pgdir va false
  t ← get
  if allows t perm p then check_pages pgdir perm (check_rounds va len) (roundup va) else fault_at va

pub check_va2pa : ℕ → ℕ → Cmd ℕ
check_va2pa pgdir va = do
  s ← get
  if not (test (s.mem pgdir (pdx va)) pte_p) then pure 0xFFFFFFFF else do
    table ← kaddr (pte_addr (s.mem pgdir (pdx va)))
    if not (test (s.mem table (ptx va)) pte_p)
        then pure 0xFFFFFFFF
        else pure (pte_addr (s.mem table (ptx va)))
