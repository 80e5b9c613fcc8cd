-- ===== src/Syscalls/Mapping.antt =====
-- sys_page_map: the page that two address spaces share.
use junior_os.Base.{
  ℕ, ◌/◌, ◌%◌, ◌<◌, ◌≡◌, ◌≢◌, ◌⊎◌, ◌&&◌, not, false, some, List, [], has, arith, refl, ap, sym,
}
use junior_os.Machine.{pdx, utop, pte_w, test}
use junior_os.Kernel.{Kernel, returns, ok}
use junior_os.Pages.{ref_plus}
use junior_os.Vm.{page_lookup, page_insert, pte_at}
use junior_os.Vm.Walk.{pde}
use junior_os.Vm.Space.{self_map, Space, entry_of}
use junior_os.Vm.Insert.{Mapped}
use junior_os.Vm.Remove.{table_of, lookup_page}
use junior_os.Vm.Unmap.{table_present, IsUsed, IsData}
use junior_os.Vm.Replace.{Replaced, page_insert_over}
use junior_os.Vm.Mapping.{page_insert_fresh, page_insert_again}
use junior_os.Envs.Lookup.{Reaches, envid2env-Reaches}
use junior_os.Syscalls.{value, sys_page_map, map_args_bad}

-- The call names two environments `a` and `b` with directories `p` and `k`, passes the checks on its
-- arguments, and the source address is mapped, writable if the new mapping is to be.
pub record CanShare (s : Kernel) (c a b p k srcid srcva dstid dstva perm : ℕ) (xs : List ℕ)
    : Type 0 where
  pub caller : s.curenv ≡ some c
  pub from : Reaches s c srcid a
  pub to : Reaches s c dstid b
  pub source : (s.envs a).env_pgdir ≡ some p
  pub target : (s.envs b).env_pgdir ≡ some k
  pub good : map_args_bad srcva dstva perm ≡ false
  pub space : Space p xs s
  pub present : entry_of s p srcva % 2 ≡ 1
  pub in_range : entry_of s p srcva / 4096 < s.npages
  pub allowed : (test perm pte_w && not (test (entry_of s p srcva) pte_w)) ≡ false

below-utop :
    (srcva dstva perm : ℕ) → map_args_bad srcva dstva perm ≡ false → (srcva < utop) × (dstva < utop)
below-utop srcva dstva perm good = ground arith

module _ (s : Kernel) (c a b p k srcid srcva dstid dstva perm : ℕ) (xs : List ℕ)
    (can : CanShare s c a b p k srcid srcva dstid dstva perm xs) where
  lookup :
      page_lookup p srcva s
      ≡ returns (some (entry_of s p srcva / 4096, pte_at (table_of s p srcva) srcva)) s
  lookup =
      let (table, at) = table_present s p srcva can.present in
      let (lo, hi) = below-utop srcva dstva perm can.good in
      let user : pdx srcva ≢ self_map = λ same. ground arith in
      let small : table_of s p srcva < s.npages =
        ground (arith, can.space.slots (pdx srcva) user) in
      lookup_page s p srcva table small (rw at at can.in_range) (entry_of s p srcva / 4096)
        (ap (λ e. e / 4096) (sym at))

  -- The call is a page_insert into the target.
  sys_page_map_eq :
      (u : Kernel)
      → page_insert k (entry_of s p srcva / 4096) dstva perm s ≡ returns ok u
      → sys_page_map srcid srcva dstid dstva perm s ≡ returns (value 0) u
  unfolding sys_page_map
  sys_page_map_eq u run =
      let (table, at) = table_present s p srcva can.present in
      rw
        (
          envid2env-Reaches s c srcid a can.caller can.from,
          envid2env-Reaches s c dstid b can.caller can.to,
          can.good,
          can.source,
          lookup,
          rw at at can.allowed,
          can.target,
          run,
        )
        refl

  -- Where the target address is mapped to nothing yet, and its directory is sound.
  pub sys_page_map-Mapped :
      Space k xs s
      → has (entry_of s p srcva / 4096) xs ≡ false
      → (pde s k dstva ≢ 0) ⊎ (xs ≢ [])
      → entry_of s k dstva % 2 ≡ 0
      → entry_of s k dstva / 4096 ≢ entry_of s p srcva / 4096
      → (u : Kernel) × (sys_page_map srcid srcva dstid dstva perm s ≡ returns (value 0) u)
        × Mapped k (entry_of s p srcva / 4096) dstva perm xs s u
        × ((u.page (entry_of s p srcva / 4096)).pp_ref
            ≡ ref_plus (s.page (entry_of s p srcva / 4096)).pp_ref)
  sys_page_map-Mapped space taken room absent other =
      let (lo, hi) = below-utop srcva dstva perm can.good in
      let user : pdx dstva ≢ self_map = λ same. ground arith in
      let (u, run, mapped, found, count) =
        page_insert_fresh s k (entry_of s p srcva / 4096) dstva perm xs space user can.in_range
          taken room absent other in
      (u, sys_page_map_eq u run, mapped, count)

  -- Where the target address is mapped to that page already: only the flags change.
  pub sys_page_map_again :
      Space k xs s
      → entry_of s k dstva % 2 ≡ 1
      → entry_of s k dstva / 4096 ≡ entry_of s p srcva / 4096
      → (u : Kernel) × (sys_page_map srcid srcva dstid dstva perm s ≡ returns (value 0) u)
        × Mapped k (entry_of s p srcva / 4096) dstva perm xs s u
        × (u.page ≡ s.page)
  sys_page_map_again space present same =
      let (lo, hi) = below-utop srcva dstva perm can.good in
      let user : pdx dstva ≢ self_map = λ same. ground arith in
      let (u, run, mapped, found, page, list) =
        page_insert_again s k (entry_of s p srcva / 4096) dstva perm xs space user can.in_range
          present same in
      (u, sys_page_map_eq u run, mapped, page)

  -- Where the target address is mapped to another page, which goes.
  pub sys_page_map_over :
      Space k xs s
      → entry_of s k dstva % 2 ≡ 1
      → has (entry_of s p srcva / 4096) xs ≡ false
      → entry_of s k dstva / 4096 ≢ entry_of s p srcva / 4096
      → IsUsed (entry_of s k dstva / 4096) xs s
      → IsData s k (entry_of s k dstva / 4096)
      → (u : Kernel) × (sys_page_map srcid srcva dstid dstva perm s ≡ returns (value 0) u)
        × Replaced k (entry_of s k dstva / 4096) (entry_of s p srcva / 4096) dstva perm xs s u
  sys_page_map_over space present taken other used leaf =
      let (lo, hi) = below-utop srcva dstva perm can.good in
      let user : pdx dstva ≢ self_map = λ same. ground arith in
      let (u, run, replaced) =
        page_insert_over s k (entry_of s p srcva / 4096) dstva perm xs space user present
          can.in_range taken other used leaf in
      (u, sys_page_map_eq u run, replaced)
