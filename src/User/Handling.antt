-- ===== src/User/Handling.antt =====
-- pgfault as a whole: its checks, the new page, the copy, and the two changes of the mapping.
use junior_os.Base.{ℕ, ◌+◌, ◌/◌, ◌%◌, ◌≡◌, inl, refl, true, List, arith, ◌∙◌, ap, sym}
use junior_os.Machine.{pte_u, pdx, ptx, pgnum, pte_p, test, rounddown}
use junior_os.Machine.Laws.{test-present}
use junior_os.Kernel.{Kernel, Cmd, ◌>>=◌, ◌>>◌, returns}
use junior_os.Vm.Space.{entry_of}
use junior_os.Vm.Unmap.{table_present}
use junior_os.Syscalls.{value, sys_page_alloc, sys_page_unmap}
use junior_os.Syscalls.Memory.{sys_page_alloc-Mapped}
use junior_os.User.{
  int_syscall, page_alloc_stub, page_map_stub, page_unmap_stub, or_panic, copy_bytes, uvpt,
  cow_fault, pgfault, pftemp, private_perm,
}
use junior_os.User.Sharing.{uvpd_eq, uvpt_eq, page_map_ok}
use junior_os.User.Copying.{copy_bytes-Copied}
use junior_os.User.Fault.{CanFault, can_copy}
use junior_os.User.Private.{Private, map_copy, unmap_temp, result-Private}

page_alloc_ok :
    (a b d : ℕ) (s u : Kernel)
    → sys_page_alloc a b d s ≡ returns (value 0) u
    → int_syscall true 4 a b d 0 0 s ≡ returns 0 u
unfolding junior_os.Syscalls.syscall
page_alloc_ok a b d s u run = rw run refl

page_unmap_ok :
    (a b : ℕ) (s u : Kernel)
    → sys_page_unmap a b s ≡ returns (value 0) u
    → int_syscall true 6 a b 0 0 0 s ≡ returns 0 u
unfolding junior_os.Syscalls.syscall
page_unmap_ok a b s u run = rw run refl

-- The five steps, where each returns.
in_turn :
    (check : Cmd (Unit {0})) (alloc : Cmd ℕ) (copy : Cmd (Unit {0})) (map unmap : Cmd ℕ)
    (s u w x v : Kernel)
    → check s ≡ returns tt s
    → alloc s ≡ returns 0 u
    → copy u ≡ returns tt w
    → map w ≡ returns 0 x
    → unmap x ≡ returns 0 v
    → (do check; r ← alloc; or_panic r; copy; q ← map; or_panic q; p ← unmap; or_panic p) s
      ≡ returns tt v
in_turn check alloc copy map unmap s u w x v one two three four five =
    rw (one, two, three, four, five) refl

module _ (s : Kernel) (c p addr err n : ℕ) (xs : List ℕ)
    (can : CanFault s c p (rounddown addr) n xs) where
  uvpt_addr : uvpt (pgnum addr) s ≡ returns (entry_of s p (rounddown addr)) s
  uvpt_addr =
      let (table, at) = table_present s p (rounddown addr) can.present in
      let d : pdx (rounddown addr) ≡ pgnum addr / 1024 = ground (arith, can.below) in
      let i : ptx (rounddown addr) ≡ pgnum addr % 1024 = ground (arith, can.below) in
      let there : s.mem p (pgnum addr / 1024) % 2 ≡ 1 = ground arith in
      let user : test (s.mem p (pgnum addr / 1024)) pte_u ≡ true = rw (← d) can.table in
      let value : s.mem (s.mem p (pgnum addr / 1024) / 4096) (pgnum addr % 1024)
          ≡ entry_of s p (rounddown addr) =
        ground arith in
      uvpt_eq s p can.loaded can.own (pgnum addr) there user ∙ ap (λ e. returns e s) value

  cow_fault_ok : test err 2 ≡ true → cow_fault addr err s ≡ returns tt s
  unfolding cow_fault
  cow_fault_ok write =
      let (table, at) = table_present s p (rounddown addr) can.present in
      let d : pdx addr ≡ pdx (rounddown addr) = ground arith in
      let dir : test (s.mem p (pdx addr)) pte_p ≡ true =
        test-present (s.mem p (pdx addr)) (ground arith) in
      let page = test-present (entry_of s p (rounddown addr)) can.present in
      rw (write, uvpd_eq s p can.loaded can.own (pdx addr), dir, uvpt_addr, can.cow, page) refl

  -- For a write fault below UTOP on a page that is mapped copy-on-write and for users, not the one
  -- at PFTEMP, to a page in use that is neither the directory nor one of its page tables, where the
  -- loaded directory is sound, the program's own and in its slot at UVPT, grants users its page
  -- table and PFTEMP's, the latter for writing, and maps nothing at PFTEMP, and the first free page
  -- is not page 0: pgfault returns. The page is then mapped to that free page, writable, which has
  -- the old page's bytes and one reference; every other address translates as before, PFTEMP
  -- included; the old page has its bytes and one reference less; and the directory is sound.
  pub pgfault-Private :
      test err 2 ≡ true
      → (v : Kernel) × (pgfault addr err s ≡ returns tt v)
        × Private p (entry_of s p (rounddown addr) / 4096) n (rounddown addr) s v
  unfolding pgfault
  pgfault-Private write =
      let va = rounddown addr in
      let (u, alloc, m, _, one) =
        sys_page_alloc-Mapped s c c 0 p n pftemp private_perm xs can.caller (inl (refl, refl))
          (record {
            small = omega arith;
            flags = refl;
            aligned = refl;
            below = omega arith;
            present = refl;
          })
          can.pgdir can.space (inl (λ z. ground (arith, can.temp_table.0))) can.empty can.nonzero in
      let (mem', copy, cop) =
        copy_bytes-Copied 4096 u pftemp va n _ 0 (can_copy s c p va n xs can u m) (omega arith) in
      let (x, map, rep) = map_copy s c p va n xs can u m one mem' cop in
      let (v, unmap, un) = unmap_temp s c p va n xs can u m one mem' cop x rep in
      let start : va + 0 ≡ va = omega arith in
      (
        v,
        in_turn (cow_fault addr err) (page_alloc_stub 0 pftemp private_perm)
            (copy_bytes 4096 pftemp va) (page_map_stub 0 pftemp 0 va private_perm)
            (page_unmap_stub 0 pftemp) s u _ x v (cow_fault_ok write)
            (page_alloc_ok 0 pftemp private_perm s u alloc)
            (ap (λ a. copy_bytes 4096 pftemp a u) (sym start) ∙ copy)
            (page_map_ok 0 pftemp 0 va private_perm _ x map) (page_unmap_ok 0 pftemp x v unmap),
        result-Private s c p va n xs can u m one mem' cop x rep v un,
      )
