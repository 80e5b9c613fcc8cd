-- ===== src/Syscalls/Memory.antt =====
-- sys_page_alloc and sys_page_unmap: the page that they map and unmap.
use junior_os.Base.{
  ℕ, ◌+◌, ◌-◌, ◌*◌, ◌^◌, ◌%◌, ◌/◌, ◌<◌, ◌≡◌, ◌≢◌, ◌⊎◌, refl, true, some, List, [], ◌∷◌, ◌==◌, arith,
  bit_and, gt→leb, ◌∙◌,
}
use junior_os.Machine.{pdx, utop, not_pte_syscall}
use junior_os.Machine.Laws.{entry}
use junior_os.Kernel.{Kernel, returns}
use junior_os.Pages.Alloc.{allocated, unused, page_alloc-cons, rest-FreeList}
use junior_os.Vm.Walk.{pde}
use junior_os.Vm.Space.{self_map, Space, entry_of, same_page_self}
use junior_os.Vm.Insert.{Mapped}
use junior_os.Vm.Unmap.{IsUsed, IsData, Unmapped, page_remove-Unmapped}
use junior_os.Vm.Mapping.{page_insert_fresh}
use junior_os.Envs.Lookup.{Reaches, envid2env-Reaches}
use junior_os.Syscalls.{value, sys_page_alloc, sys_page_unmap, user_present}

module _ (s : Kernel) (pgdir x : ℕ) (xs : List ℕ) (space : Space pgdir (x ∷ xs) s) where
  -- Taking a page from the free list leaves the address space as it is.
  allocated-Space : Space pgdir xs (allocated 1 x s)
  allocated-Space = record {
    small = space.small;
    free = rest-FreeList s x xs space.free unused refl;
    root = ground (arith, space.root);
    slots = λ d h. ground (arith, space.root, space.slots d h);
    apart = λ d e hd he ne pd pe. ground (arith, space.root, space.apart d e hd he ne);
  }

  pub allocated-entry_of :
      (va : ℕ) → pdx va ≢ self_map → entry_of (allocated 1 x s) pgdir va ≡ entry_of s pgdir va
  unfolding entry_of
  allocated-entry_of va h = ground (arith, space.root, space.slots (pdx va) h)

  allocated-pde : (va : ℕ) → pde (allocated 1 x s) pgdir va ≡ pde s pgdir va
  allocated-pde va = ground (arith, space.root)

-- The request passes the checks of sys_page_alloc on its arguments.
pub record IsGood (va perm : ℕ) : Type 0 where
  pub small : perm < 4096
  pub flags : (bit_and (bit_and perm 0xfff) not_pte_syscall == 0) ≡ true
  pub aligned : (va % 4096 == 0) ≡ true
  pub below : va < utop
  pub present : user_present perm ≡ true

module _ (s : Kernel) (c e envid pgdir x va perm : ℕ) (xs : List ℕ) (caller : s.curenv ≡ some c)
    (reaches : Reaches s c envid e) (good : IsGood va perm) where
  -- For the id 0, which is the caller's, or that of the caller or a child, with a page-aligned
  -- address below UTOP and permitted flags of twelve bits with PTE_U and PTE_P, a sound address
  -- space, an address that translates to nothing and enough free pages, the first of which is not
  -- page 0, sys_page_alloc maps that page at the address, the entry being the page's address and
  -- the flags, with one reference; every other address translates as before.
  pub sys_page_alloc-Mapped :
      (s.envs e).env_pgdir ≡ some pgdir
      → Space pgdir (x ∷ xs) s
      → (pde s pgdir va ≢ 0) ⊎ (xs ≢ [])
      → entry_of s pgdir va ≡ 0
      → x ≢ 0
      → (u : Kernel) × (sys_page_alloc envid va perm s ≡ returns (value 0) u)
        × Mapped pgdir x va perm xs (allocated 1 x s) u
        × (entry_of u pgdir va ≡ x * 4096 + (perm + (1 - perm % 2)))
        × ((u.page x).pp_ref ≡ 1)
  unfolding sys_page_alloc
  sys_page_alloc-Mapped has_pgdir space room absent nonzero =
      let taken = allocated 1 x s in
      let user : pdx va ≢ self_map = λ same. ground (arith, good.below) in
      let nothing : entry_of taken pgdir va ≡ 0 =
        allocated-entry_of s pgdir x xs space va user ∙ absent in
      let (u, run, mapped, found, count) =
        page_insert_fresh taken pgdir x va perm xs (allocated-Space s pgdir x xs space) user
          space.free.free.0 space.free.distinct.0 (rw (allocated-pde s pgdir x xs space va) room)
          (rw nothing refl) (rw nothing (λ z. ground arith)) in
      let at : x * 4096 % 2 ^ 32 / 4096 * 4096 ≡ x * 4096 =
        omega (arith, space.free.free.0, space.small) in
      (
        u,
        rw
            (
              good.flags,
              good.aligned,
              gt→leb utop va good.below,
              envid2env-Reaches s c envid e caller reaches,
              good.present,
              page_alloc-cons s x xs space.free 1 space.small,
              has_pgdir,
              run,
            )
            refl,
        mapped,
        mapped.mapped va user ∙ rw (same_page_self va, at) (entry x perm good.small),
        ground arith,
      )

-- For the id 0, which is the caller's, or that of the caller or a child, a page-aligned address
-- below UTOP that is mapped in a sound address space, to a page in use, off the free list and
-- neither the directory nor one of its page tables, sys_page_unmap returns 0: the address then
-- translates to nothing and every other as before, the page has one reference less and is at the
-- head of the free list if that was the last, no other page changes, and the TLB entry is
-- invalidated if the directory is in use.
pub sys_page_unmap-Unmapped :
    (s : Kernel) (c e envid pgdir va : ℕ) (xs : List ℕ)
    → s.curenv ≡ some c
    → Reaches s c envid e
    → (s.envs e).env_pgdir ≡ some pgdir
    → (va % 4096 == 0) ≡ true
    → va < utop
    → Space pgdir xs s
    → entry_of s pgdir va % 2 ≡ 1
    → IsUsed (entry_of s pgdir va / 4096) xs s
    → IsData s pgdir (entry_of s pgdir va / 4096)
    → (u : Kernel) × (sys_page_unmap envid va s ≡ returns (value 0) u)
      × Unmapped pgdir va (entry_of s pgdir va / 4096) xs s u
unfolding sys_page_unmap
sys_page_unmap-Unmapped s c e envid pgdir va xs caller reaches has_pgdir aligned below space present
      used leaf =
    let user : pdx va ≢ self_map = λ same. ground (arith, below) in
    let (u, run, unmapped) = page_remove-Unmapped s pgdir va xs space user present used leaf in
    (
      u,
      rw
          (
            aligned,
            gt→leb utop va below,
            envid2env-Reaches s c envid e caller reaches,
            has_pgdir,
            run,
          )
          refl,
      unmapped,
    )
