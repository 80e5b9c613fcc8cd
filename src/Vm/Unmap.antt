-- ===== src/Vm/Unmap.antt =====
-- page_remove on an address space: a mapping goes, and its page with it when that was the last one.
use junior_os.Base.{
  ℕ, ◌+◌, ◌/◌, ◌%◌, ◌<◌, ◌≡◌, ◌≢◌, refl, inl, inr, true, false, none, List, ◌∷◌, ◌==◌,
  if◌then◌else◌, has, arith, Bool-cases, eqb→eq,
}
use junior_os.Machine.{pdx, ptx}
use junior_os.Kernel.{Kernel, returns}
use junior_os.Pages.FreeList.{Free, Chain-update, Unreferenced-update, Unreferenced-has}
use junior_os.Pages.Alloc.{freed, decremented, freed-FreeList, page_decref_last, page_decref-shared}
use junior_os.Vm.{page_remove, translates_by}
use junior_os.Vm.Space.{
  self_map, Space, IsForeign, entry_of, stored, same_page, stored-entry_of, stored-Space,
}
use junior_os.Vm.Remove.{table_of, pte, flushed, remove_present}

-- The page is mapped as data: it is neither the directory nor one of its page tables.
abbrev pub IsData : Kernel → ℕ → ℕ → Type 0
IsData s pgdir n =
    (n ≢ pgdir) × ((d : ℕ) → d ≢ self_map → s.mem pgdir d % 2 ≡ 1 → s.mem pgdir d / 4096 ≢ n)

-- A page that is in use: out of the free list's reach, with a count that has not wrapped.
pub record IsUsed (n : ℕ) (xs : List ℕ) (s : Kernel) : Type 0 where
  pub in_range : n < s.npages
  pub counted : 0 < (s.page n).pp_ref
  pub bounded : (s.page n).pp_ref < 65536
  pub unlinked : (s.page n).pp_link ≡ none
  pub taken : has n xs ≡ false

-- The state `u` is `s` without the mapping of `va` to page `n`.
pub record Unmapped (pgdir va n : ℕ) (xs : List ℕ) (s u : Kernel) : Type 0 where
  pub unmapped :
      (va' : ℕ)
      → pdx va' ≢ self_map
      → entry_of u pgdir va' ≡ (if same_page va va' then 0 else entry_of s pgdir va')
  pub space : Space pgdir (if (s.page n).pp_ref == 1 then n ∷ xs else xs) u
  pub count : (u.page n).pp_ref + 1 ≡ (s.page n).pp_ref
  pub others : (i : ℕ) → i ≢ n → u.page i ≡ s.page i
  pub flush :
      u.invalidated
      ≡ (if translates_by s.curenv s.envs pgdir then va ∷ s.invalidated else s.invalidated)
  pub kept : (u.npages ≡ s.npages) × (u.envs ≡ s.envs) × (u.curenv ≡ s.curenv) × (u.cr3 ≡ s.cr3)
  pub tables : (d : ℕ) → d ≢ self_map → u.mem pgdir d ≡ s.mem pgdir d
  pub memory : (i : ℕ) → IsForeign s pgdir i → u.mem i ≡ s.mem i

-- An entry that is present stands in a page table that is present.
pub table_present :
    (s : Kernel) (pgdir va : ℕ)
    → entry_of s pgdir va % 2 ≡ 1
    → (s.mem pgdir (pdx va) % 2 ≡ 1) × (entry_of s pgdir va ≡ pte s pgdir va)
unfolding entry_of
table_present s pgdir va p = ground arith

module _ (s : Kernel) (pgdir va : ℕ) (xs : List ℕ) (space : Space pgdir xs s)
    (user : pdx va ≢ self_map) (present : s.mem pgdir (pdx va) % 2 ≡ 1)
    (used : IsUsed (pte s pgdir va / 4096) xs s) where
  abbrev old : ℕ
  old = pte s pgdir va / 4096

  abbrev cut : Kernel
  cut = stored (table_of s pgdir va) (ptx va) 0 s

  cut-Space : Space pgdir xs cut
  cut-Space = stored-Space s pgdir va 0 xs space user present

  table-lt : table_of s pgdir va < s.npages
  table-lt = ground (arith, space.slots (pdx va) user)

  unmap_last :
      IsData s pgdir old
      → ((s.page old).pp_ref == 1) ≡ true
      → (u : Kernel) × (page_remove pgdir va s ≡ returns tt u) × Unmapped pgdir va old xs s u
  unfolding entry_of
  unmap_last leaf one = (
    flushed pgdir va (freed old cut),
    remove_present s pgdir va present table-lt used.in_range (freed old cut)
        (page_decref_last cut old (eqb→eq _ 1 one) used.unlinked),
    record {
      unmapped = stored-entry_of s pgdir va 0 xs space user present;
      space = rw one (record {
        small = space.small;
        free = freed-FreeList cut old xs space.free used.in_range used.taken;
        root = ground (arith, leaf.0, space.root);
        slots = λ d h. ground (arith, cut-Space.slots d h, space.slots (pdx va) user, leaf.1 d h);
        apart = cut-Space.apart;
      });
      count = ground arith;
      others = λ i ne. ground arith;
      flush = refl;
      kept = (refl, refl, refl, refl);
      tables = λ d h. ground (arith, space.slots (pdx va) user);
      memory = λ i f. ground (arith, f.leaf (pdx va) user present);
    },
  )

  unmap_shared :
      ((s.page old).pp_ref == 1) ≡ false
      → (u : Kernel) × (page_remove pgdir va s ≡ returns tt u) × Unmapped pgdir va old xs s u
  unfolding entry_of
  unmap_shared many = (
    flushed pgdir va (decremented old cut),
    remove_present s pgdir va present table-lt used.in_range (decremented old cut)
        (page_decref-shared cut old (ground (arith, used.counted)) used.bounded),
    record {
      unmapped = stored-entry_of s pgdir va 0 xs space user present;
      space = rw many (record {
        small = space.small;
        free = record {
          chain = Chain-update s.page old _ s.page_free_list xs used.taken space.free.chain;
          distinct = space.free.distinct;
          free = Unreferenced-update s.npages s.page old _ xs used.taken space.free.free;
          detached = λ i out. ground (arith, space.free.detached i);
        };
        root = space.root;
        slots = cut-Space.slots;
        apart = cut-Space.apart;
      });
      count = ground (arith, used.counted, used.bounded);
      others = λ i ne. ground arith;
      flush = refl;
      kept = (refl, refl, refl, refl);
      tables = λ d h. ground (arith, space.slots (pdx va) user);
      memory = λ i f. ground (arith, f.leaf (pdx va) user present);
    },
  )

-- In a sound address space, page_remove of a mapped address outside the slot of UVPT, whose page is
-- in use, off the free list and neither the directory nor one of its page tables, returns. The
-- address then translates to nothing and every other as before; the page has one reference less and
-- is at the head of the free list if that was the last; no other page changes; the TLB entry is
-- invalidated if the directory is in use; and the address space is sound.
pub page_remove-Unmapped :
    (s : Kernel) (pgdir va : ℕ) (xs : List ℕ)
    → Space pgdir xs s
    → pdx va ≢ self_map
    → entry_of s pgdir va % 2 ≡ 1
    → IsUsed (entry_of s pgdir va / 4096) xs s
    → IsData s pgdir (entry_of s pgdir va / 4096)
    → (u : Kernel) × (page_remove pgdir va s ≡ returns tt u)
      × Unmapped pgdir va (entry_of s pgdir va / 4096) xs s u
page_remove-Unmapped s pgdir va xs space user p =
    let (present, same) = table_present s pgdir va p in
    rw same (λ used leaf. elim (Bool-cases ((s.page (pte s pgdir va / 4096)).pp_ref == 1)) [
      | inl one ↦ unmap_last s pgdir va xs space user present used leaf one
      | inr many ↦ unmap_shared s pgdir va xs space user present used many
    ])

-- In a sound address space, where the page table for an address outside the slot of UVPT is there
-- but the entry is 0, page_remove takes the address to be mapped to page 0: page 0 goes to the free
-- list if it had one reference and no link.
pub page_remove-frees_page_zero :
    (s : Kernel) (pgdir va : ℕ) (xs : List ℕ)
    → Space pgdir xs s
    → pdx va ≢ self_map
    → s.mem pgdir (pdx va) % 2 ≡ 1
    → entry_of s pgdir va ≡ 0
    → 0 < s.npages
    → (s.page 0).pp_ref ≡ 1
    → (s.page 0).pp_link ≡ none
    → (u : Kernel) × (page_remove pgdir va s ≡ returns tt u)
      × Free u (0 ∷ xs)
      × ((u.page 0).pp_ref ≡ 0)
unfolding entry_of
page_remove-frees_page_zero s pgdir va xs space user present unmapped some_page one unlinked =
    let at : pte s pgdir va ≡ 0 = ground arith in
    let cut = stored (table_of s pgdir va) (ptx va) 0 s in
    let out : has 0 xs ≡ false =
      ground (arith, Unreferenced-has s.npages s.page 0 xs space.free.free) in
    (
      flushed pgdir va (freed 0 cut),
      remove_present s pgdir va present (ground (arith, space.slots (pdx va) user)) (ground arith)
          (freed 0 cut) (rw at (page_decref_last cut 0 one unlinked)),
      freed-FreeList cut 0 xs space.free some_page out,
      refl,
    )
