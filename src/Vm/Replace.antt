-- ===== src/Vm/Replace.antt =====
-- page_insert over another page: the old mapping goes, as by page_remove, and the new one takes its place.
use junior_os.Base.{
  ℕ, ◌+◌, ◌*◌, ◌/◌, ◌%◌, ◌<◌, ◌≡◌, ◌≢◌, refl, true, false, some, List, ◌∷◌, ◌==◌, if◌then◌else◌,
  has, arith, ◌∙◌, subst,
}
use junior_os.Machine.{pdx, ptx}
use junior_os.Machine.Laws.{test-present}
use junior_os.Kernel.{Kernel, returns, ok}
use junior_os.Pages.{page2pa, ref_plus}
use junior_os.Vm.{pte_at, insert_entry, page_insert, page_remove, new_entry, translates_by}
use junior_os.Vm.Walk.{walk_present}
use junior_os.Vm.Space.{
  self_map, Space, entry_of, stored, stored-entry_of, stored-Space, same_page, IsForeign,
}
use junior_os.Vm.Insert.{referenced, referenced-Space}
use junior_os.Vm.Remove.{table_of, pte}
use junior_os.Vm.Unmap.{Unmapped, IsUsed, IsData, table_present, page_remove-Unmapped}

-- The state `u` is `s` with `va` mapped to page `pp` under `perm` in place of page `n`.
pub record Replaced (pgdir n pp va perm : ℕ) (xs : List ℕ) (s u : Kernel) : Type 0 where
  pub mapped :
      (va' : ℕ)
      → pdx va' ≢ self_map
      → entry_of u pgdir va'
        ≡ (if same_page va va' then new_entry pp perm else entry_of s pgdir va')
  pub space : Space pgdir (if (s.page n).pp_ref == 1 then n ∷ xs else xs) u
  pub old_count : (u.page n).pp_ref + 1 ≡ (s.page n).pp_ref
  pub new_count : (u.page pp).pp_ref ≡ ref_plus (s.page pp).pp_ref
  pub others : (i : ℕ) → i ≢ n → i ≢ pp → u.page i ≡ s.page i
  pub flush :
      u.invalidated
      ≡ (if translates_by s.curenv s.envs pgdir then va ∷ s.invalidated else s.invalidated)
  pub kept : (u.npages ≡ s.npages) × (u.envs ≡ s.envs) × (u.curenv ≡ s.curenv) × (u.cr3 ≡ s.cr3)
  pub tables : (d : ℕ) → d ≢ self_map → u.mem pgdir d ≡ s.mem pgdir d
  pub memory : (i : ℕ) → IsForeign s pgdir i → u.mem i ≡ s.mem i

insert_over :
    (t u : Kernel) (pgdir pp va perm : ℕ)
    → (pte t pgdir va / 4096 * 4096 == page2pa pp) ≡ false
    → pte t pgdir va % 2 ≡ 1
    → page_remove pgdir va t ≡ returns tt u
    → insert_entry pgdir pp va perm (some (pte_at (table_of t pgdir va) va)) t
      ≡ returns ok (referenced pp (stored (table_of t pgdir va) (ptx va) (new_entry pp perm) u))
unfolding insert_entry
insert_over t u pgdir pp va perm other there run =
    rw (other, test-present (pte t pgdir va) there, run) refl

-- What is left of the mapping to page `n`, with the new one in its place.
module _ (s t : Kernel) (pgdir n pp va perm : ℕ) (xs ys : List ℕ) (un : Unmapped pgdir va n xs s t)
    (user : pdx va ≢ self_map) (table : s.mem pgdir (pdx va) % 2 ≡ 1) (other : n ≢ pp)
    (space : Space pgdir ys t) (out : has pp ys ≡ false) where
  abbrev replaced : Kernel
  replaced = referenced pp (stored (table_of s pgdir va) (ptx va) (new_entry pp perm) t)

  leads : t.mem pgdir (pdx va) ≡ s.mem pgdir (pdx va)
  leads = un.tables (pdx va) user

  there : t.mem pgdir (pdx va) % 2 ≡ 1
  there = rw leads table

  replaced-Space : Space pgdir ys replaced
  replaced-Space =
      subst (λ k. Space pgdir ys (referenced pp (stored (k / 4096) (ptx va) (new_entry pp perm) t)))
        leads
        (referenced-Space (stored (table_of t pgdir va) (ptx va) (new_entry pp perm) t) pgdir pp ys
          (stored-Space t pgdir va (new_entry pp perm) ys space user there) out)

  entries :
      (va' : ℕ)
      → pdx va' ≢ self_map
      → entry_of replaced pgdir va'
        ≡ (if same_page va va' then new_entry pp perm else entry_of s pgdir va')
  unfolding entry_of
  entries va' h =
      subst
        (λ k.
          entry_of (stored (k / 4096) (ptx va) (new_entry pp perm) t) pgdir va'
          ≡ (if same_page va va' then new_entry pp perm else entry_of t pgdir va'))
        leads (stored-entry_of t pgdir va (new_entry pp perm) ys space user there va' h)
      ∙ ground (arith, un.unmapped va' h)

  counts :
      ((replaced.page n).pp_ref + 1 ≡ (s.page n).pp_ref)
      × ((replaced.page pp).pp_ref ≡ ref_plus (s.page pp).pp_ref)
  counts = (ground (arith, un.count), ground (arith, un.others pp))

module _ (s : Kernel) (pgdir pp va perm : ℕ) (xs : List ℕ) (space : Space pgdir xs s)
    (user : pdx va ≢ self_map) (present : entry_of s pgdir va % 2 ≡ 1) where
  abbrev pub n : ℕ
  n = entry_of s pgdir va / 4096

  -- In a sound address space, where an address outside the slot of UVPT is mapped to a page in use,
  -- off the free list and neither the directory nor one of its page tables, page_insert of another
  -- page in range and off the free list succeeds. The address then has the entry for the new page,
  -- which has one reference more; the old page has one less and is at the head of the free list if
  -- that was the last; every other address translates as before, no other page changes, and the TLB
  -- entry is invalidated if the directory is in use.
  pub page_insert_over :
      pp < s.npages
      → has pp xs ≡ false
      → n ≢ pp
      → IsUsed n xs s
      → IsData s pgdir n
      → (u : Kernel) × (page_insert pgdir pp va perm s ≡ returns ok u)
        × Replaced pgdir n pp va perm xs s u
  unfolding page_insert
  page_insert_over in_range taken other used leaf =
      let (table, at) = table_present s pgdir va present in
      let (t, run, un) = page_remove-Unmapped s pgdir va xs space user present used leaf in
      let out : has pp (if (s.page n).pp_ref == 1 then n ∷ xs else xs) ≡ false = ground arith in
      let small : s.mem pgdir (pdx va) / 4096 < s.npages =
        ground (arith, space.slots (pdx va) user) in
      let not_same : (pte s pgdir va / 4096 * 4096 == page2pa pp) ≡ false = ground arith in
      (
        replaced s t pgdir n pp va perm xs _ un user table other un.space out,
        rw
            (
              walk_present s pgdir va true table small,
              insert_over s t pgdir pp va perm not_same (rw at at present) run,
            )
            refl,
        record {
          mapped = entries s t pgdir n pp va perm xs _ un user table other un.space out;
          space = replaced-Space s t pgdir n pp va perm xs _ un user table other un.space out;
          old_count = (counts s t pgdir n pp va perm xs _ un user table other un.space out).0;
          new_count = (counts s t pgdir n pp va perm xs _ un user table other un.space out).1;
          others = λ i no nn. ground (arith, un.others i no);
          flush = un.flush;
          kept = un.kept;
          tables = λ d h. ground (arith, space.slots (pdx va) user, un.tables d h);
          memory = λ i f. ground (arith, f.leaf (pdx va) user table, un.memory i f);
        },
      )
