-- ===== src/Vm/Insert.antt =====
-- page_insert on an address space: a fresh mapping, the same page again, and no memory for a table.
use junior_os.Base.{
  ℕ, ◌*◌, ◌/◌, ◌%◌, ◌^◌, ◌<◌, ◌≡◌, ◌≢◌, refl, true, false, some, List, ◌==◌, if◌then◌else◌, update,
  ◌⊎◌, has, arith, ap, ◌∙◌,
}
use junior_os.Machine.{pdx, ptx}
use junior_os.Machine.Laws.{entry, test-absent}
use junior_os.Kernel.{Kernel, PageInfo, returns, ok}
use junior_os.Pages.{page2pa, ref_plus}
use junior_os.Pages.FreeList.{FreeList, Chain-update, Unreferenced-update}
use junior_os.Vm.{pte_at, insert_entry, page_lookup, new_entry}
use junior_os.Vm.Space.{
  self_map, Space, entry_of, stored, same_page, stored-entry_of, stored-Space, Walked, IsForeign,
  Beside, Grown,
}
use junior_os.Vm.Remove.{table_of, pte, lookup_page}

-- The entry that page_insert writes: the page's address above twelve flag digits, present.
pub new_entry_lem :
    (pp perm : ℕ)
    → pp < 2 ^ 20
    → perm < 4096
    → (new_entry pp perm / 4096 ≡ pp) × (new_entry pp perm % 2 ≡ 1)
new_entry_lem pp perm small flags =
    let at : pp * 4096 % 2 ^ 32 / 4096 * 4096 ≡ pp * 4096 = omega arith in
    rw (at, entry pp perm flags) (omega arith, omega arith)

-- A count of references one higher, in a page that is on no free list.
abbrev pub referenced : ℕ → Kernel → Kernel
referenced pp s = record s {
  page = update s.page pp (record (s.page pp) { pp_ref = ref_plus (s.page pp).pp_ref });
}

pub referenced-Space :
    (s : Kernel) (pgdir pp : ℕ) (xs : List ℕ)
    → Space pgdir xs s
    → has pp xs ≡ false
    → Space pgdir xs (referenced pp s)
referenced-Space s pgdir pp xs space out = record {
  small = space.small;
  free = record {
    chain = Chain-update s.page pp _ s.page_free_list xs out space.free.chain;
    distinct = space.free.distinct;
    free = Unreferenced-update s.npages s.page pp _ xs out space.free.free;
    detached = λ i h. ground (arith, space.free.detached i);
  };
  root = space.root;
  slots = space.slots;
  apart = space.apart;
}

-- The state `u` is `s` with `va` mapped to page `pp` under `perm`; `xs` were free before, and page
-- tables have come from there.
pub record Mapped (pgdir pp va perm : ℕ) (xs : List ℕ) (s u : Kernel) : Type 0 where
  pub mapped :
      (va' : ℕ)
      → pdx va' ≢ self_map
      → entry_of u pgdir va'
        ≡ (if same_page va va' then new_entry pp perm else entry_of s pgdir va')
  pub left : List ℕ
  pub space : Space pgdir left u
  pub shrunk : (i : ℕ) → has i xs ≡ false → has i left ≡ false
  pub others : (i : ℕ) → i ≢ pp → has i xs ≡ false → u.page i ≡ s.page i
  pub kept :
      (u.npages ≡ s.npages)
      × (u.envs ≡ s.envs)
      × (u.curenv ≡ s.curenv)
      × (u.invalidated ≡ s.invalidated)
      × (u.cr3 ≡ s.cr3)
  pub memory : Beside pgdir xs s u
  pub tables : Grown pgdir xs s u
  pub slots : (d : ℕ) → d ≢ self_map → s.mem pgdir d % 2 ≡ 1 → u.mem pgdir d ≡ s.mem pgdir d

-- What page_insert does once the walk has led to a page table.
module _ (t : Kernel) (pgdir pp va perm : ℕ) where
  pub insert_fresh :
      (pte t pgdir va / 4096 * 4096 == page2pa pp) ≡ false
      → pte t pgdir va % 2 ≡ 0
      → insert_entry pgdir pp va perm (some (pte_at (table_of t pgdir va) va)) t
        ≡ returns ok (referenced pp (stored (table_of t pgdir va) (ptx va) (new_entry pp perm) t))
  unfolding insert_entry
  insert_fresh other absent = rw (other, test-absent (pte t pgdir va) absent) refl

  pub insert_again :
      (pte t pgdir va / 4096 * 4096 == page2pa pp) ≡ true
      → insert_entry pgdir pp va perm (some (pte_at (table_of t pgdir va) va)) t
        ≡ returns ok (stored (table_of t pgdir va) (ptx va) (new_entry pp perm) t)
  unfolding insert_entry
  insert_again same = rw same refl

-- Any page array under which the free list is sound will do for the state after the store.
module _ (s t : Kernel) (pgdir pp va perm : ℕ) (xs ys : List ℕ) (walked : Walked pgdir va s xs ys t)
    (user : pdx va ≢ self_map) (f : ℕ → PageInfo) (free : FreeList t.npages f t.page_free_list ys)
    (others : (i : ℕ) → i ≢ pp → f i ≡ t.page i) where
  open walked use {space, present}

  abbrev pub after : Kernel
  after = record (stored (table_of t pgdir va) (ptx va) (new_entry pp perm) t) { page = f }

  abbrev put : Space pgdir ys (stored (table_of t pgdir va) (ptx va) (new_entry pp perm) t)
  put = stored-Space t pgdir va (new_entry pp perm) ys space user present

  same_npages : t.npages ≡ s.npages
  same_npages = ap (λ (k : Kernel). k.npages) walked.same

  -- For flags of twelve digits the page is then found at the address.
  pub after-lookup :
      pp < s.npages
      → perm < 4096
      → page_lookup pgdir va after ≡ returns (some (pp, pte_at (table_of after pgdir va) va)) after
  after-lookup in_range flags =
      let (at, bit) = new_entry_lem pp perm (ground (arith, same_npages, space.small)) flags in
      let off : (table_of t pgdir va == pgdir) ≡ false =
        ground (arith, space.slots (pdx va) user) in
      let leads : after.mem pgdir (pdx va) ≡ t.mem pgdir (pdx va) = ground arith in
      let holds : pte after pgdir va ≡ new_entry pp perm = ground arith in
      lookup_page after pgdir va (rw leads present)
        (rw leads (ground (arith, space.slots (pdx va) user)))
        (rw holds (ground (arith, same_npages))) pp (rw holds at)

  -- The store is to a page table.
  table_off : (n : ℕ) → IsForeign s pgdir n → has n xs ≡ false → after.mem n ≡ t.mem n
  table_off n f out = ground (arith, walked.tables (pdx va) user present, f.leaf (pdx va) user)

  still_slots :
      (d : ℕ)
      → d ≢ self_map
      → after.mem pgdir d % 2 ≡ 1
      → (has (after.mem pgdir d / 4096) xs ≡ true) ⊎ (after.mem pgdir d ≡ s.mem pgdir d)
  still_slots d h p =
      let leads : after.mem pgdir d ≡ t.mem pgdir d = ground (arith, space.slots (pdx va) user) in
      rw leads (walked.tables d h (rw leads at p))

  pub after-Mapped : Mapped pgdir pp va perm xs s after
  unfolding entry_of
  after-Mapped = record {
    mapped = λ va' h.
        stored-entry_of t pgdir va (new_entry pp perm) ys space user present va' h
        ∙ ap (λ e. if same_page va va' then new_entry pp perm else e) (walked.kept va' h);
    left = ys;
    space = record {
      small = space.small;
      free = free;
      root = space.root;
      slots = put.slots;
      apart = put.apart;
    };
    shrunk = walked.shrunk;
    others = λ i ne out. others i ne ∙ walked.others i out;
    kept = ground (arith, walked.same);
    memory = λ n f out. table_off n f out ∙ walked.memory n f out;
    tables = λ d h p. still_slots d h p;
    slots = λ d h p. ground (arith, space.slots (pdx va) user, walked.slots d h p);
  }
