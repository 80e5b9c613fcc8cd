-- ===== src/Vm/Space.antt =====
-- A page directory as a map from addresses to entries, and what keeps its page tables apart.
use junior_os.Base.{
  ℕ, ◌+◌, ◌/◌, ◌%◌, ◌^◌, ◌≤◌, ◌<◌, ◌≡◌, ◌≢◌, refl, ◌⊎◌, inl, inr, Bool, true, false, ◌&&◌, some,
  List, [], ◌∷◌, ◌==◌, if◌then◌else◌, update, has, length, arith,
}
use junior_os.Machine.{pdx, ptx}
use junior_os.Kernel.{Kernel, returns}
use junior_os.Pages.FreeList.{Free}
use junior_os.Pages.Alloc.{rest-FreeList}
use junior_os.Vm.{pte_at, pgdir_walk}
use junior_os.Vm.Walk.{pde, tabled, walk_present, walk_creates}

-- What an address translates by: its page table entry, or 0 where there is no page table.
unfoldable pub entry_of : Kernel → ℕ → ℕ → ℕ
entry_of s pgdir va = if pde s pgdir va % 2 == 1 then s.mem (pde s pgdir va / 4096) (ptx va) else 0

abbrev pub self_map : ℕ
self_map = 957

-- A slot of a page directory that is 0, or present and for a page table of its own that is neither
-- the directory nor a free page.
abbrev pub IsSlot : Kernel → ℕ → List ℕ → ℕ → Type 0
IsSlot s pgdir xs d =
    (s.mem pgdir d ≡ 0)
    ⊎ ((s.mem pgdir d % 2 ≡ 1)
        × (s.mem pgdir d / 4096 < s.npages)
        × (s.mem pgdir d / 4096 ≢ pgdir)
        × (has (s.mem pgdir d / 4096) xs ≡ false))

-- A page directory that the kernel may change: all its slots but the one at UVPT, where a directory
-- maps itself, are sound, and no two share a page table.
pub record Space (pgdir : ℕ) (xs : List ℕ) (s : Kernel) : Type 0 where
  pub small : s.npages ≤ 2 ^ 20
  pub free : Free s xs
  pub root : has pgdir xs ≡ false
  pub slots : (d : ℕ) → d ≢ self_map → IsSlot s pgdir xs d
  pub apart :
      (d e : ℕ)
      → d ≢ self_map
      → e ≢ self_map
      → d ≢ e
      → s.mem pgdir d % 2 ≡ 1
      → s.mem pgdir e % 2 ≡ 1
      → s.mem pgdir d / 4096 ≢ s.mem pgdir e / 4096

module _ (s : Kernel) (pgdir va x : ℕ) (xs : List ℕ) (space : Space pgdir (x ∷ xs) s)
    (z : pde s pgdir va ≡ 0) where
  -- A new page table changes no translation.
  pub tabled-entry_of :
      (va' : ℕ)
      → pdx va' ≢ self_map
      → entry_of (tabled pgdir va x s) pgdir va' ≡ entry_of s pgdir va'
  unfolding entry_of
  tabled-entry_of va' h = ground (arith, space.root, space.slots (pdx va') h)

  pub tabled-Space : Space pgdir xs (tabled pgdir va x s)
  tabled-Space = record {
    small = space.small;
    free = rest-FreeList s x xs space.free _ refl;
    root = ground (arith, space.root);
    slots = λ d h. ground (arith, space.slots d h);
    apart = λ d e hd he ne pd pe.
        ground (arith, space.apart d e hd he ne, space.slots d hd, space.slots e he);
  }

-- A physical page that is neither the directory nor one of its page tables.
pub record IsForeign (s : Kernel) (pgdir n : ℕ) : Type 0 where
  pub root : n ≢ pgdir
  pub leaf : (d : ℕ) → d ≢ self_map → s.mem pgdir d % 2 ≡ 1 → s.mem pgdir d / 4096 ≢ n

-- Only the directory, its page tables and pages that were free have been written.
abbrev pub Beside : ℕ → List ℕ → Kernel → Kernel → Type 0
Beside pgdir xs s t = (n : ℕ) → IsForeign s pgdir n → has n xs ≡ false → t.mem n ≡ s.mem n

-- New page tables were free pages.
abbrev pub Grown : ℕ → List ℕ → Kernel → Kernel → Type 0
Grown pgdir xs s t =
    (d : ℕ)
    → d ≢ self_map
    → t.mem pgdir d % 2 ≡ 1
    → (has (t.mem pgdir d / 4096) xs ≡ true) ⊎ (t.mem pgdir d ≡ s.mem pgdir d)

-- What a successful walk with `create` leaves: a page table is there, no translation has changed,
-- and only pages from the free list `xs` may have.
pub record Walked (pgdir va : ℕ) (s : Kernel) (xs ys : List ℕ) (t : Kernel) : Type 0 where
  pub space : Space pgdir ys t
  pub present : t.mem pgdir (pdx va) % 2 ≡ 1
  pub kept : (va' : ℕ) → pdx va' ≢ self_map → entry_of t pgdir va' ≡ entry_of s pgdir va'
  pub others : (i : ℕ) → has i xs ≡ false → t.page i ≡ s.page i
  pub shrunk : (i : ℕ) → has i xs ≡ false → has i ys ≡ false
  pub cost : length xs ≤ length ys + 1
  pub no_cost : s.mem pgdir (pdx va) % 2 ≡ 1 → length xs ≡ length ys
  pub same : t ≡ record s { page = t.page; page_free_list = t.page_free_list; mem = t.mem }
  pub memory : Beside pgdir xs s t
  pub tables : Grown pgdir xs s t
  pub slots : (d : ℕ) → d ≢ self_map → s.mem pgdir d % 2 ≡ 1 → t.mem pgdir d ≡ s.mem pgdir d

pub Walked-refl :
    (s : Kernel) (pgdir va : ℕ) (xs : List ℕ)
    → Space pgdir xs s
    → s.mem pgdir (pdx va) % 2 ≡ 1
    → Walked pgdir va s xs xs s
Walked-refl s pgdir va xs space p = record {
  space = space;
  present = p;
  kept = λ va' h. refl;
  others = λ i h. refl;
  shrunk = λ i h. h;
  cost = omega arith;
  no_cost = λ h. refl;
  same = refl;
  memory = λ n f out. refl;
  tables = λ d h p. inr refl;
  slots = λ d h p. refl;
}

pub walk-Walked :
    (s : Kernel) (pgdir va : ℕ) (xs : List ℕ)
    → Space pgdir xs s
    → pdx va ≢ self_map
    → (pde s pgdir va ≢ 0) ⊎ (xs ≢ [])
    → (t : Kernel) × (ys : List ℕ) × (pgdir_walk pgdir va true s
        ≡ returns (some (pte_at (t.mem pgdir (pdx va) / 4096) va)) t)
      × Walked pgdir va s xs ys t
walk-Walked s pgdir va xs space user room = go xs space room (space.slots (pdx va) user)
  where
    leads : (x : ℕ) → (tabled pgdir va x s).mem pgdir (pdx va) / 4096 ≡ x
    leads x = ground arith

    go :
        (xs : List ℕ)
        → Space pgdir xs s
        → (pde s pgdir va ≢ 0) ⊎ (xs ≢ [])
        → IsSlot s pgdir xs (pdx va)
        → (t : Kernel) × (ys : List ℕ) × (pgdir_walk pgdir va true s
            ≡ returns (some (pte_at (t.mem pgdir (pdx va) / 4096) va)) t)
          × Walked pgdir va s xs ys t
    go xs space room (inr (p, small, off, rest)) =
        (s, xs, walk_present s pgdir va true p small, Walked-refl s pgdir va xs space p)
    go [] space room (inl z) = absurd (ground arith)
    go (x ∷ xs) space room (inl z) = (
      tabled pgdir va x s,
      xs,
      rw (leads x) (walk_creates s pgdir va x xs z space.free space.small),
      record {
        space = tabled-Space s pgdir va x xs space z;
        present = ground arith;
        kept = tabled-entry_of s pgdir va x xs space z;
        others = λ i h. ground arith;
        shrunk = λ i h. ground arith;
        cost = omega arith;
        no_cost = λ h. absurd (ground arith);
        same = refl;
        memory = λ n f out. ground (arith, f.root);
        tables = λ d h p. ground arith;
        slots = λ d h p. ground arith;
      },
    )

-- A store of `v` in the page table entry for `va`.
abbrev pub stored : ℕ → ℕ → ℕ → Kernel → Kernel
stored table i v s = record s { mem = update s.mem table (update (s.mem table) i v) }

abbrev pub same_page : ℕ → ℕ → Bool
same_page va va' = (pdx va == pdx va') && (ptx va == ptx va')

-- Addresses of different page numbers are on different pages, and of the same on the same.
pub apart_pages : (a b : ℕ) → a < 2 ^ 32 → b < 2 ^ 32 → a / 4096 ≢ b / 4096 → same_page a b ≡ false
apart_pages a b ha hb ne = ground arith

pub same_page_self : (a : ℕ) → same_page a a ≡ true
same_page_self a = ground arith

module _ (s : Kernel) (pgdir va v : ℕ) (xs : List ℕ) (space : Space pgdir xs s)
    (user : pdx va ≢ self_map) (present : s.mem pgdir (pdx va) % 2 ≡ 1) where
  -- It changes the translation of that page, and of no other.
  pub stored-entry_of :
      (va' : ℕ)
      → pdx va' ≢ self_map
      → entry_of (stored (s.mem pgdir (pdx va) / 4096) (ptx va) v s) pgdir va'
        ≡ (if same_page va va' then v else entry_of s pgdir va')
  unfolding entry_of
  stored-entry_of va' h = ground (
    arith,
    space.slots (pdx va) user,
    space.slots (pdx va') h,
    space.apart (pdx va) (pdx va') user h,
  )

  pub stored-Space : Space pgdir xs (stored (s.mem pgdir (pdx va) / 4096) (ptx va) v s)
  stored-Space = record {
    small = space.small;
    free = space.free;
    root = space.root;
    slots = λ d h. ground (arith, space.slots d h, space.slots (pdx va) user);
    apart =
        λ d e hd he ne pd pe. ground (arith, space.apart d e hd he ne, space.slots (pdx va) user);
  }
