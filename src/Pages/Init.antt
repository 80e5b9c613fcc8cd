-- ===== src/Pages/Init.antt =====
-- page_init: which pages are free after boot.
use junior_os.Base.{
  ℕ, zero, suc, ◌+◌, ◌-◌, ◌/◌, ◌^◌, ◌<◌, ◌≤◌, ◌≡◌, ◌≢◌, ◌⊎◌, refl, Bool, true, false, not, ◌&&◌,
  inl, inr, none, some, subst, List, [], ◌∷◌, has, ltb, leb, ◌==◌, ◌||◌, update, arith,
  if◌then◌else◌, Bool-cases, eqb_refl,
}
use junior_os.Machine.{mpentry_paddr, kernbase, sub32}
use junior_os.Kernel.{Kernel, returns}
use junior_os.Pages.{page2pa, marked_in_use, init_page, init_pages, page_init}
use junior_os.Pages.FreeList.{FreeList, Free, Chain-update, Unreferenced-update}

-- The unmarked pages below `n`, the highest first.
pub free_below : (ℕ → Bool) → ℕ → List ℕ
free_below marked zero = []
free_below marked (suc n) = if marked n then free_below marked n else n ∷ free_below marked n

pub has-free_below :
    (marked : ℕ → Bool) (n j : ℕ) → has j (free_below marked n) ≡ (ltb j n && not (marked j))
unfolding free_below
has-free_below marked zero j = ground arith
has-free_below marked (suc n) j = elim (Bool-cases (marked n)) [
  | inl m ↦ rw m (ground (arith, has-free_below marked n j))
  | inr m ↦ rw m (ground (arith, has-free_below marked n j))
]

free_below_marked :
    (marked : ℕ → Bool) (n : ℕ) → marked n ≡ true → free_below marked (suc n) ≡ free_below marked n
unfolding free_below
free_below_marked marked n m = rw m

free_below_free :
    (marked : ℕ → Bool) (n : ℕ)
    → marked n ≡ false
    → free_below marked (suc n) ≡ n ∷ free_below marked n
unfolding free_below
free_below_free marked n m = rw m

-- The loop has been through the pages below `i`.
record Done (marked : ℕ → Bool) (npages basemem i : ℕ) (s : Kernel) : Type 0 where
  bounds : (s.npages ≡ npages) × (s.npages_basemem ≡ basemem)
  free : FreeList npages s.page s.page_free_list (free_below marked i)
  counts : (j : ℕ) → j < i → (s.page j).pp_ref ≡ (if marked j then 1 else 0)

module _ (pages_at npages basemem : ℕ) where
  abbrev marked : ℕ → Bool
  marked = marked_in_use pages_at basemem

  module _ (i : ℕ) (s : Kernel) (small : i < npages) (d : Done marked npages basemem i s) where
    fresh : has i (free_below marked i) ≡ false
    fresh = ground (arith, has-free_below marked i i)

    -- A marked page gets one reference and stays off the list.
    init_page-marked :
        marked i ≡ true
        → (t : Kernel) × (init_page pages_at i s ≡ returns tt t)
          × Done marked npages basemem (suc i) t
    unfolding init_page
    init_page-marked m =
        let e : marked_in_use pages_at s.npages_basemem i ≡ true = rw (d.bounds.1) m in
        (
          record s { page = update s.page i (record (s.page i) { pp_ref = 1 }) },
          rw e refl,
          record {
            bounds = d.bounds;
            free = rw (free_below_marked marked i m) (record {
              chain = Chain-update s.page i _ s.page_free_list _ fresh d.free.chain;
              distinct = d.free.distinct;
              free = Unreferenced-update npages s.page i _ _ fresh d.free.free;
              detached = λ j out. ground (arith, d.free.detached j, d.free.detached i fresh);
            });
            counts = λ j h. ground (arith, d.counts j);
          },
        )

    -- Any other page goes in front of the list.
    init_page_free :
        marked i ≡ false
        → (t : Kernel) × (init_page pages_at i s ≡ returns tt t)
          × Done marked npages basemem (suc i) t
    unfolding init_page
    init_page_free m =
        let e : marked_in_use pages_at s.npages_basemem i ≡ false = rw (d.bounds.1) m in
        (
          record s {
            page = update s.page i (record { pp_link = s.page_free_list; pp_ref = 0 });
            page_free_list = some i;
          },
          rw e refl,
          record {
            bounds = d.bounds;
            free = rw (free_below_free marked i m) (record {
              chain = (
                refl,
                rw (eqb_refl i) (Chain-update s.page i _ s.page_free_list _ fresh d.free.chain),
              );
              distinct = (fresh, d.free.distinct);
              free =
                  (small, ground arith, Unreferenced-update npages s.page i _ _ fresh d.free.free);
              detached = λ j out. ground (arith, d.free.detached j, d.free.detached i fresh);
            });
            counts = λ j h. ground (arith, d.counts j);
          },
        )

  init_page-Done :
      (i : ℕ) (s : Kernel)
      → i < npages
      → Done marked npages basemem i s
      → (t : Kernel) × (init_page pages_at i s ≡ returns tt t)
        × Done marked npages basemem (i + 1) t
  init_page-Done i s small d =
      let n : suc i ≡ i + 1 = omega arith in
      subst
        (λ k.
          (t : Kernel) × (init_page pages_at i s ≡ returns tt t) × Done marked npages basemem k t)
        n
        (elim (Bool-cases (marked i)) [
          | inl m ↦ init_page-marked i s small d m
          | inr m ↦ init_page_free i s small d m
        ])

  init_pages-Done :
      (rounds i : ℕ) (s : Kernel)
      → i + rounds ≡ npages
      → Done marked npages basemem i s
      → (t : Kernel) × (init_pages pages_at rounds i s ≡ returns tt t)
        × Done marked npages basemem npages t
  unfolding init_pages
  init_pages-Done zero i s e d =
      let e' : i ≡ npages = omega arith in
      (s, refl, subst (λ k. Done marked npages basemem k s) e' d)
  init_pages-Done (suc rounds) i s e d =
      let (t, run, d') = init_page-Done i s (omega arith) d in
      let (u, rest, d'') = init_pages-Done rounds (i + 1) t (omega arith) d' in
      (u, rw run rest, d'')

-- The pages that the memory layout leaves to the allocator: not page 0, not the page at 0x7000 from
-- which the other processors start, and either base memory or what is behind the 93 pages that the
-- code keeps for the I/O hole and as many pages as there are between KERNBASE and `pages`.
abbrev pub IsAvailable : ℕ → ℕ → ℕ → Type 0
IsAvailable pages_at basemem j =
    (j ≢ 0) × (j ≢ 7) × ((j < basemem) ⊎ (basemem + 93 + (pages_at - 0xf0000000) / 4096 ≤ j))

marked_eq :
    (pages_at basemem j : ℕ)
    → 0xf0000000 ≤ pages_at
    → pages_at < 2 ^ 32
    → j < 2 ^ 20
    → marked_in_use pages_at basemem j ≡ (
        j == 0
        || (j == 7 || not (ltb j basemem || leb (basemem + 93 + (pages_at - 0xf0000000) / 4096) j)))
unfolding marked_in_use
marked_eq pages_at basemem j lo hi small =
    let at : (page2pa j == mpentry_paddr) ≡ (j == 7) = ground arith in
    let size : sub32 pages_at kernbase ≡ pages_at - 0xf0000000 = omega arith in
    rw (at, size) (ground arith)

available :
    (pages_at basemem j : ℕ)
    → 0xf0000000 ≤ pages_at
    → pages_at < 2 ^ 32
    → j < 2 ^ 20
    → ((marked_in_use pages_at basemem j ≡ false) × IsAvailable pages_at basemem j)
      ⊎ ((marked_in_use pages_at basemem j ≡ true) × ¬ IsAvailable pages_at basemem j)
available pages_at basemem j lo hi small =
    rw (marked_eq pages_at basemem j lo hi small)
      (by_cases j basemem (basemem + 93 + (pages_at - 0xf0000000) / 4096))
  where
    by_cases :
        (j low high : ℕ)
        → (((j == 0 || (j == 7 || not (ltb j low || leb high j))) ≡ false)
            × ((j ≢ 0) × (j ≢ 7) × ((j < low) ⊎ (high ≤ j))))
          ⊎ (((j == 0 || (j == 7 || not (ltb j low || leb high j))) ≡ true)
              × ¬ ((j ≢ 0) × (j ≢ 7) × ((j < low) ⊎ (high ≤ j))))
    by_cases j low high = ground arith

-- What holds after boot: the list is sound and holds exactly the pages in range that are available,
-- which have no reference; the others have one.
pub record Booted (pages_at : ℕ) (s t : Kernel) : Type 0 where
  pub kept : t.npages ≡ s.npages
  pub list : List ℕ
  pub sound : Free t list
  pub pages :
      (j : ℕ)
      → j < s.npages
      → (IsAvailable pages_at s.npages_basemem j × (has j list ≡ true) × ((t.page j).pp_ref ≡ 0))
        ⊎ (¬ IsAvailable pages_at s.npages_basemem j
            × (has j list ≡ false)
            × ((t.page j).pp_ref ≡ 1))
  pub bound : (j : ℕ) → has j list ≡ true → j < s.npages

-- From a page array of at most 2 ^ 20 pages whose links are all NULL, and with the variable `pages`
-- above KERNBASE, page_init returns, and then the free list is sound and holds exactly the pages in
-- range that are neither page 0 nor page 7, which is at MPENTRY_PADDR, and are in base memory or
-- behind it by 93 pages and as many as there are between KERNBASE and `pages`; those have no
-- reference, and every other page in range has one.
pub page_init_lem :
    (pages_at : ℕ) (s : Kernel)
    → ((i : ℕ) → (s.page i).pp_link ≡ none)
    → s.npages ≤ 2 ^ 20
    → 0xf0000000 ≤ pages_at
    → pages_at < 2 ^ 32
    → (t : Kernel) × (page_init pages_at s ≡ returns tt t) × Booted pages_at s t
unfolding page_init free_below
page_init_lem pages_at s unlinked small lo hi =
    let s' = record s { page_free_list = none } in
    let marks = marked_in_use pages_at s.npages_basemem in
    let start : Done marks s.npages s.npages_basemem 0 s' = record {
      bounds = (refl, refl);
      free = record { chain = refl; distinct = tt; free = tt; detached = λ i out. unlinked i };
      counts = λ j h. absurd (omega arith);
    } in
    let (t, run, d) =
      init_pages-Done pages_at s.npages s.npages_basemem s.npages 0 s' (omega arith) start in
    (
      t,
      run,
      record {
        kept = d.bounds.0;
        list = free_below marks s.npages;
        sound = rw d.bounds.0 d.free;
        pages = λ j lt. elim (available pages_at s.npages_basemem j lo hi (omega arith)) [
          | inl (unmarked, fit) ↦
              inl (fit, ground (arith, has-free_below marks s.npages j), ground (arith, d.counts j))
          | inr (marked, closed) ↦
              inr (
                closed,
                ground (arith, has-free_below marks s.npages j),
                ground (arith, d.counts j),
              )
        ];
        bound = λ j h. ground (arith, has-free_below marks s.npages j);
      },
    )
