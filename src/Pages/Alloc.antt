-- ===== src/Pages/Alloc.antt =====
-- page_alloc, page_free and page_decref against the free list as a list of pages.
use junior_os.Base.{
  ℕ, zero, suc, ◌*◌, ◌/◌, ◌^◌, ◌≤◌, ◌<◌, ◌≡◌, ◌≢◌, refl, ◌⊎◌, inl, inr, false, none, some, List, [],
  ◌∷◌, has, update, update-update, arith, ◌==◌, if◌then◌else◌, fun_ext, eqb_refl, Bool-cases, leb,
  gt→leb, eqb_ne, eqb→eq, ap, ◌%◌,
}
use junior_os.Kernel.{Kernel, PageInfo, returns, leaves, panicked}
use junior_os.Pages.{page_alloc, page_free, page_decref, ref_minus}
use junior_os.Pages.FreeList.{FreeList, Free, Chain-update, Unreferenced-update}

abbrev pub unused : PageInfo
unused = record { pp_link = none; pp_ref = 0 }

-- Memory after the page is filled, or not.
abbrev pub filled : ℕ → ℕ → (ℕ → ℕ → ℕ) → ℕ → ℕ → ℕ
filled zero x mem = mem
filled (suc flags) x mem = update mem x (λ _. 0)

-- The state after `page_alloc` has taken page `x`.
abbrev pub allocated : ℕ → ℕ → Kernel → Kernel
allocated flags x s = record s {
  page = update s.page x unused;
  page_free_list = (s.page x).pp_link;
  mem = filled flags x s.mem;
}

-- The state after `page_free` has put page `x` back.
abbrev pub freed : ℕ → Kernel → Kernel
freed x s = record s {
  page = update s.page x (record { pp_link = s.page_free_list; pp_ref = 0 });
  page_free_list = some x;
}

-- The kernel address of a page that is in range is that page.
pub page_of_pa :
    (x n : ℕ)
    → x < n
    → n ≤ 2 ^ 20
    → (leb n (x * 4096 % 2 ^ 32 / 4096) ≡ false) × (x * 4096 % 2 ^ 32 / 4096 ≡ x)
page_of_pa x n h small = (gt→leb n (x * 4096 % 2 ^ 32 / 4096) (omega arith), omega arith)

module _ (s : Kernel) (x : ℕ) (xs : List ℕ) (free : Free s (x ∷ xs)) where
  pub page_alloc-cons :
      (flags : ℕ) → s.npages ≤ 2 ^ 20 → page_alloc flags s ≡ returns (some x) (allocated flags x s)
  unfolding page_alloc
  page_alloc-cons zero small = rw free.chain.0 (
      ap
        (λ (p : ℕ → PageInfo).
          returns (some x) (record s { page = p; page_free_list = (s.page x).pp_link }))
        (fun_ext λ i. ground arith))
  page_alloc-cons (suc flags) small =
      let at = page_of_pa x s.npages free.free.0 small in
      let cleared : update s.page x (record { pp_link = none; pp_ref = (s.page x).pp_ref })
          ≡ update s.page x unused =
        rw free.free.1 refl in
      rw (free.chain.0, at.0, at.1)
        (ap
          (λ (p : ℕ → PageInfo). returns (some x) (record s {
            page = p;
            page_free_list = (s.page x).pp_link;
            mem = update s.mem x (λ _. 0);
          }))
          cleared)

  -- Taking the first page leaves the rest of the list, whatever it is used for.
  pub rest-FreeList :
      (info : PageInfo)
      → info.pp_link ≡ none
      → FreeList s.npages (update s.page x info) (s.page x).pp_link xs
  rest-FreeList info unlinked = record {
    chain = Chain-update s.page x info (s.page x).pp_link xs free.distinct.0 free.chain.1;
    distinct = free.distinct.1;
    free = Unreferenced-update s.npages s.page x info xs free.distinct.0 free.free.2;
    detached = λ i out. ground (arith, free.detached i);
  }

pub page_alloc-nil : (s : Kernel) (flags : ℕ) → Free s [] → page_alloc flags s ≡ returns none s
unfolding page_alloc
page_alloc-nil s flags free = rw free.chain

module _ (s : Kernel) (x : ℕ) where
  -- A page with no references and no link is put in front of the list.
  pub page_free_eq :
      (s.page x).pp_ref ≡ 0 → (s.page x).pp_link ≡ none → page_free x s ≡ returns tt (freed x s)
  unfolding page_free
  page_free_eq unreferenced unlinked = rw (unreferenced, unlinked) refl

  pub freed-FreeList :
      (xs : List ℕ) → Free s xs → x < s.npages → has x xs ≡ false → Free (freed x s) (x ∷ xs)
  freed-FreeList xs free small out = record {
    chain = (refl, rw (eqb_refl x) (Chain-update s.page x _ s.page_free_list xs out free.chain));
    distinct = (out, free.distinct);
    free = (small, ground arith, Unreferenced-update s.npages s.page x _ xs out free.free);
    detached = λ i h. ground (arith, free.detached i);
  }

-- The two ways in which page_free refuses.
pub page_free-panics :
    (s : Kernel) (x : ℕ)
    → ((s.page x).pp_ref ≢ 0) ⊎ ((s.page x).pp_link ≢ none)
    → page_free x s ≡ leaves panicked s
unfolding page_free
page_free-panics s x h = ground arith

abbrev pub decremented : ℕ → Kernel → Kernel
decremented x s = record s {
  page = update s.page x (record (s.page x) { pp_ref = ref_minus (s.page x).pp_ref });
}

pub page_decref-shared :
    (s : Kernel) (x : ℕ)
    → 1 < (s.page x).pp_ref
    → (s.page x).pp_ref < 65536
    → page_decref x s ≡ returns tt (decremented x s)
unfolding page_decref
page_decref-shared s x many small = rw (eqb_ne (ref_minus (s.page x).pp_ref) 0 (omega arith))

pub page_decref_last :
    (s : Kernel) (x : ℕ)
    → (s.page x).pp_ref ≡ 1
    → (s.page x).pp_link ≡ none
    → page_decref x s ≡ returns tt (freed x s)
unfolding page_decref
page_decref_last s x one unlinked =
    rw (one, unlinked, eqb_refl x)
      (ap (λ (p : ℕ → PageInfo). returns tt (record s { page = p; page_free_list = some x }))
        (update-update s.page x _ _))

-- Above one reference only the count falls, and the last reference frees the page.
abbrev pub dropped : ℕ → Kernel → Kernel
dropped x s = if (s.page x).pp_ref == 1 then freed x s else decremented x s

-- For a page with at least one reference, a count of 16 bits and no link, page_decref returns: the
-- last reference puts the page in front of the free list, and any other only lowers the count.
pub page_decref_lem :
    (s : Kernel) (x : ℕ)
    → 0 < (s.page x).pp_ref
    → (s.page x).pp_ref < 65536
    → (s.page x).pp_link ≡ none
    → page_decref x s ≡ returns tt (dropped x s)
page_decref_lem s x some_ref small unlinked = elim (Bool-cases ((s.page x).pp_ref == 1)) [
  | inl one ↦ rw one (page_decref_last s x (eqb→eq _ 1 one) unlinked)
  | inr many ↦ rw many (page_decref-shared s x (ground arith) small)
]

-- Of at most 2 ^ 20 pages, a page in range that is off a sound free list and has no references:
-- page_free puts it in front of the list, and page_alloc, with any flags, then returns it and
-- leaves the list that was there and every other page as it was.
pub page_free-page_alloc :
    (s : Kernel) (x flags : ℕ) (xs : List ℕ)
    → Free s xs
    → s.npages ≤ 2 ^ 20
    → x < s.npages
    → has x xs ≡ false
    → (s.page x).pp_ref ≡ 0
    → (t : Kernel) × (page_free x s ≡ returns tt t)
      × Free t (x ∷ xs)
      × ((u : Kernel) × (page_alloc flags t ≡ returns (some x) u)
          × Free u xs
          × ((i : ℕ) → i ≢ x → u.page i ≡ s.page i))
page_free-page_alloc s x flags xs free small in_range out unreferenced =
    let free' = freed-FreeList s x xs free in_range out in
    (
      freed x s,
      page_free_eq s x unreferenced (free.detached x out),
      free',
      (
        allocated flags x (freed x s),
        page_alloc-cons (freed x s) x xs free' flags small,
        rest-FreeList (freed x s) x xs free' unused refl,
        λ i ne. ground arith,
      ),
    )
