-- ===== src/Pages.antt =====
-- Physical page management: jos-lab4/kern/pmap.c, page_init, page_alloc, page_free, page_decref,
-- and kern/pmap.h, page2pa, pa2page and page2kva.
pub mod FreeList
pub mod Alloc
pub mod Init
use junior_os.Base.{
  ℕ, zero, suc, ◌+◌, ◌-◌, ◌*◌, ◌/◌, ◌%◌, Bool, true, false, not, ◌||◌, ◌&&◌, Option, none, some,
  ◌==◌, ltb, leb, if◌then◌else◌, update,
}
use junior_os.Machine.{word, pgnum, mpentry_paddr, sub32, kernbase}
use junior_os.Kernel.{Kernel, PageInfo, Cmd, pure, ◌>>=◌, ◌>>◌, get, put, panic, set_page, kaddr}

-- `(pp - pages) << PGSHIFT`, a physaddr_t.
abbrev pub page2pa : ℕ → ℕ
page2pa pp = pp * 4096 % word

abbrev pub pa2page : ℕ → Cmd ℕ
pa2page pa = do s ← get; if leb s.npages (pgnum pa) then panic else pure (pgnum pa)

abbrev pub page2kva : ℕ → Cmd ℕ
page2kva pp = kaddr (page2pa pp)

-- `memset(kva, 0, PGSIZE)` on the page at `frame`.
abbrev pub clear_frame : ℕ → Cmd (Unit {0})
clear_frame frame = do s ← get; put (record s { mem = update s.mem frame (λ _. 0) })

-- `alloc_flags && ALLOC_ZERO == 1`: any flag clears the page.
fill_page : ℕ → ℕ → Cmd (Unit {0})
fill_page zero pp = do s ← get; set_page pp (record (s.page pp) { pp_ref = 0 })
fill_page (suc flags) pp = do kva ← page2kva pp; clear_frame kva

take_page : ℕ → Option ℕ → Cmd (Option ℕ)
unfolding fill_page
take_page alloc_flags none = pure none
take_page alloc_flags (some pp) = do
  s ← get
  put (record s { page_free_list = (s.page pp).pp_link })
  set_page pp (record (s.page pp) { pp_link = none })
  fill_page alloc_flags pp
  pure (some pp)

unfoldable pub page_alloc : ℕ → Cmd (Option ℕ)
unfolding take_page
page_alloc alloc_flags = do s ← get; take_page alloc_flags s.page_free_list

abbrev pub is_null : Option ℕ → Bool
is_null none = true
is_null (some _) = false

unfoldable pub page_free : ℕ → Cmd (Unit {0})
page_free pp = do
  s ← get
  if not ((s.page pp).pp_ref == 0) || not (is_null (s.page pp).pp_link) then panic else do
    set_page pp (record (s.page pp) { pp_link = s.page_free_list })
    t ← get
    put (record t { page_free_list = some pp })

-- `--pp->pp_ref` on a uint16_t.
abbrev pub ref_minus : ℕ → ℕ
ref_minus n = (n + 65535) % 65536

abbrev pub ref_plus : ℕ → ℕ
ref_plus n = (n + 1) % 65536

unfoldable pub page_decref : ℕ → Cmd (Unit {0})
unfolding page_free
page_decref pp = do
  s ← get
  set_page pp (record (s.page pp) { pp_ref = ref_minus (s.page pp).pp_ref })
  if ref_minus (s.page pp).pp_ref == 0 then page_free pp else pure tt

-- The chain of tests of page_init: is page `i` marked as in use? `pages_at` is `&pages`, an address
-- that the linker chooses.
unfoldable pub marked_in_use : ℕ → ℕ → ℕ → Bool
marked_in_use pages_at basemem i =
    if i == 0 || page2pa i == mpentry_paddr
    then true
    else if ltb i basemem
    then false
    else if leb basemem i && ltb i (basemem + 384000 / 4096)
    then true
    else leb (basemem + 384000 / 4096) i
      && ltb i (basemem + 384000 / 4096 + sub32 pages_at kernbase / 4096)

-- The body of the loop for one page: its reference count, then its place on the free list.
init_page : ℕ → ℕ → Cmd (Unit {0})
init_page pages_at i = do
  s ← get
  if marked_in_use pages_at s.npages_basemem i
      then set_page i (record (s.page i) { pp_ref = 1 })
      else do
        set_page i (record { pp_link = s.page_free_list; pp_ref = 0 })
        t ← get
        put (record t { page_free_list = some i })

-- `rounds` pages are left, from page `i` on.
init_pages : ℕ → ℕ → ℕ → Cmd (Unit {0})
init_pages pages_at zero i = pure tt
init_pages pages_at (suc rounds) i = init_page pages_at i >> init_pages pages_at rounds (i + 1)

pub page_init : ℕ → Cmd (Unit {0})
unfolding init_page init_pages
page_init pages_at = do
  s ← get
  put (record s { page_free_list = none })
  init_pages pages_at s.npages 0
