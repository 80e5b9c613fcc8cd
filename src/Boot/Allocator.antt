-- ===== src/Boot/Allocator.antt =====
-- boot_alloc: what it hands out while the virtual memory is being set up.
use junior_os.Base.{
  ℕ, ◌+◌, ◌*◌, ◌/◌, ◌%◌, ◌^◌, ◌<◌, ◌≤◌, ◌≡◌, ◌≢◌, refl, true, false, ◌||◌, arith, ◌==◌, ltb, eqb_ne,
  ◌⊎◌, ◌∙◌,
}
use junior_os.Machine.{word, roundup, add32}
use junior_os.Kernel.{Kernel, returns, leaves, panicked}
use junior_os.Boot.{Image, nvram_read, totalmem, boot_alloc, first_free}

-- The pages that the machine reports.
abbrev pub detected : Image → ℕ
detected image =
    totalmem (nvram_read image 0x15) (nvram_read image 0x17) (nvram_read image 0x34 * 64) / 4

-- Where the next allocation starts.
unfoldable pub start : Image → Kernel → ℕ
unfolding first_free
start image s = first_free image s.nextfree

-- The state after an allocation that has moved `nextfree` to `next`.
abbrev pub moved : Image → ℕ → Kernel → Kernel
moved image next s = record s {
  nextfree = next;
  npages = detected image;
  npages_basemem = nvram_read image 0x15 / 4;
}

short_eq :
    (image : Image) (n : ℕ) (s : Kernel)
    → n ≢ 0
    → (detected image == 0 || ltb (detected image * 4096 % word) n) ≡ true
    → boot_alloc image n s ≡ leaves panicked (moved image (start image s) s)
unfolding boot_alloc start
short_eq image n s ne short = rw (eqb_ne n 0 ne, short) refl

taken_eq :
    (image : Image) (n : ℕ) (s : Kernel)
    → n ≢ 0
    → (detected image == 0 || ltb (detected image * 4096 % word) n) ≡ false
    → boot_alloc image n s
      ≡ returns (start image s) (moved image (roundup (add32 (start image s) n)) s)
unfolding boot_alloc start
taken_eq image n s ne fits = rw (eqb_ne n 0 ne, fits) refl

start-moved :
    (image : Image) (next : ℕ) (s : Kernel) → next ≢ 0 → start image (moved image next s) ≡ next
unfolding start first_free
start-moved image next s ne = rw (eqb_ne next 0 ne) refl

-- The requests that the machine's memory satisfies.
abbrev pub Available : Image → ℕ → Type 0
Available image n = (0 < n) × (detected image ≢ 0) × (n ≤ detected image * 4096 % word)

Available-test :
    (image : Image) (n : ℕ)
    → Available image n
    → (detected image == 0 || ltb (detected image * 4096 % word) n) ≡ false
Available-test image n (pos, some_pages, enough) =
    test (detected image) (detected image * 4096 % word) some_pages enough
  where
    test : (p m : ℕ) → p ≢ 0 → n ≤ m → (p == 0 || ltb m n) ≡ false
    test p m hp hm = ground arith

-- Rounding up moves less than a page, where it does not wrap around.
round_up :
    (a n : ℕ)
    → a + n + 4096 < 2 ^ 32
    → (a + n ≤ roundup (add32 a n))
      × (roundup (add32 a n) < a + n + 4096)
      × (roundup (add32 a n) % 4096 ≡ 0)
round_up a n h = (omega arith, omega arith, omega arith)

-- Two allocations in turn, of sizes other than 0 that are each not more than the memory that the
-- machine reports, from an aligned start and without running past 2 ^ 32: the first returns the
-- start, the second a page-aligned address less than a page behind the first block, and `nextfree`
-- is behind the second.
pub boot_alloc-boot_alloc :
    (image : Image) (n m : ℕ) (s : Kernel)
    → Available image n
    → Available image m
    → start image s % 4096 ≡ 0
    → start image s + n + m + 8192 < 2 ^ 32
    → (t u : Kernel) × (b : ℕ) × (boot_alloc image n s ≡ returns (start image s) t)
      × (boot_alloc image m t ≡ returns b u)
      × (b % 4096 ≡ 0)
      × (start image s + n ≤ b)
      × (b < start image s + n + 4096)
      × (b + m ≤ u.nextfree)
boot_alloc-boot_alloc image n m s hn hm aligned fits =
    let a = start image s in
    let first = round_up a n (omega arith) in
    let b = roundup (add32 a n) in
    let t = moved image b s in
    let at = start-moved image b s (omega (arith, hn.0, first.0)) in
    let second = round_up b m (omega (arith, first.1)) in
    (
      t,
      moved image (roundup (add32 b m)) t,
      b,
      taken_eq image n s (omega (arith, hn.0)) (Available-test image n hn),
      taken_eq image m t (omega (arith, hm.0)) (Available-test image m hm) ∙ rw at refl,
      first.2,
      first.0,
      first.1,
      second.0,
    )

-- Where the machine reports no memory, or less than the request, boot_alloc panics.
pub boot_alloc_short :
    (image : Image) (n : ℕ) (s : Kernel)
    → n ≢ 0
    → (detected image ≡ 0) ⊎ (detected image * 4096 % word < n)
    → boot_alloc image n s ≡ leaves panicked (moved image (start image s) s)
boot_alloc_short image n s ne short =
    short_eq image n s ne (test (detected image) (detected image * 4096 % word) short)
  where
    test : (p m : ℕ) → (p ≡ 0) ⊎ (m < n) → (p == 0 || ltb m n) ≡ true
    test p m h = ground arith
