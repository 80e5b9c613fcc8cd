-- ===== src/Examples/Booting.antt =====
-- The set-up of memory at boot, on a machine of a hundred pages, of which 20 to 99 are free and the
-- directory in page 4 is empty.
use junior_os.Base.{
  ℕ, zero, suc, ◌+◌, ◌%◌, ◌<◌, ◌≤◌, ◌≡◌, refl, true, false, Option, none, some, List, [], ◌∷◌, ◌==◌,
  ltb, leb, if◌then◌else◌, arith, length, has, Distinct,
}
use junior_os.Kernel.{Kernel, PageInfo, returns}
use junior_os.Pages.FreeList.{Chain, Unreferenced, Free}
use junior_os.Vm.Space.{Space}
use junior_os.Boot.{Image, boot_alloc, map_kernel}
use junior_os.Boot.Allocator.{start, boot_alloc-boot_alloc}
use junior_os.Boot.Mappings.{KernelPart, map_kernel-KernelPart}
use junior_os.Examples.Machines.{machine}

abbrev climb : ℕ → ℕ → List ℕ
climb zero k = []
climb (suc n) k = k ∷ climb n (k + 1)

abbrev page_or_end : ℕ → Option ℕ
page_or_end k = if ltb k 100 then some k else none

abbrev boot_page : ℕ → PageInfo
boot_page i = record {
  pp_link = if leb 20 i then page_or_end (i + 1) else none;
  pp_ref = if leb 20 i then 0 else 1;
}

climb-Chain : (n k : ℕ) → 20 ≤ k → k + n ≡ 100 → Chain boot_page (page_or_end k) (climb n k)
climb-Chain zero k lo hi = ground arith
climb-Chain (suc n) k lo hi = (ground arith, ground (arith, climb-Chain n (k + 1)))

has_below : (n k i : ℕ) → i < k → has i (climb n k) ≡ false
has_below zero k i lt = refl
has_below (suc n) k i lt = ground (arith, has_below n (k + 1) i)

climb-Distinct : (n k : ℕ) → Distinct (climb n k)
climb-Distinct zero k = tt
climb-Distinct (suc n) k = (has_below n (k + 1) k (omega arith), climb-Distinct n (k + 1))

climb-Unreferenced : (n k : ℕ) → 20 ≤ k → k + n ≤ 100 → Unreferenced 100 boot_page (climb n k)
climb-Unreferenced zero k lo hi = tt
climb-Unreferenced (suc n) k lo hi =
    (omega arith, ground arith, climb-Unreferenced n (k + 1) (omega arith) (omega arith))

has_inside : (n k i : ℕ) → k ≤ i → i < k + n → has i (climb n k) ≡ true
has_inside zero k i lo hi = absurd (omega arith)
has_inside (suc n) k i lo hi = ground (arith, has_inside n (k + 1) i)

length-climb : (n k : ℕ) → length (climb n k) ≡ n
length-climb zero k = refl
length-climb (suc n) k = omega (arith, length-climb n (k + 1))

abbrev boot_pages : List ℕ
boot_pages = climb 80 20

abbrev booting : Kernel
booting = record machine {
  npages = 100;
  page = boot_page;
  page_free_list = some 20;
  mem = λ n i. 0;
  kern_pgdir = 4;
}

booting-Free : Free booting boot_pages
booting-Free = record {
  chain = climb-Chain 80 20 (omega arith) refl;
  distinct = climb-Distinct 80 20;
  free = climb-Unreferenced 80 20 (omega arith) (omega arith);
  detached = λ i out. ground (arith, has_inside 80 20 i);
}

booting-Space : Space 4 boot_pages booting
booting-Space = record {
  small = omega arith;
  free = booting-Free;
  root = has_below 80 20 4 (omega arith);
  slots = λ d h. ground arith;
  apart = λ d e hd he ne pd pe. absurd (omega arith);
}

-- A machine with 16 MB, and a kernel that ends at 0xF0200000.
abbrev image : Image
image = record {
  end_at = 0xF0200000;
  pages_at = 0xF01FF000;
  bootstack = 0xF0110000;
  percpu_kstacks = 0xF01A0000;
  nvram = λ r. if r == 0x16 then 2 else if r == 0x18 then 0x3C else 0;
}

map_kernel-KernelPart_example :
    (t : Kernel) × (map_kernel image 0xF0220000 0xF0201000 booting ≡ returns tt t)
    × KernelPart image 4 0xF0220000 0xF0201000
        (omega arith)
        (omega arith)
        (omega arith)
        (omega arith)
        (omega arith)
        booting
        t
map_kernel-KernelPart_example =
    map_kernel-KernelPart image 4 0xF0220000 0xF0201000 (omega arith) (omega arith) (omega arith)
      (omega arith) (omega arith) booting boot_pages refl booting-Space (omega arith) (omega arith)
      (omega (arith, length-climb 80 20))

boot_alloc-boot_alloc_example :
    (t u : Kernel) × (b : ℕ) × (boot_alloc image 4096 booting ≡ returns (start image booting) t)
    × (boot_alloc image 5000 t ≡ returns b u)
    × (b % 4096 ≡ 0)
    × (start image booting + 4096 ≤ b)
    × (b < start image booting + 4096 + 4096)
    × (b + 5000 ≤ u.nextfree)
unfolding start
boot_alloc-boot_alloc_example =
    boot_alloc-boot_alloc image 4096 5000 booting (omega arith, omega arith, omega arith)
      (omega arith, omega arith, omega arith) refl (omega arith)
