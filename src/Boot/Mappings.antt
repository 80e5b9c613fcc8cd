-- ===== src/Boot/Mappings.antt =====
-- mem_init: the part of the address space above UTOP, which every environment shares.
use junior_os.Base.{
  ℕ, zero, suc, ◌+◌, ◌-◌, ◌*◌, ◌/◌, ◌%◌, ◌^◌, ◌<◌, ◌≤◌, ◌≡◌, ◌≢◌, inl, inr, refl, List, length,
  arith, ◌∙◌, subst, ge→ltb, sym, ap,
}
use junior_os.Machine.{pdx, kernbase, utop, roundup, word}
use junior_os.Kernel.{Kernel, returns}
use junior_os.Vm.{boot_map_region}
use junior_os.Vm.Space.{self_map, Space, entry_of}
use junior_os.Vm.Regions.{value_at, Mapping, boot_map_region-Region}
use junior_os.Boot.{
  Image, paddr, map_array, map_bootstack, map_memory, map_envs, map_kernel, mem_init_mp, stack_at,
  kstksize, page_info_size,
}
use junior_os.Boot.Stacks.{stack_pa, Stacks, mem_init_mp-Stacks}

abbrev upages : ℕ
upages = 0xEF000000

-- The pages of the array `pages`.
abbrev pub array_pages : Kernel → ℕ
array_pages s = roundup (s.npages * page_info_size % word) / 4096

paddr_high : (kva : ℕ) (s : Kernel) → kernbase ≤ kva → paddr kva s ≡ returns (kva - kernbase) s
paddr_high kva s h = rw (ge→ltb kva kernbase h) refl

-- A mapping by the kernel's own directory.
map_own :
    (s : Kernel) (pgdir va size pa perm n : ℕ) (xs : List ℕ)
    → s.kern_pgdir ≡ pgdir
    → ((k : ℕ) → k < n → pdx ((va + k * 4096) % 2 ^ 32) ≢ self_map)
    → va + n * 4096 ≤ 2 ^ 32
    → size / 4096 ≡ n
    → Space pgdir xs s
    → 0 < n
    → (va / 4096 % 1024 + n + 1023) / 1024 ≤ length xs
    → (t : Kernel) × (ys : List ℕ) × (boot_map_region s.kern_pgdir va size pa perm s ≡ returns tt t)
      × Mapping pgdir va pa perm n xs ys s t
      × (t.kern_pgdir ≡ pgdir)
      × (length xs ≤ length ys + (va / 4096 % 1024 + n + 1023) / 1024)
      × (t.npages ≡ s.npages)
map_own s pgdir va size pa perm zero xs dir users fits e space some room = absurd (omega arith)
map_own s pgdir va size pa perm (suc n) xs dir users fits e space some room =
    let (t, ys, run, mapping) =
      boot_map_region-Region pgdir va pa perm (suc n) users fits size s xs e space room in
    (
      t,
      ys,
      subst (λ d. boot_map_region d va size pa perm s ≡ returns tt t) (sym dir) run,
      mapping,
      ap (λ (k : Kernel). k.kern_pgdir) mapping.same ∙ dir,
      mapping.cost,
      ap (λ (k : Kernel). k.npages) mapping.same,
    )

module _ (image : Image) (pgdir pages envs : ℕ) (high : kernbase ≤ image.percpu_kstacks)
    (low : image.percpu_kstacks + 8 * 32768 ≤ 2 ^ 32) (stack_high : kernbase ≤ image.bootstack)
    (pages_high : kernbase ≤ pages) (envs_high : kernbase ≤ envs) where
  -- The array of pages and the environments, which users may read; the stacks of the CPUs; and the
  -- physical memory, but for the last page of the address space. Nothing below UTOP is mapped.
  pub record KernelPart (s t : Kernel) : Type 0 where
    pub pages_part :
        (k : ℕ)
        → k < array_pages s
        → entry_of t pgdir (upages + k * 4096) ≡ value_at pgdir upages (pages - kernbase) 5 k
    pub stacks_part :
        (j k : ℕ)
        → j < 8
        → k < 8
        → entry_of t pgdir (stack_at j + k * 4096)
          ≡ value_at pgdir (stack_at j) (stack_pa image pgdir high low j) 3 k
    pub memory_part :
        (k : ℕ) → k < 65535 → entry_of t pgdir (kernbase + k * 4096) ≡ value_at pgdir kernbase 0 3 k
    pub last_page : entry_of t pgdir 0xFFFFF000 ≡ entry_of s pgdir 0xFFFFF000
    pub envs_part :
        (k : ℕ)
        → k < 31
        → entry_of t pgdir (utop + k * 4096) ≡ value_at pgdir utop (envs - kernbase) 5 k
    pub user_part : (va : ℕ) → va < utop → entry_of t pgdir va ≡ entry_of s pgdir va
    pub left : List ℕ
    pub space : Space pgdir left t

  -- What the next mapping starts from: the kernel's directory, sound, and `room` free pages.
  record Ready (room : ℕ) (xs : List ℕ) (s : Kernel) : Type 0 where
    directory : s.kern_pgdir ≡ pgdir
    space : Space pgdir xs s
    enough : room ≤ length xs

  map_array-Mapping :
      (s : Kernel) (xs : List ℕ)
      → Ready 75 xs s
      → 0 < s.npages
      → s.npages ≤ 2 ^ 19
      → (t : Kernel) × (ys : List ℕ) × (map_array pages s ≡ returns tt t)
        × Mapping pgdir upages (pages - kernbase) 5 (array_pages s) xs ys s t
        × Ready 74 ys t
  unfolding map_array
  map_array-Mapping s xs ready some few =
      let (t, ys, run, m, dir, cost, np) =
        map_own s pgdir upages (roundup (s.npages * page_info_size % word)) (pages - kernbase) 5
          (array_pages s) xs ready.directory (λ k h. omega arith) (omega arith) refl ready.space
          (omega arith) (omega (arith, ready.enough)) in
      (
        t,
        ys,
        rw (paddr_high pages s pages_high) run,
        m,
        record { directory = dir; space = m.space; enough = omega (arith, ready.enough) },
      )

  map_bootstack-Mapping :
      (s : Kernel) (xs : List ℕ)
      → Ready 74 xs s
      → (t : Kernel) × (ys : List ℕ) × (map_bootstack image s ≡ returns tt t)
        × Mapping pgdir (kernbase - kstksize) (image.bootstack - kernbase) 3 8 xs ys s t
        × Ready 73 ys t
  unfolding map_bootstack
  map_bootstack-Mapping s xs ready =
      let (t, ys, run, m, dir, cost, np) =
        map_own s pgdir (kernbase - kstksize) kstksize (image.bootstack - kernbase) 3 8 xs
          ready.directory (λ k h. omega arith) (omega arith) refl ready.space (omega arith)
          (omega (arith, ready.enough)) in
      (
        t,
        ys,
        rw (paddr_high image.bootstack s stack_high) run,
        m,
        record { directory = dir; space = m.space; enough = omega (arith, ready.enough) },
      )

  Stacks-Ready :
      (s : Kernel) (xs : List ℕ)
      → Ready 73 xs s
      → (t : Kernel) × (ys : List ℕ) × (mem_init_mp image s ≡ returns tt t)
        × Stacks image pgdir high low 0 8 xs ys s t
        × Ready 65 ys t
  Stacks-Ready s xs ready =
      let (t, ys, run, m) =
        mem_init_mp-Stacks image pgdir high low s xs ready.directory ready.space
          (omega (arith, ready.enough)) in
      (
        t,
        ys,
        run,
        m,
        record {
          directory = m.directory ∙ ready.directory;
          space = m.space;
          enough = omega (arith, m.cost, ready.enough);
        },
      )

  map_memory-Mapping :
      (s : Kernel) (xs : List ℕ)
      → Ready 65 xs s
      → (t : Kernel) × (ys : List ℕ) × (map_memory s ≡ returns tt t)
        × Mapping pgdir kernbase 0 3 65535 xs ys s t
        × Ready 1 ys t
  unfolding map_memory
  map_memory-Mapping s xs ready =
      let (t, ys, run, m, dir, cost, np) =
        map_own s pgdir kernbase 0xFFFFFFF 0 3 65535 xs ready.directory (λ k h. omega arith)
          (omega arith) refl ready.space (omega arith) (omega (arith, ready.enough)) in
      (
        t,
        ys,
        run,
        m,
        record { directory = dir; space = m.space; enough = omega (arith, ready.enough) },
      )

  map_envs-Mapping :
      (s : Kernel) (xs : List ℕ)
      → Ready 1 xs s
      → (t : Kernel) × (ys : List ℕ) × (map_envs envs s ≡ returns tt t)
        × Mapping pgdir utop (envs - kernbase) 5 31 xs ys s t
  unfolding map_envs
  map_envs-Mapping s xs ready =
      let (t, ys, run, m, dir, cost, np) =
        map_own s pgdir utop (31 * 4096) (envs - kernbase) 5 31 xs ready.directory
          (λ k h. omega arith) (omega arith) refl ready.space (omega arith)
          (omega (arith, ready.enough)) in
      (t, ys, rw (paddr_high envs s envs_high) run, m)

  module _ (s s1 s2 s3 s4 s5 : Kernel) (xs xs1 xs2 xs3 xs4 xs5 : List ℕ) (few : s.npages ≤ 2 ^ 19)
      (m1 : Mapping pgdir upages (pages - kernbase) 5 (array_pages s) xs xs1 s s1)
      (m2 : Mapping pgdir (kernbase - kstksize) (image.bootstack - kernbase) 3 8 xs1 xs2 s1 s2)
      (m3 : Stacks image pgdir high low 0 8 xs2 xs3 s2 s3)
      (m4 : Mapping pgdir kernbase 0 3 65535 xs3 xs4 s3 s4)
      (m5 : Mapping pgdir utop (envs - kernbase) 5 31 xs4 xs5 s4 s5) where
    -- Below the stacks and the memory only `pages` and `envs` are mapped; `envs` stands below `pages`.
    low_part : (va : ℕ) → va < 0xEF400000 → entry_of s4 pgdir va ≡ entry_of s1 pgdir va
    low_part va small =
        m4.beside va (omega arith) (omega arith) (inl (omega arith))
        ∙ m3.beside va (omega arith) (omega arith) (λ j lo hi. inl (omega arith))
        ∙ m2.beside va (omega arith) (omega arith) (inl (omega arith))

    kernel_part : KernelPart s s5
    kernel_part = record {
      pages_part = λ k h.
          m5.beside (upages + k * 4096) (omega arith) (omega arith) (inr (omega arith))
          ∙ low_part (upages + k * 4096) (omega arith)
          ∙ m1.pages k h;
      stacks_part = λ j k hj hk.
          m5.beside (stack_at j + k * 4096) (omega arith) (omega arith) (inr (omega arith))
          ∙ m4.beside (stack_at j + k * 4096) (omega arith) (omega arith) (inl (omega arith))
          ∙ m3.pages j k (omega arith) hj hk;
      memory_part = λ k h.
          m5.beside (kernbase + k * 4096) (omega arith) (omega arith) (inr (omega arith))
          ∙ m4.pages k h;
      last_page =
          m5.beside 0xFFFFF000 (omega arith) (omega arith) (inr (omega arith))
          ∙ m4.beside 0xFFFFF000 (omega arith) (omega arith) (inr (omega arith))
          ∙ m3.beside 0xFFFFF000 (omega arith) (omega arith) (λ j lo hi. inr (omega arith))
          ∙ m2.beside 0xFFFFF000 (omega arith) (omega arith) (inr (omega arith))
          ∙ m1.beside 0xFFFFF000 (omega arith) (omega arith) (inr (omega arith));
      envs_part = m5.pages;
      user_part = λ va h.
          m5.beside va (omega arith) (omega arith) (inl (omega arith))
          ∙ low_part va (omega arith)
          ∙ m1.beside va (omega arith) (omega arith) (inl (omega arith));
      left = xs5;
      space = m5.space;
    }

  -- With an image in the upper half of the addresses, a sound kernel directory, at most 2 ^ 19
  -- pages and at least 75 free ones, the mappings of mem_init succeed: `pages` and `envs` are
  -- readable for users, the stacks of the CPUs and the physical memory writable for the kernel, up
  -- to the last page of the address space, which stays as it was, as do the addresses below UTOP.
  pub map_kernel-KernelPart :
      (s : Kernel) (xs : List ℕ)
      → s.kern_pgdir ≡ pgdir
      → Space pgdir xs s
      → 0 < s.npages
      → s.npages ≤ 2 ^ 19
      → 75 ≤ length xs
      → (t : Kernel) × (map_kernel image pages envs s ≡ returns tt t) × KernelPart s t
  unfolding map_kernel
  map_kernel-KernelPart s xs dir space some few room =
      let (s1, xs1, run1, m1, ready1) =
        map_array-Mapping s xs (record { directory = dir; space = space; enough = room }) some
          few in
      let (s2, xs2, run2, m2, ready2) = map_bootstack-Mapping s1 xs1 ready1 in
      let (s3, xs3, run3, m3, ready3) = Stacks-Ready s2 xs2 ready2 in
      let (s4, xs4, run4, m4, ready4) = map_memory-Mapping s3 xs3 ready3 in
      let (s5, xs5, run5, m5) = map_envs-Mapping s4 xs4 ready4 in
      (
        s5,
        rw (run1, run2, run3, run4) run5,
        kernel_part s s1 s2 s3 s4 s5 xs xs1 xs2 xs3 xs4 xs5 few m1 m2 m3 m4 m5,
      )
