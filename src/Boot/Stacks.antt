-- ===== src/Boot/Stacks.antt =====
-- mem_init_mp: the kernel stacks of the CPUs, with unmapped pages between them.
use junior_os.Base.{
  ℕ, zero, suc, ◌+◌, ◌-◌, ◌*◌, ◌/◌, ◌^◌, ◌<◌, ◌≤◌, ◌≡◌, ◌≢◌, ◌⊎◌, refl, List, length, arith, ◌∙◌,
  subst, ge→ltb, sym, ap,
}
use native.Mathlib.Decide.{dec_lt}
use junior_os.Machine.{pdx, kernbase}
use junior_os.Kernel.{Kernel, returns}
use junior_os.Vm.{boot_map_region}
use junior_os.Vm.Space.{self_map, Space, entry_of}
use junior_os.Vm.Regions.{value_at, boot_map_region-Region}
use junior_os.Boot.{Image, paddr, map_stacks, mem_init_mp, stack_at, percpu_kstack, kstksize}

module _ (image : Image) (pgdir : ℕ) (high : kernbase ≤ image.percpu_kstacks)
    (low : image.percpu_kstacks + 8 * 32768 ≤ 2 ^ 32) where
  abbrev pub stack_pa : ℕ → ℕ
  stack_pa i = percpu_kstack image i - kernbase

  -- The address is on no stack of the CPUs from `i` on.
  abbrev pub OffStacks : ℕ → ℕ → Type 0
  OffStacks i va =
      (j : ℕ)
      → i ≤ j
      → j < 8
      → (va / 4096 < stack_at j / 4096) ⊎ (stack_at j / 4096 + 8 ≤ va / 4096)

  -- The stacks of the CPUs from `i` on are mapped, and nothing else has changed.
  pub record Stacks (i rounds : ℕ) (xs ys : List ℕ) (s t : Kernel) : Type 0 where
    pub pages :
        (j k : ℕ)
        → i ≤ j
        → j < 8
        → k < 8
        → entry_of t pgdir (stack_at j + k * 4096) ≡ value_at pgdir (stack_at j) (stack_pa j) 3 k
    pub beside :
        (va : ℕ)
        → pdx va ≢ self_map
        → va < 2 ^ 32
        → OffStacks i va
        → entry_of t pgdir va ≡ entry_of s pgdir va
    pub space : Space pgdir ys t
    pub cost : length xs ≤ length ys + rounds
    pub directory : t.kern_pgdir ≡ s.kern_pgdir

  paddr_eq : (i : ℕ) (s : Kernel) → i < 8 → paddr (percpu_kstack image i) s ≡ returns (stack_pa i) s
  paddr_eq i s h = rw (ge→ltb (percpu_kstack image i) kernbase (omega arith)) refl

  map_stacks_step :
      (rounds i : ℕ) (s t : Kernel)
      → i < 8
      → boot_map_region s.kern_pgdir (stack_at i) kstksize (stack_pa i) 3 s ≡ returns tt t
      → map_stacks image (suc rounds) i s ≡ map_stacks image rounds (i + 1) t
  unfolding map_stacks
  map_stacks_step rounds i s t h run = rw (paddr_eq i s h, run) refl

  map_stacks-Stacks :
      (rounds i : ℕ) (s : Kernel) (xs : List ℕ)
      → i + rounds ≡ 8
      → s.kern_pgdir ≡ pgdir
      → Space pgdir xs s
      → rounds ≤ length xs
      → (t : Kernel) × (ys : List ℕ) × (map_stacks image rounds i s ≡ returns tt t)
        × Stacks i rounds xs ys s t
  unfolding map_stacks
  map_stacks-Stacks zero i s xs e dir space room = (
    s,
    xs,
    refl,
    record {
      pages = λ j k lo hi h. absurd (omega arith);
      beside = λ va user small off. refl;
      space = space;
      cost = omega arith;
      directory = refl;
    },
  )
  map_stacks-Stacks (suc rounds) i s xs e dir space room =
      let (t, ys, run, mapping) =
        boot_map_region-Region pgdir (stack_at i) (stack_pa i) 3 8 (λ k h. omega arith)
          (omega arith) kstksize s xs refl space (omega arith) in
      let dir' : t.kern_pgdir ≡ s.kern_pgdir = ap (λ (k : Kernel). k.kern_pgdir) mapping.same in
      let cheap : length xs ≤ length ys + 1 = omega (arith, mapping.cost) in
      let (u, zs, rest, stacks) =
        map_stacks-Stacks rounds (i + 1) t ys (omega arith) (dir' ∙ dir) mapping.space
          (omega (arith)) in
      let here =
        subst (λ d. boot_map_region d (stack_at i) kstksize (stack_pa i) 3 s ≡ returns tt t)
          (sym dir) run in
      (
        u,
        zs,
        map_stacks_step rounds i s t (omega arith) here ∙ rest,
        record {
          pages = λ j k lo hi h. elim (dec_lt i j) [
            | yes further ↦ stacks.pages j k (omega arith) hi h
            | no first ↦
                let same : j ≡ i = omega arith in
                subst
                  (λ n.
                    entry_of u pgdir (stack_at n + k * 4096)
                    ≡ value_at pgdir (stack_at n) (stack_pa n) 3 k)
                  (sym same)
                  (stacks.beside (stack_at i + k * 4096) (omega arith) (omega arith)
                      (λ m lo' hi'. omega arith)
                    ∙ mapping.pages k h)
          ];
          beside = λ va user small off.
              stacks.beside va user small (λ m lo' hi'. off m (omega arith) hi')
              ∙ mapping.beside va user small (off i (omega arith) (omega arith));
          space = stacks.space;
          cost = omega (arith, stacks.cost);
          directory = stacks.directory ∙ dir';
        },
      )

  -- From a sound kernel directory and eight free pages, mem_init_mp maps the stacks of the eight CPUs,
  -- and leaves every other address, those between the stacks too, as it was.
  pub mem_init_mp-Stacks :
      (s : Kernel) (xs : List ℕ)
      → s.kern_pgdir ≡ pgdir
      → Space pgdir xs s
      → 8 ≤ length xs
      → (t : Kernel) × (ys : List ℕ) × (mem_init_mp image s ≡ returns tt t) × Stacks 0 8 xs ys s t
  unfolding mem_init_mp
  mem_init_mp-Stacks s xs dir space room = map_stacks-Stacks 8 0 s xs (omega arith) dir space room
