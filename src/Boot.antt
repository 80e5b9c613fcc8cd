-- ===== src/Boot.antt =====
-- Memory set-up at boot: jos-lab4/kern/pmap.c, nvram_read, i386_detect_memory, boot_alloc, mem_init
-- and mem_init_mp. The check_* functions that mem_init calls only assert, and are left out; so are
-- the bits of cr0.
pub mod Allocator
pub mod Stacks
pub mod Mappings
use junior_os.Base.{
  ℕ, zero, suc, ◌+◌, ◌-◌, ◌*◌, ◌/◌, ◌%◌, ◌^◌, Bool, true, false, not, ◌||◌, none, ◌==◌, ltb, leb,
  if◌then◌else◌, bit_or, update,
}
use junior_os.Machine.{
  word, add32, sub32, roundup, pgnum, kernbase, pte_p, pte_w, pte_u, nenv, utop,
}
use junior_os.Kernel.{Kernel, PageInfo, EnvStatus, Env, Cmd, pure, ◌>>=◌, ◌>>◌, get, put, panic}
use junior_os.Pages.{clear_frame, page_init}
use junior_os.Vm.{boot_map_region}
use junior_os.Envs.{zero_regs, start_frame}

-- What the linker and the machine give: the addresses of `end`, `&pages`, `bootstack` and
-- `percpu_kstacks`, and the bytes that mc146818_read returns.
pub record Image : Type 0 where
  pub end_at : ℕ
  pub pages_at : ℕ
  pub bootstack : ℕ
  pub percpu_kstacks : ℕ
  pub nvram : ℕ → ℕ

abbrev pub nvram_read : Image → ℕ → ℕ
nvram_read image r = bit_or (image.nvram r) (image.nvram (r + 1) * 256)

-- In kilobytes: NVRAM_BASELO, NVRAM_EXTLO and NVRAM_EXT16LO.
abbrev pub totalmem : ℕ → ℕ → ℕ → ℕ
totalmem basemem extmem ext16mem =
    if not (ext16mem == 0)
    then 16 * 1024 + ext16mem
    else if not (extmem == 0)
    then 1 * 1024 + extmem
    else basemem

pub i386_detect_memory : Image → Cmd (Unit {0})
i386_detect_memory image = do
  s ← get
  put (record s {
    npages =
        totalmem (nvram_read image 0x15) (nvram_read image 0x17) (nvram_read image 0x34 * 64) / 4;
    npages_basemem = nvram_read image 0x15 / 4;
  })

-- The first call finds `nextfree` NULL.
pub first_free : Image → ℕ → ℕ
first_free image nextfree = if nextfree == 0 then roundup (add32 image.end_at 1) else nextfree

unfoldable pub boot_alloc : Image → ℕ → Cmd ℕ
unfolding first_free i386_detect_memory
boot_alloc image n = do
  s ← get
  put (record s { nextfree = first_free image s.nextfree })
  if n == 0 then pure (first_free image s.nextfree) else do
    i386_detect_memory image
    t ← get
    if t.npages == 0 || ltb (t.npages * 4096 % word) n
        then panic
        else do put (record t { nextfree = roundup (add32 t.nextfree n) }); pure t.nextfree

-- PADDR.
abbrev pub paddr : ℕ → Cmd ℕ
paddr kva = if ltb kva kernbase then panic else pure (kva - kernbase)

abbrev pub kstksize : ℕ
kstksize = 8 * 4096

abbrev pub kstkgap : ℕ
kstkgap = 8 * 4096

-- The lowest address of the stack of CPU `i`, below KSTACKTOP.
abbrev pub stack_at : ℕ → ℕ
stack_at i = sub32 (sub32 kernbase (i * (kstksize + kstkgap))) kstksize

abbrev pub percpu_kstack : Image → ℕ → ℕ
percpu_kstack image i = add32 image.percpu_kstacks (i * kstksize)

-- `rounds` CPUs are left, from `i` on.
map_stacks : Image → ℕ → ℕ → Cmd (Unit {0})
map_stacks image zero i = pure tt
map_stacks image (suc rounds) i = do
  s ← get
  pa ← paddr (percpu_kstack image i)
  boot_map_region s.kern_pgdir (stack_at i) kstksize pa (bit_or pte_p pte_w)
  map_stacks image rounds (i + 1)

abbrev pub ncpu_max : ℕ
ncpu_max = 8

unfoldable pub mem_init_mp : Image → Cmd (Unit {0})
unfolding map_stacks
mem_init_mp image = map_stacks image ncpu_max 0

-- sizeof(struct Env) and sizeof(struct PageInfo).
abbrev pub env_size : ℕ
env_size = 124

abbrev pub page_info_size : ℕ
page_info_size = 8

abbrev pub zero_env : Env
zero_env = record {
  env_tf = record {
    tf_regs = zero_regs;
    tf_es = 0;
    tf_ds = 0;
    tf_trapno = 0;
    tf_err = 0;
    tf_eip = 0;
    tf_cs = 0;
    tf_eflags = 0;
    tf_esp = 0;
    tf_ss = 0;
  };
  env_link = none;
  env_id = 0;
  env_parent_id = 0;
  env_type = 0;
  env_status = EnvStatus.free;
  env_runs = 0;
  env_cpunum = 0;
  env_pgdir = none;
  env_pgfault_upcall = 0;
  env_ipc_recving = Bool.false;
  env_ipc_dstva = 0;
  env_ipc_value = 0;
  env_ipc_from = 0;
  env_ipc_perm = 0;
}

-- The kernel's page directory: a page of its own, cleared, which maps itself at UVPT.
make_kern_pgdir : Image → Cmd (Unit {0})
make_kern_pgdir image = do
  kva ← boot_alloc image 4096
  pa ← paddr kva
  s ← get
  put (record s { kern_pgdir = pgnum pa })
  clear_frame (pgnum pa)
  t ← get
  put (record t {
    mem = update t.mem (pgnum pa) (update (t.mem (pgnum pa)) 957 (bit_or (bit_or pa pte_u) pte_p));
  })

-- memset of the two arrays.
clear_envs : Cmd (Unit {0})
clear_envs = do s ← get; put (record s { envs = λ _. zero_env })

clear_pages : Cmd (Unit {0})
clear_pages = do s ← get; put (record s { page = λ _. record { pp_link = none; pp_ref = 0 } })

-- The mappings above UTOP, one by one: `pages`, the boot stack, physical memory and `envs`.
unfoldable pub map_array : ℕ → Cmd (Unit {0})
map_array pages = do
  s ← get
  pa ← paddr pages
  boot_map_region s.kern_pgdir 0xEF000000 (roundup (s.npages * page_info_size % word)) pa
      (bit_or pte_u pte_p)

unfoldable pub map_bootstack : Image → Cmd (Unit {0})
map_bootstack image = do
  s ← get
  pa ← paddr image.bootstack
  boot_map_region s.kern_pgdir (kernbase - kstksize) kstksize pa (bit_or pte_w pte_p)

unfoldable pub map_memory : Cmd (Unit {0})
map_memory = do
  s ← get
  boot_map_region s.kern_pgdir kernbase (0xFFFFFFFF - kernbase) 0 (bit_or pte_w pte_p)

unfoldable pub map_envs : ℕ → Cmd (Unit {0})
map_envs envs = do
  s ← get
  pa ← paddr envs
  boot_map_region s.kern_pgdir utop (roundup (nenv * env_size)) pa (bit_or pte_u pte_p)

unfoldable pub map_kernel : Image → ℕ → ℕ → Cmd (Unit {0})
map_kernel image pages envs = do
  map_array pages
  map_bootstack image
  mem_init_mp image
  map_memory
  map_envs envs

pub mem_init : Image → Cmd (Unit {0})
unfolding make_kern_pgdir clear_envs clear_pages map_kernel
mem_init image = do
  i386_detect_memory image
  make_kern_pgdir image
  envs ← boot_alloc image (nenv * env_size)
  clear_envs
  s ← get
  pages ← boot_alloc image (s.npages * page_info_size % word)
  clear_pages
  page_init image.pages_at
  map_kernel image pages envs
  t ← get
  put (record t { cr3 = t.kern_pgdir })
