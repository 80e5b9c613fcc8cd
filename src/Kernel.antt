-- ===== src/Kernel.antt =====
-- The kernel's state, as one CPU sees it while it holds the big kernel lock, and the commands that
-- act on it: jos-lab4/inc/memlayout.h (struct PageInfo), inc/trap.h (the frames), inc/env.h
-- (struct Env), kern/cpu.h (struct CpuInfo), and the globals of kern/pmap.c and kern/env.c.
--
-- A pointer into `pages` or `envs` is an index, and NULL is `none`. A page table or directory is the
-- number of the physical page that holds it; `mem n i` is the 32-bit word `i` of physical page `n`,
-- which the kernel reaches at KERNBASE + n * PGSIZE + 4 * i.
use junior_os.Base.{◌≡◌, refl, ℕ, Bool, Option, none, some, List, update, if◌then◌else◌, leb}
use junior_os.Machine.{pgnum}

pub record PageInfo : Type 0 where
  pub pp_link : Option ℕ
  pub pp_ref : ℕ  -- uint16_t

pub record PushRegs : Type 0 where
  pub reg_edi : ℕ
  pub reg_esi : ℕ
  pub reg_ebp : ℕ
  pub reg_oesp : ℕ
  pub reg_ebx : ℕ
  pub reg_edx : ℕ
  pub reg_ecx : ℕ
  pub reg_eax : ℕ

pub record Trapframe : Type 0 where
  pub tf_regs : PushRegs
  pub tf_es : ℕ
  pub tf_ds : ℕ
  pub tf_trapno : ℕ
  pub tf_err : ℕ
  pub tf_eip : ℕ
  pub tf_cs : ℕ
  pub tf_eflags : ℕ
  pub tf_esp : ℕ
  pub tf_ss : ℕ

pub data EnvStatus : Type 0 where
  free dying runnable running not_runnable : EnvStatus

pub record Env : Type 0 where
  pub env_tf : Trapframe
  pub env_link : Option ℕ
  pub env_id : ℕ  -- envid_t, as a 32-bit pattern
  pub env_parent_id : ℕ
  pub env_type : ℕ
  pub env_status : EnvStatus
  pub env_runs : ℕ
  pub env_cpunum : ℕ
  pub env_pgdir : Option ℕ
  pub env_pgfault_upcall : ℕ
  pub env_ipc_recving : Bool
  pub env_ipc_dstva : ℕ
  pub env_ipc_value : ℕ
  pub env_ipc_from : ℕ
  pub env_ipc_perm : ℕ

pub data CpuStatus : Type 0 where
  cpu_unused cpu_started cpu_halted : CpuStatus

pub record Kernel : Type 0 where
  pub npages : ℕ
  pub npages_basemem : ℕ
  pub page : ℕ → PageInfo  -- pages[]
  pub page_free_list : Option ℕ
  pub mem : ℕ → ℕ → ℕ
  pub kern_pgdir : ℕ
  pub nextfree : ℕ  -- the static of boot_alloc, 0 before its first call
  pub mmio_base : ℕ  -- the static `base` of mmio_map_region
  pub user_mem_check_addr : ℕ
  pub envs : ℕ → Env
  pub env_free_list : Option ℕ
  pub curenv : Option ℕ
  pub cr3 : ℕ  -- the page directory that the CPU translates by
  pub invalidated : List ℕ  -- the arguments of invlpg, the latest first
  pub cpunum : ℕ
  pub cpu_status : CpuStatus
  pub locked : Bool  -- this CPU holds kernel_lock

-- How a command leaves the kernel without returning to its caller.
pub data Exit : Type 0 where
  panicked : Exit
  null_dereference : Exit
  entered : ℕ → Exit  -- iret into the environment at this index
  halted : Exit  -- hlt, with interrupts on
  in_monitor : Exit  -- the kernel monitor's loop
  stopped : Exit  -- hlt with interrupts off, after a panic elsewhere
  aborted : Exit  -- a user program's panic
  faulted : Exit  -- a page fault of a user program

pub data Run (A : Type 0) : Type 0 where
  returns : A → Kernel → Run A
  leaves : Exit → Kernel → Run A

abbrev pub Cmd : Type 0 → Type 0
Cmd A = Kernel → Run A

abbrev pub pure : {A : Type 0} → A → Cmd A
pure a s = returns a s

abbrev pub and_then : {A B : Type 0} → Run A → (A → Cmd B) → Run B
and_then (returns a s) f = f a s
and_then (leaves x s) f = leaves x s

infixl 5 ◌>>=◌ ◌>>◌
abbrev pub ◌>>=◌ : {A B : Type 0} → Cmd A → (A → Cmd B) → Cmd B
◌>>=◌ m f s = and_then (m s) f

abbrev pub ◌>>◌ : {B : Type 0} → Cmd (Unit {0}) → Cmd B → Cmd B
m >> k = m >>= λ _. k

abbrev pub get : Cmd Kernel
get s = returns s s

abbrev pub put : Kernel → Cmd (Unit {0})
put t s = returns tt t

abbrev pub leave : {A : Type 0} → Exit → Cmd A
leave x s = leaves x s

abbrev pub panic : {A : Type 0} → Cmd A
panic = leave panicked

-- A dereference of a pointer that may be NULL.
abbrev pub deref : Option ℕ → Cmd ℕ
deref none = leave null_dereference
deref (some p) = pure p

pub deref-some : (o : Option ℕ) (c : ℕ) (s : Kernel) → o ≡ some c → deref o s ≡ returns c s
deref-some o c s e = rw e refl

abbrev pub set_page : ℕ → PageInfo → Cmd (Unit {0})
set_page pp info s = returns tt (record s { page = update s.page pp info })

abbrev pub set_env : ℕ → Env → Cmd (Unit {0})
set_env e env s = returns tt (record s { envs = update s.envs e env })

-- A pte_t pointer is the page that holds the table and the index in it.
pub record PtePtr : Type 0 where
  pub table : ℕ
  pub index : ℕ

abbrev pub read_pte : Kernel → PtePtr → ℕ
read_pte s p = s.mem p.table p.index

abbrev pub write_pte : PtePtr → ℕ → Cmd (Unit {0})
write_pte p v s =
    returns tt (record s { mem = update s.mem p.table (update (s.mem p.table) p.index v) })

-- inc/error.h; a kernel function that returns an int returns `ok`, for 0, or a negated code.
pub data Error : Type 0 where
  e_bad_env e_inval e_no_mem e_no_free_env e_fault e_ipc_not_recv : Error

pub data Status : Type 0 where
  ok : Status
  fails : Error → Status

-- KADDR: the physical page's number, which the kernel reaches above KERNBASE.
abbrev pub kaddr : ℕ → Cmd ℕ
kaddr pa s = if leb s.npages (pgnum pa) then leaves panicked s else returns (pgnum pa) s
