-- ===== src/Envs.antt =====
-- Environments: jos-lab4/kern/env.c, envid2env, env_init, env_setup_vm, env_alloc, region_alloc and
-- env_free.
pub mod Ids
pub mod Create
pub mod Boot
pub mod Lookup
use junior_os.Base.{
  ℕ, zero, suc, ◌+◌, ◌-◌, ◌*◌, ◌/◌, ◌%◌, ◌^◌, Bool, true, false, not, ◌||◌, ◌&&◌, Option, none,
  some, ◌==◌, ltb, leb, if◌then◌else◌, update, bit_or,
}
use junior_os.Machine.{
  word, pdx, pte_addr, pte_p, pte_w, pte_u, test, pgaddr, rounddown, roundup, add32, sub32, nenv,
  envx, ustacktop,
}
use junior_os.Kernel.{
  Kernel, PageInfo, PushRegs, Trapframe, EnvStatus, Env, Cmd, Status, ok, fails, e_bad_env,
  e_no_mem, e_no_free_env, null_dereference, pure, ◌>>=◌, ◌>>◌, get, put, panic, leave, deref,
  set_page, set_env,
}
use junior_os.Pages.{page2pa, pa2page, page2kva, clear_frame, page_alloc, page_decref, ref_plus}
use junior_os.Vm.{page_insert, page_remove, points_to}

abbrev pub is_free : EnvStatus → Bool
is_free EnvStatus.free = true
is_free _ = false

abbrev pub is_runnable : EnvStatus → Bool
is_runnable EnvStatus.runnable = true
is_runnable _ = false

abbrev pub is_running : EnvStatus → Bool
is_running EnvStatus.running = true
is_running _ = false

-- The permission check of envid2env, for the environment in slot `e`.
check_caller : Bool → ℕ → Option ℕ → Cmd (Status × Option ℕ)
check_caller checkperm e none = if checkperm then leave null_dereference else pure (ok, some e)
check_caller checkperm e (some c) = do
  s ← get
  if checkperm && not (e == c) && not ((s.envs e).env_parent_id == (s.envs c).env_id)
      then pure (fails e_bad_env, none)
      else pure (ok, some e)

-- The result and what is stored through `env_store`.
unfoldable pub envid2env : ℕ → Bool → Cmd (Status × Option ℕ)
unfolding check_caller
envid2env envid checkperm = do
  s ← get
  if envid == 0
      then pure (ok, s.curenv)
      else if is_free (s.envs (envx envid)).env_status
          || not ((s.envs (envx envid)).env_id == envid)
      then pure (fails e_bad_env, none)
      else check_caller checkperm (envx envid) s.curenv

-- `i` environments are left, the highest of them first.
unfoldable pub init_envs : ℕ → Cmd (Unit {0})
init_envs zero = pure tt
init_envs (suc i) = do
  s ← get
  set_env i
      (record (s.envs i) { env_status = EnvStatus.free; env_id = 0; env_link = s.env_free_list })
  t ← get
  put (record t { env_free_list = some i })
  init_envs i

-- The segment registers that env_init_percpu loads are not part of the state.
unfoldable pub env_init : Cmd (Unit {0})
env_init = init_envs nenv

-- `e->env_pgdir[i] = kern_pgdir[i]` for `rounds` slots from `i` on.
unfoldable pub copy_kernel : ℕ → ℕ → ℕ → Cmd (Unit {0})
copy_kernel pgdir zero i = pure tt
copy_kernel pgdir (suc rounds) i = do
  s ← get
  put (record s { mem = update s.mem pgdir (update (s.mem pgdir) i (s.mem s.kern_pgdir i)) })
  copy_kernel pgdir rounds (i + 1)

-- PDX(UTOP) and PDX(UVPT).
abbrev pub pdx_utop : ℕ
pdx_utop = 955

abbrev pub pdx_uvpt : ℕ
pdx_uvpt = 957

setup_pgdir : ℕ → Option ℕ → Cmd Status
setup_pgdir e none = pure (fails e_no_mem)
setup_pgdir e (some p) = do
  pgdir ← page2kva p
  s ← get
  set_env e (record (s.envs e) { env_pgdir = some pgdir })
  clear_frame pgdir
  copy_kernel pgdir (1024 - pdx_utop) pdx_utop
  t ← get
  set_page p (record (t.page p) { pp_ref = ref_plus (t.page p).pp_ref })
  u ← get
  put (record u {
    mem =
        update u.mem pgdir
          (update (u.mem pgdir) pdx_uvpt (bit_or (bit_or (page2pa pgdir) pte_p) pte_u));
  })
  pure ok

unfoldable pub env_setup_vm : ℕ → Cmd Status
unfolding setup_pgdir
env_setup_vm e = do p ← page_alloc 1; setup_pgdir e p

-- `(e->env_id + (1 << ENVGENSHIFT)) & ~(NENV - 1)`, an int32_t; not positive, it starts again.
abbrev pub generation : ℕ → ℕ
generation old =
    let g = (old + 4096) % word / 1024 * 1024 in if g == 0 || leb (2 ^ 31) g then 4096 else g

abbrev pub zero_regs : PushRegs
zero_regs = record {
  reg_edi = 0;
  reg_esi = 0;
  reg_ebp = 0;
  reg_oesp = 0;
  reg_ebx = 0;
  reg_edx = 0;
  reg_ecx = 0;
  reg_eax = 0;
}

-- The frame of a new environment: GD_UD | 3, GD_UT | 3, FL_IF and USTACKTOP.
abbrev pub start_frame : Trapframe
start_frame = record {
  tf_regs = zero_regs;
  tf_es = 0x23;
  tf_ds = 0x23;
  tf_trapno = 0;
  tf_err = 0;
  tf_eip = 0;
  tf_cs = 0x1b;
  tf_eflags = 0x200;
  tf_esp = ustacktop;
  tf_ss = 0x23;
}

-- The fields that env_alloc sets.
abbrev pub born : ℕ → ℕ → Env → Env
born e parent_id env = record env {
  env_id = bit_or (generation env.env_id) e;
  env_parent_id = parent_id;
  env_type = 0;
  env_status = EnvStatus.runnable;
  env_runs = 0;
  env_tf = start_frame;
  env_pgfault_upcall = 0;
  env_ipc_recving = false;
}

finish_env : ℕ → ℕ → Status → Cmd (Status × Option ℕ)
finish_env e parent_id (fails r) = pure (fails r, none)
finish_env e parent_id ok = do
  s ← get
  set_env e (born e parent_id (s.envs e))
  t ← get
  put (record t { env_free_list = (t.envs e).env_link })
  pure (ok, some e)

alloc_env : ℕ → Option ℕ → Cmd (Status × Option ℕ)
unfolding finish_env
alloc_env parent_id none = pure (fails e_no_free_env, none)
alloc_env parent_id (some e) = do r ← env_setup_vm e; finish_env e parent_id r

-- The result and the environment stored through `newenv_store`.
unfoldable pub env_alloc : ℕ → Cmd (Status × Option ℕ)
unfolding alloc_env
env_alloc parent_id = do s ← get; alloc_env parent_id s.env_free_list

-- One page of region_alloc; the result of page_insert is dropped.
alloc_at : ℕ → ℕ → Option ℕ → Cmd (Unit {0})
alloc_at pgdir va none = panic
alloc_at pgdir va (some pp) = page_insert pgdir pp va (bit_or pte_w pte_u) >>= λ _. pure tt

alloc_pages : ℕ → ℕ → ℕ → Cmd (Unit {0})
unfolding alloc_at
alloc_pages pgdir zero va = pure tt
alloc_pages pgdir (suc rounds) va = do
  pp ← page_alloc 1
  alloc_at pgdir va pp
  alloc_pages pgdir rounds (va + 4096)

-- From ROUNDDOWN(va) while below ROUNDUP(va + len), in steps of a page.
pub region_alloc : ℕ → ℕ → ℕ → Cmd (Unit {0})
unfolding alloc_pages
region_alloc e va len = do
  s ← get
  pgdir ← deref (s.envs e).env_pgdir
  alloc_pages pgdir ((roundup (add32 va len) - rounddown va) / 4096) (rounddown va)

-- Unmap the pages of one page table: `rounds` entries are left, from `pteno` on.
free_table : ℕ → ℕ → ℕ → ℕ → ℕ → Cmd (Unit {0})
free_table pgdir pdeno pt zero pteno = pure tt
free_table pgdir pdeno pt (suc rounds) pteno = do
  s ← get
  if test (s.mem pt pteno) pte_p then page_remove pgdir (pgaddr pdeno pteno 0) else pure tt
  free_table pgdir pdeno pt rounds (pteno + 1)

-- One slot of the directory: its pages, then the page table.
free_slot : ℕ → ℕ → Cmd (Unit {0})
unfolding free_table
free_slot pgdir pdeno = do
  s ← get
  if not (test (s.mem pgdir pdeno) pte_p) then pure tt else do
    pt ← pa2page (pte_addr (s.mem pgdir pdeno))
    free_table pgdir pdeno pt 1024 0
    t ← get
    put (record t { mem = update t.mem pgdir (update (t.mem pgdir) pdeno 0) })
    page_decref pt

free_slots : ℕ → ℕ → ℕ → Cmd (Unit {0})
unfolding free_slot
free_slots pgdir zero pdeno = pure tt
free_slots pgdir (suc rounds) pdeno = free_slot pgdir pdeno >> free_slots pgdir rounds (pdeno + 1)

unfoldable pub env_free : ℕ → Cmd (Unit {0})
unfolding free_slots
env_free e = do
  s ← get
  if points_to s.curenv e then put (record s { cr3 = s.kern_pgdir }) else pure tt
  pgdir ← deref (s.envs e).env_pgdir
  free_slots pgdir pdx_utop 0
  t ← get
  set_env e (record (t.envs e) { env_pgdir = none })
  pp ← pa2page (page2pa pgdir)
  page_decref pp
  u ← get
  set_env e (record (u.envs e) { env_status = EnvStatus.free; env_link = u.env_free_list })
  v ← get
  put (record v { env_free_list = some e })
