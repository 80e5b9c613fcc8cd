-- ===== src/Examples/Machines.antt =====
-- A machine with sixteen pages, of which 7 and 8 are free: page 4 holds the kernel's directory, page 5
-- the directory of two environments, 6 and 10 its page tables, and pages 9, 11 and 12 data.
use junior_os.Base.{ℕ, none, some, true, false, List, [], ◌∷◌, ◌==◌, if◌then◌else◌, arith, refl}
use junior_os.Kernel.{Kernel, PageInfo, Env, EnvStatus, cpu_started}
use junior_os.Envs.{start_frame}
use junior_os.Pages.FreeList.{Free}
use junior_os.Vm.Space.{Space}

abbrev pub page_array : ℕ → PageInfo
page_array n =
    if n == 7
    then record { pp_link = some 8; pp_ref = 0 }
    else if n == 8
    then record { pp_link = none; pp_ref = 0 }
    else record { pp_link = none; pp_ref = 1 }

abbrev pub memory : ℕ → ℕ → ℕ
memory n i =
    if n == 5
    then (if i == 0 then 24583 else if i == 958 then 40967 else 0)
    else if n == 6
    then (if i == 1 then 36871 else 0)
    else if n == 10
    then (if i == 0 then 45063 else if i == 1 then 49159 else 0)
    else 0

abbrev pub env_of : ℕ → ℕ → EnvStatus → Env
env_of id parent status = record {
  env_tf = start_frame;
  env_link = none;
  env_id = id;
  env_parent_id = parent;
  env_type = 0;
  env_status = status;
  env_runs = 3;
  env_cpunum = 0;
  env_pgdir = some 5;
  env_pgfault_upcall = 0;
  env_ipc_recving = false;
  env_ipc_dstva = 0;
  env_ipc_value = 0;
  env_ipc_from = 0;
  env_ipc_perm = 0;
}

-- Slot 0 is running, slot 1 is its child; the others are free.
abbrev pub env_table : EnvStatus → EnvStatus → ℕ → Env
env_table first second n =
    if n == 0
    then env_of 4096 0 first
    else if n == 1
    then env_of 4097 4096 second
    else env_of 0 0 EnvStatus.free

abbrev pub machine_with : EnvStatus → EnvStatus → Kernel
machine_with first second = record {
  npages = 16;
  npages_basemem = 10;
  page = page_array;
  page_free_list = some 7;
  mem = memory;
  kern_pgdir = 4;
  nextfree = 0;
  mmio_base = 0xefc00000;
  user_mem_check_addr = 0;
  envs = env_table first second;
  env_free_list = some 2;
  curenv = some 0;
  cr3 = 5;
  invalidated = [];
  cpunum = 0;
  cpu_status = cpu_started;
  locked = true;
}

abbrev pub machine : Kernel
machine = machine_with EnvStatus.running EnvStatus.runnable

abbrev pub free_pages : List ℕ
free_pages = 7 ∷ 8 ∷ []

pub machine-Free : Free machine free_pages
machine-Free = record {
  chain = (refl, (refl, refl));
  distinct = (refl, (refl, tt));
  free = (omega arith, refl, (omega arith, refl, tt));
  detached = λ i out. ground arith;
}

pub machine-Space : Space 5 free_pages machine
machine-Space = record {
  small = omega arith;
  free = machine-Free;
  root = refl;
  slots = λ d h. ground arith;
  apart = λ d e hd he ne pd pe. ground arith;
}
