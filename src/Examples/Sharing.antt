-- ===== src/Examples/Sharing.antt =====
-- A program that shares a page with its child, and one that writes to a shared page.
use junior_os.Base.{ℕ, ◌&&◌, some, [], ◌∷◌, ◌==◌, if◌then◌else◌, ◌≡◌, arith, refl}
use junior_os.Kernel.{Kernel, Env, EnvStatus, returns}
use junior_os.Vm.Space.{entry_of}
use junior_os.User.{pgfault}
use junior_os.User.Fault.{CanFault}
use junior_os.User.Private.{Private}
use junior_os.User.Handling.{pgfault-Private}
use junior_os.Examples.Machines.{machine, machine-Free, memory, env_table}

-- Page 11 is the page directory of the child, which is empty below UTOP and has the kernel's page table,
-- page 10, in the same slot as its parent's.
abbrev two_memories : ℕ → ℕ → ℕ
two_memories n i =
    if n == 11
    then (if i == 958 then 40967 else 0)
    else if n == 5 && i == 957
    then 20485
    else memory n i

abbrev two_envs : ℕ → Env
two_envs n =
    if n == 1
    then record (env_table EnvStatus.running EnvStatus.not_runnable 1) { env_pgdir = some 11 }
    else env_table EnvStatus.running EnvStatus.not_runnable n

abbrev family : Kernel
family = record machine { mem = two_memories; envs = two_envs }

-- Page 9 is mapped copy-on-write, and there is a page table for PFTEMP.
abbrev cow_memory : ℕ → ℕ → ℕ
cow_memory n i =
    if n == 5
    then (if i == 0 then 24583 else if i == 1 then 40967 else if i == 957 then 20485 else 0)
    else if n == 6
    then (if i == 1 then 38917 else 0)
    else if n == 9
    then (if i == 3 then 77 else 0)
    else 0

abbrev cow_machine : Kernel
cow_machine = record machine { mem = cow_memory }

cow_machine-CanFault : CanFault cow_machine 0 5 4096 7 (8 ∷ [])
unfolding entry_of
cow_machine-CanFault = record {
  caller = refl;
  loaded = refl;
  own = refl;
  pgdir = refl;
  space = record {
    small = omega arith;
    free = machine-Free;
    root = refl;
    slots = λ d h. ground arith;
    apart = λ d e hd he ne pd pe. ground arith;
  };
  nonzero = omega arith;
  below = omega arith;
  aligned = refl;
  elsewhere = omega arith;
  present = refl;
  cow = refl;
  user = refl;
  used = record {
    in_range = omega arith;
    counted = omega arith;
    bounded = omega arith;
    unlinked = refl;
    taken = refl;
  };
  leaf = (omega arith, λ d h present. ground arith);
  table = refl;
  temp_table = (refl, refl, refl);
  empty = refl;
}

pgfault-Private_example :
    (v : Kernel) × (pgfault 4100 2 cow_machine ≡ returns tt v) × Private 5 9 7 4096 cow_machine v
unfolding entry_of
pgfault-Private_example =
    pgfault-Private cow_machine 0 5 4100 2 7 (8 ∷ []) cow_machine-CanFault refl
