-- ===== src/Sched.antt =====
-- Running environments: jos-lab4/kern/env.c, env_run, env_pop_tf and env_destroy; kern/sched.c;
-- and kern/pmap.c, user_mem_assert, which destroys the environment that it refuses.
pub mod Probe
pub mod Yield
use junior_os.Base.{
  ℕ, zero, suc, ◌+◌, ◌%◌, Bool, true, false, not, ◌||◌, ◌&&◌, Option, none, some, ◌==◌,
  if◌then◌else◌, bit_or,
}
use junior_os.Machine.{word, nenv, envx, pte_u}
use junior_os.Kernel.{
  Kernel, EnvStatus, Env, Cmd, Status, ok, fails, cpu_halted, entered, halted, in_monitor, pure,
  ◌>>=◌, ◌>>◌, get, put, panic, leave, set_env,
}
use junior_os.Vm.{points_to, user_mem_check}
use junior_os.Envs.{is_runnable, is_running, env_free}

-- The environment that was running on this CPU, if it still is, becomes runnable.
retire : Option ℕ → Cmd (Unit {0})
retire none = pure tt
retire (some c) = do
  s ← get
  if is_running (s.envs c).env_status
      then set_env c (record (s.envs c) { env_status = EnvStatus.runnable })
      else pure tt

-- PADDR(curenv->env_pgdir), which panics on a NULL directory, into cr3.
load_pgdir : Option ℕ → Cmd (Unit {0})
load_pgdir none = panic
load_pgdir (some pgdir) = do s ← get; put (record s { cr3 = pgdir })

abbrev pub unlock_kernel : Cmd (Unit {0})
unlock_kernel = do s ← get; put (record s { locked = false })

-- iret: the CPU goes on in the environment's frame.
env_pop_tf : {A : Type 0} → ℕ → Cmd A
env_pop_tf e = do
  s ← get
  set_env e (record (s.envs e) { env_cpunum = s.cpunum })
  leave (entered e)

unfoldable pub env_run : {A : Type 0} → ℕ → Cmd A
unfolding retire load_pgdir env_pop_tf
env_run e = do
  s ← get
  retire s.curenv
  t ← get
  put (record t { curenv = some e })
  set_env e (record (t.envs e) {
    env_status = EnvStatus.running;
    env_runs = ((t.envs e).env_runs + 1) % word;
  })
  load_pgdir (t.envs e).env_pgdir
  unlock_kernel
  env_pop_tf e

abbrev pub is_live : EnvStatus → Bool
is_live EnvStatus.dying = true
is_live EnvStatus.runnable = true
is_live EnvStatus.running = true
is_live _ = false

-- Is one of the environments below `n` runnable, running or dying?
pub any_live : (ℕ → Env) → ℕ → Bool
any_live envs zero = false
any_live envs (suc n) = is_live (envs n).env_status || any_live envs n

unfoldable pub sched_halt : {A : Type 0} → Cmd A
unfolding any_live
sched_halt = do
  s ← get
  if not (any_live s.envs nenv) then leave in_monitor else do
    put (record s { curenv = none; cr3 = s.kern_pgdir; cpu_status = cpu_halted })
    unlock_kernel
    leave halted

-- The search of sched_yield: `idx = (idx + i) % NENV` in each of the `rounds` left.
pub probe : (ℕ → Env) → ℕ → ℕ → ℕ → Option ℕ
probe envs zero i idx = none
probe envs (suc rounds) i idx =
    let rest = probe envs rounds (i + 1) ((idx + i) % nenv) in
    if is_runnable (envs ((idx + i) % nenv)).env_status then some ((idx + i) % nenv) else rest

-- Where the search starts: at slot 0, or behind the slot of `curenv`.
abbrev pub first_idx : (ℕ → Env) → Option ℕ → ℕ
first_idx envs none = 0
first_idx envs (some c) = envx (envs c).env_id + 1

-- With nothing else to run: the same environment again, or halt.
resume : {A : Type 0} → Option ℕ → Cmd A
resume none = sched_halt
resume (some c) = do s ← get; if is_running (s.envs c).env_status then env_run c else sched_halt

run_found : {A : Type 0} → Option ℕ → Cmd A
unfolding resume
run_found none = do s ← get; resume s.curenv
run_found (some e) = env_run e

unfoldable pub sched_yield : {A : Type 0} → Cmd A
unfolding probe run_found
sched_yield = do s ← get; run_found (probe s.envs nenv 0 (first_idx s.envs s.curenv))

unfoldable pub env_destroy : ℕ → Cmd (Unit {0})
env_destroy e = do
  s ← get
  if is_running (s.envs e).env_status && not (points_to s.curenv e)
      then set_env e (record (s.envs e) { env_status = EnvStatus.dying })
      else do
        env_free e
        t ← get
        if points_to t.curenv e then (do put (record t { curenv = none }); sched_yield) else pure tt

assert_status : ℕ → Status → Cmd (Unit {0})
assert_status env ok = pure tt
assert_status env (fails r) = env_destroy env

unfoldable pub user_mem_assert : ℕ → ℕ → ℕ → ℕ → Cmd (Unit {0})
unfolding assert_status
user_mem_assert env va len perm = do
  r ← user_mem_check env va len (bit_or perm pte_u)
  assert_status env r
