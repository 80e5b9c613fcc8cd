-- ===== src/Traps/Timer.antt =====
-- A timer interrupt in user mode: the environment is preempted, and its registers are kept.
use junior_os.Base.{
  ℕ, ◌%◌, ◌<◌, ◌≡◌, ◌≢◌, refl, true, false, none, some, Option, arith, update, ◌==◌, ◌∙◌,
}
use junior_os.Kernel.{Kernel, Trapframe, EnvStatus, CpuStatus, returns, leaves, entered, and_then}
use junior_os.Sched.{sched_yield}
use junior_os.Sched.Yield.{Runs, sched_yield-Runs}
use junior_os.Traps.{
  Inputs, trap, trap_dispatch, is_halted, is_dying, user_trap, lock_kernel, return_from_trap,
}

-- The CPU was in user mode, in environment `c`, without the kernel lock, and nobody has panicked.
pub record IsEntry (inputs : Inputs) (tf : Trapframe) (c : ℕ) (s : Kernel) : Type 0 where
  pub calm : inputs.panicstr ≡ false
  pub masked : inputs.interrupts ≡ false
  pub user : (tf.tf_cs % 4 == 3) ≡ true
  pub awake : is_halted s.cpu_status ≡ false
  pub unlocked : s.locked ≡ false
  pub current : s.curenv ≡ some c
  pub alive : is_dying (s.envs c).env_status ≡ false

-- The state in which such a trap is dispatched: the lock is taken, the frame is the environment's.
abbrev pub saved : Trapframe → ℕ → Kernel → Kernel
saved tf c s = record s {
  cpu_status = CpuStatus.cpu_started;
  locked = true;
  envs = update s.envs c (record (s.envs c) { env_tf = tf });
}

abbrev locked_up : Kernel → Kernel
locked_up s = record s { cpu_status = CpuStatus.cpu_started; locked = true }

lock_eq : (s : Kernel) → s.locked ≡ false → lock_kernel s ≡ returns tt (record s { locked = true })
lock_eq s free = rw free refl

dispatch_timer :
    (inputs : Inputs) (home : Option ℕ) (tf : Trapframe) (s : Kernel)
    → tf.tf_trapno ≡ 32
    → trap_dispatch inputs home tf s ≡ sched_yield s
unfolding trap_dispatch
dispatch_timer inputs home tf s timer = rw timer refl

module _ (inputs : Inputs) (tf : Trapframe) (c : ℕ) (s : Kernel)
    (entry : IsEntry inputs tf c s) where
  trap_eq : trap inputs tf s ≡ user_trap inputs tf s.curenv (locked_up s)
  unfolding trap
  trap_eq =
      rw
        (
          entry.calm,
          entry.awake,
          entry.masked,
          entry.user,
          lock_eq (record s { cpu_status = CpuStatus.cpu_started }) entry.unlocked,
        )
        refl

  user_trap_eq :
      (o : Option ℕ)
      → o ≡ some c
      → user_trap inputs tf o (locked_up s)
        ≡ and_then (trap_dispatch inputs (some c) tf (saved tf c s)) (λ _. return_from_trap)
  unfolding trap
  user_trap_eq o e = rw (e, entry.alive) refl

  -- A trap from user mode is dispatched in that state, and then the trap returns.
  pub trap_entry :
      trap inputs tf s
      ≡ and_then (trap_dispatch inputs (some c) tf (saved tf c s)) (λ _. return_from_trap)
  trap_entry = trap_eq ∙ user_trap_eq s.curenv entry.current

  -- On a timer interrupt in user mode, where a slot below NENV is runnable and every runnable
  -- environment has a page directory, trap enters a runnable environment; the interrupted
  -- environment keeps the frame of the interrupt, and is runnable if it was running.
  pub timer-Runs :
      (r : ℕ)
      → tf.tf_trapno ≡ 32
      → r < 1024
      → (s.envs r).env_status ≡ EnvStatus.runnable
      → ((e : ℕ) → (s.envs e).env_status ≡ EnvStatus.runnable → (s.envs e).env_pgdir ≢ none)
      → (e : ℕ) × (t : Kernel) × (trap inputs tf s ≡ leaves (entered e) t)
        × ((s.envs e).env_status ≡ EnvStatus.runnable)
        × ((t.envs c).env_tf ≡ tf)
        × ((s.envs c).env_status ≡ EnvStatus.running → (t.envs c).env_status ≡ EnvStatus.runnable)
        × Runs e (saved tf c s) t
  timer-Runs r timer lt ready has =
      let (e, t, run, small, status, runs) =
        sched_yield-Runs {A = Unit {0}} (saved tf c s) r lt (ground arith)
          (λ e. ground (arith, has e)) in
      let same : (s.envs e).env_status ≡ EnvStatus.runnable = ground arith in
      (
        e,
        t,
        trap_entry ∙ rw (dispatch_timer inputs (some c) tf (saved tf c s) timer, run) refl,
        same,
        runs.frames c ∙ ground arith,
        λ running. runs.retired_one c entry.current (λ eq. ground arith) (ground arith),
        runs,
      )
