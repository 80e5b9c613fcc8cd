-- ===== src/Traps/Return.antt =====
-- A system call from user mode: its result reaches the caller's %eax.
use junior_os.Base.{ℕ, ◌≡◌, refl, true, false, some, Option, arith, update, ◌∙◌, ◌==◌}
use junior_os.Kernel.{Kernel, Trapframe, EnvStatus, Run, returns, leaves, entered}
use junior_os.Envs.{is_running}
use junior_os.Sched.{env_run}
use junior_os.Sched.Yield.{Runs, env_run-Runs}
use junior_os.Syscalls.{Ret, syscall}
use junior_os.Traps.{Inputs, trap, trap_dispatch, return_from_trap, return_to, register, with_eax}
use junior_os.Traps.Timer.{IsEntry, saved, trap_entry}

-- The environment's %eax is set.
abbrev pub answered : ℕ → ℕ → Kernel → Kernel
answered n c s = record s {
  envs = update s.envs c (record (s.envs c) { env_tf = with_eax n (s.envs c).env_tf });
}

return_to_eq :
    (s : Kernel) (c : ℕ) (o : Option ℕ)
    → o ≡ some c
    → is_running (s.envs c).env_status ≡ true
    → return_to o s ≡ env_run c s
unfolding return_from_trap
return_to_eq s c o e running = rw (e, running) refl

return_from_trap-Runs :
    (s : Kernel) (c pgdir : ℕ)
    → s.curenv ≡ some c
    → (s.envs c).env_status ≡ EnvStatus.running
    → (s.envs c).env_pgdir ≡ some pgdir
    → (t : Kernel) × (return_from_trap s ≡ leaves (entered c) t) × Runs c s t
unfolding return_from_trap
return_from_trap-Runs s c pgdir current running has =
    let (t, run, runs) = env_run-Runs {A = Unit {0}} s c pgdir has in
    (t, return_to_eq s c s.curenv current (rw running refl) ∙ run, runs)

dispatch_syscall :
    (inputs : Inputs) (c : ℕ) (tf : Trapframe) (s u : Kernel) (ret : Ret)
    → tf.tf_trapno ≡ 48
    → syscall inputs.key tf.tf_regs.reg_eax tf.tf_regs.reg_edx tf.tf_regs.reg_ecx tf.tf_regs.reg_ebx
        tf.tf_regs.reg_edi tf.tf_regs.reg_esi s
      ≡ returns ret u
    → trap_dispatch inputs (some c) tf s ≡ returns tt (answered (register ret) c u)
unfolding trap_dispatch
dispatch_syscall inputs c tf s u ret number run =
    let at = eq tf.tf_trapno number in rw (at.0, at.1, at.2, at.3, run) refl
  where
    eq :
        (n : ℕ)
        → n ≡ 48
        → ((n == 39) ≡ false) × ((n == 14) ≡ false) × ((n == 3) ≡ false) × ((n == 48) ≡ true)
    eq n e = ground arith

module _ (inputs : Inputs) (tf : Trapframe) (c : ℕ) (s : Kernel)
    (entry : IsEntry inputs tf c s) where
  abbrev call : Run Ret
  call =
      syscall inputs.key tf.tf_regs.reg_eax tf.tf_regs.reg_edx tf.tf_regs.reg_ecx tf.tf_regs.reg_ebx
        tf.tf_regs.reg_edi tf.tf_regs.reg_esi (saved tf c s)

  -- On a system call trap in user mode, where the call returns and leaves the caller current,
  -- running and with a page directory, trap enters the caller again, with the result in %eax as a
  -- 32-bit word and the rest of its frame as the call has left it.
  pub syscall-Runs :
      (ret : Ret) (u : Kernel) (pgdir : ℕ)
      → tf.tf_trapno ≡ 48
      → call ≡ returns ret u
      → u.curenv ≡ some c
      → (u.envs c).env_status ≡ EnvStatus.running
      → (u.envs c).env_pgdir ≡ some pgdir
      → (t : Kernel) × (trap inputs tf s ≡ leaves (entered c) t)
        × ((t.envs c).env_tf ≡ with_eax (register ret) (u.envs c).env_tf)
        × Runs c (answered (register ret) c u) t
  syscall-Runs ret u pgdir number run current running has =
      let (t, back, runs) =
        return_from_trap-Runs (answered (register ret) c u) c pgdir current (ground arith)
          (ground arith) in
      (
        t,
        trap_entry inputs tf c s entry
            ∙ rw (dispatch_syscall inputs c tf (saved tf c s) u ret number run) back,
        runs.frames c ∙ ground arith,
        runs,
      )
