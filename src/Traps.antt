-- ===== src/Traps.antt =====
-- Traps: jos-lab4/kern/trap.c, trap, trap_dispatch and page_fault_handler, and inc/trap.h, struct
-- UTrapframe.
pub mod Upcall
pub mod Timer
pub mod Return
use junior_os.Base.{
  ℕ, ◌+◌, ◌-◌, ◌%◌, ◌^◌, Bool, true, false, not, ◌&&◌, Option, none, some, List, [], ◌∷◌, ◌==◌,
  if◌then◌else◌, bit_or,
}
use junior_os.Machine.{word, sub32, roundup, uxstacktop, pte_w, pte_u}
use junior_os.Kernel.{
  Kernel, PushRegs, Trapframe, EnvStatus, Env, Cmd, CpuStatus, Error, pure, ◌>>=◌, ◌>>◌, get, put,
  panic, leave, deref, set_env, stopped,
}
use junior_os.Envs.{is_running, env_free}
use junior_os.Sched.{sched_yield, env_run, env_destroy, user_mem_assert}
use junior_os.Syscalls.{Ret, value, error, syscall}
use junior_os.UserMemory.{store_bytes, words_of}

-- What a trap reads of the world: whether some CPU has panicked, the interrupt flag, cr2, what
-- cons_getc would return, and the kernel monitor, which is not modelled.
pub record Inputs : Type 0 where
  pub panicstr : Bool
  pub interrupts : Bool
  pub cr2 : ℕ
  pub key : ℕ
  pub monitor : Trapframe → Cmd (Unit {0})

pub record UTrapframe : Type 0 where
  pub utf_fault_va : ℕ
  pub utf_err : ℕ
  pub utf_regs : PushRegs
  pub utf_eip : ℕ
  pub utf_eflags : ℕ
  pub utf_esp : ℕ

-- The frame as it lies in memory, word by word.
abbrev pub layout : UTrapframe → List ℕ
layout u =
    u.utf_fault_va ∷ u.utf_err ∷ u.utf_regs.reg_edi ∷ u.utf_regs.reg_esi ∷ u.utf_regs.reg_ebp
    ∷ u.utf_regs.reg_oesp ∷ u.utf_regs.reg_ebx ∷ u.utf_regs.reg_edx ∷ u.utf_regs.reg_ecx
    ∷ u.utf_regs.reg_eax ∷ u.utf_eip ∷ u.utf_eflags ∷ u.utf_esp ∷ []

abbrev pub utrapframe_size : ℕ
utrapframe_size = 52

-- On the exception stack already: below the old frame and a scratch word. Otherwise at the top.
abbrev pub utf_address : ℕ → ℕ
utf_address esp =
    if roundup esp == uxstacktop
    then sub32 (sub32 esp 4) utrapframe_size
    else sub32 uxstacktop utrapframe_size

abbrev pub fault_frame : ℕ → Trapframe → UTrapframe
fault_frame fault_va tf = record {
  utf_fault_va = fault_va;
  utf_err = tf.tf_err;
  utf_regs = tf.tf_regs;
  utf_eip = tf.tf_eip;
  utf_eflags = tf.tf_eflags;
  utf_esp = tf.tf_esp;
}

-- The branch with an upcall, for the current environment `c`.
upcall : ℕ → ℕ → Trapframe → Cmd (Unit {0})
upcall fault_va c tf = do
  user_mem_assert c (utf_address tf.tf_esp) utrapframe_size (bit_or pte_w pte_u)
  store_bytes (utf_address tf.tf_esp) (words_of (layout (fault_frame fault_va tf)))
  s ← get
  set_env c (record (s.envs c) {
    env_tf = record ((s.envs c).env_tf) {
      tf_eip = (s.envs c).env_pgfault_upcall;
      tf_esp = utf_address tf.tf_esp;
    };
  })
  env_run c

unfoldable pub page_fault_handler : ℕ → Trapframe → Cmd (Unit {0})
unfolding upcall
page_fault_handler fault_va tf = if tf.tf_cs % 4 == 0 then panic else do
  s ← get
  c ← deref s.curenv
  if (s.envs c).env_pgfault_upcall == 0 then env_destroy c else upcall fault_va c tf

-- The int32_t that a system call returns, as a register holds it.
abbrev pub error_code : Error → ℕ
error_code Error.e_bad_env = 2
error_code Error.e_inval = 3
error_code Error.e_no_mem = 4
error_code Error.e_no_free_env = 5
error_code Error.e_fault = 6
error_code Error.e_ipc_not_recv = 7

abbrev pub register : Ret → ℕ
register (value n) = n
register (error e) = word - error_code e

abbrev pub with_eax : ℕ → Trapframe → Trapframe
with_eax n tf = record tf { tf_regs = record (tf.tf_regs) { reg_eax = n } }

-- `tf->tf_regs.reg_eax = ret`. The frame is that of environment `home`, or on the kernel's stack,
-- where nothing reads it again.
set_eax : Option ℕ → ℕ → Cmd (Unit {0})
set_eax none n = pure tt
set_eax (some e) n = do
  s ← get
  set_env e (record (s.envs e) { env_tf = with_eax n (s.envs e).env_tf })

-- `env_destroy(curenv)`.
destroy_current : Cmd (Unit {0})
destroy_current = do s ← get; c ← deref s.curenv; env_destroy c

unfoldable pub trap_dispatch : Inputs → Option ℕ → Trapframe → Cmd (Unit {0})
unfolding set_eax destroy_current
trap_dispatch inputs home tf =
    if tf.tf_trapno == 39
    then pure tt
    else if tf.tf_trapno == 14
    then page_fault_handler inputs.cr2 tf
    else if tf.tf_trapno == 3
    then inputs.monitor tf
    else if tf.tf_trapno == 48
    then (do
      ret ←
          syscall inputs.key tf.tf_regs.reg_eax tf.tf_regs.reg_edx tf.tf_regs.reg_ecx
            tf.tf_regs.reg_ebx tf.tf_regs.reg_edi tf.tf_regs.reg_esi
      set_eax home (register ret))
    else if tf.tf_trapno == 32
    then sched_yield
    else if tf.tf_cs == 0x08
    then panic
    else destroy_current

-- The environment that was current goes on, if it still runs; otherwise another one.
pub return_to : Option ℕ → Cmd (Unit {0})
return_to none = sched_yield
return_to (some c) = do s ← get; if is_running (s.envs c).env_status then env_run c else sched_yield

pub return_from_trap : Cmd (Unit {0})
unfolding return_to
return_from_trap = do s ← get; return_to s.curenv

-- lock_kernel, which panics where this CPU holds the lock, and waits for another to release it.
abbrev pub lock_kernel : Cmd (Unit {0})
lock_kernel = do s ← get; if s.locked then panic else put (record s { locked = true })

abbrev pub is_halted : CpuStatus → Bool
is_halted CpuStatus.cpu_halted = true
is_halted _ = false

abbrev pub is_dying : EnvStatus → Bool
is_dying EnvStatus.dying = true
is_dying _ = false

-- A trap from user mode: `assert(curenv)`, collect a zombie, keep the frame in the environment.
user_trap : Inputs → Trapframe → Option ℕ → Cmd (Unit {0})
unfolding return_from_trap
user_trap inputs tf none = panic
user_trap inputs tf (some c) = do
  s ← get
  if is_dying (s.envs c).env_status
      then (do env_free c; t ← get; put (record t { curenv = none }); sched_yield)
      else do
        set_env c (record (s.envs c) { env_tf = tf })
        trap_dispatch inputs (some c) tf
        return_from_trap

from_user : Inputs → Trapframe → Cmd (Unit {0})
unfolding user_trap
from_user inputs tf = do lock_kernel; s ← get; user_trap inputs tf s.curenv

from_kernel : Inputs → Trapframe → Cmd (Unit {0})
unfolding return_from_trap
from_kernel inputs tf = trap_dispatch inputs none tf >> return_from_trap

unfoldable pub trap : Inputs → Trapframe → Cmd (Unit {0})
unfolding from_user from_kernel
trap inputs tf = if inputs.panicstr then leave stopped else do
  s ← get
  put (record s { cpu_status = CpuStatus.cpu_started })
  if is_halted s.cpu_status then lock_kernel else pure tt
  if inputs.interrupts then panic else pure tt
  if tf.tf_cs % 4 == 3 then from_user inputs tf else from_kernel inputs tf
