-- ===== src/Examples/Trapping.antt =====
-- Traps from user mode on the machine of sixteen pages.
use junior_os.Base.{ℕ, ◌-◌, ◌≡◌, ◌%◌, refl, inl, inr, true, false, ◌==◌, if◌then◌else◌, arith}
use junior_os.Machine.{uxstacktop}
use junior_os.Kernel.{Kernel, Trapframe, EnvStatus, pure, returns, leaves, entered}
use junior_os.Envs.{start_frame}
use junior_os.Sched.Yield.{Runs}
use junior_os.Syscalls.{value, syscall}
use junior_os.Traps.{Inputs, trap, page_fault_handler, with_eax}
use junior_os.Traps.Timer.{IsEntry, saved, timer-Runs}
use junior_os.Traps.Return.{answered, syscall-Runs}
use junior_os.Traps.Upcall.{CanUpcall, frame_words, redirected, page_fault_handler-Runs}
use junior_os.UserMemory.{words_of, can_store}
use junior_os.UserMemory.Stores.{Stored}
use junior_os.Examples.Machines.{machine}

abbrev inputs : Inputs
inputs = record {
  panicstr = false;
  interrupts = false;
  cr2 = 0x800010;
  key = 0;
  monitor = λ tf. pure tt;
}

abbrev in_user_mode : Kernel
in_user_mode = record machine { locked = false }

abbrev frame_of : ℕ → ℕ → Trapframe
frame_of trapno eax = with_eax eax (record start_frame { tf_trapno = trapno; tf_eip = 0x800020 })

abbrev enters : (tf : Trapframe) → (tf.tf_cs % 4 == 3) ≡ true → IsEntry inputs tf 0 in_user_mode
enters tf user = record {
  calm = refl;
  masked = refl;
  user = user;
  awake = refl;
  unlocked = refl;
  current = refl;
  alive = refl;
}

timer-Runs_example :
    (e : ℕ) × (t : Kernel) × (trap inputs (frame_of 32 5) in_user_mode ≡ leaves (entered e) t)
    × ((in_user_mode.envs e).env_status ≡ EnvStatus.runnable)
    × ((t.envs 0).env_tf ≡ frame_of 32 5)
    × ((in_user_mode.envs 0).env_status ≡ EnvStatus.running
        → (t.envs 0).env_status ≡ EnvStatus.runnable)
    × Runs e (saved (frame_of 32 5) 0 in_user_mode) t
timer-Runs_example =
    timer-Runs inputs (frame_of 32 5) 0 in_user_mode (enters (frame_of 32 5) refl) 1 refl
      (omega arith) refl (λ e ready. ground arith)

getenvid :
    syscall 0 2 0 0 0 0 0 (saved (frame_of 48 2) 0 in_user_mode)
    ≡ returns (value 4096) (saved (frame_of 48 2) 0 in_user_mode)
unfolding syscall junior_os.Syscalls.sys_getenvid
getenvid = refl

-- sys_getenvid, call number 2, answers with the id of the caller.
syscall-Runs_example :
    (t : Kernel) × (trap inputs (frame_of 48 2) in_user_mode ≡ leaves (entered 0) t)
    × ((t.envs 0).env_tf ≡ with_eax 4096 (frame_of 48 2))
    × Runs 0 (answered 4096 0 (saved (frame_of 48 2) 0 in_user_mode)) t
syscall-Runs_example =
    syscall-Runs inputs (frame_of 48 2) 0 in_user_mode (enters (frame_of 48 2) refl) (value 4096)
      (saved (frame_of 48 2) 0 in_user_mode) 5 refl getenvid refl refl refl

-- Page 9 is the exception stack, through the page table in page 6.
abbrev handling : Kernel
handling = record machine {
  mem = λ n i.
      if n == 5
      then (if i == 954 then 24583 else 0)
      else if n == 6
      then (if i == 1023 then 36871 else 0)
      else 0;
  envs = λ n. record (machine.envs n) { env_pgfault_upcall = 0x800040 };
}

-- A fault in a handler of faults, whose stack is 200 bytes below the top of the exception stack.
abbrev faulting : Trapframe
faulting = record (frame_of 14 5) { tf_esp = uxstacktop - 200 }

handling-CanUpcall : CanUpcall 0 5 9 (uxstacktop - 256) faulting handling
unfolding can_store
handling-CanUpcall = record {
  current = refl;
  user = refl;
  esp = omega arith;
  upcall = refl;
  directory = refl;
  loaded = refl;
  place = inl (omega arith, omega arith, omega arith);
  above = omega arith;
  sound = inr (refl, omega arith);
  granted = refl;
  writable = record { allowed = refl; frame = refl; root = omega arith; table = omega arith };
}

page_fault_handler-Runs_example :
    (mem' : ℕ → ℕ → ℕ) × (t : Kernel) × (page_fault_handler 0x800010 faulting handling
      ≡ leaves (entered 0) t)
    × Stored 9
        ((uxstacktop - 256) % 4096)
        (words_of (frame_words 0x800010 faulting))
        handling.mem
        mem'
    × ((t.envs 0).env_tf ≡ record ((handling.envs 0).env_tf) {
      tf_eip = (handling.envs 0).env_pgfault_upcall;
      tf_esp = uxstacktop - 256;
    })
    × Runs 0
        (redirected handling 0 5 9 (uxstacktop - 256) 0x800010 faulting handling-CanUpcall mem')
        t
page_fault_handler-Runs_example =
    page_fault_handler-Runs handling 0 5 9 (uxstacktop - 256) 0x800010 faulting handling-CanUpcall
