-- ===== src/Syscalls.antt =====
-- System calls: jos-lab4/kern/syscall.c. An int result is `ok` or an error code; a system call that
-- returns a number answers `value`.
pub mod Status
pub mod Memory
pub mod Fork
pub mod Ipc
pub mod Mapping
use junior_os.Base.{
  ℕ, ◌+◌, ◌%◌, Bool, true, false, not, ◌||◌, ◌&&◌, Option, none, some, ◌==◌, leb, ltb,
  if◌then◌else◌, bit_and, bit_or,
}
use junior_os.Machine.{pte_p, pte_w, pte_u, not_pte_syscall, test, utop}
use junior_os.Kernel.{
  Kernel, PushRegs, Trapframe, EnvStatus, Env, PtePtr, Cmd, Error, ok, fails, e_bad_env, e_inval,
  e_no_mem, e_no_free_env, e_ipc_not_recv, pure, ◌>>=◌, ◌>>◌, get, deref, set_env, read_pte,
}
use junior_os.Kernel
use junior_os.Pages.{page_alloc}
use junior_os.Vm.{page_insert, page_lookup, page_remove}
use junior_os.Envs.{envid2env, env_alloc}
use junior_os.Sched.{sched_yield, env_destroy, user_mem_assert}

-- The int32_t that a system call leaves in %eax.
pub data Ret : Type 0 where
  value : ℕ → Ret
  error : Error → Ret

abbrev pub done : Cmd Ret
done = pure (value 0)

-- What is printed is not part of the state.
unfoldable pub sys_cputs : ℕ → ℕ → Cmd (Unit {0})
sys_cputs str len = do s ← get; c ← deref s.curenv; user_mem_assert c str len (bit_or pte_u pte_p)

unfoldable pub sys_getenvid : Cmd Ret
sys_getenvid = do s ← get; c ← deref s.curenv; pure (value (s.envs c).env_id)

-- The rest of a call, for the environment that envid2env has found.
abbrev pub with_env : Kernel.Status × Option ℕ → (ℕ → Cmd Ret) → Cmd Ret
with_env (ok, e) k = deref e >>= k
with_env (fails r, e) k = pure (error r)

unfoldable pub sys_env_destroy : ℕ → Cmd Ret
sys_env_destroy envid = do found ← envid2env envid true; with_env found λ e. env_destroy e >> done

unfoldable pub sys_yield : Cmd Ret
sys_yield = sched_yield

-- The child's frame: the caller's, with 0 in %eax.
abbrev pub child_frame : Trapframe → Trapframe
child_frame tf = record tf { tf_regs = record (tf.tf_regs) { reg_eax = 0 } }

unfoldable pub caller_id : Option ℕ → (ℕ → Env) → ℕ
caller_id none envs = 0
caller_id (some c) envs = (envs c).env_id

unfoldable pub sys_exofork : Cmd Ret
unfolding caller_id
sys_exofork = do
  s ← get
  made ← env_alloc (caller_id s.curenv s.envs)
  with_env made λ e. do
    t ← get
    c ← deref t.curenv
    set_env e (record (t.envs e) {
      env_status = EnvStatus.not_runnable;
      env_tf = child_frame (t.envs c).env_tf;
      env_pgfault_upcall = (t.envs c).env_pgfault_upcall;
    })
    pure (value (t.envs e).env_id)

-- ENV_RUNNABLE and ENV_NOT_RUNNABLE, the two values that a caller may set.
abbrev pub status_of_int : ℕ → Option EnvStatus
status_of_int n =
    if n == 2 then some EnvStatus.runnable else if n == 4 then some EnvStatus.not_runnable else none

set_status : ℕ → Option EnvStatus → Cmd Ret
set_status e none = pure (error e_inval)
set_status e (some st) = do s ← get; set_env e (record (s.envs e) { env_status = st }); done

unfoldable pub sys_env_set_status : ℕ → ℕ → Cmd Ret
unfolding set_status
sys_env_set_status envid status = do
  found ← envid2env envid true
  with_env found λ e. set_status e (status_of_int status)

unfoldable pub sys_env_set_pgfault_upcall : ℕ → ℕ → Cmd Ret
sys_env_set_pgfault_upcall envid func = do
  found ← envid2env envid true
  with_env found λ e. do s ← get; set_env e (record (s.envs e) { env_pgfault_upcall = func }); done

-- The result of page_insert, as the callers read it: any failure is -E_NO_MEM.
abbrev pub inserted : Kernel.Status → Cmd Ret → Cmd Ret
inserted ok k = k
inserted (fails r) k = pure (error e_no_mem)

abbrev pub need_page : {A : Type 0} → Error → Option A → (A → Cmd Ret) → Cmd Ret
need_page r none k = pure (error r)
need_page r (some a) k = k a

-- PTE_U and PTE_P are both there.
abbrev pub user_present : ℕ → Bool
user_present perm = bit_and perm (bit_or pte_u pte_p) == bit_or pte_u pte_p

-- `(perm & 0xfff) & (~PTE_SYSCALL)`: only the low twelve bits are looked at.
unfoldable pub sys_page_alloc : ℕ → ℕ → ℕ → Cmd Ret
sys_page_alloc envid va perm =
    if not (bit_and (bit_and perm 0xfff) not_pte_syscall == 0)
    then pure (error e_inval)
    else if not (va % 4096 == 0)
    then pure (error e_inval)
    else if leb utop va
    then pure (error e_inval)
    else do
      found ← envid2env envid true
      with_env found λ e. if not (user_present perm) then pure (error e_inval) else do
        pp ← page_alloc 1
        need_page e_no_mem pp λ pp. do
          s ← get
          pgdir ← deref (s.envs e).env_pgdir
          r ← page_insert pgdir pp va perm
          inserted r done

-- The checks of sys_page_map on the two addresses and the permissions.
abbrev pub map_args_bad : ℕ → ℕ → ℕ → Bool
map_args_bad srcva dstva perm =
    leb utop srcva
    || leb utop dstva
    || not (srcva % 4096 == 0)
    || not (dstva % 4096 == 0)
    || not (bit_and perm not_pte_syscall == 0)
    || not (user_present perm)

unfoldable pub sys_page_map : ℕ → ℕ → ℕ → ℕ → ℕ → Cmd Ret
sys_page_map srcenvid srcva dstenvid dstva perm = do
  src ← envid2env srcenvid true
  with_env src λ srcenv. do
    dst ← envid2env dstenvid true
    with_env dst λ dstenv. if map_args_bad srcva dstva perm then pure (error e_inval) else do
      s ← get
      src_pgdir ← deref (s.envs srcenv).env_pgdir
      found ← page_lookup src_pgdir srcva
      need_page e_inval found λ (pp, p). do
        t ← get
        if test perm pte_w && not (test (read_pte t p) pte_w) then pure (error e_inval) else do
          dst_pgdir ← deref (t.envs dstenv).env_pgdir
          r ← page_insert dst_pgdir pp dstva perm
          inserted r done

unfoldable pub sys_page_unmap : ℕ → ℕ → Cmd Ret
sys_page_unmap envid va =
    if not (va % 4096 == 0)
    then pure (error e_inval)
    else if leb utop va
    then pure (error e_inval)
    else do
      found ← envid2env envid true
      with_env found λ e. do s ← get; pgdir ← deref (s.envs e).env_pgdir; page_remove pgdir va; done

-- The last part of sys_ipc_try_send: the message is in the receiver's fields, and it may run.
deliver : ℕ → ℕ → ℕ → Cmd Ret
deliver e sent perm = do
  s ← get
  c ← deref s.curenv
  set_env e (record (s.envs e) {
    env_ipc_perm = perm;
    env_ipc_recving = false;
    env_ipc_from = (s.envs c).env_id;
    env_ipc_value = sent;
    env_status = EnvStatus.runnable;
  })
  done

-- The checks of sys_ipc_try_send on an address below UTOP and on the permissions.
abbrev pub send_args_bad : ℕ → ℕ → Bool
send_args_bad srcva perm =
    not (srcva % 4096 == 0) || not (user_present perm) || not (bit_and perm not_pte_syscall == 0)

unfoldable pub sys_ipc_try_send : ℕ → ℕ → ℕ → ℕ → Cmd Ret
unfolding deliver
sys_ipc_try_send envid sent srcva perm = do
  target ← envid2env envid false
  with_env target λ e. do
    s ← get
    if not (s.envs e).env_ipc_recving
        then pure (error e_ipc_not_recv)
        else if not (ltb srcva utop)
        then deliver e sent 0
        else if send_args_bad srcva perm
        then pure (error e_inval)
        else do
          c ← deref s.curenv
          src_pgdir ← deref (s.envs c).env_pgdir
          found ← page_lookup src_pgdir srcva
          need_page e_inval found λ (pp, p). do
            dst_pgdir ← deref (s.envs e).env_pgdir
            r ← page_insert dst_pgdir pp (s.envs e).env_ipc_dstva perm
            inserted r (deliver e sent perm)

unfoldable pub sys_ipc_recv : ℕ → Cmd Ret
sys_ipc_recv dstva = if ltb dstva utop && not (dstva % 4096 == 0) then pure (error e_inval) else do
  s ← get
  c ← deref s.curenv
  set_env c (record (s.envs c) {
    env_ipc_recving = true;
    env_ipc_dstva = dstva;
    env_status = EnvStatus.not_runnable;
  })
  done

-- The dispatcher. `key` is what cons_getc would return.
unfoldable pub syscall : (key : ℕ) → (syscallno a1 a2 a3 a4 a5 : ℕ) → Cmd Ret
syscall key syscallno a1 a2 a3 a4 a5 =
    if syscallno == 0
    then sys_cputs a1 a2 >> done
    else if syscallno == 1
    then pure (value key)
    else if syscallno == 2
    then sys_getenvid
    else if syscallno == 3
    then sys_env_destroy a1
    else if syscallno == 4
    then sys_page_alloc a1 a2 a3
    else if syscallno == 5
    then sys_page_map a1 a2 a3 a4 a5
    else if syscallno == 6
    then sys_page_unmap a1 a2
    else if syscallno == 7
    then sys_exofork
    else if syscallno == 8
    then sys_env_set_status a1 a2
    else if syscallno == 9
    then sys_env_set_pgfault_upcall a1 a2
    else if syscallno == 10
    then sys_yield
    else if syscallno == 11
    then sys_ipc_try_send a1 a2 a3 a4
    else if syscallno == 12
    then sys_ipc_recv a1
    else pure (error e_inval)
