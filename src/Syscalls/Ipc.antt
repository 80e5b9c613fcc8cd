-- ===== src/Syscalls/Ipc.antt =====
-- sys_ipc_try_send and sys_ipc_recv: what a message carries, and how a send is refused.
use junior_os.Base.{
  ℕ, ◌<◌, ◌≤◌, ◌≡◌, ◌≢◌, refl, true, false, some, arith, ge→ltb, lt→ltb, update, List, [], has, ◌⊎◌,
  ◌%◌, ◌/◌, ◌==◌, ◌&&◌, not, ltb, ◌∙◌,
}
use junior_os.Machine.{utop, pdx}
use junior_os.Kernel.{Kernel, Env, EnvStatus, PtePtr, returns, deref-some, e_ipc_not_recv}
use junior_os.Envs.Lookup.{Names, envid2env-Names}
use junior_os.Syscalls.{value, error, send_args_bad, sys_ipc_try_send, sys_ipc_recv}
use junior_os.Vm.{page_lookup}
use junior_os.Vm.Walk.{pde}
use junior_os.Vm.Space.{self_map, Space, entry_of}
use junior_os.Vm.Insert.{Mapped}
use junior_os.Vm.Mapping.{page_insert_fresh}

-- The fields of the receiver, once the message is in.
abbrev pub message : ℕ → ℕ → ℕ → Env → Env
message sender sent perm env = record env {
  env_ipc_perm = perm;
  env_ipc_recving = false;
  env_ipc_from = sender;
  env_ipc_value = sent;
  env_status = EnvStatus.runnable;
}

abbrev pub delivered : ℕ → ℕ → ℕ → ℕ → Kernel → Kernel
delivered e c sent perm s = record s {
  envs = update s.envs e (message (s.envs c).env_id sent perm (s.envs e));
}

-- The receiver `e` has the message from `c` and may run; nothing else of the environments changes.
pub record Received (e c sent perm : ℕ) (s t : Kernel) : Type 0 where
  pub content : (t.envs e).env_ipc_value ≡ sent
  pub sender : (t.envs e).env_ipc_from ≡ (s.envs c).env_id
  pub permission : (t.envs e).env_ipc_perm ≡ perm
  pub over : (t.envs e).env_ipc_recving ≡ false
  pub ready : (t.envs e).env_status ≡ EnvStatus.runnable
  pub frame : (t.envs e).env_tf ≡ (s.envs e).env_tf
  pub others : (i : ℕ) → i ≢ e → t.envs i ≡ s.envs i

delivered-Received :
    (s u : Kernel) (e c sent perm : ℕ)
    → u.envs ≡ s.envs
    → Received e c sent perm s (delivered e c sent perm u)
delivered-Received s u e c sent perm same = record {
  content = ground arith;
  sender = ground arith;
  permission = ground arith;
  over = ground arith;
  ready = ground arith;
  frame = ground arith;
  others = λ i ne. ground arith;
}

module _ (s : Kernel) (c e envid : ℕ) (caller : s.curenv ≡ some c) (given : envid ≢ 0)
    (names : Names s envid e) (sent srcva perm : ℕ) where
  -- A send by the current environment to a live environment that waits, named by an id other than
  -- 0, from an address that is not below UTOP, delivers the value and the sender's id with
  -- permission 0, and makes the receiver runnable; no memory and no page changes, nor any other
  -- environment.
  pub send_value-Received :
      (s.envs e).env_ipc_recving ≡ true
      → utop ≤ srcva
      → (t : Kernel) × (sys_ipc_try_send envid sent srcva perm s ≡ returns (value 0) t)
        × Received e c sent 0 s t
        × (t.mem ≡ s.mem)
        × (t.page ≡ s.page)
  unfolding sys_ipc_try_send
  send_value-Received waits above = (
    delivered e c sent 0 s,
    rw (envid2env-Names s c envid e caller given names, waits, ge→ltb srcva utop above, caller)
        refl,
    delivered-Received s s e c sent 0 refl,
    refl,
    refl,
  )

  -- A send to an environment that does not wait fails and changes nothing.
  pub send_not_waiting :
      (s.envs e).env_ipc_recving ≡ false
      → sys_ipc_try_send envid sent srcva perm s ≡ returns (error e_ipc_not_recv) s
  unfolding sys_ipc_try_send
  send_not_waiting busy = rw (envid2env-Names s c envid e caller given names, busy) refl

  -- A send by the current environment to a live and waiting environment, named by an id other than
  -- 0, from an address below UTOP with good arguments, where page_lookup finds a page that is in
  -- range and not free, and the receiver's address space is sound, has room for a page table and
  -- translates its address, outside the slot of UVPT, to nothing and not to that page: that page is
  -- mapped there under the flags that the sender chose, whatever its own entry allows, and the
  -- value, the sender's id and the flags arrive in a receiver that is runnable.
  pub send_page-Mapped :
      (src dst pp : ℕ) (p : PtePtr) (xs : List ℕ)
      → (s.envs e).env_ipc_recving ≡ true
      → srcva < utop
      → send_args_bad srcva perm ≡ false
      → (s.envs c).env_pgdir ≡ some src
      → (s.envs e).env_pgdir ≡ some dst
      → page_lookup src srcva s ≡ returns (some (pp, p)) s
      → Space dst xs s
      → pdx (s.envs e).env_ipc_dstva ≢ self_map
      → pp < s.npages
      → has pp xs ≡ false
      → (pde s dst (s.envs e).env_ipc_dstva ≢ 0) ⊎ (xs ≢ [])
      → entry_of s dst (s.envs e).env_ipc_dstva % 2 ≡ 0
      → entry_of s dst (s.envs e).env_ipc_dstva / 4096 ≢ pp
      → (u : Kernel) × (sys_ipc_try_send envid sent srcva perm s
          ≡ returns (value 0) (delivered e c sent perm u))
        × Mapped dst pp (s.envs e).env_ipc_dstva perm xs s u
        × Received e c sent perm s (delivered e c sent perm u)
  unfolding sys_ipc_try_send
  send_page-Mapped src dst pp p xs waits below good from to looked space user in_range taken room
        absent other =
      let (u, run, mapped, found, count) =
        page_insert_fresh s dst pp (s.envs e).env_ipc_dstva perm xs space user in_range taken room
          absent other in
      (
        u,
        rw
            (
              envid2env-Names s c envid e caller given names,
              waits,
              lt→ltb srcva utop below,
              good,
              deref-some s.curenv c s caller,
              from,
              looked,
              to,
              run,
              deref-some u.curenv c u (mapped.kept.2 ∙ caller),
            )
            refl,
        mapped,
        delivered-Received s u e c sent perm mapped.kept.1,
      )

-- sys_ipc_recv with an address that is page-aligned or not below UTOP returns 0 and leaves the
-- caller not runnable and waiting; a value that any environment then sends to its id, other than 0,
-- from an address not below UTOP, arrives with the sender's id, and the receiver is runnable and no
-- longer waiting.
pub recv_send-Received :
    (s : Kernel) (r c envid dstva sent srcva perm : ℕ)
    → s.curenv ≡ some r
    → (dstva % 4096 ≡ 0) ⊎ (utop ≤ dstva)
    → envid ≢ 0
    → Names s envid r
    → utop ≤ srcva
    → (t : Kernel) × (sys_ipc_recv dstva s ≡ returns (value 0) t)
      × ((t.envs r).env_status ≡ EnvStatus.not_runnable)
      × ((u : Kernel) × (sys_ipc_try_send envid sent srcva perm (record t { curenv = some c })
            ≡ returns (value 0) u)
          × Received r c sent 0 (record t { curenv = some c }) u)
unfolding sys_ipc_recv
recv_send-Received s r c envid dstva sent srcva perm caller good given names above =
    let t = record s {
      envs = update s.envs r (record (s.envs r) {
        env_ipc_recving = true;
        env_ipc_dstva = dstva;
        env_status = EnvStatus.not_runnable;
      });
    } in
    let args : (ltb dstva utop && not (dstva % 4096 == 0)) ≡ false = ground arith in
    let live : Names (record t { curenv = some c }) envid r =
      (names.0, ground arith, ground arith) in
    let (u, run, received, mem, page) =
      send_value-Received (record t { curenv = some c }) c r envid refl given live sent srcva perm
        (ground arith) above in
    (t, rw (args, deref-some s.curenv r s caller) refl, ground arith, (u, run, received))
