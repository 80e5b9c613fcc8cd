-- ===== src/Examples/Calls.antt =====
-- The properties of system calls on the machine of sixteen pages.
use junior_os.Base.{◌+◌, ◌-◌, ◌*◌, ◌%◌, ◌≡◌, refl, inl, inr, true, some, [], ◌∷◌, arith, update}
use junior_os.Kernel.{Kernel, EnvStatus, returns}
use junior_os.Pages.Alloc.{allocated}
use junior_os.Vm.{pte_at, page_lookup}
use junior_os.Vm.Space.{entry_of}
use junior_os.Vm.Insert.{Mapped}
use junior_os.Envs.Create.{FreshSpace}
use junior_os.Syscalls.{
  value, syscall, sys_exofork, sys_page_alloc, sys_page_unmap, sys_ipc_try_send, sys_ipc_recv,
}
use junior_os.Syscalls.Status.{IsRefused, syscall-IsRefused}
use junior_os.Syscalls.Fork.{Forked, sys_exofork-Forked}
use junior_os.Syscalls.Memory.{sys_page_alloc-Mapped, sys_page_unmap-Unmapped}
use junior_os.Vm.Unmap.{Unmapped}
use junior_os.Syscalls.Ipc.{Received, delivered, send_page-Mapped, recv_send-Received}
use junior_os.Examples.Machines.{machine, machine-Space, machine-Free, free_pages}

-- The child has no say over its parent.
abbrev in_child : Kernel
in_child = record machine { curenv = some 1 }

syscall-IsRefused_example : IsRefused in_child (syscall 0 3 4096 0 0 0 0 in_child)
syscall-IsRefused_example =
    syscall-IsRefused in_child 1 4096 refl (omega arith, λ both. ground arith) 0 3 0 0 0 0
      (inl refl)

sys_exofork-Forked_example :
    (u : Kernel) × (sys_exofork machine ≡ returns (value (u.envs 2).env_id) u)
    × Forked 0 2 machine u
    × FreshSpace 2 7 (8 ∷ []) machine u
sys_exofork-Forked_example =
    sys_exofork-Forked machine 0 2 7 (8 ∷ []) machine-Free (omega arith) (omega arith) refl
      (omega arith) refl (omega arith) (omega arith)

sys_page_alloc-Mapped_example :
    (u : Kernel) × (sys_page_alloc 4097 8192 7 machine ≡ returns (value 0) u)
    × Mapped 5 7 8192 7 (8 ∷ []) (allocated 1 7 machine) u
    × (entry_of u 5 8192 ≡ 7 * 4096 + (7 + (1 - 7 % 2)))
    × ((u.page 7).pp_ref ≡ 1)
unfolding entry_of
sys_page_alloc-Mapped_example =
    sys_page_alloc-Mapped machine 0 1 4097 5 7 8192 7 (8 ∷ []) refl
      (inr (omega arith, (refl, (λ same. ground arith), refl), inr refl))
      (record {
        small = omega arith;
        flags = refl;
        aligned = refl;
        below = omega arith;
        present = refl;
      })
      refl machine-Space (inl (omega arith)) refl (omega arith)

-- The child waits for a message, at an address that maps to nothing.
abbrev listening : Kernel
listening = record machine {
  envs = update machine.envs 1 (record (machine.envs 1) {
    env_status = EnvStatus.not_runnable;
    env_ipc_recving = true;
    env_ipc_dstva = 8192;
  });
}

looked_up : page_lookup 5 4096 listening ≡ returns (some (9, pte_at 6 4096)) listening
unfolding page_lookup junior_os.Vm.pgdir_walk
looked_up = refl

send_page-Mapped_example :
    (u : Kernel) × (sys_ipc_try_send 4097 42 4096 7 listening
      ≡ returns (value 0) (delivered 1 0 42 7 u))
    × Mapped 5 9 8192 7 free_pages listening u
    × Received 1 0 42 7 listening (delivered 1 0 42 7 u)
unfolding entry_of
send_page-Mapped_example =
    send_page-Mapped listening 0 1 4097 refl (omega arith) (refl, (λ same. ground arith), refl) 42
      4096 7 5 5 9 (pte_at 6 4096) free_pages refl (omega arith) refl refl refl looked_up
      (record {
        small = machine-Space.small;
        free = machine-Space.free;
        root = refl;
        slots = machine-Space.slots;
        apart = machine-Space.apart;
      })
      (omega arith) (omega arith) refl (inl (omega arith)) refl (omega arith)

recv_send-Received_example :
    (t : Kernel) × (sys_ipc_recv 8192 in_child ≡ returns (value 0) t)
    × ((t.envs 1).env_status ≡ EnvStatus.not_runnable)
    × ((u : Kernel) × (sys_ipc_try_send 4097 42 0xf0000000 0 (record t { curenv = some 0 })
          ≡ returns (value 0) u)
        × Received 1 0 42 0 (record t { curenv = some 0 }) u)
recv_send-Received_example =
    recv_send-Received in_child 1 0 4097 8192 42 0xf0000000 0 refl (inl refl) (omega arith)
      (refl, (λ same. ground arith), refl) (omega arith)

sys_page_unmap-Unmapped_example :
    (u : Kernel) × (sys_page_unmap 4097 4096 machine ≡ returns (value 0) u)
    × Unmapped 5 4096 9 free_pages machine u
unfolding entry_of
sys_page_unmap-Unmapped_example =
    sys_page_unmap-Unmapped machine 0 1 4097 5 4096 free_pages refl
      (inr (omega arith, (refl, (λ same. ground arith), refl), inr refl)) refl refl (omega arith)
      machine-Space refl
      (record {
        in_range = omega arith;
        counted = omega arith;
        bounded = omega arith;
        unlinked = refl;
        taken = refl;
      })
      (omega arith, λ d h present. ground arith)
