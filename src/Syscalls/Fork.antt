-- ===== src/Syscalls/Fork.antt =====
-- sys_exofork: the child that it makes.
use junior_os.Base.{ℕ, ◌^◌, ◌<◌, ◌≤◌, ◌≡◌, ◌≢◌, refl, some, List, ◌∷◌, arith, update, ◌∙◌, eqb_refl}
use junior_os.Machine.{envx}
use junior_os.Kernel.{Kernel, Env, EnvStatus, returns, deref-some}
use junior_os.Pages.FreeList.{Free}
use junior_os.Envs.Create.{FreshSpace, env_alloc-Born}
use junior_os.Syscalls.{value, sys_exofork, child_frame, caller_id}

-- Environment `e` is a child of `c` in `u`: it has the caller's registers but for 0 in %eax and the
-- caller's page fault entry point, may not run yet, and has a new positive id for its slot.
pub record Forked (c e : ℕ) (s u : Kernel) : Type 0 where
  pub frame : (u.envs e).env_tf ≡ child_frame (s.envs c).env_tf
  pub status : (u.envs e).env_status ≡ EnvStatus.not_runnable
  pub parent : (u.envs e).env_parent_id ≡ (s.envs c).env_id
  pub upcall : (u.envs e).env_pgfault_upcall ≡ (s.envs c).env_pgfault_upcall
  pub id :
      (envx (u.envs e).env_id ≡ e)
      × ((u.envs e).env_id ≢ (s.envs e).env_id)
      × (0 < (u.envs e).env_id)
      × ((u.envs e).env_id < 2 ^ 31)
  pub others : (i : ℕ) → i ≢ e → u.envs i ≡ s.envs i

abbrev child : Env → Env → Env
child parent env = record env {
  env_status = EnvStatus.not_runnable;
  env_tf = child_frame parent.env_tf;
  env_pgfault_upcall = parent.env_pgfault_upcall;
}

abbrev adopted : ℕ → ℕ → Kernel → Kernel
adopted c e t = record t { envs = update t.envs e (child (t.envs c) (t.envs e)) }

caller_is : (s : Kernel) (c : ℕ) → s.curenv ≡ some c → caller_id s.curenv s.envs ≡ (s.envs c).env_id
unfolding caller_id
caller_is s c caller = rw caller refl

-- With a caller that is not the first free environment, a free environment whose id is below 2 ^
-- 31, a free page that is not the kernel's directory, and at most 2 ^ 20 pages, sys_exofork returns
-- the new id: the child is the first free environment, has the caller's frame but for 0 in %eax, is
-- not runnable, has the caller's upcall and an address space of its own with nothing mapped below
-- UTOP, and no other environment changes.
pub sys_exofork-Forked :
    (s : Kernel) (c e x : ℕ) (xs : List ℕ)
    → Free s (x ∷ xs)
    → s.npages ≤ 2 ^ 20
    → s.kern_pgdir ≢ x
    → s.curenv ≡ some c
    → c ≢ e
    → s.env_free_list ≡ some e
    → e < 1024
    → (s.envs e).env_id < 2 ^ 31
    → (u : Kernel) × (sys_exofork s ≡ returns (value (u.envs e).env_id) u)
      × Forked c e s u
      × FreshSpace e x xs s u
unfolding sys_exofork
sys_exofork-Forked s c e x xs free small kernel caller ne first lt old =
    let (t, run, born, space) =
      env_alloc-Born s e x (caller_id s.curenv s.envs) xs free small kernel first lt old in
    (
      adopted c e t,
      rw (run, deref-some t.curenv c t (born.caller ∙ caller), eqb_refl e) refl,
      record {
        frame = ground (arith, born.others c ne);
        status = ground arith;
        parent = ground (arith, born.parent_id, caller_is s c caller);
        upcall = ground (arith, born.others c ne);
        id = rw (eqb_refl e) (born.slot, born.new, born.positive.0, born.positive.1);
        others = λ i off. ground (arith, born.others i off);
      },
      record {
        directory = ground (arith, space.directory);
        user_part = space.user_part;
        kernel_part = space.kernel_part;
        self_part = space.self_part;
        elsewhere = space.elsewhere;
        free = space.free;
        counted = space.counted;
      },
    )
