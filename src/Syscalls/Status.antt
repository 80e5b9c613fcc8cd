-- ===== src/Syscalls/Status.antt =====
-- Isolation: what a system call may do to an environment that is not the caller's to change.
use junior_os.Base.{
  ℕ, ◌≡◌, ◌≢◌, ◌⊎◌, inl, inr, refl, Bool, true, false, ◌==◌, if◌then◌else◌, leb, bit_and, none,
  some, arith, Bool-cases, ◌%◌, update, eqb_ne,
}
use junior_os.Machine.{envx, not_pte_syscall, utop}
use junior_os.Kernel.{Kernel, EnvStatus, Error, Run, returns, fails, e_bad_env, e_inval}
use junior_os.Envs.{envid2env}
use junior_os.Envs.Lookup.{Names, MayActOn, envid2env_refused, envid2env_allowed}
use junior_os.Syscalls.{
  Ret, value, error, syscall, sys_env_destroy, sys_env_set_status, sys_env_set_pgfault_upcall,
  sys_page_alloc, sys_page_map, sys_page_unmap, status_of_int,
}

-- The id is of no live environment that is the caller `c` or a child of it.
abbrev pub IsForeign : Kernel → ℕ → ℕ → Type 0
IsForeign s c envid = (envid ≢ 0) × (¬ (Names s envid (envx envid) × MayActOn s c (envx envid)))

-- The call answers with an error and leaves the state as it is.
abbrev pub IsRefused : Kernel → Run Ret → Type 0
IsRefused s r = (e : Error) × (r ≡ returns (error e) s)

refuse_or :
    (s : Kernel) (bad : Bool) (r : Run Ret)
    → IsRefused s r
    → IsRefused s (if bad then returns (error e_inval) s else r)
refuse_or s true r refused = (e_inval, refl)
refuse_or s false r refused = refused

module _ (s : Kernel) (c envid : ℕ) (caller : s.curenv ≡ some c)
    (foreign : IsForeign s c envid) where
  lookup_refused : envid2env envid true s ≡ returns (fails e_bad_env, none) s
  lookup_refused = envid2env_refused s c envid caller foreign.0 foreign.1

  sys_page_alloc-IsRefused : (va perm : ℕ) → IsRefused s (sys_page_alloc envid va perm s)
  unfolding sys_page_alloc
  sys_page_alloc-IsRefused va perm =
      elim (Bool-cases (bit_and (bit_and perm 0xfff) not_pte_syscall == 0)) [
        | inr m ↦ (e_inval, rw m refl)
        | inl m ↦ elim (Bool-cases (va % 4096 == 0)) [
          | inr a ↦ (e_inval, rw (m, a) refl)
          | inl a ↦ elim (Bool-cases (leb utop va)) [
            | inl u ↦ (e_inval, rw (m, a, u) refl)
            | inr u ↦ (e_bad_env, rw (m, a, u, lookup_refused) refl)
          ]
        ]
      ]

  sys_page_unmap-IsRefused : (va : ℕ) → IsRefused s (sys_page_unmap envid va s)
  unfolding sys_page_unmap
  sys_page_unmap-IsRefused va = elim (Bool-cases (va % 4096 == 0)) [
    | inr a ↦ (e_inval, rw a refl)
    | inl a ↦ elim (Bool-cases (leb utop va)) [
      | inl u ↦ (e_inval, rw (a, u) refl)
      | inr u ↦ (e_bad_env, rw (a, u, lookup_refused) refl)
    ]
  ]

  sys_page_map-IsRefused :
      (srcva dstenvid dstva perm : ℕ) → IsRefused s (sys_page_map envid srcva dstenvid dstva perm s)
  unfolding sys_page_map
  sys_page_map-IsRefused srcva dstenvid dstva perm = (e_bad_env, rw lookup_refused refl)

  -- With a current environment, a system call that destroys, allocates a page in, maps out of,
  -- unmaps from, or sets the status or the page fault entry point of an environment, given by an id
  -- other than 0, that is not live, or neither the caller nor a child of it, answers with an error
  -- and changes nothing.
  pub syscall-IsRefused :
      (key syscallno a2 a3 a4 a5 : ℕ)
      → (syscallno ≡ 3)
        ⊎ ((syscallno ≡ 4)
            ⊎ ((syscallno ≡ 5) ⊎ ((syscallno ≡ 6) ⊎ ((syscallno ≡ 8) ⊎ (syscallno ≡ 9)))))
      → IsRefused s (syscall key syscallno envid a2 a3 a4 a5 s)
  unfolding syscall sys_env_destroy sys_env_set_status sys_env_set_pgfault_upcall
  syscall-IsRefused key n a2 a3 a4 a5 (inl e) = rw e (e_bad_env, rw lookup_refused refl)
  syscall-IsRefused key n a2 a3 a4 a5 (inr (inl e)) = rw e (sys_page_alloc-IsRefused a2 a3)
  syscall-IsRefused key n a2 a3 a4 a5 (inr (inr (inl e))) =
      rw e (sys_page_map-IsRefused a2 a3 a4 a5)
  syscall-IsRefused key n a2 a3 a4 a5 (inr (inr (inr (inl e)))) = rw e (sys_page_unmap-IsRefused a2)
  syscall-IsRefused key n a2 a3 a4 a5 (inr (inr (inr (inr (inl e))))) =
      rw e (e_bad_env, rw lookup_refused refl)
  syscall-IsRefused key n a2 a3 a4 a5 (inr (inr (inr (inr (inr e))))) =
      rw e (e_bad_env, rw lookup_refused refl)

-- For an id other than 0 of the caller or a child, sys_env_set_status sets the status that 2
-- (ENV_RUNNABLE) or 4 (ENV_NOT_RUNNABLE) names, and changes nothing else of any environment; any
-- other status is refused with -E_INVAL and changes nothing.
pub set_status_cases :
    (s : Kernel) (c envid e status : ℕ)
    → s.curenv ≡ some c
    → envid ≢ 0
    → Names s envid e
    → MayActOn s c e
    → ((st : EnvStatus)
        → status_of_int status ≡ some st
        → (t : Kernel) × (sys_env_set_status envid status s ≡ returns (value 0) t)
          × (t.envs e ≡ record (s.envs e) { env_status = st })
          × ((i : ℕ) → i ≢ e → t.envs i ≡ s.envs i))
      × (status ≢ 2 → status ≢ 4 → sys_env_set_status envid status s ≡ returns (error e_inval) s)
unfolding sys_env_set_status
set_status_cases s c envid e status caller given names may =
    let found = envid2env_allowed s c envid e caller given names may in
    (
      λ st is. (
        record s { envs = update s.envs e (record (s.envs e) { env_status = st }) },
        rw (found, is) refl,
        ground arith,
        λ i ne. ground arith,
      ),
      λ two four. rw (found, eqb_ne status 2 two, eqb_ne status 4 four) refl,
    )
