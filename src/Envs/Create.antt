-- ===== src/Envs/Create.antt =====
-- env_setup_vm and env_alloc: the address space and the fields of a new environment.
use junior_os.Base.{
  ℕ, zero, suc, ◌+◌, ◌*◌, ◌%◌, ◌^◌, ◌<◌, ◌≤◌, ◌≡◌, ◌≢◌, refl, ◌⊎◌, inl, inr, false, none, some,
  Option, List, ◌∷◌, has, update, update-update, arith, ap, eqb_refl,
}
use junior_os.Machine.{envx}
use junior_os.Machine.Laws.{directory_entry}
use junior_os.Kernel.{Kernel, Trapframe, Env, EnvStatus, PageInfo, returns, ok}
use junior_os.Pages.FreeList.{Free}
use junior_os.Pages.Alloc.{page_alloc-cons, page_of_pa, rest-FreeList}
use junior_os.Envs.{copy_kernel, env_setup_vm, alloc_env, env_alloc, born}
use junior_os.Envs.Ids.{new_id}

-- The words that the copy leaves in the directory.
copied : ℕ → ℕ → ℕ → (ℕ → ℕ → ℕ) → ℕ → ℕ → ℕ → ℕ
copied kern pgdir zero mem i n j = mem n j
copied kern pgdir (suc rounds) mem i n j =
    copied kern pgdir rounds (update mem pgdir (update (mem pgdir) i (mem kern i))) (i + 1) n j

copy_kernel_eq :
    (pgdir rounds i : ℕ) (s : Kernel)
    → copy_kernel pgdir rounds i s
      ≡ returns tt (record s { mem = copied s.kern_pgdir pgdir rounds s.mem i })
unfolding copy_kernel copied
copy_kernel_eq pgdir zero i s = refl
copy_kernel_eq pgdir (suc rounds) i s =
    copy_kernel_eq pgdir rounds (i + 1)
      (record s { mem = update s.mem pgdir (update (s.mem pgdir) i (s.mem s.kern_pgdir i)) })

-- Inside the range the kernel's words, elsewhere what was there.
copied_lem :
    (kern pgdir rounds : ℕ) (mem : ℕ → ℕ → ℕ) (i n j : ℕ)
    → kern ≢ pgdir
    → ((n ≡ pgdir) → (i ≤ j) → (j < i + rounds) → copied kern pgdir rounds mem i n j ≡ mem kern j)
      × ((n ≢ pgdir) ⊎ ((j < i) ⊎ (i + rounds ≤ j)) → copied kern pgdir rounds mem i n j ≡ mem n j)
unfolding copied
copied_lem kern pgdir zero mem i n j ne = (λ a b c. absurd (omega arith), λ h. refl)
copied_lem kern pgdir (suc rounds) mem i n j ne =
    let next =
      copied_lem kern pgdir rounds (update mem pgdir (update (mem pgdir) i (mem kern i))) (i + 1) n
        j ne in
    (λ a b c. ground (arith, next), λ h. ground (arith, next))

abbrev words : Kernel → ℕ → ℕ → ℕ → ℕ
words s x = copied s.kern_pgdir x 69 (update (update s.mem x (λ _. 0)) x (λ _. 0)) 955

-- The state after env_setup_vm has made page `x` the directory of environment `e`.
abbrev setup : ℕ → ℕ → Kernel → Kernel
setup e x s = record s {
  page = update s.page x (record { pp_link = none; pp_ref = 1 });
  page_free_list = (s.page x).pp_link;
  envs = update s.envs e (record (s.envs e) { env_pgdir = some x });
  mem = update (words s x) x (update (words s x x) 957 (x * 4096 + 5));
}

module _ (s : Kernel) (e x : ℕ) (xs : List ℕ) (free : Free s (x ∷ xs))
    (small : s.npages ≤ 2 ^ 20) where
  setup_eq : env_setup_vm e s ≡ returns ok (setup e x s)
  unfolding env_setup_vm
  setup_eq =
      let at = page_of_pa x s.npages free.free.0 small in
      let pa : x * 4096 % 2 ^ 32 ≡ x * 4096 = omega arith in
      rw
        (
          page_alloc-cons s x xs free 1 small,
          at.0,
          at.1,
          copy_kernel_eq x 69 955 _,
          pa,
          directory_entry x,
          eqb_refl x,
        )
        (ap (λ (p : ℕ → PageInfo). returns ok (record (setup e x s) { page = p }))
          (update-update s.page x _ _))

-- Page `x` is the directory of environment `e` in `t`: empty below UTOP, the kernel's above, with
-- itself at UVPT.
pub record FreshSpace (e x : ℕ) (xs : List ℕ) (s t : Kernel) : Type 0 where
  pub directory : (t.envs e).env_pgdir ≡ some x
  pub user_part : (d : ℕ) → d < 955 → t.mem x d ≡ 0
  pub kernel_part : (d : ℕ) → 955 ≤ d → d < 1024 → d ≢ 957 → t.mem x d ≡ s.mem s.kern_pgdir d
  pub self_part : t.mem x 957 ≡ x * 4096 + 5
  pub elsewhere : (n d : ℕ) → n ≢ x → t.mem n d ≡ s.mem n d
  pub free : Free t xs
  pub counted : (t.page x).pp_ref ≡ 1

module _ (s : Kernel) (e x : ℕ) (xs : List ℕ) (free : Free s (x ∷ xs)) (small : s.npages ≤ 2 ^ 20)
    (kernel : s.kern_pgdir ≢ x) where
  words_at :
      (n d : ℕ)
      → ((n ≡ x) → (955 ≤ d) → (d < 1024) → words s x n d ≡ s.mem s.kern_pgdir d)
        × ((n ≡ x) → (d < 955) → words s x n d ≡ 0)
        × ((n ≢ x) → words s x n d ≡ s.mem n d)
  words_at n d =
      let mem' = update (update s.mem x (λ _. 0)) x (λ _. 0) in
      let at = copied_lem s.kern_pgdir x 69 mem' 955 n d kernel in
      (
        λ a b c. ground (arith, at.0),
        λ a b. ground (arith, at.1 (inr (inl b))),
        λ a. ground (arith, at.1 (inl a)),
      )

  -- Whatever is then written to the fields of environments, the address space stands.
  fresh-Space :
      (f : ℕ → Env) (l : Option ℕ)
      → (f e).env_pgdir ≡ some x
      → FreshSpace e x xs s (record (setup e x s) { envs = f; env_free_list = l })
  fresh-Space f l has = record {
    directory = has;
    user_part = λ d h. ground (arith, (words_at x d).1 refl h);
    kernel_part = λ d lo hi ne. ground (arith, (words_at x d).0 refl lo hi);
    self_part = ground arith;
    elsewhere = λ n d ne. ground (arith, (words_at n d).2 ne);
    free = rest-FreeList s x xs free _ refl;
    counted = ground arith;
  }

  -- With a free page that is not the kernel's directory, and at most 2 ^ 20 pages, env_setup_vm
  -- gives the environment a directory that is empty below UTOP, the kernel's above and maps itself
  -- at UVPT; no other physical page changes, and the page has one reference.
  pub env_setup_vm-FreshSpace :
      (t : Kernel) × (env_setup_vm e s ≡ returns ok t) × FreshSpace e x xs s t
  env_setup_vm-FreshSpace = (
    setup e x s,
    setup_eq s e x xs free small,
    fresh-Space (setup e x s).envs s.env_free_list (ground arith),
  )

-- A trap frame in which every register is 0 but the selectors, which are those of user mode, the stack
-- pointer, which is USTACKTOP, and the flags, of which interrupts are on.
pub record IsCleared (tf : Trapframe) : Type 0 where
  pub index : (tf.tf_regs.reg_edi ≡ 0) × (tf.tf_regs.reg_esi ≡ 0)
  pub stack : (tf.tf_regs.reg_ebp ≡ 0) × (tf.tf_regs.reg_oesp ≡ 0) × (tf.tf_esp ≡ 0xeebfe000)
  pub general :
      (tf.tf_regs.reg_ebx ≡ 0)
      × (tf.tf_regs.reg_edx ≡ 0)
      × (tf.tf_regs.reg_ecx ≡ 0)
      × (tf.tf_regs.reg_eax ≡ 0)
  pub segments : (tf.tf_es ≡ 0x23) × (tf.tf_ds ≡ 0x23) × (tf.tf_ss ≡ 0x23)
  pub code : (tf.tf_cs ≡ 0x1b) × (tf.tf_eip ≡ 0) × (tf.tf_eflags ≡ 0x200)
  pub trap : (tf.tf_trapno ≡ 0) × (tf.tf_err ≡ 0)

-- What env_alloc promises of the environment `e` that it hands out.
pub record Born (e parent : ℕ) (s t : Kernel) : Type 0 where
  pub status : (t.envs e).env_status ≡ EnvStatus.runnable
  pub parent_id : (t.envs e).env_parent_id ≡ parent
  pub positive : (0 < (t.envs e).env_id) × ((t.envs e).env_id < 2 ^ 31)
  pub slot : envx (t.envs e).env_id ≡ e
  pub new : (t.envs e).env_id ≢ (s.envs e).env_id
  pub quiet : ((t.envs e).env_ipc_recving ≡ false) × ((t.envs e).env_pgfault_upcall ≡ 0)
  pub user_kind : ((t.envs e).env_type ≡ 0) × ((t.envs e).env_runs ≡ 0)
  pub registers : IsCleared (t.envs e).env_tf
  pub taken : t.env_free_list ≡ (s.envs e).env_link
  pub others : (i : ℕ) → i ≢ e → t.envs i ≡ s.envs i
  pub caller : t.curenv ≡ s.curenv

module _ (s : Kernel) (e x parent : ℕ) (xs : List ℕ) (free : Free s (x ∷ xs))
    (small : s.npages ≤ 2 ^ 20) (kernel : s.kern_pgdir ≢ x) where
  alloc_eq :
      (o : Option ℕ)
      → o ≡ some e
      → alloc_env parent o s
        ≡ returns
            (ok, some e)
            (record (setup e x s) {
              envs = update (setup e x s).envs e (born e parent ((setup e x s).envs e));
              env_free_list = (s.envs e).env_link;
            })
  unfolding env_alloc
  alloc_eq o first = rw (first, setup_eq s e x xs free small, eqb_refl e) refl

  -- With a free environment whose id is below 2 ^ 31, a free page that is not the kernel's
  -- directory, and at most 2 ^ 20 pages, env_alloc hands out the first free environment, runnable,
  -- with the given parent, a new positive id for its slot, no runs, no upcall, not receiving, a
  -- trap frame that is 0 but for the selectors of user mode, USTACKTOP and the interrupt flag, and
  -- an address space that is empty below UTOP and the kernel's above; no other environment changes.
  pub env_alloc-Born :
      s.env_free_list ≡ some e
      → e < 1024
      → (s.envs e).env_id < 2 ^ 31
      → (t : Kernel) × (env_alloc parent s ≡ returns (ok, some e) t)
        × Born e parent s t
        × FreshSpace e x xs s t
  unfolding env_alloc
  env_alloc-Born first lt old =
      let (pos, bounded, slot, fresh) = new_id (s.envs e).env_id e old lt in
      (
        _,
        alloc_eq s.env_free_list first,
        record {
          status = ground arith;
          parent_id = ground arith;
          positive = rw (eqb_refl e) (pos, bounded);
          slot = rw (eqb_refl e) slot;
          new = rw (eqb_refl e) fresh;
          quiet = (ground arith, ground arith);
          user_kind = (ground arith, ground arith);
          registers = rw (eqb_refl e) (record {
            index = (refl, refl);
            stack = (refl, refl, refl);
            general = (refl, refl, refl, refl);
            segments = (refl, refl, refl);
            code = (refl, refl, refl);
            trap = (refl, refl);
          });
          taken = refl;
          others = λ i ne. ground arith;
          caller = refl;
        },
        fresh-Space s e x xs free small kernel _ _ (ground arith),
      )
