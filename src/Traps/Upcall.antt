-- ===== src/Traps/Upcall.antt =====
-- page_fault_handler with an upcall: the frame that it builds on the user exception stack.
use junior_os.Base.{
  ℕ, ◌+◌, ◌-◌, ◌*◌, ◌%◌, ◌^◌, ◌<◌, ◌≤◌, ◌≡◌, ◌⊎◌, refl, true, false, some, Option, List, [], ◌∷◌,
  ◌==◌, arith, update, ◌∙◌, length, if◌then◌else◌, bit_or, inl, inr,
}
use junior_os.Machine.{uxstacktop, roundup}
use junior_os.Kernel.{Kernel, Trapframe, returns, leaves, entered, deref, and_then}
use junior_os.Sched.{env_run, env_destroy, user_mem_assert}
use junior_os.Sched.Yield.{Runs, env_run-Runs}
use junior_os.Vm.{check_rounds}
use junior_os.Vm.Access.{IsSound, grants, user_mem_check_one_page}
use junior_os.UserMemory.{words_of, store_bytes}
use junior_os.UserMemory.Stores.{IsWritable, AreBytes, Stored, store_bytes-Stored}
use junior_os.Traps.{upcall, page_fault_handler, utf_address, utrapframe_size}

AreBytes-words_of : (ws : List ℕ) → AreBytes (words_of ws)
unfolding words_of
AreBytes-words_of [] = tt
AreBytes-words_of (w ∷ ws) =
    (omega arith, (omega arith, (omega arith, (omega arith, AreBytes-words_of ws))))

length-words_of : (ws : List ℕ) → length (words_of ws) ≡ 4 * length ws
unfolding words_of
length-words_of [] = omega arith
length-words_of (w ∷ ws) = omega (arith, length-words_of ws)

-- Where the frame goes: below a scratch word and what is on the exception stack already, if %esp is on
-- that page, else at its top.
abbrev pub IsFrameAt : (esp at : ℕ) → Type 0
IsFrameAt esp at =
    ((uxstacktop - 4096 < esp) × (esp ≤ uxstacktop) × (at + 56 ≡ esp))
    ⊎ (((esp ≤ uxstacktop - 4096) ⊎ (uxstacktop < esp)) × (at + 52 ≡ uxstacktop))

frame_address :
    (esp at : ℕ)
    → esp < 2 ^ 32
    → IsFrameAt esp at
    → uxstacktop - 4096 < at
    → (utf_address esp ≡ at) × (at + 52 ≤ uxstacktop)
frame_address esp at small (inl (lo, hi, eq)) above =
    let on : (roundup esp == uxstacktop) ≡ true = ground arith in rw on (omega arith, omega arith)
frame_address esp at small (inr (beside, eq)) above =
    let off : (roundup esp == uxstacktop) ≡ false = ground arith in
    rw off (omega arith, omega arith)

-- The words of the frame, from its lowest address up: the address of the fault, the error code, the eight
-- registers, and where and with which flags and stack the program was.
abbrev pub frame_words : ℕ → Trapframe → List ℕ
frame_words fault_va tf =
    fault_va ∷ tf.tf_err ∷ tf.tf_regs.reg_edi ∷ tf.tf_regs.reg_esi ∷ tf.tf_regs.reg_ebp
    ∷ tf.tf_regs.reg_oesp ∷ tf.tf_regs.reg_ebx ∷ tf.tf_regs.reg_edx ∷ tf.tf_regs.reg_ecx
    ∷ tf.tf_regs.reg_eax ∷ tf.tf_eip ∷ tf.tf_eflags ∷ tf.tf_esp ∷ []

one_page : (u : ℕ) → uxstacktop - 4096 < u → u + 52 ≤ uxstacktop → check_rounds u 52 ≡ 0
one_page u above below = omega arith

-- The current environment `c` has an upcall and a writable page `f` under the top of its exception
-- stack, on which the frame fits.
pub record CanUpcall (c pgdir f at : ℕ) (tf : Trapframe) (s : Kernel) : Type 0 where
  pub current : s.curenv ≡ some c
  pub user : (tf.tf_cs % 4 == 0) ≡ false
  pub esp : tf.tf_esp < 2 ^ 32
  pub upcall : ((s.envs c).env_pgfault_upcall == 0) ≡ false
  pub directory : (s.envs c).env_pgdir ≡ some pgdir
  pub loaded : s.cr3 ≡ pgdir
  pub place : IsFrameAt tf.tf_esp at
  pub above : uxstacktop - 4096 < at
  pub sound : IsSound s pgdir at
  pub granted : grants s pgdir 6 at ≡ true
  pub writable : IsWritable s at f

module _ (s : Kernel) (c pgdir f at fault_va : ℕ) (tf : Trapframe)
    (can : CanUpcall c pgdir f at tf s) where
  abbrev frame : List ℕ
  frame = words_of (frame_words fault_va tf)

  address : utf_address tf.tf_esp ≡ at
  address = (frame_address tf.tf_esp at can.esp can.place can.above).0

  fits : at + 52 ≤ uxstacktop
  fits = (frame_address tf.tf_esp at can.esp can.place can.above).1

  asserted : user_mem_assert c at utrapframe_size (bit_or 2 4) s ≡ returns tt s
  unfolding user_mem_assert
  asserted =
      rw
        (
          user_mem_check_one_page s c pgdir 6 can.directory at 52 can.sound
              (one_page at can.above fits),
          can.granted,
        )
        refl

  stored :
      (mem' : ℕ → ℕ → ℕ) × (store_bytes at frame s ≡ returns tt (record s { mem = mem' }))
      × Stored f (at % 4096) frame s.mem mem'
  stored =
      let room = fits in
      store_bytes-Stored s at f (at % 4096) frame
        (omega (arith, length-words_of (frame_words fault_va tf), can.above)) (omega arith)
        (AreBytes-words_of (frame_words fault_va tf)) (λ more. (can.writable, refl))

  -- The state in which the upcall runs.
  abbrev pub redirected : (ℕ → ℕ → ℕ) → Kernel
  redirected mem' = record s {
    mem = mem';
    envs = update s.envs c (record (s.envs c) {
      env_tf = record ((s.envs c).env_tf) { tf_eip = (s.envs c).env_pgfault_upcall; tf_esp = at };
    });
  }

  upcall_eq :
      (mem' : ℕ → ℕ → ℕ) (o : Option ℕ)
      → store_bytes at frame s ≡ returns tt (record s { mem = mem' })
      → o ≡ some c
      → and_then
          (deref o s)
          (λ c. if (s.envs c).env_pgfault_upcall == 0 then env_destroy c else upcall fault_va c tf)
        ≡ env_run c (redirected mem')
  unfolding page_fault_handler
  upcall_eq mem' o run e = rw (e, can.upcall, address, asserted, run) refl

  -- For a page fault in user mode of a current environment with an upcall, whose exception frame
  -- fits on a page that it may write and that is neither its page directory nor the page table:
  -- page_fault_handler puts the frame 56 bytes below %esp if that is on the exception stack, and at
  -- the top of that stack if not. From its lowest address up, the frame is the fault's address, the
  -- error code, the registers as pusha orders them, and the %eip, the flags and the %esp of the
  -- fault. Every other byte of memory is as it was, and the environment is entered at the upcall
  -- with the frame's address in %esp.
  pub page_fault_handler-Runs :
      (mem' : ℕ → ℕ → ℕ) × (t : Kernel) × (page_fault_handler fault_va tf s ≡ leaves (entered c) t)
      × Stored f (at % 4096) frame s.mem mem'
      × ((t.envs c).env_tf
          ≡ record ((s.envs c).env_tf) { tf_eip = (s.envs c).env_pgfault_upcall; tf_esp = at })
      × Runs c (redirected mem') t
  unfolding page_fault_handler
  page_fault_handler-Runs =
      let (mem', run, kept) = stored in
      let (t, enter, runs) =
        env_run-Runs {A = Unit {0}} (redirected mem') c pgdir (ground (arith, can.directory)) in
      (
        mem',
        t,
        rw can.user (upcall_eq mem' s.curenv run can.current ∙ enter),
        kept,
        runs.frames c ∙ ground arith,
        runs,
      )
