-- ===== src/User.antt =====
-- The part of the user library that is made of system calls: jos-lab4/lib/syscall.c, lib/pgfault.c and
-- lib/fork.c. No other environment runs between its calls; the directory in cr3 is the caller's.
pub mod Sharing
pub mod Printf
pub mod Copying
pub mod Fault
pub mod Private
pub mod Handling
use junior_os.Base.{
  ℕ, zero, suc, ◌+◌, ◌-◌, ◌*◌, ◌/◌, ◌%◌, ◌^◌, Bool, true, false, not, ◌&&◌, ◌||◌, Option, none,
  some, List, [], ◌∷◌, ◌==◌, ltb, leb, if◌then◌else◌,
}
use junior_os.Machine.{
  word, pdx, ptx, pgnum, pte_p, pte_w, pte_u, test, add32, rounddown, envx, ustacktop, uxstacktop,
}
use junior_os.Kernel.{Kernel, Cmd, pure, ◌>>=◌, ◌>>◌, get, put, leave, aborted, faulted}
use junior_os.UserMemory.{byte_at, poke, entry_at, can_store}
use junior_os.Syscalls.{Ret, syscall}
use junior_os.Traps.{register}

-- The program's own panic.
abbrev pub user_panic : {A : Type 0} → Cmd A
user_panic = leave aborted

-- `check && ret > 0`, for an int.
abbrev pub checked : Bool → ℕ → Cmd ℕ
checked check ret = if check && (ltb 0 ret && ltb ret 0x80000000) then user_panic else pure ret

-- The system call from a program; what cons_getc would return is only for sys_cgetc.
abbrev pub int_syscall : Bool → (num a1 a2 a3 a4 a5 : ℕ) → Cmd ℕ
int_syscall check num a1 a2 a3 a4 a5 = do
  r ← syscall 0 num a1 a2 a3 a4 a5
  checked check (register r)

abbrev pub page_alloc_stub : ℕ → ℕ → ℕ → Cmd ℕ
page_alloc_stub envid va perm = int_syscall true 4 envid va perm 0 0

abbrev pub page_map_stub : ℕ → ℕ → ℕ → ℕ → ℕ → Cmd ℕ
page_map_stub srcenv srcva dstenv dstva perm = int_syscall true 5 srcenv srcva dstenv dstva perm

abbrev pub page_unmap_stub : ℕ → ℕ → Cmd ℕ
page_unmap_stub envid va = int_syscall true 6 envid va 0 0 0

abbrev pub getenvid_stub : Cmd ℕ
getenvid_stub = int_syscall false 2 0 0 0 0 0

abbrev pub exofork_stub : Cmd ℕ
exofork_stub = int_syscall false 7 0 0 0 0 0

abbrev pub env_set_status_stub : ℕ → ℕ → Cmd ℕ
env_set_status_stub envid status = int_syscall true 8 envid status 0 0 0

abbrev pub env_set_pgfault_upcall_stub : ℕ → ℕ → Cmd ℕ
env_set_pgfault_upcall_stub envid upcall = int_syscall true 9 envid upcall 0 0 0

-- `if (r != 0) panic(...)`
abbrev pub or_panic : ℕ → Cmd (Unit {0})
or_panic r = if r == 0 then pure tt else user_panic

-- The frame of an entry that allows the program to read.
abbrev pub user_frame : ℕ → Cmd ℕ
user_frame e = if test e pte_p && test e pte_u then pure (e / 4096) else leave faulted

-- The page directory and the page tables as the program reads them, through the slot at UVPT.
abbrev pub uvpd : ℕ → Cmd ℕ
uvpd i = do
  s ← get
  table ← user_frame (s.mem s.cr3 957)
  frame ← user_frame (s.mem table 957)
  pure (s.mem frame i)

abbrev pub uvpt : ℕ → Cmd ℕ
uvpt pn = do
  s ← get
  table ← user_frame (s.mem s.cr3 957)
  frame ← user_frame (s.mem table (pn / 1024))
  pure (s.mem frame (pn % 1024))

abbrev pub pte_cow : ℕ
pte_cow = 0x800

-- PTE_P | PTE_U, with PTE_COW or PTE_W.
abbrev pub shared_perm : ℕ
shared_perm = 0x805

abbrev pub private_perm : ℕ
private_perm = 7

abbrev pub read_only_perm : ℕ
read_only_perm = 5

unfoldable pub duppage : ℕ → ℕ → Cmd ℕ
duppage envid pn = do
  e ← uvpt pn
  if test e pte_w || test e pte_cow
      then (do
        r ← page_map_stub 0 (pn * 4096 % word) envid (pn * 4096 % word) shared_perm
        or_panic r
        q ← page_map_stub 0 (pn * 4096 % word) 0 (pn * 4096 % word) shared_perm
        or_panic q
        pure 0)
      else (do
        r ← page_map_stub 0 (pn * 4096 % word) envid (pn * 4096 % word) read_only_perm
        or_panic r
        pure 0)

-- `first` says whether _pgfault_handler is still NULL; `upcall` is the address of _pgfault_upcall.
set_pgfault_handler : Bool → ℕ → Cmd (Unit {0})
set_pgfault_handler first upcall =
    if first
    then (do
      r ← page_alloc_stub 0 (uxstacktop - 4096) private_perm
      or_panic r
      q ← env_set_pgfault_upcall_stub 0 upcall
      or_panic q)
    else pure tt

-- One page of the loop in fork.
dup_if_mapped : ℕ → ℕ → Cmd (Unit {0})
unfolding duppage
dup_if_mapped envid pn = do
  d ← uvpd (pn / 1024)
  if not (test d pte_p) then pure tt else do
    e ← uvpt pn
    if test e pte_p && test e pte_u then duppage envid pn >>= (λ _. pure tt) else pure tt

-- `rounds` pages below USTACKTOP are left, from page `pn` on.
dup_pages : ℕ → ℕ → ℕ → Cmd (Unit {0})
unfolding dup_if_mapped
dup_pages envid zero pn = pure tt
dup_pages envid (suc rounds) pn = dup_if_mapped envid pn >> dup_pages envid rounds (pn + 1)

-- What fork returns, and the slot that `thisenv` is set to in the child.
pub data Forked : Type 0 where
  in_child : (thisenv : ℕ) → Forked
  in_parent : (envid : ℕ) → Forked

-- From the return of sys_exofork on, which happens in the parent and in the child.
pub after_exofork : ℕ → ℕ → Cmd Forked
unfolding dup_pages
after_exofork upcall envid =
    if leb 0x80000000 envid
    then user_panic
    else if envid == 0
    then (do id ← getenvid_stub; pure (in_child (envx id)))
    else do
      dup_pages envid (ustacktop / 4096) 0
      r ← page_alloc_stub envid (uxstacktop - 4096) private_perm
      or_panic r
      env_set_pgfault_upcall_stub envid upcall >>= (λ _. pure tt)
      q ← env_set_status_stub envid 2
      or_panic q
      pure (in_parent envid)

pub fork : Bool → ℕ → Cmd Forked
unfolding set_pgfault_handler after_exofork
fork first upcall = set_pgfault_handler first upcall >> exofork_stub >>= after_exofork upcall

-- A byte that the program reads or writes: both entries must allow it to users.
abbrev pub user_can_read : Kernel → ℕ → Bool
user_can_read s va =
    (test (s.mem s.cr3 (pdx va)) pte_p && test (s.mem s.cr3 (pdx va)) pte_u)
    && (test (entry_at s va) pte_p && test (entry_at s va) pte_u)

copy_byte : ℕ → ℕ → Cmd (Unit {0})
copy_byte dst src = do
  s ← get
  if user_can_read s src && (user_can_read s dst && can_store s dst)
      then put (
          poke (entry_at s dst / 4096) (dst % 4096)
            (byte_at s.mem (entry_at s src / 4096) (src % 4096)) s)
      else leave faulted

-- memcpy between pages of the program, upwards.
pub copy_bytes : ℕ → ℕ → ℕ → Cmd (Unit {0})
unfolding copy_byte
copy_bytes zero dst src = pure tt
copy_bytes (suc n) dst src = copy_byte dst src >> copy_bytes n (dst + 1) (src + 1)

abbrev pub pftemp : ℕ
pftemp = 0x7FF000

-- The fault is a write, to a page that is present and copy-on-write.
pub cow_fault : ℕ → ℕ → Cmd (Unit {0})
cow_fault addr err = if not (test err 2) then user_panic else do
  d ← uvpd (pdx addr)
  if not (test d pte_p) then user_panic else do
    e ← uvpt (pgnum addr)
    if not (test e pte_cow) || not (test e pte_p) then user_panic else pure tt

pub pgfault : ℕ → ℕ → Cmd (Unit {0})
unfolding cow_fault copy_bytes
pgfault addr err = do
  cow_fault addr err
  r ← page_alloc_stub 0 pftemp private_perm
  or_panic r
  copy_bytes 4096 pftemp (rounddown addr)
  q ← page_map_stub 0 pftemp 0 (rounddown addr) private_perm
  or_panic q
  p ← page_unmap_stub 0 pftemp
  or_panic p
