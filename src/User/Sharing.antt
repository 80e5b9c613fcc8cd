-- ===== src/User/Sharing.antt =====
-- duppage: a page that parent and child share copy-on-write.
use junior_os.Base.{
  ℕ, ◌+◌, ◌*◌, ◌/◌, ◌%◌, ◌<◌, ◌≡◌, ◌≢◌, ◌⊎◌, true, false, some, List, [], has, if◌then◌else◌, arith,
  refl,
}
use junior_os.Machine.{pdx, utop, pte_p, pte_u, test}
use junior_os.Base.Bits.{bit_and_four}
use junior_os.Machine.Laws.{test-present}
use junior_os.Kernel.{Kernel, returns}
use junior_os.Pages.{ref_plus}
use junior_os.Vm.{new_entry}
use junior_os.Vm.Walk.{pde}
use junior_os.Vm.Space.{self_map, Space, entry_of, same_page}
use junior_os.Vm.Separate.{IsSeparate}
use junior_os.Envs.Lookup.{Names, MayActOn}
use junior_os.Syscalls.{value, sys_page_map}
use junior_os.User.{int_syscall, uvpd, uvpt, shared_perm}

-- The program of environment `c`, with directory `p`, runs; `e`, with directory `k`, is its child; page
-- `pn` of `c` is mapped to a page in use, and page `pn` of `e` to nothing.
pub record CanDup (s : Kernel) (c e p k envid pn : ℕ) (xs : List ℕ) : Type 0 where
  pub caller : s.curenv ≡ some c
  pub loaded : s.cr3 ≡ p
  pub own : s.mem p self_map ≡ p * 4096 + 5
  pub table : test (s.mem p (pdx (pn * 4096))) pte_u ≡ true
  pub given : envid ≢ 0
  pub names : Names s envid e
  pub may : MayActOn s c e
  pub source : (s.envs c).env_pgdir ≡ some p
  pub target : (s.envs e).env_pgdir ≡ some k
  pub below : pn * 4096 < utop
  pub parent : Space p xs s
  pub child : Space k xs s
  pub apart : IsSeparate s p k
  pub present : entry_of s p (pn * 4096) % 2 ≡ 1
  pub in_range : entry_of s p (pn * 4096) / 4096 < s.npages
  pub taken : has (entry_of s p (pn * 4096) / 4096) xs ≡ false
  pub room : (pde s k (pn * 4096) ≢ 0) ⊎ (xs ≢ [])
  pub absent : entry_of s k (pn * 4096) % 2 ≡ 0
  pub other : entry_of s k (pn * 4096) / 4096 ≢ entry_of s p (pn * 4096) / 4096

-- Page `pp` is mapped at `va` under `perm` in a directory, and nothing else has changed in it.
abbrev pub Remapped : ℕ → ℕ → ℕ → ℕ → Kernel → Kernel → Type 0
Remapped pgdir pp va perm s u =
    (va' : ℕ)
    → pdx va' ≢ self_map
    → entry_of u pgdir va' ≡ (if same_page va va' then new_entry pp perm else entry_of s pgdir va')

-- Both directories map the page copy-on-write, and neither allows a write; it has one reference more.
pub record SharedCow (p k pp va : ℕ) (s u : Kernel) : Type 0 where
  pub parent : Remapped p pp va shared_perm s u
  pub child : Remapped k pp va shared_perm s u
  pub count : (u.page pp).pp_ref ≡ ref_plus (s.page pp).pp_ref
  pub frame : (entry_of u p va / 4096 ≡ pp) × (entry_of u k va / 4096 ≡ pp)
  pub read_only : (entry_of u p va / 2 % 2 ≡ 0) × (entry_of u k va / 2 % 2 ≡ 0)
  pub left : List ℕ
  pub spaces : Space p left u × Space k left u × IsSeparate u p k

pub page_map_ok :
    (a b d e f : ℕ) (s u : Kernel)
    → sys_page_map a b d e f s ≡ returns (value 0) u
    → int_syscall true 5 a b d e f s ≡ returns 0 u
unfolding junior_os.Syscalls.syscall
page_map_ok a b d e f s u run = rw run refl

-- Where the directory is its own page table in the slot at UVPT, as env_setup_vm leaves it, the program
-- reads the entries of the directory and of its page tables for users.
module _ (s : Kernel) (p : ℕ) (loaded : s.cr3 ≡ p) (own : s.mem p self_map ≡ p * 4096 + 5) where
  present : test (p * 4096 + 5) pte_p ≡ true
  present = test-present (p * 4096 + 5) (omega arith)

  for_users : test (p * 4096 + 5) pte_u ≡ true
  for_users = rw (bit_and_four (p * 4096 + 5)) (ground arith)

  frame_eq : (p * 4096 + 5) / 4096 ≡ p
  frame_eq = omega arith

  pub uvpd_eq : (i : ℕ) → uvpd i s ≡ returns (s.mem p i) s
  uvpd_eq i = rw (loaded, own, present, for_users, frame_eq, own, present, for_users, frame_eq) refl

  pub uvpt_eq :
      (pn : ℕ)
      → s.mem p (pn / 1024) % 2 ≡ 1
      → test (s.mem p (pn / 1024)) pte_u ≡ true
      → uvpt pn s ≡ returns (s.mem (s.mem p (pn / 1024) / 4096) (pn % 1024)) s
  uvpt_eq pn there user =
      rw (loaded, own, present, for_users, frame_eq, test-present (s.mem p (pn / 1024)) there, user)
        refl

module _ (s : Kernel) (c e p k envid pn : ℕ) (xs : List ℕ)
    (can : CanDup s c e p k envid pn xs) where
  abbrev va : ℕ
  va = pn * 4096

  abbrev pp : ℕ
  pp = entry_of s p va / 4096

  user : pdx va ≢ self_map
  user = λ same. ground (arith, can.below)
