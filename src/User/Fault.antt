-- ===== src/User/Fault.antt =====
-- pgfault: the state after its first system call, in which a new page is mapped at PFTEMP.
use junior_os.Base.{
  ℕ, ◌+◌, ◌*◌, ◌/◌, ◌%◌, ◌^◌, ◌<◌, ◌≡◌, ◌≢◌, ◌⊎◌, inl, inr, refl, true, false, some, List, ◌∷◌,
  if◌then◌else◌, has, arith, ◌∙◌, ap, sym,
}
use junior_os.Base.Bits.{bit_and_two, bit_and_four}
use junior_os.Machine.{pdx, utop, pte_w, pte_u, test}
use junior_os.Machine.Laws.{test-present, entry}
use junior_os.Kernel.{Kernel}
use junior_os.Pages.Alloc.{allocated}
use junior_os.Vm.{new_entry}
use junior_os.Vm.Space.{self_map, Space, entry_of, same_page, IsForeign}
use junior_os.Vm.Insert.{Mapped}
use junior_os.Vm.Unmap.{IsUsed, IsData, table_present}
use junior_os.UserMemory.{entry_at, can_store}
use junior_os.Syscalls.Memory.{allocated-entry_of}
use junior_os.User.{user_can_read, pte_cow, pftemp, private_perm}
use junior_os.User.Copying.{CanCopy}

-- The entry for a private page: where it leads, and what it allows.
pub private_entry :
    (n : ℕ)
    → n < 2 ^ 20
    → (new_entry n private_perm / 4096 ≡ n)
      × (new_entry n private_perm % 2 ≡ 1)
      × (test (new_entry n private_perm) pte_w ≡ true)
      × (test (new_entry n private_perm) pte_u ≡ true)
private_entry n small =
    let at : n * 4096 % 2 ^ 32 / 4096 * 4096 ≡ n * 4096 = omega arith in
    let e : new_entry n private_perm ≡ n * 4096 + 7 = rw at (entry n 7 (omega arith)) in
    (
      rw e (omega arith),
      rw e (omega arith),
      rw (e, bit_and_two (n * 4096 + 7)) (ground arith),
      rw (e, bit_and_four (n * 4096 + 7)) (ground arith),
    )

-- An address that the program may read, and write, by its page directory.
module _ (u : Kernel) (p va : ℕ) (loaded : u.cr3 ≡ p) (present : entry_of u p va % 2 ≡ 1) where
  entry_at-entry_of : entry_at u va ≡ entry_of u p va
  unfolding entry_of
  entry_at-entry_of = let (table, at) = table_present u p va present in rw loaded (sym at)

  can_read_user :
      test (u.mem p (pdx va)) pte_u ≡ true
      → test (entry_of u p va) pte_u ≡ true
      → user_can_read u va ≡ true
  can_read_user dir page =
      let (table, at) = table_present u p va present in
      rw
        (
          loaded,
          ← at,
          test-present (u.mem p (pdx va)) table,
          test-present (entry_of u p va) present,
          dir,
          page,
        )
        refl

  can_store_user :
      test (u.mem p (pdx va)) pte_w ≡ true
      → test (entry_of u p va) pte_w ≡ true
      → can_store u va ≡ true
  unfolding can_store
  can_store_user dir page =
      let (table, at) = table_present u p va present in
      rw
        (
          loaded,
          ← at,
          test-present (u.mem p (pdx va)) table,
          test-present (entry_of u p va) present,
          dir,
          page,
        )
        refl

-- The program of environment `c`, with directory `p`, has written to the page at `va`, which is mapped
-- copy-on-write to a page in use; a page table for PFTEMP is there but maps nothing at it, and `n` is the
-- first free page.
pub record CanFault (s : Kernel) (c p va n : ℕ) (xs : List ℕ) : Type 0 where
  pub caller : s.curenv ≡ some c
  pub loaded : s.cr3 ≡ p
  pub own : s.mem p self_map ≡ p * 4096 + 5
  pub pgdir : (s.envs c).env_pgdir ≡ some p
  pub space : Space p (n ∷ xs) s
  pub nonzero : n ≢ 0
  pub below : va < utop
  pub aligned : va % 4096 ≡ 0
  pub elsewhere : va ≢ pftemp
  pub present : entry_of s p va % 2 ≡ 1
  pub cow : test (entry_of s p va) pte_cow ≡ true
  pub user : test (entry_of s p va) pte_u ≡ true
  pub used : IsUsed (entry_of s p va / 4096) (n ∷ xs) s
  pub leaf : IsData s p (entry_of s p va / 4096)
  pub table : test (s.mem p (pdx va)) pte_u ≡ true
  pub temp_table :
      (s.mem p (pdx pftemp) % 2 ≡ 1)
      × (test (s.mem p (pdx pftemp)) pte_u ≡ true)
      × (test (s.mem p (pdx pftemp)) pte_w ≡ true)
  pub empty : entry_of s p pftemp ≡ 0

module _ (s : Kernel) (c p va n : ℕ) (xs : List ℕ) (can : CanFault s c p va n xs) where
  abbrev pub old : ℕ
  old = entry_of s p va / 4096

  pub user_va : pdx va ≢ self_map
  user_va = λ same. ground (arith, can.below)

  pub other_pages : same_page pftemp va ≡ false
  other_pages = ground (arith, can.below, can.aligned, can.elsewhere)

  pub new-old : n ≢ old
  new-old = ground (arith, can.used.taken)

  -- The state after sys_page_alloc.
  module _ (u : Kernel) (m : Mapped p n pftemp private_perm xs (allocated 1 n s) u) where
    pub loaded_u : u.cr3 ≡ p
    loaded_u = m.kept.4 ∙ can.loaded

    root_not_new : p ≢ n
    root_not_new = ground (arith, can.space.root)

    pub entries_u :
        (va' : ℕ)
        → pdx va' ≢ self_map
        → entry_of u p va'
          ≡ (if same_page pftemp va' then new_entry n private_perm else entry_of s p va')
    entries_u va' h =
        m.mapped va' h
        ∙ ap (λ e. if same_page pftemp va' then new_entry n private_perm else e)
            (allocated-entry_of s p n xs can.space va' h)

    pub at_va : entry_of u p va ≡ entry_of s p va
    at_va = entries_u va user_va ∙ rw other_pages refl

    pub at_temp : entry_of u p pftemp ≡ new_entry n private_perm
    at_temp = entries_u pftemp (λ same. ground arith)

    slots_u : (d : ℕ) → d ≢ self_map → s.mem p d % 2 ≡ 1 → u.mem p d ≡ s.mem p d
    slots_u d h b = ground (arith, m.slots d h, root_not_new)

    -- A page that is the directory or a page table of neither state, and was not free for a new one.
    foreign_u :
        (k : ℕ)
        → k ≢ p
        → ((d : ℕ) → d ≢ self_map → s.mem p d % 2 ≡ 1 → s.mem p d / 4096 ≢ k)
        → has k xs ≡ false
        → IsForeign u p k
    foreign_u k root leaf out = record { root = root; leaf = λ d h b. table d h (m.tables d h b) b }
      where
        table :
            (d : ℕ)
            → d ≢ self_map
            → (has (u.mem p d / 4096) xs ≡ true) ⊎ (u.mem p d ≡ (allocated 1 n s).mem p d)
            → u.mem p d % 2 ≡ 1
            → u.mem p d / 4096 ≢ k
        table d h (inl new) b = λ e. ground (arith, out)
        table d h (inr kept) b = ground (arith, leaf d h, root_not_new)

    pub new-IsForeign : IsForeign u p n
    new-IsForeign =
        foreign_u n (λ e. root_not_new (sym e)) (λ d h b e. ground (arith, can.space.slots d h))
          can.space.free.distinct.0

    pub old-IsForeign : IsForeign u p old
    old-IsForeign = foreign_u old can.leaf.0 can.leaf.1 (ground (arith, can.used.taken))

    pub old_bytes : u.mem old ≡ s.mem old
    old_bytes =
        m.memory old
          (record {
            root = can.leaf.0;
            leaf = λ d h b. ground (arith, can.leaf.1 d h, root_not_new);
          })
          (ground (arith, can.used.taken))
        ∙ ground (arith, new-old)

    small_n : n < 2 ^ 20
    small_n = ground (arith, can.space.small, can.space.free.free.0)

    temp_present : entry_of u p pftemp % 2 ≡ 1
    temp_present = rw at_temp (private_entry n small_n).1

    va_present : entry_of u p va % 2 ≡ 1
    va_present = rw at_va can.present

    temp_slot : u.mem p (pdx pftemp) ≡ s.mem p (pdx pftemp)
    temp_slot = slots_u (pdx pftemp) (λ same. ground arith) can.temp_table.0

    va_slot : u.mem p (pdx va) ≡ s.mem p (pdx va)
    va_slot = slots_u (pdx va) user_va (table_present s p va can.present).0

    pub can_copy : CanCopy u pftemp va n old
    can_copy =
        let (frame, bit, w, us) = private_entry n small_n in
        record {
          aligned = (refl, can.aligned);
          bounded = (omega arith, omega (arith, can.below));
          reads =
              can_read_user u p va loaded_u va_present (rw va_slot can.table) (rw at_va can.user);
          owns =
              can_read_user u p pftemp loaded_u temp_present (rw temp_slot (can.temp_table.1))
                (rw at_temp us);
          writes =
              can_store_user u p pftemp loaded_u temp_present (rw temp_slot (can.temp_table.2))
                (rw at_temp w);
          to =
              ap (λ e. e / 4096) (entry_at-entry_of u p pftemp loaded_u temp_present ∙ at_temp)
              ∙ frame;
          from = ap (λ e. e / 4096) (entry_at-entry_of u p va loaded_u va_present ∙ at_va);
          other = new-old;
          root = λ e. root_not_new (sym (e ∙ loaded_u));
          dst_table = λ e.
              new-IsForeign.leaf (pdx pftemp) (λ same. ground arith)
                (rw temp_slot (can.temp_table.0))
                (sym (e ∙ ap (λ r. u.mem r (pdx pftemp) / 4096) loaded_u));
          src_table = λ e.
              new-IsForeign.leaf (pdx va) user_va (rw va_slot (table_present s p va can.present).0)
                (sym (e ∙ ap (λ r. u.mem r (pdx va) / 4096) loaded_u));
        }
