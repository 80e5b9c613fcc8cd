-- ===== src/Vm/Access.antt =====
-- user_mem_check: what it decides for one page, and for a range that runs into further pages.
use junior_os.Base.{
  ℕ, zero, suc, ◌+◌, ◌*◌, ◌%◌, ◌<◌, ◌≤◌, ◌≡◌, subst, ◌∙◌, if_apply, ◌⊎◌, inl, inr, refl, Bool, true,
  false, ◌&&◌, some, none, Option, ◌==◌, if◌then◌else◌, arith, bit_and, Bool-cases, lt→ltb, ge→ltb,
}
use junior_os.Machine.{pdx, roundup, ulim}
use junior_os.Kernel.{Kernel, PtePtr, returns, ok, fails, e_fault}
use junior_os.Vm.{pte_at, pgdir_walk, allows, check_pages, check_rounds, user_mem_check}
use junior_os.Vm.Walk.{walk_present, walk_absent}
use junior_os.Vm.Remove.{table_of, pte}

-- The page table entry for the address grants all of `perm`.
abbrev pub grants : Kernel → ℕ → ℕ → ℕ → Bool
grants s pgdir perm va = s.mem pgdir (pdx va) % 2 == 1 && bit_and (pte s pgdir va) perm == perm

-- The slot of the directory for the address is 0, or leads to a page table in memory.
abbrev pub IsSound : Kernel → ℕ → ℕ → Type 0
IsSound s pgdir va =
    (s.mem pgdir (pdx va) ≡ 0) ⊎ ((s.mem pgdir (pdx va) % 2 ≡ 1) × (table_of s pgdir va < s.npages))

abbrev seen : Kernel → ℕ → ℕ → Option PtePtr
seen s pgdir va =
    if s.mem pgdir (pdx va) % 2 == 1 then some (pte_at (table_of s pgdir va) va) else none

walk_reads :
    (s : Kernel) (pgdir va : ℕ)
    → IsSound s pgdir va
    → pgdir_walk pgdir va false s ≡ returns (seen s pgdir va) s
walk_reads s pgdir va (inl z) = rw (z, walk_absent s pgdir va z) refl
walk_reads s pgdir va (inr (p, small)) = rw (walk_present s pgdir va false p small, p) refl

allows-seen :
    (s : Kernel) (pgdir perm va : ℕ) → allows s perm (seen s pgdir va) ≡ grants s pgdir perm va
allows-seen s pgdir perm va = ground arith

abbrev pub denied : ℕ → Kernel → Kernel
denied va s = record s { user_mem_check_addr = va }

-- One round of the loop at a page below ULIM.
check_pages_below :
    (s : Kernel) (pgdir perm rounds i : ℕ)
    → IsSound s pgdir i
    → 0 < rounds
    → i < ulim
    → check_pages pgdir perm rounds i s ≡ returns (fails e_fault) (denied i s)
unfolding check_pages
check_pages_below s pgdir perm zero i sound more below = absurd (omega arith)
check_pages_below s pgdir perm (suc rounds) i sound more below =
    rw (walk_reads s pgdir i sound, lt→ltb i ulim below) refl

check_pages_step :
    (s : Kernel) (pgdir perm rounds i : ℕ)
    → IsSound s pgdir i
    → ulim ≤ i
    → grants s pgdir perm i ≡ true
    → check_pages pgdir perm (suc rounds) i s ≡ check_pages pgdir perm rounds (i + 4096) s
unfolding check_pages
check_pages_step s pgdir perm rounds i sound above granted =
    rw (walk_reads s pgdir i sound, ge→ltb i ulim above, allows-seen s pgdir perm i, granted) refl

first_at : (i : ℕ) → i + 0 * 4096 ≡ i
first_at i = omega arith

next_at : (i k : ℕ) → i + suc k * 4096 ≡ i + 4096 + k * 4096
next_at i k = omega arith

module _ (s : Kernel) (env pgdir perm : ℕ) (has_pgdir : (s.envs env).env_pgdir ≡ some pgdir) where
  first_page :
      (va len : ℕ)
      → IsSound s pgdir va
      → user_mem_check env va len perm s ≡ (
          if grants s pgdir perm va
          then check_pages pgdir perm (check_rounds va len) (roundup va) s
          else returns (fails e_fault) (denied va s))
  unfolding user_mem_check
  first_page va len sound =
      rw (has_pgdir, walk_reads s pgdir va sound, allows-seen s pgdir perm va)
        (if_apply (grants s pgdir perm va) _ _ s)

  -- For an environment with a page directory whose slot for the address is sound: where no further
  -- page is touched after rounding, user_mem_check answers what the entry for the start grants, and
  -- a refusal records the address.
  pub user_mem_check_one_page :
      (va len : ℕ)
      → IsSound s pgdir va
      → check_rounds va len ≡ 0
      → user_mem_check env va len perm s
        ≡ (if grants s pgdir perm va then returns ok s else returns (fails e_fault) (denied va s))
  unfolding check_pages
  user_mem_check_one_page va len sound none_left = first_page va len sound ∙ rw none_left refl

  -- For an environment with a page directory whose slots for the two addresses are sound: where the
  -- range runs into a further page and that page lies below ULIM, user_mem_check fails whatever the
  -- page tables grant; the recorded address is the start if the start does not grant the
  -- permissions, and the further page otherwise.
  pub user_mem_check_below_ulim :
      (va len : ℕ)
      → IsSound s pgdir va
      → IsSound s pgdir (roundup va)
      → 0 < check_rounds va len
      → roundup va < ulim
      → user_mem_check env va len perm s
        ≡ returns (fails e_fault) (denied (if grants s pgdir perm va then roundup va else va) s)
  user_mem_check_below_ulim va len sound next more below =
      first_page va len sound ∙ elim (Bool-cases (grants s pgdir perm va)) [
        | inl g ↦
            rw g (check_pages_below s pgdir perm (check_rounds va len) (roundup va) next more below)
        | inr g ↦ rw g refl
      ]

  check_pages_above :
      (rounds i : ℕ)
      → ((k : ℕ)
          → k < rounds
          → IsSound s pgdir (i + k * 4096)
            × (ulim ≤ i + k * 4096)
            × (grants s pgdir perm (i + k * 4096) ≡ true))
      → check_pages pgdir perm rounds i s ≡ returns ok s
  unfolding check_pages
  check_pages_above zero i all = refl
  check_pages_above (suc rounds) i all =
      let (sound, above, granted) =
        subst (λ n. IsSound s pgdir n × (ulim ≤ n) × (grants s pgdir perm n ≡ true)) (first_at i)
          (all 0 (omega arith)) in
      check_pages_step s pgdir perm rounds i sound above granted
      ∙ check_pages_above rounds (i + 4096) λ k h.
        subst (λ n. IsSound s pgdir n × (ulim ≤ n) × (grants s pgdir perm n ≡ true)) (next_at i k)
          (all (suc k) (omega arith))

  -- For an environment with a page directory, user_mem_check passes a range whose start grants the
  -- permissions and whose further pages, after rounding, all lie at or above ULIM and grant them,
  -- the slots of the directory being sound.
  pub user_mem_check_above_ulim :
      (va len : ℕ)
      → IsSound s pgdir va
      → grants s pgdir perm va ≡ true
      → ((k : ℕ)
          → k < check_rounds va len
          → IsSound s pgdir (roundup va + k * 4096)
            × (ulim ≤ roundup va + k * 4096)
            × (grants s pgdir perm (roundup va + k * 4096) ≡ true))
      → user_mem_check env va len perm s ≡ returns ok s
  user_mem_check_above_ulim va len sound first all =
      first_page va len sound ∙ rw first (check_pages_above (check_rounds va len) (roundup va) all)
