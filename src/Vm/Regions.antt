-- ===== src/Vm/Regions.antt =====
-- boot_map_region: the loop maps every page of the range, and nothing else.
use junior_os.Base.{
  Bool, true, false, ◌%◌, inl, ℕ, zero, suc, ◌+◌, ◌*◌, ◌/◌, ◌^◌, ◌<◌, ◌≤◌, ◌≡◌, ◌≢◌, ◌⊎◌, inr, refl,
  false, List, [], ◌∷◌, ap, sym, if◌then◌else◌, length, arith, subst, ◌∙◌, bit_or,
}
use native.Mathlib.Decide.{dec_lt}
use junior_os.Machine.{pdx, ptx, add32}
use junior_os.Kernel.{Kernel, returns}
use junior_os.Vm.{map_pages, boot_map_region}
use junior_os.Vm.Walk.{pde}
use junior_os.Vm.Tables.{tables, IsNext, tables_step, walkable}
use junior_os.Vm.Space.{
  self_map, Space, entry_of, stored, same_page, stored-entry_of, stored-Space, walk-Walked,
  apart_pages, same_page_self,
}
use junior_os.Vm.Remove.{table_of}

nonempty : (xs : List ℕ) → 0 < length xs → xs ≢ []
nonempty [] h e = absurd (omega arith)
nonempty (x ∷ xs) h e = cc

room_for : {P : Type 0} (xs : List ℕ) → P ⊎ (0 < length xs) → P ⊎ (xs ≢ [])
room_for xs (inl p) = inl p
room_for xs (inr more) = inr (nonempty xs more)

module _ (pgdir va pa perm : ℕ) where
  -- The `k`th page of the range, and the entry for it.
  abbrev pub page_at : ℕ → ℕ
  page_at k = add32 va (k * 4096)

  abbrev pub value_at : ℕ → ℕ
  value_at k = bit_or (bit_or (add32 pa (k * 4096)) perm) 1

  -- One round: the page is mapped, every other translation stays.
  record Round (k : ℕ) (xs ys : List ℕ) (s t : Kernel) : Type 0 where
    space : Space pgdir ys t
    cost : length xs ≤ length ys + 1
    no_cost : s.mem pgdir (pdx (page_at k)) % 2 ≡ 1 → length xs ≡ length ys
    present : t.mem pgdir (pdx (page_at k)) % 2 ≡ 1
    same : t ≡ record s { page = t.page; page_free_list = t.page_free_list; mem = t.mem }
    entries :
        (va' : ℕ)
        → pdx va' ≢ self_map
        → entry_of t pgdir va'
          ≡ (if same_page (page_at k) va' then value_at k else entry_of s pgdir va')

  map_pages_step :
      (rounds i : ℕ) (s : Kernel) (xs : List ℕ)
      → Space pgdir xs s
      → pdx (page_at i) ≢ self_map
      → (pde s pgdir (page_at i) ≢ 0) ⊎ (0 < length xs)
      → (t : Kernel) × (ys : List ℕ) × (map_pages pgdir va pa perm (suc rounds) i s
          ≡ map_pages pgdir va pa perm rounds (i + 1) t)
        × Round i xs ys s t
  unfolding map_pages
  map_pages_step rounds i s xs space user room =
      let (t, ys, run, walked) = walk-Walked s pgdir (page_at i) xs space user (room_for xs room) in
      (
        stored (table_of t pgdir (page_at i)) (ptx (page_at i)) (value_at i) t,
        ys,
        rw run refl,
        record {
          space = stored-Space t pgdir (page_at i) (value_at i) ys walked.space user walked.present;
          cost = walked.cost;
          no_cost = walked.no_cost;
          present = ground (arith, walked.present, walked.space.slots (pdx (page_at i)) user);
          same = ground (arith, walked.same);
          entries = λ va' h.
              stored-entry_of t pgdir (page_at i) (value_at i) ys walked.space user walked.present
                va' h
              ∙ ap (λ e. if same_page (page_at i) va' then value_at i else e) (walked.kept va' h);
        },
      )

  -- The pages from the `i`th up to the `n`th, without it, have been mapped.
  pub record Region (i n : ℕ) (s t : Kernel) : Type 0 where
    pub left : List ℕ
    pub space : Space pgdir left t
    pub same : t ≡ record s { page = t.page; page_free_list = t.page_free_list; mem = t.mem }
    pub outside :
        (va' : ℕ)
        → pdx va' ≢ self_map
        → ((k : ℕ) → i ≤ k → k < n → same_page (page_at k) va' ≡ false)
        → entry_of t pgdir va' ≡ entry_of s pgdir va'
    pub inside :
        (k : ℕ)
        → i ≤ k
        → k < n
        → ((j : ℕ) → k < j → j < n → same_page (page_at j) (page_at k) ≡ false)
        → entry_of t pgdir (page_at k) ≡ value_at k

  -- The range of `n` pages is mapped in `t`, and nothing else has changed; of the free pages `xs`
  -- the pages `ys` are left.
  pub record Mapping (n : ℕ) (xs ys : List ℕ) (s t : Kernel) : Type 0 where
    pub pages : (k : ℕ) → k < n → entry_of t pgdir (va + k * 4096) ≡ value_at k
    pub beside :
        (va' : ℕ)
        → pdx va' ≢ self_map
        → va' < 2 ^ 32
        → (va' / 4096 < va / 4096) ⊎ (va / 4096 + n ≤ va' / 4096)
        → entry_of t pgdir va' ≡ entry_of s pgdir va'
    pub space : Space pgdir ys t
    pub cost : length xs ≤ length ys + tables true (va / 4096 % 1024) n
    pub same : t ≡ record s { page = t.page; page_free_list = t.page_free_list; mem = t.mem }

  module _ (n : ℕ) (users : (k : ℕ) → k < n → pdx (page_at k) ≢ self_map)
      (fits : va + n * 4096 ≤ 2 ^ 32) where
    -- The next page is in the same slot of the directory, or is the first of the next slot.
    IsNext-slot :
        (i : ℕ)
        → i < n
        → (fresh : Bool) × IsNext fresh ((va / 4096 + i) % 1024) ((va / 4096 + (i + 1)) % 1024)
          × (fresh ≡ false → pdx (page_at (i + 1)) ≡ pdx (page_at i))
    IsNext-slot i lt = elim (dec_lt ((va / 4096 + i) % 1024) 1023) [
      | yes inner ↦ (false, omega arith, λ h. omega arith)
      | no last ↦ (true, (omega arith, omega arith), λ h. cc)
    ]

    map_pages-Region :
        (rounds i : ℕ) (fresh : Bool) (s : Kernel) (xs : List ℕ)
        → i + rounds ≡ n
        → Space pgdir xs s
        → tables fresh ((va / 4096 + i) % 1024) rounds ≤ length xs
        → (fresh ≡ false → s.mem pgdir (pdx (page_at i)) % 2 ≡ 1)
        → (t : Kernel) × (map_pages pgdir va pa perm rounds i s ≡ returns tt t)
          × (region : Region i n s t) × (length xs
              ≤ length region.left + tables fresh ((va / 4096 + i) % 1024) rounds)
    unfolding map_pages
    map_pages-Region zero i fresh s xs e space room there = (
      s,
      refl,
      record {
        left = xs;
        space = space;
        same = refl;
        outside = λ va' h none_same. refl;
        inside = λ k lo hi later. absurd (omega arith);
      },
      omega arith,
    )
    map_pages-Region (suc rounds) i fresh s xs e space room there =
        let (t, ys, step, round) = map_pages_step rounds i s xs space (users i (omega arith)) (
          walkable fresh ((va / 4096 + i) % 1024) rounds (pde s pgdir (page_at i)) (length xs) room
            there) in
        let (next, slot, again) = IsNext-slot i (omega arith) in
        let (enough, total) =
          tables_step fresh next ((va / 4096 + i) % 1024) ((va / 4096 + (i + 1)) % 1024) rounds
            (length xs) (length ys) (omega arith) slot round.cost (λ old. round.no_cost (there old))
            room in
        let (u, rest, region, cost) =
          map_pages-Region rounds (i + 1) next t ys (omega arith) round.space enough
            (λ old. rw (again old) round.present) in
        (
          u,
          step ∙ rest,
          record {
            left = region.left;
            space = region.space;
            same = ground (arith, region.same, round.same);
            outside = λ va' h none_same.
                region.outside va' h (λ k lo hi. none_same k (omega arith) hi)
                ∙ round.entries va' h
                ∙ rw (none_same i (omega arith) (omega arith)) refl;
            inside = λ k lo hi later. elim (dec_lt i k) [
              | yes further ↦ region.inside k (omega arith) hi later
              | no first ↦
                  let same : k ≡ i = omega arith in
                  let untouched = λ (j : ℕ) (lo' : i + 1 ≤ j) (hi' : j < n).
                    subst (λ m. same_page (page_at j) (page_at m) ≡ false) same
                      (later j (omega arith) hi') in
                  subst (λ m. entry_of u pgdir (page_at m) ≡ value_at m) (sym same)
                    (region.outside (page_at i) (users i (omega arith)) untouched
                      ∙ round.entries (page_at i) (users i (omega arith))
                      ∙ rw (same_page_self (page_at i)) refl)
            ];
          },
          total (length region.left) cost,
        )

    -- From a sound address space with a free page for each page table that a range touches, the
    -- range not wrapping around and avoiding the slot of UVPT, boot_map_region returns and takes no
    -- more free pages than that; then the `k`th page of the range translates to the `k`th physical
    -- page under the flags, for every `k`, and an address on no page of the range, outside the slot
    -- of UVPT, translates as before.
    pub boot_map_region-Region :
        (size : ℕ) (s : Kernel) (xs : List ℕ)
        → size / 4096 ≡ n
        → Space pgdir xs s
        → tables true (va / 4096 % 1024) n ≤ length xs
        → (t : Kernel) × (ys : List ℕ) × (boot_map_region pgdir va size pa perm s ≡ returns tt t)
          × Mapping n xs ys s t
    unfolding boot_map_region
    boot_map_region-Region size s xs e space room =
        let first : (va / 4096 + 0) % 1024 ≡ va / 4096 % 1024 = omega arith in
        let (t, run, region, cost) =
          map_pages-Region n 0 true s xs (omega arith) space (rw first room) (λ h. cc) in
        let at : (k : ℕ) → k < n → page_at k ≡ va + k * 4096 = λ k h. omega arith in
        (
          t,
          region.left,
          ap (λ r. map_pages pgdir va pa perm r 0 s) e ∙ run,
          record {
            pages = λ k h.
                subst (λ a. entry_of t pgdir a ≡ value_at k) (at k h)
                  (region.inside k (omega arith) h (λ j lo hi.
                    apart_pages (page_at j) (page_at k) (omega arith) (omega arith) (omega arith)));
            beside = λ va' user small off.
                region.outside va' user
                  (λ k lo hi. apart_pages (page_at k) va' (omega arith) small (omega arith));
            space = region.space;
            cost = subst (λ o. length xs ≤ length region.left + tables true o n) first cost;
            same = region.same;
          },
        )
