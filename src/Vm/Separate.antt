-- ===== src/Vm/Separate.antt =====
-- Two page directories that share no page table below UTOP, and above it only in the same slots, as the
-- kernel's part of every directory does: a change below UTOP in one leaves the other as it is.
use junior_os.Base.{
  ℕ, ◌/◌, ◌%◌, ◌≡◌, ◌≢◌, ◌⊎◌, ◌<◌, ◌≤◌, refl, ◌&&◌, ◌==◌, inl, inr, true, false, List, has, arith,
  sym, ◌∙◌, ap, Bool-cases,
}
use junior_os.Machine.{pdx, ptx}
use junior_os.Kernel.{Kernel}
use junior_os.Vm.Space.{self_map, Space, entry_of, IsForeign, IsSlot, same_page}
use junior_os.Vm.Insert.{Mapped}

-- The first slot of a directory that is the kernel's.
abbrev pub kernel_slot : ℕ
kernel_slot = 955

pub record IsSeparate (s : Kernel) (p k : ℕ) : Type 0 where
  pub roots : p ≢ k
  pub root_left : (d : ℕ) → d ≢ self_map → s.mem p d % 2 ≡ 1 → s.mem p d / 4096 ≢ k
  pub root_right : (d : ℕ) → d ≢ self_map → s.mem k d % 2 ≡ 1 → s.mem k d / 4096 ≢ p
  pub tables :
      (d e : ℕ)
      → d ≢ self_map
      → e ≢ self_map
      → s.mem p d % 2 ≡ 1
      → s.mem k e % 2 ≡ 1
      → s.mem p d / 4096 ≡ s.mem k e / 4096
      → (d ≡ e) × (kernel_slot ≤ d)

pub IsSeparate-sym : (s : Kernel) (p k : ℕ) → IsSeparate s p k → IsSeparate s k p
IsSeparate-sym s p k apart = record {
  roots = λ e. apart.roots (sym e);
  root_left = apart.root_right;
  root_right = apart.root_left;
  tables = λ d e hd he pd pe same.
      let (at, high) = apart.tables e d he hd pe pd (sym same) in (sym at, omega arith);
}

-- A page is mapped below UTOP in the directory `k`, and `p` is another one.
module _ (s u : Kernel) (p k pp va perm : ℕ) (xs : List ℕ) (mine : Space p xs s)
    (m : Mapped k pp va perm xs s u) (apart : IsSeparate s p k) (low : pdx va < kernel_slot) where
  root_kept : u.mem p ≡ s.mem p
  root_kept = m.memory p (record { root = apart.roots; leaf = apart.root_right }) mine.root

  slot_kept : (d : ℕ) → u.mem p d ≡ s.mem p d
  slot_kept d = ap (λ (f : ℕ → ℕ). f d) root_kept

  -- A table of `p` that `k` has in the same slot, or that `k` does not have.
  abbrev IsShared : ℕ → Type 0
  IsShared d = (s.mem k d % 2 ≡ 1) × (s.mem p d / 4096 ≡ s.mem k d / 4096)

  side_of :
      (d : ℕ) → d ≢ self_map → s.mem p d % 2 ≡ 1 → IsShared d ⊎ IsForeign s k (s.mem p d / 4096)
  side_of d h b =
      elim (Bool-cases ((s.mem k d % 2 == 1) && (s.mem p d / 4096 == s.mem k d / 4096))) [
        | inl both ↦ inl (ground arith, ground arith)
        | inr differ ↦ inr (record {
          root = apart.root_left d h b;
          leaf = λ e he be same.
              let at = (apart.tables d e h he b be (sym same)).0 in
              let here : s.mem k d % 2 ≡ 1 = rw at be in
              let frames : s.mem p d / 4096 ≡ s.mem k d / 4096 =
                sym same ∙ ap (λ i. s.mem k i / 4096) (sym at) in
              ground arith;
        })
      ]

  same_entry :
      (va' : ℕ) → pdx va' ≢ self_map → kernel_slot ≤ pdx va' → entry_of u k va' ≡ entry_of s k va'
  same_entry va' h high =
      let other : same_page va va' ≡ false = ground arith in m.mapped va' h ∙ rw other refl

  word_kept :
      (va' : ℕ)
      → pdx va' ≢ self_map
      → s.mem p (pdx va') % 2 ≡ 1
      → u.mem (s.mem p (pdx va') / 4096) (ptx va') ≡ s.mem (s.mem p (pdx va') / 4096) (ptx va')
  unfolding entry_of
  word_kept va' h b = elim (side_of (pdx va') h b) [
    | inl (there, same) ↦
        let high = (apart.tables (pdx va') (pdx va') h h b there same).1 in
        let kept = m.slots (pdx va') h there in
        rw same (ground (arith, same_entry va' h high, kept))
    | inr foreign ↦
        ap (λ (f : ℕ → ℕ). f (ptx va'))
          (m.memory (s.mem p (pdx va') / 4096) foreign (ground (arith, mine.slots (pdx va') h)))
  ]

  pub other-entry_of : (va' : ℕ) → pdx va' ≢ self_map → entry_of u p va' ≡ entry_of s p va'
  unfolding entry_of
  other-entry_of va' h = rw (slot_kept (pdx va')) (ground (arith, word_kept va' h))

  pub other-Space : Space p m.left u
  other-Space = record {
    small = m.space.small;
    free = m.space.free;
    root = m.shrunk p mine.root;
    slots = λ d h. slot d h (mine.slots d h);
    apart = λ d e hd he ne pd pe. ground (arith, mine.apart d e hd he ne, slot_kept d, slot_kept e);
  }
    where
      slot : (d : ℕ) → d ≢ self_map → IsSlot s p xs d → IsSlot u p m.left d
      slot d h (inl z) = inl (slot_kept d ∙ z)
      slot d h (inr (b, small, off, out)) = inr (
        rw (slot_kept d) b,
        rw (slot_kept d, m.kept.0) small,
        rw (slot_kept d) off,
        rw (slot_kept d) (m.shrunk (s.mem p d / 4096) out),
      )

  pub other-IsSeparate : IsSeparate u p k
  other-IsSeparate = record {
    roots = apart.roots;
    root_left = λ d h b. rw (slot_kept d) (apart.root_left d h (rw (slot_kept d) at b));
    root_right = λ d h b. from d h b (m.tables d h b);
    tables = λ d e hd he b b'. shared d e hd he (rw (slot_kept d) at b) b' (m.tables e he b');
  }
    where
      from :
          (d : ℕ)
          → d ≢ self_map
          → u.mem k d % 2 ≡ 1
          → (has (u.mem k d / 4096) xs ≡ true) ⊎ (u.mem k d ≡ s.mem k d)
          → u.mem k d / 4096 ≢ p
      from d h b (inl new) = λ e. ground (arith, mine.root)
      from d h b (inr old) = rw old (apart.root_right d h (rw old at b))

      shared :
          (d e : ℕ)
          → d ≢ self_map
          → e ≢ self_map
          → s.mem p d % 2 ≡ 1
          → u.mem k e % 2 ≡ 1
          → (has (u.mem k e / 4096) xs ≡ true) ⊎ (u.mem k e ≡ s.mem k e)
          → u.mem p d / 4096 ≡ u.mem k e / 4096
          → (d ≡ e) × (kernel_slot ≤ d)
      shared d e hd he b b' (inl new) =
          λ same. absurd (ground (arith, mine.slots d hd, slot_kept d))
      shared d e hd he b b' (inr old) = λ same.
          apart.tables d e hd he b (rw old at b')
            (ap (λ w. w / 4096) (sym (slot_kept d)) ∙ same ∙ ap (λ w. w / 4096) old)
